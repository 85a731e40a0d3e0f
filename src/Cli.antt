-- ===== src/Cli.antt =====
-- `main` of apps/neon.cpp: its arguments, the self test, and the loops that give lines to `Shell::Exec`,
-- which is an argument: it takes a line and the state of the shell. What is printed is a list of lines.
pub mod Batches
pub mod Flags
use neon_world_os.Base.{
  ℕ, suc, Bool, true, false, not, ◌||◌, ◌&&◌, List, [], ◌∷◌, ◌++◌, Option, none, some, Bytes, codes,
  if◌then◌else◌, ◌==◌, is_empty, str_eq, find_byte,
}
use mathlib.Core.Option
use neon_world_os.Config.{parts}
use neon_world_os.Vfs.State.{Vfs}
use neon_world_os.Vfs.Files.{mkdir, write, read}

-- `sh.Exec`, over the state of the shell; `none` if it throws.
abbrev pub Exec : Type 0 → Type 0
Exec S = Bytes → S → Option (Bytes × S)

abbrev pub json_line : Bytes
json_line = codes "mode json"

-- The rest of a loop: the state, the lines printed, and `errc`.
pub record Batch (S : Type 0) : Type 0 where
  pub shell : S
  pub printed : List Bytes
  pub errc : ℕ

-- A turn of the loop; the three loops have the same body. Nothing in `main` catches what `Exec` throws
-- here: it ends the program with no exit code of `main`, which is `none`.
unfoldable pub batch_turn : {S : Type 0} → Exec S → Bytes → Batch S → Option (Batch S)
batch_turn exec line b = if is_empty line then some b else elim (exec line b.shell) [
  | none ↦ none
  | some (out, s) ↦ some (record {
    shell = s;
    printed = if is_empty out then b.printed else b.printed ++ out ∷ [];
    errc = if str_eq out (codes "err") then 2 else b.errc;
  })
]

unfoldable pub batch_loop : {S : Type 0} → Exec S → List Bytes → Batch S → Option (Batch S)
unfolding batch_turn
batch_loop exec [] b = some b
batch_loop exec (line ∷ lines) b = elim (batch_turn exec line b) [
  | none ↦ none
  | some b' ↦ batch_loop exec lines b'
]

abbrev pub start_batch : {S : Type 0} → S → Batch S
start_batch s = record { shell = s; printed = []; errc = 0 }

-- `if (json) sh.Exec("mode json")`.
abbrev pub json_first : {S : Type 0} → Exec S → Bool → S → Option S
json_first exec json s = if json then Option.map (λ r. r.1) (exec json_line s) else some s

-- The lines of a batch, behind the line that `--json` puts before them.
unfoldable pub run_lines : {S : Type 0} → Exec S → Bool → List Bytes → S → Option (Batch S)
unfolding batch_loop
run_lines exec json lines s = elim (json_first exec json s) [
  | none ↦ none
  | some s' ↦ batch_loop exec lines (start_batch s')
]

unfoldable pub run_multi : {S : Type 0} → Exec S → Bool → Bytes → S → Option (Batch S)
unfolding run_lines parts
run_multi exec json multi s = run_lines exec json (parts b';' multi) s

unfoldable pub run_stdin : {S : Type 0} → Exec S → Bytes → S → Option (Batch S)
unfolding batch_loop parts
run_stdin exec input s = batch_loop exec (parts 10 input) (start_batch s)

-- A script that cannot be opened is the exit code 1.
unfoldable pub run_script : {S : Type 0} → Exec S → Bool → Option Bytes → S → Option (Batch S)
unfolding run_lines parts
run_script exec json none s = some (record { shell = s; printed = []; errc = 1 })
run_script exec json (some text) s = run_lines exec json (parts 10 text) s

-- The loop of the prompt: it ends at `exit` or `quit`, or with the input.
unfoldable pub prompt_loop : {S : Type 0} → Exec S → List Bytes → Batch S → Option (Batch S)
prompt_loop exec [] b = some b
prompt_loop exec (line ∷ lines) b =
    elim (str_eq line (codes "exit") || str_eq line (codes "quit")) [
      | true ↦ some b
      | false ↦ elim (exec line b.shell) [
        | none ↦ none
        | some (out, s) ↦ prompt_loop exec lines (record {
          shell = s;
          printed = if is_empty out then b.printed else b.printed ++ out ∷ [];
          errc = b.errc;
        })
      ]
    ]

-- The self test: the exit code, with the state of the file system behind the shell's. What `Exec` throws
-- is caught.
unfoldable pub self_test : {S : Type 0} → Exec S → Vfs → S → ℕ
unfolding mkdir write read
self_test exec v s =
    let v' = (write (codes "/st/a.txt") (codes "ok") (mkdir (codes "/st") v).0).0 in
    elim (read (codes "/st/a.txt") v') [
      | none ↦ 2
      | some r ↦ if not (str_eq r (codes "ok")) then 2 else elim (exec json_line s) [
        | none ↦ 2
        | some (out, s') ↦ elim (exec (codes "ps") s') [ none ↦ 2 | some (ps, s'') ↦ ps_test ps ]
      ]
    ]
  where
    absent : Option ℕ → Bool
    absent none = true
    absent (some i) = false

    ps_test : Bytes → ℕ
    ps_test out = if absent (find_byte b'{' out) && absent (find_byte b'[' out) then 2 else 0
