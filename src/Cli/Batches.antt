-- ===== src/Cli/Batches.antt =====
-- The exit code of the loops that give lines to the shell, and what they print.
use neon_world_os.Base.{
  ℕ, Bool, true, false, List, [], ◌∷◌, ◌++◌, Option, none, some, ◌≡◌, refl, sym, ap, inl, inr, ◌∙◌,
  Option-cases, Bytes, codes, if◌then◌else◌, is_empty, str_eq, append_assoc, append-nil,
}
use neon_world_os.Cli.{
  Exec, Batch, batch_turn, batch_loop, start_batch, json_first, run_lines, run_multi,
}
use mathlib.Core.Option
use neon_world_os.Config.{parts}

-- What comes out of the lines that are not empty, each run on the state that the one before it left;
-- `none` as soon as one throws.
unfoldable pub outputs : {S : Type 0} → Exec S → List Bytes → S → Option (List Bytes)
outputs exec [] s = some []
outputs exec (line ∷ lines) s = elim (is_empty line) [
  | true ↦ outputs exec lines s
  | false ↦ elim (exec line s) [
    | none ↦ none
    | some (out, s') ↦ Option.map (λ os. out ∷ os) (outputs exec lines s')
  ]
]

abbrev pub shown : List Bytes → List Bytes
shown [] = []
shown (o ∷ os) = if is_empty o then shown os else o ∷ shown os

abbrev pub has_err : List Bytes → Bool
has_err [] = false
has_err (o ∷ os) = if str_eq o (codes "err") then true else has_err os

-- What is printed and the exit code: of a batch, and of what comes out of the lines behind a batch.
abbrev pub result : {S : Type 0} → Batch S → List Bytes × ℕ
result b = (b.printed, b.errc)

abbrev pub result_after : List Bytes → ℕ → List Bytes → List Bytes × ℕ
result_after printed errc out = (printed ++ shown out, if has_err out then 2 else errc)

shown_step :
    (o : Bytes) (os printed : List Bytes)
    → (if is_empty o then printed else printed ++ o ∷ []) ++ shown os ≡ printed ++ shown (o ∷ os)
shown_step [] os printed = refl
shown_step (c ∷ o) os printed = append_assoc printed ((c ∷ o) ∷ []) (shown os)

errc_step :
    (is_err later : Bool) (errc : ℕ)
    → (if later then 2 else (if is_err then 2 else errc))
      ≡ (if (if is_err then true else later) then 2 else errc)
errc_step true true errc = refl
errc_step true false errc = refl
errc_step false true errc = refl
errc_step false false errc = refl

turn_step :
    (o : Bytes) (os printed : List Bytes) (errc : ℕ)
    → result_after
        (if is_empty o then printed else printed ++ o ∷ [])
        (if str_eq o (codes "err") then 2 else errc)
        os
      ≡ result_after printed errc (o ∷ os)
turn_step o os printed errc =
    cc (shown_step o os printed, errc_step (str_eq o (codes "err")) (has_err os) errc)

module _ {S : Type 0} (exec : Exec S) where
  batch_loop-outputs :
      (lines : List Bytes) (b : Batch S)
      → Option.map result (batch_loop exec lines b)
        ≡ Option.map (result_after b.printed b.errc) (outputs exec lines b.shell)
  unfolding batch_loop batch_turn outputs
  batch_loop-outputs [] b = ap (λ (p : List Bytes). some (p, b.errc)) (sym (append-nil b.printed))
  batch_loop-outputs ([] ∷ lines) b = batch_loop-outputs lines b
  batch_loop-outputs ((c ∷ l) ∷ lines) b = elim (Option-cases (exec (c ∷ l) b.shell)) [
    | inl e ↦ rw e refl
    | inr ((o, s), e) ↦ rw e (
        batch_loop-outputs lines (record {
          shell = s;
          printed = if is_empty o then b.printed else b.printed ++ o ∷ [];
          errc = if str_eq o (codes "err") then 2 else b.errc;
        })
        ∙ behind o (outputs exec lines s))
  ]
    where
      behind :
          (o : Bytes) (outs : Option (List Bytes))
          → Option.map
              (result_after
                (if is_empty o then b.printed else b.printed ++ o ∷ [])
                (if str_eq o (codes "err") then 2 else b.errc))
              outs
            ≡ Option.map (result_after b.printed b.errc) (Option.map (λ os. o ∷ os) outs)
      behind o none = refl
      behind o (some os) = ap some (turn_step o os b.printed b.errc)

-- What comes out of the lines of a batch, behind the line that `--json` puts before them.
abbrev pub all_outputs : {S : Type 0} → Exec S → Bool → List Bytes → S → Option (List Bytes)
all_outputs exec json lines s = elim (json_first exec json s) [
  | none ↦ none
  | some s' ↦ outputs exec lines s'
]

-- A batch is aborted if a line throws. Otherwise its exit code is 2 if one of its lines gives `err`, and 0
-- if none does; each line that is not empty is run, in order, on the state that the one before it left, and
-- what comes out of it is printed if it is not empty.
pub run_multi-Ends :
    {S : Type 0} (exec : Exec S) (json : Bool) (multi : Bytes) (s : S)
    → Option.map result (run_multi exec json multi s)
      ≡ Option.map
          (λ out. (shown out, if has_err out then 2 else 0))
          (all_outputs exec json (parts b';' multi) s)
unfolding run_multi run_lines
run_multi-Ends {S} exec json multi s = go (json_first exec json s)
  where
    go :
        (o : Option S)
        → Option.map result
            (elim o [ none ↦ none | some s' ↦ batch_loop exec (parts b';' multi) (start_batch s') ])
          ≡ Option.map
              (λ out. (shown out, if has_err out then 2 else 0))
              (elim o [ none ↦ none | some s' ↦ outputs exec (parts b';' multi) s' ])
    go none = refl
    go (some s') = batch_loop-outputs exec (parts b';' multi) (start_batch s')
