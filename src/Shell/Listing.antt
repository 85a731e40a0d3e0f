-- ===== src/Shell/Listing.antt =====
-- The block for `-l` that is pasted into many commands of src/shell.cpp, and the texts of a list.
use neon_world_os.Base.{
  ℕ, zero, suc, ◌+◌, ◌/◌, ◌%◌, Bool, true, false, List, [], ◌∷◌, ◌++◌, Option, none, some, Bytes,
  codes, if◌then◌else◌, ltb, str_eq,
}
use neon_world_os.Vfs.State.{Vfs, Meta, new_meta}
use neon_world_os.Vfs.Files.{stat}
use neon_world_os.Vfs.Metadata.{get_meta}
use neon_world_os.Vfs.Dump.{decimal, newline, space}
use neon_world_os.Plugin.{Loader}
use neon_world_os.Shell.State.{Shell}

-- What the commands find around them: the names `out` and `toks`, which the pasted block uses and
-- nothing declares; whether a file of the host opens; the time that a command took; and plugins.
pub record Outside : Type 0 where
  pub out : List Bytes
  pub toks : List Bytes
  pub may_write : Bytes → Bool
  pub may_read : Bytes → Bool
  pub elapsed_us : ℕ
  pub loader : Loader Shell

-- A `uint32_t` under `std::oct`: it has at most 11 digits.
unfoldable pub octal_from : ℕ → ℕ → Bytes → Bytes
octal_from zero n acc = acc
octal_from (suc fuel) n acc = elim (ltb n 8) [
  | true ↦ (b'0' + n) ∷ acc
  | false ↦ octal_from fuel (n / 8) ((b'0' + n % 8) ∷ acc)
]

unfoldable pub octal : ℕ → Bytes
unfolding octal_from
octal n = octal_from 11 n []

-- `p`: the second word, unless it is the option.
unfoldable pub listed_path : List Bytes → Bytes
listed_path (c ∷ p ∷ rest) = if str_eq p (codes "-l") then codes "/" else p
listed_path toks = codes "/"

abbrev pub stat_or : Option (Bool × ℕ) → Bool × ℕ
stat_or none = (false, 0)
stat_or (some p) = p

abbrev pub meta_or : Option Meta → Meta
meta_or none = new_meta
meta_or (some m) = m

-- The line of a name. It ends in a backslash and an `n`.
unfoldable pub long_line : Bytes → Vfs → Bytes → Bytes
unfolding stat get_meta octal decimal
long_line p v e =
    let full = if str_eq p (codes "/") then codes "/" ++ e else p ++ (codes "/" ++ e) in
    let (dir, size) = stat_or (stat full v) in
    let m = meta_or (get_meta full v) in
    (if dir then b'd' else b'-')
    ∷ (octal m.mode
        ++ (space ∷ (decimal size ++ (space ∷ (decimal m.mtime ++ (space ∷ (e ++ codes "\\n")))))))

unfoldable pub long_lines : Bytes → Vfs → List Bytes → Bytes
unfolding long_line
long_lines p v [] = []
long_lines p v (e ∷ out) = long_line p v e ++ long_lines p v out

-- The block: the long list if the second word is `-l`, or else the text that was made.
unfoldable pub long_or : List Bytes → List Bytes → List Bytes → Vfs → Bytes → Bytes
unfolding long_lines listed_path
long_or (c ∷ option ∷ rest) out toks v text =
    if str_eq option (codes "-l") then long_lines (listed_path toks) v out else text
long_or a out toks v text = text

-- Each item on a line of its own.
unfoldable pub lines : List Bytes → Bytes
lines [] = []
lines (i ∷ items) = i ++ newline ∷ lines items
