-- ===== src/Shell/Tokenize.antt =====
-- `Shell::Tokenize` of src/shell.cpp.
pub mod Words
use neon_world_os.Base.{
  ℕ, Bool, true, false, not, ◌&&◌, List, [], ◌∷◌, ◌++◌, Bytes, codes, ◌==◌, ◌≡◌, refl,
}
use neon_world_os.Util.{push_part}

abbrev pub backslash : ℕ
backslash = 92

abbrev pub single_quote : ℕ
single_quote = 39

abbrev pub double_quote : ℕ
double_quote = 34

abbrev pub space : ℕ
space = 32

-- The loop over the characters, over `out`, `cur`, `in_s`, `in_d` and `esc`.
unfoldable pub tokenize_from : Bytes → List Bytes → Bytes → Bool → Bool → Bool → List Bytes
unfolding push_part
tokenize_from [] out cur in_s in_d esc = push_part out cur
tokenize_from (c ∷ s) out cur in_s in_d esc = elim esc [
  | true ↦ tokenize_from s out (cur ++ c ∷ []) in_s in_d false
  | false ↦ elim (c == backslash) [
    | true ↦ tokenize_from s out cur in_s in_d true
    | false ↦ elim (c == single_quote && not in_d) [
      | true ↦ tokenize_from s out cur (not in_s) in_d false
      | false ↦ elim (c == double_quote && not in_s) [
        | true ↦ tokenize_from s out cur in_s (not in_d) false
        | false ↦ elim (c == space && (not in_s && not in_d)) [
          | true ↦ tokenize_from s (push_part out cur) [] in_s in_d false
          | false ↦ tokenize_from s out (cur ++ c ∷ []) in_s in_d false
        ]
      ]
    ]
  ]
]

unfoldable pub tokenize : Bytes → List Bytes
unfolding tokenize_from
tokenize line = tokenize_from line [] [] false false false

tokenize_runs :
    tokenize (codes "write /a 'b c'  d") ≡ codes "write" ∷ codes "/a" ∷ codes "b c" ∷ codes "d" ∷ []
unfolding tokenize
tokenize_runs = refl
