-- ===== src/Vfs/Path.antt =====
-- `Vfs::NormalizePath` of src/vfs.cpp, and the way the operations cut a path into parent and name.
pub mod Normal
pub mod Parent
use neon_world_os.Base.{
  ℕ, suc, Bool, true, false, ◌||◌, List, [], ◌∷◌, ◌++◌, Option, none, some, ◌≡◌, refl, Bytes, codes,
  ◌==◌, if◌then◌else◌, is_empty, str_eq, drop_last, take, drop, find_last_of,
}

abbrev pub slash : ℕ
slash = b'/'

abbrev pub dot : Bytes
dot = b'.' ∷ []

abbrev pub dot_dot : Bytes
dot_dot = b'.' ∷ b'.' ∷ []

-- The lambda `flush`: what `parts` becomes.
unfoldable pub flush : List Bytes → Bytes → List Bytes
flush parts [] = parts
flush parts (c ∷ cur) = parts ++ (c ∷ cur) ∷ []

-- The loop over the characters, over `parts` and `cur`, with the final `flush`.
unfoldable pub cut : Bytes → List Bytes → Bytes → List Bytes
cut [] parts cur = flush parts cur
cut (c ∷ s) parts cur = elim (c == slash) [
  | true ↦ cut s (flush parts cur) []
  | false ↦ cut s parts (cur ++ c ∷ [])
]

-- The loop over `parts`: `stack` after one part, and after all.
unfoldable pub push_part : Bytes → List Bytes → List Bytes
push_part p stack =
    if is_empty p || str_eq p dot
    then stack
    else if str_eq p dot_dot
    then drop_last stack
    else stack ++ p ∷ []

unfoldable pub resolve : List Bytes → List Bytes → List Bytes
resolve [] stack = stack
resolve (p ∷ parts) stack = resolve parts (push_part p stack)

-- The loop that builds `out`.
unfoldable pub render_from : List Bytes → Bytes → Bytes
render_from [] out = out
render_from (p ∷ []) out = out ++ p
render_from (p ∷ q ∷ stack) out = render_from (q ∷ stack) ((out ++ p) ++ slash ∷ [])

unfoldable pub render : List Bytes → Bytes
render stack = render_from stack (slash ∷ [])

-- The names that a path stands for, from the root.
unfoldable pub segments : Bytes → List Bytes
segments path = resolve (cut path [] []) []

unfoldable pub normalize_path : Bytes → Bytes
normalize_path path = render (segments path)

normalize_runs : normalize_path (codes "/a/./b//c/../d") ≡ codes "/a/b/d"
unfolding normalize_path segments resolve push_part cut flush render render_from str_eq
normalize_runs = refl
