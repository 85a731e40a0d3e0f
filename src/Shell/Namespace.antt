-- ===== src/Shell/Namespace.antt =====
-- `ns_apply_` of src/shell.cpp.
use neon_world_os.Base.{
  Bool, true, false, not, [], ◌∷◌, ◌++◌, Bytes, codes, if◌then◌else◌, ◌==◌, is_empty, str_eq,
  starts_with, ◌≡◌, refl, arith, append_assoc, append-nil, Bool-cases, inl, inr,
}
use neon_world_os.Vfs.Path.{slash}

abbrev pub ns_root : Bytes
ns_root = codes "/@ns/"

-- `path.empty() || path[0] != '/'`.
unfoldable pub is_relative : Bytes → Bool
is_relative [] = true
is_relative (c ∷ path) = not (c == slash)

unfoldable pub ns_apply : Bytes → Bytes → Bytes
unfolding is_relative
ns_apply ns path =
    if is_empty ns
    then path
    else if is_relative path
    then path
    else if starts_with path ns_root
    then path
    else if str_eq path (slash ∷ [])
    then ns_root ++ ns
    else (ns_root ++ ns) ++ path

starts_with-append : (p s : Bytes) → starts_with (p ++ s) p ≡ true
unfolding starts_with
starts_with-append [] s = refl
starts_with-append (c ∷ p) s = ground (arith, starts_with-append p s)

-- A path that has a namespace is left alone.
ns_apply_done : (ns path : Bytes) → starts_with path ns_root ≡ true → ns_apply ns path ≡ path
unfolding ns_apply
ns_apply_done ns path h = ground (arith, h)

ns_apply_new :
    (ns path : Bytes)
    → is_empty ns ≡ false
    → is_relative path ≡ false
    → starts_with path ns_root ≡ false
    → ns_apply ns path ≡ ns_root ++ (ns ++ (if str_eq path (slash ∷ []) then [] else path))
unfolding ns_apply
ns_apply_new ns path ne abs h =
    ground (arith, ne, abs, h, append_assoc ns_root ns path, append-nil ns)

-- A path is namespaced once: a second namespace, the same or another, changes nothing more, if the path
-- is absolute and the first namespace is not empty.
pub ns_apply-ns_apply :
    (ns other path : Bytes)
    → is_empty ns ≡ false
    → is_relative path ≡ false
    → ns_apply other (ns_apply ns path) ≡ ns_apply ns path
ns_apply-ns_apply ns other path ne abs = elim (Bool-cases (starts_with path ns_root)) [
  | inl e ↦ rw (ns_apply_done ns path e) (ns_apply_done other path e)
  | inr e ↦
      rw (ns_apply_new ns path ne abs e) (ns_apply_done other _ (starts_with-append ns_root _))
]
