-- ===== src/Vfs/Tree/Used.antt =====
-- The bytes in use after a change of a tree.
use neon_world_os.Base.{
  ◌+◌, ◌≤◌, [], ◌∷◌, none, some, ◌≡◌, sym, ◌∙◌, inl, inr, arith, Bytes, length, Option-cases,
}
use neon_world_os.Vfs.Tree.{Node, node, children, set_child, lookup, Loc, get, update, calc_used}
use neon_world_os.Vfs.Tree.Map.{used-put_new, used-put_old, used-lookup-le}
use neon_world_os.Vfs.Tree.View.{file_at, file_at-some, update-some}

pub used-set_child_old :
    (k : Bytes) (x c n : Node)
    → lookup k (children n) ≡ some c
    → calc_used (set_child k x n) + calc_used c ≡ calc_used n + calc_used x
unfolding set_child calc_used
used-set_child_old k x c (node d m t cs) h = omega (arith, used-put_old k x c cs h)

pub used-set_child_new :
    (k : Bytes) (x n : Node)
    → lookup k (children n) ≡ none
    → calc_used (set_child k x n) ≡ calc_used n + calc_used x
unfolding set_child calc_used
used-set_child_new k x (node d m t cs) h = omega (arith, used-put_new k x cs h)

-- The bytes in use after a write through a pointer.
pub get_below :
    (k : Bytes) (ks : Loc) (n c m : Node)
    → lookup k (children n) ≡ some c
    → get (k ∷ ks) n ≡ some m
    → get ks c ≡ some m
unfolding get
get_below k ks n c m e h = ground arith

pub used-update :
    (ks : Loc) (f : Node → Node) (n m : Node)
    → get ks n ≡ some m
    → calc_used (update ks f n) + calc_used m ≡ calc_used n + calc_used (f m)
unfolding get
used-update [] f n m h = unfold update in ground arith
used-update (k ∷ ks) f n m h = elim (Option-cases (lookup k (children n))) [
  | inl e ↦ ground arith
  | inr (c, e) ↦ rw (update-some k ks f c n e) (
      omega (
        arith,
        used-set_child_old k (update ks f c) c n e,
        used-update ks f c m (get_below k ks n c m e h),
      ))
]

-- A file is no larger than what is in use.
pub file-le-used :
    (ks : Loc) (n : Node) (text : Bytes) → file_at ks n ≡ some text → length text ≤ calc_used n
unfolding file_at calc_used
file-le-used [] (node d m t cs) text h = ground arith
file-le-used (k ∷ ks) (node d m t cs) text h = elim (Option-cases (lookup k cs)) [
  | inl e ↦ ground arith
  | inr (c, e) ↦ omega (
    arith,
    file-le-used ks c text (sym (file_at-some k ks (node d m t cs) c e) ∙ h),
    used-lookup-le k c cs e,
  )
]
