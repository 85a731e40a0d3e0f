-- ===== src/Vfs/Tree/Map.antt =====
-- The laws of the map of children, and of reads and writes through pointers.
use neon_world_os.Base.{
  ◌+◌, ◌≤◌, none, some, ◌≡◌, ◌≢◌, refl, inl, inr, arith, Bytes, if◌then◌else◌, str_eq, str_eq_iff,
  str_eq_self, str_eq_ne, Option-cases,
}
use neon_world_os.Vfs.Tree.{
  Node, Children, nil, entry, lookup, replace, insert, put, erase, calc_used, calc_used_children,
}

lookup-replace :
    (k j : Bytes) (v n : Node) (cs : Children)
    → lookup k cs ≡ some n
    → lookup j (replace k v cs) ≡ (if str_eq k j then some v else lookup j cs)
unfolding lookup replace
lookup-replace k j v n nil h = cc
lookup-replace k j v n (entry i m cs) h =
    ground (arith, str_eq_iff i k, str_eq_iff i j, str_eq_iff k j, lookup-replace k j v n cs)

lookup-insert :
    (k j : Bytes) (v : Node) (cs : Children)
    → lookup k cs ≡ none
    → lookup j (insert k v cs) ≡ (if str_eq k j then some v else lookup j cs)
unfolding lookup insert
lookup-insert k j v nil h = refl
lookup-insert k j v (entry i m cs) h =
    ground (arith, str_eq_iff i k, str_eq_iff i j, str_eq_iff k j, lookup-insert k j v cs)

pub lookup-put :
    (k j : Bytes) (v : Node) (cs : Children)
    → lookup j (put k v cs) ≡ (if str_eq k j then some v else lookup j cs)
unfolding put
lookup-put k j v cs = elim (Option-cases (lookup k cs)) [
  | inl e ↦ rw (e, put) (lookup-insert k j v cs e)
  | inr (n, e) ↦ rw (e, put) (lookup-replace k j v n cs e)
]

pub lookup-put_self : (k : Bytes) (v : Node) (cs : Children) → lookup k (put k v cs) ≡ some v
lookup-put_self k v cs = rw (lookup-put k k v cs, str_eq_self k)

pub lookup-put_ne :
    (k j : Bytes) (v : Node) (cs : Children) → k ≢ j → lookup j (put k v cs) ≡ lookup j cs
lookup-put_ne k j v cs h = rw (lookup-put k j v cs, str_eq_ne k j h)

pub lookup-erase :
    (k j : Bytes) (cs : Children)
    → lookup j (erase k cs) ≡ (if str_eq k j then none else lookup j cs)
unfolding lookup erase
lookup-erase k j nil = ground arith
lookup-erase k j (entry i m cs) =
    ground (arith, str_eq_iff i k, str_eq_iff i j, str_eq_iff k j, lookup-erase k j cs)

replace_same : (k : Bytes) (n : Node) (cs : Children) → lookup k cs ≡ some n → replace k n cs ≡ cs
unfolding lookup replace
replace_same k n nil h = refl
replace_same k n (entry i m cs) h = ground (arith, replace_same k n cs)

-- Writing back what is there changes nothing.
pub put_same : (k : Bytes) (n : Node) (cs : Children) → lookup k cs ≡ some n → put k n cs ≡ cs
unfolding put
put_same k n cs h = rw (h, put) (replace_same k n cs h)

replace-replace :
    (k : Bytes) (v w : Node) (cs : Children) → replace k v (replace k w cs) ≡ replace k v cs
unfolding replace
replace-replace k v w nil = refl
replace-replace k v w (entry i m cs) = ground (arith, replace-replace k v w cs)

replace-insert :
    (k : Bytes) (v w : Node) (cs : Children)
    → lookup k cs ≡ none
    → replace k v (insert k w cs) ≡ insert k v cs
unfolding lookup replace insert
replace-insert k v w nil h = rw (str_eq_self k) refl
replace-insert k v w (entry i m cs) h = ground (arith, str_eq_self k, replace-insert k v w cs)

-- The second of two writes under a key is left.
pub put-put : (k : Bytes) (v w : Node) (cs : Children) → put k v (put k w cs) ≡ put k v cs
unfolding put
put-put k v w cs = elim (Option-cases (lookup k cs)) [
  | inl e ↦ rw (put, lookup-put_self k w cs) (rw (put, e) (replace-insert k v w cs e))
  | inr (n, e) ↦ rw (put, lookup-put_self k w cs) (rw (put, e) (replace-replace k v w cs))
]

-- The bytes below a map after a write: those of the new node for those of the old.
used-replace :
    (k : Bytes) (v n : Node) (cs : Children)
    → lookup k cs ≡ some n
    → calc_used_children (replace k v cs) + calc_used n ≡ calc_used_children cs + calc_used v
unfolding lookup replace calc_used
used-replace k v n nil h = cc
used-replace k v n (entry i m cs) h = ground (arith, used-replace k v n cs)

used-insert :
    (k : Bytes) (v : Node) (cs : Children)
    → calc_used_children (insert k v cs) ≡ calc_used_children cs + calc_used v
unfolding insert calc_used
used-insert k v nil = omega arith
used-insert k v (entry i m cs) = ground (arith, used-insert k v cs)

pub used-put_new :
    (k : Bytes) (v : Node) (cs : Children)
    → lookup k cs ≡ none
    → calc_used_children (put k v cs) ≡ calc_used_children cs + calc_used v
unfolding put
used-put_new k v cs h = rw (h, put) (used-insert k v cs)

pub used-put_old :
    (k : Bytes) (v n : Node) (cs : Children)
    → lookup k cs ≡ some n
    → calc_used_children (put k v cs) + calc_used n ≡ calc_used_children cs + calc_used v
unfolding put
used-put_old k v n cs h = rw (h, put) (used-replace k v n cs h)

-- What one child holds is part of the total.
pub used-lookup-le :
    (k : Bytes) (n : Node) (cs : Children)
    → lookup k cs ≡ some n
    → calc_used n ≤ calc_used_children cs
unfolding lookup calc_used
used-lookup-le k n nil h = cc
used-lookup-le k n (entry i m cs) h = ground (arith, used-lookup-le k n cs)
