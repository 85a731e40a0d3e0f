-- ===== src/Vfs/Tree.antt =====
-- The tree of nodes: `struct Node` of include/neon/vfs.hpp, its map of children, and pointers into
-- it. A `Node*` is the chain of keys that leads from the root to the node.
pub mod Map
pub mod View
pub mod Used
use Prim.Native.Nat.{◌+◌}
use neon_world_os.Base.{
  ℕ, suc, Bool, true, false, List, [], ◌∷◌, ◌++◌, Option, none, some, Bytes, if◌then◌else◌, str_eq,
  str_lt, length, is_empty,
}

-- `children` is a `std::map`: its entries in the order of their keys.
mutual
  pub data Node : Type 0 where
    node : Bool → Bytes → Bytes → Children → Node

  pub data Children : Type 0 where
    nil : Children
    entry : Bytes → Node → Children → Children

abbrev pub is_dir : Node → Bool
is_dir (node d n t cs) = d

abbrev pub name : Node → Bytes
name (node d n t cs) = n

abbrev pub content : Node → Bytes
content (node d n t cs) = t

abbrev pub children : Node → Children
children (node d n t cs) = cs

abbrev pub with_children : Node → Children → Node
with_children (node d n t _) cs = node d n t cs

abbrev pub with_content : Node → Bytes → Node
with_content (node d n _ cs) t = node d n t cs

-- A node as `Mkdir` and `EnsureDir` make it, and as `Touch` and `Write` make it.
abbrev pub new_dir : Bytes → Node
new_dir n = node true n [] nil

abbrev pub new_file : Bytes → Node
new_file n = node false n [] nil

-- `children.find(k)`.
unfoldable pub lookup : Bytes → Children → Option Node
lookup k nil = none
lookup k (entry j n cs) = if str_eq j k then some n else lookup k cs

-- Writing through the pointer that `children.find(k)` gave.
unfoldable pub replace : Bytes → Node → Children → Children
replace k v nil = nil
replace k v (entry j n cs) = if str_eq j k then entry j v cs else entry j n (replace k v cs)

-- A new key goes to its place in the order.
unfoldable pub insert : Bytes → Node → Children → Children
insert k v nil = entry k v nil
insert k v (entry j n cs) =
    if str_lt k j then entry k v (entry j n cs) else entry j n (insert k v cs)

-- `children[k] = v`.
unfoldable pub put : Bytes → Node → Children → Children
unfolding lookup replace insert
put k v cs = elim (lookup k cs) [ some _ ↦ replace k v cs | none ↦ insert k v cs ]

-- `children.erase(k)`.
unfoldable pub erase : Bytes → Children → Children
erase k nil = nil
erase k (entry j n cs) = if str_eq j k then erase k cs else entry j n (erase k cs)

-- `cur->children[seg] = child`.
unfoldable pub set_child : Bytes → Node → Node → Node
set_child seg child cur = with_children cur (put seg child (children cur))

-- A pointer into the tree, and what it points to.
abbrev pub Loc : Type 0
Loc = List Bytes

unfoldable pub get : Loc → Node → Option Node
get [] n = some n
get (k ∷ ks) n = elim (lookup k (children n)) [ none ↦ none | some c ↦ get ks c ]

-- A write through a pointer.
unfoldable pub update : Loc → (Node → Node) → Node → Node
unfolding set_child
update [] f n = f n
update (k ∷ ks) f n = elim (lookup k (children n)) [
  | none ↦ n
  | some c ↦ set_child k (update ks f c) n
]

-- `Vfs::calc_used_`.
unfoldable mutual
  pub calc_used : Node → ℕ
  calc_used (node d n t cs) = (if d then 0 else length t) + calc_used_children cs

  pub calc_used_children : Children → ℕ
  calc_used_children nil = 0
  calc_used_children (entry k n cs) = calc_used n + calc_used_children cs
