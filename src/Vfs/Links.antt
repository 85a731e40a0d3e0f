-- ===== src/Vfs/Links.antt =====
-- `Remove`, `Move` and `Copy` of src/vfs.cpp: the operations that unlink and link nodes.
pub mod Remove
pub mod Copy
pub mod Move
use neon_world_os.Base.{
  ℕ, zero, suc, Bool, true, false, not, ◌&&◌, ◌||◌, List, [], ◌∷◌, ◌++◌, Option, none, some, Bytes,
  if◌then◌else◌, str_eq, take, drop, find_last_of, find, is_empty,
}
use neon_world_os.Vfs.Path.{slash, normalize_path}
use neon_world_os.Vfs.Tree.{
  Node, Children, node, nil, entry, is_dir, children, content, with_children, set_child, lookup,
  erase, Loc, get, update,
}
use neon_world_os.Vfs.Walk.{Pointer, traverse, ensure_dir}
use neon_world_os.Vfs.State.{Vfs, with_root}
use neon_world_os.Vfs.Locks.{locked}
use neon_world_os.Vfs.Files.{is_dir_at, count_at}

-- `(last==0)? "/" : substr(0,last)`, and `substr(last+1)`.
unfoldable pub parent_of : Bytes → Bytes
parent_of p = elim (find_last_of slash p) [
  | none ↦ p
  | some zero ↦ slash ∷ []
  | some (suc i) ↦ take (suc i) p
]

unfoldable pub base_of : Bytes → Bytes
base_of p = elim (find_last_of slash p) [ none ↦ p | some i ↦ drop (suc i) p ]

unfoldable pub is_immutable : Bytes → Vfs → Bool
is_immutable norm v = elim (find norm v.meta) [ none ↦ false | some m ↦ m.immutable ]

unfoldable pub erase_child : Bytes → Node → Node
erase_child k n = with_children n (erase k (children n))

abbrev pub no_children : Children → Bool
no_children nil = true
no_children (entry k n cs) = false

-- `Remove` after its guards, with the pointer to the parent, and what `find` gave there.
unfoldable pub remove_at : Loc → Bytes → Bool → Option Node → Vfs → Vfs × Bool
unfolding erase_child
remove_at l base recursive none v = (v, false)
remove_at l base recursive (some c) v =
    if is_dir c && (not (no_children (children c)) && not recursive)
    then (v, false)
    else (with_root v (update l (erase_child base) v.root), true)

unfoldable pub remove_in : Option Pointer → Bytes → Bool → Vfs → Vfs × Bool
unfolding remove_at
remove_in none base recursive v = (v, false)
remove_in (some (l, p)) base recursive v =
    if is_dir p then remove_at l base recursive (lookup base (children p)) v else (v, false)

unfoldable pub remove_free : Bytes → Bool → Vfs → Vfs × Bool
unfolding remove_in parent_of base_of
remove_free norm recursive v =
    if v.sealed
    then (v, false)
    else if str_eq norm (slash ∷ [])
    then (v, false)
    else remove_in (traverse (parent_of norm) v.root) (base_of norm) recursive v

-- `normR` is declared three times in the source, each time with this value.
unfoldable pub remove : Bytes → Bool → ℕ → Vfs → Vfs × Bool
unfolding remove_free is_immutable
remove path recursive now v =
    let norm = normalize_path path in
    let v' = (locked norm now v).0 in
    if is_immutable norm v
    then (v, false)
    else if (locked norm now v).1
    then (v', false)
    else if is_immutable norm v'
    then (v', false)
    else remove_free norm recursive v'

-- `clone_node`: the copy keeps kind, content and children, and has no name.
unfoldable mutual
  pub clone_node : Node → Node
  clone_node (node d m t cs) = node d [] t (clone_children cs)

  pub clone_children : Children → Children
  clone_children nil = nil
  clone_children (entry k n cs) = entry k (clone_node n) (clone_children cs)

-- `Copy` with the result of `EnsureDir`. The source is read through its pointer.
unfoldable pub copy_in : Loc → Node × Option Loc → Bytes → Vfs → Vfs × Bool
unfolding clone_node is_dir_at count_at
copy_in s (root, none) base v = (with_root v root, false)
copy_in s (root, some d) base v =
    if not (is_dir_at d root)
    then (with_root v root, false)
    else if count_at d base root
    then (with_root v root, false)
    else elim (get s root) [
      | none ↦ (with_root v root, true)
      | some n ↦ (with_root v (update d (set_child base (clone_node n)) root), true)
    ]

unfoldable pub copy_from : Option Pointer → Bytes → Bool → Vfs → Vfs × Bool
unfolding copy_in parent_of base_of
copy_from none dt recursive v = (v, false)
copy_from (some (s, n)) dt recursive v =
    if is_dir n && not recursive
    then (v, false)
    else copy_in s (ensure_dir (parent_of dt) v.root) (base_of dt) v

unfoldable pub copy : Bytes → Bytes → Bool → Vfs → Vfs × Bool
unfolding copy_from
copy from to recursive v =
    let sf = normalize_path from in
    let dt = normalize_path to in
    if v.sealed
    then (v, false)
    else if str_eq sf (slash ∷ []) || str_eq dt (slash ∷ [])
    then (v, false)
    else copy_from (traverse sf v.root) dt recursive v

-- `Move` with the result of `EnsureDir`: the node goes to the new place, then the old key is erased.
unfoldable pub move_in : Loc → Bytes → Node × Option Loc → Bytes → Vfs → Vfs × Bool
unfolding erase_child is_dir_at count_at
move_in s s_base (root, none) base v = (with_root v root, false)
move_in s s_base (root, some d) base v =
    if not (is_dir_at d root)
    then (with_root v root, false)
    else if count_at d base root
    then (with_root v root, false)
    else elim (get (s ++ s_base ∷ []) root) [
      | none ↦ (with_root v root, true)
      | some n ↦
          (with_root v (update s (erase_child s_base) (update d (set_child base n) root)), true)
    ]

unfoldable pub move_from : Option Pointer → Bytes → Bytes → Vfs → Vfs × Bool
unfolding move_in parent_of base_of
move_from none s_base dt v = (v, false)
move_from (some (s, p)) s_base dt v =
    if not (is_dir p) then (v, false) else elim (lookup s_base (children p)) [
      | none ↦ (v, false)
      | some _ ↦ move_in s s_base (ensure_dir (parent_of dt) v.root) (base_of dt) v
    ]

unfoldable pub move : Bytes → Bytes → Vfs → Vfs × Bool
unfolding move_from
move from to v =
    let sf = normalize_path from in
    let dt = normalize_path to in
    if v.sealed
    then (v, false)
    else if str_eq sf (slash ∷ []) || str_eq dt (slash ∷ [])
    then (v, false)
    else move_from (traverse (parent_of sf) v.root) (base_of sf) dt v
