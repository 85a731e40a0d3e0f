-- ===== src/Vfs/Runs/Linked.antt =====
-- Files stay without children under `Remove`, `Copy` and `Move`.
use neon_world_os.Base.{
  ℕ, Bool, true, false, not, ◌&&◌, ◌||◌, [], ◌∷◌, ◌++◌, Option, none, some, ◌≡◌, refl, Bytes,
  str_eq,
}
use neon_world_os.Vfs.Path.{slash, normalize_path}
use neon_world_os.Vfs.Tree.{Node, is_dir, children, lookup, set_child, Loc, get, update}
use neon_world_os.Vfs.State.{Vfs, with_root}
use neon_world_os.Vfs.Walk.{Pointer, traverse, ensure_dir}
use neon_world_os.Vfs.Files.{is_dir_at, count_at}
use neon_world_os.Vfs.Links.{
  remove, remove_free, remove_in, remove_at, copy, copy_from, copy_in, move, move_from, move_in,
  parent_of, base_of, is_immutable, no_children, erase_child, clone_node,
}
use neon_world_os.Vfs.Locks.{locked, clean_locks}
use neon_world_os.Vfs.Visit.Kept.{
  Rooted, erased-Rooted, linked-Rooted, clone_node-IsTree, get-IsTree,
}
use neon_world_os.Vfs.Runs.Trees.{Kept, Kept-if, Kept-guard, ensure_dir-Rooted}

remove_at-Kept :
    (l : Loc) (base : Bytes) (recursive : Bool) (o : Option Node) (v : Vfs)
    → Rooted v.root
    → Kept (remove_at l base recursive o v)
unfolding remove_at
remove_at-Kept l base recursive none v h = h
remove_at-Kept l base recursive (some c) v h =
    Kept-if (is_dir c && (not (no_children (children c)) && not recursive)) (v, false) _ h
      (erased-Rooted l base v.root h)

remove_in-Kept :
    (o : Option Pointer) (base : Bytes) (recursive : Bool) (v : Vfs)
    → Rooted v.root
    → Kept (remove_in o base recursive v)
unfolding remove_in
remove_in-Kept none base recursive v h = h
remove_in-Kept (some (l, p)) base recursive v h =
    Kept-if (is_dir p) _ (v, false) (remove_at-Kept l base recursive (lookup base (children p)) v h)
      h

remove_free-Kept :
    (norm : Bytes) (recursive : Bool) (v : Vfs)
    → Rooted v.root
    → Kept (remove_free norm recursive v)
unfolding remove_free
remove_free-Kept norm recursive v h =
    Kept-if v.sealed (v, false) _ h
      (Kept-if (str_eq norm (slash ∷ [])) (v, false) _ h
        (remove_in-Kept (traverse (parent_of norm) v.root) (base_of norm) recursive v h))

pub remove-Kept :
    (path : Bytes) (recursive : Bool) (now : ℕ) (v : Vfs)
    → Rooted v.root
    → Kept (remove path recursive now v)
unfolding remove locked clean_locks
remove-Kept path recursive now v h =
    let norm = normalize_path path in
    let v' = clean_locks now v in
    Kept-if (is_immutable norm v) (v, false) _ h
      (Kept-if (locked norm now v).1 (v', false) _ h
        (Kept-if (is_immutable norm v') (v', false) _ h (remove_free-Kept norm recursive v' h)))

copied-Kept :
    (o : Option Node) (s d : Loc) (root : Node) (base : Bytes) (v : Vfs)
    → get s root ≡ o
    → is_dir_at d root ≡ true
    → Rooted root
    → Kept (elim o as (λ _. Vfs × Bool) [
      | none ↦ (with_root v root, true)
      | some n ↦ (with_root v (update d (set_child base (clone_node n)) root), true)
    ])
copied-Kept none s d root base v e at h = h
copied-Kept (some n) s d root base v e at h =
    linked-Rooted d base (clone_node n) root at (clone_node-IsTree n (get-IsTree s root n e h.1)) h

copy_in-Kept :
    (s : Loc) (p : Node × Option Loc) (base : Bytes) (v : Vfs)
    → Rooted p.0
    → Kept (copy_in s p base v)
unfolding copy_in
copy_in-Kept s (root, none) base v h = h
copy_in-Kept s (root, some d) base v h = Kept-guard (is_dir_at d root) _ _ h (λ e.
    Kept-if (count_at d base root) (with_root v root, false) _ h
      (copied-Kept (get s root) s d root base v refl e h))

copy_from-Kept :
    (o : Option Pointer) (dt : Bytes) (recursive : Bool) (v : Vfs)
    → Rooted v.root
    → Kept (copy_from o dt recursive v)
unfolding copy_from
copy_from-Kept none dt recursive v h = h
copy_from-Kept (some (s, n)) dt recursive v h =
    Kept-if (is_dir n && not recursive) (v, false) _ h
      (copy_in-Kept s (ensure_dir (parent_of dt) v.root) (base_of dt) v
        (ensure_dir-Rooted (parent_of dt) v.root h))

pub copy-Kept :
    (from to : Bytes) (recursive : Bool) (v : Vfs) → Rooted v.root → Kept (copy from to recursive v)
unfolding copy
copy-Kept from to recursive v h =
    Kept-if v.sealed (v, false) _ h
      (Kept-if
        (str_eq (normalize_path from) (slash ∷ []) || str_eq (normalize_path to) (slash ∷ []))
        (v, false) _ h
        (copy_from-Kept (traverse (normalize_path from) v.root) (normalize_path to) recursive v h))

moved-Kept :
    (o : Option Node) (s d : Loc) (root : Node) (s_base base : Bytes) (v : Vfs)
    → get (s ++ s_base ∷ []) root ≡ o
    → is_dir_at d root ≡ true
    → Rooted root
    → Kept (elim o as (λ _. Vfs × Bool) [
      | none ↦ (with_root v root, true)
      | some n ↦
          (with_root v (update s (erase_child s_base) (update d (set_child base n) root)), true)
    ])
moved-Kept none s d root s_base base v e at h = h
moved-Kept (some n) s d root s_base base v e at h =
    erased-Rooted s s_base (update d (set_child base n) root)
      (linked-Rooted d base n root at (get-IsTree (s ++ s_base ∷ []) root n e h.1) h)

move_in-Kept :
    (s : Loc) (s_base : Bytes) (p : Node × Option Loc) (base : Bytes) (v : Vfs)
    → Rooted p.0
    → Kept (move_in s s_base p base v)
unfolding move_in
move_in-Kept s s_base (root, none) base v h = h
move_in-Kept s s_base (root, some d) base v h = Kept-guard (is_dir_at d root) _ _ h (λ e.
    Kept-if (count_at d base root) (with_root v root, false) _ h
      (moved-Kept (get (s ++ s_base ∷ []) root) s d root s_base base v refl e h))

linked_to-Kept :
    (o : Option Node) (s : Loc) (s_base dt : Bytes) (v : Vfs)
    → Rooted v.root
    → Kept (elim o as (λ _. Vfs × Bool) [
      | none ↦ (v, false)
      | some _ ↦ move_in s s_base (ensure_dir (parent_of dt) v.root) (base_of dt) v
    ])
linked_to-Kept none s s_base dt v h = h
linked_to-Kept (some n) s s_base dt v h =
    move_in-Kept s s_base (ensure_dir (parent_of dt) v.root) (base_of dt) v
      (ensure_dir-Rooted (parent_of dt) v.root h)

move_from-Kept :
    (o : Option Pointer) (s_base dt : Bytes) (v : Vfs)
    → Rooted v.root
    → Kept (move_from o s_base dt v)
unfolding move_from
move_from-Kept none s_base dt v h = h
move_from-Kept (some (s, p)) s_base dt v h =
    Kept-guard (is_dir p) _ _ h (λ e. linked_to-Kept (lookup s_base (children p)) s s_base dt v h)

pub move-Kept : (from to : Bytes) (v : Vfs) → Rooted v.root → Kept (move from to v)
unfolding move
move-Kept from to v h =
    Kept-if v.sealed (v, false) _ h
      (Kept-if
        (str_eq (normalize_path from) (slash ∷ []) || str_eq (normalize_path to) (slash ∷ []))
        (v, false) _ h
        (move_from-Kept (traverse (parent_of (normalize_path from)) v.root)
          (base_of (normalize_path from)) (normalize_path to) v h))
