-- ===== src/Vfs/Runs/Trees.antt =====
-- Files stay without children under `Mkdir`, `Touch` and `Write`.
use neon_world_os.Base.{
  Bool, true, false, not, ◌||◌, [], ◌∷◌, ◌++◌, Option, none, some, ◌≡◌, refl, inl, inr, Bytes,
  if◌then◌else◌, is_empty, str_eq, Bool-cases,
}
use neon_world_os.Vfs.Path.{slash, normalize_path}
use neon_world_os.Vfs.Tree.{Node, is_dir, new_file, set_child, Loc, update}
use neon_world_os.Vfs.State.{Vfs, with_root}
use neon_world_os.Vfs.Walk.{Pointer, traverse, ensure_dir}
use neon_world_os.Vfs.Walk.Laws.{ensure, ensured, ensure_dir_lem}
use neon_world_os.Vfs.Path.{segments}
use neon_world_os.Vfs.Files.{
  write, write_in, create, create_in, mkdir, mkdir_in, touch, touch_in, is_dir_at, count_at, fill,
  over_quota, dir_of, name_of,
}
use neon_world_os.Vfs.Visit.Kept.{
  Rooted, ensure-Rooted, filled-Rooted, linked-Rooted, new_file-IsTree,
}

-- The tree of what an operation returns.
abbrev pub Kept : Vfs × Bool → Type 0
Kept r = Rooted r.0.root

pub Kept-if : (b : Bool) (r q : Vfs × Bool) → Kept r → Kept q → Kept (if b then r else q)
Kept-if true r q hr hq = hr
Kept-if false r q hr hq = hq

pub Kept-guard :
    (b : Bool) (r q : Vfs × Bool) → Kept r → (b ≡ true → Kept q) → Kept (if not b then r else q)
Kept-guard true r q hr hq = hq refl
Kept-guard false r q hr hq = hr

ensured-Rooted : (ks : Loc) (n : Node) → Rooted n → Rooted (ensured ks n).0
ensured-Rooted ks n h = go (ensure ks n) refl
  where
    go :
        (o : Option Node)
        → ensure ks n ≡ o
        → Rooted (elim o as (λ _. Node × Option Loc) [ none ↦ (n, none) | some r ↦ (r, some ks) ]).0
    go none e = h
    go (some r) e = ensure-Rooted ks n r e h

pub ensure_dir-Rooted : (path : Bytes) (n : Node) → Rooted n → Rooted (ensure_dir path n).0
ensure_dir-Rooted path n h = rw (ensure_dir_lem path n) (ensured-Rooted (segments path) n h)

create_in-Kept :
    (p : Node × Option Loc) (name t : Bytes) (v : Vfs) → Rooted p.0 → Kept (create_in p name t v)
unfolding create_in
create_in-Kept (root, none) name t v h = h
create_in-Kept (root, some l) name t v h = elim (Bool-cases (is_dir_at l root)) [
  | inl e ↦ rw e (
      Kept-if (is_empty name) (with_root v root, false) (made, true) h
        (filled-Rooted (l ++ name ∷ []) t (update l (set_child name (new_file name)) root)
          (linked-Rooted l name (new_file name) root e (new_file-IsTree name) h)))
  | inr e ↦ rw e h
]
  where
    made : Vfs
    made = with_root v (fill (l ++ name ∷ []) t (update l (set_child name (new_file name)) root))

write_in-Kept :
    (o : Option Pointer) (p t : Bytes) (v : Vfs) → Rooted v.root → Kept (write_in o p t v)
unfolding write_in create
write_in-Kept none p t v h =
    create_in-Kept (ensure_dir (dir_of p) v.root) (name_of p) t v
      (ensure_dir-Rooted (dir_of p) v.root h)
write_in-Kept (some (l, n)) p t v h =
    Kept-if (is_dir n) (v, false) (with_root v (fill l t v.root), true) h
      (filled-Rooted l t v.root h)

pub write-Kept : (path t : Bytes) (v : Vfs) → Rooted v.root → Kept (write path t v)
unfolding write
write-Kept path t v h =
    Kept-if (over_quota path t v) (v, false) (if v.sealed then (v, false) else rest) h
      (Kept-if v.sealed (v, false) rest h
        (write_in-Kept (traverse (normalize_path path) v.root) (normalize_path path) t v h))
  where
    rest : Vfs × Bool
    rest = write_in (traverse (normalize_path path) v.root) (normalize_path path) t v

mkdir_in-Kept : (p : Node × Option Loc) (v : Vfs) → Rooted p.0 → Kept (mkdir_in p v)
unfolding mkdir_in
mkdir_in-Kept (root, none) v h = h
mkdir_in-Kept (root, some l) v h = h

pub mkdir-Kept : (path : Bytes) (v : Vfs) → Rooted v.root → Kept (mkdir path v)
unfolding mkdir
mkdir-Kept path v h =
    Kept-if v.sealed (v, false) (mkdir_in (ensure_dir (normalize_path path) v.root) v) h
      (mkdir_in-Kept (ensure_dir (normalize_path path) v.root) v
        (ensure_dir-Rooted (normalize_path path) v.root h))

touch_in-Kept :
    (p : Node × Option Loc) (name : Bytes) (v : Vfs) → Rooted p.0 → Kept (touch_in p name v)
unfolding touch_in
touch_in-Kept (root, none) name v h = h
touch_in-Kept (root, some l) name v h = Kept-guard (is_dir_at l root) _ _ h (λ e.
    Kept-if (count_at l name root) (with_root v root, true)
      (with_root v (update l (set_child name (new_file name)) root), true) h
      (linked-Rooted l name (new_file name) root e (new_file-IsTree name) h))

pub touch-Kept : (path : Bytes) (v : Vfs) → Rooted v.root → Kept (touch path v)
unfolding touch
touch-Kept path v h =
    Kept-if v.sealed (v, false) _ h
      (Kept-if (is_empty (normalize_path path) || str_eq (normalize_path path) (slash ∷ []))
        (v, false) _ h
        (Kept-if (is_empty (name_of (normalize_path path))) (v, false) _ h
          (touch_in-Kept (ensure_dir (dir_of (normalize_path path)) v.root)
            (name_of (normalize_path path)) v
            (ensure_dir-Rooted (dir_of (normalize_path path)) v.root h))))
