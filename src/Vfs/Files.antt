-- ===== src/Vfs/Files.antt =====
-- The operations on files and directories of src/vfs.cpp: `Exists`, `Read`, `ReadRange`, `Stat`,
-- `List`, `Mkdir`, `Touch`, `Write`, `UsedBytes`.
pub mod Writes
pub mod Write
pub mod Touch
pub mod Placed
use neon_world_os.Base.{
  ℕ, zero, suc, ◌+◌, ◌-◌, ◌%◌, min, Bool, true, false, not, ◌||◌, List, [], ◌∷◌, ◌++◌, Option, none,
  some, Bytes, ltb, if◌then◌else◌, is_empty, str_eq, length, take, drop, find_last_of,
}
use mathlib.Core.Option
use neon_world_os.Vfs.Path.{slash, normalize_path}
use neon_world_os.Vfs.Tree.{
  Node, is_dir, content, children, with_content, new_file, Loc, get, update, calc_used, set_child,
}
use neon_world_os.Vfs.Walk.{Pointer, traverse, ensure_dir}
use neon_world_os.Vfs.State.{Vfs, with_root, word_mod}

-- `p.find_last_of('/')` and the two `substr` of `Touch` and `Write`.
unfoldable pub dir_of : Bytes → Bytes
dir_of p = elim (find_last_of slash p) [ none ↦ slash ∷ [] | some i ↦ take i p ]

unfoldable pub name_of : Bytes → Bytes
name_of p = elim (find_last_of slash p) [ none ↦ p | some i ↦ drop (suc i) p ]

unfoldable pub exists : Bytes → Vfs → Bool
exists path v = elim (traverse (normalize_path path) v.root) [ none ↦ false | some _ ↦ true ]

unfoldable pub read : Bytes → Vfs → Option Bytes
read path v = elim (traverse (normalize_path path) v.root) [
  | none ↦ none
  | some (l, n) ↦ if is_dir n then none else some (content n)
]

unfoldable pub read_range : Bytes → ℕ → ℕ → Vfs → Option Bytes
unfolding read
read_range path offset len v =
    Option.map
      (λ (s : Bytes).
        if ltb (length s) offset then [] else take (min len (length s - offset)) (drop offset s))
      (read path v)

-- The two output parameters, if the result is `true`.
unfoldable pub stat : Bytes → Vfs → Option (Bool × ℕ)
stat path v =
    Option.map (λ p. (is_dir p.1, if is_dir p.1 then 0 else length (content p.1)))
      (traverse (normalize_path path) v.root)

-- Both branches of the `if` return before the loop over the children.
unfoldable pub list : Bytes → Vfs → List Bytes
list path v = []

unfoldable pub used_bytes : Vfs → ℕ
used_bytes v = calc_used v.root

-- `return EnsureDir(path) != nullptr`.
unfoldable pub mkdir_in : Node × Option Loc → Vfs → Vfs × Bool
mkdir_in (root, none) v = (with_root v root, false)
mkdir_in (root, some _) v = (with_root v root, true)

unfoldable pub mkdir : Bytes → Vfs → Vfs × Bool
unfolding mkdir_in
mkdir path v = if v.sealed then (v, false) else mkdir_in (ensure_dir (normalize_path path) v.root) v

-- `d && d->is_dir`.
unfoldable pub is_dir_at : Loc → Node → Bool
is_dir_at l root = elim (get l root) [ none ↦ false | some n ↦ is_dir n ]

-- `d->children.count(name)`.
unfoldable pub count_at : Loc → Bytes → Node → Bool
count_at l name root = elim (get (l ++ name ∷ []) root) [ none ↦ false | some _ ↦ true ]

-- `Touch` after its early returns, with the result of `EnsureDir` and the name.
unfoldable pub touch_in : Node × Option Loc → Bytes → Vfs → Vfs × Bool
unfolding is_dir_at count_at
touch_in (root, none) name v = (with_root v root, false)
touch_in (root, some l) name v =
    if not (is_dir_at l root)
    then (with_root v root, false)
    else if count_at l name root
    then (with_root v root, true)
    else (with_root v (update l (set_child name (new_file name)) root), true)

unfoldable pub touch : Bytes → Vfs → Vfs × Bool
unfolding dir_of name_of touch_in
touch path v =
    let p = normalize_path path in
    if v.sealed
    then (v, false)
    else if is_empty p || str_eq p (slash ∷ [])
    then (v, false)
    else if is_empty (name_of p)
    then (v, false)
    else touch_in (ensure_dir (dir_of p) v.root) (name_of p) v

-- The size that a read returns, 0 if it returns none.
abbrev pub size_of : Option Bytes → ℕ
size_of none = 0
size_of (some s) = length s

-- The test on `quota_bytes_` at the top of `Write`, in `size_t`.
unfoldable pub over_quota : Bytes → Bytes → Vfs → Bool
over_quota path text v =
    if ltb 0 v.quota_bytes
    then ltb v.quota_bytes
        (((used_bytes v + word_mod - size_of (read path v)) + length text) % word_mod)
    else false

-- `n->content.assign(…)`.
unfoldable pub fill : Loc → Bytes → Node → Node
fill l text root = update l (λ n. with_content n text) root

-- The branch of `Write` that makes the file: with the result of `EnsureDir` and the name, and whole.
unfoldable pub create_in : Node × Option Loc → Bytes → Bytes → Vfs → Vfs × Bool
unfolding is_dir_at fill
create_in (root, none) name text v = (with_root v root, false)
create_in (root, some l) name text v =
    if not (is_dir_at l root) || is_empty name then (with_root v root, false) else (
      with_root v (fill (l ++ name ∷ []) text (update l (set_child name (new_file name)) root)),
      true,
    )

unfoldable pub create : Bytes → Bytes → Vfs → Vfs × Bool
unfolding dir_of name_of create_in
create p text v = create_in (ensure_dir (dir_of p) v.root) (name_of p) text v

-- `Write` with the result of `Traverse`.
unfoldable pub write_in : Option Pointer → Bytes → Bytes → Vfs → Vfs × Bool
unfolding fill create
write_in none p text v = create p text v
write_in (some (l, n)) p text v =
    if is_dir n then (v, false) else (with_root v (fill l text v.root), true)

unfoldable pub write : Bytes → Bytes → Vfs → Vfs × Bool
unfolding over_quota write_in
write path text v =
    let p = normalize_path path in
    if over_quota path text v
    then (v, false)
    else if v.sealed
    then (v, false)
    else write_in (traverse p v.root) p text v
