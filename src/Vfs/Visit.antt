-- ===== src/Vfs/Visit.antt =====
-- `Vfs::Walk` of src/vfs.cpp, and what `FsckJson` counts on the way.
pub mod Laws
pub mod Kept
use neon_world_os.Base.{
  ℕ, zero, suc, ◌+◌, Bool, true, false, not, ◌&&◌, List, [], ◌∷◌, ◌++◌, Option, none, some, Bytes,
  if◌then◌else◌, str_eq, length, starts_with, ltb,
}
use mathlib.Core.Option
use neon_world_os.Vfs.Path.{slash}
use neon_world_os.Vfs.Tree.{Node, Children, node, nil, entry, is_dir, content, children}
use neon_world_os.Vfs.State.{Vfs}

-- What the callback receives.
pub record Visit : Type 0 where
  pub path : Bytes
  pub dir : Bool
  pub size : ℕ

-- The path of a child.
unfoldable pub child_path : Bytes → Bytes → Bytes
child_path path k = if str_eq path (slash ∷ []) then slash ∷ k else path ++ slash ∷ k

-- The loop over the children: each goes on top of the stack.
unfoldable pub push_children : Bytes → Children → List (Bytes × Node) → List (Bytes × Node)
unfolding child_path
push_children path nil st = st
push_children path (entry k n cs) st = push_children path cs ((child_path path k, n) ∷ st)

abbrev pub visit_of : Bytes → Node → Visit
visit_of path n = record {
  path = path;
  dir = is_dir n;
  size = if is_dir n then 0 else length (content n);
}

-- The loop of `Walk` over the stack: the calls of the callback in their order, or `none` out of fuel.
unfoldable pub walk_loop : ℕ → List (Bytes × Node) → Option (List Visit)
unfolding push_children
walk_loop zero st = none
walk_loop (suc fuel) [] = some []
walk_loop (suc fuel) ((path, n) ∷ st) =
    Option.map (λ vs. visit_of path n ∷ vs)
      (walk_loop fuel (if is_dir n then push_children path (children n) st else st))

-- The nodes of a tree: as many rounds as the loop has, but for the last.
unfoldable mutual
  pub count : Node → ℕ
  count (node d n t cs) = suc (count_children cs)

  pub count_children : Children → ℕ
  count_children nil = 0
  count_children (entry k n cs) = count n + count_children cs

unfoldable pub visits : Vfs → Option (List Visit)
unfolding walk_loop
visits v = walk_loop (suc (count v.root)) ((slash ∷ [], v.root) ∷ [])

-- The tests of `FsckJson` on a path: `find("//")` and a slash at the end.
unfoldable pub has_double_slash : Bytes → Bool
has_double_slash [] = false
has_double_slash (c ∷ s) =
    if starts_with (c ∷ s) (slash ∷ slash ∷ []) then true else has_double_slash s

unfoldable pub ends_in_slash : Bytes → Bool
ends_in_slash [] = false
ends_in_slash (c ∷ []) = str_eq (c ∷ []) (slash ∷ [])
ends_in_slash (c ∷ d ∷ s) = ends_in_slash (d ∷ s)

pub record Fsck : Type 0 where
  pub ok : Bool
  pub files : ℕ
  pub dirs : ℕ
  pub used : ℕ

unfoldable pub path_ok : Bytes → Bool
unfolding has_double_slash ends_in_slash
path_ok path = not (has_double_slash path) && not (ltb 1 (length path) && ends_in_slash path)

-- The callback of `FsckJson`. The counters are `size_t`; a tree in memory has fewer nodes and bytes than
-- that holds.
unfoldable pub fsck_step : Fsck → Visit → Fsck
unfolding path_ok
fsck_step f x =
    let f' =
      if x.dir
      then record f { dirs = f.dirs + 1 }
      else record f { files = f.files + 1; used = f.used + x.size } in
    record f' { ok = f'.ok && path_ok x.path }

unfoldable pub fsck_from : Fsck → List Visit → Fsck
unfolding fsck_step
fsck_from f [] = f
fsck_from f (x ∷ xs) = fsck_from (fsck_step f x) xs

unfoldable pub fsck : Vfs → Option Fsck
unfolding fsck_from visits
fsck v = Option.map (fsck_from (record { ok = true; files = 0; dirs = 0; used = 0 })) (visits v)
