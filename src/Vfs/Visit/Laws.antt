-- ===== src/Vfs/Visit/Laws.antt =====
-- `Walk` ends and meets each node once; what `FsckJson` counts.
use neon_world_os.Base.{
  ℕ, zero, suc, ◌+◌, ◌<◌, Bool, true, false, ◌&&◌, List, [], ◌∷◌, some, ◌≡◌, refl, ap, ◌∙◌, arith,
  Bytes, if◌then◌else◌,
}
use neon_world_os.Vfs.Path.{slash}
use neon_world_os.Vfs.Tree.{Node, Children, node, nil, entry, calc_used, calc_used_children}
use neon_world_os.Vfs.State.{Vfs}
use neon_world_os.Vfs.Files.{used_bytes}
use neon_world_os.Vfs.Visit.{
  Visit, path_ok, visit_of, child_path, push_children, walk_loop, count, count_children, visits,
  Fsck, fsck_step, fsck_from, fsck,
}

-- Files have no children.
unfoldable mutual
  pub IsTree : Node → Type 0
  IsTree (node true n t cs) = AreTrees cs
  IsTree (node false n t cs) = cs ≡ nil

  pub AreTrees : Children → Type 0
  AreTrees nil = Unit
  AreTrees (entry k n cs) = IsTree n × AreTrees cs

-- The files and the directories of a tree.
unfoldable mutual
  pub files_in : Node → ℕ
  files_in (node d n t cs) = (if d then 0 else 1) + files_in_children cs

  pub files_in_children : Children → ℕ
  files_in_children nil = 0
  files_in_children (entry k n cs) = files_in n + files_in_children cs

unfoldable mutual
  pub dirs_in : Node → ℕ
  dirs_in (node d n t cs) = (if d then 1 else 0) + dirs_in_children cs

  pub dirs_in_children : Children → ℕ
  dirs_in_children nil = 0
  dirs_in_children (entry k n cs) = dirs_in n + dirs_in_children cs

abbrev Stack : Type 0
Stack = List (Bytes × Node)

AllTrees : Stack → Type 0
AllTrees [] = Unit
AllTrees ((p, n) ∷ st) = IsTree n × AllTrees st

nodes_of : Stack → ℕ
nodes_of [] = 0
nodes_of ((p, n) ∷ st) = count n + nodes_of st

-- The sum of a number over the nodes that wait, and over a map.
sum_of : (Node → ℕ) → Stack → ℕ
sum_of g [] = 0
sum_of g ((p, n) ∷ st) = g n + sum_of g st

sum_children : (Node → ℕ) → Children → ℕ
sum_children g nil = 0
sum_children g (entry k n cs) = g n + sum_children g cs

nodes_of-push_children :
    (p : Bytes) (cs : Children) (st : Stack)
    → nodes_of (push_children p cs st) ≡ count_children cs + nodes_of st
unfolding nodes_of push_children count_children
nodes_of-push_children p nil st = omega arith
nodes_of-push_children p (entry k n cs) st =
    omega (arith, nodes_of-push_children p cs ((child_path p k, n) ∷ st))

sum_of-push_children :
    (g : Node → ℕ) (p : Bytes) (cs : Children) (st : Stack)
    → sum_of g (push_children p cs st) ≡ sum_children g cs + sum_of g st
unfolding sum_of push_children sum_children
sum_of-push_children g p nil st = omega arith
sum_of-push_children g p (entry k n cs) st =
    omega (arith, sum_of-push_children g p cs ((child_path p k, n) ∷ st))

sum-files : (cs : Children) → sum_children files_in cs ≡ files_in_children cs
unfolding sum_children files_in
sum-files nil = refl
sum-files (entry k n cs) = omega (arith, sum-files cs)

sum-dirs : (cs : Children) → sum_children dirs_in cs ≡ dirs_in_children cs
unfolding sum_children dirs_in
sum-dirs nil = refl
sum-dirs (entry k n cs) = omega (arith, sum-dirs cs)

sum-used : (cs : Children) → sum_children calc_used cs ≡ calc_used_children cs
unfolding sum_children calc_used
sum-used nil = refl
sum-used (entry k n cs) = omega (arith, sum-used cs)

AllTrees-push_children :
    (p : Bytes) (cs : Children) (st : Stack)
    → AreTrees cs
    → AllTrees st
    → AllTrees (push_children p cs st)
unfolding AllTrees push_children AreTrees
AllTrees-push_children p nil st h hs = hs
AllTrees-push_children p (entry k n cs) st (hn, h) hs =
    AllTrees-push_children p cs ((child_path p k, n) ∷ st) h (hn, hs)

-- What the counting finds, and the tests of the paths.
abbrev pub all_ok : List Visit → Bool
all_ok [] = true
all_ok (x ∷ vs) = path_ok x.path && all_ok vs

record Counted (f : Fsck) (st : Stack) (vs : List Visit) : Type 0 where
  files : (fsck_from f vs).files ≡ f.files + sum_of files_in st
  dirs : (fsck_from f vs).dirs ≡ f.dirs + sum_of dirs_in st
  used : (fsck_from f vs).used ≡ f.used + sum_of calc_used st
  paths : (fsck_from f vs).ok ≡ (f.ok && all_ok vs)

and_assoc : (a b c : Bool) → ((a && b) && c) ≡ (a && (b && c))
and_assoc true b c = refl
and_assoc false b c = refl

walk_loop-Counted :
    (fuel : ℕ) (st : Stack) (f : Fsck)
    → AllTrees st
    → nodes_of st < fuel
    → (vs : List Visit) × (walk_loop fuel st ≡ some vs) × Counted f st vs
unfolding walk_loop nodes_of sum_of AllTrees IsTree count calc_used files_in dirs_in fsck_from
walk_loop-Counted zero st f h lt = absurd (omega arith)
walk_loop-Counted (suc fuel) [] f h lt = (
  [],
  refl,
  record { files = omega arith; dirs = omega arith; used = omega arith; paths = ground arith },
)
walk_loop-Counted (suc fuel) ((p, node true m t cs) ∷ st) f (hn, h) lt =
    let x = visit_of p (node true m t cs) in
    let sums : (g : Node → ℕ) → sum_of g (push_children p cs st) ≡ sum_children g cs + sum_of g st =
      λ g. sum_of-push_children g p cs st in
    let (vs, e, c) =
      walk_loop-Counted fuel (push_children p cs st) (fsck_step f x)
        (AllTrees-push_children p cs st hn h) (omega (arith, nodes_of-push_children p cs st)) in
    (
      x ∷ vs,
      rw e,
      unfold fsck_step in
          record {
            files = omega (arith, c.files, sums files_in, sum-files cs);
            dirs = omega (arith, c.dirs, sums dirs_in, sum-dirs cs);
            used = omega (arith, c.used, sums calc_used, sum-used cs);
            paths = c.paths ∙ and_assoc f.ok (path_ok p) (all_ok vs);
          },
    )
walk_loop-Counted (suc fuel) ((p, node false m t cs) ∷ st) f (hn, h) lt =
    let x = visit_of p (node false m t cs) in
    let (vs, e, c) = walk_loop-Counted fuel st (fsck_step f x) h (omega arith) in
    (
      x ∷ vs,
      rw e,
      unfold fsck_step in
          record {
            files = omega (arith, c.files, ap files_in_children hn, none_files);
            dirs = omega (arith, c.dirs, ap dirs_in_children hn, none_dirs);
            used = omega (arith, c.used, ap calc_used_children hn, none_used);
            paths = c.paths ∙ and_assoc f.ok (path_ok p) (all_ok vs);
          },
    )
  where
    none_files : files_in_children nil ≡ 0
    none_files = unfold files_in in refl

    none_dirs : dirs_in_children nil ≡ 0
    none_dirs = unfold dirs_in in refl

    none_used : calc_used_children nil ≡ 0
    none_used = unfold calc_used in refl

-- `Walk` ends, and `FsckJson` counts as files the files of the tree and as directories its directories,
-- reports as used the bytes that `UsedBytes` reports, and says ok if and only if each path that `Walk`
-- visits passes its tests, if no file has children.
pub fsck_lem :
    (v : Vfs)
    → IsTree v.root
    → (f : Fsck) × (vs : List Visit) × (fsck v ≡ some f)
      × (visits v ≡ some vs)
      × (f.files ≡ files_in v.root)
      × (f.dirs ≡ dirs_in v.root)
      × (f.used ≡ used_bytes v)
      × (f.ok ≡ all_ok vs)
unfolding fsck visits used_bytes
fsck_lem v h =
    let f₀ : Fsck = record { ok = true; files = 0; dirs = 0; used = 0 } in
    let (vs, e, c) =
      walk_loop-Counted (suc (count v.root)) ((slash ∷ [], v.root) ∷ []) f₀
        (unfold AllTrees in (h, tt)) (unfold nodes_of in omega arith) in
    (
      fsck_from f₀ vs,
      vs,
      rw e,
      e,
      unfold sum_of in omega (arith, c.files),
      unfold sum_of in omega (arith, c.dirs),
      unfold sum_of in omega (arith, c.used),
      c.paths,
    )
