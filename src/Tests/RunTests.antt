-- ===== src/Tests/RunTests.antt =====
-- Runs of the operations of the file system, on a small tree.
use neon_world_os.Base.{true, List, [], ◌∷◌, refl, codes, pos}
use neon_world_os.Vfs.Path.{slash}
use neon_world_os.Vfs.State.{new_vfs}
use neon_world_os.Vfs.Cache.{new_cache}
use neon_world_os.Vfs.Edits.{Disk, Stray}
use neon_world_os.Vfs.Visit.Kept.{Rooted, new_dir-IsTree}
use neon_world_os.Vfs.Runs.{
  Op, read_op, write_op, append_op, truncate_op, remove_op, touch_op, copy_op, move_op, begin_op,
  rollback_op, run,
}
use neon_world_os.Vfs.Runs.Reached.{run-Rooted}
use neon_world_os.Vfs.Runs.Contents.{Allowed, contents_of}
use neon_world_os.Vfs.Runs.Files.{run-Allowed}

abbrev fresh : Disk
fresh = record { vfs = new_vfs; cache = new_cache }

-- The names that `quota_reserve_` uses and nothing declares.
abbrev stray : Stray
stray = record { norm_r = codes "/x"; minus_old = pos 0 }

abbrev all_ops : List Op
all_ops =
    begin_op true
    ∷ write_op (codes "/d/a") (codes "alpha")
    ∷ copy_op (codes "/d") (codes "/e") true
    ∷ move_op (codes "/e/a") (codes "/b")
    ∷ truncate_op (codes "/b") 2 stray 1 2 3
    ∷ rollback_op true
    ∷ []

run-Rooted_example : Rooted (run all_ops fresh).0.vfs.root
run-Rooted_example = run-Rooted all_ops fresh (refl, new_dir-IsTree (slash ∷ []))

abbrev plain_ops : List Op
plain_ops =
    write_op (codes "/d/a") (codes "alpha")
    ∷ append_op (codes "/d/a") (codes "!") stray 1 2 3
    ∷ read_op (codes "/d/a")
    ∷ touch_op (codes "/d/b")
    ∷ copy_op (codes "/d") (codes "/e") true
    ∷ move_op (codes "/e/a") (codes "/f")
    ∷ remove_op (codes "/d") true 4
    ∷ read_op (codes "/d/a")
    ∷ []

run-Allowed_example :
    Allowed plain_ops
      (run plain_ops fresh).1
      (contents_of fresh)
      (contents_of (run plain_ops fresh).0)
run-Allowed_example = run-Allowed plain_ops fresh (tt, (tt, (tt, (tt, (tt, (tt, (tt, (tt, tt))))))))
