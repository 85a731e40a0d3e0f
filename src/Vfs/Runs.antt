-- ===== src/Vfs/Runs.antt =====
-- Runs of the operations of src/vfs.cpp on the tree: each call with what it answers.
pub mod Trees
pub mod Linked
pub mod Reached
pub mod Contents
pub mod Files
use neon_world_os.Base.{ℕ, Bool, false, List, [], ◌∷◌, Option, none, some, Bytes}
use neon_world_os.Vfs.State.{Vfs}
use neon_world_os.Vfs.Files.{read, write, mkdir, touch}
use neon_world_os.Vfs.Links.{remove, copy, move}
use neon_world_os.Vfs.Dump.{Loaded, begin_tx, commit_tx, rollback_tx}
use neon_world_os.Vfs.Edits.{Disk, with_vfs, Stray, append, truncate}

-- A call, with the readings of the clock, the names that nothing declares, and whether the host gives
-- a temporary file.
pub data Op : Type 0 where
  read_op : Bytes → Op
  write_op : Bytes → Bytes → Op
  mkdir_op : Bytes → Op
  touch_op : Bytes → Op
  append_op : Bytes → Bytes → Stray → ℕ → ℕ → ℕ → Op
  truncate_op : Bytes → ℕ → Stray → ℕ → ℕ → ℕ → Op
  remove_op : Bytes → Bool → ℕ → Op
  copy_op : Bytes → Bytes → Bool → Op
  move_op : Bytes → Bytes → Op
  begin_op : Bool → Op
  commit_op : Op
  rollback_op : Bool → Op

pub data Answer : Type 0 where
  done : Bool → Answer
  text : Option Bytes → Answer

-- A change of the file system that does not touch the cache.
abbrev pub on_vfs : Disk → Vfs × Bool → Disk × Answer
on_vfs s (v, ok) = (with_vfs s v, done ok)

abbrev pub on_disk : Disk × Bool → Disk × Answer
on_disk (s, ok) = (s, done ok)

-- `LoadDump` is never out of fuel.
abbrev pub loaded_or : Vfs → Loaded → Vfs × Bool
loaded_or v none = (v, false)
loaded_or v (some r) = r

unfoldable pub step : Op → Disk → Disk × Answer
unfolding read write mkdir touch append truncate remove copy move begin_tx commit_tx rollback_tx
step (read_op path) s = (s, text (read path s.vfs))
step (write_op path t) s = on_vfs s (write path t s.vfs)
step (mkdir_op path) s = on_vfs s (mkdir path s.vfs)
step (touch_op path) s = on_vfs s (touch path s.vfs)
step (append_op path t x now now₁ now₂) s = on_disk (append path t x now now₁ now₂ s)
step (truncate_op path size x now now₁ now₂) s = on_disk (truncate path size x now now₁ now₂ s)
step (remove_op path recursive now) s = on_vfs s (remove path recursive now s.vfs)
step (copy_op from to recursive) s = on_vfs s (copy from to recursive s.vfs)
step (move_op from to) s = on_vfs s (move from to s.vfs)
step (begin_op host) s = on_vfs s (begin_tx host s.vfs)
step commit_op s = on_vfs s (commit_tx s.vfs)
step (rollback_op host) s = on_vfs s (loaded_or s.vfs (rollback_tx host s.vfs))

-- The state after the calls, and their answers.
unfoldable pub run : List Op → Disk → Disk × List Answer
unfolding step
run [] s = (s, [])
run (op ∷ ops) s = let (s', a) = step op s in let (s'', answers) = run ops s' in (s'', a ∷ answers)
