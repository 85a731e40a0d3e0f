-- ===== src/Vfs/State.antt =====
-- `class Vfs` of include/neon/vfs.hpp: its state. The mutex is not modelled: an operation is one
-- step. Clocks are arguments of the operations that read them.
use neon_world_os.Base.{ℕ, Bool, false, [], ◌∷◌, Bytes, Dict, ◌^◌}
use neon_world_os.Vfs.Path.{slash}
use neon_world_os.Vfs.Tree.{Node, new_dir}

-- `size_t` and `uint64_t` arithmetic wraps at this number.
abbrev pub word_mod : ℕ
word_mod = 2 ^ 64

pub record Meta : Type 0 where
  pub mode : ℕ
  pub ctime : ℕ
  pub mtime : ℕ
  pub immutable : Bool

-- A `Meta` as `meta_[k]` makes it.
abbrev pub new_meta : Meta
new_meta = record { mode = 0o100644; ctime = 0; mtime = 0; immutable = false }

pub record Vfs : Type 0 where
  pub root : Node
  pub sealed : Bool
  pub quota_bytes : ℕ
  pub tx_active : Bool
  pub tx_snapshot : Bytes
  pub meta : Dict Meta
  pub xattrs : Dict (Dict Bytes)
  pub locks_ms : Dict ℕ
  pub quota_limit : Dict ℕ
  pub quota_used : Dict ℕ
  pub path_sizes : Dict ℕ
  pub umask : ℕ
  pub def_file_mode : ℕ
  pub def_dir_mode : ℕ

-- The constructor and the initial values of the fields.
abbrev pub new_vfs : Vfs
new_vfs = record {
  root = new_dir (slash ∷ []);
  sealed = false;
  quota_bytes = 0;
  tx_active = false;
  tx_snapshot = [];
  meta = [];
  xattrs = [];
  locks_ms = [];
  quota_limit = [];
  quota_used = [];
  path_sizes = [];
  umask = 0o022;
  def_file_mode = 0o100644;
  def_dir_mode = 0o40755;
}

abbrev pub with_root : Vfs → Node → Vfs
with_root v root = record v { root = root }
