-- ===== src/Plugin.antt =====
-- `LoadPlugin` of include/neon/plugin.hpp where there is `dlopen`. Paths, the environment and the
-- loader of the system are arguments.
pub mod Trusted
use neon_world_os.Base.{
  ℕ, Bool, true, false, not, List, [], ◌∷◌, ◌++◌, Option, none, some, Bytes, codes, if◌then◌else◌,
  ◌==◌, starts_with,
}

abbrev pub plugin_abi_version : ℕ
plugin_abi_version = 1

-- What is not in the source: `fs::path`, `weakly_canonical`, `getenv`, and the library at a path:
-- whether it opens, its two functions and what `dlerror` says. `S` is the shell that it is given to.
pub record Loader (S : Type 0) : Type 0 where
  pub is_absolute : Bytes → Bool
  pub allowed : Option Bytes
  pub join_path : Bytes → Bytes → Bytes
  pub canonical : Bytes → Bytes
  pub opens : Bytes → Bool
  pub open_error : Bytes → Bytes
  pub abi : Bytes → Option ℕ
  pub symbol_error : Bytes → Option Bytes
  pub register : Bytes → S → S

module _ {S : Type 0} (world : Loader S) where
  -- The path that is opened, or the message of the refusal.
  unfoldable pub plugin_path : Bytes → Option Bytes → Bool × Bytes
  plugin_path path none =
      if world.is_absolute path
      then (true, path)
      else (false, codes "err: plugin path must be absolute or under NEON_PLUGIN_DIR")
  plugin_path path (some dir) =
      let ap = world.canonical (world.join_path dir path) in
      if world.is_absolute path
      then (true, path)
      else if starts_with ap (world.canonical dir)
      then (true, ap)
      else (false, codes "err: plugin outside NEON_PLUGIN_DIR")

  -- `abifn && abifn() == kPluginAbiVersion`.
  unfoldable pub abi_matches : Option ℕ → Bool
  abi_matches none = false
  abi_matches (some n) = n == plugin_abi_version

  -- Behind the test on the version, with what `dlerror` gave.
  unfoldable pub register_plugin : Bytes → Option Bytes → S → Bytes × S
  register_plugin full (some e) s = (codes "err: " ++ e, s)
  register_plugin full none s = (codes "ok", world.register full s)

  -- Opening a library and asking for its version run its code, which is taken to leave the shell alone.
  unfoldable pub open_plugin : Bytes → S → Bytes × S
  unfolding abi_matches register_plugin
  open_plugin full s =
      if not (world.opens full)
      then (codes "err: " ++ world.open_error full, s)
      else if not (abi_matches (world.abi full))
      then (codes "err: plugin ABI mismatch", s)
      else register_plugin full (world.symbol_error full) s

  unfoldable pub load_plugin_at : Bool × Bytes → S → Bytes × S
  unfolding open_plugin
  load_plugin_at (true, full) s = open_plugin full s
  load_plugin_at (false, refusal) s = (refusal, s)

  unfoldable pub load_plugin : Bytes → S → Bytes × S
  unfolding plugin_path load_plugin_at
  load_plugin path s = load_plugin_at (plugin_path path world.allowed) s
