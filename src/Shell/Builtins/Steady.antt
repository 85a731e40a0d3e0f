-- ===== src/Shell/Builtins/Steady.antt =====
-- What a command leaves as it is, and how it answers.
pub mod Files
pub mod Controls
pub mod Table
use neon_world_os.Base.{
  ℕ, suc, Bool, true, false, List, [], ◌∷◌, Option, none, some, ◌≡◌, refl, Bytes, codes,
  if◌then◌else◌, if_by, str_eq, All, length, subst, sym, inl, inr,
}
use neon_world_os.Vfs.Path.{slash}
use neon_world_os.Vfs.State.{Vfs}
use neon_world_os.Vfs.Files.{mkdir, touch, write}
use neon_world_os.Vfs.Quota.{seal}
use neon_world_os.Vfs.Dump.{space, stoul}
use neon_world_os.Vfs.Dump.Loading.{load_dump-keeps}
use neon_world_os.Vfs.Visit.Kept.{Rooted, new_dir-IsTree}
use neon_world_os.Vfs.Runs.Trees.{Kept, mkdir-Kept, touch-Kept, write-Kept}
use neon_world_os.Util.{join}
use neon_world_os.Crypto.Sha.{new_sha, digest_of}
use neon_world_os.Plugin.{load_plugin}
use neon_world_os.Plugin.Trusted.{load_plugin-Trusted}
use neon_world_os.Shell.Builtins.{builtins}
use neon_world_os.Shell.Builtins.Saved.{hash_blocks-sha_of}
use neon_world_os.Shell.Schemas.{json_schema}
use neon_world_os.Shell.State.{Shell, Answer, said, threw, out_of_fuel, Run, Handler}
use neon_world_os.Shell.Listing.{Outside}
use neon_world_os.Shell.Builtins.Files.{
  ok_or_err, run_ls, run_mkdir, run_touch, run_echo, run_cat, save_file, host_file, hash_blocks,
  hash_answer, listed, hash_file, wants_hash, after_save, run_savefs, loaded_answer, load_file_of,
  run_loadfs, run_tree,
}
use neon_world_os.Shell.Builtins.Controls.{
  second, run_mode, run_ps, run_kill, history_answer, run_history, spoken, run_plugin,
  set_audit_key, audit_op, run_audit, run_seal, policy_op, run_policy, timed, run_time, run_trace,
  said_or_err, run_schema,
}

-- The variables are as they were, and the tree is one if it was one.
abbrev pub Steady : Shell → Shell → Type 0
Steady s s' = (s'.vars ≡ s.vars) × (Rooted s.vfs.root → Rooted s'.vfs.root)

-- The library of a plugin leaves them so too.
abbrev pub IsGuest : Outside → Type 0
IsGuest w = (full : Bytes) (s : Shell) → Steady s (w.loader.register full s)

-- An answer with the property `R`, from a shell on which it was asked for.
pub record Good (R : Answer → Type 0) (s : Shell) (r : Answer × Shell) : Type 0 where
  pub answer : R r.0
  pub steady : Steady s r.1

module _ (R : Answer → Type 0) (texts : (t : Bytes) → R (said t)) (throws : R threw) where
  pub Good-same : (s : Shell) (t : Bytes) → Good R s (said t, s)
  Good-same s t = record { answer = texts t; steady = (refl, λ h. h) }

  -- A change of other fields.
  pub Good-set :
      (s s' : Shell) (t : Bytes)
      → s'.vars ≡ s.vars
      → s'.vfs.root ≡ s.vfs.root
      → Good R s (said t, s')
  Good-set s s' t e r = record { answer = texts t; steady = (e, λ h. rw r h) }

  pub Good-if :
      (s : Shell) (b : Bool) (x y : Answer × Shell)
      → Good R s x
      → Good R s y
      → Good R s (if b then x else y)
  Good-if s true x y hx hy = hx
  Good-if s false x y hx hy = hy
