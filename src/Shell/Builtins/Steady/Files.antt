-- ===== src/Shell/Builtins/Steady/Files.antt =====
-- The commands on files leave the tree a tree.
use neon_world_os.Base.{
  suc, Bool, true, false, List, [], ◌∷◌, Option, none, some, refl, Bytes, if_by, length, subst, sym,
}
use neon_world_os.Vfs.Path.{slash}
use neon_world_os.Vfs.State.{Vfs}
use neon_world_os.Vfs.Files.{mkdir, touch, write}
use neon_world_os.Vfs.Dump.Loading.{load_dump-keeps}
use neon_world_os.Vfs.Visit.Kept.{Rooted, new_dir-IsTree}
use neon_world_os.Vfs.Runs.Trees.{Kept, mkdir-Kept, touch-Kept, write-Kept}
use neon_world_os.Crypto.Sha.{new_sha, digest_of}
use neon_world_os.Shell.Builtins.Saved.{hash_blocks-sha_of}
use neon_world_os.Shell.State.{Shell, Answer, said, threw, out_of_fuel}
use neon_world_os.Shell.Listing.{Outside}
use neon_world_os.Shell.Builtins.Files.{
  ok_or_err, run_ls, run_mkdir, run_touch, run_echo, run_cat, save_file, host_file, hash_blocks,
  hash_answer, listed, hash_file, wants_hash, after_save, run_savefs, loaded_answer, load_file_of,
  run_loadfs, run_tree,
}
use neon_world_os.Shell.Builtins.Steady.{Steady, Good, Good-same, Good-if}

module _ (R : Answer → Type 0) (texts : (t : Bytes) → R (said t)) (throws : R threw) where
  ok_or_err-Good :
      (s : Shell) (r : Vfs × Bool) → (Rooted s.vfs.root → Kept r) → Good R s (ok_or_err r s)
  unfolding ok_or_err
  ok_or_err-Good s (v, ok) h = record { answer = texts _; steady = (refl, h) }

  pub run_ls-Good : (a : List Bytes) (s : Shell) → Good R s (run_ls a s)
  unfolding run_ls
  run_ls-Good a s = Good-same R texts throws s _

  pub run_mkdir-Good : (a : List Bytes) (s : Shell) → Good R s (run_mkdir a s)
  unfolding run_mkdir
  run_mkdir-Good (c ∷ p ∷ rest) s = ok_or_err-Good s (mkdir p s.vfs) (mkdir-Kept p s.vfs)
  run_mkdir-Good (c ∷ []) s = Good-same R texts throws s _
  run_mkdir-Good [] s = Good-same R texts throws s _

  pub run_touch-Good : (a : List Bytes) (s : Shell) → Good R s (run_touch a s)
  unfolding run_touch
  run_touch-Good (c ∷ p ∷ rest) s = ok_or_err-Good s (touch p s.vfs) (touch-Kept p s.vfs)
  run_touch-Good (c ∷ []) s = Good-same R texts throws s _
  run_touch-Good [] s = Good-same R texts throws s _

  pub run_echo-Good : (a : List Bytes) (s : Shell) → Good R s (run_echo a s)
  unfolding run_echo
  run_echo-Good (c ∷ t ∷ p ∷ rest) s = ok_or_err-Good s (write p t s.vfs) (write-Kept p t s.vfs)
  run_echo-Good (c ∷ t ∷ []) s = Good-same R texts throws s _
  run_echo-Good (c ∷ []) s = Good-same R texts throws s _
  run_echo-Good [] s = Good-same R texts throws s _

  pub run_cat-Good : (a : List Bytes) (s : Shell) → Good R s (run_cat a s)
  unfolding run_cat
  run_cat-Good (c ∷ p ∷ rest) s = Good-same R texts throws s _
  run_cat-Good (c ∷ []) s = Good-same R texts throws s _
  run_cat-Good [] s = Good-same R texts throws s _

  loaded_answer-Good :
      (s : Shell) (t : Bytes) (r : Vfs × Bool)
      → (Rooted s.vfs.root → Kept r)
      → Good R s (loaded_answer (some r) s)
  unfolding loaded_answer
  loaded_answer-Good s t (v, true) h = record { answer = texts _; steady = (refl, h) }
  loaded_answer-Good s t (v, false) h = record { answer = throws; steady = (refl, h) }

  load_file_of-Good : (o : Option Bytes) (s : Shell) → Good R s (load_file_of o s)
  unfolding load_file_of
  load_file_of-Good none s = Good-same R texts throws s _
  load_file_of-Good (some t) s =
      let (r, e, kept) =
        load_dump-keeps (λ v. Rooted v.root) (λ p v h. mkdir-Kept p v h)
          (λ p u v h. write-Kept p u v h) t s.vfs (refl, new_dir-IsTree (slash ∷ [])) in
      rw e (loaded_answer-Good s t r (λ h. kept))

  pub run_loadfs-Good : (w : Outside) (a : List Bytes) (s : Shell) → Good R s (run_loadfs w a s)
  unfolding run_loadfs
  run_loadfs-Good w (c ∷ name ∷ rest) s = load_file_of-Good (host_file w name s) s
  run_loadfs-Good w (c ∷ []) s = Good-same R texts throws s _
  run_loadfs-Good w [] s = Good-same R texts throws s _

  pub run_tree-Good : (w : Outside) (a : List Bytes) (s : Shell) → Good R s (run_tree w a s)
  unfolding run_tree
  run_tree-Good w a s = Good-same R texts throws s _

  listed-Good :
      (w : Outside) (a : List Bytes) (s : Shell) (r : Answer × Shell)
      → Good R s r
      → Good R s (listed w a r)
  unfolding listed
  listed-Good w a s (said out, s') g = record { answer = texts _; steady = g.steady }
  listed-Good w a s (threw, s') g = g
  listed-Good w a s (out_of_fuel, s') g = g

  hash_file-Good :
      (w : Outside) (a : List Bytes) (o : Option Bytes) (s s' : Shell)
      → Steady s s'
      → Good R s (hash_file w a o s')
  unfolding hash_file hash_answer
  hash_file-Good w a none s s' h = record { answer = texts _; steady = h }
  hash_file-Good w a (some t) s s' h =
      listed-Good w a s
        (hash_answer (digest_of (hash_blocks (suc (length t)) t (some new_sha))), s')
        (subst (λ (o : Option Bytes). Good R s (hash_answer o, s')) (sym (hash_blocks-sha_of t))
          (record { answer = texts _; steady = h }))

  after_save-Good :
      (w : Outside) (a options : List Bytes) (name : Bytes) (s : Shell) (r : Shell × Bool)
      → Steady s r.0
      → Good R s (after_save w a options name r)
  unfolding after_save
  after_save-Good w a options name s (s', false) h = record { answer = texts _; steady = h }
  after_save-Good w a options name s (s', true) h =
      Good-if R texts throws s (wants_hash options) _ _
        (hash_file-Good w a (host_file w name s') s s' h) (record { answer = texts _; steady = h })

  save_file-Steady : (w : Outside) (name : Bytes) (s : Shell) → Steady s (save_file w name s).0
  unfolding save_file
  save_file-Steady w name s =
      if_by (λ (r : Shell × Bool). Steady s r.0) (w.may_write name) _ _ (λ e. (refl, λ h. h))
        (λ e. (refl, λ h. h))

  pub run_savefs-Good : (w : Outside) (a : List Bytes) (s : Shell) → Good R s (run_savefs w a s)
  unfolding run_savefs
  run_savefs-Good w (c ∷ name ∷ rest) s =
      after_save-Good w (c ∷ name ∷ rest) rest name s (save_file w name s)
        (save_file-Steady w name s)
  run_savefs-Good w (c ∷ []) s = Good-same R texts throws s _
  run_savefs-Good w [] s = Good-same R texts throws s _
