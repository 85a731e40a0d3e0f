-- ===== src/Shell/Builtins/Runs.antt =====
-- `Exec` with its table of commands: what a line leaves as it is.
use neon_world_os.Base.{
  ℕ, zero, suc, ◌&&◌, List, [], ◌∷◌, map, ◌≡◌, refl, ◌∙◌, Bytes, codes, if_by, find-All,
}
use neon_world_os.Vfs.State.{Vfs}
use neon_world_os.Vfs.Files.{mkdir}
use neon_world_os.Vfs.Visit.Kept.{Rooted}
use neon_world_os.Vfs.Runs.Trees.{mkdir-Kept, write-Kept}
use neon_world_os.Util.{join}
use neon_world_os.Shell.State.{Shell, Answer, said, threw, Run, Handler}
use neon_world_os.Shell.Tokenize.{tokenize, space}
use neon_world_os.Shell.Vars.{expand_vars}
use neon_world_os.Shell.Listing.{Outside}
use neon_world_os.Shell.Exec.{Host, exec, log_ahead, wal_file, audit, begun, ended, exec_scoped}
use neon_world_os.Shell.Exec.Kept.{exec-Fine}
use neon_world_os.Shell.Builtins.{builtins, linked, run_line, session}
use neon_world_os.Shell.Builtins.Steady.{Steady, Good, IsGuest}
use neon_world_os.Shell.Builtins.Steady.Table.{builtins-Good}

abbrev pub Steady-then : (s t u : Shell) → Steady s t → Steady t u → Steady s u
Steady-then s t u (e, k) (f, l) = (f ∙ e, λ h. l (k h))

log_ahead-Steady : (host : Host) (toks : List Bytes) (s : Shell) → Steady s (log_ahead host toks s)
unfolding log_ahead
log_ahead-Steady host toks s =
    if_by (Steady s) (s.wal_on && host.is_mut) _ _
      (λ e. (refl, λ h. write-Kept wal_file _ (made s) (mkdir-Kept (codes "/.wal") s.vfs h)))
      (λ e. (refl, λ h. h))
  where
    made : Shell → Vfs
    made s' = (mkdir (codes "/.wal") s'.vfs).0

audit-Steady : (host : Host) (line t : Bytes) (s : Shell) → Steady s (audit host line t s)
unfolding audit
audit-Steady host line t s = if_by (Steady s) _ _ _ (λ e. (refl, λ h. h)) (λ e. (refl, λ h. h))

module _ (R : Answer → Type 0) (texts : (t : Bytes) → R (said t)) (throws : R threw) (host : Host)
    (w : Outside) (run : Run) (guest : IsGuest w) where
  -- A line with the table of commands and the events of its `TraceScope`, if the calls of `Exec` below it are good.
  pub exec-Good :
      (line : Bytes) (s : Shell)
      → ((s' : Shell) → Steady s s' → Good R s' (run (codes "scan secrets /") s'))
      → ((s' : Shell) → Steady s s' → Good R s' (run (codes "scan pii /") s'))
      → ((c d x : Bytes) (args rest : List Bytes)
          → tokenize line ≡ c ∷ args
          → map (expand_vars s.vars) (c ∷ args) ≡ d ∷ x ∷ rest
          → (s' : Shell) → Steady s s'
          → Good R s' (run (join (x ∷ rest) (space ∷ [])) s'))
      → Good R s (exec_scoped (linked host w run) line s)
  unfolding exec_scoped begun ended
  exec-Good line s secrets pii inner =
      fine (exec (linked host w run) line (begun (linked host w run) s)) (
        exec-Fine (Steady s) R (linked host w run) texts (λ h s' k. k)
          (λ toks s' k.
            Steady-then s s' (log_ahead (linked host w run) toks s') k
              (log_ahead-Steady (linked host w run) toks s'))
          (λ l t s' k.
            Steady-then s s' (audit (linked host w run) l t s') k
              (audit-Steady (linked host w run) l t s'))
          (λ s' k. after s' _ k (secrets s' k)) (λ s' k. after s' _ k (pii s' k)) line
          (begun (linked host w run) s)
          (λ c args handler e f s' k. after s' _ k (
            find-All (λ (h : Handler). Good R s' (h (map (expand_vars s.vars) (c ∷ args)) s')) c
              (builtins w run) handler
              (builtins-Good R texts throws w run (map (expand_vars s.vars) (c ∷ args)) s' guest
                (λ d x rest i. inner c d x args rest e i s' k))
              f))
          (refl, λ h. h))
    where
      fine : (r : Answer × Shell) → R r.0 × Steady s r.1 → Good R s (ended (linked host w run) r)
      fine r (a, k) = record { answer = a; steady = k }

      after : (s' : Shell) (r : Answer × Shell) → Steady s s' → Good R s' r → R r.0 × Steady s r.1
      after s' r k g = (g.answer, Steady-then s s' r.1 k g.steady)

module _ (hosts : ℕ → Host) (worlds : ℕ → Outside) (guests : (n : ℕ) → IsGuest (worlds n)) where
  run_line-Good :
      (n : ℕ) (line : Bytes) (s : Shell) → Good (λ a. Unit) s (run_line hosts worlds n line s)
  unfolding run_line
  run_line-Good zero line s = record { answer = tt; steady = (refl, λ h. h) }
  run_line-Good (suc n) line s =
      exec-Good (λ a. Unit) (λ t. tt) tt (hosts n) (worlds n) (run_line hosts worlds n) (guests n)
        line s (λ s' k. run_line-Good n _ s') (λ s' k. run_line-Good n _ s')
        (λ c d x args rest e i s' k. run_line-Good n _ s')

  -- Whatever lines are given to the shell with its own commands, in the tree of its file system no file has
  -- children, if that was so before. The code that a plugin runs when it is loaded leaves the variables as
  -- they are and keeps such a tree such; the commands that it registers are not among the commands.
  pub session-Rooted :
      (n : ℕ) (lines : List Bytes) (s : Shell)
      → Rooted s.vfs.root
      → Rooted (session hosts worlds n lines s).vfs.root
  unfolding session
  session-Rooted n [] s h = h
  session-Rooted n (line ∷ lines) s h =
      session-Rooted n lines (run_line hosts worlds n line s).1
        ((run_line-Good n line s).steady.1 h)
