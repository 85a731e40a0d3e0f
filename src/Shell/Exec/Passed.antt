-- ===== src/Shell/Exec/Passed.antt =====
-- A command that nothing stands in the way of.
use neon_world_os.Base.{
  Bool, true, false, ◌&&◌, List, [], ◌∷◌, ◌++◌, map, Option, none, some, ◌≡◌, refl, ap, ◌∙◌, Bytes,
  codes, if◌then◌else◌, if_by, find,
}
use neon_world_os.Shell.State.{Shell, said, Handler}
use neon_world_os.Shell.Tokenize.{tokenize}
use neon_world_os.Shell.Vars.{expand_vars}
use neon_world_os.Shell.Commands.{is_one_of, perm_for_cmd}
use neon_world_os.Shell.Exec.{
  Host, blocked, delcmd, sensitive, policy_denies, hold_denies, log_ahead, leak_scan, audit_answer,
  exec_command, exec_limited, exec_expanded, exec_found, exec_tokens, exec,
}

-- The shell has no rules and does not log ahead, and the rate of the command is within its limit.
pub record IsOpen (host : Host) (c : Bytes) (s : Shell) : Type 0 where
  pub no_rules : s.policies ≡ []
  pub no_log : s.wal_on ≡ false
  pub in_rate : host.limit c ≡ true

-- The command neither deletes nor shares, and its name holds no variable.
pub record IsHarmless (c : Bytes) (s : Shell) : Type 0 where
  pub not_blocked : is_one_of c blocked ≡ false
  pub not_deleting : is_one_of c delcmd ≡ false
  pub not_sensitive : is_one_of c sensitive ≡ false
  pub constant : expand_vars s.vars c ≡ c

-- The shell with the line in its history.
abbrev pub noted : Bytes → Shell → Shell
noted line s = record s { history = s.history ++ line ∷ [] }

if_false : {A : Type 0} (b : Bool) (x y : A) → b ≡ false → (if b then x else y) ≡ y
if_false true x y e = absurd (cc)
if_false false x y e = refl

and_false : (a b : Bool) → b ≡ false → (a && b) ≡ false
and_false true b e = e
and_false false b e = refl

module _ (host : Host) (handler : Handler) (line c : Bytes) (args : List Bytes) (s : Shell)
    (is_open : IsOpen host c s) (harmless : IsHarmless c s) where
  hold_denies-harmless : hold_denies host.now_hold (c ∷ args) s ≡ false
  unfolding hold_denies
  hold_denies-harmless =
      if_by (λ b. b ≡ false) s.retain_on _ false
        (λ e. if_false (is_one_of c delcmd) _ false harmless.not_deleting) (λ e. refl)

  log_ahead-open : log_ahead host (c ∷ args) s ≡ s
  unfolding log_ahead
  log_ahead-open = if_false (s.wal_on && host.is_mut) _ s (rw is_open.no_log refl)

  leak_scan-harmless : leak_scan host c s ≡ (none, s)
  unfolding leak_scan
  leak_scan-harmless =
      if_false (s.dlp_on && is_one_of c sensitive) _ (none, s)
        (and_false s.dlp_on (is_one_of c sensitive) harmless.not_sensitive)

  exec_expanded-open :
      exec_expanded host handler line c args s ≡ audit_answer host line (handler (c ∷ args) s)
  unfolding exec_expanded exec_limited exec_command
  exec_expanded-open =
      if_false (hold_denies host.now_hold (c ∷ args) s) _ _ hold_denies-harmless
      ∙ ap (λ (u : Shell). exec_limited host handler line c (c ∷ args) (leak_scan host c u))
          log_ahead-open
      ∙ ap (exec_limited host handler line c (c ∷ args)) leak_scan-harmless
      ∙ ap
          (λ b.
            if b then exec_command host handler line (c ∷ args) s else (said (codes "err_rate"), s))
          is_open.in_rate

exec_found-open :
    (host : Host) (handler : Handler) (line c : Bytes) (args : List Bytes) (s : Shell)
    → IsOpen host c s
    → IsHarmless c s
    → exec_found host (some handler) line c args s
      ≡ audit_answer host line (handler (c ∷ map (expand_vars s.vars) args) s)
unfolding exec_found policy_denies
exec_found-open host handler line c args s o h =
    if_false (s.safemode_on && is_one_of c blocked) _ _
      (and_false s.safemode_on (is_one_of c blocked) h.not_blocked)
    ∙ if_false (policy_denies host.search c (perm_for_cmd (c ∷ args)).1 s.policies) _ _
        (ap (policy_denies host.search c (perm_for_cmd (c ∷ args)).1) o.no_rules)
    ∙ ap (λ d. exec_expanded host handler line d (map (expand_vars s.vars) args) s) h.constant
    ∙ exec_expanded-open host handler line c (map (expand_vars s.vars) args) s o h

-- The command that is found runs once, on the words with their variables expanded, in the shell with
-- the line in its history, and is audited.
pub exec-open :
    (host : Host) (handler : Handler) (line c : Bytes) (args : List Bytes) (s : Shell)
    → tokenize line ≡ c ∷ args
    → find c host.registry ≡ some handler
    → IsOpen host c s
    → IsHarmless c s
    → exec host line s
      ≡ audit_answer host line (handler (c ∷ map (expand_vars s.vars) args) (noted line s))
unfolding exec exec_tokens
exec-open host handler line c args s e f o h =
    ap (λ (toks : List Bytes). exec_tokens host line toks s) e
    ∙ ap (λ (r : Option Handler). exec_found host r line c args (noted line s)) f
    ∙ exec_found-open host handler line c args (noted line s)
        (record { no_rules = o.no_rules; no_log = o.no_log; in_rate = o.in_rate })
        (record {
          not_blocked = h.not_blocked;
          not_deleting = h.not_deleting;
          not_sensitive = h.not_sensitive;
          constant = h.constant;
        })
