-- ===== src/Shell/Exec/Kept.antt =====
-- What `Exec` keeps: a property of the shell that its own steps, the commands and the scans keep.
use neon_world_os.Base.{
  Bool, true, false, ◌&&◌, List, [], ◌∷◌, ◌++◌, map, Option, none, some, ◌≡◌, refl, Bytes, codes,
  if◌then◌else◌, if_by, find, str_eq,
}
use neon_world_os.Shell.State.{Shell, Answer, said, threw, out_of_fuel, Handler}
use neon_world_os.Shell.Tokenize.{tokenize}
use neon_world_os.Shell.Vars.{expand_vars}
use neon_world_os.Shell.Commands.{is_one_of, perm_for_cmd}
use neon_world_os.Shell.Exec.{
  Host, blocked, sensitive, policy_denies, hold_denies, log_ahead, audit, audit_answer,
  exec_command, after_scan, second_scan, leak_scan, exec_limited, exec_expanded, exec_found,
  exec_tokens, exec,
}

-- The property is one of answers and shells: of what `Exec` gives, `R`, and of the shell before a
-- command, `P`. The table has for each command that it is found under a name what it keeps.
module _ (P : Shell → Type 0) (R : Answer → Type 0) (host : Host) (texts : (t : Bytes) → R (said t))
    (keep_history : (h : List Bytes) (s : Shell) → P s → P (record s { history = h }))
    (keep_log : (toks : List Bytes) (s : Shell) → P s → P (log_ahead host toks s))
    (keep_audit : (line t : Bytes) (s : Shell) → P s → P (audit host line t s)) where
  abbrev pub Fine : Answer × Shell → Type 0
  Fine r = R r.0 × P r.1

  -- What the scans give: nothing, or an answer of `Exec`.
  Scanned : Option Answer × Shell → Type 0
  Scanned (none, s) = P s
  Scanned (some a, s) = R a × P s

  audit_answer-Fine : (line : Bytes) (r : Answer × Shell) → Fine r → Fine (audit_answer host line r)
  unfolding audit_answer
  audit_answer-Fine line (said t, s) (hr, h) = (hr, keep_audit line t s h)
  audit_answer-Fine line (threw, s) h = h
  audit_answer-Fine line (out_of_fuel, s) h = h

  passed_or :
      (b : Bool) (t : Bytes) (s : Shell) → P s → Scanned (if b then none else some (said t), s)
  unfolding Scanned
  passed_or true t s h = h
  passed_or false t s h = (texts t, h)

  after_scan-Scanned : (b : Bool) (r : Answer × Shell) → Fine r → Scanned (after_scan b r)
  unfolding after_scan
  after_scan-Scanned b (said t, s) (hr, h) =
      passed_or (b && str_eq t (codes "[]")) (codes "err_dlp") s h
  after_scan-Scanned b (threw, s) h = unfold Scanned in h
  after_scan-Scanned b (out_of_fuel, s) h = unfold Scanned in h

  module _ (keep_secrets : (s : Shell) → P s → Fine (host.scan (codes "scan secrets /") s))
      (keep_pii : (s : Shell) → P s → Fine (host.scan (codes "scan pii /") s)) where
    second_scan-Scanned : (r : Answer × Shell) → Fine r → Scanned (second_scan host r)
    unfolding second_scan
    second_scan-Scanned (said t, s) (hr, h) =
        after_scan-Scanned (str_eq t (codes "[]")) _ (keep_pii s h)
    second_scan-Scanned (threw, s) h = unfold Scanned in h
    second_scan-Scanned (out_of_fuel, s) h = unfold Scanned in h

    leak_scan-Scanned : (c : Bytes) (s : Shell) → P s → Scanned (leak_scan host c s)
    unfolding leak_scan
    leak_scan-Scanned c s h =
        if_by Scanned (s.dlp_on && is_one_of c sensitive) _ (none, s)
          (λ e. second_scan-Scanned _ (keep_secrets s h)) (λ e. unfold Scanned in h)

    module _ (handler : Handler) (line c : Bytes) (args : List Bytes) where
      exec_limited-Fine :
          ((s : Shell) → P s → Fine (handler args s))
          → (r : Option Answer × Shell) → Scanned r
          → Fine (exec_limited host handler line c args r)
      unfolding exec_limited exec_command Scanned
      exec_limited-Fine keep (some a, s) h = h
      exec_limited-Fine keep (none, s) h =
          if_by Fine (host.limit c) _ (said (codes "err_rate"), s)
            (λ e. audit_answer-Fine line (handler args s) (keep s h)) (λ e. (texts _, h))

    exec_expanded-Fine :
        (handler : Handler) (line c : Bytes) (args : List Bytes) (s : Shell)
        → ((s' : Shell) → P s' → Fine (handler (c ∷ args) s'))
        → P s
        → Fine (exec_expanded host handler line c args s)
    unfolding exec_expanded
    exec_expanded-Fine handler line c args s keep h =
        if_by Fine (hold_denies host.now_hold (c ∷ args) s) (said (codes "err_hold"), s) _
          (λ e. (texts _, h))
          (λ e.
            exec_limited-Fine handler line c (c ∷ args) keep _
              (leak_scan-Scanned c _ (keep_log (c ∷ args) s h)))

    exec_found-Fine :
        (o : Option Handler) (line c : Bytes) (args : List Bytes) (s : Shell)
        → ((handler : Handler)
            → o ≡ some handler
            → (s' : Shell) → P s'
            → Fine (handler (map (expand_vars s.vars) (c ∷ args)) s'))
        → P s
        → Fine (exec_found host o line c args s)
    unfolding exec_found
    exec_found-Fine none line c args s keep h = (texts _, h)
    exec_found-Fine (some handler) line c args s keep h =
        if_by Fine (s.safemode_on && is_one_of c blocked) (said (codes "err_denied"), s) _
          (λ e. (texts _, h))
          (λ e.
            if_by Fine (policy_denies host.search c (perm_for_cmd (c ∷ args)).1 s.policies)
              (said (codes "err_denied"), s) _ (λ i. (texts _, h))
              (λ i.
                exec_expanded-Fine handler line (expand_vars s.vars c)
                  (map (expand_vars s.vars) args) s (keep handler refl) h))

    exec_tokens-Fine :
        (line : Bytes) (toks : List Bytes) (s : Shell)
        → ((c : Bytes) (args : List Bytes) (handler : Handler)
            → toks ≡ c ∷ args
            → find c host.registry ≡ some handler
            → (s' : Shell) → P s'
            → Fine (handler (map (expand_vars s.vars) (c ∷ args)) s'))
        → P s
        → Fine (exec_tokens host line toks s)
    unfolding exec_tokens
    exec_tokens-Fine line [] s keep h = (texts _, h)
    exec_tokens-Fine line (c ∷ args) s keep h =
        exec_found-Fine (find c host.registry) line c args
          (record s { history = s.history ++ line ∷ [] }) (λ handler e. keep c args handler refl e)
          (keep_history _ s h)

    -- `Exec` keeps the property, if the command that it finds keeps it on the words of the line with
    -- their variables expanded.
    pub exec-Fine :
        (line : Bytes) (s : Shell)
        → ((c : Bytes) (args : List Bytes) (handler : Handler)
            → tokenize line ≡ c ∷ args
            → find c host.registry ≡ some handler
            → (s' : Shell) → P s'
            → Fine (handler (map (expand_vars s.vars) (c ∷ args)) s'))
        → P s
        → Fine (exec host line s)
    unfolding exec
    exec-Fine line s keep h = exec_tokens-Fine line (tokenize line) s keep h
