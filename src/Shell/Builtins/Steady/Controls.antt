-- ===== src/Shell/Builtins/Steady/Controls.antt =====
-- The commands on the shell leave the tree a tree.
use neon_world_os.Base.{
  ℕ, true, false, List, [], ◌∷◌, Option, none, some, ◌≡◌, refl, Bytes, codes, str_eq, length, subst,
  sym, inl, inr,
}
use neon_world_os.Vfs.Quota.{seal}
use neon_world_os.Vfs.Dump.{space, stoul}
use neon_world_os.Util.{join}
use neon_world_os.Plugin.{load_plugin}
use neon_world_os.Plugin.Trusted.{load_plugin-Trusted}
use neon_world_os.Shell.Schemas.{json_schema}
use neon_world_os.Shell.State.{Shell, Answer, said, threw, out_of_fuel, Run}
use neon_world_os.Shell.Listing.{Outside}
use neon_world_os.Shell.Builtins.Controls.{
  second, run_mode, run_ps, run_kill, history_answer, run_history, spoken, run_plugin,
  set_audit_key, audit_op, run_audit, run_seal, policy_op, run_policy, timed, run_time, run_trace,
  said_or_err, run_schema,
}
use neon_world_os.Shell.Builtins.Steady.{Steady, IsGuest, Good, Good-same, Good-set, Good-if}

module _ (R : Answer → Type 0) (texts : (t : Bytes) → R (said t)) (throws : R threw) where
  pub run_mode-Good : (a : List Bytes) (s : Shell) → Good R s (run_mode a s)
  unfolding run_mode
  run_mode-Good a s =
      Good-if R texts throws s (str_eq (second a) (codes "json")) _ _
        (Good-set R texts throws s (record s { json_mode = true }) _ refl refl)
        (Good-if R texts throws s (str_eq (second a) (codes "text")) _ _
          (Good-set R texts throws s (record s { json_mode = false }) _ refl refl)
          (Good-same R texts throws s _))

  pub run_ps-Good : (w : Outside) (a : List Bytes) (s : Shell) → Good R s (run_ps w a s)
  unfolding run_ps
  run_ps-Good w a s = Good-same R texts throws s _

  pub run_kill-Good : (a : List Bytes) (s : Shell) → Good R s (run_kill a s)
  unfolding run_kill
  run_kill-Good a s = Good-set R texts throws s _ _ refl refl

  history_answer-Good :
      (w : Outside) (a : List Bytes) (o : Option ℕ) (s : Shell) → Good R s (history_answer w a o s)
  unfolding history_answer
  history_answer-Good w a none s = record { answer = throws; steady = (refl, λ h. h) }
  history_answer-Good w a (some n) s = Good-same R texts throws s _

  pub run_history-Good : (w : Outside) (a : List Bytes) (s : Shell) → Good R s (run_history w a s)
  unfolding run_history
  run_history-Good w (c ∷ n ∷ rest) s = history_answer-Good w (c ∷ n ∷ rest) (stoul n) s
  run_history-Good w (c ∷ []) s = history_answer-Good w (c ∷ []) (some (length s.history)) s
  run_history-Good w [] s = history_answer-Good w [] (some (length s.history)) s

  audit_op-Good : (op : Bytes) (rest : List Bytes) (s : Shell) → Good R s (audit_op op rest s)
  unfolding audit_op set_audit_key
  audit_op-Good op [] s =
      Good-if R texts throws s (str_eq op (codes "on")) _ _
        (Good-set R texts throws s _ _ refl refl)
        (Good-if R texts throws s (str_eq op (codes "off")) _ _
          (Good-set R texts throws s (record s { audit_on = false }) _ refl refl)
          (Good-if R texts throws s (str_eq op (codes "status")) _ _ (Good-same R texts throws s _)
            (Good-same R texts throws s _)))
  audit_op-Good op (x ∷ rest) s =
      Good-if R texts throws s (str_eq op (codes "on")) _ _
        (Good-set R texts throws s _ _ refl refl)
        (Good-if R texts throws s (str_eq op (codes "off")) _ _
          (Good-set R texts throws s (record s { audit_on = false }) _ refl refl)
          (Good-if R texts throws s (str_eq op (codes "key")) _ _
            (Good-set R texts throws s _ _ refl refl)
            (Good-if R texts throws s (str_eq op (codes "status")) _ _
              (Good-same R texts throws s _) (Good-same R texts throws s _))))

  pub run_audit-Good : (a : List Bytes) (s : Shell) → Good R s (run_audit a s)
  unfolding run_audit
  run_audit-Good (c ∷ op ∷ rest) s = audit_op-Good op rest s
  run_audit-Good (c ∷ []) s = Good-same R texts throws s _
  run_audit-Good [] s = Good-same R texts throws s _

  pub run_seal-Good : (a : List Bytes) (s : Shell) → Good R s (run_seal a s)
  unfolding run_seal seal
  run_seal-Good a s =
      Good-if R texts throws s (str_eq (second a) (codes "on")) _ _
        (Good-set R texts throws s _ _ refl refl)
        (Good-if R texts throws s (str_eq (second a) (codes "off")) _ _
          (Good-set R texts throws s _ _ refl refl)
          (Good-if R texts throws s (str_eq (second a) (codes "status")) _ _
            (Good-same R texts throws s _) (Good-same R texts throws s _)))

  policy_op-Good : (op : Bytes) (rest : List Bytes) (s : Shell) → Good R s (policy_op op rest s)
  unfolding policy_op set_audit_key
  policy_op-Good op [] s =
      Good-if R texts throws s (str_eq op (codes "on")) _ _
        (Good-set R texts throws s _ _ refl refl)
        (Good-if R texts throws s (str_eq op (codes "off")) _ _
          (Good-set R texts throws s _ _ refl refl)
          (Good-if R texts throws s (str_eq op (codes "status")) _ _ (Good-same R texts throws s _)
            (Good-same R texts throws s _)))
  policy_op-Good op (x ∷ rest) s =
      Good-if R texts throws s (str_eq op (codes "on")) _ _
        (Good-set R texts throws s _ _ refl refl)
        (Good-if R texts throws s (str_eq op (codes "off")) _ _
          (Good-set R texts throws s _ _ refl refl)
          (Good-if R texts throws s (str_eq op (codes "allow")) _ _
            (Good-set R texts throws s _ _ refl refl)
            (Good-if R texts throws s (str_eq op (codes "deny")) _ _
              (Good-set R texts throws s _ _ refl refl)
              (Good-if R texts throws s (str_eq op (codes "key")) _ _
                (Good-set R texts throws s _ _ refl refl)
                (Good-if R texts throws s (str_eq op (codes "status")) _ _
                  (Good-same R texts throws s _) (Good-same R texts throws s _))))))

  pub run_policy-Good : (a : List Bytes) (s : Shell) → Good R s (run_policy a s)
  unfolding run_policy
  run_policy-Good (c ∷ op ∷ rest) s = policy_op-Good op rest s
  run_policy-Good (c ∷ []) s = Good-same R texts throws s _
  run_policy-Good [] s = Good-same R texts throws s _

  timed-Good :
      (w : Outside) (a : List Bytes) (s : Shell) (r : Answer × Shell)
      → Good R s r
      → Good R s (timed w a r)
  unfolding timed
  timed-Good w a s (said out, s') g = record { answer = texts _; steady = g.steady }
  timed-Good w a s (threw, s') h = h
  timed-Good w a s (out_of_fuel, s') h = h

  pub run_time-Good :
      (w : Outside) (run : Run) (a : List Bytes) (s : Shell)
      → ((c x : Bytes) (rest : List Bytes)
          → a ≡ c ∷ x ∷ rest
          → Good R s (run (join (x ∷ rest) (space ∷ [])) s))
      → Good R s (run_time w run a s)
  unfolding run_time
  run_time-Good w run (c ∷ x ∷ rest) s keep = timed-Good w (c ∷ x ∷ rest) s _ (keep c x rest refl)
  run_time-Good w run (c ∷ []) s keep = Good-same R texts throws s _
  run_time-Good w run [] s keep = Good-same R texts throws s _

  pub run_trace-Good : (w : Outside) (a : List Bytes) (s : Shell) → Good R s (run_trace w a s)
  unfolding run_trace
  run_trace-Good w (c ∷ op ∷ rest) s =
      Good-if R texts throws s (str_eq op (codes "on")) _ _
        (Good-set R texts throws s _ _ refl refl)
        (Good-if R texts throws s (str_eq op (codes "off")) _ _
          (Good-set R texts throws s _ _ refl refl) (Good-same R texts throws s _))
  run_trace-Good w (c ∷ []) s = Good-same R texts throws s _
  run_trace-Good w [] s = Good-same R texts throws s _

  said_or_err-Good : (o : Option Bytes) (s : Shell) → Good R s (said_or_err o, s)
  said_or_err-Good none s = Good-same R texts throws s _
  said_or_err-Good (some t) s = Good-same R texts throws s t

  pub run_schema-Good : (a : List Bytes) (s : Shell) → Good R s (run_schema a s)
  unfolding run_schema
  run_schema-Good (c ∷ name ∷ rest) s = said_or_err-Good (json_schema name) s
  run_schema-Good (c ∷ []) s = Good-same R texts throws s _
  run_schema-Good [] s = Good-same R texts throws s _

  spoken-Good : (s : Shell) (r : Bytes × Shell) → Steady s r.1 → Good R s (spoken r)
  spoken-Good s (t, s') h = record { answer = texts t; steady = h }

  load_plugin-Steady :
      (w : Outside) (path : Bytes) (s : Shell)
      → IsGuest w
      → Steady s (load_plugin w.loader path s).1
  load_plugin-Steady w path s guest = elim (load_plugin-Trusted w.loader path s) [
    | inl (full, inside, opens, abi, none_lacks, e) ↦
        subst (λ (r : Bytes × Shell). Steady s r.1) (sym e) (guest full s)
    | inr (message, e) ↦ subst (λ (r : Bytes × Shell). Steady s r.1) (sym e) (refl, λ h. h)
  ]

  pub run_plugin-Good :
      (w : Outside) (a : List Bytes) (s : Shell) → IsGuest w → Good R s (run_plugin w a s)
  unfolding run_plugin
  run_plugin-Good w (c ∷ op ∷ path ∷ rest) s guest =
      Good-if R texts throws s (str_eq op (codes "load")) _ _
        (spoken-Good s (load_plugin w.loader path s) (load_plugin-Steady w path s guest))
        (Good-same R texts throws s _)
  run_plugin-Good w (c ∷ op ∷ []) s guest = Good-same R texts throws s _
  run_plugin-Good w (c ∷ []) s guest = Good-same R texts throws s _
  run_plugin-Good w [] s guest = Good-same R texts throws s _
