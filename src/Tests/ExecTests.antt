-- ===== src/Tests/ExecTests.antt =====
-- `Shell::Exec` on concrete lines, the index of words and the reports of telemetry.
use neon_world_os.Base.{
  Bool, true, false, List, [], ◌∷◌, Option, none, some, ◌≡◌, ◌↔◌, inl, refl, Bytes, codes, str_eq,
  is_empty, if◌then◌else◌, find, assign,
}
use neon_world_os.Vfs.State.{new_vfs}
use neon_world_os.Shell.Tokenize.{tokenize, tokenize_from}
use neon_world_os.Shell.Commands.{is_one_of}
use neon_world_os.Scheduler.{new_scheduler}
use neon_world_os.Trace.{new_trace}
use neon_world_os.Shell.State.{Shell, Handler, PolicyRule, said}
use neon_world_os.Shell.Exec.{Host, exec, policy_denies, until_of, not_negative}
use neon_world_os.Shell.Exec.Refused.{Refused, exec-Refused}
use neon_world_os.Shell.Exec.Policy.{FirstDenies, policy_denies_iff}
use neon_world_os.Shell.Index.{
  index_add_path, index_from, is_alnum, is_digit, flush_word, insert_path, parse_duration, squeezed,
  leading_number, with_unit,
}
use neon_world_os.Vfs.Dump.{skip_spaces, is_space, read_digits}
use neon_world_os.Config.{to_lower}
use neon_world_os.Util.{push_part}

-- Expressions that match a text that is equal; the empty one throws.
abbrev exact : Bytes → Option (Bytes → Option Bool)
exact re = if is_empty re then none else some (λ s. some (str_eq re s))

abbrev says_ok : Handler
says_ok toks s = (said (codes "ok"), s)

abbrev host : Host
host = record {
  registry = (codes "rm", says_ok) ∷ [];
  search = exact;
  limit = λ c. true;
  scan = λ line s. (said (codes "[]"), s);
  is_mut = true;
  join_tokens = λ toks. [];
  now_hold = 5;
  now_wal = 6;
  now_audit = 7;
  audit_opened = false;
  now_begin = 8;
  now_end = 9;
}

abbrev safe : Shell
safe = record {
  vfs = new_vfs;
  sched = new_scheduler;
  trace = new_trace;
  files = [];
  vars = [];
  history = [];
  json_mode = false;
  safemode_on = true;
  policies = [];
  policy_on = false;
  allow = [];
  retain_on = true;
  wal_on = true;
  dlp_on = false;
  audit_on = false;
  audit_path = [];
  audit_json = false;
  audit_key = [];
  audit_prev_tag = [];
}

exec-Refused_example : Refused (codes "rm /a") safe (exec host (codes "rm /a") safe)
unfolding tokenize is_one_of str_eq tokenize_from push_part
exec-Refused_example =
    exec-Refused host (codes "rm /a") (codes "rm") (codes "/a" ∷ []) safe refl (inl (refl, refl))

until_of_runs : until_of (codes " 120x") ≡ 120
unfolding until_of not_negative skip_spaces is_space read_digits
until_of_runs = refl

abbrev rules : List PolicyRule
rules =
    (record { allow = true; cmd_re = codes "ls"; path_re = codes "/a" })
    ∷ (record { allow = false; cmd_re = codes "rm"; path_re = codes "/a" })
    ∷ []

policy_denies_iff_example :
    (policy_denies exact (codes "rm") (codes "/a" ∷ []) rules ≡ true)
    ↔ FirstDenies exact (codes "rm") (codes "/a" ∷ []) rules
policy_denies_iff_example = policy_denies_iff exact (codes "rm") (codes "/a" ∷ []) rules

index_runs : index_add_path (codes "/p") (codes "Go, go") [] ≡ (codes "go", codes "/p" ∷ []) ∷ []
unfolding index_add_path index_from is_alnum is_digit flush_word insert_path to_lower find assign
    str_eq
index_runs = refl

duration_runs : parse_duration (codes "2 H") ≡ 7200
unfolding parse_duration squeezed leading_number with_unit is_digit to_lower str_eq
duration_runs = refl
