-- ===== src/Tests/BuiltinTests.antt =====
-- The table of commands on concrete lines, plugins, JSON and the progress of the scheduler.
use neon_world_os.Base.{
  ℕ, true, false, List, [], ◌∷◌, ◌++◌, none, some, ◌≡◌, refl, inl, inr, ◌⊎◌, ◌↔◌, Dict, find, arith,
  Bytes, codes, str_eq,
}
use neon_world_os.Vfs.Path.{slash}
use neon_world_os.Vfs.State.{new_vfs, Vfs, with_root}
use neon_world_os.Vfs.Tree.{Node, node, nil, entry, new_dir}
use neon_world_os.Vfs.Dump.{load_dump, save_dump, dump_path}
use neon_world_os.Vfs.Dump.Entries.{dir_entry, file_entry, entries_of, nodes_entries, perform}
use neon_world_os.Vfs.Dump.RoundTrip.{load_dump-save_dump}
use neon_world_os.Vfs.Visit.Kept.{Rooted, new_dir-IsTree}
use neon_world_os.Scheduler.{Scheduler, new_scheduler, Call, submitted}
use neon_world_os.Scheduler.Progress.{Slot, RunsFirst, run_slots, run_slots_lem}
use neon_world_os.Trace.{new_trace}
use neon_world_os.Cli.Flags.{early_action, on_arg, version_json}
use neon_world_os.Util.{push_part}
use neon_world_os.Plugin.{Loader, load_plugin}
use neon_world_os.Plugin.Trusted.{Registered, Turned, load_plugin-Trusted}
use neon_world_os.Shell.State.{Shell, said}
use neon_world_os.Shell.Tokenize.{tokenize, tokenize_from}
use neon_world_os.Shell.Vars.{expand_vars}
use neon_world_os.Shell.Commands.{Rule, has_perm}
use neon_world_os.Shell.Permissions.{AllGranted, has_perm_iff}
use neon_world_os.Shell.Json.{json_array}
use neon_world_os.Shell.Json.Reading.{read_array, read_array-json_array}
use neon_world_os.Shell.Listing.{Outside, octal, octal_from}
use neon_world_os.Shell.Exec.{Host}
use neon_world_os.Shell.Builtins.{run_line, session}
use neon_world_os.Shell.Builtins.Files.{run_savefs}
use neon_world_os.Shell.Builtins.Saved.{Saved, savefs-sha_of}
use neon_world_os.Shell.Builtins.Runs.{session-Rooted}
use neon_world_os.Shell.Builtins.EchoCat.{Shown, echo-cat}
use neon_world_os.Shell.Builtins.Ends.{Ended, run_line-ends}

abbrev host : Host
host = record {
  registry = [];
  search = λ re. none;
  limit = λ c. true;
  scan = λ line s. (said [], s);
  is_mut = false;
  join_tokens = λ toks. [];
  now_hold = 1;
  now_wal = 2;
  now_audit = 3;
  audit_opened = false;
  now_begin = 8;
  now_end = 9;
}

abbrev hosts : ℕ → Host
hosts n = host

-- A directory for plugins, in which each path stands for itself.
abbrev loader : {S : Type 0} → Loader S
loader = record {
  is_absolute = λ path. false;
  allowed = some (codes "/plugins");
  join_path = λ dir path. dir ++ (slash ∷ path);
  canonical = λ path. path;
  opens = λ path. true;
  open_error = λ path. [];
  abi = λ path. some 1;
  symbol_error = λ path. none;
  register = λ path s. s;
}

abbrev world : Outside
world = record {
  out = [];
  toks = [];
  may_write = λ name. true;
  may_read = λ name. true;
  elapsed_us = 12;
  loader = loader;
}

abbrev worlds : ℕ → Outside
worlds n = world

abbrev fresh : Shell
fresh = record {
  vfs = new_vfs;
  sched = new_scheduler;
  trace = new_trace;
  files = [];
  vars = [];
  history = [];
  json_mode = false;
  safemode_on = false;
  policies = [];
  policy_on = false;
  allow = [];
  retain_on = true;
  wal_on = false;
  dlp_on = false;
  audit_on = false;
  audit_path = [];
  audit_json = false;
  audit_key = [];
  audit_prev_tag = [];
}

abbrev items : List Bytes
items = codes "say \"hi\"" ∷ codes "a\nb" ∷ []

read_array-json_array_example : read_array (json_array items ++ codes ";") ≡ some (items, codes ";")
read_array-json_array_example = read_array-json_array items (codes ";") (
  (
    inl (omega arith),
    (
      inl (omega arith),
      (
        inl (omega arith),
        (
          inl (omega arith),
          (inl (omega arith), (inl (omega arith), (inl (omega arith), (inl (omega arith), tt)))),
        ),
      ),
    ),
  ),
  ((inl (omega arith), (inr (omega arith, inl (omega arith)), (inl (omega arith), tt))), tt),
)

load_plugin-Trusted_example :
    Registered {S = Shell} loader (codes "a.so") fresh (load_plugin loader (codes "a.so") fresh)
    ⊎ Turned {S = Shell} loader fresh (load_plugin loader (codes "a.so") fresh)
load_plugin-Trusted_example = load_plugin-Trusted loader (codes "a.so") fresh

savefs-sha_of_example :
    Saved
      (codes "dump")
      fresh
      (run_savefs world (codes "savefs" ∷ codes "dump" ∷ codes "--sha256" ∷ []) fresh)
unfolding str_eq
savefs-sha_of_example = savefs-sha_of world (codes "savefs") (codes "dump") [] fresh refl refl refl

abbrev script : List Bytes
script = codes "mkdir /d" ∷ codes "echo hi /d/f" ∷ codes "time cat /d/f" ∷ codes "loadfs x" ∷ []

session-Rooted_example : Rooted (session hosts worlds 9 script fresh).vfs.root
session-Rooted_example =
    session-Rooted hosts worlds (λ n full s. (refl, λ h. h)) 9 script fresh
      (refl, new_dir-IsTree (slash ∷ []))

run_line-ends_example : Ended (run_line hosts worlds 16 (codes "time time ls /") fresh).0
run_line-ends_example =
    run_line-ends hosts worlds (λ n full s. (refl, λ h. h)) 16 (codes "time time ls /") fresh refl
      (omega arith)

echo-cat_example :
    Shown hosts worlds
      (expand_vars [] (codes "hi"))
      fresh
      (run_line hosts worlds 1 (codes "echo hi /f") fresh)
      (run_line hosts worlds 1
        (codes "cat /f")
        (run_line hosts worlds 1 (codes "echo hi /f") fresh).1).0
unfolding tokenize tokenize_from push_part
echo-cat_example =
    echo-cat hosts worlds 0 0 (codes "echo hi /f") (codes "cat /f") (codes "hi") (codes "/f") fresh
      refl (record { no_rules = refl; no_log = refl; in_rate = refl }) refl refl refl

-- A task that submits a second one.
abbrev calls : ℕ → List (Call ℕ)
calls f = submitted (codes "more") none ∷ []

abbrev waiting : Scheduler ℕ
waiting = record {
  queue =
      record { id = 1; name = codes "a"; fn = some 0 }
      ∷ record { id = 2; name = codes "b"; fn = none }
      ∷ [];
  next_id = 3;
  stopping = false;
}

abbrev slots : List Slot
slots =
    record { start = 0; budget = 5; clock = 1 ∷ 9 ∷ [] }
    ∷ record { start = 10; budget = 5; clock = 11 ∷ 12 ∷ 20 ∷ [] }
    ∷ []

run_slots_lem_example : RunsFirst calls waiting.queue (run_slots calls slots waiting)
run_slots_lem_example =
    run_slots_lem calls slots waiting (λ f. (tt, tt))
      ((1, 9 ∷ [], refl, omega arith), ((11, 12 ∷ 20 ∷ [], refl, omega arith), tt)) refl
      (omega arith)

octal_runs : octal 0o100644 ≡ codes "100644"
unfolding octal octal_from
octal_runs = refl

-- A directory with a file whose content looks like an entry.
abbrev small_tree : Node
small_tree = node true (slash ∷ []) [] (
    entry (codes "d")
      (node true (codes "d") []
        (entry (codes "f") (node false (codes "f") (codes "DIR /x\n") nil) nil))
      nil)

abbrev small : Vfs
small = with_root new_vfs small_tree

load_dump-save_dump_example :
    load_dump (save_dump small) new_vfs
    ≡ some (
      perform
          (dir_entry (codes "/d") ∷ file_entry (codes "/d/f") (codes "DIR /x\n") ∷ [])
          (with_root new_vfs (new_dir (slash ∷ []))),
      true,
    )
unfolding entries_of nodes_entries dump_path str_eq
load_dump-save_dump_example = load_dump-save_dump small new_vfs (
  (λ e. omega arith, (λ e. omega arith, tt)),
  (
    (
      (λ e. omega arith, (λ e. omega arith, (λ e. omega arith, (λ e. omega arith, tt)))),
      (λ e. omega arith, (λ e. omega arith, (λ e. omega arith, (λ e. omega arith, tt)))),
      omega arith,
    ),
    tt,
  ),
)

early_action_runs :
    early_action (codes "--about-json" ∷ codes "--version-json" ∷ []) ≡ some version_json
unfolding early_action on_arg str_eq
early_action_runs = refl

-- Reading and writing below /d come from two rules.
abbrev roles : Dict (List Rule)
roles =
    (
      codes "ops",
      (record { prefix = codes "/d"; perms = 1 })
          ∷ (record { prefix = codes "/d/x"; perms = 2 })
          ∷ [],
    )
    ∷ []

has_perm_iff_example : (has_perm roles (codes "ops") (codes "/d/x/f") 3 ≡ true) ↔ (
    (codes "ops" ≡ codes "root")
    ⊎ ((es : List Rule) × (find (codes "ops") roles ≡ some es) × AllGranted 3 (codes "/d/x/f") es))
has_perm_iff_example = has_perm_iff roles (codes "ops") (codes "/d/x/f") 3 (omega arith)
