-- ===== src/Shell/Builtins/Controls.antt =====
-- The commands on the shell and the kernel: `help`, `mode`, `ps`, `kill`, `history`, `plugin`, `audit`,
-- `seal`, `policy`, `time`, `trace`, `schema` and `meminfo` of src/shell.cpp.
use neon_world_os.Base.{
  ℕ, ◌-◌, Bool, true, false, List, [], ◌∷◌, ◌++◌, map, Option, none, some, Bytes, codes,
  if◌then◌else◌, ltb, str_eq, is_empty, drop, length,
}
use neon_world_os.Vfs.Quota.{seal}
use neon_world_os.Vfs.Dump.{decimal, newline, space, stoul}
use neon_world_os.Scheduler.{Scheduler, Task, snapshot}
use neon_world_os.Scheduler
use neon_world_os.Trace
use neon_world_os.Plugin.{load_plugin}
use neon_world_os.Util.{join}
use neon_world_os.Shell.State.{Shell, Answer, said, threw, Run, Handler}
use neon_world_os.Shell.Index.{insert_path, erase_path}
use neon_world_os.Shell.Json.{json_escape}
use neon_world_os.Shell.Listing.{Outside, long_or, lines}
use neon_world_os.Shell.Schemas.{json_schema}
use neon_world_os.Shell.Builtins.Files.{failed}

unfoldable pub run_help : Handler
run_help a s = (
  said (
      codes "Commands: ls, cat, echo, mkdir, touch, ps, kill, meminfo, help, mode, savefs, loadfs, "
      ++ codes "tree, plugin"),
  s,
)

-- The word at place 1, if there is one.
abbrev pub second : List Bytes → Bytes
second (c ∷ w ∷ rest) = w
second a = []

abbrev pub on_or_off : Bool → Bytes
on_or_off b = if b then codes "on" else codes "off"

unfoldable pub run_mode : Handler
run_mode a s =
    if str_eq (second a) (codes "json")
    then (said (codes "ok"), record s { json_mode = true })
    else if str_eq (second a) (codes "text")
    then (said (codes "ok"), record s { json_mode = false })
    else (said (if s.json_mode then codes "json" else codes "text"), s)

unfoldable pub task_json : Task ℕ → Bytes
unfolding decimal json_escape
task_json t =
    codes "{\"id\":" ++ (decimal t.id ++ (codes ",\"name\":" ++ (json_escape t.name ++ codes "}")))

-- The loop over the tasks, with `if (i) o << ','`.
unfoldable pub tasks_json : Bool → List (Task ℕ) → Bytes
unfolding task_json
tasks_json first [] = []
tasks_json first (t ∷ ts) =
    (if first then [] else b',' ∷ []) ++ (task_json t ++ tasks_json false ts)

unfoldable pub tasks_text : List (Task ℕ) → Bytes
unfolding decimal
tasks_text [] = []
tasks_text (t ∷ ts) = decimal t.id ++ (space ∷ (t.name ++ newline ∷ tasks_text ts))

unfoldable pub run_ps : Outside → Handler
unfolding snapshot tasks_json tasks_text long_or
run_ps w a s =
    let snap = snapshot s.sched in
    (
      said (
          if s.json_mode
          then long_or a w.out w.toks s.vfs (b'[' ∷ (tasks_json true snap ++ b']' ∷ []))
          else tasks_text snap),
      s,
    )

unfoldable pub run_kill : Handler
unfolding Scheduler.stop
run_kill a s = (said (codes "stopped"), record s { sched = Scheduler.stop s.sched })

-- The lines from `start` on, with the number that was asked for.
unfoldable pub last_lines : ℕ → List Bytes → List Bytes
last_lines n history = drop (if ltb n (length history) then length history - n else 0) history

unfoldable pub history_answer : Outside → List Bytes → Option ℕ → Shell → Answer × Shell
unfolding last_lines lines long_or
history_answer w a none s = (threw, s)
history_answer w a (some n) s =
    (said (long_or a w.out w.toks s.vfs (lines (last_lines n s.history))), s)

-- `std::stoul` of the argument, which may throw, or else the number of lines.
unfoldable pub run_history : Outside → Handler
unfolding stoul history_answer
run_history w (c ∷ n ∷ rest) s = history_answer w (c ∷ n ∷ rest) (stoul n) s
run_history w a s = history_answer w a (some (length s.history)) s

abbrev pub spoken : Bytes × Shell → Answer × Shell
spoken (text, s) = (said text, s)

unfoldable pub run_plugin : Outside → Handler
unfolding load_plugin
run_plugin w (c ∷ op ∷ path ∷ rest) s =
    if str_eq op (codes "load") then spoken (load_plugin w.loader path s) else (failed, s)
run_plugin w a s = (failed, s)

abbrev pub audit_file : Bytes
audit_file = codes "neon_audit.log"

-- `if (audit_path_.empty()) audit_path_ = "neon_audit.log"`.
abbrev pub path_or_log : Bytes → Bytes
path_or_log path = if is_empty path then audit_file else path

-- `key` is the branch that a name behind it has: it is pasted into `policy` too.
unfoldable pub set_audit_key : Bytes → Shell → Answer × Shell
set_audit_key key s = (said (codes "ok"), record s { audit_key = key; audit_prev_tag = [] })

unfoldable pub audit_status : Shell → Bytes
audit_status s =
    if s.audit_on
    then if is_empty s.audit_path then codes "on" else codes "on:" ++ s.audit_path
    else codes "off"

-- The words behind `audit` and its operation.
unfoldable pub audit_op : Bytes → List Bytes → Shell → Answer × Shell
unfolding set_audit_key audit_status
audit_op op [] s =
    if str_eq op (codes "on")
    then (said (codes "ok"), record s { audit_on = true; audit_path = path_or_log s.audit_path })
    else if str_eq op (codes "off")
    then (said (codes "ok"), record s { audit_on = false })
    else if str_eq op (codes "status")
    then (said (audit_status s), s)
    else (failed, s)
audit_op op (x ∷ rest) s =
    if str_eq op (codes "on")
    then (said (codes "ok"), record s { audit_on = true; audit_path = path_or_log x })
    else if str_eq op (codes "off")
    then (said (codes "ok"), record s { audit_on = false })
    else if str_eq op (codes "key")
    then set_audit_key x s
    else if str_eq op (codes "status")
    then (said (audit_status s), s)
    else (failed, s)

unfoldable pub run_audit : Handler
unfolding audit_op
run_audit (c ∷ op ∷ rest) s = audit_op op rest s
run_audit a s = (failed, s)

unfoldable pub run_seal : Handler
unfolding seal
run_seal a s =
    if str_eq (second a) (codes "on")
    then (said (codes "on"), record s { vfs = seal true s.vfs })
    else if str_eq (second a) (codes "off")
    then (said (codes "off"), record s { vfs = seal false s.vfs })
    else if str_eq (second a) (codes "status")
    then (said (on_or_off s.vfs.sealed), s)
    else (failed, s)

-- The words behind `policy` and its operation.
unfoldable pub policy_op : Bytes → List Bytes → Shell → Answer × Shell
unfolding insert_path erase_path set_audit_key
policy_op op [] s =
    if str_eq op (codes "on")
    then (said (codes "on"), record s { policy_on = true })
    else if str_eq op (codes "off")
    then (said (codes "off"), record s { policy_on = false })
    else if str_eq op (codes "status")
    then (said (on_or_off s.policy_on), s)
    else (failed, s)
policy_op op (x ∷ rest) s =
    if str_eq op (codes "on")
    then (said (codes "on"), record s { policy_on = true })
    else if str_eq op (codes "off")
    then (said (codes "off"), record s { policy_on = false })
    else if str_eq op (codes "allow")
    then (said (codes "ok"), record s { allow = insert_path x s.allow })
    else if str_eq op (codes "deny")
    then (said (codes "ok"), record s { allow = erase_path x s.allow })
    else if str_eq op (codes "key")
    then set_audit_key x s
    else if str_eq op (codes "status")
    then (said (on_or_off s.policy_on), s)
    else (failed, s)

unfoldable pub run_policy : Handler
unfolding policy_op
run_policy (c ∷ op ∷ rest) s = policy_op op rest s
run_policy a s = (failed, s)

-- The time behind the text; the name `out` of the pasted block is the text here, one character at a
-- time, which is put behind a slash.
unfoldable pub timed : Outside → List Bytes → Answer × Shell → Answer × Shell
unfolding decimal long_or
timed w a (said out, s) = (
  said (
      long_or a (map (λ (c : ℕ). c ∷ []) out) w.toks s.vfs
        (out ++ (codes "\\n[time " ++ (decimal w.elapsed_us ++ codes "us]")))),
  s,
)
timed w a (other, s) = (other, s)

unfoldable pub run_time : Outside → Run → Handler
unfolding timed join
run_time w run (c ∷ x ∷ rest) s = timed w (c ∷ x ∷ rest) (run (join (x ∷ rest) (space ∷ [])) s)
run_time w run a s = (failed, s)

-- `a.size()>=3 ? a[2] : "neon_trace.json"`.
unfoldable pub trace_file : List Bytes → Bytes
trace_file (file ∷ rest) = file
trace_file [] = codes "neon_trace.json"

unfoldable pub run_trace : Outside → Handler
unfolding trace_file Trace.start Trace.stop
run_trace w (c ∷ op ∷ rest) s =
    if str_eq op (codes "on")
    then (
      said (codes "on"),
      record s { trace = Trace.start (w.may_write (trace_file rest)) s.trace },
    )
    else if str_eq op (codes "off")
    then (said (codes "off"), record s { trace = Trace.stop s.trace })
    else (failed, s)
run_trace w a s = (failed, s)

abbrev pub said_or_err : Option Bytes → Answer
said_or_err none = failed
said_or_err (some text) = said text

unfoldable pub run_schema : Handler
unfolding json_schema
run_schema (c ∷ name ∷ rest) s = (said_or_err (json_schema name), s)
run_schema a s = (failed, s)

unfoldable pub run_meminfo : Handler
run_meminfo a s = (said (codes "N/A"), s)
