-- ===== src/Shell/State.antt =====
-- The state of `class Shell` of include/neon/shell.hpp, and what a command is. The table of commands is
-- not part of it: a command is a function on the shell.
use neon_world_os.Base.{ℕ, Bool, List, Bytes, Dict}
use neon_world_os.Vfs.State.{Vfs}
use neon_world_os.Scheduler.{Scheduler}
use neon_world_os.Trace.{Trace}

-- `struct PolicyRule`, without the reason.
pub record PolicyRule : Type 0 where
  pub allow : Bool
  pub cmd_re : Bytes
  pub path_re : Bytes

-- The fields that `Exec` and the commands of the constructor read or write, with the scheduler, the
-- one `Trace` and the files of the host, by path. The functions of the tasks, which no command calls,
-- are numbers.
pub record Shell : Type 0 where
  pub vfs : Vfs
  pub sched : Scheduler ℕ
  pub trace : Trace
  pub files : Dict Bytes
  pub vars : Dict Bytes
  pub history : List Bytes
  pub json_mode : Bool
  pub safemode_on : Bool
  pub policies : List PolicyRule
  pub policy_on : Bool
  pub allow : List Bytes
  pub retain_on : Bool
  pub wal_on : Bool
  pub dlp_on : Bool
  pub audit_on : Bool
  pub audit_path : Bytes
  pub audit_json : Bool
  pub audit_key : Bytes
  pub audit_prev_tag : Bytes

-- What a call gives: a text or an exception; the last is for a model that is out of fuel.
pub data Answer : Type 0 where
  said : Bytes → Answer
  threw out_of_fuel : Answer

abbrev pub Run : Type 0
Run = Bytes → Shell → Answer × Shell

abbrev pub Handler : Type 0
Handler = List Bytes → Shell → Answer × Shell
