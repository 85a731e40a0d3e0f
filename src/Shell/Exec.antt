-- ===== src/Shell/Exec.antt =====
-- `Shell::Exec` of src/shell.cpp: what stands between a line and the command. The commands are a registry
-- of functions. `std::regex`, the clock, the file of the audit, the rate limits (which compute in
-- `double`) and the names `is_mut` and `join_tokens_`, which nothing declares, are arguments. What is
-- written to the file of the audit is not modelled, and neither is `_ver_backup`, which nothing reads.
pub mod Refused
pub mod Policy
pub mod Kept
pub mod Passed
use neon_world_os.Base.{
  ℕ, ◌+◌, ◌<◌, Bool, true, false, not, ◌&&◌, ◌||◌, List, [], ◌∷◌, ◌++◌, map, Option, none, some,
  Bytes, codes, if◌then◌else◌, ◌==◌, ltb, is_empty, str_eq, Dict, find,
}
use mathlib.Core.Option
use neon_world_os.Crypto.Hmac.{hmac_sha256}
use neon_world_os.Vfs.State.{Vfs}
use neon_world_os.Vfs.Files.{mkdir, write, read}
use neon_world_os.Vfs.Metadata.{xattr_get}
use neon_world_os.Vfs.Dump.{decimal, skip_spaces, read_digits}
use neon_world_os.Vfs.Edits.{or_empty, or_zero}
use neon_world_os.Shell.State.{Shell, PolicyRule, Answer, said, threw, out_of_fuel, Run, Handler}
use neon_world_os.Trace.{event}
use neon_world_os.Shell.Tokenize.{tokenize}
use neon_world_os.Shell.Vars.{expand_vars}
use neon_world_os.Shell.Commands.{is_one_of, perm_for_cmd}

-- What is around a call: the table of commands; `search` gives the search for a regular expression,
-- `none` if its constructor throws, and `none` in the place of a result if the search throws; `limit` tells whether the block `RLIMIT PRE` lets a command pass;
-- `scan` is `Exec` itself, which `DLP PRE` calls; and the readings of the clocks.
pub record Host : Type 0 where
  pub registry : Dict Handler
  pub search : Bytes → Option (Bytes → Option Bool)
  pub limit : Bytes → Bool
  pub scan : Run
  pub is_mut : Bool
  pub join_tokens : List Bytes → Bytes
  pub now_hold : ℕ
  pub now_wal : ℕ
  pub now_audit : ℕ
  pub audit_opened : Bool
  pub now_begin : ℕ
  pub now_end : ℕ

abbrev pub blocked : List Bytes
blocked = codes "rm" ∷ codes "xrm" ∷ codes "srm" ∷ codes "trash" ∷ codes "ttl" ∷ []

abbrev pub delcmd : List Bytes
delcmd = codes "rm" ∷ codes "xrm" ∷ codes "srm" ∷ codes "trash" ∷ []

abbrev pub sensitive : List Bytes
sensitive = codes "pack" ∷ codes "packsign" ∷ codes "bundle" ∷ codes "share" ∷ codes "export" ∷ []

abbrev pub any_path : (Bytes → Bool) → List Bytes → Bool
any_path f [] = false
any_path f (p ∷ ps) = if f p then true else any_path f ps

-- The loop over the paths: whether one is found; `none` if a search throws.
unfoldable pub path_hit : (Bytes → Option Bool) → List Bytes → Option Bool
path_hit rp [] = some false
path_hit rp (p ∷ ps) = elim (rp p) [
  | none ↦ none
  | some hit ↦ elim hit [ true ↦ some true | false ↦ path_hit rp ps ]
]

-- The searches of a rule, once both regular expressions are there.
unfoldable pub rule_found :
    Bytes → List Bytes → (Bytes → Option Bool) → (Bytes → Option Bool) → Bool
unfolding path_hit
rule_found c paths rc rp = elim (rc c) [
  | none ↦ false
  | some cmd_ok ↦ elim (path_hit rp paths) [
    | none ↦ false
    | some hit ↦ cmd_ok && (is_empty paths || hit)
  ]
]

-- Whether a rule is for a command with these paths; one that throws, in a constructor or in a search,
-- is for none.
unfoldable pub rule_applies :
    (Bytes → Option (Bytes → Option Bool)) → Bytes → List Bytes → PolicyRule → Bool
unfolding rule_found
rule_applies search c paths rule = elim (search rule.cmd_re) [
  | none ↦ false
  | some rc ↦ elim (search rule.path_re) [ none ↦ false | some rp ↦ rule_found c paths rc rp ]
]

-- The loop over the rules: whether it returns `err_denied`.
unfoldable pub policy_denies :
    (Bytes → Option (Bytes → Option Bool)) → Bytes → List Bytes → List PolicyRule → Bool
unfolding rule_applies
policy_denies search c paths [] = false
policy_denies search c paths (rule ∷ rules) =
    if rule_applies search c paths rule then not rule.allow else policy_denies search c paths rules

-- `atoll`, 0 for a negative number; the number is taken to fit.
unfoldable pub not_negative : Bytes → ℕ
unfolding read_digits
not_negative [] = 0
not_negative (c ∷ s) =
    if c == b'-' then 0 else or_zero (read_digits none (if c == b'+' then s else c ∷ s))

unfoldable pub until_of : Bytes → ℕ
unfolding not_negative skip_spaces
until_of s = not_negative (skip_spaces s)

abbrev pub hold_key : Bytes
hold_key = codes "hold:until"

unfoldable pub is_held : ℕ → Vfs → Bytes → Bool
unfolding until_of
is_held now v p = elim (xattr_get p hold_key v) [
  | none ↦ false
  | some until ↦ ltb now (until_of until)
]

-- The block `HOLD/PRESERVATION PRE`: whether it returns `err_hold`.
unfoldable pub hold_denies : ℕ → List Bytes → Shell → Bool
unfolding is_held perm_for_cmd
hold_denies now [] s = false
hold_denies now (c ∷ args) s =
    if s.retain_on
    then if is_one_of c delcmd
      then any_path (is_held now s.vfs) (perm_for_cmd (c ∷ args)).1
      else false
    else false

abbrev pub wal_file : Bytes
wal_file = codes "/.wal/log"

-- The block `WAL PRE`.
unfoldable pub log_ahead : Host → List Bytes → Shell → Shell
unfolding mkdir write read decimal
log_ahead host toks s =
    let v = (mkdir (codes "/.wal") s.vfs).0 in
    let rec = decimal host.now_wal ++ (32 ∷ (host.join_tokens toks ++ 10 ∷ [])) in
    if s.wal_on && host.is_mut
    then record s { vfs = (write wal_file (or_empty (read wal_file v) ++ rec) v).0 }
    else s

-- The block `DLP PRE` behind its first scan: what it returns, nothing if the command passes.
unfoldable pub after_scan : Bool → Answer × Shell → Option Answer × Shell
after_scan clean (said out, s) =
    (if clean && str_eq out (codes "[]") then none else some (said (codes "err_dlp")), s)
after_scan clean (other, s) = (some other, s)

unfoldable pub second_scan : Host → Answer × Shell → Option Answer × Shell
unfolding after_scan
second_scan host (said out, s) =
    after_scan (str_eq out (codes "[]")) (host.scan (codes "scan pii /") s)
second_scan host (other, s) = (some other, s)

unfoldable pub leak_scan : Host → Bytes → Shell → Option Answer × Shell
unfolding second_scan
leak_scan host c s =
    if s.dlp_on && is_one_of c sensitive
    then second_scan host (host.scan (codes "scan secrets /") s)
    else (none, s)

-- The tag of the chained audit.
unfoldable pub audit : Host → Bytes → Bytes → Shell → Shell
unfolding hmac_sha256 decimal
audit host line result s =
    let signed =
      s.audit_prev_tag ++ (decimal host.now_audit ++ (b'|' ∷ (line ++ (b'|' ∷ result)))) in
    if s.audit_on && (host.audit_opened && (s.audit_json && not (is_empty s.audit_key)))
    then record s { audit_prev_tag = or_empty (hmac_sha256 s.audit_key signed) }
    else s

-- The audit of what the command gave; an exception passes it by.
unfoldable pub audit_answer : Host → Bytes → Answer × Shell → Answer × Shell
unfolding audit
audit_answer host line (said result, s) = (said result, audit host line result s)
audit_answer host line (other, s) = (other, s)

-- The command itself, and the audit.
unfoldable pub exec_command : Host → Handler → Bytes → List Bytes → Shell → Answer × Shell
unfolding audit_answer
exec_command host handler line toks s = audit_answer host line (handler toks s)

-- The limit on the rate, after the scans.
unfoldable pub exec_limited :
    Host → Handler → Bytes → Bytes → List Bytes → Option Answer × Shell → Answer × Shell
unfolding exec_command
exec_limited host handler line c toks (some a, s) = (a, s)
exec_limited host handler line c toks (none, s) =
    let rest = exec_command host handler line toks s in
    if host.limit c then rest else (said (codes "err_rate"), s)

-- `Exec` after the variables are expanded.
unfoldable pub exec_expanded : Host → Handler → Bytes → Bytes → List Bytes → Shell → Answer × Shell
unfolding hold_denies log_ahead leak_scan exec_limited
exec_expanded host handler line c args s =
    let rest =
      exec_limited host handler line c (c ∷ args)
        (leak_scan host c (log_ahead host (c ∷ args) s)) in
    if hold_denies host.now_hold (c ∷ args) s then (said (codes "err_hold"), s) else rest

-- `Exec` with the command that it found.
unfoldable pub exec_found :
    Host → Option Handler → Bytes → Bytes → List Bytes → Shell → Answer × Shell
unfolding exec_expanded policy_denies expand_vars perm_for_cmd
exec_found host none line c args s = (said (codes "unknown"), s)
exec_found host (some handler) line c args s =
    let rest =
      exec_expanded host handler line (expand_vars s.vars c) (map (expand_vars s.vars) args) s in
    if s.safemode_on && is_one_of c blocked
    then (said (codes "err_denied"), s)
    else if policy_denies host.search c (perm_for_cmd (c ∷ args)).1 s.policies
    then (said (codes "err_denied"), s)
    else rest

unfoldable pub exec_tokens : Host → Bytes → List Bytes → Shell → Answer × Shell
unfolding exec_found
exec_tokens host line [] s = (said [], s)
exec_tokens host line (c ∷ args) s =
    exec_found host (find c host.registry) line c args
      (record s { history = s.history ++ line ∷ [] })

-- The body, without the `TraceScope`.
unfoldable pub exec : Host → Run
unfolding exec_tokens tokenize
exec host line s = exec_tokens host line (tokenize line) s

-- The constructor and the destructor of the `TraceScope`.
unfoldable pub begun : Host → Shell → Shell
unfolding event
begun host s = record s { trace = event (codes "shell.exec") (codes "B") host.now_begin s.trace }

unfoldable pub ended : Host → Answer × Shell → Answer × Shell
unfolding event
ended host (a, s) =
    (a, record s { trace = event (codes "shell.exec") (codes "E") host.now_end s.trace })

-- `Exec` with the events that it writes: the last also if it throws.
unfoldable pub exec_scoped : Host → Run
unfolding exec begun ended
exec_scoped host line s = ended host (exec host line (begun host s))
