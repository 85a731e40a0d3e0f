-- ===== src/Cli/Flags.antt =====
-- The loops of `main` in apps/neon.cpp over the arguments behind the name of the program. Each goes
-- through all of them before the next one starts.
use neon_world_os.Base.{
  Bool, true, false, ◌&&◌, List, [], ◌∷◌, Option, none, some, Bytes, codes, if◌then◌else◌, str_eq,
}

-- The function that `main` returns the value of.
pub data Action : Type 0 where
  version_json sample_config validate_json doctor_json help_json backtrace about_json version :
      Action
  trace_out : Bytes → Action

abbrev pub has_arg : Bytes → List Bytes → Bool
has_arg flag [] = false
has_arg flag (a ∷ args) = if str_eq a flag then true else has_arg flag args

-- A loop that looks for one argument.
unfoldable pub on_arg : Bytes → Action → List Bytes → Option Action
on_arg flag action args = if has_arg flag args then some action else none

abbrev pub follows : Bytes → List Bytes → Bool
follows flag [] = false
follows flag (a ∷ args) = str_eq a flag

abbrev pub behind : List Bytes → List Bytes
behind [] = []
behind (a ∷ args) = args

-- The second loop.
unfoldable pub config_loop : List Bytes → Option Action
config_loop [] = none
config_loop (a ∷ args) =
    let rest = config_loop args in
    if str_eq a (codes "print-sample-config")
    then some sample_config
    else if str_eq a (codes "config")
        && (follows (codes "--validate") args && follows (codes "--json") (behind args))
    then some validate_json
    else rest

-- The fourth loop.
unfoldable pub doctor_loop : List Bytes → Option Action
doctor_loop [] = none
doctor_loop (a ∷ args) =
    let rest = doctor_loop args in
    if str_eq a (codes "doctor") && follows (codes "--json") args then some doctor_json else rest

-- The fifth loop: `--trace-out` takes the argument behind it.
unfoldable pub help_loop : List Bytes → Option Action
help_loop [] = none
help_loop (a ∷ []) = if str_eq a (codes "--help-json") then some help_json else none
help_loop (a ∷ b ∷ args) =
    let rest = help_loop (b ∷ args) in
    if str_eq a (codes "--help-json")
    then some help_json
    else if str_eq a (codes "--trace-out")
    then some (trace_out b)
    else rest

-- A loop, if none before it returned.
abbrev pub or_next : Option Action → Option Action → Option Action
or_next none next = next
or_next (some action) next = some action

-- What `main` returns before it starts the shell, if it does.
unfoldable pub early_action : List Bytes → Option Action
unfolding on_arg config_loop doctor_loop help_loop
early_action args = or_next (on_arg (codes "--version-json") version_json args) (
    or_next (config_loop args) (
      or_next (doctor_loop args) (
        or_next (help_loop args) (
          or_next (on_arg (codes "--self-test-backtrace") backtrace args) (
            or_next (on_arg (codes "--about-json") about_json args)
              (on_arg (codes "--version") version args))))))

-- Whether the third loop installs the handlers of signals: it is not reached if one of the first two
-- returns.
unfoldable pub installs_handlers : List Bytes → Bool
unfolding on_arg config_loop
installs_handlers args =
    elim (or_next (on_arg (codes "--version-json") version_json args) (config_loop args)) [
      | none ↦ has_arg (codes "--install-sighandlers") args
      | some _ ↦ false
    ]
