-- ===== src/Tests/ConfigTests.antt =====
-- The configuration and the batches of apps/neon.cpp on concrete inputs.
use neon_world_os.Base.{
  ℕ, true, false, [], ◌∷◌, Option, none, some, ◌≡◌, ◌⊎◌, refl, arith, Bytes, codes, if◌then◌else◌,
  find, assign, str_eq, find_byte,
}
use neon_world_os.Config.{
  NeonConfig, Env, load_text, validate_json, telemetry_off, telemetry, is_white, is_skipped,
  find_first_black, find_last_black, lower, to_lower, trim, parts, parts_from, sample_config,
  config_ok, is_valid, is_off, load_lines, load_line, put_entry,
}
use neon_world_os.Config.Load.{Entry, IsEntry, text_of, set_all, load_text-text_of}
use neon_world_os.Config.Checked.{Switches, validate_json-Switches}
use mathlib.Core.Option
use neon_world_os.Cli.{Exec, run_multi}
use neon_world_os.Cli.Batches.{result, all_outputs, shown, has_err, run_multi-Ends}
use neon_world_os.Config.{parts}

-- `  Telemetry = off`.
abbrev an_entry : Entry
an_entry = record {
  before = codes "  ";
  key = codes "Telemetry";
  left = codes " ";
  right = codes " ";
  value = codes "off";
  behind = [];
}

an_entry-IsEntry : IsEntry an_entry
unfolding is_white is_skipped find_first_black find_last_black
an_entry-IsEntry = record {
  white_before = (refl, (refl, tt));
  white_left = (refl, tt);
  white_right = (refl, tt);
  white_behind = tt;
  trimmed_key = record { last = 8; at_first = refl; at_last = refl; size = refl };
  trimmed_value = record { last = 2; at_first = refl; at_last = refl; size = refl };
  no_comment = refl;
  no_equals = ground arith;
  one_line = ground arith;
}

load_text-text_of_example : load_text (text_of (an_entry ∷ [])) ≡ set_all (an_entry ∷ []) []
load_text-text_of_example = load_text-text_of (an_entry ∷ []) (an_entry-IsEntry, tt)

-- The sample configuration sets one key.
sample_runs : load_text sample_config ≡ (codes "telemetry", codes "on") ∷ []
unfolding load_text parts parts_from load_lines load_line put_entry trim find_first_black
    find_last_black is_white is_skipped find_byte to_lower assign
sample_runs = refl

abbrev home_only : Env
home_only = record {
  override = none;
  xdg = some [];
  home = some (codes "/home/a");
  no_telemetry = none;
}

-- Only the file in `/etc` is there.
abbrev etc_only : Bytes → Option Bytes
etc_only p = if str_eq p (codes "/etc/neon/neon.conf") then some (codes "telemetry=0\n") else none

abbrev switched_off : NeonConfig
switched_off = record { file = codes "/c"; kv = (codes "telemetry", codes "OFF") ∷ [] }

validate_json-Switches_example :
    ((find telemetry switched_off.kv ≡ none) × (telemetry_off switched_off ≡ false))
    ⊎ ((v : Bytes) × (find telemetry switched_off.kv ≡ some v)
        × Switches (lower v) (telemetry_off switched_off))
unfolding validate_json config_ok is_valid find str_eq to_lower
validate_json-Switches_example = validate_json-Switches switched_off refl

-- The value that one of the two functions takes for off and the other refuses.
disabled_runs :
    (config_ok (record switched_off { kv = (codes "telemetry", codes "disabled") ∷ [] }) ≡ false)
    × (telemetry_off (record switched_off { kv = (codes "telemetry", codes "disabled") ∷ [] })
        ≡ true)
unfolding config_ok telemetry_off is_valid is_off find str_eq to_lower
disabled_runs = (refl, refl)

-- A shell that fails on `bad`.
abbrev counting : Exec ℕ
counting line n =
    if str_eq line (codes "throw")
    then none
    else some (if str_eq line (codes "bad") then codes "err" else codes "ok", 1)

run_multi-Ends_example :
    Option.map result (run_multi counting true (codes "a;bad;;b") 0)
    ≡ Option.map
        (λ out. (shown out, if has_err out then 2 else 0))
        (all_outputs counting true (parts b';' (codes "a;bad;;b")) 0)
run_multi-Ends_example = run_multi-Ends counting true (codes "a;bad;;b") 0
