-- ===== src/Config.antt =====
-- The configuration of apps/neon.cpp: `neon_trim`, `neon_load_config`, `neon_cfg_telemetry_off`,
-- `neon_config_validate_json`, `neon_doctor_json` and `neon_print_sample_config`. The environment, the
-- files that can be read and the version are arguments. The program is read as built on Linux.
pub mod Trim
pub mod Load
pub mod Checked
use neon_world_os.Base.{
  ℕ, suc, ◌+◌, ◌-◌, Bool, true, false, not, ◌||◌, ◌&&◌, List, [], ◌∷◌, ◌++◌, map, Option, none,
  some, Bytes, codes, if◌then◌else◌, ◌==◌, leb, is_empty, str_eq, length, take, drop, find_byte,
  Dict, find, assign,
}
use mathlib.Core.Option
use neon_world_os.Vfs.Dump.{decimal}

-- `" \t\r\n"`.
unfoldable pub is_white : ℕ → Bool
is_white c = c == 32 || (c == 9 || (c == 13 || c == 10))

-- `s.find_first_not_of(ws)` and `s.find_last_not_of(ws)`.
unfoldable pub find_first_black : Bytes → Option ℕ
unfolding is_white
find_first_black [] = none
find_first_black (c ∷ s) = if is_white c then Option.map suc (find_first_black s) else some 0

unfoldable pub find_last_black : Bytes → Option ℕ
unfolding is_white
find_last_black [] = none
find_last_black (c ∷ s) = elim (find_last_black s) [
  | some e ↦ some (suc e)
  | none ↦ if is_white c then none else some 0
]

-- Where there is a first there is a last.
unfoldable pub trim : Bytes → Bytes
unfolding find_first_black find_last_black
trim s = elim (find_first_black s) [
  | none ↦ []
  | some b ↦ elim (find_last_black s) [ none ↦ [] | some e ↦ take (suc (e - b)) (drop b s) ]
]

-- `std::tolower` in the C locale.
unfoldable pub to_lower : ℕ → ℕ
to_lower c = if leb b'A' c && leb c b'Z' then c + 32 else c

abbrev pub lower : Bytes → Bytes
lower s = map to_lower s

-- `std::getline` until it fails: the parts that the delimiter ends, and a last one that is not empty.
unfoldable pub parts_from : ℕ → Bytes → Bytes → List Bytes
parts_from delim [] [] = []
parts_from delim [] (c ∷ cur) = (c ∷ cur) ∷ []
parts_from delim (c ∷ s) cur = elim (c == delim) [
  | true ↦ cur ∷ parts_from delim s []
  | false ↦ parts_from delim s (cur ++ c ∷ [])
]

unfoldable pub parts : ℕ → Bytes → List Bytes
unfolding parts_from
parts delim s = parts_from delim s []

-- `L.empty() || L[0]=='#' || L[0]==';' || L[0]=='['`.
unfoldable pub is_skipped : Bytes → Bool
is_skipped [] = true
is_skipped (c ∷ l) = c == b'#' || (c == b';' || c == b'[')

-- A turn of the loop over the lines, with the trimmed line and where its `=` stands.
unfoldable pub put_entry : Bytes → Option ℕ → Dict Bytes → Dict Bytes
unfolding trim to_lower
put_entry l none kv = kv
put_entry l (some eq) kv = assign (lower (trim (take eq l))) (trim (drop (suc eq) l)) kv

unfoldable pub load_line : Bytes → Dict Bytes → Dict Bytes
unfolding put_entry is_skipped trim
load_line line kv =
    let l = trim line in if is_skipped l then kv else put_entry l (find_byte b'=' l) kv

unfoldable pub load_lines : List Bytes → Dict Bytes → Dict Bytes
unfolding load_line
load_lines [] kv = kv
load_lines (line ∷ lines) kv = load_lines lines (load_line line kv)

unfoldable pub load_text : Bytes → Dict Bytes
unfolding load_lines parts
load_text text = load_lines (parts 10 text) []

-- `struct NeonConfig`.
pub record NeonConfig : Type 0 where
  pub file : Bytes
  pub kv : Dict Bytes

-- `std::getenv` of the four names: `none` is a null pointer.
pub record Env : Type 0 where
  pub override : Option Bytes
  pub xdg : Option Bytes
  pub home : Option Bytes
  pub no_telemetry : Option Bytes

-- `if (p && *p) cands.push_back(p + suffix)`.
unfoldable pub candidate : Option Bytes → Bytes → List Bytes
candidate none suffix = []
candidate (some []) suffix = []
candidate (some (c ∷ s)) suffix = ((c ∷ s) ++ suffix) ∷ []

abbrev pub etc_file : Bytes
etc_file = codes "/etc/neon/neon.conf"

unfoldable pub candidates : Env → List Bytes
unfolding candidate
candidates env =
    candidate env.override []
    ++ (candidate env.xdg (codes "/neon/neon.conf")
        ++ (candidate env.home (codes "/.config/neon/neon.conf") ++ etc_file ∷ []))

-- The loop over the candidates. `opened` gives the text of a file if its stream is good.
unfoldable pub load_first : (Bytes → Option Bytes) → List Bytes → NeonConfig
unfolding load_text
load_first opened [] = record { file = []; kv = [] }
load_first opened (p ∷ ps) = elim (opened p) [
  | none ↦ load_first opened ps
  | some text ↦ record { file = p; kv = load_text text }
]

unfoldable pub load_config : (Bytes → Option Bytes) → Env → NeonConfig
unfolding load_first candidates
load_config opened env = load_first opened (candidates env)

abbrev pub telemetry : Bytes
telemetry = codes "telemetry"

-- `L=="off" || L=="false" || L=="0" || L=="disabled"`.
unfoldable pub is_off : Bytes → Bool
is_off l =
    str_eq l (codes "off")
    || (str_eq l (codes "false") || (str_eq l (codes "0") || str_eq l (codes "disabled")))

unfoldable pub telemetry_off : NeonConfig → Bool
unfolding is_off to_lower
telemetry_off cfg = elim (find telemetry cfg.kv) [ none ↦ false | some v ↦ is_off (lower v) ]

unfoldable pub is_valid : Bytes → Bool
is_valid v =
    str_eq v (codes "on")
    || (str_eq v (codes "off")
        || (str_eq v (codes "true")
            || (str_eq v (codes "false") || (str_eq v (codes "0") || str_eq v (codes "1")))))

-- `ok` of `neon_config_validate_json`.
unfoldable pub config_ok : NeonConfig → Bool
unfolding is_valid to_lower
config_ok cfg = elim (find telemetry cfg.kv) [ none ↦ true | some v ↦ is_valid (lower v) ]

abbrev pub quote : Bytes
quote = b'"' ∷ []

abbrev pub quoted : Bytes → Bytes
quoted s = quote ++ (s ++ quote)

-- `s.empty() ? "null" : "\"" + s + "\""`.
abbrev pub quoted_or_null : Bytes → Bytes
quoted_or_null s = if is_empty s then codes "null" else quoted s

abbrev pub bool_text : Bool → Bytes
bool_text b = if b then codes "true" else codes "false"

-- `"key":`.
abbrev pub field : Bytes → Bytes → Bytes
field k v = quoted k ++ (b':' ∷ v)

-- What is printed, and the exit code.
unfoldable pub validate_json : NeonConfig → Bytes × ℕ
unfolding config_ok decimal
validate_json cfg =
    let ok = config_ok cfg in
    let err = if ok then [] else codes "invalid telemetry value" in
    (
      b'{'
          ∷ (field (codes "file") (quoted_or_null cfg.file)
              ++ (b','
                  ∷ (field (codes "ok") (bool_text ok)
                      ++ (b','
                          ∷ (field (codes "error") (quoted_or_null err)
                              ++ (b','
                                  ∷ (field (codes "keys") (decimal (length cfg.kv))
                                      ++ codes "}"))))))),
      if ok then 0 else 1,
    )

abbrev pub is_set : Option Bytes → Bool
is_set none = false
is_set (some s) = true

unfoldable pub effective_off : Env → NeonConfig → Bool
unfolding telemetry_off
effective_off env cfg = is_set env.no_telemetry || telemetry_off cfg

abbrev pub value_text : Option Bytes → Bytes
value_text none = codes "null"
value_text (some v) = quoted v

unfoldable pub doctor_json : Bytes → Env → NeonConfig → Bytes
unfolding effective_off
doctor_json version env cfg =
    b'{'
    ∷ (field (codes "name") (quoted (codes "NEON-WORLD-OS"))
        ++ (b','
            ∷ (field (codes "version") (quoted version)
                ++ (b','
                    ∷ (field (codes "telemetry_effective") (bool_text (effective_off env cfg))
                        ++ (b','
                            ∷ (field (codes "config") (
                                  b'{'
                                  ∷ (field (codes "file") (quoted_or_null cfg.file)
                                      ++ (b','
                                          ∷ (field (codes "telemetry")
                                                (value_text (find telemetry cfg.kv))
                                              ++ codes "}"))))
                                ++ (b','
                                    ∷ (field (codes "env") (
                                          b'{'
                                          ∷ (field (codes "NEON_NO_TELEMETRY")
                                                (bool_text (is_set env.no_telemetry))
                                              ++ codes "}"))
                                        ++ codes "}")))))))))

abbrev pub sample_config : Bytes
sample_config =
    codes "# NEON-WORLD-OS sample configuration (INI-like, sectionless)"
    ++ (10 ∷ (codes "# telemetry = on|off" ++ (10 ∷ (codes "telemetry = on" ++ 10 ∷ []))))
