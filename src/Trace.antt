-- ===== src/Trace.antt =====
-- `Trace` of include/neon/trace.hpp: a file of events in JSON. The text of the file is part of the
-- state; whether the file can be opened and the readings of the clock are arguments.
pub mod Written
use neon_world_os.Base.{
  ℕ, Bool, true, false, not, ◌&&◌, ◌||◌, [], ◌∷◌, ◌++◌, Bytes, codes, if◌then◌else◌,
}
use neon_world_os.Vfs.Dump.{decimal}

pub record Trace : Type 0 where
  pub file : Bytes
  pub is_open : Bool
  pub started : Bool
  pub first : Bool

abbrev pub new_trace : Trace
new_trace = record { file = []; is_open = false; started = false; first = true }

unfoldable pub start : Bool → Trace → Trace
start opens t =
    if t.started
    then t
    else if opens
    then record { file = codes "[\n"; is_open = true; started = true; first = true }
    else t

abbrev pub separator : Bytes
separator = codes ",\n"

unfoldable pub event_text : Bytes → Bytes → ℕ → Bytes
unfolding decimal
event_text name ph ts =
    codes "{\"name\":\""
    ++ (name ++ (codes "\",\"ph\":\"" ++ (ph ++ (codes "\",\"ts\":" ++ (decimal ts ++ codes "}")))))

unfoldable pub event : Bytes → Bytes → ℕ → Trace → Trace
unfolding event_text
event name ph ts t = if not t.started || not t.is_open then t else record t {
  file = t.file ++ ((if t.first then [] else separator) ++ event_text name ph ts);
  first = false;
}

unfoldable pub stop : Trace → Trace
stop t = record {
  file = if t.started && t.is_open then t.file ++ codes "\n]\n" else t.file;
  is_open = if t.started && t.is_open then false else t.is_open;
  started = false;
  first = true;
}
