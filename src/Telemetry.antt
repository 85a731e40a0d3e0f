-- ===== src/Telemetry.antt =====
-- `class Telemetry` of include/neon/telemetry.hpp. The clock and the process number are arguments.
pub mod Commands
use neon_world_os.Base.{ℕ, ◌+◌, ◌%◌, List, [], ◌∷◌, ◌++◌, Bytes, codes}
use neon_world_os.Vfs.Dump.{decimal}
use neon_world_os.Vfs.State.{word_mod}

-- `ph` is `B`, `E` or `i`.
pub record TraceEvent : Type 0 where
  pub name : Bytes
  pub cat : Bytes
  pub ph : ℕ
  pub ts_us : ℕ
  pub tid : ℕ

pub record Telemetry : Type 0 where
  pub commands : ℕ
  pub errors : ℕ
  pub trace : List TraceEvent

abbrev pub new_telemetry : Telemetry
new_telemetry = record { commands = 0; errors = 0; trace = [] }

unfoldable pub inc_commands : Telemetry → Telemetry
inc_commands t = record t { commands = (t.commands + 1) % word_mod }

unfoldable pub inc_errors : Telemetry → Telemetry
inc_errors t = record t { errors = (t.errors + 1) % word_mod }

-- `# TYPE <name> <kind>\n<name> <value>\n`.
unfoldable pub metric : Bytes → Bytes → ℕ → Bytes
unfolding decimal
metric name kind value =
    codes "# TYPE " ++ (name ++ (32 ∷ (kind ++ (10 ∷ (name ++ (32 ∷ (decimal value ++ 10 ∷ [])))))))

unfoldable pub prometheus_text : ℕ → ℕ → ℕ → ℕ → Telemetry → Bytes
unfolding metric
prometheus_text files dirs used cap t =
    metric (codes "neon_commands_total") (codes "counter") t.commands
    ++ (metric (codes "neon_errors_total") (codes "counter") t.errors
        ++ (metric (codes "neon_vfs_files") (codes "gauge") files
            ++ (metric (codes "neon_vfs_dirs") (codes "gauge") dirs
                ++ (metric (codes "neon_memory_bytes_used") (codes "gauge") used
                    ++ metric (codes "neon_memory_bytes_capacity") (codes "gauge") cap))))

-- The name is `record` in the source.
unfoldable pub record_event : Bytes → Bytes → ℕ → ℕ → ℕ → Telemetry → Telemetry
record_event name cat ph now pid t = record t {
  trace =
      t.trace
      ++ (record { name = name; cat = cat; ph = ph; ts_us = now % word_mod; tid = pid }) ∷ [];
}

unfoldable pub trace_begin : Bytes → Bytes → ℕ → ℕ → Telemetry → Telemetry
unfolding record_event
trace_begin name cat now pid t = record_event name cat b'B' now pid t

unfoldable pub trace_end : Bytes → Bytes → ℕ → ℕ → Telemetry → Telemetry
unfolding record_event
trace_end name cat now pid t = record_event name cat b'E' now pid t

unfoldable pub trace_instant : Bytes → Bytes → ℕ → ℕ → Telemetry → Telemetry
unfolding record_event
trace_instant name cat now pid t = record_event name cat b'i' now pid t

unfoldable pub event_json : TraceEvent → Bytes
unfolding decimal
event_json e =
    codes "{\"name\":\""
    ++ (e.name
        ++ (codes "\",\"cat\":\""
            ++ (e.cat
                ++ (codes "\",\"ph\":\""
                    ++ (e.ph
                        ∷ (codes "\",\"ts\":"
                            ++ (decimal e.ts_us
                                ++ (codes ",\"tid\":" ++ (decimal e.tid ++ codes "}")))))))))

-- The loop over the events behind the first: a comma stands before each.
unfoldable pub more_events : List TraceEvent → Bytes
unfolding event_json
more_events [] = []
more_events (e ∷ es) = b',' ∷ (event_json e ++ more_events es)

unfoldable pub events_json : List TraceEvent → Bytes
unfolding more_events
events_json [] = []
events_json (e ∷ es) = event_json e ++ more_events es

unfoldable pub dump_trace_json : Telemetry → Bytes
unfolding events_json
dump_trace_json t = codes "{\"traceEvents\":[" ++ (events_json t.trace ++ codes "]}")
