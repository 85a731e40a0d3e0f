-- ===== src/Telemetry/Commands.antt =====
-- Who reads telemetry: `cmd_metrics` and `cmd_trace` of src/shell.cpp, `neon_print_metrics` of
-- apps/neon.cpp and src/api_c.cpp. `vfs.walk` and the accessors of the memory, which nothing declares,
-- are read as `Walk`, `Used` and `Capacity`. Whether `malloc` gives memory is an argument.
use neon_world_os.Base.{
  ℕ, ◌+◌, Bool, true, List, [], ◌∷◌, ◌++◌, Option, none, some, ◌≡◌, refl, ap, arith, Bytes, codes,
  if◌then◌else◌, str_eq, length, Lacks, ◌==◌,
}
use mathlib.Core.Option
use neon_world_os.Vfs.State.{Vfs}
use neon_world_os.Vfs.Visit.{Visit, visits, Fsck, fsck_step, fsck_from}
use neon_world_os.Memory.{Memory, used}
use neon_world_os.Telemetry.{Telemetry, prometheus_text, dump_trace_json}

-- The files and the directories that the callback counts.
unfoldable pub count_visits : List Visit → ℕ × ℕ
count_visits [] = (0, 0)
count_visits (x ∷ xs) =
    let (files, dirs) = count_visits xs in if x.dir then (files, dirs + 1) else (files + 1, dirs)

-- The text with the line break behind it.
unfoldable pub metrics_text : Telemetry → Memory → List Visit → Bytes
unfolding count_visits prometheus_text used
metrics_text t mm xs =
    let (files, dirs) = count_visits xs in
    prometheus_text files dirs (used mm) mm.capacity t ++ 10 ∷ []

-- `none` is a walk out of fuel.
unfoldable pub print_metrics : Telemetry → Vfs → Memory → Option Bytes
unfolding metrics_text visits
print_metrics t v mm = Option.map (metrics_text t mm) (visits v)

-- What `cmd_trace` writes: to the output, and to the errors.
unfoldable pub cmd_trace : Telemetry → List Bytes → Bytes × Bytes
unfolding dump_trace_json
cmd_trace t (a ∷ []) =
    if str_eq a (codes "dump")
    then (dump_trace_json t ++ 10 ∷ [], [])
    else ([], codes "usage: trace dump\n")
cmd_trace t args = ([], codes "usage: trace dump\n")

unfoldable pub commands_total : Telemetry → ℕ
commands_total t = t.commands

unfoldable pub errors_total : Telemetry → ℕ
errors_total t = t.errors

-- The bytes that are copied, with the zero at the end; `none` is the null pointer.
unfoldable pub trace_dump : Bool → Telemetry → Option Bytes
unfolding dump_trace_json
trace_dump given t = if given then some (dump_trace_json t ++ 0 ∷ []) else none

-- The text that a caller of C finds in some bytes: up to the first zero.
unfoldable pub c_text : Bytes → Bytes
c_text [] = []
c_text (c ∷ s) = if c == 0 then [] else c ∷ c_text s

c_text-append : (s : Bytes) → Lacks 0 s → c_text (s ++ 0 ∷ []) ≡ s
unfolding c_text
c_text-append [] h = refl
c_text-append (c ∷ s) (hc, h) = ground (arith, c_text-append s h)

-- A caller of C reads the whole trace, if memory is given and no event has a zero byte in it.
pub trace_dump-dump_trace_json :
    (t : Telemetry)
    → Lacks 0 (dump_trace_json t)
    → Option.map c_text (trace_dump true t) ≡ some (dump_trace_json t)
unfolding trace_dump
trace_dump-dump_trace_json t h = ap some (c_text-append (dump_trace_json t) h)

-- Every visit is counted once.
pub count_visits-length : (xs : List Visit) → (count_visits xs).0 + (count_visits xs).1 ≡ length xs
unfolding count_visits
count_visits-length [] = omega arith
count_visits-length (x ∷ xs) = ground (arith, count_visits-length xs)

-- `FsckJson` and the metrics count the same files and directories.
pub fsck_from-count_visits :
    (f : Fsck) (xs : List Visit)
    → ((fsck_from f xs).files ≡ f.files + (count_visits xs).0)
      × ((fsck_from f xs).dirs ≡ f.dirs + (count_visits xs).1)
unfolding fsck_from fsck_step count_visits
fsck_from-count_visits f [] = (omega arith, omega arith)
fsck_from-count_visits f (x ∷ xs) = ground (arith, fsck_from-count_visits (fsck_step f x) xs)
