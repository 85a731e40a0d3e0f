-- ===== src/Tests/KernelTests.antt =====
-- The scheduler and the memory manager.
use neon_world_os.Base.{
  ◌≤◌, true, false, List, [], ◌∷◌, none, some, ◌≡◌, ◌≢◌, refl, arith, codes, All,
}
use neon_world_os.Scheduler.{Scheduler, Call, submitted, submit, run_once, snapshot}
use neon_world_os.Scheduler.Queue.{Fifo, run_once-Fifo, Ordered, submit-Ordered, IsSubmit}
use neon_world_os.Memory.{Memory, new_memory, allocate, free, used}
use neon_world_os.Memory.Accounts.{size_of, total}
use neon_world_os.Memory.Reached.{used-capacity, here, allocates, frees}
use neon_world_os.Base.{map, ◌++◌}
use neon_world_os.Util.{join}
use neon_world_os.Trace.{new_trace, start, separator}
use neon_world_os.Trace
use neon_world_os.Trace.Written.{Event, events, text_of, stop-events}

-- A task function that submits one more task, and none that does nothing.
data Fn : Type 0 where
  again quiet : Fn

abbrev calls : Fn → List (Call Fn)
calls again = submitted (codes "more") (some quiet) ∷ []
calls quiet = []

calls-IsSubmit : (f : Fn) → All IsSubmit (calls f)
calls-IsSubmit again = (tt, tt)
calls-IsSubmit quiet = tt

abbrev two : Scheduler Fn
two = record {
  queue =
      record { id = 1; name = codes "a"; fn = some again }
      ∷ record { id = 2; name = codes "b"; fn = none }
      ∷ [];
  next_id = 3;
  stopping = false;
}

run_once-Fifo_example : Fifo calls two (run_once calls 0 5 (1 ∷ 2 ∷ 9 ∷ []) two)
run_once-Fifo_example = run_once-Fifo calls 0 5 (1 ∷ 2 ∷ 9 ∷ []) two calls-IsSubmit

run_once_runs :
    snapshot (run_once calls 0 5 (1 ∷ 2 ∷ 9 ∷ []) two).0
    ≡ record { id = 3; name = codes "more"; fn = some quiet } ∷ []
unfolding run_once snapshot
run_once_runs = refl

submit-Ordered_example :
    Ordered 1 (submit (codes "c") none two).0.next_id (snapshot (submit (codes "c") none two).0)
    × (snapshot (submit (codes "c") none two).0
        ≡ snapshot two
          ++ record { id = (submit (codes "c") none two).1; name = codes "c"; fn = none } ∷ [])
    × All (λ t. t.id ≢ (submit (codes "c") none two).1) (snapshot two)
    × ((submit (codes "c") none two).0.next_id ≡ 4)
submit-Ordered_example = submit-Ordered 1 (codes "c") none two (omega arith) (omega arith)

-- tests/test_memory.cpp.
abbrev one_block : Memory
one_block = record { capacity = 1024; allocs = (7, 128) ∷ [] }

used-capacity_example :
    (used (free 7 one_block) ≡ total (free 7 one_block).allocs)
    × (used (free 7 one_block) ≤ (free 7 one_block).capacity)
unfolding allocate size_of total used
used-capacity_example =
    used-capacity (new_memory 1024) (free 7 one_block)
      (record { within = omega arith; word = omega arith })
      (frees 7 (allocates 128 7 here (omega arith) refl refl))

abbrev two_events : List Event
two_events =
    record { name = codes "run"; ph = codes "B"; ts = 1 }
    ∷ record { name = codes "run"; ph = codes "E"; ts = 2 }
    ∷ []

stop-events_example :
    (Trace.stop (events two_events (start true new_trace))).file
    ≡ (codes "[\n" ++ join (map text_of two_events) separator) ++ codes "\n]\n"
stop-events_example = stop-events two_events new_trace refl
