-- ===== src/Scheduler.antt =====
-- `Scheduler` of include/neon/scheduler.hpp and src/scheduler.cpp. The mutex makes each operation
-- one step. A task's function is code of the caller: what it does to the scheduler is the list of
-- calls that it makes, a parameter.
pub mod Queue
pub mod Progress
use neon_world_os.Base.{
  ℕ, ◌+◌, ◌%◌, ◌^◌, Bool, true, false, List, [], ◌∷◌, ◌++◌, Option, none, some, Bytes,
  if◌then◌else◌, ltb,
}

pub record Task (F : Type 0) : Type 0 where
  pub id : ℕ
  pub name : Bytes
  pub fn : Option F

pub record Scheduler (F : Type 0) : Type 0 where
  pub queue : List (Task F)
  pub next_id : ℕ
  pub stopping : Bool

-- A call that a running task makes.
pub data Call (F : Type 0) : Type 0 where
  submitted : Bytes → Option F → Call F
  stopped : Call F

abbrev pub new_scheduler : {F : Type 0} → Scheduler F
new_scheduler = record { queue = []; next_id = 1; stopping = false }

module _ {F : Type 0} where
  unfoldable pub submit : Bytes → Option F → Scheduler F → Scheduler F × ℕ
  submit name fn s = (
    record s {
      queue = s.queue ++ record { id = s.next_id; name = name; fn = fn } ∷ [];
      next_id = (s.next_id + 1) % 2 ^ 64;
    },
    s.next_id,
  )

  unfoldable pub stop : Scheduler F → Scheduler F
  stop s = record s { queue = []; stopping = true }

  unfoldable pub snapshot : Scheduler F → List (Task F)
  snapshot s = s.queue

  unfoldable pub make_calls : List (Call F) → Scheduler F → Scheduler F
  unfolding submit stop
  make_calls [] s = s
  make_calls (submitted name fn ∷ cs) s = make_calls cs (submit name fn s).0
  make_calls (stopped ∷ cs) s = make_calls cs (stop s)

  module _ (calls : F → List (Call F)) where
    -- `if (cur.fn) cur.fn()`.
    unfoldable pub run_task : Task F → Scheduler F → Scheduler F
    unfolding make_calls
    run_task t s = elim t.fn [ none ↦ s | some f ↦ make_calls (calls f) s ]

    -- The loop of `RunOnce`, over the readings of the clock that its test makes; the end of the list is
    -- the end of what is observed. The tasks that were run are listed in order.
    unfoldable pub run_loop : List ℕ → ℕ → Scheduler F → Scheduler F × List (Task F)
    unfolding run_task
    run_loop [] until s = (s, [])
    run_loop (now ∷ clock) until s = elim (ltb now until) [
      | false ↦ (s, [])
      | true ↦ elim s.stopping [
        | true ↦ (s, [])
        | false ↦ elim s.queue [
          | [] ↦ (s, [])
          | t ∷ rest ↦
              let (s', ran) = run_loop clock until (run_task t (record s { queue = rest })) in
              (s', t ∷ ran)
        ]
      ]
    ]

    unfoldable pub run_once : ℕ → ℕ → List ℕ → Scheduler F → Scheduler F × List (Task F)
    unfolding run_loop
    run_once start budget clock s = run_loop clock (start + budget) s
