-- ===== src/Scheduler/Queue.antt =====
-- The order in which tasks run, and the numbers that they get.
use neon_world_os.Base.{
  ℕ, ◌+◌, ◌%◌, ◌^◌, ◌≤◌, ◌<◌, Bool, true, false, List, [], ◌∷◌, ◌++◌, Option, none, some, ◌≡◌, ◌≢◌,
  refl, sym, ap, ◌∙◌, arith, Bytes, append-nil, append_assoc, Option-cases, ltb, All, inl, inr,
}
use neon_world_os.Scheduler.{
  Task, Scheduler, Call, submitted, stopped, submit, make_calls, run_task, run_loop, run_once,
  snapshot,
}

-- The tasks that calls submit, with their numbers from the counter on, and the counter behind them.
unfoldable pub tasks_of : {F : Type 0} → ℕ → List (Call F) → List (Task F)
tasks_of n [] = []
tasks_of n (submitted name fn ∷ cs) =
    record { id = n; name = name; fn = fn } ∷ tasks_of ((n + 1) % 2 ^ 64) cs
tasks_of n (stopped ∷ cs) = tasks_of n cs

unfoldable pub counter_after : {F : Type 0} → ℕ → List (Call F) → ℕ
counter_after n [] = n
counter_after n (submitted name fn ∷ cs) = counter_after ((n + 1) % 2 ^ 64) cs
counter_after n (stopped ∷ cs) = counter_after n cs

-- The calls that a task makes, and the tasks that a list of tasks submits, one after the other.
abbrev pub calls_of : {F : Type 0} → (F → List (Call F)) → Task F → List (Call F)
calls_of calls t = elim t.fn [ none ↦ [] | some f ↦ calls f ]

unfoldable pub submitted_by : {F : Type 0} → (F → List (Call F)) → ℕ → List (Task F) → List (Task F)
unfolding tasks_of counter_after
submitted_by calls n [] = []
submitted_by calls n (t ∷ ts) =
    tasks_of n (calls_of calls t) ++ submitted_by calls (counter_after n (calls_of calls t)) ts

-- What ran, and then what waits, is what waited before, and then what the tasks that ran submitted.
abbrev pub Fifo :
    {F : Type 0} → (F → List (Call F)) → Scheduler F → Scheduler F × List (Task F) → Type 0
Fifo calls s r = r.1 ++ r.0.queue ≡ s.queue ++ submitted_by calls s.next_id r.1

-- A call that only adds a task.
abbrev pub IsSubmit : {F : Type 0} → Call F → Type 0
IsSubmit (submitted name fn) = Unit
IsSubmit stopped = ⊥

make_calls-queue :
    {F : Type 0} (cs : List (Call F)) (s : Scheduler F)
    → All IsSubmit cs
    → ((make_calls cs s).queue ≡ s.queue ++ tasks_of s.next_id cs)
      × ((make_calls cs s).next_id ≡ counter_after s.next_id cs)
unfolding make_calls tasks_of counter_after
make_calls-queue [] s h = (sym (append-nil s.queue), refl)
make_calls-queue (submitted name fn ∷ cs) s (hc, h) =
    let (q, n) = make_calls-queue cs (submit name fn s).0 h in
    (q ∙ append_assoc s.queue _ (tasks_of ((s.next_id + 1) % 2 ^ 64) cs), n)
make_calls-queue (stopped ∷ cs) s (hc, h) = absurd hc

module _ {F : Type 0} (calls : F → List (Call F)) where
  -- Once the scheduler is stopping, no task is run and nothing changes: what is submitted after
  -- `Stop` waits for ever.
  pub run_once-stopping :
      (start budget : ℕ) (clock : List ℕ) (s : Scheduler F)
      → s.stopping ≡ true
      → run_once calls start budget clock s ≡ (s, [])
  unfolding run_once
  run_once-stopping start budget [] s h = refl
  run_once-stopping start budget (now ∷ clock) s h = ground arith

  calls_of-quiet :
      (t : Task F) → ((f : F) → All IsSubmit (calls f)) → All IsSubmit (calls_of calls t)
  calls_of-quiet t quiet = elim (Option-cases t.fn) [
    | inl e ↦ rw e tt
    | inr (f, e) ↦ rw e (quiet f)
  ]

  run_task-make_calls :
      (t : Task F) (s : Scheduler F) → run_task calls t s ≡ make_calls (calls_of calls t) s
  unfolding run_task make_calls
  run_task-make_calls t s = elim (Option-cases t.fn) [ inl e ↦ rw e refl | inr (f, e) ↦ rw e refl ]

  run_task-queue :
      (t : Task F) (s : Scheduler F)
      → ((f : F) → All IsSubmit (calls f))
      → ((run_task calls t s).queue ≡ s.queue ++ tasks_of s.next_id (calls_of calls t))
        × ((run_task calls t s).next_id ≡ counter_after s.next_id (calls_of calls t))
  run_task-queue t s quiet =
      rw (run_task-make_calls t s) (make_calls-queue (calls_of calls t) s (calls_of-quiet t quiet))

  pick :
      (s : Scheduler F) (b : Bool) (x y : Scheduler F × List (Task F))
      → Fifo calls s x
      → Fifo calls s y
      → Fifo calls s (elim b [ false ↦ x | true ↦ y ])
  pick s false x y hx hy = hx
  pick s true x y hx hy = hy

  run_loop-Fifo :
      (clock : List ℕ) (until : ℕ) (s : Scheduler F)
      → ((f : F) → All IsSubmit (calls f))
      → Fifo calls s (run_loop calls clock until s)
  unfolding run_loop submitted_by
  run_loop-Fifo [] until s quiet = sym (append-nil s.queue)
  run_loop-Fifo (now ∷ clock) until s quiet =
      pick s (ltb now until) _ _ (sym (append-nil s.queue)) (
        pick s s.stopping _ _ (front s.queue refl (run_loop-Fifo clock until))
          (sym (append-nil s.queue)))
    where
      front :
          (q : List (Task F))
          → s.queue ≡ q
          → ((s' : Scheduler F)
              → ((f : F) → All IsSubmit (calls f))
              → Fifo calls s' (run_loop calls clock until s'))
          → Fifo calls s (elim q [
            | [] ↦ (s, [])
            | t ∷ rest ↦ (
              (run_loop calls clock until (run_task calls t (record s { queue = rest }))).0,
              t ∷ (run_loop calls clock until (run_task calls t (record s { queue = rest }))).1,
            )
          ])
      front [] e ih = sym (append-nil s.queue)
      front (t ∷ rest) e ih =
          let s' : Scheduler F = run_task calls t (record s { queue = rest }) in
          let (q, n) = run_task-queue t (record s { queue = rest }) quiet in
          let first : List (Task F) = tasks_of s.next_id (calls_of calls t) in
          let ran : List (Task F) = (run_loop calls clock until s').1 in
          rw e (
            ap (◌∷◌ t) (
              ih s' quiet
              ∙ ap (λ (m : ℕ). s'.queue ++ submitted_by calls m ran) n
              ∙ ap
                  (λ (u : List (Task F)).
                    u ++ submitted_by calls (counter_after s.next_id (calls_of calls t)) ran)
                  q
              ∙ append_assoc rest first
                  (submitted_by calls (counter_after s.next_id (calls_of calls t)) ran)))

  -- `RunOnce` takes the tasks in the order in which they were submitted, each once: the tasks that ran,
  -- followed by those that wait, are those that waited before and then exactly those that the tasks that
  -- ran submitted, in the order of their calls and with the numbers that the counter gave, if no task calls
  -- `Stop`.
  pub run_once-Fifo :
      (start budget : ℕ) (clock : List ℕ) (s : Scheduler F)
      → ((f : F) → All IsSubmit (calls f))
      → Fifo calls s (run_once calls start budget clock s)
  unfolding run_once
  run_once-Fifo start budget clock s quiet = run_loop-Fifo clock (start + budget) s quiet

-- The tasks that wait have numbers from `lo` on, below `hi`, in increasing order.
abbrev pub Ordered : {F : Type 0} → ℕ → ℕ → List (Task F) → Type 0
Ordered lo hi [] = lo ≤ hi
Ordered lo hi (t ∷ ts) = (lo ≤ t.id) × Ordered (t.id + 1) hi ts

Ordered-append :
    {F : Type 0} (lo hi : ℕ) (ts : List (Task F)) (t : Task F)
    → Ordered lo hi ts
    → t.id ≡ hi
    → Ordered lo (hi + 1) (ts ++ t ∷ [])
Ordered-append lo hi [] t h e = (omega arith, omega arith)
Ordered-append lo hi (u ∷ ts) t (hu, h) e = (hu, Ordered-append (u.id + 1) hi ts t h e)

Ordered-le : {F : Type 0} (lo hi : ℕ) (ts : List (Task F)) → Ordered lo hi ts → lo ≤ hi
Ordered-le lo hi [] h = h
Ordered-le lo hi (t ∷ ts) (ht, h) = omega (arith, ht, Ordered-le (t.id + 1) hi ts h)

Ordered-fresh :
    {F : Type 0} (lo hi : ℕ) (ts : List (Task F)) → Ordered lo hi ts → All (λ t. t.id ≢ hi) ts
Ordered-fresh lo hi [] h = tt
Ordered-fresh lo hi (t ∷ ts) (ht, h) = (
  λ e. absurd (omega (arith, e, Ordered-le (t.id + 1) hi ts h)),
  Ordered-fresh (t.id + 1) hi ts h,
)

-- `Submit` puts the task last, with its name and function, and returns the number that it gives it, which
-- no waiting task has: the numbers in the queue stay in increasing order and below the counter, as long as
-- the counter does not overflow.
pub submit-Ordered :
    {F : Type 0} (lo : ℕ) (name : Bytes) (fn : Option F) (s : Scheduler F)
    → Ordered lo s.next_id s.queue
    → s.next_id + 1 < 2 ^ 64
    → Ordered lo (submit name fn s).0.next_id (snapshot (submit name fn s).0)
      × (snapshot (submit name fn s).0
          ≡ snapshot s ++ record { id = (submit name fn s).1; name = name; fn = fn } ∷ [])
      × All (λ t. t.id ≢ (submit name fn s).1) (snapshot s)
      × ((submit name fn s).0.next_id ≡ s.next_id + 1)
unfolding submit snapshot
submit-Ordered lo name fn s h small =
    let e : (s.next_id + 1) % 2 ^ 64 ≡ s.next_id + 1 = omega arith in
    (
      rw e (Ordered-append lo s.next_id s.queue _ h refl),
      refl,
      Ordered-fresh lo s.next_id s.queue h,
      e,
    )
