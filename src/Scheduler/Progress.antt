-- ===== src/Scheduler/Progress.antt =====
-- Every task that waits is run, when `RunOnce` is called often enough.
use neon_world_os.Base.{
  ℕ, ◌+◌, ◌≤◌, ◌<◌, Bool, true, false, List, [], ◌∷◌, ◌++◌, ◌≡◌, refl, sym, ap, ◌∙◌, subst, ◌⊎◌,
  inl, inr, arith, append-nil, append_assoc, Option-cases, ltb, lt→ltb, All, length, length-append,
}
use neon_world_os.Scheduler.{
  Task, Scheduler, Call, submitted, stopped, submit, make_calls, run_task, run_loop, run_once,
}
use neon_world_os.Scheduler.Queue.{IsSubmit, submitted_by, run_once-Fifo}

-- A call of `RunOnce`: when it starts, its budget, and its readings of the clock.
pub record Slot : Type 0 where
  pub start : ℕ
  pub budget : ℕ
  pub clock : List ℕ

-- The first reading is before the end of the budget.
abbrev pub IsTimely : Slot → Type 0
IsTimely x = (now : ℕ) × (rest : List ℕ) × (x.clock ≡ now ∷ rest) × (now < x.start + x.budget)

-- One list is a part of the other, if they begin two lists that are equal.
prefix-cases :
    {A : Type 0} (r a q b : List A)
    → r ++ a ≡ q ++ b
    → ((u : List A) × (q ≡ r ++ u) × (a ≡ u ++ b)) ⊎ ((u : List A) × (r ≡ q ++ u))
prefix-cases [] a q b e = inl (q, refl, e)
prefix-cases (x ∷ r) a [] b e = inr (x ∷ r, refl)
prefix-cases (x ∷ r) a (y ∷ q) b e = elim (prefix-cases r a q b (cc e)) [
  | inl (u, e', f) ↦ inl (u, cc (e, e'), f)
  | inr (u, e') ↦ inr (u, cc (e, e'))
]

module _ {F : Type 0} (calls : F → List (Call F)) where
  -- Calls one after the other, and all tasks that they ran.
  unfoldable pub run_slots : List Slot → Scheduler F → Scheduler F × List (Task F)
  unfolding run_once
  run_slots [] s = (s, [])
  run_slots (x ∷ xs) s =
      let (s', ran) = run_once calls x.start x.budget x.clock s in
      let (s'', later) = run_slots xs s' in (s'', ran ++ later)

  make_calls-stopping :
      (cs : List (Call F)) (s : Scheduler F)
      → All IsSubmit cs
      → s.stopping ≡ false
      → (make_calls cs s).stopping ≡ false
  unfolding make_calls submit
  make_calls-stopping [] s h e = e
  make_calls-stopping (submitted name fn ∷ cs) s (hc, h) e =
      make_calls-stopping cs (submit name fn s).0 h e
  make_calls-stopping (stopped ∷ cs) s (hc, h) e = absurd hc

  run_task-stopping :
      (t : Task F) (s : Scheduler F)
      → ((f : F) → All IsSubmit (calls f))
      → s.stopping ≡ false
      → (run_task calls t s).stopping ≡ false
  unfolding run_task
  run_task-stopping t s quiet e = elim (Option-cases t.fn) [
    | inl p ↦ rw p e
    | inr (f, p) ↦ rw p (make_calls-stopping (calls f) s (quiet f) e)
  ]

  -- The flag after a round.
  Going : Scheduler F × List (Task F) → Type 0
  Going r = r.0.stopping ≡ false

  Going-pick :
      (b : Bool) (x y : Scheduler F × List (Task F))
      → Going x
      → Going y
      → Going (elim b [ false ↦ x | true ↦ y ])
  Going-pick false x y hx hy = hx
  Going-pick true x y hx hy = hy

  run_loop-Going :
      (clock : List ℕ) (until : ℕ) (s : Scheduler F)
      → ((f : F) → All IsSubmit (calls f))
      → s.stopping ≡ false
      → Going (run_loop calls clock until s)
  unfolding run_loop Going
  run_loop-Going [] until s quiet e = e
  run_loop-Going (now ∷ clock) until s quiet e = Going-pick (ltb now until) _ _ e (
      Going-pick s.stopping _ _
        (front s.queue (λ t rest.
          run_loop-Going clock until (run_task calls t (record s { queue = rest })) quiet
            (run_task-stopping t (record s { queue = rest }) quiet e)))
        e)
    where
      front :
          (q : List (Task F))
          → ((t : Task F) (rest : List (Task F))
              → Going (run_loop calls clock until (run_task calls t (record s { queue = rest }))))
          → Going (elim q [
            | [] ↦ (s, [])
            | t ∷ rest ↦ (
              (run_loop calls clock until (run_task calls t (record s { queue = rest }))).0,
              t ∷ (run_loop calls clock until (run_task calls t (record s { queue = rest }))).1,
            )
          ])
      front [] ih = e
      front (t ∷ rest) ih = ih t rest

  -- Some tasks were run, and this one first.
  Starts : Task F → Scheduler F × List (Task F) → Type 0
  Starts t r = (more : List (Task F)) × (r.1 ≡ t ∷ more)

  Starts-true :
      (t : Task F) (b : Bool) (x y : Scheduler F × List (Task F))
      → b ≡ true
      → Starts t y
      → Starts t (elim b [ false ↦ x | true ↦ y ])
  Starts-true t false x y e h = absurd (cc)
  Starts-true t true x y e h = h

  Starts-false :
      (t : Task F) (b : Bool) (x y : Scheduler F × List (Task F))
      → b ≡ false
      → Starts t x
      → Starts t (elim b [ false ↦ x | true ↦ y ])
  Starts-false t false x y e h = h
  Starts-false t true x y e h = absurd (cc)

  run_loop-Starts :
      (now : ℕ) (clock : List ℕ) (until : ℕ) (s : Scheduler F) (t : Task F) (rest : List (Task F))
      → now < until
      → s.stopping ≡ false
      → s.queue ≡ t ∷ rest
      → Starts t (run_loop calls (now ∷ clock) until s)
  unfolding run_loop Starts
  run_loop-Starts now clock until s t rest lt going q =
      Starts-true t (ltb now until) _ _ (lt→ltb now until lt)
        (Starts-false t s.stopping _ _ going (front s.queue q))
    where
      front :
          (q : List (Task F))
          → q ≡ t ∷ rest
          → Starts t (elim q [
            | [] ↦ (s, [])
            | u ∷ us ↦ (
              (run_loop calls clock until (run_task calls u (record s { queue = us }))).0,
              u ∷ (run_loop calls clock until (run_task calls u (record s { queue = us }))).1,
            )
          ])
      front [] e = absurd (cc)
      front (u ∷ us) e =
          let ran : List (Task F) =
            (run_loop calls clock until (run_task calls u (record s { queue = us }))).1 in
          (ran, ap (λ (v : Task F). v ∷ ran) (cc e))

  run_once-Starts :
      (x : Slot) (s : Scheduler F) (t : Task F) (rest : List (Task F))
      → IsTimely x
      → s.stopping ≡ false
      → s.queue ≡ t ∷ rest
      → (more : List (Task F)) × ((run_once calls x.start x.budget x.clock s).1 ≡ t ∷ more)
  unfolding run_once Starts
  run_once-Starts x s t rest (now, clock, e, lt) going q =
      subst (λ (c : List ℕ). Starts t (run_loop calls c (x.start + x.budget) s)) (sym e)
        (run_loop-Starts now clock (x.start + x.budget) s t rest lt going q)

  -- The tasks `q` were run, in order, before any other.
  abbrev pub RunsFirst : List (Task F) → Scheduler F × List (Task F) → Type 0
  RunsFirst q r = (more : List (Task F)) × (r.1 ≡ q ++ more)

  run_slots-RunsFirst :
      (xs : List Slot) (s : Scheduler F) (q later : List (Task F))
      → ((f : F) → All IsSubmit (calls f))
      → All IsTimely xs
      → s.stopping ≡ false
      → s.queue ≡ q ++ later
      → length q ≤ length xs
      → RunsFirst q (run_slots xs s)
  unfolding run_slots
  run_slots-RunsFirst xs s [] later quiet timely going e le = ((run_slots xs s).1, refl)
  run_slots-RunsFirst [] s (t ∷ q) later quiet timely going e le = absurd (omega arith)
  run_slots-RunsFirst (x ∷ xs) s (t ∷ q) later quiet (now, timely) going e le =
      elim (prefix-cases ran s'.queue (t ∷ q) (later ++ added) parts) [
        | inl (u, eq, waits) ↦
            let (more, f) =
              run_slots-RunsFirst xs s' u (later ++ added) quiet timely still waits
                (shorter u eq) in
            (
              more,
              ap (λ ys. ran ++ ys) f
                  ∙ sym (append_assoc ran u more)
                  ∙ ap (λ ys. ys ++ more) (sym eq),
            )
        | inr (u, eq) ↦ (
          u ++ (run_slots xs s').1,
          ap (λ ys. ys ++ (run_slots xs s').1) eq ∙ append_assoc (t ∷ q) u _,
        )
      ]
    where
      s' : Scheduler F
      s' = (run_once calls x.start x.budget x.clock s).0

      ran : List (Task F)
      ran = (run_once calls x.start x.budget x.clock s).1

      added : List (Task F)
      added = submitted_by calls s.next_id ran

      parts : ran ++ s'.queue ≡ (t ∷ q) ++ (later ++ added)
      parts =
          run_once-Fifo calls x.start x.budget x.clock s quiet
          ∙ ap (λ ys. ys ++ added) e
          ∙ append_assoc (t ∷ q) later added

      still : s'.stopping ≡ false
      still = unfold run_once Going in run_loop-Going x.clock (x.start + x.budget) s quiet going

      shorter : (u : List (Task F)) → t ∷ q ≡ ran ++ u → length u ≤ length xs
      shorter u eq =
          let (more, f) = run_once-Starts x s t (q ++ later) now going e in
          omega (arith, le, ap length eq, length-append ran u, ap length f)

  -- Every task that waits is run, in the order of the queue and before any task that is submitted later,
  -- once `RunOnce` is called as many times as there are tasks: each call reads the clock at least once
  -- before its budget ends, the scheduler is not stopping, and no task calls `Stop`.
  pub run_slots_lem :
      (xs : List Slot) (s : Scheduler F)
      → ((f : F) → All IsSubmit (calls f))
      → All IsTimely xs
      → s.stopping ≡ false
      → length s.queue ≤ length xs
      → RunsFirst s.queue (run_slots xs s)
  run_slots_lem xs s quiet timely going le =
      run_slots-RunsFirst xs s s.queue [] quiet timely going (sym (append-nil s.queue)) le
