-- ===== src/Lcm/Soundness.antt =====
-- lcm/manager.go: what holds of the coordinator and of its history, and a step that keeps it.
use drummer.Base.{
  subst, ℕ, zero, suc, ◌+◌, ◌%◌, ◌≤◌, ◌<◌, ◌≡◌, refl, sym, ap, ◌∙◌, ◌⊎◌, Bool, true, false, not,
  List, [], ◌∷◌, ◌++◌, length, some, ◌==◌, if◌then◌else◌, nat_eq, u64_mod, add_u64, arith,
  Bool-cases, inl, inr, length-append,
}
use mathlib.Core.List.{append-nil, append_assoc}
use drummer.Base.Map.{lookup, insert, lookup-insert}
use drummer.Lcm.{EventType, EventResult, Event, Task, Process, Coordinator, set_process}

-- The values of the writes that were invoked.
unfoldable pub written_by : Event → List ℕ
written_by e = elim e.event_result [
  | EventResult.invoked ↦ (elim e.event_type [
    | EventType.write ↦ e.value ∷ []
    | EventType.read ↦ []
  ])
  | EventResult.completed ↦ []
  | EventResult.failed ↦ []
]

unfoldable pub written : List Event → List ℕ
written [] = []
written (e ∷ es) = written_by e ++ written es

-- 1, 2, 3 and so on.
unfoldable pub first_values : ℕ → List ℕ
first_values zero = []
first_values (suc n) = first_values n ++ ((1 + n) % u64_mod ∷ [])

unfoldable pub is_invoked : Event → Bool
is_invoked e = elim e.event_result [
  | EventResult.invoked ↦ true
  | EventResult.completed ↦ false
  | EventResult.failed ↦ false
]

-- Whether a process has an operation open after the events, which it has or not before.
unfoldable pub is_open : Bool → ℕ → List Event → Bool
is_open b id [] = b
is_open b id (e ∷ es) = is_open (if e.id == id then is_invoked e else b) id es

-- The goroutine has not recorded how its operation ended.
unfoldable pub is_pending : Task → Bool
is_pending (Task.writing value) = true
is_pending Task.write_failed = true
is_pending Task.reading = true
is_pending Task.read_failed = true
is_pending Task.leaving = false
is_pending Task.none_runs = false

unfoldable pub runs : Task → Bool
runs Task.none_runs = false
runs Task.leaving = true
runs (Task.writing value) = true
runs Task.write_failed = true
runs Task.reading = true
runs Task.read_failed = true

pub record IsSound (c : Coordinator) : Type 0 where
  pub wait_least : 25 ≤ c.wait
  pub wait_most : c.wait ≤ 100
  pub count_below : c.complete_count < 4
  pub next_value : c.value ≡ (1 + length (written c.events)) % u64_mod
  pub all_values : written c.events ≡ first_values (length (written c.events))
  pub one_at_a_time :
      (id : ℕ) (p : Process)
      → lookup id c.processes ≡ some p
      → (is_open false id c.events ≡ is_pending p.task) × (p.idle ≡ not (runs p.task))

written-append :
    (es : List Event) (e : Event) → written (es ++ (e ∷ [])) ≡ written es ++ written_by e
unfolding written
written-append [] e = append-nil (written_by e)
written-append (x ∷ es) e =
    ap (λ l. written_by x ++ l) (written-append es e)
    ∙ sym (append_assoc (written_by x) (written es) (written_by e))

is_open-append :
    (b : Bool) (id : ℕ) (es : List Event) (e : Event)
    → is_open b id (es ++ (e ∷ [])) ≡ (if e.id == id then is_invoked e else is_open b id es)
unfolding is_open
is_open-append b id [] e = refl
is_open-append b id (x ∷ es) e = is_open-append (if x.id == id then is_invoked x else b) id es e

-- What a step does: an event of a process is recorded, and the process is set.
pub record IsStep (c c' : Coordinator) (e : Event) (q : Process) : Type 0 where
  pub recorded : c'.events ≡ c.events ++ (e ∷ [])
  pub set : c'.processes ≡ insert e.id q c.processes
  pub busy : is_invoked e ≡ is_pending q.task
  pub flagged : q.idle ≡ not (runs q.task)
  pub wait_still_least : 25 ≤ c'.wait
  pub wait_still_most : c'.wait ≤ 100
  pub count_still_below : c'.complete_count < 4
  pub value_moves :
      ((written_by e ≡ []) × (c'.value ≡ c.value))
      ⊎ ((written_by e ≡ c.value ∷ []) × (c'.value ≡ add_u64 c.value 1))

module _ (c c' : Coordinator) (e : Event) (q : Process) (step : IsStep c c' e q)
    (sound : IsSound c) where
  step-written : written c'.events ≡ written c.events ++ written_by e
  step-written = ap written step.recorded ∙ written-append c.events e

  step-values :
      (c'.value ≡ (1 + length (written c'.events)) % u64_mod)
      × (written c'.events ≡ first_values (length (written c'.events)))
  unfolding first_values add_u64
  step-values = elim step.value_moves [
    | inl (silent, same) ↦
        let same_list : written c'.events ≡ written c.events =
          step-written ∙ ap (λ l. written c.events ++ l) silent ∙ append-nil (written c.events) in
        (rw same_list (same ∙ sound.next_value), rw same_list sound.all_values)
    | inr (writes, next) ↦
        let n = length (written c.events) in
        let longer : written c'.events ≡ written c.events ++ (c.value ∷ []) =
          step-written ∙ ap (λ l. written c.events ++ l) writes in
        let size : length (written c'.events) ≡ suc n =
          rw longer (length-append (written c.events) (c.value ∷ []) ∙ omega arith) in
        let old = sound.next_value in
        (
          rw size (next ∙ omega arith),
          rw size (
              longer
              ∙ ap (λ l. l ++ (c.value ∷ [])) sound.all_values
              ∙ ap (λ v. first_values n ++ (v ∷ [])) sound.next_value),
        )
  ]

  step-open :
      (id : ℕ) (p : Process)
      → lookup id c'.processes ≡ some p
      → (is_open false id c'.events ≡ is_pending p.task) × (p.idle ≡ not (runs p.task))
  step-open id p there =
      let events = ap (is_open false id) step.recorded ∙ is_open-append false id c.events e in
      let stored : lookup id (insert e.id q c.processes) ≡ some p = rw (sym step.set) there in
      elim (Bool-cases (e.id == id)) [
        | inl same ↦
            let own : q ≡ p = ground (arith, lookup-insert id e.id q c.processes) in
            let b = step.busy in let f = step.flagged in (ground arith, ground arith)
        | inr other ↦
            let kept : lookup id c.processes ≡ some p =
              ground (arith, lookup-insert id e.id q c.processes) in
            let (before, flag) = sound.one_at_a_time id p kept in (ground arith, flag)
      ]

  pub step-IsSound : IsSound c'
  step-IsSound = record {
    wait_least = step.wait_still_least;
    wait_most = step.wait_still_most;
    count_below = step.count_still_below;
    next_value = step-values.0;
    all_values = step-values.1;
    one_at_a_time = step-open;
  }

-- A step that records nothing: the process is set, with an operation open as before.
pub silent-IsSound :
    (c : Coordinator) (id : ℕ) (p q : Process)
    → IsSound c
    → lookup id c.processes ≡ some p
    → is_pending q.task ≡ is_pending p.task
    → q.idle ≡ not (runs q.task)
    → IsSound (set_process id q c)
unfolding set_process
silent-IsSound c id p q sound there same flagged = record {
  wait_least = sound.wait_least;
  wait_most = sound.wait_most;
  count_below = sound.count_below;
  next_value = sound.next_value;
  all_values = sound.all_values;
  one_at_a_time = λ k r stands. elim (Bool-cases (id == k)) [
    | inl own ↦
        let mine : q ≡ r = ground (arith, lookup-insert k id q c.processes) in
        let here : id ≡ k = ground arith in
        let (before, flag) = sound.one_at_a_time id p there in
        (
          subst (λ x. is_open false x c.events ≡ is_pending r.task) here
              (before ∙ sym same ∙ ap (λ x. is_pending x.task) mine),
          subst (λ x. x.idle ≡ not (runs x.task)) mine flagged,
        )
    | inr other ↦ sound.one_at_a_time k r (ground (arith, lookup-insert k id q c.processes))
  ];
}
