-- ===== src/Sched/Running.antt =====
-- At most the task on the processor is marked as running; the task that boots keeps the processor.
use dionnex.Base.{
  ℕ, ◌≡◌, ◌≢◌, refl, sym, ap, ◌∙◌, inl, inr, true, false, Option, some, List, ◌∷◌, ◌==◌, arith,
  Bool-cases,
}
use dionnex.Sched.{
  Sched, Task, is_running, is_dead, is_in, charge, cleaned, scheduler_remove_task, schedule,
}
use dionnex.Sched.Chain.{Apart, is_in-remove_from, remove_from-Apart}
use dionnex.Sched.Switch.{Switched, schedule-Least}

-- No task is in the list twice, NULL is not, and a task in the list that is marked as running is
-- the one on the processor.
pub record OneRuns (s : Sched) : Type 0 where
  pub apart : Apart s.chain
  pub real : is_in 0 s.chain ≡ false
  pub only :
      (a : ℕ) → is_in a s.chain ≡ true → is_running (s.tasks a).state ≡ true → s.current ≡ some a

module _ {s : Sched} (v : OneRuns s) (current : ℕ) where
  cleaned-OneRuns : OneRuns (cleaned s current)
  unfolding scheduler_remove_task
  cleaned-OneRuns = elim (Bool-cases (is_dead (s.tasks current).state)) [
    | inr alive ↦ rw alive v
    | inl gone ↦ elim (Bool-cases (current == 0)) [
      | inl null ↦ rw (gone, null) v
      | inr at ↦
          rw (gone, at)
            (record {
              apart = remove_from-Apart current s.chain v.apart;
              real = ground (arith, is_in-remove_from current 0 s.chain v.apart, v.real);
              only = λ a inside runs.
                  v.only a (ground (arith, is_in-remove_from current a s.chain v.apart, inside))
                    runs;
            })
    ]
  ]

charged_stops : (t : Task) → is_running (charge t).state ≡ false
charged_stops t = elim (Bool-cases (is_running t.state)) [ inl r ↦ rw r refl | inr r ↦ rw r r ]

cleaned-keeps :
    (s : Sched) (current : ℕ)
    → ((cleaned s current).tasks ≡ s.tasks) × ((cleaned s current).current ≡ s.current)
unfolding scheduler_remove_task
cleaned-keeps s current = ground arith

some-injective : {a b : ℕ} → some a ≡ some b → a ≡ b
some-injective e = ground (arith, e)

module _ {s : Sched} (v : OneRuns s) (current m : ℕ) (e : s.current ≡ some current) where
  others_stopped :
      (r : Sched × Option (ℕ × ℕ)) (a : ℕ)
      → Switched s current m r
      → a ≢ m
      → is_in a r.0.chain ≡ true
      → is_running (r.0.tasks a).state ≡ false
  others_stopped r a w apart inside = elim (Bool-cases (a == current)) [
    | inl here ↦
        let same : a ≡ current = ground (arith, here) in
        rw (same, w.prev_task) (charged_stops (s.tasks current))
    | inr there ↦ elim (Bool-cases (is_running (s.tasks a).state)) [
      | inr stopped ↦ rw (w.others a apart (ground (arith, there))) stopped
      | inl runs ↦
          let (tasks, keeps) = cleaned-keeps s current in
          let there_too : is_in a (cleaned s current).chain ≡ true = rw w.chain at inside in
          let at = (cleaned-OneRuns v current).only a there_too (rw tasks runs) in
          let same = some-injective (sym e ∙ sym keeps ∙ at) in absurd (ground (arith, same, there))
    ]
  ]

-- With a task on the processor and a list that is not empty, `schedule` keeps the invariant.
pub schedule-OneRuns :
    {s : Sched} (current head : ℕ) (rest : List ℕ)
    → s.current ≡ some current
    → s.chain ≡ head ∷ rest
    → OneRuns s
    → OneRuns (schedule s).0
schedule-OneRuns {s} current head rest e f v =
    let v' = cleaned-OneRuns v current in
    elim (schedule-Least s current head rest e f) [
      | inl (idle, r) ↦ rw r v'
      | inr (m, pre, post, l, inl (same, r)) ↦ rw r v'
      | inr (m, pre, post, l, inr w) ↦ record {
        apart = rw w.chain v'.apart;
        real = rw w.chain v'.real;
        only = λ a inside runs. elim (Bool-cases (a == m)) [
          | inl here ↦ w.now ∙ ap some (ground (arith, here))
          | inr there ↦
              let stopped =
                others_stopped v current m e (schedule s) a w (ground (arith, there)) inside in
              absurd (cc (stopped, runs))
        ];
      }
    ]
