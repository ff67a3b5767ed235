-- ===== src/Sched/Switch.antt =====
-- `schedule` and `task_exit`.
use dionnex.Base.{
  ℕ, ◌+◌, ◌-◌, ◌%◌, ◌^◌, if◌then◌else◌, ◌≡◌, ◌≢◌, refl, ap, ◌∙◌, ◌⊎◌, inl, inr, true, false, Option,
  none, some, List, ◌∷◌, ◌==◌, arith, Bool-cases,
}
use dionnex.Sched.{
  Sched, Task, ready, is_running, is_dead, put_task, pick, charge, run_task, switch_to, cleaned,
  nonempty, reschedule, scheduler_remove_task, schedule,
}
use dionnex.Sched.Pick.{NoneUnder, Least, pick-Least}

-- What `schedule` did with `current` on the processor: nothing to run; it stays; or a switch to
-- `m`, where `current` goes back to the ready tasks with its vruntime charged if it was running,
-- and no other task changes.
abbrev pub Idle : Sched → ℕ → Sched × Option (ℕ × ℕ) → Type 0
Idle s current r =
    NoneUnder s.tasks 0xFFFFFFFF (cleaned s current).chain × (r ≡ (cleaned s current, none))

abbrev pub Stays : Sched → ℕ → ℕ → Sched × Option (ℕ × ℕ) → Type 0
Stays s current m r = (m ≡ current) × (r ≡ (cleaned s current, none))

pub record Switched (s : Sched) (current m : ℕ) (r : Sched × Option (ℕ × ℕ)) : Type 0 where
  pub differs : m ≢ current
  pub switch : r.1 ≡ some (current, m)
  pub now : r.0.current ≡ some m
  pub chain : r.0.chain ≡ (cleaned s current).chain
  pub next_task : r.0.tasks m ≡ run_task (s.tasks m)
  pub prev_task : r.0.tasks current ≡ charge (s.tasks current)
  pub stopped :
      (r.0.tasks current).state
      ≡ (if is_running (s.tasks current).state then ready else (s.tasks current).state)
  pub paid : (r.0.tasks current).vruntime ≡ (
      if is_running (s.tasks current).state
      then ((s.tasks current).vruntime + (2 ^ 32 + 10 - (s.tasks current).priority)) % 2 ^ 32
      else (s.tasks current).vruntime)
  pub others : (a : ℕ) → a ≢ m → a ≢ current → r.0.tasks a ≡ s.tasks a

cleaned-tasks : (s : Sched) (current : ℕ) → (cleaned s current).tasks ≡ s.tasks
unfolding scheduler_remove_task
cleaned-tasks s current = elim (Bool-cases (is_dead (s.tasks current).state)) [
  | inr alive ↦ rw alive refl
  | inl gone ↦ elim (Bool-cases (current == 0)) [
    | inl null ↦ rw (gone, null) refl
    | inr at ↦ rw (gone, at) refl
  ]
]

put_task_self : (tasks : ℕ → Task) (at : ℕ) (t : Task) → put_task tasks at t at ≡ t
put_task_self tasks at t = let here : (at == at) ≡ true = ground arith in rw here refl

put_task_other : (tasks : ℕ → Task) (at a : ℕ) (t : Task) → a ≢ at → put_task tasks at t a ≡ tasks a
put_task_other tasks at a t apart =
    let there : (a == at) ≡ false = ground (arith, apart) in rw there refl

charge-paid :
    (t : Task)
    → ((charge t).state ≡ (if is_running t.state then ready else t.state))
      × ((charge t).vruntime ≡ (
          if is_running t.state
          then (t.vruntime + (2 ^ 32 + 10 - t.priority)) % 2 ^ 32
          else t.vruntime))
charge-paid t = elim (Bool-cases (is_running t.state)) [
  | inl was ↦ rw was (refl, omega arith)
  | inr other ↦ rw other (refl, refl)
]

switched :
    (s s' : Sched) (current m : ℕ)
    → s'.tasks ≡ s.tasks
    → s'.chain ≡ (cleaned s current).chain
    → (m == current) ≡ false
    → Switched s current m (switch_to s' current m)
unfolding switch_to
switched s s' current m same chain other =
    let differs : m ≢ current = ground (arith, other) in
    let back : current ≢ m = ground (arith, other) in
    let t = charge (s'.tasks current) in
    let charged = put_task s'.tasks current t in
    let went = run_task (s'.tasks m) in
    let at_current = put_task_self s'.tasks current t ∙ ap (λ f. charge (f current)) same in
    let prev = put_task_other charged m current went back ∙ at_current in
    let (stops, pays) = charge-paid (s.tasks current) in
    rw other (record {
      differs = differs;
      switch = refl;
      now = refl;
      chain = chain;
      next_task = put_task_self charged m went ∙ ap (λ f. run_task (f m)) same;
      prev_task = prev;
      stopped = ap (λ (x : Task). x.state) prev ∙ stops;
      paid = ap (λ (x : Task). x.vruntime) prev ∙ pays;
      others = λ a x y.
          put_task_other charged m a went x
          ∙ put_task_other s'.tasks current a t y
          ∙ ap (λ f. f a) same;
    })

pub nonempty-cons :
    (s : Sched) (head : ℕ) (rest : List ℕ) → s.chain ≡ head ∷ rest → nonempty s.chain ≡ true
nonempty-cons s head rest f = ap nonempty f

pub schedule-some :
    (s : Sched) (current : ℕ) → s.current ≡ some current → schedule s ≡ reschedule s current
unfolding schedule
schedule-some s current e = rw e refl

pub stay : (s : Sched) (current m : ℕ) → (m == current) ≡ true → switch_to s current m ≡ (s, none)
unfolding switch_to
stay s current m e = rw e refl

reschedule-Least :
    (s : Sched) (current : ℕ)
    → nonempty s.chain ≡ true
    → Idle s current (reschedule s current)
      ⊎ ((m : ℕ) × (pre : List ℕ) × (post : List ℕ) × Least s.tasks
            (cleaned s current).chain
            0xFFFFFFFF
            m
            pre
            post
          × (Stays s current m (reschedule s current)
              ⊎ Switched s current m (reschedule s current)))
unfolding reschedule
reschedule-Least s current full =
    let s' = cleaned s current in
    let same = cleaned-tasks s current in
    elim (pick-Least s.tasks s'.chain none 0xFFFFFFFF) [
      | inl (idle, run) ↦
          let run' : pick s'.tasks s'.chain none 0xFFFFFFFF ≡ none =
            ap (λ t. pick t s'.chain none 0xFFFFFFFF) same ∙ run in
          inl (idle, rw (full, run') refl)
      | inr (m, pre, post, l, run) ↦
          let run' : pick s'.tasks s'.chain none 0xFFFFFFFF ≡ some m =
            ap (λ t. pick t s'.chain none 0xFFFFFFFF) same ∙ run in
          inr (
            m,
            pre,
            post,
            l,
            rw (full, run')
                (elim (Bool-cases (m == current)) [
                  | inl stays ↦ inl (ground (arith, stays), stay s' current m stays)
                  | inr other ↦ inr (switched s s' current m same refl other)
                ]),
          )
    ]

-- With a task on the processor and a list that is not empty, `schedule` first takes that task out
-- of the list if it is dead. It then looks for the first of the runnable tasks with the least
-- vruntime. If none has a vruntime under 0xFFFFFFFF, or if it is the one on the processor, nothing
-- else changes; otherwise it switches to that task, which is running then, and changes no other task
-- but the one before: if that was running, it is ready and its vruntime has grown by 10 less its
-- priority, modulo 2 ^ 32; if not, it stays as it was.
pub schedule-Least :
    (s : Sched) (current head : ℕ) (rest : List ℕ)
    → s.current ≡ some current
    → s.chain ≡ head ∷ rest
    → Idle s current (schedule s)
      ⊎ ((m : ℕ) × (pre : List ℕ) × (post : List ℕ) × Least s.tasks
            (cleaned s current).chain
            0xFFFFFFFF
            m
            pre
            post
          × (Stays s current m (schedule s) ⊎ Switched s current m (schedule s)))
schedule-Least s current head rest e f =
    rw (schedule-some s current e) (reschedule-Least s current (nonempty-cons s head rest f))
