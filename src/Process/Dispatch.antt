-- ===== src/Process/Dispatch.antt =====
-- `schedule_process` ends, and what it does with the choice.
use dionnex.Base.{
  ℕ, ◌<◌, ◌≡◌, ◌≢◌, refl, sym, ap, ◌∙◌, ◌⊎◌, inl, inr, ◌&&◌, not, true, false, Option, none, some,
  List, [], ◌∷◌, if◌then◌else◌, ◌==◌, length, arith, Bool-cases,
}
use dionnex.Process.{
  ProcState, proc_new, proc_blocked, proc_zombie, proc_dead, proc_ready, proc_running, is_ready,
  is_running, Proc, Procs, put_proc, preempt, dispatch, schedule_process,
}
use dionnex.Process.Links.{Chain}
use dionnex.Process.Pick.{NoneOf, better, Least, pick-Picked}

-- What the choice of `m` does.
pub record Dispatched (s : Procs) (m : ℕ) (r : Procs × Option (ℕ × ℕ)) : Type 0 where
  pub current : r.0.current_process ≡ m
  pub stack : r.0.tss_esp0 ≡ (s.procs m).esp0
  pub running : r.0.procs m ≡ record (s.procs m) {
    state = proc_running;
    vruntime = if (s.procs m).vruntime == 0 then 1 else (s.procs m).vruntime;
  }
  pub preempted :
      s.current_process ≢ 0
      → is_running (s.procs s.current_process).state ≡ true
      → r.0.procs s.current_process ≡ record (s.procs s.current_process) { state = proc_ready }
  pub idle :
      s.current_process ≢ m
      → is_running (s.procs s.current_process).state ≡ false
      → r.0.procs s.current_process ≡ s.procs s.current_process
  pub others : (a : ℕ) → a ≢ m → a ≢ s.current_process → r.0.procs a ≡ s.procs a
  pub entered : r.1 ≡ (
      if (s.procs m).vruntime == 0 then some ((s.procs m).user_eip, (s.procs m).user_esp) else none)

ready_is_not_running : (st : ProcState) → is_ready st ≡ true → is_running st ≡ false
ready_is_not_running proc_new r = refl
ready_is_not_running proc_ready r = refl
ready_is_not_running proc_running r = sym r
ready_is_not_running proc_blocked r = refl
ready_is_not_running proc_zombie r = refl
ready_is_not_running proc_dead r = refl

preempt_current :
    (s : Procs)
    → s.current_process ≢ 0
    → is_running (s.procs s.current_process).state ≡ true
    → (preempt s).procs s.current_process
      ≡ record (s.procs s.current_process) { state = proc_ready }
preempt_current s there run =
    let e : (s.current_process == 0) ≡ false = ground (arith, there) in
    let here : (s.current_process == s.current_process) ≡ true = ground arith in
    rw (e, run) (rw here refl)

preempt_idle :
    (s : Procs)
    → is_running (s.procs s.current_process).state ≡ false
    → (preempt s).procs s.current_process ≡ s.procs s.current_process
preempt_idle s idle =
    let go : (not (s.current_process == 0) && is_running (s.procs s.current_process).state)
        ≡ false =
      ground (arith, idle) in
    rw go refl

preempt_other : (s : Procs) (a : ℕ) → a ≢ s.current_process → (preempt s).procs a ≡ s.procs a
preempt_other s a ne =
    let far : (a == s.current_process) ≡ false = ground (arith, ne) in
    elim (Bool-cases
      (not (s.current_process == 0) && is_running (s.procs s.current_process).state)) [
        | inl stop ↦ rw stop (rw far refl)
        | inr go ↦ rw go refl
      ]

preempt_ready :
    (s : Procs) (m : ℕ) → is_ready (s.procs m).state ≡ true → (preempt s).procs m ≡ s.procs m
preempt_ready s m ready = elim (Bool-cases (m == s.current_process)) [
  | inr far ↦ preempt_other s m (ground (arith, far))
  | inl here ↦
      let same : s.current_process ≡ m = ground (arith, here) in
      let idle : is_running (s.procs s.current_process).state ≡ false =
        ap (λ t. is_running (s.procs t).state) same
        ∙ ready_is_not_running (s.procs m).state ready in
      let none_left : (not (s.current_process == 0) && is_running (s.procs s.current_process).state)
          ≡ false =
        ground (arith, idle) in
      rw none_left refl
]

abbrev second_go : ℕ → ℕ
second_go vruntime = if vruntime == 0 then 1 else vruntime

pub not_current :
    (s : Procs) (m : ℕ)
    → is_ready (s.procs m).state ≡ true
    → is_running (s.procs s.current_process).state ≡ true
    → s.current_process ≢ m
not_current s m ready run same = absurd (
    cc (
      run,
      ap (λ t. is_running (s.procs t).state) same,
      ready_is_not_running (s.procs m).state ready,
    ))

-- Of the process chosen and the others.
Dispatched-preempt :
    (s : Procs) (m : ℕ) (r : Procs × Option (ℕ × ℕ))
    → is_ready (s.procs m).state ≡ true
    → (r.0.current_process ≡ m) × (r.0.tss_esp0 ≡ (s.procs m).esp0)
    → r.0.procs m
      ≡ record (s.procs m) { state = proc_running; vruntime = second_go (s.procs m).vruntime }
    → ((a : ℕ) → a ≢ m → r.0.procs a ≡ (preempt s).procs a)
    → r.1 ≡ (
        if (s.procs m).vruntime == 0
        then some ((s.procs m).user_eip, (s.procs m).user_esp)
        else none)
    → Dispatched s m r
Dispatched-preempt s m r ready set running rest entered = record {
  current = set.0;
  stack = set.1;
  running = running;
  preempted =
      λ there run. rest s.current_process (not_current s m ready run) ∙ preempt_current s there run;
  idle = λ ne stopped. rest s.current_process ne ∙ preempt_idle s stopped;
  others = λ a far away. rest a far ∙ preempt_other s a away;
  entered = entered;
}

put_proc_far : (procs : ℕ → Proc) (m a : ℕ) (new : Proc) → a ≢ m → put_proc procs m new a ≡ procs a
put_proc_far procs m a new ne = let far : (a == m) ≡ false = ground (arith, ne) in rw far refl

dispatch-Dispatched :
    (s : Procs) (m : ℕ)
    → is_ready (s.procs m).state ≡ true
    → Dispatched s m (dispatch (preempt s) m)
dispatch-Dispatched s m ready =
    let same = preempt_ready s m ready in
    let here : (m == m) ≡ true = ground arith in
    elim (Bool-cases ((s.procs m).vruntime == 0)) [
      | inl first ↦
          rw (same, first)
            (Dispatched-preempt s m _ ready (refl, refl) (rw (here, first) refl)
              (λ a ne. put_proc_far (preempt s).procs m a _ ne) (rw first refl))
      | inr again ↦
          rw (same, again)
            (Dispatched-preempt s m _ ready (refl, refl) (rw (here, again) refl)
              (λ a ne. put_proc_far (preempt s).procs m a _ ne) (rw again refl))
    ]

none_ready :
    (procs : ℕ → Proc) (xs : List ℕ)
    → NoneOf (better procs 0) xs
    → NoneOf (λ a. is_ready (procs a).state) xs
none_ready procs [] none_better = tt
none_ready procs (x ∷ xs) none_better =
    (ground (arith, none_better.0), none_ready procs xs none_better.1)

-- From a queue that ends, with fuel for one more round than it has processes, `schedule_process`
-- returns or enters ring 3. It changes nothing if no process of the queue is ready; otherwise it
-- takes the first of the ready ones with the least vruntime, which runs then on its own kernel
-- stack and, if its vruntime was 0, is entered with a vruntime of 1; the one that was running
-- is ready, and every other process is as before.
pub schedule_process-Least :
    (xs : List ℕ) (fuel : ℕ) (s : Procs)
    → Chain s.procs s.sched_queue xs
    → length xs < fuel
    → NoneOf (λ a. is_ready (s.procs a).state) xs × (schedule_process fuel s ≡ some (s, none))
      ⊎ ((m : ℕ) × (r : Procs × Option (ℕ × ℕ)) × Least s.procs xs 0 m
          × (schedule_process fuel s ≡ some r)
          × Dispatched s m r)
unfolding schedule_process
schedule_process-Least [] fuel s c h =
    inl (tt, let empty : (s.sched_queue == 0) ≡ true = ground (arith, c) in rw empty refl)
schedule_process-Least (x ∷ xs) fuel s c h =
    let full : (s.sched_queue == 0) ≡ false = ground (arith, c.0, c.1) in
    elim (pick-Picked (x ∷ xs) fuel s.procs s.sched_queue 0 c h) [
      | inl (others, run) ↦ inl (none_ready s.procs (x ∷ xs) others, rw (full, run) refl)
      | inr (m, l, run) ↦
          let there : (m == 0) ≡ false = ground (arith, l.some_proc) in
          inr (
            m,
            dispatch (preempt s) m,
            l,
            rw (full, run) (rw there refl),
            dispatch-Dispatched s m (ground (arith, l.chosen)),
          )
    ]
