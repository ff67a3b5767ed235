-- ===== src/Process/Tick.antt =====
-- `sched_proc_tick`.
use dionnex.Base.{
  ℕ, ◌+◌, ◌<◌, ◌≡◌, ◌≢◌, refl, sym, ap, ◌∙◌, inl, inr, Bool, true, false, Option, some, List, [],
  ◌∷◌, ◌++◌, ◌==◌, length, arith, Bool-cases,
}
use dionnex.Strings.Number.{u32}
use dionnex.Process.{
  proc_ready, is_ready, is_running, Proc, Procs, put_proc, schedule_process, sched_proc_tick,
}
use dionnex.Process.Links.{Chain, Chain-same, is_in}
use dionnex.Process.Pick.{NoneOf}
use dionnex.Process.Dispatch.{not_current, schedule_process-Least}

none-is_in : (f : ℕ → Bool) (a : ℕ) (xs : List ℕ) → NoneOf f xs → is_in a xs ≡ true → f a ≡ false
none-is_in f a [] all member = absurd (ground (arith, member))
none-is_in f a (x ∷ xs) all member = elim (Bool-cases (x == a)) [
  | inl here ↦ let same : x ≡ a = ground (arith, here) in rw same at all.0
  | inr far ↦ none-is_in f a xs all.1 (ground (arith, member, far))
]

is_in-middle : (m : ℕ) (pre post : List ℕ) → is_in m (pre ++ (m ∷ post)) ≡ true
is_in-middle m [] post = ground arith
is_in-middle m (x ∷ pre) post = ground (arith, is_in-middle m pre post)

charged : Procs → Procs
charged s =
    let p = s.procs s.current_process in
    record s {
      procs = put_proc s.procs s.current_process (record p { vruntime = u32 (p.vruntime + 10) });
    }

-- Charging changes a vruntime only.
charged_next : (s : Procs) (a : ℕ) → ((charged s).procs a).next ≡ (s.procs a).next
unfolding charged
charged_next s a = elim (Bool-cases (a == s.current_process)) [
  | inl here ↦
      let same : a ≡ s.current_process = ground (arith, here) in
      rw here (ap (λ t. (s.procs t).next) (sym same))
  | inr far ↦ rw far refl
]

charged_state : (s : Procs) (a : ℕ) → ((charged s).procs a).state ≡ (s.procs a).state
unfolding charged
charged_state s a = elim (Bool-cases (a == s.current_process)) [
  | inl here ↦
      let same : a ≡ s.current_process = ground (arith, here) in
      rw here (ap (λ t. (s.procs t).state) (sym same))
  | inr far ↦ rw far refl
]

charged_vruntime :
    (s : Procs)
    → ((charged s).procs s.current_process).vruntime
      ≡ u32 ((s.procs s.current_process).vruntime + 10)
unfolding charged
charged_vruntime s =
    let here : (s.current_process == s.current_process) ≡ true = ground arith in rw here refl

tick-charged :
    (fuel : ℕ) (s : Procs)
    → s.current_process ≢ 0
    → is_running (s.procs s.current_process).state ≡ true
    → sched_proc_tick fuel s ≡ schedule_process fuel (charged s)
unfolding sched_proc_tick charged
tick-charged fuel s there run =
    let e : (s.current_process == 0) ≡ false = ground (arith, there) in rw (e, run) refl

-- A tick takes the processor from the process that runs, whatever its vruntime, as soon as another
-- of a queue that ends is ready; the processor goes to one of the queue, and the one before is ready
-- with 10 more.
pub sched_proc_tick-yields :
    (xs : List ℕ) (fuel : ℕ) (s : Procs) (a : ℕ)
    → Chain s.procs s.sched_queue xs
    → length xs < fuel
    → s.current_process ≢ 0
    → is_running (s.procs s.current_process).state ≡ true
    → is_in a xs ≡ true
    → is_ready (s.procs a).state ≡ true
    → (r : Procs × Option (ℕ × ℕ)) × (sched_proc_tick fuel s ≡ some r)
      × (r.0.current_process ≢ s.current_process)
      × (is_in r.0.current_process xs ≡ true)
      × ((r.0.procs s.current_process).state ≡ proc_ready)
      × ((r.0.procs s.current_process).vruntime ≡ u32 ((s.procs s.current_process).vruntime + 10))
unfolding charged
sched_proc_tick-yields xs fuel s a c h there run member ready =
    let s' = charged s in
    let chain = Chain-same s.procs s'.procs xs s.sched_queue (λ b w. charged_next s b) c in
    let run' : is_running (s'.procs s.current_process).state ≡ true =
      ap is_running (charged_state s s.current_process) ∙ run in
    let ready' : is_ready (s'.procs a).state ≡ true = ap is_ready (charged_state s a) ∙ ready in
    elim (schedule_process-Least xs fuel s' chain h) [
      | inl (no_one, same) ↦
          absurd (
            ground
              (arith, none-is_in (λ b. is_ready (s'.procs b).state) a xs no_one member, ready'))
      | inr (m, r, l, result, d) ↦
          let chosen : is_ready (s'.procs m).state ≡ true = ground (arith, l.chosen) in
          let before = d.preempted there run' in
          (
            r,
            tick-charged fuel s there run ∙ result,
            λ e. not_current s' m chosen run' (sym e ∙ d.current),
            rw (d.current, l.split) (is_in-middle m l.pre l.post),
            ap (λ (p : Proc). p.state) before,
            ap (λ (p : Proc). p.vruntime) before ∙ charged_vruntime s,
          )
    ]
