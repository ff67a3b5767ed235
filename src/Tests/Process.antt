-- ===== src/Tests/Process.antt =====
-- kernel/process.c and kernel/scheduler_process.c at fixed inputs.
use dionnex.Base.{
  ℕ, ◌≡◌, ◌≢◌, ◌+◌, ◌⊎◌, refl, Option, none, some, true, List, [], ◌∷◌, if◌then◌else◌, ◌==◌, arith,
}
use dionnex.Strings.Number.{u32}
use dionnex.Process.{
  Proc, Procs, ProcState, proc_new, proc_ready, proc_running, is_ready, sched_proc_add,
  sched_proc_tick, schedule_process,
}
use dionnex.Process.Links.{Chain, is_in}
use dionnex.Process.Pick.{NoneOf, Least}
use dionnex.Process.Dispatch.{Dispatched, schedule_process-Least}
use dionnex.Process.Tick.{sched_proc_tick-yields}
use dionnex.Process.Queue.{Queued, sched_proc_add-Queued, sched_proc_add-loop}

abbrev proc : ℕ → ProcState → ℕ → ℕ → Proc
proc pid state vruntime next = record {
  pid = pid;
  state = state;
  esp0 = 0x9000;
  kernel_stack = 0x7000;
  user_esp = 0xBFFFFFEF;
  user_eip = 0x08048000;
  brk = 0x08100000;
  brk_max = 0x08110000;
  exit_code = 0;
  vruntime = vruntime;
  parent = 0;
  next = next;
}

-- The process at 16 runs, the one at 32 is new and ready, the one at 48 is in the list only.
abbrev table : ℕ → Proc
table a =
    if a == 16
    then proc 1 proc_running 30 0
    else if a == 32
    then proc 2 proc_ready 0 16
    else proc 3 proc_new 0 32

abbrev pub two_queued : Procs
two_queued = record {
  procs = table;
  proc_list = 48;
  current_process = 16;
  next_pid = 4;
  sched_queue = 32;
  tss_esp0 = 0x9000;
  freed = [];
}

abbrev queue : List ℕ
queue = 32 ∷ (16 ∷ [])

two_queued-Chain : Chain table 32 queue
two_queued-Chain =
    (refl, (λ e. absurd (omega (arith, e))), (refl, (λ e. absurd (omega (arith, e))), refl))

schedule_process-Least_example :
    NoneOf (λ a. is_ready (table a).state) queue
      × (schedule_process 3 two_queued ≡ some (two_queued, none))
    ⊎ ((m : ℕ) × (r : Procs × Option (ℕ × ℕ)) × Least table queue 0 m
        × (schedule_process 3 two_queued ≡ some r)
        × Dispatched two_queued m r)
schedule_process-Least_example =
    schedule_process-Least queue 3 two_queued two_queued-Chain (omega arith)

sched_proc_tick-yields_example :
    (r : Procs × Option (ℕ × ℕ)) × (sched_proc_tick 3 two_queued ≡ some r)
    × (r.0.current_process ≢ 16)
    × (is_in r.0.current_process queue ≡ true)
    × ((r.0.procs 16).state ≡ proc_ready)
    × ((r.0.procs 16).vruntime ≡ u32 (30 + 10))
sched_proc_tick-yields_example =
    sched_proc_tick-yields queue 3 two_queued 32 two_queued-Chain (omega arith)
      (λ e. absurd (omega (arith, e))) refl refl refl

-- The processes 48 and 32 are listed; once 48 is queued, 32 and 16 stand behind it.
sched_proc_add-Queued_example : Queued (sched_proc_add two_queued 48) [] queue 48
sched_proc_add-Queued_example =
    sched_proc_add-Queued [] queue queue two_queued 48 (λ e. absurd (omega (arith, e))) refl refl
      (refl, (λ e. absurd (omega (arith, e))), two_queued-Chain) two_queued-Chain

sched_proc_add-loop_example : schedule_process 1000 (sched_proc_add two_queued 32) ≡ none
sched_proc_add-loop_example = sched_proc_add-loop 1000 two_queued (λ e. absurd (omega (arith, e)))
