-- ===== src/Process.antt =====
-- kernel/process.c and kernel/scheduler_process.c: the list of processes and the queue that the
-- scheduler walks. Both are linked by the one field `next`; an address of 0 is NULL. A loop that
-- follows `next` has fuel; none is its end. `process_create` is in Elf.Create.
pub mod Links
pub mod Pick
pub mod Dispatch
pub mod Tick
pub mod Queue
use dionnex.Base.{
  ℕ, zero, suc, ◌+◌, ◌&&◌, ◌||◌, Bool, true, false, not, Option, none, some, List, [], ◌∷◌,
  if◌then◌else◌, ltb, ◌==◌, ◌>>=◌,
}
use dionnex.Strings.Number.{u32}

pub data ProcState : Type 0 where
  proc_new : ProcState
  proc_ready : ProcState
  proc_running : ProcState
  proc_blocked : ProcState
  proc_zombie : ProcState
  proc_dead : ProcState

abbrev pub is_ready : ProcState → Bool
is_ready proc_new = false
is_ready proc_ready = true
is_ready proc_running = false
is_ready proc_blocked = false
is_ready proc_zombie = false
is_ready proc_dead = false

abbrev pub is_running : ProcState → Bool
is_running proc_new = false
is_running proc_ready = false
is_running proc_running = true
is_running proc_blocked = false
is_running proc_zombie = false
is_running proc_dead = false

-- The fields of `process_t` that these operations read or write.
pub record Proc : Type 0 where
  pub pid : ℕ
  pub state : ProcState
  pub esp0 : ℕ
  pub kernel_stack : ℕ
  pub user_esp : ℕ
  pub user_eip : ℕ
  pub brk : ℕ
  pub brk_max : ℕ
  pub exit_code : ℕ
  pub vruntime : ℕ
  pub parent : ℕ
  pub next : ℕ

-- The processes by address, the static variables of the two files, the kernel stack that the task
-- state segment names, and the addresses given to `kfree`, the last one first.
pub record Procs : Type 0 where
  pub procs : ℕ → Proc
  pub proc_list : ℕ
  pub current_process : ℕ
  pub next_pid : ℕ
  pub sched_queue : ℕ
  pub tss_esp0 : ℕ
  pub freed : List ℕ

abbrev pub put_proc : (ℕ → Proc) → ℕ → Proc → ℕ → Proc
put_proc procs at p a = if a == at then p else procs a

pub process_init : Procs → Procs
process_init s = record s { proc_list = 0; current_process = 0; next_pid = 1 }

pub sched_proc_init : Procs → Procs
sched_proc_init s = record s { sched_queue = 0 }

pub sched_proc_add : Procs → ℕ → Procs
sched_proc_add s proc = if proc == 0 then s else record s {
  procs =
      put_proc s.procs proc (record (s.procs proc) { state = proc_ready; next = s.sched_queue });
  sched_queue = proc;
}

-- `while (curr->next) { if (curr->next == proc) { curr->next = proc->next; return; } … }`
pub unlink : ℕ → (ℕ → Proc) → ℕ → ℕ → Option (ℕ → Proc)
unlink zero procs curr proc = none
unlink (suc fuel) procs curr proc =
    let rest = unlink fuel procs (procs curr).next proc in
    if (procs curr).next == 0
    then some procs
    else if (procs curr).next == proc
    then some (put_proc procs curr (record (procs curr) { next = (procs proc).next }))
    else rest

pub sched_proc_remove : ℕ → Procs → ℕ → Option Procs
sched_proc_remove fuel s proc =
    if proc == 0 || s.sched_queue == 0
    then some s
    else if s.sched_queue == proc
    then some (record s { sched_queue = (s.procs proc).next })
    else do procs ← unlink fuel s.procs s.sched_queue proc; some (record s { procs = procs })

-- The walk of `schedule_process`.
pub pick : ℕ → (ℕ → Proc) → ℕ → ℕ → Option ℕ
pick zero procs curr best = none
pick (suc fuel) procs curr best =
    let rest = pick fuel procs (procs curr).next (
      if is_ready (procs curr).state
        && (best == 0 || ltb (procs curr).vruntime (procs best).vruntime)
      then curr
      else best) in
    if curr == 0 then some best else rest

-- What the task before becomes.
abbrev pub preempt : Procs → Procs
preempt s =
    let p = s.procs s.current_process in
    if not (s.current_process == 0) && is_running p.state
    then record s { procs = put_proc s.procs s.current_process (record p { state = proc_ready }) }
    else s

-- The process chosen gets the processor; `some` is a jump into ring 3 at its entry and stack, from
-- which `schedule_process` does not return.
abbrev pub dispatch : Procs → ℕ → Procs × Option (ℕ × ℕ)
dispatch s best =
    let p = s.procs best in
    if p.vruntime == 0
    then (
      record s {
        procs = put_proc s.procs best (record p { state = proc_running; vruntime = 1 });
        current_process = best;
        tss_esp0 = p.esp0;
      },
      some (p.user_eip, p.user_esp),
    )
    else (
      record s {
        procs = put_proc s.procs best (record p { state = proc_running });
        current_process = best;
        tss_esp0 = p.esp0;
      },
      none,
    )

pub schedule_process : ℕ → Procs → Option (Procs × Option (ℕ × ℕ))
schedule_process fuel s =
    let walk : Option (Procs × Option (ℕ × ℕ)) = do
      best ← pick fuel s.procs s.sched_queue 0
      if best == 0 then some (s, none) else some (dispatch (preempt s) best)
    in if s.sched_queue == 0 then some (s, none) else walk

pub sched_proc_tick : ℕ → Procs → Option (Procs × Option (ℕ × ℕ))
sched_proc_tick fuel s =
    let p = s.procs s.current_process in
    if not (s.current_process == 0) && is_running p.state
    then schedule_process fuel (record s {
      procs = put_proc s.procs s.current_process (record p { vruntime = u32 (p.vruntime + 10) });
    })
    else some (s, none)

-- `code` is the bit pattern of the `int`.
pub process_exit : ℕ → Procs → ℕ → Option (Procs × Option (ℕ × ℕ))
process_exit fuel s code =
    let p = s.procs s.current_process in
    if s.current_process == 0
    then some (s, none)
    else schedule_process fuel (record s {
      procs =
          put_proc s.procs s.current_process (record p { exit_code = code; state = proc_zombie });
    })

-- The first part of `process_destroy`: out of the list.
pub delist : ℕ → Procs → ℕ → Option Procs
delist fuel s proc =
    if s.proc_list == proc
    then some (record s { proc_list = (s.procs proc).next })
    else if s.proc_list == 0
    then some s
    else do procs ← unlink fuel s.procs s.proc_list proc; some (record s { procs = procs })

pub process_destroy : ℕ → Procs → ℕ → Option Procs
process_destroy fuel s proc =
    let out : Option Procs = do
      s' ← delist fuel s proc
      let p = s'.procs proc
      some (record s' {
        procs = put_proc s'.procs proc (record p { state = proc_dead });
        freed = proc ∷ (if p.kernel_stack == 0 then s'.freed else p.kernel_stack ∷ s'.freed);
      })
    in if proc == 0 then some s else out

pub process_get_current : Procs → ℕ
process_get_current s = s.current_process

pid_from : ℕ → (ℕ → Proc) → ℕ → ℕ → Option ℕ
pid_from zero procs curr pid = none
pid_from (suc fuel) procs curr pid =
    let rest = pid_from fuel procs (procs curr).next pid in
    if curr == 0 then some 0 else if (procs curr).pid == pid then some curr else rest

pub process_get_by_pid : ℕ → Procs → ℕ → Option ℕ
process_get_by_pid fuel s pid = pid_from fuel s.procs s.proc_list pid

pub count_from : ℕ → (ℕ → Proc) → ℕ → Option ℕ
count_from zero procs curr = none
count_from (suc fuel) procs curr =
    let rest : Option ℕ = do n ← count_from fuel procs (procs curr).next; some (suc n)
    in if curr == 0 then some 0 else rest

pub process_get_count : ℕ → Procs → Option ℕ
process_get_count fuel s = count_from fuel s.procs s.proc_list
