-- ===== src/Sched.antt =====
-- sched/scheduler.c and sched/task.c: tasks, the list of tasks, and the choice of the next one. A
-- task is known by the address of its record. The list is the sequence of these addresses in the
-- order of their `next` pointers; `task_list_head` is NULL when it is empty. `context_switch`
-- (sched/switch.asm) is recorded as a result: from which task to which.
pub mod Chain
pub mod Pick
pub mod Switch
pub mod Running
pub mod Boot
use dionnex.Base.{
  ℕ, zero, suc, ◌+◌, ◌-◌, ◌*◌, ◌^◌, ◌&&◌, ◌||◌, Bool, true, false, not, Option, none, some, List,
  [], ◌∷◌, ◌++◌, if◌then◌else◌, ltb, ◌==◌, length,
}
use dionnex.Strings.Number.{u32}
use dionnex.Pmm.{Pmm, pmm_alloc_page, pmm_free_page}

pub data TaskState : Type 0 where
  running : TaskState
  ready : TaskState
  blocked : TaskState
  dead : TaskState

abbrev pub is_running : TaskState → Bool
is_running running = true
is_running ready = false
is_running blocked = false
is_running dead = false

abbrev pub is_dead : TaskState → Bool
is_dead running = false
is_dead ready = false
is_dead blocked = false
is_dead dead = true

-- `curr->state == TASK_READY || curr->state == TASK_RUNNING`
abbrev pub is_runnable : TaskState → Bool
is_runnable running = true
is_runnable ready = true
is_runnable blocked = false
is_runnable dead = false

-- `struct task`, less `next`; the name up to its NUL.
pub record Task : Type 0 where
  pub pid : ℕ
  pub name : List ℕ
  pub state : TaskState
  pub esp : ℕ
  pub stack_base : ℕ
  pub vruntime : ℕ
  pub priority : ℕ

pub record Sched : Type 0 where
  pub tasks : ℕ → Task
  pub chain : List ℕ
  pub current : Option ℕ
  pub next_pid : ℕ

abbrev pub put_task : (ℕ → Task) → ℕ → Task → ℕ → Task
put_task tasks at t a = if a == at then t else tasks a

unfoldable pub is_in : ℕ → List ℕ → Bool
is_in a [] = false
is_in a (x ∷ xs) = x == a || is_in a xs

-- The loop of `scheduler_add_task` from `curr` at the head of the list: it stops at the task itself
-- before the last one; the last one is not compared, but appended to itself it stays the last.
pub add_from : ℕ → List ℕ → List ℕ
add_from task [] = []
add_from task (a ∷ []) = if a == task then a ∷ [] else a ∷ (task ∷ [])
add_from task (a ∷ (b ∷ rest)) =
    let next = a ∷ add_from task (b ∷ rest) in if a == task then a ∷ (b ∷ rest) else next

-- `task` is not NULL.
pub scheduler_add_task : Sched → ℕ → Sched
scheduler_add_task s task = if task == 0 then s else record s { chain = add_from task s.chain }

-- The head is compared first, then each `next`.
pub remove_from : ℕ → List ℕ → List ℕ
remove_from task [] = []
remove_from task (a ∷ rest) =
    let next = a ∷ remove_from task rest in if a == task then rest else next

pub scheduler_remove_task : Sched → ℕ → Sched
scheduler_remove_task s task =
    if task == 0 then s else record s { chain = remove_from task s.chain }

pub scheduler_get_task_count : Sched → ℕ
scheduler_get_task_count s = u32 (length s.chain)

-- The loop of `schedule` with `min_task` and `min_vruntime`.
pub pick : (ℕ → Task) → List ℕ → Option ℕ → ℕ → Option ℕ
pick tasks [] min_task min_vruntime = min_task
pick tasks (a ∷ rest) min_task min_vruntime =
    let better = is_runnable (tasks a).state && ltb (tasks a).vruntime min_vruntime in
    pick tasks rest (if better then some a else min_task)
      (if better then (tasks a).vruntime else min_vruntime)

-- `prev->state = TASK_READY; prev->vruntime += (10 - prev->priority);` for a running task.
abbrev pub charge : Task → Task
charge t =
    if is_running t.state
    then record t { state = ready; vruntime = u32 (t.vruntime + u32 (10 + 2 ^ 32 - t.priority)) }
    else t

abbrev pub run_task : Task → Task
run_task t = record t { state = running }

-- The change of tasks; the pair is the call `context_switch(&prev->esp, current_task->esp)`.
pub switch_to : Sched → ℕ → ℕ → Sched × Option (ℕ × ℕ)
switch_to s prev next =
    let charged = put_task s.tasks prev (charge (s.tasks prev)) in
    if next == prev then (s, none) else (
      record s { tasks = put_task charged next (run_task (charged next)); current = some next },
      some (prev, next),
    )

-- The list that `schedule` searches.
abbrev pub cleaned : Sched → ℕ → Sched
cleaned s current = if is_dead (s.tasks current).state then scheduler_remove_task s current else s

abbrev pub nonempty : List ℕ → Bool
nonempty [] = false
nonempty (a ∷ rest) = true

-- `schedule` with `current` on the processor.
pub reschedule : Sched → ℕ → Sched × Option (ℕ × ℕ)
reschedule s current =
    let s' = cleaned s current in
    if nonempty s.chain
    then elim (pick s'.tasks s'.chain none 0xFFFFFFFF) [
      | none ↦ (s', none)
      | some next ↦ switch_to s' current next
    ]
    else (s, none)

pub schedule : Sched → Sched × Option (ℕ × ℕ)
schedule s = elim s.current [ none ↦ (s, none) | some current ↦ reschedule s current ]

pub task_exit : Sched → Sched × Option (ℕ × ℕ)
task_exit s = elim s.current [
  | none ↦ (s, none)
  | some current ↦
      schedule
        (record s { tasks = put_task s.tasks current (record (s.tasks current) { state = dead }) })
]

-- The loop of `strncpy_manual` with room for `n` characters before the NUL; the text it writes.
pub strncpy_manual : List ℕ → ℕ → List ℕ
strncpy_manual [] n = []
strncpy_manual (c ∷ src) zero = []
strncpy_manual (c ∷ src) (suc n) =
    let rest = c ∷ strncpy_manual src n in if c == 0 then [] else rest

abbrev kernel_idle : List ℕ
kernel_idle =
    b'k'
    ∷ (b'e' ∷ (b'r' ∷ (b'n' ∷ (b'e' ∷ (b'l' ∷ (b'_' ∷ (b'i' ∷ (b'd' ∷ (b'l' ∷ (b'e' ∷ []))))))))))

-- The task that boots, `kernel_task`, stands at `kernel_task`.
pub task_init : Sched → ℕ → Sched
task_init s kernel_task = record {
  tasks = put_task s.tasks kernel_task (record {
    pid = 0;
    name = strncpy_manual kernel_idle 31;
    state = running;
    esp = 0;
    stack_base = 0;
    vruntime = 0;
    priority = 0;
  });
  chain = kernel_task ∷ [];
  current = some kernel_task;
  next_pid = 1;
}

-- The words of memory, by address.
abbrev put_word : (ℕ → ℕ) → ℕ → ℕ → ℕ → ℕ
put_word words at w a = if a == at then w else words a

-- `*(--stack_top) = w`, for each word.
pub push_words : List ℕ → (ℕ → ℕ) × ℕ → (ℕ → ℕ) × ℕ
push_words [] (words, top) = (words, top)
push_words (w ∷ rest) (words, top) =
    let at = u32 (top + 2 ^ 32 - 4) in push_words rest (put_word words at w, at)

abbrev pub task_stack_size : ℕ
task_stack_size = 8192

-- The words of the first frame: `entry`, the flags, and the eight registers.
abbrev pub first_frame : ℕ → List ℕ
first_frame entry = entry ∷ (0x202 ∷ (0 ∷ (0 ∷ (0 ∷ (0 ∷ (0 ∷ (0 ∷ (0 ∷ (0 ∷ [])))))))))

pub record Created : Type 0 where
  pub task : ℕ
  pub sched : Sched
  pub pmm : Pmm
  pub words : ℕ → ℕ

abbrev name_or_task : Option (List ℕ) → List ℕ
name_or_task none = b't' ∷ (b'a' ∷ (b's' ∷ (b'k' ∷ [])))
name_or_task (some name) = name

-- The task is 0 where the code returns NULL. The code walks the list from its head, which the
-- boot task has filled.
pub task_create : Sched → Pmm → (ℕ → ℕ) → Option (List ℕ) → ℕ → ℕ → Created
task_create s p words name entry priority =
    let (task, p') = pmm_alloc_page p in
    let (stack_base, p'') = pmm_alloc_page p' in
    let (words', esp) =
      push_words (first_frame entry) (words, u32 (stack_base + task_stack_size)) in
    let fresh : Task = record {
      pid = s.next_pid;
      name = strncpy_manual (name_or_task name) 31;
      state = ready;
      esp = (s.tasks task).esp;
      stack_base = stack_base;
      vruntime = 0;
      priority = priority;
    } in
    let counted : Sched = record s {
      tasks = put_task s.tasks task fresh;
      next_pid = u32 (s.next_pid + 1);
    } in
    if task == 0
    then record { task = 0; sched = s; pmm = p'; words = words }
    else if stack_base == 0
    then record { task = 0; sched = counted; pmm = pmm_free_page p'' task; words = words }
    else record {
      task = task;
      sched = record counted {
        tasks = put_task s.tasks task (record fresh { esp = esp });
        chain = s.chain ++ (task ∷ []);
      };
      pmm = (pmm_alloc_page p'').1;
      words = words';
    }
