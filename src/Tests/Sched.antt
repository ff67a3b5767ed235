-- ===== src/Tests/Sched.antt =====
-- sched/scheduler.c and sched/task.c at fixed inputs.
use dionnex.Base.{ℕ, ◌≡◌, ◌⊎◌, refl, false, some, none, List, [], ◌∷◌, arith, if◌then◌else◌, ◌==◌}
use dionnex.Tests.Pmm.{two_used, two_used-IsValid}
use dionnex.Sched.{Sched, Task, TaskState, running, ready, is_in, cleaned, schedule}
use dionnex.Sched.Pick.{Least}
use dionnex.Sched.Switch.{Idle, Stays, Switched, schedule-Least}
use dionnex.Sched.Running.{OneRuns, schedule-OneRuns}
use dionnex.Sched.Boot.{Call, create, yield, boot, calls, calls-no_switch}

abbrev task : TaskState → ℕ → Task
task state vruntime = record {
  pid = 1;
  name = [];
  state = state;
  esp = 0;
  stack_base = 0;
  vruntime = vruntime;
  priority = 2;
}

-- The task at 8 runs with a vruntime of 30; the one at 16 is ready with 5.
abbrev two_tasks : Sched
two_tasks = record {
  tasks = λ a. if a == 8 then task running 30 else task ready 5;
  chain = 8 ∷ (16 ∷ []);
  current = some 8;
  next_pid = 2;
}

two_tasks-OneRuns : OneRuns two_tasks
unfolding is_in
two_tasks-OneRuns = record {
  apart = (refl, (refl, tt));
  real = refl;
  only = λ a inside runs. ground (arith, runs);
}

schedule-Least_example :
    Idle two_tasks 8 (schedule two_tasks)
    ⊎ ((m : ℕ) × (pre : List ℕ) × (post : List ℕ) × Least two_tasks.tasks
          (cleaned two_tasks 8).chain
          0xFFFFFFFF
          m
          pre
          post
        × (Stays two_tasks 8 m (schedule two_tasks) ⊎ Switched two_tasks 8 m (schedule two_tasks)))
schedule-Least_example = schedule-Least two_tasks 8 8 (16 ∷ []) refl refl

schedule-OneRuns_example : OneRuns (schedule two_tasks).0
schedule-OneRuns_example = schedule-OneRuns 8 8 (16 ∷ []) refl refl two_tasks-OneRuns

-- Two tasks are created, and the boot task yields between.
abbrev history : List Call
history = create none 0x1000 1 ∷ (yield ∷ (create none 0x2000 5 ∷ (yield ∷ [])))

calls-no_switch_example :
    ((calls (boot two_tasks two_used (λ a. 0) 4200) history).sched.current ≡ some 4200)
    × ((calls (boot two_tasks two_used (λ a. 0) 4200) history).switched ≡ false)
calls-no_switch_example =
    calls-no_switch two_tasks two_used (λ a. 0) 4200 history two_used-IsValid refl
