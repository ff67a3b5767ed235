-- ===== src/Sched/Boot.antt =====
-- The tasks from the start on: `task_init`, then calls of `task_create` and `schedule`.
use dionnex.Base.{
  ℕ, ◌/◌, ◌≡◌, ◌≢◌, refl, ap, ◌∙◌, ◌⊎◌, inl, inr, ◌&&◌, ◌||◌, Bool, true, false, Option, none, some,
  List, [], ◌∷◌, ◌++◌, ltb, ◌==◌, arith, Bool-cases,
}
use dionnex.Pmm.{Pmm, page_size, pmm_alloc_page, pmm_free_page}
use dionnex.Pmm.Bitmap.{used}
use dionnex.Pmm.Count.{IsValid}
use dionnex.Pmm.Alloc.{pmm_alloc_page-first, pmm_free_page-Freed}
use dionnex.Sched.Switch.{schedule-some, nonempty-cons, stay}
use dionnex.Sched.{
  Sched, Task, running, is_dead, is_runnable, pick, cleaned, schedule, reschedule, switch_to,
  task_init, task_create,
}

-- An allocator that keeps the page of `addr` in use.
record Keeps (addr : ℕ) (p : Pmm) : Type 0 where
  pub valid : IsValid p
  pub kept : used p.bitmap (addr / page_size) ≡ 1

module _ (addr : ℕ) (p : Pmm) (k : Keeps addr p) where
  alloc-Keeps :
      Keeps addr (pmm_alloc_page p).1
      × ((pmm_alloc_page p).0 ≡ 0 ⊎ (pmm_alloc_page p).0 / page_size ≢ addr / page_size)
  alloc-Keeps = elim (pmm_alloc_page-first k.valid) [
    | inl (at, same, full) ↦ (rw same k, inl at)
    | inr (page, (inside, at, free, first, bits, less, undo, valid)) ↦
        let index : (pmm_alloc_page p).0 / page_size ≡ page = rw at (omega arith) in
        let apart : page ≢ addr / page_size = λ e. absurd (ground (arith, rw e at free, k.kept)) in
        (
          record { valid = valid; kept = ground (arith, bits (addr / page_size), k.kept, apart) },
          inr (rw index apart),
        )
  ]

  free-Keeps : (at : ℕ) → at / page_size ≢ addr / page_size → Keeps addr (pmm_free_page p at)
  free-Keeps at apart =
      let (valid, does) = pmm_free_page-Freed at k.valid in
      elim does [
        | inl (inside, taken, (bits, count)) ↦ record {
          valid = valid;
          kept = ground (arith, bits (addr / page_size), k.kept, apart);
        }
        | inr (why, same) ↦ rw same k
      ]

-- The boot task stands first in the list and is on the processor, with a vruntime of 0.
record Booted (idle : ℕ) (s : Sched) : Type 0 where
  pub current : s.current ≡ some idle
  pub rest : List ℕ
  pub chain : s.chain ≡ idle ∷ rest
  pub state : (s.tasks idle).state ≡ running
  pub vruntime : (s.tasks idle).vruntime ≡ 0

task_init-Booted : (s : Sched) (idle : ℕ) → Booted idle (task_init s idle)
unfolding task_init
task_init-Booted s idle =
    let here : (idle == idle) ≡ true = ground arith in
    record {
      current = refl;
      rest = [];
      chain = refl;
      state = rw here refl;
      vruntime = rw here refl;
    }

pick-zero : (tasks : ℕ → Task) (chain : List ℕ) (a : ℕ) → pick tasks chain (some a) 0 ≡ some a
unfolding pick
pick-zero tasks [] a = refl
pick-zero tasks (b ∷ rest) a =
    let no : (is_runnable (tasks b).state && ltb (tasks b).vruntime 0) ≡ false = ground arith in
    rw no (pick-zero tasks rest a)

picked :
    (tasks : ℕ → Task) (idle : ℕ) (rest : List ℕ)
    → (tasks idle).state ≡ running
    → (tasks idle).vruntime ≡ 0
    → pick tasks (idle ∷ rest) none 0xFFFFFFFF ≡ some idle
unfolding pick
picked tasks idle rest e z = rw (e, z) (pick-zero tasks rest idle)

schedule-Booted : (s : Sched) (idle : ℕ) → Booted idle s → schedule s ≡ (s, none)
unfolding reschedule
schedule-Booted s idle b =
    let full = nonempty-cons s idle b.rest b.chain in
    let here : (idle == idle) ≡ true = ground arith in
    let alive : is_dead (s.tasks idle).state ≡ false = ap is_dead b.state in
    let found : pick s.tasks s.chain none 0xFFFFFFFF ≡ some idle =
      ap (λ c. pick s.tasks c none 0xFFFFFFFF) b.chain
      ∙ picked s.tasks idle b.rest b.state b.vruntime in
    let same : cleaned s idle ≡ s = rw alive refl in
    let found' : pick (cleaned s idle).tasks (cleaned s idle).chain none 0xFFFFFFFF ≡ some idle =
      ap (λ (x : Sched). pick x.tasks x.chain none 0xFFFFFFFF) same ∙ found in
    let back : reschedule s idle ≡ switch_to s idle idle =
      rw (full, found') (ap (λ x. switch_to x idle idle) same) in
    schedule-some s idle b.current ∙ back ∙ stay s idle idle here

task_create-Booted :
    (s : Sched) (p : Pmm) (words : ℕ → ℕ) (name : Option (List ℕ)) (entry priority idle : ℕ)
    → Keeps idle p
    → Booted idle s
    → Keeps idle (task_create s p words name entry priority).pmm
      × Booted idle (task_create s p words name entry priority).sched
unfolding task_create
task_create-Booted s p words name entry priority idle k b =
    let (k', first) = alloc-Keeps idle p k in
    let p' = (pmm_alloc_page p).1 in
    let (k'', second) = alloc-Keeps idle p' k' in
    let task = (pmm_alloc_page p).0 in
    elim (Bool-cases (task == 0)) [
      | inl null ↦ rw null (k', b)
      | inr real ↦ elim first [
        | inl zero_ ↦ absurd (ground (arith, zero_, real))
        | inr far ↦
            let other : (idle == task) ≡ false = ground (arith, far) in
            elim (Bool-cases ((pmm_alloc_page p').0 == 0)) [
              | inl null ↦
                  rw (real, null)
                    (
                      free-Keeps idle (pmm_alloc_page p').1 k'' task far,
                      record {
                        current = b.current;
                        rest = b.rest;
                        chain = b.chain;
                        state = rw other b.state;
                        vruntime = rw other b.vruntime;
                      },
                    )
              | inr there ↦
                  rw (real, there)
                    (
                      (alloc-Keeps idle (pmm_alloc_page p').1 k'').0,
                      record {
                        current = b.current;
                        rest = b.rest ++ (task ∷ []);
                        chain = ap (λ c. c ++ (task ∷ [])) b.chain;
                        state = rw other b.state;
                        vruntime = rw other b.vruntime;
                      },
                    )
            ]
      ]
    ]

-- What the boot task calls.
pub data Call : Type 0 where
  create : (name : Option (List ℕ)) (entry priority : ℕ) → Call
  yield : Call

-- The tasks, the pages and the words of memory, and whether a switch has happened.
pub record Machine : Type 0 where
  pub sched : Sched
  pub pmm : Pmm
  pub words : ℕ → ℕ
  pub switched : Bool

abbrev is_some_switch : Option (ℕ × ℕ) → Bool
is_some_switch none = false
is_some_switch (some pair) = true

pub call : Machine → Call → Machine
call m (create name entry priority) =
    let c = task_create m.sched m.pmm m.words name entry priority in
    record { sched = c.sched; pmm = c.pmm; words = c.words; switched = m.switched }
call m yield =
    let (s, pair) = schedule m.sched in
    record m { sched = s; switched = (m.switched || is_some_switch pair) }

pub calls : Machine → List Call → Machine
calls m [] = m
calls m (c ∷ cs) = calls (call m c) cs

record Stuck (idle : ℕ) (m : Machine) : Type 0 where
  pub booted : Booted idle m.sched
  pub keeps : Keeps idle m.pmm
  pub still : m.switched ≡ false

call-Stuck : (m : Machine) (c : Call) (idle : ℕ) → Stuck idle m → Stuck idle (call m c)
unfolding call
call-Stuck m (create name entry priority) idle k =
    let (keeps, booted) =
      task_create-Booted m.sched m.pmm m.words name entry priority idle k.keeps k.booted in
    record { booted = booted; keeps = keeps; still = k.still }
call-Stuck m yield idle k =
    let same = schedule-Booted m.sched idle k.booted in
    rw same (record { booted = k.booted; keeps = k.keeps; still = rw k.still refl })

calls-Stuck : (m : Machine) (cs : List Call) (idle : ℕ) → Stuck idle m → Stuck idle (calls m cs)
unfolding calls
calls-Stuck m [] idle k = k
calls-Stuck m (c ∷ cs) idle k = calls-Stuck (call m c) cs idle (call-Stuck m c idle k)

abbrev pub boot : Sched → Pmm → (ℕ → ℕ) → ℕ → Machine
boot s p words idle = record { sched = task_init s idle; pmm = p; words = words; switched = false }

-- After `task_init`, with a valid page allocator that holds the page of the boot task, and after any
-- calls of `task_create` and `schedule` by the boot task: it is still the one on the processor, and
-- no call of `schedule` has switched to another.
pub calls-no_switch :
    (s : Sched) (p : Pmm) (words : ℕ → ℕ) (idle : ℕ) (cs : List Call)
    → IsValid p
    → used p.bitmap (idle / page_size) ≡ 1
    → ((calls (boot s p words idle) cs).sched.current ≡ some idle)
      × ((calls (boot s p words idle) cs).switched ≡ false)
calls-no_switch s p words idle cs valid kept =
    let start : Stuck idle (boot s p words idle) = record {
      booted = task_init-Booted s idle;
      keeps = record { valid = valid; kept = kept };
      still = refl;
    } in
    let k = calls-Stuck (boot s p words idle) cs idle start in (k.booted.current, k.still)
