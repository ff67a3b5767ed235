-- ===== src/Elf/Create/Outcome.antt =====
-- The ends of `process_create`: what it returns, and what has then changed.
use dionnex.Base.{
  ℕ, suc, ◌+◌, ◌<◌, ◌≡◌, ◌≢◌, refl, ◌⊎◌, inl, inr, true, false, not, some, List, ◌∷◌, ◌==◌, length,
  arith, Bool-cases,
}
use dionnex.Base.Int.{pos, negsuc}
use dionnex.Elf.{Space, elf_validate, elf_get_entry, load_segments, elf_load_segments}
use dionnex.Machine.{half, word}
use dionnex.Pmm.{pmm_alloc_page}
use dionnex.Process.{Procs, proc_ready, put_proc, process_get_count, process_get_by_pid}
use dionnex.Process.Links.{
  Chain, Chain-put, is_in, process_get_count-length, process_get_by_pid-head,
}
use dionnex.Strings.Number.{u32}
use dionnex.Elf.Create.{give_up, new_process, finish_process, process_create, process_space}

-- The conditions of the three ends of `process_create`, of which exactly one holds: no executable or
-- no memory for the structure; then no page, no loaded executable or no kernel stack; or all of it.
module _ (space : Space) (file size proc kernel_stack : ℕ) where
  abbrev pub Refused : Type 0
  Refused = (elf_validate space.mem file size ≡ false) ⊎ (proc ≡ 0)

  abbrev pub Failed : Type 0
  Failed =
      (elf_validate space.mem file size ≡ true)
      × (proc ≢ 0)
      × (((pmm_alloc_page space.pages).0 ≡ 0)
          ⊎ (((elf_load_segments (process_space space) file size).1 ≡ negsuc 0)
              ⊎ (kernel_stack ≡ 0)))

  abbrev pub Succeeded : Type 0
  Succeeded =
      (elf_validate space.mem file size ≡ true)
      × (proc ≢ 0)
      × ((pmm_alloc_page space.pages).0 ≢ 0)
      × ((elf_load_segments (process_space space) file size).1 ≡ pos 0)
      × (kernel_stack ≢ 0)

-- Nothing at all.
abbrev pub Unchanged : Procs → Space → Procs → Space → ℕ → Type 0
Unchanged s space s' space' made = (s' ≡ s) × (space' ≡ space) × (made ≡ 0)

-- No process: the list is as it was, the structure has been freed, and its pid is used up.
pub record NotMade (s : Procs) (proc : ℕ) (s' : Procs) (made : ℕ) : Type 0 where
  none_made : made ≡ 0
  same_list : s'.proc_list ≡ s.proc_list
  same_procs : s'.procs ≡ s.procs
  given_up : s'.freed ≡ proc ∷ s.freed
  next_pid : s'.next_pid ≡ u32 (s.next_pid + 1)

-- A process at the head of the list, found by its pid, ready to run at the entry of the file on its
-- own stacks, over the space that the executable was loaded into.
pub record Made (fuel : ℕ) (s : Procs) (space : Space) (file size proc kernel_stack : ℕ)
    (xs : List ℕ) (s' : Procs) (space' : Space) (made : ℕ) : Type 0 where
  address : made ≡ proc
  chain : Chain s'.procs s'.proc_list (proc ∷ xs)
  count : process_get_count (suc fuel) s' ≡ some (suc (length xs))
  found : process_get_by_pid (suc fuel) s' s.next_pid ≡ some proc
  ready : (s'.procs proc).state ≡ proc_ready
  entry : (s'.procs proc).user_eip ≡ elf_get_entry space'.mem file
  kernel : (s'.procs proc).esp0 ≡ u32 (kernel_stack + 8192)
  others : (a : ℕ) → a ≢ proc → s'.procs a ≡ s.procs a
  kept : s'.freed ≡ s.freed
  next_pid : s'.next_pid ≡ u32 (s.next_pid + 1)
  filled : space' ≡ (elf_load_segments (process_space space) file size).0

elf_load_segments-result :
    (space : Space) (file size : ℕ)
    → ((elf_load_segments space file size).1 ≡ pos 0)
      ⊎ ((elf_load_segments space file size).1 ≡ negsuc 0)
unfolding elf_load_segments
elf_load_segments-result space file size =
    let (s', loaded) =
      load_segments (half space.mem (u32 (file + 44))) space file size
        (u32 (file + word space.mem (u32 (file + 28)))) in
    elim (Bool-cases (not (elf_validate space.mem file size))) [
      | inl bad ↦ inr (rw bad refl)
      | inr good ↦ elim (Bool-cases loaded) [
        | inl all ↦ inl (rw (good, all) refl)
        | inr some_lost ↦ inr (rw (good, some_lost) refl)
      ]
    ]

module _ (fuel : ℕ) (s : Procs) (space : Space) (file size proc kernel_stack : ℕ) (xs : List ℕ)
    (c : Chain s.procs s.proc_list xs) (fresh : is_in proc xs ≡ false)
    (enough : length xs < fuel) where
  linked :
      proc ≢ 0
      → let loaded = elf_load_segments (process_space space) file size in
        let s' : Procs = record s {
          next_pid = u32 (s.next_pid + 1);
          procs =
              put_proc s.procs proc
                (new_process s s.next_pid (elf_get_entry loaded.0.mem file) kernel_stack);
          proc_list = proc;
        } in
        Made fuel s space file size proc kernel_stack xs s' loaded.0 proc
  linked some_proc =
      let loaded = elf_load_segments (process_space space) file size in
      let new = new_process s s.next_pid (elf_get_entry loaded.0.mem file) kernel_stack in
      let s' : Procs = record s {
        next_pid = u32 (s.next_pid + 1);
        procs = put_proc s.procs proc new;
        proc_list = proc;
      } in
      let chain = Chain-put s.procs s.proc_list xs proc new some_proc fresh refl c in
      let here : (proc == proc) ≡ true = ground arith in
      record {
        address = refl;
        chain = chain;
        count = process_get_count-length (proc ∷ xs) (suc fuel) s' chain (omega (arith, enough));
        found = process_get_by_pid-head fuel s' s.next_pid some_proc (rw here refl);
        ready = rw here refl;
        entry = rw here refl;
        kernel = rw here refl;
        others = λ a ne. let other : (a == proc) ≡ false = ground (arith, ne) in rw other refl;
        kept = refl;
        next_pid = refl;
        filled = refl;
      }

  -- On a list of processes that ends, in which `proc` is not: `process_create` of no executable, or
  -- with no memory for the structure, changes nothing and returns NULL. If then there is no page for
  -- the directory, the segments cannot be loaded or there is no kernel stack, it returns NULL, keeps
  -- the processes and their list, and has freed the structure. Otherwise it returns the new process,
  -- which is ready to run at the entry of the executable with the end of its kernel stack, is the
  -- head of the list before the others, which stay as they are, is counted with them and found by its
  -- pid; nothing is freed, and the space is the one that the segments were loaded into.
  pub process_create-Made :
      let (s', space', made) = process_create s space file size proc kernel_stack in
      Refused space file size proc kernel_stack × Unchanged s space s' space' made
      ⊎ (Failed space file size proc kernel_stack × NotMade s proc s' made
          ⊎ Succeeded space file size proc kernel_stack
            × Made fuel s space file size proc kernel_stack xs s' space' made)
  unfolding process_create finish_process process_space
  process_create-Made = elim (Bool-cases (not (elf_validate space.mem file size))) [
    | inl bad ↦ inl ((inl (ground (arith, bad)), rw bad (refl, refl, refl)))
    | inr good ↦ elim (Bool-cases (proc == 0)) [
      | inl lost ↦ inl ((inr (ground (arith, lost)), rw (good, lost) (refl, refl, refl)))
      | inr there ↦
          let valid : elf_validate space.mem file size ≡ true = ground (arith, good) in
          let some_proc : proc ≢ 0 = λ z. absurd (ground (arith, there, z)) in
          elim (Bool-cases ((pmm_alloc_page space.pages).0 == 0)) [
            | inl full ↦ inr (
                inl (
                  (valid, some_proc, inl (ground (arith, full))),
                  rw (good, there) (rw full not_made),
                ))
            | inr page ↦
                let some_page : (pmm_alloc_page space.pages).0 ≢ 0 =
                  λ z. absurd (ground (arith, page, z)) in
                elim (elf_load_segments-result (process_space space) file size) [
                  | inr bad ↦ inr (
                      inl (
                        (valid, some_proc, inr (inl bad)),
                        rw (good, there) (rw page (rw bad not_made)),
                      ))
                  | inl loaded ↦ elim (Bool-cases (kernel_stack == 0)) [
                    | inl none_left ↦ inr (
                        inl (
                          (valid, some_proc, inr (inr (ground (arith, none_left)))),
                          rw (good, there) (rw page (rw loaded (rw none_left not_made))),
                        ))
                    | inr stack ↦ inr (
                        inr (
                          (
                            valid,
                            some_proc,
                            some_page,
                            loaded,
                            (λ z. absurd (ground (arith, stack, z))),
                          ),
                          rw (good, there) (rw page (rw loaded (rw stack (linked some_proc)))),
                        ))
                  ]
                ]
          ]
    ]
  ]
    where
      not_made : NotMade s proc (give_up (record s { next_pid = u32 (s.next_pid + 1) }) proc) 0
      not_made = record {
        none_made = refl;
        same_list = refl;
        same_procs = refl;
        given_up = refl;
        next_pid = refl;
      }
