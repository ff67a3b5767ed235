-- ===== src/Elf/Create.antt =====
-- kernel/process.c, `process_create`, and what it does to the list of processes. `proc` and
-- `kernel_stack` are what the calls of `kmalloc` return, and the pages that `kmalloc` may take are not
-- counted. The process records are a store of their own, which no byte of a segment reaches. The name, the directory, the entry and the
-- descriptors of a process are left out of its record.
pub mod Outcome
use dionnex.Base.{
  ℕ, zero, suc, ◌+◌, ◌-◌, ◌*◌, ◌<◌, ◌≡◌, ◌≢◌, refl, ◌⊎◌, inl, inr, true, false, not, some, List,
  ◌∷◌, if◌then◌else◌, ◌==◌, length, arith, Bool-cases,
}
use dionnex.Base.Int.{ℤ, pos, negsuc}
use dionnex.Elf.{Space, elf_validate, elf_get_entry, load_segments, elf_load_segments}
use dionnex.Machine.{half, word, set_bytes}
use dionnex.Pmm.{Pmm, pmm_alloc_page}
use dionnex.Process.{Proc, Procs, proc_ready, put_proc, process_get_count, process_get_by_pid}
use dionnex.Process.Links.{
  Chain, Chain-put, is_in, process_get_count-length, process_get_by_pid-head,
}
use dionnex.Strings.Number.{u32}
use dionnex.Syscall.{map_pages}
use dionnex.Vmm.{Vmm, vmm_map_page}

-- PROC_STACK_BASE - PROC_STACK_SIZE, PROC_STACK_BASE - 16 and PROC_HEAP_BASE
abbrev stack_bottom : ℕ
stack_bottom = 0xBFFFFFFF - 0x100000

abbrev pub user_stack : ℕ
user_stack = 0xBFFFFFEF

abbrev pub proc_heap_base : ℕ
proc_heap_base = 0x08100000

-- The loop that maps the first 4 MB, with the rounds that are left.
map_kernel : ℕ → Vmm → Pmm → ℕ → Vmm × Pmm
map_kernel zero tables pages addr = (tables, pages)
map_kernel (suc n) tables pages addr =
    let (tables', pages') = vmm_map_page tables pages addr addr 3 in
    map_kernel n tables' pages' (addr + 4096)

-- The pages for the kernel, the stack and the heap.
abbrev map_process : Vmm → Pmm → Vmm × Pmm
map_process tables pages =
    let (tables₁, pages₁) = map_kernel 1024 tables pages 0 in
    let (tables₂, pages₂) = map_pages 256 tables₁ pages₁ stack_bottom 0 in
    map_pages 16 tables₂ pages₂ proc_heap_base 0

abbrev pub give_up : Procs → ℕ → Procs
give_up s proc = record s { freed = proc ∷ s.freed }

abbrev pub new_process : Procs → ℕ → ℕ → ℕ → Proc
new_process s pid entry kernel_stack = record {
  pid = pid;
  state = proc_ready;
  esp0 = u32 (kernel_stack + 8192);
  kernel_stack = kernel_stack;
  user_esp = user_stack;
  user_eip = entry;
  brk = proc_heap_base;
  brk_max = proc_heap_base + 16 * 4096;
  exit_code = 0;
  vruntime = 0;
  parent = 0;
  next = s.proc_list;
}

-- From the result of `elf_load_segments` on, for a process with the given pid.
pub finish_process : Procs → ℕ → ℕ → ℕ → ℕ → ℤ → Procs × ℕ
finish_process s proc pid entry kernel_stack (negsuc n) = (give_up s proc, 0)
finish_process s proc pid entry kernel_stack (pos (suc n)) = (give_up s proc, 0)
finish_process s proc pid entry kernel_stack (pos zero) =
    if kernel_stack == 0 then (give_up s proc, 0) else (
      record s {
        procs = put_proc s.procs proc (new_process s pid entry kernel_stack);
        proc_list = proc;
      },
      proc,
    )

-- The process, its address being the last of the results, or 0.
pub process_create : Procs → Space → ℕ → ℕ → ℕ → ℕ → Procs × Space × ℕ
process_create s space file size proc kernel_stack =
    if not (elf_validate space.mem file size)
    then (s, space, 0)
    else if proc == 0
    then (s, space, 0)
    else let counted = record s { next_pid = u32 (s.next_pid + 1) } in
      let (directory, pages) = pmm_alloc_page space.pages in
      if directory == 0
      then (give_up counted proc, record space { pages = pages }, 0)
      else let (tables, pages') = map_process space.tables pages in
        let cleared : Space = record {
          mem = set_bytes space.mem directory 0 4096;
          tables = tables;
          pages = pages';
        } in
        let (filled, result) = elf_load_segments cleared file size in
        let (s', made) =
          finish_process counted proc s.next_pid (elf_get_entry filled.mem file) kernel_stack
            result in
        (s', filled, made)

-- What the executable is loaded into: the new directory is cleared and the pages are mapped.
pub process_space : Space → Space
process_space space =
    let (directory, pages) = pmm_alloc_page space.pages in
    let (tables, pages') = map_process space.tables pages in
    record { mem = set_bytes space.mem directory 0 4096; tables = tables; pages = pages' }
