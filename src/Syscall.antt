-- ===== src/Syscall.antt =====
-- kernel/syscall.c: the handler of interrupt 0x80, and the calls that work on the screen, the
-- keyboard, the processes and the pages. A buffer of a process is read and written by address, as
-- the code does. A result is the bit pattern of the `int32_t`; `none` is a wait for a key, a fault of
-- the screen, or the end of the fuel for the list of processes. Not modelled: fork, open, close,
-- waitpid, exec, gettimeofday, uname, nanosleep and the calls for modules, and so `syscall_init`.
pub mod Read
pub mod Write
pub mod Pages
pub mod Taken
pub mod Mmap
pub mod Break
use dionnex.Base.{
  ℕ, zero, suc, ◌+◌, ◌-◌, ◌*◌, ◌/◌, ◌^◌, ◌&&◌, ◌||◌, Bool, true, false, not, Option, none, some,
  List, [], ◌∷◌, ◌++◌, if◌then◌else◌, ltb, leb, ◌==◌, ◌>>=◌,
}
use dionnex.Keyboard.{Keyboard, keyboard_read}
use dionnex.Machine.{Memory, set_byte}
use dionnex.Pmm.{Pmm, pmm_alloc_page}
use dionnex.Process.{Proc, Procs, proc_zombie, put_proc, process_exit, process_get_by_pid}
use dionnex.Strings.Number.{u32}
use dionnex.Vga.{Vga, vga_putchar}
use dionnex.Vmm.{Vmm, vmm_map_page, vmm_unmap_page}

-- What the calls work on.
pub record Kernel : Type 0 where
  pub processes : Procs
  pub keyboard : Keyboard
  pub screen : Vga
  pub pages : Pmm
  pub tables : Vmm
  pub mem : Memory

abbrev pub minus_one : ℕ
minus_one = 2 ^ 32 - 1

abbrev pub current : Kernel → ℕ
current k = k.processes.current_process

-- A result of `some` next to the state is the jump of `schedule_process` into ring 3.
pub sys_exit : ℕ → Kernel → ℕ → Option (Kernel × Option (ℕ × ℕ))
sys_exit fuel k code = do
  (processes, jump) ← process_exit fuel k.processes code
  some (record k { processes = processes }, jump)

-- The loop of `sys_read_impl`, with the characters that there is room for.
pub read_chars : ℕ → Keyboard → Memory → ℕ → ℕ → Option (Keyboard × Memory × ℕ)
read_chars zero keyboard mem at read_bytes = some (keyboard, mem, read_bytes)
read_chars (suc n) keyboard mem at read_bytes = do
  (c, keyboard') ← keyboard_read keyboard
  if c == 0
      then some (keyboard', mem, read_bytes)
      else if c == 0x0a || c == 0x0d
      then some (keyboard', set_byte mem at c, read_bytes + 1)
      else read_chars n keyboard' (set_byte mem at c) (u32 (at + 1)) (read_bytes + 1)

pub sys_read : Kernel → ℕ → ℕ → ℕ → Option (Kernel × ℕ)
sys_read k fd buf len =
    let typed : Option (Kernel × ℕ) = do
      (keyboard, mem, read_bytes) ← read_chars len k.keyboard k.mem buf 0
      some (record k { keyboard = keyboard; mem = mem }, read_bytes)
    in if buf == 0 || len == 0 then some (k, 0) else if fd == 0 then typed else some (k, minus_one)

-- The loop of `sys_write_impl`, with the characters that are left.
pub write_chars : ℕ → Vga → Memory → ℕ → Option Vga
write_chars zero screen mem s = some screen
write_chars (suc n) screen mem s = do
  screen' ← vga_putchar screen (mem s)
  write_chars n screen' mem (u32 (s + 1))

pub sys_write : Kernel → ℕ → ℕ → ℕ → Option (Kernel × ℕ)
sys_write k fd buf len =
    let written : Option (Kernel × ℕ) = do
      screen ← write_chars len k.screen k.mem buf
      some (record k { screen = screen }, len)
    in if buf == 0
      then some (k, minus_one)
      else if fd == 1 || fd == 2
      then written
      else some (k, minus_one)

-- VMM_PRESENT | VMM_WRITABLE | VMM_USER
abbrev pub user_page : ℕ
user_page = 7

-- The loop of `sys_sbrk_impl` and `sys_mmap_impl`, with the pages that are left, from page `i` on.
pub map_pages : ℕ → Vmm → Pmm → ℕ → ℕ → Vmm × Pmm
map_pages zero tables pages start i = (tables, pages)
map_pages (suc n) tables pages start i =
    let (paddr, pages') = pmm_alloc_page pages in
    let (tables', pages'') =
      if paddr == 0
      then (tables, pages')
      else vmm_map_page tables pages' (u32 (start + i * 4096)) paddr user_page in
    map_pages n tables' pages'' start (i + 1)

-- `(len + 4095) / 4096`
abbrev pub page_count : ℕ → ℕ
page_count len = u32 (len + 4095) / 4096

pub sys_sbrk : Kernel → ℕ → Kernel × ℕ
sys_sbrk k increment =
    let p = k.processes.procs (current k) in
    let moved = u32 (p.brk + increment) in
    if current k == 0
    then (k, minus_one)
    else if leb moved p.brk_max
    then (
      record k {
        processes = record k.processes {
          procs = put_proc k.processes.procs (current k) (record p { brk = moved });
        };
      },
      p.brk,
    )
    else let new_pages = page_count increment in
      let (tables, pages) = map_pages new_pages k.tables k.pages p.brk_max 0 in
      (
        record k {
          processes = record k.processes {
            procs =
                put_proc k.processes.procs (current k)
                  (record p { brk = moved; brk_max = u32 (p.brk_max + u32 (new_pages * 4096)) });
          };
          tables = tables;
          pages = pages;
        },
        p.brk,
      )

pub sys_getpid : Kernel → ℕ
sys_getpid k = if current k == 0 then 0 else (k.processes.procs (current k)).pid

pub sys_getppid : Kernel → ℕ
sys_getppid k =
    let parent = (k.processes.procs (current k)).parent in
    if not (current k == 0) && not (parent == 0) then (k.processes.procs parent).pid else 0

pub sys_kill : ℕ → Kernel → ℕ → ℕ → Option (Kernel × ℕ)
sys_kill fuel k pid sig = do
  target ← process_get_by_pid fuel k.processes pid
  if target == 0
      then some (k, minus_one)
      else if not (sig == 9)
      then some (k, minus_one)
      else some (
        record k {
          processes = record k.processes {
            procs =
                put_proc k.processes.procs target
                  (record (k.processes.procs target) { state = proc_zombie; exit_code = 137 });
          };
        },
        0,
      )

pub sys_mmap : Kernel → ℕ → ℕ → Kernel × ℕ
sys_mmap k addr len =
    let start_vaddr = if addr == 0 then 0x40000000 else addr in
    let (tables, pages) = map_pages (page_count len) k.tables k.pages start_vaddr 0 in
    if len == 0 then (k, 0) else (record k { tables = tables; pages = pages }, start_vaddr)

-- The loop of `sys_munmap_impl`, with the pages that are left, from page `i` on.
pub unmap_pages : ℕ → Vmm → ℕ → ℕ → Vmm
unmap_pages zero tables addr i = tables
unmap_pages (suc n) tables addr i =
    unmap_pages n (vmm_unmap_page tables (u32 (addr + i * 4096))) addr (i + 1)

pub sys_munmap : Kernel → ℕ → ℕ → Kernel × ℕ
sys_munmap k addr len = (record k { tables = unmap_pages (page_count len) k.tables addr 0 }, 0)

-- The registers that the handler reads.
pub record Registers : Type 0 where
  pub eax : ℕ
  pub ebx : ℕ
  pub ecx : ℕ
  pub edx : ℕ
  pub esi : ℕ
  pub edi : ℕ

-- `syscall_fn_t`
abbrev pub SyscallFn : Type 0
SyscallFn = Kernel → ℕ → ℕ → ℕ → ℕ → ℕ → Option (Kernel × ℕ)

-- With `syscall_table`.
pub syscall_handler :
    (ℕ → Option SyscallFn) → Kernel → Option Registers → Option (Kernel × Option Registers)
syscall_handler syscall_table k none = some (k, none)
syscall_handler syscall_table k (some regs) =
    elim (if ltb regs.eax 256 then syscall_table regs.eax else none) [
      | none ↦ some (k, some (record regs { eax = minus_one }))
      | some f ↦ do
        (k', result) ← f k regs.ebx regs.ecx regs.edx regs.esi regs.edi
        some (k', some (record regs { eax = result }))
    ]
