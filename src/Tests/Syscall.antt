-- ===== src/Tests/Syscall.antt =====
-- kernel/syscall.c at fixed inputs.
use dionnex.Base.{
  ℕ, ◌+◌, ◌*◌, ◌/◌, ◌≤◌, ◌≡◌, refl, false, some, [], ◌∷◌, if◌then◌else◌, replicate, arith,
}
use dionnex.Keyboard.{Keyboard}
use dionnex.Keyboard.Fifo.{IsValid, queue}
use dionnex.Machine.{Memory}
use dionnex.Machine.Words.{Outside}
use dionnex.Vmm.{vmm_get_phys}
use dionnex.Vmm.Entry.{IsPaged}
use dionnex.Syscall.{Kernel, sys_read, sys_sbrk, sys_munmap, sys_mmap}
use dionnex.Syscall.Read.{Line, ended, further, sys_read-Line}
use dionnex.Syscall.Mmap.{Mapped, sys_mmap-vmm_get_phys}
use dionnex.Syscall.Break.{running, break_pages, sys_sbrk-break}
use dionnex.Syscall.Write.{bytes_at}
use dionnex.Syscall.Pages.{in_pages, sys_munmap-vmm_get_phys}
use dionnex.Vfs.Components.{IsText, is_text, is_text-IsText}
use dionnex.Tests.Pmm.{two_used}
use dionnex.Tests.Vmm.{no_tables, no_tables-IsPaged}
use dionnex.Tests.Process.{two_queued}
use dionnex.Tests.Vga.{empty_at}

-- The keys `a` and return wait.
abbrev typed_line : Keyboard
typed_line = record {
  buffer = b'a' ∷ (0x0a ∷ replicate 254 0);
  head = 2;
  tail = 0;
  shift_pressed = false;
  caps_lock = false;
}

abbrev booted_kernel : Kernel
booted_kernel = record {
  processes = two_queued;
  keyboard = typed_line;
  screen = empty_at 0 0;
  pages = two_used;
  tables = no_tables;
  mem = λ a. 0;
}

typed_line-IsText : IsText (queue typed_line)
unfolding is_text
typed_line-IsText = is_text-IsText (b'a' ∷ (0x0a ∷ [])) refl

typed_line-Line : Line 80 (queue typed_line) (b'a' ∷ (0x0a ∷ [])) []
typed_line-Line = further b'a' refl (ended 0x0a refl)

sys_read-Line_example :
    (keyboard' : Keyboard) × (mem' : Memory) × (sys_read booted_kernel 0 0x5000 80
      ≡ some (record booted_kernel { keyboard = keyboard'; mem = mem' }, 2))
    × IsValid keyboard'
    × (queue keyboard' ≡ [])
    × (bytes_at mem' 0x5000 2 ≡ b'a' ∷ (0x0a ∷ []))
    × ((x : ℕ) → Outside 0x5000 2 x → mem' x ≡ 0)
sys_read-Line_example =
    sys_read-Line booted_kernel 0x5000 80 (b'a' ∷ (0x0a ∷ [])) []
      (record { storage = refl; head_in = omega arith; tail_in = omega arith }) typed_line-IsText
      typed_line-Line (λ e. absurd (omega (arith, e))) (λ e. absurd (omega (arith, e)))
      (omega arith)

sys_munmap-vmm_get_phys_example :
    ((sys_munmap booted_kernel 0x40000000 5000).1 ≡ 0)
    × IsPaged (sys_munmap booted_kernel 0x40000000 5000).0.tables two_used
    × (vmm_get_phys (sys_munmap booted_kernel 0x40000000 5000).0.tables 0x40001234 ≡ (
        if in_pages (0x40000000 / 4096) ((5000 + 4095) / 4096) 0x40001234
        then 0
        else vmm_get_phys no_tables 0x40001234))
sys_munmap-vmm_get_phys_example =
    sys_munmap-vmm_get_phys booted_kernel 0x40000000 5000 0x40001234 no_tables-IsPaged (omega arith)
      (omega arith) (omega arith) (omega arith)

-- The processes have used all of their pages.
abbrev full_kernel : Kernel
full_kernel = record booted_kernel {
  processes = record two_queued { procs = λ a. record (two_queued.procs a) { brk = 0x08110000 } };
}

sys_sbrk-break_example :
    let n = break_pages (running full_kernel) 5000 in
    let k' = (sys_sbrk full_kernel 5000).0 in
    ((sys_sbrk full_kernel 5000).1 ≡ 0x08110000)
    × (running k'
        ≡ record (running full_kernel) { brk = 0x08110000 + 5000; brk_max = 0x08110000 + n * 4096 })
    × (0x08110000 + 5000 ≤ 0x08110000 + n * 4096)
    × (k'.processes.procs 5 ≡ full_kernel.processes.procs 5)
    × Mapped no_tables two_used (0x08110000 / 4096) n k'.tables k'.pages
sys_sbrk-break_example =
    sys_sbrk-break full_kernel 5000 5 (λ e. absurd (omega (arith, e))) (omega arith) (omega arith)
      no_tables-IsPaged refl (omega arith) (λ e. absurd (omega (arith, e)))

sys_mmap-vmm_get_phys_example :
    let k' = (sys_mmap booted_kernel 0 8192).0 in
    ((sys_mmap booted_kernel 0 8192).1 ≡ 0x40000000)
    × Mapped no_tables two_used (0x40000000 / 4096) 2 k'.tables k'.pages
sys_mmap-vmm_get_phys_example =
    sys_mmap-vmm_get_phys booted_kernel 0 8192 no_tables-IsPaged refl (omega arith) (omega arith)
      (omega arith) (omega arith) (omega arith)
