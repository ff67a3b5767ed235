-- ===== src/Syscall/Break.antt =====
-- `sys_sbrk`: the break, its limit and the pages between.
use dionnex.Base.{
  ℕ, ◌+◌, ◌*◌, ◌/◌, ◌^◌, ◌≤◌, ◌<◌, ◌≡◌, ◌≢◌, refl, sym, ap, inl, inr, true, false, if◌then◌else◌,
  leb, ◌==◌, arith, Bool-cases,
}
use dionnex.Pmm.Bitmap.{used}
use dionnex.Process.{Proc}
use dionnex.Strings.Number.{u32}
use dionnex.Vmm.Entry.{IsPaged}
use dionnex.Syscall.{Kernel, current, page_count, map_pages, sys_sbrk}
use dionnex.Syscall.Mmap.{Mapped, Mapped-zero, map_pages-Mapped}

-- The process that runs.
abbrev pub running : Kernel → Proc
running k = k.processes.procs (current k)

-- The pages that the break needs above its limit: none while it fits, else those of the increment.
abbrev pub break_pages : Proc → ℕ → ℕ
break_pages p increment = if leb (p.brk + increment) p.brk_max then 0 else (increment + 4095) / 4096

-- With a process that runs, whose break is not above its limit, an increment after which a page above
-- the limit ends within the 32 bits, tables that are pages in use and all different, page 0 in use,
-- and two free pages for each page that is needed, none while the break fits and those of the
-- increment otherwise: `sys_sbrk` returns the old break, moves the break by the increment and the
-- limit by these pages, changes nothing else of the process and no other process, and the break is
-- again not above the limit. The pages from the limit on are mapped to pages of their own that were
-- free before, and every other 32-bit address is translated as before.
pub sys_sbrk-break :
    (k : Kernel) (increment a : ℕ)
    → current k ≢ 0
    → (running k).brk ≤ (running k).brk_max
    → (running k).brk_max + increment + 4096 < 2 ^ 32
    → IsPaged k.tables k.pages
    → used k.pages.bitmap 0 ≡ 1
    → 2 * break_pages (running k) increment ≤ k.pages.free_pages
    → a ≢ current k
    → let p = running k in
      let n = break_pages p increment in
      let k' = (sys_sbrk k increment).0 in
      ((sys_sbrk k increment).1 ≡ p.brk)
      × (running k' ≡ record p { brk = p.brk + increment; brk_max = p.brk_max + n * 4096 })
      × (p.brk + increment ≤ p.brk_max + n * 4096)
      × (k'.processes.procs a ≡ k.processes.procs a)
      × Mapped k.tables k.pages (p.brk_max / 4096) n k'.tables k'.pages
unfolding sys_sbrk
sys_sbrk-break k increment a here below room g first pages apart =
    let p = running k in
    let some_process : (current k == 0) ≡ false = ground (arith, here) in
    let moved : u32 (p.brk + increment) ≡ p.brk + increment = omega (arith, below, room) in
    let self : (current k == current k) ≡ true = ground arith in
    let other : (a == current k) ≡ false = ground (arith, apart) in
    elim (Bool-cases (leb (p.brk + increment) p.brk_max)) [
      | inl fits ↦
          let same : p.brk_max + 0 ≡ p.brk_max = omega arith in
          rw (some_process, moved)
            (rw (fits, self, other)
              (
                refl,
                ap (λ (m : ℕ). record p { brk = p.brk + increment; brk_max = m }) (sym same),
                ground (arith, fits),
                refl,
                Mapped-zero (p.brk_max / 4096) g,
              ))
      | inr grows ↦
          let n = (increment + 4095) / 4096 in
          let count : page_count increment ≡ n = omega (arith, room) in
          let limit : u32 (p.brk_max + u32 (n * 4096)) ≡ p.brk_max + n * 4096 =
            omega (arith, room) in
          let begin : p.brk_max / 4096 + 0 ≡ p.brk_max / 4096 = omega arith in
          let mapped =
            map_pages-Mapped n k.tables k.pages p.brk_max 0 g first (rw grows at pages)
              (omega (arith, room)) (omega (arith, room)) in
          let r = map_pages n k.tables k.pages p.brk_max 0 in
          let mapped' : Mapped k.tables k.pages (p.brk_max / 4096) n r.0 r.1 = rw begin at mapped in
          rw (some_process, moved)
            (rw (grows, self, other)
              (rw (count, limit) (refl, refl, omega (arith, below, room), refl, mapped')))
    ]
