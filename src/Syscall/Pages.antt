-- ===== src/Syscall/Pages.antt =====
-- `sys_munmap` against the translation of addresses.
use dionnex.Base.{
  ℕ, zero, suc, ◌+◌, ◌*◌, ◌/◌, ◌^◌, ◌≤◌, ◌<◌, ◌≡◌, refl, ◌&&◌, Bool, false, if◌then◌else◌, ltb, leb,
  ◌==◌, arith,
}
use dionnex.Pmm.{Pmm, page_size}
use dionnex.Strings.Number.{u32}
use dionnex.Vmm.{Vmm, vmm_unmap_page, vmm_get_phys}
use dionnex.Vmm.Entry.{IsPaged}
use dionnex.Vmm.Map.{vmm_get_phys-vmm_unmap_page}
use dionnex.Syscall.{Kernel, page_count, unmap_pages, sys_munmap}

-- An address in one of `n` pages.
abbrev pub in_pages : ℕ → ℕ → ℕ → Bool
in_pages from n a = leb from (a / page_size) && ltb (a / page_size) (from + n)

-- First the first page, then the others.
pub in_pages-suc :
    (from n a here later : ℕ) (behind : ℕ)
    → behind ≡ (if a / page_size == from then 0 else here)
    → later ≡ (if in_pages (from + 1) n a then 0 else behind)
    → later ≡ (if in_pages from (suc n) a then 0 else here)
in_pages-suc from n a here later behind e f = ground (arith, e, f)

unmap_pages-IsPaged :
    (n : ℕ) (v : Vmm) (p : Pmm) (addr i a : ℕ)
    → IsPaged v p
    → addr / 4096 * 4096 + (i + n) * 4096 ≤ 2 ^ 32
    → addr < 2 ^ 32
    → a < 2 ^ 32
    → IsPaged (unmap_pages n v addr i) p
      × (vmm_get_phys (unmap_pages n v addr i) a
          ≡ (if in_pages (addr / 4096 + i) n a then 0 else vmm_get_phys v a))
unfolding unmap_pages
unmap_pages-IsPaged zero v p addr i a g room low top =
    let none_in : in_pages (addr / 4096 + i) 0 a ≡ false = ground arith in (g, rw none_in refl)
unmap_pages-IsPaged (suc n) v p addr i a g room low top =
    let virt = u32 (addr + i * 4096) in
    let here : virt / page_size ≡ addr / 4096 + i = omega (arith, room, low) in
    let (g', gone) = vmm_get_phys-vmm_unmap_page virt g (omega arith) in
    let (g'', rest) =
      unmap_pages-IsPaged n (vmm_unmap_page v virt) p addr (i + 1) a g' (omega (arith, room)) low
        top in
    let next : addr / 4096 + (i + 1) ≡ addr / 4096 + i + 1 = omega arith in
    (
      g'',
      in_pages-suc (addr / 4096 + i) n a (vmm_get_phys v a)
          (vmm_get_phys (unmap_pages n (vmm_unmap_page v virt) addr (i + 1)) a)
          (vmm_get_phys (vmm_unmap_page v virt) a) (rw here at (gone a top)) (rw next at rest),
    )

-- On tables that are pages in use and all different, `sys_munmap` of a range whose pages end within
-- the 32 bits returns 0 and keeps them so; afterwards no address of the pages is translated, and
-- every other 32-bit address as before.
pub sys_munmap-vmm_get_phys :
    (k : Kernel) (addr len a : ℕ)
    → IsPaged k.tables k.pages
    → addr < 2 ^ 32
    → addr / 4096 * 4096 + (len + 4095) / 4096 * 4096 ≤ 2 ^ 32
    → len + 4095 < 2 ^ 32
    → a < 2 ^ 32
    → ((sys_munmap k addr len).1 ≡ 0)
      × IsPaged (sys_munmap k addr len).0.tables k.pages
      × (vmm_get_phys (sys_munmap k addr len).0.tables a
          ≡ (if in_pages (addr / 4096) ((len + 4095) / 4096) a then 0 else vmm_get_phys k.tables a))
unfolding sys_munmap
sys_munmap-vmm_get_phys k addr len a g low room small top =
    let count : page_count len ≡ (len + 4095) / 4096 = omega (arith, small) in
    let start : addr / 4096 + 0 ≡ addr / 4096 = omega arith in
    let (g', done) =
      unmap_pages-IsPaged ((len + 4095) / 4096) k.tables k.pages addr 0 a g (omega (arith, room))
        low top in
    rw count (refl, g', rw start at done)
