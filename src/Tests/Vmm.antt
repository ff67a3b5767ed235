-- ===== src/Tests/Vmm.antt =====
-- mm/vmm.c at fixed inputs.
use dionnex.Base.{ℕ, ◌≡◌, ◌≢◌, ◌<◌, ◌+◌, ◌/◌, ◌%◌, ◌^◌, inr, refl, if◌then◌else◌, ◌==◌, arith}
use dionnex.Pmm.{find_page, find_clear, bitmap_set, page_size, pmm_alloc_page}
use dionnex.Vmm.{Vmm, frame, vmm_map_page, vmm_get_phys}
use dionnex.Vmm.Entry.{IsPaged}
use dionnex.Vmm.Map.{vmm_get_phys-vmm_map_page}
use dionnex.Tests.Pmm.{two_used, two_used-IsValid}

abbrev zeroed : ℕ → ℕ
zeroed a = 0

-- A directory without tables, in the page 1.
abbrev pub no_tables : Vmm
no_tables = record { page_directory = 4096; words = zeroed }

pub no_tables-IsPaged : IsPaged no_tables two_used
no_tables-IsPaged = record {
  valid = two_used-IsValid;
  aligned = refl;
  dir_used = refl;
  tables = λ i low on. absurd (omega (arith, on));
  apart = λ i j low_i low_j ne on_i on_j. absurd (omega (arith, on_i));
}

page_is_free : (pmm_alloc_page two_used).0 ≢ 0
unfolding pmm_alloc_page find_page find_clear
page_is_free = λ e. absurd (omega (arith, e))

another_is_free : (pmm_alloc_page (pmm_alloc_page two_used).1).0 ≢ 0
unfolding pmm_alloc_page find_page find_clear bitmap_set
another_is_free = λ e. absurd (omega (arith, e))

vmm_get_phys-vmm_map_page_example :
    let r = vmm_map_page no_tables two_used 0xC0000000 0x5000 2 in
    IsPaged r.0 r.1
    × ((a : ℕ)
        → a < 2 ^ 32
        → vmm_get_phys r.0 a ≡ (
            if a / page_size == 0xC0000000 / page_size
            then frame 0x5000 + a % page_size
            else vmm_get_phys no_tables a))
vmm_get_phys-vmm_map_page_example =
    vmm_get_phys-vmm_map_page 0xC0000000 0x5000 2 no_tables-IsPaged (inr page_is_free) (omega arith)
      (omega arith)
