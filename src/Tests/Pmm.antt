-- ===== src/Tests/Pmm.antt =====
-- mm/pmm.c at fixed inputs.
use dionnex.Base.{ℕ, ◌/◌, ◌≡◌, ◌≤◌, ◌<◌, ◌⊎◌, refl, [], ◌∷◌, arith}
use dionnex.Pmm.{Pmm, page_size, pmm_alloc_page, pmm_free_page}
use dionnex.Pmm.Bitmap.{used}
use dionnex.Pmm.Count.{zeros, IsValid}
use dionnex.Pmm.Boot.{Multiboot, mapped, memory_end, max_address, pmm_init}
use dionnex.Pmm.Boot.Valid.{Fits, Booted, pmm_init-Booted}
use dionnex.Pmm.Alloc.{NoneLeft, Took, Freed, pmm_alloc_page-first, pmm_free_page-Freed}

-- 32 pages, of which the first two are in use.
abbrev pub two_used : Pmm
two_used = record { bitmap = 3 ∷ []; bitmap_size = 1; total_pages = 32; free_pages = 30 }

pub two_used-IsValid : IsValid two_used
unfolding zeros
two_used-IsValid = record {
  size = refl;
  words = (omega arith, tt);
  covered = omega arith;
  no_wrap = omega arith;
  past_end = λ p lo hi. absurd (omega arith);
  counted = refl;
}

pmm_alloc_page-first_example :
    NoneLeft two_used (pmm_alloc_page two_used)
    ⊎ ((page : ℕ) × Took two_used page (pmm_alloc_page two_used))
pmm_alloc_page-first_example = pmm_alloc_page-first two_used-IsValid

pmm_free_page-Freed_example :
    IsValid (pmm_free_page two_used 4100)
    × ((4100 / page_size < 32)
          × (used two_used.bitmap (4100 / page_size) ≡ 1)
          × Freed two_used (4100 / page_size) (pmm_free_page two_used 4100)
        ⊎ ((32 ≤ 4100 / page_size) ⊎ (used two_used.bitmap (4100 / page_size) ≡ 0))
          × (pmm_free_page two_used 4100 ≡ two_used))
pmm_free_page-Freed_example = pmm_free_page-Freed 4100 two_used-IsValid

-- 32 MB behind the first MB, of which the kernel has the first 256 KB.
abbrev two_areas : Multiboot
two_areas = mapped (
    record { kind = 1; addr_low = 0; len_low = 0x9FC00 }
    ∷ (record { kind = 2; addr_low = 0xF0000; len_low = 0x10000 }
        ∷ (record { kind = 1; addr_low = 0x100000; len_low = 0x1F00000 } ∷ [])))

two_areas_end : memory_end two_areas ≡ 0x2000000
unfolding memory_end max_address
two_areas_end = refl

two_areas-Fits : Fits 0x100000 0x140123 two_areas
unfolding memory_end max_address
two_areas-Fits = record {
  ordered = omega arith;
  kernel_in = omega arith;
  bitmap_in = omega arith;
  no_wrap = omega arith;
}

pmm_init-Booted_example : Booted 0x100000 0x140123 two_areas (pmm_init 0x100000 0x140123 two_areas)
pmm_init-Booted_example = pmm_init-Booted 0x100000 0x140123 two_areas two_areas-Fits
