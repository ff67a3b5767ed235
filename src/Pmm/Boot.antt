-- ===== src/Pmm/Boot.antt =====
-- `pmm_init` of mm/pmm.c: the bitmap built from what the boot loader says of the memory.
pub mod Steps
pub mod Valid
use dionnex.Base.{
  ℕ, zero, suc, ◌+◌, ◌-◌, ◌*◌, ◌/◌, ◌%◌, ◌^◌, ◌&&◌, Bool, true, false, List, [], ◌∷◌, if◌then◌else◌,
  ltb, ◌==◌, replicate,
}
use dionnex.Strings.Number.{u32}
use dionnex.Pmm.{Pmm, page_size, bitmap_set, bitmap_clear, bitmap_test, decrement}

-- An entry of the memory map that the boot loader hands over, with what the code reads of it.
pub record MmapEntry : Type 0 where
  pub kind : ℕ
  pub addr_low : ℕ
  pub len_low : ℕ

-- `multiboot_info_t`: the memory map, the memory size alone, or neither. `mapped` holds the entries
-- that the walk from `mmap_addr` to `mmap_addr + mmap_length` visits, where the map is not empty.
pub data Multiboot : Type 0 where
  mapped : List MmapEntry → Multiboot
  sized : (mem_upper : ℕ) → Multiboot
  unknown : Multiboot

-- The first walk over the map.
unfoldable pub max_address : List MmapEntry → ℕ → ℕ
max_address [] max_addr = max_addr
max_address (e ∷ entries) max_addr =
    let entry_end = u32 (e.addr_low + e.len_low) in
    max_address entries (if e.kind == 1 && ltb max_addr entry_end then entry_end else max_addr)

unfoldable pub memory_end : Multiboot → ℕ
unfolding max_address
memory_end (mapped entries) = max_address entries 0x1000000
memory_end (sized mem_upper) = u32 ((mem_upper + 1024) * 1024)
memory_end unknown = 0x1000000

-- `if (page < total_pages && bitmap_test(page)) { bitmap_clear(page); free_pages++; }`
pub unmark : Pmm → ℕ → Pmm
unmark s page =
    if ltb page s.total_pages && bitmap_test s.bitmap page == 1
    then record s { bitmap = bitmap_clear s.bitmap page; free_pages = s.free_pages + 1 }
    else s

-- The pages from `page` on, with `n` to go.
pub unmark_pages : ℕ → ℕ → Pmm → Pmm
unmark_pages zero page s = s
unmark_pages (suc n) page s = unmark_pages n (u32 (page + 1)) (unmark s page)

-- The second walk over the map.
pub unmark_entries : List MmapEntry → Pmm → Pmm
unmark_entries [] s = s
unmark_entries (e ∷ entries) s =
    unmark_entries entries
      (if e.kind == 1 then unmark_pages (e.len_low / page_size) (e.addr_low / page_size) s else s)

-- Without a map: the pages from `page` on, with `n` to go.
pub clear_pages : ℕ → ℕ → Pmm → Pmm
clear_pages zero page s = s
clear_pages (suc n) page s =
    clear_pages n (page + 1)
      (record s { bitmap = bitmap_clear s.bitmap page; free_pages = s.free_pages + 1 })

pub unmark_memory : Multiboot → Pmm → Pmm
unfolding unmark_entries clear_pages
unmark_memory (mapped entries) s = unmark_entries entries s
unmark_memory (sized mem_upper) s = clear_pages (s.total_pages - 256) 256 s
unmark_memory unknown s = clear_pages (s.total_pages - 256) 256 s

-- `if (!bitmap_test(p)) { bitmap_set(p); if (free_pages > 0) free_pages--; }`
pub mark : Pmm → ℕ → Pmm
mark s page =
    if bitmap_test s.bitmap page == 0
    then record s { bitmap = bitmap_set s.bitmap page; free_pages = decrement s.free_pages }
    else s

pub mark_pages : ℕ → ℕ → Pmm → Pmm
mark_pages zero page s = s
mark_pages (suc n) page s = mark_pages n (page + 1) (mark s page)

-- `for (p = from; p <= to; p++)`
abbrev pub mark_range : ℕ → ℕ → Pmm → Pmm
mark_range from to s = mark_pages (to + 1 - from) from s

-- `ALIGN_UP((uint32_t)&_kernel_end, PAGE_SIZE)`
abbrev pub bitmap_address : ℕ → ℕ
bitmap_address kernel_end = u32 (kernel_end + page_size - 1) / page_size * page_size

-- Every page in use.
pub all_used : ℕ → Pmm
all_used total_pages = record {
  bitmap = replicate (u32 (total_pages + 31) / 32) 0xFFFFFFFF;
  bitmap_size = u32 (total_pages + 31) / 32;
  total_pages = total_pages;
  free_pages = 0;
}

-- The first and the last page of the bitmap.
abbrev pub first_bitmap_page : ℕ → ℕ
first_bitmap_page kernel_end = bitmap_address kernel_end / page_size

abbrev pub last_bitmap_page : ℕ → ℕ → ℕ
last_bitmap_page kernel_end bitmap_size =
    u32 (bitmap_address kernel_end + bitmap_size * 4) / page_size

-- `kernel_start` and `kernel_end` are the addresses that the linker script gives.
pub pmm_init : ℕ → ℕ → Multiboot → Pmm
pmm_init kernel_start kernel_end mbi =
    let free = unmark_memory mbi (all_used (memory_end mbi / page_size)) in
    let guarded = mark free 0 in
    let kernel = mark_range (kernel_start / page_size) (kernel_end / page_size) guarded in
    mark_range (first_bitmap_page kernel_end) (last_bitmap_page kernel_end kernel.bitmap_size)
      kernel
