-- ===== src/Elf.antt =====
-- kernel/elf_loader.c: the check of an executable, and its segments copied to their addresses. The
-- offsets are those of the structures of kernel/elf_loader.h. The bytes of the executable and of the
-- process are by address; the pages that the code maps are in `tables`. `e_phnum` is read once, where
-- the code reads it again in each round.
pub mod Segment
pub mod Create
use dionnex.Base.{
  ℕ, zero, suc, ◌+◌, ◌-◌, ◌*◌, ◌/◌, ◌%◌, ◌^◌, ◌&&◌, ◌||◌, Bool, true, false, not, Option, none,
  some, if◌then◌else◌, ltb, leb, ◌==◌, ◌>>=◌,
}
use dionnex.Base.Int.{ℤ, pos, negsuc}
use dionnex.Machine.{Memory, half, word, set_bytes, copy_bytes}
use dionnex.Pmm.{Pmm, pmm_alloc_page}
use dionnex.Strings.Number.{u32}
use dionnex.Vmm.{Vmm, vmm_map_page}

-- What a load works on.
pub record Space : Type 0 where
  pub mem : Memory
  pub tables : Vmm
  pub pages : Pmm

abbrev pub elf_magic : ℕ
elf_magic = 0x464C457F

unfoldable pub elf_validate : Memory → ℕ → ℕ → Bool
elf_validate mem file size =
    if file == 0 || ltb size 52
    then false
    else if not (word mem file == elf_magic)
    then false
    else if not (mem (u32 (file + 4)) == 1)
    then false
    else if not (mem (u32 (file + 5)) == 1)
    then false
    else half mem (u32 (file + 16)) == 2 || half mem (u32 (file + 16)) == 3

pub elf_get_entry : Memory → ℕ → ℕ
elf_get_entry mem file = if elf_validate mem file 52 then word mem (u32 (file + 24)) else 0

abbrev pub p_offset : Memory → ℕ → ℕ
p_offset mem ph = word mem (u32 (ph + 4))

abbrev pub p_vaddr : Memory → ℕ → ℕ
p_vaddr mem ph = word mem (u32 (ph + 8))

abbrev pub p_filesz : Memory → ℕ → ℕ
p_filesz mem ph = word mem (u32 (ph + 16))

abbrev pub p_memsz : Memory → ℕ → ℕ
p_memsz mem ph = word mem (u32 (ph + 20))

-- VMM_PRESENT | VMM_USER, and VMM_WRITABLE with PF_W
abbrev pub segment_flags : Memory → ℕ → ℕ
segment_flags mem ph = if word mem (u32 (ph + 24)) / 2 % 2 == 0 then 5 else 7

-- The pages from `page` on, with the rounds that are left; `none` when no page is free. The tables
-- and the allocator are as they are then.
pub map_segment : ℕ → Vmm → Pmm → ℕ → ℕ → Vmm × Pmm × Bool
map_segment zero tables pages page flags = (tables, pages, true)
map_segment (suc n) tables pages page flags =
    let (phys, pages') = pmm_alloc_page pages in
    let (tables', pages'') = vmm_map_page tables pages' page phys flags in
    let rest = map_segment n tables' pages'' (u32 (page + 4096)) flags in
    if phys == 0 then (tables, pages', false) else rest

-- The rounds of `for (page = page_start; page < page_end; page += 4096)`.
abbrev pub segment_pages : ℕ → ℕ → ℕ
segment_pages vaddr memsz =
    let page_start = vaddr / 4096 * 4096 in
    let page_end = u32 (vaddr + memsz + 0xFFF) / 4096 * 4096 in (page_end - page_start) / 4096

-- The bytes of a segment: those of the file over zeros.
pub copy_segment : Memory → ℕ → ℕ → ℕ → Memory
copy_segment mem file size ph =
    let vaddr = p_vaddr mem ph in
    let filesz = p_filesz mem ph in
    let offset = p_offset mem ph in
    let cleared = set_bytes mem vaddr 0 (p_memsz mem ph) in
    if ltb 0 filesz && leb (u32 (offset + filesz)) size
    then copy_bytes cleared vaddr (u32 (file + offset)) filesz
    else cleared

-- A round of the loop over the program headers; false for the error.
pub load_segment : Space → ℕ → ℕ → ℕ → Space × Bool
load_segment s file size ph =
    let vaddr = p_vaddr s.mem ph in
    let (tables, pages, mapped) =
      map_segment (segment_pages vaddr (p_memsz s.mem ph)) s.tables s.pages (vaddr / 4096 * 4096)
        (segment_flags s.mem ph) in
    if not (word s.mem ph == 1)
    then (s, true)
    else if not mapped
    then (record s { tables = tables; pages = pages }, false)
    else (record { mem = copy_segment s.mem file size ph; tables = tables; pages = pages }, true)

-- The loop, with the rounds that are left.
pub load_segments : ℕ → Space → ℕ → ℕ → ℕ → Space × Bool
load_segments zero s file size ph = (s, true)
load_segments (suc n) s file size ph =
    let (s', loaded) = load_segment s file size ph in
    let rest = load_segments n s' file size (u32 (ph + 32)) in if loaded then rest else (s', false)

pub elf_load_segments : Space → ℕ → ℕ → Space × ℤ
elf_load_segments s file size =
    let (s', loaded) =
      load_segments (half s.mem (u32 (file + 44))) s file size
        (u32 (file + word s.mem (u32 (file + 28)))) in
    if not (elf_validate s.mem file size)
    then (s, negsuc 0)
    else if loaded
    then (s', pos 0)
    else (s', negsuc 0)
