-- ===== src/Vmm.antt =====
-- mm/vmm.c: the two levels of page tables, as words of memory by address. Loading cr3 and cr0 and
-- flushing the translation cache are not modelled.
pub mod Table
pub mod Entry
pub mod Grow
pub mod Map
pub mod Start
use Prim.Native.Nat.{bit_or}
use dionnex.Base.{ℕ, zero, suc, ◌+◌, ◌*◌, ◌/◌, ◌%◌, ◌^◌, if◌then◌else◌, ◌==◌}
use dionnex.Pmm.{Pmm, page_size, pmm_alloc_page}

-- The file's static variable, and the memory.
pub record Vmm : Type 0 where
  pub page_directory : ℕ
  pub words : ℕ → ℕ

abbrev pub put_word : (ℕ → ℕ) → ℕ → ℕ → ℕ → ℕ
put_word words at w a = if a == at then w else words a

abbrev pub dir_index : ℕ → ℕ
dir_index virt = virt / 2 ^ 22 % 1024

abbrev pub table_index : ℕ → ℕ
table_index virt = virt / 2 ^ 12 % 1024

-- `x & VMM_PRESENT`, `x & VMM_USER` and `x & 0xFFFFF000`.
abbrev pub present : ℕ → ℕ
present e = e % 2

abbrev pub user : ℕ → ℕ
user flags = flags / 4 % 2 * 4

abbrev pub frame : ℕ → ℕ
frame e = e / 4096 * 4096

-- `page_directory[i]`
abbrev pub dir_entry : Vmm → ℕ → ℕ
dir_entry v i = v.words (v.page_directory + 4 * i)

-- The loop that clears a table, from the word at `at` on, with `n` rounds left.
pub clear_table : ℕ → ℕ → (ℕ → ℕ) → ℕ → ℕ
clear_table zero at words = words
clear_table (suc n) at words = clear_table n (at + 4) (put_word words at 0)

-- The loop that maps the first 4 MB to themselves, from entry `i` on.
pub identity_table : ℕ → ℕ → ℕ → (ℕ → ℕ) → ℕ → ℕ
identity_table zero i table words = words
identity_table (suc n) i table words =
    identity_table n (i + 1) table
      (put_word words (table + 4 * i) (bit_or (bit_or (i * page_size) 1) 2))

pub vmm_init : Pmm → (ℕ → ℕ) → Vmm × Pmm
vmm_init p words =
    let (dir, p') = pmm_alloc_page p in
    let cleared = clear_table 1024 dir words in
    let (first_pt, p'') = pmm_alloc_page p' in
    let filled = identity_table 1024 0 first_pt cleared in
    (
      record { page_directory = dir; words = put_word filled dir (bit_or (bit_or first_pt 1) 2) },
      p'',
    )

-- The part of `vmm_map_page` that adds a table where there is none.
unfoldable pub ensure_table : Vmm → Pmm → ℕ → ℕ → Vmm × Pmm
ensure_table v p i flags =
    let (new_pt, p') = pmm_alloc_page p in
    let cleared = clear_table 1024 new_pt v.words in
    if present (dir_entry v i) == 0
    then (
      record v {
        words =
            put_word cleared (v.page_directory + 4 * i)
              (bit_or (bit_or (bit_or new_pt 1) 2) (user flags));
      },
      p',
    )
    else (v, p)

pub set_entry : Vmm → ℕ → ℕ → ℕ → Vmm
set_entry v i k e = record v { words = put_word v.words (frame (dir_entry v i) + 4 * k) e }

unfoldable pub vmm_map_page : Vmm → Pmm → ℕ → ℕ → ℕ → Vmm × Pmm
vmm_map_page v p virt phys flags =
    let (v', p') = ensure_table v p (dir_index virt) flags in
    (set_entry v' (dir_index virt) (table_index virt) (bit_or (bit_or (frame phys) flags) 1), p')

pub vmm_unmap_page : Vmm → ℕ → Vmm
vmm_unmap_page v virt =
    if present (dir_entry v (dir_index virt)) == 0
    then v
    else set_entry v (dir_index virt) (table_index virt) 0

-- The address that an entry of a table gives.
pub translate : ℕ → ℕ → ℕ
translate entry virt = if present entry == 0 then 0 else bit_or (frame entry) (virt % 4096)

pub vmm_get_phys : Vmm → ℕ → ℕ
vmm_get_phys v virt =
    let e = dir_entry v (dir_index virt) in
    if present e == 0 then 0 else translate (v.words (frame e + 4 * table_index virt)) virt
