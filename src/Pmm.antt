-- ===== src/Pmm.antt =====
-- mm/pmm.c: the bitmap allocator of physical pages. A set bit is a page in use.
pub mod Bitmap
pub mod Scan
pub mod Count
pub mod Alloc
pub mod Boot
use Prim.Native.Nat.{bit_and, bit_or}
use dionnex.Base.{
  ℕ, zero, suc, ◌+◌, ◌-◌, ◌*◌, ◌/◌, ◌%◌, ◌^◌, ◌&&◌, Bool, true, false, Option, none, some, List, [],
  ◌∷◌, if◌then◌else◌, ltb, leb, ◌==◌, get_or, set, replicate,
}
use dionnex.Base.Words.{set_bit, clear_bit}

abbrev pub page_size : ℕ
page_size = 4096

-- The file's static variables; the words of the bitmap in order.
pub record Pmm : Type 0 where
  pub bitmap : List ℕ
  pub bitmap_size : ℕ
  pub total_pages : ℕ
  pub free_pages : ℕ

-- A write outside the bitmap, which the callers exclude, is modelled as no write.
unfoldable pub bitmap_set : List ℕ → ℕ → List ℕ
bitmap_set b page = set b (page / 32) (set_bit (get_or b (page / 32) 0) (page % 32))

pub bitmap_clear : List ℕ → ℕ → List ℕ
bitmap_clear b page = set b (page / 32) (clear_bit (get_or b (page / 32) 0) (page % 32))

pub bitmap_test : List ℕ → ℕ → ℕ
bitmap_test b page = bit_and (get_or b (page / 32) 0 / 2 ^ (page % 32)) 1

-- The loop over the 32 bits of a word, from bit `j` with `n` rounds left.
unfoldable pub find_clear : ℕ → ℕ → ℕ → Option ℕ
find_clear w j zero = none
find_clear w j (suc n) =
    let rest = find_clear w (j + 1) n in if bit_and w (2 ^ j) == 0 then some j else rest

-- The loop over the words, from word `i` with `n` rounds left: the page that ends it.
unfoldable pub find_page : List ℕ → ℕ → ℕ → Option ℕ
find_page b i zero = none
find_page b i (suc n) =
    let rest = find_page b (i + 1) n in
    if get_or b i 0 == 0xFFFFFFFF
    then rest
    else elim (find_clear (get_or b i 0) 0 32) [ some j ↦ some (i * 32 + j) | none ↦ rest ]

-- `if (free_pages > 0) free_pages--;`
abbrev pub decrement : ℕ → ℕ
decrement n = if ltb 0 n then n - 1 else n

-- The address of the page, 0 if there is none.
unfoldable pub pmm_alloc_page : Pmm → ℕ × Pmm
pmm_alloc_page s = elim (find_page s.bitmap 0 s.bitmap_size) [
  | none ↦ (0, s)
  | some page ↦ if leb s.total_pages page then (0, s) else (
    page * page_size % 2 ^ 32,
    record s { bitmap = bitmap_set s.bitmap page; free_pages = decrement s.free_pages },
  )
]

pub pmm_free_page : Pmm → ℕ → Pmm
pmm_free_page s addr =
    let page = addr / page_size in
    if ltb page s.total_pages && bitmap_test s.bitmap page == 1
    then record s { bitmap = bitmap_clear s.bitmap page; free_pages = s.free_pages + 1 }
    else s

pub pmm_get_free_count : Pmm → ℕ
pmm_get_free_count s = s.free_pages

pub pmm_get_total_count : Pmm → ℕ
pmm_get_total_count s = s.total_pages
