-- ===== src/Pmm/Alloc.antt =====
-- `pmm_alloc_page` and `pmm_free_page` on a valid allocator.
use dionnex.Base.{
  ℕ, ◌+◌, ◌*◌, ◌/◌, ◌%◌, ◌^◌, ◌≤◌, ◌<◌, ◌≡◌, refl, sym, ◌∙◌, ◌⊎◌, inl, inr, true, false,
  if◌then◌else◌, ◌==◌, ltb, leb, length, get_or, arith, Bool-cases, Option-cases,
}
use dionnex.Base.Bits.{bit-lt_two}
use dionnex.Pmm.{
  Pmm, page_size, pmm_alloc_page, pmm_free_page, find_page, bitmap_set, bitmap_clear, bitmap_test,
  decrement,
}
use dionnex.Pmm.Bitmap.{
  used, bitmap_test-used, used-bitmap_set, used-bitmap_clear, bitmap_set-AllWords,
  bitmap_clear-AllWords, length-bitmap_set, length-bitmap_clear, bitmap_clear-bitmap_set,
}
use dionnex.Pmm.Scan.{find_page-IsFirst}
use dionnex.Pmm.Count.{zeros-change, IsValid}

-- The two state changes, on a page that is inside the memory.
abbrev pub take_page : Pmm → ℕ → Pmm
take_page s page = record s {
  bitmap = bitmap_set s.bitmap page;
  free_pages = decrement s.free_pages;
}

abbrev pub give_page : Pmm → ℕ → Pmm
give_page s page = record s { bitmap = bitmap_clear s.bitmap page; free_pages = s.free_pages + 1 }

module _ {s : Pmm} (v : IsValid s) (page : ℕ) (inside : page < s.total_pages) where
  in_bitmap : page < 32 * length s.bitmap
  in_bitmap = omega (arith, v.size, v.covered)

  pub take_page-IsValid : used s.bitmap page ≡ 0 → IsValid (take_page s page)
  take_page-IsValid free =
      let bits = used-bitmap_set s.bitmap page in_bitmap in
      let count =
        zeros-change (used s.bitmap) (used (bitmap_set s.bitmap page)) page s.total_pages inside
          bits free in
      record {
        size = v.size ∙ sym (length-bitmap_set s.bitmap page);
        words = bitmap_set-AllWords s.bitmap page v.words;
        covered = v.covered;
        no_wrap = v.no_wrap;
        past_end = λ p lo hi. ground (arith, bits p, v.past_end p lo hi);
        counted = ground (arith, count, v.counted);
      }

  pub give_page-IsValid : used s.bitmap page ≡ 1 → IsValid (give_page s page)
  give_page-IsValid taken =
      let bits = used-bitmap_clear s.bitmap page in_bitmap in
      let count =
        zeros-change (used (bitmap_clear s.bitmap page)) (used s.bitmap) page s.total_pages inside
          back (ground (arith, bits page)) in
      record {
        size = v.size ∙ sym (length-bitmap_clear s.bitmap page);
        words = bitmap_clear-AllWords s.bitmap page v.words;
        covered = v.covered;
        no_wrap = v.no_wrap;
        past_end = λ p lo hi. ground (arith, bits p, v.past_end p lo hi);
        counted = ground (arith, count, v.counted);
      }
    where
      back :
          (p : ℕ) → used s.bitmap p ≡ (if page == p then 1 else used (bitmap_clear s.bitmap page) p)
      back p = elim (Bool-cases (page == p)) [
        | inl here ↦ let e : page ≡ p = ground arith in rw here (rw e at taken)
        | inr there ↦ rw there (sym (rw there at (used-bitmap_clear s.bitmap page in_bitmap p)))
      ]

-- What a call returns: 0 and nothing changed, when no page is free; else the first free page.
abbrev pub NoneLeft : Pmm → ℕ × Pmm → Type 0
NoneLeft s (addr, s') = (addr ≡ 0) × (s' ≡ s) × ((p : ℕ) → p < s.total_pages → used s.bitmap p ≡ 1)

abbrev pub Took : Pmm → ℕ → ℕ × Pmm → Type 0
Took s page (addr, s') =
    (page < s.total_pages)
    × (addr ≡ page * page_size)
    × (used s.bitmap page ≡ 0)
    × ((p : ℕ) → p < page → used s.bitmap p ≡ 1)
    × ((p : ℕ) → used s'.bitmap p ≡ (if page == p then 1 else used s.bitmap p))
    × (s'.free_pages + 1 ≡ s.free_pages)
    × (pmm_free_page s' addr ≡ s)
    × IsValid s'

-- Freeing a page in use by its address.
free_used :
    (s : Pmm) (page : ℕ)
    → page < s.total_pages
    → used s.bitmap page ≡ 1
    → pmm_free_page s (page * page_size) ≡ give_page s page
unfolding pmm_free_page
free_used s page inside taken =
    let index : page * page_size / page_size ≡ page = omega arith in
    let low : ltb page s.total_pages ≡ true = ground arith in
    rw (index, low, bitmap_test-used s.bitmap page, taken) refl

took :
    {s : Pmm} (v : IsValid s) (page : ℕ)
    → page < s.total_pages
    → used s.bitmap page ≡ 0
    → ((p : ℕ) → p < page → used s.bitmap p ≡ 1)
    → Took s page (page * page_size % 2 ^ 32, take_page s page)
took {s} v page inside free first =
    let valid = take_page-IsValid v page inside free in
    let bits = used-bitmap_set s.bitmap page (omega (arith, v.size, v.covered)) in
    let count =
      zeros-change (used s.bitmap) (used (bitmap_set s.bitmap page)) page s.total_pages inside bits
        free in
    let less : decrement s.free_pages + 1 ≡ s.free_pages = ground (arith, count, v.counted) in
    let addr : page * page_size % 2 ^ 32 ≡ page * page_size = omega (arith, v.no_wrap) in
    let same =
      bitmap_clear-bitmap_set s.bitmap page (omega (arith, v.size, v.covered)) v.words free in
    let undo : pmm_free_page (take_page s page) (page * page_size % 2 ^ 32) ≡ s =
      rw addr
        (free_used (take_page s page) page inside (ground (arith, bits page)) ∙ cc (same, less)) in
    (inside, addr, free, first, bits, less, undo, valid)

-- On a valid allocator `pmm_alloc_page` returns 0 and changes nothing if every page is in use;
-- otherwise it returns the address of the lowest free page, marks that page and no other as used,
-- counts one free page less, and keeps the allocator valid; freeing that address at once gives back
-- the state before.
pub pmm_alloc_page-first :
    {s : Pmm}
    → IsValid s
    → NoneLeft s (pmm_alloc_page s) ⊎ ((page : ℕ) × Took s page (pmm_alloc_page s))
unfolding pmm_alloc_page
pmm_alloc_page-first {s} v =
    let first = find_page-IsFirst s.bitmap 0 s.bitmap_size v.words in
    elim (Option-cases (find_page s.bitmap 0 s.bitmap_size)) [
      | inl e ↦
          rw (e, pmm_alloc_page)
            (inl (refl, refl, λ p lt. (rw e at first) p (omega arith) (omega (arith, v.covered))))
      | inr (page, e) ↦ elim (Bool-cases (leb s.total_pages page)) [
        | inl past ↦
            let (lo, hi, free, below) = rw e at first in
            let full = v.past_end page (ground arith) (omega arith) in absurd (omega arith)
        | inr inside ↦
            rw (e, pmm_alloc_page)
              (rw inside (
                inr (
                  page,
                  took v page (ground arith) (rw e at first).2
                      (λ p lt. (rw e at first).3 p (omega arith) lt),
                )))
      ]
    ]

-- What `pmm_free_page` does to a valid allocator, for every address: it frees the page of the
-- address if that page exists and is in use, and counts it; otherwise it changes nothing.
abbrev pub Freed : Pmm → ℕ → Pmm → Type 0
Freed s page s' =
    ((p : ℕ) → used s'.bitmap p ≡ (if page == p then 0 else used s.bitmap p))
    × (s'.free_pages ≡ s.free_pages + 1)

-- On a valid allocator `pmm_free_page` of any address keeps it valid; it frees and counts the page
-- of the address, and no other, if that page exists and is in use, and changes nothing otherwise.
pub pmm_free_page-Freed :
    {s : Pmm} (addr : ℕ)
    → IsValid s
    → let page = addr / page_size in
      let s' = pmm_free_page s addr in
      IsValid s'
      × ((page < s.total_pages) × (used s.bitmap page ≡ 1) × Freed s page s'
          ⊎ ((s.total_pages ≤ page) ⊎ (used s.bitmap page ≡ 0)) × (s' ≡ s))
unfolding pmm_free_page
pmm_free_page-Freed {s} addr v =
    let page = addr / page_size in
    elim (Bool-cases (ltb page s.total_pages)) [
      | inr past ↦ rw past (v, inr (inl (ground arith), refl))
      | inl low ↦
          let inside : page < s.total_pages = ground arith in
          let test = bitmap_test-used s.bitmap page in
          elim (Bool-cases (used s.bitmap page == 1)) [
            | inl taken ↦
                let one : used s.bitmap page ≡ 1 = ground arith in
                let bits = used-bitmap_clear s.bitmap page (omega (arith, v.size, v.covered)) in
                let flag : (bitmap_test s.bitmap page == 1) ≡ true = rw test taken in
                rw (low, flag)
                  (give_page-IsValid v page inside one, inl (inside, one, (bits, refl)))
            | inr free ↦
                let none_there : used s.bitmap page ≡ 0 =
                  ground (arith, bit-lt_two (get_or s.bitmap (page / 32) 0) (page % 32)) in
                let flag : (bitmap_test s.bitmap page == 1) ≡ false = rw test free in
                rw (low, flag) (v, inr (inr none_there, refl))
          ]
    ]
