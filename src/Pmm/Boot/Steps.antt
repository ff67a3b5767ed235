-- ===== src/Pmm/Boot/Steps.antt =====
-- The steps of `pmm_init` keep the allocator valid.
use dionnex.Base.{
  ℕ, zero, suc, ◌+◌, ◌/◌, ◌%◌, ◌&&◌, ◌≤◌, ◌<◌, ◌≡◌, refl, ◌∙◌, inl, inr, List, [], ◌∷◌, ltb, ◌==◌,
  get_or, arith, Bool-cases,
}
use dionnex.Base.Bits.{bit-lt_two}
use dionnex.Strings.Number.{u32}
use dionnex.Pmm.{Pmm, page_size, bitmap_test}
use dionnex.Pmm.Bitmap.{used, bitmap_test-used, used-bitmap_set, used-bitmap_clear}
use dionnex.Pmm.Count.{IsValid}
use dionnex.Pmm.Alloc.{give_page, take_page-IsValid, give_page-IsValid}
use dionnex.Pmm.Boot.{
  MmapEntry, unmark, unmark_pages, unmark_entries, clear_pages, mark, mark_pages,
}

-- The allocator is valid and manages the memory that `s` manages.
pub record Kept (s s' : Pmm) : Type 0 where
  pub valid : IsValid s'
  pub pages : s'.total_pages ≡ s.total_pages
  pub words : s'.bitmap_size ≡ s.bitmap_size

pub Kept-self : {s : Pmm} → IsValid s → Kept s s
Kept-self v = record { valid = v; pages = refl; words = refl }

pub Kept-trans : {s s' s'' : Pmm} → Kept s s' → Kept s' s'' → Kept s s''
Kept-trans k l = record { valid = l.valid; pages = l.pages ∙ k.pages; words = l.words ∙ k.words }

unmark-Kept : {s : Pmm} → IsValid s → (page : ℕ) → Kept s (unmark s page)
unfolding unmark
unmark-Kept {s} v page =
    elim (Bool-cases (ltb page s.total_pages && bitmap_test s.bitmap page == 1)) [
      | inr still ↦ rw still (Kept-self v)
      | inl test ↦
          let inside : page < s.total_pages = ground (arith, test) in
          let taken : used s.bitmap page ≡ 1 =
            ground (arith, test, bitmap_test-used s.bitmap page) in
          rw test
            (record { valid = give_page-IsValid v page inside taken; pages = refl; words = refl })
    ]

unmark_pages-Kept : (n page : ℕ) {s : Pmm} → IsValid s → Kept s (unmark_pages n page s)
unfolding unmark_pages
unmark_pages-Kept zero page v = Kept-self v
unmark_pages-Kept (suc n) page v =
    let k = unmark-Kept v page in Kept-trans k (unmark_pages-Kept n (u32 (page + 1)) k.valid)

pub unmark_entries-Kept :
    (entries : List MmapEntry) {s : Pmm} → IsValid s → Kept s (unmark_entries entries s)
unfolding unmark_entries
unmark_entries-Kept [] v = Kept-self v
unmark_entries-Kept (e ∷ entries) {s} v = elim (Bool-cases (e.kind == 1)) [
  | inl available ↦
      let k = unmark_pages-Kept (e.len_low / page_size) (e.addr_low / page_size) v in
      rw available (Kept-trans k (unmark_entries-Kept entries k.valid))
  | inr reserved ↦ rw reserved (unmark_entries-Kept entries v)
]

-- Every page from `page` to the end is in use.
pub clear_pages-Kept :
    (n page : ℕ) {s : Pmm}
    → IsValid s
    → page + n ≤ s.total_pages
    → ((p : ℕ) → page ≤ p → p < s.total_pages → used s.bitmap p ≡ 1)
    → Kept s (clear_pages n page s)
unfolding clear_pages
clear_pages-Kept zero page v room full = Kept-self v
clear_pages-Kept (suc n) page {s} v room full =
    let inside : page < s.total_pages = omega arith in
    let k : Kept s (give_page s page) = record {
      valid = give_page-IsValid v page inside (full page (omega arith) inside);
      pages = refl;
      words = refl;
    } in
    Kept-trans k (
      clear_pages-Kept n (page + 1) k.valid (omega arith) (λ p lo hi. ground (
        arith,
        used-bitmap_clear s.bitmap page (omega (arith, v.size, v.covered)) p,
        full p (omega arith) hi,
      )))

-- What marking pages does: the range is in use, and what was in use still is.
pub record Marked (s : Pmm) (from n : ℕ) (s' : Pmm) : Type 0 where
  pub kept : Kept s s'
  pub range : (p : ℕ) → from ≤ p → p < from + n → used s'.bitmap p ≡ 1
  pub old : (p : ℕ) → used s.bitmap p ≡ 1 → used s'.bitmap p ≡ 1

pub mark-Marked :
    {s : Pmm} → IsValid s → (page : ℕ) → page < s.total_pages → Marked s page 1 (mark s page)
unfolding mark
mark-Marked {s} v page inside = elim (Bool-cases (bitmap_test s.bitmap page == 0)) [
  | inr test ↦
      let taken : used s.bitmap page ≡ 1 = ground (
        arith,
        test,
        bitmap_test-used s.bitmap page,
        bit-lt_two (get_or s.bitmap (page / 32) 0) (page % 32),
      ) in
      rw test (record {
        kept = Kept-self v;
        range = λ p lo hi. let e : p ≡ page = omega arith in rw e taken;
        old = λ p h. h;
      })
  | inl test ↦
      let free : used s.bitmap page ≡ 0 = ground (arith, test, bitmap_test-used s.bitmap page) in
      let bits = used-bitmap_set s.bitmap page (omega (arith, v.size, v.covered)) in
      rw test (record {
        kept = record { valid = take_page-IsValid v page inside free; pages = refl; words = refl };
        range = λ p lo hi. ground (arith, bits p);
        old = λ p h. ground (arith, bits p, h);
      })
]

pub mark_pages-Marked :
    (n from : ℕ) {s : Pmm}
    → IsValid s
    → from + n ≤ s.total_pages
    → Marked s from n (mark_pages n from s)
unfolding mark_pages
mark_pages-Marked zero from v room = record {
  kept = Kept-self v;
  range = λ p lo hi. absurd (omega arith);
  old = λ p h. h;
}
mark_pages-Marked (suc n) from {s} v room =
    let first = mark-Marked v from (omega arith) in
    let rest = mark_pages-Marked n (from + 1) first.kept.valid (omega (arith, first.kept.pages)) in
    record {
      kept = Kept-trans first.kept rest.kept;
      range = λ p lo hi. elim (Bool-cases (p == from)) [
        | inl here ↦ rest.old p (first.range p lo (ground (arith, here)))
        | inr later ↦ rest.range p (ground (arith, later)) (omega arith)
      ];
      old = λ p h. rest.old p (first.old p h);
    }
