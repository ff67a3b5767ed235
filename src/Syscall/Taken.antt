-- ===== src/Syscall/Taken.antt =====
-- Pages taken from the allocator for a mapping: the tables stay pages in use.
use dionnex.Base.{
  ℕ, zero, suc, ◌+◌, ◌/◌, ◌≤◌, ◌<◌, ◌≡◌, ◌≢◌, true, refl, ◌∙◌, inl, inr, if◌then◌else◌, ◌==◌, arith,
  Bool-cases,
}
use dionnex.Pmm.{Pmm, page_size, pmm_alloc_page}
use dionnex.Pmm.Bitmap.{used}
use dionnex.Pmm.Count.{IsValid, zeros}
use dionnex.Pmm.Alloc.{pmm_alloc_page-first}
use dionnex.Vmm.{Vmm, dir_index, present, dir_entry, ensure_table, vmm_map_page}
use dionnex.Vmm.Entry.{IsPaged}

zeros-none : (f : ℕ → ℕ) (n : ℕ) → ((p : ℕ) → p < n → f p ≡ 1) → zeros f n ≡ 0
unfolding zeros
zeros-none f zero ones = refl
zeros-none f (suc n) ones =
    let front = zeros-none f n (λ p lt. ones p (omega (arith, lt))) in
    let here = ones n (omega arith) in omega (arith, front, here)

-- The allocator after one or more pages were taken from it, page 0 being in use.
pub record Took (p : Pmm) (most : ℕ) (p' : Pmm) : Type 0 where
  pub valid : IsValid p'
  pub first : used p'.bitmap 0 ≡ 1
  pub grown : (q : ℕ) → used p.bitmap q ≡ 1 → used p'.bitmap q ≡ 1
  pub count : p.free_pages ≤ p'.free_pages + most

-- While a page is free, its address is a page above 0.
pub alloc-Took :
    {p : Pmm}
    → IsValid p
    → used p.bitmap 0 ≡ 1
    → 0 < p.free_pages
    → Took p 1 (pmm_alloc_page p).1 × (0 < (pmm_alloc_page p).0 / 4096)
alloc-Took {p} v first some_free = elim (pmm_alloc_page-first v) [
  | inl (at, unchanged, full) ↦
      absurd (omega (arith, some_free, v.counted, zeros-none (used p.bitmap) p.total_pages full))
  | inr (page, (inside, at, free, below, bits, count, undo, valid)) ↦
      let above : page ≢ 0 = λ e. absurd (omega (arith, rw e at free, first)) in
      (
        record {
          valid = valid;
          first = kept (used p.bitmap) (used (pmm_alloc_page p).1.bitmap) page bits 0 first;
          grown = kept (used p.bitmap) (used (pmm_alloc_page p).1.bitmap) page bits;
          count = omega (arith, count);
        },
        omega (arith, at, above),
      )
]
  where
    kept :
        (f g : ℕ → ℕ) (page : ℕ)
        → ((q : ℕ) → g q ≡ (if page == q then 1 else f q))
        → (q : ℕ) → f q ≡ 1
        → g q ≡ 1
    kept f g page bits q e = bits q ∙ ground (arith, e)

-- The page that was taken was free, and is in use.
pub alloc-fresh :
    {p : Pmm}
    → IsValid p
    → 0 < p.free_pages
    → (used p.bitmap ((pmm_alloc_page p).0 / 4096) ≡ 0)
      × (used (pmm_alloc_page p).1.bitmap ((pmm_alloc_page p).0 / 4096) ≡ 1)
alloc-fresh {p} v some_free = elim (pmm_alloc_page-first v) [
  | inl (at, unchanged, full) ↦
      absurd (omega (arith, some_free, v.counted, zeros-none (used p.bitmap) p.total_pages full))
  | inr (page, (inside, at, free, below, bits, count, undo, valid)) ↦
      let index : (pmm_alloc_page p).0 / 4096 ≡ page = omega (arith, at) in
      let here : (page == page) ≡ true = ground arith in rw index (free, bits page ∙ rw here refl)
]

-- The tables are pages in use still.
pub IsPaged-Took : {v : Vmm} {p p' : Pmm} {most : ℕ} → IsPaged v p → Took p most p' → IsPaged v p'
IsPaged-Took {v} g t = record {
  valid = t.valid;
  aligned = g.aligned;
  dir_used = t.grown (v.page_directory / page_size) g.dir_used;
  tables = λ i low on.
      (t.grown (dir_entry v i / page_size) (g.tables i low on).0, (g.tables i low on).1);
  apart = g.apart;
}

pub Took-two : {p p' p'' : Pmm} → Took p 1 p' → Took p' 1 p'' → Took p 2 p''
Took-two s t = record {
  valid = t.valid;
  first = t.first;
  grown = λ q e. t.grown q (s.grown q e);
  count = omega (arith, s.count, t.count);
}

-- A page and, where there is none, a table for it.
pub map-Took :
    {p : Pmm} (v : Vmm) (virt phys flags : ℕ)
    → IsValid p
    → used p.bitmap 0 ≡ 1
    → 0 < p.free_pages
    → Took p 1 (vmm_map_page v p virt phys flags).1
unfolding vmm_map_page ensure_table
map-Took {p} v virt phys flags valid first some_free =
    elim (Bool-cases (present (dir_entry v (dir_index virt)) == 0)) [
      | inl absent ↦ rw absent (alloc-Took valid first some_free).0
      | inr there ↦
          rw there (record { valid = valid; first = first; grown = λ q e. e; count = omega arith })
    ]
