-- ===== src/Pmm/Boot/Valid.antt =====
-- `pmm_init` builds a valid allocator in which the kernel's own pages are in use.
use dionnex.Base.{
  ℕ, zero, suc, ◌+◌, ◌-◌, ◌*◌, ◌/◌, ◌%◌, ◌^◌, ◌≤◌, ◌<◌, ◌≡◌, refl, sym, ap, ◌∙◌, inl, inr, List, [],
  ◌∷◌, ltb, get_or, replicate, length-replicate, arith, Bool-cases,
}
use dionnex.Strings.Number.{u32}
use dionnex.Pmm.{Pmm, page_size}
use dionnex.Pmm.Bitmap.{used, AllWords}
use dionnex.Pmm.Scan.{bit-ones}
use dionnex.Pmm.Count.{IsValid, zeros}
use dionnex.Pmm.Boot.{
  MmapEntry, Multiboot, mapped, sized, unknown, max_address, memory_end, all_used, unmark_memory,
  clear_pages, mark, mark_range, first_bitmap_page, last_bitmap_page, pmm_init,
}
use dionnex.Pmm.Boot.Steps.{
  Kept, Kept-self, Kept-trans, unmark_entries-Kept, clear_pages-Kept, Marked, mark-Marked,
  mark_pages-Marked,
}

max_address-lt : (entries : List MmapEntry) (m : ℕ) → m < 2 ^ 32 → max_address entries m < 2 ^ 32
unfolding max_address
max_address-lt [] m h = h
max_address-lt (e ∷ entries) m h = max_address-lt entries _ (ground arith)

memory_end-lt : (mbi : Multiboot) → memory_end mbi < 2 ^ 32
unfolding memory_end
memory_end-lt (mapped entries) = max_address-lt entries 0x1000000 (omega arith)
memory_end-lt (sized mem_upper) = omega arith
memory_end-lt unknown = omega arith

get_or-replicate : (n i : ℕ) (w : ℕ) → i < n → get_or (replicate n w) i 0 ≡ w
get_or-replicate zero i w h = elim h [ ]
get_or-replicate (suc n) zero w h = refl
get_or-replicate (suc n) (suc i) w h = get_or-replicate n i w (omega arith)

AllWords-replicate : (n w : ℕ) → w < 2 ^ 32 → AllWords (replicate n w)
AllWords-replicate zero w h = tt
AllWords-replicate (suc n) w h = (h, AllWords-replicate n w h)

zeros-none : (f : ℕ → ℕ) (n : ℕ) → ((p : ℕ) → p < n → f p ≡ 1) → zeros f n ≡ 0
unfolding zeros
zeros-none f zero ones = refl
zeros-none f (suc n) ones =
    omega (arith, zeros-none f n (λ p lt. ones p (omega arith)), ones n (omega arith))

module _ (total : ℕ) (small : total ≤ 2 ^ 20) where
  all_used-used :
      (p : ℕ) → p < 32 * (all_used total).bitmap_size → used (all_used total).bitmap p ≡ 1
  unfolding all_used
  all_used-used p lt =
      let word = get_or-replicate (u32 (total + 31) / 32) (p / 32) 0xFFFFFFFF (omega arith) in
      rw word (bit-ones (p % 32) (omega arith))

  pub all_used-sizes :
      ((all_used total).total_pages ≡ total)
      × ((all_used total).bitmap_size ≡ u32 (total + 31) / 32)
  unfolding all_used
  all_used-sizes = (refl, refl)

  all_used-covered : total ≤ 32 * (all_used total).bitmap_size
  unfolding all_used
  all_used-covered = omega arith

  all_used-IsValid : IsValid (all_used total)
  unfolding all_used
  all_used-IsValid = record {
    size = sym (length-replicate (u32 (total + 31) / 32) 0xFFFFFFFF);
    words = AllWords-replicate (u32 (total + 31) / 32) 0xFFFFFFFF (omega arith);
    covered = all_used-covered;
    no_wrap = small;
    past_end = λ p lo hi. all_used-used p hi;
    counted = sym (zeros-none _ total (λ p lt. all_used-used p (omega (arith, all_used-covered))));
  }

  clear_low :
      Kept (all_used total) (clear_pages ((all_used total).total_pages - 256) 256 (all_used total))
  unfolding all_used clear_pages
  clear_low = elim (Bool-cases (ltb total 256)) [
    | inl tiny ↦
        let no_pages : total - 256 ≡ 0 = ground arith in rw no_pages (Kept-self all_used-IsValid)
    | inr enough ↦
        clear_pages-Kept (total - 256) 256 all_used-IsValid (ground arith)
          (λ p lo hi. all_used-used p (omega (arith, all_used-covered)))
  ]

  unmark_memory-Kept :
      (mbi : Multiboot) → Kept (all_used total) (unmark_memory mbi (all_used total))
  unfolding unmark_memory
  unmark_memory-Kept (mapped entries) = unmark_entries-Kept entries all_used-IsValid
  unmark_memory-Kept (sized mem_upper) = clear_low
  unmark_memory-Kept unknown = clear_low

-- What the kernel needs of the memory: the last page of the kernel and the last of the bitmap are
-- pages of it, and the bitmap ends below 2^32.
pub record Fits (kernel_start kernel_end : ℕ) (mbi : Multiboot) : Type 0 where
  pub ordered : kernel_start ≤ kernel_end
  pub kernel_in : kernel_end / page_size < memory_end mbi / page_size
  pub bitmap_in :
      last_bitmap_page kernel_end (u32 (memory_end mbi / page_size + 31) / 32)
      < memory_end mbi / page_size
  pub no_wrap : kernel_end + page_size + u32 (memory_end mbi / page_size + 31) / 32 * 4 < 2 ^ 32

-- The pages that the kernel must not hand out: the null page, its own, and those of the bitmap.
pub record Booted (kernel_start kernel_end : ℕ) (mbi : Multiboot) (s : Pmm) : Type 0 where
  pub valid : IsValid s
  pub pages : s.total_pages ≡ memory_end mbi / page_size
  pub null : used s.bitmap 0 ≡ 1
  pub kernel :
      (p : ℕ) → kernel_start / page_size ≤ p → p ≤ kernel_end / page_size → used s.bitmap p ≡ 1
  pub bitmap :
      (p : ℕ)
      → first_bitmap_page kernel_end ≤ p
      → p ≤ last_bitmap_page kernel_end s.bitmap_size
      → used s.bitmap p ≡ 1

-- `for (p = from; p <= to; p++)` marks the pages of the memory.
mark_range-Marked :
    (from to : ℕ) {s : Pmm}
    → IsValid s
    → from ≤ to
    → to < s.total_pages
    → Marked s from (to + 1 - from) (mark_range from to s)
mark_range-Marked from to v order inside = mark_pages-Marked (to + 1 - from) from v (omega arith)

-- If the kernel and its bitmap fit into the memory, `pmm_init` builds a valid allocator of all the
-- memory, whatever the boot loader says of it, and the null page, the kernel's pages and the pages
-- of the bitmap are in use.
pub pmm_init-Booted :
    (kernel_start kernel_end : ℕ) (mbi : Multiboot)
    → Fits kernel_start kernel_end mbi
    → Booted kernel_start kernel_end mbi (pmm_init kernel_start kernel_end mbi)
unfolding pmm_init
pmm_init-Booted kernel_start kernel_end mbi f =
    let total = memory_end mbi / page_size in
    let small : total ≤ 2 ^ 20 = omega (arith, memory_end-lt mbi) in
    let (pages, words) = all_used-sizes total small in
    let free = unmark_memory-Kept total small mbi in
    let guard = mark-Marked free.valid 0 (omega (arith, pages, free.pages, f.kernel_in)) in
    let k0 = Kept-trans free guard.kept in
    let from = kernel_start / page_size in
    let to = kernel_end / page_size in
    let kernel =
      mark_range-Marked from to k0.valid (omega (arith, f.ordered))
        (omega (arith, pages, k0.pages, f.kernel_in)) in
    let k1 = Kept-trans k0 kernel.kept in
    let size = k1.words ∙ words in
    let last =
      last_bitmap_page kernel_end
        (mark_range from to (mark (unmark_memory mbi (all_used total)) 0)).bitmap_size in
    let same : last ≡ last_bitmap_page kernel_end (u32 (total + 31) / 32) =
      ap (last_bitmap_page kernel_end) size in
    let ordered : first_bitmap_page kernel_end ≤ last = omega (arith, f.no_wrap, same) in
    let bits =
      mark_range-Marked (first_bitmap_page kernel_end) last k1.valid ordered
        (omega (arith, pages, k1.pages, same, f.bitmap_in)) in
    let k2 = Kept-trans k1 bits.kept in
    record {
      valid = k2.valid;
      pages = k2.pages ∙ pages;
      null = bits.old 0 (kernel.old 0 (guard.range 0 (omega arith) (omega arith)));
      kernel = λ p lo hi. bits.old p (kernel.range p lo (omega (arith, f.ordered)));
      bitmap = λ p lo hi.
          bits.range p lo
            (omega (arith, ordered, ap (last_bitmap_page kernel_end) bits.kept.words));
    }
