-- ===== src/Syscall/Mmap.antt =====
-- Pages that are mapped to frames from the allocator, and `sys_mmap`, while pages are free.
use dionnex.Base.{
  ℕ, zero, suc, ◌+◌, ◌*◌, ◌/◌, ◌%◌, ◌^◌, ◌≤◌, ◌<◌, ◌≡◌, ◌≢◌, refl, sym, ◌∙◌, inl, inr, true, false,
  if◌then◌else◌, ◌==◌, get_or, arith, Bool-cases,
}
use dionnex.Base.Bits.{bit}
use dionnex.Pmm.{Pmm, page_size, pmm_alloc_page}
use dionnex.Pmm.Bitmap.{used}
use dionnex.Strings.Number.{u32}
use dionnex.Vmm.{Vmm, vmm_map_page, vmm_get_phys}
use dionnex.Vmm.Entry.{IsPaged}
use dionnex.Vmm.Map.{vmm_get_phys-vmm_map_page}
use dionnex.Syscall.{Kernel, page_count, map_pages, sys_mmap}
use dionnex.Syscall.Taken.{Took, alloc-Took, alloc-fresh, IsPaged-Took, Took-two, map-Took}
use dionnex.Syscall.Pages.{in_pages}

-- What an address is translated to lies, at its offset, in a page that was free before and is in use
-- afterwards.
abbrev Fresh : Pmm → Pmm → ℕ → ℕ → Type 0
Fresh p p' phys a =
    (f : ℕ) × (phys ≡ f * 4096 + a % 4096) × (used p.bitmap f ≡ 0) × (used p'.bitmap f ≡ 1)

-- The tables and the allocator after `n` pages were mapped from `from` on: each to a frame of its own
-- that was free, and no other 32-bit address to anything else than before.
pub record Mapped (v : Vmm) (p : Pmm) (from n : ℕ) (v' : Vmm) (p' : Pmm) : Type 0 where
  pub paged : IsPaged v' p'
  pub grown : (q : ℕ) → used p.bitmap q ≡ 1 → used p'.bitmap q ≡ 1
  pub inside : (a : ℕ) → a < 2 ^ 32 → in_pages from n a ≡ true → Fresh p p' (vmm_get_phys v' a) a
  pub outside :
      (a : ℕ) → a < 2 ^ 32 → in_pages from n a ≡ false → vmm_get_phys v' a ≡ vmm_get_phys v a
  pub apart :
      (a b : ℕ)
      → a < 2 ^ 32
      → b < 2 ^ 32
      → in_pages from n a ≡ true
      → in_pages from n b ≡ true
      → a / 4096 ≢ b / 4096
      → vmm_get_phys v' a / 4096 ≢ vmm_get_phys v' b / 4096

pub Mapped-zero : {v : Vmm} {p : Pmm} (from : ℕ) → IsPaged v p → Mapped v p from 0 v p
Mapped-zero from g = record {
  paged = g;
  grown = λ q e. e;
  inside = λ a low h. absurd (ground (arith, h));
  outside = λ a low h. refl;
  apart = λ a b low_a low_b h. absurd (ground (arith, h));
}

map_one :
    {v : Vmm} {p : Pmm} (virt : ℕ)
    → IsPaged v p
    → used p.bitmap 0 ≡ 1
    → 2 ≤ p.free_pages
    → virt < 2 ^ 32
    → let (paddr, p') = pmm_alloc_page p in
      let r = vmm_map_page v p' virt paddr 7 in
      ((paddr == 0) ≡ false) × Took p 2 r.1 × Mapped v p (virt / 4096) 1 r.0 r.1
map_one {v} {p} virt g first two low =
    let (t, above) = alloc-Took g.valid first (omega (arith, two)) in
    let (t', above') = alloc-Took t.valid t.first (omega (arith, two, t.count)) in
    let (free, taken) = alloc-fresh g.valid (omega (arith, two)) in
    let m = map-Took v virt (pmm_alloc_page p).0 7 t.valid t.first (omega (arith, two, t.count)) in
    let (paged, found) =
      vmm_get_phys-vmm_map_page virt (pmm_alloc_page p).0 7 (IsPaged-Took g t)
        (inr (λ e. absurd (omega (arith, e, above')))) low (omega arith) in
    let both = Took-two t m in
    (
      ground (arith, above),
      both,
      record {
        paged = paged;
        grown = both.grown;
        inside = λ a top h.
            let is : (a / page_size == virt / page_size) ≡ true = ground (arith, h) in
            (
              (pmm_alloc_page p).0 / 4096,
              rw is at (found a top),
              free,
              m.grown ((pmm_alloc_page p).0 / 4096) taken,
            );
        outside = λ a top h.
            let other : (a / page_size == virt / page_size) ≡ false = ground (arith, h) in
            rw other at (found a top);
        apart = λ a b top_a top_b h_a h_b ne. absurd (ne (ground (arith, h_a, h_b)));
      },
    )

bit_lt : (w k : ℕ) → bit w k < 2
bit_lt w zero = omega arith
bit_lt w (suc k) = bit_lt (w / 2) k

-- First the first page, then the others.
module _ {v₀ v₁ v₂ : Vmm} {p₀ p₁ p₂ : Pmm} {from n : ℕ} (s : Mapped v₀ p₀ from 1 v₁ p₁)
    (t : Mapped v₁ p₁ (from + 1) n v₂ p₂) where
  first_page :
      (a : ℕ)
      → a < 2 ^ 32
      → (a / 4096 == from) ≡ true
      → (f : ℕ) × (vmm_get_phys v₂ a ≡ f * 4096 + a % 4096)
        × (used p₀.bitmap f ≡ 0)
        × (used p₁.bitmap f ≡ 1)
  first_page a low is =
      let (f, at, free, taken) = s.inside a low (ground (arith, is)) in
      (f, t.outside a low (ground (arith, is)) ∙ at, free, taken)

  later_page :
      (a : ℕ)
      → a < 2 ^ 32
      → (a / 4096 == from) ≡ false
      → in_pages from (suc n) a ≡ true
      → Fresh p₁ p₂ (vmm_get_phys v₂ a) a
  later_page a low other h = t.inside a low (ground (arith, other, h))

  first_apart :
      (a b : ℕ)
      → a < 2 ^ 32
      → b < 2 ^ 32
      → (a / 4096 == from) ≡ true
      → (b / 4096 == from) ≡ false
      → in_pages from (suc n) b ≡ true
      → vmm_get_phys v₂ a / 4096 ≢ vmm_get_phys v₂ b / 4096
  first_apart a b low_a low_b is other h e =
      let (f, at, free, taken) = first_page a low_a is in
      let (f', at', free', taken') = later_page b low_b other h in
      let same : f ≡ f' = omega (arith, at, at', e) in
      absurd (omega (arith, rw same at taken, free'))

  Mapped-suc : Mapped v₀ p₀ from (suc n) v₂ p₂
  Mapped-suc = record {
    paged = t.paged;
    grown = λ q e. t.grown q (s.grown q e);
    inside = λ a low h. elim (Bool-cases (a / 4096 == from)) [
      | inl is ↦ let (f, at, free, taken) = first_page a low is in (f, at, free, t.grown f taken)
      | inr other ↦
          let (f, at, free, taken) = later_page a low other h in (f, at, still_free f free, taken)
    ];
    outside = λ a low h. t.outside a low (ground (arith, h)) ∙ s.outside a low (ground (arith, h));
    apart = λ a b low_a low_b h_a h_b ne. elim (Bool-cases (a / 4096 == from)) [
      | inl is_a ↦ elim (Bool-cases (b / 4096 == from)) [
        | inl is_b ↦ absurd (ne (ground (arith, is_a, is_b)))
        | inr other_b ↦ first_apart a b low_a low_b is_a other_b h_b
      ]
      | inr other_a ↦ elim (Bool-cases (b / 4096 == from)) [
        | inl is_b ↦ λ e. first_apart b a low_b low_a is_b other_a h_a (sym e)
        | inr other_b ↦
            t.apart a b low_a low_b (ground (arith, other_a, h_a)) (ground (arith, other_b, h_b)) ne
      ]
    ];
  }
    where
      still_free : (f : ℕ) → used p₁.bitmap f ≡ 0 → used p₀.bitmap f ≡ 0
      still_free f free = elim (Bool-cases (used p₀.bitmap f == 1)) [
        | inl on ↦ absurd (omega (arith, s.grown f (ground (arith, on)), free))
        | inr off ↦
            let low = bit_lt (get_or p₀.bitmap (f / 32) 0) (f % 32) in ground (arith, off, low)
      ]

pub map_pages-Mapped :
    (n : ℕ) (v : Vmm) (p : Pmm) (start i : ℕ)
    → IsPaged v p
    → used p.bitmap 0 ≡ 1
    → 2 * n ≤ p.free_pages
    → start / 4096 * 4096 + (i + n) * 4096 ≤ 2 ^ 32
    → start < 2 ^ 32
    → let r = map_pages n v p start i in Mapped v p (start / 4096 + i) n r.0 r.1
unfolding map_pages
map_pages-Mapped zero v p start i g first pages room low = Mapped-zero (start / 4096 + i) g
map_pages-Mapped (suc n) v p start i g first pages room low =
    let virt = u32 (start + i * 4096) in
    let page : virt / 4096 ≡ start / 4096 + i = omega (arith, room, low) in
    let next : start / 4096 + (i + 1) ≡ start / 4096 + i + 1 = omega arith in
    let (there, took, one) =
      map_one {v = v} {p = p} virt g first (omega (arith, pages)) (omega arith) in
    let r = vmm_map_page v (pmm_alloc_page p).1 virt (pmm_alloc_page p).0 7 in
    let rest =
      map_pages-Mapped n r.0 r.1 start (i + 1) one.paged took.first
        (omega (arith, pages, took.count)) (omega (arith, room)) low in
    let r' = map_pages n r.0 r.1 start (i + 1) in
    let one' : Mapped v p (start / 4096 + i) 1 r.0 r.1 = rw page at one in
    let rest' : Mapped r.0 r.1 (start / 4096 + i + 1) n r'.0 r'.1 = rw next at rest in
    rw (there, map_pages) (Mapped-suc one' rest')

-- Where `sys_mmap` puts the pages.
abbrev pub mmap_start : ℕ → ℕ
mmap_start addr = if addr == 0 then 0x40000000 else addr

-- On tables that are pages in use and all different, with page 0 in use, `sys_mmap` of a length above
-- 0 and at most 2 ^ 32 - 4096 at a 32-bit address, with two free pages for each page of the range,
-- which ends within the 32 bits, returns the start and keeps the tables so. Afterwards every address
-- of the pages is translated, at its offset, into a page that was free before and is in use now,
-- addresses of different pages into different ones, and every other 32-bit address as before.
pub sys_mmap-vmm_get_phys :
    (k : Kernel) (addr len : ℕ)
    → IsPaged k.tables k.pages
    → used k.pages.bitmap 0 ≡ 1
    → 0 < len
    → len + 4095 < 2 ^ 32
    → addr < 2 ^ 32
    → 2 * ((len + 4095) / 4096) ≤ k.pages.free_pages
    → mmap_start addr / 4096 * 4096 + (len + 4095) / 4096 * 4096 ≤ 2 ^ 32
    → let k' = (sys_mmap k addr len).0 in
      ((sys_mmap k addr len).1 ≡ mmap_start addr)
      × Mapped k.tables k.pages (mmap_start addr / 4096) ((len + 4095) / 4096) k'.tables k'.pages
unfolding sys_mmap
sys_mmap-vmm_get_phys k addr len g first some_len small low pages room =
    let count : page_count len ≡ (len + 4095) / 4096 = omega (arith, small) in
    let some_pages : (len == 0) ≡ false = ground (arith, some_len) in
    let start = mmap_start addr in
    let n = (len + 4095) / 4096 in
    let start_low : start < 2 ^ 32 = ground (arith, low) in
    let begin : start / 4096 + 0 ≡ start / 4096 = omega arith in
    let mapped =
      map_pages-Mapped n k.tables k.pages start 0 g first pages (omega (arith, room)) start_low in
    let r = map_pages n k.tables k.pages start 0 in
    let mapped' : Mapped k.tables k.pages (start / 4096) n r.0 r.1 = rw begin at mapped in
    rw (some_pages, count) (refl, mapped')
