-- ===== src/Object/Copies.antt =====
-- The loop of `module_load_binary` that copies the allocated sections.
use dionnex.Base.{
  ℕ, zero, suc, ◌+◌, ◌*◌, ◌/◌, ◌^◌, ◌≤◌, ◌<◌, ◌≡◌, refl, sym, ◌∙◌, ◌⊎◌, inl, inr, arith, Bool-cases,
}
use mathlib.Core.Path.{subst}
use dionnex.Machine.{Memory}
use dionnex.Machine.Words.{Outside, word-same}
use dionnex.Object.{
  section, section_headers, e_shnum, module_calc_size, sh_size, is_alloc, word_aligned,
  place_section, copy_sections,
}
use dionnex.Object.Sizes.{place_section-Outside, sizes_from, sizes_from-same, calc_from-sizes_from}
use dionnex.Strings.Number.{u32}

-- The sum over all sections of the file.
abbrev pub total_of : Memory → ℕ → ℕ
total_of mem file = sizes_from (e_shnum mem file) mem (section_headers mem file) 0

-- Two ranges with nothing in common.
abbrev pub Apart : ℕ → ℕ → ℕ → ℕ → Type 0
Apart a n b m = (a + n ≤ b) ⊎ (b + m ≤ a)

Outside-Apart : (a n b m x : ℕ) → Apart a n b m → b ≤ x → x < b + m → Outside a n x
Outside-Apart a n b m x (inl h) from to = inr (omega (arith, h, from))
Outside-Apart a n b m x (inr h) from to = inl (omega (arith, h, to))

-- The ranges of the next round.
module _ (base offset next size rest shdrs i n : ℕ) (e : next ≡ offset + size) where
  next-Apart :
      Apart (base + offset) (size + rest) (shdrs + 40 * i) (40 * suc n)
      → Apart (base + next) rest (shdrs + 40 * (i + 1)) (40 * n)
  next-Apart (inl h) = inl (omega (arith, h, e))
  next-Apart (inr h) = inr (omega (arith, h, e))

  next_block : (x : ℕ) → Outside (base + offset) (size + rest) x → Outside (base + next) rest x
  next_block x (inl h) = inl (omega (arith, h, e))
  next_block x (inr h) = inr (omega (arith, h, e))

  next_heads :
      (x : ℕ) → Outside (shdrs + 40 * i) (40 * suc n) x → Outside (shdrs + 40 * (i + 1)) (40 * n) x
  next_heads x (inl h) = inl (omega (arith, h))
  next_heads x (inr h) = inr (omega (arith, h))

this_head :
    (shdrs i n x : ℕ) → Outside (shdrs + 40 * i) (40 * suc n) x → Outside (shdrs + 40 * i + 12) 4 x
this_head shdrs i n x (inl h) = inl (omega (arith, h))
this_head shdrs i n x (inr h) = inr (omega (arith, h))

abbrev rounded : ℕ → ℕ
rounded size = (size + 3) / 4 * 4

module _ (mem : Memory) (file shdrs base i offset rest n : ℕ) where
  abbrev size_at : ℕ
  size_at = sh_size mem (section shdrs i)

  abbrev placed : Memory
  placed = place_section mem file (section shdrs i) (u32 (base + offset))

  -- A round changes the bytes of its section and its header only.
  placed-Outside :
      (x : ℕ)
      → shdrs + 40 * i + 40 ≤ 2 ^ 32
      → base + offset + (rounded size_at + rest) < 2 ^ 32
      → Outside (base + offset) (rounded size_at + rest) x
      → Outside (shdrs + 40 * i + 12) 4 x
      → placed x ≡ mem x
  placed-Outside x low block out head =
      let at : section shdrs i ≡ shdrs + 40 * i = omega (arith, low) in
      let to : u32 (base + offset) ≡ base + offset = omega (arith, block) in
      place_section-Outside mem file (section shdrs i) (u32 (base + offset)) x
        (omega (arith, at, low)) (omega (arith, to, block)) (inside out)
        (subst (λ (s : ℕ). Outside (s + 12) 4 x) (sym at) head)
    where
      inside :
          Outside (base + offset) (rounded size_at + rest) x
          → Outside (u32 (base + offset)) size_at x
      inside (inl h) = inl (omega (arith, h, block))
      inside (inr h) = inr (omega (arith, h, block))

  module _ (low : shdrs + 40 * (i + suc n) ≤ 2 ^ 32)
      (block : base + offset + (rounded size_at + rest) < 2 ^ 32)
      (apart : Apart (base + offset) (rounded size_at + rest) (shdrs + 40 * i) (40 * suc n)) where
    placed-heads :
        (y : ℕ)
        → shdrs + 40 * i ≤ y
        → y < shdrs + 40 * (i + suc n)
        → Outside (shdrs + 40 * i + 12) 4 y
        → placed y ≡ mem y
    placed-heads y from to head =
        placed-Outside y (omega (arith, low)) block
          (Outside-Apart (base + offset) (rounded size_at + rest) (shdrs + 40 * i) (40 * suc n) y
            apart (omega (arith, from)) (omega (arith, to)))
          head

    placed-sizes : sizes_from n placed shdrs (i + 1) ≡ sizes_from n mem shdrs (i + 1)
    placed-sizes = sizes_from-same n mem placed shdrs (i + 1) (omega (arith, low)) (λ y from to.
        placed-heads y (omega (arith, from)) (omega (arith, to)) (inr (omega (arith, from))))

    placed-offset :
        u32 (offset + word_aligned (sh_size placed (section shdrs i))) ≡ offset + rounded size_at
    placed-offset =
        let at : section shdrs i ≡ shdrs + 40 * i = omega (arith, low) in
        let same =
          word-same mem placed (u32 (section shdrs i + 20)) (omega (arith, at, low)) (λ y from to.
            placed-heads y (omega (arith, from, at, low)) (omega (arith, to, at, low))
              (inr (omega (arith, from, at, low)))) in
        rw same (omega (arith, block))

copy_from :
    (n : ℕ) (mem : Memory) (file shdrs base i offset x : ℕ)
    → shdrs + 40 * (i + n) ≤ 2 ^ 32
    → base + offset + sizes_from n mem shdrs i < 2 ^ 32
    → Apart (base + offset) (sizes_from n mem shdrs i) (shdrs + 40 * i) (40 * n)
    → Outside (base + offset) (sizes_from n mem shdrs i) x
    → Outside (shdrs + 40 * i) (40 * n) x
    → ((copy_sections n mem file shdrs base i offset).0 x ≡ mem x)
      × ((copy_sections n mem file shdrs base i offset).1 ≡ offset + sizes_from n mem shdrs i)
unfolding copy_sections sizes_from
copy_from zero mem file shdrs base i offset x low block apart out head = (refl, omega arith)
copy_from (suc n) mem file shdrs base i offset x low block apart out head =
    let rest = sizes_from n mem shdrs (i + 1) in
    elim (Bool-cases (is_alloc mem (section shdrs i))) [
      | inr e ↦
          let same : offset ≡ offset + 0 = omega arith in
          let (kept, last) =
            copy_from n mem file shdrs base (i + 1) offset x (omega (arith, low))
              (omega (arith, rw e at block))
              (next-Apart base offset offset 0 rest shdrs i n same (rw e at apart))
              (next_block base offset offset 0 rest shdrs i n same x (rw e at out))
              (next_heads base offset offset 0 rest shdrs i n same x head) in
          rw (e, copy_sections) (kept, last ∙ omega arith)
      | inl e ↦
          let size = size_at mem file shdrs base i offset rest n in
          let mem' = placed mem file shdrs base i offset rest n in
          let block' = rw e at block in
          let apart' = rw e at apart in
          let out' = rw e at out in
          let next = placed-offset mem file shdrs base i offset rest n low block' apart' in
          let sizes = placed-sizes mem file shdrs base i offset rest n low block' apart' in
          let offset' = u32 (offset + word_aligned (sh_size mem' (section shdrs i))) in
          let (kept, last) =
            copy_from n mem' file shdrs base (i + 1) offset' x (omega (arith, low))
              (omega (arith, block', next, sizes))
              (rw sizes (next-Apart base offset offset' (rounded size) rest shdrs i n next apart'))
              (rw sizes (next_block base offset offset' (rounded size) rest shdrs i n next x out'))
              (next_heads base offset offset' (rounded size) rest shdrs i n next x head) in
          let same =
            placed-Outside mem file shdrs base i offset rest n x (omega (arith, low)) block' out'
              (this_head shdrs i n x head) in
          rw (e, copy_sections) (kept ∙ same, last ∙ omega (arith, next, sizes))
    ]

-- Where the sum of the sizes of the allocated sections, each rounded up to a multiple of 4, ends
-- below 2 ^ 32 from `base` on, and the block of so many bytes lies apart from the section headers:
-- `module_calc_size` gives the sum, the loop ends at it, and a byte outside of the block and of the
-- headers stays.
pub copy_sections-module_calc_size :
    (mem : Memory) (file base x : ℕ)
    → section_headers mem file + 40 * e_shnum mem file ≤ 2 ^ 32
    → base + total_of mem file < 2 ^ 32
    → Apart base (total_of mem file) (section_headers mem file) (40 * e_shnum mem file)
    → Outside base (total_of mem file) x
    → Outside (section_headers mem file) (40 * e_shnum mem file) x
    → ((copy_sections (e_shnum mem file) mem file (section_headers mem file) base 0 0).0 x ≡ mem x)
      × ((copy_sections (e_shnum mem file) mem file (section_headers mem file) base 0 0).1
          ≡ module_calc_size mem file)
      × (module_calc_size mem file ≡ total_of mem file)
unfolding module_calc_size
copy_sections-module_calc_size mem file base x low block apart out head =
    let n = e_shnum mem file in
    let shdrs = section_headers mem file in
    let b : base ≡ base + 0 = omega arith in
    let h : shdrs ≡ shdrs + 40 * 0 = omega arith in
    let total = calc_from-sizes_from n mem shdrs 0 0 (omega (arith, block)) in
    let zero_total : 0 + total_of mem file ≡ total_of mem file = omega arith in
    let (kept, last) =
      copy_from n mem file shdrs base 0 0 x (omega (arith, low)) (omega (arith, block))
        (subst (λ (a : ℕ). Apart a (total_of mem file) (shdrs + 40 * 0) (40 * n)) b
          (subst (λ (a : ℕ). Apart base (total_of mem file) a (40 * n)) h apart))
        (subst (λ (a : ℕ). Outside a (total_of mem file) x) b out)
        (subst (λ (a : ℕ). Outside a (40 * n) x) h head) in
    (kept, last ∙ sym total, total ∙ zero_total)
