-- ===== src/Object/Sizes.antt =====
-- The copies of the allocated sections, and the block of `module_calc_size` bytes.
use dionnex.Base.{
  ℕ, zero, suc, ◌+◌, ◌*◌, ◌/◌, ◌^◌, ◌≤◌, ◌<◌, ◌≡◌, refl, ◌∙◌, ◌⊎◌, inl, inr, if◌then◌else◌, ltb,
  ◌==◌, arith, Bool-cases,
}
use dionnex.Machine.{Memory, word, set_word}
use dionnex.Machine.Words.{
  word-same, Outside, set_word-Outside, set_bytes-Outside, copy_bytes-Outside,
}
use dionnex.Object.{
  section, sh_type, sh_offset, sh_size, is_alloc, word_aligned, calc_from, place_section,
}
use dionnex.Strings.Number.{u32}

-- A section header's field, behind or before the address that a round writes.
field-place_section :
    (mem : Memory) (s addr k : ℕ)
    → s + 40 ≤ 2 ^ 32
    → (k + 4 ≤ 12) ⊎ ((16 ≤ k) × (k + 4 ≤ 40))
    → word (set_word mem (u32 (s + 12)) addr) (u32 (s + k)) ≡ word mem (u32 (s + k))
field-place_section mem s addr k low (inl h) =
    word-same mem (set_word mem (u32 (s + 12)) addr) (u32 (s + k)) (omega (arith, low, h))
      (λ y from to.
        set_word-Outside mem (u32 (s + 12)) addr y (omega (arith, low))
          (inl (omega (arith, low, h, from, to))))
field-place_section mem s addr k low (inr (h, top)) =
    word-same mem (set_word mem (u32 (s + 12)) addr) (u32 (s + k)) (omega (arith, low, h, top))
      (λ y from to.
        set_word-Outside mem (u32 (s + 12)) addr y (omega (arith, low))
          (inr (omega (arith, low, h, top, from, to))))

-- A round writes the header's `sh_addr` and the section's bytes.
pub place_section-Outside :
    (mem : Memory) (file s addr x : ℕ)
    → s + 40 ≤ 2 ^ 32
    → addr + sh_size mem s < 2 ^ 32
    → Outside addr (sh_size mem s) x
    → Outside (s + 12) 4 x
    → place_section mem file s addr x ≡ mem x
place_section-Outside mem file s addr x low fits out head =
    let moved = set_word mem (u32 (s + 12)) addr in
    let size : sh_size moved s ≡ sh_size mem s =
      field-place_section mem s addr 20 low (inr (omega arith, omega arith)) in
    let at : u32 (s + 12) ≡ s + 12 = omega (arith, low) in
    let kept : moved x ≡ mem x =
      rw at (set_word-Outside mem (s + 12) addr x (omega (arith, low)) head) in
    elim (Bool-cases (sh_type moved s == 8)) [
      | inl e ↦ rw (e, size) (set_bytes-Outside (sh_size mem s) moved addr 0 x fits out ∙ kept)
      | inr e ↦ elim (Bool-cases (ltb 0 (sh_size moved s))) [
        | inl some_bytes ↦
            rw (e, some_bytes)
              (rw size (
                copy_bytes-Outside (sh_size mem s) moved addr (u32 (file + sh_offset moved s)) x
                  fits out
                ∙ kept))
        | inr nothing ↦ rw (e, nothing) kept
      ]
    ]

-- The bytes of the allocated sections from `i` on, each rounded up to a multiple of 4.
unfoldable pub sizes_from : ℕ → Memory → ℕ → ℕ → ℕ
sizes_from zero mem shdrs i = 0
sizes_from (suc n) mem shdrs i =
    let s = section shdrs i in
    (if is_alloc mem s then (sh_size mem s + 3) / 4 * 4 else 0) + sizes_from n mem shdrs (i + 1)

-- `module_calc_size` is their sum, where it is a word.
pub calc_from-sizes_from :
    (n : ℕ) (mem : Memory) (shdrs i total : ℕ)
    → total + sizes_from n mem shdrs i < 2 ^ 32
    → calc_from n mem shdrs i total ≡ total + sizes_from n mem shdrs i
unfolding calc_from sizes_from
calc_from-sizes_from zero mem shdrs i total low = omega arith
calc_from-sizes_from (suc n) mem shdrs i total low =
    elim (Bool-cases (is_alloc mem (section shdrs i))) [
      | inl e ↦
          let low' = rw e at low in
          let size = sh_size mem (section shdrs i) in
          let next : u32 (total + word_aligned size) ≡ total + (size + 3) / 4 * 4 =
            omega (arith, low') in
          rw (e, next)
            (calc_from-sizes_from n mem shdrs (i + 1) (total + (size + 3) / 4 * 4)
                (omega (arith, low'))
              ∙ omega arith)
      | inr e ↦
          let low' = rw e at low in
          rw e (calc_from-sizes_from n mem shdrs (i + 1) total (omega (arith, low')) ∙ omega arith)
    ]

-- The sizes are those of the headers' bytes.
pub sizes_from-same :
    (n : ℕ) (old new : Memory) (shdrs i : ℕ)
    → shdrs + 40 * (i + n) ≤ 2 ^ 32
    → ((y : ℕ) → shdrs + 40 * i ≤ y → y < shdrs + 40 * (i + n) → new y ≡ old y)
    → sizes_from n new shdrs i ≡ sizes_from n old shdrs i
unfolding sizes_from
sizes_from-same zero old new shdrs i low same = refl
sizes_from-same (suc n) old new shdrs i low same =
    let s = section shdrs i in
    let at : s ≡ shdrs + 40 * i = omega (arith, low) in
    let rest =
      sizes_from-same n old new shdrs (i + 1) (omega (arith, low))
        (λ y from to. same y (omega (arith, from)) (omega (arith, to))) in
    let flags =
      word-same old new (u32 (s + 8)) (omega (arith, low, at))
        (λ y from to. same y (omega (arith, from, at, low)) (omega (arith, to, at, low))) in
    let size =
      word-same old new (u32 (s + 20)) (omega (arith, low, at))
        (λ y from to. same y (omega (arith, from, at, low)) (omega (arith, to, at, low))) in
    rw (rest, flags, size) refl
