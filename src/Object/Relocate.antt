-- ===== src/Object/Relocate.antt =====
-- What a relocation writes.
use dionnex.Base.{
  ℕ, ◌+◌, ◌-◌, ◌%◌, ◌^◌, ◌<◌, ◌≡◌, ◌≢◌, refl, ◌∙◌, inl, inr, true, ◌==◌, arith, Bool-cases,
}
use dionnex.Machine.{Memory, half, word}
use dionnex.Machine.Words.{
  set_byte-other, set_half-other, set_word-other, half-set_half, word-set_word,
}
use dionnex.Object.{relocate}
use dionnex.Strings.Number.{u32}

relocate_other :
    (mem : Memory) (type s p x : ℕ)
    → x ≢ p
    → x ≢ u32 (p + 1)
    → x ≢ u32 (p + 2)
    → x ≢ u32 (p + 3)
    → relocate mem type s p x ≡ mem x
unfolding relocate
relocate_other mem type s p x h₀ h₁ h₂ h₃ = elim (Bool-cases (type == 1)) [
  | inl e ↦ rw e (set_word-other mem p _ x h₀ h₁ h₂ h₃)
  | inr e₁ ↦ elim (Bool-cases (type == 2)) [
    | inl e ↦ rw (e₁, e) (set_word-other mem p _ x h₀ h₁ h₂ h₃)
    | inr e₂ ↦ elim (Bool-cases (type == 4)) [
      | inl e ↦ rw (e₁, e₂, e) (set_half-other mem p _ x h₀ h₁)
      | inr e₃ ↦ elim (Bool-cases (type == 5)) [
        | inl e ↦ rw (e₁, e₂, e₃, e) (set_byte-other mem p _ x h₀)
        | inr e ↦ rw (e₁, e₂, e₃, e) refl
      ]
    ]
  ]
]

-- A relocation at `p` for a symbol at `s`: R_386_32 adds `s` to the word at `p`; R_386_PC32 leaves
-- there a distance that from `p` leads to the place `s` and the old word further; R_386_16 and
-- R_386_8 add `s` to the half word and to the byte; and whatever the type, a byte that is none of
-- the four from `p` on stays.
pub relocate-word :
    (mem : Memory) (type s p x : ℕ)
    → p < 2 ^ 32
    → s < 2 ^ 32
    → x ≢ p
    → x ≢ u32 (p + 1)
    → x ≢ u32 (p + 2)
    → x ≢ u32 (p + 3)
    → (word (relocate mem 1 s p) p ≡ u32 (word mem p + s))
      × (u32 (p + word (relocate mem 2 s p) p) ≡ u32 (s + word mem p))
      × (half (relocate mem 4 s p) p ≡ (half mem p + s) % 65536)
      × (relocate mem 5 s p p ≡ (mem p + s) % 256)
      × (relocate mem type s p x ≡ mem x)
unfolding relocate
relocate-word mem type s p x place target h₀ h₁ h₂ h₃ =
    let here : (p == p) ≡ true = ground arith in
    let pc = word-set_word mem p (u32 (word mem p + u32 (s + 2 ^ 32 - p))) place (omega arith) in
    (
      word-set_word mem p (u32 (word mem p + s)) place (omega arith),
      rw pc (distance (word mem p) s p place target),
      half-set_half mem p ((half mem p + s % 65536) % 65536) place ∙ omega arith,
      rw here (omega arith),
      relocate_other mem type s p x h₀ h₁ h₂ h₃,
    )
  where
    distance :
        (w s p : ℕ)
        → p < 2 ^ 32
        → s < 2 ^ 32
        → u32 (p + u32 (w + u32 (s + 2 ^ 32 - p))) ≡ u32 (s + w)
    distance w s p place target = omega (arith, place, target)
