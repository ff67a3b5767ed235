-- ===== src/Machine/Words.antt =====
-- What is read where a byte, a half word or a word was written, and elsewhere.
use dionnex.Base.{
  ℕ, zero, suc, ◌+◌, ◌/◌, ◌%◌, ◌^◌, ◌≤◌, ◌<◌, ◌≡◌, ◌≢◌, refl, ◌∙◌, ◌⊎◌, inl, inr, true, false, ◌==◌,
  arith,
}
use dionnex.Machine.{Memory, half, word, set_byte, set_half, set_word, set_bytes, copy_bytes}
use dionnex.Strings.Number.{u32}

pub set_byte-other : (mem : Memory) (a v x : ℕ) → x ≢ a → set_byte mem a v x ≡ mem x
set_byte-other mem a v x other = let e : (x == a) ≡ false = ground (arith, other) in rw e refl

pub set_half-other :
    (mem : Memory) (a v x : ℕ) → x ≢ a → x ≢ u32 (a + 1) → set_half mem a v x ≡ mem x
unfolding set_half
set_half-other mem a v x h₀ h₁ =
    let e₀ : (x == a) ≡ false = ground (arith, h₀) in
    let e₁ : (x == u32 (a + 1)) ≡ false = ground (arith, h₁) in rw (e₁, e₀) refl

pub set_word-other :
    (mem : Memory) (a v x : ℕ)
    → x ≢ a
    → x ≢ u32 (a + 1)
    → x ≢ u32 (a + 2)
    → x ≢ u32 (a + 3)
    → set_word mem a v x ≡ mem x
unfolding set_word
set_word-other mem a v x h₀ h₁ h₂ h₃ =
    set_half-other (set_half mem a v) (u32 (a + 2)) (v / 65536) x h₂ (λ e. h₃ (omega (arith, e)))
    ∙ set_half-other mem a v x h₀ h₁

pub half-set_half : (mem : Memory) (a v : ℕ) → a < 2 ^ 32 → half (set_half mem a v) a ≡ v % 65536
unfolding half set_half
half-set_half mem a v low =
    let e₀ : (a == u32 (a + 1)) ≡ false = ground (arith, low) in
    let e₁ : (a == a) ≡ true = ground arith in
    let e₂ : (u32 (a + 1) == u32 (a + 1)) ≡ true = ground arith in rw (e₀, e₁) (rw e₂ (omega arith))

pub half-set_half_other :
    (mem : Memory) (a b v : ℕ)
    → a ≢ b
    → a ≢ u32 (b + 1)
    → u32 (a + 1) ≢ b
    → u32 (a + 1) ≢ u32 (b + 1)
    → half (set_half mem b v) a ≡ half mem a
unfolding half
half-set_half_other mem a b v h₀ h₁ h₂ h₃ =
    rw (set_half-other mem b v a h₀ h₁, set_half-other mem b v (u32 (a + 1)) h₂ h₃) refl

pub word-set_word :
    (mem : Memory) (a v : ℕ) → a < 2 ^ 32 → v < 2 ^ 32 → word (set_word mem a v) a ≡ v
unfolding word set_word
word-set_word mem a v low small =
    let b = u32 (a + 2) in
    let first =
      half-set_half_other (set_half mem a v) a b (v / 65536) (λ e. absurd (omega (arith, e, low)))
        (λ e. absurd (omega (arith, e, low))) (λ e. absurd (omega (arith, e, low)))
        (λ e. absurd (omega (arith, e, low))) in
    let second = half-set_half (set_half mem a v) b (v / 65536) (omega arith) in
    rw (first, second) (rw (half-set_half mem a v low) (omega (arith, small)))

-- A word is what its four bytes are.
pub word-same :
    (old new : Memory) (a : ℕ)
    → a + 4 ≤ 2 ^ 32
    → ((y : ℕ) → a ≤ y → y < a + 4 → new y ≡ old y)
    → word new a ≡ word old a
unfolding word half
word-same old new a low same = rw (same a (omega arith) (omega arith)) (
    rw (same (u32 (a + 1)) (omega (arith, low)) (omega (arith, low))) (
      rw (same (u32 (a + 2)) (omega (arith, low)) (omega (arith, low)))
        (rw (same (u32 (u32 (a + 2) + 1)) (omega (arith, low)) (omega (arith, low))) refl)))

-- A place that is not in a range.
abbrev pub Outside : ℕ → ℕ → ℕ → Type 0
Outside from size x = (x < from) ⊎ (from + size ≤ x)

pub Outside-first : (from n x : ℕ) → Outside from (suc n) x → x ≢ from
Outside-first from n x (inl h) = λ e. absurd (omega (arith, e, h))
Outside-first from n x (inr h) = λ e. absurd (omega (arith, e, h))

pub Outside-rest : (from n x : ℕ) → Outside from (suc n) x → Outside (from + 1) n x
Outside-rest from n x (inl h) = inl (omega (arith, h))
Outside-rest from n x (inr h) = inr (omega (arith, h))

pub set_word-Outside :
    (mem : Memory) (a v x : ℕ) → a + 4 ≤ 2 ^ 32 → Outside a 4 x → set_word mem a v x ≡ mem x
set_word-Outside mem a v x low (inl h) =
    set_word-other mem a v x (λ e. absurd (omega (arith, e, h)))
      (λ e. absurd (omega (arith, e, h, low))) (λ e. absurd (omega (arith, e, h, low)))
      (λ e. absurd (omega (arith, e, h, low)))
set_word-Outside mem a v x low (inr h) =
    set_word-other mem a v x (λ e. absurd (omega (arith, e, h)))
      (λ e. absurd (omega (arith, e, h, low))) (λ e. absurd (omega (arith, e, h, low)))
      (λ e. absurd (omega (arith, e, h, low)))

pub set_bytes-Outside :
    (n : ℕ) (mem : Memory) (dest c x : ℕ)
    → dest + n < 2 ^ 32
    → Outside dest n x
    → set_bytes mem dest c n x ≡ mem x
unfolding set_bytes
set_bytes-Outside zero mem dest c x low out = refl
set_bytes-Outside (suc n) mem dest c x low out =
    let next : u32 (dest + 1) ≡ dest + 1 = omega (arith, low) in
    let away : x ≢ dest = Outside-first dest n x out in
    rw next (
      set_bytes-Outside n (set_byte mem dest c) (dest + 1) c x (omega (arith, low))
        (Outside-rest dest n x out))
    ∙ set_byte-other mem dest c x away

pub copy_bytes-Outside :
    (n : ℕ) (mem : Memory) (dest src x : ℕ)
    → dest + n < 2 ^ 32
    → Outside dest n x
    → copy_bytes mem dest src n x ≡ mem x
unfolding copy_bytes
copy_bytes-Outside zero mem dest src x low out = refl
copy_bytes-Outside (suc n) mem dest src x low out =
    let next : u32 (dest + 1) ≡ dest + 1 = omega (arith, low) in
    let away : x ≢ dest = Outside-first dest n x out in
    rw next (
      copy_bytes-Outside n (set_byte mem dest (mem src)) (dest + 1) (u32 (src + 1)) x
        (omega (arith, low)) (Outside-rest dest n x out))
    ∙ set_byte-other mem dest (mem src) x away
