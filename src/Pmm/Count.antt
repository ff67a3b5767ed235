-- ===== src/Pmm/Count.antt =====
-- The number of free pages, and the invariant that ties `free_pages` to it.
use dionnex.Base.{
  ℕ, zero, suc, ◌+◌, ◌-◌, ◌*◌, ◌≤◌, ◌<◌, ◌≡◌, refl, inl, inr, if◌then◌else◌, ◌==◌, false, ◌^◌,
  length, arith, Bool-cases,
}
use dionnex.Pmm.{Pmm}
use dionnex.Pmm.Bitmap.{used, AllWords}

-- How many of the first `n` indices `f` maps to 0.
unfoldable pub zeros : (ℕ → ℕ) → ℕ → ℕ
zeros f zero = 0
zeros f (suc n) = zeros f n + (1 - f n)

pub zeros-le : (f : ℕ → ℕ) (n : ℕ) → zeros f n ≤ n
unfolding zeros
zeros-le f zero = omega arith
zeros-le f (suc n) = omega (arith, zeros-le f n)

zeros-same : (f g : ℕ → ℕ) (n : ℕ) → ((p : ℕ) → p < n → g p ≡ f p) → zeros g n ≡ zeros f n
unfolding zeros
zeros-same f g zero same = refl
zeros-same f g (suc n) same =
    omega (arith, zeros-same f g n (λ p lt. same p (omega arith)), same n (omega arith))

-- Changing one value from 0 to 1 loses one zero.
pub zeros-change :
    (f g : ℕ → ℕ) (page n : ℕ)
    → page < n
    → ((p : ℕ) → g p ≡ (if page == p then 1 else f p))
    → f page ≡ 0
    → zeros g n + 1 ≡ zeros f n
unfolding zeros
zeros-change f g page zero lt change was = elim lt [ ]
zeros-change f g page (suc n) lt change was = elim (Bool-cases (page == n)) [
  | inl here ↦
      let e : page ≡ n = ground arith in
      let front = zeros-same f g n (λ p lt'. rw (differs p e lt') at (change p)) in
      let now : g n ≡ 1 = rw here at (change n) in
      let before : f n ≡ 0 = rw e at was in omega (arith, front, now, before)
  | inr there ↦
      let front = zeros-change f g page n (ground arith) change was in
      let now : g n ≡ f n = rw there at (change n) in omega (arith, front, now)
]
  where
    differs : (p : ℕ) → page ≡ n → p < n → (page == p) ≡ false
    differs p e lt' = ground arith

-- `free_pages` counts the free pages; pages past the last one are marked as used.
pub record IsValid (s : Pmm) : Type 0 where
  pub size : s.bitmap_size ≡ length s.bitmap
  pub words : AllWords s.bitmap
  pub covered : s.total_pages ≤ 32 * s.bitmap_size
  pub no_wrap : s.total_pages ≤ 2 ^ 20
  pub past_end : (p : ℕ) → s.total_pages ≤ p → p < 32 * s.bitmap_size → used s.bitmap p ≡ 1
  pub counted : s.free_pages ≡ zeros (used s.bitmap) s.total_pages
