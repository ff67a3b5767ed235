-- ===== src/Strings/Text/Compare.antt =====
-- `strcmp` and `strncmp` against equality and the lexicographic order of texts.
use dionnex.Base.{
  ℕ, zero, suc, ◌-◌, ◌<◌, ◌≡◌, ◌≢◌, refl, inl, inr, ◌↔◌, some, List, [], ◌∷◌, ◌==◌, arith,
  Bool-cases, take, ltb, sym, ap, ◌∙◌,
}
use mathlib.Core.Path.{subst}
use dionnex.Base.Int.{ℤ, pos, negsuc, sub_ℕ}
use dionnex.Strings.Text.{strcmp, strncmp}
use dionnex.Strings.Text.Holds.{Holds, ends, more}

-- Lexicographic order by byte value; a proper prefix comes first.
pub data Lex : List ℕ → List ℕ → Type 0 where
  shorter : {b : ℕ} {t : List ℕ} → Lex [] (b ∷ t)
  lower : {a b : ℕ} {t u : List ℕ} → a < b → Lex (a ∷ t) (b ∷ u)
  later : {a : ℕ} {t u : List ℕ} → Lex t u → Lex (a ∷ t) (a ∷ u)

-- The sign of a comparison says which way the texts stand.
abbrev pub Ordered : ℤ → List ℕ → List ℕ → Type 0
Ordered (pos zero) t u = t ≡ u
Ordered (pos (suc n)) t u = Lex u t
Ordered (negsuc n) t u = Lex t u

Ordered-cons : (r : ℤ) (a : ℕ) (t u : List ℕ) → Ordered r t u → Ordered r (a ∷ t) (a ∷ u)
Ordered-cons (pos zero) a t u e = cc
Ordered-cons (pos (suc n)) a t u l = later l
Ordered-cons (negsuc n) a t u l = later l

Ordered-sub : (a b : ℕ) (t u : List ℕ) → a ≢ b → Ordered (sub_ℕ a b) (a ∷ t) (b ∷ u)
Ordered-sub a b t u ne = elim (Bool-cases (ltb a b)) [
  | inl lt ↦
      let e : sub_ℕ a b ≡ negsuc (b - a - 1) = ground arith in
      subst (λ r. Ordered r (a ∷ t) (b ∷ u)) (sym e) (lower (ground arith))
  | inr ge ↦
      let e : sub_ℕ a b ≡ pos (suc (a - b - 1)) = ground arith in
      subst (λ r. Ordered r (a ∷ t) (b ∷ u)) (sym e) (lower (ground arith))
]

-- `strcmp` of two strings returns 0 exactly when they are equal, and otherwise a number whose sign
-- is their lexicographic order.
pub strcmp-Ordered :
    {s t s' u : List ℕ}
    → Holds s t
    → Holds s' u
    → (r : ℤ) × (strcmp (some s) (some s') ≡ some r) × Ordered r t u
unfolding strcmp
strcmp-Ordered ends ends = (pos 0, refl, refl)
strcmp-Ordered ends (more {b} h) = (negsuc b, ground arith, shorter)
strcmp-Ordered (more {b} g) ends = (pos (suc b), ground arith, shorter)
strcmp-Ordered (more {b = a} {s} {t} g) (more {b} {s = s'} {t = u} h) =
    elim (Bool-cases (suc a == suc b)) [
      | inl same ↦
          let (r, run, holds) = strcmp-Ordered g h in
          let e : suc a ≡ suc b = ground arith in
          (
            r,
            rw same run,
            subst (λ c. Ordered r (suc a ∷ t) (c ∷ u)) e (Ordered-cons r (suc a) t u holds),
          )
      | inr diff ↦ (sub_ℕ (suc a) (suc b), rw diff, Ordered-sub (suc a) (suc b) t u (ground arith))
    ]

Lex-ne : {t u : List ℕ} → Lex t u → t ≢ u
Lex-ne shorter e = cc
Lex-ne (lower lt) e = ground arith
Lex-ne (later l) e = Lex-ne l (ground arith)

Ordered-zero : (r : ℤ) (t u : List ℕ) → Ordered r t u → (r ≡ pos 0) ↔ (t ≡ u)
Ordered-zero (pos zero) t u e = (λ _. e, λ _. refl)
Ordered-zero (pos (suc n)) t u l = (λ e. ground arith, λ e. absurd (Lex-ne l (sym e)))
Ordered-zero (negsuc n) t u l = (λ e. cc, λ e. absurd (Lex-ne l e))

-- The form in which the name lookups use it: 0 exactly for equal texts.
pub strcmp-eq_zero :
    {s t s' u : List ℕ}
    → Holds s t
    → Holds s' u
    → (strcmp (some s) (some s') ≡ some (pos 0)) ↔ (t ≡ u)
strcmp-eq_zero {t} {u} g h =
    let (r, run, holds) = strcmp-Ordered g h in
    let zero_iff = Ordered-zero r t u holds in
    (λ e. zero_iff.0 (cc), λ e. run ∙ ap some (zero_iff.1 e))

-- `strncmp` of `n` bytes decides whether the texts agree in their first `n` bytes.
pub strncmp-take :
    (n : ℕ) {s t s' u : List ℕ}
    → Holds s t
    → Holds s' u
    → (r : ℤ) × (strncmp (some s) (some s') n ≡ some r) × Ordered r (take n t) (take n u)
unfolding strncmp
strncmp-take zero g h = (pos 0, refl, refl)
strncmp-take (suc n) ends ends = (pos 0, refl, refl)
strncmp-take (suc n) ends (more {b} h) = (negsuc b, ground arith, shorter)
strncmp-take (suc n) (more {b} g) ends = (pos (suc b), ground arith, shorter)
strncmp-take (suc n) (more {b = a} {t} g) (more {b} {t = u} h) =
    elim (Bool-cases (suc a == suc b)) [
      | inl same ↦
          let (r, run, holds) = strncmp-take n g h in
          let e : suc a ≡ suc b = ground arith in
          let longer = Ordered-cons r (suc a) (take n t) (take n u) holds in
          (r, rw same run, subst (λ c. Ordered r (suc a ∷ take n t) (c ∷ take n u)) e longer)
      | inr diff ↦ (
        sub_ℕ (suc a) (suc b),
        rw diff,
        Ordered-sub (suc a) (suc b) (take n t) (take n u) (ground arith),
      )
    ]
