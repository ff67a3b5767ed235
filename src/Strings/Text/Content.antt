-- ===== src/Strings/Text/Content.antt =====
-- The text at a pointer: the bytes before the NUL.
use dionnex.Base.{
  ℕ, zero, suc, ◌≡◌, ◌≢◌, refl, Bool, true, not, ◌&&◌, Option, none, some, List, [], ◌∷◌, ◌++◌,
  ◌==◌, arith, ◌>>=◌,
}
use dionnex.Strings.Text.Holds.{Holds, ends, more}

-- `while (*p) *out++ = *p++`
pub text_of : List ℕ → Option (List ℕ)
text_of [] = none
text_of (zero ∷ s) = some []
text_of (suc b ∷ s) = do text ← text_of s; some (suc b ∷ text)

abbrev pub NoNul : List ℕ → Type 0
NoNul [] = Unit
NoNul (c ∷ s) = (c ≢ 0) × NoNul s

pub text_of-append : (s rest : List ℕ) → NoNul s → text_of (s ++ (0 ∷ rest)) ≡ some s
unfolding text_of
text_of-append [] rest clean = refl
text_of-append (zero ∷ s) rest clean = absurd (clean.0 refl)
text_of-append (suc b ∷ s) rest clean = rw (text_of-append s rest clean.1) refl

pub Holds_text : (s rest : List ℕ) → NoNul s → Holds (s ++ (0 ∷ rest)) s
Holds_text [] rest clean = ends
Holds_text (zero ∷ s) rest clean = absurd (clean.0 refl)
Holds_text (suc b ∷ s) rest clean = more (Holds_text s rest clean.1)

pub NoNul-append : (s t : List ℕ) → NoNul s → NoNul t → NoNul (s ++ t)
NoNul-append [] t clean clean' = clean'
NoNul-append (c ∷ s) t clean clean' = (clean.0, NoNul-append s t clean.1 clean')

unfoldable pub has_no_nul : List ℕ → Bool
has_no_nul [] = true
has_no_nul (c ∷ s) = not (c == 0) && has_no_nul s

pub has_no_nul-NoNul : (s : List ℕ) → has_no_nul s ≡ true → NoNul s
unfolding has_no_nul
has_no_nul-NoNul [] e = tt
has_no_nul-NoNul (c ∷ s) e =
    ((λ z. absurd (ground (arith, e, z))), has_no_nul-NoNul s (ground (arith, e)))
