-- ===== src/Strings/Text/Holds.antt =====
-- What a `char *` holds: the bytes before the NUL.
use dionnex.Base.{ℕ, zero, suc, ◌<◌, ◌≡◌, refl, some, List, [], ◌∷◌, length, arith}
use dionnex.Strings.Text.{strlen}

pub data Holds : List ℕ → List ℕ → Type 0 where
  ends : {rest : List ℕ} → Holds (zero ∷ rest) []
  more : {b : ℕ} {s t : List ℕ} → Holds s t → Holds (suc b ∷ s) (suc b ∷ t)

pub length-lt_of_Holds : {s t : List ℕ} → Holds s t → length t < length s
length-lt_of_Holds ends = omega arith
length-lt_of_Holds (more h) = omega (arith, length-lt_of_Holds h)

-- `strlen` counts the bytes of the text, and reads no byte behind its NUL.
pub strlen-length : {s t : List ℕ} → Holds s t → strlen (some s) ≡ some (length t)
unfolding strlen
strlen-length ends = refl
strlen-length (more {t} h) = rw (strlen-length h) (ground arith)
