-- ===== src/Strings/Text/Copy.antt =====
-- `strcpy`, `strncpy` and `strcat`: what the target holds afterwards.
use dionnex.Base.{
  none, ℕ, zero, suc, ◌+◌, ◌-◌, ◌≤◌, ◌<◌, ◌≡◌, refl, some, List, [], ◌∷◌, ◌++◌, arith, length, take,
  drop, replicate, ap, length-append, length-drop,
}
use dionnex.Strings.Text.{strcpy, strncpy, strcat, pad}
use dionnex.Strings.Text.Holds.{Holds, ends, more}

pad-replicate :
    (dest : List ℕ) (n : ℕ) → n ≤ length dest → pad dest n ≡ some (replicate n 0 ++ drop n dest)
unfolding pad
pad-replicate dest zero h = refl
pad-replicate [] (suc n) h = elim h [ ]
pad-replicate (b ∷ dest) (suc n) h = rw (pad-replicate dest n (omega arith))

-- The first `n` bytes of the target: the text, cut at `n`, and NULs behind it.
abbrev pub field : List ℕ → ℕ → List ℕ
field t n = take n t ++ replicate (n - length t) 0

-- `strncpy` of `n` bytes into a target of at least `n` bytes writes the text, cut at `n` bytes and
-- padded with NULs to `n` bytes, and leaves the rest of the target.
pub strncpy-field :
    (n : ℕ) (dest : List ℕ) {s t : List ℕ}
    → Holds s t
    → n ≤ length dest
    → strncpy dest s n ≡ some (field t n ++ drop n dest)
unfolding strncpy
strncpy-field zero dest ends fits = refl
strncpy-field zero dest (more {t} h) fits =
    let none_left : 0 - suc (length t) ≡ 0 = omega arith in rw none_left
strncpy-field (suc n) dest ends fits =
    let whole : suc n - 0 ≡ suc n = omega arith in rw whole (pad-replicate dest (suc n) fits)
strncpy-field (suc n) [] (more h) fits = elim fits [ ]
strncpy-field (suc n) (c ∷ dest) (more {t} h) fits =
    let shorter : suc n - suc (length t) ≡ n - length t = omega arith in
    rw (shorter, strncpy-field n dest h (omega arith)) refl

-- `strcpy` writes the text and its NUL, if they fit, and leaves the rest of the target.
pub strcpy-append :
    (dest : List ℕ) {s t : List ℕ}
    → Holds s t
    → length t < length dest
    → strcpy dest s ≡ some (t ++ (0 ∷ drop (suc (length t)) dest))
unfolding strcpy
strcpy-append [] h fits = elim fits [ ]
strcpy-append (b ∷ dest) ends fits = refl
strcpy-append (b ∷ dest) (more h) fits = rw (strcpy-append dest h (omega arith))

Holds-append : {s t : List ℕ} (rest : List ℕ) → Holds s t → Holds (t ++ (0 ∷ rest)) t
Holds-append rest ends = ends
Holds-append rest (more h) = more (Holds-append rest h)

-- `strcat` leaves the text of the target followed by that of the source, if both and a NUL fit
-- into the target, whose size does not change.
pub strcat-append :
    {d t s u : List ℕ}
    → Holds d t
    → Holds s u
    → length t + length u < length d
    → (out : List ℕ) × (strcat d s ≡ some out) × Holds out (t ++ u) × (length out ≡ length d)
unfolding strcat
strcat-append {u} (ends {rest}) h fits =
    let behind = drop (length u) rest in
    let run = strcpy-append (0 ∷ rest) h (omega arith) in
    let len = length-append u (0 ∷ behind) in
    (u ++ (0 ∷ behind), run, Holds-append behind h, omega (arith, len, length-drop (length u) rest))
strcat-append (more {b} g) h fits =
    let (out, run, holds, len) = strcat-append g h (omega arith) in
    (suc b ∷ out, rw run, more holds, ap suc len)

-- A text that does not fit with its NUL is written past the end of the target.
pub strcpy-short :
    (dest : List ℕ) {s t : List ℕ} → Holds s t → length dest ≤ length t → strcpy dest s ≡ none
unfolding strcpy
strcpy-short [] ends h = refl
strcpy-short [] (more g) h = refl
strcpy-short (b ∷ dest) ends h = absurd (omega arith)
strcpy-short (b ∷ dest) (more g) h = rw (strcpy-short dest g (omega arith)) refl
