-- ===== src/Strings/Text/Search.antt =====
-- `strchr`, `strrchr` and `strstr`: the first or last place, or none.
use mathlib.Core.Option
use dionnex.Base.{
  ◌++◌, ℕ, zero, suc, ◌+◌, ◌%◌, ◌<◌, ◌≡◌, ◌≢◌, refl, ◌⊎◌, inl, inr, Bool, true, false, Option, none,
  some, List, [], ◌∷◌, ◌==◌, if◌then◌else◌, arith, length, drop, ap, ◌∙◌, Bool-cases,
}
use dionnex.Strings.Text.{strchr, strrchr, strrchr_from, strstr, search, matches_here}
use dionnex.Strings.Text.Holds.{Holds, ends, more}

-- The least place of a byte in a text, and the greatest one, `i` being the place of its start.
pub first_index : ℕ → List ℕ → Option ℕ
first_index c [] = none
first_index c (b ∷ t) =
    let rest = Option.map suc (first_index c t) in if b == c then some 0 else rest

pub last_index : ℕ → List ℕ → ℕ → Option ℕ
last_index c [] i = none
last_index c (b ∷ t) i = elim (last_index c t (i + 1)) [
  | some j ↦ some j
  | none ↦ if b == c then some i else none
]

-- `strchr` for a byte other than NUL finds its first place in the text.
pub strchr-first_index :
    (c : ℕ) {s t : List ℕ} → Holds s t → c % 256 ≢ 0 → strchr s c ≡ some (first_index (c % 256) t)
unfolding strchr first_index
strchr-first_index c ends ne = ground arith
strchr-first_index c (more {b} h) ne = ground (arith, strchr-first_index c h ne)

-- `strchr` for NUL finds the end of the text.
pub strchr-nul : {s t : List ℕ} → Holds s t → strchr s 0 ≡ some (some (length t))
unfolding strchr
strchr-nul ends = refl
strchr-nul (more {b} h) = ground (arith, strchr-nul h)

-- `strstr` with a needle that is not empty: the least place from which the haystack goes on with it.
pub prefix : List ℕ → List ℕ → Bool
prefix [] t = true
prefix (a ∷ u) [] = false
prefix (a ∷ u) (b ∷ t) = if b == a then prefix u t else false

pub first_match : List ℕ → List ℕ → Option ℕ
first_match u [] = none
first_match u (b ∷ t) =
    let rest = Option.map suc (first_match u t) in if prefix u (b ∷ t) then some 0 else rest

matches_here-prefix :
    {h t n u : List ℕ} → Holds h t → Holds n u → matches_here h n ≡ some (prefix u t)
unfolding matches_here prefix
matches_here-prefix ends ends = refl
matches_here-prefix ends (more g) = refl
matches_here-prefix (more h) ends = refl
matches_here-prefix (more {b = a} h) (more {b} g) = ground (arith, matches_here-prefix h g)

search-first_match :
    {h t n u : List ℕ} (b : ℕ)
    → Holds h t
    → Holds n u
    → search h (suc b ∷ n) ≡ some (first_match (suc b ∷ u) t)
unfolding search first_match
search-first_match b ends g = refl
search-first_match {n} {u} b (more {b = a} h) g =
    ground (arith, search-first_match b h g, matches_here-prefix (more {b = a} h) (more {b = b} g))

-- What it means to be the leftmost place at which a text goes on with `u`.
abbrev pub Leftmost : List ℕ → List ℕ → Option ℕ → Type 0
Leftmost u t none = (j : ℕ) → j < length t → prefix u (drop j t) ≡ false
Leftmost u t (some i) =
    (prefix u (drop i t) ≡ true) × ((j : ℕ) → j < i → prefix u (drop j t) ≡ false)

misses_cons :
    (u t : List ℕ) (b k : ℕ)
    → prefix u (b ∷ t) ≡ false
    → ((j : ℕ) → j < k → prefix u (drop j t) ≡ false)
    → (j : ℕ) → j < suc k
    → prefix u (drop j (b ∷ t)) ≡ false
misses_cons u t b k miss l zero h = miss
misses_cons u t b k miss l (suc j) h = l j (omega arith)

Leftmost-cons :
    (u t : List ℕ) (b : ℕ) (o : Option ℕ)
    → prefix u (b ∷ t) ≡ false
    → Leftmost u t o
    → Leftmost u (b ∷ t) (Option.map suc o)
Leftmost-cons u t b none miss l = λ j h. misses_cons u t b (length t) miss l j h
Leftmost-cons u t b (some i) miss l = (l.0, misses_cons u t b i miss l.1)

first_match-Leftmost : (u t : List ℕ) → Leftmost u t (first_match u t)
unfolding first_match
first_match-Leftmost u [] = λ j h. elim h [ ]
first_match-Leftmost u (b ∷ t) = elim (Bool-cases (prefix u (b ∷ t))) [
  | inl hit ↦ rw hit (hit, λ j h. elim h [ ])
  | inr miss ↦ rw miss (Leftmost-cons u t b (first_match u t) miss (first_match-Leftmost u t))
]

-- `strstr` finds the leftmost place of a needle that is not empty, or finds none when the haystack
-- has none; an empty needle is found at the start.
pub strstr-Leftmost :
    {h t n u : List ℕ}
    → Holds h t
    → Holds n u
    → (found : Option ℕ) × (strstr h n ≡ some found)
      × ((u ≡ []) × (found ≡ some 0) ⊎ (u ≢ []) × Leftmost u t found)
unfolding strstr
strstr-Leftmost h ends = (some 0, refl, inl (refl, refl))
strstr-Leftmost {t} h (more {b} {t = u} g) = (
  first_match (suc b ∷ u) t,
  search-first_match b h g,
  inr (cc, first_match-Leftmost (suc b ∷ u) t),
)

or_else : Option ℕ → Option ℕ → Option ℕ
or_else none o = o
or_else (some i) o = some i

or_else-none : (o : Option ℕ) → or_else o none ≡ o
unfolding or_else
or_else-none none = refl
or_else-none (some i) = refl

strrchr_from-last_index :
    (c i : ℕ) (last : Option ℕ) {s t : List ℕ}
    → Holds s t
    → c % 256 ≢ 0
    → strrchr_from s c i last ≡ some (or_else (last_index (c % 256) t i) last)
unfolding strrchr_from last_index or_else
strrchr_from-last_index c i last ends ne = ground arith
strrchr_from-last_index c i last (more {b} h) ne =
    ground
      (arith, strrchr_from-last_index c (i + 1) (if suc b == c % 256 then some i else last) h ne)

-- `strrchr` for a byte other than NUL finds its last place in the text.
pub strrchr-last_index :
    (c : ℕ) {s t : List ℕ} → Holds s t → c % 256 ≢ 0 → strrchr s c ≡ some (last_index (c % 256) t 0)
unfolding strrchr
strrchr-last_index c {t} h ne =
    strrchr_from-last_index c 0 none h ne ∙ ap some (or_else-none (last_index (c % 256) t 0))

-- No byte of the text is the one that is looked for.
abbrev pub Without : ℕ → List ℕ → Type 0
Without c [] = Unit
Without c (b ∷ t) = ((b == c) ≡ false) × Without c t

last_index-Without : (c : ℕ) (t : List ℕ) (i : ℕ) → Without c t → last_index c t i ≡ none
unfolding last_index
last_index-Without c [] i w = refl
last_index-Without c (b ∷ t) i w = rw (last_index-Without c t (i + 1) w.1) (rw w.0 refl)

-- Behind the last place there is no other.
pub last_index-append :
    (t : List ℕ) (c : ℕ) (u : List ℕ) (i : ℕ)
    → Without c u
    → last_index c (t ++ (c ∷ u)) i ≡ some (i + length t)
unfolding last_index
last_index-append [] c u i w =
    let here : (c == c) ≡ true = ground arith in
    rw (last_index-Without c u (i + 1) w) (rw here (ap some (omega arith)))
last_index-append (b ∷ t) c u i w = rw (last_index-append t c u (i + 1) w) (ap some (omega arith))
