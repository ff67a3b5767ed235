-- ===== src/Vfs/Components.antt =====
-- The names in a path, and how `strtok` comes upon them.
use dionnex.Base.{
  ℕ, zero, suc, ◌%◌, ◌<◌, ◌≡◌, ◌≢◌, refl, ap, ◌∙◌, inl, inr, Bool, true, false, not, some, List, [],
  ◌∷◌, ◌++◌, if◌then◌else◌, ltb, ◌&&◌, ◌==◌, take, length, arith, Bool-cases,
}
use dionnex.Strings.Text.{strchr}
use dionnex.Strings.Text.Content.{NoNul}
use dionnex.Strings.Tokens.{is_delim}
use dionnex.Strings.Tokens.Step.{AllAre}
use dionnex.Ramfs.{same_name}
use dionnex.Vfs.{slash}

-- A text of bytes.
abbrev pub IsText : List ℕ → Type 0
IsText [] = Unit
IsText (c ∷ s) = (c ≢ 0) × (c < 256) × IsText s

pub IsText-NoNul : (s : List ℕ) → IsText s → NoNul s
IsText-NoNul [] t = tt
IsText-NoNul (c ∷ s) t = (t.0, IsText-NoNul s t.2)

unfoldable pub is_text : List ℕ → Bool
is_text [] = true
is_text (c ∷ s) = not (c == 0) && ltb c 256 && is_text s

pub is_text-IsText : (s : List ℕ) → is_text s ≡ true → IsText s
unfolding is_text
is_text-IsText [] e = tt
is_text-IsText (c ∷ s) e =
    ((λ z. absurd (ground (arith, e, z))), ground (arith, e), is_text-IsText s (ground (arith, e)))

-- A word that is not empty, before others.
abbrev add_word : List ℕ → List (List ℕ) → List (List ℕ)
add_word [] names = names
add_word (c ∷ word) names = (c ∷ word) ∷ names

-- The characters before the first slash, and the names behind it.
abbrev cut : List ℕ → List ℕ × List (List ℕ)
cut [] = ([], [])
cut (c ∷ s) =
    let (word, names) = cut s in if c == b'/' then ([], add_word word names) else (c ∷ word, names)

-- The names between the slashes of a path.
unfoldable pub components : List ℕ → List (List ℕ)
components path = add_word (cut path).0 (cut path).1

abbrev pub delim : List ℕ
delim = slash ++ (0 ∷ [])

pub is_delim-slash : (c : ℕ) → c ≢ 0 → c < 256 → is_delim delim c ≡ some (c == b'/')
unfolding is_delim strchr
is_delim-slash c there byte =
    let same : c % 256 ≡ c = omega arith in
    let some_char : (c == 0) ≡ false = ground (arith, there) in
    let turn : (b'/' == c) ≡ (c == b'/') = ground arith in
    rw (same, turn)
      (elim (Bool-cases (c == b'/')) [
        | inl is ↦ rw is refl
        | inr other ↦ rw (other, some_char) refl
      ])

-- A path that begins with a word: up to its end, or to a slash.
data Word (s : List ℕ) : Type 0 where
  whole : AllAre delim false s → cut s ≡ (s, []) → Word s
  before :
      (word rest : List ℕ)
      → AllAre delim false word
      → s ≡ word ++ (b'/' ∷ rest)
      → cut s ≡ (word, components rest)
      → IsText rest
      → length rest < length s
      → Word s

first-Word : (s : List ℕ) → IsText s → Word s
unfolding components
first-Word [] t = whole tt refl
first-Word (c ∷ s) t = elim (Bool-cases (c == b'/')) [
  | inl is ↦
      let e : c ≡ b'/' = ground (arith, is) in
      before [] s tt (ap (λ (x : ℕ). x ∷ s) e) (rw is refl) t.2 (omega arith)
  | inr other ↦
      let char : is_delim delim c ≡ some false = is_delim-slash c t.0 t.1 ∙ ap some other in
      elim (first-Word s t.2) [
        | whole all e ↦ whole (t.0, char, all) (rw (other, e) refl)
        | before word rest all shape e text less ↦
            before (c ∷ word) rest (t.0, char, all) (ap (λ (x : List ℕ). c ∷ x) shape)
              (rw (other, e) refl) text (omega (arith, less))
      ]
]

-- A path: slashes alone, or slashes, a name, and the rest behind a slash.
pub data Shape (s : List ℕ) : Type 0 where
  slashes : AllAre delim true s → components s ≡ [] → Shape s
  last_name :
      (seps : List ℕ) (c : ℕ) (name : List ℕ)
      → AllAre delim true seps
      → AllAre delim false (c ∷ name)
      → s ≡ seps ++ (c ∷ name)
      → components s ≡ (c ∷ name) ∷ []
      → Shape s
  name_before :
      (seps : List ℕ) (c : ℕ) (name rest : List ℕ)
      → AllAre delim true seps
      → AllAre delim false (c ∷ name)
      → s ≡ seps ++ ((c ∷ name) ++ (b'/' ∷ rest))
      → components s ≡ (c ∷ name) ∷ components rest
      → IsText rest
      → length rest < length s
      → Shape s

pub components-slash : (c : ℕ) (s : List ℕ) → (c == b'/') ≡ true → components (c ∷ s) ≡ components s
unfolding components
components-slash c s is = rw is refl

components-char :
    (c : ℕ) (s word : List ℕ) (names : List (List ℕ))
    → (c == b'/') ≡ false
    → cut s ≡ (word, names)
    → components (c ∷ s) ≡ (c ∷ word) ∷ names
unfolding components
components-char c s word names other e = rw (other, e) refl

pub shape : (s : List ℕ) → IsText s → Shape s
shape [] t = slashes tt (unfold components in refl)
shape (c ∷ s) t =
    let char : is_delim delim c ≡ some (c == b'/') = is_delim-slash c t.0 t.1 in
    elim (Bool-cases (c == b'/')) [
      | inl is ↦
          let sep : is_delim delim c ≡ some true = char ∙ ap some is in
          let same = components-slash c s is in
          elim (shape s t.2) [
            | slashes all e ↦ slashes (t.0, sep, all) (same ∙ e)
            | last_name seps d name all word split e ↦
                last_name (c ∷ seps) d name (t.0, sep, all) word (ap (λ (x : List ℕ). c ∷ x) split)
                  (same ∙ e)
            | name_before seps d name rest all word split e text less ↦
                name_before (c ∷ seps) d name rest (t.0, sep, all) word
                  (ap (λ (x : List ℕ). c ∷ x) split) (same ∙ e) text (omega (arith, less))
          ]
      | inr other ↦
          let plain : is_delim delim c ≡ some false = char ∙ ap some other in
          elim (first-Word s t.2) [
            | whole all e ↦
                last_name [] c s tt (t.0, plain, all) refl (components-char c s s [] other e)
            | before word rest all split e text less ↦
                name_before [] c word rest tt (t.0, plain, all) (ap (λ (x : List ℕ). c ∷ x) split)
                  (components-char c s word (components rest) other e) text (omega (arith, less))
          ]
    ]

pub IsText-take : (n : ℕ) (s : List ℕ) → IsText s → IsText (take n s)
IsText-take zero s t = tt
IsText-take (suc n) [] t = tt
IsText-take (suc n) (c ∷ s) t = (t.0, t.1, IsText-take n s t.2)

-- The path of the root has no name.
pub components_root :
    (path : List ℕ) (n : ℕ) → same_name path slash ≡ true → components (take n path) ≡ []
unfolding same_name components
components_root path zero e = refl
components_root [] (suc n) e = absurd (ground (arith, e))
components_root (c ∷ []) (suc zero) e = components-slash c [] (ground (arith, e))
components_root (c ∷ []) (suc (suc n)) e = components-slash c [] (ground (arith, e))
components_root (c ∷ (d ∷ s)) (suc n) e = absurd (ground (arith, e))
