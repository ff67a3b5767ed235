-- ===== src/Vfs/Path.antt =====
-- `vfs_lookup_path` follows the names of the path.
use dionnex.Base.{
  ℕ, zero, suc, ◌+◌, ◌≤◌, ◌<◌, ◌≡◌, refl, sym, ap, ◌∙◌, inl, inr, Bool, true, false, not, Option,
  none, some, List, [], ◌∷◌, ◌++◌, if◌then◌else◌, ◌==◌, drop, length, length-append, append_assoc,
  arith, Bool-cases, Option-cases, ◌>>=◌,
}
use dionnex.Strings.Text.{strchr}
use dionnex.Strings.Text.Content.{text_of, text_of-append, NoNul}
use dionnex.Strings.Tokens.{is_delim, Strtok, strtok}
use dionnex.Strings.Tokens.Step.{
  AllAre, after_token, strtok-after_token, strtok-no_token, strtok-ended, drop-append,
}
use dionnex.Vfs.{Vfs, VfsOps, is_dir, vfs_finddir, walk_path}
use dionnex.Vfs.Components.{IsText, components, delim, slashes, last_name, name_before, shape}

AllAre-NoNul : (d : List ℕ) (b : Bool) (s : List ℕ) → AllAre d b s → NoNul s
AllAre-NoNul d b [] all = tt
AllAre-NoNul d b (c ∷ s) all = (all.0, AllAre-NoNul d b s all.2)

-- The text of a token behind which a NUL was written.
token_text :
    (front word behind : List ℕ)
    → NoNul word
    → text_of (drop (length front) (front ++ (word ++ (0 ∷ behind)))) ≡ some word
token_text front word behind clean =
    ap text_of (drop-append front (word ++ (0 ∷ behind))) ∙ text_of-append word behind clean

regroup :
    (front seps word tail : List ℕ)
    → (front ++ (seps ++ word)) ++ tail ≡ (front ++ seps) ++ (word ++ tail)
regroup front seps word tail =
    ap (λ (x : List ℕ). x ++ tail) (sym (append_assoc front seps word))
    ∙ append_assoc (front ++ seps) word tail

-- What lies before the rest of the path, once a NUL stands behind the name.
abbrev passed : List ℕ → List ℕ → List ℕ → List ℕ
passed front seps name = (front ++ seps) ++ (name ++ (0 ∷ []))

passed_str :
    (front seps name rest tail : List ℕ)
    → (front ++ seps) ++ (name ++ (0 ∷ (rest ++ tail))) ≡ (passed front seps name ++ rest) ++ tail
passed_str front seps name rest tail =
    ap (λ (x : List ℕ). (front ++ seps) ++ x) (sym (append_assoc name (0 ∷ []) (rest ++ tail)))
    ∙ sym (append_assoc (front ++ seps) (name ++ (0 ∷ [])) (rest ++ tail))
    ∙ sym (append_assoc (passed front seps name) rest tail)

length-passed :
    (front seps name : List ℕ)
    → length (front ++ seps) + length name + 1 ≡ length (passed front seps name)
length-passed front seps name =
    omega (arith, length-append (front ++ seps) (name ++ (0 ∷ [])), length-append name (0 ∷ []))

module _ {F : Type 0} (table : ℕ → VfsOps F) (fuel : ℕ) (v : Vfs F) where
  -- The node that the names lead to, one directory after the other; 0 where there is none.
  unfoldable pub resolve : ℕ → List (List ℕ) → Option ℕ
  resolve curr [] = some curr
  resolve curr (name ∷ names) = if not (is_dir (v.nodes curr)) then some 0 else do
    found ← vfs_finddir table fuel v curr name
    if found == 0 then some 0 else resolve found names

  -- The next token, and the walk from there.
  abbrev pub next_step : ℕ → ℕ → Strtok → Option ℕ
  next_step rounds curr t = do
    (t', token) ← strtok t none delim
    walk_path table fuel rounds v t' curr token

  walk_token :
      (rounds curr token : ℕ) (t : Strtok) (name : List ℕ) (names : List (List ℕ))
      → text_of (drop token t.str) ≡ some name
      → ((found : ℕ) → next_step rounds found t ≡ resolve found names)
      → walk_path table fuel (suc rounds) v t curr (some token) ≡ resolve curr (name ∷ names)
  unfolding walk_path resolve
  walk_token rounds curr token t name names text next =
      elim (Bool-cases (not (is_dir (v.nodes curr)))) [
        | inl file ↦ rw file refl
        | inr dir ↦ elim (Option-cases (vfs_finddir table fuel v curr name)) [
          | inl fault ↦ rw (dir, text) (rw fault refl)
          | inr (found, run) ↦ elim (Bool-cases (found == 0)) [
            | inl missing ↦ rw (dir, text) (rw run (rw missing refl))
            | inr there ↦ rw (dir, text) (rw run (rw there (next found)))
          ]
        ]
      ]

  abbrev pub at_place : List ℕ → List ℕ → List ℕ → Strtok
  at_place front s more = record {
    str = (front ++ s) ++ (0 ∷ more);
    strtok_saved = some (length front);
  }

  walk_end : (rounds curr : ℕ) (t : Strtok) → walk_path table fuel rounds v t curr none ≡ some curr
  unfolding walk_path
  walk_end zero curr t = refl
  walk_end (suc rounds) curr t = refl

  abbrev Follows : ℕ → ℕ → List ℕ → List ℕ → List ℕ → Type 0
  Follows rounds curr front s more =
      next_step rounds curr (at_place front s more) ≡ resolve curr (components s)

  walk-last_name :
      (rounds curr : ℕ) (front s more seps : List ℕ) (c : ℕ) (name : List ℕ)
      → AllAre delim true seps
      → AllAre delim false (c ∷ name)
      → s ≡ seps ++ (c ∷ name)
      → components s ≡ (c ∷ name) ∷ []
      → Follows (suc rounds) curr front s more
  walk-last_name rounds curr front s more seps c name all_seps all_name split e =
      let word = c ∷ name in
      let whole : (front ++ s) ++ (0 ∷ more) ≡ (front ++ seps) ++ (word ++ (0 ∷ more)) =
        ap (λ (x : List ℕ). (front ++ x) ++ (0 ∷ more)) split
        ∙ regroup front seps word (0 ∷ more) in
      let run = strtok-after_token front seps c name 0 more delim all_seps all_name (inl refl) in
      let clean = AllAre-NoNul delim false word all_name in
      rw (whole, run, e)
        (walk_token rounds curr (length (front ++ seps)) (after_token (front ++ seps) word 0 more)
          word [] (token_text (front ++ seps) word more clean)
          (λ found.
            rw (strtok-ended ((front ++ seps) ++ (word ++ (0 ∷ more))) delim)
              (walk_end rounds found _ ∙ unfold resolve in refl)))

  walk-name_before :
      (rounds curr : ℕ) (front s more seps : List ℕ) (c : ℕ) (name rest : List ℕ)
      → AllAre delim true seps
      → AllAre delim false (c ∷ name)
      → s ≡ seps ++ ((c ∷ name) ++ (b'/' ∷ rest))
      → components s ≡ (c ∷ name) ∷ components rest
      → ((found : ℕ) → Follows rounds found (passed front seps (c ∷ name)) rest more)
      → Follows (suc rounds) curr front s more
  walk-name_before rounds curr front s more seps c name rest all_seps all_name split e next =
      let word = c ∷ name in
      let tail = 0 ∷ more in
      let whole : (front ++ s) ++ tail ≡ (front ++ seps) ++ (word ++ (b'/' ∷ (rest ++ tail))) =
        ap (λ (x : List ℕ). (front ++ x) ++ tail) split
        ∙ regroup front seps (word ++ (b'/' ∷ rest)) tail
        ∙ ap (λ (x : List ℕ). (front ++ seps) ++ x) (append_assoc word (b'/' ∷ rest) tail) in
      let sep : is_delim delim b'/' ≡ some true = unfold is_delim in unfold strchr in refl in
      let run =
        strtok-after_token front seps c name b'/' (rest ++ tail) delim all_seps all_name
          (inr sep) in
      let clean = AllAre-NoNul delim false word all_name in
      rw (whole, run, e)
        (walk_token rounds curr (length (front ++ seps))
          (after_token (front ++ seps) word b'/' (rest ++ tail)) word (components rest)
          (token_text (front ++ seps) word (rest ++ tail) clean)
          (λ found.
            rw (passed_str front seps word rest tail, length-passed front seps word) (next found)))

  -- The walk over what is left of the path ends where its names lead.
  pub walk-resolve :
      (n rounds : ℕ) (front s more : List ℕ) (curr : ℕ)
      → IsText s
      → length s ≤ n
      → n < rounds
      → next_step rounds curr (at_place front s more) ≡ resolve curr (components s)
  walk-resolve n zero front s more curr t small enough = absurd (omega (arith, enough))
  walk-resolve n (suc rounds) front s more curr t small enough = elim (shape s t) [
    | slashes all e ↦
        rw (strtok-no_token front s more delim all, e) (unfold walk_path resolve in refl)
    | last_name seps c name all_seps all_name split e ↦
        walk-last_name rounds curr front s more seps c name all_seps all_name split e
    | name_before seps c name rest all_seps all_name split e text less ↦
        walk-name_before rounds curr front s more seps c name rest all_seps all_name split e
          (λ found.
            walk-resolve (length rest) rounds (passed front seps (c ∷ name)) rest more found text
              (omega arith) (omega (arith, less, small, enough)))
  ]
