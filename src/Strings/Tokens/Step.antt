-- ===== src/Strings/Tokens/Step.antt =====
-- One call of `strtok`.
use dionnex.Base.{
  ℕ, zero, suc, ◌+◌, ◌≡◌, ◌≢◌, refl, sym, ap, ◌∙◌, ◌⊎◌, inl, inr, Bool, true, false, not, Option,
  none, some, List, [], ◌∷◌, ◌++◌, if◌then◌else◌, ◌==◌, drop, get_elem?, length, length-append,
  append_assoc, arith, Bool-cases,
}
use mathlib.Core.Path.{subst}
use dionnex.Strings.Memory.{store}
use dionnex.Strings.Memory.Cursor.{store-middle}
use dionnex.Strings.Tokens.{Strtok, is_delim, scan, end_token, next_token, strtok}

-- Characters that are all delimiters, or all none.
abbrev pub AllAre : List ℕ → Bool → List ℕ → Type 0
AllAre delim wanted [] = Unit
AllAre delim wanted (c ∷ s) = (c ≢ 0) × (is_delim delim c ≡ some wanted) × AllAre delim wanted s

scan-stop :
    (delim : List ℕ) (wanted : Bool) (y : ℕ) (rest : List ℕ) (i : ℕ)
    → (y ≡ 0) ⊎ (is_delim delim y ≡ some (not wanted))
    → scan delim wanted (y ∷ rest) i ≡ some i
unfolding scan
scan-stop delim wanted zero rest i stop = refl
scan-stop delim wanted (suc b) rest i (inl nul) = absurd (ground (arith, nul))
scan-stop delim true (suc b) rest i (inr other) = rw other refl
scan-stop delim false (suc b) rest i (inr other) = rw other refl

scan-pass :
    (delim : List ℕ) (wanted : Bool) (c : ℕ) (s : List ℕ) (i : ℕ)
    → c ≢ 0
    → is_delim delim c ≡ some wanted
    → scan delim wanted (c ∷ s) i ≡ scan delim wanted s (i + 1)
unfolding scan
scan-pass delim wanted zero s i there is = absurd (there refl)
scan-pass delim true (suc b) s i there is = rw is refl
scan-pass delim false (suc b) s i there is = rw is refl

scan-AllAre :
    (xs : List ℕ) (delim : List ℕ) (wanted : Bool) (y : ℕ) (rest : List ℕ) (i : ℕ)
    → AllAre delim wanted xs
    → (y ≡ 0) ⊎ (is_delim delim y ≡ some (not wanted))
    → scan delim wanted (xs ++ (y ∷ rest)) i ≡ some (i + length xs)
scan-AllAre [] delim wanted y rest i all stop =
    scan-stop delim wanted y rest i stop ∙ ap some (omega arith)
scan-AllAre (c ∷ xs) delim wanted y rest i all stop =
    scan-pass delim wanted c (xs ++ (y ∷ rest)) i all.0 all.1
    ∙ scan-AllAre xs delim wanted y rest (i + 1) all.2 stop
    ∙ ap some (omega arith)

pub drop-append : (pre rest : List ℕ) → drop (length pre) (pre ++ rest) ≡ rest
drop-append [] rest = refl
drop-append (x ∷ pre) rest = drop-append pre rest

pub get_elem?-middle :
    (pre : List ℕ) (x : ℕ) (rest : List ℕ) → get_elem? (pre ++ (x ∷ rest)) (length pre) ≡ some x
get_elem?-middle [] x rest = refl
get_elem?-middle (p ∷ pre) x rest = get_elem?-middle pre x rest

-- The string after a token that ends at `y`, and where the next call goes on.
abbrev pub after_token : List ℕ → List ℕ → ℕ → List ℕ → Strtok
after_token before tok y more =
    if y == 0 then record { str = before ++ (tok ++ (y ∷ more)); strtok_saved = none } else record {
      str = before ++ (tok ++ (0 ∷ more));
      strtok_saved = some (length before + length tok + 1);
    }

end_token-after :
    (before tok : List ℕ) (y : ℕ) (more delim : List ℕ) (saved : Option ℕ)
    → AllAre delim false tok
    → (y ≡ 0) ⊎ (is_delim delim y ≡ some true)
    → end_token
        (record { str = before ++ (tok ++ (y ∷ more)); strtok_saved = saved })
        delim
        (length before)
      ≡ some (after_token before tok y more, some (length before))
unfolding end_token
end_token-after before tok y more delim saved all stop =
    let body = tok ++ (y ∷ more) in
    let start = drop-append before body in
    let stop_at = scan-AllAre tok delim false y more (length before) all stop in
    let place : length (before ++ tok) ≡ length before + length tok = length-append before tok in
    let split = append_assoc before tok (y ∷ more) in
    let joined = append_assoc before tok (0 ∷ more) in
    let last : get_elem? (before ++ body) (length before + length tok) ≡ some y =
      subst (λ (n : ℕ). get_elem? (before ++ body) n ≡ some y) place
        (subst (λ (xs : List ℕ). get_elem? xs (length (before ++ tok)) ≡ some y) split
          (get_elem?-middle (before ++ tok) y more)) in
    let cut : store (before ++ body) (length before + length tok) 0
        ≡ some (before ++ (tok ++ (0 ∷ more))) =
      subst (λ (n : ℕ). store (before ++ body) n 0 ≡ some (before ++ (tok ++ (0 ∷ more)))) place
        (subst
          (λ (xs : List ℕ).
            store xs (length (before ++ tok)) 0 ≡ some (before ++ (tok ++ (0 ∷ more))))
          split (store-middle (before ++ tok) y 0 more ∙ ap some joined)) in
    rw (start, stop_at)
      (rw (last, cut) (elim (Bool-cases (y == 0)) [ inl end ↦ rw end refl | inr on ↦ rw on refl ]))

-- From a place with delimiters and a token before a delimiter or the NUL, `strtok` of NULL returns
-- the place of the token. It writes a NUL behind the token and goes on there, or, where the token is
-- the last one, changes nothing and has no place to go on.
pub strtok-after_token :
    (before seps : List ℕ) (c : ℕ) (tok : List ℕ) (y : ℕ) (more delim : List ℕ)
    → AllAre delim true seps
    → AllAre delim false (c ∷ tok)
    → (y ≡ 0) ⊎ (is_delim delim y ≡ some true)
    → strtok
        (record {
          str = (before ++ seps) ++ ((c ∷ tok) ++ (y ∷ more));
          strtok_saved = some (length before);
        })
        none
        delim
      ≡ some (after_token (before ++ seps) (c ∷ tok) y more, some (length (before ++ seps)))
unfolding strtok next_token
strtok-after_token before seps c tok y more delim all_seps all_tok stop =
    let body = (c ∷ tok) ++ (y ∷ more) in
    let whole = (before ++ seps) ++ body in
    let from : drop (length before) whole ≡ seps ++ body =
      ap (drop (length before)) (append_assoc before seps body)
      ∙ drop-append before (seps ++ body) in
    let skip : scan delim true (seps ++ body) (length before) ≡ some (length (before ++ seps)) =
      scan-AllAre seps delim true c (tok ++ (y ∷ more)) (length before) all_seps (inr all_tok.1)
      ∙ ap some (sym (length-append before seps)) in
    let first : get_elem? whole (length (before ++ seps)) ≡ some c =
      get_elem?-middle (before ++ seps) c (tok ++ (y ∷ more)) in
    let there : (c == 0) ≡ false = ground (arith, all_tok.0) in
    rw from (
      rw skip (
        rw (first, there)
          (end_token-after (before ++ seps) (c ∷ tok) y more delim (some (length before)) all_tok
            stop)))

-- Where only delimiters are left before the NUL, there is no token.
pub strtok-no_token :
    (before seps more delim : List ℕ)
    → AllAre delim true seps
    → strtok
        (record { str = (before ++ seps) ++ (0 ∷ more); strtok_saved = some (length before) })
        none
        delim
      ≡ some (
        record {
          str = (before ++ seps) ++ (0 ∷ more);
          strtok_saved = some (length (before ++ seps));
        },
        none,
      )
unfolding strtok next_token
strtok-no_token before seps more delim all_seps =
    let whole = (before ++ seps) ++ (0 ∷ more) in
    let from : drop (length before) whole ≡ seps ++ (0 ∷ more) =
      ap (drop (length before)) (append_assoc before seps (0 ∷ more))
      ∙ drop-append before (seps ++ (0 ∷ more)) in
    let skip : scan delim true (seps ++ (0 ∷ more)) (length before)
        ≡ some (length (before ++ seps)) =
      scan-AllAre seps delim true 0 more (length before) all_seps (inl refl)
      ∙ ap some (sym (length-append before seps)) in
    let first : get_elem? whole (length (before ++ seps)) ≡ some 0 =
      get_elem?-middle (before ++ seps) 0 more in
    rw from (rw skip (rw first refl))

-- Behind the last token there is none.
pub strtok-ended :
    (str delim : List ℕ)
    → strtok (record { str = str; strtok_saved = none }) none delim
      ≡ some (record { str = str; strtok_saved = none }, none)
unfolding strtok next_token
strtok-ended str delim = refl

-- The first call starts at the front of the object that it is given.
pub strtok-first :
    (t : Strtok) (str delim : List ℕ)
    → strtok t (some str) delim ≡ strtok (record { str = str; strtok_saved = some 0 }) none delim
unfolding strtok
strtok-first t str delim = refl
