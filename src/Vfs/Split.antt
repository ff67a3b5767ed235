-- ===== src/Vfs/Split.antt =====
-- The last name of a path, and the overflow of its 128 bytes.
use dionnex.Base.{
  ℕ, suc, ◌+◌, ◌-◌, ◌≤◌, ◌<◌, ◌≡◌, refl, sym, ap, ◌∙◌, inl, inr, false, none, some, List, [], ◌∷◌,
  ◌++◌, if◌then◌else◌, ltb, ◌==◌, drop, take, replicate, length, length-append, append_assoc, arith,
  Bool-cases, take_all,
}
use mathlib.Core.Path.{subst}
use dionnex.Strings.Memory.{store}
use dionnex.Strings.Memory.Cursor.{store-middle}
use dionnex.Strings.Text.{strcpy, strrchr}
use dionnex.Strings.Text.Holds.{Holds}
use dionnex.Strings.Text.Content.{text_of, text_of-append, NoNul, Holds_text}
use dionnex.Strings.Text.Copy.{strcpy-append, strcpy-short}
use dionnex.Strings.Text.Search.{Without, strrchr-last_index, last_index-append}
use dionnex.Strings.Tokens.Step.{drop-append}
use dionnex.Vfs.{slash, split_at, split_path}
use dionnex.Vfs.Components.{IsText, IsText-NoNul}
use dionnex.Vfs.Lookup.{copy_path-take}

-- The path before the last slash, which for a name in the root is the root.
abbrev pub parent_text : List ℕ → List ℕ
parent_text [] = slash
parent_text (c ∷ dir) = c ∷ dir

pub IsText-split : (s t : List ℕ) → IsText (s ++ t) → IsText s × IsText t
IsText-split [] t all = (tt, all)
IsText-split (c ∷ s) t all =
    let (first, second) = IsText-split s t all.2 in ((all.0, all.1, first), second)

slash_is_text : NoNul slash
slash_is_text = ((λ e. absurd (omega (arith, e))), tt)

drop_behind : (dir rest : List ℕ) → drop (length dir + 1) (dir ++ (b'/' ∷ rest)) ≡ rest
drop_behind dir rest =
    let e : length (dir ++ (b'/' ∷ [])) ≡ length dir + 1 = length-append dir (b'/' ∷ []) in
    subst (λ (n : ℕ). drop n (dir ++ (b'/' ∷ rest)) ≡ rest) e
      (subst (λ (x : List ℕ). drop (length (dir ++ (b'/' ∷ []))) x ≡ rest)
        (append_assoc dir (b'/' ∷ []) rest) (drop-append (dir ++ (b'/' ∷ [])) rest))

fits : (n : ℕ) → ltb 127 n ≡ false → n < length (replicate {A = ℕ} 128 0)
fits n short = ground (arith, short)

-- The NUL that cuts the parent's path, or the path of the root over it.
cut_parent :
    (dir rest : List ℕ)
    → NoNul dir
    → 0 < length rest
    → (cut : List ℕ) × ((if length dir == 0
          then strcpy (dir ++ (b'/' ∷ rest)) (slash ++ (0 ∷ []))
          else store (dir ++ (b'/' ∷ rest)) (length dir) 0)
        ≡ some cut)
      × (text_of cut ≡ some (parent_text dir))
cut_parent [] rest clean room = (
  slash ++ (0 ∷ drop 2 (b'/' ∷ rest)),
  strcpy-append (b'/' ∷ rest) (Holds_text slash [] slash_is_text) (omega (arith, room)),
  text_of-append slash (drop 2 (b'/' ∷ rest)) slash_is_text,
)
cut_parent (c ∷ dir) rest clean room =
    let deep : (suc (length dir) == 0) ≡ false = ground arith in
    (
      (c ∷ dir) ++ (0 ∷ rest),
      rw deep (store-middle (c ∷ dir) b'/' 0 rest),
      text_of-append (c ∷ dir) rest clean,
    )

-- A path of at most 255 characters whose last name has at most 127 is split into the path before
-- the last slash, which for a name in the root is that of the root, and the name; a longer name is
-- written past the end of its 128 bytes.
pub split_path-last :
    (dir name : List ℕ)
    → IsText (dir ++ (b'/' ∷ name))
    → Without b'/' name
    → length (dir ++ (b'/' ∷ name)) ≤ 255
    → split_path (dir ++ (b'/' ∷ name))
      ≡ (if ltb 127 (length name) then none else some (some (parent_text dir, name)))
unfolding split_path split_at
split_path-last dir name t w small =
    let path = dir ++ (b'/' ∷ name) in
    let more : List ℕ = 0 ∷ replicate (255 - length path) 0 in
    let whole : take 255 path ++ more ≡ dir ++ (b'/' ∷ (name ++ more)) =
      ap (λ (x : List ℕ). x ++ more) (take_all 255 path small)
      ∙ append_assoc dir (b'/' ∷ name) more in
    let (dir_text, rest_text) = IsText-split dir (b'/' ∷ name) t in
    let clean = IsText-NoNul name rest_text.2 in
    let holds =
      subst (λ (x : List ℕ). Holds x path) whole
        (subst (λ (x : List ℕ). Holds (x ++ more) path) (sym (take_all 255 path small))
          (Holds_text path (replicate (255 - length path) 0) (IsText-NoNul path t))) in
    let start : 0 + length dir ≡ length dir = omega arith in
    let found : strrchr (dir ++ (b'/' ∷ (name ++ more))) b'/' ≡ some (some (length dir)) =
      strrchr-last_index b'/' holds (λ e. absurd (omega (arith, e)))
      ∙ ap some (last_index-append dir b'/' name 0 w)
      ∙ ap (λ (n : ℕ). some (some n)) start in
    let behind : drop (length dir + 1) (dir ++ (b'/' ∷ (name ++ more))) ≡ name ++ more =
      drop_behind dir (name ++ more) in
    let (cut, run, parent) =
      cut_parent dir (name ++ more) (IsText-NoNul dir dir_text)
        (omega (arith, length-append name more)) in
    rw (copy_path-take path t ∙ ap some whole) (
      rw found (
        rw behind (elim (Bool-cases (ltb 127 (length name))) [
          | inl long ↦
              rw
                (
                  long,
                  strcpy-short (replicate 128 0)
                      (Holds_text name (replicate (255 - length path) 0) clean)
                      (ground (arith, long)),
                )
                refl
          | inr short ↦
              let copied =
                strcpy-append (replicate 128 0)
                  (Holds_text name (replicate (255 - length path) 0) clean)
                  (fits (length name) short) in
              let kept = text_of-append name (drop (suc (length name)) (replicate 128 0)) clean in
              rw (short, copied) (rw run (rw (parent, kept) refl))
        ])))
