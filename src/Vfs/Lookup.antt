-- ===== src/Vfs/Lookup.antt =====
-- `vfs_lookup_path` against the names of the path.
use dionnex.Base.{
  ℕ, zero, suc, ◌-◌, ◌≤◌, ◌≡◌, refl, ap, ◌∙◌, inl, inr, none, some, List, [], ◌∷◌, ◌++◌,
  if◌then◌else◌, ◌==◌, take, replicate, length, length-append, length-replicate, length-take,
  append_assoc, arith, Bool-cases,
}
use mathlib.Core.Path.{subst}
use dionnex.Strings.Memory.{store}
use dionnex.Strings.Text.Content.{Holds_text}
use dionnex.Strings.Text.Copy.{field, strncpy-field}
use dionnex.Strings.Memory.Cursor.{store-middle}
use dionnex.Strings.Tokens.Step.{strtok-first}
use dionnex.Vfs.{Vfs, VfsOps, slash, copy_path, vfs_lookup_path}
use dionnex.Vfs.Components.{IsText, IsText-NoNul, components, delim}
use dionnex.Vfs.Components.{IsText-take, components_root}
use dionnex.Vfs.Path.{resolve, walk-resolve}
use dionnex.Ramfs.{same_name}

replicate-snoc : (n x : ℕ) → replicate n x ++ (x ∷ []) ≡ x ∷ replicate n x
replicate-snoc zero x = refl
replicate-snoc (suc n) x = ap (λ (s : List ℕ). x ∷ s) (replicate-snoc n x)

length-field : (s : List ℕ) (n : ℕ) → length (field s n) ≡ n
length-field s n = omega (
  arith,
  length-append (take n s) (replicate (n - length s) 0),
  length-take n s,
  length-replicate {A = ℕ} (n - length s) 0,
)

-- The copy holds the path, cut at 255 characters.
pub copy_path-take :
    (path : List ℕ)
    → IsText path
    → copy_path path ≡ some (take 255 path ++ (0 ∷ replicate (255 - length path) 0))
unfolding copy_path
copy_path-take path t =
    let fill =
      strncpy-field 255 (replicate 256 0) (Holds_text path [] (IsText-NoNul path t))
        (omega arith) in
    let end : store (field path 255 ++ (0 ∷ [])) 255 0 ≡ some (field path 255 ++ (0 ∷ [])) =
      subst (λ (n : ℕ). store (field path 255 ++ (0 ∷ [])) n 0 ≡ some (field path 255 ++ (0 ∷ [])))
        (length-field path 255) (store-middle (field path 255) 0 0 []) in
    rw fill (
      end
      ∙ ap some (
          append_assoc (take 255 path) (replicate (255 - length path) 0) (0 ∷ [])
          ∙ ap (λ (s : List ℕ). take 255 path ++ s) (replicate-snoc (255 - length path) 0)))

-- `vfs_lookup_path` of a path, cut at 255 characters, is 0 where there is no root; else it gives the
-- node that the names between the slashes lead to from the root, one directory after the other, and
-- 0 where a node on the way is no directory or has no entry of the name.
pub vfs_lookup_path-resolve :
    {F : Type 0} (table : ℕ → VfsOps F) (fuel : ℕ) (v : Vfs F) (path : List ℕ)
    → IsText path
    → vfs_lookup_path table fuel v (some path) ≡ (
        if v.vfs_root == 0
        then some 0
        else resolve table fuel v v.vfs_root (components (take 255 path)))
unfolding vfs_lookup_path
vfs_lookup_path-resolve table fuel v path t = elim (Bool-cases (v.vfs_root == 0)) [
  | inl nothing ↦ rw nothing refl
  | inr root ↦ elim (Bool-cases (same_name path slash)) [
    | inl top ↦ rw (root, top, components_root path 255 top) (unfold resolve in refl)
    | inr deeper ↦
        let more : List ℕ = replicate (255 - length path) 0 in
        let few : length (take 255 path) ≤ 255 = omega (arith, length-take 255 path) in
        let start =
          strtok-first (record { str = []; strtok_saved = none }) (take 255 path ++ (0 ∷ more))
            delim in
        rw (root, deeper, copy_path-take path t)
          (rw start (
            walk-resolve table fuel v 255 256 [] (take 255 path) more v.vfs_root
              (IsText-take 255 path t) few (omega arith)))
  ]
]
