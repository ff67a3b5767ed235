-- ===== src/Vfs/Mount.antt =====
-- A node mounted under a directory, and what the directory then holds.
use dionnex.Base.{
  ℕ, zero, suc, ◌≤◌, ◌≡◌, ◌≢◌, refl, sym, ap, ◌∙◌, inl, inr, Bool, true, false, none, some, List,
  [], ◌∷◌, ◌++◌, if◌then◌else◌, ltb, ◌==◌, take, length, length-append, arith, Bool-cases, take_all,
}
use mathlib.Core.Path.{subst}
use dionnex.Base.Int.{pos}
use dionnex.Strings.Text.Search.{Without}
use dionnex.Ramfs.{same_name}
use dionnex.Process.Links.{is_in}
use dionnex.Vfs.{
  VfsNode, Vfs, VfsOps, root_ops, ops_of, vfs_finddir, is_dir, slash, child_named, vfs_root_finddir,
  vfs_lookup_path, attach, vfs_mount,
}
use dionnex.Vfs.Components.{IsText, components, components-slash}
use dionnex.Vfs.Path.{resolve}
use dionnex.Vfs.Lookup.{vfs_lookup_path-resolve}
use dionnex.Vfs.Split.{IsText-split, parent_text, split_path-last}

-- The children that an address leads to through `next_sibling`.
abbrev pub Siblings : (ℕ → VfsNode) → ℕ → List ℕ → Type 0
Siblings nodes p [] = p ≡ 0
Siblings nodes p (x ∷ xs) = (p ≡ x) × (x ≢ 0) × Siblings nodes (nodes x).next_sibling xs

-- The search reads nothing but the names and the links of the chain.
child_named-same :
    (xs : List ℕ) (fuel p : ℕ) (old new : ℕ → VfsNode) (name : List ℕ)
    → Siblings old p xs
    → ((a : ℕ)
        → is_in a xs ≡ true
        → ((new a).name ≡ (old a).name) × ((new a).next_sibling ≡ (old a).next_sibling))
    → child_named fuel new p name ≡ child_named fuel old p name
unfolding child_named
child_named-same xs zero p old new name c same = refl
child_named-same [] (suc fuel) p old new name c same = rw c refl
child_named-same (x ∷ xs) (suc fuel) p old new name c same =
    let there : (x == 0) ≡ false = ground (arith, c.1) in
    let here = same x (ground arith) in
    let rest =
      child_named-same xs fuel (old x).next_sibling old new name c.2
        (λ a h. same a (ground (arith, h))) in
    rw (c.0, there) (rw (here.0, here.1) (rw rest refl))

-- The path before the last slash leads where its names lead.
lookup_parent :
    {F : Type 0} (table : ℕ → VfsOps F) (fuel : ℕ) (v : Vfs F) (parent : ℕ) (dir : List ℕ)
    → IsText dir
    → length dir ≤ 255
    → v.vfs_root ≢ 0
    → resolve table fuel v v.vfs_root (components dir) ≡ some parent
    → vfs_lookup_path table fuel v (some (parent_text dir)) ≡ some parent
lookup_parent table fuel v parent [] t small root found =
    let e : (v.vfs_root == 0) ≡ false = ground (arith, root) in
    vfs_lookup_path-resolve table fuel v slash ((λ z. absurd (omega (arith, z))), omega arith, tt)
    ∙ rw e (ap (resolve table fuel v v.vfs_root) (components-slash b'/' [] refl) ∙ found)
lookup_parent table fuel v parent (c ∷ dir) t small root found =
    let e : (v.vfs_root == 0) ≡ false = ground (arith, root) in
    vfs_lookup_path-resolve table fuel v (c ∷ dir) t
    ∙ rw e (
        subst (λ (x : List ℕ). resolve table fuel v v.vfs_root (components x) ≡ some parent)
          (sym (take_all 255 (c ∷ dir) small)) found)

module _ {F : Type 0} (v : Vfs F) (parent node : ℕ) (name : List ℕ) where
  attach_other :
      (xs : List ℕ)
      → is_in node xs ≡ false
      → (a : ℕ) → is_in a xs ≡ true
      → (((attach v parent node name).nodes a).name ≡ (v.nodes a).name)
        × (((attach v parent node name).nodes a).next_sibling ≡ (v.nodes a).next_sibling)
  unfolding attach
  attach_other xs fresh a h = elim (Bool-cases (a == node)) [
    | inl e ↦ let same : a ≡ node = ground (arith, e) in absurd (cc (rw same at h, fresh))
    | inr other ↦ elim (Bool-cases (a == parent)) [
      | inl e ↦
          let same : a ≡ parent = ground (arith, e) in
          let apart : (parent == node) ≡ false = rw same at other in
          rw (e, apart) (rw same (refl, refl))
      | inr e ↦ rw (e, other) (refl, refl)
    ]
  ]

  new_head :
      (fuel : ℕ) (wanted : List ℕ) (new : ℕ → VfsNode)
      → node ≢ 0
      → parent ≢ 0
      → (new parent).children ≡ node
      → is_dir (new parent) ≡ true
      → (new node).name ≡ take 127 name
      → (new node).next_sibling ≡ (v.nodes parent).children
      → child_named fuel new (v.nodes parent).children wanted
        ≡ child_named fuel v.nodes (v.nodes parent).children wanted
      → is_dir (v.nodes parent) ≡ true
      → vfs_root_finddir (suc fuel) new parent wanted ≡ (
          if same_name (take 127 name) wanted
          then some node
          else vfs_root_finddir fuel v.nodes parent wanted)
  unfolding vfs_root_finddir child_named
  new_head fuel wanted new some_node some_parent first dir named next rest old_dir =
      let e₁ : (parent == 0) ≡ false = ground (arith, some_parent) in
      let e₄ : (node == 0) ≡ false = ground (arith, some_node) in
      rw (e₁, dir, old_dir) (rw (first, e₄) (rw (named, next) (rw rest refl)))

  -- The directory holds the node, and then what it held.
  attach-finddir :
      (fuel : ℕ) (wanted : List ℕ) (xs : List ℕ)
      → node ≢ 0
      → parent ≢ 0
      → node ≢ parent
      → is_dir (v.nodes parent) ≡ true
      → Siblings v.nodes (v.nodes parent).children xs
      → is_in node xs ≡ false
      → vfs_root_finddir (suc fuel) (attach v parent node name).nodes parent wanted ≡ (
          if same_name (take 127 name) wanted
          then some node
          else vfs_root_finddir fuel v.nodes parent wanted)
  unfolding attach
  attach-finddir fuel wanted xs some_node some_parent apart dir c fresh =
      let e₂ : (parent == node) ≡ false = ground (arith, apart) in
      let e₃ : (node == parent) ≡ false = ground (arith, apart) in
      let e₅ : (parent == parent) ≡ true = ground arith in
      let e₆ : (node == node) ≡ true = ground arith in
      new_head fuel wanted (attach v parent node name).nodes some_node some_parent (rw e₅ refl)
        (rw (e₅, e₂) dir) (rw (e₃, e₆) refl) (rw (e₃, e₆) refl)
        (child_named-same xs fuel (v.nodes parent).children v.nodes
          (attach v parent node name).nodes wanted c (attach_other xs fresh))
        dir

  attach_ops : node ≢ parent → ((attach v parent node name).nodes parent).ops ≡ (v.nodes parent).ops
  unfolding attach
  attach_ops apart =
      let e₁ : (parent == node) ≡ false = ground (arith, apart) in
      let e₂ : (parent == parent) ≡ true = ground arith in rw (e₁, e₂) refl

  finddir_root :
      (table : ℕ → VfsOps F) (fuel : ℕ) (w : Vfs F) (wanted : List ℕ)
      → parent ≢ 0
      → (w.nodes parent).ops ≡ root_ops
      → vfs_finddir table fuel w parent wanted ≡ vfs_root_finddir fuel w.nodes parent wanted
  unfolding vfs_finddir ops_of
  finddir_root table fuel w wanted some_parent served =
      let e : (parent == 0) ≡ false = ground (arith, some_parent) in
      rw (e, served, vfs_finddir, ops_of) refl

  -- With a root, a node that is not NULL is mounted by a path of at most 255 characters, none of them
  -- NUL, that is not "/" and ends in a slash and a name of at most 127 characters without a slash. If
  -- the names before it lead to a directory with the operations of the root, whose chain of children
  -- ends, and the node is neither the directory nor among them, `vfs_mount` returns 0 and the node
  -- becomes the first child: `vfs_finddir` of the directory then finds the node for its name, and for
  -- any other name what it found before.
  pub vfs_mount-finddir :
      (table : ℕ → VfsOps F) (fuel : ℕ) (dir wanted : List ℕ) (xs : List ℕ)
      → IsText (dir ++ (b'/' ∷ name))
      → Without b'/' name
      → length (dir ++ (b'/' ∷ name)) ≤ 255
      → length name ≤ 127
      → same_name (dir ++ (b'/' ∷ name)) slash ≡ false
      → v.vfs_root ≢ 0
      → resolve table fuel v v.vfs_root (components dir) ≡ some parent
      → node ≢ 0
      → parent ≢ 0
      → node ≢ parent
      → is_dir (v.nodes parent) ≡ true
      → (v.nodes parent).ops ≡ root_ops
      → Siblings v.nodes (v.nodes parent).children xs
      → is_in node xs ≡ false
      → (v' : Vfs F) × (vfs_mount table fuel v (some (dir ++ (b'/' ∷ name))) node
          ≡ some (v', pos 0))
        × (vfs_finddir table (suc fuel) v' parent wanted
            ≡ (if same_name name wanted then some node else vfs_finddir table fuel v parent wanted))
  unfolding vfs_mount
  vfs_mount-finddir table fuel dir wanted xs t w small short deep root found some_node some_parent
        apart is served c fresh =
      let e₁ : (node == 0) ≡ false = ground (arith, some_node) in
      let e₂ : (v.vfs_root == 0) ≡ false = ground (arith, root) in
      let e₃ : (parent == 0) ≡ false = ground (arith, some_parent) in
      let e₄ : ltb 127 (length name) ≡ false = ground (arith, short) in
      let split =
        split_path-last dir name t w small
        ∙ ap (λ (b : Bool). if b then none else some (some (parent_text dir, name))) e₄ in
      let looked =
        lookup_parent table fuel v parent dir (IsText-split dir (b'/' ∷ name) t).0
          (omega (arith, length-append dir (b'/' ∷ name))) root found in
      (
        attach v parent node name,
        rw (e₁, e₂, deep) (rw split (rw looked (rw (e₃, is) refl))),
        rw
            (
              finddir_root table (suc fuel) (attach v parent node name) wanted some_parent
                  (attach_ops apart ∙ served),
              finddir_root table fuel v wanted some_parent served,
            )
            (subst
              (λ (x : List ℕ).
                vfs_root_finddir (suc fuel) (attach v parent node name).nodes parent wanted ≡ (
                  if same_name x wanted
                  then some node
                  else vfs_root_finddir fuel v.nodes parent wanted))
              (take_all 127 name short)
              (attach-finddir fuel wanted xs some_node some_parent apart is c fresh)),
      )
