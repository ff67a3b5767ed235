-- ===== src/Heap/Tiling.antt =====
-- A heap that tiles a range of addresses: block behind block, with no gap and no overlap.
use dionnex.Base.{
  ℕ, ◌+◌, ◌≤◌, ◌≡◌, refl, sym, ◌∙◌, List, [], ◌∷◌, ◌++◌, Bool, false, ◌&&◌, if◌then◌else◌, arith,
}
use mathlib.Core.Path.{subst}
use dionnex.Heap.{Block, heap_magic, header}

-- The blocks follow one another from `base` to `end`, and their headers are intact.
abbrev pub Tiled : List Block → ℕ → ℕ → Type 0
Tiled [] base end = base ≡ end
Tiled (b ∷ bs) base end =
    (b.addr ≡ base) × (b.magic ≡ heap_magic) × Tiled bs (base + header + b.size) end

pub le_of_Tiled : (bs : List Block) (base end : ℕ) → Tiled bs base end → base ≤ end
le_of_Tiled [] base end t = omega arith
le_of_Tiled (b ∷ bs) base end t = omega (arith, le_of_Tiled bs (base + header + b.size) end t.2)

pub Tiled-append :
    (xs ys : List Block) (base mid end : ℕ)
    → Tiled xs base mid
    → Tiled ys mid end
    → Tiled (xs ++ ys) base end
Tiled-append [] ys base mid end t u = subst (λ m. Tiled ys m end) (sym t) u
Tiled-append (b ∷ xs) ys base mid end t u =
    (t.0, t.1, Tiled-append xs ys (base + header + b.size) mid end t.2 u)

-- The blocks in use.
abbrev pub used_blocks : List Block → List Block
used_blocks [] = []
used_blocks (b ∷ bs) = if b.free then used_blocks bs else b ∷ used_blocks bs

-- No two free blocks stand side by side.
abbrev pub Coalesced : List Block → Type 0
Coalesced [] = Unit
Coalesced (a ∷ []) = Unit
Coalesced (a ∷ (b ∷ rest)) = ((a.free && b.free) ≡ false) × Coalesced (b ∷ rest)

abbrev pub Starts : List Block → Bool → Type 0
Starts [] f = ⊥
Starts (c ∷ rest) f = c.free ≡ f

pub Tiled-same_shape :
    (pre : List Block) (b c : Block) (post : List Block) (base end : ℕ)
    → c.addr ≡ b.addr
    → c.magic ≡ b.magic
    → c.size ≡ b.size
    → Tiled (pre ++ (b ∷ post)) base end
    → Tiled (pre ++ (c ∷ post)) base end
Tiled-same_shape [] b c post base end at magic size t =
    (at ∙ t.0, magic ∙ t.1, subst (λ m. Tiled post (base + header + m) end) (sym size) t.2)
Tiled-same_shape (d ∷ pre) b c post base end at magic size t =
    (t.0, t.1, Tiled-same_shape pre b c post (base + header + d.size) end at magic size t.2)

pub used_blocks-append :
    (xs ys : List Block) → used_blocks (xs ++ ys) ≡ used_blocks xs ++ used_blocks ys
used_blocks-append [] ys = refl
used_blocks-append (b ∷ xs) ys = ground (arith, used_blocks-append xs ys)

-- The block at its place in the chain stands inside the range.
pub block_inside :
    (pre : List Block) (b : Block) (post : List Block) (base end : ℕ)
    → Tiled (pre ++ (b ∷ post)) base end
    → (base ≤ b.addr) × (b.addr + header + b.size ≤ end) × (b.magic ≡ heap_magic)
block_inside [] b post base end t =
    let rest = le_of_Tiled post (base + header + b.size) end t.2 in
    (omega (arith, t.0), omega (arith, t.0), t.1)
block_inside (c ∷ pre) b post base end t =
    let (lo, hi, m) = block_inside pre b post (base + header + c.size) end t.2 in
    (omega (arith, lo), hi, m)
