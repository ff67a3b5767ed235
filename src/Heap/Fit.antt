-- ===== src/Heap/Fit.antt =====
-- The search of `kmalloc` on a heap that tiles its range.
use dionnex.Base.{
  ℕ, ◌+◌, ◌-◌, ◌^◌, ◌≤◌, ◌<◌, ◌≡◌, refl, sym, ap, ◌⊎◌, inl, inr, List, [], ◌∷◌, ◌++◌, Bool, true,
  false, ◌&&◌, if◌then◌else◌, ◌==◌, leb, arith, Bool-cases, none, some,
}
use mathlib.Core.Path.{subst}
use dionnex.Strings.Number.{u32}
use dionnex.Heap.{Block, heap_magic, header, done, carve, take_fit}
use dionnex.Heap.Tiling.{Tiled, le_of_Tiled, Tiled-append}

-- The test of the loop.
abbrev pub fits : ℕ → Block → Bool
fits req b = b.free && leb req b.size

abbrev pub NoneFits : ℕ → List Block → Type 0
NoneFits req [] = Unit
NoneFits req (b ∷ bs) = (fits req b ≡ false) × NoneFits req bs

-- The block as `kmalloc` hands it out.
abbrev pub taken : Block → ℕ → Block
taken b req =
    if leb (u32 (req + header + 16)) b.size
    then record b { size = req; free = false }
    else record b { free = false }

-- What is left of it, if anything.
abbrev pub remainder : Block → ℕ → List Block
remainder b req =
    if leb (u32 (req + header + 16)) b.size
    then record {
      addr = u32 (b.addr + header + req);
      magic = heap_magic;
      size = u32 (b.size + 2 ^ 32 - u32 (req + header));
      free = true;
    }
      ∷ []
    else []

pub carve-taken : (b : Block) (req : ℕ) → carve b req ≡ taken b req ∷ remainder b req
unfolding carve
carve-taken b req = ground arith

-- The chain is split at the first block that fits.
pub record Fit (req : ℕ) (bs : List Block) (base end : ℕ) (pre : List Block) (b : Block)
    (post : List Block) : Type 0 where
  pub split : bs ≡ pre ++ (b ∷ post)
  pub below : NoneFits req pre
  pub fit : fits req b ≡ true
  pub run : take_fit bs req ≡ done (some (b.addr + header, pre ++ (carve b req ++ post)))
  pub tiled : Tiled (pre ++ (carve b req ++ post)) base end

-- A request that its rounding and the header leave in 32 bits.
module _ (req : ℕ) (small : req + header + 16 < 2 ^ 32) where
  -- Splitting a block inside the range of addresses keeps its bytes together.
  carve-Tiled :
      (b : Block) (end : ℕ)
      → b.addr + header + b.size ≤ end
      → end < 2 ^ 32
      → b.magic ≡ heap_magic
      → Tiled (carve b req) b.addr (b.addr + header + b.size)
  unfolding carve
  carve-Tiled b end inside top intact = elim (Bool-cases (leb (u32 (req + header + 16)) b.size)) [
    | inr whole ↦ rw whole (refl, intact, refl)
    | inl split ↦
        let room : req + header + 16 ≤ b.size = ground arith in
        rw split (refl, intact, (omega (arith, room), refl, omega (arith, room)))
  ]

  pub take_fit-Fit :
      (bs : List Block) (base end : ℕ)
      → Tiled bs base end
      → end < 2 ^ 32
      → NoneFits req bs × (take_fit bs req ≡ done none)
        ⊎ ((pre : List Block) × (b : Block) × (post : List Block) × Fit req bs base end pre b post)
  unfolding take_fit
  take_fit-Fit [] base end t top = inl (tt, refl)
  take_fit-Fit (c ∷ rest) base end t top =
      let intact : (c.magic == heap_magic) ≡ true = ground (arith, t.1) in
      elim (Bool-cases (fits req c)) [
        | inl suits ↦
            let reach = le_of_Tiled rest (base + header + c.size) end t.2 in
            let at : u32 (c.addr + header) ≡ c.addr + header = omega (arith, t.0, reach) in
            let pieces = carve-Tiled c end (omega (arith, t.0, reach)) top t.1 in
            let whole =
              Tiled-append (carve c req) rest c.addr (c.addr + header + c.size) end pieces
                (subst (λ m. Tiled rest (m + header + c.size) end) (sym t.0) t.2) in
            inr (
              [],
              c,
              rest,
              record {
                split = refl;
                below = tt;
                fit = suits;
                run = rw (intact, suits, at) refl;
                tiled = subst (λ m. Tiled (carve c req ++ rest) m end) t.0 whole;
              },
            )
        | inr fails ↦ elim (take_fit-Fit rest (base + header + c.size) end t.2 top) [
          | inl (all, run) ↦ inl ((fails, all), rw (intact, fails, run) refl)
          | inr (pre, b, post, f) ↦ inr (
            c ∷ pre,
            b,
            post,
            record {
              split = ap (λ bs. c ∷ bs) f.split;
              below = (fails, f.below);
              fit = f.fit;
              run = rw (intact, fails, f.run) refl;
              tiled = (t.0, t.1, f.tiled);
            },
          )
        ]
      ]
