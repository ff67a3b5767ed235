-- ===== src/Heap/Grant.antt =====
-- `kmalloc` on a heap that tiles its range, and `kfree` of what it gave.
use dionnex.Base.{
  ℕ, ◌+◌, ◌^◌, ◌≤◌, ◌<◌, ◌≡◌, refl, ◌∙◌, ◌⊎◌, inl, inr, List, ◌∷◌, ◌++◌, true, false, ◌==◌, arith,
}
use dionnex.Pmm.{Pmm}
use dionnex.Heap.{Block, Heap, header, done, carve, align_up_4, expand, kmalloc, kfree}
use dionnex.Heap.Tiling.{Tiled, used_blocks, used_blocks-append}
use dionnex.Heap.Fit.{fits, NoneFits, taken, remainder, carve-taken, Fit, take_fit-Fit}
use dionnex.Heap.Release.{Released, kfree-Released}

-- What `kmalloc` gives from a chain with a block that fits: the first one, `b`, at least as large
-- as asked. `kfree` of the pointer brings back the blocks in use.
pub record Granted (h : Heap) (p : Pmm) (base size : ℕ) (pre : List Block) (b : Block)
    (post : List Block) (h' : Heap) : Type 0 where
  pub split : h.blocks ≡ pre ++ (b ∷ post)
  pub below : NoneFits (align_up_4 size) pre
  pub fit : fits (align_up_4 size) b ≡ true
  pub run : kmalloc h p size ≡ done (b.addr + header, h', p)
  pub range : h'.end_addr ≡ h.end_addr
  pub tiled : Tiled h'.blocks base h.end_addr
  pub used :
      used_blocks h'.blocks ≡ used_blocks pre ++ (taken b (align_up_4 size) ∷ used_blocks post)
  pub room : size ≤ (taken b (align_up_4 size)).size
  pub undo :
      (h'' : Heap) × (kfree h' (b.addr + header) ≡ done h'')
      × Released h' base (used_blocks h.blocks) h''

used-remainder :
    (b : Block) (req : ℕ) (post : List Block)
    → used_blocks (remainder b req ++ post) ≡ used_blocks post
used-remainder b req post = ground arith

used-taken :
    (b : Block) (req : ℕ) (xs : List Block)
    → used_blocks (taken b req ∷ xs) ≡ taken b req ∷ used_blocks xs
used-taken b req xs = ground arith

taken-addr : (b : Block) (req : ℕ) → (taken b req).addr ≡ b.addr
taken-addr b req = ground arith

taken-size : (b : Block) (req : ℕ) → fits req b ≡ true → req ≤ (taken b req).size
taken-size b req fit = ground (arith, fit)

free_block :
    (b : Block) (req : ℕ) (post : List Block)
    → fits req b ≡ true
    → used_blocks (b ∷ post) ≡ used_blocks post
free_block b req post fit = ground (arith, fit)

align_up_4-bounds :
    (size : ℕ)
    → size + 32 < 2 ^ 32
    → (size ≤ align_up_4 size) × (align_up_4 size + header + 16 < 2 ^ 32)
align_up_4-bounds size small = (omega arith, omega arith)

module _ (h : Heap) (p : Pmm) (base size : ℕ) (t : Tiled h.blocks base h.end_addr)
    (top : h.end_addr < 2 ^ 32) (some_bytes : 0 < size) where
  granted :
      size + 32 < 2 ^ 32
      → (pre : List Block) (b : Block) (post : List Block)
      → Fit (align_up_4 size) h.blocks base h.end_addr pre b post
      → (h' : Heap) × Granted h p base size pre b post h'
  unfolding kmalloc
  granted small pre b post f =
      let req = align_up_4 size in
      let given = taken b req in
      let rest = remainder b req ++ post in
      let h' : Heap = record h { blocks = pre ++ (carve b req ++ post) } in
      let asked : (size == 0) ≡ false = ground arith in
      let shape : h'.blocks ≡ pre ++ (given ∷ rest) = rw (carve-taken b req) refl in
      let back : used_blocks pre ++ used_blocks rest ≡ used_blocks h.blocks =
        rw
          (
            used-remainder b req post,
            f.split,
            used_blocks-append pre (b ∷ post),
            free_block b req post f.fit,
          )
          refl in
      let (h'', free_run, r) = kfree-Released h' base pre given rest shape f.tiled top in
      (
        h',
        record {
          split = f.split;
          below = f.below;
          fit = f.fit;
          run = rw (asked, f.run) refl;
          range = refl;
          tiled = f.tiled;
          used =
              rw
                (
                  carve-taken b req,
                  used_blocks-append pre (given ∷ rest),
                  used-taken b req rest,
                  used-remainder b req post,
                )
                refl;
          room = omega (arith, taken-size b req f.fit, (align_up_4-bounds size small).0);
          undo = (
            h'',
            rw (taken-addr b req) at free_run,
            record { range = r.range; tiled = r.tiled; apart = r.apart; same = r.same ∙ back },
          );
        },
      )

  -- In a heap that tiles a range of 32-bit addresses, for a size that is not 0 and leaves 32 bytes
  -- in 32 bits: if no block fits the rounded size, `kmalloc` does what its expansion does.
  -- Otherwise it returns the first block that fits, the others untouched; the heap tiles the same
  -- range, its blocks in use are those before and the new one, which has the size asked for; and
  -- `kfree` of the pointer succeeds and brings back exactly the blocks that were in use.
  pub kmalloc-first_fit :
      size + 32 < 2 ^ 32
      → NoneFits (align_up_4 size) h.blocks
          × (kmalloc h p size ≡ done (expand h p (align_up_4 size)))
        ⊎ ((pre : List Block) × (b : Block) × (post : List Block) × (h' : Heap) × Granted h p base
              size pre b post h')
  unfolding kmalloc
  kmalloc-first_fit small =
      let asked : (size == 0) ≡ false = ground arith in
      elim (take_fit-Fit (align_up_4 size) (align_up_4-bounds size small).1 h.blocks base h.end_addr
        t top) [
          | inl (none_fits, run) ↦ inl (none_fits, rw (asked, run) refl)
          | inr (pre, b, post, f) ↦
              let (h', g) = granted small pre b post f in inr (pre, b, post, h', g)
        ]
