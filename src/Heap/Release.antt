-- ===== src/Heap/Release.antt =====
-- `kfree` on a heap that tiles its range.
use dionnex.Base.{
  ℕ, ◌+◌, ◌-◌, ◌^◌, ◌<◌, ◌≡◌, refl, ◌∙◌, List, [], ◌∷◌, ◌++◌, true, false, ◌==◌, arith,
}
use dionnex.Strings.Number.{u32}
use dionnex.Heap.{Block, Heap, heap_magic, header, done, heap_coalesce, release, kfree}
use dionnex.Heap.Tiling.{
  Tiled, used_blocks, Coalesced, Tiled-same_shape, used_blocks-append, block_inside,
}
use dionnex.Heap.Coalesce.{heap_coalesce-Merged}

abbrev pub freed : Block → Block
freed b = record b { free = true }

-- The block is found by its address, since the blocks before it stand at lower addresses.
release-found :
    (pre : List Block) (b : Block) (post : List Block) (base end : ℕ)
    → Tiled (pre ++ (b ∷ post)) base end
    → release b.addr (pre ++ (b ∷ post)) ≡ done (pre ++ (freed b ∷ post))
unfolding release
release-found [] b post base end t =
    let here : (b.addr == b.addr) ≡ true = ground arith in
    let intact : (b.magic == heap_magic) ≡ true = ground (arith, t.1) in rw (here, intact) refl
release-found (c ∷ pre) b post base end t =
    let (lo, hi, m) = block_inside pre b post (base + header + c.size) end t.2 in
    let other : (c.addr == b.addr) ≡ false = ground (arith, t.0) in
    rw (other, release-found pre b post (base + header + c.size) end t.2) refl

-- What `kfree` leaves: the heap tiles the same range, no two free blocks are neighbours, and the
-- blocks in use are those of `kept`.
pub record Released (h : Heap) (base : ℕ) (kept : List Block) (h' : Heap) : Type 0 where
  pub range : h'.end_addr ≡ h.end_addr
  pub tiled : Tiled h'.blocks base h.end_addr
  pub apart : Coalesced h'.blocks
  pub same : used_blocks h'.blocks ≡ kept

merged-any :
    (xs : List Block) (pre : List Block) (b : Block) (post : List Block) (base end : ℕ)
    → xs ≡ pre ++ (b ∷ post)
    → Tiled xs base end
    → end < 2 ^ 32
    → (out : List Block) × (heap_coalesce xs ≡ done out)
      × Tiled out base end
      × Coalesced out
      × (used_blocks out ≡ used_blocks xs)
merged-any [] [] b post base end e t top = absurd (cc e)
merged-any [] (c ∷ pre) b post base end e t top = absurd (cc e)
merged-any (a ∷ rest) pre b post base end e t top =
    let (out, run, m) = heap_coalesce-Merged a rest base end t top in
    (out, run, m.tiled, m.apart, m.same)

-- In a heap that tiles a range of 32-bit addresses, `kfree` of the pointer to one of its blocks
-- succeeds: the heap tiles the same range, no two free blocks are neighbours any more, and the
-- blocks in use are those that were, less the freed one, each at its place and with its size.
pub kfree-Released :
    (h : Heap) (base : ℕ) (pre : List Block) (b : Block) (post : List Block)
    → h.blocks ≡ pre ++ (b ∷ post)
    → Tiled h.blocks base h.end_addr
    → h.end_addr < 2 ^ 32
    → (h' : Heap) × (kfree h (b.addr + header) ≡ done h')
      × Released h base (used_blocks pre ++ used_blocks post) h'
unfolding kfree
kfree-Released h base pre b post e t top =
    let t' : Tiled (pre ++ (b ∷ post)) base h.end_addr = rw e at t in
    let (lo, hi, m) = block_inside pre b post base h.end_addr t' in
    let not_null : (b.addr + header == 0) ≡ false = ground arith in
    let at : u32 (b.addr + header + 2 ^ 32 - header) ≡ b.addr = omega arith in
    let marked = Tiled-same_shape pre b (freed b) post base h.end_addr refl refl refl t' in
    let (out, run, tiled, apart, same) =
      merged-any (pre ++ (freed b ∷ post)) pre (freed b) post base h.end_addr refl marked top in
    let kept = used_blocks-append pre (freed b ∷ post) in
    let found = release-found pre b post base h.end_addr t' in
    (
      record h { blocks = out },
      rw (not_null, at, e, found, run) refl,
      record { range = refl; tiled = tiled; apart = apart; same = same ∙ kept },
    )
