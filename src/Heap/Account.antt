-- ===== src/Heap/Account.antt =====
-- The two counters of the heap on a heap that tiles its range.
use dionnex.Base.{
  ℕ, ◌+◌, ◌*◌, ◌^◌, ◌<◌, ◌≡◌, ◌∙◌, List, [], ◌∷◌, true, ◌==◌, arith, Bool-cases, length, inl, inr,
}
use dionnex.Strings.Number.{u32}
use dionnex.Heap.{
  Block, Heap, heap_magic, header, free_from, used_from, heap_get_free, heap_get_used,
}
use dionnex.Heap.Tiling.{Tiled, le_of_Tiled}

counts :
    (bs : List Block) (base end a c : ℕ)
    → Tiled bs base end
    → a + c + end < 2 ^ 32 + base
    → free_from bs a + used_from bs c + header * length bs + base ≡ a + c + end
unfolding free_from used_from
counts [] base end a c t small = omega arith
counts (b ∷ rest) base end a c t small =
    let intact : (b.magic == heap_magic) ≡ true = ground (arith, t.1) in
    let reach = le_of_Tiled rest (base + header + b.size) end t.2 in
    elim (Bool-cases b.free) [
      | inl free ↦
          let sum : u32 (a + b.size) ≡ a + b.size = omega arith in
          let rec = counts rest (base + header + b.size) end (a + b.size) c t.2 (omega arith) in
          rw (intact, free, sum) (omega (arith, rec))
      | inr used ↦
          let sum : u32 (c + b.size) ≡ c + b.size = omega arith in
          let rec = counts rest (base + header + b.size) end a (c + b.size) t.2 (omega arith) in
          rw (intact, used, sum) (omega (arith, rec))
    ]

-- In a heap that tiles a range of 32-bit addresses, the bytes that `heap_get_free` and
-- `heap_get_used` count and the headers of the blocks make up the whole range.
pub heap_get_free-heap_get_used :
    (h : Heap) (base : ℕ)
    → Tiled h.blocks base h.end_addr
    → h.end_addr < 2 ^ 32
    → heap_get_free h + heap_get_used h + header * length h.blocks + base ≡ h.end_addr
unfolding heap_get_free heap_get_used
heap_get_free-heap_get_used h base t top =
    counts h.blocks base h.end_addr 0 0 t (omega arith) ∙ omega arith
