-- ===== src/Heap/Coalesce.antt =====
-- `heap_coalesce` and `kfree` on a heap that tiles its range.
use dionnex.Base.{
  ℕ, ◌+◌, ◌^◌, ◌<◌, ◌≡◌, refl, sym, ◌∙◌, inl, inr, List, [], ◌∷◌, Bool, true, false, ◌&&◌, ◌==◌,
  arith, Bool-cases,
}
use mathlib.Core.Path.{subst}
use dionnex.Strings.Number.{u32}
use dionnex.Heap.{Block, heap_magic, header, merge, done, coalesce_from, heap_coalesce}
use dionnex.Heap.Tiling.{Tiled, le_of_Tiled, used_blocks, Coalesced, Starts}

-- What coalescing gives: the same range, the same blocks in use, no free neighbours.
pub record Merged (a : Block) (rest : List Block) (base end : ℕ) (out : List Block) : Type 0 where
  pub tiled : Tiled out base end
  pub apart : Coalesced out
  pub same : used_blocks out ≡ used_blocks (a ∷ rest)
  pub starts : Starts out a.free

Coalesced-cons :
    (a : Block) (f : Bool) (out : List Block)
    → (a.free && f) ≡ false
    → Starts out f
    → Coalesced out
    → Coalesced (a ∷ out)
Coalesced-cons a f [] e s c = absurd s
Coalesced-cons a f (b ∷ out) e s c = (rw s e, c)

used_merge :
    (a b : Block) (rest : List Block)
    → (a.free && b.free) ≡ true
    → used_blocks (merge a b ∷ rest) ≡ used_blocks (a ∷ (b ∷ rest))
used_merge a b rest both = ground arith

pub coalesce_from-Merged :
    (a : Block) (rest : List Block) (base end : ℕ)
    → Tiled (a ∷ rest) base end
    → end < 2 ^ 32
    → (out : List Block) × (coalesce_from a rest ≡ done out) × Merged a rest base end out
unfolding coalesce_from
coalesce_from-Merged a [] base end t top =
    (a ∷ [], refl, record { tiled = t; apart = tt; same = refl; starts = refl })
coalesce_from-Merged a (b ∷ rest) base end t top =
    let intact : (a.magic == heap_magic) ≡ true = ground (arith, t.1) in
    let intact' : (b.magic == heap_magic) ≡ true = ground (arith, t.2.1) in
    let behind = le_of_Tiled rest (base + header + a.size + header + b.size) end t.2.2 in
    elim (Bool-cases (a.free && b.free)) [
      | inl both ↦
          let size : u32 (a.size + header + b.size) ≡ a.size + header + b.size = omega arith in
          let place : base + header + u32 (a.size + header + b.size)
              ≡ base + header + a.size + header + b.size =
            omega arith in
          let t' : Tiled (merge a b ∷ rest) base end =
            (t.0, t.1, subst (λ m. Tiled rest m end) (sym place) t.2.2) in
          let (out, run, m) = coalesce_from-Merged (merge a b) rest base end t' top in
          (
            out,
            rw (intact, both, intact') run,
            record {
              tiled = m.tiled;
              apart = m.apart;
              same = m.same ∙ used_merge a b rest both;
              starts = m.starts;
            },
          )
      | inr not_both ↦
          let (out, run, m) = coalesce_from-Merged b rest (base + header + a.size) end t.2 top in
          (
            a ∷ out,
            rw (intact, not_both, run) refl,
            record {
              tiled = (t.0, t.1, m.tiled);
              apart = Coalesced-cons a b.free out not_both m.starts m.apart;
              same = ground (arith, m.same);
              starts = refl;
            },
          )
    ]

-- `heap_coalesce` on a tiled heap that is not empty.
pub heap_coalesce-Merged :
    (a : Block) (rest : List Block) (base end : ℕ)
    → Tiled (a ∷ rest) base end
    → end < 2 ^ 32
    → (out : List Block) × (heap_coalesce (a ∷ rest) ≡ done out) × Merged a rest base end out
unfolding heap_coalesce
heap_coalesce-Merged a rest base end t top = coalesce_from-Merged a rest base end t top
