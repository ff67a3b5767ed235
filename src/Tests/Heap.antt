-- ===== src/Tests/Heap.antt =====
-- mm/heap.c at fixed inputs.
use dionnex.Base.{ℕ, ◌+◌, ◌≡◌, ◌⊎◌, refl, true, false, List, [], ◌∷◌, arith}
use dionnex.Tests.Pmm.{two_used}
use dionnex.Heap.{Block, Heap, heap_magic, header, done, align_up_4, expand, kmalloc, kfree}
use dionnex.Heap.Release.{Released, kfree-Released}
use dionnex.Heap.Fit.{NoneFits}
use dionnex.Heap.Grant.{Granted, kmalloc-first_fit}

abbrev block : ℕ → ℕ → Block
block addr size = record { addr = addr; magic = heap_magic; size = size; free = false }

abbrev spare : ℕ → ℕ → Block
spare addr size = record { addr = addr; magic = heap_magic; size = size; free = true }

-- A block in use between two free ones.
abbrev three : Heap
three = record {
  blocks = spare 4096 100 ∷ (block 4209 500 ∷ (spare 4722 65 ∷ []));
  end_addr = 4800;
}

kfree-Released_example :
    (h' : Heap) × (kfree three (4209 + header) ≡ done h') × Released three 4096 [] h'
kfree-Released_example =
    kfree-Released three 4096 (spare 4096 100 ∷ []) (block 4209 500) (spare 4722 65 ∷ []) refl
      (refl, refl, (refl, refl, (refl, refl, refl))) (omega arith)

kmalloc-first_fit_example :
    NoneFits (align_up_4 41) three.blocks
      × (kmalloc three two_used 41 ≡ done (expand three two_used (align_up_4 41)))
    ⊎ ((pre : List Block) × (b : Block) × (post : List Block) × (h' : Heap) × Granted three two_used
          4096 41 pre b post h')
kmalloc-first_fit_example =
    kmalloc-first_fit three two_used 4096 41 (refl, refl, (refl, refl, (refl, refl, refl)))
      (omega arith) (omega arith) (omega arith)
