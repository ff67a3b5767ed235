-- ===== src/Heap.antt =====
-- mm/heap.c: the kernel's heap, a chain of blocks with a header in front of each. The chain is the
-- list of its headers with their addresses; `next` is the neighbour in the list. The bytes of the
-- blocks are not modelled: the calls of `memcpy` and `memset` are recorded as operations.
pub mod Tiling
pub mod Coalesce
pub mod Release
pub mod Fit
pub mod Grant
pub mod Account
use dionnex.Base.{
  ℕ, zero, suc, ◌+◌, ◌-◌, ◌*◌, ◌/◌, ◌%◌, ◌^◌, ◌&&◌, Bool, true, false, not, Option, none, some,
  List, [], ◌∷◌, ◌++◌, if◌then◌else◌, ltb, leb, ◌==◌,
}
use dionnex.Strings.Number.{u32}
use dionnex.Pmm.{Pmm, page_size, pmm_alloc_page}

abbrev pub heap_magic : ℕ
heap_magic = 0xDEADBEEF

-- `sizeof(heap_block_t)`: the struct is packed.
abbrev pub header : ℕ
header = 13

-- `struct heap_block` and where it stands.
pub record Block : Type 0 where
  pub addr : ℕ
  pub magic : ℕ
  pub size : ℕ
  pub free : Bool

-- `heap_start` (NULL for an empty chain) and `heap_end_addr`.
pub record Heap : Type 0 where
  pub blocks : List Block
  pub end_addr : ℕ

-- `panicked` is `kernel_panic`, which does not return; `wild` is a pointer to no block of the heap,
-- with which the code reads and writes memory that is none of its own.
pub data Outcome {ℓ} (A : Type ℓ) : Type ℓ where
  done : A → Outcome A
  panicked : Outcome A
  wild : Outcome A

abbrev pub map_done {ℓ κ} : {A : Type ℓ} {B : Type κ} → (A → B) → Outcome A → Outcome B
map_done f (done a) = done (f a)
map_done f panicked = panicked
map_done f wild = wild

infixl 5 ◌>>=◌
abbrev pub ◌>>=◌ {ℓ κ} : {A : Type ℓ} {B : Type κ} → Outcome A → (A → Outcome B) → Outcome B
done a >>= f = f a
panicked >>= f = panicked
wild >>= f = wild

-- `curr->size += sizeof(heap_block_t) + curr->next->size; curr->next = curr->next->next;`
abbrev pub merge : Block → Block → Block
merge a b = record a { size = u32 (a.size + header + b.size) }

-- The loop of `heap_coalesce` with `curr` at `a`, in front of the rest of the chain.
pub coalesce_from : Block → List Block → Outcome (List Block)
coalesce_from a [] = done (a ∷ [])
coalesce_from a (b ∷ rest) =
    let merged = coalesce_from (merge a b) rest in
    let next = map_done (λ bs. a ∷ bs) (coalesce_from b rest) in
    if not (a.magic == heap_magic)
    then panicked
    else if a.free && b.free
    then if not (b.magic == heap_magic) then panicked else merged
    else next

pub heap_coalesce : List Block → Outcome (List Block)
heap_coalesce [] = done []
heap_coalesce (a ∷ rest) = coalesce_from a rest

-- `ALIGN_UP(size, 4)`
abbrev pub align_up_4 : ℕ → ℕ
align_up_4 size = u32 (size + 3) / 4 * 4

-- A block that is taken for `req` bytes: split, if what is left over is large enough.
pub carve : Block → ℕ → List Block
carve b req =
    if leb (u32 (req + header + 16)) b.size
    then record b { size = req; free = false }
      ∷ (record {
        addr = u32 (b.addr + header + req);
        magic = heap_magic;
        size = u32 (b.size + 2 ^ 32 - u32 (req + header));
        free = true;
      }
          ∷ [])
    else record b { free = false } ∷ []

abbrev pub behind : Block → Option (ℕ × List Block) → Option (ℕ × List Block)
behind b none = none
behind b (some (p, bs)) = some (p, b ∷ bs)

-- The loop of `kmalloc`: the pointer it returns and the chain after; `none` when nothing fits.
pub take_fit : List Block → ℕ → Outcome (Option (ℕ × List Block))
take_fit [] req = done none
take_fit (b ∷ rest) req =
    let next = map_done (behind b) (take_fit rest req) in
    if not (b.magic == heap_magic)
    then panicked
    else if b.free && leb req b.size
    then done (some (u32 (b.addr + header), carve b req ++ rest))
    else next

-- `for (i = 1; i < needed_pages; i++) pmm_alloc_page();`, with `n` rounds left.
pub alloc_pages : ℕ → Pmm → Pmm
alloc_pages zero p = p
alloc_pages (suc n) p = alloc_pages n (pmm_alloc_page p).1

-- The rest of `kmalloc`: a new block at the end of the chain, from fresh pages.
pub expand : Heap → Pmm → ℕ → ℕ × Heap × Pmm
expand h p req =
    let needed_pages = u32 (u32 (req + header) + page_size - 1) / page_size in
    let (page, p') = pmm_alloc_page p in
    let bytes = u32 (needed_pages * page_size) in
    let new_block : Block = record {
      addr = page;
      magic = heap_magic;
      size = u32 (bytes + 2 ^ 32 - header);
      free = true;
    } in
    if page == 0 then (0, h, p') else (
      u32 (page + header),
      record { blocks = h.blocks ++ carve new_block req; end_addr = u32 (page + bytes) },
      alloc_pages (needed_pages - 1) p',
    )

-- Returns the pointer (0 for NULL), the heap and the page allocator.
pub kmalloc : Heap → Pmm → ℕ → Outcome (ℕ × Heap × Pmm)
kmalloc h p size =
    let grown = expand h p (align_up_4 size) in
    if size == 0 then done (0, h, p) else do
      found ← take_fit h.blocks (align_up_4 size)
      elim found [
        | none ↦ done grown
        | some (ptr, blocks) ↦ done (ptr, record h { blocks = blocks }, p)
      ]

-- The block whose header stands at `at`, marked as free; `wild` if there is none.
pub release : ℕ → List Block → Outcome (List Block)
release at [] = wild
release at (b ∷ rest) =
    let next = map_done (λ bs. b ∷ bs) (release at rest) in
    if b.addr == at
    then if not (b.magic == heap_magic) then panicked else done (record b { free = true } ∷ rest)
    else next

pub kfree : Heap → ℕ → Outcome Heap
kfree h ptr =
    let freed = do
      marked ← release (u32 (ptr + 2 ^ 32 - header)) h.blocks
      blocks ← heap_coalesce marked
      done (record h { blocks = blocks })
    in if ptr == 0 then done h else freed

-- The header at `at`.
pub block_at : ℕ → List Block → Outcome Block
block_at at [] = wild
block_at at (b ∷ rest) =
    let next = block_at at rest in
    if b.addr == at then if not (b.magic == heap_magic) then panicked else done b else next

-- What is done to the bytes of the blocks.
pub data MemOp : Type 0 where
  copied : (dest src n : ℕ) → MemOp
  zeroed : (s n : ℕ) → MemOp

pub record Reply : Type 0 where
  pub ptr : ℕ
  pub heap : Heap
  pub pmm : Pmm
  pub ops : List MemOp

abbrev plain : ℕ × Heap × Pmm → Reply
plain (ptr, h, p) = record { ptr = ptr; heap = h; pmm = p; ops = [] }

-- The size that `memcpy` uses is read behind the call of `kmalloc`.
pub krealloc : Heap → Pmm → ℕ → ℕ → Outcome Reply
krealloc h p ptr new_size =
    let at = u32 (ptr + 2 ^ 32 - header) in
    let moved = do
      (new_ptr, h', p') ← kmalloc h p new_size
      if new_ptr == 0 then done (plain (0, h', p')) else do
        block ← block_at at h'.blocks
        h'' ← kfree h' ptr
        done (record {
          ptr = new_ptr;
          heap = h'';
          pmm = p';
          ops = copied new_ptr ptr block.size ∷ [];
        })
    in if ptr == 0
      then map_done plain (kmalloc h p new_size)
      else if new_size == 0
      then map_done (λ h'. plain (0, h', p)) (kfree h ptr)
      else do
        block ← block_at at h.blocks
        if leb new_size block.size then done (plain (ptr, h, p)) else moved

pub kcalloc : Heap → Pmm → ℕ → ℕ → Outcome Reply
kcalloc h p count size =
    let total = u32 (count * size) in
    do
      (ptr, h', p') ← kmalloc h p total
      done (
          if ptr == 0
          then plain (ptr, h', p')
          else record { ptr = ptr; heap = h'; pmm = p'; ops = zeroed ptr total ∷ [] })

free_from : List Block → ℕ → ℕ
free_from [] acc = acc
free_from (b ∷ rest) acc =
    free_from rest (if b.magic == heap_magic && b.free then u32 (acc + b.size) else acc)

pub heap_get_free : Heap → ℕ
unfolding free_from
heap_get_free h = free_from h.blocks 0

used_from : List Block → ℕ → ℕ
used_from [] acc = acc
used_from (b ∷ rest) acc =
    used_from rest (if b.magic == heap_magic && not b.free then u32 (acc + b.size) else acc)

pub heap_get_used : Heap → ℕ
unfolding used_from
heap_get_used h = used_from h.blocks 0

-- The loop of `heap_init` over the pages; an allocator that has none left panics. `start` is the
-- address of the first page, once `fresh` is false.
init_pages : ℕ → ℕ → Bool → Pmm → Outcome (ℕ × Pmm)
init_pages zero start fresh p = done (start, p)
init_pages (suc n) start fresh p =
    let (page, p') = pmm_alloc_page p in
    let rest = init_pages n (if fresh then page else start) false p' in
    if page == 0 then panicked else rest

-- `ALIGN_UP((uint32_t)&_kernel_end + 0x100000, PAGE_SIZE)`
abbrev behind_kernel : ℕ → ℕ
behind_kernel kernel_end = u32 (kernel_end + 0x100000 + page_size - 1) / page_size * page_size

-- `kernel_end` is the address that the linker script gives.
pub heap_init : ℕ → Pmm → ℕ → ℕ → Outcome (Heap × Pmm)
unfolding init_pages
heap_init kernel_end p start size =
    let pages = u32 ((if ltb size 0x100000 then 0x100000 else size) + page_size - 1) / page_size in
    let bytes = u32 (pages * page_size) in
    do
      (at, p') ← init_pages pages (if start == 0 then behind_kernel kernel_end else start) true p
      done (
        record {
          blocks =
              record {
                addr = at;
                magic = heap_magic;
                size = u32 (bytes + 2 ^ 32 - header);
                free = true;
              }
              ∷ [];
          end_addr = u32 (at + bytes);
        },
        p',
      )
