-- ===== src/Klog/Read.antt =====
-- `klog_read_bytes` copies the oldest characters.
use dionnex.Base.{
  ℕ, zero, suc, ◌+◌, ◌%◌, ◌≤◌, ◌<◌, ◌≡◌, refl, ap, sym, ◌∙◌, some, List, [], ◌∷◌, ◌++◌, min,
  if◌then◌else◌, ltb, ◌==◌, length, drop, take, get_elem?, get_or, arith, Bool-cases, inl, inr,
}
use dionnex.Base.Int.{pos}
use dionnex.Base.Ring.{window}
use dionnex.Strings.Memory.Cursor.{store-middle, snoc-append, length-snoc}
use dionnex.Klog.{Klog, klog_size, klog_read_bytes, read_loop}
use dionnex.Klog.Ring.{IsValid, contents}

get_elem?-eq-get_or : (xs : List ℕ) (i : ℕ) → i < length xs → get_elem? xs i ≡ some (get_or xs i 0)
get_elem?-eq-get_or [] i h = elim h [ ]
get_elem?-eq-get_or (x ∷ xs) zero h = refl
get_elem?-eq-get_or (x ∷ xs) (suc i) h = get_elem?-eq-get_or xs i (omega arith)

read_loop-window :
    (n idx : ℕ) (buffer pre room : List ℕ)
    → klog_size ≤ length buffer
    → idx < klog_size
    → n ≤ length room
    → read_loop buffer (pre ++ room) (length pre) idx n
      ≡ some (pre ++ (window buffer klog_size idx n ++ drop n room))
unfolding read_loop
read_loop-window zero idx buffer pre room big at fits = refl
read_loop-window (suc n) idx buffer pre [] big at fits = elim fits [ ]
read_loop-window (suc n) idx buffer pre (x ∷ room) big at fits =
    let c = get_or buffer idx 0 in
    let read = get_elem?-eq-get_or buffer idx (omega arith) in
    let next = (idx + 1) % klog_size in
    let rest =
      read_loop-window n next buffer (pre ++ (c ∷ [])) room big (omega arith) (omega arith) in
    rw (read, store-middle pre x c room)
      (rw (snoc-append pre c room, length-snoc pre c, snoc-append pre c _) at rest)

take-window :
    (m n : ℕ) (buffer : List ℕ) (idx : ℕ)
    → m ≤ n
    → take m (window buffer klog_size idx n) ≡ window buffer klog_size idx m
take-window zero n buffer idx h = refl
take-window (suc m) zero buffer idx h = elim h [ ]
take-window (suc m) (suc n) buffer idx h =
    ap (λ t. get_or buffer idx 0 ∷ t) (take-window m n buffer ((idx + 1) % klog_size) (omega arith))

-- `klog_read_bytes` into a buffer of at least `max_len` bytes returns the smaller of the log's
-- length and `max_len`, writes that many of the oldest characters in order, and leaves the rest of
-- the buffer; it reads and writes inside both.
pub klog_read_bytes-take :
    (k : Klog) (buf : List ℕ) (max_len : ℕ)
    → IsValid k
    → max_len ≤ length buf
    → let n = min k.count max_len in
      klog_read_bytes k (some buf) max_len ≡ some (pos n, some (take n (contents k) ++ drop n buf))
unfolding klog_read_bytes
klog_read_bytes-take k buf max_len v fits = elim (Bool-cases (max_len == 0)) [
  | inl none_wanted ↦
      let least : min k.count max_len ≡ 0 = ground arith in rw (none_wanted, least) refl
  | inr wanted ↦
      let least : (if ltb k.count max_len then k.count else max_len) ≡ min k.count max_len =
        ground arith in
      let n = min k.count max_len in
      let run =
        read_loop-window n k.tail k.buffer [] buf (omega arith) v.tail_in (omega arith)
        ∙ ap (λ t. some (t ++ drop n buf))
            (sym (take-window n k.count k.buffer k.tail (omega arith))) in
      rw (wanted, least) (rw run refl)
]
