-- ===== src/Klog.antt =====
-- kernel/klog.c: the ring of log characters and the formatter of `klog`.
pub mod Read
pub mod Ring
pub mod Format
use dionnex.Base.{
  ℕ, zero, suc, ◌+◌, ◌%◌, Bool, true, false, Option, none, some, List, [], ◌∷◌, ◌++◌, if◌then◌else◌,
  ltb, ◌==◌, ◌||◌, get_elem?, get_or, set, replicate, ◌>>=◌,
}
use dionnex.Base.Int.{ℤ, pos}
use dionnex.Strings.Memory.{store}

-- DIONNEX_KLOG_SIZE
abbrev pub klog_size : ℕ
klog_size = 4096

-- The file's four static variables.
pub record Klog : Type 0 where
  pub buffer : List ℕ
  pub head : ℕ
  pub tail : ℕ
  pub count : ℕ

pub klog_push_char : Klog → ℕ → Klog
klog_push_char k c =
    let head = (k.head + 1) % klog_size in
    if ltb k.count klog_size
    then record k { buffer = set k.buffer k.head c; head = head; count = k.count + 1 }
    else record k { buffer = set k.buffer k.head c; head = head; tail = (k.tail + 1) % klog_size }

-- The bytes of the string before its NUL; a NULL pointer pushes nothing, as the empty text does.
pub klog_push_string : Klog → List ℕ → Klog
klog_push_string k [] = k
klog_push_string k (c ∷ s) = klog_push_string (klog_push_char k c) s

-- `klog_init`, and `klog_clear`, which has the same body: whatever the state was.
pub klog_init : Klog
klog_init = record { buffer = replicate klog_size 0; head = 0; tail = 0; count = 0 }

-- The characters that `klog_dump` hands to the screen and to the serial port, in order; `n` is the
-- number of rounds left, `idx` the place to read.
dump_from : List ℕ → ℕ → ℕ → List ℕ
dump_from buffer idx zero = []
dump_from buffer idx (suc n) = get_or buffer idx 0 ∷ dump_from buffer ((idx + 1) % klog_size) n

pub klog_dump : Klog → List ℕ
unfolding dump_from
klog_dump k = dump_from k.buffer k.tail k.count

pub klog_get_count : Klog → ℕ
klog_get_count k = k.count

-- The loop of `klog_read_bytes`: `buf[i] = klog_buffer[idx]`.
read_loop : List ℕ → List ℕ → ℕ → ℕ → ℕ → Option (List ℕ)
read_loop buffer buf i idx zero = some buf
read_loop buffer buf i idx (suc n) = do
  c ← get_elem? buffer idx
  next ← store buf i c
  read_loop buffer next (i + 1) ((idx + 1) % klog_size) n

-- Returns how many bytes were copied, and `buf` afterwards; `none` is a NULL `buf`.
pub klog_read_bytes : Klog → Option (List ℕ) → ℕ → Option (ℤ × Option (List ℕ))
unfolding read_loop
klog_read_bytes k none max_len = some (pos 0, none)
klog_read_bytes k (some buf) max_len =
    let read_cnt = if ltb k.count max_len then k.count else max_len in
    if max_len == 0
    then some (pos 0, some buf)
    else do out ← read_loop k.buffer buf 0 k.tail read_cnt; some (pos read_cnt, some out)
