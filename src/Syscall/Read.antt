-- ===== src/Syscall/Read.antt =====
-- `sys_read` takes a line from the keyboard.
use dionnex.Base.{
  ℕ, suc, ◌+◌, ◌^◌, ◌≤◌, ◌<◌, ◌≡◌, ◌≢◌, refl, ap, ◌∙◌, inl, ◌||◌, true, false, Option, some, List,
  [], ◌∷◌, ◌==◌, length, arith,
}
use dionnex.Keyboard.{Keyboard}
use dionnex.Keyboard.Fifo.{IsValid, queue, keyboard_read-queue}
use dionnex.Machine.{Memory, set_byte}
use dionnex.Machine.Words.{Outside, set_byte-other, Outside-first, Outside-rest}
use dionnex.Strings.Number.{u32}
use dionnex.Syscall.{Kernel, read_chars, sys_read}
use dionnex.Syscall.Write.{bytes_at}
use dionnex.Vfs.Components.{IsText}

-- The line at the head of a queue, of at most `n` characters, and what is behind it: `n` characters,
-- or fewer that end with a line feed or a carriage return.
pub data Line : ℕ → List ℕ → List ℕ → List ℕ → Type 0 where
  full : {q : List ℕ} → Line 0 q [] q
  ended :
      {n : ℕ} {q : List ℕ} (c : ℕ)
      → (c == 0x0a || c == 0x0d) ≡ true
      → Line (suc n) (c ∷ q) (c ∷ []) q
  further :
      {n : ℕ} {q line rest : List ℕ} (c : ℕ)
      → (c == 0x0a || c == 0x0d) ≡ false
      → Line n q line rest
      → Line (suc n) (c ∷ q) (c ∷ line) rest

length-Line : {n : ℕ} {q line rest : List ℕ} → Line n q line rest → length line ≤ n
length-Line full = omega arith
length-Line (ended c e) = omega arith
length-Line (further c e l) = omega (arith, length-Line l)

-- A keyboard with `rest` left, and a line at `at`.
record LineRead (mem : Memory) (at count : ℕ) (line rest : List ℕ)
    (r : Option (Keyboard × Memory × ℕ)) : Type 0 where
  keyboard' : Keyboard
  mem' : Memory
  run : r ≡ some (keyboard', mem', count + length line)
  valid : IsValid keyboard'
  left : queue keyboard' ≡ rest
  stored : bytes_at mem' at (length line) ≡ line
  others : (x : ℕ) → Outside at (length line) x → mem' x ≡ mem x

-- One more character before a line.
first_char :
    (mem mem' : Memory) (at c n : ℕ) (line : List ℕ)
    → at + suc n < 2 ^ 32
    → c < 256
    → length line ≤ n
    → bytes_at mem' (u32 (at + 1)) (length line) ≡ line
    → ((x : ℕ) → Outside (u32 (at + 1)) (length line) x → mem' x ≡ set_byte mem at c x)
    → (bytes_at mem' at (length (c ∷ line)) ≡ c ∷ line)
      × ((x : ℕ) → Outside at (length (c ∷ line)) x → mem' x ≡ mem x)
unfolding bytes_at
first_char mem mem' at c n line room byte short stored others =
    let next : u32 (at + 1) ≡ at + 1 = omega (arith, room) in
    let self : (at == at) ≡ true = ground arith in
    let here : mem' at ≡ c =
      others at (inl (omega (arith, next))) ∙ rw self (omega (arith, byte)) in
    (
      rw (here, stored) refl,
      λ x out.
          others x (rw next (Outside-rest at (length line) x out))
          ∙ set_byte-other mem at c x (Outside-first at (length line) x out),
    )

read_chars-LineRead :
    {n : ℕ} {q line rest : List ℕ}
    → Line n q line rest
    → (k : Keyboard) (mem : Memory) (at count : ℕ) → IsValid k
    → queue k ≡ q
    → IsText q
    → at + n < 2 ^ 32
    → LineRead mem at count line rest (read_chars n k mem at count)
unfolding read_chars bytes_at
read_chars-LineRead full k mem at count v e text room =
    let same : count ≡ count + 0 = omega arith in
    record {
      keyboard' = k;
      mem' = mem;
      run = ap (λ (n : ℕ). some (k, mem, n)) same;
      valid = v;
      left = e;
      stored = refl;
      others = λ x out. refl;
    }
read_chars-LineRead (ended {n} {q} c end) k mem at count v e text room =
    let (k', run, v', e') = keyboard_read-queue c q v e in
    let key : (c == 0) ≡ false = ground (arith, text.0) in
    let (stored, others) =
      first_char mem (set_byte mem at c) at c n [] room text.1 (omega arith) refl (λ x out. refl) in
    record {
      keyboard' = k';
      mem' = set_byte mem at c;
      run = rw run (rw (key, end) refl);
      valid = v';
      left = e';
      stored = stored;
      others = others;
    }
read_chars-LineRead (further {n} {q} {line} {rest} c go l) k mem at count v e text room =
    let (k', run, v', e') = keyboard_read-queue c q v e in
    let key : (c == 0) ≡ false = ground (arith, text.0) in
    let next : u32 (at + 1) ≡ at + 1 = omega (arith, room) in
    let r =
      read_chars-LineRead l k' (set_byte mem at c) (u32 (at + 1)) (count + 1) v' e' text.2
        (omega (arith, room, next)) in
    let (stored, others) =
      first_char mem r.mem' at c n line room text.1 (length-Line l) r.stored r.others in
    let sum : count + 1 + length line ≡ count + suc (length line) = omega arith in
    record {
      keyboard' = r.keyboard';
      mem' = r.mem';
      run = rw run (rw (key, go) (r.run ∙ ap (λ (m : ℕ). some (r.keyboard', r.mem', m)) sum));
      valid = r.valid;
      left = r.left;
      stored = stored;
      others = others;
    }

-- On a valid keyboard where a line waits for a buffer that ends within the 32 bits, `sys_read` from
-- 0 takes the line out of the queue, keeps the keyboard valid, puts the line into the buffer,
-- changes no other byte, and returns the length.
pub sys_read-Line :
    (k : Kernel) (buf len : ℕ) (line rest : List ℕ)
    → IsValid k.keyboard
    → IsText (queue k.keyboard)
    → Line len (queue k.keyboard) line rest
    → buf ≢ 0
    → len ≢ 0
    → buf + len < 2 ^ 32
    → (keyboard' : Keyboard) × (mem' : Memory) × (sys_read k 0 buf len
        ≡ some (record k { keyboard = keyboard'; mem = mem' }, length line))
      × IsValid keyboard'
      × (queue keyboard' ≡ rest)
      × (bytes_at mem' buf (length line) ≡ line)
      × ((x : ℕ) → Outside buf (length line) x → mem' x ≡ k.mem x)
unfolding sys_read
sys_read-Line k buf len line rest v text l some_buf some_len room =
    let there : (buf == 0 || len == 0) ≡ false = ground (arith, some_buf, some_len) in
    let r = read_chars-LineRead l k.keyboard k.mem buf 0 v refl text room in
    let sum : 0 + length line ≡ length line = omega arith in
    (r.keyboard', r.mem', rw there (rw r.run (rw sum refl)), r.valid, r.left, r.stored, r.others)
