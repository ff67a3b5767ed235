-- ===== src/Strings/Number.antt =====
-- kernel/string.c, `atoi` to `utoa`. An `int` or `uint32_t` is its bit pattern, below 2 ^ 32, with
-- the wrap-around of a `uint32_t` written out; the overflow of the `int` of `atoi` is `none`.
pub mod Digits
pub mod Print
pub mod RoundTrip
pub mod Shown
pub mod Signed
use Prim.Native.Nat.{bit_or}
use dionnex.Base.{
  ℕ, zero, suc, ◌+◌, ◌-◌, ◌*◌, ◌/◌, ◌%◌, ◌^◌, ◌&&◌, ◌||◌, Bool, Option, none, some, List, [], ◌∷◌,
  if◌then◌else◌, ltb, leb, ◌==◌, get_elem?, ◌>>=◌,
}
use dionnex.Strings.Memory.{store}

abbrev pub u32 : ℕ → ℕ
u32 n = n % 2 ^ 32

-- `while (*s == ' ' || *s == '\t') s++;`
pub skip_blanks : List ℕ → List ℕ
skip_blanks [] = []
skip_blanks (b ∷ s) = if b == 0x20 || b == 0x09 then skip_blanks s else b ∷ s

abbrev pub is_digit : ℕ → Bool
is_digit c = leb b'0' c && leb c b'9'

-- The digits of `atoi`; a `res` that is no `int` any more is an overflow, which C does not define.
pub atoi_digits : List ℕ → ℕ → Option ℕ
atoi_digits [] res = none
atoi_digits (c ∷ s) res =
    let next = res * 10 + (c - b'0') in
    let rest = atoi_digits s next in
    if is_digit c then if leb (2 ^ 31) next then none else rest else some res

-- `res * sign` for a sign of -1.
abbrev pub negate : ℕ → ℕ
negate n = u32 (2 ^ 32 - n)

pub atoi_signed : List ℕ → Option ℕ
unfolding atoi_digits
atoi_signed [] = none
atoi_signed (c ∷ s) =
    if c == b'-'
    then (do res ← atoi_digits s 0; some (negate res))
    else if c == b'+'
    then atoi_digits s 0
    else atoi_digits (c ∷ s) 0

pub atoi : List ℕ → Option ℕ
unfolding skip_blanks atoi_signed
atoi s = atoi_signed (skip_blanks s)

-- The value of a hexadecimal digit; `none` for the `break`.
pub hex_value : ℕ → Option ℕ
hex_value c =
    if leb b'0' c && leb c b'9'
    then some (c - b'0')
    else if leb b'a' c && leb c b'f'
    then some (c - b'a' + 10)
    else if leb b'A' c && leb c b'F'
    then some (c - b'A' + 10)
    else none

-- `res = (res << 4) | val`, until a byte that is no digit, the NUL among them.
pub atox_digits : List ℕ → ℕ → Option ℕ
atox_digits [] res = none
atox_digits (c ∷ s) res = elim (hex_value c) [
  | none ↦ some res
  | some val ↦ atox_digits s (bit_or (u32 (res * 16)) val)
]

-- `s[1]` is read only behind a '0'.
pub skip_0x : List ℕ → List ℕ
skip_0x [] = []
skip_0x (a ∷ []) = a ∷ []
skip_0x (a ∷ (b ∷ s)) = if a == b'0' && (b == b'x' || b == b'X') then s else a ∷ (b ∷ s)

pub atox : List ℕ → Option ℕ
unfolding skip_blanks skip_0x
atox s = atox_digits (skip_0x (skip_blanks s)) 0

-- `(rem < 10) ? (rem + '0') : (rem - 10 + 'a')`
unfoldable pub digit_char : ℕ → ℕ
digit_char rem = if ltb rem 10 then rem + b'0' else rem - 10 + b'a'

-- The `do … while (val)` loop from offset `k` of `buf`, with the offset where it stops.
-- `none` is a store outside the buffer, or the end of the fuel.
pub put_digits : ℕ → ℕ → ℕ → List ℕ → ℕ → Option (List ℕ × ℕ)
unfolding digit_char
put_digits zero val base buf k = none
put_digits (suc fuel) val base buf k =
    let next : Option (List ℕ × ℕ) = do
      out ← store buf k (digit_char (val % base))
      if val / base == 0 then some (out, k + 1) else put_digits fuel (val / base) base out (k + 1)
    in next

-- The loop that swaps `*start++` and `*end--` while `start < end`.
pub reverse_range : ℕ → List ℕ → ℕ → ℕ → Option (List ℕ)
reverse_range zero buf start end = none
reverse_range (suc fuel) buf start end =
    let round : Option (List ℕ) = do
      tmp ← get_elem? buf start
      last ← get_elem? buf end
      once ← store buf start last
      twice ← store once end tmp
      reverse_range fuel twice (start + 1) (end - 1)
    in if ltb start end then round else some buf

-- 33 rounds are enough for the digits of 32 bits, and for the swaps of as many places.
abbrev pub rounds : ℕ
rounds = 34

pub utoa : ℕ → List ℕ → ℕ → Option (List ℕ)
utoa val buf base = if ltb base 2 || ltb 36 base then store buf 0 0 else do
  (digits, ptr) ← put_digits rounds val base buf 0
  ended ← store digits ptr 0
  reverse_range rounds ended 0 (ptr - 1)

-- A negative value is printed with its sign in base 10 only.
pub itoa : ℕ → List ℕ → ℕ → Option (List ℕ)
itoa val buf base =
    let sign = leb (2 ^ 31) val && base == 10 in
    if ltb base 2 || ltb 36 base then store buf 0 0 else do
      (digits, ptr) ← put_digits rounds (if sign then negate val else val) base buf 0
      signed ← (if sign then store digits ptr b'-' else some digits)
      let stop = if sign then ptr + 1 else ptr
      ended ← store signed stop 0
      reverse_range rounds ended 0 (stop - 1)
