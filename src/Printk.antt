-- ===== src/Printk.antt =====
-- kernel/printk.c: formatted output. What is printed is the list of the characters that
-- `printk_out_char` gets, which go to the screen and to the serial port. An argument is taken from
-- a list; one that is missing or of another kind than the format asks for is a fault, none.
pub mod Digits
pub mod Pieces
use dionnex.Base.{
  ℕ, zero, suc, ◌+◌, ◌-◌, ◌*◌, ◌/◌, ◌%◌, ◌^◌, ◌&&◌, ◌||◌, Bool, true, false, Option, none, some,
  List, [], ◌∷◌, ◌++◌, if◌then◌else◌, ltb, leb, ◌==◌, get_elem?, ◌>>=◌,
}
use dionnex.Strings.Number.{u32, negate}

abbrev pub digits_lower : List ℕ
digits_lower =
    b'0'
    ∷ (b'1'
        ∷ (b'2'
            ∷ (b'3'
                ∷ (b'4'
                    ∷ (b'5'
                        ∷ (b'6'
                            ∷ (b'7'
                                ∷ (b'8'
                                    ∷ (b'9'
                                        ∷ (b'a'
                                            ∷ (b'b'
                                                ∷ (b'c' ∷ (b'd' ∷ (b'e' ∷ (b'f' ∷ [])))))))))))))))

abbrev pub digits_upper : List ℕ
digits_upper =
    b'0'
    ∷ (b'1'
        ∷ (b'2'
            ∷ (b'3'
                ∷ (b'4'
                    ∷ (b'5'
                        ∷ (b'6'
                            ∷ (b'7'
                                ∷ (b'8'
                                    ∷ (b'9'
                                        ∷ (b'A'
                                            ∷ (b'B'
                                                ∷ (b'C' ∷ (b'D' ∷ (b'E' ∷ (b'F' ∷ [])))))))))))))))

-- The loop that fills `tmp`; `none` is a digit outside the table, or the end of the fuel.
unfoldable pub tmp_digits : ℕ → List ℕ → ℕ → ℕ → Option (List ℕ)
tmp_digits zero digits val base = none
tmp_digits (suc fuel) digits val base =
    let round : Option (List ℕ) = do
      d ← get_elem? digits (val % base)
      tmp ← tmp_digits fuel digits (val / base) base
      some (d ∷ tmp)
    in if val == 0 then some [] else round

-- The loop that copies `tmp` backwards, in front of what is there.
unfoldable pub backwards : List ℕ → List ℕ → List ℕ
backwards [] out = out
backwards (d ∷ tmp) out = backwards tmp (d ∷ out)

-- One round for each digit of 32 bits, and one that finds 0, are enough.
abbrev pub printk_rounds : ℕ
printk_rounds = 35

-- The text that is left in `buf`.
unfoldable pub printk_utoa : ℕ → ℕ → Bool → Option (List ℕ)
printk_utoa val base uppercase = if val == 0 then some (b'0' ∷ []) else do
  tmp ← tmp_digits printk_rounds (if uppercase then digits_upper else digits_lower) val base
  some (backwards tmp [])

unfoldable pub printk_itoa : ℕ → ℕ → Option (List ℕ)
printk_itoa val base =
    if leb (2 ^ 31) val && base == 10
    then (do text ← printk_utoa (negate val) base false; some (b'-' ∷ text))
    else printk_utoa val base false

-- An argument: a string, which may be NULL, or a number of 32 bits.
pub data Arg : Type 0 where
  str : Option (List ℕ) → Arg
  num : ℕ → Arg

abbrev pub null_text : List ℕ
null_text = b'(' ∷ (b'n' ∷ (b'u' ∷ (b'l' ∷ (b'l' ∷ (b')' ∷ [])))))

abbrev pub str_or_null : Option (List ℕ) → List ℕ
str_or_null none = null_text
str_or_null (some s) = s

-- `va_arg` of each kind, with what is done with it.
abbrev pub with_str : List Arg → (List ℕ → Option (List ℕ)) → Option (List ℕ × List Arg)
with_str [] f = none
with_str (num n ∷ args) f = none
with_str (str s ∷ args) f = do text ← f (str_or_null s); some (text, args)

abbrev pub with_num : List Arg → (ℕ → Option (List ℕ)) → Option (List ℕ × List Arg)
with_num [] f = none
with_num (str s ∷ args) f = none
with_num (num n ∷ args) f = do text ← f n; some (text, args)

-- The `switch` on the character behind '%': what it prints, and the arguments that are left.
unfoldable pub conversion : ℕ → List Arg → Option (List ℕ × List Arg)
conversion c args =
    if c == b's'
    then with_str args (λ s. some s)
    else if c == b'd' || c == b'i'
    then with_num args (λ n. printk_itoa n 10)
    else if c == b'u'
    then with_num args (λ n. printk_utoa n 10 false)
    else if c == b'x'
    then with_num args (λ n. printk_utoa n 16 false)
    else if c == b'X'
    then with_num args (λ n. printk_utoa n 16 true)
    else if c == b'c'
    then with_num args (λ n. some (n % 256 ∷ []))
    else if c == b'%'
    then some (b'%' ∷ [], args)
    else some (b'%' ∷ (c ∷ []), args)

-- The format before its NUL; a '%' at its end is dropped.
unfoldable pub printk : List ℕ → List Arg → Option (List ℕ)
printk [] args = some []
printk (c ∷ []) args = if c == b'%' then some [] else some (c ∷ [])
printk (c ∷ (d ∷ fmt)) args =
    let plain : Option (List ℕ) = do out ← printk (d ∷ fmt) args; some (c ∷ out)
    in let converted : Option (List ℕ) = do
      (out, args') ← conversion d args
      rest ← printk fmt args'
      some (out ++ rest)
      in if c == b'%' then converted else plain

-- `printk_out_char` for each character: what the serial port gets.
unfoldable pub serial_bytes : List ℕ → List ℕ
serial_bytes [] = []
serial_bytes (c ∷ out) = if c == 0x0A then 0x0D ∷ (c ∷ serial_bytes out) else c ∷ serial_bytes out
