-- ===== src/Printk/Pieces.antt =====
-- `printk` of a format made of pieces.
use dionnex.Base.{
  ℕ, ◌-◌, ◌%◌, ◌^◌, ◌<◌, ◌≡◌, refl, ap, inl, inr, Bool, false, ◌||◌, Option, some, List, [], ◌∷◌,
  ◌++◌, if◌then◌else◌, ◌==◌, leb, arith, Bool-cases, ◌>>=◌,
}
use dionnex.Strings.Number.{negate}
use dionnex.Strings.Number.Print.{printed}
use dionnex.Printk.{Arg, str, num, str_or_null, conversion, printk, printk_itoa}
use dionnex.Printk.Digits.{printk_utoa-printed}

-- A character, a conversion with its argument, or a '%' before a character that is no conversion.
pub data Piece : Type 0 where
  lit : ℕ → Piece
  percent : Piece
  text : Option (List ℕ) → Piece
  signed : ℕ → Piece
  unsigned : ℕ → Piece
  hex : ℕ → Piece
  char : ℕ → Piece
  unknown : ℕ → Piece

abbrev pub is_conversion : ℕ → Bool
is_conversion c =
    c == b's'
    || c == b'd'
    || c == b'i'
    || c == b'u'
    || c == b'x'
    || c == b'X'
    || c == b'c'
    || c == b'%'

abbrev pub IsPiece : Piece → Type 0
IsPiece (lit c) = (c == b'%') ≡ false
IsPiece percent = Unit
IsPiece (text s) = Unit
IsPiece (signed n) = n < 2 ^ 32
IsPiece (unsigned n) = n < 2 ^ 32
IsPiece (hex n) = n < 2 ^ 32
IsPiece (char n) = Unit
IsPiece (unknown c) = is_conversion c ≡ false

abbrev pub AllPieces : List Piece → Type 0
AllPieces [] = Unit
AllPieces (p ∷ ps) = IsPiece p × AllPieces ps

-- The format, the arguments, and what is to be printed.
abbrev pub format : List Piece → List ℕ
format [] = []
format (lit c ∷ ps) = c ∷ format ps
format (percent ∷ ps) = b'%' ∷ (b'%' ∷ format ps)
format (text s ∷ ps) = b'%' ∷ (b's' ∷ format ps)
format (signed n ∷ ps) = b'%' ∷ (b'd' ∷ format ps)
format (unsigned n ∷ ps) = b'%' ∷ (b'u' ∷ format ps)
format (hex n ∷ ps) = b'%' ∷ (b'x' ∷ format ps)
format (char n ∷ ps) = b'%' ∷ (b'c' ∷ format ps)
format (unknown c ∷ ps) = b'%' ∷ (c ∷ format ps)

abbrev pub arguments : List Piece → List Arg
arguments [] = []
arguments (lit c ∷ ps) = arguments ps
arguments (percent ∷ ps) = arguments ps
arguments (text s ∷ ps) = str s ∷ arguments ps
arguments (signed n ∷ ps) = num n ∷ arguments ps
arguments (unsigned n ∷ ps) = num n ∷ arguments ps
arguments (hex n ∷ ps) = num n ∷ arguments ps
arguments (char n ∷ ps) = num n ∷ arguments ps
arguments (unknown c ∷ ps) = arguments ps

-- A pattern of 32 bits as a signed number.
abbrev pub signed_text : ℕ → List ℕ
signed_text n = if leb (2 ^ 31) n then b'-' ∷ printed (2 ^ 32 - n) 10 [] else printed n 10 []

abbrev pub rendered_piece : Piece → List ℕ
rendered_piece (lit c) = c ∷ []
rendered_piece percent = b'%' ∷ []
rendered_piece (text s) = str_or_null s
rendered_piece (signed n) = signed_text n
rendered_piece (unsigned n) = printed n 10 []
rendered_piece (hex n) = printed n 16 []
rendered_piece (char n) = n % 256 ∷ []
rendered_piece (unknown c) = b'%' ∷ (c ∷ [])

abbrev pub rendered : List Piece → List ℕ
rendered [] = []
rendered (p ∷ ps) = rendered_piece p ++ rendered ps

printk_itoa-signed_text : (n : ℕ) → n < 2 ^ 32 → printk_itoa n 10 ≡ some (signed_text n)
unfolding printk_itoa
printk_itoa-signed_text n h = elim (Bool-cases (leb (2 ^ 31) n)) [
  | inl minus ↦
      let size : negate n ≡ 2 ^ 32 - n = ground (arith, minus) in
      let run =
        printk_utoa-printed (2 ^ 32 - n) 10 (omega arith) (omega arith) (ground (arith, minus)) in
      rw minus (rw (size, run) refl)
  | inr plus ↦ rw plus (printk_utoa-printed n 10 (omega arith) (omega arith) h)
]

printk-plain :
    (c : ℕ) (fmt : List ℕ) (args : List Arg) (out : List ℕ)
    → (c == b'%') ≡ false
    → printk fmt args ≡ some out
    → printk (c ∷ fmt) args ≡ some (c ∷ out)
unfolding printk
printk-plain c [] args out e run = rw e (ap (λ o. o >>= λ t. some (c ∷ t)) run)
printk-plain c (d ∷ fmt) args out e run = rw (e, run) refl

printk-converted :
    (d : ℕ) (fmt : List ℕ) (args args' : List Arg) (piece out : List ℕ)
    → conversion d args ≡ some (piece, args')
    → printk fmt args' ≡ some out
    → printk (b'%' ∷ (d ∷ fmt)) args ≡ some (piece ++ out)
unfolding printk
printk-converted d fmt args args' piece out e run = rw (e, run) refl

conversion-unknown :
    (c : ℕ) (args : List Arg)
    → is_conversion c ≡ false
    → conversion c args ≡ some (b'%' ∷ (c ∷ []), args)
unfolding conversion
conversion-unknown c args e = ground (arith, e)

-- `printk` of a format made of characters, of conversions %s, %d, %u, %x, %c and %% with the
-- arguments that they ask for, and of '%' before characters that are no conversions, prints each
-- piece in order: the latter as they stand, and with no argument taken.
pub printk-rendered :
    (ps : List Piece) → AllPieces ps → printk (format ps) (arguments ps) ≡ some (rendered ps)
unfolding printk conversion
printk-rendered [] all = refl
printk-rendered (lit c ∷ ps) all =
    printk-plain c (format ps) (arguments ps) (rendered ps) all.0 (printk-rendered ps all.1)
printk-rendered (percent ∷ ps) all =
    printk-converted b'%' (format ps) (arguments ps) (arguments ps) (b'%' ∷ []) (rendered ps) refl
      (printk-rendered ps all.1)
printk-rendered (text s ∷ ps) all =
    printk-converted b's' (format ps) (arguments (text s ∷ ps)) (arguments ps) (str_or_null s)
      (rendered ps) refl (printk-rendered ps all.1)
printk-rendered (signed n ∷ ps) all =
    printk-converted b'd' (format ps) (arguments (signed n ∷ ps)) (arguments ps) (signed_text n)
      (rendered ps) (rw (printk_itoa-signed_text n all.0) refl) (printk-rendered ps all.1)
printk-rendered (unsigned n ∷ ps) all =
    printk-converted b'u' (format ps) (arguments (unsigned n ∷ ps)) (arguments ps) (printed n 10 [])
      (rendered ps) (rw (printk_utoa-printed n 10 (omega arith) (omega arith) all.0) refl)
      (printk-rendered ps all.1)
printk-rendered (hex n ∷ ps) all =
    printk-converted b'x' (format ps) (arguments (hex n ∷ ps)) (arguments ps) (printed n 16 [])
      (rendered ps) (rw (printk_utoa-printed n 16 (omega arith) (omega arith) all.0) refl)
      (printk-rendered ps all.1)
printk-rendered (char n ∷ ps) all =
    printk-converted b'c' (format ps) (arguments (char n ∷ ps)) (arguments ps) (n % 256 ∷ [])
      (rendered ps) refl (printk-rendered ps all.1)
printk-rendered (unknown c ∷ ps) all =
    printk-converted c (format ps) (arguments ps) (arguments ps) (b'%' ∷ (c ∷ [])) (rendered ps)
      (conversion-unknown c (arguments ps) all.0) (printk-rendered ps all.1)
