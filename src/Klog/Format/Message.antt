-- ===== src/Klog/Format/Message.antt =====
-- The message of `klog` for a format made of pieces.
use dionnex.Base.{
  ℕ, ◌-◌, ◌%◌, ◌^◌, ◌≤◌, ◌<◌, ◌≡◌, refl, ap, inl, inr, Bool, true, false, ◌||◌, Option, none, some,
  List, [], ◌∷◌, ◌++◌, if◌then◌else◌, ltb, leb, ◌==◌, replicate, length, arith, Bool-cases, ◌>>=◌,
}
use dionnex.Strings.Number.Print.{printed}
use dionnex.Strings.Number.Shown.{printed-append, printed-NoNul, utoa-text}
use dionnex.Strings.Number.Signed.{itoa-signed_text}
use dionnex.Strings.Text.Content.{
  text_of, NoNul, NoNul-append, text_of-append, has_no_nul, has_no_nul-NoNul,
}
use dionnex.Printk.{Arg, str, num, str_or_null}
use dionnex.Printk.Pieces.{signed_text}
use dionnex.Klog.{Klog, klog_push_string}
use dionnex.Klog.Format.{level_string, num_text, int_text, klog_conversion, klog_body, klog}

-- A character, a conversion with its argument, or a '%' before a character that `klog` does not
-- know. The conversions of `printk` are others.
pub data LogPiece : Type 0 where
  lit : ℕ → LogPiece
  percent : LogPiece
  text : Option (List ℕ) → LogPiece
  signed : ℕ → LogPiece
  unsigned : ℕ → LogPiece
  hex : ℕ → LogPiece
  hex_upper : ℕ → LogPiece
  char : ℕ → LogPiece
  unknown : ℕ → LogPiece

abbrev is_known : ℕ → Bool
is_known c = c == b's' || c == b'd' || c == b'u' || c == b'x' || c == b'X' || c == b'c' || c == b'%'

abbrev IsLogPiece : LogPiece → Type 0
IsLogPiece (lit c) = (c == b'%') ≡ false
IsLogPiece percent = Unit
IsLogPiece (text s) = Unit
IsLogPiece (signed n) = n < 2 ^ 32
IsLogPiece (unsigned n) = n < 2 ^ 32
IsLogPiece (hex n) = n < 2 ^ 32
IsLogPiece (hex_upper n) = n < 2 ^ 32
IsLogPiece (char n) = Unit
IsLogPiece (unknown c) = is_known c ≡ false

abbrev AllLogPieces : List LogPiece → Type 0
AllLogPieces [] = Unit
AllLogPieces (p ∷ ps) = IsLogPiece p × AllLogPieces ps

-- A piece in the format, and its argument.
abbrev format_piece : LogPiece → List ℕ
format_piece (lit c) = c ∷ []
format_piece percent = b'%' ∷ (b'%' ∷ [])
format_piece (text s) = b'%' ∷ (b's' ∷ [])
format_piece (signed n) = b'%' ∷ (b'd' ∷ [])
format_piece (unsigned n) = b'%' ∷ (b'u' ∷ [])
format_piece (hex n) = b'%' ∷ (b'x' ∷ [])
format_piece (hex_upper n) = b'%' ∷ (b'X' ∷ [])
format_piece (char n) = b'%' ∷ (b'c' ∷ [])
format_piece (unknown c) = b'%' ∷ (c ∷ [])

abbrev argument : LogPiece → List Arg
argument (lit c) = []
argument percent = []
argument (text s) = str s ∷ []
argument (signed n) = num n ∷ []
argument (unsigned n) = num n ∷ []
argument (hex n) = num n ∷ []
argument (hex_upper n) = num n ∷ []
argument (char n) = num n ∷ []
argument (unknown c) = []

abbrev pub log_format : List LogPiece → List ℕ
log_format [] = []
log_format (p ∷ ps) = format_piece p ++ log_format ps

abbrev pub log_arguments : List LogPiece → List Arg
log_arguments [] = []
log_arguments (p ∷ ps) = argument p ++ log_arguments ps

-- What a piece becomes in the log: %x and %X alike are small digits, and behind '%', what is no
-- conversion is left out.
abbrev logged_piece : LogPiece → List ℕ
logged_piece (lit c) = c ∷ []
logged_piece percent = b'%' ∷ []
logged_piece (text s) = str_or_null s
logged_piece (signed n) = signed_text n
logged_piece (unsigned n) = printed n 10 []
logged_piece (hex n) = printed n 16 []
logged_piece (hex_upper n) = printed n 16 []
logged_piece (char n) = n % 256 ∷ []
logged_piece (unknown c) = []

abbrev pub logged : List LogPiece → List ℕ
logged [] = []
logged (p ∷ ps) = logged_piece p ++ logged ps

abbrev pub header_text : ℕ → ℕ → List ℕ
header_text level ticks =
    (b'[' ∷ printed ticks 10 [])
    ++ (b']' ∷ (b' ' ∷ (level_string (if ltb 4 level then 1 else level) ++ (b' ' ∷ []))))

num_text-printed :
    (val base : ℕ)
    → val < 2 ^ 32
    → 10 ≤ base
    → base ≤ 36
    → val < base ^ 10
    → num_text val base ≡ some (printed val base [])
unfolding num_text
num_text-printed val base word low high ten =
    let (buf, run, shown) = utoa-text val base (replicate 32 0) word low high ten (omega arith) in
    rw run shown

int_text-signed_text : (n : ℕ) → n < 2 ^ 32 → int_text n 10 ≡ some (signed_text n)
unfolding int_text
int_text-signed_text n word =
    let (behind, run) = itoa-signed_text n (replicate 32 0) word (omega arith) in
    elim (Bool-cases (leb (2 ^ 31) n)) [
      | inl minus ↦
          rw (run, minus)
            (rw (printed-append (2 ^ 32 - n) 10 (0 ∷ behind)) (
              text_of-append (b'-' ∷ printed (2 ^ 32 - n) 10 []) behind
                ((λ e. absurd (omega (arith, e))), printed-NoNul (2 ^ 32 - n) 10)))
      | inr plus ↦
          rw (run, plus)
            (rw (printed-append n 10 (0 ∷ behind))
              (text_of-append (printed n 10 []) behind (printed-NoNul n 10)))
    ]

klog_body-plain :
    (c : ℕ) (fmt : List ℕ) (args : List Arg) (out : List ℕ)
    → (c == b'%') ≡ false
    → klog_body fmt args ≡ some out
    → klog_body (c ∷ fmt) args ≡ some (c ∷ out)
unfolding klog_body
klog_body-plain c [] args out e run = rw e (ap (λ o. o >>= λ t. some (c ∷ t)) run)
klog_body-plain c (d ∷ fmt) args out e run = rw (e, run) refl

klog_body-converted :
    (d : ℕ) (fmt : List ℕ) (args args' : List Arg) (piece out : List ℕ)
    → klog_conversion d args ≡ some (piece, args')
    → klog_body fmt args' ≡ some out
    → klog_body (b'%' ∷ (d ∷ fmt)) args ≡ some (piece ++ out)
unfolding klog_body
klog_body-converted d fmt args args' piece out e run = rw (e, run) refl

klog_conversion-unknown :
    (c : ℕ) (args : List Arg) → is_known c ≡ false → klog_conversion c args ≡ some ([], args)
unfolding klog_conversion
klog_conversion-unknown c args e = ground (arith, e)

klog_body-logged :
    (ps : List LogPiece)
    → AllLogPieces ps
    → klog_body (log_format ps) (log_arguments ps) ≡ some (logged ps)
unfolding klog_body klog_conversion
klog_body-logged [] all = refl
klog_body-logged (p ∷ ps) all = step p all.0 (klog_body-logged ps all.1)
  where
    step :
        (q : LogPiece)
        → IsLogPiece q
        → klog_body (log_format ps) (log_arguments ps) ≡ some (logged ps)
        → klog_body (log_format (q ∷ ps)) (log_arguments (q ∷ ps))
          ≡ some (logged_piece q ++ logged ps)
    step (lit c) ok run = klog_body-plain c (log_format ps) (log_arguments ps) (logged ps) ok run
    step percent ok run =
        klog_body-converted b'%' (log_format ps) (log_arguments ps) (log_arguments ps) (b'%' ∷ [])
          (logged ps) refl run
    step (text s) ok run =
        klog_body-converted b's' (log_format ps) (log_arguments (text s ∷ ps)) (log_arguments ps)
          (str_or_null s) (logged ps) refl run
    step (signed n) ok run =
        klog_body-converted b'd' (log_format ps) (log_arguments (signed n ∷ ps)) (log_arguments ps)
          (signed_text n) (logged ps) (rw (int_text-signed_text n ok) refl) run
    step (unsigned n) ok run =
        klog_body-converted b'u' (log_format ps) (log_arguments (unsigned n ∷ ps))
          (log_arguments ps) (printed n 10 []) (logged ps)
          (rw (num_text-printed n 10 ok (omega arith) (omega arith) (omega (arith, ok))) refl) run
    step (hex n) ok run =
        klog_body-converted b'x' (log_format ps) (log_arguments (hex n ∷ ps)) (log_arguments ps)
          (printed n 16 []) (logged ps)
          (rw (num_text-printed n 16 ok (omega arith) (omega arith) (omega (arith, ok))) refl) run
    step (hex_upper n) ok run =
        klog_body-converted b'X' (log_format ps) (log_arguments (hex_upper n ∷ ps))
          (log_arguments ps) (printed n 16 []) (logged ps)
          (rw (num_text-printed n 16 ok (omega arith) (omega arith) (omega (arith, ok))) refl) run
    step (char n) ok run =
        klog_body-converted b'c' (log_format ps) (log_arguments (char n ∷ ps)) (log_arguments ps)
          (n % 256 ∷ []) (logged ps) refl run
    step (unknown c) ok run =
        klog_body-converted c (log_format ps) (log_arguments ps) (log_arguments ps) [] (logged ps)
          (klog_conversion-unknown c (log_arguments ps) ok) run

level_string-has_no_nul : (level : ℕ) → has_no_nul (level_string level) ≡ true
unfolding has_no_nul
level_string-has_no_nul level = ground arith

header_text-NoNul : (level ticks : ℕ) → NoNul (header_text level ticks)
header_text-NoNul level ticks =
    NoNul-append (b'[' ∷ printed ticks 10 []) _
      ((λ e. absurd (omega (arith, e))), printed-NoNul ticks 10)
      (
        (λ e. absurd (omega (arith, e))),
        (
          (λ e. absurd (omega (arith, e))),
          NoNul-append (level_string (if ltb 4 level then 1 else level)) (b' ' ∷ [])
              (has_no_nul-NoNul _ (level_string-has_no_nul (if ltb 4 level then 1 else level)))
              ((λ e. absurd (omega (arith, e))), tt),
        ),
      )

-- `klog` of a format of characters, of %s, %d, %u, %x, %X, %c and %% with the arguments that they ask
-- for (numbers of 32 bits), and of '%' before any other character, which is left out with it (%i
-- too), at any level and any 32-bit tick count, where the text that comes out has no NUL in it: if
-- the header and the text leave room for a NUL in 512 bytes, they are pushed on the log and are the
-- message; otherwise it writes past its buffer.
pub klog-logged :
    (ps : List LogPiece) (k : Klog) (ticks level : ℕ)
    → AllLogPieces ps
    → NoNul (logged ps)
    → ticks < 2 ^ 32
    → let message = header_text level ticks ++ logged ps in
      klog k ticks level (log_format ps) (log_arguments ps)
      ≡ (if leb 512 (length message) then none else some (klog_push_string k message, message))
unfolding klog
klog-logged ps k ticks level all clean word =
    let message = header_text level ticks ++ logged ps in
    let number = num_text-printed ticks 10 word (omega arith) (omega arith) (omega (arith, word)) in
    let whole : text_of (message ++ (0 ∷ [])) ≡ some message =
      text_of-append message [] (
        NoNul-append (header_text level ticks) (logged ps) (header_text-NoNul level ticks) clean) in
    rw (number, klog_body-logged ps all) (rw whole refl)
