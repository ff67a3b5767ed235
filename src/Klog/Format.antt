-- ===== src/Klog/Format.antt =====
-- `klog` of kernel/klog.c: the message that it formats in `msg_buf`. A write past the end of the
-- buffer, a read past the NUL of the format, and an argument that is missing or of another kind are
-- faults, none.
pub mod Message
use dionnex.Base.{
  ℕ, zero, suc, ◌+◌, ◌^◌, ◌%◌, ◌||◌, Option, none, some, List, [], ◌∷◌, ◌++◌, if◌then◌else◌, ltb,
  leb, ◌==◌, replicate, length, ◌>>=◌,
}
use dionnex.Strings.Number.{utoa, itoa}
use dionnex.Strings.Text.Content.{text_of}
use dionnex.Printk.{Arg, with_str, with_num}
use dionnex.Klog.{Klog, klog_push_string}

-- `level_strings[level]`
abbrev pub level_string : ℕ → List ℕ
level_string level =
    if level == 0
    then b'[' ∷ (b'D' ∷ (b'E' ∷ (b'B' ∷ (b'U' ∷ (b'G' ∷ (b']' ∷ []))))))
    else if level == 1
    then b'[' ∷ (b'I' ∷ (b'N' ∷ (b'F' ∷ (b'O' ∷ (b']' ∷ (b' ' ∷ []))))))
    else if level == 2
    then b'[' ∷ (b'W' ∷ (b'A' ∷ (b'R' ∷ (b'N' ∷ (b']' ∷ (b' ' ∷ []))))))
    else if level == 3
    then b'[' ∷ (b'E' ∷ (b'R' ∷ (b'R' ∷ (b'O' ∷ (b'R' ∷ (b']' ∷ []))))))
    else b'[' ∷ (b'P' ∷ (b'A' ∷ (b'N' ∷ (b'I' ∷ (b'C' ∷ (b']' ∷ []))))))

-- A number printed into `num_buf`, of which only the text before the NUL is used.
pub num_text : ℕ → ℕ → Option (List ℕ)
num_text val base = do num_buf ← utoa val (replicate 32 0) base; text_of num_buf

pub int_text : ℕ → ℕ → Option (List ℕ)
int_text val base = do num_buf ← itoa val (replicate 32 0) base; text_of num_buf

-- What a conversion prints, and the arguments that are left; any other character prints nothing.
pub klog_conversion : ℕ → List Arg → Option (List ℕ × List Arg)
klog_conversion c args =
    if c == b's'
    then with_str args (λ s. some s)
    else if c == b'd'
    then with_num args (λ n. int_text n 10)
    else if c == b'u'
    then with_num args (λ n. num_text n 10)
    else if c == b'x' || c == b'X'
    then with_num args (λ n. num_text n 16)
    else if c == b'c'
    then with_num args (λ n. some (n % 256 ∷ []))
    else if c == b'%'
    then some (b'%' ∷ [], args)
    else some ([], args)

-- The loop over the format, given before its NUL. Behind a '%' at its end, `fmt++` passes the NUL.
pub klog_body : List ℕ → List Arg → Option (List ℕ)
klog_body [] args = some []
klog_body (c ∷ []) args = if c == b'%' then none else some (c ∷ [])
klog_body (c ∷ (d ∷ fmt)) args =
    let plain : Option (List ℕ) = do out ← klog_body (d ∷ fmt) args; some (c ∷ out)
    in let converted : Option (List ℕ) = do
      (out, args') ← klog_conversion d args
      rest ← klog_body fmt args'
      some (out ++ rest)
      in if c == b'%' then converted else plain

-- "[ticks] [LEVEL] "
abbrev pub klog_header : ℕ → ℕ → Option (List ℕ)
klog_header level ticks = do
  text ← num_text ticks 10
  some ((b'[' ∷ text) ++ (b']' ∷ (b' ' ∷ (level_string level ++ (b' ' ∷ [])))))

-- The log afterwards, and the message for the serial port. `ticks` is what `timer_get_ticks` gives.
pub klog : Klog → ℕ → ℕ → List ℕ → List Arg → Option (Klog × List ℕ)
klog k ticks level fmt args = do
  header ← klog_header (if ltb 4 level then 1 else level) ticks
  body ← klog_body fmt args
  if leb 512 (length (header ++ body)) then none else (do
    pushed ← text_of ((header ++ body) ++ (0 ∷ []))
    some (klog_push_string k pushed, pushed))
