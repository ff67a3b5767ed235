-- ===== src/Tests/Klog.antt =====
-- kernel/klog.c at fixed inputs.
use dionnex.Base.{ℕ, ◌≡◌, refl, none, some, if◌then◌else◌, leb, length, List, [], ◌∷◌, ◌++◌, arith}
use dionnex.Klog.{Klog, klog_size, klog_init, klog_push_string, klog_dump}
use dionnex.Klog.Ring.{
  IsValid, contents, last, klog_init-IsValid, klog_push_string-last, push_all, joined,
  klog_dump-last,
}
use dionnex.Strings.Number.{digit_char}
use dionnex.Strings.Number.Digits.{low_digits}
use dionnex.Strings.Number.Print.{printed}
use dionnex.Klog.Format.{klog}
use dionnex.Klog.Format.Message.{
  LogPiece, lit, hex, hex_upper, unknown, log_format, log_arguments, logged, header_text,
  klog-logged,
}
use dionnex.Strings.Text.Content.{NoNul, has_no_nul, has_no_nul-NoNul}

abbrev text : List ℕ
text = b'b' ∷ b'o' ∷ b'o' ∷ b't' ∷ []

-- The log after `text` was pushed on the empty log.
abbrev booted : Klog
booted = klog_push_string klog_init text

klog_push_string-last_example :
    IsValid booted × (contents booted ≡ last klog_size (contents klog_init ++ text))
klog_push_string-last_example = klog_push_string-last text klog_init-IsValid

klog_dump-last_example :
    klog_dump (push_all klog_init (text ∷ text ∷ [])) ≡ last klog_size (joined (text ∷ text ∷ []))
klog_dump-last_example = klog_dump-last (text ∷ text ∷ [])

-- "a%i%x%X"
abbrev pieces : List LogPiece
pieces = lit b'a' ∷ (unknown b'i' ∷ (hex 0xBEEF ∷ (hex_upper 0xBEEF ∷ [])))

pieces-NoNul : NoNul (logged pieces)
unfolding printed low_digits digit_char has_no_nul
pieces-NoNul = has_no_nul-NoNul (logged pieces) refl

klog-logged_example :
    let message = header_text 9 1234 ++ logged pieces in
    klog booted 1234 9 (log_format pieces) (log_arguments pieces)
    ≡ (if leb 512 (length message) then none else some (klog_push_string booted message, message))
klog-logged_example =
    klog-logged pieces booted 1234 9 (refl, (refl, (omega arith, (omega arith, tt)))) pieces-NoNul
      (omega arith)
