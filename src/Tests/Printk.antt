-- ===== src/Tests/Printk.antt =====
-- kernel/printk.c at fixed inputs.
use dionnex.Base.{◌≡◌, refl, none, some, List, [], ◌∷◌, arith}
use dionnex.Printk.{
  num, printk, printk_utoa, printk_itoa, tmp_digits, backwards, conversion, serial_bytes,
}
use dionnex.Printk.Pieces.{
  Piece, lit, text, signed, hex, unknown, format, arguments, rendered, printk-rendered,
}

-- "x=%x %d" of 0x1f and -5
printk_hex_and_signed :
    printk
      (b'x' ∷ (b'=' ∷ (b'%' ∷ (b'x' ∷ (b' ' ∷ (b'%' ∷ (b'd' ∷ [])))))))
      (num 0x1f ∷ (num 0xfffffffb ∷ []))
    ≡ some (b'x' ∷ (b'=' ∷ (b'1' ∷ (b'f' ∷ (b' ' ∷ (b'-' ∷ (b'5' ∷ [])))))))
unfolding printk conversion printk_utoa printk_itoa tmp_digits backwards
printk_hex_and_signed = refl

-- A width takes no argument, which is then taken for the string.
printk_width :
    printk (b'%' ∷ (b'4' ∷ (b'u' ∷ []))) (num 7 ∷ []) ≡ some (b'%' ∷ (b'4' ∷ (b'u' ∷ [])))
unfolding printk conversion
printk_width = refl

serial_newline : serial_bytes (b'a' ∷ (0x0A ∷ [])) ≡ b'a' ∷ (0x0D ∷ (0x0A ∷ []))
unfolding serial_bytes
serial_newline = refl

abbrev pieces : List Piece
pieces = lit b'a' ∷ (unknown b'4' ∷ (text none ∷ (signed 0xfffffffb ∷ (hex 0x1f ∷ []))))

printk-rendered_example : printk (format pieces) (arguments pieces) ≡ some (rendered pieces)
printk-rendered_example =
    printk-rendered pieces (refl, (refl, (tt, (omega arith, (omega arith, tt)))))
