-- ===== src/Vga.antt =====
-- drivers/vga.c: the text screen of 25 rows of 80 cells. The buffer is the list of its cells; an
-- access outside it is a fault, none. The ports that move the cursor are not modelled.
pub mod Scroll
pub mod Putchar
pub mod Write
pub mod Numbers
use Prim.Native.Nat.{bit_or}
use dionnex.Base.{
  ℕ, zero, suc, ◌+◌, ◌-◌, ◌*◌, ◌/◌, ◌%◌, ◌^◌, Option, none, some, List, [], ◌∷◌, ◌++◌,
  if◌then◌else◌, ltb, leb, ◌==◌, get_elem?, get_or, ◌>>=◌,
}
use dionnex.Strings.Memory.{store}
use dionnex.Printk.{digits_upper, backwards}

abbrev pub vga_width : ℕ
vga_width = 80

abbrev pub vga_height : ℕ
vga_height = 25

-- The file's static variables.
pub record Vga : Type 0 where
  pub cells : List ℕ
  pub row : ℕ
  pub col : ℕ
  pub color : ℕ

-- `(uint16_t)c` of a `char`, which is signed here, and the colour above it.
pub vga_entry : ℕ → ℕ → ℕ
vga_entry c color = bit_or (if ltb c 128 then c else 0xFF00 + c) (color * 256)

-- `dst` and `src` are offsets into the buffer.
pub vga_memmove : List ℕ → ℕ → ℕ → ℕ → Option (List ℕ)
vga_memmove cells dst src zero = some cells
vga_memmove cells dst src (suc count) = do
  cell ← get_elem? cells src
  next ← store cells dst cell
  vga_memmove next (dst + 1) (src + 1) count

-- A loop that writes one entry to the cells from `i` on, with `n` rounds left.
pub fill_cells : ℕ → List ℕ → ℕ → ℕ → Option (List ℕ)
fill_cells zero cells i entry = some cells
fill_cells (suc n) cells i entry = do next ← store cells i entry; fill_cells n next (i + 1) entry

pub vga_scroll : Vga → Option Vga
vga_scroll v = do
  moved ← vga_memmove v.cells 0 vga_width (vga_width * (vga_height - 1))
  blank ← fill_cells vga_width moved ((vga_height - 1) * vga_width) (vga_entry 0x20 v.color)
  some (record v { cells = blank; row = vga_height - 1 })

pub vga_clear : Vga → Option Vga
vga_clear v = do
  blank ← fill_cells (vga_width * vga_height) v.cells 0 (vga_entry 0x20 v.color)
  some (record v { cells = blank; row = 0; col = 0 })

pub vga_init : Vga → Option Vga
unfolding vga_clear
vga_init v = vga_clear (record v { color = 0x0F })

unfoldable pub vga_set_color : Vga → ℕ → ℕ → Vga
vga_set_color v fg bg = record v { color = bit_or (bg * 16 % 256) (fg % 16) }

-- A character at the cursor.
abbrev pub put_cell : Vga → ℕ → Option (List ℕ)
put_cell v c = store v.cells (v.row * vga_width + v.col) (vga_entry c v.color)

abbrev pub backspace : Vga → Option Vga
backspace v =
    let back = record v { col = v.col - 1 } in
    if ltb 0 v.col
    then (do cells ← put_cell back 0x20; some (record back { cells = cells }))
    else some v

-- The first half of `vga_putchar`: what the character does.
pub place : Vga → ℕ → Option Vga
place v c =
    if c == 0x0A
    then some (record v { col = 0; row = v.row + 1 })
    else if c == 0x0D
    then some (record v { col = 0 })
    else if c == 0x09
    then some (record v { col = (v.col + 8) / 8 * 8 })
    else if c == 0x08
    then backspace v
    else do cells ← put_cell v c; some (record v { cells = cells; col = v.col + 1 })

-- The second half: the end of a line, and of the screen.
pub wrap_line : Vga → Vga
wrap_line v = if leb vga_width v.col then record v { col = 0; row = v.row + 1 } else v

pub vga_putchar : Vga → ℕ → Option Vga
vga_putchar v c = do
  placed ← place v c
  if leb vga_height (wrap_line placed).row
      then vga_scroll (wrap_line placed)
      else some (wrap_line placed)

-- The text before the NUL.
unfoldable pub vga_write : Vga → List ℕ → Option Vga
vga_write v [] = some v
vga_write v (c ∷ s) = do v' ← vga_putchar v c; vga_write v' s

-- The digits of `vga_write_hex`, from the highest of `n` on.
pub nibbles : ℕ → ℕ → List ℕ
nibbles zero val = []
nibbles (suc n) val = get_or digits_upper (val / 16 ^ n % 16) 0 ∷ nibbles n val

pub vga_write_hex : Vga → ℕ → Option Vga
vga_write_hex v val = do v' ← vga_write v (b'0' ∷ (b'x' ∷ [])); vga_write v' (nibbles 8 val)

-- The loop that fills `buf`, with room for `n` digits.
pub dec_digits : ℕ → ℕ → Option (List ℕ)
dec_digits zero val = if val == 0 then some [] else none
dec_digits (suc n) val =
    let rest : Option (List ℕ) = do buf ← dec_digits n (val / 10); some ((b'0' + val % 10) ∷ buf)
    in if val == 0 then some [] else rest

-- `vga_putchar` of the digits in `buf`, the last one first.
pub vga_write_dec : Vga → ℕ → Option Vga
vga_write_dec v val =
    if val == 0
    then vga_putchar v b'0'
    else do buf ← dec_digits 12 val; vga_write v (backwards buf [])
