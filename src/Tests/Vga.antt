-- ===== src/Tests/Vga.antt =====
-- drivers/vga.c at fixed inputs.
use dionnex.Base.{ℕ, ◌≡◌, ◌<◌, refl, some, [], ◌∷◌, replicate, length-replicate, arith}
use dionnex.Vga.{Vga, vga_write, vga_set_color}
use dionnex.Vga.Putchar.{OnScreen}
use dionnex.Vga.Write.{Written, vga_write-Written}

abbrev pub empty_at : ℕ → ℕ → Vga
empty_at row col = record { cells = replicate 2000 0x0F20; row = row; col = col; color = 0x0F }

empty_at-OnScreen : (row col : ℕ) → row < 25 → col < 80 → OnScreen (empty_at row col)
empty_at-OnScreen row col r c = record {
  size = length-replicate {A = ℕ} 2000 0x0F20;
  row = r;
  col = c;
}

blue_on_white : (vga_set_color (empty_at 0 0) 1 15).color ≡ 0xF1
unfolding vga_set_color
blue_on_white = refl

-- A text over the end of a line.
vga_write-Written_example :
    (v' : Vga) × (vga_write (empty_at 3 79) (b'o' ∷ (b'k' ∷ [])) ≡ some v')
    × Written (empty_at 3 79) (b'o' ∷ (b'k' ∷ [])) v'
vga_write-Written_example =
    vga_write-Written (b'o' ∷ (b'k' ∷ [])) (empty_at-OnScreen 3 79 (omega arith) (omega arith))
      (refl, (refl, tt)) (omega arith)
