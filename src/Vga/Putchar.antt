-- ===== src/Vga/Putchar.antt =====
-- `vga_putchar` stays on the screen, and what it shows.
use dionnex.Base.{
  ℕ, ◌+◌, ◌-◌, ◌*◌, ◌/◌, ◌≤◌, ◌<◌, ◌≡◌, refl, ◌∙◌, ◌⊎◌, inl, inr, ◌||◌, not, Bool, some, true,
  false, ltb, leb, ◌==◌, set, length, length-set, arith, Bool-cases,
}
use dionnex.Strings.Memory.{store}
use dionnex.Vga.{Vga, vga_width, vga_height, vga_entry, put_cell, place, wrap_line, vga_putchar}
use dionnex.Vga.Scroll.{vga_scroll-Scrolled}

-- The cursor is on the screen, and the buffer has all its cells.
pub record OnScreen (v : Vga) : Type 0 where
  pub size : length v.cells ≡ 2000
  pub row : v.row < vga_height
  pub col : v.col < vga_width

-- After `place` the cursor may stand one past the end of a line, or one row too low.
record Placed (v : Vga) : Type 0 where
  pub size : length v.cells ≡ 2000
  pub row : v.row ≤ vga_height
  pub col : v.col ≤ vga_width
  pub one : v.row < vga_height ⊎ v.col < vga_width

-- A cell of the screen can be written.
put_cell-set :
    (v : Vga) (c : ℕ)
    → length v.cells ≡ 2000
    → v.row * 80 + v.col < 2000
    → put_cell v c ≡ some (set v.cells (v.row * 80 + v.col) (vga_entry c v.color))
unfolding store
put_cell-set v c size inside =
    let test : ltb (v.row * 80 + v.col) (length v.cells) ≡ true = ground (arith, size) in
    rw test refl

set-size : (v : Vga) (i e : ℕ) → length v.cells ≡ 2000 → length (set v.cells i e) ≡ 2000
set-size v i e size = length-set v.cells i e ∙ size

place-Placed : {v : Vga} (c : ℕ) → OnScreen v → (v' : Vga) × (place v c ≡ some v') × Placed v'
unfolding place
place-Placed {v} c s = elim (Bool-cases (c == 0x0A)) [
  | inl newline ↦ (
    record v { col = 0; row = v.row + 1 },
    rw newline refl,
    record {
      size = s.size;
      row = omega (arith, s.row);
      col = omega arith;
      one = inr (omega arith);
    },
  )
  | inr c1 ↦ elim (Bool-cases (c == 0x0D)) [
    | inl return ↦ (
      record v { col = 0 },
      rw (c1, return) refl,
      record { size = s.size; row = omega (arith, s.row); col = omega arith; one = inl s.row },
    )
    | inr c2 ↦ elim (Bool-cases (c == 0x09)) [
      | inl tab ↦ (
        record v { col = (v.col + 8) / 8 * 8 },
        rw (c1, c2, tab) refl,
        record {
          size = s.size;
          row = omega (arith, s.row);
          col = omega (arith, s.col);
          one = inl s.row;
        },
      )
      | inr c3 ↦ elim (Bool-cases (c == 0x08)) [
        | inr c4 ↦
            let at = put_cell-set v c s.size (omega (arith, s.row, s.col)) in
            let cells = set v.cells (v.row * 80 + v.col) (vga_entry c v.color) in
            (
              record v { cells = cells; col = v.col + 1 },
              rw (c1, c2, c3, c4, at) refl,
              record {
                size = set-size v _ _ s.size;
                row = omega (arith, s.row);
                col = omega (arith, s.col);
                one = inl s.row;
              },
            )
        | inl back ↦ elim (Bool-cases (ltb 0 v.col)) [
          | inr first ↦ (
            v,
            rw (c1, c2, c3, back, first) refl,
            record {
              size = s.size;
              row = omega (arith, s.row);
              col = omega (arith, s.col);
              one = inl s.row;
            },
          )
          | inl inner ↦
              let w = record v { col = v.col - 1 } in
              let at = put_cell-set w 0x20 s.size (omega (arith, s.row, s.col)) in
              (
                record w {
                  cells = set v.cells (v.row * 80 + (v.col - 1)) (vga_entry 0x20 v.color);
                },
                rw (c1, c2, c3, back, inner, at) refl,
                record {
                  size = set-size v _ _ s.size;
                  row = omega (arith, s.row);
                  col = omega (arith, s.col);
                  one = inl s.row;
                },
              )
        ]
      ]
    ]
  ]
]

wrap_line-Placed :
    {v : Vga}
    → Placed v
    → (length (wrap_line v).cells ≡ 2000)
      × ((wrap_line v).row ≤ vga_height)
      × ((wrap_line v).col < vga_width)
unfolding wrap_line
wrap_line-Placed {v} p = elim (Bool-cases (leb vga_width v.col)) [
  | inl over ↦ rw over (p.size, ground (arith, over, p.one), omega arith)
  | inr under ↦ rw under (p.size, p.row, ground (arith, under))
]

-- On the screen, `vga_putchar` of any character succeeds, and is on the screen again.
pub vga_putchar-OnScreen :
    {v : Vga} (c : ℕ) → OnScreen v → (v' : Vga) × (vga_putchar v c ≡ some v') × OnScreen v'
unfolding vga_putchar
vga_putchar-OnScreen {v} c s =
    let (placed, run, p) = place-Placed c s in
    let (size, row, col) = wrap_line-Placed p in
    elim (Bool-cases (leb vga_height (wrap_line placed).row)) [
      | inl low ↦
          let (v', run', r) = vga_scroll-Scrolled (wrap_line placed) size in
          (
            v',
            rw (run, low) run',
            record {
              size = r.size ∙ size;
              row = omega (arith, r.row);
              col = omega (arith, r.col, col);
            },
          )
      | inr on ↦ (
        wrap_line placed,
        rw (run, on) refl,
        record { size = size; row = ground (arith, on); col = col },
      )
    ]

-- A character that is no control character.
abbrev pub is_plain : ℕ → Bool
is_plain c = not (c == 0x0A || c == 0x0D || c == 0x09 || c == 0x08)

-- The place of the cursor in the buffer.
abbrev pub cursor : Vga → ℕ
cursor v = v.row * vga_width + v.col

-- The screen with a character at the cursor, which stands one place further.
pub record Typed (v : Vga) (c : ℕ) (v' : Vga) : Type 0 where
  pub on : OnScreen v'
  pub moved : cursor v' ≡ cursor v + 1
  pub color : v'.color ≡ v.color
  pub cells : v'.cells ≡ set v.cells (cursor v) (vga_entry c v.color)

pub vga_putchar-Typed :
    {v : Vga} (c : ℕ)
    → OnScreen v
    → is_plain c ≡ true
    → cursor v + 1 < 2000
    → (v' : Vga) × (vga_putchar v c ≡ some v') × Typed v c v'
unfolding vga_putchar place wrap_line
vga_putchar-Typed {v} c s plain room =
    let c1 : (c == 0x0A) ≡ false = ground (arith, plain) in
    let c2 : (c == 0x0D) ≡ false = ground (arith, plain) in
    let c3 : (c == 0x09) ≡ false = ground (arith, plain) in
    let c4 : (c == 0x08) ≡ false = ground (arith, plain) in
    let at = put_cell-set v c s.size (omega (arith, room)) in
    let cells = set v.cells (cursor v) (vga_entry c v.color) in
    let size = set-size v (cursor v) (vga_entry c v.color) s.size in
    elim (Bool-cases (leb vga_width (v.col + 1))) [
      | inl over ↦
          let end : v.col ≡ 79 = ground (arith, over, s.col) in
          let on : leb vga_height (v.row + 1) ≡ false = ground (arith, room, end) in
          (
            record v { cells = cells; row = v.row + 1; col = 0 },
            rw (c1, c2, c3, c4, at) (rw over (rw on refl)),
            record {
              on = record { size = size; row = ground (arith, on); col = omega arith };
              moved = omega (arith, end);
              color = refl;
              cells = refl;
            },
          )
      | inr under ↦
          let on : leb vga_height v.row ≡ false = ground (arith, s.row) in
          (
            record v { cells = cells; col = v.col + 1 },
            rw (c1, c2, c3, c4, at) (rw under (rw on refl)),
            record {
              on = record { size = size; row = s.row; col = ground (arith, under) };
              moved = omega arith;
              color = refl;
              cells = refl;
            },
          )
    ]
