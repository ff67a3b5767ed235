-- ===== src/Vga/Write.antt =====
-- `vga_write` of a text.
use dionnex.Base.{
  ℕ, suc, ◌+◌, ◌-◌, ◌<◌, ◌≡◌, refl, ◌∙◌, inl, inr, ◌&&◌, some, List, [], ◌∷◌, if◌then◌else◌, true,
  false, ltb, leb, ◌==◌, get_elem?, get_or, set, length, arith, Bool-cases,
}
use dionnex.Base.Places.{get_elem?-set}
use dionnex.Vga.{Vga, vga_entry, vga_write}
use dionnex.Vga.Putchar.{OnScreen, vga_putchar-OnScreen, is_plain, cursor, Typed, vga_putchar-Typed}

abbrev pub AllPlain : List ℕ → Type 0
AllPlain [] = Unit
AllPlain (c ∷ s) = (is_plain c ≡ true) × AllPlain s

-- Any text is written without leaving the screen.
pub vga_write-OnScreen :
    (s : List ℕ) {v : Vga} → OnScreen v → (v' : Vga) × (vga_write v s ≡ some v') × OnScreen v'
unfolding vga_write
vga_write-OnScreen [] {v} on = (v, refl, on)
vga_write-OnScreen (c ∷ s) on =
    let (w, run, on') = vga_putchar-OnScreen c on in
    let (v', rest, on'') = vga_write-OnScreen s on' in (v', rw run rest, on'')

-- What a text leaves: its characters from the cursor on, over the ends of lines.
pub record Written (v : Vga) (s : List ℕ) (v' : Vga) : Type 0 where
  pub on : OnScreen v'
  pub moved : cursor v' ≡ cursor v + length s
  pub color : v'.color ≡ v.color
  pub cells :
      (k : ℕ)
      → get_elem? v'.cells k ≡ (
          if leb (cursor v) k && ltb k (cursor v + length s)
          then some (vga_entry (get_or s (k - cursor v) 0) v.color)
          else get_elem? v.cells k)

cells_step :
    (old : List ℕ) (p c color k : ℕ) (s : List ℕ)
    → p < length old
    → (if leb (p + 1) k && ltb k (p + 1 + length s)
        then some (vga_entry (get_or s (k - (p + 1)) 0) color)
        else get_elem? (set old p (vga_entry c color)) k)
      ≡ (if leb p k && ltb k (p + suc (length s))
          then some (vga_entry (get_or (c ∷ s) (k - p) 0) color)
          else get_elem? old k)
cells_step old p c color k s inside =
    let cell = get_elem?-set old p k (vga_entry c color) inside in
    elim (Bool-cases (leb (p + 1) k)) [
      | inl later ↦
          let next : k - p ≡ suc (k - (p + 1)) = ground (arith, later) in
          rw next (ground (arith, cell, later))
      | inr now ↦ elim (Bool-cases (p == k)) [
        | inl here ↦
            let first : k - p ≡ 0 = ground (arith, here) in
            let before : leb p k ≡ true = ground (arith, here) in
            let after : ltb k (p + suc (length s)) ≡ true = ground (arith, here) in
            rw (now, before, after, first) (cell ∙ rw here refl)
        | inr far ↦
            let before : leb p k ≡ false = ground (arith, far, now) in
            rw (now, before) (cell ∙ rw far refl)
      ]
    ]

Written-cons :
    {v w v' : Vga} (c : ℕ) (s : List ℕ)
    → OnScreen v
    → Typed v c w
    → Written w s v'
    → Written v (c ∷ s) v'
Written-cons {v} c s on t r = record {
  on = r.on;
  moved = omega (arith, r.moved, t.moved);
  color = r.color ∙ t.color;
  cells = λ k.
      (rw (t.moved, t.color, t.cells) at (r.cells k))
      ∙ cells_step v.cells (cursor v) c v.color k s (omega (arith, on.size, on.row, on.col));
}

-- On the screen, `vga_write` of a text of no control characters that ends before the last cell
-- shows its characters from the cursor on, line after line, and changes no other cell.
pub vga_write-Written :
    (s : List ℕ) {v : Vga}
    → OnScreen v
    → AllPlain s
    → cursor v + length s < 2000
    → (v' : Vga) × (vga_write v s ≡ some v') × Written v s v'
unfolding vga_write
vga_write-Written [] {v} on plain room =
    (v, refl, record { on = on; moved = omega arith; color = refl; cells = λ k. ground arith })
vga_write-Written (c ∷ s) {v} on plain room =
    let (w, run, t) = vga_putchar-Typed c on plain.0 (omega (arith, room)) in
    let (v', rest, r) = vga_write-Written s t.on plain.1 (omega (arith, room, t.moved)) in
    (v', rw run rest, Written-cons c s on t r)
