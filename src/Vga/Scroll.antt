-- ===== src/Vga/Scroll.antt =====
-- The loops over cells.
use dionnex.Base.{
  ℕ, zero, suc, ◌+◌, ◌-◌, ◌≤◌, ◌<◌, ◌≡◌, refl, ap, ◌∙◌, ◌&&◌, some, List, if◌then◌else◌, true, ltb,
  leb, get_elem?, set, length, length-set, arith, ◌>>=◌,
}
use mathlib.Core.Path.{fun_ext}
use dionnex.Base.Places.{get_elem?-set}
use dionnex.Strings.Memory.{store, copy_up}
use dionnex.Strings.Memory.Move.{copy_up-Moved}
use dionnex.Vga.{Vga, vga_entry, vga_memmove, fill_cells, vga_scroll}

vga_memmove-copy_up :
    (n : ℕ) (cells : List ℕ) (d s : ℕ) → vga_memmove cells d s n ≡ copy_up n cells d s
unfolding vga_memmove copy_up
vga_memmove-copy_up zero cells d s = refl
vga_memmove-copy_up (suc n) cells d s =
    ap (λ f. get_elem? cells s >>= λ b. store cells d b >>= f)
      (fun_ext (λ next. vga_memmove-copy_up n next (d + 1) (s + 1)))

-- The cells after a fill of `n` from `i` on.
fill_cells-get :
    (n : ℕ) (cells : List ℕ) (i entry : ℕ)
    → i + n ≤ length cells
    → (out : List ℕ) × (fill_cells n cells i entry ≡ some out)
      × (length out ≡ length cells)
      × ((k : ℕ)
          → get_elem? out k ≡ (if leb i k && ltb k (i + n) then some entry else get_elem? cells k))
unfolding fill_cells store
fill_cells-get zero cells i entry room = (cells, refl, refl, λ k. ground arith)
fill_cells-get (suc n) cells i entry room =
    let len = length-set cells i entry in
    let (out, run, same, cell) = fill_cells-get n (set cells i entry) (i + 1) entry (omega arith) in
    let inside : ltb i (length cells) ≡ true = ground arith in
    (
      out,
      rw inside run,
      same ∙ len,
      λ k. cell k ∙ ground (arith, get_elem?-set cells i k entry (omega arith)),
    )

shifted :
    (old moved : List ℕ) (k entry : ℕ)
    → k < 2000
    → get_elem? moved k
      ≡ (if leb 0 k && ltb k (0 + 1920) then get_elem? old (80 + (k - 0)) else get_elem? old k)
    → (if leb 1920 k && ltb k (1920 + 80) then some entry else get_elem? moved k)
      ≡ (if ltb k 1920 then get_elem? old (k + 80) else some entry)
shifted old moved k entry low cell =
    let at : 80 + (k - 0) ≡ k + 80 = omega arith in
    ground (arith, cell, ap (λ (t : ℕ). get_elem? old t) at)

-- What scrolling leaves: each row shows what stood one row lower, and the last one is blank.
pub record Scrolled (v v' : Vga) : Type 0 where
  pub size : length v'.cells ≡ length v.cells
  pub row : v'.row ≡ 24
  pub col : v'.col ≡ v.col
  pub color : v'.color ≡ v.color
  pub cells :
      (k : ℕ)
      → k < 2000
      → get_elem? v'.cells k
        ≡ (if ltb k 1920 then get_elem? v.cells (k + 80) else some (vga_entry 0x20 v.color))

-- On a buffer of 2000 cells, `vga_scroll` succeeds; every row moves up by one, the last row is
-- blank, and the cursor is in it.
pub vga_scroll-Scrolled :
    (v : Vga) → length v.cells ≡ 2000 → (v' : Vga) × (vga_scroll v ≡ some v') × Scrolled v v'
unfolding vga_scroll
vga_scroll-Scrolled v size =
    let (moved, run, (same, cell)) = copy_up-Moved 1920 v.cells 0 80 (omega arith) (omega arith) in
    let (blank, run', same', cell') =
      fill_cells-get 80 moved 1920 (vga_entry 0x20 v.color) (omega (arith, same)) in
    (
      record v { cells = blank; row = 24 },
      rw (vga_memmove-copy_up 1920 v.cells 0 80, run, run') refl,
      record {
        size = same' ∙ same;
        row = refl;
        col = refl;
        color = refl;
        cells = λ k low. cell' k ∙ shifted v.cells moved k (vga_entry 0x20 v.color) low (cell k);
      },
    )
