-- ===== src/Vmm/Start.antt =====
-- `vmm_init` maps the first 4 MB to themselves.
use Prim.Native.Nat.{bit_or}
use dionnex.Base.{
  ℕ, zero, suc, ◌+◌, ◌*◌, ◌/◌, ◌%◌, ◌^◌, ◌≤◌, ◌<◌, ◌≡◌, ◌≢◌, refl, sym, ap, ◌∙◌, ◌⊎◌, inl, inr,
  if◌then◌else◌, ◌==◌, ltb, true, false, arith, Bool-cases,
}
use dionnex.Base.Bits.{bit_or-add}
use dionnex.Pmm.{Pmm, page_size, pmm_alloc_page}
use dionnex.Pmm.Alloc.{pmm_alloc_page-first}
use dionnex.Pmm.Bitmap.{used}
use dionnex.Pmm.Count.{IsValid}
use dionnex.Vmm.{
  Vmm, put_word, dir_index, table_index, present, frame, dir_entry, clear_table, identity_table,
  translate, vmm_get_phys, vmm_init,
}
use dionnex.Vmm.Table.{clear_table-inside, frame-bit_or, present-bit_or}
use dionnex.Vmm.Entry.{IsPaged}

abbrev flagged : ℕ → ℕ
flagged a = bit_or (bit_or a 1) 2

flagged_lem : (q : ℕ) → (frame (flagged (q * 4096)) ≡ q * 4096) × (present (flagged (q * 4096)) ≡ 1)
flagged_lem q = (
  frame-bit_or (bit_or (q * 4096) 1) 2 (omega arith)
      ∙ frame-bit_or (q * 4096) 1 (omega arith)
      ∙ omega arith,
  omega (arith, present-bit_or (bit_or (q * 4096) 1) 2, present-bit_or (q * 4096) 1),
)

identity_table-outside :
    (n i table : ℕ) (words : ℕ → ℕ) (a : ℕ)
    → (a < table + 4 * i) ⊎ (table + 4 * (i + n) ≤ a)
    → identity_table n i table words a ≡ words a
unfolding identity_table
identity_table-outside zero i table words a out = refl
identity_table-outside (suc n) i table words a out =
    let apart : (a == table + 4 * i) ≡ false = ground (arith, out) in
    identity_table-outside n (i + 1) table
      (put_word words (table + 4 * i) (flagged (i * page_size))) a (ground (arith, out))
    ∙ rw apart refl

identity_table-inside :
    (n i table : ℕ) (words : ℕ → ℕ) (k : ℕ)
    → k < n
    → identity_table n i table words (table + 4 * (i + k)) ≡ flagged ((i + k) * page_size)
unfolding identity_table
identity_table-inside zero i table words k lt = elim lt [ ]
identity_table-inside (suc n) i table words zero lt =
    let here : i + 0 ≡ i = omega arith in
    let same : (table + 4 * i == table + 4 * i) ≡ true = ground arith in
    rw here (
      identity_table-outside n (i + 1) table
        (put_word words (table + 4 * i) (flagged (i * page_size))) (table + 4 * i)
        (inl (omega arith))
      ∙ rw same refl)
identity_table-inside (suc n) i table words (suc k) lt =
    let next : i + suc k ≡ i + 1 + k = omega arith in
    rw next (
      identity_table-inside n (i + 1) table
        (put_word words (table + 4 * i) (flagged (i * page_size))) k (omega arith))

-- The two pages that `vmm_init` takes, and what it writes there.
module _ (d q : ℕ) (words : ℕ → ℕ) (apart : d ≢ q) where
  abbrev built : Vmm
  built = record {
    page_directory = d * 4096;
    words =
        put_word (identity_table 1024 0 (q * 4096) (clear_table 1024 (d * 4096) words)) (d * 4096)
          (flagged (q * 4096));
  }

  first_entry : dir_entry built 0 ≡ flagged (q * 4096)
  first_entry = let here : (d * 4096 + 4 * 0 == d * 4096) ≡ true = ground arith in rw here refl

  other_entries : (j : ℕ) → 0 < j → j < 1024 → dir_entry built j ≡ 0
  other_entries j lo hi =
      let off : (d * 4096 + 4 * j == d * 4096) ≡ false = ground (arith, lo) in
      let away : (d * 4096 + 4 * j < q * 4096 + 4 * 0)
          ⊎ (q * 4096 + 4 * (0 + 1024) ≤ d * 4096 + 4 * j) =
        ground (arith, apart) in
      rw off (
        identity_table-outside 1024 0 (q * 4096) (clear_table 1024 (d * 4096) words)
          (d * 4096 + 4 * j) away
        ∙ clear_table-inside 1024 (d * 4096) words j hi)

  table_entries : (k : ℕ) → k < 1024 → built.words (q * 4096 + 4 * k) ≡ flagged (k * page_size)
  table_entries k hi =
      let off : (q * 4096 + 4 * k == d * 4096) ≡ false = ground (arith, apart) in
      let none_before : 0 + k ≡ k = omega arith in
      rw off (
        rw none_before at
          (identity_table-inside 1024 0 (q * 4096) (clear_table 1024 (d * 4096) words) k hi))

  built-vmm_get_phys :
      (a : ℕ) → a < 2 ^ 32 → vmm_get_phys built a ≡ (if ltb a 0x400000 then a else 0)
  unfolding vmm_get_phys translate
  built-vmm_get_phys a top = elim (Bool-cases (ltb a 0x400000)) [
    | inl low ↦
        let at : dir_index a ≡ 0 = ground (arith, low) in
        let on : (present (flagged (q * 4096)) == 0) ≡ false = ground (arith, (flagged_lem q).1) in
        let k = table_index a in
        let (page, set) = flagged_lem k in
        let on' : (present (flagged (k * 4096)) == 0) ≡ false = ground (arith, set) in
        let entry = table_entries k (omega arith) in
        let sum : bit_or (k * 4096) (a % 4096) ≡ a =
          bit_or-add 12 k (a % 4096) (omega arith) ∙ ground (arith, low) in
        rw (low, at) (rw first_entry (rw (on, (flagged_lem q).0) (rw entry (rw (on', page) sum))))
    | inr high ↦
        let entry = other_entries (dir_index a) (ground (arith, high, top)) (omega arith) in
        rw high (rw entry refl)
  ]

  entry_is_first : (j : ℕ) → j < 1024 → present (dir_entry built j) ≡ 1 → j ≡ 0
  entry_is_first j hi on = elim (Bool-cases (j == 0)) [
    | inl here ↦ ground (arith, here)
    | inr later ↦ absurd (ground (arith, rw (other_entries j (ground (arith, later)) hi) at on))
  ]

  first_page : dir_entry built 0 / page_size ≡ q
  first_page = omega (arith, ap frame first_entry, (flagged_lem q).0)

  built-IsPaged :
      {p : Pmm} → IsValid p → used p.bitmap d ≡ 1 → used p.bitmap q ≡ 1 → IsPaged built p
  built-IsPaged valid dir_used table_used =
      let dir : d * 4096 / page_size ≡ d = omega arith in
      record {
        valid = valid;
        aligned = omega arith;
        dir_used = rw dir dir_used;
        tables = λ i low on.
            let here = entry_is_first i low on in
            rw (here, first_page, dir) (table_used, λ e. apart (sym e));
        apart = λ i j low_i low_j ne on_i on_j.
            absurd (ne (entry_is_first i low_i on_i ∙ sym (entry_is_first j low_j on_j)));
      }

-- On a valid allocator with two free pages, `vmm_init` takes them for a directory and a table, all
-- different pages in use, and translates every address below 4 MB into itself and no other.
pub vmm_init-identity :
    {p : Pmm} (words : ℕ → ℕ)
    → IsValid p
    → (pmm_alloc_page p).0 ≢ 0
    → (pmm_alloc_page (pmm_alloc_page p).1).0 ≢ 0
    → let r = vmm_init p words in
      IsPaged r.0 r.1
      × ((a : ℕ) → a < 2 ^ 32 → vmm_get_phys r.0 a ≡ (if ltb a 0x400000 then a else 0))
unfolding vmm_init
vmm_init-identity {p} words v one two = elim (pmm_alloc_page-first v) [
  | inl (at, same, full) ↦ absurd (one at)
  | inr (d, (inside, at, free, below, bits, count, undo, valid)) ↦
      elim (pmm_alloc_page-first valid) [
        | inl (at', same, full) ↦ absurd (two at')
        | inr (q, (inside', at', free', below', bits', count', undo', valid')) ↦
            let apart : d ≢ q = λ e. absurd (ground (arith, bits q, free', e)) in
            rw (at, at')
              (
                built-IsPaged d q words apart valid' (ground (arith, bits' d, bits d))
                    (ground (arith, bits' q)),
                built-vmm_get_phys d q words apart,
              )
      ]
]
