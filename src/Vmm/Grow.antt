-- ===== src/Vmm/Grow.antt =====
-- A fresh table behind an entry of the directory.
use Prim.Native.Nat.{bit_or}
use dionnex.Base.{
  ℕ, ◌+◌, ◌*◌, ◌/◌, ◌≤◌, ◌<◌, ◌≡◌, ◌≢◌, refl, sym, ap, ◌∙◌, ◌⊎◌, inl, inr, if◌then◌else◌, ◌==◌, ltb,
  true, false, arith, Bool-cases,
}
use dionnex.Pmm.{Pmm, page_size}
use dionnex.Pmm.Bitmap.{used}
use dionnex.Pmm.Count.{IsValid}
use dionnex.Vmm.{
  Vmm, put_word, dir_index, table_index, present, frame, user, dir_entry, clear_table, translate,
  vmm_get_phys,
}
use dionnex.Vmm.Table.{clear_table-outside, clear_table-inside, table_entry_lem}
use dionnex.Vmm.Entry.{IsPaged}

-- An address in another page is outside the table.
pub elsewhere :
    (a page : ℕ) → a / page_size ≢ page → (a < page * 4096) ⊎ (page * 4096 + 4 * 1024 ≤ a)
elsewhere a page apart = elim (Bool-cases (ltb a (page * 4096))) [
  | inl before ↦ inl (ground (arith, before))
  | inr from ↦ inr (ground (arith, from, apart))
]

abbrev pub new_entry : ℕ → ℕ → ℕ
new_entry page flags = bit_or (bit_or (bit_or (page * 4096) 1) 2) (user flags)

-- The memory with a fresh table behind directory entry `i`.
abbrev pub with_table : Vmm → ℕ → ℕ → ℕ → Vmm
with_table v i page flags = record v {
  words =
      put_word (clear_table 1024 (page * 4096) v.words) (v.page_directory + 4 * i)
        (new_entry page flags);
}

module _ {v : Vmm} {p : Pmm} (g : IsPaged v p) (i page flags : ℕ) (low_i : i < 1024)
    (fresh : used p.bitmap page ≡ 0) where
  page-ne-dir : page ≢ v.page_directory / page_size
  page-ne-dir e = ground (arith, g.dir_used, rw e at fresh)

  pub with_table-dir_entry :
      (j : ℕ)
      → j < 1024
      → dir_entry (with_table v i page flags) j
        ≡ (if j == i then new_entry page flags else dir_entry v j)
  with_table-dir_entry j low =
      let in_dir : (v.page_directory + 4 * j) / page_size ≡ v.page_directory / page_size =
        omega (arith, g.aligned) in
      let apart : (v.page_directory + 4 * j) / page_size ≢ page =
        λ e. page-ne-dir (sym e ∙ in_dir) in
      let outside =
        clear_table-outside 1024 (page * 4096) v.words (v.page_directory + 4 * j)
          (elsewhere _ page apart) in
      elim (Bool-cases (j == i)) [
        | inl here ↦
            let same : j ≡ i = ground (arith, here) in
            let at : (v.page_directory + 4 * i == v.page_directory + 4 * i) ≡ true = ground arith in
            rw here (rw same (rw at refl))
        | inr far ↦
            let off : (v.page_directory + 4 * j == v.page_directory + 4 * i) ≡ false =
              ground (arith, far) in
            rw (far, off) outside
      ]

  -- The words of a table that was there before.
  with_table-words :
      (j l : ℕ)
      → j < 1024
      → l < 1024
      → present (dir_entry v j) ≡ 1
      → (with_table v i page flags).words (frame (dir_entry v j) + 4 * l)
        ≡ v.words (frame (dir_entry v j) + 4 * l)
  with_table-words j l low low_l on =
      let (taken, not_dir) = g.tables j low on in
      let at = frame (dir_entry v j) + 4 * l in
      let here : at / page_size ≡ dir_entry v j / page_size = omega arith in
      let apart : at / page_size ≢ page =
        λ e. absurd (ground (arith, fresh, rw (sym here ∙ e) at taken)) in
      let outside = clear_table-outside 1024 (page * 4096) v.words at (elsewhere at page apart) in
      let off : (at == v.page_directory + 4 * i) ≡ false =
        ground (arith, g.aligned, not_dir, here) in
      rw off outside

  -- The new table is empty.
  with_table-empty :
      (l : ℕ) → l < 1024 → (with_table v i page flags).words (page * 4096 + 4 * l) ≡ 0
  with_table-empty l low_l =
      let off : (page * 4096 + 4 * l == v.page_directory + 4 * i) ≡ false =
        ground (arith, g.aligned, page-ne-dir) in
      rw off (clear_table-inside 1024 (page * 4096) v.words l low_l)

  -- Each entry is the new one or an old one.
  entry_page : new_entry page flags / page_size ≡ page
  entry_page = omega (arith, (table_entry_lem page flags).0)

  old_page : (j : ℕ) → j < 1024 → present (dir_entry v j) ≡ 1 → dir_entry v j / page_size ≢ page
  old_page j low on e = absurd (ground (arith, fresh, rw e at (g.tables j low on).0))

  entry_cases :
      (j : ℕ)
      → j < 1024
      → present (dir_entry (with_table v i page flags) j) ≡ 1
      → (j ≡ i) × (dir_entry (with_table v i page flags) j / page_size ≡ page)
        ⊎ (present (dir_entry v j) ≡ 1)
          × (dir_entry (with_table v i page flags) j / page_size ≡ dir_entry v j / page_size)
  entry_cases j low on = elim (Bool-cases (j == i)) [
    | inl here ↦
        let same : dir_entry (with_table v i page flags) j ≡ new_entry page flags =
          with_table-dir_entry j low ∙ rw here refl in
        inl (ground (arith, here), ap (λ (t : ℕ). t / page_size) same ∙ entry_page)
    | inr far ↦
        let same : dir_entry (with_table v i page flags) j ≡ dir_entry v j =
          with_table-dir_entry j low ∙ rw far refl in
        inr (rw same at on, ap (λ (t : ℕ). t / page_size) same)
  ]

  module _ {p' : Pmm} (v' : IsValid p')
      (bits : (k : ℕ) → used p'.bitmap k ≡ (if page == k then 1 else used p.bitmap k)) where
    pub with_table-IsPaged : IsPaged (with_table v i page flags) p'
    with_table-IsPaged = record {
      valid = v';
      aligned = g.aligned;
      dir_used = ground (arith, bits (v.page_directory / page_size), g.dir_used);
      tables = λ j low on. elim (entry_cases j low on) [
        | inl (here, at) ↦ rw at (ground (arith, bits page), page-ne-dir)
        | inr (old, at) ↦
            let (taken, not_dir) = g.tables j low old in
            rw at (ground (arith, bits (dir_entry v j / page_size), taken), not_dir)
      ];
      apart = λ j l low_j low_l ne on_j on_l e. elim (entry_cases j low_j on_j) [
        | inl (here_j, at_j) ↦ elim (entry_cases l low_l on_l) [
          | inl (here_l, at_l) ↦ ne (here_j ∙ sym here_l)
          | inr (old_l, at_l) ↦ old_page l low_l old_l (sym at_l ∙ sym e ∙ at_j)
        ]
        | inr (old_j, at_j) ↦ elim (entry_cases l low_l on_l) [
          | inl (here_l, at_l) ↦ old_page j low_j old_j (sym at_j ∙ e ∙ at_l)
          | inr (old_l, at_l) ↦ g.apart j l low_j low_l ne old_j old_l (sym at_j ∙ e ∙ at_l)
        ]
      ];
    }

  -- No address is translated anew.
  pub with_table-vmm_get_phys :
      present (dir_entry v i) ≡ 0
      → (virt : ℕ) → vmm_get_phys (with_table v i page flags) virt ≡ vmm_get_phys v virt
  unfolding vmm_get_phys translate
  with_table-vmm_get_phys absent virt =
      let j = dir_index virt in
      let entry = with_table-dir_entry j (omega arith) in
      elim (Bool-cases (j == i)) [
        | inl here ↦
            let same : j ≡ i = ground (arith, here) in
            let now : dir_entry (with_table v i page flags) j ≡ new_entry page flags =
              entry ∙ rw here refl in
            let (at, on) = table_entry_lem page flags in
            let empty : (with_table v i page flags).words (page * 4096 + 4 * table_index virt) ≡ 0 =
              with_table-empty (table_index virt) (omega arith) in
            let off : (present (dir_entry v j) == 0) ≡ true = rw same (ground (arith, absent)) in
            let on' : (present (new_entry page flags) == 0) ≡ false = ground (arith, on) in
            rw (now, off) (rw (on', at) (rw empty refl))
        | inr far ↦
            let now : dir_entry (with_table v i page flags) j ≡ dir_entry v j =
              entry ∙ rw far refl in
            elim (Bool-cases (present (dir_entry v j) == 0)) [
              | inl off ↦ rw now (rw off refl)
              | inr on ↦
                  let on' : present (dir_entry v j) ≡ 1 = ground (arith, on) in
                  let kept =
                    with_table-words j (table_index virt) (omega arith) (omega arith) on' in
                  rw now (rw (on, kept) refl)
            ]
      ]
