-- ===== src/Vmm/Entry.antt =====
-- Writing one entry of one table.
use dionnex.Base.{
  ℕ, ◌+◌, ◌*◌, ◌/◌, ◌<◌, ◌≡◌, ◌≢◌, refl, inl, inr, ◌&&◌, if◌then◌else◌, ◌==◌, true, false, arith,
  Bool-cases,
}
use dionnex.Pmm.{Pmm, page_size}
use dionnex.Pmm.Bitmap.{used}
use dionnex.Pmm.Count.{IsValid}
use dionnex.Vmm.{
  Vmm, dir_index, table_index, present, frame, dir_entry, set_entry, translate, vmm_get_phys,
}

-- The directory and the tables that it names are pages in use, all different.
pub record IsPaged (v : Vmm) (p : Pmm) : Type 0 where
  pub valid : IsValid p
  pub aligned : v.page_directory ≡ frame v.page_directory
  pub dir_used : used p.bitmap (v.page_directory / page_size) ≡ 1
  pub tables :
      (i : ℕ)
      → i < 1024
      → present (dir_entry v i) ≡ 1
      → (used p.bitmap (dir_entry v i / page_size) ≡ 1)
        × (dir_entry v i / page_size ≢ v.page_directory / page_size)
  pub apart :
      (i j : ℕ)
      → i < 1024
      → j < 1024
      → i ≢ j
      → present (dir_entry v i) ≡ 1
      → present (dir_entry v j) ≡ 1
      → dir_entry v i / page_size ≢ dir_entry v j / page_size

module _ {v : Vmm} {p : Pmm} (g : IsPaged v p) (i k e : ℕ) (low_i : i < 1024) (low_k : k < 1024)
    (there : present (dir_entry v i) ≡ 1) where
  -- The directory is in another page.
  set_entry-dir_entry : (j : ℕ) → j < 1024 → dir_entry (set_entry v i k e) j ≡ dir_entry v j
  unfolding set_entry
  set_entry-dir_entry j low =
      let other : (v.page_directory + 4 * j == frame (dir_entry v i) + 4 * k) ≡ false =
        ground (arith, g.aligned, (g.tables i low_i there).1) in
      rw other refl

  pub set_entry-IsPaged : IsPaged (set_entry v i k e) p
  unfolding set_entry
  set_entry-IsPaged =
      let same = set_entry-dir_entry in
      record {
        valid = g.valid;
        aligned = g.aligned;
        dir_used = g.dir_used;
        tables = λ j low on. rw (same j low) (g.tables j low (rw (same j low) at on));
        apart = λ j l low_j low_l ne on_j on_l.
            rw (same j low_j, same l low_l)
              (g.apart j l low_j low_l ne (rw (same j low_j) at on_j) (rw (same l low_l) at on_l));
      }

  -- A table that is not this one keeps its words, and this one the other words.
  words_elsewhere :
      (j l : ℕ)
      → j < 1024
      → l < 1024
      → present (dir_entry v j) ≡ 1
      → (j == i && l == k) ≡ false
      → (set_entry v i k e).words (frame (dir_entry v j) + 4 * l)
        ≡ v.words (frame (dir_entry v j) + 4 * l)
  unfolding set_entry
  words_elsewhere j l low_j low_l on ne = elim (Bool-cases (j == i)) [
    | inl here ↦
        let same : j ≡ i = ground (arith, here) in
        let other : (frame (dir_entry v j) + 4 * l == frame (dir_entry v i) + 4 * k) ≡ false =
          rw same (ground (arith, ne, here)) in
        rw other refl
    | inr far ↦
        let ne_pages = g.apart j i low_j low_i (ground (arith, far)) on there in
        let other : (frame (dir_entry v j) + 4 * l == frame (dir_entry v i) + 4 * k) ≡ false =
          ground (arith, ne_pages) in
        rw other refl
  ]

  words_here : (set_entry v i k e).words (frame (dir_entry v i) + 4 * k) ≡ e
  unfolding set_entry
  words_here =
      let here : (frame (dir_entry v i) + 4 * k == frame (dir_entry v i) + 4 * k) ≡ true =
        ground arith in
      rw here refl

  -- Only the addresses of that entry are translated anew.
  pub vmm_get_phys-set_entry :
      (virt : ℕ)
      → vmm_get_phys (set_entry v i k e) virt ≡ (
          if dir_index virt == i && table_index virt == k
          then translate e virt
          else vmm_get_phys v virt)
  unfolding vmm_get_phys
  vmm_get_phys-set_entry virt =
      let same = set_entry-dir_entry (dir_index virt) (omega arith) in
      elim (Bool-cases (dir_index virt == i && table_index virt == k)) [
        | inl both ↦
            let at_i : dir_index virt ≡ i = ground (arith, both) in
            let at_k : table_index virt ≡ k = ground (arith, both) in
            let on : (present (dir_entry v i) == 0) ≡ false = ground (arith, there) in
            rw both (rw same (rw (at_i, at_k, on, words_here) refl))
        | inr far ↦ elim (Bool-cases (present (dir_entry v (dir_index virt)) == 0)) [
          | inl off ↦ rw far (rw same (rw off refl))
          | inr on ↦
              let present_there : present (dir_entry v (dir_index virt)) ≡ 1 = ground (arith, on) in
              let kept =
                words_elsewhere (dir_index virt) (table_index virt) (omega arith) (omega arith)
                  present_there far in
              rw far (rw same (rw (on, kept) refl))
        ]
      ]
