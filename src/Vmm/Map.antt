-- ===== src/Vmm/Map.antt =====
-- `vmm_map_page` and `vmm_unmap_page`.
use Prim.Native.Nat.{bit_or}
use dionnex.Base.{
  ℕ, ◌+◌, ◌/◌, ◌%◌, ◌^◌, ◌<◌, ◌≡◌, ◌≢◌, refl, ap, ◌∙◌, ◌⊎◌, inl, inr, ◌&&◌, if◌then◌else◌, ◌==◌,
  true, false, arith, Bool-cases,
}
use dionnex.Base.Bits.{bit_or-add}
use dionnex.Pmm.{Pmm, page_size, pmm_alloc_page}
use dionnex.Pmm.Alloc.{pmm_alloc_page-first}
use dionnex.Vmm.{
  Vmm, dir_index, table_index, present, frame, dir_entry, ensure_table, translate, vmm_get_phys,
  vmm_map_page, vmm_unmap_page,
}
use dionnex.Vmm.Table.{table_entry_lem, page_entry_lem}
use dionnex.Vmm.Entry.{IsPaged, set_entry-IsPaged, vmm_get_phys-set_entry}
use dionnex.Vmm.Grow.{
  new_entry, with_table, with_table-dir_entry, with_table-IsPaged, with_table-vmm_get_phys,
}

-- There is a table behind the entry, the rest is as before.
record Ensured (v : Vmm) (i : ℕ) (r : Vmm × Pmm) : Type 0 where
  pub paged : IsPaged r.0 r.1
  pub there : present (dir_entry r.0 i) ≡ 1
  pub same : (virt : ℕ) → vmm_get_phys r.0 virt ≡ vmm_get_phys v virt

-- A table is there, or a page for it.
abbrev pub CanMap : Vmm → Pmm → ℕ → Type 0
CanMap v p virt = (present (dir_entry v (dir_index virt)) ≡ 1) ⊎ ((pmm_alloc_page p).0 ≢ 0)

ensure_table-Ensured :
    {v : Vmm} {p : Pmm}
    → IsPaged v p
    → (i flags : ℕ) → i < 1024
    → (present (dir_entry v i) ≡ 1) ⊎ ((pmm_alloc_page p).0 ≢ 0)
    → Ensured v i (ensure_table v p i flags)
unfolding ensure_table
ensure_table-Ensured {v} {p} g i flags low can = elim (Bool-cases (present (dir_entry v i) == 0)) [
  | inr on ↦ rw on (record { paged = g; there = ground (arith, on); same = λ virt. refl })
  | inl off ↦ elim (pmm_alloc_page-first g.valid) [
    | inl (at, unchanged, full) ↦ absurd (ground (arith, off, can, at))
    | inr (page, (inside, at, free, below, bits, count, undo, valid)) ↦
        let absent : present (dir_entry v i) ≡ 0 = ground (arith, off) in
        let here : (i == i) ≡ true = ground arith in
        let entry : dir_entry (with_table v i page flags) i ≡ new_entry page flags =
          with_table-dir_entry g i page flags low free i low ∙ rw here refl in
        rw (off, at)
          (record {
            paged = with_table-IsPaged g i page flags low free valid bits;
            there = ap present entry ∙ (table_entry_lem page flags).1;
            same = with_table-vmm_get_phys g i page flags low free absent;
          })
  ]
]

-- The two indices name the page of a 32-bit address.
same_page :
    (a b : ℕ)
    → a < 2 ^ 32
    → b < 2 ^ 32
    → (dir_index a == dir_index b && table_index a == table_index b)
      ≡ (a / page_size == b / page_size)
same_page a b x y = ground arith

mapped_address :
    (phys flags virt : ℕ)
    → flags < 4096
    → translate (bit_or (bit_or (frame phys) flags) 1) virt ≡ frame phys + virt % page_size
unfolding translate
mapped_address phys flags virt h =
    let (at, on) = page_entry_lem phys flags h in
    let on' : (present (bit_or (bit_or (frame phys) flags) 1) == 0) ≡ false = ground (arith, on) in
    rw (on', at) (bit_or-add 12 (phys / 4096) (virt % 4096) (omega arith))

-- On tables that are pages in use and all different, if a table for the address is there or a page
-- for one is free, `vmm_map_page` of a 32-bit `virt` with flags below 4096 keeps them so; afterwards
-- every 32-bit address of the page of `virt` is translated into the frame of `phys`, and every other
-- 32-bit address as before.
pub vmm_get_phys-vmm_map_page :
    {v : Vmm} {p : Pmm} (virt phys flags : ℕ)
    → IsPaged v p
    → CanMap v p virt
    → virt < 2 ^ 32
    → flags < 4096
    → let r = vmm_map_page v p virt phys flags in
      IsPaged r.0 r.1
      × ((a : ℕ)
          → a < 2 ^ 32
          → vmm_get_phys r.0 a ≡ (
              if a / page_size == virt / page_size
              then frame phys + a % page_size
              else vmm_get_phys v a))
unfolding vmm_map_page
vmm_get_phys-vmm_map_page {v} {p} virt phys flags g can low small =
    let i = dir_index virt in
    let k = table_index virt in
    let r = ensure_table v p i flags in
    let e = ensure_table-Ensured g i flags (omega arith) can in
    let entry = bit_or (bit_or (frame phys) flags) 1 in
    (
      set_entry-IsPaged e.paged i k entry (omega arith) (omega arith) e.there,
      λ a top.
          let found =
            vmm_get_phys-set_entry e.paged i k entry (omega arith) (omega arith) e.there a in
          found ∙ rw (same_page a virt top low, mapped_address phys flags a small, e.same a) refl,
    )

translate-zero : (a : ℕ) → translate 0 a ≡ 0
unfolding translate
translate-zero a = refl

-- Without a table nothing of its 4 MB is translated.
vmm_get_phys-absent :
    (v : Vmm) (virt a : ℕ)
    → virt < 2 ^ 32
    → a < 2 ^ 32
    → (present (dir_entry v (dir_index virt)) == 0) ≡ true
    → vmm_get_phys v a ≡ (if a / page_size == virt / page_size then 0 else vmm_get_phys v a)
unfolding vmm_get_phys
vmm_get_phys-absent v virt a low top off = elim (Bool-cases (a / page_size == virt / page_size)) [
  | inr far ↦ rw far refl
  | inl near ↦
      let same : dir_index a ≡ dir_index virt = ground (arith, near) in
      let off' : (present (dir_entry v (dir_index a)) == 0) ≡ true =
        ap (λ (t : ℕ). present (dir_entry v t) == 0) same ∙ off in
      rw (near, off') refl
]

-- On such tables, `vmm_unmap_page` keeps them so; afterwards no 32-bit address of the page of
-- `virt` is translated, and every other one as before.
pub vmm_get_phys-vmm_unmap_page :
    {v : Vmm} {p : Pmm} (virt : ℕ)
    → IsPaged v p
    → virt < 2 ^ 32
    → IsPaged (vmm_unmap_page v virt) p
      × ((a : ℕ)
          → a < 2 ^ 32
          → vmm_get_phys (vmm_unmap_page v virt) a
            ≡ (if a / page_size == virt / page_size then 0 else vmm_get_phys v a))
unfolding vmm_unmap_page
vmm_get_phys-vmm_unmap_page {v} virt g low =
    let i = dir_index virt in
    let k = table_index virt in
    elim (Bool-cases (present (dir_entry v i) == 0)) [
      | inl off ↦ rw off (g, λ a top. vmm_get_phys-absent v virt a low top off)
      | inr on ↦
          let there : present (dir_entry v i) ≡ 1 = ground (arith, on) in
          rw on (
            set_entry-IsPaged g i k 0 (omega arith) (omega arith) there,
            λ a top.
                vmm_get_phys-set_entry g i k 0 (omega arith) (omega arith) there a
                ∙ rw (same_page a virt top low) (rw (translate-zero a) refl),
          )
    ]
