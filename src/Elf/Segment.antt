-- ===== src/Elf/Segment.antt =====
-- The bytes that a segment leaves.
use dionnex.Base.{
  ℕ, ◌+◌, ◌-◌, ◌%◌, ◌^◌, ◌≤◌, ◌<◌, ◌≡◌, ap, ◌∙◌, ◌⊎◌, inl, inr, ◌&&◌, ◌||◌, true, false,
  if◌then◌else◌, ltb, leb, arith, Bool-cases,
}
use dionnex.Machine.{Memory, set_bytes, copy_bytes}
use dionnex.Machine.Words.{Outside, set_bytes-Outside, copy_bytes-Outside}
use dionnex.Machine.Blocks.{set_bytes_inside, copy_bytes_inside}
use dionnex.Elf.{p_offset, p_vaddr, p_filesz, p_memsz, copy_segment}
use dionnex.Strings.Number.{u32}

module _ (mem : Memory) (file vaddr memsz filesz offset x : ℕ) (low : vaddr + memsz < 2 ^ 32)
    (part : filesz ≤ memsz) (room : file + offset + filesz < 2 ^ 32)
    (apart : (vaddr + memsz ≤ file + offset) ⊎ (file + offset + filesz ≤ vaddr)) where
  abbrev cleared : Memory
  cleared = set_bytes mem vaddr 0 memsz

  cleared_file : (y : ℕ) → file + offset ≤ y → y < file + offset + filesz → cleared y ≡ mem y
  cleared_file y from to = set_bytes-Outside memsz mem vaddr 0 y low (away apart)
    where
      away :
          (vaddr + memsz ≤ file + offset) ⊎ (file + offset + filesz ≤ vaddr) → Outside vaddr memsz y
      away (inl h) = inr (omega (arith, h, from))
      away (inr h) = inl (omega (arith, h, to))

  source : ((vaddr + filesz ≤ file + offset) ⊎ (file + offset + filesz ≤ vaddr))
  source = nearer apart
    where
      nearer :
          (vaddr + memsz ≤ file + offset) ⊎ (file + offset + filesz ≤ vaddr)
          → (vaddr + filesz ≤ file + offset) ⊎ (file + offset + filesz ≤ vaddr)
      nearer (inl h) = inl (omega (arith, h, part))
      nearer (inr h) = inr h

  abbrev wanted : ℕ
  wanted =
      if ltb x vaddr || leb (vaddr + memsz) x
      then mem x
      else if ltb x (vaddr + filesz)
      then mem (file + offset + (x - vaddr)) % 256
      else 0

  cleared_byte : vaddr + filesz ≤ x ⊎ (x < vaddr) → cleared x ≡ wanted
  cleared_byte side = elim (Bool-cases (ltb x vaddr || leb (vaddr + memsz) x)) [
    | inl out ↦ rw out (set_bytes-Outside memsz mem vaddr 0 x low (ground (arith, out)))
    | inr inside ↦
        let behind : ltb x (vaddr + filesz) ≡ false = ground (arith, inside, side) in
        rw (inside, behind)
          (set_bytes_inside memsz mem vaddr 0 x low (ground (arith, inside))
            (ground (arith, inside)))
  ]

  copied : copy_bytes cleared vaddr (file + offset) filesz x ≡ wanted
  copied = elim (Bool-cases (leb vaddr x && ltb x (vaddr + filesz))) [
    | inl in_file ↦
        let inside : (ltb x vaddr || leb (vaddr + memsz) x) ≡ false =
          ground (arith, in_file, part) in
        let before : ltb x (vaddr + filesz) ≡ true = ground (arith, in_file) in
        let from : vaddr ≤ x = ground (arith, in_file) in
        let to : x < vaddr + filesz = ground (arith, in_file) in
        rw (inside, before)
          (copy_bytes_inside filesz cleared vaddr (file + offset) x (omega (arith, low, part)) room
              source from to
            ∙ ap (λ (v : ℕ). v % 256)
                (cleared_file (file + offset + (x - vaddr)) (omega arith)
                  (omega (arith, to, from))))
    | inr out ↦
        let side : (vaddr + filesz ≤ x) ⊎ (x < vaddr) = ground (arith, out) in
        copy_bytes-Outside filesz cleared vaddr (file + offset) x (omega (arith, low, part))
          (turned side)
        ∙ cleared_byte side
  ]
    where
      turned : (vaddr + filesz ≤ x) ⊎ (x < vaddr) → Outside vaddr filesz x
      turned (inl h) = inr h
      turned (inr h) = inl h

-- A segment whose `p_filesz` is at most `p_memsz`, whose target ends below 2 ^ 32, and whose bytes in
-- the file end within the file, below the address 2 ^ 32 and apart from the target: those bytes are
-- copied to `p_vaddr`, followed by zeros up to `p_memsz`, and every byte outside of the target stays.
pub copy_segment-bytes :
    (mem : Memory) (file size ph x : ℕ)
    → p_vaddr mem ph + p_memsz mem ph < 2 ^ 32
    → p_filesz mem ph ≤ p_memsz mem ph
    → p_offset mem ph + p_filesz mem ph ≤ size
    → file + p_offset mem ph + p_filesz mem ph < 2 ^ 32
    → (p_vaddr mem ph + p_memsz mem ph ≤ file + p_offset mem ph)
      ⊎ (file + p_offset mem ph + p_filesz mem ph ≤ p_vaddr mem ph)
    → copy_segment mem file size ph x ≡ (
        if ltb x (p_vaddr mem ph) || leb (p_vaddr mem ph + p_memsz mem ph) x
        then mem x
        else if ltb x (p_vaddr mem ph + p_filesz mem ph)
        then mem (file + p_offset mem ph + (x - p_vaddr mem ph)) % 256
        else 0)
unfolding copy_segment
copy_segment-bytes mem file size ph x low part within room apart =
    let vaddr = p_vaddr mem ph in
    let memsz = p_memsz mem ph in
    let filesz = p_filesz mem ph in
    let offset = p_offset mem ph in
    let at : u32 (file + offset) ≡ file + offset = omega (arith, room) in
    elim (Bool-cases (ltb 0 filesz && leb (u32 (offset + filesz)) size)) [
      | inl e ↦ rw (e, at) (copied mem file vaddr memsz filesz offset x low part room apart)
      | inr e ↦
          let nothing : filesz ≡ 0 = ground (arith, e, within, room) in
          rw e (
            cleared_byte mem file vaddr memsz filesz offset x low part room apart
              (ground (arith, nothing)))
    ]
