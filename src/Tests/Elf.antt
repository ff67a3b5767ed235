-- ===== src/Tests/Elf.antt =====
-- kernel/elf_loader.c and `process_create` at fixed inputs.
use dionnex.Base.{
  ◌+◌, ◌-◌, ◌%◌, ◌≡◌, refl, ◌⊎◌, inr, ◌||◌, true, [], ◌∷◌, replicate, if◌then◌else◌, ltb, leb, ◌==◌,
  arith,
}
use dionnex.Elf.{Space, elf_validate, p_offset, p_vaddr, p_filesz, p_memsz, copy_segment}
use dionnex.Elf.Create.{process_create}
use dionnex.Elf.Create.Outcome.{
  Refused, Failed, Succeeded, Unchanged, NotMade, Made, process_create-Made,
}
use dionnex.Elf.Segment.{copy_segment-bytes}
use dionnex.Machine.{Memory, half, word}
use dionnex.Pmm.{Pmm}
use dionnex.Process.{Procs}
use dionnex.Tests.Process.{two_queued}
use dionnex.Tests.Vmm.{no_tables}

-- An executable at 100, and at 152 a program header for 4 bytes of it that go to 8192 and have 8
-- bytes there.
abbrev program : Memory
program a =
    if a == 100
    then 0x7F
    else if a == 101
    then b'E'
    else if a == 102
    then b'L'
    else if a == 103
    then b'F'
    else if a == 104
    then 1
    else if a == 105
    then 1
    else if a == 116
    then 2
    else if a == 128
    then 52
    else if a == 144
    then 1
    else if a == 152
    then 1
    else if a == 161
    then 0x20
    else if a == 168
    then 4
    else if a == 172
    then 8
    else 0

program_valid : elf_validate program 100 200 ≡ true
unfolding elf_validate word half
program_valid = refl

program_vaddr : p_vaddr program 152 ≡ 8192
unfolding word half
program_vaddr = refl

program_offset : p_offset program 152 ≡ 0
unfolding word half
program_offset = refl

program_filesz : p_filesz program 152 ≡ 4
unfolding word half
program_filesz = refl

program_memsz : p_memsz program 152 ≡ 8
unfolding word half
program_memsz = refl

copy_segment-bytes_example : copy_segment program 100 200 152 8193 ≡ (
    if ltb 8193 (p_vaddr program 152) || leb (p_vaddr program 152 + p_memsz program 152) 8193
    then program 8193
    else if ltb 8193 (p_vaddr program 152 + p_filesz program 152)
    then program (100 + p_offset program 152 + (8193 - p_vaddr program 152)) % 256
    else 0)
copy_segment-bytes_example =
    copy_segment-bytes program 100 200 152 8193 (omega (arith, program_vaddr, program_memsz))
      (omega (arith, program_filesz, program_memsz)) (omega (arith, program_offset, program_filesz))
      (omega (arith, program_offset, program_filesz))
      (inr (omega (arith, program_vaddr, program_offset, program_filesz)))

abbrev no_processes : Procs
no_processes = record two_queued { proc_list = 0 }

-- 4096 pages, of which the first two are in use.
abbrev many_pages : Pmm
many_pages = record {
  bitmap = 3 ∷ replicate 127 0;
  bitmap_size = 128;
  total_pages = 4096;
  free_pages = 4094;
}

abbrev space : Space
space = record { mem = program; tables = no_tables; pages = many_pages }

process_create-Made_example :
    let (s', space', made) = process_create no_processes space 100 200 0x600000 0x604000 in
    Refused space 100 200 0x600000 0x604000 × Unchanged no_processes space s' space' made
    ⊎ (Failed space 100 200 0x600000 0x604000 × NotMade no_processes 0x600000 s' made
        ⊎ Succeeded space 100 200 0x600000 0x604000
          × Made 64 no_processes space 100 200 0x600000 0x604000 [] s' space' made)
process_create-Made_example =
    process_create-Made 64 no_processes space 100 200 0x600000 0x604000 [] refl refl (omega arith)
