-- ===== src/Object.antt =====
-- kernel/module_loader.c, `module_validate_elf`, `module_calc_size` and the loops of
-- `module_load_binary` over the sections, the symbols and the relocations of an object file that
-- lies in memory. The offsets are those of the structures of kernel/module_loader.h. `e_shnum` is
-- read once, where the code reads it again in each round.
pub mod Sizes
pub mod Copies
pub mod Relocate
use dionnex.Base.{
  ℕ, zero, suc, ◌+◌, ◌-◌, ◌*◌, ◌/◌, ◌%◌, ◌^◌, ◌&&◌, ◌||◌, Bool, true, false, not, Option, none,
  some, List, [], ◌∷◌, if◌then◌else◌, ltb, leb, ◌==◌,
}
use dionnex.Base.Int.{ℤ, pos, negsuc}
use dionnex.Machine.{
  Memory, half, word, set_byte, set_half, set_word, set_bytes, copy_bytes, is_string,
}
use dionnex.Strings.Number.{u32}

-- `hdr->e_type`, `hdr->e_shoff` and `hdr->e_shnum`
abbrev pub e_type : Memory → ℕ → ℕ
e_type mem hdr = half mem (u32 (hdr + 16))

abbrev pub e_shoff : Memory → ℕ → ℕ
e_shoff mem hdr = word mem (u32 (hdr + 32))

abbrev pub e_shnum : Memory → ℕ → ℕ
e_shnum mem hdr = half mem (u32 (hdr + 48))

abbrev pub section_headers : Memory → ℕ → ℕ
section_headers mem file = u32 (file + e_shoff mem file)

-- `&shdrs[i]`
abbrev pub section : ℕ → ℕ → ℕ
section shdrs i = u32 (shdrs + 40 * i)

abbrev pub sh_type : Memory → ℕ → ℕ
sh_type mem s = word mem (u32 (s + 4))

abbrev pub sh_addr : Memory → ℕ → ℕ
sh_addr mem s = word mem (u32 (s + 12))

abbrev pub sh_offset : Memory → ℕ → ℕ
sh_offset mem s = word mem (u32 (s + 16))

abbrev pub sh_size : Memory → ℕ → ℕ
sh_size mem s = word mem (u32 (s + 20))

abbrev pub sh_link : Memory → ℕ → ℕ
sh_link mem s = word mem (u32 (s + 24))

abbrev pub sh_info : Memory → ℕ → ℕ
sh_info mem s = word mem (u32 (s + 28))

-- `sh_flags & SHF_ALLOC`
abbrev pub is_alloc : Memory → ℕ → Bool
is_alloc mem s = not (word mem (u32 (s + 8)) / 2 % 2 == 0)

-- `(size + 3) & ~3`
abbrev pub word_aligned : ℕ → ℕ
word_aligned size = u32 (size + 3) / 4 * 4

pub module_validate_elf : Memory → ℕ → ℕ → ℤ
module_validate_elf mem file size =
    if file == 0 || ltb size 52
    then negsuc 0
    else if not (mem file == 0x7f)
        || not (mem (u32 (file + 1)) == b'E')
        || not (mem (u32 (file + 2)) == b'L')
        || not (mem (u32 (file + 3)) == b'F')
    then negsuc 0
    else if not (mem (u32 (file + 4)) == 1) || not (mem (u32 (file + 5)) == 1)
    then negsuc 0
    else if not (e_type mem file == 1)
    then negsuc 0
    else if e_shoff mem file == 0 || e_shnum mem file == 0
    then negsuc 0
    else pos 0

-- The loop of `module_calc_size`, with the rounds that are left.
pub calc_from : ℕ → Memory → ℕ → ℕ → ℕ → ℕ
calc_from zero mem shdrs i total_size = total_size
calc_from (suc n) mem shdrs i total_size =
    let s = section shdrs i in
    calc_from n mem shdrs (i + 1)
      (if is_alloc mem s then u32 (total_size + word_aligned (sh_size mem s)) else total_size)

pub module_calc_size : Memory → ℕ → ℕ
module_calc_size mem file = calc_from (e_shnum mem file) mem (section_headers mem file) 0 0

-- What a round does with an allocated section: its new address, and its bytes.
abbrev pub place_section : Memory → ℕ → ℕ → ℕ → Memory
place_section mem file s addr =
    let moved = set_word mem (u32 (s + 12)) addr in
    if sh_type moved s == 8
    then set_bytes moved addr 0 (sh_size moved s)
    else if ltb 0 (sh_size moved s)
    then copy_bytes moved addr (u32 (file + sh_offset moved s)) (sh_size moved s)
    else moved

-- The loop that copies the allocated sections, with the rounds that are left; also the last
-- `current_offset`.
pub copy_sections : ℕ → Memory → ℕ → ℕ → ℕ → ℕ → ℕ → Memory × ℕ
copy_sections zero mem file shdrs base i current_offset = (mem, current_offset)
copy_sections (suc n) mem file shdrs base i current_offset =
    let s = section shdrs i in
    let placed =
      if is_alloc mem s then place_section mem file s (u32 (base + current_offset)) else mem in
    copy_sections n placed file shdrs base (i + 1) (
      if is_alloc mem s
      then u32 (current_offset + word_aligned (sh_size placed s))
      else current_offset)

-- The first section of type SHT_SYMTAB.
pub find_symtab : ℕ → Memory → ℕ → ℕ → Option ℕ
find_symtab zero mem shdrs i = none
find_symtab (suc n) mem shdrs i =
    let rest = find_symtab n mem shdrs (i + 1) in
    if sh_type mem (section shdrs i) == 2 then some (section shdrs i) else rest

-- `&syms[i]`
abbrev pub symbol : ℕ → ℕ → ℕ
symbol syms i = u32 (syms + 16 * i)

abbrev pub st_value : Memory → ℕ → ℕ
st_value mem s = word mem (u32 (s + 4))

abbrev pub st_shndx : Memory → ℕ → ℕ
st_shndx mem s = half mem (u32 (s + 14))

-- The first pass over the symbols, those that a section defines.
pub define_symbols : ℕ → Memory → ℕ → ℕ → ℕ → ℕ → Memory
define_symbols zero mem shdrs shnum syms i = mem
define_symbols (suc n) mem shdrs shnum syms i =
    let s = symbol syms i in
    let shndx = st_shndx mem s in
    define_symbols n
      (if not (shndx == 0) && ltb shndx shnum
        then set_word mem (u32 (s + 4)) (u32 (sh_addr mem (section shdrs shndx) + st_value mem s))
        else mem)
      shdrs shnum syms (i + 1)

-- The second pass; false at a symbol that `module_resolve_symbol` does not know.
pub resolve_symbols : (Memory → ℕ → Option ℕ) → ℕ → Memory → ℕ → ℕ → ℕ → Memory × Bool
resolve_symbols lookup zero mem strtab syms i = (mem, true)
resolve_symbols lookup (suc n) mem strtab syms i =
    let s = symbol syms i in
    let st_name = word mem s in
    let skip = resolve_symbols lookup n mem strtab syms (i + 1) in
    if st_shndx mem s == 0 && not (st_name == 0)
    then elim (lookup mem (u32 (strtab + st_name))) [
      | none ↦ (mem, false)
      | some resolved_addr ↦
          resolve_symbols lookup n (set_word mem (u32 (s + 4)) resolved_addr) strtab syms (i + 1)
    ]
    else skip

-- The types R_386_32, R_386_PC32, R_386_16 and R_386_8 of a relocation at P for a symbol S.
pub relocate : Memory → ℕ → ℕ → ℕ → Memory
relocate mem type s p =
    if type == 1
    then set_word mem p (u32 (word mem p + s))
    else if type == 2
    then set_word mem p (u32 (word mem p + u32 (s + 2 ^ 32 - p)))
    else if type == 4
    then set_half mem p ((half mem p + s % 65536) % 65536)
    else if type == 5
    then set_byte mem p ((mem p + s % 256) % 256)
    else mem

-- The relocations of one section.
pub apply_section : ℕ → Memory → ℕ → ℕ → ℕ → ℕ → ℕ → Memory
apply_section zero mem rels target_base syms sym_count r = mem
apply_section (suc n) mem rels target_base syms sym_count r =
    let rel = u32 (rels + 8 * r) in
    let r_info = word mem (u32 (rel + 4)) in
    let sym_idx = r_info / 256 in
    apply_section n
      (if leb sym_count sym_idx
        then mem
        else relocate mem (r_info % 256) (st_value mem (symbol syms sym_idx))
            (u32 (target_base + word mem rel)))
      rels target_base syms sym_count (r + 1)

-- Those of all sections of type SHT_REL.
pub apply_relocations : ℕ → Memory → ℕ → ℕ → ℕ → ℕ → ℕ → ℕ → Memory
unfolding apply_section
apply_relocations zero mem file shdrs shnum syms sym_count i = mem
apply_relocations (suc n) mem file shdrs shnum syms sym_count i =
    let s = section shdrs i in
    apply_relocations n
      (if sh_type mem s == 9 && ltb (sh_info mem s) shnum
        then apply_section (sh_size mem s / 8) mem (u32 (file + sh_offset mem s))
            (sh_addr mem (section shdrs (sh_info mem s))) syms sym_count 0
        else mem)
      file shdrs shnum syms sym_count (i + 1)

abbrev pub module_init_name : List ℕ
module_init_name =
    b'm'
    ∷ (b'o' ∷ (b'd' ∷ (b'u' ∷ (b'l' ∷ (b'e' ∷ (b'_' ∷ (b'i' ∷ (b'n' ∷ (b'i' ∷ (b't' ∷ []))))))))))

abbrev pub module_cleanup_name : List ℕ
module_cleanup_name =
    b'm'
    ∷ (b'o'
        ∷ (b'd'
            ∷ (b'u'
                ∷ (b'l'
                    ∷ (b'e'
                        ∷ (b'_'
                            ∷ (b'c'
                                ∷ (b'l' ∷ (b'e' ∷ (b'a' ∷ (b'n' ∷ (b'u' ∷ (b'p' ∷ [])))))))))))))

-- `init_func` and `cleanup_func`: the last symbols of these names, or 0.
pub find_functions : ℕ → Memory → ℕ → ℕ → ℕ → ℕ → ℕ → ℕ × ℕ
find_functions zero mem strtab syms i init_func cleanup_func = (init_func, cleanup_func)
find_functions (suc n) mem strtab syms i init_func cleanup_func =
    let s = symbol syms i in
    let named = not (word mem s == 0) in
    let sym_name = u32 (strtab + word mem s) in
    let is_init = is_string mem sym_name module_init_name in
    let is_cleanup = is_string mem sym_name module_cleanup_name in
    find_functions n mem strtab syms (i + 1)
      (if named && is_init then st_value mem s else init_func)
      (if named && not is_init && is_cleanup then st_value mem s else cleanup_func)
