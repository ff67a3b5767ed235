-- ===== src/Loader.antt =====
-- kernel/module_loader.c: the loaded modules, the head of their list first, and the memory with the
-- object file. What `kmalloc` returns is an argument; the calls of `kfree` and of code of a module
-- are recorded, the last one first. `module_resolve_symbol` of kernel/module_symbols.c searches a
-- table whose addresses the linker gives, so the table is a parameter.
pub mod Outcome
pub mod Unload
pub mod Info
use dionnex.Base.{
  ℕ, zero, suc, ◌+◌, ◌-◌, ◌*◌, ◌/◌, ◌^◌, ◌&&◌, ◌||◌, Bool, true, false, not, Option, none, some,
  List, [], ◌∷◌, ◌++◌, if◌then◌else◌, ltb, leb, ◌==◌, take, replicate, length, ◌>>=◌,
}
use dionnex.Base.Int.{ℤ, pos, negsuc}
use dionnex.Machine.{Memory, set_bytes, is_string}
use dionnex.Object.{
  e_shnum, section_headers, section, sh_offset, sh_size, sh_link, module_validate_elf,
  module_calc_size, copy_sections, find_symtab, define_symbols, resolve_symbols, apply_relocations,
  find_functions,
}
use dionnex.Ramfs.{same_name}
use dionnex.Strings.Number.{u32, utoa}
use dionnex.Strings.Text.Content.{text_of}

-- `kernel_module_t`, with its address; a function is its address, or 0.
pub record LoadedModule : Type 0 where
  pub self : ℕ
  pub name : List ℕ
  pub version : ℕ
  pub loaded : ℕ
  pub base_addr : ℕ
  pub total_size : ℕ
  pub init_func : ℕ
  pub cleanup_func : ℕ

pub data LoaderCall : Type 0 where
  kfree_of : ℕ → LoaderCall
  code_at : ℕ → LoaderCall

pub record Loader : Type 0 where
  pub mem : Memory
  pub module_list : List LoadedModule
  pub calls : List LoaderCall

pub module_loader_init : Loader → Loader
module_loader_init s = record s { module_list = [] }

-- `kernel_symbol_t`
pub record KernelSymbol : Type 0 where
  pub name : List ℕ
  pub addr : ℕ

-- The address for the string at `name`, or -1.
pub module_resolve_symbol : List KernelSymbol → Memory → ℕ → Option ℕ
module_resolve_symbol [] mem name = none
module_resolve_symbol (k ∷ symbols) mem name =
    let rest = module_resolve_symbol symbols mem name in
    if is_string mem name k.name then some k.addr else rest

unfoldable pub is_loaded : List LoadedModule → List ℕ → Bool
is_loaded [] name = false
is_loaded (m ∷ rest) name = same_name m.name name || is_loaded rest name

-- With `init_func` and `cleanup_func`.
abbrev pub started : Memory → ℕ × ℕ → Memory × Option (ℕ × ℕ)
started mem functions = if functions.0 == 0 then (mem, none) else (mem, some functions)

-- From the symbol table on: the memory, and `init_func` and `cleanup_func` if there is no error.
abbrev pub link_symbols : List KernelSymbol → Memory → ℕ → ℕ → ℕ → Memory × Option (ℕ × ℕ)
link_symbols symbols mem file shnum symtab =
    let shdrs = section_headers mem file in
    let syms = u32 (file + sh_offset mem symtab) in
    let strtab = u32 (file + sh_offset mem (section shdrs (sh_link mem symtab))) in
    let sym_count = sh_size mem symtab / 16 in
    let defined = define_symbols sym_count mem shdrs shnum syms 0 in
    let (resolved, all) =
      resolve_symbols (module_resolve_symbol symbols) sym_count defined strtab syms 0 in
    if not all
    then (resolved, none)
    else let relocated = apply_relocations shnum resolved file shdrs shnum syms sym_count 0 in
      started relocated (find_functions sym_count relocated strtab syms 0 0 0)

-- The object file at `file`, loaded to `base`.
pub link_object : List KernelSymbol → Memory → ℕ → ℕ → ℕ → Memory × Option (ℕ × ℕ)
link_object symbols mem file base total_size =
    let shnum = e_shnum mem file in
    let shdrs = section_headers mem file in
    let cleared = set_bytes mem base 0 total_size in
    let copied = (copy_sections shnum cleared file shdrs base 0 0).0 in
    elim (find_symtab shnum copied shdrs 0) [
      | none ↦ (copied, none)
      | some symtab ↦
          if leb shnum (sh_link copied symtab)
          then (copied, none)
          else link_symbols symbols copied file shnum symtab
    ]

-- `total_size`, of which 0 counts as 1024.
abbrev pub load_size : Memory → ℕ → ℕ
load_size mem file =
    let total_size = module_calc_size mem file in if total_size == 0 then 1024 else total_size

abbrev pub give_back : Loader → ℕ → Loader
give_back s a = record s { calls = kfree_of a ∷ s.calls }

-- From `if (!init_func)` on, with what linking gave and the second `kmalloc`.
pub register_loaded : Loader → List ℕ → ℕ → ℕ → ℕ → Option (ℕ × ℕ) → Loader × ℤ
register_loaded s name base node total_size none = (give_back s base, negsuc 0)
register_loaded s name base node total_size (some (init_func, cleanup_func)) =
    if node == 0
    then (give_back s base, negsuc 0)
    else let m : LoadedModule = record {
      self = node;
      name = take 63 name;
      version = 1;
      loaded = 1;
      base_addr = base;
      total_size = total_size;
      init_func = init_func;
      cleanup_func = cleanup_func;
    } in
      (record s { module_list = m ∷ s.module_list; calls = code_at init_func ∷ s.calls }, pos 0)

-- With the verdict of `module_validate_elf`, and the first `kmalloc`.
pub load_valid : List KernelSymbol → Loader → List ℕ → ℕ → ℕ → ℕ → ℤ → Loader × ℤ
load_valid symbols s name file base node (negsuc n) = (s, negsuc 0)
load_valid symbols s name file base node (pos n) =
    if base == 0
    then (s, negsuc 0)
    else let total_size = load_size s.mem file in
      let (mem, functions) = link_object symbols s.mem file base total_size in
      register_loaded (record s { mem = mem }) name base node total_size functions

-- `base` and `node` are what the two calls of `kmalloc` return.
pub module_load_binary : List KernelSymbol → Loader → Option (List ℕ) → ℕ → ℕ → ℕ → ℕ → Loader × ℤ
module_load_binary symbols s none file size base node = (s, negsuc 0)
module_load_binary symbols s (some name) file size base node =
    if file == 0 || size == 0
    then (s, negsuc 0)
    else if is_loaded s.module_list name
    then (s, negsuc 0)
    else load_valid symbols s name file base node (module_validate_elf s.mem file size)

-- The first module of the name, and the list without it.
unfoldable pub detach : List LoadedModule → List ℕ → Option (LoadedModule × List LoadedModule)
detach [] name = none
detach (m ∷ rest) name =
    let later = detach rest name in
    if same_name m.name name
    then some (m, rest)
    else do (found, others) ← later; some (found, m ∷ others)

abbrev pub call_code : ℕ → List LoaderCall → List LoaderCall
call_code f calls = if f == 0 then calls else code_at f ∷ calls

pub module_unload_binary : Loader → Option (List ℕ) → Loader × ℤ
module_unload_binary s none = (s, negsuc 0)
module_unload_binary s (some name) = elim (detach s.module_list name) [
  | none ↦ (s, negsuc 0)
  | some (m, others) ↦
      let cleaned = call_code m.cleanup_func s.calls in
      let freed = if m.base_addr == 0 then cleaned else kfree_of m.base_addr ∷ cleaned in
      (record s { module_list = others; calls = kfree_of m.self ∷ freed }, pos 0)
]

unfoldable pub count_loaded : List LoadedModule → ℕ → ℕ
count_loaded [] count = count
count_loaded (m ∷ rest) count = count_loaded rest (if m.loaded == 0 then count else u32 (count + 1))

pub module_get_loaded_count : Loader → ℕ
module_get_loaded_count s = count_loaded s.module_list 0

-- " 0 - Live 0x"
abbrev pub live_text : List ℕ
live_text =
    b' '
    ∷ (b'0'
        ∷ (b' '
            ∷ (b'-' ∷ (b' ' ∷ (b'L' ∷ (b'i' ∷ (b'v' ∷ (b'e' ∷ (b' ' ∷ (b'0' ∷ (b'x' ∷ [])))))))))))

-- `utoa(value, tmp, base)`, as a text.
pub number_text : ℕ → ℕ → Option (List ℕ)
number_text value base = do tmp ← utoa value (replicate 64 0) base; text_of tmp

-- What a round of `module_get_proc_info` appends.
pub info_line : LoadedModule → Option (List ℕ)
unfolding number_text
info_line m = do
  size_text ← number_text m.total_size 10
  base_text ← number_text m.base_addr 16
  some (m.name ++ ((b' ' ∷ []) ++ (size_text ++ (live_text ++ (base_text ++ (0x0a ∷ []))))))

-- The loop of `module_get_proc_info`: the text in `buf`.
pub info_from : List LoadedModule → List ℕ → ℕ → Option (List ℕ)
unfolding info_line
info_from [] buf max_len = some buf
info_from (m ∷ rest) buf max_len =
    if ltb (length buf) (u32 (max_len + 2 ^ 32 - 128))
    then (do line ← info_line m; info_from rest (buf ++ line) max_len)
    else some buf

-- The text that it leaves in a buffer; its result is the length.
pub module_get_proc_info : Loader → ℕ → Option (List ℕ)
module_get_proc_info s max_len =
    if max_len == 0 then some [] else info_from s.module_list [] max_len
