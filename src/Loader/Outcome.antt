-- ===== src/Loader/Outcome.antt =====
-- What loading does to the list of modules, on every path, and unloading after it.
use dionnex.Base.{
  ℕ, ◌+◌, ◌/◌, leb, ◌≤◌, ◌≡◌, ◌≢◌, refl, ◌⊎◌, inl, inr, ◌||◌, Bool, true, false, not, Option, none,
  some, List, [], ◌∷◌, ◌==◌, if◌then◌else◌, length, arith, Bool-cases, Option-cases, take_all,
}
use dionnex.Base.Int.{ℤ, pos, negsuc}
use dionnex.Machine.{Memory, set_bytes}
use dionnex.Strings.Number.{u32}
use dionnex.Object.{
  e_shnum, section_headers, section, sh_offset, sh_size, sh_link, module_validate_elf,
  copy_sections, find_symtab, define_symbols, resolve_symbols, apply_relocations, find_functions,
}
use dionnex.Ramfs.{same_name}
use dionnex.Ramfs.Names.{same_name_refl}
use dionnex.Loader.{
  LoadedModule, kfree_of, code_at, Loader, KernelSymbol, is_loaded, started, module_resolve_symbol,
  link_symbols, link_object, load_size, register_loaded, load_valid, module_load_binary, detach,
  call_code, module_unload_binary,
}

-- No two modules of a name.
abbrev pub Unique : List LoadedModule → Type 0
Unique [] = Unit
Unique (m ∷ rest) = (is_loaded rest m.name ≡ false) × Unique rest

-- A structure and a block for every module, which counts as loaded.
abbrev pub AllSound : List LoadedModule → Type 0
AllSound [] = Unit
AllSound (m ∷ rest) =
    (m.self ≢ 0) × (m.base_addr ≢ 0) × (m.loaded ≡ 1) × (length m.name ≤ 63) × AllSound rest

pub record IsLoader (s : Loader) : Type 0 where
  pub unique : Unique s.module_list
  pub sound : AllSound s.module_list

-- An error: nothing has changed, or the block has been freed and the modules are the same.
pub record LoadRefused (s : Loader) (base : ℕ) (r : Loader × ℤ) : Type 0 where
  pub result : r.1 ≡ negsuc 0
  pub module_list : r.0.module_list ≡ s.module_list
  pub calls : (r.0 ≡ s) ⊎ ((base ≢ 0) × (r.0.calls ≡ kfree_of base ∷ s.calls))

-- The module is at the head, its start has been called, and unloading it calls its end, frees its
-- block and its structure, and gives the modules back.
pub record Loaded (s : Loader) (name : List ℕ) (base node : ℕ) (r : Loader × ℤ) : Type 0 where
  pub result : r.1 ≡ pos 0
  pub entry : LoadedModule
  pub entry_name : entry.name ≡ name
  pub entry_block : entry.base_addr ≡ base
  pub start : (entry.init_func ≢ 0) × (r.0.calls ≡ code_at entry.init_func ∷ s.calls)
  pub module_list : r.0.module_list ≡ entry ∷ s.module_list
  pub loader : IsLoader r.0
  pub back :
      ((module_unload_binary r.0 (some name)).1 ≡ pos 0)
      × ((module_unload_binary r.0 (some name)).0.module_list ≡ s.module_list)
      × ((module_unload_binary r.0 (some name)).0.calls
          ≡ kfree_of node ∷ (kfree_of base ∷ call_code entry.cleanup_func r.0.calls))

-- What is linked has a start.
abbrev HasStart : Memory × Option (ℕ × ℕ) → Type 0
HasStart r = (r.1 ≡ none) ⊎ ((init : ℕ) × (cleanup : ℕ) × (r.1 ≡ some (init, cleanup)) × (init ≢ 0))

if-HasStart :
    (b : Bool) (x y : Memory × Option (ℕ × ℕ))
    → HasStart x
    → HasStart y
    → HasStart (if b then x else y)
if-HasStart true x y h k = h
if-HasStart false x y h k = k

started-HasStart : (mem : Memory) (functions : ℕ × ℕ) → HasStart (started mem functions)
started-HasStart mem functions = elim (Bool-cases (functions.0 == 0)) [
  | inl nothing ↦ rw nothing (inl refl)
  | inr there ↦
      rw there (inr (functions.0, functions.1, refl, λ z. absurd (ground (arith, there, z))))
]

link_symbols-HasStart :
    (symbols : List KernelSymbol) (mem : Memory) (file shnum symtab : ℕ)
    → HasStart (link_symbols symbols mem file shnum symtab)
link_symbols-HasStart symbols mem file shnum symtab =
    let shdrs = section_headers mem file in
    let syms = u32 (file + sh_offset mem symtab) in
    let strtab = u32 (file + sh_offset mem (section shdrs (sh_link mem symtab))) in
    let sym_count = sh_size mem symtab / 16 in
    let defined = define_symbols sym_count mem shdrs shnum syms 0 in
    let r = resolve_symbols (module_resolve_symbol symbols) sym_count defined strtab syms 0 in
    let relocated = apply_relocations shnum r.0 file shdrs shnum syms sym_count 0 in
    if-HasStart (not r.1) (r.0, none)
      (started relocated (find_functions sym_count relocated strtab syms 0 0 0)) (inl refl)
      (started-HasStart relocated (find_functions sym_count relocated strtab syms 0 0 0))

link_object-HasStart :
    (symbols : List KernelSymbol) (mem : Memory) (file base size : ℕ)
    → HasStart (link_object symbols mem file base size)
unfolding link_object
link_object-HasStart symbols mem file base size =
    let shnum = e_shnum mem file in
    let shdrs = section_headers mem file in
    let copied = (copy_sections shnum (set_bytes mem base 0 size) file shdrs base 0 0).0 in
    elim (Option-cases (find_symtab shnum copied shdrs 0)) [
      | inl nothing ↦ rw (nothing, link_object) (inl refl)
      | inr (symtab, found) ↦
          rw (found, link_object)
            (if-HasStart (leb shnum (sh_link copied symtab)) (copied, none)
              (link_symbols symbols copied file shnum symtab) (inl refl)
              (link_symbols-HasStart symbols copied file shnum symtab))
    ]

abbrev module_of : List ℕ → ℕ → ℕ → ℕ → ℕ → ℕ → LoadedModule
module_of name base node size init cleanup = record {
  self = node;
  name = name;
  version = 1;
  loaded = 1;
  base_addr = base;
  total_size = size;
  init_func = init;
  cleanup_func = cleanup;
}

module _ (s : Loader) (name : List ℕ) (base node : ℕ) where
  enter :
      (mem : Memory) (size init cleanup : ℕ)
      → IsLoader s
      → length name ≤ 63
      → base ≢ 0
      → node ≢ 0
      → init ≢ 0
      → is_loaded s.module_list name ≡ false
      → Loaded s name base node (
        record s {
          mem = mem;
          module_list = module_of name base node size init cleanup ∷ s.module_list;
          calls = code_at init ∷ s.calls;
        },
        pos 0,
      )
  unfolding module_unload_binary detach same_name
  enter mem size init cleanup g short some_base some_node some_init new =
      let there : (base == 0) ≡ false = ground (arith, some_base) in
      record {
        result = refl;
        entry = module_of name base node size init cleanup;
        entry_name = refl;
        entry_block = refl;
        start = (some_init, refl);
        module_list = refl;
        loader = record {
          unique = (new, g.unique);
          sound = (some_node, some_base, refl, short, g.sound);
        };
        back = rw (same_name_refl name, there) (refl, refl, refl);
      }

  registered :
      (mem : Memory) (size : ℕ) (functions : Option (ℕ × ℕ))
      → IsLoader s
      → length name ≤ 63
      → base ≢ 0
      → is_loaded s.module_list name ≡ false
      → (functions ≡ none)
        ⊎ ((init : ℕ) × (cleanup : ℕ) × (functions ≡ some (init, cleanup)) × (init ≢ 0))
      → LoadRefused s base (register_loaded (record s { mem = mem }) name base node size functions)
        ⊎ Loaded s name base node
            (register_loaded (record s { mem = mem }) name base node size functions)
  unfolding register_loaded
  registered mem size functions g short some_base new (inl fails) =
      inl (rw fails (record { result = refl; module_list = refl; calls = inr (some_base, refl) }))
  registered mem size functions g short some_base new (inr (init, cleanup, e, some_init)) =
      elim (Bool-cases (node == 0)) [
        | inl lost ↦ inl (
            rw (e, lost)
              (record { result = refl; module_list = refl; calls = inr (some_base, refl) }))
        | inr there ↦ inr (
            rw (e, there, take_all 63 name short)
              (enter mem size init cleanup g short some_base
                (λ z. absurd (ground (arith, there, z))) some_init new))
      ]

  valid :
      (symbols : List KernelSymbol) (file : ℕ) (verdict : ℤ)
      → IsLoader s
      → length name ≤ 63
      → is_loaded s.module_list name ≡ false
      → LoadRefused s base (load_valid symbols s name file base node verdict)
        ⊎ Loaded s name base node (load_valid symbols s name file base node verdict)
  unfolding load_valid
  valid symbols file (negsuc n) g short new =
      inl (record { result = refl; module_list = refl; calls = inl refl })
  valid symbols file (pos n) g short new = elim (Bool-cases (base == 0)) [
    | inl lost ↦ inl (rw lost (record { result = refl; module_list = refl; calls = inl refl }))
    | inr there ↦ rw there (
        registered (link_object symbols s.mem file base (load_size s.mem file)).0
          (load_size s.mem file) (link_object symbols s.mem file base (load_size s.mem file)).1 g
          short (λ z. absurd (ground (arith, there, z))) new
          (link_object-HasStart symbols s.mem file base (load_size s.mem file)))
  ]

-- From modules with names of their own, `module_load_binary` of a name of at most 63 characters
-- either returns -1, keeps the modules, and frees the block that it has if it has touched anything;
-- or it returns 0, the module is at the head, its start has been called, the names are still apart,
-- and `module_unload_binary` of the name returns 0, calls the module's end, frees both blocks and
-- gives the modules back.
pub module_load_binary-Loaded :
    (symbols : List KernelSymbol) (s : Loader) (name : List ℕ) (file size base node : ℕ)
    → IsLoader s
    → length name ≤ 63
    → LoadRefused s base (module_load_binary symbols s (some name) file size base node)
      ⊎ Loaded s name base node (module_load_binary symbols s (some name) file size base node)
unfolding module_load_binary
module_load_binary-Loaded symbols s name file size base node g short =
    elim (Bool-cases (file == 0 || size == 0)) [
      | inl nothing ↦
          inl (rw nothing (record { result = refl; module_list = refl; calls = inl refl }))
      | inr input ↦ elim (Bool-cases (is_loaded s.module_list name)) [
        | inl again ↦
            inl (rw (input, again) (record { result = refl; module_list = refl; calls = inl refl }))
        | inr new ↦
            rw (input, new)
              (valid s name base node symbols file (module_validate_elf s.mem file size) g short
                new)
      ]
    ]
