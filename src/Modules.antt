-- ===== src/Modules.antt =====
-- kernel/module.c: the list of modules, its head first. `init` and `cleanup` are code of the
-- modules: what the first returns is a field, and the calls are recorded, the last one first. What
-- `kmalloc` returns is an argument.
pub mod Registry
use dionnex.Base.{
  ℕ, zero, suc, ◌+◌, ◌-◌, ◌^◌, ◌&&◌, Bool, true, false, Option, none, some, List, [], ◌∷◌,
  if◌then◌else◌, ltb, ◌==◌, length,
}
use dionnex.Base.Int.{ℤ, pos, negsuc}
use dionnex.Strings.Number.{u32}
use dionnex.Ramfs.{same_name}

-- `module_t`; a function pointer of NULL is none, or false.
pub record Module : Type 0 where
  pub name : List ℕ
  pub init : Option ℤ
  pub cleanup : Bool
  pub state : ℕ

pub data Call : Type 0 where
  init_of : List ℕ → Call
  cleanup_of : List ℕ → Call

-- The file's two static variables, and the calls.
pub record Modules : Type 0 where
  pub chain : List Module
  pub module_count : ℕ
  pub calls : List Call

-- MODULE_STATE_UNLOADED and MODULE_STATE_LOADED
abbrev pub unloaded : ℕ
unloaded = 0

abbrev pub loaded : ℕ
loaded = 1

pub module_init_subsystem : Modules → Modules
module_init_subsystem s = record s { chain = []; module_count = 0 }

unfoldable pub find_module : List Module → List ℕ → Option Module
find_module [] name = none
find_module (m ∷ chain) name =
    let rest = find_module chain name in if same_name m.name name then some m else rest

pub module_find : Modules → Option (List ℕ) → Option Module
unfolding find_module
module_find s none = none
module_find s (some name) = find_module s.chain name

-- Once `init` has returned 0, or there is none.
abbrev pub link_module : Modules → Module → Modules
link_module s m = record s {
  chain = record m { state = loaded } ∷ s.chain;
  module_count = u32 (s.module_count + 1);
}

abbrev pub is_zero : ℤ → Bool
is_zero (pos n) = n == 0
is_zero (negsuc n) = false

-- The call of `init`, whose result is given, and what follows.
pub start_module : Modules → Module → Option ℤ → Modules × ℤ
start_module s m none = (link_module s m, pos 0)
start_module s m (some res) =
    let called = record s { calls = init_of m.name ∷ s.calls } in
    if is_zero res then (link_module called m, pos 0) else (called, res)

-- A module of an empty name fails; so does one whose name is there.
pub module_register : Modules → Option Module → Modules × ℤ
module_register s none = (s, negsuc 0)
module_register s (some m) =
    if length m.name == 0 then (s, negsuc 0) else elim (module_find s (some m.name)) [
      | some other ↦ (s, negsuc 0)
      | none ↦ start_module s m m.init
    ]

-- The walk of `module_unregister`: the module of the name, and the list without it.
pub take_out : List Module → List ℕ → Option (Module × List Module)
take_out [] name = none
take_out (m ∷ chain) name =
    let rest : Option (Module × List Module) = elim (take_out chain name) [
      | none ↦ none
      | some (found, left) ↦ some (found, m ∷ left)
    ] in
    if same_name m.name name then some (m, chain) else rest

pub module_unregister : Modules → Option (List ℕ) → Modules × ℤ
module_unregister s none = (s, negsuc 0)
module_unregister s (some name) = elim (take_out s.chain name) [
  | none ↦ (s, negsuc 0)
  | some (m, left) ↦ (
    record {
      chain = left;
      module_count = u32 (s.module_count + 2 ^ 32 - 1);
      calls = if m.cleanup then cleanup_of m.name ∷ s.calls else s.calls;
    },
    pos 0,
  )
]

-- sizeof(module_t)
abbrev pub module_size : ℕ
module_size = 160

-- `image` is the module that the first bytes of `data` are, none a NULL `data`; `at` is what
-- `kmalloc` returns.
pub module_load_from_memory : Modules → Option Module → ℕ → ℕ → Modules × ℤ
module_load_from_memory s none size at = (s, negsuc 0)
module_load_from_memory s (some image) size at =
    if ltb size module_size
    then (s, negsuc 0)
    else if at == 0
    then (s, negsuc 0)
    else module_register s (some image)
