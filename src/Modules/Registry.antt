-- ===== src/Modules/Registry.antt =====
-- What registering and unregistering keep.
use dionnex.Base.{
  ◌+◌, ◌-◌, ◌^◌, ◌≡◌, refl, ap, ◌⊎◌, inl, inr, false, Option, none, some, List, [], ◌∷◌, ◌==◌,
  length, arith, Bool-cases, Option-cases,
}
use dionnex.Base.Int.{ℤ, pos}
use dionnex.Strings.Number.{u32}
use dionnex.Ramfs.Names.{same_name_refl}
use dionnex.Modules.{
  start_module, init_of, Module, Modules, loaded, find_module, module_find, is_zero, link_module,
  module_register, take_out, module_unregister,
}

-- No module before another of its name.
abbrev pub Unique : List Module → Type 0
Unique [] = Unit
Unique (m ∷ chain) = (find_module chain m.name ≡ none) × Unique chain

abbrev pub AllLoaded : List Module → Type 0
AllLoaded [] = Unit
AllLoaded (m ∷ chain) = (m.state ≡ loaded) × AllLoaded chain

-- Every module is loaded and has a name of its own, and they are counted.
pub record IsRegistry (s : Modules) : Type 0 where
  pub unique : Unique s.chain
  pub all_loaded : AllLoaded s.chain
  pub count : s.module_count ≡ u32 (length s.chain)

-- A module that is new, and what unregistering it leaves.
pub record Entered (s : Modules) (m : Module) (r : Modules × ℤ) : Type 0 where
  pub result : r.1 ≡ pos 0
  pub chain : r.0.chain ≡ record m { state = loaded } ∷ s.chain
  pub registry : IsRegistry r.0
  pub back :
      ((module_unregister r.0 (some m.name)).0.chain ≡ s.chain)
      × ((module_unregister r.0 (some m.name)).0.module_count ≡ s.module_count)
      × ((module_unregister r.0 (some m.name)).1 ≡ pos 0)

-- The same modules, and an error.
pub record Refused (s : Modules) (r : Modules × ℤ) : Type 0 where
  pub result : is_zero r.1 ≡ false
  pub chain : r.0.chain ≡ s.chain
  pub count : r.0.module_count ≡ s.module_count

take_out_head : (m : Module) (chain : List Module) → take_out (m ∷ chain) m.name ≡ some (m, chain)
unfolding take_out
take_out_head m chain = rw (same_name_refl m.name) refl

link_module-Entered :
    (s t : Modules) (m : Module)
    → IsRegistry s
    → t.chain ≡ s.chain
    → t.module_count ≡ s.module_count
    → find_module s.chain m.name ≡ none
    → Entered s m (link_module t m, pos 0)
unfolding module_unregister
link_module-Entered s t m g chain count new =
    let size : u32 (u32 (length s.chain) + 1) ≡ u32 (length (m ∷ s.chain)) = omega arith in
    let down : u32 (u32 (u32 (length s.chain) + 1) + 2 ^ 32 - 1) ≡ u32 (length s.chain) =
      omega arith in
    record {
      result = refl;
      chain = ap (λ (c : List Module). record m { state = loaded } ∷ c) chain;
      registry = record {
        unique = rw chain (new, g.unique);
        all_loaded = rw chain (refl, g.all_loaded);
        count = rw (chain, count, g.count) size;
      };
      back =
          rw (take_out_head (record m { state = loaded }) t.chain, module_unregister)
            (chain, rw (count, g.count) down, refl);
    }

start_module-Entered :
    (s : Modules) (m : Module) (init : Option ℤ)
    → IsRegistry s
    → find_module s.chain m.name ≡ none
    → Refused s (start_module s m init) ⊎ Entered s m (start_module s m init)
unfolding start_module
start_module-Entered s m none g new = inr (link_module-Entered s s m g refl refl new)
start_module-Entered s m (some res) g new = elim (Bool-cases (is_zero res)) [
  | inl ok ↦ inr (
      rw ok
        (link_module-Entered s (record s { calls = init_of m.name ∷ s.calls }) m g refl refl new))
  | inr fails ↦ inl (rw fails (record { result = fails; chain = refl; count = refl }))
]

-- From a registry, `module_register` of a module either returns an error and keeps the modules, or
-- returns 0: the module is then at the head, loaded, the modules are a registry again, and
-- `module_unregister` of its name returns 0 and gives the modules back.
pub module_register-Entered :
    (s : Modules) (m : Module)
    → IsRegistry s
    → Refused s (module_register s (some m)) ⊎ Entered s m (module_register s (some m))
unfolding module_register module_find
module_register-Entered s m g = elim (Bool-cases (length m.name == 0)) [
  | inl empty ↦ inl (rw empty (record { result = refl; chain = refl; count = refl }))
  | inr named ↦ elim (Option-cases (find_module s.chain m.name)) [
    | inr (other, there) ↦ inl (
        rw named
          (rw (there, module_register) (record { result = refl; chain = refl; count = refl })))
    | inl new ↦ rw named (rw (new, module_register) (start_module-Entered s m m.init g new))
  ]
]
