-- ===== src/Loader/Unload.antt =====
-- What unloading does to the list of modules.
use dionnex.Base.{
  ℕ, suc, ◌+◌, ◌^◌, ◌<◌, ◌≡◌, refl, ap, ◌⊎◌, inl, inr, true, false, none, some, List, [], ◌∷◌,
  if◌then◌else◌, length, arith, Bool-cases, ◌∙◌,
}
use dionnex.Base.Int.{pos, negsuc}
use dionnex.Ramfs.{same_name}
use dionnex.Ramfs.Names.{same_name_eq}
use dionnex.Strings.Number.{u32}
use dionnex.Loader.{
  LoadedModule, Loader, is_loaded, detach, module_unload_binary, count_loaded,
  module_get_loaded_count,
}
use dionnex.Loader.Outcome.{Unique, AllSound, IsLoader}

-- What is left of the modules without one.
record Rest (list : List LoadedModule) (name : List ℕ) (others : List LoadedModule) : Type 0 where
  there : is_loaded list name ≡ true
  gone : is_loaded others name ≡ false
  fewer : (wanted : List ℕ) → is_loaded list wanted ≡ false → is_loaded others wanted ≡ false
  unique : Unique others
  sound : AllSound list → AllSound others
  one : length list ≡ suc (length others)

more :
    (m : LoadedModule) (rest others : List LoadedModule) (wanted : List ℕ)
    → ((name : List ℕ) → is_loaded rest name ≡ false → is_loaded others name ≡ false)
    → is_loaded (m ∷ rest) wanted ≡ false
    → is_loaded (m ∷ others) wanted ≡ false
unfolding is_loaded
more m rest others wanted fewer h = elim (Bool-cases (same_name m.name wanted)) [
  | inl e ↦ absurd (ground (arith, e, h))
  | inr e ↦ rw e (fewer wanted (ground (arith, e, h)))
]

count_loaded-length :
    (list : List LoadedModule) (count : ℕ)
    → AllSound list
    → count < 2 ^ 32
    → count_loaded list count ≡ u32 (count + length list)
unfolding count_loaded
count_loaded-length [] count all small = omega (arith, small)
count_loaded-length (m ∷ rest) count all small =
    let more : u32 (count + 1) < 2 ^ 32 = omega arith in
    rw all.2 (count_loaded-length rest (u32 (count + 1)) all.4 more ∙ omega arith)

-- All are counted.
pub module_get_loaded_count-length :
    (s : Loader) → IsLoader s → module_get_loaded_count s ≡ u32 (length s.module_list)
unfolding module_get_loaded_count
module_get_loaded_count-length s g =
    let start : 0 + length s.module_list ≡ length s.module_list = omega arith in
    count_loaded-length s.module_list 0 g.sound (omega arith) ∙ ap u32 start

detach-Rest :
    (list : List LoadedModule) (name : List ℕ)
    → Unique list
    → ((detach list name ≡ none) × (is_loaded list name ≡ false))
      ⊎ ((m : LoadedModule) × (others : List LoadedModule) × (detach list name ≡ some (m, others))
          × Rest list name others)
unfolding detach is_loaded
detach-Rest [] name u = inl (refl, refl)
detach-Rest (m ∷ rest) name u = elim (Bool-cases (same_name m.name name)) [
  | inl e ↦
      let eq = same_name_eq m.name name e in
      inr (
        m,
        rest,
        rw e refl,
        record {
          there = rw e refl;
          gone = rw eq at u.0;
          fewer = λ wanted h. ground (arith, h);
          unique = u.1;
          sound = λ all. all.4;
          one = refl;
        },
      )
  | inr other ↦ elim (detach-Rest rest name u.1) [
    | inl (none_left, absent) ↦ inl (rw (none_left, other) refl, rw other absent)
    | inr (found, others, run, r) ↦ inr (
      found,
      m ∷ others,
      rw (run, other) refl,
      record {
        there = rw other r.there;
        gone = rw other r.gone;
        fewer = λ wanted h. more m rest others wanted r.fewer h;
        unique = (r.fewer m.name u.0, r.unique);
        sound = λ all. (all.0, all.1, all.2, all.3, r.sound all.4);
        one = ap suc r.one;
      },
    )
  ]
]

one_less : (n : ℕ) {a b : ℕ} → a ≡ u32 n → b ≡ u32 (suc n) → b ≡ u32 (a + 1)
one_less n e f = rw (e, f) (omega arith)

-- From modules with names of their own, `module_unload_binary` of a name returns 0 where a module
-- has the name and -1 where none has; then none has it, the names of the others are still apart,
-- and those loaded are one less than they were, or as many.
pub module_unload_binary-IsLoader :
    (s : Loader) (name : List ℕ)
    → IsLoader s
    → IsLoader (module_unload_binary s (some name)).0
      × (is_loaded (module_unload_binary s (some name)).0.module_list name ≡ false)
      × ((module_unload_binary s (some name)).1
          ≡ (if is_loaded s.module_list name then pos 0 else negsuc 0))
      × (module_get_loaded_count s
          ≡ u32 (
              module_get_loaded_count (module_unload_binary s (some name)).0
              + (if is_loaded s.module_list name then 1 else 0)))
unfolding module_unload_binary module_get_loaded_count
module_unload_binary-IsLoader s name g = elim (detach-Rest s.module_list name g.unique) [
  | inl (run, absent) ↦
      let all = module_get_loaded_count-length s g in
      rw (run, module_unload_binary) (rw absent (g, refl, refl, rw all (omega arith)))
  | inr (m, others, run, r) ↦
      let left : IsLoader (record s { module_list = others }) = record {
        unique = r.unique;
        sound = r.sound g.sound;
      } in
      let all = module_get_loaded_count-length s g ∙ ap u32 r.one in
      rw (run, module_unload_binary)
        (rw r.there (
          record { unique = r.unique; sound = r.sound g.sound },
          r.gone,
          refl,
          one_less (length others)
              (module_get_loaded_count-length (record s { module_list = others }) left) all,
        ))
]
