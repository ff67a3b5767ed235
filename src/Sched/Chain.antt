-- ===== src/Sched/Chain.antt =====
-- The list of tasks under `scheduler_add_task` and `scheduler_remove_task`.
use dionnex.Base.{
  ℕ, ◌≡◌, ◌≢◌, refl, ◌⊎◌, inl, inr, ◌&&◌, ◌||◌, true, false, not, List, [], ◌∷◌, ◌++◌, ◌==◌, arith,
  Bool-cases,
}
use dionnex.Sched.{Sched, is_in, add_from, remove_from, scheduler_add_task, scheduler_remove_task}

-- No address stands in the list twice.
abbrev pub Apart : List ℕ → Type 0
Apart [] = Unit
Apart (a ∷ rest) = (is_in a rest ≡ false) × Apart rest

add_from-present :
    (task : ℕ) (chain : List ℕ) → is_in task chain ≡ true → add_from task chain ≡ chain
unfolding is_in add_from
add_from-present task [] h = refl
add_from-present task (a ∷ []) h = ground (arith, h)
add_from-present task (a ∷ (b ∷ rest)) h = elim (Bool-cases (a == task)) [
  | inl here ↦ rw here refl
  | inr there ↦ rw (there, add_from-present task (b ∷ rest) (rw there at h)) refl
]

add_from-new :
    (task a : ℕ) (rest : List ℕ)
    → is_in task (a ∷ rest) ≡ false
    → add_from task (a ∷ rest) ≡ (a ∷ rest) ++ (task ∷ [])
unfolding is_in add_from
add_from-new task a [] h = ground (arith, h)
add_from-new task a (b ∷ rest) h = elim (Bool-cases (a == task)) [
  | inl here ↦ absurd (cc (rw here at h))
  | inr there ↦ rw (there, add_from-new task b rest (rw there at h)) refl
]

is_in-append : (x : ℕ) (xs : List ℕ) (y : ℕ) → is_in x (xs ++ (y ∷ [])) ≡ (is_in x xs || y == x)
unfolding is_in
is_in-append x [] y = ground arith
is_in-append x (a ∷ xs) y = ground (arith, is_in-append x xs y)

Apart-append : (xs : List ℕ) (y : ℕ) → is_in y xs ≡ false → Apart xs → Apart (xs ++ (y ∷ []))
unfolding is_in
Apart-append [] y h u = (refl, tt)
Apart-append (a ∷ xs) y h u =
    let back : is_in y xs ≡ false = ground (arith, h) in
    let new : is_in a (xs ++ (y ∷ [])) ≡ false = ground (arith, h, u.0, is_in-append a xs y) in
    (new, Apart-append xs y back u.1)

remove_from-absent :
    (task : ℕ) (chain : List ℕ) → is_in task chain ≡ false → remove_from task chain ≡ chain
unfolding is_in remove_from
remove_from-absent task [] h = refl
remove_from-absent task (a ∷ rest) h = ground (arith, h, remove_from-absent task rest)

-- What removal leaves: every other address.
pub is_in-remove_from :
    (task x : ℕ) (chain : List ℕ)
    → Apart chain
    → is_in x (remove_from task chain) ≡ (is_in x chain && not (task == x))
unfolding is_in remove_from
is_in-remove_from task x [] u = refl
is_in-remove_from task x (a ∷ rest) u = elim (Bool-cases (a == task)) [
  | inl here ↦
      let e : a ≡ task = ground arith in
      let gone : is_in task rest ≡ false = rw e at u.0 in
      rw here (elim (Bool-cases (task == x)) [
        | inl same ↦ let f : task ≡ x = ground arith in rw (rw f at gone) (ground arith)
        | inr other ↦ ground arith
      ])
  | inr there ↦ ground (arith, is_in-remove_from task x rest u.1)
]

pub remove_from-Apart : (task : ℕ) (chain : List ℕ) → Apart chain → Apart (remove_from task chain)
unfolding is_in remove_from
remove_from-Apart task [] u = tt
remove_from-Apart task (a ∷ rest) u = elim (Bool-cases (a == task)) [
  | inl here ↦ rw here u.1
  | inr there ↦
      rw there
        (ground (arith, is_in-remove_from task a rest u.1, u.0), remove_from-Apart task rest u.1)
]

remove_from-append :
    (task : ℕ) (xs : List ℕ) → is_in task xs ≡ false → remove_from task (xs ++ (task ∷ [])) ≡ xs
unfolding is_in remove_from
remove_from-append task [] h = ground arith
remove_from-append task (a ∷ xs) h = ground (arith, h, remove_from-append task xs)

abbrev with_chain : Sched → List ℕ → Sched
with_chain s chain = record s { chain = chain }

-- From a list that is not empty and has no task twice, `scheduler_add_task` of a task that stands
-- in it, the last one included, changes nothing; of a task that does not, it appends it, has no
-- task twice, and `scheduler_remove_task` takes it back.
pub scheduler_add_task-Apart :
    (s : Sched) (task head : ℕ) (rest : List ℕ)
    → s.chain ≡ head ∷ rest
    → Apart s.chain
    → task ≢ 0
    → (is_in task s.chain ≡ true) × (scheduler_add_task s task ≡ s)
      ⊎ (scheduler_add_task s task ≡ with_chain s (s.chain ++ (task ∷ [])))
        × Apart (scheduler_add_task s task).chain
        × (scheduler_remove_task (scheduler_add_task s task) task ≡ s)
unfolding scheduler_add_task scheduler_remove_task
scheduler_add_task-Apart s task head rest e u nonzero =
    let some_task : (task == 0) ≡ false = ground (arith, nonzero) in
    elim (Bool-cases (is_in task s.chain)) [
      | inl old ↦ inl (old, rw (some_task, add_from-present task s.chain old) refl)
      | inr new ↦
          let grown : add_from task s.chain ≡ s.chain ++ (task ∷ []) =
            rw e (add_from-new task head rest (rw e at new)) in
          rw (some_task, grown, remove_from-append task s.chain new)
            (inr (refl, Apart-append s.chain task new u, refl))
    ]
