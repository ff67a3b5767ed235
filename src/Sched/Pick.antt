-- ===== src/Sched/Pick.antt =====
-- The search of `schedule`.
use dionnex.Base.{
  ℕ, ◌+◌, ◌≡◌, refl, ap, ◌⊎◌, inl, inr, ◌&&◌, Bool, true, false, Option, some, List, [], ◌∷◌, ◌++◌,
  ltb, arith, Bool-cases,
}
use dionnex.Sched.{Task, is_runnable, pick}

-- Runnable, with a vruntime under the bound.
abbrev pub under : (ℕ → Task) → ℕ → ℕ → Bool
under tasks bound a = is_runnable (tasks a).state && ltb (tasks a).vruntime bound

abbrev pub NoneUnder : (ℕ → Task) → ℕ → List ℕ → Type 0
NoneUnder tasks bound [] = Unit
NoneUnder tasks bound (a ∷ rest) = (under tasks bound a ≡ false) × NoneUnder tasks bound rest

-- `m` is the first of the runnable tasks with the least vruntime, which is under the bound.
pub record Least (tasks : ℕ → Task) (chain : List ℕ) (bound m : ℕ) (pre post : List ℕ)
    : Type 0 where
  pub split : chain ≡ pre ++ (m ∷ post)
  pub chosen : under tasks bound m ≡ true
  pub before : NoneUnder tasks ((tasks m).vruntime + 1) pre
  pub after : NoneUnder tasks (tasks m).vruntime post

pub pick-Least :
    (tasks : ℕ → Task) (chain : List ℕ) (min_task : Option ℕ) (bound : ℕ)
    → NoneUnder tasks bound chain × (pick tasks chain min_task bound ≡ min_task)
      ⊎ ((m : ℕ) × (pre : List ℕ) × (post : List ℕ) × Least tasks chain bound m pre post
          × (pick tasks chain min_task bound ≡ some m))
unfolding pick
pick-Least tasks [] min_task bound = inl (tt, refl)
pick-Least tasks (a ∷ rest) min_task bound = elim (Bool-cases (under tasks bound a)) [
  | inl better ↦ elim (pick-Least tasks rest (some a) (tasks a).vruntime) [
    | inl (others, run) ↦ inr (
      a,
      [],
      rest,
      record { split = refl; chosen = better; before = tt; after = others },
      rw better run,
    )
    | inr (m, pre, post, l, run) ↦ inr (
      m,
      a ∷ pre,
      post,
      record {
        split = ap (λ xs. a ∷ xs) l.split;
        chosen = ground (arith, l.chosen, better);
        before = (ground (arith, l.chosen), l.before);
        after = l.after;
      },
      rw better run,
    )
  ]
  | inr worse ↦ elim (pick-Least tasks rest min_task bound) [
    | inl (others, run) ↦ inl ((worse, others), rw worse run)
    | inr (m, pre, post, l, run) ↦ inr (
      m,
      a ∷ pre,
      post,
      record {
        split = ap (λ xs. a ∷ xs) l.split;
        chosen = l.chosen;
        before = (ground (arith, l.chosen, worse), l.before);
        after = l.after;
      },
      rw worse run,
    )
  ]
]
