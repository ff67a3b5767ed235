-- ===== src/Process/Pick.antt =====
-- The choice that `schedule_process` walks the queue for.
use dionnex.Base.{
  ℕ, zero, suc, ◌<◌, ◌≡◌, ◌≢◌, refl, ap, ◌⊎◌, inl, inr, ◌&&◌, ◌||◌, Bool, true, false, Option, some,
  List, [], ◌∷◌, ◌++◌, ltb, leb, ◌==◌, length, arith, Bool-cases,
}
use dionnex.Process.{is_ready, Proc, pick}
use dionnex.Process.Links.{Chain}

-- `a` is ready, and runs less than `best` did, if that is a process.
abbrev pub better : (ℕ → Proc) → ℕ → ℕ → Bool
better procs best a =
    is_ready (procs a).state && (best == 0 || ltb (procs a).vruntime (procs best).vruntime)

abbrev pub NoneOf : (ℕ → Bool) → List ℕ → Type 0
NoneOf f [] = Unit
NoneOf f (x ∷ xs) = (f x ≡ false) × NoneOf f xs

-- `m` is the first of the processes that are ready and ran the least.
pub record Least (procs : ℕ → Proc) (xs : List ℕ) (best m : ℕ) : Type 0 where
  pub pre : List ℕ
  pub post : List ℕ
  pub split : xs ≡ pre ++ (m ∷ post)
  pub some_proc : m ≢ 0
  pub chosen : better procs best m ≡ true
  pub before :
      NoneOf (λ a. is_ready (procs a).state && leb (procs a).vruntime (procs m).vruntime) pre
  pub after : NoneOf (better procs m) post

pick_here :
    (procs : ℕ → Proc) (x best : ℕ) (xs : List ℕ)
    → x ≢ 0
    → better procs best x ≡ true
    → NoneOf (better procs x) xs
    → Least procs (x ∷ xs) best x
pick_here procs x best xs there is_better others = record {
  pre = [];
  post = xs;
  split = refl;
  some_proc = there;
  chosen = is_better;
  before = tt;
  after = others;
}

pick_further :
    (procs : ℕ → Proc) (x best m : ℕ) (xs : List ℕ)
    → better procs best m ≡ true
    → (is_ready (procs x).state && leb (procs x).vruntime (procs m).vruntime) ≡ false
    → (best' : ℕ) → Least procs xs best' m
    → Least procs (x ∷ xs) best m
pick_further procs x best m xs is_better worse best' l = record {
  pre = x ∷ l.pre;
  post = l.post;
  split = ap (λ ys. x ∷ ys) l.split;
  some_proc = l.some_proc;
  chosen = is_better;
  before = (worse, l.before);
  after = l.after;
}

abbrev pub Picked : (ℕ → Proc) → List ℕ → ℕ → Option ℕ → Type 0
Picked procs xs best r =
    NoneOf (better procs best) xs × (r ≡ some best)
    ⊎ ((m : ℕ) × Least procs xs best m × (r ≡ some m))

pub pick-Picked :
    (xs : List ℕ) (fuel : ℕ) (procs : ℕ → Proc) (p best : ℕ)
    → Chain procs p xs
    → length xs < fuel
    → Picked procs xs best (pick fuel procs p best)
unfolding pick
pick-Picked xs zero procs p best c h = absurd (omega (arith, h))
pick-Picked [] (suc fuel) procs p best c h = inl (tt, rw c refl)
pick-Picked (x ∷ xs) (suc fuel) procs p best c h =
    let there : (x == 0) ≡ false = ground (arith, c.1) in
    rw (c.0, there)
      (elim (Bool-cases (better procs best x)) [
        | inl yes_better ↦
            rw yes_better
              (elim (pick-Picked xs fuel procs (procs x).next x c.2 (omega (arith, h))) [
                | inl (others, run) ↦ inr (x, pick_here procs x best xs c.1 yes_better others, run)
                | inr (m, l, run) ↦ inr (
                  m,
                  pick_further procs x best m xs (ground (arith, l.chosen, yes_better, c.1))
                      (ground (arith, l.chosen, c.1)) x l,
                  run,
                )
              ])
        | inr no_better ↦
            rw no_better
              (elim (pick-Picked xs fuel procs (procs x).next best c.2 (omega (arith, h))) [
                | inl (others, run) ↦ inl ((refl, others), run)
                | inr (m, l, run) ↦ inr (
                  m,
                  pick_further procs x best m xs l.chosen (ground (arith, l.chosen, no_better)) best
                      l,
                  run,
                )
              ])
      ])
