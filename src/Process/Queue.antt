-- ===== src/Process/Queue.antt =====
-- `sched_proc_add` and `sched_proc_remove` on lists that share the field `next`.
use dionnex.Base.{
  ℕ, zero, suc, ◌≤◌, ◌<◌, ◌≡◌, ◌≢◌, refl, sym, ap, ◌∙◌, inl, inr, ◌||◌, true, false, none, some,
  List, [], ◌∷◌, ◌++◌, if◌then◌else◌, ◌==◌, length, arith, Bool-cases,
}
use mathlib.Core.Path.{subst}
use dionnex.Process.{
  proc_ready, Proc, Procs, put_proc, pick, unlink, schedule_process, sched_proc_add,
  sched_proc_remove,
}
use dionnex.Process.Links.{Chain, Chain-same, Chain-put, put_proc_other, is_in}

-- The part of a list before `p` stays, and behind `p` comes what its `next` leads to now.
Chain-redirect :
    (procs : ℕ → Proc) (head p : ℕ) (new : Proc) (xs ys zs : List ℕ)
    → is_in p xs ≡ false
    → Chain procs head (xs ++ (p ∷ ys))
    → Chain (put_proc procs p new) p (p ∷ zs)
    → Chain (put_proc procs p new) head (xs ++ (p ∷ zs))
Chain-redirect procs head p new [] ys zs fresh c tail = (c.0, tail.1, tail.2)
Chain-redirect procs head p new (x ∷ xs) ys zs fresh c tail =
    let far : (x == p) ≡ false = ground (arith, fresh) in
    (
      c.0,
      c.1,
      rw far (Chain-redirect procs (procs x).next p new xs ys zs (ground (arith, fresh)) c.2 tail),
    )

abbrev added : Procs → ℕ → Procs
added s p = record s {
  procs = put_proc s.procs p (record (s.procs p) { state = proc_ready; next = s.sched_queue });
  sched_queue = p;
}

sched_proc_add-added : (s : Procs) (p : ℕ) → p ≢ 0 → sched_proc_add s p ≡ added s p
unfolding sched_proc_add
sched_proc_add-added s p there = let e : (p == 0) ≡ false = ground (arith, there) in rw e refl

-- Where `p` is ready at the head of the queue, and in the list before the same processes.
pub record Queued (s' : Procs) (xs queue : List ℕ) (p : ℕ) : Type 0 where
  pub head : Chain s'.procs s'.sched_queue (p ∷ queue)
  pub list : Chain s'.procs s'.proc_list (xs ++ (p ∷ queue))
  pub ready : (s'.procs p).state ≡ proc_ready

-- `sched_proc_add` of a process that stands in the list of processes but not in the queue puts it
-- at the head of the queue, ready; in the list, the queue takes the place of the processes behind
-- it.
pub sched_proc_add-Queued :
    (xs ys queue : List ℕ) (s : Procs) (p : ℕ)
    → p ≢ 0
    → is_in p xs ≡ false
    → is_in p queue ≡ false
    → Chain s.procs s.proc_list (xs ++ (p ∷ ys))
    → Chain s.procs s.sched_queue queue
    → Queued (sched_proc_add s p) xs queue p
sched_proc_add-Queued xs ys queue s p there fresh new list c =
    let here : (p == p) ≡ true = ground arith in
    let changed = record (s.procs p) { state = proc_ready; next = s.sched_queue } in
    let head = Chain-put s.procs s.sched_queue queue p changed there new refl c in
    subst (λ (s' : Procs). Queued s' xs queue p) (sym (sched_proc_add-added s p there))
      (record {
        head = head;
        list = Chain-redirect s.procs s.proc_list p changed xs ys queue fresh list head;
        ready = rw here refl;
      })

pick-loop :
    (fuel : ℕ) (procs : ℕ → Proc) (p best : ℕ)
    → p ≢ 0
    → (procs p).next ≡ p
    → pick fuel procs p best ≡ none
unfolding pick
pick-loop zero procs p best there loop = refl
pick-loop (suc fuel) procs p best there loop =
    let e : (p == 0) ≡ false = ground (arith, there) in
    rw (e, loop) (pick-loop fuel procs p _ there loop)

-- After `sched_proc_add` of the process at the head of the queue, `schedule_process` does not end.
pub sched_proc_add-loop :
    (fuel : ℕ) (s : Procs)
    → s.sched_queue ≢ 0
    → schedule_process fuel (sched_proc_add s s.sched_queue) ≡ none
unfolding sched_proc_add schedule_process
sched_proc_add-loop fuel s there =
    let e : (s.sched_queue == 0) ≡ false = ground (arith, there) in
    let here : (s.sched_queue == s.sched_queue) ≡ true = ground arith in
    let changed = record (s.procs s.sched_queue) { state = proc_ready; next = s.sched_queue } in
    rw e (
      rw
        (
          e,
          pick-loop fuel (put_proc s.procs s.sched_queue changed) s.sched_queue 0 there
              (rw here refl),
        )
        refl)

-- A list without one address.
abbrev pub without : ℕ → List ℕ → List ℕ
without p [] = []
without p (x ∷ xs) = if x == p then xs else x ∷ without p xs

abbrev pub Distinct : List ℕ → Type 0
Distinct [] = Unit
Distinct (x ∷ xs) = (is_in x xs ≡ false) × Distinct xs

-- The processes but `p` from `x` on, and the others as they were.
record Unlinked (procs procs' : ℕ → Proc) (x p : ℕ) (xs : List ℕ) : Type 0 where
  pub chain : Chain procs' x (x ∷ without p xs)
  pub others : (a : ℕ) → is_in a (x ∷ xs) ≡ false → procs' a ≡ procs a

unlink-Unlinked :
    (xs : List ℕ) (fuel : ℕ) (procs : ℕ → Proc) (x p : ℕ)
    → Chain procs x (x ∷ xs)
    → Distinct (x ∷ xs)
    → length xs < fuel
    → (procs' : ℕ → Proc) × (unlink fuel procs x p ≡ some procs') × Unlinked procs procs' x p xs
unfolding unlink
unlink-Unlinked xs zero procs x p c apart h = absurd (omega (arith, h))
unlink-Unlinked [] (suc fuel) procs x p c apart h =
    let stop : ((procs x).next == 0) ≡ true = ground (arith, c.2) in
    (procs, rw stop refl, record { chain = c; others = λ a out. refl })
unlink-Unlinked (y ∷ ys) (suc fuel) procs x p (e, there, (link, there', rest)) apart h =
    let go : (y == 0) ≡ false = ground (arith, there') in
    elim (Bool-cases (y == p)) [
      | inl found ↦
          let same : p ≡ y = ground (arith, found) in
          let new = record (procs x) { next = (procs p).next } in
          let here : (x == x) ≡ true = ground arith in
          let out : is_in x ys ≡ false = ground (arith, apart.0) in
          (
            put_proc procs x new,
            rw (link, go) (rw found refl),
            record {
              chain = rw found (
                refl,
                there,
                rw here (
                    Chain-same procs (put_proc procs x new) ys (procs p).next
                      (λ a w. put_proc_other procs x a new ys out w) (rw same rest)),
              );
              others = λ a w. let far : (a == x) ≡ false = ground (arith, w) in rw far refl;
            },
          )
      | inr further ↦
          let (procs', run, u) =
            unlink-Unlinked ys fuel procs y p (refl, there', rest) apart.1 (omega (arith, h)) in
          (
            procs',
            rw (link, go) (rw further run),
            record {
              chain = rw further (
                refl,
                there,
                (ap (λ (q : Proc). q.next) (u.others x apart.0) ∙ link, u.chain.1, u.chain.2),
              );
              others = λ a w. u.others a (ground (arith, w));
            },
          )
    ]

-- From a queue that ends and has no process twice, with fuel for as many rounds as it has
-- processes, `sched_proc_remove` returns and leaves the queue without the process.
pub sched_proc_remove-without :
    (queue : List ℕ) (fuel : ℕ) (s : Procs) (p : ℕ)
    → p ≢ 0
    → Chain s.procs s.sched_queue queue
    → Distinct queue
    → length queue ≤ fuel
    → (s' : Procs) × (sched_proc_remove fuel s p ≡ some s')
      × Chain s'.procs s'.sched_queue (without p queue)
unfolding sched_proc_remove
sched_proc_remove-without [] fuel s p there c apart h =
    let empty : (p == 0 || s.sched_queue == 0) ≡ true = ground (arith, c) in (s, rw empty refl, c)
sched_proc_remove-without (x ∷ queue) fuel s p there c apart h =
    let go : (p == 0 || s.sched_queue == 0) ≡ false = ground (arith, c.0, c.1, there) in
    elim (Bool-cases (x == p)) [
      | inl first ↦
          let head : (s.sched_queue == p) ≡ true = ground (arith, c.0, first) in
          let same : p ≡ x = ground (arith, first) in
          (record s { sched_queue = (s.procs p).next }, rw (go, head) refl, rw (first, same) c.2)
      | inr further ↦
          let inner : (s.sched_queue == p) ≡ false = ground (arith, c.0, further) in
          let (procs', run, u) =
            unlink-Unlinked queue fuel s.procs x p (refl, c.1, c.2) apart (omega (arith, h)) in
          (
            record s { procs = procs' },
            rw (go, inner) (rw (c.0, run) refl),
            rw (further, c.0) u.chain,
          )
    ]
