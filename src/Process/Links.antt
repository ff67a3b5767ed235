-- ===== src/Process/Links.antt =====
-- The processes that an address leads to through `next`.
use dionnex.Base.{
  ℕ, zero, suc, ◌<◌, ◌≡◌, ◌≢◌, refl, inl, inr, ◌||◌, Bool, true, false, some, List, [], ◌∷◌, ◌==◌,
  length, arith, Bool-cases,
}
use dionnex.Process.{
  Proc, Procs, put_proc, count_from, process_get_count, pid_from, process_get_by_pid,
}

abbrev pub is_in : ℕ → List ℕ → Bool
is_in p [] = false
is_in p (x ∷ xs) = x == p || is_in p xs

abbrev pub Chain : (ℕ → Proc) → ℕ → List ℕ → Type 0
Chain procs p [] = p ≡ 0
Chain procs p (x ∷ xs) = (p ≡ x) × (x ≢ 0) × Chain procs (procs x).next xs

-- Only the links of the processes in the chain count.
pub Chain-same :
    (old new : ℕ → Proc) (xs : List ℕ) (p : ℕ)
    → ((a : ℕ) → is_in a xs ≡ true → (new a).next ≡ (old a).next)
    → Chain old p xs
    → Chain new p xs
Chain-same old new [] p same c = c
Chain-same old new (x ∷ xs) p same c =
    let e : (new x).next ≡ (old x).next = same x (ground arith) in
    (c.0, c.1, Chain-same old new xs (new x).next (λ a h. same a (ground (arith, h))) (rw e c.2))

pub put_proc_other :
    (procs : ℕ → Proc) (p a : ℕ) (new : Proc) (xs : List ℕ)
    → is_in p xs ≡ false
    → is_in a xs ≡ true
    → (put_proc procs p new a).next ≡ (procs a).next
put_proc_other procs p a new xs fresh h = elim (Bool-cases (a == p)) [
  | inl e ↦ let same : a ≡ p = ground (arith, e) in absurd (cc (rw same at h, fresh))
  | inr e ↦ rw e refl
]

-- A new head.
pub Chain-put :
    (procs : ℕ → Proc) (head : ℕ) (xs : List ℕ) (p : ℕ) (new : Proc)
    → p ≢ 0
    → is_in p xs ≡ false
    → new.next ≡ head
    → Chain procs head xs
    → Chain (put_proc procs p new) p (p ∷ xs)
Chain-put procs head xs p new some_p fresh link c =
    let here : (p == p) ≡ true = ground arith in
    (
      refl,
      some_p,
      rw (here, link)
          (Chain-same procs (put_proc procs p new) xs head
            (λ a h. put_proc_other procs p a new xs fresh h) c),
    )

count_from-length :
    (xs : List ℕ) (fuel : ℕ) (procs : ℕ → Proc) (p : ℕ)
    → Chain procs p xs
    → length xs < fuel
    → count_from fuel procs p ≡ some (length xs)
unfolding count_from
count_from-length xs zero procs p c h = absurd (omega (arith, h))
count_from-length [] (suc fuel) procs p c h = rw c refl
count_from-length (x ∷ xs) (suc fuel) procs p c h =
    let there : (x == 0) ≡ false = ground (arith, c.1) in
    let rest = count_from-length xs fuel procs (procs x).next c.2 (omega (arith, h)) in
    rw (c.0, there) (rw rest refl)

-- A list that ends is counted with fuel for one more round than it has processes.
pub process_get_count-length :
    (xs : List ℕ) (fuel : ℕ) (s : Procs)
    → Chain s.procs s.proc_list xs
    → length xs < fuel
    → process_get_count fuel s ≡ some (length xs)
unfolding process_get_count
process_get_count-length xs fuel s c h = count_from-length xs fuel s.procs s.proc_list c h

-- The head of the list is found by its pid.
pub process_get_by_pid-head :
    (fuel : ℕ) (s : Procs) (pid : ℕ)
    → s.proc_list ≢ 0
    → (s.procs s.proc_list).pid ≡ pid
    → process_get_by_pid (suc fuel) s pid ≡ some s.proc_list
unfolding process_get_by_pid pid_from
process_get_by_pid-head fuel s pid there e =
    let some_process : (s.proc_list == 0) ≡ false = ground (arith, there) in
    let same : (pid == pid) ≡ true = ground arith in rw (some_process, e) (rw same refl)
