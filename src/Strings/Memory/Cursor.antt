-- ===== src/Strings/Memory/Cursor.antt =====
-- A buffer split at the place where a loop writes next.
use dionnex.Base.{ℕ, ◌+◌, ◌≡◌, refl, ap, some, List, [], ◌∷◌, ◌++◌, length, arith, length-append}
use dionnex.Strings.Memory.{store}

pub store-middle :
    (pre : List ℕ) (x v : ℕ) (room : List ℕ)
    → store (pre ++ (x ∷ room)) (length pre) v ≡ some (pre ++ (v ∷ room))
unfolding store
store-middle [] x v room = ground arith
store-middle (p ∷ pre) x v room = ground (arith, store-middle pre x v room)

pub snoc-append :
    (pre : List ℕ) (c : ℕ) (rest : List ℕ) → (pre ++ (c ∷ [])) ++ rest ≡ pre ++ (c ∷ rest)
snoc-append [] c rest = refl
snoc-append (p ∷ pre) c rest = ap (λ t. p ∷ t) (snoc-append pre c rest)

pub length-snoc : (pre : List ℕ) (c : ℕ) → length (pre ++ (c ∷ [])) ≡ length pre + 1
length-snoc pre c = length-append pre (c ∷ [])
