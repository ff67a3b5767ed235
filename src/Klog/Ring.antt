-- ===== src/Klog/Ring.antt =====
-- The log ring holds the last `klog_size` characters that were pushed.
use dionnex.Base.{
  ℕ, zero, suc, ◌+◌, ◌%◌, ◌≤◌, ◌<◌, ◌≡◌, refl, ◌∙◌, ap, sym, inl, inr, false, List, [], ◌∷◌, ◌++◌,
  if◌then◌else◌, ltb, length, drop, get_or, arith, length-set, length-replicate, length-append,
  Bool-cases, append_assoc, append-nil, ltb→lt,
}
use dionnex.Base.Ring.{window, length-window, window-extend, window-overwrite}
use dionnex.Klog.{
  Klog, klog_size, klog_push_char, klog_push_string, klog_init, klog_dump, dump_from,
}

pub record IsValid (k : Klog) : Type 0 where
  pub storage : length k.buffer ≡ klog_size
  pub head_at : k.head ≡ (k.tail + k.count) % klog_size
  pub tail_in : k.tail < klog_size
  pub count_in : k.count ≤ klog_size

-- The log, oldest character first.
abbrev pub contents : Klog → List ℕ
contents k = window k.buffer klog_size k.tail k.count

pub klog_init-IsValid : IsValid klog_init
unfolding klog_init
klog_init-IsValid = record {
  storage = length-replicate {A = ℕ} klog_size 0;
  head_at = refl;
  tail_in = omega arith;
  count_in = omega arith;
}

klog_push_char-IsValid : {k : Klog} (c : ℕ) → IsValid k → IsValid (klog_push_char k c)
unfolding klog_push_char
klog_push_char-IsValid {k} c v = ground (arith, length-set k.buffer k.head c)

-- The longest end of a text of at most `n` characters.
unfoldable pub last : ℕ → List ℕ → List ℕ
last n [] = []
last n (b ∷ t) = if ltb (length t) n then b ∷ t else last n t

last_short : (n : ℕ) (t : List ℕ) → length t ≤ n → last n t ≡ t
unfolding last
last_short n [] h = refl
last_short n (b ∷ t) h = ground arith

-- What is cut off before an append would be cut off after it.
last-append : (n : ℕ) (t u : List ℕ) → last n (last n t ++ u) ≡ last n (t ++ u)
unfolding last
last-append n [] u = refl
last-append n (b ∷ t) u = elim (Bool-cases (ltb (length t) n)) [
  | inl short ↦ rw short refl
  | inr long ↦
      let over : ltb (length (t ++ u)) n ≡ false = ground (arith, length-append t u) in
      rw (long, over) (last-append n t u)
]

last-snoc :
    (n : ℕ) (t : List ℕ) (c : ℕ)
    → length t ≡ n
    → 0 < n
    → last n (t ++ (c ∷ [])) ≡ drop 1 t ++ (c ∷ [])
unfolding last
last-snoc n [] c e some_place = absurd (omega arith)
last-snoc n (b ∷ t) c e some_place =
    let len = length-append t (c ∷ []) in
    let over : ltb (length (t ++ (c ∷ []))) n ≡ false = ground arith in
    rw over (last_short n (t ++ (c ∷ [])) (omega arith))

klog_push_char-contents :
    {k : Klog} (c : ℕ)
    → IsValid k
    → contents (klog_push_char k c) ≡ last klog_size (contents k ++ (c ∷ []))
unfolding klog_push_char
klog_push_char-contents {k} c v = elim (Bool-cases (ltb k.count klog_size)) [
  | inl room ↦
      let lt : k.count < klog_size = ltb→lt _ _ room in
      let one : k.count + 1 ≡ suc k.count = omega arith in
      let long = length-append (contents k) (c ∷ []) in
      let fits : length (contents k ++ (c ∷ [])) ≤ klog_size = omega (arith, len k) in
      rw (room, one)
        (window-extend k.buffer klog_size c k.count k.tail k.head (omega arith) v.tail_in lt
            v.head_at
          ∙ sym (last_short klog_size (contents k ++ (c ∷ [])) fits))
  | inr full ↦
      let top : k.count ≡ klog_size = ground arith in
      rw full (
        window-overwrite k.buffer klog_size c k.count k.tail k.head (omega arith) v.tail_in top
          v.head_at
        ∙ sym (last-snoc klog_size (contents k) c (len k ∙ top) (omega arith)))
]
  where
    len : (k : Klog) → length (contents k) ≡ k.count
    len k = length-window k.buffer klog_size k.tail k.count

-- Pushing a string keeps the invariant, and leaves in the log the last `klog_size` characters of
-- what it held followed by the string.
pub klog_push_string-last :
    (s : List ℕ) {k : Klog}
    → IsValid k
    → IsValid (klog_push_string k s)
      × (contents (klog_push_string k s) ≡ last klog_size (contents k ++ s))
unfolding klog_push_string
klog_push_string-last [] {k} v =
    let len = length-window k.buffer klog_size k.tail k.count in
    (v, rw append-nil (sym (last_short klog_size (contents k) (omega arith))))
klog_push_string-last (c ∷ s) {k} v =
    let (valid, rest) = klog_push_string-last s (klog_push_char-IsValid c v) in
    (
      valid,
      rest
          ∙ ap (λ t. last klog_size (t ++ s)) (klog_push_char-contents c v)
          ∙ last-append klog_size (contents k ++ (c ∷ [])) s
          ∙ ap (last klog_size) (append_assoc (contents k) (c ∷ []) s),
    )

dump_from-window :
    (buffer : List ℕ) (idx n : ℕ) → dump_from buffer idx n ≡ window buffer klog_size idx n
unfolding dump_from
dump_from-window buffer idx zero = refl
dump_from-window buffer idx (suc n) =
    ap (λ t. get_or buffer idx 0 ∷ t) (dump_from-window buffer ((idx + 1) % klog_size) n)

pub push_all : Klog → List (List ℕ) → Klog
push_all k [] = k
push_all k (s ∷ ss) = push_all (klog_push_string k s) ss

pub joined : List (List ℕ) → List ℕ
joined [] = []
joined (s ∷ ss) = s ++ joined ss

push_all-last :
    (ss : List (List ℕ)) {k : Klog}
    → IsValid k
    → contents (push_all k ss) ≡ last klog_size (contents k ++ joined ss)
unfolding push_all joined
push_all-last [] {k} v =
    let len = length-window k.buffer klog_size k.tail k.count in
    rw append-nil (sym (last_short klog_size (contents k) (omega arith)))
push_all-last (s ∷ ss) {k} v =
    let (valid, held) = klog_push_string-last s v in
    push_all-last ss valid
    ∙ ap (λ t. last klog_size (t ++ joined ss)) held
    ∙ last-append klog_size (contents k ++ s) (joined ss)
    ∙ ap (last klog_size) (append_assoc (contents k) s (joined ss))

-- After `klog_init` (or `klog_clear`) and any sequence of strings pushed, `klog_dump` prints the
-- last `klog_size` characters of their concatenation.
pub klog_dump-last :
    (ss : List (List ℕ)) → klog_dump (push_all klog_init ss) ≡ last klog_size (joined ss)
unfolding klog_dump klog_init
klog_dump-last ss = dump_from-window _ _ _ ∙ push_all-last ss klog_init-IsValid
