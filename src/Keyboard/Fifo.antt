-- ===== src/Keyboard/Fifo.antt =====
-- The keyboard ring is a queue of at most 255 characters.
use Prim.Native.Nat.{bit_and}
use dionnex.Base.{
  ℕ, suc, ◌+◌, ◌-◌, ◌%◌, ◌*◌, ◌/◌, ◌||◌, ◌<◌, ◌≡◌, ◌≢◌, refl, ap, ◌∙◌, inl, inr, Bool, true, false,
  not, Option, none, some, get_or, List, [], ◌∷◌, ◌++◌, if◌then◌else◌, ltb, ◌==◌, length, arith,
  length-set, Bool-cases, Option-cases,
}
use mathlib.Core.Option
use dionnex.Base.Bits.{bit, bit_and-pow, bit-shift}
use dionnex.Base.Ring.{window, length-window, window-extend}
use dionnex.Keyboard.{Keyboard, key_char, put_char, keyboard_handler, keyboard_read}

pub record IsValid (k : Keyboard) : Type 0 where
  pub storage : length k.buffer ≡ 256
  pub head_in : k.head < 256
  pub tail_in : k.tail < 256

-- How many characters wait, and which, oldest first.
abbrev pub waiting : Keyboard → ℕ
waiting k = (k.head + 256 - k.tail) % 256

abbrev pub queue : Keyboard → List ℕ
queue k = window k.buffer 256 k.tail (waiting k)

put_char-IsValid : {k : Keyboard} (c : ℕ) → IsValid k → IsValid (put_char k c)
unfolding put_char
put_char-IsValid {k} c v = ground (arith, length-set k.buffer k.head c)

-- A character other than NUL is appended while fewer than 255 wait, and dropped otherwise.
put_char-queue :
    {k : Keyboard} (c : ℕ)
    → IsValid k
    → c ≢ 0
    → queue (put_char k c) ≡ (if ltb (length (queue k)) 255 then queue k ++ (c ∷ []) else queue k)
unfolding put_char
put_char-queue {k} c v ne =
    let key : (c == 0) ≡ false = ground arith in
    let len = length-window k.buffer 256 k.tail (waiting k) in
    elim (Bool-cases ((k.head + 1) % 256 == k.tail)) [
      | inl full ↦
          let most : ltb (length (queue k)) 255 ≡ false = ground arith in rw (key, full, most) refl
      | inr room ↦
          let fewer : ltb (length (queue k)) 255 ≡ true = ground arith in
          let one : ((k.head + 1) % 256 + 256 - k.tail) % 256 ≡ suc (waiting k) = ground arith in
          rw (key, room, fewer)
            (rw one (
              window-extend k.buffer 256 c (waiting k) k.tail k.head (omega arith) v.tail_in
                (omega arith) (omega arith)))
    ]

put_char-none : (k : Keyboard) → put_char k 0 ≡ k
unfolding put_char
put_char-none k = refl

keyboard_handler-IsValid : {k : Keyboard} (s : ℕ) → IsValid k → IsValid (keyboard_handler k s)
unfolding keyboard_handler
keyboard_handler-IsValid {k} s v =
    ground
      (arith, put_char-IsValid (key_char k.shift_pressed k.caps_lock s) v, put_char-IsValid 0 v)

keyboard_read-IsValid :
    {k k' : Keyboard} {c : ℕ} → IsValid k → keyboard_read k ≡ some (c, k') → IsValid k'
unfolding keyboard_read
keyboard_read-IsValid v e = ground arith

-- What a user of the keyboard sees: the characters that wait, and the two modifiers.
pub record Typed : Type 0 where
  pub line : List ℕ
  pub shift : Bool
  pub caps : Bool

pub view : Keyboard → Typed
view k = record { line = queue k; shift = k.shift_pressed; caps = k.caps_lock }

pub append_key : Typed → ℕ → Typed
append_key t c =
    if c == 0
    then t
    else if ltb (length t.line) 255
    then record t { line = t.line ++ (c ∷ []) }
    else t

-- Scan code set 1: a code from 0x80 on is the release of a key.
pub press : Typed → ℕ → Typed
press t s =
    if s == 0x2A || s == 0x36
    then record t { shift = true }
    else if s == 0xAA || s == 0xB6
    then record t { shift = false }
    else if s == 0x3A
    then record t { caps = not t.caps }
    else if ltb s 128
    then append_key t (key_char t.shift t.caps s)
    else t

pub take_key : Typed → Option (ℕ × Typed)
take_key t = elim t.line [ [] ↦ none | c ∷ rest ↦ some (c, record t { line = rest }) ]

put_char-modifiers :
    (k : Keyboard) (c : ℕ)
    → ((put_char k c).shift_pressed ≡ k.shift_pressed) × ((put_char k c).caps_lock ≡ k.caps_lock)
unfolding put_char
put_char-modifiers k c = ground arith

put_char-view : {k : Keyboard} (c : ℕ) → IsValid k → view (put_char k c) ≡ append_key (view k) c
unfolding view append_key
put_char-view {k} c v =
    let (shift, caps) = put_char-modifiers k c in
    elim (Bool-cases (c == 0)) [
      | inl nothing ↦
          let zero_char : c ≡ 0 = ground arith in rw zero_char (rw (put_char-none k) refl)
      | inr key ↦ elim (Bool-cases (ltb (length (queue k)) 255)) [
        | inl room ↦
            rw (key, room) (cc (shift, caps, rw room at (put_char-queue c v (ground arith))))
        | inr full ↦
            rw (key, full) (cc (shift, caps, rw full at (put_char-queue c v (ground arith))))
      ]
    ]

is_release : (s : ℕ) → s < 256 → (bit_and s 0x80 == 0) ≡ ltb s 128
is_release s h =
    let place : bit_and s 0x80 ≡ bit s 7 * 128 = bit_and-pow s 7 in
    let high : (s / 128) % 2 ≡ bit s 7 = bit-shift s 7 in ground arith

keyboard_handler-press :
    {k : Keyboard} (s : ℕ) → IsValid k → s < 256 → view (keyboard_handler k s) ≡ press (view k) s
unfolding keyboard_handler press view
keyboard_handler-press {k} s v byte = elim (Bool-cases (s == 0x2A || s == 0x36)) [
  | inl down ↦ rw down refl
  | inr a ↦ elim (Bool-cases (s == 0xAA || s == 0xB6)) [
    | inl up ↦ rw (a, up) refl
    | inr b ↦ elim (Bool-cases (s == 0x3A)) [
      | inl caps ↦ rw (a, b, caps) refl
      | inr c ↦ elim (Bool-cases (ltb s 128)) [
        | inl made ↦ rw (a, b, c, is_release s byte) (rw made (put_char-view (key_char _ _ s) v))
        | inr released ↦ rw (a, b, c, is_release s byte) (rw released refl)
      ]
    ]
  ]
]

keyboard_read-take_key :
    {k : Keyboard}
    → IsValid k
    → Option.map (λ (r : ℕ × Keyboard). (r.0, view r.1)) (keyboard_read k) ≡ take_key (view k)
unfolding keyboard_read take_key view
keyboard_read-take_key {k} v = elim (Bool-cases (k.head == k.tail)) [
  | inl empty ↦ let nothing : waiting k ≡ 0 = ground arith in rw (empty, nothing) refl
  | inr some_wait ↦
      let left : ℕ = (k.head + 256 - (k.tail + 1) % 256) % 256 in
      let one : waiting k ≡ suc left = ground arith in rw (some_wait, one) refl
]

abbrev first_of : List ℕ → ℕ
first_of [] = 0
first_of (c ∷ q) = c

abbrev others_of : List ℕ → List ℕ
others_of [] = []
others_of (c ∷ q) = q

-- A read takes the oldest character.
pub keyboard_read-queue :
    {k : Keyboard} (c : ℕ) (q : List ℕ)
    → IsValid k
    → queue k ≡ c ∷ q
    → (k' : Keyboard) × (keyboard_read k ≡ some (c, k')) × IsValid k' × (queue k' ≡ q)
unfolding keyboard_read
keyboard_read-queue {k} c q v e = elim (Bool-cases (k.head == k.tail)) [
  | inl empty ↦
      let nothing : waiting k ≡ 0 = ground (arith, empty) in
      absurd (omega (arith, ap length (rw nothing at e)))
  | inr some_wait ↦
      let k' : Keyboard = record k { tail = (k.tail + 1) % 256 } in
      let one : waiting k ≡ suc (waiting k') = ground (arith, some_wait, v.head_in, v.tail_in) in
      let shape : get_or k.buffer k.tail 0 ∷ queue k' ≡ c ∷ q = rw one at e in
      let first : get_or k.buffer k.tail 0 ≡ c = ap first_of shape in
      (
        k',
        rw (some_wait, first) refl,
        record { storage = v.storage; head_in = v.head_in; tail_in = omega arith },
        ap others_of shape,
      )
]

-- What happens to the keyboard: an interrupt with a scan code, or a call of `keyboard_read`.
pub data Event : Type 0 where
  interrupt : ℕ → Event
  read : Event

-- The results of the reads, in order; a read that finds nothing gives `none`.
pub run : Keyboard → List Event → List (Option ℕ)
run k [] = []
run k (interrupt s ∷ es) = run (keyboard_handler k s) es
run k (read ∷ es) = elim (keyboard_read k) [
  | none ↦ none ∷ run k es
  | some (c, k') ↦ some c ∷ run k' es
]

pub run_typed : Typed → List Event → List (Option ℕ)
run_typed t [] = []
run_typed t (interrupt s ∷ es) = run_typed (press t s) es
run_typed t (read ∷ es) = elim (take_key t) [
  | none ↦ none ∷ run_typed t es
  | some (c, t') ↦ some c ∷ run_typed t' es
]

abbrev pub Bytes : List Event → Type 0
Bytes [] = Unit
Bytes (interrupt s ∷ es) = (s < 256) × Bytes es
Bytes (read ∷ es) = Bytes es

-- Through any sequence of interrupts and reads the driver gives the characters that a queue of at
-- most 255 characters with two modifiers gives.
pub run-run_typed :
    (es : List Event) {k : Keyboard} → IsValid k → Bytes es → run k es ≡ run_typed (view k) es
unfolding run run_typed
run-run_typed [] v b = refl
run-run_typed (interrupt s ∷ es) {k} v b =
    run-run_typed es (keyboard_handler-IsValid s v) b.1
    ∙ ap (λ t. run_typed t es) (keyboard_handler-press s v b.0)
run-run_typed (read ∷ es) {k} v b =
    rw (← keyboard_read-take_key v, run_typed)
      (elim (Option-cases (keyboard_read k)) [
        | inl empty ↦ rw (empty, run) (ap (λ t. none ∷ t) (run-run_typed es v b))
        | inr ((c, k'), got) ↦
            rw (got, run) (ap (λ t. some c ∷ t) (run-run_typed es (keyboard_read-IsValid v got) b))
      ])
