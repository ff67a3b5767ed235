-- ===== src/Keyboard.antt =====
-- drivers/keyboard.c: the interrupt handler turns scan codes into characters in a ring of 256
-- places, and `keyboard_read` takes them out.
pub mod Fifo
use Prim.Native.Nat.{bit_and}
use dionnex.Base.{
  ℕ, ◌+◌, ◌-◌, ◌%◌, Bool, true, false, not, Option, none, some, List, [], ◌∷◌, ◌&&◌, ◌||◌,
  if◌then◌else◌, ltb, leb, ◌==◌, get_or, set,
}

-- `scancode_set1` up to its last entry; the places behind it are 0.
abbrev pub scancode_set1 : List ℕ
scancode_set1 =
    0 ∷ 27 ∷ b'1' ∷ b'2' ∷ b'3' ∷ b'4' ∷ b'5' ∷ b'6' ∷ b'7' ∷ b'8' ∷ b'9' ∷ b'0' ∷ b'-' ∷ b'=' ∷ 8
    ∷ 9 ∷ b'q' ∷ b'w' ∷ b'e' ∷ b'r' ∷ b't' ∷ b'y' ∷ b'u' ∷ b'i' ∷ b'o' ∷ b'p' ∷ b'[' ∷ b']' ∷ 10 ∷ 0
    ∷ b'a' ∷ b's' ∷ b'd' ∷ b'f' ∷ b'g' ∷ b'h' ∷ b'j' ∷ b'k' ∷ b'l' ∷ b';' ∷ 39 ∷ b'`' ∷ 0 ∷ 92
    ∷ b'z' ∷ b'x' ∷ b'c' ∷ b'v' ∷ b'b' ∷ b'n' ∷ b'm' ∷ b',' ∷ b'.' ∷ b'/' ∷ 0 ∷ b'*' ∷ 0 ∷ b' ' ∷ []

abbrev pub scancode_set1_shift : List ℕ
scancode_set1_shift =
    0 ∷ 27 ∷ b'!' ∷ b'@' ∷ b'#' ∷ b'$' ∷ b'%' ∷ b'^' ∷ b'&' ∷ b'*' ∷ b'(' ∷ b')' ∷ b'_' ∷ b'+' ∷ 8
    ∷ 9 ∷ b'Q' ∷ b'W' ∷ b'E' ∷ b'R' ∷ b'T' ∷ b'Y' ∷ b'U' ∷ b'I' ∷ b'O' ∷ b'P' ∷ b'{' ∷ b'}' ∷ 10 ∷ 0
    ∷ b'A' ∷ b'S' ∷ b'D' ∷ b'F' ∷ b'G' ∷ b'H' ∷ b'J' ∷ b'K' ∷ b'L' ∷ b':' ∷ 34 ∷ b'~' ∷ 0 ∷ b'|'
    ∷ b'Z' ∷ b'X' ∷ b'C' ∷ b'V' ∷ b'B' ∷ b'N' ∷ b'M' ∷ b'<' ∷ b'>' ∷ b'?' ∷ 0 ∷ b'*' ∷ 0 ∷ b' ' ∷ []

-- The file's static variables.
pub record Keyboard : Type 0 where
  pub buffer : List ℕ
  pub head : ℕ
  pub tail : ℕ
  pub shift_pressed : Bool
  pub caps_lock : Bool

-- The character of a key press, 0 for none. The tables have 128 places, and the handler looks up
-- codes below 128 only.
unfoldable pub key_char : Bool → Bool → ℕ → ℕ
key_char shift caps scancode =
    let c = get_or (if shift then scancode_set1_shift else scancode_set1) scancode 0 in
    if caps && (leb b'a' c && leb c b'z')
    then c - b'a' + b'A'
    else if caps && (leb b'A' c && leb c b'Z')
    then c - b'A' + b'a'
    else c

-- The last part of the handler: a character for which there is no room is dropped.
pub put_char : Keyboard → ℕ → Keyboard
put_char k c =
    let next_head = (k.head + 1) % 256 in
    if c == 0
    then k
    else if next_head == k.tail
    then k
    else record k { buffer = set k.buffer k.head c; head = next_head }

-- The handler, given the byte that the port holds.
pub keyboard_handler : Keyboard → ℕ → Keyboard
keyboard_handler k scancode =
    if scancode == 0x2A || scancode == 0x36
    then record k { shift_pressed = true }
    else if scancode == 0xAA || scancode == 0xB6
    then record k { shift_pressed = false }
    else if scancode == 0x3A
    then record k { caps_lock = not k.caps_lock }
    else if not (bit_and scancode 0x80 == 0)
    then k
    else put_char k (if ltb scancode 128 then key_char k.shift_pressed k.caps_lock scancode else 0)

pub keyboard_has_input : Keyboard → Bool
keyboard_has_input k = not (k.head == k.tail)

-- `none` while the ring is empty: there the code halts until an interrupt, and tests again.
pub keyboard_read : Keyboard → Option (ℕ × Keyboard)
keyboard_read k =
    if k.head == k.tail
    then none
    else some (get_or k.buffer k.tail 0, record k { tail = (k.tail + 1) % 256 })
