-- ===== src/Strings/Tokens.antt =====
-- `strtok` of kernel/string.c. What it was last given is an object that it writes to; its static
-- pointer is an offset in it, or NULL.
pub mod Step
use dionnex.Base.{
  ℕ, zero, suc, ◌+◌, Bool, true, false, not, Option, none, some, List, [], ◌∷◌, if◌then◌else◌, ◌==◌,
  drop, get_elem?, ◌>>=◌,
}
use dionnex.Strings.Memory.{store}
use dionnex.Strings.Text.{strchr}

pub record Strtok : Type 0 where
  pub str : List ℕ
  pub strtok_saved : Option ℕ

-- `strchr(delim, c)` as a truth value.
unfoldable pub is_delim : List ℕ → ℕ → Option Bool
is_delim delim c = do found ← strchr delim c; some (elim found [ none ↦ false | some i ↦ true ])

-- `while (*p && strchr(delim, *p) == wanted) p++`, over the bytes from offset `i` on.
pub scan : List ℕ → Bool → List ℕ → ℕ → Option ℕ
scan delim wanted [] i = none
scan delim wanted (zero ∷ s) i = some i
scan delim wanted (suc b ∷ s) i = do
  found ← is_delim delim (suc b)
  let rest = scan delim wanted s (i + 1)
  if (if wanted then found else not found) then rest else some i

-- From the start of the token, at offset `start`: its end.
pub end_token : Strtok → List ℕ → ℕ → Option (Strtok × Option ℕ)
end_token t delim start = do
  end ← scan delim false (drop start t.str) start
  last ← get_elem? t.str end
  cut ← store t.str end 0
  if last == 0
      then some (record t { strtok_saved = none }, some start)
      else some (record { str = cut; strtok_saved = some (end + 1) }, some start)

-- The walk from the offset in `strtok_saved`.
pub next_token : Strtok → List ℕ → Option ℕ → Option (Strtok × Option ℕ)
next_token t delim none = some (t, none)
next_token t delim (some saved) = do
  start ← scan delim true (drop saved t.str) saved
  first ← get_elem? t.str start
  let token = end_token t delim start
  if first == 0 then some (record t { strtok_saved = some start }, none) else token

-- The state, and the offset of the token. `str` is the object that is given, or NULL.
pub strtok : Strtok → Option (List ℕ) → List ℕ → Option (Strtok × Option ℕ)
strtok t none delim = next_token t delim t.strtok_saved
strtok t (some str) delim = next_token (record { str = str; strtok_saved = some 0 }) delim (some 0)
