-- ===== src/Tests/Strings.antt =====
-- kernel/string.c at fixed inputs.
use dionnex.Base.{ℕ, ◌≡◌, ◌^◌, none, some, List, [], ◌∷◌, if◌then◌else◌, leb, arith, replicate}
use dionnex.Base.Int.{ℤ}
use dionnex.Strings.Memory.{memmove, memcpy}
use dionnex.Strings.Memory.Move.{Moved, memmove-Moved, memcpy-take-drop}
use dionnex.Strings.Text.{strlen, strcmp, strrchr}
use dionnex.Strings.Text.Holds.{Holds, ends, more, strlen-length}
use dionnex.Strings.Text.Compare.{Ordered, strcmp-Ordered}
use dionnex.Strings.Text.Search.{last_index, strrchr-last_index}
use dionnex.Strings.Number.{utoa, atoi}
use dionnex.Strings.Number.RoundTrip.{atoi-utoa}

abbrev hello : List ℕ
hello = b'h' ∷ b'e' ∷ b'l' ∷ b'l' ∷ b'o' ∷ 0 ∷ []

abbrev lo : List ℕ
lo = b'l' ∷ b'o' ∷ 0 ∷ 7 ∷ []

abbrev hello_text : List ℕ
hello_text = b'h' ∷ b'e' ∷ b'l' ∷ b'l' ∷ b'o' ∷ []

abbrev lo_text : List ℕ
lo_text = b'l' ∷ b'o' ∷ []

abbrev room : List ℕ
room = replicate 16 0

hello-Holds : Holds hello hello_text
hello-Holds = more (more (more (more (more ends))))

lo-Holds : Holds lo lo_text
lo-Holds = more (more ends)

memmove-Moved_example : (out : List ℕ) × (memmove hello 1 0 3 ≡ some out) × Moved hello 1 0 3 out
memmove-Moved_example = memmove-Moved hello 1 0 3 (omega arith) (omega arith)

memcpy-take-drop_example : memcpy hello lo 2 ≡ some (b'l' ∷ b'o' ∷ b'l' ∷ b'l' ∷ b'o' ∷ 0 ∷ [])
memcpy-take-drop_example = memcpy-take-drop hello lo 2 (omega arith) (omega arith)

strlen-length_example : strlen (some hello) ≡ some 5
strlen-length_example = strlen-length hello-Holds

strcmp-Ordered_example :
    (r : ℤ) × (strcmp (some hello) (some lo) ≡ some r) × Ordered r hello_text lo_text
strcmp-Ordered_example = strcmp-Ordered hello-Holds lo-Holds

strrchr-last_index_example : strrchr hello b'l' ≡ some (last_index b'l' hello_text 0)
strrchr-last_index_example = strrchr-last_index b'l' hello-Holds (omega arith)

atoi-utoa_example :
    (out : List ℕ) × (utoa 4095 room 10 ≡ some out)
    × (atoi out ≡ (if leb (2 ^ 31) 4095 then none else some 4095))
atoi-utoa_example = atoi-utoa 4095 room (omega arith) (omega arith)
