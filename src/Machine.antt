-- ===== src/Machine.antt =====
-- The memory as bytes by address, for code that reads and writes structures through pointers. An
-- address is below 2 ^ 32, and so is a word, least byte first; `memset` and `memcpy` of
-- kernel/string.c are here in terms of it.
pub mod Words
pub mod Blocks
use dionnex.Base.{ℕ, zero, suc, ◌+◌, ◌*◌, ◌/◌, ◌%◌, ◌&&◌, Bool, List, [], ◌∷◌, if◌then◌else◌, ◌==◌}
use dionnex.Strings.Number.{u32}

abbrev pub Memory : Type 0
Memory = ℕ → ℕ

-- uint16_t and uint32_t
unfoldable pub half : Memory → ℕ → ℕ
half mem a = mem a + 256 * mem (u32 (a + 1))

unfoldable pub word : Memory → ℕ → ℕ
unfolding half
word mem a = half mem a + 65536 * half mem (u32 (a + 2))

abbrev pub set_byte : Memory → ℕ → ℕ → Memory
set_byte mem at v a = if a == at then v % 256 else mem a

unfoldable pub set_half : Memory → ℕ → ℕ → Memory
set_half mem at v = set_byte (set_byte mem at v) (u32 (at + 1)) (v / 256)

unfoldable pub set_word : Memory → ℕ → ℕ → Memory
unfolding set_half
set_word mem at v = set_half (set_half mem at v) (u32 (at + 2)) (v / 65536)

unfoldable pub set_bytes : Memory → ℕ → ℕ → ℕ → Memory
set_bytes mem dest c zero = mem
set_bytes mem dest c (suc n) = set_bytes (set_byte mem dest c) (u32 (dest + 1)) c n

unfoldable pub copy_bytes : Memory → ℕ → ℕ → ℕ → Memory
copy_bytes mem dest src zero = mem
copy_bytes mem dest src (suc n) =
    copy_bytes (set_byte mem dest (mem src)) (u32 (dest + 1)) (u32 (src + 1)) n

-- `strcmp(s, name) == 0` for the string at an address and a text.
pub is_string : Memory → ℕ → List ℕ → Bool
is_string mem s [] = mem s == 0
is_string mem s (c ∷ name) = mem s == c && is_string mem (u32 (s + 1)) name
