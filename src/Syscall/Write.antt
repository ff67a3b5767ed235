-- ===== src/Syscall/Write.antt =====
-- `sys_write` against the writing of a text.
use dionnex.Base.{
  ℕ, zero, suc, ◌+◌, ◌≡◌, refl, inl, inr, ◌||◌, not, ◌&&◌, some, List, [], ◌∷◌, if◌then◌else◌, ◌==◌,
  Bool-cases, Option-cases, ◌>>=◌,
}
use dionnex.Machine.{Memory}
use dionnex.Strings.Number.{u32}
use dionnex.Vga.{Vga, vga_putchar, vga_write}
use dionnex.Syscall.{Kernel, minus_one, write_chars, sys_write}

-- The bytes at an address.
unfoldable pub bytes_at : Memory → ℕ → ℕ → List ℕ
bytes_at mem a zero = []
bytes_at mem a (suc n) = mem a ∷ bytes_at mem (u32 (a + 1)) n

write_chars-vga_write :
    (n : ℕ) (v : Vga) (mem : Memory) (s : ℕ)
    → write_chars n v mem s ≡ vga_write v (bytes_at mem s n)
unfolding write_chars vga_write bytes_at
write_chars-vga_write zero v mem s = refl
write_chars-vga_write (suc n) v mem s = elim (Option-cases (vga_putchar v (mem s))) [
  | inl fault ↦ rw fault refl
  | inr (v', run) ↦ rw run (write_chars-vga_write n v' mem (u32 (s + 1)))
]

-- `sys_write` to 1 or 2 from a buffer writes its bytes as `vga_write` does, changes nothing else and
-- returns how many they are; to any other descriptor, or without a buffer, it returns -1 and
-- changes nothing.
pub sys_write-vga_write :
    (k : Kernel) (fd buf len : ℕ)
    → sys_write k fd buf len ≡ (
        if not (buf == 0) && (fd == 1 || fd == 2)
        then (do
          screen ← vga_write k.screen (bytes_at k.mem buf len)
          some (record k { screen = screen }, len))
        else some (k, minus_one))
unfolding sys_write
sys_write-vga_write k fd buf len = elim (Bool-cases (buf == 0)) [
  | inl null ↦ rw null refl
  | inr there ↦ elim (Bool-cases (fd == 1 || fd == 2)) [
    | inl out ↦ rw (there, out) (rw (write_chars-vga_write len k.screen k.mem buf) refl)
    | inr other ↦ rw (there, other) refl
  ]
]
