-- ===== src/Loader/Info.antt =====
-- The text of `module_get_proc_info` and its room.
use dionnex.Base.{
  ℕ, ◌+◌, ◌-◌, ◌^◌, ◌≤◌, ◌<◌, ◌≡◌, refl, inl, inr, false, some, List, [], ◌∷◌, ◌++◌, if◌then◌else◌,
  ltb, ◌==◌, replicate, length, length-append, arith, Bool-cases,
}
use dionnex.Strings.Number.{u32}
use dionnex.Strings.Number.Print.{printed}
use dionnex.Strings.Number.Shown.{utoa-text, length-printed_le}
use dionnex.Loader.{
  LoadedModule, Loader, live_text, number_text, info_line, info_from, module_get_proc_info,
}

-- Names that fit into their arrays, and words.
abbrev pub AllFit : List LoadedModule → Type 0
AllFit [] = Unit
AllFit (m ∷ rest) =
    (length m.name ≤ 63) × (m.total_size < 2 ^ 32) × (m.base_addr < 2 ^ 32) × AllFit rest

number_text-printed :
    (val base : ℕ)
    → val < 2 ^ 32
    → 10 ≤ base
    → base ≤ 36
    → val < base ^ 10
    → number_text val base ≡ some (printed val base [])
unfolding number_text
number_text-printed val base word low high ten =
    let (buf, run, shown) = utoa-text val base (replicate 64 0) word low high ten (omega arith) in
    rw run shown

-- `name size 0 - Live 0xbase`
abbrev pub shown_line : LoadedModule → List ℕ
shown_line m =
    m.name
    ++ ((b' ' ∷ [])
        ++ (printed m.total_size 10 []
            ++ (live_text ++ (printed m.base_addr 16 [] ++ (0x0a ∷ [])))))

info_line-shown_line :
    (m : LoadedModule)
    → m.total_size < 2 ^ 32
    → m.base_addr < 2 ^ 32
    → info_line m ≡ some (shown_line m)
unfolding info_line
info_line-shown_line m size base =
    rw (number_text-printed m.total_size 10 size (omega arith) (omega arith) (omega (arith, size)))
      (rw
        (number_text-printed m.base_addr 16 base (omega arith) (omega arith) (omega (arith, base)))
        refl)

length-shown_line :
    (m : LoadedModule)
    → length m.name ≤ 63
    → m.total_size < 2 ^ 32
    → m.base_addr < 2 ^ 32
    → length (shown_line m) ≤ 97
length-shown_line m name size base =
    let size_text = printed m.total_size 10 [] in
    let base_text = printed m.base_addr 16 [] in
    let e₁ = length-append base_text (0x0a ∷ []) in
    let e₂ = length-append live_text (base_text ++ (0x0a ∷ [])) in
    let e₃ = length-append size_text (live_text ++ (base_text ++ (0x0a ∷ []))) in
    let e₄ =
      length-append m.name
        ((b' ' ∷ []) ++ (size_text ++ (live_text ++ (base_text ++ (0x0a ∷ []))))) in
    omega (
      arith,
      e₁,
      e₂,
      e₃,
      e₄,
      length-printed_le m.total_size 10 (omega arith) (omega (arith, size)),
      length-printed_le m.base_addr 16 (omega arith) (omega (arith, base)),
    )

-- The lines of the modules as long as the text is 128 characters shorter than the buffer.
unfoldable pub lines_within : List LoadedModule → List ℕ → ℕ → List ℕ
lines_within [] buf max_len = buf
lines_within (m ∷ rest) buf max_len =
    let more = lines_within rest (buf ++ shown_line m) max_len in
    if ltb (length buf + 128) max_len then more else buf

info_from-lines :
    (list : List LoadedModule) (buf : List ℕ) (max_len : ℕ)
    → AllFit list
    → 128 ≤ max_len
    → max_len < 2 ^ 32
    → length buf < max_len
    → (info_from list buf max_len ≡ some (lines_within list buf max_len))
      × (length (lines_within list buf max_len) < max_len)
unfolding info_from lines_within
info_from-lines [] buf max_len fit room word here = (refl, here)
info_from-lines (m ∷ rest) buf max_len fit room word here =
    let same : ltb (length buf) (u32 (max_len + 2 ^ 32 - 128)) ≡ ltb (length buf + 128) max_len =
      ground arith in
    let line = info_line-shown_line m fit.1 fit.2 in
    elim (Bool-cases (ltb (length buf + 128) max_len)) [
      | inl more ↦
          let size = length-shown_line m fit.0 fit.1 fit.2 in
          let longer : length (buf ++ shown_line m) < max_len =
            ground (arith, more, size, length-append buf (shown_line m)) in
          rw (same, more)
            (rw line (info_from-lines rest (buf ++ shown_line m) max_len fit.3 room word longer))
      | inr full ↦ rw (same, full) (refl, here)
    ]

-- In a buffer of at least 128 bytes `module_get_proc_info` writes a line for each module, from the
-- head, as long as 128 characters are left, and the text with its NUL fits into the buffer.
pub module_get_proc_info-lines_within :
    (s : Loader) (max_len : ℕ)
    → AllFit s.module_list
    → 128 ≤ max_len
    → max_len < 2 ^ 32
    → (module_get_proc_info s max_len ≡ some (lines_within s.module_list [] max_len))
      × (length (lines_within s.module_list [] max_len) < max_len)
unfolding module_get_proc_info
module_get_proc_info-lines_within s max_len fit room word =
    let some_room : (max_len == 0) ≡ false = ground (arith, room) in
    rw some_room (info_from-lines s.module_list [] max_len fit room word (omega (arith, room)))
