-- ===== src/Rtc/Steady.antt =====
-- `rtc_read_time`: the reading that is taken, and its conversion.
use dionnex.Base.{
  ℕ, ◌+◌, ◌*◌, ◌/◌, ◌%◌, ◌<◌, ◌≤◌, ◌≡◌, refl, ap, ◌⊎◌, inl, inr, ◌&&◌, true, false, if◌then◌else◌,
  ◌==◌, some, List, [], ◌∷◌, ◌++◌, arith, Bool-cases,
}
use dionnex.Rtc.{RtcTime, bcd_to_bin, same_time, steady, convert, rtc_read_time}

-- A number below 100 in two decimal digits of four bits, and a time as the registers hold it.
abbrev pub bcd : ℕ → ℕ
bcd n = n / 10 * 16 + n % 10

bcd_to_bin-bcd : (n : ℕ) → n < 100 → bcd_to_bin (bcd n) ≡ n
unfolding bcd_to_bin
bcd_to_bin-bcd n small = omega arith

-- The registers at a time, in decimal digits; `hour` is the byte of the hour register.
abbrev pub registers : RtcTime → ℕ → RtcTime
registers t hour = record {
  second = bcd t.second;
  minute = bcd t.minute;
  hour = hour;
  day = bcd t.day;
  month = bcd t.month;
  year = bcd t.year;
}

-- Every field has at most two digits.
pub record Digits (t : RtcTime) : Type 0 where
  pub second : t.second < 100
  pub minute : t.minute < 100
  pub day : t.day < 100
  pub month : t.month < 100
  pub year : t.year < 100

abbrev pub clock : RtcTime → ℕ → RtcTime
clock t hour = record t { hour = hour; year = t.year + 2000 }

-- No two neighbours of these readings agree.
abbrev pub Torn : RtcTime → List RtcTime → Type 0
Torn last_t [] = Unit
Torn last_t (t ∷ readings) = (same_time t last_t ≡ false) × Torn t readings

same_time_self : (t : RtcTime) → same_time t t ≡ true
unfolding same_time
same_time_self t = ground arith

steady-Torn :
    (last_t : RtcTime) (readings : List RtcTime) (t : RtcTime) (later : List RtcTime)
    → Torn last_t readings
    → steady last_t (readings ++ (t ∷ (t ∷ later))) ≡ some t
unfolding steady
steady-Torn last_t [] t later torn = elim (Bool-cases (same_time t last_t)) [
  | inl equal ↦ rw equal refl
  | inr apart ↦ rw (apart, same_time_self t) refl
]
steady-Torn last_t (r ∷ readings) t later torn =
    rw (torn.0, steady-Torn r readings t later torn.1) refl

-- What the hour register and register B (in decimal digits) hold at the hour `h`: the hour in
-- 24-hour mode; in 12-hour mode, from 1 to 11 o'clock, the hour of the half day and the half.
abbrev pub HourByte : ℕ → ℕ → ℕ → Type 0
HourByte reg_b byte h =
    (reg_b / 4 % 2 ≡ 0)
    × ((reg_b / 2 % 2 ≡ 1) × (h < 24) × (byte ≡ bcd h)
        ⊎ (reg_b / 2 % 2 ≡ 0)
          × ((pm : ℕ) × (hour : ℕ) × (pm < 2)
              × (1 ≤ hour)
              × (hour < 12)
              × (h ≡ hour + 12 * pm)
              × (byte ≡ bcd hour + 128 * pm)))

-- The hour after the conversion.
abbrev hour_of : ℕ → ℕ → ℕ
hour_of reg_b decoded =
    if reg_b / 2 % 2 == 0 && decoded / 128 % 2 == 1 then (decoded % 128 + 12) % 24 else decoded

decoded_hour :
    (reg_b byte h : ℕ)
    → HourByte reg_b byte h
    → hour_of reg_b (bcd_to_bin (byte % 128) + byte / 128 % 2 * 128) ≡ h
unfolding bcd_to_bin
decoded_hour reg_b byte h (b, inl (c, small, e)) =
    let no_half : (reg_b / 2 % 2 == 0) ≡ false = ground (arith, c) in
    rw (no_half, e) (omega (arith, small))
decoded_hour reg_b byte h (b, inr (c, (pm, hour, half, lo, hi, is, e))) =
    let mode : (reg_b / 2 % 2 == 0) ≡ true = ground (arith, c) in
    let decoded : (byte % 128 / 16 * 10 + byte % 128 % 16) % 256 + byte / 128 % 2 * 128
        ≡ hour + 128 * pm =
      omega (arith, e) in
    let top : (hour + 128 * pm) / 128 % 2 ≡ pm = omega (arith, hi) in
    rw (mode, decoded, top) (ground (arith, is, half, hi))

converted :
    (reg_b byte h : ℕ) (t : RtcTime)
    → Digits t
    → HourByte reg_b byte h
    → convert reg_b (registers t byte) ≡ clock t h
unfolding convert
converted reg_b byte h t v hb =
    let digits : (reg_b / 4 % 2 == 0) ≡ true = ground (arith, hb.0) in
    let year : (t.year + 2000) % 65536 ≡ t.year + 2000 = omega (arith, v.year) in
    let low : bcd t.year % 256 ≡ bcd t.year = omega (arith, v.year) in
    rw
      (
        digits,
        low,
        bcd_to_bin-bcd t.second v.second,
        bcd_to_bin-bcd t.minute v.minute,
        bcd_to_bin-bcd t.day v.day,
        bcd_to_bin-bcd t.month v.month,
        bcd_to_bin-bcd t.year v.year,
        year,
      )
      (ap (clock t) (decoded_hour reg_b byte h hb))

-- After readings of which no two neighbours agree, two readings in a row of the registers, in
-- decimal digits, at one time end `rtc_read_time`, whatever is read later: it returns that time, in
-- 24 hours and with the full year. In 12-hour mode this is shown from 1 to 11 o'clock.
pub rtc_read_time-registers :
    (first : RtcTime) (readings later : List RtcTime) (t : RtcTime) (reg_b byte h : ℕ)
    → Torn first readings
    → Digits t
    → HourByte reg_b byte h
    → rtc_read_time first (readings ++ (registers t byte ∷ (registers t byte ∷ later))) reg_b
      ≡ some (clock t h)
unfolding rtc_read_time
rtc_read_time-registers first readings later t reg_b byte h torn v hb =
    rw (steady-Torn first readings (registers t byte) later torn, converted reg_b byte h t v hb)
      refl
