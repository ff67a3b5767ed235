-- ===== src/Rtc/Calendar.antt =====
-- The day count of `rtc_get_ticks` against the calendar: the date that follows another.
use dionnex.Base.{
  ℕ, ◌+◌, ◌-◌, ◌*◌, ◌/◌, ◌%◌, ◌≤◌, ◌<◌, ◌≡◌, sym, ap, ◌∙◌, inl, inr, ◌&&◌, ◌||◌, not, Bool, true,
  false, if◌then◌else◌, leb, ltb, ◌==◌, arith, Bool-cases,
}
use dionnex.Rtc.{days_since_epoch}

pub record Date : Type 0 where
  pub year : ℕ
  pub month : ℕ
  pub day : ℕ

abbrev pub is_leap : ℕ → Bool
is_leap y = y % 4 == 0 && (not (y % 100 == 0) || y % 400 == 0)

abbrev pub month_length : ℕ → ℕ → ℕ
month_length y m =
    if m == 2
    then if is_leap y then 29 else 28
    else if m == 4 || m == 6 || m == 9 || m == 11
    then 30
    else 31

abbrev pub next_date : Date → Date
next_date t =
    if ltb t.day (month_length t.year t.month)
    then record t { day = t.day + 1 }
    else if t.month == 12
    then record { year = t.year + 1; month = 1; day = 1 }
    else record t { month = t.month + 1; day = 1 }

-- A date of the calendar from the year 2000 on, far from the end of 16 bits.
pub record IsDate (t : Date) : Type 0 where
  pub after : 2000 ≤ t.year
  pub before : t.year < 60000
  pub first_month : 1 ≤ t.month
  pub last_month : t.month ≤ 12
  pub first_day : 1 ≤ t.day
  pub last_day : t.day ≤ month_length t.year t.month

-- The count without wrap-around, from March on and before.
abbrev since : ℕ → ℕ → ℕ → ℕ
since y m d = y / 400 * 146097 + (y % 400) * 365 + y % 400 / 4 + (153 * m + 2) / 5 + d

late :
    (y m d : ℕ)
    → 2000 ≤ y
    → y < 60001
    → 3 ≤ m
    → m ≤ 12
    → 1 ≤ d
    → d ≤ 31
    → days_since_epoch y m d + y % 400 / 100 + 719469 ≡ since y (m - 3) d
unfolding days_since_epoch
late y m d lo hi a b c e = let no : leb m 2 ≡ false = ground arith in rw no (omega arith)

early :
    (y m d : ℕ)
    → 2000 ≤ y
    → y < 60001
    → 1 ≤ m
    → m ≤ 2
    → 1 ≤ d
    → d ≤ 31
    → days_since_epoch y m d + (y - 1) % 400 / 100 + 719469 ≡ since (y - 1) (m + 9) d
unfolding days_since_epoch
early y m d lo hi a b c e =
    let yes_ : leb m 2 ≡ true = ground arith in
    let prev : (y + 65535) % 65536 ≡ y - 1 = omega arith in rw (yes_, prev) (omega arith)

month_step :
    (y m : ℕ)
    → 3 ≤ m
    → m ≤ 12
    → (153 * (m - 3) + 2) / 5 + month_length y m ≡ (153 * (m - 2) + 2) / 5
month_step y m lo hi = ground arith

month_length-le : (y m : ℕ) → month_length y m ≤ 31
month_length-le y m = ground arith

-- The year that starts in March.
february :
    (y d : ℕ)
    → 2000 ≤ y
    → d ≡ month_length y 2
    → since (y - 1) 11 d + 1 + y % 400 / 100 ≡ since y 0 1 + (y - 1) % 400 / 100
february y d lo e = ground (arith, e)

abbrev pub days_of : Date → ℕ
days_of t = days_since_epoch t.year t.month t.day

-- The last day of a month and the first of the next, in each part of the year.
module _ (y d : ℕ) (lo : 2000 ≤ y) (hi : y < 60000) where
  january_end : d ≡ month_length y 1 → days_since_epoch y 2 1 ≡ days_since_epoch y 1 d + 1
  january_end e =
      let long : d ≡ 31 = ground (arith, e) in
      let here =
        early y 1 d lo (omega arith) (omega arith) (omega arith) (omega arith) (omega arith) in
      let there =
        early y 2 1 lo (omega arith) (omega arith) (omega arith) (omega arith) (omega arith) in
      omega (arith, here, there, long)

  february_end : d ≡ month_length y 2 → days_since_epoch y 3 1 ≡ days_since_epoch y 2 d + 1
  february_end e =
      let long : d ≤ 29 = ground (arith, e) in
      let short : 1 ≤ d = ground (arith, e) in
      let here = early y 2 d lo (omega arith) (omega arith) (omega arith) short (omega arith) in
      let there =
        late y 3 1 lo (omega arith) (omega arith) (omega arith) (omega arith) (omega arith) in
      omega (arith, here, there, february y d lo e)

  later_end :
      (m : ℕ)
      → 3 ≤ m
      → m ≤ 11
      → d ≡ month_length y m
      → days_since_epoch y (m + 1) 1 ≡ days_since_epoch y m d + 1
  later_end m a b e =
      let step = month_step y m a (omega arith) in
      let long = month_length-le y m in
      let short : 1 ≤ d = ground (arith, e) in
      let here = late y m d lo (omega arith) a (omega arith) short (omega (arith, e)) in
      let there =
        late y (m + 1) 1 lo (omega arith) (omega arith) (omega arith) (omega arith) (omega arith) in
      omega (arith, here, there, step, e)

  year_end : d ≡ month_length y 12 → days_since_epoch (y + 1) 1 1 ≡ days_since_epoch y 12 d + 1
  year_end e =
      let long : d ≡ 31 = ground (arith, e) in
      let here =
        late y 12 d lo (omega arith) (omega arith) (omega arith) (omega arith) (omega arith) in
      let there =
        early (y + 1) 1 1 (omega arith) (omega arith) (omega arith) (omega arith) (omega arith)
          (omega arith) in
      omega (arith, here, there, long)

month_end :
    (t : Date)
    → IsDate t
    → ltb t.day (month_length t.year t.month) ≡ false
    → days_of (next_date t) ≡ days_of t + 1
month_end t v end =
    let last : t.day ≡ month_length t.year t.month = ground (arith, v.last_day) in
    elim (Bool-cases (t.month == 12)) [
      | inl december ↦
          let m : t.month ≡ 12 = ground arith in
          let g =
            year_end t.year t.day v.after v.before (last ∙ ap (λ k. month_length t.year k) m) in
          rw (end, december) (g ∙ here (sym m))
      | inr other ↦
          rw (end, other)
            (elim (Bool-cases (leb 3 t.month)) [
              | inl late_ ↦
                  later_end t.year t.day v.after v.before t.month (ground arith)
                    (ground (arith, v.last_month, other)) last
              | inr winter ↦ elim (Bool-cases (t.month == 1)) [
                | inl january ↦
                    let m : t.month ≡ 1 = ground arith in
                    let g =
                      january_end t.year t.day v.after v.before
                        (last ∙ ap (λ k. month_length t.year k) m) in
                    next m ∙ g ∙ here (sym m)
                | inr not_january ↦
                    let m : t.month ≡ 2 = ground (arith, v.first_month) in
                    let g =
                      february_end t.year t.day v.after v.before
                        (last ∙ ap (λ k. month_length t.year k) m) in
                    next m ∙ g ∙ here (sym m)
              ]
            ])
    ]
  where
    here :
        {a b : ℕ}
        → a ≡ b
        → days_since_epoch t.year a t.day + 1 ≡ days_since_epoch t.year b t.day + 1
    here e = ap (λ k. days_since_epoch t.year k t.day + 1) e

    next : {a b : ℕ} → a ≡ b → days_since_epoch t.year (a + 1) 1 ≡ days_since_epoch t.year (b + 1) 1
    next e = ap (λ k. days_since_epoch t.year (k + 1) 1) e

-- The count goes up by one from each date to the next.
pub next_date-days : (t : Date) → IsDate t → days_of (next_date t) ≡ days_of t + 1
next_date-days t v =
    let long = month_length-le t.year t.month in
    elim (Bool-cases (ltb t.day (month_length t.year t.month))) [
      | inl inside ↦ rw inside (elim (Bool-cases (leb t.month 2)) [
        | inl winter ↦
            let here =
              early t.year t.month t.day v.after (omega (arith, v.before)) v.first_month
                (ground arith) v.first_day (omega (arith, v.last_day)) in
            let there =
              early t.year t.month (t.day + 1) v.after (omega (arith, v.before)) v.first_month
                (ground arith) (omega arith) (ground arith) in
            omega (arith, here, there)
        | inr rest ↦
            let here =
              late t.year t.month t.day v.after (omega (arith, v.before)) (ground arith)
                v.last_month v.first_day (omega (arith, v.last_day)) in
            let there =
              late t.year t.month (t.day + 1) v.after (omega (arith, v.before)) (ground arith)
                v.last_month (omega arith) (ground arith) in
            omega (arith, here, there)
      ])
      | inr end ↦ month_end t v end
    ]
