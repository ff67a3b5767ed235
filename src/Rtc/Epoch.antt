-- ===== src/Rtc/Epoch.antt =====
-- `rtc_get_ticks` against the dates counted day by day.
use dionnex.Base.{
  ℕ, zero, suc, ◌+◌, ◌*◌, ◌≤◌, ◌<◌, ◌≡◌, refl, ◌∙◌, inl, inr, ltb, ◌==◌, arith, Bool-cases,
}
use dionnex.Rtc.{RtcTime, days_since_epoch, rtc_get_ticks}
use dionnex.Rtc.Calendar.{Date, IsDate, month_length, next_date, days_of, next_date-days}

-- The date `n` days after 1 January 2000.
pub date_after : ℕ → Date
date_after zero = record { year = 2000; month = 1; day = 1 }
date_after (suc n) = next_date (date_after n)

-- What a date keeps, and how far its year can be.
record Reached (n : ℕ) (t : Date) : Type 0 where
  pub after : 2000 ≤ t.year
  pub year : t.year ≤ 2000 + n
  pub first_month : 1 ≤ t.month
  pub last_month : t.month ≤ 12
  pub first_day : 1 ≤ t.day
  pub last_day : t.day ≤ month_length t.year t.month

next_date-Reached : (n : ℕ) (t : Date) → Reached n t → Reached (suc n) (next_date t)
next_date-Reached n t r = elim (Bool-cases (ltb t.day (month_length t.year t.month))) [
  | inl inside ↦ rw inside (record {
    after = r.after;
    year = omega (arith, r.year);
    first_month = r.first_month;
    last_month = r.last_month;
    first_day = omega arith;
    last_day = ground arith;
  })
  | inr end ↦ elim (Bool-cases (t.month == 12)) [
    | inl december ↦
        rw (end, december)
          (record {
            after = omega (arith, r.after);
            year = omega (arith, r.year);
            first_month = omega arith;
            last_month = omega arith;
            first_day = omega arith;
            last_day = omega arith;
          })
    | inr other ↦
        rw (end, other)
          (record {
            after = r.after;
            year = omega (arith, r.year);
            first_month = omega arith;
            last_month = ground (arith, other, r.last_month);
            first_day = omega arith;
            last_day = ground arith;
          })
  ]
]

date_after-Reached : (n : ℕ) → Reached n (date_after n)
unfolding date_after
date_after-Reached zero = record {
  after = omega arith;
  year = omega arith;
  first_month = omega arith;
  last_month = omega arith;
  first_day = omega arith;
  last_day = omega arith;
}
date_after-Reached (suc n) = next_date-Reached n (date_after n) (date_after-Reached n)

date_after-days : (n : ℕ) → n < 50000 → days_of (date_after n) ≡ 10957 + n
unfolding date_after days_since_epoch
date_after-days zero small = refl
date_after-days (suc n) small =
    let r = date_after-Reached n in
    let v : IsDate (date_after n) = record {
      after = r.after;
      before = omega (arith, r.year);
      first_month = r.first_month;
      last_month = r.last_month;
      first_day = r.first_day;
      last_day = r.last_day;
    } in
    next_date-days (date_after n) v ∙ omega (arith, date_after-days n (omega arith))

-- A time of day on a date.
abbrev pub at_time : Date → ℕ → ℕ → ℕ → RtcTime
at_time t hour minute second = record {
  second = second;
  minute = minute;
  hour = hour;
  day = t.day;
  month = t.month;
  year = t.year;
}

-- On the date `n` days after 1 January 2000, for 38000 days, which is past the year 2100, at any
-- time of the day, `rtc_get_ticks` gives the seconds since 1 January 1970.
pub rtc_get_ticks-date_after :
    (n hour minute second : ℕ)
    → n < 38000
    → hour < 24
    → minute < 60
    → second < 60
    → rtc_get_ticks (at_time (date_after n) hour minute second)
      ≡ (((10957 + n) * 24 + hour) * 60 + minute) * 60 + second
unfolding rtc_get_ticks
rtc_get_ticks-date_after n hour minute second a b c d =
    let days = date_after-days n (omega (arith, a)) in rw days (omega arith)
