-- ===== src/Rtc.antt =====
-- drivers/rtc.c: the real time clock. What the ports give is an argument: the readings of the six
-- registers, each taken after the wait for the update flag, and register B.
pub mod Calendar
pub mod Epoch
pub mod Steady
use dionnex.Base.{
  ℕ, ◌+◌, ◌-◌, ◌*◌, ◌/◌, ◌%◌, ◌^◌, ◌&&◌, Bool, Option, none, some, List, [], ◌∷◌, if◌then◌else◌,
  leb, ltb, ◌==◌, not, ◌>>=◌,
}
use dionnex.Strings.Number.{u32}

-- `rtc_time_t`
pub record RtcTime : Type 0 where
  pub second : ℕ
  pub minute : ℕ
  pub hour : ℕ
  pub day : ℕ
  pub month : ℕ
  pub year : ℕ

pub bcd_to_bin : ℕ → ℕ
bcd_to_bin val = (val / 16 * 10 + val % 16) % 256

-- The test of the loop, negated: nothing has changed between two readings.
pub same_time : RtcTime → RtcTime → Bool
same_time t last_t =
    t.second == last_t.second
    && t.minute == last_t.minute
    && t.hour == last_t.hour
    && t.day == last_t.day
    && t.month == last_t.month
    && t.year == last_t.year

-- The loop that reads until two readings agree, behind the reading `last_t`; `none` if the readings
-- end before.
pub steady : RtcTime → List RtcTime → Option RtcTime
steady last_t [] = none
steady last_t (t ∷ readings) =
    let rest = steady t readings in if same_time t last_t then some t else rest

-- `reg_b & 0x04` and `reg_b & 0x02`; bit 7 of the hour is put back by `|` over a number below it.
pub convert : ℕ → RtcTime → RtcTime
convert reg_b raw =
    let pm = raw.hour / 128 % 2 in
    let decoded : RtcTime =
      if reg_b / 4 % 2 == 0
      then record {
        second = bcd_to_bin raw.second;
        minute = bcd_to_bin raw.minute;
        hour = bcd_to_bin (raw.hour % 128) + pm * 128;
        day = bcd_to_bin raw.day;
        month = bcd_to_bin raw.month;
        year = bcd_to_bin (raw.year % 256);
      }
      else raw in
    let hour =
      if reg_b / 2 % 2 == 0 && decoded.hour / 128 % 2 == 1
      then (decoded.hour % 128 + 12) % 24
      else decoded.hour in
    record decoded { hour = hour; year = (decoded.year + 2000) % 65536 }

-- The readings are not empty.
pub rtc_read_time : RtcTime → List RtcTime → ℕ → Option RtcTime
rtc_read_time first readings reg_b = do t ← steady first readings; some (convert reg_b t)

-- The days of `rtc_get_ticks`; January and February count to the year before.
pub days_since_epoch : ℕ → ℕ → ℕ → ℕ
days_since_epoch year month d =
    let y = if leb month 2 then (year + 65535) % 65536 else year in
    let m = if leb month 2 then month + 12 else month in
    let era = y / 400 in
    let yoe = y - era * 400 in
    let doy = u32 ((153 * (m - 3) + 2) / 5 + d + 2 ^ 32 - 1) in
    let doe = u32 (yoe * 365 + yoe / 4 + 2 ^ 32 - yoe / 100 + doy) in
    u32 (era * 146097 + doe + 2 ^ 32 - 719468)

pub rtc_get_ticks : RtcTime → ℕ
rtc_get_ticks t =
    u32 (days_since_epoch t.year t.month t.day * 86400 + t.hour * 3600 + t.minute * 60 + t.second)
