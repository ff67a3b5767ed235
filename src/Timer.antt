-- ===== src/Timer.antt =====
-- kernel/timer.c: the ticks of the programmable interval timer. The calls of `schedule` are counted;
-- the bytes for the ports are the result of `timer_init`.
pub mod Sleep
use dionnex.Base.{
  ℕ, zero, suc, ◌+◌, ◌*◌, ◌/◌, ◌%◌, ◌^◌, Option, none, some, List, [], ◌∷◌, if◌then◌else◌, ltb,
  ◌==◌,
}
use dionnex.Strings.Number.{u32}

-- The file's two static variables, and how often `schedule` was called.
pub record Timer : Type 0 where
  pub timer_ticks : ℕ
  pub timer_freq : ℕ
  pub schedules : ℕ

abbrev pub pit_frequency : ℕ
pit_frequency = 1193182

pub timer_handler : Timer → Timer
timer_handler t =
    let ticks = u32 (t.timer_ticks + 1) in
    if ticks % 10 == 0
    then record t { timer_ticks = ticks; schedules = t.schedules + 1 }
    else record t { timer_ticks = ticks }

-- The three bytes that go to the ports 0x43, 0x40 and 0x40; none is a division by 0.
pub timer_init : Timer → ℕ → Option (Timer × List ℕ)
timer_init t frequency =
    let divisor = pit_frequency / frequency in
    if frequency == 0
    then none
    else some
        (record t { timer_freq = frequency }, 0x36 ∷ (divisor % 256 ∷ (divisor / 256 % 256 ∷ [])))

pub timer_get_ticks : Timer → ℕ
timer_get_ticks t = t.timer_ticks

-- `while (timer_ticks < target) hlt`, in which each `hlt` ends with an interrupt of the timer; none
-- is the end of the fuel.
pub sleep_until : ℕ → Timer → ℕ → Option Timer
sleep_until zero t target = none
sleep_until (suc fuel) t target =
    let rest = sleep_until fuel (timer_handler t) target in
    if ltb t.timer_ticks target then rest else some t

abbrev pub sleep_target : Timer → ℕ → ℕ
sleep_target t ms = u32 (t.timer_ticks + u32 (ms * t.timer_freq) / 1000)

pub timer_sleep : ℕ → Timer → ℕ → Option Timer
timer_sleep fuel t ms = sleep_until fuel t (sleep_target t ms)
