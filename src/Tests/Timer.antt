-- ===== src/Tests/Timer.antt =====
-- kernel/timer.c at fixed inputs.
use dionnex.Base.{◌≡◌, ◌*◌, ◌/◌, some, arith}
use dionnex.Timer.{Timer, timer_sleep}
use dionnex.Timer.Sleep.{Later, timer_sleep-Later}

abbrev at_1000 : Timer
at_1000 = record { timer_ticks = 1234; timer_freq = 100; schedules = 123 }

-- 50 ms are 5 ticks at 100 Hz.
timer_sleep-Later_example :
    (t' : Timer) × (timer_sleep 6 at_1000 50 ≡ some t') × Later at_1000 (50 * 100 / 1000) t'
timer_sleep-Later_example = timer_sleep-Later 6 at_1000 50 (omega arith) (omega arith) (omega arith)
