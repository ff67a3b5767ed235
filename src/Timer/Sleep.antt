-- ===== src/Timer/Sleep.antt =====
-- How long `timer_sleep` sleeps.
use dionnex.Base.{
  ℕ, zero, suc, ◌+◌, ◌*◌, ◌/◌, ◌%◌, ◌^◌, ◌<◌, ◌≡◌, refl, ◌∙◌, inl, inr, some, ltb, ◌==◌, true,
  false, arith, Bool-cases,
}
use dionnex.Strings.Number.{u32}
use dionnex.Timer.{Timer, timer_handler, sleep_until, sleep_target, timer_sleep}

-- `n` ticks later, with `schedule` called at every tenth tick.
pub record Later (t : Timer) (n : ℕ) (t' : Timer) : Type 0 where
  pub ticks : t'.timer_ticks ≡ t.timer_ticks + n
  pub freq : t'.timer_freq ≡ t.timer_freq
  pub schedules : t'.schedules + t.timer_ticks / 10 ≡ t.schedules + t'.timer_ticks / 10

timer_handler-Later : (t : Timer) → t.timer_ticks + 1 < 2 ^ 32 → Later t 1 (timer_handler t)
unfolding timer_handler
timer_handler-Later t word =
    let next : u32 (t.timer_ticks + 1) ≡ t.timer_ticks + 1 = omega arith in
    elim (Bool-cases ((t.timer_ticks + 1) % 10 == 0)) [
      | inl tenth ↦
          rw next
            (rw tenth (record { ticks = refl; freq = refl; schedules = ground (arith, tenth) }))
      | inr other ↦
          rw next
            (rw other (record { ticks = refl; freq = refl; schedules = ground (arith, other) }))
    ]

Later-trans : (t u v : Timer) (m n : ℕ) → Later t m u → Later u n v → Later t (m + n) v
Later-trans t u v m n a b = record {
  ticks = omega (arith, a.ticks, b.ticks);
  freq = b.freq ∙ a.freq;
  schedules = omega (arith, a.schedules, b.schedules);
}

sleep_until-Later :
    (n fuel : ℕ) (t : Timer)
    → n < fuel
    → t.timer_ticks + n < 2 ^ 32
    → (t' : Timer) × (sleep_until fuel t (t.timer_ticks + n) ≡ some t') × Later t n t'
unfolding sleep_until
sleep_until-Later n zero t h word = absurd (omega (arith, h))
sleep_until-Later zero (suc fuel) t h word =
    let stop : ltb t.timer_ticks (t.timer_ticks + 0) ≡ false = ground arith in
    (t, rw stop refl, record { ticks = omega arith; freq = refl; schedules = omega arith })
sleep_until-Later (suc n) (suc fuel) t h word =
    let go : ltb t.timer_ticks (t.timer_ticks + suc n) ≡ true = ground arith in
    let u = timer_handler t in
    let one = timer_handler-Later t (omega (arith, word)) in
    let same : t.timer_ticks + suc n ≡ u.timer_ticks + n = omega (arith, one.ticks) in
    let (v, run, l) = sleep_until-Later n fuel u (omega arith) (omega (arith, one.ticks, word)) in
    let count : 1 + n ≡ suc n = omega arith in
    (v, rw (go, same) run, rw count at (Later-trans t u v 1 n one l))

-- If neither the product of the milliseconds and the frequency nor the target passes 2^32, and the
-- fuel is more than the ticks, `timer_sleep` returns after as many ticks as the milliseconds have at
-- that frequency, and `schedule` is called at each tenth tick on the way.
pub timer_sleep-Later :
    (fuel : ℕ) (t : Timer) (ms : ℕ)
    → ms * t.timer_freq < 2 ^ 32
    → t.timer_ticks + ms * t.timer_freq / 1000 < 2 ^ 32
    → ms * t.timer_freq / 1000 < fuel
    → (t' : Timer) × (timer_sleep fuel t ms ≡ some t') × Later t (ms * t.timer_freq / 1000) t'
unfolding timer_sleep
timer_sleep-Later fuel t ms small word enough =
    let n = ms * t.timer_freq / 1000 in
    let target : sleep_target t ms ≡ t.timer_ticks + n = omega (arith, small, word) in
    let (t', run, l) = sleep_until-Later n fuel t enough word in (t', rw target run, l)
