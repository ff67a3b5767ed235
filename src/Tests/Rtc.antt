-- ===== src/Tests/Rtc.antt =====
-- drivers/rtc.c at fixed inputs.
use dionnex.Base.{◌+◌, ◌*◌, ◌≡◌, arith}
use dionnex.Rtc.{rtc_get_ticks}
use dionnex.Rtc.Epoch.{date_after, at_time, rtc_get_ticks-date_after}

rtc_get_ticks-date_after_example :
    rtc_get_ticks (at_time (date_after 60) 13 5 9) ≡ (((10957 + 60) * 24 + 13) * 60 + 5) * 60 + 9
rtc_get_ticks-date_after_example =
    rtc_get_ticks-date_after 60 13 5 9 (omega arith) (omega arith) (omega arith) (omega arith)
