-- ===== src/Stp/Timers.antt =====
-- 04_stp/stp_timer.c: the one-shot timer behind the periodic hello. Times are ticks of 1/256 second.
use computer_net_ucas.Common.{ℕ, ◌+◌, Bool, true, false, leb, if◌then◌else◌}

-- `stp_timer_t`, less the link into the timer list and the callback, which is always the hello.
pub record Timer : Type 0 where
  pub active : Bool
  pub time : ℕ
  pub timeout : ℕ

unfoldable pub stp_init_timer : ℕ → Timer
stp_init_timer timeout = record { active = false; time = 0; timeout = timeout }

unfoldable pub stp_start_timer : Timer → ℕ → Timer
stp_start_timer t time = record t { active = true; time = time }

unfoldable pub stp_stop_timer : Timer → Timer
stp_stop_timer t = record t { active = false }

-- The timer afterwards, and whether it has fired.
unfoldable pub stp_check_timer : Timer → ℕ → Timer × Bool
stp_check_timer t now =
    if t.active
    then (if leb (t.time + t.timeout) now then (record t { active = false }, true) else (t, false))
    else (t, false)
