-- ===== src/Wait/Tests.antt =====
-- One thread that sleeps at a `struct synch_wait` of 12-tcp_stack and is woken, and what happens to a
-- second.
use computer_net_ucas.Common.{◌≡◌, ◌≢◌, refl, true, false}
use computer_net_ucas.Wait.{
  SynchWait, waits, wait_init, wait_exit, sleep_on, sleep_on_woken, wake_up,
}
use computer_net_ucas.Wait.Steps.{Reach, start, next, sleeps, IsAlert, Reach-IsAlert, Reach-wake_up}

abbrev asleep : SynchWait
asleep = record { notified = false; dead = false; sleep = true; waiting = 1; woken = 0 }

asleep_reached : Reach asleep
unfolding sleep_on
asleep_reached = next start (sleeps wait_init refl)

Reach-IsAlert_example : IsAlert asleep
Reach-IsAlert_example = Reach-IsAlert asleep_reached

Reach-wake_up_example :
    ((wake_up asleep).0.waiting ≡ 0)
    × ((wait_exit asleep).waiting ≡ 0)
    × ((sleep_on (wake_up asleep).0).1 ≢ waits)
Reach-wake_up_example = Reach-wake_up asleep asleep_reached

-- Two threads sleep; one is woken and clears `sleep`. The next `wake_up` tells nobody, and neither
-- does `wait_exit`: the second thread waits on.
abbrev left_behind : SynchWait
left_behind = (sleep_on_woken (wake_up (sleep_on (sleep_on wait_init).0).0).0).0

second_is_lost :
    ((wake_up left_behind).0.waiting ≡ 1) × ((wait_exit (wake_up left_behind).0).waiting ≡ 1)
unfolding wake_up wait_exit sleep_on sleep_on_woken
second_is_lost = (refl, refl)
