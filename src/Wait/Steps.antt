-- ===== src/Wait/Steps.antt =====
-- The threads at one `struct synch_wait` of 12-tcp_stack/include/synch_wait.h, step by step.
use computer_net_ucas.Common.{◌+◌, ◌-◌, ◌≤◌, ◌<◌, ◌≡◌, ◌≢◌, true, false, arith}
use computer_net_ucas.Wait.{
  SynchWait, waits, wait_init, wait_exit, sleep_on, sleep_on_woken, wake_up,
}

-- A step of some thread, where a thread calls `sleep_on` only when no other one is in it. A thread
-- that waits may wake up without a signal, as the documentation of `pthread_cond_wait` allows.
pub data Step : SynchWait → SynchWait → Type 0 where
  sleeps : (w : SynchWait) → w.waiting + w.woken ≡ 0 → Step w (sleep_on w).0
  rises : (w : SynchWait) → 0 < w.woken → Step w (sleep_on_woken w).0
  stirs :
      (w : SynchWait)
      → 0 < w.waiting
      → Step w (record w { waiting = w.waiting - 1; woken = w.woken + 1 })
  wakes : (w : SynchWait) → Step w (wake_up w).0
  exits : (w : SynchWait) → Step w (wait_exit w)

pub data Reach : SynchWait → Type 0 where
  start : Reach wait_init
  next : {w v : SynchWait} → Reach w → Step w v → Reach v

-- A thread that sleeps is known to do so, and it waits only where nobody has notified it or exited.
pub record IsAlert (w : SynchWait) : Type 0 where
  pub single : w.waiting + w.woken ≤ 1
  pub known : 0 < w.waiting + w.woken → w.sleep ≡ true
  pub quiet : 0 < w.waiting → w.notified ≡ false
  pub alive : 0 < w.waiting → w.dead ≡ false

Step-IsAlert : {w v : SynchWait} → Step w v → IsAlert w → IsAlert v
unfolding sleep_on sleep_on_woken wake_up wait_exit
Step-IsAlert (sleeps w free) h = ground arith
Step-IsAlert (rises w some_woken) h = ground arith
Step-IsAlert (stirs w some_waiting) h = ground arith
Step-IsAlert (wakes w) h = ground arith
Step-IsAlert (exits w) h = ground arith

no_wait :
    (w : SynchWait)
    → IsAlert w
    → ((wake_up w).0.waiting ≡ 0)
      × ((wait_exit w).waiting ≡ 0)
      × ((sleep_on (wake_up w).0).1 ≢ waits)
unfolding wake_up wait_exit sleep_on
no_wait w h = (ground arith, ground arith, λ e. ground arith)

-- No notification is lost: in every state that is reached with one thread at a time in `sleep_on`, a
-- thread waits only where nothing has been notified and nothing has exited.
pub Reach-IsAlert : {w : SynchWait} → Reach w → IsAlert w
Reach-IsAlert start = ground arith
Reach-IsAlert (next r st) = Step-IsAlert st (Reach-IsAlert r)

-- Where at most one thread at a time is in `sleep_on`, no thread waits after `wake_up` or after
-- `wait_exit` in any state that is reached, and a call of `sleep_on` that comes after `wake_up` does
-- not wait.
pub Reach-wake_up :
    (w : SynchWait)
    → Reach w
    → ((wake_up w).0.waiting ≡ 0)
      × ((wait_exit w).waiting ≡ 0)
      × ((sleep_on (wake_up w).0).1 ≢ waits)
Reach-wake_up w r = no_wait w (Reach-IsAlert r)
