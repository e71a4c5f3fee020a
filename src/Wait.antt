-- ===== src/Wait.antt =====
-- 12-tcp_stack/include/synch_wait.h (10-tcp_stack has the same file): the waiting structure of connect,
-- accept and receive. The threads that use one are modelled by the state of its fields and how many
-- of them wait on the condition variable, are woken but not yet running, or have returned; the mutex
-- makes each stretch of code between lock and unlock, or up to the wait, one step. A signal wakes
-- one waiting thread, a broadcast all.
pub mod Steps
mod Tests
use computer_net_ucas.Common.{ℕ, zero, suc, ◌+◌, ◌-◌, Bool, true, false, ltb, if◌then◌else◌}

-- `struct synch_wait`, and the threads in `pthread_cond_wait`: those that still wait, and those
-- that have been woken.
pub record SynchWait : Type 0 where
  pub notified : Bool
  pub dead : Bool
  pub sleep : Bool
  pub waiting : ℕ
  pub woken : ℕ

-- `wait_init`.
abbrev pub wait_init : SynchWait
wait_init = record { notified = false; dead = false; sleep = false; waiting = 0; woken = 0 }

abbrev pub cond_signal : SynchWait → SynchWait
cond_signal w =
    if ltb 0 w.waiting then record w { waiting = w.waiting - 1; woken = w.woken + 1 } else w

abbrev pub cond_broadcast : SynchWait → SynchWait
cond_broadcast w = record w { waiting = 0; woken = w.woken + w.waiting }

-- `wait_exit`.
unfoldable pub wait_exit : SynchWait → SynchWait
wait_exit w =
    if w.dead
    then w
    else (let dying = record w { dead = true } in if w.sleep then cond_broadcast dying else dying)

-- Where a call of `sleep_on` gets to: it waits, or returns 0 or -1.
pub data Sleep : Type 0 where
  waits awake refused : Sleep

-- The end of `sleep_on`.
abbrev pub rise : SynchWait → SynchWait
rise w = record w { notified = false; sleep = false }

abbrev pub result : SynchWait → Sleep
result w = if w.dead then refused else awake

-- `sleep_on` up to the wait, or to its end where it does not wait.
unfoldable pub sleep_on : SynchWait → SynchWait × Sleep
sleep_on w =
    if w.dead
    then (w, refused)
    else if w.notified
    then (rise w, awake)
    else (record w { sleep = true; waiting = w.waiting + 1 }, waits)

-- `sleep_on` after the wait, in a thread that has been woken.
unfoldable pub sleep_on_woken : SynchWait → SynchWait × Sleep
sleep_on_woken w = (rise (record w { woken = w.woken - 1 }), result w)

-- `wake_up`; its result is -1 where the structure is dead.
unfoldable pub wake_up : SynchWait → SynchWait × Sleep
wake_up w =
    if w.dead
    then (w, refused)
    else if w.notified
    then (w, awake)
    else (let told = record w { notified = true } in
        (if w.sleep then cond_signal told else told, awake))
