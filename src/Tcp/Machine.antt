-- ===== src/Tcp/Machine.antt =====
-- The state machine of 10-tcp_stack/tcp_in.c and its timer.
use computer_net_ucas.Common.{
  ℕ, ◌+◌, ◌≡◌, refl, ap, ◌∙◌, Bool, true, false, some, List, [], ◌∷◌, ◌++◌, ◌==◌, if◌then◌else◌,
  All, All-append,
}
use computer_net_ucas.Tcp.{
  TcpState, tcp_closed, tcp_listen, tcp_syn_recv, tcp_syn_sent, tcp_established, tcp_close_wait,
  tcp_last_ack, tcp_fin_wait_1, tcp_fin_wait_2, tcp_closing, tcp_time_wait, TcpSock, TcpCb, Stack,
  tcp_rst, has_flag,
}
use computer_net_ucas.Tcp.Process.{
  is_tcp_seq_valid, process_in, tcp_process, tcp_set_timewait_timer,
}
use computer_net_ucas.Tcp.Socket.{scan_from, tcp_scan_timer_list}

-- The states in which a packet is held against the window, or ignored.
abbrev pub IsGuarded : TcpState → Type 0
IsGuarded tcp_syn_recv = Unit
IsGuarded tcp_established = Unit
IsGuarded tcp_fin_wait_1 = Unit
IsGuarded tcp_fin_wait_2 = Unit
IsGuarded tcp_closing = Unit
IsGuarded tcp_close_wait = Unit
IsGuarded tcp_last_ack = Unit
IsGuarded tcp_time_wait = Unit
IsGuarded tcp_closed = ⊥
IsGuarded tcp_listen = ⊥
IsGuarded tcp_syn_sent = ⊥

if-same {ℓ} : {A : Type ℓ} (b : Bool) (x : A) → (if b then x else x) ≡ x
if-same true x = refl
if-same false x = refl

process_in_outside :
    (st : TcpState) (t : ℕ) (cb : TcpCb) (iss : ℕ) (s : Stack)
    → IsGuarded st
    → is_tcp_seq_valid (s.socks t) cb ≡ false
    → process_in st t cb iss s ≡ s
unfolding process_in
process_in_outside tcp_syn_recv t cb iss s g h = rw h (if-same (cb.flags == 16) s)
process_in_outside tcp_established t cb iss s g h = rw h refl
process_in_outside tcp_fin_wait_1 t cb iss s g h = rw h (
    ap (λ x. if cb.flags == 16 then s else x)
      (ap (λ x. if cb.flags == 1 then s else x) (if-same (cb.flags == 17) s)
        ∙ if-same (cb.flags == 1) s)
    ∙ if-same (cb.flags == 16) s)
process_in_outside tcp_fin_wait_2 t cb iss s g h = refl
process_in_outside tcp_closing t cb iss s g h = rw h (if-same (cb.flags == 16) s)
process_in_outside tcp_close_wait t cb iss s g h = refl
process_in_outside tcp_last_ack t cb iss s g h = rw h (if-same (cb.flags == 16) s)
process_in_outside tcp_time_wait t cb iss s g h = refl
process_in_outside tcp_closed t cb iss s g h = absurd g
process_in_outside tcp_listen t cb iss s g h = absurd g
process_in_outside tcp_syn_sent t cb iss s g h = absurd g

-- In every state but CLOSED, LISTEN and SYN_SENT, a packet that is not a reset and lies outside
-- the window changes nothing in the stack and is not answered.
pub tcp_process_outside :
    (t : ℕ) (cb : TcpCb) (iss : ℕ) (s : Stack)
    → IsGuarded (s.socks t).state
    → has_flag cb.flags tcp_rst ≡ false
    → is_tcp_seq_valid (s.socks t) cb ≡ false
    → tcp_process (some t) cb iss s ≡ s
unfolding tcp_process
tcp_process_outside t cb iss s g plain h =
    rw plain (process_in_outside (s.socks t).state t cb iss s g h)

scan_from-disabled :
    (now : ℕ) (ts : List ℕ) (s : Stack)
    → All (λ t. (s.socks t).enable ≡ 0) ts
    → scan_from now ts s ≡ s
unfolding scan_from
scan_from-disabled now [] s h = refl
scan_from-disabled now (t ∷ ts) s h = rw h.0 (scan_from-disabled now ts s h.1)

set_timewait-enable :
    (t j : ℕ) (s : Stack)
    → (s.socks t).enable ≡ 0
    → (s.socks j).enable ≡ 0
    → ((tcp_set_timewait_timer t s).socks j).enable ≡ 0
unfolding tcp_set_timewait_timer
set_timewait-enable t j s this that = split (j == t)
  where
    split :
        (b : Bool)
        → (let k : TcpSock =
              if b
              then record (s.socks t) { timeout = 2000000; ref_cnt = (s.socks t).ref_cnt + 1 }
              else s.socks j in
            k.enable ≡ 0)
    split true = this
    split false = that

-- A scan right after `tcp_set_timewait_timer` does nothing, at whatever time it comes, as long as no
-- timer is enabled, and the function enables none: a socket stays in TIME_WAIT.
pub tcp_set_timewait_timer-tcp_scan_timer_list :
    (now t : ℕ) (s : Stack)
    → All (λ u. (s.socks u).enable ≡ 0) s.timer_list
    → (s.socks t).enable ≡ 0
    → (tcp_scan_timer_list now (tcp_set_timewait_timer t s) ≡ tcp_set_timewait_timer t s)
      × All
          (λ u. ((tcp_set_timewait_timer t s).socks u).enable ≡ 0)
          (tcp_set_timewait_timer t s).timer_list
unfolding tcp_scan_timer_list tcp_set_timewait_timer
tcp_set_timewait_timer-tcp_scan_timer_list now t s rest this =
    let all =
      All-append (λ u. ((tcp_set_timewait_timer t s).socks u).enable ≡ 0) s.timer_list (t ∷ [])
        (kept s.timer_list rest) (set_timewait-enable t t s this this, tt) in
    (scan_from-disabled now (s.timer_list ++ (t ∷ [])) (tcp_set_timewait_timer t s) all, all)
  where
    kept :
        (ts : List ℕ)
        → All (λ u. (s.socks u).enable ≡ 0) ts
        → All (λ u. ((tcp_set_timewait_timer t s).socks u).enable ≡ 0) ts
    kept [] h = tt
    kept (u ∷ us) h = (set_timewait-enable t u s this h.0, kept us h.1)
