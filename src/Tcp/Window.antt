-- ===== src/Tcp/Window.antt =====
-- The sequence numbers of 10-tcp_stack: the comparisons of include/tcp.h and the window test of
-- tcp_in.c against offsets from the number expected next.
use computer_net_ucas.Common.{
  ℕ, ◌+◌, ◌^◌, ◌<◌, ◌≡◌, refl, ap, ap₂, ◌∙◌, Bool, true, false, ◌&&◌, ltb, leb, if◌then◌else◌,
  arith,
}
use computer_net_ucas.Word.{u32_mod, add32, sub32}
use computer_net_ucas.Tcp.{TcpSock, TcpCb, less_than_32b, less_or_equal_32b}
use computer_net_ucas.Tcp.Process.{is_tcp_seq_valid}

-- The window that the test uses is never empty.
abbrev pub window : TcpSock → ℕ
window k = if ltb 1 k.rcv_wnd then k.rcv_wnd else 1

-- The offset of a number from another, on the circle of 32-bit numbers.
offset : (a d : ℕ) → a < u32_mod → d < u32_mod → sub32 (add32 a d) a ≡ d
offset a d ha hd = omega arith

ahead :
    (a d e : ℕ)
    → a < u32_mod
    → d < 2 ^ 31
    → e < 2 ^ 31
    → less_than_32b (add32 a d) (add32 a e) ≡ ltb d e
ahead a d e ha hd he = ground arith

at_most_ahead : (a d : ℕ) → a < u32_mod → d < 2 ^ 31 → less_or_equal_32b a (add32 a d) ≡ true
at_most_ahead a d ha hd = ground arith

at_most :
    (a d e : ℕ)
    → a < u32_mod
    → d < 2 ^ 30
    → e < 2 ^ 30
    → less_or_equal_32b (add32 a d) (add32 a e) ≡ leb d e
at_most a d e ha hd he = ground arith

and-true : (b : Bool) → (b && true) ≡ b
and-true true = refl
and-true false = refl

window-lt : (k : TcpSock) → k.rcv_wnd < 2 ^ 16 → window k < 2 ^ 16
window-lt k h = ground arith

window-pos : (k : TcpSock) → 0 < window k
window-pos k = ground arith

-- A segment of `len` bytes that starts `off` bytes after the number expected next, `off + len`
-- below 2 ^ 31, is valid exactly where it starts inside the window, wherever on the circle of
-- 32-bit numbers that is; a closed window counts as one byte.
pub is_tcp_seq_valid_lem :
    (k : TcpSock) (cb : TcpCb) (off len : ℕ)
    → k.rcv_nxt < u32_mod
    → k.rcv_wnd < 2 ^ 16
    → off + len < 2 ^ 31
    → cb.seq ≡ add32 k.rcv_nxt off
    → cb.seq_end ≡ add32 cb.seq len
    → is_tcp_seq_valid k cb ≡ ltb off (window k)
unfolding is_tcp_seq_valid
is_tcp_seq_valid_lem k cb off len word wnd near start end =
    let stop : cb.seq_end ≡ add32 k.rcv_nxt (off + len) = end ∙ omega arith in
    ap₂ (λ x y. x && y)
      (ap (λ n. less_than_32b n (add32 k.rcv_nxt (window k))) start
        ∙ ahead k.rcv_nxt off (window k) word (omega arith) (omega (arith, window-lt k wnd)))
      (ap (λ n. less_or_equal_32b k.rcv_nxt n) stop ∙ at_most_ahead k.rcv_nxt (off + len) word near)
    ∙ and-true (ltb off (window k))

-- A segment of `len` bytes that starts `back` bytes before the number expected next, both below 2
-- ^ 30, is valid exactly where it reaches that number.
pub is_tcp_seq_valid_old :
    (k : TcpSock) (cb : TcpCb) (back len : ℕ)
    → k.rcv_nxt < u32_mod
    → k.rcv_wnd < 2 ^ 16
    → back < 2 ^ 30
    → len < 2 ^ 30
    → k.rcv_nxt ≡ add32 cb.seq back
    → cb.seq < u32_mod
    → cb.seq_end ≡ add32 cb.seq len
    → is_tcp_seq_valid k cb ≡ leb back len
unfolding is_tcp_seq_valid
is_tcp_seq_valid_old k cb back len word wnd near short start seq end =
    let begin : cb.seq ≡ add32 cb.seq 0 = omega arith in
    let stop : add32 k.rcv_nxt (window k) ≡ add32 cb.seq (back + window k) = omega arith in
    let inside : less_than_32b cb.seq (add32 k.rcv_nxt (window k)) ≡ true =
      ap (less_than_32b cb.seq) stop
      ∙ ap (λ n. less_than_32b n (add32 cb.seq (back + window k))) begin
      ∙ ahead cb.seq 0 (back + window k) seq (omega arith) (omega (arith, window-lt k wnd))
      ∙ positive (back + window k) (omega (arith, window-pos k)) in
    ap₂ (λ x y. x && y) inside
      (ap₂ less_or_equal_32b start end ∙ at_most cb.seq back len seq near short)
  where
    positive : (n : ℕ) → 0 < n → ltb 0 n ≡ true
    positive n h = ground arith
