-- ===== src/Router/Main.antt =====
-- main of 06-router/main.c: the start of the stack, its loop and the thread of the ARP cache, as a run
-- of the router.
use computer_net_ucas.Common.{
  ◌>>=◌, ℕ, ◌≡◌, refl, sym, ap, ◌∙◌, inl, inr, Bool, not, Option, none, some, List, [], ◌∷◌, ◌++◌,
  if◌then◌else◌, map, some-eq, Bool-cases, Option-cases,
}
use mathlib.Core.List.{append_assoc}
use computer_net_ucas.Packet.{Iface}
use computer_net_ucas.Forward.{RtEntry}
use computer_net_ucas.Arp.{Call, arpcache_init}
use computer_net_ucas.Device.{Ustack, IfAddr, Kernel, Poll, iface_of, init_all_ifaces, ustack_run}
use computer_net_ucas.Device.Init.{IsDistinct, init_all_ifaces-fd_to_iface}
use computer_net_ucas.Device.Loop.{frames_of, handle_all, ustack_run-handle_all}
use computer_net_ucas.Rtable.{RtMsg, parse_routing_info}
use computer_net_ucas.Router.{Env, Router, Event, frame, sweep, step, handle_packet, run}

-- The state in which `ustack_run` starts.
abbrev pub start : Ustack → ℕ × List RtEntry → Router
start u loaded = record {
  ifaces = map iface_of u.iface_list;
  rtable = loaded.1;
  arpcache = arpcache_init;
}

-- The rounds of the thread that arpcache_init starts, at the given times.
abbrev pub sweeps : List ℕ → List Event
sweeps times = map sweep times

-- What the loop and the sweeping thread do for a frame: the rounds that the thread makes since the
-- frame before, and the handling of the frame. A round between the lookup of an address and the
-- queueing of its packet does what it does before the lookup, since it drops entries only.
unfoldable pub swept_packet : Env × List ℕ → Iface → List ℕ → Router → List Call × Router
unfolding run handle_packet
swept_packet (env, times) iface bytes r =
    let swept = run (sweeps times) r in
    let done = handle_packet env iface bytes swept.1 in (swept.0 ++ done.0, done.1)

-- `main` with the results of its polls and the rounds of the sweeping thread: those before each frame
-- that comes in, and the `last` after it. None is an exit.
unfoldable pub main :
    Bool
    → (List ℕ → Kernel)
    → List IfAddr
    → (ℕ → Option (List ℕ))
    → List ℕ
    → List RtMsg
    → List (Poll (Env × List ℕ))
    → List ℕ
    → Option (List Call × Router)
unfolding ustack_run swept_packet
main superuser kernel addrs if_index_to_name junk msgs polls last =
    if not superuser then none else do
      u ← init_all_ifaces kernel addrs
      loaded ← parse_routing_info if_index_to_name junk u.iface_list msgs
      let looped = ustack_run swept_packet u.iface_list u.fds polls (start u loaded)
      let ended = run (sweeps last) looped.1
      some (looped.0 ++ ended.0, ended.1)

-- The steps of the router that the frames of the loop are, with the rounds of the sweep.
abbrev pub events_of : List ((Env × List ℕ) × Iface × List ℕ) → List Event
events_of [] = []
events_of (((env, times), iface, bytes) ∷ fs) =
    sweeps times ++ (frame env iface bytes ∷ events_of fs)

run-append :
    (es fs : List Event) (r : Router)
    → run (es ++ fs) r ≡ ((run es r).0 ++ (run fs (run es r).1).0, (run fs (run es r).1).1)
unfolding run
run-append [] fs r = refl
run-append (e ∷ es) fs r =
    rw
      (
        run-append es fs (step e r).1,
        append_assoc (step e r).0 (run es (step e r).1).0 (run fs (run es (step e r).1).1).0,
      )
      refl

handle_all-run :
    (fs : List ((Env × List ℕ) × Iface × List ℕ)) (r : Router)
    → handle_all swept_packet fs r ≡ run (events_of fs) r
unfolding run step swept_packet
handle_all-run [] r = refl
handle_all-run (((env, times), iface, bytes) ∷ fs) r =
    let swept = run (sweeps times) r in
    let done = handle_packet env iface bytes swept.1 in
    rw
      (
        run-append (sweeps times) (frame env iface bytes ∷ events_of fs) r,
        handle_all-run fs done.1,
        append_assoc swept.0 done.0 (run (events_of fs) done.1).0,
      )
      refl

-- A main that does not exit, with no two of its descriptors the same, has run the router over exactly
-- the frames that came in up to the first failed poll, each on the interface of the descriptor it came
-- in by, and over the rounds of the sweeping thread before, between and after them, from an empty ARP
-- cache and the table that was loaded.
pub main-run :
    (superuser : Bool) (kernel : List ℕ → Kernel) (addrs : List IfAddr)
    (if_index_to_name : ℕ → Option (List ℕ)) (junk : List ℕ) (msgs : List RtMsg)
    (polls : List (Poll (Env × List ℕ))) (last : List ℕ) (out : List Call × Router) (u : Ustack)
    → main superuser kernel addrs if_index_to_name junk msgs polls last ≡ some out
    → init_all_ifaces kernel addrs ≡ some u
    → IsDistinct u.fds
    → (loaded : ℕ × List RtEntry) × (parse_routing_info if_index_to_name junk u.iface_list msgs
        ≡ some loaded)
      × (out ≡ run (events_of (frames_of u.iface_list polls) ++ sweeps last) (start u loaded))
unfolding main
main-run superuser kernel addrs names junk msgs polls last out u e opened distinct =
    elim (Bool-cases superuser) [
      | inr user ↦ absurd (cc (rw user at e))
      | inl root ↦
          let e' = rw (root, opened) at e in
          elim (Option-cases (parse_routing_info names junk u.iface_list msgs)) [
            | inl failed ↦ absurd (cc (rw failed at e'))
            | inr (loaded, parsed) ↦
                let (_, polled, _) = init_all_ifaces-fd_to_iface kernel addrs u opened distinct in
                let result = some-eq _ out (rw parsed at e') in
                let events = events_of (frames_of u.iface_list polls) in
                let looped =
                  ap (λ fds. ustack_run swept_packet u.iface_list fds polls (start u loaded))
                    (sym polled)
                  ∙ ustack_run-handle_all swept_packet u.iface_list polls (start u loaded)
                      (rw (← polled) at distinct)
                  ∙ handle_all-run (frames_of u.iface_list polls) (start u loaded) in
                (
                  loaded,
                  parsed,
                  sym result
                      ∙ ap
                          (λ (o : List Call × Router).
                            (o.0 ++ (run (sweeps last) o.1).0, (run (sweeps last) o.1).1))
                          looped
                      ∙ sym (run-append events (sweeps last) (start u loaded)),
                )
          ]
    ]
