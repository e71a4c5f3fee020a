-- ===== src/Device/Loop.antt =====
-- The loop of ustack_run of 06-router/main.c against what it is for.
use computer_net_ucas.Common.{ℕ, ◌≡◌, refl, List, [], ◌∷◌, ◌++◌, All, map}
use mathlib.Core.List.{append_assoc}
use computer_net_ucas.Packet.{Iface}
use computer_net_ucas.Device.{
  Device, Arrival, quiet, recv_error, outgoing, no_memory, incoming, Poll, poll_error, poll_none,
  poll_ready, fd_of, receive_all, ustack_run,
}
use computer_net_ucas.Device.Init.{IsDistinct, IsFound, map-IsDistinct}

module _ {E : Type 0} where
  -- The frames of one poll, each with the device that it came in by.
  abbrev pub frames_in : List Device → List (Arrival E) → List (E × Iface × List ℕ)
  frames_in [] more = []
  frames_in (d ∷ ds) [] = []
  frames_in (d ∷ ds) (incoming env bytes ∷ more) = (env, d.iface, bytes) ∷ frames_in ds more
  frames_in (d ∷ ds) (quiet ∷ more) = frames_in ds more
  frames_in (d ∷ ds) (recv_error ∷ more) = frames_in ds more
  frames_in (d ∷ ds) (outgoing ∷ more) = frames_in ds more
  frames_in (d ∷ ds) (no_memory ∷ more) = frames_in ds more

  -- Those of all polls up to the first that fails.
  abbrev pub frames_of : List Device → List (Poll E) → List (E × Iface × List ℕ)
  frames_of ds [] = []
  frames_of ds (poll_error ∷ ps) = []
  frames_of ds (poll_none ∷ ps) = frames_of ds ps
  frames_of ds (poll_ready more ∷ ps) = frames_in ds more ++ frames_of ds ps

module _ {E S O : Type 0} where
  abbrev pub handle_all :
      (E → Iface → List ℕ → S → List O × S) → List (E × Iface × List ℕ) → S → List O × S
  handle_all handle [] s = ([], s)
  handle_all handle ((env, iface, bytes) ∷ fs) s =
      let done = handle env iface bytes s in
      let rest = handle_all handle fs done.1 in (done.0 ++ rest.0, rest.1)

  handle_all-append :
      (handle : E → Iface → List ℕ → S → List O × S) (fs gs : List (E × Iface × List ℕ)) (s : S)
      → handle_all handle (fs ++ gs) s ≡ (
        (handle_all handle fs s).0 ++ (handle_all handle gs (handle_all handle fs s).1).0,
        (handle_all handle gs (handle_all handle fs s).1).1,
      )
  handle_all-append handle [] gs s = refl
  handle_all-append handle ((env, iface, bytes) ∷ fs) gs s =
      rw
        (
          handle_all-append handle fs gs (handle env iface bytes s).1,
          append_assoc (handle env iface bytes s).0
              (handle_all handle fs (handle env iface bytes s).1).0
              (handle_all handle gs (handle_all handle fs (handle env iface bytes s).1).1).0,
        )
        refl

  receive_all-frames_in :
      (handle : E → Iface → List ℕ → S → List O × S) (devices ds : List Device)
      (more : List (Arrival E)) (s : S)
      → All (IsFound devices) ds
      → receive_all handle devices (map fd_of ds) more s ≡ handle_all handle (frames_in ds more) s
  unfolding receive_all
  receive_all-frames_in handle devices [] more s h = refl
  receive_all-frames_in handle devices (d ∷ ds) [] s h = refl
  receive_all-frames_in handle devices (d ∷ ds) (incoming env bytes ∷ more) s h =
      rw (h.0, receive_all-frames_in handle devices ds more (handle env d.iface bytes s).1 h.1) refl
  receive_all-frames_in handle devices (d ∷ ds) (quiet ∷ more) s h =
      receive_all-frames_in handle devices ds more s h.1
  receive_all-frames_in handle devices (d ∷ ds) (recv_error ∷ more) s h =
      receive_all-frames_in handle devices ds more s h.1
  receive_all-frames_in handle devices (d ∷ ds) (outgoing ∷ more) s h =
      receive_all-frames_in handle devices ds more s h.1
  receive_all-frames_in handle devices (d ∷ ds) (no_memory ∷ more) s h =
      receive_all-frames_in handle devices ds more s h.1

  -- When the descriptors polled are those of the devices and no two are the same, the loop hands each
  -- frame that comes in to the handling, in the order of the polls and of the devices, with the
  -- interface of its own device, and does nothing else; it ends with the first poll that fails.
  pub ustack_run-handle_all :
      (handle : E → Iface → List ℕ → S → List O × S) (devices : List Device) (polls : List (Poll E))
      (s : S)
      → IsDistinct (map fd_of devices)
      → ustack_run handle devices (map fd_of devices) polls s
        ≡ handle_all handle (frames_of devices polls) s
  unfolding ustack_run
  ustack_run-handle_all handle devices [] s h = refl
  ustack_run-handle_all handle devices (poll_error ∷ ps) s h = refl
  ustack_run-handle_all handle devices (poll_none ∷ ps) s h =
      ustack_run-handle_all handle devices ps s h
  ustack_run-handle_all handle devices (poll_ready more ∷ ps) s h =
      rw
        (
          receive_all-frames_in handle devices devices more s (map-IsDistinct devices h),
          ustack_run-handle_all handle devices ps (handle_all handle (frames_in devices more) s).1
              h,
          handle_all-append handle (frames_in devices more) (frames_of devices ps) s,
        )
        refl
