-- ===== src/Ring/Tests.antt =====
-- Runs of the ring buffer of 12-tcp_stack/include/ring_buffer.h on concrete bytes.
use computer_net_ucas.Common.{◌≡◌, refl, [], ◌∷◌, arith}
use computer_net_ucas.Ring.{Ring, ring_buffer_free, read_ring_buffer, write_ring_buffer}
use computer_net_ucas.Ring.Refine.{IsValid, contents}
use computer_net_ucas.Ring.Queue.{put, get, run, run_queue, run-run_queue}

-- Five places, the three unread bytes wrapped round the end.
abbrev wrapped : Ring
wrapped = record { size = 5; head = 3; tail = 1; buf = 30 ∷ 0 ∷ 0 ∷ 10 ∷ 20 ∷ [] }

wrapped-IsValid : IsValid wrapped
wrapped-IsValid = record { storage = refl; head_in = omega arith; tail_in = omega arith }

contents-wrapped : contents wrapped ≡ 10 ∷ 20 ∷ 30 ∷ []
unfolding computer_net_ucas.Ring.ring_buffer_used
contents-wrapped = refl

run-run_queue_example :
    run wrapped (get 2 ∷ put (40 ∷ 50 ∷ []) ∷ get 9 ∷ [])
    ≡ run_queue 4 (10 ∷ 20 ∷ 30 ∷ []) (get 2 ∷ put (40 ∷ 50 ∷ []) ∷ get 9 ∷ [])
unfolding computer_net_ucas.Ring.ring_buffer_used
run-run_queue_example =
    run-run_queue (get 2 ∷ put (40 ∷ 50 ∷ []) ∷ get 9 ∷ []) wrapped wrapped-IsValid
