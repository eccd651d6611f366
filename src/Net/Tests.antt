-- ===== src/Net/Tests.antt =====
-- The loopback buffers of net_chan.c on examples.
use co_d4x_client_pub.Common.{◌≡◌, refl, arith, true, List, [], ◌∷◌, replicate}
use co_d4x_client_pub.Net.{Loopback}
use co_d4x_client_pub.Net.Queue.{Call, pending, run, run_queue, final, run_refines}

abbrev idle : Loopback
idle = record { msgs = replicate 16 []; get = 0; send = 0; intact = true }

abbrev calls : List Call
calls = Call.put (1 ∷ []) ∷ Call.put (2 ∷ []) ∷ Call.take_one ∷ Call.take_one ∷ Call.take_one ∷ []

run_refines_example :
    (run idle calls ≡ run_queue (pending idle) calls) × ((final idle calls).intact ≡ true)
run_refines_example =
    run_refines calls idle
      (record { storage = refl; ordered = omega arith; countable = omega arith; intact = refl })
      (omega arith) (omega arith, (omega arith, (tt, (tt, (tt, tt)))))
