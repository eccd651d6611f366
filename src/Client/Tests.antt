-- ===== src/Client/Tests.antt =====
-- Messages on the reliable stream on examples.
use co_d4x_client_pub.Common.{ℕ, sym, append-nil, ◌≡◌, refl, List, [], ◌∷◌, ◌++◌, take, drop, arith}
use co_d4x_client_pub.Net.{Adr, AdrType, Sock}
use co_d4x_client_pub.Reliable.{Fragment, Chan, setup}
use co_d4x_client_pub.Reliable.Receive
use co_d4x_client_pub.Reliable.Deliver.{readable}
use co_d4x_client_pub.Client.Frames.{Stream}
use co_d4x_client_pub.Client.Stuck.{Event, run, run_stuck}

-- A receive window of one place, with a message of one byte.
abbrev came : Fragment
came = record { data_bytes = 1 ∷ 0 ∷ 0 ∷ 0 ∷ 7 ∷ []; len = 5; ack = 0; packetnum = 0; senttime = 0 }

abbrev address : Adr
address = record { kind = AdrType.ip; scope_id = 0; port = 28960; ip = 127 ∷ 0 ∷ 0 ∷ 1 ∷ [] }

abbrev chan : Chan
chan = setup 7 Sock.client address []

abbrev receiver : Chan
receiver = record chan {
  rxwindow = record chan.rxwindow { bufferlen = 1; windowsize = 1; fragments = came ∷ [] };
}

-- A stream of bytes that are all there.
abbrev receive : List ℕ → ℕ → List ℕ × List ℕ
receive s n = (take n s, drop n s)

abbrev bytes_stream : Stream receive
bytes_stream = record {
  IsGood = λ s. Unit;
  readable = λ s. s;
  later = λ s n. [];
  taken = λ s n g. refl;
  left = λ s n g. sym (append-nil (drop n s));
  good = λ s n g. tt;
}

-- The rest of the length comes, with its message, and two more calls.
abbrev events : List (Event (List ℕ))
events = Event.change (λ s. s ++ 0 ∷ 0 ∷ 0 ∷ 7 ∷ 7 ∷ []) ∷ Event.call 10 3 ∷ Event.call 10 3 ∷ []

run_stuck_example :
    let all = run receive (Event.call 10 3 ∷ events) [] (2 ∷ []) in (all.0 ≡ []) × (all.1 ≡ 2 ∷ [])
run_stuck_example =
    run_stuck receive bytes_stream events 10 2 (2 ∷ []) (omega arith) tt (omega arith) (omega arith)
