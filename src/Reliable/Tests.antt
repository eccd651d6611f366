-- ===== src/Reliable/Tests.antt =====
-- The windows of net_reliabletransport.c on examples.
use co_d4x_client_pub.Common.{
  ℕ, zero, suc, ◌-◌, ◌%◌, ◌≤◌, ◌<◌, ◌≡◌, refl, sym, ap, All, arith, Option, none, some, List, [],
  ◌∷◌, ◌++◌, replicate, take, drop, length, length-replicate, minus_one, get_or,
}
use co_d4x_client_pub.Msg.{Msg, init}
use co_d4x_client_pub.Net.{Adr, AdrType, Sock}
use co_d4x_client_pub.Reliable.{
  Fragment, Frame, Chan, slot, no_fragment, get_acknowledge, setup, max_fragment_size,
}
use co_d4x_client_pub.Common.{◌+◌, ◌*◌, false, min, leb, if◌then◌else◌}
use co_d4x_client_pub.Reliable.Transmit.{write_selective_acklist}
use co_d4x_client_pub.Reliable.Ranges.{arrivals, begun, ended}
use co_d4x_client_pub.Reliable.Acklist.{write_selective_acklist-size}
use co_d4x_client_pub.Reliable.Receive.{cached, receive, receive_next_fragment}
use co_d4x_client_pub.Reliable.Send.{send}
use co_d4x_client_pub.Reliable.Deliver.{IsWhole, readable, window_bytes, receive-takes}
use co_d4x_client_pub.Reliable.Ring.{IsRing, queued, mod_lt}
use co_d4x_client_pub.Msg.Stream.{IsByte}
use co_d4x_client_pub.Reliable.Resize.{Allocates, HoldsWhole, send-queues}
use co_d4x_client_pub.Reliable.Invariant.{Moves, receive_next_fragment-Moves}

abbrev address : Adr
address = record { kind = AdrType.ip; scope_id = 0; port = 28960; ip = 127 ∷ 0 ∷ 0 ∷ 1 ∷ [] }

abbrev blank : Fragment
blank = record {
  data_bytes = replicate 1200 0;
  len = 0;
  ack = minus_one;
  packetnum = 0;
  senttime = 0;
}

abbrev chan : Chan
chan = setup 7 Sock.client address (replicate 32 blank)

-- A receive window of two places, with one fragment of two bytes.
abbrev came : Fragment
came = record { data_bytes = 5 ∷ 6 ∷ []; len = 2; ack = 0; packetnum = 0; senttime = 0 }

abbrev receiver : Chan
receiver = record chan {
  rxwindow = record chan.rxwindow {
    bufferlen = 2;
    windowsize = 2;
    fragments = came ∷ no_fragment ∷ [];
  };
}

one_came : (j : ℕ) → j < 1 → IsWhole (slot (came ∷ no_fragment ∷ []) 2 j)
one_came zero h = record { within = omega arith; bounded = omega arith }
one_came (suc j) h = absurd (omega arith)

receive-takes_example :
    let rx = receiver.rxwindow in
    let r = receive receiver 1 in
    let rx' = r.1.rxwindow in
    (r.0 ≡ take 1 (readable rx))
    × (cached rx'.fragmentbuffer ++ window_bytes rx (get_acknowledge rx - rx'.sequence) rx'.sequence
        ≡ drop 1 (readable rx))
unfolding setup init get_acknowledge
receive-takes_example =
    receive-takes receiver 1 (λ j a b. one_came j b) (length-replicate {A = ℕ} 1200 0) (omega arith)

-- An allocator that always has memory, all zero.
abbrev memory : ℕ → Option (List Fragment)
memory n = some (replicate n blank)

abbrev fragments_of : Option (List Fragment) → List Fragment
fragments_of none = []
fragments_of (some frags) = frags

replicate-room :
    (n j : ℕ)
    → j < n
    → max_fragment_size ≤ length (get_or (replicate n blank) j no_fragment).data_bytes
replicate-room zero j h = absurd (omega arith)
replicate-room (suc n) zero h = omega arith
replicate-room (suc n) (suc j) h = replicate-room n j (omega arith)

memory-Allocates : Allocates memory
memory-Allocates n frags e =
    rw (sym (ap fragments_of e)) (length-replicate n blank, replicate-room n)

zeros : (n : ℕ) → All IsByte (replicate n 0)
zeros zero = tt
zeros (suc n) = (omega arith, zeros n)

-- A send buffer of one place.
abbrev sender : Chan
sender = record chan { txwindow = record chan.txwindow { bufferlen = 1; fragments = blank ∷ [] } }

sender-IsRing : IsRing sender.txwindow
unfolding setup
sender-IsRing = record {
  positive = omega arith;
  count = refl;
  ordered = omega arith;
  fits = omega arith;
  room = λ i. replicate-room 1 (i % 1) (mod_lt 1 i (omega arith));
}

sender-HoldsWhole : HoldsWhole sender.txwindow
unfolding setup
sender-HoldsWhole j a b = absurd (omega arith)

send-queues_example :
    let r = send memory sender (1 ∷ 2 ∷ []) in
    (r.0 ≤ 2)
    × (queued r.1.txwindow ≡ queued sender.txwindow ++ take r.0 (1 ∷ 2 ∷ []))
    × IsRing r.1.txwindow
send-queues_example =
    send-queues memory sender (1 ∷ 2 ∷ []) memory-Allocates sender-IsRing sender-HoldsWhole

-- A packet that acknowledges nothing.
abbrev packet : Msg
packet = record (init (replicate 14 0) 14) { cursize = 14 }

receive_next_fragment-Moves_example : Moves chan (receive_next_fragment memory chan packet)
unfolding setup init
receive_next_fragment-Moves_example =
    receive_next_fragment-Moves memory chan packet (omega arith) (omega arith) (zeros 14)

-- A message of 20 bytes.
abbrev outgoing : Msg
outgoing = init (replicate 20 0) 20

-- A fragment with its sequence number.
abbrev numbered : ℕ → Fragment
numbered i = record blank { ack = i }

-- A window of eight places in which three fragments have come, each with a gap behind it.
abbrev gaps : Frame
gaps = record chan.rxwindow {
  bufferlen = 8;
  windowsize = 8;
  fragments =
      blank ∷ numbered 1 ∷ blank ∷ numbered 3 ∷ blank ∷ numbered 5 ∷ blank ∷ numbered 7 ∷ [];
}

gaps-ranges :
    let window = arrivals gaps (gaps.windowsize - gaps.selackoffset) gaps.selackoffset in
    (begun false window ≡ 4) × (ended false window ≡ 3)
unfolding setup
gaps-ranges = (refl, refl)

write_selective_acklist-size_example :
    let window = arrivals gaps (gaps.windowsize - gaps.selackoffset) gaps.selackoffset in
    (write_selective_acklist gaps outgoing).1.cursize
    ≡ outgoing.cursize
      + 1
      + 4 * min 3 (begun false window)
      + (if leb 3 (ended false window) then 2 else 0)
unfolding init
write_selective_acklist-size_example = write_selective_acklist-size gaps outgoing (omega arith)
