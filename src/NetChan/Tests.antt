-- ===== src/NetChan/Tests.antt =====
-- The sequenced channel of net_chan.c, and the scrambling of cl_netchan.c, on examples.
use co_d4x_client_pub.Common.{
  ℕ, ◌≡◌, refl, arith, true, false, some, List, [], ◌∷◌, replicate, length-replicate,
}
use co_d4x_client_pub.Msg.{Msg, init, begin_reading}
use co_d4x_client_pub.Msg.Read.{read_long}
use co_d4x_client_pub.Net.{Adr, AdrType, Sock, Loopback, Net}
use co_d4x_client_pub.NetChan.{Chan, setup, process, read_header, send_message}
use co_d4x_client_pub.NetChan.Order.{IsValid, process-IsValid, process-once}
use co_d4x_client_pub.NetChan.Cipher.{Client}
use co_d4x_client_pub.NetChan.Reassembly.{Accepts, accepted, sent_bytes, accepted-send_message}

abbrev address : Adr
address = record { kind = AdrType.ip; scope_id = 0; port = 28960; ip = 127 ∷ 0 ∷ 0 ∷ 1 ∷ [] }

abbrev chan : Chan
chan = setup Sock.client address 7 (replicate 8 0) 8 (replicate 8 0) 8

abbrev peer_chan : Chan
peer_chan = setup Sock.server address 7 (replicate 8 0) 8 (replicate 8 0) 8

abbrev idle : Loopback
idle = record { msgs = replicate 16 []; get = 0; send = 0; intact = true }

abbrev net : Net
net = record { client_loop = idle; server_loop = idle; sent = [] }

-- A packet with the sequence number 5 and two bytes.
abbrev packet : Msg
packet = record (init (5 ∷ 0 ∷ 0 ∷ 0 ∷ 1 ∷ 2 ∷ []) 6) { cursize = 6 }

chan-IsValid : IsValid chan
unfolding setup
chan-IsValid = record { assembled = omega arith; storage = omega arith }

process-IsValid_example : IsValid (process chan packet).1
process-IsValid_example = process-IsValid chan packet chan-IsValid

process-once_example :
    process (process chan packet).1 packet
    ≡ (false, (process chan packet).1, (read_header chan.sock packet).rest)
unfolding process read_header setup init begin_reading read_long
process-once_example = process-once chan packet packet refl refl

abbrev sending : List ℕ
sending = 10 ∷ 20 ∷ 30 ∷ 40 ∷ []

abbrev arrival : List ℕ
arrival = replicate 1400 0

accepted-send_message_example :
    (ch' : Chan) × (net' : Net) × (send_message (λ adr bytes. true) 7 chan net sending
      ≡ some (ch', net'))
    × Accepts chan.outgoing_sequence sending
        (accepted arrival 1400 peer_chan (sent_bytes net'.sent))
unfolding setup
accepted-send_message_example =
    accepted-send_message (λ adr bytes. true) 7 chan peer_chan net sending arrival 1400
      (record {
        idle = refl;
        network = refl;
        number = omega arith;
        fits = omega arith;
        storage = omega arith;
        bytes_range = (omega arith, (omega arith, (omega arith, (omega arith, tt))));
        fresh = refl;
      })
      (record {
        side = refl;
        new = refl;
        port_range = omega arith;
        sequence_range = omega arith;
        total_range = omega arith;
        buffer = omega arith;
        message = omega arith;
        packets = omega (arith, length-replicate {A = ℕ} 1400 0);
        packet = omega (arith, length-replicate {A = ℕ} 1400 0);
      })
      (omega arith) refl

abbrev side : Client
side = record {
  challenge = 77;
  server_message_sequence = 5;
  server_id = 0;
  server_command_sequence = 0;
  reliable_acknowledge = 0;
  server_commands = (115 ∷ 97 ∷ 121 ∷ []) ∷ [];
  reliable_commands = (115 ∷ 97 ∷ []) ∷ [];
}
