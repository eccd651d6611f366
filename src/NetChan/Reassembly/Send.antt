-- ===== src/NetChan/Reassembly/Send.antt =====
-- The sending side: `Netchan_Transmit` and the loop behind it send the fragments of the message.
use co_d4x_client_pub.Common.{
  drop-take, All-take, All-drop, take-drop-take, ℕ, zero, suc, ◌+◌, ◌*◌, ◌^◌, ◌≤◌, ◌<◌, ◌≡◌, refl,
  sym, ap, ◌∙◌, arith, Bool, true, false, List, [], ◌∷◌, ◌++◌, append_assoc, length, map, take,
  drop, All, length-take, length-drop, take-all, add32, drop-drop,
}
use co_d4x_client_pub.Net.{Adr, AdrType, Net, send_packet, send_by_kind, fragment_size}
use co_d4x_client_pub.NetChan.{
  Chan, next_length, packet_of, fragment_msg, advance_fragment, transmit_next_fragment, send_rest,
}
use co_d4x_client_pub.NetChan.Packet.{fragment_bytes, next_piece, fragment_msg-bytes}
use co_d4x_client_pub.Msg.Stream.{IsByte}
use co_d4x_client_pub.NetChan.Reassembly.Fragments.{fragments}

-- The packets that were handed to the socket.
abbrev pub sent_bytes : List (Adr × List ℕ) → List (List ℕ)
sent_bytes sent = map (λ p. p.1) sent

pub map-snoc :
    (sent : List (Adr × List ℕ)) (p : Adr × List ℕ)
    → sent_bytes (sent ++ p ∷ []) ≡ sent_bytes sent ++ p.1 ∷ []
map-snoc [] p = refl
map-snoc (x ∷ sent) p = ap (λ l. x.1 ∷ l) (map-snoc sent p)

-- A channel in the middle of sending `bytes`, the rest of its message, to an address of the network.
pub record Sending (ch : Chan) (bytes : List ℕ) : Type 0 where
  pub going : ch.unsent_fragments ≡ true
  pub rest : take (length bytes) (drop ch.unsent_fragment_start ch.unsent_buffer) ≡ bytes
  pub size : ch.unsent_fragment_start + length bytes ≡ ch.unsent_length
  pub network : ch.remote_address.kind ≡ AdrType.ip
  pub number : ch.outgoing_sequence < 2 ^ 31

-- The next fragment is the front of what is left.
next_piece-take :
    (ch : Chan) (bytes : List ℕ)
    → Sending ch bytes
    → next_length ch ≤ length bytes
    → next_piece ch ≡ take (next_length ch) bytes
next_piece-take ch bytes s h =
    sym (
      take-drop-take 0 (next_length ch) (length bytes)
        (drop ch.unsent_fragment_start ch.unsent_buffer) (omega arith))
    ∙ ap (take (next_length ch)) s.rest

last_length :
    (ch : Chan) (bytes : List ℕ)
    → Sending ch bytes
    → length bytes < fragment_size
    → next_length ch ≡ length bytes
last_length ch bytes s h = ground (arith, s)

full_length :
    (ch : Chan) (bytes : List ℕ)
    → Sending ch bytes
    → fragment_size ≤ length bytes
    → next_length ch ≡ fragment_size
full_length ch bytes s h = ground (arith, s)

module _ (accepts : Adr → List ℕ → Bool) (port : ℕ) where
  -- One fragment goes to the socket.
  fragment_sent :
      (ch : Chan) (net : Net) (bytes : List ℕ)
      → Sending ch bytes
      → All IsByte bytes
      → next_length ch ≤ length bytes
      → sent_bytes (transmit_next_fragment accepts port ch net).2.sent
        ≡ sent_bytes net.sent
          ++ fragment_bytes ch.sock port ch.outgoing_sequence ch.unsent_fragment_start
              (take (next_length ch) bytes)
            ∷ []
  unfolding transmit_next_fragment send_packet
  fragment_sent ch net bytes s b h =
      let piece = next_piece-take ch bytes s h in
      let small : length (next_piece ch) ≡ next_length ch =
        rw piece (omega (arith, length-take (next_length ch) bytes)) in
      ap (λ r. sent_bytes r.1.sent)
        (ap (send_by_kind accepts ch.sock net ch.remote_address (packet_of (fragment_msg port ch)))
          s.network)
      ∙ (map-snoc net.sent (ch.remote_address, packet_of (fragment_msg port ch))
          ∙ rw (
            fragment_msg-bytes port ch (rw piece (All-take IsByte (next_length ch) bytes b)) small
                s.number,
            piece,
          ))

  -- Behind the last fragment the channel has nothing more to send.
  pub send_rest-done :
      (fuel : ℕ) (ch : Chan) (net : Net)
      → ch.unsent_fragments ≡ false
      → send_rest accepts port fuel ch net ≡ (ch, net)
  unfolding send_rest
  send_rest-done zero ch net e = refl
  send_rest-done (suc fuel) ch net e = rw e

  pub send_rest-step :
      (fuel : ℕ) (ch : Chan) (net : Net)
      → ch.unsent_fragments ≡ true
      → send_rest accepts port (suc fuel) ch net
        ≡ send_rest accepts port fuel
            (advance_fragment ch)
            (transmit_next_fragment accepts port ch net).2
  unfolding send_rest transmit_next_fragment
  send_rest-step fuel ch net e = rw e

  last_advance :
      (ch : Chan) (bytes : List ℕ)
      → Sending ch bytes
      → length bytes < fragment_size
      → ((advance_fragment ch).unsent_fragments ≡ false)
        × ((advance_fragment ch).outgoing_sequence ≡ add32 ch.outgoing_sequence 1)
  unfolding advance_fragment
  last_advance ch bytes s h = ground (arith, s)

  full_advance :
      (ch : Chan) (bytes : List ℕ)
      → Sending ch bytes
      → fragment_size ≤ length bytes
      → advance_fragment ch
        ≡ record ch { unsent_fragment_start = ch.unsent_fragment_start + fragment_size }
  unfolding advance_fragment
  full_advance ch bytes s h = ground (arith, s)

  full_Sending :
      (ch : Chan) (bytes : List ℕ)
      → Sending ch bytes
      → fragment_size ≤ length bytes
      → Sending
          (record ch { unsent_fragment_start = ch.unsent_fragment_start + fragment_size })
          (drop fragment_size bytes)
  full_Sending ch bytes s h = record {
    going = s.going;
    rest =
        ap (λ l. take (length (drop fragment_size bytes)) l)
          (sym (
            drop-drop ch.unsent_fragment_start fragment_size
              (ch.unsent_fragment_start + fragment_size) ch.unsent_buffer refl))
        ∙ sym (
            drop-take fragment_size (length bytes) (length (drop fragment_size bytes))
              (drop ch.unsent_fragment_start ch.unsent_buffer)
              (omega (arith, length-drop fragment_size bytes)))
        ∙ ap (drop fragment_size) s.rest;
    size = omega (arith, s.size, length-drop fragment_size bytes);
    network = s.network;
    number = s.number;
  }

  -- The loop sends what is left, in `n` full fragments and one that is shorter, maybe empty. It is
  -- done then, and the next message has the next number.
  pub sent-fragments :
      (n fuel : ℕ) (ch : Chan) (net : Net) (bytes : List ℕ)
      → Sending ch bytes
      → All IsByte bytes
      → n * fragment_size ≤ length bytes
      → length bytes < n * fragment_size + fragment_size
      → n < fuel
      → let r = send_rest accepts port fuel ch net in
        (sent_bytes r.1.sent
          ≡ sent_bytes net.sent
            ++ fragments ch.sock port ch.outgoing_sequence n ch.unsent_fragment_start bytes)
        × (r.0.unsent_fragments ≡ false)
        × (r.0.outgoing_sequence ≡ add32 ch.outgoing_sequence 1)
  sent-fragments n zero ch net bytes s b lo hi f = absurd (omega arith)
  sent-fragments zero (suc fuel) ch net bytes s b lo hi f =
      let len = last_length ch bytes s (omega arith) in
      let (done, number) = last_advance ch bytes s (omega arith) in
      let net' = (transmit_next_fragment accepts port ch net).2 in
      rw (send_rest-step fuel ch net s.going, send_rest-done fuel (advance_fragment ch) net' done)
        (
          fragment_sent ch net bytes s b (omega (arith, len))
              ∙ rw (len, take-all (length bytes) bytes (omega arith)),
          done,
          number,
        )
  sent-fragments (suc n) (suc fuel) ch net bytes s b lo hi f =
      let len = full_length ch bytes s (omega arith) in
      let net' = (transmit_next_fragment accepts port ch net).2 in
      let ch' : Chan = record ch {
        unsent_fragment_start = ch.unsent_fragment_start + fragment_size;
      } in
      let left = length-drop fragment_size bytes in
      let ih =
        sent-fragments n fuel ch' net' (drop fragment_size bytes)
          (full_Sending ch bytes s (omega arith)) (All-drop IsByte fragment_size bytes b)
          (omega (arith, left)) (omega (arith, left)) (omega arith) in
      let first = fragment_sent ch net bytes s b (omega (arith, len)) in
      rw (send_rest-step fuel ch net s.going, full_advance ch bytes s (omega arith))
        (ih.0 ∙ rw (first, len) (append_assoc (sent_bytes net.sent) (_ ∷ []) _), ih.1, ih.2)
