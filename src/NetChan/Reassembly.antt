-- ===== src/NetChan/Reassembly.antt =====
-- The way of a message of src/net_chan.c from `Netchan_Transmit` to `Netchan_Process`.
mod Fragments
mod Receive
mod Send
use co_d4x_client_pub.Common.{
  ℕ, zero, suc, ◌+◌, ◌-◌, ◌*◌, ◌/◌, ◌%◌, ◌^◌, ◌≤◌, ◌<◌, ◌≡◌, refl, sym, ap, ◌∙◌, arith, Bool, true,
  false, Option, none, some, List, [], ◌∷◌, length, ltb, leb, take, drop, ◌==◌, if◌then◌else◌,
  put_bytes, All, take-put_bytes, add32, le→ltb, lt→leb, le→leb, Bool-cases, inl, inr, append-nil,
  ◌++◌,
}
use co_d4x_client_pub.Msg.{Msg}
use co_d4x_client_pub.Msg.Stream.{IsByte}
use co_d4x_client_pub.Net.{Adr, AdrType, Sock, Net, send_packet, send_by_kind, fragment_size}
use co_d4x_client_pub.NetChan.{
  Chan, packet_of, plain_msg, transmit, send_rest, then_rest, send_message, restart,
  advance_fragment, transmit_next_fragment,
}
use co_d4x_client_pub.NetChan.Packet.{plain_bytes, plain_msg-bytes}
use native.Mathlib.Nat.{zero-add}
use native.Mathlib.Decide.{dec_lt}
use Fragments.{fragments}
use Receive.{accepted, Assembling, Ready, Accepts, accepted-fragments, accepted-plain}
use Send.{sent_bytes, Sending, map-snoc, sent-fragments, send_rest-step, send_rest-done}
pub use Receive.{accepted, Ready, Accepts}
pub use Send.{sent_bytes}

-- A channel that can send the message, over the network, and a network that has sent nothing yet.
pub record CanSend (ch : Chan) (net : Net) (bytes : List ℕ) : Type 0 where
  pub idle : ch.unsent_fragments ≡ false
  pub network : ch.remote_address.kind ≡ AdrType.ip
  pub number : ch.outgoing_sequence < 2 ^ 31
  pub fits : length bytes ≤ ch.unsent_buffer_size
  pub storage : ch.unsent_buffer_size ≤ length ch.unsent_buffer
  pub bytes_range : All IsByte bytes
  pub fresh : net.sent ≡ []

-- The channel that `Netchan_Transmit` gives to the first fragment.
abbrev loaded : Chan → List ℕ → Chan
loaded ch bytes = record ch {
  unsent_fragment_start = 0;
  unsent_fragments = true;
  unsent_length = length bytes;
  unsent_buffer = put_bytes ch.unsent_buffer 0 bytes;
}

module _ (accepts : Adr → List ℕ → Bool) (port : ℕ) where
  transmit-long :
      (ch : Chan) (net : Net) (bytes : List ℕ)
      → CanSend ch net bytes
      → fragment_size ≤ length bytes
      → transmit accepts port ch net bytes
        ≡ some (
          true,
          advance_fragment (loaded ch bytes),
          (transmit_next_fragment accepts port (loaded ch bytes) net).2,
        )
  unfolding transmit transmit_next_fragment
  transmit-long ch net bytes c h =
      rw (le→ltb ch.unsent_buffer_size (length bytes) c.fits, le→leb fragment_size (length bytes) h)

  long_message :
      (ch : Chan) (net : Net) (bytes : List ℕ)
      → CanSend ch net bytes
      → fragment_size ≤ length bytes
      → send_message accepts port ch net bytes
        ≡ some (send_rest accepts port (suc (length bytes)) (loaded ch bytes) net)
  unfolding send_message
  long_message ch net bytes c h =
      ap (then_rest accepts port (length bytes)) (transmit-long ch net bytes c h)
      ∙ ap some (sym (send_rest-step accepts port (length bytes) (loaded ch bytes) net refl))

  loaded-Sending :
      (ch : Chan) (net : Net) (bytes : List ℕ)
      → CanSend ch net bytes
      → Sending (loaded ch bytes) bytes
  loaded-Sending ch net bytes c = record {
    going = refl;
    rest = take-put_bytes bytes ch.unsent_buffer 0 (length bytes) (omega (arith, c)) (omega arith);
    size = omega arith;
    network = c.network;
    number = c.number;
  }

  -- The channel behind a message that needs no fragments, and what its packet leaves.
  abbrev plain_done : Chan → Chan
  plain_done ch = record ch {
    unsent_fragment_start = 0;
    outgoing_sequence = add32 ch.outgoing_sequence 1;
  }

  abbrev plain_sent : Chan → Net → List ℕ → Bool × Net
  plain_sent ch net bytes =
      send_packet accepts ch.sock net ch.remote_address (packet_of (plain_msg port ch bytes))

  transmit-short :
      (ch : Chan) (net : Net) (bytes : List ℕ)
      → CanSend ch net bytes
      → length bytes < fragment_size
      → transmit accepts port ch net bytes
        ≡ some ((plain_sent ch net bytes).0, plain_done ch, (plain_sent ch net bytes).1)
  unfolding transmit
  transmit-short ch net bytes c h =
      rw (le→ltb ch.unsent_buffer_size (length bytes) c.fits, lt→leb (length bytes) fragment_size h)

  short_message :
      (ch : Chan) (net : Net) (bytes : List ℕ)
      → CanSend ch net bytes
      → length bytes < fragment_size
      → send_message accepts port ch net bytes ≡ some (plain_done ch, (plain_sent ch net bytes).1)
  unfolding send_message
  short_message ch net bytes c h =
      ap (then_rest accepts port (length bytes)) (transmit-short ch net bytes c h)
      ∙ ap some (
          send_rest-done accepts port (length bytes) (plain_done ch) (plain_sent ch net bytes).1
            c.idle)

  short_sent :
      (ch : Chan) (net : Net) (bytes : List ℕ)
      → CanSend ch net bytes
      → length bytes < fragment_size
      → sent_bytes (plain_sent ch net bytes).1.sent
        ≡ plain_bytes ch.sock port ch.outgoing_sequence bytes ∷ []
  unfolding send_packet
  short_sent ch net bytes c h =
      ap (λ r. sent_bytes r.1.sent)
        (ap
          (send_by_kind accepts ch.sock net ch.remote_address (packet_of (plain_msg port ch bytes)))
          c.network)
      ∙ map-snoc net.sent (ch.remote_address, packet_of (plain_msg port ch bytes))
      ∙ rw (c.fresh, plain_msg-bytes port ch bytes c.bytes_range (omega arith))

  -- A message that fits the buffers of both sides arrives whole at the peer, if its packets arrive
  -- in order: of the packets that are sent, fragmented or not, the peer accepts exactly one, as a
  -- message with the bytes that were sent, and knows its number then. The sender is a channel with
  -- nothing left to send and an address of the network.
  pub accepted-send_message :
      (ch peer_ch : Chan) (net : Net) (bytes storage : List ℕ) (size : ℕ)
      → CanSend ch net bytes
      → Ready storage size peer_ch ch.sock port ch.outgoing_sequence (length bytes)
      → peer_ch.fragment_buffer_size ≤ length peer_ch.fragment_buffer
      → (restart peer_ch ch.outgoing_sequence).fragment_length ≡ 0
      → (ch' : Chan) × (net' : Net) × (send_message accepts port ch net bytes ≡ some (ch', net'))
        × Accepts ch.outgoing_sequence bytes (accepted storage size peer_ch (sent_bytes net'.sent))
  accepted-send_message ch peer_ch net bytes storage size c r s e =
      elim (dec_lt (length bytes) fragment_size) [
        | yes short ↦ (
          plain_done ch,
          (plain_sent ch net bytes).1,
          short_message ch net bytes c short,
          rw (short_sent ch net bytes c short)
              (accepted-plain storage size peer_ch ch.sock port ch.outgoing_sequence bytes r short),
        )
        | no long ↦
            let sent = send_rest accepts port (suc (length bytes)) (loaded ch bytes) net in
            let n = length bytes / fragment_size in
            let fragments_sent =
              sent-fragments accepts port n (suc (length bytes)) (loaded ch bytes) net bytes
                (loaded-Sending ch net bytes c) c.bytes_range (omega arith) (omega arith)
                (omega arith) in
            (
              sent.0,
              sent.1,
              long_message ch net bytes c (omega arith),
              rw (fragments_sent.0, c.fresh)
                  (accepted-fragments n storage size peer_ch ch.sock port ch.outgoing_sequence 0 []
                    bytes (rw zero-add r) (record { position = e; content = refl; storage = s })
                    refl (omega arith) (omega arith)),
            )
      ]
