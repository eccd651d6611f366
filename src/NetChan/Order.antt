-- ===== src/NetChan/Order.antt =====
-- What `Netchan_Process` accepts, whatever packet arrives.
use co_d4x_client_pub.Common.{
  ℕ, ◌≤◌, ◌≡◌, ◌∙◌, arith, Bool, true, false, length, take, drop, if◌then◌else◌, length-put_bytes,
  sle, sub32, add32, Bool-cases, inl, inr,
}
use co_d4x_client_pub.Msg.{Msg}
use co_d4x_client_pub.NetChan.{Chan, process, process_fragment, read_header, add_fragment, restart}

-- The assembly buffer holds what is assembled.
pub record IsValid (ch : Chan) : Type 0 where
  pub assembled : ch.fragment_length ≤ ch.fragment_buffer_size
  pub storage : ch.fragment_buffer_size ≤ length ch.fragment_buffer

restart-IsValid : (ch : Chan) (sequence : ℕ) → IsValid ch → IsValid (restart ch sequence)
restart-IsValid ch sequence v = ground arith

add_fragment-IsValid :
    (ch : Chan) (m : Msg) (sequence start len : ℕ)
    → IsValid ch
    → IsValid (add_fragment ch m sequence start len).1
unfolding add_fragment
add_fragment-IsValid ch m sequence start len v = ground (
  arith,
  length-put_bytes (take len (drop m.readcount m.buf)) ch.fragment_buffer ch.fragment_length,
)

process_fragment-IsValid :
    (ch : Chan) (m : Msg) (sequence start len : ℕ)
    → IsValid ch
    → IsValid (process_fragment ch m sequence start len).1
unfolding process_fragment
process_fragment-IsValid ch m sequence start len v =
    add_fragment-IsValid (restart ch sequence) m sequence start len (restart-IsValid ch sequence v)

-- No packet, well formed or not, takes the assembly out of its buffer.
pub process-IsValid : (ch : Chan) (m : Msg) → IsValid ch → IsValid (process ch m).1
unfolding process
process-IsValid ch m v =
    let h = read_header ch.sock m in
    let dropped = sub32 h.sequence (add32 ch.incoming_sequence 1) in
    let ch1 : Chan = record ch { dropped = dropped } in
    ground (arith, process_fragment-IsValid ch1 h.rest h.sequence h.start h.len (ground arith))

-- What a packet can change of the numbers: an accepted one sets the incoming sequence number.
record Moves (ch : Chan) (sequence : ℕ) (r : Bool × Chan × Msg) : Type 0 where
  number : r.1.incoming_sequence ≡ (if r.0 then sequence else ch.incoming_sequence)
  side : r.1.sock ≡ ch.sock

process_fragment-Moves :
    (ch : Chan) (m : Msg) (sequence start len : ℕ)
    → Moves ch sequence (process_fragment ch m sequence start len)
unfolding process_fragment add_fragment
process_fragment-Moves ch m sequence start len = ground arith

process-Moves : (ch : Chan) (m : Msg) → Moves ch (read_header ch.sock m).sequence (process ch m)
unfolding process
process-Moves ch m =
    let h = read_header ch.sock m in
    let ch1 : Chan = record ch { dropped = sub32 h.sequence (add32 ch.incoming_sequence 1) } in
    ground (arith, process_fragment-Moves ch1 h.rest h.sequence h.start h.len)

process-old :
    (ch : Chan) (m : Msg)
    → sle (read_header ch.sock m).sequence ch.incoming_sequence ≡ true
    → process ch m ≡ (false, ch, (read_header ch.sock m).rest)
unfolding process
process-old ch m h = rw h

-- Behind an accepted message, whole or assembled, no packet with its number or an older one is
-- accepted, and such a packet leaves the channel as it is: nothing is processed twice or out of
-- order.
pub process-once :
    (ch : Chan) (m m' : Msg)
    → (process ch m).0 ≡ true
    → sle (read_header ch.sock m').sequence (read_header ch.sock m).sequence ≡ true
    → process (process ch m).1 m' ≡ (false, (process ch m).1, (read_header ch.sock m').rest)
process-once ch m m' accepted old =
    let moved = process-Moves ch m in
    let number : (process ch m).1.incoming_sequence ≡ (read_header ch.sock m).sequence =
      moved.number ∙ rw accepted in
    process-old (process ch m).1 m' (rw (moved.side, number) old) ∙ rw moved.side

-- The incoming sequence number of a channel never falls, whatever arrives, and an accepted packet
-- has moved it to its own number.
pub process-forward :
    (ch : Chan) (m : Msg)
    → (sle ch.incoming_sequence (process ch m).1.incoming_sequence ≡ true)
      × ((process ch m).1.incoming_sequence
          ≡ (if (process ch m).0 then (read_header ch.sock m).sequence else ch.incoming_sequence))
process-forward ch m = (
  elim (Bool-cases (sle sequence ch.incoming_sequence)) [
    | inl old ↦ rw (process-old ch m old) (ground arith)
    | inr new ↦ rw number (ground arith)
  ],
  number,
)
  where
    sequence : ℕ
    sequence = (read_header ch.sock m).sequence

    number :
        (process ch m).1.incoming_sequence
        ≡ (if (process ch m).0 then sequence else ch.incoming_sequence)
    number = (process-Moves ch m).number
