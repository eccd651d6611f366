-- ===== src/NetChan.antt =====
-- The sequenced channel of src/net_chan.c: `Netchan_Setup`, `Netchan_Process`,
-- `Netchan_TransmitNextFragment` and `Netchan_Transmit`.
-- Sequence numbers are 32-bit patterns; a size or a position in a buffer is a plain number. What
-- the functions print is left out. A call of `Com_Error` is `none`.
pub mod Order
pub mod Packet
pub mod Reassembly
pub mod Cipher
pub mod Keystream
mod Tests
use co_d4x_client_pub.Common.{
  ℕ, zero, suc, ◌+◌, ◌-◌, ◌%◌, ◌^◌, Bool, true, false, Option, none, some, List, [], ◌∷◌, ◌++◌, ltb,
  leb, ◌==◌, if◌then◌else◌, ◌||◌, ◌&&◌, not, length, take, drop, replicate, put_bytes, le_bytes,
  add32, sub32, slt, sle,
}
use co_d4x_client_pub.Msg.{Msg, init, begin_reading, write_long, write_short, write_data}
use co_d4x_client_pub.Msg.Read.{read_long, read_short}
use co_d4x_client_pub.Net.{Adr, Sock, client, server, Net, send_packet, fragment_size}

-- `netchan_t`, without the profile that only the original engine uses.
pub record Chan : Type 0 where
  pub outgoing_sequence : ℕ
  pub sock : Sock
  pub dropped : ℕ
  pub incoming_sequence : ℕ
  pub remote_address : Adr
  pub qport : ℕ
  pub fragment_sequence : ℕ
  pub fragment_length : ℕ
  pub fragment_buffer : List ℕ
  pub fragment_buffer_size : ℕ
  pub unsent_fragments : Bool
  pub unsent_fragment_start : ℕ
  pub unsent_length : ℕ
  pub unsent_buffer : List ℕ
  pub unsent_buffer_size : ℕ

pub setup : Sock → Adr → ℕ → List ℕ → ℕ → List ℕ → ℕ → Chan
setup sock adr qport unsent unsent_size fragment fragment_buffer_size = record {
  outgoing_sequence = 1;
  sock = sock;
  dropped = 0;
  incoming_sequence = 0;
  remote_address = adr;
  qport = qport;
  fragment_sequence = 0;
  fragment_length = 0;
  fragment_buffer = fragment;
  fragment_buffer_size = fragment_buffer_size;
  unsent_fragments = false;
  unsent_fragment_start = 0;
  unsent_length = 0;
  unsent_buffer = unsent;
  unsent_buffer_size = unsent_size;
}

abbrev pub max_packetlen : ℕ
max_packetlen = 1400

-- A fragment that continues another message starts a new assembly.
abbrev pub restart : Chan → ℕ → Chan
restart ch sequence =
    if sequence == ch.fragment_sequence
    then ch
    else record ch { fragment_sequence = sequence; fragment_length = 0 }

-- The `len` bytes behind the read position are added to the assembly.
abbrev pub append_fragment : Chan → Msg → ℕ → Chan
append_fragment ch m len = record ch {
  fragment_buffer =
      put_bytes ch.fragment_buffer ch.fragment_length (take len (drop m.readcount m.buf));
  fragment_length = ch.fragment_length + len;
}

-- The assembled message replaces the packet, behind its sequence number. The two copies are
-- `memcpy`s: nothing but the storage bounds them, and a byte past its end is lost here.
abbrev pub complete : Chan → Msg → ℕ → Bool × Chan × Msg
complete ch m sequence = (
  true,
  record ch { fragment_length = 0; incoming_sequence = sequence },
  record m {
    buf =
        put_bytes (put_bytes m.buf 0 (le_bytes 4 sequence)) 4
          (take ch.fragment_length ch.fragment_buffer);
    cursize = ch.fragment_length + 4;
    readcount = 4;
    bit = 32;
  },
)

-- A negative length, one past the packet, or one past the assembly buffer.
abbrev pub is_illegal : Chan → Msg → ℕ → Bool
is_illegal ch m len =
    slt len 0
    || ltb m.cursize (m.readcount + len)
    || ltb ch.fragment_buffer_size (ch.fragment_length + len)

-- A fragment that is not the next of the assembly, or is illegal, is dropped; a full one waits for
-- more, and any other ends the message, unless that is larger than the message's storage.
unfoldable pub add_fragment : Chan → Msg → ℕ → ℕ → ℕ → Bool × Chan × Msg
add_fragment ch m sequence start len =
    let ch' = append_fragment ch m len in
    if not (start == ch.fragment_length) || is_illegal ch m len
    then (false, ch, m)
    else if len == fragment_size || ltb m.maxsize ch'.fragment_length
    then (false, ch', m)
    else complete ch' m sequence

-- The part of `Netchan_Process` for a fragment, past the test of its sequence number.
unfoldable pub process_fragment : Chan → Msg → ℕ → ℕ → ℕ → Bool × Chan × Msg
process_fragment ch m sequence start len = add_fragment (restart ch sequence) m sequence start len

abbrev pub skip_qport : Sock → Msg → Msg
skip_qport client m = m
skip_qport server m = (read_short m).1

-- The header: the sequence number with its top bit as the mark of a fragment, the qport where we
-- are the server, and a fragment's start and length.
pub record Header : Type 0 where
  pub fragmented : Bool
  pub sequence : ℕ
  pub start : ℕ
  pub len : ℕ
  pub rest : Msg

unfoldable pub read_header : Sock → Msg → Header
read_header sock m =
    let (mark, m1) = read_long (begin_reading m) in
    let m2 = skip_qport sock m1 in
    let (start, m3) = read_long m2 in
    let (len, m4) = read_short m3 in
    if leb (2 ^ 31) mark
    then record { fragmented = true; sequence = mark % 2 ^ 31; start = start; len = len; rest = m4 }
    else record { fragmented = false; sequence = mark; start = 0; len = 0; rest = m2 }

-- `Netchan_Process`: whether the message is to be processed, the channel and the message.
unfoldable pub process : Chan → Msg → Bool × Chan × Msg
process ch m =
    let h = read_header ch.sock m in
    let ch1 = record ch { dropped = sub32 h.sequence (add32 ch.incoming_sequence 1) } in
    if sle h.sequence ch.incoming_sequence
    then (false, ch, h.rest)
    else if h.fragmented
    then process_fragment ch1 h.rest h.sequence h.start h.len
    else (true, record ch1 { incoming_sequence = h.sequence }, h.rest)

-- The local buffer of a packet. Its bytes are not set, and only those written are sent.
unfoldable pub send_buf : List ℕ
send_buf = replicate max_packetlen 0

-- `*data` to `cursize`
abbrev pub packet_of : Msg → List ℕ
packet_of m = take m.cursize m.buf

abbrev pub set_mark : ℕ → ℕ
set_mark s = if leb (2 ^ 31) s then s else s + 2 ^ 31

-- The qport is a `cvar`, the parameter `port`; a server does not send it.
abbrev pub write_qport : Sock → ℕ → Msg → Msg
write_qport client port m = write_short m port
write_qport server port m = m

-- The length of the next fragment, and whether it is the last.
abbrev pub next_length : Chan → ℕ
next_length ch =
    if ltb ch.unsent_length (ch.unsent_fragment_start + fragment_size)
    then ch.unsent_length - ch.unsent_fragment_start
    else fragment_size

abbrev pub is_last : Chan → Bool
is_last ch = ltb ch.unsent_length (ch.unsent_fragment_start + fragment_size)

unfoldable pub fragment_msg : ℕ → Chan → Msg
fragment_msg port ch =
    let m = write_long (init send_buf max_packetlen) (set_mark ch.outgoing_sequence) in
    let m' = write_long (write_qport ch.sock port m) ch.unsent_fragment_start in
    write_data (write_short m' (next_length ch))
      (take (next_length ch) (drop ch.unsent_fragment_start ch.unsent_buffer))

-- The position moves on, and behind the last fragment the message is done.
unfoldable pub advance_fragment : Chan → Chan
advance_fragment ch =
    let start = ch.unsent_fragment_start + next_length ch in
    if start == ch.unsent_length && is_last ch
    then record ch {
      unsent_fragment_start = start;
      outgoing_sequence = add32 ch.outgoing_sequence 1;
      unsent_fragments = false;
    }
    else record ch { unsent_fragment_start = start }

-- The packet of a message that is not fragmented.
abbrev pub plain_msg : ℕ → Chan → List ℕ → Msg
plain_msg port ch bytes =
    write_data
      (write_qport ch.sock port (write_long (init send_buf max_packetlen) ch.outgoing_sequence))
      bytes

-- The answer of a socket, as in `Net`.
module _ (accepts : Adr → List ℕ → Bool) (port : ℕ) where
  unfoldable pub transmit_next_fragment : Chan → Net → Bool × Chan × Net
  transmit_next_fragment ch net =
      let (ok, net') =
        send_packet accepts ch.sock net ch.remote_address (packet_of (fragment_msg port ch)) in
      (ok, advance_fragment ch, net')

  -- `none` is `Com_Error`. The list is the `length` bytes at `data`.
  unfoldable pub transmit : Chan → Net → List ℕ → Option (Bool × Chan × Net)
  transmit ch net bytes =
      let ch1 = record ch { unsent_fragment_start = 0 } in
      let ch2 = record ch1 {
        unsent_fragments = true;
        unsent_length = length bytes;
        unsent_buffer = put_bytes ch.unsent_buffer 0 bytes;
      } in
      let (ok2, ch3, net3) = transmit_next_fragment ch2 net in
      let (ok, net') =
        send_packet accepts ch.sock net ch.remote_address (packet_of (plain_msg port ch1 bytes)) in
      if ltb ch.unsent_buffer_size (length bytes)
      then none
      else if leb fragment_size (length bytes)
      then some (true, ch3, net3)
      else some (ok, record ch1 { outgoing_sequence = add32 ch.outgoing_sequence 1 }, net')

  -- The loop of `CL_WritePacket` that fires off the fragments, on fuel.
  unfoldable pub send_rest : ℕ → Chan → Net → Chan × Net
  send_rest zero ch net = (ch, net)
  send_rest (suc fuel) ch net =
      let (ok, ch', net') = transmit_next_fragment ch net in
      let rest = send_rest fuel ch' net' in if ch.unsent_fragments then rest else (ch, net)

  abbrev pub then_rest : ℕ → Option (Bool × Chan × Net) → Option (Chan × Net)
  then_rest fuel none = none
  then_rest fuel (some (ok, ch, net)) = some (send_rest fuel ch net)

  -- A message as `CL_WritePacket` sends it: `Netchan_Transmit`, and the loop. A round sends 1300 bytes
  -- or is the last, so that `length bytes` rounds are enough.
  unfoldable pub send_message : Chan → Net → List ℕ → Option (Chan × Net)
  send_message ch net bytes = then_rest (length bytes) (transmit ch net bytes)
