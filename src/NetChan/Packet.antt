-- ===== src/NetChan/Packet.antt =====
-- The packets of a channel: their bytes, and what the other side reads in them.
use co_d4x_client_pub.Common.{
  ℕ, ◌+◌, ◌^◌, ◌≤◌, ◌<◌, ◌≡◌, ap, ◌∙◌, arith, true, false, List, [], ◌++◌, append_assoc, append-nil,
  length, length-append, take, drop, le_bytes, put_bytes, take-put_bytes, length-replicate, All,
  length-take,
}
use co_d4x_client_pub.Msg.{Msg, init, begin_reading, write_long, write_short, write_data}
use co_d4x_client_pub.Msg.Read.{read_long, read_short, advance}
use co_d4x_client_pub.Common.{lt→ltb}
use co_d4x_client_pub.Msg.Stream.{read_long-Takes, read_short-Takes}
use co_d4x_client_pub.Msg.Stream.{
  written, unread, Appends, Appends-trans, HasRoom, IsByte, store-Appends, write_data-Appends,
}
use co_d4x_client_pub.Net.{Sock, client, server, fragment_size}
use co_d4x_client_pub.NetChan.{
  Chan, send_buf, max_packetlen, packet_of, set_mark, write_qport, next_length, fragment_msg,
  plain_msg, Header, read_header,
}

-- The other end of a connection.
abbrev pub peer : Sock → Sock
peer client = server
peer server = client

abbrev pub qport_bytes : Sock → ℕ → List ℕ
qport_bytes client port = le_bytes 2 port
qport_bytes server port = []

-- A fragment on the wire.
abbrev pub fragment_bytes : Sock → ℕ → ℕ → ℕ → List ℕ → List ℕ
fragment_bytes sock port sequence start piece =
    le_bytes 4 (sequence + 2 ^ 31)
    ++ (qport_bytes sock port ++ (le_bytes 4 start ++ (le_bytes 2 (length piece) ++ piece)))

-- A whole message on the wire.
abbrev pub plain_bytes : Sock → ℕ → ℕ → List ℕ → List ℕ
plain_bytes sock port sequence bytes = le_bytes 4 sequence ++ (qport_bytes sock port ++ bytes)

write_qport-Appends :
    (sock : Sock) (port : ℕ) (m : Msg)
    → HasRoom 2 m
    → Appends m (write_qport sock port m) (qport_bytes sock port)
unfolding write_short
write_qport-Appends client port m h = store-Appends 2 m port h
write_qport-Appends server port m h = ground (arith, append-nil (written m))

pub length-send_buf : length send_buf ≡ max_packetlen
unfolding send_buf
length-send_buf = length-replicate {A = ℕ} max_packetlen 0

abbrev empty : Msg
unfolding init
empty = init send_buf max_packetlen

-- What is written behind the empty packet is the packet.
packet_of-Appends : (m : Msg) (bs : List ℕ) → Appends empty m bs → packet_of m ≡ bs
unfolding init
packet_of-Appends m bs a = a.content

-- Room in a packet, from what was written to it.
room_behind :
    {m : Msg} {bs : List ℕ} (n : ℕ)
    → Appends empty m bs
    → length bs + n ≤ max_packetlen
    → HasRoom n m
unfolding init
room_behind n a h = omega (arith, a, length-send_buf)

length-qport_bytes : (sock : Sock) (port : ℕ) → length (qport_bytes sock port) ≤ 2
length-qport_bytes client port = omega arith
length-qport_bytes server port = omega arith

start_packet :
    (sock : Sock) (port mark : ℕ)
    → Appends empty
        (write_qport sock port (write_long empty mark))
        (le_bytes 4 mark ++ qport_bytes sock port)
unfolding write_long init
start_packet sock port mark =
    let a = store-Appends 4 empty mark (omega (arith, length-send_buf)) in
    Appends-trans a
      (write_qport-Appends sock port (write_long empty mark) (room_behind 2 a (omega arith)))

length_start : (sock : Sock) (port mark : ℕ) → length (le_bytes 4 mark ++ qport_bytes sock port) ≤ 6
length_start sock port mark =
    omega
      (arith, length-append (le_bytes 4 mark) (qport_bytes sock port), length-qport_bytes sock port)

fragment_packet :
    (sock : Sock) (port mark start len : ℕ) (piece : List ℕ)
    → All IsByte piece
    → length piece ≤ fragment_size
    → let m = write_long (write_qport sock port (write_long empty mark)) start in
      packet_of (write_data (write_short m len) piece)
      ≡ le_bytes 4 mark
        ++ (qport_bytes sock port ++ (le_bytes 4 start ++ (le_bytes 2 len ++ piece)))
unfolding write_long write_short
fragment_packet sock port mark start len piece b h =
    let head = start_packet sock port mark in
    let hd = le_bytes 4 mark ++ qport_bytes sock port in
    let short = length_start sock port mark in
    let m1 = write_qport sock port (write_long empty mark) in
    let a1 = Appends-trans head (store-Appends 4 m1 start (room_behind 4 head (omega arith))) in
    let m2 = write_long m1 start in
    let l1 = length-append hd (le_bytes 4 start) in
    let a2 = Appends-trans a1 (store-Appends 2 m2 len (room_behind 2 a1 (omega arith))) in
    let l2 = length-append (hd ++ le_bytes 4 start) (le_bytes 2 len) in
    let a3 = Appends-trans a2 (
      write_data-Appends piece (write_short m2 len) b
        (room_behind (length piece) a2 (omega arith))) in
    packet_of-Appends (write_data (write_short m2 len) piece) _ a3 ∙ simp append_assoc

-- The next fragment of a channel, as bytes.
abbrev pub next_piece : Chan → List ℕ
next_piece ch = take (next_length ch) (drop ch.unsent_fragment_start ch.unsent_buffer)

pub fragment_msg-bytes :
    (port : ℕ) (ch : Chan)
    → All IsByte (next_piece ch)
    → length (next_piece ch) ≡ next_length ch
    → ch.outgoing_sequence < 2 ^ 31
    → packet_of (fragment_msg port ch)
      ≡ fragment_bytes ch.sock port ch.outgoing_sequence ch.unsent_fragment_start (next_piece ch)
unfolding fragment_msg init
fragment_msg-bytes port ch b l s =
    let mark : set_mark ch.outgoing_sequence ≡ ch.outgoing_sequence + 2 ^ 31 = ground arith in
    fragment_packet ch.sock port (set_mark ch.outgoing_sequence) ch.unsent_fragment_start
      (next_length ch) (next_piece ch) b (rw l (ground arith))
    ∙ rw (l, mark)

-- A packet in the storage that the socket filled: `size` is the size of the storage.
abbrev pub arrive : List ℕ → ℕ → List ℕ → Msg
unfolding init
arrive storage size bytes = record (init storage size) {
  buf = put_bytes storage 0 bytes;
  cursize = length bytes;
}

pub arrive-unread :
    (storage : List ℕ) (size : ℕ) (bytes : List ℕ)
    → length bytes ≤ length storage
    → unread (begin_reading (arrive storage size bytes)) ≡ bytes
unfolding init begin_reading
arrive-unread storage size bytes h =
    take-put_bytes bytes storage 0 (length bytes) (omega arith) (omega arith)

-- What the peer reads in the header of a fragment.
pub record ReadsFragment (sequence start : ℕ) (piece : List ℕ) (m : Msg) (h : Header) : Type 0 where
  pub fragmented : h.fragmented ≡ true
  pub sequence_read : h.sequence ≡ sequence
  pub start_read : h.start ≡ start
  pub len_read : h.len ≡ length piece
  pub payload : unread h.rest ≡ piece
  pub inside : h.rest.readcount + length piece ≤ h.rest.cursize
  pub same_buf : h.rest.buf ≡ m.buf
  pub same_size : h.rest.cursize ≡ m.cursize
  pub same_limit : h.rest.maxsize ≡ m.maxsize

-- The fields behind the mark, in a message whose mark has been read.
read_fragment_fields :
    (m : Msg) (start len : ℕ) (piece : List ℕ)
    → start < 2 ^ 32
    → len < 2 ^ 15
    → unread m ≡ le_bytes 4 start ++ (le_bytes 2 len ++ piece)
    → (read_long m ≡ (start, advance 4 m))
      × (read_short (advance 4 m) ≡ (len, advance 2 (advance 4 m)))
      × (unread (advance 2 (advance 4 m)) ≡ piece)
read_fragment_fields m start len piece hs hl e =
    let (first, after) = read_long-Takes m start (le_bytes 2 len ++ piece) hs e in
    let (second, payload) = read_short-Takes (advance 4 m) len piece (omega arith) after in
    (first, second ∙ rw (lt→ltb len (2 ^ 15) hl), payload)

unread-length : (m : Msg) (bs : List ℕ) → unread (begin_reading m) ≡ bs → length bs ≤ m.cursize
unfolding begin_reading
unread-length m bs e = omega (arith, ap length e, length-take m.cursize m.buf)

pub reads_fragment :
    (sock : Sock) (port sequence start : ℕ) (piece : List ℕ) (m : Msg)
    → unread (begin_reading m) ≡ fragment_bytes sock port sequence start piece
    → port < 2 ^ 16
    → sequence < 2 ^ 31
    → start < 2 ^ 32
    → length piece < 2 ^ 15
    → ReadsFragment sequence start piece m (read_header (peer sock) m)
unfolding read_header begin_reading
reads_fragment client port sequence start piece m e hp hq hs hl =
    let b = begin_reading m in
    let (mark, after) = read_long-Takes b (sequence + 2 ^ 31) _ (omega arith) e in
    let (qport, behind) = read_short-Takes (advance 4 b) port _ hp after in
    let fields =
      read_fragment_fields (advance 2 (advance 4 b)) start (length piece) piece hs hl behind in
    ground (
      arith,
      mark,
      qport,
      fields,
      unread-length m (fragment_bytes client port sequence start piece) e,
    )
reads_fragment server port sequence start piece m e hp hq hs hl =
    let b = begin_reading m in
    let (mark, after) = read_long-Takes b (sequence + 2 ^ 31) _ (omega arith) e in
    let fields = read_fragment_fields (advance 4 b) start (length piece) piece hs hl after in
    ground
      (arith, mark, fields, unread-length m (fragment_bytes server port sequence start piece) e)

pub length-fragment_bytes :
    (sock : Sock) (port sequence start : ℕ) (piece : List ℕ)
    → length (fragment_bytes sock port sequence start piece) ≤ 12 + length piece
length-fragment_bytes client port sequence start piece = omega arith
length-fragment_bytes server port sequence start piece = omega arith

plain_packet :
    (sock : Sock) (port sequence : ℕ) (bytes : List ℕ)
    → All IsByte bytes
    → length bytes ≤ fragment_size
    → packet_of (write_data (write_qport sock port (write_long empty sequence)) bytes)
      ≡ plain_bytes sock port sequence bytes
plain_packet sock port sequence bytes b h =
    let head = start_packet sock port sequence in
    let m1 = write_qport sock port (write_long empty sequence) in
    let a = Appends-trans head (
      write_data-Appends bytes m1 b
        (room_behind (length bytes) head (omega (arith, length_start sock port sequence)))) in
    packet_of-Appends (write_data m1 bytes) _ a
    ∙ append_assoc (le_bytes 4 sequence) (qport_bytes sock port) bytes

pub plain_msg-bytes :
    (port : ℕ) (ch : Chan) (bytes : List ℕ)
    → All IsByte bytes
    → length bytes ≤ fragment_size
    → packet_of (plain_msg port ch bytes) ≡ plain_bytes ch.sock port ch.outgoing_sequence bytes
unfolding init
plain_msg-bytes port ch bytes b h = plain_packet ch.sock port ch.outgoing_sequence bytes b h

-- What the peer reads in the header of a whole message.
pub record ReadsPlain (sequence : ℕ) (bytes : List ℕ) (h : Header) : Type 0 where
  pub whole : h.fragmented ≡ false
  pub sequence_read : h.sequence ≡ sequence
  pub payload : unread h.rest ≡ bytes

pub reads_plain :
    (sock : Sock) (port sequence : ℕ) (bytes : List ℕ) (m : Msg)
    → unread (begin_reading m) ≡ plain_bytes sock port sequence bytes
    → port < 2 ^ 16
    → sequence < 2 ^ 31
    → ReadsPlain sequence bytes (read_header (peer sock) m)
unfolding read_header begin_reading
reads_plain client port sequence bytes m e hp hq =
    let b = begin_reading m in
    let (mark, after) = read_long-Takes b sequence _ (omega arith) e in
    let (qport, behind) = read_short-Takes (advance 4 b) port bytes hp after in
    ground (arith, mark, qport, behind)
reads_plain server port sequence bytes m e hp hq =
    let b = begin_reading m in
    let (mark, after) = read_long-Takes b sequence bytes (omega arith) e in
    ground (arith, mark, after)

pub length-plain_bytes :
    (sock : Sock) (port sequence : ℕ) (bytes : List ℕ)
    → length (plain_bytes sock port sequence bytes) ≤ 6 + length bytes
length-plain_bytes client port sequence bytes = omega arith
length-plain_bytes server port sequence bytes = omega arith
