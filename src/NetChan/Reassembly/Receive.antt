-- ===== src/NetChan/Reassembly/Receive.antt =====
-- The receiving side: the fragments of a message are put together.
use co_d4x_client_pub.Common.{
  ℕ, zero, suc, ◌+◌, ◌-◌, ◌*◌, ◌^◌, ◌≤◌, ◌<◌, ◌≡◌, refl, sym, ap, ◌∙◌, arith, false, List, [], ◌∷◌,
  ◌++◌, append_assoc, length, length-append, take, drop, if◌then◌else◌, length-put_bytes, le_bytes,
  put_bytes, take-put_bytes, sle, length-take, length-drop, take-drop-take, take-all, sub32, add32,
  take-append-drop, drop-append_left,
}
use co_d4x_client_pub.Msg.{Msg, init}
use co_d4x_client_pub.Msg.Stream.{unread}
use co_d4x_client_pub.Net.{Sock, fragment_size}
use co_d4x_client_pub.NetChan.{
  Chan, read_header, process, process_fragment, add_fragment, restart, append_fragment, is_illegal,
  complete,
}
use co_d4x_client_pub.NetChan.Packet.{
  peer, fragment_bytes, arrive, arrive-unread, ReadsFragment, reads_fragment, plain_bytes,
  ReadsPlain, reads_plain, length-plain_bytes, length-fragment_bytes,
}
use co_d4x_client_pub.NetChan.Reassembly.Fragments.{fragments}

-- The messages that a channel accepts of a run of packets, and the channel behind them. Each packet
-- arrives in a storage of `size` bytes.
abbrev pub accepted : List ℕ → ℕ → Chan → List (List ℕ) → List Msg × Chan
accepted storage size ch [] = ([], ch)
accepted storage size ch (p ∷ ps) =
    let (ok, ch', m) = process ch (arrive storage size p) in
    let (ms, ch'') = accepted storage size ch' ps in (if ok then m ∷ ms else ms, ch'')

-- The assembly of a channel: the first `start` bytes of the message are there.
pub record Assembling (ch : Chan) (sequence : ℕ) (got : List ℕ) : Type 0 where
  pub position : (restart ch sequence).fragment_length ≡ length got
  pub content : take (length got) ch.fragment_buffer ≡ got
  pub storage : ch.fragment_buffer_size ≤ length ch.fragment_buffer

unread_window :
    (m : Msg) (piece : List ℕ)
    → unread m ≡ piece
    → m.readcount + length piece ≤ m.cursize
    → take (length piece) (drop m.readcount m.buf) ≡ piece
unread_window m piece e h =
    sym (take-drop-take m.readcount (length piece) m.cursize m.buf h)
    ∙ rw e (take-all (length piece) piece (omega arith))

-- A fragment that is the next of the assembly and fits.
record Next (ch : Chan) (m : Msg) (got piece : List ℕ) : Type 0 where
  position : ch.fragment_length ≡ length got
  content : take (length got) ch.fragment_buffer ≡ got
  storage : ch.fragment_buffer_size ≤ length ch.fragment_buffer
  room : length got + length piece ≤ ch.fragment_buffer_size
  payload : unread m ≡ piece
  inside : m.readcount + length piece ≤ m.cursize
  short : length piece < 2 ^ 15

appended :
    (ch : Chan) (m : Msg) (got piece : List ℕ)
    → Next ch m got piece
    → take (length got + length piece) (append_fragment ch m (length piece)).fragment_buffer
      ≡ got ++ piece
appended ch m got piece n =
    rw (n.position, unread_window m piece n.payload n.inside)
      (take-put_bytes piece ch.fragment_buffer (length got) (length got + length piece)
          (omega (arith, n)) refl
        ∙ rw n.content)

legal :
    (ch : Chan) (m : Msg) (got piece : List ℕ)
    → Next ch m got piece
    → is_illegal ch m (length piece) ≡ false
legal ch m got piece n = ground (arith, n)

add_full :
    (ch : Chan) (m : Msg) (sequence : ℕ) (got piece : List ℕ)
    → Next ch m got piece
    → length piece ≡ fragment_size
    → add_fragment ch m sequence (length got) (length piece)
      ≡ (false, append_fragment ch m (length piece), m)
unfolding add_fragment
add_full ch m sequence got piece n e = ground (arith, n, legal ch m got piece n)

add_last :
    (ch : Chan) (m : Msg) (sequence : ℕ) (got piece : List ℕ)
    → Next ch m got piece
    → length piece < fragment_size
    → length got + length piece ≤ m.maxsize
    → add_fragment ch m sequence (length got) (length piece)
      ≡ complete (append_fragment ch m (length piece)) m sequence
unfolding add_fragment
add_last ch m sequence got piece n e k = ground (arith, n, legal ch m got piece n)

-- The message that ends an assembly holds all of it behind the sequence number.
complete-unread :
    (ch : Chan) (m : Msg) (sequence : ℕ) (all : List ℕ)
    → ch.fragment_length ≡ length all
    → take (length all) ch.fragment_buffer ≡ all
    → length all + 4 ≤ length m.buf
    → unread (complete ch m sequence).2 ≡ all
complete-unread ch m sequence all e c h =
    rw (e, c)
      (ap (drop 4) (
          take-put_bytes all (put_bytes m.buf 0 (le_bytes 4 sequence)) 4 (length all + 4)
            (omega (arith, length-put_bytes (le_bytes 4 sequence) m.buf 0)) (omega arith))
        ∙ drop-append_left 4 (take 4 (put_bytes m.buf 0 (le_bytes 4 sequence))) all (
            omega (
              arith,
              length-take 4 (put_bytes m.buf 0 (le_bytes 4 sequence)),
              length-put_bytes (le_bytes 4 sequence) m.buf 0,
            )))

-- The channel that a fragment of `sequence` is added to.
abbrev at_sequence : Chan → ℕ → Chan
at_sequence ch sequence =
    restart (record ch { dropped = sub32 sequence (add32 ch.incoming_sequence 1) }) sequence

process_step :
    (ch : Chan) (m : Msg) (sequence start : ℕ) (piece : List ℕ)
    → ReadsFragment sequence start piece m (read_header ch.sock m)
    → sle sequence ch.incoming_sequence ≡ false
    → process ch m
      ≡ add_fragment
          (at_sequence ch sequence)
          (read_header ch.sock m).rest
          sequence
          start
          (length piece)
unfolding process process_fragment
process_step ch m sequence start piece r new =
    rw (r.sequence_read, new, r.fragmented, r.start_read, r.len_read)

restart_same :
    (ch : Chan) (sequence : ℕ) → ch.fragment_sequence ≡ sequence → restart ch sequence ≡ ch
restart_same ch sequence e = ground arith

-- What `restart` keeps.
at_sequence-frame :
    (ch : Chan) (sequence : ℕ)
    → let ch' = at_sequence ch sequence in
      (ch'.fragment_buffer ≡ ch.fragment_buffer)
      × (ch'.fragment_buffer_size ≡ ch.fragment_buffer_size)
      × (ch'.incoming_sequence ≡ ch.incoming_sequence)
      × (ch'.sock ≡ ch.sock)
      × (ch'.fragment_sequence ≡ sequence)
      × (ch'.fragment_length ≡ (restart ch sequence).fragment_length)
at_sequence-frame ch sequence = ground arith

-- A packet with a fragment, as the receiver meets it.
fragment-Next :
    (ch : Chan) (m : Msg) (sequence start : ℕ) (got piece : List ℕ)
    → Assembling ch sequence got
    → ReadsFragment sequence start piece m (read_header ch.sock m)
    → length got + length piece ≤ ch.fragment_buffer_size
    → length piece < 2 ^ 15
    → Next (at_sequence ch sequence) (read_header ch.sock m).rest got piece
fragment-Next ch m sequence start got piece a r room short =
    let f = at_sequence-frame ch sequence in
    record {
      position = f.5 ∙ a.position;
      content = ap (take (length got)) f.0 ∙ a.content;
      storage = omega (arith, f.1, ap length f.0, a.storage);
      room = omega (arith, f.1);
      payload = r.payload;
      inside = r.inside;
      short = short;
    }

-- What the receiver needs to put the message together.
pub record Ready (storage : List ℕ) (size : ℕ) (ch : Chan) (sock : Sock) (port sequence total : ℕ)
    : Type 0 where
  pub side : ch.sock ≡ peer sock
  pub new : sle sequence ch.incoming_sequence ≡ false
  pub port_range : port < 2 ^ 16
  pub sequence_range : sequence < 2 ^ 31
  pub total_range : total < 2 ^ 31
  pub buffer : total ≤ ch.fragment_buffer_size
  pub message : total + 4 ≤ size
  pub packets : size ≤ length storage
  pub packet : 1400 ≤ length storage

-- A fragment of at most 1300 bytes is read by the peer.
reads :
    (storage : List ℕ) (size : ℕ) (ch : Chan) (sock : Sock) (port sequence total start : ℕ)
    (piece : List ℕ)
    → Ready storage size ch sock port sequence total
    → length piece ≤ fragment_size
    → start < 2 ^ 32
    → ReadsFragment sequence start piece
        (arrive storage size (fragment_bytes sock port sequence start piece))
        (read_header ch.sock (arrive storage size (fragment_bytes sock port sequence start piece)))
reads storage size ch sock port sequence total start piece r small h =
    let bytes = fragment_bytes sock port sequence start piece in
    rw r.side (
      reads_fragment sock port sequence start piece (arrive storage size bytes)
        (arrive-unread storage size bytes
          (omega (arith, length-fragment_bytes sock port sequence start piece, r.packet)))
        r.port_range r.sequence_range h (omega arith))

-- What a run of fragments gives: one message, with all the bytes, and the channel has its number.
pub record Accepts (sequence : ℕ) (all : List ℕ) (r : List Msg × Chan) : Type 0 where
  pub msg : Msg
  pub only : r.0 ≡ msg ∷ []
  pub payload : unread msg ≡ all
  pub number : r.1.incoming_sequence ≡ sequence

pub accepted-fragments :
    (n : ℕ) (storage : List ℕ) (size : ℕ) (ch : Chan) (sock : Sock) (port sequence start : ℕ)
    (got bytes : List ℕ)
    → Ready storage size ch sock port sequence (length got + length bytes)
    → Assembling ch sequence got
    → start ≡ length got
    → n * fragment_size ≤ length bytes
    → length bytes < n * fragment_size + fragment_size
    → Accepts sequence
        (got ++ bytes)
        (accepted storage size ch (fragments sock port sequence n start bytes))
unfolding init
accepted-fragments zero storage size ch sock port sequence start got bytes r a e lo hi =
    let m = arrive storage size (fragment_bytes sock port sequence start bytes) in
    let rd =
      reads storage size ch sock port sequence _ start bytes r (omega arith)
        (omega (arith, r.total_range)) in
    let nx = fragment-Next ch m sequence start got bytes a rd r.buffer (omega arith) in
    let here = at_sequence ch sequence in
    let rest = (read_header ch.sock m).rest in
    let done = append_fragment here rest (length bytes) in
    let step : process ch m ≡ complete done rest sequence =
      process_step ch m sequence start bytes rd r.new
      ∙ ap (λ k. add_fragment here rest sequence k (length bytes)) e
      ∙ add_last here rest sequence got bytes nx (omega arith)
          (rw rd.same_limit (omega (arith, r.message))) in
    rw step (record {
      msg = (complete done rest sequence).2;
      only = refl;
      payload =
          complete-unread done rest sequence (got ++ bytes)
            (omega (arith, nx.position, length-append got bytes))
            (rw length-append (appended here rest got bytes nx))
            (omega (
              arith,
              ap length rd.same_buf,
              length-put_bytes (fragment_bytes sock port sequence start bytes) storage 0,
              length-append got bytes,
              r.message,
              r.packets,
            ));
      number = refl;
    })
accepted-fragments (suc n) storage size ch sock port sequence start got bytes r a e lo hi =
    let piece = take fragment_size bytes in
    let m = arrive storage size (fragment_bytes sock port sequence start piece) in
    let full : length piece ≡ fragment_size = omega (arith, length-take fragment_size bytes) in
    let rd =
      reads storage size ch sock port sequence _ start piece r (omega arith)
        (omega (arith, r.total_range)) in
    let nx =
      fragment-Next ch m sequence start got piece a rd (omega (arith, r.buffer)) (omega arith) in
    let here = at_sequence ch sequence in
    let rest = (read_header ch.sock m).rest in
    let ch' = append_fragment here rest (length piece) in
    let step : process ch m ≡ (false, ch', rest) =
      process_step ch m sequence start piece rd r.new
      ∙ ap (λ k. add_fragment here rest sequence k (length piece)) e
      ∙ add_full here rest sequence got piece nx full in
    let f = at_sequence-frame ch sequence in
    let split : (got ++ piece) ++ drop fragment_size bytes ≡ got ++ bytes =
      append_assoc got piece (drop fragment_size bytes)
      ∙ ap (λ l. got ++ l) (take-append-drop fragment_size bytes) in
    let left : length (drop fragment_size bytes) ≡ length bytes - fragment_size =
      length-drop fragment_size bytes in
    let total : length (got ++ piece) + length (drop fragment_size bytes)
        ≡ length got + length bytes =
      omega (arith, left, length-append got piece) in
    let kept =
      length-put_bytes (take (length piece) (drop rest.readcount rest.buf)) here.fragment_buffer
        here.fragment_length in
    let ready : Ready storage size ch' sock port sequence
        (length (got ++ piece) + length (drop fragment_size bytes)) =
      record {
        side = f.3 ∙ r.side;
        new = rw f.2 r.new;
        port_range = r.port_range;
        sequence_range = r.sequence_range;
        total_range = omega (arith, total, r.total_range);
        buffer = omega (arith, total, r.buffer, f.1);
        message = omega (arith, total, r.message);
        packets = r.packets;
        packet = r.packet;
      } in
    let assembling : Assembling ch' sequence (got ++ piece) = record {
      position =
          ap (λ c. c.fragment_length) (restart_same ch' sequence f.4)
          ∙ omega (arith, nx.position, length-append got piece);
      content = rw length-append (appended here rest got piece nx);
      storage = omega (arith, kept, nx.storage);
    } in
    rw (step, ← split)
      (accepted-fragments n storage size ch' sock port sequence (start + fragment_size)
        (got ++ piece) (drop fragment_size bytes) ready assembling
        (omega (arith, length-append got piece)) (omega (arith, left)) (omega (arith, left)))

-- A message that is not fragmented is accepted at once.
pub accepted-plain :
    (storage : List ℕ) (size : ℕ) (ch : Chan) (sock : Sock) (port sequence : ℕ) (bytes : List ℕ)
    → Ready storage size ch sock port sequence (length bytes)
    → length bytes < fragment_size
    → Accepts sequence bytes (accepted storage size ch (plain_bytes sock port sequence bytes ∷ []))
unfolding process
accepted-plain storage size ch sock port sequence bytes r h =
    let m = arrive storage size (plain_bytes sock port sequence bytes) in
    let rd : ReadsPlain sequence bytes (read_header ch.sock m) = rw r.side (
      reads_plain sock port sequence bytes m
        (arrive-unread storage size (plain_bytes sock port sequence bytes)
          (omega (arith, length-plain_bytes sock port sequence bytes, r.packet)))
        r.port_range r.sequence_range) in
    rw (rd.sequence_read, r.new, rd.whole)
      (record {
        msg = (read_header ch.sock m).rest;
        only = refl;
        payload = rd.payload;
        number = refl;
      })
