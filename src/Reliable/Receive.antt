-- ===== src/Reliable/Receive.antt =====
-- The receiving side of src/net_reliabletransport.c: `ReliableMessagesReceiveNextFragment`,
-- `ReliableMessageReceive` and `ReliableMessageReceiveSingleFragment`. A null channel is left out.
use co_d4x_client_pub.Common.{
  ℕ, zero, suc, ◌+◌, ◌-◌, ◌%◌, ◌^◌, Bool, true, false, Option, List, [], ◌++◌, ◌==◌, ltb, leb, slt,
  if◌then◌else◌, ◌&&◌, ◌||◌, set, take, drop, put_bytes, add32, minus_one,
}
use co_d4x_client_pub.Msg.{Msg}
use co_d4x_client_pub.Msg.Read.{read_byte, read_short, read_long, read_data}
use co_d4x_client_pub.Reliable.{
  Frame, Chan, Fragment, max_fragment_size, default_buffer_size, slot, set_ack,
  change_send_buffer_size, get_acknowledge,
}

-- `length` fragments from `i` on are marked as acknowledged.
unfoldable pub mark_acks : List Fragment → ℕ → ℕ → ℕ → List Fragment
mark_acks fragments bufferlen zero i = fragments
mark_acks fragments bufferlen (suc n) i =
    mark_acks (set fragments (i % bufferlen) (set_ack i (slot fragments bufferlen i))) bufferlen n
      (add32 i 1)

-- `startack + length > acknowledge + windowsize`, on `unsigned`
abbrev pub is_out_of_window : ℕ → ℕ → ℕ → ℕ → Bool
is_out_of_window acknowledge windowsize startack len =
    ltb (add32 acknowledge windowsize) (add32 startack len)

-- The `n` selective acknowledges; `false` where one is out of the window.
unfoldable pub read_selective_acks : ℕ → ℕ → Frame → Msg → Bool × Frame × Msg
read_selective_acks zero acknowledge tx m = (true, tx, m)
read_selective_acks (suc n) acknowledge tx m =
    let (offset, m1) = read_short m in
    let startack = add32 offset acknowledge in
    let (len, m2) = read_short m1 in
    let rest =
      read_selective_acks n acknowledge
        (record tx { fragments = mark_acks tx.fragments tx.bufferlen len startack }) m2 in
    if is_out_of_window acknowledge tx.windowsize startack len then (false, tx, m2) else rest

abbrev pub count_packet : Msg → Frame → Frame
count_packet m f = record f {
  packets = f.packets + 1;
  rate_info = record f.rate_info { bytes_total = add32 f.rate_info.bytes_total m.cursize };
}

-- The tests of the two numbers a packet starts with: the sequence past the window, an acknowledge
-- past the window, an old one, and one of what was not sent.
abbrev pub is_refused : Chan → ℕ → ℕ → Bool
is_refused ch sequence acknowledge =
    leb (ch.rxwindow.sequence + ch.rxwindow.windowsize + 2 ^ 31) ((sequence + 2 ^ 31) % 2 ^ 32)
    || slt (ch.txwindow.acknowledge + ch.txwindow.windowsize) acknowledge
    || slt acknowledge ch.txwindow.acknowledge
    || slt ch.txwindow.sequence acknowledge

-- The data of a fragment is put in its place, unless it is old or the packet has none.
unfoldable pub store_fragment : Chan → Msg → ℕ → ℕ → Chan
store_fragment ch m sequence size =
    let rx = ch.rxwindow in
    let old = slot rx.fragments rx.bufferlen sequence in
    let (bytes, m') = read_data size m in
    let new = record old {
      data_bytes = put_bytes old.data_bytes 0 bytes;
      len = size;
      ack = sequence;
    } in
    if sequence == minus_one || slt sequence rx.sequence then ch else record ch {
      rxwindow = record rx {
        fragments = set rx.fragments (sequence % rx.bufferlen) new;
        rate_info = record rx.rate_info { bytes = add32 rx.rate_info.bytes size };
      };
    }

-- `malloc`, as for the send buffer
module _ (malloc : ℕ → Option (List Fragment)) where
  -- A new acknowledge moves the send window on, and a large buffer of few fragments shrinks.
  unfoldable pub acknowledge_all : Chan → ℕ → Chan
  acknowledge_all ch acknowledge =
      let tx = ch.txwindow in
      let ch' = record ch { txwindow = record tx { acknowledge = acknowledge } } in
      if slt tx.acknowledge acknowledge
      then if ltb (tx.sequence - acknowledge) default_buffer_size
          && ltb default_buffer_size tx.bufferlen
        then (change_send_buffer_size malloc ch' default_buffer_size).1
        else ch'
      else ch

  -- The part past the selective acknowledges.
  abbrev pub receive_rest : Chan → ℕ → ℕ → Msg → Chan
  receive_rest ch sequence acknowledge m =
      let (windowsize, m1) = read_short m in
      let (size, m2) = read_short m1 in
      if ltb max_fragment_size size
      then ch
      else store_fragment (acknowledge_all ch acknowledge) m2 sequence size

  abbrev pub receive_acks : Chan → ℕ → ℕ → Msg → Chan
  receive_acks ch sequence acknowledge m =
      let (count, m1) = read_byte m in
      let (ok, tx, m2) = read_selective_acks count acknowledge ch.txwindow m1 in
      let ch' = record ch { txwindow = tx } in
      if ltb 3 count then ch else if ok then receive_rest ch' sequence acknowledge m2 else ch'

  -- `ReliableMessagesReceiveNextFragment`
  unfoldable pub receive_next_fragment : Chan → Msg → Chan
  receive_next_fragment ch m =
      let (sequence, m1) = read_long m in
      let (acknowledge, m2) = read_long m1 in
      let (flags, m3) = read_byte m2 in
      let ch1 = record ch {
        rxwindow = count_packet m ch.rxwindow;
        nextacktime = if flags % 2 == 1 then 0 else ch.nextacktime;
      } in
      if is_refused ch sequence acknowledge then ch1 else receive_acks ch1 sequence acknowledge m3

-- What does not fit the caller's buffer is kept for the next call. The kept bytes' message is of
-- `MSG_Init`, so that `MSG_Clear` does not fail on it.
abbrev pub keep_rest : Msg → Fragment → ℕ → Msg
keep_rest m f n =
    let cursize = f.len - n in
    record m {
      buf = put_bytes m.buf 0 (take cursize (drop n f.data_bytes));
      cursize = cursize;
      overflowed = false;
      bit = 0;
      readcount = 0;
    }

-- The loop over at most `n` fragments, for `left` more bytes: what was copied, the next sequence
-- number and the kept rest.
unfoldable pub gather : Frame → ℕ → ℕ → ℕ → Msg → List ℕ × ℕ × Msg
gather f zero i left m = ([], i, m)
gather f (suc n) i left m =
    let g = slot f.fragments f.bufferlen i in
    let (whole, i1, m1) = gather f n (i + 1) (left - g.len) m in
    let (part, i2, m2) = gather f n (i + 1) 0 (keep_rest m g left) in
    if leb left 0
    then ([], i, m)
    else if ltb g.len left
    then (take g.len g.data_bytes ++ whole, i1, m1)
    else (take left g.data_bytes ++ part, i2, m2)

-- The kept bytes.
abbrev pub cached : Msg → List ℕ
cached m = take (m.cursize - m.readcount) (drop m.readcount m.buf)

-- `ReliableMessageReceive`: the bytes of `outdata`, whose number is returned.
unfoldable pub receive : Chan → ℕ → List ℕ × Chan
receive ch len =
    let rx = ch.rxwindow in
    let m = rx.fragmentbuffer in
    let available = get_acknowledge rx - rx.sequence in
    let wlen = if ltb (m.cursize - m.readcount) len then m.cursize - m.readcount else len in
    let first = take wlen (drop m.readcount m.buf) in
    let (bytes, i, m') =
      gather rx available rx.sequence (len - wlen) (record m { readcount = m.readcount + wlen }) in
    (
      first ++ bytes,
      record ch {
        rxwindow = record rx {
          fragmentbuffer = m';
          sequence = i;
          selackoffset = if ltb (rx.sequence + 1) i then 1 else rx.selackoffset;
        };
      },
    )

-- `ReliableMessageReceiveSingleFragment`, into a buffer of `len` bytes.
unfoldable pub receive_single_fragment : Chan → ℕ → List ℕ × Chan
receive_single_fragment ch len =
    let rx = ch.rxwindow in
    let f = slot rx.fragments rx.bufferlen rx.sequence in
    if ltb len max_fragment_size || ltb (get_acknowledge rx - rx.sequence) 1 then ([], ch) else (
      take f.len f.data_bytes,
      record ch { rxwindow = record rx { sequence = rx.sequence + 1 } },
    )
