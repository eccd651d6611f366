-- ===== src/Reliable/Send.antt =====
-- `ReliableMessageSend` of src/net_reliabletransport.c. The data is the list of its `len` bytes, so
-- that the error for a negative length is left out, and a null channel too.
use co_d4x_client_pub.Common.{
  ℕ, zero, suc, ◌+◌, ◌-◌, ◌/◌, ◌%◌, Option, none, some, List, leb, ltb, if◌then◌else◌, length, set,
  take, drop, put_bytes, add32, minus_one,
}
use co_d4x_client_pub.Reliable.{
  Frame, Chan, Fragment, max_fragment_size, slot, change_send_buffer_size,
}

-- The fragment that holds these bytes, over what its memory held.
abbrev pub fill : Fragment → List ℕ → Fragment
fill old bytes = record {
  data_bytes = put_bytes old.data_bytes 0 bytes;
  len = length bytes;
  ack = minus_one;
  packetnum = 0;
  senttime = 0;
}

-- The next fragment of the send buffer holds these bytes.
abbrev pub put_fragment : Frame → List ℕ → Frame
put_fragment f bytes = record f {
  fragments =
      set f.fragments (f.sequence % f.bufferlen)
        (fill (slot f.fragments f.bufferlen f.sequence) bytes);
  sequence = f.sequence + 1;
  rate_info = record f.rate_info { bytes = add32 f.rate_info.bytes (length bytes) };
}

-- The loop over the free fragments: the window and the number of bytes sent.
unfoldable pub send_loop : ℕ → Frame → List ℕ → ℕ → Frame × ℕ
send_loop zero f bytes sentlen = (f, sentlen)
send_loop (suc n) f bytes sentlen =
    let slen = if leb max_fragment_size (length bytes) then max_fragment_size else length bytes in
    let rest = send_loop n (put_fragment f (take slen bytes)) (drop slen bytes) (sentlen + slen) in
    if leb (length bytes) 0 then (f, sentlen) else rest

abbrev pub new_free : Option ℕ → ℕ → ℕ → ℕ
new_free none used free = free
new_free (some n) used free = if ltb used n then n - used else free

module _ (malloc : ℕ → Option (List Fragment)) where
  -- The buffer grows where the data needs it, by half more than that.
  unfoldable pub make_room : Chan → ℕ → Chan × ℕ
  make_room ch len =
      let used = ch.txwindow.sequence - ch.txwindow.acknowledge in
      let free = ch.txwindow.bufferlen - used in
      let need = len / max_fragment_size + used + 1 in
      let (r, ch') = change_send_buffer_size malloc ch (need + need / 2) in
      if ltb free (len / max_fragment_size + 1) then (ch', new_free r used free) else (ch, free)

  unfoldable pub send : Chan → List ℕ → ℕ × Chan
  send ch bytes =
      let (ch', free) = make_room ch (length bytes) in
      let (tx, sentlen) = send_loop free ch'.txwindow bytes 0 in
      (sentlen, record ch' { txwindow = tx })
