-- ===== src/Reliable/Transmit.antt =====
-- The sending side of src/net_reliabletransport.c: `ReliableMessageWriteSelectiveAcklist`,
-- `ReliableMessagesTransmitNextFragment` and `ReliableMessagesFrame`.
use co_d4x_client_pub.Common.{
  ℕ, zero, suc, ◌+◌, ◌-◌, ◌/◌, ◌%◌, ◌^◌, Bool, true, false, List, ◌==◌, ltb, leb, slt,
  if◌then◌else◌, ◌&&◌, not, set, take, replicate, add32, sub32, mul32, minus_one,
}
use co_d4x_client_pub.Msg.{Msg, init, write_byte, write_short, write_long, write_data}
use co_d4x_client_pub.Net.{Adr, Net, send_packet}
use co_d4x_client_pub.Reliable.{
  Frame, Chan, Fragment, max_packetlen, slot, has_ack, track_rate, set_current_time,
}

-- The list while it is written: the message, whether the last fragment was in a range, the number of
-- ranges and the length of the last.
pub record Acks : Type 0 where
  pub msg : Msg
  pub inrange : Bool
  pub count : ℕ
  pub lengthcnt : ℕ

abbrev pub start_range : Acks → ℕ → Acks
start_range a i =
    if a.inrange
    then a
    else record a { msg = write_short a.msg i; count = a.count + 1; lengthcnt = 0 }

abbrev pub end_range : Acks → Acks
end_range a = if a.inrange then record a { msg = write_short a.msg a.lengthcnt } else a

abbrev pub in_range : Acks → ℕ → Acks
in_range a i = let b = start_range a i in record b { inrange = true; lengthcnt = b.lengthcnt + 1 }

abbrev pub is_full : Acks → Bool
is_full a = a.inrange && leb 3 a.count

-- The loop over the window, on the number of fragments left; the position where it ends. The break
-- leaves `inrange` set.
unfoldable pub acks_loop : Frame → ℕ → ℕ → Acks → Acks × ℕ
acks_loop f zero i a = (a, i)
acks_loop f (suc n) i a =
    let b = end_range a in
    let more = acks_loop f n (i + 1) (in_range a i) in
    let gap = acks_loop f n (i + 1) (record b { inrange = false }) in
    if has_ack f (i + f.sequence) then more else if is_full a then (b, i) else gap

abbrev pub no_acks : Msg → Acks
no_acks m = record { msg = m; inrange = false; count = 0; lengthcnt = 0 }

abbrev pub put_count : ℕ → Acks → Msg
put_count pos a = record a.msg { buf = set a.msg.buf pos (a.count % 256) }

-- The window with the offset where the next list starts, and the message.
unfoldable pub write_selective_acklist : Frame → Msg → Frame × Msg
write_selective_acklist f m =
    let (a, i) =
      acks_loop f (f.windowsize - f.selackoffset) f.selackoffset (no_acks (write_byte m 0)) in
    (
      record f { selackoffset = if ltb i f.windowsize then i else 1 },
      put_count m.cursize (end_range a),
    )

-- A packet's header, with the list of what has come, up to the window's size.
abbrev pub header : Chan → ℕ → Frame × Msg
header ch sequence =
    let m = write_long (init (replicate max_packetlen 0) max_packetlen) 0xfffffff0 in
    let m' = write_long (write_long (write_short m ch.qport) sequence) ch.rxwindow.sequence in
    let (rx, m'') = write_selective_acklist ch.rxwindow (write_byte m' 0) in
    (rx, write_short m'' ch.txwindow.windowsize)

abbrev pub count_sent : ℕ → Frame → Frame
count_sent n f = record f {
  packets = f.packets + 1;
  rate_info = record f.rate_info { bytes_total = add32 f.rate_info.bytes_total n };
}

-- The next fragment, or the start of the window again.
abbrev pub next_frame : Frame → Frame
next_frame f =
    if leb (f.acknowledge + f.windowsize) (f.frame + 1)
    then record f { frame = f.acknowledge }
    else record f { frame = f.frame + 1 }

abbrev pub catch_up : Frame → Frame
catch_up f = if ltb f.frame f.acknowledge then record f { frame = f.acknowledge } else f

module _ (accepts : Adr → List ℕ → Bool) where
  -- The packet is sent, and the next acknowledge is due in 350 milliseconds.
  abbrev pub send_out : Chan → Net → Frame → Msg → Chan × Net
  send_out ch net rx m =
      let (ok, net') = send_packet accepts ch.sock net ch.remote_address (take m.cursize m.buf) in
      (
        record ch {
          txwindow = count_sent m.cursize ch.txwindow;
          rxwindow = rx;
          nextacktime = add32 ch.time 350;
        },
        net',
      )

  -- A packet that only acknowledges has -1 as its sequence.
  abbrev pub transmit_ack : Chan → Net → Chan × Net
  transmit_ack ch net =
      let (rx, m) = header ch minus_one in
      if slt ch.nextacktime ch.time then send_out ch net rx (write_short m 0) else (ch, net)

  abbrev pub fragment_packet : Msg → Fragment → Msg
  fragment_packet m f = write_data (write_short m f.len) (take f.len f.data_bytes)

  -- The current fragment, unless there is none or the other end has it.
  abbrev pub transmit_current : Chan → Net → Chan × Net
  transmit_current ch net =
      let tx = ch.txwindow in
      let (rx, m) = header ch tx.frame in
      if ltb tx.frame tx.sequence && not (has_ack tx tx.frame)
      then send_out ch net rx (fragment_packet m (slot tx.fragments tx.bufferlen tx.frame))
      else (ch, net)

  unfoldable pub transmit_next_fragment : Chan → Net → Chan × Net
  transmit_next_fragment ch net =
      let (ch1, net1) = transmit_current (record ch { txwindow = catch_up ch.txwindow }) net in
      if ch.txwindow.acknowledge == ch.txwindow.sequence
      then transmit_ack ch net
      else (record ch1 { txwindow = next_frame ch1.txwindow }, net1)

  unfoldable pub transmit_fragments : ℕ → Chan → Net → Chan × Net
  transmit_fragments zero ch net = (ch, net)
  transmit_fragments (suc n) ch net =
      let (ch', net') = transmit_next_fragment ch net in transmit_fragments n ch' net'

  -- `/ 1000` and `% 1000` on `int`, the first as a number of rounds.
  abbrev pub packet_count : ℕ → ℕ
  packet_count millipackets = if slt millipackets 0 then 0 else millipackets / 1000

  abbrev pub unsent_count : ℕ → ℕ
  unsent_count millipackets =
      if slt millipackets 0 then sub32 0 ((2 ^ 32 - millipackets) % 1000) else millipackets % 1000

  abbrev pub forced_ack : Chan → Net → Chan × Net
  forced_ack ch net =
      let sent = transmit_next_fragment ch net in
      if slt ch.nextacktime ch.time then sent else (ch, net)

  -- `ReliableMessagesFrame`
  unfoldable pub run_frame : Chan → Net → ℕ → Chan × Net
  run_frame ch net now =
      let elapsed = sub32 now ch.time in
      let (ch1, net1) = forced_ack (set_current_time ch now) net in
      let tx = ch1.txwindow in
      let millipackets = add32 (mul32 elapsed tx.windowsize) tx.unsentmillipackets in
      let (ch2, net2) =
        transmit_fragments (packet_count millipackets)
          (record ch1 { txwindow = record tx { unsentmillipackets = unsent_count millipackets } })
          net1 in
      (track_rate ch2, net2)
