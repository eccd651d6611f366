-- ===== src/Reliable.antt =====
-- The windows of src/net_reliabletransport.c: the send and the receive window of a channel that
-- delivers a stream of bytes, their buffers and their rates.
-- Counters of fragments and sizes are plain numbers: they start at 0 and only grow. A time, a count
-- of bytes, an `ack` and what a packet holds is a 32-bit pattern, so that -1 is `minus_one`.
pub mod Transmit
pub mod Receive
pub mod Ring
pub mod SendLoop
pub mod Resize
pub mod Send
pub mod Deliver
pub mod Acklist
pub mod Ranges
pub mod Invariant
mod Tests
use co_d4x_client_pub.Common.{
  ℕ, zero, suc, ◌+◌, ◌-◌, ◌%◌, ◌^◌, Bool, true, false, Option, none, some, List, [], ◌∷◌, ◌++◌, ltb,
  leb, ◌==◌, if◌then◌else◌, ◌||◌, ◌&&◌, not, get_or, set, take, replicate, put_bytes, add32, sub32,
  slt, minus_one, map,
}
use co_d4x_client_pub.Msg.{Msg, init}
use co_d4x_client_pub.Net.{Adr, Sock}

abbrev pub max_packetlen : ℕ
max_packetlen = 1400

abbrev pub max_fragment_size : ℕ
max_fragment_size = max_packetlen - 200

abbrev pub default_buffer_size : ℕ
default_buffer_size = 32

-- `fragment_t`. The length is an `int`.
pub record Fragment : Type 0 where
  pub data_bytes : List ℕ
  pub len : ℕ
  pub ack : ℕ
  pub packetnum : ℕ
  pub senttime : ℕ

-- `rateTracker_t`
pub record RateTracker : Type 0 where
  pub next_rate_cnt_time : ℕ
  pub bytes : ℕ
  pub last_bytes_snap : ℕ
  pub bytes_per_sec : ℕ
  pub bytes_total : ℕ
  pub last_bytes_snap_total : ℕ
  pub bytes_per_sec_total : ℕ

-- `framedata_t`
pub record Frame : Type 0 where
  pub sequence : ℕ
  pub bufferlen : ℕ
  pub acknowledge : ℕ
  pub selackoffset : ℕ
  pub frame : ℕ
  pub windowsize : ℕ
  pub fragments : List Fragment
  pub packets : ℕ
  pub fragmentbuffer : Msg
  pub rate_info : RateTracker
  pub unsentmillipackets : ℕ

-- `netreliablemsg_t`
pub record Chan : Type 0 where
  pub txwindow : Frame
  pub rxwindow : Frame
  pub sock : Sock
  pub remote_address : Adr
  pub time : ℕ
  pub nextacktime : ℕ
  pub qport : ℕ

abbrev pub snap_first : ℕ → RateTracker → RateTracker
snap_first time r = record r {
  next_rate_cnt_time = add32 time 1000;
  last_bytes_snap = r.bytes;
  last_bytes_snap_total = r.bytes_total;
}

abbrev pub snap_next : ℕ → RateTracker → RateTracker
snap_next time r =
    if slt r.next_rate_cnt_time time
    then record r {
      bytes_per_sec = sub32 r.bytes r.last_bytes_snap;
      last_bytes_snap = r.bytes;
      bytes_per_sec_total = sub32 r.bytes_total r.last_bytes_snap_total;
      last_bytes_snap_total = r.bytes_total;
      next_rate_cnt_time = add32 time 1000;
    }
    else r

abbrev pub with_rates : (RateTracker → RateTracker) → Chan → Chan
with_rates f ch = record ch {
  rxwindow = record ch.rxwindow { rate_info = f ch.rxwindow.rate_info };
  txwindow = record ch.txwindow { rate_info = f ch.txwindow.rate_info };
}

unfoldable pub track_rate : Chan → Chan
track_rate ch =
    if ch.rxwindow.rate_info.next_rate_cnt_time == 0
    then with_rates (snap_first ch.time) ch
    else with_rates (snap_next ch.time) ch

-- The fragments that wait for their acknowledge. The acknowledge never passes the sequence.
abbrev pub get_used_send_buffer_size : Chan → ℕ
get_used_send_buffer_size ch = ch.txwindow.sequence - ch.txwindow.acknowledge

abbrev pub get_used_fragment_cnt : Chan → ℕ
get_used_fragment_cnt ch = ch.txwindow.sequence - ch.txwindow.acknowledge

abbrev pub no_fragment : Fragment
no_fragment = record { data_bytes = []; len = 0; ack = minus_one; packetnum = 0; senttime = 0 }

-- `fragments[i % bufferlen]` of an array of `bufferlen` elements
abbrev pub slot : List Fragment → ℕ → ℕ → Fragment
slot fragments bufferlen i = get_or fragments (i % bufferlen) no_fragment

abbrev pub set_ack : ℕ → Fragment → Fragment
set_ack a f = record f { ack = a }

-- A length past the fragment's data is cut, and a negative one is 1.
abbrev pub clamp_len : ℕ → ℕ
clamp_len len =
    if slt max_fragment_size len then max_fragment_size else if slt len 0 then 1 else len

-- The copy of a fragment over the one of the new buffer.
abbrev pub copy_fragment : Fragment → Fragment → Fragment
copy_fragment old new = record {
  data_bytes = put_bytes new.data_bytes 0 (take (clamp_len old.len) old.data_bytes);
  len = clamp_len old.len;
  ack = old.ack;
  packetnum = old.packetnum;
  senttime = old.senttime;
}

-- The `n` fragments from `i` on move from the places they have in the old buffer to those in the new.
unfoldable pub move_fragments : List Fragment → ℕ → ℕ → ℕ → ℕ → List Fragment → List Fragment
move_fragments oldfrags oldlen newlen zero i newfrags = newfrags
move_fragments oldfrags oldlen newlen (suc n) i newfrags =
    move_fragments oldfrags oldlen newlen n (i + 1)
      (set newfrags (i % newlen) (copy_fragment (slot oldfrags oldlen i) (slot newfrags newlen i)))

abbrev pub resized : Chan → ℕ → List Fragment → Chan
resized ch n newfrags =
    let tx = ch.txwindow in
    let cleared = if tx.acknowledge == 0 then map (set_ack minus_one) newfrags else newfrags in
    record ch {
      txwindow = record tx {
        fragments =
            move_fragments tx.fragments tx.bufferlen n (tx.sequence - tx.acknowledge) tx.acknowledge
              cleared;
        bufferlen = n;
      };
    }

-- `malloc` of that many fragments: what memory holds, or no memory.
module _ (malloc : ℕ → Option (List Fragment)) where
  abbrev pub resize_from : Chan → ℕ → Option (List Fragment) → Option ℕ × Chan
  resize_from ch n none = (none, ch)
  resize_from ch n (some newfrags) = (some n, resized ch n newfrags)

  -- The new size, or `none` for the code's -1.
  unfoldable pub change_send_buffer_size : Chan → ℕ → Option ℕ × Chan
  change_send_buffer_size ch count =
      let n = if leb count default_buffer_size then default_buffer_size else count in
      if leb count default_buffer_size && ch.txwindow.bufferlen == default_buffer_size
      then (some default_buffer_size, ch)
      else if leb n (get_used_send_buffer_size ch)
      then (none, ch)
      else resize_from ch n (malloc n)

-- Whether the fragment `i` has come, or was acknowledged.
abbrev pub has_ack : Frame → ℕ → Bool
has_ack f i = (slot f.fragments f.bufferlen i).ack == i

abbrev pub count_acks : Frame → ℕ → ℕ → ℕ
count_acks f zero i = i
count_acks f (suc n) i = let rest = count_acks f n (i + 1) in if has_ack f i then rest else i

-- The first fragment of the window that has not come, or the window's end.
unfoldable pub get_acknowledge : Frame → ℕ
get_acknowledge f = count_acks f f.windowsize f.sequence

abbrev no_rate : RateTracker
no_rate = record {
  next_rate_cnt_time = 0;
  bytes = 0;
  last_bytes_snap = 0;
  bytes_per_sec = 0;
  bytes_total = 0;
  last_bytes_snap_total = 0;
  bytes_per_sec_total = 0;
}

abbrev new_frame : ℕ → List Fragment → Frame
new_frame windowsize fragments = record {
  sequence = 0;
  bufferlen = default_buffer_size;
  acknowledge = 0;
  selackoffset = 0;
  frame = 0;
  windowsize = windowsize;
  fragments = fragments;
  packets = 0;
  fragmentbuffer = init (replicate max_fragment_size 0) max_fragment_size;
  rate_info = no_rate;
  unsentmillipackets = 0;
}

-- `memset` of -1: every byte is 255 and every `int` -1.
abbrev unset_fragment : Fragment
unset_fragment = record {
  data_bytes = replicate max_fragment_size 255;
  len = minus_one;
  ack = minus_one;
  packetnum = minus_one;
  senttime = minus_one;
}

-- `ReliableMessageSetup`, where its three allocations succeed; `fragments` is what memory holds in
-- the send buffer.
unfoldable pub setup : ℕ → Sock → Adr → List Fragment → Chan
setup qport netsrc remote fragments = record {
  txwindow = new_frame 4 fragments;
  rxwindow = new_frame 20 (replicate default_buffer_size unset_fragment);
  sock = netsrc;
  remote_address = remote;
  time = 0;
  nextacktime = 0;
  qport = qport;
}

abbrev pub set_current_time : Chan → ℕ → Chan
set_current_time ch ftime = record ch { time = ftime }

abbrev pub get_current_time : Chan → ℕ
get_current_time ch = ch.time
