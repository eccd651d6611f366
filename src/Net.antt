-- ===== src/Net.antt =====
-- Sending a packet: addresses, the loopback buffers and `NET_SendPacket` of src/net_chan.c.
-- What the operating system's socket does is a parameter: `accepts`, the answer of
-- `Sys_SendPacket` to a packet, while the packets handed to it are kept in `sent`.
pub mod Queue
mod Tests
use co_d4x_client_pub.Common.{
  ℕ, zero, suc, ◌+◌, ◌-◌, ◌%◌, ◌^◌, take, Bool, true, false, Option, none, some, List, [], ◌∷◌,
  ◌++◌, map, ltb, leb, ◌==◌, if◌then◌else◌, ◌||◌, ◌&&◌, length, get_or, set, replicate, put_bytes,
  add32, sub32, slt, sle,
}
use co_d4x_client_pub.Msg.{Msg}

-- `netadrtype_t`. `bad` is NA_BAD and NA_BOT, which are both 0.
pub data AdrType : Type 0 where
  bad loopback broadcast ip ip6 multicast6 unspec down : AdrType

-- `netadr_t`, with the bytes of its union.
pub record Adr : Type 0 where
  pub kind : AdrType
  pub scope_id : ℕ
  pub port : ℕ
  pub ip : List ℕ

pub data Sock : Type 0 where
  client server : Sock

-- `loopback_t`: the 16 messages, each with its `datalen` bytes, and the two counters. `intact` says
-- that no packet was longer than the storage of its message, so that none was written past it; the
-- array is not modelled from such a write on.
pub record Loopback : Type 0 where
  pub msgs : List (List ℕ)
  pub get : ℕ
  pub send : ℕ
  pub intact : Bool

-- `loopbacks[2]`, and the packets that `Sys_SendPacket` was given, oldest first.
pub record Net : Type 0 where
  pub client_loop : Loopback
  pub server_loop : Loopback
  pub sent : List (Adr × List ℕ)

abbrev pub max_loopback : ℕ
max_loopback = 16

abbrev pub max_packetlen : ℕ
max_packetlen = 1400

-- `get & (MAX_LOOPBACK-1)`, and the counter behind it; of the 17 and more that were sent without
-- a read, only the last 16 are there.
abbrev pub catch_up : Loopback → Loopback
catch_up l =
    if slt max_loopback (sub32 l.send l.get)
    then record l { get = sub32 l.send max_loopback }
    else l

unfoldable pub get_loop_packet : Loopback → Option (List ℕ) × Loopback
get_loop_packet l =
    let l' = catch_up l in
    if sle l'.send l'.get
    then (none, l')
    else (some (get_or l'.msgs (l'.get % 16) []), record l' { get = add32 l'.get 1 })

unfoldable pub send_loop_packet : Loopback → List ℕ → Loopback
send_loop_packet l bytes = record l {
  msgs = set l.msgs (l.send % 16) bytes;
  send = add32 l.send 1;
  intact = l.intact && leb (length bytes) max_packetlen;
}

-- `NET_GetLoopPacket`: the message gets the bytes, and the address is the loopback's.
abbrev pub loop_of : Sock → Net → Loopback
loop_of client net = net.client_loop
loop_of server net = net.server_loop

abbrev pub set_loop : Sock → Net → Loopback → Net
set_loop client net l = record net { client_loop = l }
set_loop server net l = record net { server_loop = l }

-- `sock^1`
abbrev pub other : Sock → Sock
other client = server
other server = client

abbrev pub loopback_adr : Adr
loopback_adr = record { kind = loopback; scope_id = 0; port = 0; ip = replicate 16 0 }

abbrev pub deliver : Sock → Net → Msg → Option (List ℕ) × Loopback → Option Adr × Msg × Net
deliver sock net m (none, l) = (none, m, set_loop sock net l)
deliver sock net m (some bytes, l) = (
  some loopback_adr,
  record m { buf = put_bytes m.buf 0 bytes; cursize = length bytes },
  set_loop sock net l,
)

-- `NET_GetLoopPacket`: the address that the caller's `net_from` gets (`none` is qfalse), and the
-- message with the bytes of the packet.
pub net_get_loop_packet : Sock → Net → Msg → Option Adr × Msg × Net
net_get_loop_packet sock net m = deliver sock net m (get_loop_packet (loop_of sock net))

unfoldable pub net_send_loop_packet : Sock → Net → List ℕ → Net
net_send_loop_packet sock net bytes =
    set_loop (other sock) net (send_loop_packet (loop_of (other sock) net) bytes)

-- `Sys_SendPacket`, whose answer is the parameter `accepts`.
abbrev pub sys_send : (Adr → List ℕ → Bool) → Net → Adr → List ℕ → Bool × Net
sys_send accepts net adr bytes =
    (accepts adr bytes, record net { sent = net.sent ++ (adr, bytes) ∷ [] })

abbrev pub send_by_kind : (Adr → List ℕ → Bool) → Sock → Net → Adr → List ℕ → AdrType → Bool × Net
send_by_kind accepts sock net adr bytes loopback = (true, net_send_loop_packet sock net bytes)
send_by_kind accepts sock net adr bytes bad = (false, net)
send_by_kind accepts sock net adr bytes _ = sys_send accepts net adr bytes

-- `NET_SendPacket`
unfoldable pub send_packet : (Adr → List ℕ → Bool) → Sock → Net → Adr → List ℕ → Bool × Net
send_packet accepts sock net adr bytes = send_by_kind accepts sock net adr bytes adr.kind

-- `legacy_netadrtype_t` and `legacy_netadr_t`. The type is an `int`, so it may be any other.
pub data LegacyType : Type 0 where
  bot bad loopback broadcast ip ipx broadcast_ipx other_type : LegacyType

pub record LegacyAdr : Type 0 where
  pub kind : LegacyType
  pub ip : List ℕ
  pub port : ℕ

-- The address that `NET_SendPacketWrapper` sends to. Its local `netadr_t adr` starts with whatever
-- is on the stack, the parameter `stale`, of which the fields that are not assigned stay.
abbrev pub of_legacy : Adr → LegacyAdr → LegacyType → Option Adr
of_legacy stale to LegacyType.loopback =
    some (record stale { kind = AdrType.loopback; port = to.port })
of_legacy stale to LegacyType.broadcast = some (record stale {
  kind = AdrType.broadcast;
  port = to.port;
  scope_id = 0;
  ip = put_bytes stale.ip 0 to.ip;
})
of_legacy stale to LegacyType.ip = some (record stale {
  kind = AdrType.ip;
  port = to.port;
  scope_id = 0;
  ip = put_bytes stale.ip 0 to.ip;
})
of_legacy stale to _ = none

abbrev pub send_to : (Adr → List ℕ → Bool) → Sock → Net → Option Adr → List ℕ → Bool × Net
send_to accepts sock net none bytes = (false, net)
send_to accepts sock net (some adr) bytes = send_packet accepts sock net adr bytes

-- `NET_SendPacketWrapper`
pub send_packet_wrapper : (Adr → List ℕ → Bool) → Adr → Sock → Net → LegacyAdr → List ℕ → Bool × Net
send_packet_wrapper accepts stale sock net to bytes =
    send_to accepts sock net (of_legacy stale to to.kind) bytes

-- `SV_PacketEventWrapper`: the address that `SV_PacketEvent` is called with, if it is called. Only
-- the first four bytes of the union are copied.
abbrev pub to_legacy : LegacyAdr → Adr → AdrType → Option LegacyAdr
to_legacy stale from AdrType.loopback =
    some (record stale { kind = LegacyType.loopback; port = from.port })
to_legacy stale from AdrType.broadcast =
    some (record stale { kind = LegacyType.broadcast; port = from.port; ip = take 4 from.ip })
to_legacy stale from AdrType.ip =
    some (record stale { kind = LegacyType.ip; port = from.port; ip = take 4 from.ip })
to_legacy stale from _ = none

pub packet_event_wrapper : LegacyAdr → Adr → Option LegacyAdr
packet_event_wrapper stale from = to_legacy stale from from.kind

abbrev pub fragment_size : ℕ
fragment_size = 1300

-- `NET_OutOfBandData`: four bytes of 255 before the data, if that fits. The list is the `len` bytes.
pub out_of_band_data : (Adr → List ℕ → Bool) → Sock → Net → Adr → List ℕ → Net
out_of_band_data accepts sock net adr bytes =
    if leb fragment_size (length bytes + 5)
    then net
    else (send_packet accepts sock net adr (255 ∷ 255 ∷ 255 ∷ 255 ∷ bytes)).1

-- `NET_OutOfBandPrint`: `text` is what the format prints; `Q_vsnprintf` cuts it to the buffer
-- behind the header, and `strlen` stops at a zero byte, of which a printed text has none.
pub out_of_band_print : (Adr → List ℕ → Bool) → Sock → Net → Adr → List ℕ → Net
out_of_band_print accepts sock net adr text =
    (send_packet accepts sock net adr (255 ∷ 255 ∷ 255 ∷ 255 ∷ take (fragment_size - 4 - 1) text)).1
