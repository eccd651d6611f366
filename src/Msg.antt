-- ===== src/Msg.antt =====
-- The message buffer of src/msg.c: setup, and the functions that write.
-- `byte *data` is the list of all bytes of the storage; a size, a position and a bit count never
-- get negative, so they are plain numbers, while `lastRefEntity` and the values that are written are 32-bit patterns.
pub mod Read
pub mod Bounds
pub mod Stream
pub mod Fields
pub mod Text
pub mod Bitstream
pub mod Entity
mod Tests
use co_d4x_client_pub.Common.{
  ℕ, zero, suc, ◌+◌, ◌*◌, ◌/◌, ◌%◌, ◌^◌, bit_or, Bool, true, false, Option, none, some, List, [],
  ◌∷◌, ◌++◌, ltb, leb, ◌==◌, if◌then◌else◌, ◌||◌, length, get_or, set, take,
}
use co_d4x_client_pub.Common.{le_bytes, put_bytes, sub32, slt, asr1}

-- `msg_t`. `splitdata` is `none` for NULL.
pub record Msg : Type 0 where
  pub overflowed : Bool
  pub readonly : Bool
  pub buf : List ℕ
  pub splitdata : Option (List ℕ)
  pub maxsize : ℕ
  pub cursize : ℕ
  pub splitsize : ℕ
  pub readcount : ℕ
  pub bit : ℕ
  pub last_ref_entity : ℕ

unfoldable pub init : List ℕ → ℕ → Msg
init buf len = record {
  overflowed = false;
  readonly = false;
  buf = buf;
  splitdata = none;
  maxsize = len;
  cursize = 0;
  splitsize = 0;
  readcount = 0;
  bit = 0;
  last_ref_entity = 0;
}

pub init_read_only : List ℕ → ℕ → Msg
unfolding init
init_read_only buf len = record (init buf len) {
  buf = buf;
  cursize = len;
  readonly = true;
  splitdata = none;
  maxsize = len;
  splitsize = 0;
  readcount = 0;
}

-- The fields that the source does not assign keep what `m` has.
pub init_read_only_split : Msg → List ℕ → ℕ → List ℕ → ℕ → Msg
init_read_only_split m buf len buf2 len2 = record m {
  buf = buf;
  cursize = len;
  readonly = true;
  splitdata = some buf2;
  maxsize = len + len2;
  splitsize = len2;
  readcount = 0;
}

abbrev pub is_some {ℓ} : {A : Type ℓ} → Option A → Bool
is_some none = false
is_some (some a) = true

-- `none` is `Com_Error`, which does not return.
unfoldable pub clear : Msg → Option Msg
clear m =
    if m.readonly || is_some m.splitdata
    then none
    else some (record m { cursize = 0; overflowed = false; bit = 0; readcount = 0 })

pub discard : Msg → Msg
discard m = record m { cursize = m.readcount; splitsize = 0; overflowed = true }

unfoldable pub begin_reading : Msg → Msg
begin_reading m = record m { overflowed = false; readcount = 0; bit = 0 }

-- The bytes copied into the storage `buf`; `none` is `Com_Error`.
pub copy : List ℕ → ℕ → Msg → Option Msg
copy buf len src =
    if ltb len src.cursize
    then none
    else some (record src { buf = put_bytes buf 0 (take src.cursize src.buf) })

-- `*(T *)&msg->data[msg->cursize] = c` for a type of `n` bytes, behind the check for room.
abbrev pub store : ℕ → Msg → ℕ → Msg
store n m c =
    if ltb m.maxsize (m.cursize + n)
    then record m { overflowed = true }
    else record m { buf = put_bytes m.buf m.cursize (le_bytes n c); cursize = m.cursize + n }

unfoldable pub write_byte : Msg → ℕ → Msg
write_byte m c = store 1 m c

unfoldable pub write_short : Msg → ℕ → Msg
write_short m c = store 2 m c

unfoldable pub write_long : Msg → ℕ → Msg
write_long m c = store 4 m c

-- `c` is the pattern of 64 bits.
pub write_int64 : Msg → ℕ → Msg
write_int64 m c = store 8 m c

-- The list is the `length` bytes at `data`.
unfoldable pub write_data : Msg → List ℕ → Msg
write_data m [] = m
write_data m (b ∷ bs) = write_data (write_byte m b) bs

abbrev pub max_string_chars : ℕ
max_string_chars = 1024

abbrev pub big_info_string : ℕ
big_info_string = 8192

-- The text of `s` up to its end; the local copy by `Q_strncpyz` has the same bytes, since they fit.
pub write_text : ℕ → Msg → Option (List ℕ) → Msg
write_text limit m none = write_data m (0 ∷ [])
write_text limit m (some s) =
    if leb limit (length s) then write_data m (0 ∷ []) else write_data m (s ++ 0 ∷ [])

pub write_string : Msg → Option (List ℕ) → Msg
write_string m s = write_text max_string_chars m s

pub write_big_string : Msg → Option (List ℕ) → Msg
write_big_string m s = write_text big_info_string m s

-- The byte that the next bit goes to is begun: it is cleared and counted.
abbrev pub begin_byte : Msg → Msg
begin_byte m = record m {
  bit = m.cursize * 8;
  buf = set m.buf m.cursize 0;
  cursize = m.cursize + 1;
}

-- `msg->data[msg->bit >> 3] |= 1 << (msg->bit & 7)`
abbrev pub or_bit : Msg → Msg
or_bit m = record m {
  buf = set m.buf (m.bit / 8) (bit_or (get_or m.buf (m.bit / 8) 0) (1 * 2 ^ (m.bit % 8)));
}

abbrev pub next_bit : Msg → Msg
next_bit m = record m { bit = m.bit + 1 }

pub write_bit0 : Msg → Msg
write_bit0 m =
    if m.bit % 8 == 0
    then if leb m.maxsize m.cursize then record m { overflowed = true } else next_bit (begin_byte m)
    else next_bit m

pub write_bit1 : Msg → Msg
write_bit1 m =
    if m.bit % 8 == 0
    then if leb m.maxsize m.cursize
      then record m { overflowed = true }
      else next_bit (or_bit (begin_byte m))
    else next_bit (or_bit m)

-- One round of the loop: a byte is begun where needed, and a set bit is stored.
pub put_bit : Msg → ℕ → Msg
put_bit m bits =
    let m' = if m.bit % 8 == 0 then begin_byte m else m in
    next_bit (if bits % 2 == 1 then or_bit m' else m')

pub write_bits_loop : ℕ → Msg → ℕ → Msg
write_bits_loop zero m bits = m
write_bits_loop (suc n) m bits = write_bits_loop n (put_bit m bits) (asr1 bits)

-- The check is for four bytes whatever the count is.
pub write_bits : Msg → ℕ → ℕ → Msg
write_bits m bits bitcount =
    if ltb m.maxsize (m.cursize + 4)
    then record m { overflowed = true }
    else write_bits_loop bitcount m bits

abbrev pub not_ten : ℕ → Bool
not_ten n = if n == 10 then false else true

abbrev pub keep_index : ℕ → Msg → Msg
keep_index index m = record m { last_ref_entity = index }

-- One bit for the successor of the last entity, six for one at most 15 on, and the whole index
-- (behind two bits, or one where indices are not of ten bits) for any other.
pub write_entity_index : Msg → ℕ → ℕ → Msg
write_entity_index m index index_bits =
    let step = sub32 index m.last_ref_entity in
    let m0 = write_bit0 m in
    keep_index index (
      if step == 1
      then write_bit1 m
      else if not_ten index_bits || slt 15 step
      then write_bits (if index_bits == 10 then write_bit1 m0 else m0) index index_bits
      else write_bits (write_bit0 m0) step 4)
