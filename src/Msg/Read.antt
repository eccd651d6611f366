-- ===== src/Msg/Read.antt =====
-- The functions of src/msg.c that read. A value of type `int` is a 32-bit pattern, so the -1 that
-- a reader returns at the end of the message is `minus_one`.
use co_d4x_client_pub.Common.{
  ℕ, zero, suc, ◌+◌, ◌-◌, ◌*◌, ◌/◌, ◌%◌, ◌^◌, bit_or, Bool, true, false, Option, none, some, List,
  [], ◌∷◌, ltb, leb, ◌==◌, if◌then◌else◌, ◌||◌, ◌&&◌, get_or, take, drop,
}
use co_d4x_client_pub.Common.{from_le, add32, sext16, minus_one}
use co_d4x_client_pub.Msg.{Msg}

-- `*(T *)&msg->data[msg->readcount]` for a type of `n` bytes, as an unsigned number.
abbrev pub load : ℕ → Msg → ℕ
load n m = from_le (take n (drop m.readcount m.buf))

abbrev pub past_end : ℕ → Msg → Bool
past_end n m = ltb m.cursize (m.readcount + n)

abbrev pub advance : ℕ → Msg → Msg
advance n m = record m { readcount = m.readcount + n }

abbrev pub overflow : Msg → Msg
overflow m = record m { overflowed = true }

unfoldable pub read_byte : Msg → ℕ × Msg
read_byte m = if past_end 1 m then (minus_one, overflow m) else (load 1 m, advance 1 m)

unfoldable pub read_short : Msg → ℕ × Msg
read_short m = if past_end 2 m then (minus_one, overflow m) else (sext16 (load 2 m), advance 2 m)

unfoldable pub read_long : Msg → ℕ × Msg
read_long m = if past_end 4 m then (minus_one, overflow m) else (load 4 m, advance 4 m)

-- The -1 is one of 64 bits here.
unfoldable pub read_int64 : Msg → ℕ × Msg
read_int64 m = if past_end 8 m then (2 ^ 64 - 1, overflow m) else (load 8 m, advance 8 m)

-- Each read is stored as a byte, a failed one as 255.
unfoldable pub read_data : ℕ → Msg → List ℕ × Msg
read_data zero m = ([], m)
read_data (suc n) m =
    let (c, m') = read_byte m in let (bs, m'') = read_data n m' in ((c % 256) ∷ bs, m'')

-- What ends a string: a zero byte or the end of the message; a line ends at a newline too.
abbrev pub ends : ℕ → Bool
ends c = c == 0 || c == minus_one

abbrev pub ends_line : ℕ → Bool
ends_line c = ends c || c == b'\n'

-- A `%` is replaced, so that the text is no format.
abbrev pub translate : ℕ → ℕ
translate c = if c == b'%' then b'.' else c

-- The first loop of `MSG_ReadString`, with at least one round: the text, the last byte read, and
-- the message behind it. `room` is what is left of `len - 1` (as `int`) behind this round.
unfoldable pub read_text : (ℕ → Bool) → ℕ → Msg → List ℕ × ℕ × Msg
read_text stop zero m =
    let (c, m') = read_byte m in if stop c then ([], c, m') else (translate c ∷ [], translate c, m')
read_text stop (suc room) m =
    let (c, m') = read_byte m in
    let rest = read_text stop room m' in
    if stop c then ([], c, m') else (translate c ∷ rest.0, rest.1, rest.2)

-- The second loop: the rest of a text that did not fit. Each round takes a byte of the message or
-- is the last, so `cursize + 1` rounds are enough.
unfoldable pub skip_text : ℕ → Msg → Msg
skip_text zero m = m
skip_text (suc fuel) m =
    let (c, m') = read_byte m in let rest = skip_text fuel m' in if ends c then m' else rest

-- The text without its end, and the message. `len` is the size of the buffer.
unfoldable pub read_string : Msg → ℕ → List ℕ × Msg
read_string m len =
    let (text, last, m') = read_text ends (len - 2) m in
    if ends last then (text, m') else (text, skip_text (m'.cursize + 1) m')

unfoldable pub read_string_line : Msg → ℕ → List ℕ × Msg
read_string_line m len = let (text, last, m') = read_text ends_line (len - 2) m in (text, m')

pub clear_last_referenced_entity : Msg → Msg
clear_last_referenced_entity m = record m { last_ref_entity = minus_one }

-- `(cursize + splitsize) * 8 - ((8 - bit) & 7)`
pub get_used_bit_count : Msg → ℕ
get_used_bit_count m = (m.cursize + m.splitsize) * 8 - (8 - m.bit % 8) % 8

-- A byte of the second part.
abbrev pub split_byte : Option (List ℕ) → ℕ → ℕ
split_byte none i = 0
split_byte (some bs) i = get_or bs i 0

-- The byte at position `i` of the two parts.
abbrev pub byte_at : Msg → ℕ → ℕ
byte_at m i = if ltb i m.cursize then get_or m.buf i 0 else split_byte m.splitdata (i - m.cursize)

abbrev pub at_end : Msg → Bool
at_end m = m.bit % 8 == 0 && leb (m.cursize + m.splitsize) m.readcount

-- The next byte is begun where the last is used up.
abbrev pub fetch : Msg → Msg
fetch m =
    if m.bit % 8 == 0 then record m { bit = 8 * m.readcount; readcount = m.readcount + 1 } else m

-- The second part is absent only with `splitsize` 0, and then `at_end` keeps from reading it.
unfoldable pub read_bit : Msg → ℕ × Msg
read_bit m =
    if at_end m
    then (minus_one, overflow m)
    else let m' = fetch m in
      (byte_at m' (m'.bit / 8) / 2 ^ (m'.bit % 8) % 2, record m' { bit = m'.bit + 1 })

abbrev pub is_none {ℓ} : {A : Type ℓ} → Option A → Bool
is_none none = true
is_none (some a) = false

-- `i` bits are read, and `ret` holds them.
unfoldable pub read_bits_loop : ℕ → ℕ → ℕ → Msg → ℕ × Msg
read_bits_loop zero i ret m = (ret, m)
read_bits_loop (suc n) i ret m =
    let m' = fetch m in
    let b = byte_at m' (m'.bit / 8) / 2 ^ (m'.bit % 8) % 2 in
    let rest = read_bits_loop n (i + 1) (bit_or ret (b * 2 ^ i)) (record m' { bit = m'.bit + 1 }) in
    if at_end m
    then (minus_one, overflow m)
    else if leb m'.cursize (m'.bit / 8) && is_none m'.splitdata
    then (0, m')
    else rest

unfoldable pub read_bits : Msg → ℕ → ℕ × Msg
read_bits m num_bits = read_bits_loop num_bits 0 0 m

-- The index is returned, and `lastRefEntity` keeps it.
abbrev pub keep_index : ℕ → Msg → ℕ × Msg
keep_index index m = (index, record m { last_ref_entity = index })

-- The two ways on from a first bit that is not set; the second bit is read for ten bits only.
abbrev pub read_whole_or_step : Msg → ℕ → ℕ × Msg
read_whole_or_step m num_bits =
    let (b, m') = if num_bits == 10 then read_bit m else (1, m) in
    let (index, m1) = read_bits m' num_bits in
    let (step, m2) = read_bits m' 4 in
    if b == 0 then keep_index (add32 m2.last_ref_entity step) m2 else keep_index index m1

-- A failed `MSG_ReadBit` returns -1, which counts as set.
unfoldable pub read_entity_index : Msg → ℕ → ℕ × Msg
read_entity_index m num_bits =
    let (b, m') = read_bit m in
    if b == 0 then read_whole_or_step m' num_bits else keep_index (add32 m'.last_ref_entity 1) m'
