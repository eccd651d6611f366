-- ===== src/Msg/Bounds.antt =====
-- The writers of src/msg.c, and the storage they write to.
use co_d4x_client_pub.Common.{
  ℕ, zero, suc, ◌+◌, ◌-◌, ◌*◌, ◌%◌, ◌≤◌, ◌≡◌, arith, Option, none, some, List, [], ◌∷◌, ◌++◌,
  length, length-set, length-put_bytes, le_bytes, sub32, asr1, All,
}
use co_d4x_client_pub.Msg.{
  Msg, write_byte, write_short, write_long, write_int64, write_data, write_text, write_string,
  write_big_string, begin_byte, or_bit, write_bit0, write_bit1, put_bit, write_bits_loop,
  write_bits, write_entity_index, max_string_chars, big_info_string,
}

pub record IsWritable (m : Msg) : Type 0 where
  pub storage : m.maxsize ≤ length m.buf
  pub filled : m.cursize ≤ m.maxsize
  pub bits_in : m.bit ≤ 8 * m.maxsize

-- A call of one of the writers.
pub data WriteOp : Type 0 where
  byte short long int64 : ℕ → WriteOp
  bytes : List ℕ → WriteOp
  text big_text : Option (List ℕ) → WriteOp
  bit0 bit1 : WriteOp
  bits : ℕ → ℕ → WriteOp
  entity : ℕ → ℕ → WriteOp

abbrev pub run : Msg → WriteOp → Msg
run m (byte c) = write_byte m c
run m (short c) = write_short m c
run m (long c) = write_long m c
run m (int64 c) = write_int64 m c
run m (bytes bs) = write_data m bs
run m (text s) = write_string m s
run m (big_text s) = write_big_string m s
run m bit0 = write_bit0 m
run m bit1 = write_bit1 m
run m (bits v n) = write_bits m v n
run m (entity i n) = write_entity_index m i n

-- At most 32 bits at a time.
abbrev pub Fits : WriteOp → Type 0
Fits (bits v n) = n ≤ 32
Fits (entity i n) = n ≤ 32
Fits _ = Unit {0}

write_byte-IsWritable : (m : Msg) (c : ℕ) → IsWritable m → IsWritable (write_byte m c)
unfolding write_byte
write_byte-IsWritable m c v = ground (arith, length-put_bytes (le_bytes 1 c) m.buf m.cursize)

write_data-IsWritable : (bs : List ℕ) (m : Msg) → IsWritable m → IsWritable (write_data m bs)
unfolding write_data
write_data-IsWritable [] m v = v
write_data-IsWritable (b ∷ bs) m v =
    write_data-IsWritable bs (write_byte m b) (write_byte-IsWritable m b v)

write_text-IsWritable :
    (limit : ℕ) (m : Msg) (s : Option (List ℕ)) → IsWritable m → IsWritable (write_text limit m s)
unfolding write_text
write_text-IsWritable limit m none v = write_data-IsWritable (0 ∷ []) m v
write_text-IsWritable limit m (some s) v =
    ground (arith, write_data-IsWritable (0 ∷ []) m v, write_data-IsWritable (s ++ 0 ∷ []) m v)

write_bit0-IsWritable : (m : Msg) → IsWritable m → IsWritable (write_bit0 m)
unfolding write_bit0
write_bit0-IsWritable m v = ground (arith, length-set m.buf m.cursize 0)

or_bit_storage : (m : Msg) → length (or_bit m).buf ≡ length m.buf
or_bit_storage m = length-set m.buf _ _

write_bit1-IsWritable : (m : Msg) → IsWritable m → IsWritable (write_bit1 m)
unfolding write_bit1
write_bit1-IsWritable m v =
    ground (arith, length-set m.buf m.cursize 0, or_bit_storage m, or_bit_storage (begin_byte m))

-- `n` more bits have room: in the byte that is begun, and in those behind `cursize`.
abbrev HasRoom : ℕ → Msg → Type 0
HasRoom n m = n ≤ (8 - m.bit % 8) % 8 + 8 * (m.maxsize - m.cursize)

put_bit-IsWritable :
    (n : ℕ) (m : Msg) (b : ℕ)
    → IsWritable m
    → HasRoom (suc n) m
    → IsWritable (put_bit m b) × HasRoom n (put_bit m b)
unfolding put_bit
put_bit-IsWritable n m b v h =
    ground (arith, length-set m.buf m.cursize 0, or_bit_storage m, or_bit_storage (begin_byte m))

write_bits_loop-IsWritable :
    (n : ℕ) (m : Msg) (b : ℕ) → IsWritable m → HasRoom n m → IsWritable (write_bits_loop n m b)
unfolding write_bits_loop
write_bits_loop-IsWritable zero m b v h = v
write_bits_loop-IsWritable (suc n) m b v h =
    let (v', h') = put_bit-IsWritable n m b v h in
    write_bits_loop-IsWritable n (put_bit m b) (asr1 b) v' h'

write_bits-IsWritable : (m : Msg) (b n : ℕ) → n ≤ 32 → IsWritable m → IsWritable (write_bits m b n)
unfolding write_bits
write_bits-IsWritable m b n h v = ground (arith, write_bits_loop-IsWritable n m b v)

write_entity_index-IsWritable :
    (m : Msg) (i n : ℕ) → n ≤ 32 → IsWritable m → IsWritable (write_entity_index m i n)
unfolding write_entity_index
write_entity_index-IsWritable m i n h v = ground (
  arith,
  write_bit1-IsWritable m v,
  write_bits-IsWritable (write_bit1 m0) i n h (write_bit1-IsWritable m0 v0),
  write_bits-IsWritable m0 i n h v0,
  write_bits-IsWritable (write_bit0 m0) (sub32 i m.last_ref_entity) 4 (omega arith)
      (write_bit0-IsWritable m0 v0),
)
  where
    m0 : Msg
    m0 = write_bit0 m

    v0 : IsWritable m0
    v0 = write_bit0-IsWritable m v

run-IsWritable : (op : WriteOp) (m : Msg) → Fits op → IsWritable m → IsWritable (run m op)
unfolding write_short write_long write_int64 write_string write_big_string
run-IsWritable (byte c) m h v = write_byte-IsWritable m c v
run-IsWritable (short c) m h v = ground (arith, length-put_bytes (le_bytes 2 c) m.buf m.cursize)
run-IsWritable (long c) m h v = ground (arith, length-put_bytes (le_bytes 4 c) m.buf m.cursize)
run-IsWritable (int64 c) m h v = ground (arith, length-put_bytes (le_bytes 8 c) m.buf m.cursize)
run-IsWritable (bytes bs) m h v = write_data-IsWritable bs m v
run-IsWritable (text s) m h v = write_text-IsWritable max_string_chars m s v
run-IsWritable (big_text s) m h v = write_text-IsWritable big_info_string m s v
run-IsWritable bit0 m h v = write_bit0-IsWritable m v
run-IsWritable bit1 m h v = write_bit1-IsWritable m v
run-IsWritable (bits b n) m h v = write_bits-IsWritable m b n h v
run-IsWritable (entity i n) m h v = write_entity_index-IsWritable m i n h v

abbrev pub run_all : Msg → List WriteOp → Msg
run_all m [] = m
run_all m (op ∷ ops) = run_all (run m op) ops

-- Whatever calls of the writers follow one another, succeeding or overflowing, they stay inside the
-- storage: `cursize` stays at most `maxsize`, that at most the length of the storage, and the byte
-- of the next bit is inside too. Bits are written at most 32 at a time.
pub run_all-IsWritable :
    (ops : List WriteOp) (m : Msg) → All Fits ops → IsWritable m → IsWritable (run_all m ops)
run_all-IsWritable [] m h v = v
run_all-IsWritable (op ∷ ops) m (h, hs) v =
    run_all-IsWritable ops (run m op) hs (run-IsWritable op m h v)
