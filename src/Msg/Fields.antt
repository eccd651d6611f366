-- ===== src/Msg/Fields.antt =====
-- A message of src/msg.c as a sequence of fields, with the writers and the readers of their kinds.
use co_d4x_client_pub.Common.{
  ℕ, ◌+◌, ◌^◌, ◌≤◌, ◌<◌, ◌≡◌, refl, sym, ◌∙◌, ◌⊎◌, arith, false, List, [], ◌∷◌, ◌++◌, map,
  append_assoc, append-nil, length, length-append, from_le-le_bytes, le_bytes, All,
}
use native.Mathlib.Nat.{add-zero}
use co_d4x_client_pub.Msg.{
  Msg, init, begin_reading, write_byte, write_short, write_long, write_int64, write_data,
}
use co_d4x_client_pub.Msg.Read.{advance, read_byte, read_short, read_long, read_int64, read_data}
use co_d4x_client_pub.Msg.Stream.{
  unread, Appends, HasRoom, store-Appends, Appends-trans, Appends-refl, IsByte, write_data-Appends,
  load-Takes, read_data-Takes,
}

-- A value of a kind that has a writer and a reader. A short is an `int` that fits 16 bits.
pub data Field : Type 0 where
  byte short long int64 : ℕ → Field
  bytes : List ℕ → Field

pub data Kind : Type 0 where
  byte short long int64 : Kind
  bytes : ℕ → Kind

abbrev pub kind_of : Field → Kind
kind_of (byte c) = byte
kind_of (short c) = short
kind_of (long c) = long
kind_of (int64 c) = int64
kind_of (bytes bs) = bytes (length bs)

abbrev pub IsInRange : Field → Type 0
IsInRange (byte c) = IsByte c
IsInRange (short c) = (c < 2 ^ 15) ⊎ ((2 ^ 32 ≤ c + 2 ^ 15) × (c < 2 ^ 32))
IsInRange (long c) = c < 2 ^ 32
IsInRange (int64 c) = c < 2 ^ 64
IsInRange (bytes bs) = All IsByte bs

-- The bytes of a field on the wire.
abbrev pub encode : Field → List ℕ
encode (byte c) = le_bytes 1 c
encode (short c) = le_bytes 2 c
encode (long c) = le_bytes 4 c
encode (int64 c) = le_bytes 8 c
encode (bytes bs) = bs

abbrev pub encode_all : List Field → List ℕ
encode_all [] = []
encode_all (f ∷ fs) = encode f ++ encode_all fs

abbrev pub write_field : Msg → Field → Msg
write_field m (byte c) = write_byte m c
write_field m (short c) = write_short m c
write_field m (long c) = write_long m c
write_field m (int64 c) = write_int64 m c
write_field m (bytes bs) = write_data m bs

abbrev pub write_fields : Msg → List Field → Msg
write_fields m [] = m
write_fields m (f ∷ fs) = write_fields (write_field m f) fs

abbrev tag : (ℕ → Field) → ℕ × Msg → Field × Msg
tag f r = (f r.0, r.1)

abbrev pub read_field : Msg → Kind → Field × Msg
read_field m byte = let (c, m') = read_byte m in (byte c, m')
read_field m short = let (c, m') = read_short m in (short c, m')
read_field m long = let (c, m') = read_long m in (long c, m')
read_field m int64 = let (c, m') = read_int64 m in (int64 c, m')
read_field m (bytes n) = let (bs, m') = read_data n m in (bytes bs, m')

abbrev pub read_fields : Msg → List Kind → List Field × Msg
read_fields m [] = ([], m)
read_fields m (k ∷ ks) =
    let (f, m') = read_field m k in let (fs, m'') = read_fields m' ks in (f ∷ fs, m'')

write_field-Appends :
    (f : Field) (m : Msg)
    → IsInRange f
    → HasRoom (length (encode f)) m
    → Appends m (write_field m f) (encode f)
unfolding write_byte write_short write_long write_int64
write_field-Appends (byte c) m r h = store-Appends 1 m c h
write_field-Appends (short c) m r h = store-Appends 2 m c h
write_field-Appends (long c) m r h = store-Appends 4 m c h
write_field-Appends (int64 c) m r h = store-Appends 8 m c h
write_field-Appends (bytes bs) m r h = write_data-Appends bs m r h

-- Fields that fit are appended to the message one behind the other, and nothing overflows.
pub write_fields-Appends :
    (fs : List Field) (m : Msg)
    → All IsInRange fs
    → HasRoom (length (encode_all fs)) m
    → Appends m (write_fields m fs) (encode_all fs)
write_fields-Appends [] m r h = Appends-refl m
write_fields-Appends (f ∷ fs) m (r, rs) h =
    let first : Appends m (write_field m f) (encode f) =
      write_field-Appends f m r (omega (arith, length-append (encode f) (encode_all fs))) in
    Appends-trans first (
      write_fields-Appends fs (write_field m f) rs
        (ground (arith, first, length-append (encode f) (encode_all fs))))

-- A reader takes the bytes of its field, and moves over them.
record Gets (f : Field) (m : Msg) (rest : List ℕ) : Type 0 where
  result : read_field m (kind_of f) ≡ (f, advance (length (encode f)) m)
  left : unread (advance (length (encode f)) m) ≡ rest

read_field-Gets :
    (f : Field) (m : Msg) (rest : List ℕ)
    → IsInRange f
    → unread m ≡ encode f ++ rest
    → Gets f m rest
unfolding read_byte read_short read_long read_int64
read_field-Gets (byte c) m rest r e =
    ground (arith, load-Takes 1 m (le_bytes 1 c) rest e refl, from_le-le_bytes 1 c)
read_field-Gets (short c) m rest r e = ground (arith, load-Takes 2 m (le_bytes 2 c) rest e refl)
read_field-Gets (long c) m rest r e =
    ground (arith, load-Takes 4 m (le_bytes 4 c) rest e refl, from_le-le_bytes 4 c)
read_field-Gets (int64 c) m rest r e =
    ground (arith, load-Takes 8 m (le_bytes 8 c) rest e refl, from_le-le_bytes 8 c)
read_field-Gets (bytes bs) m rest r e =
    let (result, left) = read_data-Takes bs m rest r e in ground (arith, result, left)

-- What a run of readers leaves: the fields, the position behind them, and the flag as it was.
pub record GetsAll (fs : List Field) (m : Msg) (rest : List ℕ) (r : List Field × Msg) : Type 0 where
  pub results : r.0 ≡ fs
  pub left : unread r.1 ≡ rest
  pub position : r.1.readcount ≡ m.readcount + length (encode_all fs)
  pub flag : r.1.overflowed ≡ m.overflowed

pub read_fields-GetsAll :
    (fs : List Field) (m : Msg) (rest : List ℕ)
    → All IsInRange fs
    → unread m ≡ encode_all fs ++ rest
    → GetsAll fs m rest (read_fields m (map kind_of fs))
read_fields-GetsAll [] m rest r e = ground (arith, add-zero m.readcount)
read_fields-GetsAll (f ∷ fs) m rest (r, rs) e =
    let m' = advance (length (encode f)) m in
    let g = read_field-Gets f m (encode_all fs ++ rest) r (e ∙ append_assoc (encode f) _ _) in
    let ih = read_fields-GetsAll fs m' rest rs g.left in
    rw g.result (ground (arith, ih, length-append (encode f) (encode_all fs)))

-- Fields that fit an empty message and are in the range of their C types are read back, all of
-- them and in order, by the readers of the same kinds: at the end the whole message is read, and
-- neither the writers nor the readers have set the overflow flag.
pub read_fields-write_fields :
    (fs : List Field) (buf : List ℕ) (size : ℕ)
    → All IsInRange fs
    → length (encode_all fs) ≤ size
    → size ≤ length buf
    → let m = write_fields (init buf size) fs in
      let r = read_fields (begin_reading m) (map kind_of fs) in
      (m.overflowed ≡ false) × (r.0 ≡ fs) × (r.1.readcount ≡ m.cursize) × (r.1.overflowed ≡ false)
unfolding init begin_reading
read_fields-write_fields fs buf size r h k =
    let w = write_fields-Appends fs (init buf size) r (ground arith) in
    let g =
      read_fields-GetsAll fs (begin_reading (write_fields (init buf size) fs)) [] r
        (w.content ∙ sym (append-nil (encode_all fs))) in
    (w.flag, g.results, ground (arith, w, g), g.flag)
