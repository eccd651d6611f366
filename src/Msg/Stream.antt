-- ===== src/Msg/Stream.antt =====
-- The written and the unread part of a message of src/msg.c.
use co_d4x_client_pub.Common.{
  ℕ, ◌+◌, ◌-◌, ◌%◌, ◌≤◌, ◌<◌, ◌≡◌, refl, sym, ap, ◌∙◌, arith, true, false, List, [], ◌∷◌, ◌++◌,
  append_assoc, append-nil, length, length-append, length-take, length-drop, take, drop,
  take-put_bytes, take-append_left, drop-append_left, take-drop-take, drop-drop, length-put_bytes,
  length-le_bytes, le_bytes, from_le, le→ltb,
}
use native.Mathlib.Nat.{mod-eq_of_lt, add-zero}
use co_d4x_client_pub.Common.{All, lt→ltb}
use co_d4x_client_pub.Msg.{Msg, store, write_byte, write_data}
use co_d4x_client_pub.Common.{sext16, from_le-le_bytes, ◌^◌}
use co_d4x_client_pub.Msg.Read.{read_long, read_short}
use co_d4x_client_pub.Msg.Read.{load, past_end, advance, read_byte, read_data}

abbrev pub written : Msg → List ℕ
written m = take m.cursize m.buf

abbrev pub unread : Msg → List ℕ
unread m = drop m.readcount (take m.cursize m.buf)

-- What a store of `bs` leaves: the bytes are behind what was written, and nothing else changes.
pub record Appends (m m' : Msg) (bs : List ℕ) : Type 0 where
  pub content : written m' ≡ written m ++ bs
  pub size : m'.cursize ≡ m.cursize + length bs
  pub storage : length m'.buf ≡ length m.buf
  pub limit : m'.maxsize ≡ m.maxsize
  pub flag : m'.overflowed ≡ m.overflowed
  pub position : m'.readcount ≡ m.readcount

abbrev pub HasRoom : ℕ → Msg → Type 0
HasRoom n m = (m.cursize + n ≤ m.maxsize) × (m.maxsize ≤ length m.buf)

pub store-Appends : (n : ℕ) (m : Msg) (c : ℕ) → HasRoom n m → Appends m (store n m c) (le_bytes n c)
store-Appends n m c h = ground (
  arith,
  take-put_bytes (le_bytes n c) m.buf m.cursize (m.cursize + n),
  length-le_bytes n c,
  length-put_bytes (le_bytes n c) m.buf m.cursize,
)

pub Appends-trans :
    {m m' m'' : Msg} {bs cs : List ℕ}
    → Appends m m' bs
    → Appends m' m'' cs
    → Appends m m'' (bs ++ cs)
Appends-trans {m} {bs = bs} {cs = cs} a b =
    ground (arith, length-append bs cs, append_assoc (written m) bs cs)

pub Appends-refl : (m : Msg) → Appends m m []
Appends-refl m = ground (arith, append-nil (written m))

abbrev pub IsByte : ℕ → Type 0
IsByte b = b < 256

pub write_byte-Appends :
    (m : Msg) (c : ℕ) → HasRoom 1 m → Appends m (write_byte m c) ((c % 256) ∷ [])
unfolding write_byte
write_byte-Appends m c h = store-Appends 1 m c h

pub write_data-Appends :
    (bs : List ℕ) (m : Msg) → All IsByte bs → HasRoom (length bs) m → Appends m (write_data m bs) bs
unfolding write_data
write_data-Appends [] m b h = Appends-refl m
write_data-Appends (c ∷ cs) m (b, bs) h =
    let first : Appends m (write_byte m c) (c ∷ []) =
      rw (mod-eq_of_lt b) at (write_byte-Appends m c (omega arith)) in
    Appends-trans first (write_data-Appends cs (write_byte m c) bs (ground (arith, first)))

-- A read of `n` bytes that are unread: it is inside the message, and takes just these.
pub record Takes (n : ℕ) (m : Msg) (bs rest : List ℕ) : Type 0 where
  pub inside : past_end n m ≡ false
  pub value : load n m ≡ from_le bs
  pub left : unread (advance n m) ≡ rest

length-unread : (m : Msg) → length (unread m) ≤ m.cursize - m.readcount
length-unread m = omega (arith, length-drop m.readcount (written m), length-take m.cursize m.buf)

pub load-Takes :
    (n : ℕ) (m : Msg) (bs rest : List ℕ)
    → unread m ≡ bs ++ rest
    → length bs ≡ n
    → 0 < n
    → Takes n m bs rest
load-Takes n m bs rest e l p = record {
  inside = le→ltb m.cursize (m.readcount + n) within;
  value = ap from_le (
      sym (take-drop-take m.readcount n m.cursize m.buf within)
      ∙ rw e (take-append_left n bs rest (sym l)));
  left =
      sym (drop-drop m.readcount n (m.readcount + n) (written m) refl)
      ∙ rw e (drop-append_left n bs rest (sym l));
}
  where
    within : m.readcount + n ≤ m.cursize
    within = omega (arith, length-unread m, ap length e, length-append bs rest)

pub unread-nil-past_end :
    (n : ℕ) (m : Msg) → unread m ≡ [] → m.cursize ≤ length m.buf → 0 < n → past_end n m ≡ true
unread-nil-past_end n m e h p =
    lt→ltb m.cursize (m.readcount + n)
      (omega (arith, ap length e, length-drop m.readcount (written m), length-take m.cursize m.buf))

pub read_byte-Takes :
    (m : Msg) (b : ℕ) (rest : List ℕ)
    → unread m ≡ b ∷ rest
    → (read_byte m ≡ (b, advance 1 m)) × (unread (advance 1 m) ≡ rest)
unfolding read_byte
read_byte-Takes m b rest e = ground (arith, load-Takes 1 m (b ∷ []) rest e)

pub read_data-Takes :
    (bs : List ℕ) (m : Msg) (rest : List ℕ)
    → All IsByte bs
    → unread m ≡ bs ++ rest
    → (read_data (length bs) m ≡ (bs, advance (length bs) m))
      × (unread (advance (length bs) m) ≡ rest)
unfolding read_data
read_data-Takes [] m rest b e = rw add-zero (refl, e)
read_data-Takes (c ∷ cs) m rest (b, bs) e =
    let (one, after) = read_byte-Takes m c (cs ++ rest) e in
    let (more, end) = read_data-Takes cs (advance 1 m) rest bs after in
    rw (one, more, mod-eq_of_lt b) (ground arith, ground (arith, end))

pub read_long-Takes :
    (m : Msg) (v : ℕ) (rest : List ℕ)
    → v < 2 ^ 32
    → unread m ≡ le_bytes 4 v ++ rest
    → (read_long m ≡ (v, advance 4 m)) × (unread (advance 4 m) ≡ rest)
unfolding read_long
read_long-Takes m v rest h e =
    ground (arith, load-Takes 4 m (le_bytes 4 v) rest e refl, from_le-le_bytes 4 v)

-- The pattern of 16 bits, sign and all.
pub read_short-Takes :
    (m : Msg) (v : ℕ) (rest : List ℕ)
    → v < 2 ^ 16
    → unread m ≡ le_bytes 2 v ++ rest
    → (read_short m ≡ (sext16 v, advance 2 m)) × (unread (advance 2 m) ≡ rest)
unfolding read_short
read_short-Takes m v rest h e =
    ground (arith, load-Takes 2 m (le_bytes 2 v) rest e refl, from_le-le_bytes 2 v)
