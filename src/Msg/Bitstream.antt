-- ===== src/Msg/Bitstream.antt =====
-- Bits in messages of src/msg.c: `MSG_WriteBits` and `MSG_ReadBits`.
use co_d4x_client_pub.Common.{
  ℕ, zero, suc, ◌+◌, ◌-◌, ◌*◌, ◌/◌, ◌%◌, ◌^◌, ◌≤◌, ◌<◌, ◌≡◌, ◌≢◌, ap, ◌∙◌, ◌⊎◌, inl, inr, arith,
  List, length, length-set, get_or, set, get_or-set_self, get_or-set_ne, ◌==◌, if◌then◌else◌,
  bit_or, asr1, Bool-cases,
}
use co_d4x_client_pub.Common.Bits.{bit_or_fields}
use native.Mathlib.Nat.{pow-suc, one-le-pow, one-mul, mul_comm, add-mul-div_right, div-add-mod}
use native.Mathlib.Numerals.{add-one}
use co_d4x_client_pub.Common.{lt→leb, lt→ltb, le→ltb}
use native.Mathlib.Decide.{ℕ_discrete}
use co_d4x_client_pub.Msg.{Msg, or_bit, put_bit, write_bits_loop, write_bits}
use co_d4x_client_pub.Msg.Read.{read_bits_loop, read_bits}

-- Bit `q` of a storage, counted from the lowest bit of the first byte.
abbrev pub bit_at : List ℕ → ℕ → ℕ
bit_at buf q = get_or buf (q / 8) 0 / 2 ^ (q % 8) % 2

-- A message that bits are written to: within the storage, and of a byte that is begun the bits
-- from `bit` on are clear.
pub record IsClean (m : Msg) : Type 0 where
  pub storage : m.maxsize ≤ length m.buf
  pub filled : m.cursize ≤ m.maxsize
  pub bits_in : m.bit ≤ 8 * m.cursize
  pub clear : (m.bit % 8 ≡ 0) ⊎ (get_or m.buf (m.bit / 8) 0 < 2 ^ (m.bit % 8))

-- `n` more bits have room: in the byte that is begun, and in those behind `cursize`.
abbrev pub HasRoomFor : ℕ → Msg → Type 0
HasRoomFor n m = n ≤ (8 - m.bit % 8) % 8 + 8 * (m.maxsize - m.cursize)

new_bit : (j b : ℕ) → b < 2 ^ j → ((b + 1 * 2 ^ j) / 2 ^ j % 2 ≡ 1) × (b / 2 ^ j % 2 ≡ 0)
new_bit j b h = grind arith

-- A higher power of two is an even multiple.
pow_split : (d i j : ℕ) → suc d + i ≡ j → 2 ^ j ≡ 2 * 2 ^ d * 2 ^ i
pow_split zero i zero h = absurd (omega arith)
pow_split zero i (suc j) h = let e : i ≡ j = omega arith in rw e (omega (arith, pow-suc 2 j))
pow_split (suc d) i zero h = absurd (omega arith)
pow_split (suc d) i (suc j) h =
    omega
      (arith, pow-suc 2 j, pow_split d i j (omega arith), ap (λ (t : ℕ). t * 2 ^ i) (pow-suc 2 d))

old_bit : (i j b : ℕ) → i < j → (b + 1 * 2 ^ j) / 2 ^ i % 2 ≡ b / 2 ^ i % 2
old_bit i j b h =
    rw (pow_split (j - i - 1) i j (omega arith), one-mul)
      (rw (add-mul-div_right b (2 * 2 ^ (j - i - 1)) (one-le-pow i 2 (omega arith))) (omega arith))

-- The position of the next bit.
abbrev pub next_position : Msg → ℕ
next_position m = if m.bit % 8 == 0 then m.cursize * 8 else m.bit

pub record Puts (n : ℕ) (m : Msg) (b : ℕ) (p : Msg) : Type 0 where
  pub clean : IsClean p
  pub room : HasRoomFor n p
  pub position : p.bit ≡ next_position m + 1
  pub size : p.cursize ≡ (if m.bit % 8 == 0 then m.cursize + 1 else m.cursize)
  pub value : bit_at p.buf (next_position m) ≡ b % 2

pub put_bit-Puts :
    (n : ℕ) (m : Msg) (b : ℕ) → IsClean m → HasRoomFor (suc n) m → Puts n m b (put_bit m b)
unfolding put_bit
put_bit-Puts n m b c h = elim (Bool-cases (m.bit % 8 == 0)) [
  | inl fresh ↦
      let begun : List ℕ = set m.buf m.cursize 0 in
      let i : ℕ = m.cursize * 8 / 8 in
      let v : ℕ = bit_or (get_or begun i 0) (1 * 2 ^ (m.cursize * 8 % 8)) in
      elim (Bool-cases (b % 2 == 1)) [
        | inl one ↦
            rw (fresh, one)
              (ground (
                arith,
                length-set m.buf m.cursize 0,
                length-set begun i v,
                get_or-set_self m.buf m.cursize 0 0,
                get_or-set_self begun i v 0,
                bit_or_fields 0 1 0 (omega arith),
              ))
        | inr clear ↦
            rw (fresh, clear)
              (ground (arith, length-set m.buf m.cursize 0, get_or-set_self m.buf m.cursize 0 0))
      ]
  | inr begun ↦
      let i : ℕ = m.bit / 8 in
      let old : ℕ = get_or m.buf i 0 in
      let j : ℕ = m.bit % 8 in
      elim (Bool-cases (b % 2 == 1)) [
        | inl one ↦
            rw (begun, one)
              (ground (
                arith,
                length-set m.buf i (bit_or old (1 * 2 ^ j)),
                get_or-set_self m.buf i (bit_or old (1 * 2 ^ j)) 0,
                bit_or_fields j 1 old,
                new_bit j old,
                pow-suc 2 j,
              ))
        | inr clear ↦ rw (begun, clear) (ground (arith, new_bit j old, pow-suc 2 j))
      ]
]

bit_at-set_ne : (buf : List ℕ) (i v q : ℕ) → i ≢ q / 8 → bit_at (set buf i v) q ≡ bit_at buf q
bit_at-set_ne buf i v q h = rw (get_or-set_ne buf i (q / 8) v 0 h)

-- A set bit above `q` in the same byte, or one in another byte.
bit_at-or_bit :
    (m : Msg) (q : ℕ)
    → get_or m.buf (m.bit / 8) 0 < 2 ^ (m.bit % 8)
    → m.bit / 8 < length m.buf
    → q < m.bit
    → bit_at (or_bit m).buf q ≡ bit_at m.buf q
bit_at-or_bit m q small inside h =
    let i : ℕ = m.bit / 8 in
    let j : ℕ = m.bit % 8 in
    let old : ℕ = get_or m.buf i 0 in
    let new : ℕ = bit_or old (1 * 2 ^ j) in
    elim (ℕ_discrete i (q / 8)) [
      | yes same ↦
          rw (← same, get_or-set_self m.buf i new 0 inside, bit_or_fields j 1 old small)
            (old_bit (q % 8) j old (omega arith))
      | no other ↦ bit_at-set_ne m.buf i new q other
    ]

-- The bits before the next position stay.
pub put_bit-bit_at :
    (m : Msg) (b q : ℕ) → IsClean m → q < m.bit → bit_at (put_bit m b).buf q ≡ bit_at m.buf q
unfolding put_bit
put_bit-bit_at m b q c h = elim (Bool-cases (m.bit % 8 == 0)) [
  | inl fresh ↦
      let begun : List ℕ = set m.buf m.cursize 0 in
      let i : ℕ = m.cursize * 8 / 8 in
      let v : ℕ = bit_or (get_or begun i 0) (1 * 2 ^ (m.cursize * 8 % 8)) in
      elim (Bool-cases (b % 2 == 1)) [
        | inl one ↦
            rw (fresh, one)
              (bit_at-set_ne begun i v q (omega arith)
                ∙ bit_at-set_ne m.buf m.cursize 0 q (omega arith))
        | inr clear ↦ rw (fresh, clear) (bit_at-set_ne m.buf m.cursize 0 q (omega arith))
      ]
  | inr begun ↦ elim (Bool-cases (b % 2 == 1)) [
    | inl one ↦ rw (begun, one) (bit_at-or_bit m q (ground arith) (ground arith) h)
    | inr clear ↦ rw (begun, clear)
  ]
]

-- What a run of the loop keeps: the bits before its first position, and the sizes do not fall.
pub record Keeps (m w : Msg) (q : ℕ) : Type 0 where
  pub same : bit_at w.buf q ≡ bit_at m.buf q
  pub grows : m.cursize ≤ w.cursize

pub write_bits_loop-Keeps :
    (n : ℕ) (m : Msg) (b q : ℕ)
    → IsClean m
    → HasRoomFor n m
    → q < m.bit
    → Keeps m (write_bits_loop n m b) q
unfolding write_bits_loop
write_bits_loop-Keeps zero m b q c h k = ground arith
write_bits_loop-Keeps (suc n) m b q c h k =
    let p = put_bit-Puts n m b c h in
    let rest =
      write_bits_loop-Keeps n (put_bit m b) (asr1 b) q p.clean p.room (ground (arith, p)) in
    record { same = rest.same ∙ put_bit-bit_at m b q c k; grows = ground (arith, p, rest) }

-- A reader at the place where the bits of `m` go on, in the finished message `w`.
abbrev pub reader_at : Msg → Msg → Msg
reader_at m w = record w { bit = m.bit; readcount = m.cursize }

-- One round of the reader: it takes the bit at the next position.
read_bits_loop-step :
    (n i ret : ℕ) (m w : Msg)
    → next_position m / 8 < w.cursize
    → read_bits_loop (suc n) i ret (reader_at m w)
      ≡ read_bits_loop n (i + 1) (bit_or ret (bit_at w.buf (next_position m) * 2 ^ i)) (record w {
        bit = next_position m + 1;
        readcount = if m.bit % 8 == 0 then m.cursize + 1 else m.cursize;
      })
unfolding read_bits_loop
read_bits_loop-step n i ret m w h = elim (Bool-cases (m.bit % 8 == 0)) [
  | inl fresh ↦ rw (
    fresh,
    mul_comm 8 m.cursize,
    lt→leb m.cursize (w.cursize + w.splitsize) (ground arith),
    lt→ltb (m.cursize * 8 / 8) w.cursize (ground arith),
    lt→leb (m.cursize * 8 / 8) w.cursize (ground arith),
  )
  | inr begun ↦ rw (
    begun,
    lt→ltb (m.bit / 8) w.cursize (ground arith),
    lt→leb (m.bit / 8) w.cursize (ground arith),
  )
]

pub write_bits_loop-size :
    (n : ℕ) (m : Msg) (b : ℕ)
    → IsClean m
    → HasRoomFor n m
    → m.cursize ≤ (write_bits_loop n m b).cursize
unfolding write_bits_loop
write_bits_loop-size zero m b c h = omega arith
write_bits_loop-size (suc n) m b c h =
    let p = put_bit-Puts n m b c h in
    ground (arith, p, write_bits_loop-size n (put_bit m b) (asr1 b) p.clean p.room)

one_more : (i b ret : ℕ) → b < 2 → ret < 2 ^ i → ret + b * 2 ^ i < 2 ^ (i + 1)
one_more i zero ret h k = rw (add-one, pow-suc) (omega arith)
one_more i (suc zero) ret h k = rw (add-one, pow-suc) (omega arith)
one_more i (suc (suc b)) ret h k = absurd (omega arith)

regroup : (i v ret : ℕ) → ret + v % 2 * 2 ^ i + v / 2 * 2 ^ (i + 1) ≡ ret + v * 2 ^ i
regroup i v ret = rw (add-one, pow-suc) (omega (arith, ap (λ (t : ℕ). t * 2 ^ i) (div-add-mod v 2)))

read_bits_loop-write_bits_loop :
    (n i ret v : ℕ) (m : Msg)
    → IsClean m
    → HasRoomFor n m
    → v < 2 ^ n
    → v < 2 ^ 31
    → ret < 2 ^ i
    → let w = write_bits_loop n m v in
      read_bits_loop n i ret (reader_at m w) ≡ (ret + v * 2 ^ i, reader_at w w)
unfolding write_bits_loop
read_bits_loop-write_bits_loop zero i ret v m c h lv l31 lr = unfold read_bits_loop in ground arith
read_bits_loop-write_bits_loop (suc n) i ret v m c h lv l31 lr =
    let p = put_bit-Puts n m v c h in
    let w = write_bits_loop n (put_bit m v) (asr1 v) in
    let keep =
      write_bits_loop-Keeps n (put_bit m v) (asr1 v) (next_position m) p.clean p.room
        (ground (arith, p)) in
    let half : asr1 v ≡ v / 2 = ground arith in
    let bit : bit_at w.buf (next_position m) ≡ v % 2 = keep.same ∙ p.value in
    read_bits_loop-step n i ret m w (ground (arith, p, keep))
    ∙ rw (bit, bit_or_fields i (v % 2) ret lr, ← p.position, ← p.size)
        (read_bits_loop-write_bits_loop n (i + 1) (ret + v % 2 * 2 ^ i) (asr1 v) (put_bit m v)
            p.clean p.room (rw half (omega (arith, pow-suc 2 n))) (rw half (omega arith))
            (one_more i (v % 2) ret (omega arith) lr)
          ∙ ap (λ t. (t, reader_at w w)) (rw half (regroup i v ret)))

-- What `MSG_WriteBits` has put down with room for its 32 bits, `MSG_ReadBits` gives back from where
-- the writer began: a non-negative `int` below `2 ^ n` in `n` bits. The reader ends where the writer
-- ended.
pub read_bits-write_bits :
    (n v : ℕ) (m : Msg)
    → IsClean m
    → n ≤ 32
    → m.cursize + 4 ≤ m.maxsize
    → v < 2 ^ n
    → v < 2 ^ 31
    → let w = write_bits m v n in read_bits (reader_at m w) n ≡ (v, reader_at w w)
unfolding write_bits read_bits
read_bits-write_bits n v m c h room lv l31 = rw (le→ltb m.maxsize (m.cursize + 4) room) (
    read_bits_loop-write_bits_loop n 0 0 v m c (omega arith) lv l31 (omega arith)
    ∙ ap (λ t. (t, reader_at (write_bits_loop n m v) (write_bits_loop n m v))) (omega arith))
