-- ===== src/Msg/Entity.antt =====
-- Entity indices in messages: `MSG_WriteEntityIndex` and `MSG_ReadEntityIndex`.
use co_d4x_client_pub.Common.{
  ℕ, zero, suc, ◌+◌, ◌*◌, ◌/◌, ◌%◌, ◌^◌, ◌≤◌, ◌<◌, ◌≡◌, refl, sym, ap, ◌∙◌, inl, inr, arith, false,
  ◌==◌, Bool-cases, sub32, add32, slt, asr1, lt→leb, lt→ltb, le→ltb,
}
use native.Mathlib.Nat.{mul_comm}
use co_d4x_client_pub.Msg.{
  Msg, put_bit, write_bits_loop, write_bits, write_bit0, write_bit1, write_entity_index, keep_index,
}
use co_d4x_client_pub.Msg.Read.{read_bit, read_bits, read_entity_index}
use co_d4x_client_pub.Msg.Bitstream.{
  bit_at, IsClean, HasRoomFor, put_bit-Puts, put_bit-bit_at, Keeps, write_bits_loop-Keeps,
  next_position, reader_at, read_bits-write_bits,
}

write_bit0-put_bit : (m : Msg) → m.cursize < m.maxsize → write_bit0 m ≡ put_bit m 0
unfolding write_bit0 put_bit
write_bit0-put_bit m h = ground arith

write_bit1-put_bit : (m : Msg) → m.cursize < m.maxsize → write_bit1 m ≡ put_bit m 1
unfolding write_bit1 put_bit
write_bit1-put_bit m h = ground arith

-- A bit that a later message still has is read, and the reader goes on where the writer did.
read_bit-put_bit :
    (b : ℕ) (m w : Msg)
    → IsClean m
    → HasRoomFor 1 m
    → Keeps (put_bit m b) w (next_position m)
    → read_bit (reader_at m w) ≡ (b % 2, reader_at (put_bit m b) w)
unfolding read_bit
read_bit-put_bit b m w c h k =
    let p = put_bit-Puts 0 m b c h in
    let value : bit_at w.buf (next_position m) ≡ b % 2 = k.same ∙ p.value in
    rw (p.position, p.size, ← value)
      (elim (Bool-cases (m.bit % 8 == 0)) [
        | inl fresh ↦ rw (
          fresh,
          mul_comm 8 m.cursize,
          lt→leb m.cursize (w.cursize + w.splitsize) (ground (arith, p, k)),
          lt→ltb (m.cursize * 8 / 8) w.cursize (ground (arith, p, k)),
        )
        | inr begun ↦ rw (begun, lt→ltb (m.bit / 8) w.cursize (ground (arith, p, k)))
      ])

write_bits-Keeps :
    (n v q : ℕ) (m : Msg)
    → IsClean m
    → n ≤ 32
    → m.cursize + 4 ≤ m.maxsize
    → q < m.bit
    → Keeps m (write_bits m v n) q
unfolding write_bits
write_bits-Keeps n v q m c h room k =
    rw (le→ltb m.maxsize (m.cursize + 4) room) (write_bits_loop-Keeps n m v q c (omega arith) k)

put_bit-Keeps :
    (b q : ℕ) (m : Msg) → IsClean m → HasRoomFor 1 m → q < m.bit → Keeps m (put_bit m b) q
put_bit-Keeps b q m c h k =
    let p = put_bit-Puts 0 m b c h in
    record { same = put_bit-bit_at m b q c k; grows = ground (arith, p) }

Keeps-trans : {m p w : Msg} {q : ℕ} → Keeps m p q → Keeps p w q → Keeps m w q
Keeps-trans a b = record { same = b.same ∙ a.same; grows = omega (arith, a, b) }

-- The fields that the bit writers leave alone.
put_bit-frame :
    (m : Msg) (b : ℕ)
    → ((put_bit m b).last_ref_entity ≡ m.last_ref_entity) × ((put_bit m b).maxsize ≡ m.maxsize)
unfolding put_bit
put_bit-frame m b = ground arith

write_bits_loop-frame :
    (n : ℕ) (m : Msg) (b : ℕ) → (write_bits_loop n m b).last_ref_entity ≡ m.last_ref_entity
unfolding write_bits_loop
write_bits_loop-frame zero m b = refl
write_bits_loop-frame (suc n) m b =
    write_bits_loop-frame n (put_bit m b) (asr1 b) ∙ (put_bit-frame m b).0

write_bits-frame : (m : Msg) (b n : ℕ) → (write_bits m b n).last_ref_entity ≡ m.last_ref_entity
unfolding write_bits
write_bits-frame m b n = ground (arith, write_bits_loop-frame n m b)

-- The four forms, on the side of the reader.
read_successor :
    (r r1 : Msg) (n : ℕ)
    → read_bit r ≡ (1, r1)
    → (read_entity_index r n).0 ≡ add32 r1.last_ref_entity 1
unfolding read_entity_index
read_successor r r1 n e = rw e

read_whole :
    (r r1 r2 : Msg) (n v : ℕ)
    → read_bit r ≡ (0, r1)
    → (n == 10) ≡ false
    → read_bits r1 n ≡ (v, r2)
    → (read_entity_index r n).0 ≡ v
unfolding read_entity_index
read_whole r r1 r2 n v e other f = rw (e, other, f)

read_whole_ten :
    (r r1 r2 r3 : Msg) (v : ℕ)
    → read_bit r ≡ (0, r1)
    → read_bit r1 ≡ (1, r2)
    → read_bits r2 10 ≡ (v, r3)
    → (read_entity_index r 10).0 ≡ v
unfolding read_entity_index
read_whole_ten r r1 r2 r3 v e f g = rw (e, f, g)

read_step :
    (r r1 r2 r3 : Msg) (s : ℕ)
    → read_bit r ≡ (0, r1)
    → read_bit r1 ≡ (0, r2)
    → read_bits r2 4 ≡ (s, r3)
    → (read_entity_index r 10).0 ≡ add32 r3.last_ref_entity s
unfolding read_entity_index
read_step r r1 r2 r3 s e f g = rw (e, f, g)

-- Where the writer's last entity comes back, the reader is that of the bits alone.
restore :
    (m w : Msg) (index : ℕ)
    → w.last_ref_entity ≡ m.last_ref_entity
    → record (reader_at m (keep_index index w)) { last_ref_entity = m.last_ref_entity }
      ≡ reader_at m w
restore m w index e = ap (λ l. record (reader_at m w) { last_ref_entity = l }) (sym e)

-- A bit, and then `n` bits behind it.
record Reads (b n v : ℕ) (m w : Msg) : Type 0 where
  first : read_bit (reader_at m w) ≡ (b % 2, reader_at (put_bit m b) w)
  then_bits : read_bits (reader_at (put_bit m b) w) n ≡ (v, reader_at w w)

bit_then_bits :
    (b n v : ℕ) (m : Msg)
    → IsClean m
    → n ≤ 32
    → m.cursize + 5 ≤ m.maxsize
    → v < 2 ^ n
    → v < 2 ^ 31
    → Reads b n v m (write_bits (put_bit m b) v n)
bit_then_bits b n v m c h room lv l31 =
    let p = put_bit-Puts 0 m b c (omega arith) in
    let room' : (put_bit m b).cursize + 4 ≤ (put_bit m b).maxsize =
      ground (arith, p, put_bit-frame m b) in
    record {
      first = read_bit-put_bit b m (write_bits (put_bit m b) v n) c (omega arith) (
          write_bits-Keeps n v (next_position m) (put_bit m b) p.clean h room' (ground (arith, p)));
      then_bits = read_bits-write_bits n v (put_bit m b) p.clean h room' lv l31;
    }

two_bits_then_bits :
    (b n v : ℕ) (m : Msg)
    → IsClean m
    → n ≤ 32
    → m.cursize + 6 ≤ m.maxsize
    → v < 2 ^ n
    → v < 2 ^ 31
    → let m0 = put_bit m 0 in
      let w = write_bits (put_bit m0 b) v n in
      (read_bit (reader_at m w) ≡ (0, reader_at m0 w)) × Reads b n v m0 w
two_bits_then_bits b n v m c h room lv l31 =
    let m0 = put_bit m 0 in
    let p = put_bit-Puts 1 m 0 c (omega arith) in
    let room0 : m0.cursize + 5 ≤ m0.maxsize = ground (arith, p, put_bit-frame m 0) in
    let p1 = put_bit-Puts 0 m0 b p.clean (omega arith) in
    let room1 : (put_bit m0 b).cursize + 4 ≤ (put_bit m0 b).maxsize =
      ground (arith, p1, put_bit-frame m0 b) in
    let q = next_position m in
    (
      read_bit-put_bit 0 m (write_bits (put_bit m0 b) v n) c (omega arith) (
          Keeps-trans (put_bit-Keeps b q m0 p.clean (omega arith) (ground (arith, p)))
            (write_bits-Keeps n v q (put_bit m0 b) p1.clean h room1 (ground (arith, p, p1)))),
      bit_then_bits b n v m0 p.clean h room0 lv l31,
    )

-- An entity index comes back as it was written, in each of the four forms, if the reader knows the
-- same last entity as the writer: for an index of `n` bits that is not before that entity, and with
-- six bytes of room.
pub read_entity_index-write_entity_index :
    (n index : ℕ) (m : Msg)
    → IsClean m
    → m.cursize + 6 ≤ m.maxsize
    → n ≤ 32
    → index < 2 ^ n
    → index < 2 ^ 31
    → m.last_ref_entity < 2 ^ 32
    → sub32 index m.last_ref_entity < 2 ^ 31
    → (read_entity_index
        (record (reader_at m (write_entity_index m index n)) {
          last_ref_entity = m.last_ref_entity;
        })
        n).0
      ≡ index
unfolding write_entity_index
read_entity_index-write_entity_index n index m c room h lv l31 last ahead =
    elim (Bool-cases (step == 1)) [
      | inl one ↦
          let w = put_bit m 1 in
          let kept : Keeps w w (next_position m) = record { same = refl; grows = omega arith } in
          rw (one, write_bit1-put_bit m (omega arith))
            (back w (put_bit-frame m 1).0
              ∙ read_successor _ _ n (read_bit-put_bit 1 m w c (omega arith) kept)
              ∙ ground (arith, put_bit-frame m 1))
      | inr far ↦ elim (Bool-cases (n == 10)) [
        | inr other ↦
            let w = write_bits m0 index n in
            let r = bit_then_bits 0 n index m c h (omega arith) lv l31 in
            rw (far, other, write_bit0-put_bit m (omega arith))
              (back w (write_bits-frame m0 index n ∙ (put_bit-frame m 0).0)
                ∙ read_whole _ _ _ n index r.first other r.then_bits)
        | inl ten ↦
            let ten' : n ≡ 10 = ground arith in
            elim (Bool-cases (slt 15 step)) [
              | inl whole ↦
                  let w = write_bits (put_bit m0 1) index 10 in
                  let r =
                    two_bits_then_bits 1 10 index m c (omega arith) room (rw ten' at lv) l31 in
                  rw
                    (
                      far,
                      ten',
                      whole,
                      write_bit0-put_bit m (omega arith),
                      write_bit1-put_bit m0 below,
                    )
                    (back' w (
                        write_bits-frame (put_bit m0 1) index 10
                        ∙ (put_bit-frame m0 1).0
                        ∙ (put_bit-frame m 0).0)
                      ∙ read_whole_ten _ _ _ _ index r.0 r.1.first r.1.then_bits)
              | inr short ↦
                  let w = write_bits (put_bit m0 0) step 4 in
                  let r = two_bits_then_bits 0 4 step m c (omega arith) room (ground arith) ahead in
                  let same : w.last_ref_entity ≡ m.last_ref_entity =
                    write_bits-frame (put_bit m0 0) step 4
                    ∙ (put_bit-frame m0 0).0
                    ∙ (put_bit-frame m 0).0 in
                  rw
                    (
                      far,
                      ten',
                      short,
                      write_bit0-put_bit m (omega arith),
                      write_bit0-put_bit m0 below,
                    )
                    (back' w same
                      ∙ read_step _ _ _ _ step r.0 r.1.first r.1.then_bits
                      ∙ rw same (ground arith))
            ]
      ]
    ]
  where
    step : ℕ
    step = sub32 index m.last_ref_entity

    m0 : Msg
    m0 = put_bit m 0

    below : m0.cursize < m0.maxsize
    below = ground (arith, put_bit-Puts 1 m 0 c (omega arith), put_bit-frame m 0)

    back :
        (w : Msg)
        → w.last_ref_entity ≡ m.last_ref_entity
        → (read_entity_index
            (record (reader_at m (keep_index index w)) { last_ref_entity = m.last_ref_entity })
            n).0
          ≡ (read_entity_index (reader_at m w) n).0
    back w e = ap (λ r. (read_entity_index r n).0) (restore m w index e)

    back' :
        (w : Msg)
        → w.last_ref_entity ≡ m.last_ref_entity
        → (read_entity_index
            (record (reader_at m (keep_index index w)) { last_ref_entity = m.last_ref_entity })
            10).0
          ≡ (read_entity_index (reader_at m w) 10).0
    back' w e = ap (λ r. (read_entity_index r 10).0) (restore m w index e)
