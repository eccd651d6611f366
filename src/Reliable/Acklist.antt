-- ===== src/Reliable/Acklist.antt =====
-- The size of what `ReliableMessageWriteSelectiveAcklist` of src/net_reliabletransport.c writes.
use co_d4x_client_pub.Common.{
  ℕ, zero, suc, ◌+◌, ◌-◌, ◌*◌, ◌≤◌, ◌<◌, ◌≡◌, refl, le→ltb, lt→ltb, ◌⊎◌, inl, inr, true, false,
  Bool-cases, ltb, leb, min, ◌∙◌, if◌then◌else◌, arith,
}
use co_d4x_client_pub.Msg.{Msg, write_byte, write_short}
use co_d4x_client_pub.Reliable.{Frame, has_ack}
use co_d4x_client_pub.Reliable.Ranges.{arrivals, begun, ended, acks_loop-Counts}
use co_d4x_client_pub.Reliable.Transmit.{
  Acks, acks_loop, end_range, in_range, is_full, no_acks, write_selective_acklist,
}

write_short-size :
    (m : Msg) (c : ℕ)
    → m.cursize + 2 ≤ m.maxsize
    → ((write_short m c).cursize ≡ m.cursize + 2) × ((write_short m c).maxsize ≡ m.maxsize)
unfolding write_short
write_short-size m c h = ground arith

write_byte-size :
    (m : Msg)
    → m.cursize + 15 ≤ m.maxsize
    → ((write_byte m 0).cursize ≡ m.cursize + 1) × ((write_byte m 0).maxsize ≡ m.maxsize)
unfolding write_byte
write_byte-size m h = ground arith

-- A list of `count` ranges, the last one open or not, behind the first `base` bytes.
record IsList (base : ℕ) (a : Acks) : Type 0 where
  size : a.msg.cursize + (if a.inrange then 2 else 0) ≡ base + 4 * a.count
  limit : base + 14 ≤ a.msg.maxsize
  few : a.count + (if a.inrange then 0 else 1) ≤ 3

-- How the loop ends: at the window's end, or behind a third range whose length is written while it
-- still counts as open.
abbrev Ended : ℕ → ℕ → Acks × ℕ → Type 0
Ended base limit r =
    ((limit ≤ r.1) × IsList base r.0)
    ⊎ ((r.1 < limit)
        × (r.0.inrange ≡ true)
        × (r.0.msg.cursize ≡ base + 4 * r.0.count)
        × (r.0.count ≤ 3)
        × (base + 14 ≤ r.0.msg.maxsize))

in_range-IsList : (base i : ℕ) (a : Acks) → IsList base a → IsList base (in_range a i)
in_range-IsList base i a l =
    let size = l.size in
    let few = l.few in
    let limit = l.limit in
    elim (Bool-cases a.inrange) [
      | inl on ↦ ground (arith, on, size, few, limit)
      | inr off ↦
          let w = write_short-size a.msg i (ground (arith, off, size, few, limit)) in
          ground (arith, off, size, few, limit, w)
    ]

-- A range that a gap ends, before the third.
end_range-IsList :
    (base : ℕ) (a : Acks)
    → IsList base a
    → is_full a ≡ false
    → IsList base (record (end_range a) { inrange = false })
end_range-IsList base a l part =
    let size = l.size in
    let few = l.few in
    let limit = l.limit in
    elim (Bool-cases a.inrange) [
      | inl on ↦
          let w = write_short-size a.msg a.lengthcnt (ground (arith, on, size, few, limit)) in
          ground (arith, on, part, size, few, limit, w)
      | inr off ↦ ground (arith, off, size, few, limit)
    ]

full-Ended :
    (base i limit : ℕ) (a : Acks)
    → i < limit
    → IsList base a
    → is_full a ≡ true
    → Ended base limit (end_range a, i)
full-Ended base i limit a h l full =
    let size = l.size in
    let few = l.few in
    let room = l.limit in
    let on : a.inrange ≡ true = ground (arith, full) in
    let w = write_short-size a.msg a.lengthcnt (ground (arith, on, size, few, room)) in
    inr (ground (arith, on, h, size, few, room, w))

acks_loop-Ended :
    (f : Frame) (base n i limit : ℕ) (a : Acks)
    → n ≡ limit - i
    → IsList base a
    → Ended base limit (acks_loop f n i a)
unfolding acks_loop
acks_loop-Ended f base zero i limit a h l = inl (omega arith, l)
acks_loop-Ended f base (suc n) i limit a h l = elim (Bool-cases (has_ack f (i + f.sequence))) [
  | inl came ↦ rw came (
      acks_loop-Ended f base n (i + 1) limit (in_range a i) (omega arith)
        (in_range-IsList base i a l))
  | inr gap ↦ elim (Bool-cases (is_full a)) [
    | inl full ↦ rw (gap, full) (full-Ended base i limit a (omega arith) l full)
    | inr part ↦
        rw (gap, part)
          (acks_loop-Ended f base n (i + 1) limit (record (end_range a) { inrange = false })
            (omega arith) (end_range-IsList base a l part))
  ]
]

Ended-size :
    (base limit i : ℕ) (a : Acks)
    → Ended base limit (a, i)
    → (end_range a).msg.cursize ≡ base + 4 * a.count + (if ltb i limit then 2 else 0)
Ended-size base limit i a (inl (done, l)) =
    let size = l.size in
    let few = l.few in
    let room = l.limit in
    rw (le→ltb i limit done) (elim (Bool-cases a.inrange) [
      | inl on ↦
          let w = write_short-size a.msg a.lengthcnt (ground (arith, on, size, few, room)) in
          ground (arith, on, size, w)
      | inr off ↦ ground (arith, off, size)
    ])
Ended-size base limit i a (inr (early, on, size, few, room)) =
    let w = write_short-size a.msg a.lengthcnt (omega (arith, size, few, room)) in
    rw (lt→ltb i limit early, on) (omega (arith, size, w))

-- The list takes a byte, and four bytes for each range of fragments that have come, up to the third,
-- from the window's offset on; and two bytes more where a gap ends a third range in the window: its
-- length is written twice. The message has 15 bytes of room.
pub write_selective_acklist-size :
    (f : Frame) (m : Msg)
    → m.cursize + 15 ≤ m.maxsize
    → let window = arrivals f (f.windowsize - f.selackoffset) f.selackoffset in
      (write_selective_acklist f m).1.cursize
      ≡ m.cursize
        + 1
        + 4 * min 3 (begun false window)
        + (if leb 3 (ended false window) then 2 else 0)
unfolding write_selective_acklist
write_selective_acklist-size f m h =
    let start = no_acks (write_byte m 0) in
    let n = f.windowsize - f.selackoffset in
    let r = acks_loop f n f.selackoffset start in
    let b = write_byte-size m h in
    let l : IsList (m.cursize + 1) start = record {
      size = omega (arith, b);
      limit = omega (arith, b);
      few = omega arith;
    } in
    let counts = acks_loop-Counts f n f.selackoffset f.windowsize start refl (omega arith) in
    Ended-size (m.cursize + 1) f.windowsize r.1 r.0
      (acks_loop-Ended f (m.cursize + 1) n f.selackoffset f.windowsize start refl l)
    ∙ rw (counts.count, counts.early) (ground arith)
