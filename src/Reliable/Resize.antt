-- ===== src/Reliable/Resize.antt =====
-- `ReliableMessageChangeSendBufferSize` and `ReliableMessageSend` of src/net_reliabletransport.c on the
-- stream of bytes that wait for their acknowledge.
use co_d4x_client_pub.Common.{
  min, ℕ, zero, suc, ◌+◌, ◌-◌, ◌*◌, ◌/◌, ◌%◌, ◌≤◌, ◌<◌, ◌≡◌, ◌⊎◌, inl, inr, refl, sym, ap, ◌∙◌,
  ◌&&◌, Bool-cases, Option, none, some, List, [], ◌∷◌, ◌++◌, ltb, leb, ◌==◌, if◌then◌else◌, length,
  ltb→lt, ltb→le, take, get_or, set, map, length-set, length-take, take-all, take-put_bytes,
  length-put_bytes, arith, minus_one,
}
use co_d4x_client_pub.Reliable.{
  Fragment, Frame, Chan, slot, no_fragment, max_fragment_size, clamp_len, copy_fragment,
  move_fragments, change_send_buffer_size, default_buffer_size, resized, resize_from, set_ack,
}
use co_d4x_client_pub.Reliable.Send.{send_loop, make_room, send, new_free}
use co_d4x_client_pub.Reliable.Deliver.{fragment_data, IsWhole}
use co_d4x_client_pub.Reliable.Ring.{
  IsRing, queued, window_bytes-agree, slot-set_ne, slot-set_self, set-room, mod_lt,
}
use co_d4x_client_pub.Reliable.SendLoop.{send_loop-Sent}

-- The fragments a frame holds before its sequence are whole.
abbrev pub HoldsWhole : Frame → Type 0
HoldsWhole f =
    (j : ℕ) → f.acknowledge ≤ j → j < f.sequence → IsWhole (slot f.fragments f.bufferlen j)

copy_fragment-data :
    (old new : Fragment)
    → IsWhole old
    → max_fragment_size ≤ length new.data_bytes
    → fragment_data (copy_fragment old new) ≡ fragment_data old
copy_fragment-data old new w h =
    let within = w.within in
    let bounded = w.bounded in
    let same : clamp_len old.len ≡ old.len = ground arith in
    rw same (
      take-put_bytes (fragment_data old) new.data_bytes 0 old.len
        (omega (arith, length-take old.len old.data_bytes))
        (omega (arith, length-take old.len old.data_bytes)))

-- The moved fragments stand in the new ring with their data, and each element keeps its room.
record Moved (f : Frame) (newlen n i : ℕ) (newfrags frags : List Fragment) : Type 0 where
  count : length frags ≡ newlen
  room : (j : ℕ) → max_fragment_size ≤ length (slot frags newlen j).data_bytes
  moved :
      (j : ℕ)
      → i ≤ j
      → j < i + n
      → fragment_data (slot frags newlen j) ≡ fragment_data (slot f.fragments f.bufferlen j)
  others : (j : ℕ) → j < i → i + n ≤ j + newlen → slot frags newlen j ≡ slot newfrags newlen j

move_fragments-Moved :
    (f : Frame) (newlen n i : ℕ) (newfrags : List Fragment)
    → 0 < newlen
    → length newfrags ≡ newlen
    → ((j : ℕ) → max_fragment_size ≤ length (slot newfrags newlen j).data_bytes)
    → n ≤ newlen
    → ((j : ℕ) → i ≤ j → j < i + n → IsWhole (slot f.fragments f.bufferlen j))
    → Moved f newlen n i newfrags (move_fragments f.fragments f.bufferlen newlen n i newfrags)
unfolding move_fragments
move_fragments-Moved f newlen zero i newfrags p c room h w = record {
  count = c;
  room = room;
  moved = λ j a b. absurd (omega arith);
  others = λ j a b. refl;
}
move_fragments-Moved f newlen (suc n) i newfrags p c room h w =
    let here = w i (omega arith) (omega arith) in
    let new = copy_fragment (slot f.fragments f.bufferlen i) (slot newfrags newlen i) in
    let newfrags' = set newfrags (i % newlen) new in
    let r =
      move_fragments-Moved f newlen n (i + 1) newfrags' p (length-set newfrags (i % newlen) new ∙ c)
        (set-room newfrags newlen i new p c room (
          omega (
            arith,
            room i,
            length-put_bytes
                (take (clamp_len (slot f.fragments f.bufferlen i).len)
                  (slot f.fragments f.bufferlen i).data_bytes)
                (slot newfrags newlen i).data_bytes 0,
          )))
        (omega arith) (λ j a b. w j (omega arith) (omega arith)) in
    record {
      count = r.count;
      room = r.room;
      moved = λ j a b. elim (Bool-cases (ltb i j)) [
        | inl later ↦ r.moved j (ground arith) (omega arith)
        | inr now ↦
            let same : j ≡ i = omega (arith, ltb→le i j now) in
            rw same (
              ap fragment_data
                (r.others i (omega arith) (omega arith) ∙ slot-set_self newfrags newlen i new p c)
              ∙ copy_fragment-data (slot f.fragments f.bufferlen i) (slot newfrags newlen i) here
                  (room i))
      ];
      others = λ j a b.
          r.others j (omega arith) (omega arith)
          ∙ slot-set_ne newfrags newlen j i new (omega arith) (omega arith);
    }

-- `malloc` gives that many fragments, each with room for 1200 bytes, or none.
abbrev pub Allocates : (ℕ → Option (List Fragment)) → Type 0
Allocates malloc =
    (n : ℕ) (frags : List Fragment)
    → malloc n ≡ some frags
    → (length frags ≡ n)
      × ((j : ℕ) → j < n → max_fragment_size ≤ length (get_or frags j no_fragment).data_bytes)

length-map_ack : (frags : List Fragment) (a : ℕ) → length (map (set_ack a) frags) ≡ length frags
length-map_ack [] a = refl
length-map_ack (g ∷ frags) a = ap suc (length-map_ack frags a)

room-map_ack :
    (frags : List Fragment) (a j : ℕ)
    → length (get_or (map (set_ack a) frags) j no_fragment).data_bytes
      ≡ length (get_or frags j no_fragment).data_bytes
room-map_ack [] a j = refl
room-map_ack (g ∷ frags) a zero = refl
room-map_ack (g ∷ frags) a (suc j) = room-map_ack frags a j

-- What a new buffer keeps.
record Kept (ch ch' : Chan) : Type 0 where
  stream : queued ch'.txwindow ≡ queued ch.txwindow
  ring : IsRing ch'.txwindow
  sequence : ch'.txwindow.sequence ≡ ch.txwindow.sequence
  acknowledge : ch'.txwindow.acknowledge ≡ ch.txwindow.acknowledge

resized-Kept :
    (ch : Chan) (n : ℕ) (frags : List Fragment)
    → IsRing ch.txwindow
    → HoldsWhole ch.txwindow
    → ch.txwindow.sequence < ch.txwindow.acknowledge + n
    → length frags ≡ n
    → ((j : ℕ) → j < n → max_fragment_size ≤ length (get_or frags j no_fragment).data_bytes)
    → Kept ch (resized ch n frags)
resized-Kept ch n frags r w h c room =
    let tx = ch.txwindow in
    let ordered = r.ordered in
    let cleared = if tx.acknowledge == 0 then map (set_ack minus_one) frags else frags in
    let count : length cleared ≡ n = ground (arith, length-map_ack frags minus_one) in
    let room' : (j : ℕ) → max_fragment_size ≤ length (slot cleared n j).data_bytes = λ j.
      ground
        (arith, room (j % n) (mod_lt n j (omega arith)), room-map_ack frags minus_one (j % n)) in
    let m =
      move_fragments-Moved tx n (tx.sequence - tx.acknowledge) tx.acknowledge cleared (omega arith)
        count room' (omega arith) (λ j a b. w j a (omega arith)) in
    record {
      stream =
          window_bytes-agree (resized ch n frags).txwindow tx (tx.sequence - tx.acknowledge)
            tx.acknowledge m.moved;
      ring = record {
        positive = omega arith;
        count = m.count;
        ordered = ordered;
        fits = omega arith;
        room = m.room;
      };
      sequence = refl;
      acknowledge = refl;
    }

record Changed (ch : Chan) (r : Option ℕ × Chan) : Type 0 where
  kept : Kept ch r.1
  size : (n : ℕ) → r.0 ≡ some n → r.1.txwindow.bufferlen ≡ n
  useful :
      (n : ℕ)
      → r.0 ≡ some n
      → (ch.txwindow.sequence - ch.txwindow.acknowledge < n)
        ⊎ (r.1.txwindow.bufferlen ≡ ch.txwindow.bufferlen)
  failed : r.0 ≡ none → r.1.txwindow.bufferlen ≡ ch.txwindow.bufferlen

same-Kept : (ch : Chan) → IsRing ch.txwindow → Kept ch ch
same-Kept ch r = record { stream = refl; ring = r; sequence = refl; acknowledge = refl }

resize_from-Changed :
    (malloc : ℕ → Option (List Fragment)) (ch : Chan) (n : ℕ) (o : Option (List Fragment))
    → Allocates malloc
    → malloc n ≡ o
    → IsRing ch.txwindow
    → HoldsWhole ch.txwindow
    → ch.txwindow.sequence < ch.txwindow.acknowledge + n
    → Changed ch (resize_from malloc ch n o)
resize_from-Changed malloc ch n none a e r w h = record {
  kept = same-Kept ch r;
  size = λ k q. absurd (ground (arith, q));
  useful = λ k q. absurd (ground (arith, q));
  failed = λ q. refl;
}
resize_from-Changed malloc ch n (some frags) a e r w h = record {
  kept = resized-Kept ch n frags r w h (a n frags e).0 (a n frags e).1;
  size = λ k q. ground (arith, q);
  useful = λ k q. inl (ground (arith, q, h));
  failed = λ q. absurd (ground (arith, q));
}

change-Changed :
    (malloc : ℕ → Option (List Fragment)) (ch : Chan) (count : ℕ)
    → Allocates malloc
    → IsRing ch.txwindow
    → HoldsWhole ch.txwindow
    → Changed ch (change_send_buffer_size malloc ch count)
unfolding change_send_buffer_size
change-Changed malloc ch count a r w =
    let n = if leb count default_buffer_size then default_buffer_size else count in
    elim (Bool-cases
      (leb count default_buffer_size && (ch.txwindow.bufferlen == default_buffer_size))) [
        | inl same ↦ rw same (record {
          kept = same-Kept ch r;
          size = λ k q. ground (arith, q, same);
          useful = λ k q. inr refl;
          failed = λ q. absurd (ground (arith, q));
        })
        | inr other ↦ elim (Bool-cases (leb n (ch.txwindow.sequence - ch.txwindow.acknowledge))) [
          | inl full ↦
              rw (other, full)
                (record {
                  kept = same-Kept ch r;
                  size = λ k q. absurd (ground (arith, q));
                  useful = λ k q. absurd (ground (arith, q));
                  failed = λ q. refl;
                })
          | inr fits ↦
              rw (other, fits)
                (resize_from-Changed malloc ch n (malloc n) a refl r w (ground arith))
        ]
      ]

record Roomy (ch : Chan) (r : Chan × ℕ) : Type 0 where
  kept : Kept ch r.0
  free_fits : r.0.txwindow.sequence + r.1 ≤ r.0.txwindow.acknowledge + r.0.txwindow.bufferlen

new_free-fits :
    (ch : Chan) (c : Option ℕ × Chan)
    → Changed ch c
    → IsRing ch.txwindow
    → let used = ch.txwindow.sequence - ch.txwindow.acknowledge in
      c.1.txwindow.sequence + new_free c.0 used (ch.txwindow.bufferlen - used)
      ≤ c.1.txwindow.acknowledge + c.1.txwindow.bufferlen
new_free-fits ch (none, ch') c r =
    ground (arith, c.failed refl, c.kept.sequence, c.kept.acknowledge, r.ordered, r.fits)
new_free-fits ch (some n, ch') c r =
    let ring = c.kept.ring in
    let sequence = c.kept.sequence in
    let acknowledge = c.kept.acknowledge in
    let ordered = r.ordered in
    let fits = r.fits in
    let fits' = ring.fits in
    let size = c.size n refl in
    elim (c.useful n refl) [
      | inl more ↦ ground (arith, more, size, sequence, acknowledge, ordered, fits, fits')
      | inr same ↦ ground (arith, same, size, sequence, acknowledge, ordered, fits, fits')
    ]

take-min : (n k : ℕ) (bs : List ℕ) → k ≡ 0 + min n (length bs) → take n bs ≡ take k bs
take-min n k bs e = elim (Bool-cases (ltb (length bs) n)) [
  | inl more ↦
      let more' = ltb→lt (length bs) n more in
      take-all n bs (omega arith) ∙ sym (take-all k bs (omega arith))
  | inr less ↦ let less' = ltb→le (length bs) n less in ap (λ j. take j bs) (omega arith)
]

make_room-Roomy :
    (malloc : ℕ → Option (List Fragment)) (ch : Chan) (len : ℕ)
    → Allocates malloc
    → IsRing ch.txwindow
    → HoldsWhole ch.txwindow
    → Roomy ch (make_room malloc ch len)
unfolding make_room
make_room-Roomy malloc ch len a r w =
    let tx = ch.txwindow in
    let used = tx.sequence - tx.acknowledge in
    let free = tx.bufferlen - used in
    let need = len / max_fragment_size + used + 1 in
    let c = change-Changed malloc ch (need + need / 2) a r w in
    let ordered = r.ordered in
    let fits = r.fits in
    elim (Bool-cases (ltb free (len / max_fragment_size + 1))) [
      | inl little ↦ rw little (record {
        kept = c.kept;
        free_fits = new_free-fits ch (change_send_buffer_size malloc ch (need + need / 2)) c r;
      })
      | inr enough ↦ rw enough (record { kept = same-Kept ch r; free_fits = omega arith })
    ]

-- With memory for the fragments or without, `ReliableMessageSend` adds the first of the bytes, as
-- many as it returns, to the stream that waits, and leaves a ring; if the fragments that wait are
-- whole.
pub send-queues :
    (malloc : ℕ → Option (List Fragment)) (ch : Chan) (bytes : List ℕ)
    → Allocates malloc
    → IsRing ch.txwindow
    → HoldsWhole ch.txwindow
    → let r = send malloc ch bytes in
      (r.0 ≤ length bytes)
      × (queued r.1.txwindow ≡ queued ch.txwindow ++ take r.0 bytes)
      × IsRing r.1.txwindow
unfolding send
send-queues malloc ch bytes a r w =
    let (ch', free) = make_room malloc ch (length bytes) in
    let room = make_room-Roomy malloc ch (length bytes) a r w in
    let s = send_loop-Sent free ch'.txwindow bytes 0 room.kept.ring room.free_fits in
    (
      omega (arith, s.number),
      s.stream
          ∙ rw (room.kept.stream) (
              ap (λ l. queued ch.txwindow ++ l)
                (take-min (free * max_fragment_size) (send_loop free ch'.txwindow bytes 0).1 bytes
                  s.number)),
      s.ring,
    )
