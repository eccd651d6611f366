-- ===== src/Reliable/Invariant.antt =====
-- What a packet that comes can do to the counters of src/net_reliabletransport.c.
use co_d4x_client_pub.Common.{
  All, All-drop, take, drop, [], ◌∷◌, from_le, ℕ, zero, suc, ◌-◌, ◌%◌, ◌^◌, ◌≤◌, ◌<◌, ◌≡◌, refl,
  ◌∙◌, false, Option, none, some, List, ◌==◌, ltb, leb, slt, ◌&&◌, ◌||◌, if◌then◌else◌, Bool-cases,
  inl, inr, arith, minus_one, add32,
}
use co_d4x_client_pub.Msg.{Msg}
use co_d4x_client_pub.Reliable.{
  Fragment, Frame, Chan, change_send_buffer_size, resize_from, default_buffer_size,
  max_fragment_size,
}
use co_d4x_client_pub.Reliable.Receive.{
  mark_acks, read_selective_acks, is_refused, store_fragment, acknowledge_all, receive_rest,
  receive_acks, receive_next_fragment, count_packet, is_out_of_window,
}
use co_d4x_client_pub.Msg.Stream.{IsByte}
use co_d4x_client_pub.Msg.Read.{past_end, read_byte, read_short, read_long}

-- The counters before and after: the send window only moves on, up to what was sent.
pub record Moves (ch ch' : Chan) : Type 0 where
  pub sent : ch'.txwindow.sequence ≡ ch.txwindow.sequence
  pub forward : ch.txwindow.acknowledge ≤ ch'.txwindow.acknowledge
  pub bounded : ch'.txwindow.acknowledge ≤ ch'.txwindow.sequence
  pub received : ch'.rxwindow.sequence ≡ ch.rxwindow.sequence

record Same (f g : Frame) : Type 0 where
  sequence : g.sequence ≡ f.sequence
  acknowledge : g.acknowledge ≡ f.acknowledge

record SameChan (ch ch' : Chan) : Type 0 where
  tx : Same ch.txwindow ch'.txwindow
  rx : Same ch.rxwindow ch'.rxwindow

read_selective_acks-Same :
    (n acknowledge : ℕ) (tx : Frame) (m : Msg) → Same tx (read_selective_acks n acknowledge tx m).1
unfolding read_selective_acks
read_selective_acks-Same zero acknowledge tx m = record { sequence = refl; acknowledge = refl }
read_selective_acks-Same (suc n) acknowledge tx m =
    let (offset, m1) = read_short m in
    let startack = add32 offset acknowledge in
    let (len, m2) = read_short m1 in
    let tx' = record tx { fragments = mark_acks tx.fragments tx.bufferlen len startack } in
    let rest = read_selective_acks-Same n acknowledge tx' m2 in
    elim (Bool-cases (is_out_of_window acknowledge tx.windowsize startack len)) [
      | inl out ↦ rw out record { sequence = refl; acknowledge = refl }
      | inr within ↦ rw within (record { sequence = rest.sequence; acknowledge = rest.acknowledge })
    ]

store_fragment-SameChan :
    (ch : Chan) (m : Msg) (sequence size : ℕ) → SameChan ch (store_fragment ch m sequence size)
unfolding store_fragment
store_fragment-SameChan ch m sequence size =
    elim (Bool-cases ((sequence == minus_one) || slt sequence ch.rxwindow.sequence)) [
      | inl old ↦ rw old (record {
        tx = record { sequence = refl; acknowledge = refl };
        rx = record { sequence = refl; acknowledge = refl };
      })
      | inr new ↦ rw new (record {
        tx = record { sequence = refl; acknowledge = refl };
        rx = record { sequence = refl; acknowledge = refl };
      })
    ]

resize_from-SameChan :
    (malloc : ℕ → Option (List Fragment)) (ch : Chan) (n : ℕ) (o : Option (List Fragment))
    → SameChan ch (resize_from malloc ch n o).1
resize_from-SameChan malloc ch n none = record {
  tx = record { sequence = refl; acknowledge = refl };
  rx = record { sequence = refl; acknowledge = refl };
}
resize_from-SameChan malloc ch n (some frags) = record {
  tx = record { sequence = refl; acknowledge = refl };
  rx = record { sequence = refl; acknowledge = refl };
}

change-SameChan :
    (malloc : ℕ → Option (List Fragment)) (ch : Chan) (count : ℕ)
    → SameChan ch (change_send_buffer_size malloc ch count).1
unfolding change_send_buffer_size
change-SameChan malloc ch count =
    let n = if leb count default_buffer_size then default_buffer_size else count in
    let r = resize_from-SameChan malloc ch n (malloc n) in
    ground (arith, r.tx.sequence, r.tx.acknowledge, r.rx.sequence, r.rx.acknowledge)

acknowledge_all-Moves :
    (malloc : ℕ → Option (List Fragment)) (ch : Chan) (acknowledge : ℕ)
    → ch.txwindow.sequence < 2 ^ 31
    → ch.txwindow.acknowledge ≤ ch.txwindow.sequence
    → acknowledge ≤ ch.txwindow.sequence
    → Moves ch (acknowledge_all malloc ch acknowledge)
unfolding acknowledge_all
acknowledge_all-Moves malloc ch acknowledge small ordered sent =
    let tx = ch.txwindow in
    let ch' = record ch { txwindow = record tx { acknowledge = acknowledge } } in
    let r = change-SameChan malloc ch' default_buffer_size in
    elim (Bool-cases (slt tx.acknowledge acknowledge)) [
      | inl new ↦
          let later : tx.acknowledge ≤ acknowledge = ground (arith, new) in
          elim (Bool-cases (
            ltb (tx.sequence - acknowledge) default_buffer_size
            && ltb default_buffer_size tx.bufferlen)) [
              | inl shrinks ↦
                  rw (new, shrinks)
                    (record {
                      sent = r.tx.sequence;
                      forward = omega (arith, later, r.tx.acknowledge);
                      bounded = omega (arith, r.tx.acknowledge, r.tx.sequence, sent);
                      received = r.rx.sequence;
                    })
              | inr stays ↦
                  rw (new, stays)
                    (record { sent = refl; forward = later; bounded = sent; received = refl })
            ]
      | inr old ↦
          rw old (record { sent = refl; forward = omega arith; bounded = ordered; received = refl })
    ]

receive_rest-Moves :
    (malloc : ℕ → Option (List Fragment)) (ch : Chan) (sequence acknowledge : ℕ) (m : Msg)
    → ch.txwindow.sequence < 2 ^ 31
    → ch.txwindow.acknowledge ≤ ch.txwindow.sequence
    → acknowledge ≤ ch.txwindow.sequence
    → Moves ch (receive_rest malloc ch sequence acknowledge m)
receive_rest-Moves malloc ch sequence acknowledge m small ordered sent =
    let (windowsize, m1) = read_short m in
    let (size, m2) = read_short m1 in
    let a = acknowledge_all-Moves malloc ch acknowledge small ordered sent in
    let s = store_fragment-SameChan (acknowledge_all malloc ch acknowledge) m2 sequence size in
    elim (Bool-cases (ltb max_fragment_size size)) [
      | inl large ↦
          rw large
            (record { sent = refl; forward = omega arith; bounded = ordered; received = refl })
      | inr fits ↦ rw fits (record {
        sent = s.tx.sequence ∙ a.sent;
        forward = rw (s.tx.acknowledge) a.forward;
        bounded = rw (s.tx.acknowledge, s.tx.sequence) a.bounded;
        received = s.rx.sequence ∙ a.received;
      })
    ]

receive_acks-Moves :
    (malloc : ℕ → Option (List Fragment)) (ch : Chan) (sequence acknowledge : ℕ) (m : Msg)
    → ch.txwindow.sequence < 2 ^ 31
    → ch.txwindow.acknowledge ≤ ch.txwindow.sequence
    → acknowledge ≤ ch.txwindow.sequence
    → Moves ch (receive_acks malloc ch sequence acknowledge m)
receive_acks-Moves malloc ch sequence acknowledge m small ordered sent =
    let (count, m1) = read_byte m in
    let (ok, tx, m2) = read_selective_acks count acknowledge ch.txwindow m1 in
    let same = read_selective_acks-Same count acknowledge ch.txwindow m1 in
    let ch' = record ch { txwindow = tx } in
    let ordered' : tx.acknowledge ≤ tx.sequence = rw (same.sequence, same.acknowledge) ordered in
    let small' : tx.sequence < 2 ^ 31 = rw (same.sequence) small in
    let sent' : acknowledge ≤ tx.sequence = rw (same.sequence) sent in
    let r = receive_rest-Moves malloc ch' sequence acknowledge m2 small' ordered' sent' in
    elim (Bool-cases (ltb 3 count)) [
      | inl many ↦
          rw many
            (record { sent = refl; forward = omega arith; bounded = ordered; received = refl })
      | inr few ↦ elim (Bool-cases ok) [
        | inl good ↦
            rw (few, good)
              (record {
                sent = r.sent ∙ same.sequence;
                forward = omega (arith, r.forward, same.acknowledge);
                bounded = r.bounded;
                received = r.received;
              })
        | inr bad ↦
            rw (few, bad)
              (record {
                sent = same.sequence;
                forward = rw (same.acknowledge) (omega arith);
                bounded = ordered';
                received = refl;
              })
      ]
    ]

from_le_4-u32 : (bs : List ℕ) → All IsByte bs → from_le (take 4 bs) < 2 ^ 32
from_le_4-u32 [] h = omega arith
from_le_4-u32 (a ∷ []) (ha, h) = omega arith
from_le_4-u32 (a ∷ b ∷ []) (ha, (hb, h)) = omega arith
from_le_4-u32 (a ∷ b ∷ c ∷ []) (ha, (hb, (hc, h))) = omega arith
from_le_4-u32 (a ∷ b ∷ c ∷ d ∷ bs) (ha, (hb, (hc, (hd, h)))) = omega arith

read_long-u32 : (m : Msg) → All IsByte m.buf → (read_long m).0 < 2 ^ 32
unfolding read_long
read_long-u32 m h =
    ground (arith, from_le_4-u32 (drop m.readcount m.buf) (All-drop IsByte m.readcount m.buf h))

read_long-buf : (m : Msg) → (read_long m).1.buf ≡ m.buf
unfolding read_long
read_long-buf m = elim (Bool-cases (past_end 4 m)) [ inl e ↦ rw e refl | inr e ↦ rw e refl ]

sent_lem :
    (ch : Chan) (sequence acknowledge : ℕ)
    → ch.txwindow.sequence < 2 ^ 31
    → acknowledge < 2 ^ 32
    → is_refused ch sequence acknowledge ≡ false
    → ch.txwindow.acknowledge ≤ ch.txwindow.sequence
    → acknowledge ≤ ch.txwindow.sequence
sent_lem ch sequence acknowledge small word taken ordered = ground (arith, taken)

abbrev counted : Chan → Msg → ℕ → Chan
counted ch m flags = record ch {
  rxwindow = count_packet m ch.rxwindow;
  nextacktime = if flags % 2 == 1 then 0 else ch.nextacktime;
}

-- Whatever packet of bytes comes, the send window's acknowledge does not fall and does not pass the last
-- fragment sent, and neither that count nor the receive window's start changes; if the counters are
-- below 2 ^ 31 and the acknowledge had not passed it before.
pub receive_next_fragment-Moves :
    (malloc : ℕ → Option (List Fragment)) (ch : Chan) (m : Msg)
    → ch.txwindow.acknowledge ≤ ch.txwindow.sequence
    → ch.txwindow.sequence < 2 ^ 31
    → All IsByte m.buf
    → Moves ch (receive_next_fragment malloc ch m)
unfolding receive_next_fragment
receive_next_fragment-Moves malloc ch m ordered small bytes =
    let (sequence, m1) = read_long m in
    let (acknowledge, m2) = read_long m1 in
    let (flags, m3) = read_byte m2 in
    elim (Bool-cases (is_refused ch sequence acknowledge)) [
      | inl refused ↦
          rw refused
            (record { sent = refl; forward = omega arith; bounded = ordered; received = refl })
      | inr taken ↦ rw taken (
          let r =
            receive_acks-Moves malloc (counted ch m flags) sequence acknowledge m3 small ordered (
              sent_lem ch sequence acknowledge small (read_long-u32 m1 (rw (read_long-buf m) bytes))
                taken ordered) in
          record { sent = r.sent; forward = r.forward; bounded = r.bounded; received = r.received })
    ]
