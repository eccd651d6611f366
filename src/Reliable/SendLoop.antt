-- ===== src/Reliable/SendLoop.antt =====
-- The loop of `ReliableMessageSend` of src/net_reliabletransport.c, on the stream of bytes.
use co_d4x_client_pub.Common.{
  min, ℕ, zero, suc, ◌+◌, ◌-◌, ◌*◌, ◌%◌, ◌≤◌, ◌<◌, ◌≡◌, ◌⊎◌, inl, inr, refl, sym, ap, ◌∙◌,
  Bool-cases, List, [], ◌∷◌, ◌++◌, leb, length, take, drop, length-set, length-take, length-drop,
  take-all, take-put_bytes, length-put_bytes, append-nil, append_assoc, arith,
}
use co_d4x_client_pub.Reliable.{Fragment, Frame, slot, max_fragment_size}
use co_d4x_client_pub.Reliable.Send.{fill, put_fragment, send_loop}
use co_d4x_client_pub.Reliable.Deliver.{fragment_data, take-nil}
use co_d4x_client_pub.Reliable.Ring.{
  IsRing, queued, window_bytes-agree, window_bytes-snoc, slot-set_ne, slot-set_self, set-room,
}

fill-data :
    (old : Fragment) (bytes : List ℕ)
    → length bytes ≤ length old.data_bytes
    → fragment_data (fill old bytes) ≡ bytes
fill-data old bytes h =
    take-put_bytes bytes old.data_bytes 0 (length bytes) (omega arith) (omega arith)

put_fragment-IsRing :
    (f : Frame) (bytes : List ℕ)
    → IsRing f
    → f.sequence < f.acknowledge + f.bufferlen
    → IsRing (put_fragment f bytes)
put_fragment-IsRing f bytes r h =
    let positive = r.positive in
    let count = r.count in
    let ordered = r.ordered in
    record {
      positive = positive;
      count =
          length-set f.fragments (f.sequence % f.bufferlen)
            (fill (slot f.fragments f.bufferlen f.sequence) bytes)
          ∙ count;
      ordered = omega arith;
      fits = omega arith;
      room =
          set-room f.fragments f.bufferlen f.sequence
            (fill (slot f.fragments f.bufferlen f.sequence) bytes) positive count r.room
            (omega (
              arith,
              r.room f.sequence,
              length-put_bytes bytes (slot f.fragments f.bufferlen f.sequence).data_bytes 0,
            ));
    }

put_fragment-queued :
    (f : Frame) (bytes : List ℕ)
    → IsRing f
    → f.sequence < f.acknowledge + f.bufferlen
    → length bytes ≤ max_fragment_size
    → queued (put_fragment f bytes) ≡ queued f ++ bytes
put_fragment-queued f bytes r h b =
    let g = put_fragment f bytes in
    let n = f.sequence - f.acknowledge in
    let ordered = r.ordered in
    let more : f.sequence + 1 - f.acknowledge ≡ suc n = omega arith in
    let last : f.acknowledge + n ≡ f.sequence = omega arith in
    let room = r.room f.sequence in
    rw
      (
        more,
        window_bytes-snoc g n f.acknowledge,
        last,
        slot-set_self f.fragments f.bufferlen f.sequence
            (fill (slot f.fragments f.bufferlen f.sequence) bytes) r.positive r.count,
        fill-data (slot f.fragments f.bufferlen f.sequence) bytes (omega arith),
      )
      (ap (λ l. l ++ bytes)
        (window_bytes-agree g f n f.acknowledge (λ j a c. ap fragment_data (
          slot-set_ne f.fragments f.bufferlen j f.sequence
            (fill (slot f.fragments f.bufferlen f.sequence) bytes) (omega arith) (omega arith)))))

-- What a run of the loop over `n` free fragments does with `bytes`.
pub record Sent (f : Frame) (n : ℕ) (bytes : List ℕ) (sentlen : ℕ) (r : Frame × ℕ) : Type 0 where
  pub number : r.1 ≡ sentlen + min (n * max_fragment_size) (length bytes)
  pub stream : queued r.0 ≡ queued f ++ take (n * max_fragment_size) bytes
  pub ring : IsRing r.0
  pub same : r.0.acknowledge ≡ f.acknowledge

none-Sent :
    (f : Frame) (n : ℕ) (bytes : List ℕ) (sentlen : ℕ)
    → IsRing f
    → length bytes ≡ 0
    → Sent f n bytes sentlen (f, sentlen)
none-Sent f n [] sentlen r h = record {
  number = omega arith;
  stream = sym (rw (take-nil (n * max_fragment_size)) (append-nil (queued f)));
  ring = r;
  same = refl;
}
none-Sent f n (b ∷ bs) sentlen r h = absurd (omega arith)

take-append-take-drop :
    (a k c : ℕ) (bs : List ℕ) → a + k ≡ c → take a bs ++ take k (drop a bs) ≡ take c bs
take-append-take-drop zero k c bs e = ap (λ j. take j bs) (omega arith)
take-append-take-drop (suc a) k c [] e = rw (take-nil k, take-nil c) refl
take-append-take-drop (suc a) k zero (b ∷ bs) e = absurd (omega arith)
take-append-take-drop (suc a) k (suc c) (b ∷ bs) e =
    ap (λ l. b ∷ l) (take-append-take-drop a k c bs (omega arith))

-- A round sends a full fragment or all that is left.
Sent-step :
    (f : Frame) (n slen sentlen : ℕ) (bytes : List ℕ) (r : Frame × ℕ)
    → IsRing f
    → f.sequence < f.acknowledge + f.bufferlen
    → slen ≤ max_fragment_size
    → slen ≤ length bytes
    → (slen ≡ max_fragment_size) ⊎ (slen ≡ length bytes)
    → Sent (put_fragment f (take slen bytes)) n (drop slen bytes) (sentlen + slen) r
    → Sent f (suc n) bytes sentlen r
Sent-step f n slen sentlen bytes r g h small within kind s =
    let now = take slen bytes in
    let size : length now ≡ slen = omega (arith, length-take slen bytes) in
    let left = length-drop slen bytes in
    let number = s.number in
    let prefix : take (slen + n * max_fragment_size) bytes
        ≡ take (suc n * max_fragment_size) bytes =
      elim kind [
        | inl e ↦ ap (λ k. take k bytes) (omega arith)
        | inr e ↦
            take-all (slen + n * max_fragment_size) bytes (omega arith)
            ∙ sym (take-all (suc n * max_fragment_size) bytes (omega arith))
      ] in
    record {
      number = elim kind [ inl e ↦ omega arith | inr e ↦ omega arith ];
      stream =
          rw
            (
              s.stream,
              put_fragment-queued f now g h (omega arith),
              append_assoc,
              take-append-take-drop slen (n * max_fragment_size) (slen + n * max_fragment_size)
                  bytes refl,
            )
            (ap (λ l. queued f ++ l) prefix);
      ring = s.ring;
      same = s.same;
    }

pub send_loop-Sent :
    (n : ℕ) (f : Frame) (bytes : List ℕ) (sentlen : ℕ)
    → IsRing f
    → f.sequence + n ≤ f.acknowledge + f.bufferlen
    → Sent f n bytes sentlen (send_loop n f bytes sentlen)
unfolding send_loop
send_loop-Sent zero f bytes sentlen r h = record {
  number = omega arith;
  stream = sym (append-nil (queued f));
  ring = r;
  same = refl;
}
send_loop-Sent (suc n) f bytes sentlen r h =
    let free : f.sequence < f.acknowledge + f.bufferlen = omega arith in
    elim (Bool-cases (leb (length bytes) 0)) [
      | inl done ↦ rw done (none-Sent f (suc n) bytes sentlen r (ground arith))
      | inr more ↦ elim (Bool-cases (leb max_fragment_size (length bytes))) [
        | inl whole ↦
            let now = take max_fragment_size bytes in
            let enough : max_fragment_size ≤ length bytes = ground arith in
            rw (more, whole)
              (Sent-step f n max_fragment_size sentlen bytes _ r free (omega arith) enough
                (inl refl)
                (send_loop-Sent n (put_fragment f now) (drop max_fragment_size bytes)
                  (sentlen + max_fragment_size) (put_fragment-IsRing f now r free) (omega arith)))
        | inr part ↦
            let now = take (length bytes) bytes in
            let small : length bytes < max_fragment_size = ground arith in
            rw (more, part)
              (Sent-step f n (length bytes) sentlen bytes _ r free (omega arith) (omega arith)
                (inr refl)
                (send_loop-Sent n (put_fragment f now) (drop (length bytes) bytes)
                  (sentlen + length bytes) (put_fragment-IsRing f now r free) (omega arith)))
      ]
    ]
