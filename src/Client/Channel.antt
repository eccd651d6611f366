-- ===== src/Client/Channel.antt =====
-- The receive window of src/net_reliabletransport.c as the stream of `CL_ReceiveReliableMessages` of
-- src/cl_main.c.
use co_d4x_client_pub.Common.{
  ℕ, zero, suc, ◌+◌, ◌-◌, ◌≤◌, ◌<◌, ◌≡◌, refl, sym, ap, ◌∙◌, true, Bool-cases, inl, inr, List, ◌++◌,
  ltb, ltb→le, leb, if◌then◌else◌, length, take, drop, length-put_bytes, append_assoc, arith, ◌==◌,
}
use co_d4x_client_pub.Msg.{Msg}
use co_d4x_client_pub.Reliable.{
  Fragment, Frame, Chan, slot, has_ack, count_acks, get_acknowledge, max_fragment_size,
}
use co_d4x_client_pub.Reliable.Receive.{keep_rest, cached, gather, receive}
use co_d4x_client_pub.Reliable.Deliver.{
  IsWhole, readable, window_bytes, fragment_data, receive-takes, get_acknowledge-first_gap,
  get_acknowledge-ge, count_acks-ge,
}
use co_d4x_client_pub.Client.Frames.{Stream}

-- The loop ends in its range, with a kept rest that fits its storage.
record Ends (i n : ℕ) (r : List ℕ × ℕ × Msg) : Type 0 where
  from : i ≤ r.1
  up_to : r.1 ≤ i + n
  size : length r.2.buf ≡ max_fragment_size
  within : r.2.cursize ≤ max_fragment_size

later-Ends :
    (i n : ℕ) (bytes : List ℕ) (r : List ℕ × ℕ × Msg)
    → Ends (i + 1) n r
    → Ends i (suc n) (bytes, r.1, r.2)
later-Ends i n bytes r e = record {
  from = omega (arith, e.from);
  up_to = omega (arith, e.up_to);
  size = e.size;
  within = e.within;
}

gather-Ends :
    (f : Frame) (n i left : ℕ) (m : Msg)
    → ((j : ℕ) → IsWhole (slot f.fragments f.bufferlen j))
    → length m.buf ≡ max_fragment_size
    → m.cursize ≤ max_fragment_size
    → Ends i n (gather f n i left m)
unfolding gather
gather-Ends f zero i left m w e h = record {
  from = omega arith;
  up_to = omega arith;
  size = e;
  within = h;
}
gather-Ends f (suc n) i left m w e h =
    let g = slot f.fragments f.bufferlen i in
    elim (Bool-cases (leb left 0)) [
      | inl done ↦
          rw done (record { from = omega arith; up_to = omega arith; size = e; within = h })
      | inr more ↦ elim (Bool-cases (ltb g.len left)) [
        | inl whole ↦
            rw (more, whole)
              (later-Ends i n (take g.len g.data_bytes ++ (gather f n (i + 1) (left - g.len) m).0)
                (gather f n (i + 1) (left - g.len) m)
                (gather-Ends f n (i + 1) (left - g.len) m w e h))
        | inr part ↦
            let bounded = (w i).bounded in
            let kept = keep_rest m g left in
            rw (more, part)
              (later-Ends i n (take left g.data_bytes ++ (gather f n (i + 1) 0 kept).0)
                (gather f n (i + 1) 0 kept)
                (gather-Ends f n (i + 1) 0 kept w
                  (length-put_bytes (take (g.len - left) (drop left g.data_bytes)) m.buf 0 ∙ e)
                  (omega arith)))
      ]
    ]

count_acks-le :
    (f : Frame) (n s c : ℕ)
    → ((j : ℕ) → s ≤ j → j < c → has_ack f j ≡ true)
    → s ≤ c
    → c ≤ s + n
    → c ≤ count_acks f n s
count_acks-le f zero s c a h b = omega arith
count_acks-le f (suc n) s c a h b = elim (Bool-cases (ltb s c)) [
  | inr reached ↦ omega (arith, count_acks-ge f (suc n) s, ltb→le s c reached)
  | inl more ↦ rw (a s (omega arith) (ground (arith, more))) (
      count_acks-le f n (s + 1) c (λ j l u. a j (omega arith) u) (ground (arith, more))
        (omega arith))
]

-- The window's bytes in two parts.
window_bytes-split :
    (f : Frame) (m n i : ℕ)
    → window_bytes f (m + n) i ≡ window_bytes f m i ++ window_bytes f n (i + m)
window_bytes-split f zero n i =
    ap (λ (p : ℕ × ℕ). window_bytes f p.0 p.1) {x = (0 + n, i)} {y = (n, i + 0)} (ground arith)
window_bytes-split f (suc m) n i =
    let first : suc m + n ≡ suc (m + n) = omega arith in
    let next : i + 1 + m ≡ i + suc m = omega arith in
    rw first (
      ap (λ t. fragment_data (slot f.fragments f.bufferlen i) ++ t)
        (window_bytes-split f m n (i + 1)
          ∙ ap (λ k. window_bytes f m (i + 1) ++ window_bytes f n k) next)
      ∙ sym (
          append_assoc (fragment_data (slot f.fragments f.bufferlen i)) (window_bytes f m (i + 1))
            (window_bytes f n (i + suc m))))

count_acks-upper : (f : Frame) (n s : ℕ) → count_acks f n s ≤ s + n
count_acks-upper f zero s = omega arith
count_acks-upper f (suc n) s = ground (arith, count_acks-upper f n (s + 1))

get_acknowledge-upper : (f : Frame) → get_acknowledge f ≤ f.sequence + f.windowsize
unfolding get_acknowledge
get_acknowledge-upper f = count_acks-upper f f.windowsize f.sequence

-- The window behind some reads: the fragments are the same, and its front has moved on.
record Moved (f g : Frame) : Type 0 where
  fragments : g.fragments ≡ f.fragments
  bufferlen : g.bufferlen ≡ f.bufferlen
  windowsize : g.windowsize ≡ f.windowsize
  from : f.sequence ≤ g.sequence
  up_to : g.sequence ≤ get_acknowledge f

slot-Moved :
    (f g : Frame) (i : ℕ)
    → Moved f g
    → slot g.fragments g.bufferlen i ≡ slot f.fragments f.bufferlen i
slot-Moved f g i m = rw (m.fragments, m.bufferlen) refl

window_bytes-Moved : (f g : Frame) (n i : ℕ) → Moved f g → window_bytes g n i ≡ window_bytes f n i
window_bytes-Moved f g zero i m = refl
window_bytes-Moved f g (suc n) i m =
    rw (slot-Moved f g i m, window_bytes-Moved f g n (i + 1) m) refl

get_acknowledge-Moved : (f g : Frame) → Moved f g → get_acknowledge f ≤ get_acknowledge g
unfolding get_acknowledge
get_acknowledge-Moved f g m =
    let upper = get_acknowledge-upper f in
    let from = m.from in
    let size = m.windowsize in
    count_acks-le g g.windowsize g.sequence (get_acknowledge f)
      (λ j h b.
        ap (λ (x : Fragment). x.ack == j) (slot-Moved f g j m)
        ∙ (get_acknowledge-first_gap f j (omega arith) (omega arith)).0 b)
      m.up_to (omega arith)

window-Moved :
    (f g : Frame)
    → Moved f g
    → window_bytes g (get_acknowledge g - g.sequence) g.sequence
      ≡ window_bytes f (get_acknowledge f - g.sequence) g.sequence
        ++ window_bytes g
            (get_acknowledge g - get_acknowledge f)
            (g.sequence + (get_acknowledge f - g.sequence))
window-Moved f g m =
    let i = g.sequence in
    let a = get_acknowledge f in
    let parts : get_acknowledge g - i ≡ (a - i) + (get_acknowledge g - a) =
      omega (arith, get_acknowledge-Moved f g m, m.up_to) in
    rw parts (
      window_bytes-split g (a - i) (get_acknowledge g - a) i
      ∙ ap (λ t. t ++ window_bytes g (get_acknowledge g - a) (i + (a - i)))
          (window_bytes-Moved f g (a - i) i m))

-- Every fragment of the receive buffer is whole, and the kept rest has its storage.
pub record IsSound (ch : Chan) : Type 0 where
  pub whole : (j : ℕ) → IsWhole (slot ch.rxwindow.fragments ch.rxwindow.bufferlen j)
  pub size : length ch.rxwindow.fragmentbuffer.buf ≡ max_fragment_size
  pub within : ch.rxwindow.fragmentbuffer.cursize ≤ max_fragment_size

record Read (ch : Chan) (r : List ℕ × Chan) : Type 0 where
  moved : Moved ch.rxwindow r.1.rxwindow
  sound : IsSound r.1

receive-Read : (ch : Chan) (len : ℕ) → IsSound ch → Read ch (receive ch len)
unfolding receive
receive-Read ch len s =
    let rx = ch.rxwindow in
    let m = rx.fragmentbuffer in
    let wlen = if ltb (m.cursize - m.readcount) len then m.cursize - m.readcount else len in
    let n = get_acknowledge rx - rx.sequence in
    let e =
      gather-Ends rx n rx.sequence (len - wlen) (record m { readcount = m.readcount + wlen })
        s.whole s.size s.within in
    record {
      moved = record {
        fragments = refl;
        bufferlen = refl;
        windowsize = refl;
        from = e.from;
        up_to = omega (arith, e.up_to, get_acknowledge-ge rx);
      };
      sound = record { whole = s.whole; size = e.size; within = e.within };
    }

-- What came behind what could be read before.
abbrev came_later : Chan → ℕ → List ℕ
came_later ch n =
    let f = ch.rxwindow in
    let g = (receive ch n).1.rxwindow in
    window_bytes g (get_acknowledge g - get_acknowledge f)
      (g.sequence + (get_acknowledge f - g.sequence))

readable-receive :
    (ch : Chan) (n : ℕ)
    → IsSound ch
    → readable (receive ch n).1.rxwindow ≡ drop n (readable ch.rxwindow) ++ came_later ch n
readable-receive ch n s =
    let rest = receive-takes ch n (λ j h b. s.whole j) s.size s.within in
    let g = (receive ch n).1.rxwindow in
    let r = receive-Read ch n s in
    ap (λ t. cached g.fragmentbuffer ++ t) (window-Moved ch.rxwindow g r.moved)
    ∙ sym (
        append_assoc (cached g.fragmentbuffer)
          (window_bytes ch.rxwindow (get_acknowledge ch.rxwindow - g.sequence) g.sequence)
          (came_later ch n))
    ∙ ap (λ t. t ++ came_later ch n) rest.1

abbrev channel_stream : Stream receive
channel_stream = record {
  IsGood = IsSound;
  readable = λ ch. readable ch.rxwindow;
  later = came_later;
  taken = λ ch n s. (receive-takes ch n (λ j h b. s.whole j) s.size s.within).0;
  left = readable-receive;
  good = λ ch n s. (receive-Read ch n s).sound;
}
