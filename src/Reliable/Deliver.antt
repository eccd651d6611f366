-- ===== src/Reliable/Deliver.antt =====
-- What the receive window of Reliable/Receive holds for its reader, as a stream of bytes.
use co_d4x_client_pub.Common.{
  ℕ, zero, suc, ◌+◌, ◌-◌, ◌≤◌, ◌<◌, ◌≡◌, ◌⊎◌, inl, inr, refl, sym, ap, ◌∙◌, true, false, Bool-cases,
  List, [], ◌++◌, ltb, leb, ltb→lt, ltb→le, length, take, drop, put_bytes, length-take, length-drop,
  take-append_le, take-append_ge, drop-append_le, drop-append_ge, drop-nil, drop-drop, drop-take,
  take-drop-take, take-put_bytes, length-put_bytes, append-nil, arith,
}
use co_d4x_client_pub.Msg.{Msg}
use co_d4x_client_pub.Reliable.{
  Fragment, Frame, Chan, slot, has_ack, count_acks, get_acknowledge, max_fragment_size,
}
use co_d4x_client_pub.Reliable.Receive.{keep_rest, cached, gather, receive}

abbrev pub fragment_data : Fragment → List ℕ
fragment_data g = take g.len g.data_bytes

-- The bytes of the `n` fragments from `i` on.
abbrev pub window_bytes : Frame → ℕ → ℕ → List ℕ
window_bytes f zero i = []
window_bytes f (suc n) i =
    fragment_data (slot f.fragments f.bufferlen i) ++ window_bytes f n (i + 1)

-- A fragment's length is within its data, which has room for 1200 bytes.
pub record IsWhole (g : Fragment) : Type 0 where
  pub within : g.len ≤ length g.data_bytes
  pub bounded : g.len ≤ max_fragment_size

-- What can be read: the kept rest, and the fragments that came without a gap.
abbrev pub readable : Frame → List ℕ
readable f = cached f.fragmentbuffer ++ window_bytes f (get_acknowledge f - f.sequence) f.sequence

abbrev Gap : Frame → ℕ → ℕ → Type 0
Gap f i c = (i < c → has_ack f i ≡ true) × (i ≡ c → has_ack f i ≡ false)

pub count_acks-ge : (f : Frame) (n s : ℕ) → s ≤ count_acks f n s
count_acks-ge f zero s = omega arith
count_acks-ge f (suc n) s = ground (arith, count_acks-ge f n (s + 1))

count_acks-Gap : (f : Frame) (i n s : ℕ) → s ≤ i → i < s + n → Gap f i (count_acks f n s)
count_acks-Gap f i zero s h b = absurd (omega arith)
count_acks-Gap f i (suc n) s h b = elim (Bool-cases (has_ack f s)) [
  | inl e ↦ rw e (elim (Bool-cases (ltb s i)) [
    | inl later ↦ count_acks-Gap f i n (s + 1) (ground arith) (omega arith)
    | inr now ↦
        let same : s ≡ i = omega (arith, ltb→le s i now) in
        (λ c. rw same at e, λ c. absurd (omega (arith, count_acks-ge f n (s + 1))))
  ])
  | inr e ↦ rw e (λ c. absurd (omega arith), λ c. rw (sym c) at e)
]

pub get_acknowledge-ge : (f : Frame) → f.sequence ≤ get_acknowledge f
unfolding get_acknowledge
get_acknowledge-ge f = count_acks-ge f f.windowsize f.sequence

-- Each fragment of the window before `get_acknowledge` has come, and the one there, if it is in the
-- window, has not.
pub get_acknowledge-first_gap :
    (f : Frame) (i : ℕ)
    → f.sequence ≤ i
    → i < f.sequence + f.windowsize
    → (i < get_acknowledge f → has_ack f i ≡ true) × (i ≡ get_acknowledge f → has_ack f i ≡ false)
unfolding get_acknowledge
get_acknowledge-first_gap f i h b = count_acks-Gap f i f.windowsize f.sequence h b

keep_rest-cached :
    (m : Msg) (g : Fragment) (left : ℕ)
    → IsWhole g
    → left ≤ g.len
    → length m.buf ≡ max_fragment_size
    → cached (keep_rest m g left) ≡ drop left (fragment_data g)
keep_rest-cached m g left w h e =
    let n = g.len - left in
    let within = w.within in
    let bounded = w.bounded in
    let size : length (take n (drop left g.data_bytes)) ≡ n =
      omega (arith, length-take n (drop left g.data_bytes), length-drop left g.data_bytes) in
    ap (λ k. take k (put_bytes m.buf 0 (take n (drop left g.data_bytes)))) (omega arith)
    ∙ take-put_bytes (take n (drop left g.data_bytes)) m.buf 0 n (omega arith) (omega arith)
    ∙ sym (drop-take left g.len n g.data_bytes (omega arith))

length-fragment_data : (g : Fragment) → IsWhole g → length (fragment_data g) ≡ g.len
length-fragment_data g w = let within = w.within in omega (arith, length-take g.len g.data_bytes)

-- What the loop copied, and what is left to read behind it.
abbrev Gathered : Frame → ℕ → ℕ → ℕ → Msg → List ℕ × ℕ × Msg → Type 0
Gathered f n i left m r =
    (r.0 ≡ take left (window_bytes f n i))
    × (cached r.2 ++ window_bytes f (i + n - r.1) r.1 ≡ cached m ++ drop left (window_bytes f n i))

take-take : (j k : ℕ) (bs : List ℕ) → j ≤ k → take j (take k bs) ≡ take j bs
take-take j k bs h = take-drop-take 0 j k bs (omega arith)

pub take-nil : (n : ℕ) → take {A = ℕ} n [] ≡ []
take-nil zero = refl
take-nil (suc n) = refl

none-Gathered : (f : Frame) (n i : ℕ) (m : Msg) → Gathered f n i 0 m ([], i, m)
none-Gathered f n i m = (refl, ap (λ k. cached m ++ window_bytes f k i) (omega arith))

whole-Gathered :
    (f : Frame) (n i left : ℕ) (m : Msg) (r : List ℕ × ℕ × Msg)
    → let g = slot f.fragments f.bufferlen i in
      IsWhole g
      → g.len < left
      → cached m ≡ []
      → Gathered f n (i + 1) (left - g.len) m r
      → Gathered f (suc n) i left m (fragment_data g ++ r.0, r.1, r.2)
whole-Gathered f n i left m r w h c (same, rest) =
    let g = slot f.fragments f.bufferlen i in
    let size = length-fragment_data g w in
    (
      ap (λ l. fragment_data g ++ l) same
          ∙ sym (
              take-append_ge (left - g.len) left (fragment_data g) (window_bytes f n (i + 1))
                (omega (arith, size))),
      ap (λ k. cached r.2 ++ window_bytes f k r.1) (omega arith)
          ∙ rest
          ∙ ap (λ l. cached m ++ l)
              (sym (
                drop-append_ge (left - g.len) left (fragment_data g) (window_bytes f n (i + 1))
                  (omega (arith, size)))),
    )

part-Gathered :
    (f : Frame) (n i left : ℕ) (m : Msg) (r : List ℕ × ℕ × Msg)
    → let g = slot f.fragments f.bufferlen i in
      IsWhole g
      → left ≤ g.len
      → length m.buf ≡ max_fragment_size
      → cached m ≡ []
      → Gathered f n (i + 1) 0 (keep_rest m g left) r
      → Gathered f (suc n) i left m (take left g.data_bytes ++ r.0, r.1, r.2)
part-Gathered f n i left m r w h e c (same, rest) =
    let g = slot f.fragments f.bufferlen i in
    let size = length-fragment_data g w in
    (
      ap (λ l. take left g.data_bytes ++ l) same
          ∙ rw append-nil (
              sym (
                take-append_le left (fragment_data g) (window_bytes f n (i + 1))
                  (omega (arith, size))
                ∙ take-take left g.len g.data_bytes h)),
      ap (λ k. cached r.2 ++ window_bytes f k r.1) (omega arith)
          ∙ rest
          ∙ rw c (
              ap (λ l. l ++ window_bytes f n (i + 1)) (keep_rest-cached m g left w h e)
              ∙ sym (
                  drop-append_le left (fragment_data g) (window_bytes f n (i + 1))
                    (omega (arith, size)))),
    )

gather-Gathered :
    (f : Frame) (n i left : ℕ) (m : Msg)
    → ((j : ℕ) → i ≤ j → j < i + n → IsWhole (slot f.fragments f.bufferlen j))
    → length m.buf ≡ max_fragment_size
    → (left ≡ 0) ⊎ (cached m ≡ [])
    → Gathered f n i left m (gather f n i left m)
unfolding gather
gather-Gathered f zero i left m w e c =
    (sym (take-nil left), nothing ∙ ap (λ l. cached m ++ l) (sym (drop-nil ℕ left)))
  where
    ended : i + 0 - i ≡ 0
    ended = omega arith

    nothing : cached m ++ window_bytes f (i + 0 - i) i ≡ cached m ++ []
    nothing = ap (λ k. cached m ++ window_bytes f k i) ended
gather-Gathered f (suc n) i left m w e c =
    let g = slot f.fragments f.bufferlen i in
    let here = w i (omega arith) (omega arith) in
    let behind : (j : ℕ) → i + 1 ≤ j → j < i + 1 + n → IsWhole (slot f.fragments f.bufferlen j) =
      λ j h b. w j (omega arith) (omega arith) in
    elim (Bool-cases (leb left 0)) [
      | inl none_left ↦
          let zero_left : left ≡ 0 = ground arith in
          rw (none_left, zero_left) (none-Gathered f (suc n) i m)
      | inr some_left ↦
          let empty : cached m ≡ [] = elim c [ inl z ↦ absurd (ground arith) | inr e ↦ e ] in
          elim (Bool-cases (ltb g.len left)) [
            | inl whole ↦
                rw (some_left, whole)
                  (whole-Gathered f n i left m (gather f n (i + 1) (left - g.len) m) here
                    (ltb→lt g.len left whole) empty
                    (gather-Gathered f n (i + 1) (left - g.len) m behind e (inr empty)))
            | inr part ↦
                rw (some_left, part)
                  (part-Gathered f n i left m (gather f n (i + 1) 0 (keep_rest m g left)) here
                    (ltb→le g.len left part) e empty
                    (gather-Gathered f n (i + 1) 0 (keep_rest m g left) behind
                      (length-put_bytes (take (g.len - left) (drop left g.data_bytes)) m.buf 0 ∙ e)
                      (inl refl)))
          ]
    ]

advance : Msg → ℕ → Msg
advance m n = record m { readcount = m.readcount + n }

length-cached : (m : Msg) → m.cursize ≤ length m.buf → length (cached m) ≡ m.cursize - m.readcount
length-cached m h = omega (
  arith,
  length-take (m.cursize - m.readcount) (drop m.readcount m.buf),
  length-drop m.readcount m.buf,
)

cached-advance_all : (m : Msg) → cached (advance m (m.cursize - m.readcount)) ≡ []
unfolding advance
cached-advance_all m =
    let none_left : m.cursize - (m.readcount + (m.cursize - m.readcount)) ≡ 0 = omega arith in
    ap (λ k. take k (drop (m.readcount + (m.cursize - m.readcount)) m.buf)) none_left

cached-advance :
    (m : Msg) (n : ℕ) → n ≤ m.cursize - m.readcount → cached (advance m n) ≡ drop n (cached m)
unfolding advance
cached-advance m n h =
    rw
      (
        drop-take n (m.cursize - m.readcount) (m.cursize - (m.readcount + n))
            (drop m.readcount m.buf) (omega arith),
        drop-drop m.readcount n (m.readcount + n) m.buf refl,
      )
      refl

-- A read takes the first `len` bytes of what can be read, all where there are fewer, and leaves
-- the others, in the kept rest and the fragments before the same end of the window; if the fragments
-- that came are whole and the kept rest has its storage.
pub receive-takes :
    (ch : Chan) (len : ℕ)
    → ((j : ℕ)
        → ch.rxwindow.sequence ≤ j
        → j < get_acknowledge ch.rxwindow
        → IsWhole (slot ch.rxwindow.fragments ch.rxwindow.bufferlen j))
    → length ch.rxwindow.fragmentbuffer.buf ≡ max_fragment_size
    → ch.rxwindow.fragmentbuffer.cursize ≤ max_fragment_size
    → let rx = ch.rxwindow in
      let r = receive ch len in
      let rx' = r.1.rxwindow in
      (r.0 ≡ take len (readable rx))
      × (cached rx'.fragmentbuffer
            ++ window_bytes rx (get_acknowledge rx - rx'.sequence) rx'.sequence
          ≡ drop len (readable rx))
unfolding receive advance
receive-takes ch len w e h =
    let rx = ch.rxwindow in
    let m = rx.fragmentbuffer in
    let size = m.cursize - m.readcount in
    let n = get_acknowledge rx - rx.sequence in
    let ends : rx.sequence + n ≡ get_acknowledge rx = omega (arith, get_acknowledge-ge rx) in
    let all = window_bytes rx n rx.sequence in
    let full = length-cached m (omega arith) in
    let whole : (j : ℕ)
        → rx.sequence ≤ j
        → j < rx.sequence + n
        → IsWhole (slot rx.fragments rx.bufferlen j) =
      λ j h b. w j h (omega (arith, ends)) in
    elim (Bool-cases (ltb size len)) [
      | inl more ↦
          let (same, rest) =
            gather-Gathered rx n rx.sequence (len - size) (advance m size) whole e
              (inr (cached-advance_all m)) in
          rw more (
            ap (λ l. cached m ++ l) same
                ∙ sym (take-append_ge (len - size) len (cached m) all (ground (arith, full))),
            (rw ends at rest)
                ∙ rw (cached-advance_all m)
                    (sym (drop-append_ge (len - size) len (cached m) all (ground (arith, full)))),
          )
      | inr enough ↦
          let (same, rest) =
            gather-Gathered rx n rx.sequence 0 (advance m len) whole e (inl refl) in
          let same_len : len - len ≡ 0 = omega arith in
          let enough' = ltb→le size len enough in
          rw (enough, same_len)
            (
              ap (λ l. take len (drop m.readcount m.buf) ++ l) same
                  ∙ rw append-nil (
                      sym (
                        take-append_le len (cached m) all (omega (arith, full))
                        ∙ take-take len size (drop m.readcount m.buf) enough')),
              (rw ends at rest)
                  ∙ rw (cached-advance m len enough')
                      (sym (drop-append_le len (cached m) all (omega (arith, full)))),
            )
    ]
