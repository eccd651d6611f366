-- ===== src/Http/Sent.antt =====
-- What the calls of src/httpftp.c leave of the data that is to be sent.
use co_d4x_client_pub.Common.{
  ℕ, zero, suc, ◌+◌, ◌-◌, ◌≤◌, ◌<◌, ◌≡◌, refl, sym, ap, ◌∙◌, arith, inl, inr, false, ◌||◌, Option,
  some, List, [], ◌∷◌, ◌++◌, append_assoc, append-nil, length, take, drop, put_bytes, ltb, slt,
  ◌==◌, minus_one, All, Bool-cases, subst, length-append, ltb→le, length-take, length-drop,
  take-put_bytes, length-put_bytes, ◌^◌,
}
use co_d4x_client_pub.Msg.{Msg, write_data}
use co_d4x_client_pub.Msg.Stream.{written, HasRoom, IsByte, write_data-Appends}
use co_d4x_client_pub.Http.Send.{
  Sender, with_data, with_msg, add_data, Answer, taken, answered, IsInt, send_data,
}

-- All that was ever added: what the socket has taken, and what still waits.
abbrev pub total : Sender → List ℕ
total s = s.wire ++ written s.sendmsg

-- What waits lies in its array.
pub record IsSound (s : Sender) : Type 0 where
  pub inside : s.sendmsg.cursize ≤ s.sendmsg.maxsize
  pub array : s.sendmsg.maxsize ≤ length s.sendmsg.buf

take-plus : (n c : ℕ) (xs : List ℕ) → n ≤ c → take n xs ++ take (c - n) (drop n xs) ≡ take c xs
take-plus zero c xs le = ap (λ k. take k xs) (omega arith)
take-plus (suc n) zero xs le = absurd (omega arith)
take-plus (suc n) (suc c) [] le = take-nil (suc c - suc n)
  where
    take-nil : (k : ℕ) → take {A = ℕ} k [] ≡ []
    take-nil zero = refl
    take-nil (suc k) = refl
take-plus (suc n) (suc c) (x ∷ xs) le =
    let less : suc c - suc n ≡ c - n = omega arith in
    rw less (ap (λ l. x ∷ l) (take-plus n c xs (omega arith)))

taken-total :
    (s : Sender) (n : ℕ)
    → IsSound s
    → n ≤ s.sendmsg.cursize
    → IsSound (taken s n) × (total (taken s n) ≡ total s)
taken-total s n h le =
    let m = s.sendmsg in
    let c = m.cursize in
    let rest = take (c - n) (drop n m.buf) in
    let in_buf : c ≤ length m.buf = omega (arith, h.inside, h.array) in
    let size : length rest ≡ c - n =
      omega (arith, length-take (c - n) (drop n m.buf), length-drop n m.buf) in
    let moved : take (c - n) (put_bytes m.buf 0 rest) ≡ rest =
      take-put_bytes rest m.buf 0 (c - n) (omega (arith, size)) (omega (arith, size)) in
    let parts : take n m.buf ++ rest ≡ written m = take-plus n c m.buf le in
    (
      record {
        inside = omega (arith, h.inside);
        array = omega (arith, h.array, length-put_bytes rest m.buf 0);
      },
      ap (λ l. (s.wire ++ take n m.buf) ++ l) moved
          ∙ append_assoc s.wire (take n m.buf) rest
          ∙ ap (λ l. s.wire ++ l) parts,
    )

within : (n c : ℕ) → n < 2 ^ 32 → c < 2 ^ 31 → (slt n 0 || slt c n) ≡ false → n ≤ c
within n c w small good = ground (arith, good)

send_data-total :
    (s : Sender) (answer : Answer)
    → IsSound s
    → s.sendmsg.cursize < 2 ^ 31
    → IsInt answer
    → IsSound (send_data s answer).1 × (total (send_data s answer).1 ≡ total s)
unfolding send_data
send_data-total s answer h small int = elim (Bool-cases (s.socket == minus_one)) [
  | inl e ↦ rw e (h, refl)
  | inr e ↦ elim (Bool-cases (slt s.sendmsg.cursize 1)) [
    | inl none_left ↦ rw (e, none_left) (h, refl)
    | inr some_left ↦ rw (e, some_left) (go answer int)
  ]
]
  where
    go : (a : Answer) → IsInt a → IsSound (answered s a).1 × (total (answered s a).1 ≡ total s)
    go Answer.want_write w = (h, refl)
    go (Answer.bytes n) w = elim (Bool-cases (slt n 0 || slt s.sendmsg.cursize n)) [
      | inl bad ↦ rw bad (record { inside = h.inside; array = h.array }, refl)
      | inr good ↦ elim (Bool-cases (n == 0)) [
        | inl zero_sent ↦ rw (good, zero_sent) (h, refl)
        | inr some_sent ↦
            rw (good, some_sent) (taken-total s n h (within n s.sendmsg.cursize w small good))
      ]
    ]

waits :
    (s : Sender)
    → IsSound s
    → (more : List ℕ) → length (total s ++ more) < 2 ^ 31
    → s.sendmsg.cursize < 2 ^ 31
waits s h more small = omega (
  arith,
  length-append (total s) more,
  length-append s.wire (written s.sendmsg),
  length-take s.sendmsg.cursize s.sendmsg.buf,
  h.inside,
  h.array,
)

-- Calls of `FT_AddData`, and of `FT_SendData` with what the network answers.
pub data Call : Type 0 where
  add : List ℕ → Call
  send : Answer → Call

abbrev pub IsCall : Call → Type 0
IsCall (Call.add piece) = All IsByte piece
IsCall (Call.send answer) = IsInt answer

abbrev pub added : List Call → List ℕ
added [] = []
added (Call.add piece ∷ cs) = piece ++ added cs
added (Call.send answer ∷ cs) = added cs

module _ (malloc : ℕ → Option (List ℕ)) where
  abbrev pub run : List Call → Sender → Sender
  run [] s = s
  run (Call.add piece ∷ cs) s = run cs (add_data malloc s piece)
  run (Call.send answer ∷ cs) s = run cs (send_data s answer).1

  -- An allocation succeeds, and yields an array of the size that it is asked for.
  abbrev pub Allocates : Type 0
  Allocates = (n : ℕ) → (b : List ℕ) × (malloc n ≡ some b) × (length b ≡ n)

  -- The message as it is written to, when there was room or room was made.
  put-total :
      (s : Sender) (m : Msg) (piece : List ℕ)
      → HasRoom (length piece) m
      → written m ≡ written s.sendmsg
      → All IsByte piece
      → IsSound (with_msg s (write_data m piece))
        × (total (with_msg s (write_data m piece)) ≡ total s ++ piece)
  put-total s m piece room same b =
      let a = write_data-Appends piece m b room in
      let (fits, holds) = room in
      (
        record {
          inside = omega (arith, a.size, a.limit, fits);
          array = omega (arith, a.limit, a.storage, holds);
        },
        ap (λ l. s.wire ++ l) (a.content ∙ ap (λ l. l ++ piece) same)
            ∙ sym (append_assoc s.wire (written s.sendmsg) piece),
      )

  add_data-total :
      (s : Sender) (piece : List ℕ)
      → Allocates
      → IsSound s
      → All IsByte piece
      → IsSound (add_data malloc s piece) × (total (add_data malloc s piece) ≡ total s ++ piece)
  unfolding add_data
  add_data-total s piece alloc h b =
      let m = s.sendmsg in
      let newsize = m.cursize + length piece in
      let inside = h.inside in
      let array = h.array in
      elim (Bool-cases (ltb m.maxsize newsize)) [
        | inr room ↦ rw room (put-total s m piece (ltb→le m.maxsize newsize room, array) refl b)
        | inl full ↦
            let (newbuf, e, size) = alloc newsize in
            let kept : length (written m) ≡ m.cursize =
              omega (arith, length-take m.cursize m.buf, inside, array) in
            let copied = put_bytes newbuf 0 (written m) in
            let same : take m.cursize copied ≡ written m =
              take-put_bytes (written m) newbuf 0 m.cursize (omega (arith, kept, size))
                (omega (arith, kept)) in
            rw (full, e)
              (put-total s (with_data m copied newsize m.cursize) piece
                (omega arith, omega (arith, size, length-put_bytes (written m) newbuf 0)) same b)
      ]

  -- Whatever calls of FT_AddData and FT_SendData there are, and whatever the network answers, what the
  -- socket has taken with what still waits is the data that was added, in its order, behind what was
  -- there before. What waits lies in its array, allocations succeed, what is
  -- added is bytes, and all of it is less than 2^31 of them.
  pub run-total :
      (cs : List Call) (s : Sender)
      → Allocates
      → IsSound s
      → All IsCall cs
      → length (total s ++ added cs) < 2 ^ 31
      → total (run cs s) ≡ total s ++ added cs
  run-total [] s alloc h calls small = sym (append-nil (total s))
  run-total (Call.add piece ∷ cs) s alloc h (call, calls) small =
      let (sound, more) = add_data-total s piece alloc h call in
      let split : total (add_data malloc s piece) ++ added cs ≡ total s ++ (piece ++ added cs) =
        ap (λ l. l ++ added cs) more ∙ append_assoc (total s) piece (added cs) in
      run-total cs (add_data malloc s piece) alloc sound calls
        (subst (λ l. length l < 2 ^ 31) (sym split) small)
      ∙ split
  run-total (Call.send answer ∷ cs) s alloc h (call, calls) small =
      let waiting : s.sendmsg.cursize < 2 ^ 31 = waits s h (added cs) small in
      let (sound, same) = send_data-total s answer h waiting call in
      let split = ap (λ l. l ++ added cs) same in
      run-total cs (send_data s answer).1 alloc sound calls
        (subst (λ l. length l < 2 ^ 31) (sym split) small)
      ∙ split
