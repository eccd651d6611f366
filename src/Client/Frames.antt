-- ===== src/Client/Frames.antt =====
-- The messages on the reliable stream in `CL_ReceiveReliableMessages` of src/cl_main.c.
use co_d4x_client_pub.Common.{
  ℕ, zero, suc, ◌+◌, ◌≤◌, ◌≡◌, refl, sym, ap, ◌∙◌, true, false, List, [], ◌∷◌, ◌++◌, length, take,
  drop, le_bytes, slt, add32, sub32, arith, All, map, length-append, from_le-le_bytes, append_assoc,
  append-nil, take-append_le, drop-append_left, take-all,
}
use co_d4x_client_pub.Client.{
  max_message, message_size, Received, execute, with_size, round, receive_loop,
}

-- A message on the stream.
abbrev pub frame : List ℕ → List ℕ
frame body = le_bytes 4 (length body) ++ body

abbrev pub frames : List (List ℕ) → List ℕ
frames [] = []
frames (body ∷ bodies) = frame body ++ frames bodies

abbrev pub IsShort : List ℕ → Type 0
IsShort body = length body + 4 ≤ max_message

-- A stream in a good state: what can be read of it, of which a read takes the front, as much as there
-- is. What is left can be read, and maybe more behind it.
pub record Stream {S : Type 0} (receive : S → ℕ → List ℕ × S) : Type 1 where
  pub IsGood : S → Type 0
  pub readable : S → List ℕ
  pub later : S → ℕ → List ℕ
  pub taken : (s : S) (n : ℕ) → IsGood s → (receive s n).0 ≡ take n (readable s)
  pub left :
      (s : S) (n : ℕ) → IsGood s → readable (receive s n).1 ≡ drop n (readable s) ++ later s n
  pub good : (s : S) (n : ℕ) → IsGood s → IsGood (receive s n).1

take-frame : (body rest : List ℕ) → take 4 (frame body ++ rest) ≡ le_bytes 4 (length body)
take-frame body rest = refl

drop-frame : (body rest : List ℕ) → drop 4 (frame body ++ rest) ≡ body ++ rest
drop-frame body rest = refl

size-frame : (body : List ℕ) → IsShort body → message_size (le_bytes 4 (length body)) ≡ length body
size-frame body h = from_le-le_bytes 4 (length body) (omega arith)

module _ {S : Type 0} (receive : S → ℕ → List ℕ × S) (stream : Stream receive) where
  -- A message that was executed, with the stream behind it.
  pub record Executes (r : Received S) (more : S → Received S) (message rest : List ℕ)
      : Type 0 where
    pub next : S
    pub executed : r ≡ execute message (more next)
    pub good : stream.IsGood next
    pub later : List ℕ
    pub left : stream.readable next ≡ rest ++ later

  with_size-frame :
      (more : S → Received S) (held body rest : List ℕ) (s : S)
      → length held ≡ 4
      → IsShort body
      → stream.IsGood s
      → stream.readable s ≡ body ++ rest
      → Executes (with_size receive more held s (length body)) more (held ++ body) rest
  with_size-frame more held [] rest s four short g e =
      let zero_more : slt (length held) (add32 0 4) ≡ false = rw four refl in
      record {
        next = s;
        executed = rw zero_more (ap (λ (m : List ℕ). execute m (more s)) (sym (append-nil held)));
        good = g;
        later = [];
        left = e ∙ sym (append-nil rest);
      }
  with_size-frame more held (c ∷ body) rest s four short g e =
      let size = length (c ∷ body) in
      let positive : slt size 0 ≡ false = ground arith in
      let fits : slt max_message (add32 size 4) ≡ false = ground arith in
      let incomplete : slt (length held) (add32 size 4) ≡ true = ground arith in
      let missing : sub32 (add32 size 4) (length held) ≡ size = ground arith in
      let bytes : (receive s size).0 ≡ c ∷ body =
        stream.taken s size g
        ∙ rw e (
            take-append_le size (c ∷ body) rest (omega arith)
            ∙ take-all size (c ∷ body) (omega arith)) in
      let whole : slt (length (held ++ c ∷ body)) (add32 size 4) ≡ false =
        ground (arith, length-append held (c ∷ body)) in
      record {
        next = (receive s size).1;
        executed = rw (positive, fits, incomplete, missing, bytes, whole) refl;
        good = stream.good s size g;
        later = stream.later s size;
        left =
            stream.left s size g
            ∙ ap (λ t. t ++ stream.later s size)
                (rw e (drop-append_left size (c ∷ body) rest refl));
      }

  -- A round at the beginning of a message.
  round-frame :
      (more : S → Received S) (body rest : List ℕ) (s : S)
      → IsShort body
      → stream.IsGood s
      → stream.readable s ≡ frame body ++ rest
      → Executes (round receive more [] s) more (frame body) rest
  round-frame more body rest s short g e =
      let header : (receive s 4).0 ≡ le_bytes 4 (length body) = stream.taken s 4 g ∙ rw e refl in
      let behind : stream.readable (receive s 4).1 ≡ body ++ (rest ++ stream.later s 4) =
        stream.left s 4 g ∙ rw e (append_assoc body rest (stream.later s 4)) in
      let x =
        with_size-frame more (le_bytes 4 (length body)) body (rest ++ stream.later s 4)
          (receive s 4).1 refl short (stream.good s 4 g) behind in
      record {
        next = x.next;
        executed = rw (header, size-frame body short) x.executed;
        good = x.good;
        later = stream.later s 4 ++ x.later;
        left = x.left ∙ append_assoc rest (stream.later s 4) x.later;
      }

  -- Where whole messages stand at the front of a stream in a good state, each of at most the size of
  -- the storage with its length, the loop of `CL_ReceiveReliableMessages` executes all of them
  -- first, in order. A round for each is enough, whatever stands behind them.
  pub receive_loop-frames :
      (bodies : List (List ℕ)) (n : ℕ) (rest : List ℕ) (s : S)
      → All IsShort bodies
      → length bodies ≤ n
      → stream.IsGood s
      → stream.readable s ≡ frames bodies ++ rest
      → (others : List (List ℕ)) × ((receive_loop receive n [] s).executed
          ≡ map frame bodies ++ others)
  receive_loop-frames [] n rest s p h g e = ((receive_loop receive n [] s).executed, refl)
  receive_loop-frames (body ∷ bodies) zero rest s p h g e = absurd (omega arith)
  receive_loop-frames (body ∷ bodies) (suc n) rest s (short, p) h g e =
      let x =
        round-frame (λ t. receive_loop receive n [] t) body (frames bodies ++ rest) s short g
          (e ∙ append_assoc (frame body) (frames bodies) rest) in
      let (others, messages) =
        receive_loop-frames bodies n (rest ++ x.later) x.next p (omega arith) x.good
          (x.left ∙ append_assoc (frames bodies) rest x.later) in
      (others, ap (λ (r : Received S). r.executed) x.executed ∙ ap (λ ms. frame body ∷ ms) messages)
