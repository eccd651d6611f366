-- ===== src/Msg/Text.antt =====
-- Strings in messages: `MSG_WriteString`, `MSG_ReadString` and `MSG_ReadStringLine`.
use co_d4x_client_pub.Common.{
  All-drop, ℕ, zero, suc, ◌+◌, ◌-◌, ◌≤◌, ◌<◌, ◌≡◌, ◌≢◌, ap, ◌∙◌, arith, false, List, [], ◌∷◌, ◌++◌,
  map, length, length-append, take, drop, All, some, length-drop, length-take, minus_one,
}
use native.Mathlib.Decide.{dec_lt}
use native.Mathlib.Nat.{add-zero}
use co_d4x_client_pub.Common.{take-all, drop-append_left, lt→leb}
use co_d4x_client_pub.Msg.{Msg, write_data, write_text, write_string, max_string_chars}
use co_d4x_client_pub.Msg.Read.{
  advance, overflow, read_byte, ends, translate, read_text, skip_text, read_string,
}
use co_d4x_client_pub.Msg.Stream.{
  written, unread, Appends, HasRoom, IsByte, write_data-Appends, read_byte-Takes,
  unread-nil-past_end,
}

-- A byte of a text: it does not end it.
abbrev pub IsTextByte : ℕ → Type 0
IsTextByte c = (c ≢ 0) × (c < 256)

-- What a reader of a text takes from a buffer of `room + 1` bytes in one run: the text while it
-- fits, and the end where it is reached.
read_text-fits :
    (s : List ℕ) (room : ℕ) (m : Msg) (rest : List ℕ)
    → All IsTextByte s
    → unread m ≡ s ++ 0 ∷ rest
    → length s ≤ room
    → (read_text ends room m ≡ (map translate s, 0, advance (length s + 1) m))
      × (unread (advance (length s + 1) m) ≡ rest)
unfolding read_text
read_text-fits [] zero m rest t e h = ground (arith, read_byte-Takes m 0 rest e)
read_text-fits [] (suc room) m rest t e h = ground (arith, read_byte-Takes m 0 rest e)
read_text-fits (c ∷ s) zero m rest t e h = absurd (omega arith)
read_text-fits (c ∷ s) (suc room) m rest (t, ts) e h =
    ground
      (arith, read_byte-Takes m c (s ++ 0 ∷ rest) e, read_text-fits s room (advance 1 m) rest ts)

-- A text that is longer than the room: the loop stops at a byte that does not end it.
record Cut (s : List ℕ) (room : ℕ) (m : Msg) (rest : List ℕ) (r : List ℕ × ℕ × Msg) : Type 0 where
  text : r.0 ≡ map translate (take (suc room) s)
  goes_on : ends r.1 ≡ false
  behind : r.2 ≡ advance (suc room) m
  left : unread (advance (suc room) m) ≡ drop (suc room) s ++ 0 ∷ rest

read_text-Cut :
    (s : List ℕ) (room : ℕ) (m : Msg) (rest : List ℕ)
    → All IsTextByte s
    → unread m ≡ s ++ 0 ∷ rest
    → room < length s
    → Cut s room m rest (read_text ends room m)
unfolding read_text
read_text-Cut [] room m rest t e h = absurd (omega arith)
read_text-Cut (c ∷ s) zero m rest (t, ts) e h =
    ground (arith, read_byte-Takes m c (s ++ 0 ∷ rest) e)
read_text-Cut (c ∷ s) (suc room) m rest (t, ts) e h =
    ground
      (arith, read_byte-Takes m c (s ++ 0 ∷ rest) e, read_text-Cut s room (advance 1 m) rest ts)

skip_text-advance :
    (s : List ℕ) (fuel : ℕ) (m : Msg) (rest : List ℕ)
    → All IsTextByte s
    → unread m ≡ s ++ 0 ∷ rest
    → length s < fuel
    → (skip_text fuel m ≡ advance (length s + 1) m) × (unread (advance (length s + 1) m) ≡ rest)
unfolding skip_text
skip_text-advance s zero m rest t e h = absurd (omega arith)
skip_text-advance [] (suc fuel) m rest t e h = ground (arith, read_byte-Takes m 0 rest e)
skip_text-advance (c ∷ s) (suc fuel) m rest (t, ts) e h =
    ground
      (arith, read_byte-Takes m c (s ++ 0 ∷ rest) e, skip_text-advance s fuel (advance 1 m) rest ts)

length-unread : (m : Msg) → length (unread m) ≤ m.cursize
length-unread m = omega (arith, length-drop m.readcount (written m), length-take m.cursize m.buf)

-- `MSG_ReadString` on a message where a text and its end are next: the buffer of `len` bytes gets
-- as much of the text as fits beside the end, with each `%` as a `.`, and whether it fits or not,
-- reading goes on behind the end of the text.
pub read_string_lem :
    (s : List ℕ) (len : ℕ) (m : Msg) (rest : List ℕ)
    → 2 ≤ len
    → All IsTextByte s
    → unread m ≡ s ++ 0 ∷ rest
    → (read_string m len ≡ (map translate (take (len - 1) s), advance (length s + 1) m))
      × (unread (advance (length s + 1) m) ≡ rest)
unfolding read_string
read_string_lem s len m rest two t e = elim (dec_lt (len - 2) (length s)) [
  | yes cut ↦
      let c = read_text-Cut s (len - 2) m rest t e cut in
      let tail = drop (suc (len - 2)) s in
      let m' = advance (suc (len - 2)) m in
      ground (
        arith,
        c,
        skip_text-advance tail (m.cursize + 1) m' rest (All-drop IsTextByte (suc (len - 2)) s t)
            c.left,
        ap length c.left,
        length-unread m',
        length-append tail (0 ∷ rest),
        length-drop (suc (len - 2)) s,
      )
  | no fits ↦ ground (arith, read_text-fits s (len - 2) m rest t e, take-all (len - 1) s)
]

read_text-unterminated :
    (s : List ℕ) (room : ℕ) (m : Msg)
    → All IsTextByte s
    → unread m ≡ s
    → m.cursize ≤ length m.buf
    → length s ≤ room
    → read_text ends room m ≡ (map translate s, minus_one, overflow (advance (length s) m))
unfolding read_text read_byte
read_text-unterminated [] zero m t e k h =
    ground (arith, unread-nil-past_end 1 m e k, add-zero m.readcount)
read_text-unterminated [] (suc room) m t e k h =
    ground (arith, unread-nil-past_end 1 m e k, add-zero m.readcount)
read_text-unterminated (c ∷ s) zero m t e k h = absurd (omega arith)
read_text-unterminated (c ∷ s) (suc room) m (t, ts) e k h =
    let (one, after) = read_byte-Takes m c s e in
    let ih = read_text-unterminated s room (advance 1 m) ts after k (omega arith) in
    ground (arith, one, ih)

-- Where the message ends inside a text without zero bytes, what there is of it is returned, and the
-- overflow flag is set, if the caller's buffer has at least two bytes more than that.
pub read_string_unterminated :
    (s : List ℕ) (len : ℕ) (m : Msg)
    → length s + 2 ≤ len
    → All IsTextByte s
    → unread m ≡ s
    → m.cursize ≤ length m.buf
    → read_string m len ≡ (map translate s, overflow (advance (length s) m))
unfolding read_string
read_string_unterminated s len m h t e k =
    ground (arith, read_text-unterminated s (len - 2) m t e k)

All-text_IsByte : (s : List ℕ) → All IsTextByte s → All IsByte (s ++ 0 ∷ [])
All-text_IsByte [] t = omega arith
All-text_IsByte (c ∷ s) (t, ts) = (t.1, All-text_IsByte s ts)

-- Appended bytes are what is unread, if all before them was read.
unread_of_Appends :
    (m m' : Msg) (bs : List ℕ)
    → Appends m m' bs
    → m.cursize ≤ length m.buf
    → m.readcount ≡ m.cursize
    → unread m' ≡ bs
unread_of_Appends m m' bs a h e =
    ap (drop m'.readcount) a.content
    ∙ drop-append_left m'.readcount (written m) bs (omega (arith, a, length-take m.cursize m.buf))

-- What `MSG_WriteString` puts behind a message that has been read, `MSG_ReadString` gives back with
-- each `%` as a `.`, if the text is shorter than `MAX_STRING_CHARS`, fits the message with its end,
-- and is read into a buffer that holds both.
pub read_string-write_string :
    (s : List ℕ) (m : Msg) (len : ℕ)
    → All IsTextByte s
    → length s < max_string_chars
    → HasRoom (length s + 1) m
    → m.readcount ≡ m.cursize
    → length s + 2 ≤ len
    → (read_string (write_string m (some s)) len).0 ≡ map translate s
unfolding write_string write_text
read_string-write_string s m len t h room e k =
    let a =
      write_data-Appends (s ++ 0 ∷ []) m (All-text_IsByte s t)
        (omega (arith, length-append s (0 ∷ []))) in
    let r =
      read_string_lem s len (write_data m (s ++ 0 ∷ [])) [] (omega arith) t
        (unread_of_Appends m (write_data m (s ++ 0 ∷ [])) (s ++ 0 ∷ []) a (omega arith) e) in
    rw (lt→leb (length s) max_string_chars h, r.0)
      (ap (map translate) (take-all (len - 1) s (omega arith)))
