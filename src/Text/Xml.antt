-- ===== src/Text/Xml.antt =====
-- `XML_Escape` of src/qshared.c.
use co_d4x_client_pub.Common.{
  ℕ, zero, suc, ◌+◌, ◌*◌, ◌≤◌, ◌<◌, ◌≡◌, refl, ap, ◌∙◌, Bool, true, Bool-cases, inl, inr, Option,
  none, some, List, [], ◌∷◌, ◌++◌, ltb, leb, ◌==◌, ◌||◌, if◌then◌else◌, length, length-append,
  arith, All,
}

abbrev pub escape_char : ℕ → List ℕ
escape_char c =
    if c == b'<'
    then b'&' ∷ b'l' ∷ b't' ∷ b';' ∷ []
    else if c == b'>'
    then b'&' ∷ b'g' ∷ b't' ∷ b';' ∷ []
    else if c == b'&'
    then b'&' ∷ b'a' ∷ b'm' ∷ b'p' ∷ b';' ∷ []
    else if c == b'"'
    then b'&' ∷ b'q' ∷ b'u' ∷ b'o' ∷ b't' ∷ b';' ∷ []
    else if c == b'\''
    then b'&' ∷ b'a' ∷ b'p' ∷ b'o' ∷ b's' ∷ b';' ∷ []
    else if leb b' ' c
    then c ∷ []
    else []

-- The loop, which ends where fewer than eight bytes of the buffer are left behind `pos`.
abbrev pub escape_from : ℕ → ℕ → List ℕ → List ℕ
escape_from pos size [] = []
escape_from pos size (c ∷ s) =
    let part = escape_char c in
    let rest = escape_from (pos + length part) size s in
    if ltb (pos + 7) size then part ++ rest else []

unfoldable pub escape : ℕ → List ℕ → List ℕ
escape size s = escape_from 0 size s

length-escape_char : (c : ℕ) → length (escape_char c) ≤ 6
length-escape_char c = ground arith

length-escape_from :
    (pos size : ℕ) (s : List ℕ) → pos + 1 < size → pos + length (escape_from pos size s) + 1 < size
length-escape_from pos size [] h = omega arith
length-escape_from pos size (c ∷ s) h = elim (Bool-cases (ltb (pos + 7) size)) [
  | inr full ↦ rw full (omega arith)
  | inl room ↦
      let p = length (escape_char c) in
      let six = length-escape_char c in
      let rest = length-escape_from (pos + p) size s (ground (arith, room, six)) in
      rw room (omega (arith, rest, length-append (escape_char c) (escape_from (pos + p) size s)))
]

-- A reader of such a text: the five entities of XML, each by its whole name with the semicolon. An
-- ampersand that begins none of them, and a bare `<`, `>` or quote, are no text.
abbrev pub after : List ℕ → List ℕ → Option (List ℕ)
after [] s = some s
after (a ∷ p) [] = none
after (a ∷ p) (c ∷ s) = if a == c then after p s else none

abbrev pub with_first : ℕ → Option (List ℕ) → Option (List ℕ)
with_first c none = none
with_first c (some s) = some (c ∷ s)

abbrev pub entities : List (ℕ × List ℕ)
entities =
    (b'<', b'l' ∷ b't' ∷ b';' ∷ [])
    ∷ (b'>', b'g' ∷ b't' ∷ b';' ∷ [])
    ∷ (b'&', b'a' ∷ b'm' ∷ b'p' ∷ b';' ∷ [])
    ∷ (b'"', b'q' ∷ b'u' ∷ b'o' ∷ b't' ∷ b';' ∷ [])
    ∷ (b'\'', b'a' ∷ b'p' ∷ b'o' ∷ b's' ∷ b';' ∷ [])
    ∷ []

abbrev pub entity : (List ℕ → Option (List ℕ)) → List (ℕ × List ℕ) → List ℕ → Option (List ℕ)
entity more [] s = none
entity more (e ∷ es) s =
    let found = after e.1 s in
    let others = entity more es s in
    elim found [ none ↦ others | some rest ↦ with_first e.0 (more rest) ]

abbrev pub is_bare : ℕ → Bool
is_bare c = c == b'<' || c == b'>' || c == b'"' || c == b'\''

abbrev pub unescape : ℕ → List ℕ → Option (List ℕ)
unescape zero [] = some []
unescape zero (c ∷ s) = none
unescape (suc n) [] = some []
unescape (suc n) (c ∷ s) =
    let plain = with_first c (unescape n s) in
    if c == b'&' then entity (unescape n) entities s else if is_bare c then none else plain

unescape-escape_char :
    (n c : ℕ) (r : List ℕ)
    → b' ' ≤ c
    → unescape (suc n) (escape_char c ++ r) ≡ with_first c (unescape n r)
unescape-escape_char n c r h = ground arith

unescape-escape_from :
    (pos size : ℕ) (s : List ℕ)
    → All (λ c. b' ' ≤ c) s
    → pos + 6 * length s + 1 < size
    → unescape (length s) (escape_from pos size s) ≡ some s
unescape-escape_from pos size [] p h = refl
unescape-escape_from pos size (c ∷ s) (pc, p) h =
    let k = length (escape_char c) in
    let six = length-escape_char c in
    let room : ltb (pos + 7) size ≡ true = ground arith in
    rw room (
      unescape-escape_char (length s) c (escape_from (pos + k) size s) pc
      ∙ ap (with_first c) (unescape-escape_from (pos + k) size s p (omega arith)))

-- `XML_Escape` leaves of its buffer, of two bytes or more, at least one byte behind the zero byte,
-- whatever the text is.
pub length-escape : (size : ℕ) (s : List ℕ) → 1 < size → length (escape size s) + 1 < size
unfolding escape
length-escape size s h = omega (arith, length-escape_from 0 size s (omega arith))

-- What `XML_Escape` writes of a text without control characters a reader of XML's five entities, with
-- their whole names, reads as the text again, if the buffer has six bytes for each character and two
-- more; no `<`, `>` or quote stands bare in it.
pub unescape-escape :
    (size : ℕ) (s : List ℕ)
    → All (λ c. b' ' ≤ c) s
    → 6 * length s + 1 < size
    → unescape (length s) (escape size s) ≡ some s
unfolding escape
unescape-escape size s p room = unescape-escape_from 0 size s p (omega arith)
