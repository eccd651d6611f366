-- ===== src/Http/Url.antt =====
-- The URL code of src/httpftp.c, read again.
use co_d4x_client_pub.Common.{
  ℕ, zero, suc, ◌+◌, ◌/◌, ◌%◌, ◌≤◌, ◌<◌, ◌≡◌, refl, ap, ◌∙◌, arith, inl, inr, Bool, true, false,
  ◌&&◌, ◌||◌, List, [], ◌∷◌, ◌++◌, length, length-append, All, ltb, ◌==◌, if◌then◌else◌, Bool-cases,
  all_below, all_below-lt, both, ==_iff, put_bytes, set,
}
use co_d4x_client_pub.Text.{same}
use co_d4x_client_pub.Text.Compare.{same-eq}
use co_d4x_client_pub.Http.{hex, strtol, encoded_char, is_escaped, encode_loop, decode_from}

-- A byte that `%X` prints with two digits.
abbrev pub IsCoded : ℕ → Type 0
IsCoded c = (0x10 ≤ c) × (c < 0x80)

abbrev pub encoded : Bool → ℕ → List ℕ
encoded forform c = if is_escaped forform c then b'%' ∷ hex (c / 16) ∷ hex (c % 16) ∷ [] else c ∷ []

abbrev pub encoded_text : Bool → List ℕ → List ℕ
encoded_text forform [] = []
encoded_text forform (c ∷ s) = encoded forform c ++ encoded_text forform s

-- The byte is printed with its two digits, and read from them.
is_read : ℕ → Bool
is_read c =
    let digits = hex (c / 16) ∷ hex (c % 16) ∷ [] in
    ltb c 0x10 || (same (encoded_char c) (b'%' ∷ digits ++ 0 ∷ []) && strtol digits == c)

all_read : all_below 0x80 is_read ≡ true
unfolding strtol is_read
all_read = refl

pub or_right : (a b : Bool) → (a || b) ≡ true → a ≡ false → b ≡ true
or_right true b h e = absurd (ground (arith, e))
or_right false b h e = h

read_back :
    (c : ℕ)
    → IsCoded c
    → (encoded_char c ≡ b'%' ∷ hex (c / 16) ∷ hex (c % 16) ∷ 0 ∷ [])
      × (strtol (hex (c / 16) ∷ hex (c % 16) ∷ []) ≡ c)
unfolding is_read
read_back c h =
    let (text, value) =
      both (same (encoded_char c) (b'%' ∷ hex (c / 16) ∷ hex (c % 16) ∷ 0 ∷ [])) _ (
        or_right (ltb c 0x10) _ (all_below-lt 0x80 is_read c all_read (omega arith))
          (ground arith)) in
    (same-eq _ _ text, (==_iff _ _).0 value)

decode-plain : (c : ℕ) (s : List ℕ) → (c == b'%') ≡ false → decode_from (c ∷ s) ≡ c ∷ decode_from s
unfolding decode_from
decode-plain c [] h = rw h refl
decode-plain c (d ∷ []) h = rw h refl
decode-plain c (d ∷ e ∷ s) h = rw h refl

decode-coded :
    (d e : ℕ) (s : List ℕ)
    → decode_from (b'%' ∷ d ∷ e ∷ s) ≡ strtol (d ∷ e ∷ []) % 256 ∷ decode_from s
unfolding decode_from
decode-coded d e s = refl

escaped-percent : (forform : Bool) (c : ℕ) → is_escaped forform c ≡ false → (c == b'%') ≡ false
escaped-percent forform c h = elim (Bool-cases (c == b'%')) [
  | inl e ↦
      let percent : c ≡ b'%' = (==_iff c b'%').0 e in
      let h' = rw percent at h in absurd (ground (arith, h'))
  | inr e ↦ e
]

pub decode-encoded :
    (forform : Bool) (s : List ℕ) → All IsCoded s → decode_from (encoded_text forform s) ≡ s
unfolding decode_from
decode-encoded forform [] h = refl
decode-encoded forform (c ∷ s) (hc, h) = elim (Bool-cases (is_escaped forform c)) [
  | inl e ↦
      let byte : strtol (hex (c / 16) ∷ hex (c % 16) ∷ []) % 256 ≡ c =
        omega (arith, (read_back c hc).1, hc) in
      rw (e, decode-coded, byte, decode-encoded forform s h) refl
  | inr e ↦
      rw (e, decode-plain c (encoded_text forform s) (escaped-percent forform c e))
        (ap (λ l. c ∷ l) (decode-encoded forform s h))
]

set_twice : (xs : List ℕ) (i a b : ℕ) → set (set xs i a) i b ≡ set xs i b
set_twice [] i a b = refl
set_twice (x ∷ xs) zero a b = refl
set_twice (x ∷ xs) (suc i) a b = ap (λ l. x ∷ l) (set_twice xs i a b)

-- A zero byte behind a text, and the text that follows.
pub put_bytes-over :
    (s t buf : List ℕ) (i j d : ℕ)
    → i + length s ≡ j
    → put_bytes (put_bytes buf i (s ++ 0 ∷ [])) j (t ++ d ∷ []) ≡ put_bytes buf i (s ++ t ++ d ∷ [])
put_bytes-over [] [] buf i j d e = let e' : i ≡ j = omega arith in rw (← e') (set_twice buf i 0 d)
put_bytes-over [] (c ∷ t) buf i j d e =
    let e' : i ≡ j = omega arith in
    rw (← e') (ap (λ b. put_bytes b (i + 1) (t ++ d ∷ [])) (set_twice buf i 0 c))
put_bytes-over (c ∷ s) t buf i j d e = put_bytes-over s t (set buf i c) (i + 1) j d (omega arith)

pub put_bytes-append :
    (s t buf : List ℕ) (i j : ℕ)
    → i + length s ≡ j
    → put_bytes (put_bytes buf i s) j t ≡ put_bytes buf i (s ++ t)
put_bytes-append [] t buf i j e = let e' : i ≡ j = omega arith in rw (← e') refl
put_bytes-append (c ∷ s) t buf i j e = put_bytes-append s t (set buf i c) (i + 1) j (omega arith)

escaped_round :
    (forform : Bool) (c : ℕ) (s buf : List ℕ) (base y len : ℕ)
    → ltb (y + 4) len ≡ true
    → is_escaped forform c ≡ true
    → encode_loop (c ∷ s) base y buf len forform
      ≡ encode_loop s base (y + 3) (put_bytes buf (base + y) (encoded_char c)) len forform
unfolding encode_loop
escaped_round forform c s buf base y len room e = rw (room, e) refl

plain_round :
    (forform : Bool) (c : ℕ) (s buf : List ℕ) (base y len : ℕ)
    → ltb (y + 4) len ≡ true
    → is_escaped forform c ≡ false
    → encode_loop (c ∷ s) base y buf len forform
      ≡ encode_loop s base (y + 1) (set buf (base + y) c) len forform
unfolding encode_loop
plain_round forform c s buf base y len room e = rw (room, e) refl

pub encode_loop-encoded :
    (forform : Bool) (s buf : List ℕ) (base y len : ℕ)
    → All IsCoded s
    → y + length (encoded_text forform s) + 4 ≤ len
    → encode_loop s base y buf len forform ≡ (
      y + length (encoded_text forform s),
      put_bytes buf (base + y) (encoded_text forform s ++ 0 ∷ []),
    )
unfolding encode_loop
encode_loop-encoded forform [] buf base y len h room = let z : y + 0 ≡ y = omega arith in rw z refl
encode_loop-encoded forform (c ∷ s) buf base y len (hc, h) room =
    let rest = encoded_text forform s in
    let size = length-append (encoded forform c) rest in
    elim (Bool-cases (is_escaped forform c)) [
      | inl e ↦
          let three : encoded forform c ≡ b'%' ∷ hex (c / 16) ∷ hex (c % 16) ∷ [] =
            rw (e, encoded) refl in
          let size' : length (encoded forform c ++ rest) ≡ 3 + length rest = size ∙ rw three refl in
          let fits : ltb (y + 4) len ≡ true = ground (arith, room, size') in
          let next : base + (y + 3) ≡ base + y + 3 = omega arith in
          let end : y + 3 + length rest ≡ y + length (encoded forform c ++ rest) =
            omega (arith, size') in
          escaped_round forform c s buf base y len fits e
          ∙ encode_loop-encoded forform s (put_bytes buf (base + y) (encoded_char c)) base (y + 3)
              len h (omega (arith, room, size'))
          ∙ rw (end, next, (read_back c hc).0, three)
              (ap (λ b. (y + suc (suc (suc (length rest))), b))
                (put_bytes-over (b'%' ∷ hex (c / 16) ∷ hex (c % 16) ∷ []) rest buf (base + y)
                  (base + y + 3) 0 refl))
      | inr e ↦
          let one : encoded forform c ≡ c ∷ [] = rw (e, encoded) refl in
          let size' : length (encoded forform c ++ rest) ≡ 1 + length rest = size ∙ rw one refl in
          let fits : ltb (y + 4) len ≡ true = ground (arith, room, size') in
          let next : base + (y + 1) ≡ base + y + 1 = omega arith in
          let end : y + 1 + length rest ≡ y + length (encoded forform c ++ rest) =
            omega (arith, size') in
          plain_round forform c s buf base y len fits e
          ∙ encode_loop-encoded forform s (set buf (base + y) c) base (y + 1) len h
              (omega (arith, room, size'))
          ∙ rw (end, next, one) refl
    ]
