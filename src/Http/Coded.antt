-- ===== src/Http/Coded.antt =====
-- What stands in the code of a text of src/httpftp.c, and what it is read as.
use co_d4x_client_pub.Common.{
  ℕ, ◌+◌, ◌*◌, ◌/◌, ◌%◌, ◌≤◌, ◌<◌, ◌≡◌, refl, ap, ◌∙◌, arith, inl, inr, Bool, true, false, not,
  ◌&&◌, ◌||◌, List, [], ◌∷◌, ◌++◌, length, length-append, All, ltb, ◌==◌, Bool-cases, all_below,
  all_below-lt, both, put_bytes,
}
use co_d4x_client_pub.Text.{c_string}
use co_d4x_client_pub.Text.Compare.{IsChar}
use co_d4x_client_pub.Text.Buffer.{IsString, c_string-stored}
use co_d4x_client_pub.Http.{hex, is_escaped, encode_url, ends_value, decode_url}
use co_d4x_client_pub.Http.Url.{
  IsCoded, encoded, encoded_text, or_right, decode-encoded, encode_loop-encoded,
}

-- A byte that stands in no form's code but in that of a pair.
abbrev pub IsFormChar : ℕ → Type 0
IsFormChar d = IsChar d × (ends_value d ≡ false) × ((d == b'=') ≡ false)

hex-IsFormChar : (d : ℕ) → d < 16 → IsFormChar (hex d)
hex-IsFormChar d lt = (ground (arith, lt), ground (arith, lt), ground (arith, lt))

is_plain : ℕ → Bool
is_plain c = ltb c 0x10 || (is_escaped true c || (not (ends_value c) && not (c == b'=')))

all_plain : all_below 0x80 is_plain ≡ true
unfolding is_plain
all_plain = refl

not_lem : (b : Bool) → not b ≡ true → b ≡ false
not_lem true h = absurd (ground (arith, h))
not_lem false h = refl

plain-IsFormChar : (c : ℕ) → IsCoded c → is_escaped true c ≡ false → IsFormChar c
unfolding is_plain
plain-IsFormChar c h e =
    let plain =
      or_right (ltb c 0x10) _ (all_below-lt 0x80 is_plain c all_plain (omega arith))
        (ground arith) in
    let (end, equal) = both (not (ends_value c)) _ (or_right (is_escaped true c) _ plain e) in
    ((omega arith, omega arith), not_lem (ends_value c) end, not_lem (c == b'=') equal)

pub encoded_text-IsFormChar : (s : List ℕ) → All IsCoded s → All IsFormChar (encoded_text true s)
encoded_text-IsFormChar [] h = record {}
encoded_text-IsFormChar (c ∷ s) (hc, h) = elim (Bool-cases (is_escaped true c)) [
  | inl e ↦ rw e (
    ((omega arith, omega arith), refl, refl),
    (
      hex-IsFormChar (c / 16) (omega arith),
      (hex-IsFormChar (c % 16) (omega arith), encoded_text-IsFormChar s h),
    ),
  )
  | inr e ↦ rw e (plain-IsFormChar c hc e, encoded_text-IsFormChar s h)
]

pub encoded_text-IsString :
    (forform : Bool) (s : List ℕ) → All IsCoded s → IsString (encoded_text forform s)
encoded_text-IsString forform [] h = record {}
encoded_text-IsString forform (c ∷ s) (hc, h) = elim (Bool-cases (is_escaped forform c)) [
  | inl e ↦ rw e (
    (omega arith, omega arith),
    (
      (hex-IsFormChar (c / 16) (omega arith)).0,
      ((hex-IsFormChar (c % 16) (omega arith)).0, encoded_text-IsString forform s h),
    ),
  )
  | inr e ↦ rw e ((omega arith, omega arith), encoded_text-IsString forform s h)
]

pub length-encoded_text :
    (forform : Bool) (s : List ℕ) → length (encoded_text forform s) ≤ 3 * length s
length-encoded_text forform [] = omega arith
length-encoded_text forform (c ∷ s) =
    let size = length-append (encoded forform c) (encoded_text forform s) in
    elim (Bool-cases (is_escaped forform c)) [
      | inl e ↦
          let three : length (encoded forform c) ≡ 3 = rw (e, encoded) refl in
          omega (arith, size, three, length-encoded_text forform s)
      | inr e ↦
          let one : length (encoded forform c) ≡ 1 = rw (e, encoded) refl in
          omega (arith, size, one, length-encoded_text forform s)
    ]

coded-IsString : (s : List ℕ) → All IsCoded s → IsString s
coded-IsString [] h = record {}
coded-IsString (c ∷ s) (hc, h) = ((omega arith, omega arith), coded-IsString s h)

c_string_self : (s : List ℕ) → IsString s → c_string s ≡ s
c_string_self [] h = refl
c_string_self (c ∷ s) (hc, h) = ground (arith, hc, c_string_self s h)

-- The decoder takes an encoded text for the text.
pub decode_url-encoded_text :
    (forform : Bool) (s : List ℕ) → All IsCoded s → decode_url (encoded_text forform s) ≡ s
unfolding decode_url
decode_url-encoded_text forform s h =
    ap c_string (decode-encoded forform s h) ∙ c_string_self s (coded-IsString s h)

-- The buffer behind `HTTP_EncodeURL`.
pub record Encoded (url buf : List ℕ) (len : ℕ) (forform : Bool) : Type 0 where
  pub size : ℕ
  pub coded : List ℕ
  pub returned : encode_url url 0 buf len forform ≡ (size, coded)
  pub count : size ≡ length (c_string coded)
  pub few : size ≤ 3 * length url
  pub decoded : decode_url (c_string coded) ≡ url

-- What HTTP_EncodeURL writes of a text HTTP_DecodeURL reads as the text again, for a form or not. It
-- returns the length of what it wrote, at most three characters for each. The bytes of the text are
-- from 16 to 127, and the buffer has room for three for each and four more.
pub decode_url-encode_url :
    (forform : Bool) (url buf : List ℕ) (len : ℕ)
    → All IsCoded url
    → 3 * length url + 4 ≤ len
    → len ≤ length buf
    → Encoded url buf len forform
unfolding encode_url
decode_url-encode_url forform url buf len h room fits =
    let text = encoded_text forform url in
    let few = length-encoded_text forform url in
    let stored =
      c_string-stored text buf (encoded_text-IsString forform url h) (omega (arith, few)) in
    let z : 0 + 0 ≡ 0 = omega arith in
    record {
      size = 0 + length text;
      coded = put_bytes buf (0 + 0) (text ++ 0 ∷ []);
      returned = encode_loop-encoded forform url buf 0 0 len h (omega (arith, few));
      count = rw (z, stored) (omega arith);
      few = omega (arith, few);
      decoded = rw (z, stored) (decode_url-encoded_text forform url h);
    }
