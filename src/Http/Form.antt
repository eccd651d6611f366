-- ===== src/Http/Form.antt =====
-- The form data of src/httpftp.c, from its pairs and back.
use co_d4x_client_pub.Common.{
  ℕ, suc, ◌-◌, ◌*◌, ◌≤◌, ◌<◌, ◌≡◌, refl, sym, ap, ◌∙◌, arith, true, List, [], ◌∷◌, ◌++◌,
  append_assoc, length, All, min, take, drop, take-all,
}
use co_d4x_client_pub.Text.{before_char}
use co_d4x_client_pub.Info.{has_char}
use co_d4x_client_pub.Http.{
  PostVal, behind_char, value_part, value_rest, parse_form, decode_url, max_string_chars,
}
use co_d4x_client_pub.Http.Url.{IsCoded, encoded_text}
use co_d4x_client_pub.Http.Coded.{
  IsFormChar, encoded_text-IsFormChar, length-encoded_text, decode_url-encoded_text,
}

-- A pair of texts whose code fits the arrays of `httpPostVals_t`.
pub record IsPair (p : PostVal) : Type 0 where
  pub name : All IsCoded p.name
  pub value : All IsCoded p.value
  pub short : (3 * length p.name < max_string_chars) × (3 * length p.value < max_string_chars)

abbrev pub pair_text : PostVal → List ℕ
pair_text p = encoded_text true p.name ++ b'=' ∷ encoded_text true p.value

abbrev pub form_text : PostVal → List PostVal → List ℕ
form_text p [] = pair_text p
form_text p (q ∷ ps) = pair_text p ++ b'&' ∷ form_text q ps

has-equal : (s t : List ℕ) → has_char b'=' (s ++ b'=' ∷ t) ≡ true
has-equal [] t = refl
has-equal (c ∷ s) t = ground (arith, has-equal s t)

before-equal : (s t : List ℕ) → All IsFormChar s → before_char b'=' (s ++ b'=' ∷ t) ≡ s
before-equal [] t h = refl
before-equal (c ∷ s) t (hc, h) = rw hc.2 (ap (λ l. c ∷ l) (before-equal s t h))

behind-equal : (s t : List ℕ) → All IsFormChar s → behind_char b'=' (s ++ b'=' ∷ t) ≡ t
behind-equal [] t h = refl
behind-equal (c ∷ s) t (hc, h) = rw hc.2 (behind-equal s t h)

value_part-last : (s : List ℕ) → All IsFormChar s → (value_part s ≡ s) × (value_rest s ≡ [])
value_part-last [] h = (refl, refl)
value_part-last (c ∷ s) (hc, h) =
    let (part, rest) = value_part-last s h in rw hc.1 (ap (λ l. c ∷ l) part, rest)

value_part-and :
    (s t : List ℕ)
    → All IsFormChar s
    → (value_part (s ++ b'&' ∷ t) ≡ s) × (value_rest (s ++ b'&' ∷ t) ≡ b'&' ∷ t)
value_part-and [] t h = (refl, refl)
value_part-and (c ∷ s) t (hc, h) =
    let (part, rest) = value_part-and s t h in rw hc.1 (ap (λ l. c ∷ l) part, rest)

name_code :
    (p : PostVal)
    → IsPair p
    → decode_url (take (max_string_chars - 1) (encoded_text true p.name)) ≡ p.name
name_code p h =
    ap decode_url (
      take-all (max_string_chars - 1) (encoded_text true p.name)
        (omega (arith, length-encoded_text true p.name, h.short)))
    ∙ decode_url-encoded_text true p.name h.name

value_code :
    (p : PostVal)
    → IsPair p
    → decode_url (take (max_string_chars - 1) (encoded_text true p.value)) ≡ p.value
value_code p h =
    ap decode_url (
      take-all (max_string_chars - 1) (encoded_text true p.value)
        (omega (arith, length-encoded_text true p.value, h.short)))
    ∙ decode_url-encoded_text true p.value h.value

parse_form-last :
    (p v : PostVal) (vs : List PostVal) → IsPair p → parse_form (pair_text p) (v ∷ vs) ≡ p ∷ vs
unfolding parse_form
parse_form-last p v vs h =
    let name = encoded_text true p.name in
    let value = encoded_text true p.value in
    let plain = encoded_text-IsFormChar p.name h.name in
    let (part, rest) = value_part-last value (encoded_text-IsFormChar p.value h.value) in
    let fits : length value ≤ max_string_chars - 1 =
      omega (arith, length-encoded_text true p.value, h.short) in
    let whole = take-all (max_string_chars - 1) value fits in
    let all : take (min (length value) (max_string_chars - 1)) (take (max_string_chars - 1) value)
        ≡ take (max_string_chars - 1) value =
      ap (take (min (length value) (max_string_chars - 1))) whole
      ∙ take-all (min (length value) (max_string_chars - 1)) value (omega (arith, fits))
      ∙ sym whole in
    rw
      (
        has-equal name value,
        behind-equal name value plain,
        before-equal name value plain,
        part,
        rest,
        all,
        name_code p h,
        value_code p h,
      )
      refl

parse_form-next :
    (p v : PostVal) (vs : List PostVal) (t : List ℕ)
    → IsPair p
    → parse_form (pair_text p ++ b'&' ∷ t) (v ∷ vs) ≡ p ∷ parse_form t vs
unfolding parse_form
parse_form-next p v vs t h =
    let name = encoded_text true p.name in
    let value = encoded_text true p.value in
    let plain = encoded_text-IsFormChar p.name h.name in
    let (part, rest) = value_part-and value t (encoded_text-IsFormChar p.value h.value) in
    let split = append_assoc name (b'=' ∷ value) (b'&' ∷ t) in
    let behind = value ++ b'&' ∷ t in
    rw
      (
        split,
        has-equal name behind,
        behind-equal name behind plain,
        before-equal name behind plain,
        part,
        rest,
        name_code p h,
        value_code p h,
      )
      refl

-- HTTP_ParseFormDataBody reads the pairs of a form from its text, in their order, and leaves the rest
-- of the array of values as it was. The pairs are no more than the array takes, and each name and
-- value is of bytes from 16 to 127, so few that its code fits its array.
pub parse_form-form_text :
    (p : PostVal) (ps values : List PostVal)
    → IsPair p
    → All IsPair ps
    → length ps < length values
    → parse_form (form_text p ps) values ≡ p ∷ ps ++ drop (suc (length ps)) values
parse_form-form_text p ps [] h hs lt = absurd (omega arith)
parse_form-form_text p [] (v ∷ vs) h hs lt = parse_form-last p v vs h
parse_form-form_text p (q ∷ ps) (v ∷ vs) h (hq, hs) lt =
    parse_form-next p v vs (form_text q ps) h
    ∙ ap (λ l. p ∷ l) (parse_form-form_text q ps vs hq hs (omega arith))
