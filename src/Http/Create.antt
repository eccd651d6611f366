-- ===== src/Http/Create.antt =====
-- The form text that src/httpftp.c builds pair by pair.
use co_d4x_client_pub.Common.{
  ℕ, ◌+◌, ◌-◌, ◌*◌, ◌≤◌, ◌<◌, ◌≡◌, refl, sym, ap, subst, ◌∙◌, arith, Bool, true, false, Option,
  some, List, [], ◌∷◌, ◌++◌, append_assoc, length, length-append, All, ◌==◌, if◌then◌else◌, drop,
  take-all, lt→leb, put_bytes, set,
}
use co_d4x_client_pub.Text.{head, c_string, strcat, strncpyz, at_offset}
use co_d4x_client_pub.Text.Buffer.{IsString, c_string-stored, strcat-c_string}
use co_d4x_client_pub.Http.{PostVal, encode_url, create_form, pair_size}
use co_d4x_client_pub.Http.Url.{
  IsCoded, encoded_text, encode_loop-encoded, put_bytes-append, put_bytes-over,
}
use co_d4x_client_pub.Http.Coded.{encoded_text-IsString, length-encoded_text}
use co_d4x_client_pub.Http.Form.{IsPair, pair_text}

encode_url-encoded :
    (s buf : List ℕ) (base len : ℕ)
    → All IsCoded s
    → 3 * length s + 4 ≤ len
    → encode_url s base buf len true
      ≡ (length (encoded_text true s), put_bytes buf base (encoded_text true s ++ 0 ∷ []))
unfolding encode_url
encode_url-encoded s buf base len h room =
    let z : base + 0 ≡ base = omega arith in
    let z' : 0 + length (encoded_text true s) ≡ length (encoded_text true s) = omega arith in
    encode_loop-encoded true s buf base 0 len h (omega (arith, length-encoded_text true s))
    ∙ rw (z, z') refl

-- The array with the two codes, behind what stands in front of them.
pair_array :
    (front key value stack : List ℕ)
    → put_bytes
        (set
          (put_bytes (put_bytes stack 0 front) (length front) (key ++ 0 ∷ []))
          (length key + length front)
          b'=')
        (length key + length front + 1)
        (value ++ 0 ∷ [])
      ≡ put_bytes stack 0 (front ++ (key ++ b'=' ∷ value) ++ 0 ∷ [])
pair_array front key value stack =
    let first = put_bytes-append front (key ++ 0 ∷ []) stack 0 (length front) (omega arith) in
    let split = append_assoc front key (0 ∷ []) in
    let over =
      put_bytes-over (front ++ key) (b'=' ∷ value) stack 0 (length key + length front) 0
        (omega (arith, length-append front key)) in
    rw (first, ← split)
      (over ∙ ap (λ l. put_bytes stack 0 (l ++ 0 ∷ [])) (append_assoc front key (b'=' ∷ value)))

-- What stands in front of a pair's text.
abbrev pub joint : List ℕ → List ℕ
joint [] = []
joint (c ∷ t) = b'&' ∷ []

abbrev appended : List ℕ → ℕ → List ℕ → Option (List ℕ)
appended out len text =
    let outlen = length (c_string out) in
    at_offset outlen out (strncpyz (drop outlen out) text (len - outlen))

append-IsString : (s t : List ℕ) → IsString s → IsString t → IsString (s ++ t)
append-IsString [] t h k = k
append-IsString (c ∷ s) t (hc, h) k = (hc, append-IsString s t h k)

text_IsString :
    (b : Bool) (p : PostVal) → IsPair p → IsString ((if b then [] else b'&' ∷ []) ++ pair_text p)
text_IsString b p h = append-IsString _ (pair_text p) (front b) (
    append-IsString (encoded_text true p.name) (b'=' ∷ encoded_text true p.value)
      (encoded_text-IsString true p.name h.name)
      ((omega arith, omega arith), encoded_text-IsString true p.value h.value))
  where
    front : (b : Bool) → IsString (if b then [] else b'&' ∷ [])
    front true = record {}
    front false = ((omega arith, omega arith), record {})

create_form-front :
    (front stack out : List ℕ) (len : ℕ) (p : PostVal)
    → IsPair p
    → front ≡ (if head out == 0 then [] else b'&' ∷ [])
    → pair_size ≤ length stack
    → create_form stack out len p.name p.value ≡ appended out len (front ++ pair_text p)
unfolding create_form
create_form-front front stack out len p h e fits =
    let key = encoded_text true p.name in
    let value = encoded_text true p.value in
    let start : (if head out == 0 then 0 else 1) ≡ length front = rw e (count (head out == 0)) in
    let pair : (if head out == 0 then stack else set stack 0 b'&') ≡ put_bytes stack 0 front =
      rw e (array stack (head out == 0)) in
    let few : length front ≤ 1 = rw e (at_most (head out == 0)) in
    let short = length-encoded_text true p.name in
    let short' = length-encoded_text true p.value in
    let first =
      encode_url-encoded p.name (put_bytes stack 0 front) (length front) (pair_size - length front)
        h.name (omega (arith, h.short, few)) in
    let next =
      set (put_bytes (put_bytes stack 0 front) (length front) (key ++ 0 ∷ []))
        (length key + length front) b'=' in
    let second =
      encode_url-encoded p.value next (length key + length front + 1)
        (pair_size - (length key + length front + 1)) h.value
        (omega (arith, h.short, few, short)) in
    let text = front ++ pair_text p in
    let stored =
      c_string-stored text stack
        (subst (λ f. IsString (f ++ pair_text p)) (sym e) (text_IsString (head out == 0) p h))
        (omega (
          arith,
          h.short,
          few,
          short,
          short',
          length-append front (pair_text p),
          length-append key (b'=' ∷ value),
        )) in
    let whole = ap c_string (pair_array front key value stack) ∙ stored in
    rw (start, pair, first, second, whole) refl
  where
    count : (b : Bool) → (if b then 0 else 1) ≡ length {A = ℕ} (if b then [] else b'&' ∷ [])
    count true = refl
    count false = refl

    array :
        (stack : List ℕ) (b : Bool)
        → (if b then stack else set stack 0 b'&') ≡ put_bytes stack 0 (if b then [] else b'&' ∷ [])
    array stack true = refl
    array stack false = refl

    at_most : (b : Bool) → length {A = ℕ} (if b then [] else b'&' ∷ []) ≤ 1
    at_most true = omega arith
    at_most false = omega arith

length-c_string : (s : List ℕ) → length (c_string s) ≤ length s
length-c_string [] = omega arith
length-c_string (c ∷ s) = ground (arith, length-c_string s)

appended-strcat :
    (out : List ℕ) (len : ℕ) (text : List ℕ)
    → length (c_string out) < len
    → appended out len text ≡ strcat out len text
unfolding strcat
appended-strcat out len text lt = rw (lt→leb (length (c_string out)) len lt) refl

-- The array behind a pair that is put to its text.
pub record Grown (out : List ℕ) (o : Option (List ℕ)) (text : List ℕ) : Type 0 where
  pub array : List ℕ
  pub returned : o ≡ some array
  pub string : c_string array ≡ text
  pub size : length array ≡ length out

pub create_form-Grown :
    (front stack out : List ℕ) (len : ℕ) (p : PostVal)
    → IsPair p
    → pair_size ≤ length stack
    → front ≡ (if head out == 0 then [] else b'&' ∷ [])
    → length (c_string out) + length (front ++ pair_text p) < len
    → len ≤ length out
    → Grown out (create_form stack out len p.name p.value) (c_string out ++ front ++ pair_text p)
create_form-Grown front stack out len p h fits e room holds =
    let text = front ++ pair_text p in
    let str : IsString text =
      subst (λ f. IsString (f ++ pair_text p)) (sym e) (text_IsString (head out == 0) p h) in
    let (array, returned, copied) = strcat-c_string out text len (omega arith) holds str in
    let all = take-all (len - length (c_string out) - 1) text (omega arith) in
    record {
      array = array;
      returned =
          create_form-front front stack out len p h e fits
          ∙ appended-strcat out len text (omega arith)
          ∙ returned;
      string =
          copied.string
          ∙ ap (λ l. c_string out ++ l) all
          ∙ sym (append_assoc (c_string out) front (pair_text p));
      size = copied.same_length;
    }
