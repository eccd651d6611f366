-- ===== src/Http/Posted.antt =====
-- The form text of several pairs, built and read by src/httpftp.c.
use co_d4x_client_pub.Common.{
  ℕ, suc, ◌+◌, ◌≤◌, ◌<◌, ◌≡◌, refl, sym, ap, ◌∙◌, arith, true, false, Option, some, List, [], ◌∷◌,
  ◌++◌, append_assoc, append-nil, length, length-append, All, ◌==◌, if◌then◌else◌, drop, none,
}
use co_d4x_client_pub.Text.{head, c_string}
use co_d4x_client_pub.Http.{PostVal, create_form, parse_form, pair_size}
use co_d4x_client_pub.Http.Url.{encoded_text}
use co_d4x_client_pub.Http.Form.{IsPair, pair_text, form_text, parse_form-form_text}
use co_d4x_client_pub.Http.Create.{Grown, create_form-Grown}

-- The calls for some pairs, in their order.
abbrev pub create_forms : List ℕ → List ℕ → ℕ → List PostVal → Option (List ℕ)
create_forms stack out len [] = some out
create_forms stack out len (p ∷ ps) = elim (create_form stack out len p.name p.value) [
  | none ↦ none
  | some out' ↦ create_forms stack out' len ps
]

abbrev further : List PostVal → List ℕ
further [] = []
further (q ∷ ps) = b'&' ∷ pair_text q ++ further ps

form_text-further : (p : PostVal) (ps : List PostVal) → form_text p ps ≡ pair_text p ++ further ps
form_text-further p [] = sym (append-nil (pair_text p))
form_text-further p (q ∷ ps) = ap (λ l. pair_text p ++ b'&' ∷ l) (form_text-further q ps)

create_forms-further :
    (stack out : List ℕ) (len : ℕ) (ps : List PostVal)
    → All IsPair ps
    → pair_size ≤ length stack
    → 0 < length (c_string out)
    → length (c_string out) + length (further ps) < len
    → len ≤ length out
    → Grown out (create_forms stack out len ps) (c_string out ++ further ps)
create_forms-further stack out len [] h fits some_text room holds = record {
  array = out;
  returned = refl;
  string = sym (append-nil (c_string out));
  size = refl;
}
create_forms-further stack out len (q ∷ ps) (hq, h) fits some_text room holds =
    let more : (head out == 0) ≡ false = head-c_string out some_text in
    let size = length-append (pair_text q) (further ps) in
    let first =
      create_form-Grown (b'&' ∷ []) stack out len q hq fits (rw more refl) (omega arith) holds in
    let count : length (c_string first.array) ≡ length (c_string out) + 1 + length (pair_text q) =
      ap length first.string
      ∙ omega (
        arith,
        length-append (c_string out ++ b'&' ∷ []) (pair_text q),
        length-append (c_string out) (b'&' ∷ []),
      ) in
    let rest =
      create_forms-further stack first.array len ps h fits (omega (arith, count))
        (omega (arith, count)) (omega (arith, first.size)) in
    record {
      array = rest.array;
      returned = rw (first.returned, create_forms) rest.returned;
      string =
          rest.string
          ∙ ap (λ l. l ++ further ps) first.string
          ∙ append_assoc (c_string out ++ b'&' ∷ []) (pair_text q) (further ps)
          ∙ append_assoc (c_string out) (b'&' ∷ []) (pair_text q ++ further ps);
      size = rest.size ∙ first.size;
    }
  where
    head-c_string : (s : List ℕ) → 0 < length (c_string s) → (head s == 0) ≡ false
    head-c_string [] h = absurd (omega (arith, h))
    head-c_string (c ∷ s) h = ground (arith, h)

-- The form's text, and the values that are read from it.
pub record Posted (p : PostVal) (ps values : List PostVal) (o : Option (List ℕ)) : Type 0 where
  pub array : List ℕ
  pub returned : o ≡ some array
  pub string : c_string array ≡ form_text p ps
  pub parsed : parse_form (c_string array) values ≡ p ∷ ps ++ drop (suc (length ps)) values

-- Calls of HTTP_CreateString_x_www_form_urlencoded for some pairs, in an array that holds no text yet
-- and has room for the whole, build a text from which HTTP_ParseFormDataBody reads the pairs in their
-- order; the values behind them stay as they were. The pairs are no more than the values, and each
-- name and value is of bytes from 16 to 127, so few that its code fits its array.
pub parse_form-create_forms :
    (p : PostVal) (ps values : List PostVal) (stack out : List ℕ) (len : ℕ)
    → IsPair p
    → All IsPair ps
    → length ps < length values
    → pair_size ≤ length stack
    → head out ≡ 0
    → length (form_text p ps) < len
    → len ≤ length out
    → Posted p ps values (create_forms stack out len (p ∷ ps))
parse_form-create_forms p ps values stack out len h hs few fits empty room holds =
    let text = form_text-further p ps in
    let size = length-append (pair_text p) (further ps) in
    let none_yet : c_string out ≡ [] = head-empty out empty in
    let no_front : ◌≡◌ {A = List ℕ} [] (if head out == 0 then [] else b'&' ∷ []) = rw empty refl in
    let count : length (form_text p ps) ≡ length (pair_text p) + length (further ps) =
      ap length text ∙ size in
    let first =
      create_form-Grown [] stack out len p h fits no_front
        (rw none_yet (omega (arith, room, count))) holds in
    let string : c_string first.array ≡ pair_text p =
      first.string ∙ ap (λ l. l ++ [] ++ pair_text p) none_yet in
    let length' : length (c_string first.array) ≡ length (pair_text p) = ap length string in
    let some_text : 0 < length (pair_text p) =
      omega (arith, length-append (encoded_text true p.name) (b'=' ∷ encoded_text true p.value)) in
    let rest =
      create_forms-further stack first.array len ps hs fits (omega (arith, length', some_text))
        (omega (arith, length', count, room)) (omega (arith, first.size, holds)) in
    let whole : c_string rest.array ≡ form_text p ps =
      rest.string ∙ ap (λ l. l ++ further ps) string ∙ sym text in
    record {
      array = rest.array;
      returned = rw (first.returned, create_forms) rest.returned;
      string = whole;
      parsed = rw whole (parse_form-form_text p ps values h hs few);
    }
  where
    head-empty : (s : List ℕ) → head s ≡ 0 → c_string s ≡ []
    head-empty [] h = refl
    head-empty (c ∷ s) h = rw h refl
