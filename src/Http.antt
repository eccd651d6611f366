-- ===== src/Http.antt =====
-- The URL and form codes of src/httpftp.c, and the table of connections. A C string is its bytes
-- without the zero byte, but where the code writes into an array.
use co_d4x_client_pub.Common.{
  ℕ, zero, suc, ◌+◌, ◌-◌, ◌*◌, ◌/◌, ◌%◌, ◌^◌, Bool, true, false, ◌&&◌, ◌||◌, not, Option, none,
  some, List, [], ◌∷◌, ◌++◌, ltb, leb, ◌==◌, if◌then◌else◌, length, take, drop, set, get_or,
  put_bytes, min,
}
use co_d4x_client_pub.Text.{
  head, c_string, before_char, is_between, strncpyz, at_offset, strchrrepl, stricmp,
}
use co_d4x_client_pub.Info.{has_char}
use co_d4x_client_pub.Files.{sext8}
pub mod Url
pub mod Coded
pub mod Form
pub mod Create
pub mod Posted
pub mod Clients
pub mod Send
pub mod Sent
mod Tests

-- A hexadecimal digit as `%X` prints it.
abbrev pub hex : ℕ → ℕ
hex d = if ltb d 10 then d + b'0' else d + 55

-- `%X` prints no zeros in front.
abbrev pub hex_digits : ℕ → ℕ → List ℕ
hex_digits zero n = []
hex_digits (suc fuel) n =
    let rest = hex_digits fuel (n / 16) in
    if ltb n 16 then hex n ∷ [] else rest ++ hex (n % 16) ∷ []

abbrev pub is_hex : ℕ → Bool
is_hex c = is_between b'0' b'9' c || is_between b'A' b'F' c || is_between b'a' b'f' c

abbrev pub hex_value : ℕ → ℕ
hex_value c = if ltb c 58 then c - b'0' else if ltb c 71 then c - 55 else c - 87

abbrev pub is_space : ℕ → Bool
is_space c = c == b' ' || is_between 9 13 c

-- The digits that `strtol` takes.
abbrev pub digits_from : ℕ → List ℕ → ℕ
digits_from v [] = v
digits_from v (c ∷ s) =
    let rest = digits_from (v * 16 + hex_value c) s in if is_hex c then rest else v

-- `0x` in front of a digit.
abbrev pub skip_prefix : List ℕ → List ℕ
skip_prefix (c ∷ d ∷ e ∷ s) =
    if c == b'0' && (d == b'x' || d == b'X') && is_hex e then e ∷ s else c ∷ d ∷ e ∷ s
skip_prefix s = s

-- `strtol` of base 16, as a 32-bit `long`: a number out of its range becomes its end.
abbrev pub strtol_signed : List ℕ → ℕ
strtol_signed [] = 0
strtol_signed (c ∷ s) =
    let plus = min (digits_from 0 (skip_prefix s)) (2 ^ 31 - 1) in
    let minus = (2 ^ 32 - min (digits_from 0 (skip_prefix s)) (2 ^ 31)) % 2 ^ 32 in
    let none_of = min (digits_from 0 (skip_prefix (c ∷ s))) (2 ^ 31 - 1) in
    if c == b'-' then minus else if c == b'+' then plus else none_of

unfoldable pub strtol : List ℕ → ℕ
strtol [] = 0
strtol (c ∷ s) = let rest = strtol s in if is_space c then rest else strtol_signed (c ∷ s)

-- `sprintf` of a `char`, with its zero byte.
abbrev pub encoded_char : ℕ → List ℕ
encoded_char c = b'%' ∷ hex_digits 8 (sext8 c) ++ 0 ∷ []

abbrev pub is_special : ℕ → Bool
is_special c =
    c == b'<'
    || c == b'>'
    || c == b' '
    || c == b'"'
    || c == b'#'
    || c == b'%'
    || c == b'{'
    || c == b'}'
    || c == b'|'
    || c == b'\\'
    || c == b'^'
    || c == b'~'
    || c == b'['
    || c == b']'
    || c == b'`'

abbrev pub is_escaped : Bool → ℕ → Bool
is_escaped forform c =
    is_special c || ltb 0x7F c || ltb c 0x20 || (forform && (c == b'&' || c == b'='))

-- The array from `base` on is the buffer of `len` bytes. The result is the length and the array.
unfoldable pub encode_loop : List ℕ → ℕ → ℕ → List ℕ → ℕ → Bool → ℕ × List ℕ
encode_loop [] base y buf len forform = (y, set buf (base + y) 0)
encode_loop (c ∷ s) base y buf len forform =
    let escaped =
      encode_loop s base (y + 3) (put_bytes buf (base + y) (encoded_char c)) len forform in
    let plain = encode_loop s base (y + 1) (set buf (base + y) c) len forform in
    if ltb (y + 4) len
    then if is_escaped forform c then escaped else plain
    else (y, set buf (base + y) 0)

unfoldable pub encode_url : List ℕ → ℕ → List ℕ → ℕ → Bool → ℕ × List ℕ
encode_url url base buf len forform = encode_loop url base 0 buf len forform

abbrev pub pair_size : ℕ
pair_size = 66_559

-- `encodedpair` is the array on the stack, as it is before.
unfoldable pub create_form : List ℕ → List ℕ → ℕ → List ℕ → List ℕ → Option (List ℕ)
create_form encodedpair out len key value =
    let start = if head out == 0 then 0 else 1 in
    let pair = if head out == 0 then encodedpair else set encodedpair 0 b'&' in
    let (y, buf) = encode_url key start pair (pair_size - start) true in
    let bufpos = y + start in
    let next = set buf bufpos b'=' in
    let (_, whole) = encode_url value (bufpos + 1) next (pair_size - (bufpos + 1)) true in
    let outlen = length (c_string out) in
    at_offset outlen out (strncpyz (drop outlen out) (c_string whole) (len - outlen))

-- The string behind the decoding; a percent sign without two characters behind it ends it.
unfoldable pub decode_from : List ℕ → List ℕ
decode_from [] = []
decode_from (c ∷ []) = if c == b'%' then [] else c ∷ []
decode_from (c ∷ d ∷ []) = let rest = decode_from (d ∷ []) in if c == b'%' then [] else c ∷ rest
decode_from (c ∷ d ∷ e ∷ s) =
    let coded = strtol (d ∷ e ∷ []) % 256 ∷ decode_from s in
    let rest = decode_from (d ∷ e ∷ s) in if c == b'%' then coded else c ∷ rest

unfoldable pub decode_url : List ℕ → List ℕ
decode_url url = c_string (decode_from url)

unfoldable pub decode_url_form_data : List ℕ → List ℕ
decode_url_form_data url = decode_url (strchrrepl url b'+' b' ')

pub record PostVal : Type 0 where
  pub name : List ℕ
  pub value : List ℕ

abbrev pub max_string_chars : ℕ
max_string_chars = 1024

abbrev pub no_val : PostVal
no_val = record { name = []; value = [] }

abbrev pub behind_char : ℕ → List ℕ → List ℕ
behind_char a [] = []
behind_char a (c ∷ s) = if c == a then s else behind_char a s

abbrev pub ends_value : ℕ → Bool
ends_value c = c == b'&' || c == b'\r' || c == b'\n'

abbrev pub value_part : List ℕ → List ℕ
value_part [] = []
value_part (c ∷ s) = if ends_value c then [] else c ∷ value_part s

abbrev pub value_rest : List ℕ → List ℕ
value_rest [] = []
value_rest (c ∷ s) = if ends_value c then c ∷ s else value_rest s

-- The list is the array of values before, of which those behind the last pair stay as they are.
unfoldable pub parse_form : List ℕ → List PostVal → List PostVal
parse_form body [] = []
parse_form body (v ∷ values) =
    let rest = behind_char b'=' body in
    let name = decode_url (take (max_string_chars - 1) (before_char b'=' body)) in
    let part = value_part rest in
    let last = take (min (length part) (max_string_chars - 1)) (take (max_string_chars - 1) rest) in
    let next = parse_form (drop 1 (value_rest rest)) values in
    let here : PostVal = record {
      name = name;
      value = decode_url (take (max_string_chars - 1) part);
    } in
    if not (has_char b'=' body)
    then no_val ∷ values
    else if head (value_rest rest) == b'&'
    then here ∷ next
    else record { name = name; value = decode_url last } ∷ values

-- The value of the first entry of that name, decoded once more, and the array behind it.
unfoldable pub get_form_data_item : List PostVal → List ℕ → List ℕ × List PostVal
get_form_data_item [] search = ([], [])
get_form_data_item (v ∷ values) search =
    let rest = get_form_data_item values search in
    let decoded = decode_url_form_data v.value in
    if length v.name == 0
    then ([], v ∷ values)
    else if stricmp (some v.name) (some search) == 0
    then (decoded, record { name = v.name; value = decoded } ∷ values)
    else (rest.0, v ∷ rest.1)
