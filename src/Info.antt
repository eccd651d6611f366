-- ===== src/Info.antt =====
-- The info strings of src/qshared.c: `\key\value\key\value`. A C string is the list of its bytes; the
-- buffers of the functions hold the longest info string, so that copies of its parts fit. Messages to
-- the console are left out.
pub mod Lookup
pub mod Update
pub mod Calls
pub mod Fast
mod Tests
use co_d4x_client_pub.Common.{
  ℕ, zero, suc, ◌+◌, Bool, true, false, Option, none, some, List, [], ◌∷◌, ◌++◌, ltb, leb, ◌==◌,
  if◌then◌else◌, ◌||◌, ◌&&◌, not, length, take, ◌-◌,
}
use co_d4x_client_pub.Text.{stricmpn, same}

abbrev pub max_info_string : ℕ
max_info_string = 1024

abbrev pub big_info_string : ℕ
big_info_string = 8192

abbrev pub backslash : ℕ
backslash = b'\\'

-- The part up to a backslash, and the rest from it on.
abbrev pub before : List ℕ → List ℕ
before [] = []
before (c ∷ s) = if c == backslash then [] else c ∷ before s

abbrev pub behind : List ℕ → List ℕ
behind [] = []
behind (c ∷ s) = if c == backslash then c ∷ s else behind s

-- `if (*s == '\\') s++`
abbrev pub skip_slash : List ℕ → List ℕ
skip_slash [] = []
skip_slash (c ∷ s) = if c == backslash then s else c ∷ s

abbrev pub leading : List ℕ → List ℕ
leading [] = []
leading (c ∷ s) = if c == backslash then c ∷ [] else []

-- `strchr`
abbrev pub has_char : ℕ → List ℕ → Bool
has_char c [] = false
has_char c (d ∷ s) = d == c || has_char c s

unfoldable pub validate : List ℕ → Bool
validate s = not (has_char b'"' s) && not (has_char b';' s)

-- `!Q_stricmp`
unfoldable pub same_key : List ℕ → List ℕ → Bool
same_key k j = stricmpn k j 99999 == 0

-- The end of a round: what is behind the value, if that is not the end of the string.
abbrev pub next_round : (List ℕ → List ℕ) → List ℕ → List ℕ → List ℕ
next_round more end [] = end
next_round more end (c ∷ t) = more (c ∷ t)

-- A round behind the key.
abbrev pub lookup_value : (List ℕ → List ℕ) → Bool → List ℕ → List ℕ
lookup_value more hit [] = []
lookup_value more hit (b ∷ v) = if hit then before v else next_round more [] (behind v)

-- The loop over the pairs, a round for each. The `s++` behind a value is the skip of the next round.
abbrev pub lookup_from : ℕ → List ℕ → List ℕ → List ℕ
lookup_from zero s key = []
lookup_from (suc n) s key =
    lookup_value (λ t. lookup_from n t key) (same_key key (before (skip_slash s)))
      (behind (skip_slash s))

-- A round takes a backslash at least, so that the length of the string bounds the rounds.
abbrev pub lookup_below : ℕ → List ℕ → List ℕ → List ℕ
lookup_below limit s key = if leb limit (length s) then [] else lookup_from (length s) s key

-- `Info_ValueForKey`. The function's two static buffers take turns, so that the last two results
-- live; here a result is a value. `none` is NULL.
unfoldable pub value_for_key : Option (List ℕ) → Option (List ℕ) → List ℕ
value_for_key none key = []
value_for_key (some s) none = []
value_for_key (some s) (some key) = lookup_below big_info_string s key

-- `Info_ValueForKey_tsInternal` and `BigInfo_ValueForKey_tsInternal`.
unfoldable pub value_for_key_ts : Option (List ℕ) → Option (List ℕ) → List ℕ
value_for_key_ts none key = []
value_for_key_ts (some s) none = []
value_for_key_ts (some s) (some key) = lookup_below max_info_string s key

unfoldable pub big_value_for_key_ts : Option (List ℕ) → Option (List ℕ) → List ℕ
big_value_for_key_ts none key = []
big_value_for_key_ts (some s) none = []
big_value_for_key_ts (some s) (some key) = lookup_below big_info_string s key

-- The loop that removes the first pair with that key: it stands from the backslash before the key to
-- the end of the value.
abbrev pub remove_value : (List ℕ → List ℕ) → Bool → List ℕ → List ℕ → List ℕ
remove_value more hit s [] = s
remove_value more hit s (b ∷ v) =
    let kept =
      λ (t : List ℕ). leading s ++ (before (skip_slash s) ++ (backslash ∷ (before v ++ more t))) in
    if hit then behind v else next_round kept s (behind v)

abbrev pub remove_from : ℕ → List ℕ → List ℕ → List ℕ
remove_from zero s key = s
remove_from (suc n) s key =
    remove_value (λ t. remove_from n t key) (same key (before (skip_slash s))) s
      (behind (skip_slash s))

-- `Info_RemoveKey` and `BigInfo_RemoveKey`, which differ in a message.
unfoldable pub remove_key : List ℕ → List ℕ → List ℕ
remove_key s key = if has_char backslash key then s else remove_from (length s) s key

abbrev pub is_illegal : List ℕ → Bool
is_illegal t = has_char backslash t || has_char b';' t || has_char b'"' t

-- A pair as it is printed.
abbrev pub pair : List ℕ → List ℕ → List ℕ
pair key value = backslash ∷ (key ++ (backslash ∷ value))

-- What both set functions do, with their size. `Com_sprintf` cuts the pair to one byte less than
-- that; an empty value removes the key.
abbrev pub set_below : ℕ → List ℕ → List ℕ → List ℕ → List ℕ
set_below limit s key value =
    let removed = remove_key s key in
    let newi = take (limit - 1) (pair key value) in
    if is_illegal key || is_illegal value
    then s
    else if leb (length value) 0 || ltb limit (length newi + length removed)
    then removed
    else newi ++ removed

unfoldable pub set_value_for_key : List ℕ → List ℕ → List ℕ → List ℕ
set_value_for_key s key value = set_below max_info_string s key value

unfoldable pub big_set_value_for_key : List ℕ → List ℕ → List ℕ → List ℕ
big_set_value_for_key s key value = set_below big_info_string s key value

abbrev pub next_value : List ℕ → List ℕ → List ℕ × List ℕ × List ℕ
next_value key [] = (key, [], [])
next_value key (b ∷ v) = (key, before v, behind v)

-- `Info_NextPair`: the key, the value and the rest.
unfoldable pub next_pair : List ℕ → List ℕ × List ℕ × List ℕ
next_pair s = next_value (before (skip_slash s)) (behind (skip_slash s))

-- `FastInfo_SetValueForKey`: the position that it keeps between calls, and the string.
pub record FastInfo : Type 0 where
  pub curpos : ℕ
  pub string : List ℕ

abbrev pub start_of : FastInfo → ℕ
start_of f = if leb (length f.string) 0 then 0 else f.curpos

-- The zero byte at the new end cuts what stood behind.
unfoldable pub fast_set_value_for_key : FastInfo → List ℕ → List ℕ → FastInfo
fast_set_value_for_key f key value =
    let curpos = start_of f in
    if leb max_info_string (length key + length value + 2 + curpos)
    then record { curpos = curpos; string = f.string }
    else record {
      curpos = curpos + 1 + length key + 1 + length value;
      string = take curpos f.string ++ pair key value;
    }
