-- ===== src/Text.antt =====
-- The string functions of src/qshared.c. A C string is the list of its bytes before the zero byte;
-- where a function writes to a buffer of the caller, the buffer is the list of all its bytes. A
-- `char` is signed, and an `int` a 32-bit pattern.
pub mod Compare
pub mod Buffer
pub mod Colors
pub mod Xml
mod Tests
use co_d4x_client_pub.Common.{
  ℕ, zero, suc, ◌+◌, ◌-◌, ◌/◌, ◌%◌, ◌^◌, Bool, true, false, Option, none, some, List, [], ◌∷◌, ◌++◌,
  map, ltb, leb, ◌==◌, if◌then◌else◌, ◌||◌, ◌&&◌, not, length, take, drop, replicate, put_bytes,
  minus_one,
}

-- `*s`: the byte at the front, or the zero byte behind the last.
abbrev pub head : List ℕ → ℕ
head [] = 0
head (c ∷ s) = c

-- The string that an array holds.
abbrev pub c_string : List ℕ → List ℕ
c_string [] = []
c_string (c ∷ s) = if c == 0 then [] else c ∷ c_string s

-- `!strcmp`
abbrev pub same : List ℕ → List ℕ → Bool
same [] [] = true
same [] (d ∷ t) = false
same (c ∷ s) [] = false
same (c ∷ s) (d ∷ t) = c == d && same s t

abbrev pub is_between : ℕ → ℕ → ℕ → Bool
is_between lo hi c = leb lo c && leb c hi

pub isprint : ℕ → Bool
isprint c = is_between 0x20 0x7E c

pub islower : ℕ → Bool
islower c = is_between b'a' b'z' c

pub isupper : ℕ → Bool
isupper c = is_between b'A' b'Z' c

pub isalpha : ℕ → Bool
isalpha c = is_between b'a' b'z' c || is_between b'A' b'Z' c

-- A byte from 128 on is a negative `char`, and so below 0x20.
pub isprintstring : List ℕ → Bool
isprintstring [] = true
isprintstring (c ∷ s) = is_between 0x20 0x7E c && isprintstring s

-- `c - ('a' - 'A')` for a small letter.
abbrev pub upper : ℕ → ℕ
upper c = if is_between b'a' b'z' c then c - 32 else c

abbrev pub lower : ℕ → ℕ
lower c = if is_between b'A' b'Z' c then c + 32 else c

-- `c1 < c2 ? -1 : 1`, on `char`s.
abbrev pub order : ℕ → ℕ → ℕ
order c d = if ltb ((c + 128) % 256) ((d + 128) % 256) then minus_one else 1

-- The loop of a comparison by `f`, on the number of characters left.
abbrev compare_by : (ℕ → ℕ) → ℕ → List ℕ → List ℕ → ℕ
compare_by f zero s t = 0
compare_by f (suc n) [] [] = 0
compare_by f (suc n) [] (d ∷ t) = order 0 (f d)
compare_by f (suc n) (c ∷ s) [] = order (f c) 0
compare_by f (suc n) (c ∷ s) (d ∷ t) =
    let rest = compare_by f n s t in if f c == f d then rest else order (f c) (f d)

unfoldable pub stricmpn : List ℕ → List ℕ → ℕ → ℕ
stricmpn s t n = compare_by upper n s t

unfoldable pub strncmp : List ℕ → List ℕ → ℕ → ℕ
strncmp s t n = compare_by (λ c. c) n s t

-- `none` is NULL.
unfoldable pub stricmp : Option (List ℕ) → Option (List ℕ) → ℕ
stricmp (some s) (some t) = stricmpn s t 99999
stricmp (some s) none = minus_one
stricmp none t = minus_one

-- `tolower` and `toupper` of the C locale.
pub strlwr : List ℕ → List ℕ
strlwr s = map lower s

pub strupr : List ℕ → List ℕ
strupr s = map upper s

-- `strncpy` copies the string and fills up with zero bytes; the last byte is set to zero. `none` is
-- `Com_Error`.
unfoldable pub strncpyz : List ℕ → List ℕ → ℕ → Option (List ℕ)
strncpyz dest src destsize =
    if ltb destsize 1
    then none
    else let copied = put_bytes dest 0 (take (destsize - 1) (src ++ replicate (destsize - 1) 0)) in
      some (put_bytes copied (destsize - 1) (0 ∷ []))

-- `strncpyz` on the part of an array from `i` on.
abbrev pub at_offset : ℕ → List ℕ → Option (List ℕ) → Option (List ℕ)
at_offset i dest none = none
at_offset i dest (some part) = some (take i dest ++ part)

unfoldable pub strcat : List ℕ → ℕ → List ℕ → Option (List ℕ)
strcat dest size src =
    let l1 = length (c_string dest) in
    if leb size l1 then none else at_offset l1 dest (strncpyz (drop l1 dest) src (size - l1))

-- `src` is all of the array that the string stands in, since `memcpy` does not end at its zero byte.
-- `cpylimit` is compared as an unsigned number.
unfoldable pub strlcat : List ℕ → ℕ → List ℕ → ℕ → List ℕ
strlcat dest size src cpylimit =
    let l1 = length (c_string dest) in
    let n = if leb (size - l1) cpylimit || cpylimit == 0 then size - l1 - 1 else cpylimit in
    if leb size l1 then dest else put_bytes (put_bytes dest l1 (take n src)) (l1 + n) (0 ∷ [])

abbrev pub before_char : ℕ → List ℕ → List ℕ
before_char c [] = []
before_char c (d ∷ s) = if d == c then [] else d ∷ before_char c s

-- The blanks at the end are taken off one by one.
abbrev pub trim_end : List ℕ → List ℕ
trim_end [] = []
trim_end (c ∷ s) =
    let rest = trim_end s in
    if c == b' ' then elim rest [ [] ↦ [] | d ∷ t ↦ c ∷ d ∷ t ] else c ∷ rest

unfoldable pub trim_crlf : List ℕ → List ℕ
trim_crlf s = trim_end (before_char b'\r' (before_char b'\n' s))

-- The place of a character, small or capital; `none` is -1.
abbrev strichr_from : ℕ → List ℕ → ℕ → Option ℕ
strichr_from i [] find = none
strichr_from i (c ∷ s) find =
    let rest = strichr_from (i + 1) s find in if upper c == find then some i else rest

unfoldable pub strichr : List ℕ → ℕ → Option ℕ
strichr s find = strichr_from 0 s (upper find)

-- The rest of `s` from the first occurrence of `find` on; `none` is NULL.
abbrev stristr_from : List ℕ → ℕ → List ℕ → Option (List ℕ)
stristr_from [] c find = none
stristr_from (sc ∷ s) c find =
    let rest = stristr_from s c find in
    if upper sc == c && stricmpn s find (length find) == 0 then some (sc ∷ s) else rest

unfoldable pub stristr : List ℕ → List ℕ → Option (List ℕ)
stristr s [] = some s
stristr s (c ∷ find) = stristr_from s (upper c) find

-- `Q_IsColorString`: a `^` with a character from `0` to `@` behind it.
abbrev pub is_color : ℕ → List ℕ → Bool
is_color c s = c == b'^' && is_between b'0' b'@' (head s)

unfoldable pub print_strlen : List ℕ → ℕ
print_strlen [] = 0
print_strlen (c ∷ []) = 1
print_strlen (c ∷ d ∷ s) =
    let skipped = print_strlen s in
    let counted = print_strlen (d ∷ s) + 1 in if is_color c (d ∷ s) then skipped else counted

-- `c >= 0x20` on a `char`, which is never above 127.
abbrev pub keep_printable : ℕ → List ℕ → List ℕ
keep_printable c s = if is_between 0x20 0x7F c then c ∷ s else s

unfoldable pub clean_str : List ℕ → List ℕ
clean_str [] = []
clean_str (c ∷ []) = keep_printable c []
clean_str (c ∷ d ∷ s) =
    let skipped = clean_str s in
    let kept = keep_printable c (clean_str (d ∷ s)) in if is_color c (d ∷ s) then skipped else kept

pub count_char : List ℕ → ℕ → ℕ
count_char [] tocount = 0
count_char (c ∷ s) tocount = if c == tocount then count_char s tocount + 1 else count_char s tocount

unfoldable pub strchrrepl : List ℕ → ℕ → ℕ → List ℕ
strchrrepl s torepl repl = map (λ c. if c == torepl then repl else c) s

-- A newline becomes a backslash and an `n`; the text is cut behind 1021 bytes.
abbrev expand_from : ℕ → List ℕ → List ℕ
expand_from l [] = []
expand_from l (c ∷ s) =
    let newline = b'\\' ∷ b'n' ∷ expand_from (l + 2) s in
    let other = c ∷ expand_from (l + 1) s in
    if leb 1021 l then [] else if c == b'\n' then newline else other

unfoldable pub expand_newlines : List ℕ → List ℕ
expand_newlines s = expand_from 0 s

-- The name behind the last slash, with that slash.
abbrev filename_from : List ℕ → List ℕ → List ℕ
filename_from stub [] = stub
filename_from stub (c ∷ s) = filename_from (if c == b'/' || c == b'\\' then c ∷ s else stub) s

unfoldable pub get_filename_sub_string : List ℕ → List ℕ
get_filename_sub_string s = filename_from s s

-- The rest from the last dot on behind the last slash, or the end of the name.
abbrev extension_from : List ℕ → List ℕ → List ℕ
extension_from substr [] = substr
extension_from substr (c ∷ s) =
    extension_from (if c == b'.' then c ∷ s else if c == b'/' || c == b'\\' then [] else substr) s

unfoldable pub get_extension_sub_string : List ℕ → List ℕ
get_extension_sub_string s = extension_from [] s
