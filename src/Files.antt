-- ===== src/Files.antt =====
-- Names of files in src/files.c: how they are compared, hashed and cleaned, on C strings without
-- their zero byte.
use co_d4x_client_pub.Common.{
  ℕ, zero, suc, ◌+◌, ◌-◌, ◌*◌, ◌/◌, ◌%◌, ◌^◌, Bool, true, false, ◌&&◌, ◌||◌, not, Option, none,
  some, List, [], ◌∷◌, ◌++◌, bit_and, bit_xor, ltb, leb, ◌==◌, if◌then◌else◌, length, take, set,
  minus_one,
}
use co_d4x_client_pub.Text.{head, is_between, lower, order}
pub mod Compare
pub mod Sanitize
pub mod Kept
mod Tests

abbrev pub is_separator : ℕ → Bool
is_separator c = c == b'/' || c == b'\\'

-- A character as `FS_PathCmp` compares it.
abbrev pub path_char : ℕ → ℕ
path_char c =
    let up = if is_between b'a' b'z' c then c - 32 else c in
    if up == b'\\' || up == b':' then b'/' else up

unfoldable pub path_cmp : List ℕ → List ℕ → ℕ
path_cmp [] [] = 0
path_cmp [] (d ∷ t) = order 0 (path_char d)
path_cmp (c ∷ s) [] = order (path_char c) 0
path_cmp (c ∷ s) (d ∷ t) =
    let rest = path_cmp s t in
    if path_char c == path_char d then rest else order (path_char c) (path_char d)

-- A character as `FS_FilenameCompare` compares it.
abbrev pub name_char : ℕ → ℕ
name_char c =
    let up = if is_between b'a' b'z' c then c - 32 else c in
    if up == b'\\' || up == b':' then b'/' else up

unfoldable pub filename_compare : List ℕ → List ℕ → ℕ
filename_compare [] [] = 0
filename_compare [] (d ∷ t) = minus_one
filename_compare (c ∷ s) [] = minus_one
filename_compare (c ∷ s) (d ∷ t) =
    let rest = filename_compare s t in if name_char c == name_char d then rest else minus_one

-- A `char` as a 32-bit `long`.
abbrev pub sext8 : ℕ → ℕ
sext8 c = if ltb c 128 then c else c + (2 ^ 32 - 256)

-- `x >> k` of a `long`, which keeps the sign.
abbrev pub shift_right : ℕ → ℕ → ℕ
shift_right x k = if ltb x (2 ^ 31) then x / 2 ^ k else x / 2 ^ k + (2 ^ 32 - 2 ^ (32 - k))

abbrev pub hash_letter : ℕ → ℕ
hash_letter c = if lower c == b'\\' then b'/' else lower c

unfoldable pub hash_from : List ℕ → ℕ → ℕ → ℕ
hash_from [] i hash = hash
hash_from (c ∷ s) i hash =
    let rest = hash_from s (i + 1) ((hash + sext8 (hash_letter c) * (i + 119)) % 2 ^ 32) in
    if lower c == b'.' then hash else rest

-- The size of the table is positive.
unfoldable pub hash_file_name : List ℕ → ℕ → ℕ
hash_file_name fname hash_size =
    let hash = hash_from fname 0 0 in
    bit_and (bit_xor (bit_xor hash (shift_right hash 10)) (shift_right hash 20)) (hash_size - 1)

abbrev pub is_backup_sub_str : List ℕ → Bool
is_backup_sub_str [] = false
is_backup_sub_str (c ∷ s) = (c == b'.' && head s == b'.') || (c == b':' && head s == b':')

abbrev pub skip_separators : List ℕ → List ℕ
skip_separators [] = []
skip_separators (c ∷ s) = if is_separator c then skip_separators s else c ∷ s

-- A dot at the end of a part of the name.
abbrev pub is_last_dot : ℕ → List ℕ → Bool
is_last_dot c s = c == b'.' && (head s == 0 || is_separator (head s))

-- The result and the buffer; a round takes at least one character, and the fuel is their number. The
-- `assert` on the room for a character is compiled to nothing (src/q_shared.h).
unfoldable pub sanitize_from : ℕ → List ℕ → ℕ → List ℕ → ℕ → Option (Bool × List ℕ)
sanitize_from fuel [] i buf size = some (true, set buf i 0)
sanitize_from zero (c ∷ s) i buf size = none
sanitize_from (suc fuel) (c ∷ s) i buf size =
    let dropped = sanitize_from fuel s i buf size in
    let slash = sanitize_from fuel (skip_separators s) (i + 1) (set buf i b'/') size in
    let kept = sanitize_from fuel s (i + 1) (set buf i c) size in
    if is_backup_sub_str (c ∷ s)
    then some (false, buf)
    else if is_last_dot c s
    then dropped
    else if leb size (i + 1)
    then some (false, buf)
    else if is_separator c
    then slash
    else kept

unfoldable pub sanitize_filename : List ℕ → List ℕ → ℕ → Option (Bool × List ℕ)
sanitize_filename filename buf size =
    let s = skip_separators filename in sanitize_from (length s) s 0 buf size
