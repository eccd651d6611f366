-- ===== src/Files/Kept.antt =====
-- The names that `FS_SanitizeFilename` of src/files.c leaves as they are.
use co_d4x_client_pub.Common.{
  ℕ, zero, suc, ◌+◌, ◌≤◌, ◌<◌, ◌≡◌, refl, arith, inl, inr, Bool, true, false, not, ◌&&◌, some, List,
  [], ◌∷◌, ◌++◌, length, put_bytes, leb, ◌==◌, Bool-cases, set,
}
use co_d4x_client_pub.Text.{head, c_string}
use co_d4x_client_pub.Text.Buffer.{c_string-stored, IsString}
use co_d4x_client_pub.Files.{
  is_separator, is_backup_sub_str, skip_separators, is_last_dot, sanitize_from, sanitize_filename,
}
use co_d4x_client_pub.Files.Sanitize.{is_safe}

-- No separator follows another.
abbrev pub has_single_slashes : List ℕ → Bool
has_single_slashes [] = true
has_single_slashes (c ∷ s) = not (is_separator c && is_separator (head s)) && has_single_slashes s

not_and : (a b : Bool) → (not a && b) ≡ true → (a ≡ false) × (b ≡ true)
not_and true b h = absurd (ground (arith, h))
not_and false b h = (refl, h)

separator_slash : (c : ℕ) → (c == b'\\') ≡ false → is_separator c ≡ true → c ≡ b'/'
separator_slash c h e = ground (arith, h, e)

no_double : (a b rest : Bool) → (not (a && b) && rest) ≡ true → a ≡ true → b ≡ false
no_double a true rest h e = absurd (ground (arith, h, e))
no_double a false rest h e = refl

skip_separators_none : (s : List ℕ) → is_separator (head s) ≡ false → skip_separators s ≡ s
skip_separators_none [] h = refl
skip_separators_none (c ∷ s) h = rw h refl

sanitize_from-safe :
    (fuel : ℕ) (s : List ℕ) (i : ℕ) (buf : List ℕ) (size : ℕ)
    → is_safe s ≡ true
    → has_single_slashes s ≡ true
    → length s ≤ fuel
    → i + length s < size
    → sanitize_from fuel s i buf size ≡ some (true, put_bytes buf i (s ++ 0 ∷ []))
unfolding sanitize_from
sanitize_from-safe fuel [] i buf size safe single le lt = refl
sanitize_from-safe zero (c ∷ s) i buf size safe single le lt = absurd (omega arith)
sanitize_from-safe (suc fuel) (c ∷ s) i buf size safe single le lt =
    let (back, parts) = not_and (is_backup_sub_str (c ∷ s)) _ safe in
    let (dot, parts') = not_and (is_last_dot c s) _ parts in
    let (slashes, safe') = not_and (c == b'\\') _ parts' in
    let (_, single') = not_and (is_separator c && is_separator (head s)) _ single in
    let room : leb size (i + 1) ≡ false = ground (arith, lt) in
    let rest =
      sanitize_from-safe fuel s (i + 1) (set buf i c) size safe' single' (omega arith)
        (omega arith) in
    elim (Bool-cases (is_separator c)) [
      | inl sep ↦
          let slash : c ≡ b'/' = separator_slash c slashes sep in
          let alone = skip_separators_none s (no_double _ _ _ single sep) in
          rw (back, dot, room, sep, alone) (rw slash (rw slash at rest))
      | inr sep ↦ rw (back, dot, room, sep) rest
    ]

-- A name that is safe, begins with no separator and has no two side by side comes out as it is, if it
-- is shorter than the buffer.
pub sanitize_filename-safe :
    (filename buf : List ℕ) (size : ℕ)
    → IsString filename
    → is_safe filename ≡ true
    → has_single_slashes filename ≡ true
    → is_separator (head filename) ≡ false
    → length filename < size
    → size ≤ length buf
    → (b : List ℕ) × (sanitize_filename filename buf size ≡ some (true, b))
      × (c_string b ≡ filename)
unfolding sanitize_filename
sanitize_filename-safe filename buf size str safe single first lt fits =
    let same = skip_separators_none filename first in
    (
      put_bytes buf 0 (filename ++ 0 ∷ []),
      rw same (
          sanitize_from-safe (length filename) filename 0 buf size safe single (omega arith)
            (omega arith)),
      c_string-stored filename buf str (omega arith),
    )
