-- ===== src/Files/Tests.antt =====
-- Runs of src/files.c, and the theorems at concrete names.
use co_d4x_client_pub.Common.{
  ℕ, ◌≡◌, refl, arith, ◌⊎◌, ◌↔◌, true, false, some, List, [], ◌∷◌, replicate, ◌≤◌,
}
use co_d4x_client_pub.Text.{c_string}
use co_d4x_client_pub.Files.{
  path_cmp, filename_compare, hash_from, hash_file_name, sanitize_from, sanitize_filename,
}
use co_d4x_client_pub.Files.Compare.{
  same_name, path_cmp-filename_compare, hash_file_name-filename_compare,
}
use co_d4x_client_pub.Files.Sanitize.{IsSanitized, has_backup, sanitize_filename-IsSanitized}
use co_d4x_client_pub.Files.Kept.{sanitize_filename-safe}

-- The name `\a\.\b`, the name `a/b`, and the name `../x`.
abbrev dotted : List ℕ
dotted = b'\\' ∷ b'a' ∷ b'\\' ∷ b'.' ∷ b'\\' ∷ b'b' ∷ []

abbrev plain : List ℕ
plain = b'a' ∷ b'/' ∷ b'b' ∷ []

abbrev above : List ℕ
above = b'.' ∷ b'.' ∷ b'/' ∷ b'x' ∷ []

-- `.\x` keeps the separator behind its dot.
here_kept :
    sanitize_filename (b'.' ∷ b'\\' ∷ b'x' ∷ []) (replicate 8 1) 8
    ≡ some (true, b'/' ∷ b'x' ∷ 0 ∷ 1 ∷ 1 ∷ 1 ∷ 1 ∷ 1 ∷ [])
unfolding sanitize_filename sanitize_from
here_kept = refl

above_refused : sanitize_filename above (replicate 8 1) 8 ≡ some (false, replicate 8 1)
unfolding sanitize_filename sanitize_from
above_refused = refl

dotted_cleaned :
    sanitize_filename dotted (replicate 8 1) 8
    ≡ some (true, b'a' ∷ b'/' ∷ b'/' ∷ b'b' ∷ 0 ∷ 1 ∷ 1 ∷ 1 ∷ [])
unfolding sanitize_filename sanitize_from
dotted_cleaned = refl

sanitize_filename-IsSanitized_example :
    ((b : List ℕ) × (sanitize_filename dotted (replicate 8 1) 8 ≡ some (true, b)) × IsSanitized b 8)
    ⊎ (((b : List ℕ) × (sanitize_filename dotted (replicate 8 1) 8 ≡ some (false, b)))
        × ((has_backup dotted ≡ true) ⊎ (8 ≤ 6)))
sanitize_filename-IsSanitized_example =
    sanitize_filename-IsSanitized dotted (replicate 8 1) 8 (omega arith) (omega arith) (omega arith)

sanitize_filename-safe_example :
    (b : List ℕ) × (sanitize_filename plain (replicate 8 1) 8 ≡ some (true, b))
    × (c_string b ≡ plain)
sanitize_filename-safe_example =
    sanitize_filename-safe plain (replicate 8 1) 8 (ground arith) refl refl refl (omega arith)
      (omega arith)

path_cmp-filename_compare_example :
    ((path_cmp plain dotted ≡ 0) ↔ (same_name plain dotted ≡ true))
    × ((filename_compare plain dotted ≡ 0) ↔ (same_name plain dotted ≡ true))
path_cmp-filename_compare_example = path_cmp-filename_compare plain dotted

hash_file_name-filename_compare_example :
    hash_file_name plain 1024 ≡ hash_file_name (b'A' ∷ b'\\' ∷ b'B' ∷ []) 1024
unfolding filename_compare
hash_file_name-filename_compare_example =
    hash_file_name-filename_compare plain (b'A' ∷ b'\\' ∷ b'B' ∷ []) 1024 (ground arith)
      (ground arith) refl

-- A colon is a separator in the comparison only.
colon_hashed : hash_file_name (b'a' ∷ b':' ∷ []) 1024 ≡ 85
unfolding hash_file_name hash_from
colon_hashed = refl

slash_hashed : hash_file_name (b'a' ∷ b'/' ∷ []) 1024 ≡ 783
unfolding hash_file_name hash_from
slash_hashed = refl
