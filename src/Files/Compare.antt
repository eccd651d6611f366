-- ===== src/Files/Compare.antt =====
-- What the comparisons and the hash of src/files.c take for the same name.
use co_d4x_client_pub.Common.{
  ◌≤◌, Bool, true, false, ◌&&◌, ◌||◌, both, ℕ, ◌+◌, ◌*◌, ◌%◌, ◌^◌, ◌≡◌, refl, sym, ap, ◌∙◌, arith,
  ◌↔◌, ◌≢◌, inl, inr, List, [], ◌∷◌, All, ◌==◌, ==_iff, Bool-cases,
}
use co_d4x_client_pub.Text.{is_between, lower, order}
use co_d4x_client_pub.Files.{
  path_char, name_char, path_cmp, filename_compare, sext8, hash_letter, hash_from, hash_file_name,
}

abbrev pub is_name_separator : ℕ → Bool
is_name_separator c = c == b'/' || c == b'\\' || c == b':'

-- The same character for a file system: the same byte, a letter in either case, or two separators.
abbrev pub same_char : ℕ → ℕ → Bool
same_char c d =
    c == d
    || (is_between b'a' b'z' c && d + 32 == c)
    || (is_between b'a' b'z' d && c + 32 == d)
    || (is_name_separator c && is_name_separator d)

-- The same name: as long, and the same in each place.
abbrev pub same_name : List ℕ → List ℕ → Bool
same_name [] [] = true
same_name [] (d ∷ t) = false
same_name (c ∷ s) [] = false
same_name (c ∷ s) (d ∷ t) = same_char c d && same_name s t

-- What a character is, with what a comparison makes of it.
data Kind (c folded : ℕ) : Type 0 where
  letter : b'a' ≤ c → c ≤ b'z' → folded + 32 ≡ c → Kind c folded
  separator : is_name_separator c ≡ true → folded ≡ b'/' → Kind c folded
  other :
      (is_between b'a' b'z' c ≡ false) → is_name_separator c ≡ false → folded ≡ c → Kind c folded

path_char-Kind : (c : ℕ) → Kind c (path_char c)
path_char-Kind c = elim (Bool-cases (is_between b'a' b'z' c)) [
  | inl e ↦ Kind.letter (ground (arith, e)) (ground (arith, e)) (ground (arith, e))
  | inr e ↦ elim (Bool-cases (is_name_separator c)) [
    | inl f ↦ Kind.separator f (ground (arith, e, f))
    | inr f ↦ Kind.other e f (ground (arith, e, f))
  ]
]

name_char-Kind : (c : ℕ) → Kind c (name_char c)
name_char-Kind c = elim (Bool-cases (is_between b'a' b'z' c)) [
  | inl e ↦ Kind.letter (ground (arith, e)) (ground (arith, e)) (ground (arith, e))
  | inr e ↦ elim (Bool-cases (is_name_separator c)) [
    | inl f ↦ Kind.separator f (ground (arith, e, f))
    | inr f ↦ Kind.other e f (ground (arith, e, f))
  ]
]

Kind-same_char : (c d x y : ℕ) → Kind c x → Kind d y → (x == y) ≡ same_char c d
Kind-same_char c d x y (Kind.letter p q e) (Kind.letter p' q' e') =
    ground (arith, p, q, e, p', q', e')
Kind-same_char c d x y (Kind.letter p q e) (Kind.separator f e') = ground (arith, p, q, e, f, e')
Kind-same_char c d x y (Kind.letter p q e) (Kind.other o f e') = ground (arith, p, q, e, o, f, e')
Kind-same_char c d x y (Kind.separator f e) (Kind.letter p q e') = ground (arith, p, q, e, f, e')
Kind-same_char c d x y (Kind.separator f e) (Kind.separator f' e') = ground (arith, f, e, f', e')
Kind-same_char c d x y (Kind.separator f e) (Kind.other o f' e') = ground (arith, f, e, o, f', e')
Kind-same_char c d x y (Kind.other o f e) (Kind.letter p q e') = ground (arith, p, q, e, o, f, e')
Kind-same_char c d x y (Kind.other o f e) (Kind.separator f' e') = ground (arith, f, e, o, f', e')
Kind-same_char c d x y (Kind.other o f e) (Kind.other o' f' e') =
    ground (arith, o, f, e, o', f', e')

path_char-same_char : (c d : ℕ) → (path_char c == path_char d) ≡ same_char c d
path_char-same_char c d =
    Kind-same_char c d (path_char c) (path_char d) (path_char-Kind c) (path_char-Kind d)

name_char-same_char : (c d : ℕ) → (name_char c == name_char d) ≡ same_char c d
name_char-same_char c d =
    Kind-same_char c d (name_char c) (name_char d) (name_char-Kind c) (name_char-Kind d)

order-ne : (c d : ℕ) → order c d ≢ 0
order-ne c d h = absurd (ground (arith, h))

path_cmp-same_name : (s t : List ℕ) → (path_cmp s t ≡ 0) ↔ (same_name s t ≡ true)
unfolding path_cmp
path_cmp-same_name [] [] = (λ e. refl, λ e. refl)
path_cmp-same_name [] (d ∷ t) =
    (λ e. absurd (order-ne 0 (path_char d) e), λ e. absurd (ground (arith, e)))
path_cmp-same_name (c ∷ s) [] =
    (λ e. absurd (order-ne (path_char c) 0 e), λ e. absurd (ground (arith, e)))
path_cmp-same_name (c ∷ s) (d ∷ t) = elim (Bool-cases (same_char c d)) [
  | inl same ↦ rw (path_char-same_char c d, same) (path_cmp-same_name s t)
  | inr apart ↦
      rw (path_char-same_char c d, apart)
        (λ e. absurd (order-ne (path_char c) (path_char d) e), λ e. absurd (ground (arith, e)))
]

filename_compare-same_name : (s t : List ℕ) → (filename_compare s t ≡ 0) ↔ (same_name s t ≡ true)
unfolding filename_compare
filename_compare-same_name [] [] = (λ e. refl, λ e. refl)
filename_compare-same_name [] (d ∷ t) =
    (λ e. absurd (ground (arith, e)), λ e. absurd (ground (arith, e)))
filename_compare-same_name (c ∷ s) [] =
    (λ e. absurd (ground (arith, e)), λ e. absurd (ground (arith, e)))
filename_compare-same_name (c ∷ s) (d ∷ t) = elim (Bool-cases (same_char c d)) [
  | inl same ↦ rw (name_char-same_char c d, same) (filename_compare-same_name s t)
  | inr apart ↦
      rw (name_char-same_char c d, apart)
        (λ e. absurd (ground (arith, e)), λ e. absurd (ground (arith, e)))
]

-- FS_PathCmp and FS_FilenameCompare return 0 for the same pairs of names: those that are as long and
-- have in each place the same byte, the same letter in either case, or two of the separators slash,
-- backslash and colon.
pub path_cmp-filename_compare :
    (s t : List ℕ)
    → ((path_cmp s t ≡ 0) ↔ (same_name s t ≡ true))
      × ((filename_compare s t ≡ 0) ↔ (same_name s t ≡ true))
path_cmp-filename_compare s t = (path_cmp-same_name s t, filename_compare-same_name s t)

-- A name without a colon.
abbrev pub HasNoColon : List ℕ → Type 0
HasNoColon s = All (λ c. c ≢ b':') s

hash_letter-name_char : (c : ℕ) → c ≢ b':' → hash_letter c ≡ lower (name_char c)
hash_letter-name_char c h = ground (arith, h)

hash_letter-same_char :
    (c d : ℕ) → c ≢ b':' → d ≢ b':' → same_char c d ≡ true → hash_letter c ≡ hash_letter d
hash_letter-same_char c d hc hd e =
    let same : name_char c ≡ name_char d = (==_iff _ _).0 (name_char-same_char c d ∙ e) in
    hash_letter-name_char c hc ∙ ap lower same ∙ sym (hash_letter-name_char d hd)

hash_letter-dot : (c : ℕ) → (lower c == b'.') ≡ (hash_letter c == b'.')
hash_letter-dot c = elim (Bool-cases (lower c == b'\\')) [
  | inl e ↦ let slash : lower c ≡ b'\\' = (==_iff _ _).0 e in rw (slash, hash_letter) refl
  | inr e ↦ rw (e, hash_letter) refl
]

hash_from-same_name :
    (s t : List ℕ) (i hash : ℕ)
    → HasNoColon s
    → HasNoColon t
    → same_name s t ≡ true
    → hash_from s i hash ≡ hash_from t i hash
unfolding hash_from
hash_from-same_name [] [] i hash hs ht e = refl
hash_from-same_name [] (d ∷ t) i hash hs ht e = absurd (ground (arith, e))
hash_from-same_name (c ∷ s) [] i hash hs ht e = absurd (ground (arith, e))
hash_from-same_name (c ∷ s) (d ∷ t) i hash (hc, hs) (hd, ht) e =
    let (first, rest) = both (same_char c d) (same_name s t) e in
    let letter = hash_letter-same_char c d hc hd first in
    let dot : (lower c == b'.') ≡ (lower d == b'.') =
      hash_letter-dot c ∙ ap (λ l. l == b'.') letter ∙ sym (hash_letter-dot d) in
    let ih =
      hash_from-same_name s t (i + 1) ((hash + sext8 (hash_letter d) * (i + 119)) % 2 ^ 32) hs ht
        rest in
    rw (dot, letter, ih) refl

-- Two names that FS_FilenameCompare takes for the same have the same hash in any table, if neither
-- has a colon: a search by hash misses none of them.
pub hash_file_name-filename_compare :
    (s t : List ℕ) (hash_size : ℕ)
    → HasNoColon s
    → HasNoColon t
    → filename_compare s t ≡ 0
    → hash_file_name s hash_size ≡ hash_file_name t hash_size
unfolding hash_file_name
hash_file_name-filename_compare s t hash_size hs ht e =
    rw (hash_from-same_name s t 0 0 hs ht ((filename_compare-same_name s t).0 e)) refl
