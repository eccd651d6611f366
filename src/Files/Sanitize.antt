-- ===== src/Files/Sanitize.antt =====
-- What `FS_SanitizeFilename` of src/files.c lets through.
use co_d4x_client_pub.Common.{
  ℕ, zero, suc, ◌+◌, ◌≤◌, ◌<◌, ◌≡◌, refl, arith, ◌⊎◌, inl, inr, Bool, true, false, not, ◌&&◌, ◌||◌,
  Option, some, List, [], ◌∷◌, ◌++◌, length, put_bytes, leb, ◌==◌, Bool-cases, set,
}
use co_d4x_client_pub.Text.{head, c_string}
use co_d4x_client_pub.Text.Buffer.{c_string-stored, IsString}
use co_d4x_client_pub.Files.{
  is_separator, is_backup_sub_str, skip_separators, is_last_dot, sanitize_from, sanitize_filename,
}

-- No part of the name ends with a dot, two dots or two colons stand nowhere side by side, and the
-- separators are slashes.
abbrev pub is_safe : List ℕ → Bool
is_safe [] = true
is_safe (c ∷ s) =
    not (is_backup_sub_str (c ∷ s)) && (not (is_last_dot c s) && (not (c == b'\\') && is_safe s))

-- Two dots or two colons stand somewhere side by side.
abbrev pub has_backup : List ℕ → Bool
has_backup [] = false
has_backup (c ∷ s) = is_backup_sub_str (c ∷ s) || has_backup s

-- The text that the loop leaves of a rest of the name.
record Cleaned (s out : List ℕ) : Type 0 where
  safe : is_safe out ≡ true
  string : IsString out
  plain : ((head s == b'.') || is_separator (head s)) ≡ false → head out ≡ head s
  colon : (head s == b':') ≡ false → (head out == b':') ≡ false

-- How a run of the loop ends: a refusal, with its reason, or a text in the buffer.
record Writes (o : Option (Bool × List ℕ)) (s : List ℕ) (i : ℕ) (buf : List ℕ) (size : ℕ)
    : Type 0 where
  out : List ℕ
  cleaned : Cleaned s out
  returned : o ≡ some (true, put_bytes buf i (out ++ 0 ∷ []))
  fits : i + length out < size

abbrev Refuses : Option (Bool × List ℕ) → List ℕ → ℕ → ℕ → Type 0
Refuses o s i size =
    ((b : List ℕ) × (o ≡ some (false, b))) × ((has_backup s ≡ true) ⊎ (size ≤ i + length s))

length-skip_separators : (s : List ℕ) → length (skip_separators s) ≤ length s
length-skip_separators [] = omega arith
length-skip_separators (c ∷ s) = ground (arith, length-skip_separators s)

skip_separators-IsString : (s : List ℕ) → IsString s → IsString (skip_separators s)
skip_separators-IsString [] h = h
skip_separators-IsString (c ∷ s) (hc, h) = elim (Bool-cases (is_separator c)) [
  | inl e ↦ rw e (skip_separators-IsString s h)
  | inr e ↦ rw e (hc, h)
]

has_backup-skip_separators :
    (s : List ℕ) → has_backup (skip_separators s) ≡ true → has_backup s ≡ true
has_backup-skip_separators [] h = h
has_backup-skip_separators (c ∷ s) h = elim (Bool-cases (is_separator c)) [
  | inl e ↦ let h' = rw (e, skip_separators) at h in ground (arith, has_backup-skip_separators s h')
  | inr e ↦ rw (e, skip_separators) at h
]

Cleaned-nil : Cleaned [] []
Cleaned-nil = record { safe = refl; string = record {}; plain = λ h. refl; colon = λ h. h }

Cleaned-dot :
    (c : ℕ) (s out : List ℕ) → is_last_dot c s ≡ true → Cleaned s out → Cleaned (c ∷ s) out
Cleaned-dot c s out dot h = record {
  safe = h.safe;
  string = h.string;
  plain = λ p. ground (arith, dot, p);
  colon = λ p. h.colon (ground (arith, dot));
}

Cleaned-slash :
    (c : ℕ) (s out : List ℕ)
    → is_separator c ≡ true
    → Cleaned (skip_separators s) out
    → Cleaned (c ∷ s) (b'/' ∷ out)
Cleaned-slash c s out sep h = record {
  safe = h.safe;
  string = ((omega arith, omega arith), h.string);
  plain = λ p. ground (arith, sep, p);
  colon = λ p. refl;
}

safe_before :
    (c : ℕ) (s out : List ℕ)
    → is_backup_sub_str (c ∷ s) ≡ false
    → is_last_dot c s ≡ false
    → Cleaned s out
    → (is_backup_sub_str (c ∷ out) ≡ false) × (is_last_dot c out ≡ false)
safe_before c s out back dot h = elim (Bool-cases (c == b'.')) [
  | inl e ↦
      let next : head out ≡ head s = h.plain (ground (arith, e, back, dot)) in
      rw next (ground (arith, e, back, dot))
  | inr e ↦ let colon = h.colon in ground (arith, e, back, colon)
]

Cleaned-kept :
    (c : ℕ) (s out : List ℕ)
    → is_backup_sub_str (c ∷ s) ≡ false
    → is_last_dot c s ≡ false
    → is_separator c ≡ false
    → IsString (c ∷ s)
    → Cleaned s out
    → Cleaned (c ∷ s) (c ∷ out)
Cleaned-kept c s out back dot sep (hc, str) h =
    let (back', dot') = safe_before c s out back dot h in
    let slash : (c == b'\\') ≡ false = ground (arith, sep) in
    record {
      safe = rw (back', dot', slash) h.safe;
      string = (hc, h.string);
      plain = λ p. refl;
      colon = λ p. p;
    }

abbrev Result : Type 0
Result = Option (Bool × List ℕ)

abbrev Ends : Result → List ℕ → ℕ → List ℕ → ℕ → Type 0
Ends o s i buf size = Refuses o s i size ⊎ Writes o s i buf size

-- A round that goes on with `o'`.
go_on :
    (o o' : Result) (c : ℕ) (s s' : List ℕ) (i i' : ℕ) (buf buf' : List ℕ) (size : ℕ)
    → o ≡ o'
    → (has_backup s' ≡ true → has_backup s ≡ true)
    → i' + length s' ≤ i + suc (length s)
    → (Writes o' s' i' buf' size → Writes o' (c ∷ s) i buf size)
    → Ends o' s' i' buf' size
    → Ends o (c ∷ s) i buf size
go_on o o' c s s' i i' buf buf' size e back count write (inl ((b, r), why)) =
    rw e (inl ((b, r), reason why))
  where
    reason :
        (has_backup s' ≡ true) ⊎ (size ≤ i' + length s')
        → (has_backup (c ∷ s) ≡ true) ⊎ (size ≤ i + length (c ∷ s))
    reason (inl h) = let h' = back h in inl (ground (arith, h'))
    reason (inr h) = inr (omega arith)
go_on o o' c s s' i i' buf buf' size e back count write (inr w) = rw e (inr (write w))

sanitize_from-Ends :
    (fuel : ℕ) (s : List ℕ) (i : ℕ) (buf : List ℕ) (size : ℕ)
    → IsString s
    → length s ≤ fuel
    → i < size
    → Ends (sanitize_from fuel s i buf size) s i buf size
unfolding sanitize_from
sanitize_from-Ends fuel [] i buf size str le lt =
    inr (record { out = []; cleaned = Cleaned-nil; returned = refl; fits = omega arith })
sanitize_from-Ends zero (c ∷ s) i buf size str le lt = absurd (omega arith)
sanitize_from-Ends (suc fuel) (c ∷ s) i buf size (hc, str) le lt =
    elim (Bool-cases (is_backup_sub_str (c ∷ s))) [
      | inl back ↦ inl ((buf, rw back refl), inl (ground (arith, back)))
      | inr back ↦ elim (Bool-cases (is_last_dot c s)) [
        | inl dot ↦
            go_on _ (sanitize_from fuel s i buf size) c s s i i buf buf size (rw (back, dot) refl)
              (λ h. h) (omega arith)
              (λ w. record {
                out = w.out;
                cleaned = Cleaned-dot c s w.out dot w.cleaned;
                returned = w.returned;
                fits = w.fits;
              })
              (sanitize_from-Ends fuel s i buf size str (omega arith) lt)
        | inr dot ↦ elim (Bool-cases (leb size (i + 1))) [
          | inl full ↦ inl ((buf, rw (back, dot, full) refl), inr (ground (arith, full)))
          | inr room ↦ elim (Bool-cases (is_separator c)) [
            | inl sep ↦
                go_on _ (sanitize_from fuel (skip_separators s) (i + 1) (set buf i b'/') size) c s
                  (skip_separators s) i (i + 1) buf (set buf i b'/') size
                  (rw (back, dot, room, sep) refl) (has_backup-skip_separators s)
                  (omega (arith, length-skip_separators s))
                  (λ w. record {
                    out = b'/' ∷ w.out;
                    cleaned = Cleaned-slash c s w.out sep w.cleaned;
                    returned = w.returned;
                    fits = omega (arith, w.fits);
                  })
                  (sanitize_from-Ends fuel (skip_separators s) (i + 1) (set buf i b'/') size
                    (skip_separators-IsString s str) (omega (arith, length-skip_separators s))
                    (ground (arith, room)))
            | inr sep ↦
                go_on _ (sanitize_from fuel s (i + 1) (set buf i c) size) c s s i (i + 1) buf
                  (set buf i c) size (rw (back, dot, room, sep) refl) (λ h. h) (omega arith)
                  (λ w. record {
                    out = c ∷ w.out;
                    cleaned = Cleaned-kept c s w.out back dot sep (hc, str) w.cleaned;
                    returned = w.returned;
                    fits = omega (arith, w.fits);
                  })
                  (sanitize_from-Ends fuel s (i + 1) (set buf i c) size str (omega arith)
                    (ground (arith, room)))
          ]
        ]
      ]
    ]

-- A buffer with a text that is safe, and whose zero byte is inside.
pub record IsSanitized (buf : List ℕ) (size : ℕ) : Type 0 where
  pub safe : is_safe (c_string buf) ≡ true
  pub fits : length (c_string buf) < size

-- FS_SanitizeFilename ends. It accepts a name only with a text in the buffer in which no part ends
-- with a dot, no two dots and no two colons stand side by side, and each separator is a slash; the
-- text ends inside the buffer. It refuses a name only for two dots or two colons in it, or for want
-- of room. The buffer is not empty and has the size that it is said to have.
pub sanitize_filename-IsSanitized :
    (filename buf : List ℕ) (size : ℕ)
    → IsString filename
    → 0 < size
    → size ≤ length buf
    → ((b : List ℕ) × (sanitize_filename filename buf size ≡ some (true, b)) × IsSanitized b size)
      ⊎ (((b : List ℕ) × (sanitize_filename filename buf size ≡ some (false, b)))
          × ((has_backup filename ≡ true) ⊎ (size ≤ length filename)))
unfolding sanitize_filename
sanitize_filename-IsSanitized filename buf size str pos fits =
    let s = skip_separators filename in
    elim (sanitize_from-Ends (length s) s 0 buf size (skip_separators-IsString filename str)
      (omega arith) pos) [
        | inl (r, why) ↦ inr (
          r,
          elim why [
            | inl back ↦ inl (has_backup-skip_separators filename back)
            | inr full ↦ inr (omega (arith, full, length-skip_separators filename))
          ],
        )
        | inr w ↦
            let text = c_string-stored w.out buf w.cleaned.string (omega (arith, w.fits)) in
            inl (
              put_bytes buf 0 (w.out ++ 0 ∷ []),
              w.returned,
              record { safe = rw text w.cleaned.safe; fits = rw text (omega (arith, w.fits)) },
            )
      ]
