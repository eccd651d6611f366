-- ===== src/Info/Calls.antt =====
-- Series of calls of the info string functions of src/qshared.c.
use co_d4x_client_pub.Common.{
  ℕ, ◌+◌, ◌≤◌, ◌<◌, ◌⊎◌, ◌≡◌, refl, ap, ◌∙◌, false, inl, inr, some, List, [], ◌∷◌, ◌++◌, ltb, leb,
  if◌then◌else◌, ◌||◌, length, length-append, All, arith,
}
use co_d4x_client_pub.Info.{
  before, behind, same_key, pair, is_illegal, set_value_for_key, value_for_key, next_pair,
  max_info_string,
}
use co_d4x_client_pub.Info.Lookup.{
  Pairs, print, find, erase, IsPlain, IsPair, same_key_refl, print-AtPair, pair-key, pair-behind,
  pair-value, pair-rest,
}
use co_d4x_client_pub.Info.Update.{set_pair, find-erase, value_for_key-print, set_value-Updated}

-- Calls of `Info_SetValueForKey`, each with its key and value, one after the other.
abbrev pub run : List ℕ → Pairs → List ℕ
run s [] = s
run s ((k, v) ∷ calls) = run (set_value_for_key s k v) calls

abbrev pub run_pairs : Pairs → Pairs → Pairs
run_pairs ps [] = ps
run_pairs ps ((k, v) ∷ calls) = run_pairs (set_pair max_info_string ps k v) calls

abbrev pub Fits : List ℕ × List ℕ → Type 0
Fits p = length (pair p.0 p.1) < max_info_string

run-print :
    (ps calls : Pairs)
    → All IsPair ps
    → length (print ps) ≤ max_info_string
    → All Fits calls
    → (run (print ps) calls ≡ print (run_pairs ps calls))
      × All IsPair (run_pairs ps calls)
      × (length (print (run_pairs ps calls)) ≤ max_info_string)
unfolding set_value_for_key
run-print ps [] p h f = (refl, p, h)
run-print ps ((k, v) ∷ calls) p h (short, f) =
    let u = set_value-Updated ps k v p h short in
    let (same_string, pairs, fits) =
      run-print (set_pair max_info_string ps k v) calls u.pairs u.fits f in
    (ap (λ s. run s calls) u.printed ∙ same_string, pairs, fits)

-- Whatever calls of `Info_SetValueForKey` follow one another on an info string of pairs, with keys and
-- values that are legal or not, `Info_ValueForKey` finds in the end what the list of pairs holds after
-- the same updates, and the string is at most 1024 bytes long. Each pair is shorter than that.
pub run-run_pairs :
    (ps calls : Pairs) (key : List ℕ)
    → All IsPair ps
    → length (print ps) ≤ max_info_string
    → All Fits calls
    → (value_for_key (some (run (print ps) calls)) (some key) ≡ find (run_pairs ps calls) key)
      × (length (run (print ps) calls) ≤ max_info_string)
run-run_pairs ps calls key p h f =
    let (same_string, pairs, fits) = run-print ps calls p h f in
    rw same_string (value_for_key-print (run_pairs ps calls) key pairs (omega (arith, fits)), fits)

-- A key that is the same is found in what was put in front of the rest.
find-set_pair :
    (limit : ℕ) (ps : Pairs) (key value other : List ℕ)
    → is_illegal key ≡ false
    → is_illegal value ≡ false
    → 0 < length value
    → length (pair key value) + length (print (erase ps key)) ≤ limit
    → (other ≡ key) ⊎ (same_key other key ≡ false)
    → find (set_pair limit ps key value) other
      ≡ (if same_key other key then value else find ps other)
find-set_pair limit ps key value other k v full fits h =
    let kept : (leb (length value) 0
          || ltb limit (length (pair key value) + length (print (erase ps key))))
        ≡ false =
      ground arith in
    elim h [
      | inl e ↦ rw (k, v, kept, e, same_key_refl key)
      | inr e ↦ rw (k, v, kept, e, find-erase ps key other e)
    ]

-- After `Info_SetValueForKey` of a key and a value that are legal, not empty and fit with what is left,
-- `Info_ValueForKey` finds the value under that key, and under a key that differs from it not by
-- capitals alone what it found before.
pub value_for_key-set_value_for_key :
    (ps : Pairs) (key value other : List ℕ)
    → All IsPair ps
    → length (print ps) ≤ max_info_string
    → is_illegal key ≡ false
    → is_illegal value ≡ false
    → 0 < length value
    → length (pair key value) < max_info_string
    → length (pair key value) + length (print (erase ps key)) ≤ max_info_string
    → (other ≡ key) ⊎ (same_key other key ≡ false)
    → value_for_key (some (set_value_for_key (print ps) key value)) (some other)
      ≡ (if same_key other key then value else value_for_key (some (print ps)) (some other))
unfolding set_value_for_key
value_for_key-set_value_for_key ps key value other p h k v full short fits apart =
    let u = set_value-Updated ps key value p h short in
    rw (
      u.printed,
      value_for_key-print (set_pair max_info_string ps key value) other u.pairs
          (omega (arith, u.fits)),
      value_for_key-print ps other p (omega arith),
      find-set_pair max_info_string ps key value other k v full fits apart,
    )

-- When a pair fits with what is left to the last of the 1024 bytes, `Info_SetValueForKey` takes it,
-- and the zero byte behind the string has no room in an array of 1024 bytes.
pub set_value_for_key_overflow :
    (ps : Pairs) (key value : List ℕ)
    → All IsPair ps
    → length (print ps) < max_info_string
    → is_illegal key ≡ false
    → is_illegal value ≡ false
    → 0 < length value
    → length (pair key value) < max_info_string
    → length (pair key value) + length (print (erase ps key)) ≡ max_info_string
    → max_info_string < length (set_value_for_key (print ps) key value) + 1
unfolding set_value_for_key
set_value_for_key_overflow ps key value p h k v full short fits =
    let u = set_value-Updated ps key value p (omega arith) short in
    let kept : (leb (length value) 0
          || ltb max_info_string (length (pair key value) + length (print (erase ps key))))
        ≡ false =
      ground arith in
    rw (u.printed, k, v, kept)
      (omega (arith, length-append (pair key value) (print (erase ps key))))

-- `Info_NextPair` on an info string of pairs yields the first pair, and the string of the others.
pub next_pair-print :
    (k v : List ℕ) (ps : Pairs)
    → IsPlain k
    → IsPlain v
    → next_pair (print ((k, v) ∷ ps)) ≡ (k, v, print ps)
unfolding next_pair
next_pair-print k v ps pk pv =
    let rest = print ps in
    let a = print-AtPair ps in
    rw (pair-key k v rest pk pv a, pair-behind k v rest pk pv a)
      (ap (λ (t : List ℕ × List ℕ). (k, t.0, t.1)) {x = (before (v ++ rest), behind (v ++ rest))}
        {y = (v, rest)} (rw (pair-value k v rest pk pv a, pair-rest k v rest pk pv a) refl))
