-- ===== src/Info/Update.antt =====
-- Updates of the info strings of src/qshared.c, against lists of pairs.
use co_d4x_client_pub.Common.{
  ℕ, ◌+◌, ◌-◌, ◌≤◌, ◌<◌, ◌≡◌, refl, ap, false, Bool-cases, inl, inr, some, List, [], ◌∷◌, ltb, leb,
  if◌then◌else◌, ◌||◌, length, length-append, All, arith, take, take-all, lt→leb,
}
use co_d4x_client_pub.Info.{
  backslash, has_char, same_key, remove_key, pair, is_illegal, set_below, value_for_key,
  max_info_string, big_info_string,
}
use co_d4x_client_pub.Text.{same}
use co_d4x_client_pub.Text.Compare.{same-eq}
use co_d4x_client_pub.Info.Lookup.{
  Pairs, print, find, erase, IsPlain, IsPair, lookup_from-print, remove_from-print,
}

legal-IsPlain : (s : List ℕ) → has_char backslash s ≡ false → IsPlain s
legal-IsPlain [] h = tt
legal-IsPlain (c ∷ s) h = (λ e. absurd (ground (arith, h, e)), legal-IsPlain s (ground (arith, h)))

erase-IsPair : (ps : Pairs) (key : List ℕ) → All IsPair ps → All IsPair (erase ps key)
erase-IsPair [] key p = p
erase-IsPair ((k, v) ∷ ps) key (q, p) = elim (Bool-cases (same key k)) [
  | inl hit ↦ rw hit p
  | inr miss ↦ rw miss (q, erase-IsPair ps key p)
]

length-erase : (ps : Pairs) (key : List ℕ) → length (print (erase ps key)) ≤ length (print ps)
length-erase [] key = omega arith
length-erase ((k, v) ∷ ps) key = elim (Bool-cases (same key k)) [
  | inl hit ↦ rw hit (omega (arith, length-append (pair k v) (print ps)))
  | inr miss ↦ rw miss (
      omega (
        arith,
        length-append (pair k v) (print ps),
        length-append (pair k v) (print (erase ps key)),
        length-erase ps key,
      ))
]

remove_key-print :
    (ps : Pairs) (key : List ℕ)
    → All IsPair ps
    → has_char backslash key ≡ false
    → remove_key (print ps) key ≡ print (erase ps key)
unfolding remove_key
remove_key-print ps key p h = rw h (remove_from-print (length (print ps)) ps key p (omega arith))

-- The limit is a parameter, so that nothing counts up to it.
module _ (limit : ℕ) where
  -- The update of the pairs: an illegal key or value changes nothing, an empty value or one that makes
  -- the string too long removes the key, and any other is put in front.
  abbrev pub set_pair : Pairs → List ℕ → List ℕ → Pairs
  set_pair ps key value =
      let removed = erase ps key in
      if is_illegal key || is_illegal value
      then ps
      else if leb (length value) 0 || ltb limit (length (pair key value) + length (print removed))
      then removed
      else (key, value) ∷ removed

  -- A string of pairs with the update in it.
  pub record Updated (ps : Pairs) (key value : List ℕ) : Type 0 where
    pub printed : set_below limit (print ps) key value ≡ print (set_pair ps key value)
    pub pairs : All IsPair (set_pair ps key value)
    pub fits : length (print (set_pair ps key value)) ≤ limit

  pub set_below-Updated :
      (ps : Pairs) (key value : List ℕ)
      → All IsPair ps
      → length (print ps) ≤ limit
      → length (pair key value) < limit
      → Updated ps key value
  set_below-Updated ps key value p h short =
      let cut : take (limit - 1) (pair key value) ≡ pair key value =
        take-all (limit - 1) (pair key value) (omega arith) in
      let len = length-erase ps key in
      elim (Bool-cases (is_illegal key || is_illegal value)) [
        | inl bad ↦ record { printed = rw bad; pairs = rw bad p; fits = rw bad h }
        | inr good ↦
            let slash : has_char backslash key ≡ false = ground (arith, good) in
            let slash' : has_char backslash value ≡ false = ground (arith, good) in
            let removed = remove_key-print ps key p slash in
            let q = erase-IsPair ps key p in
            elim (Bool-cases (
              leb (length value) 0
              || ltb limit (length (pair key value) + length (print (erase ps key))))) [
                | inl drops ↦ record {
                  printed = rw (good, removed, cut, drops);
                  pairs = rw (good, drops) q;
                  fits = rw (good, drops) (omega arith);
                }
                | inr adds ↦ record {
                  printed = rw (good, removed, cut, adds);
                  pairs =
                      rw (good, adds) ((legal-IsPlain key slash, legal-IsPlain value slash'), q);
                  fits =
                      rw (good, adds)
                        (ground
                          (arith, adds, length-append (pair key value) (print (erase ps key))));
                }
              ]
      ]

-- A key that differs, not by capitals alone, is found as before.
pub find-erase :
    (ps : Pairs) (key other : List ℕ)
    → same_key other key ≡ false
    → find (erase ps key) other ≡ find ps other
find-erase [] key other h = refl
find-erase ((k, v) ∷ ps) key other h = elim (Bool-cases (same key k)) [
  | inl hit ↦ rw (hit, ← same-eq key k hit, h)
  | inr miss ↦ rw miss (ap (λ t. if same_key other k then v else t) (find-erase ps key other h))
]

pub value_for_key-print :
    (ps : Pairs) (key : List ℕ)
    → All IsPair ps
    → length (print ps) < big_info_string
    → value_for_key (some (print ps)) (some key) ≡ find ps key
unfolding value_for_key
value_for_key-print ps key p h =
    rw (lt→leb (length (print ps)) big_info_string h)
      (lookup_from-print (length (print ps)) ps key p (omega arith))

pub set_value-Updated :
    (ps : Pairs) (key value : List ℕ)
    → All IsPair ps
    → length (print ps) ≤ max_info_string
    → length (pair key value) < max_info_string
    → Updated max_info_string ps key value
set_value-Updated ps key value p h short = set_below-Updated max_info_string ps key value p h short
