-- ===== src/Info/Fast.antt =====
-- `FastInfo_SetValueForKey` of src/qshared.c, which puts pairs at the end of an info string.
use co_d4x_client_pub.Common.{
  ℕ, ◌+◌, ◌<◌, ◌≡◌, refl, sym, ap, ◌∙◌, Bool-cases, inl, inr, some, List, [], ◌∷◌, ◌++◌, leb,
  if◌then◌else◌, length, length-append, append_assoc, append-nil, All, arith, take-all,
}
use co_d4x_client_pub.Info.{
  FastInfo, start_of, fast_set_value_for_key, value_for_key, pair, max_info_string,
}
use co_d4x_client_pub.Info.Lookup.{Pairs, print, find, IsPair}
use co_d4x_client_pub.Info.Update.{value_for_key-print}

-- The pairs behind a call: a pair that does not fit is left out.
abbrev pub add_pair : Pairs → List ℕ → List ℕ → Pairs
add_pair ps key value =
    if leb max_info_string (length key + length value + 2 + length (print ps))
    then ps
    else ps ++ (key, value) ∷ []

abbrev pub printed : Pairs → FastInfo
printed ps = record { curpos = length (print ps); string = print ps }

print-append : (ps : Pairs) (k v : List ℕ) → print (ps ++ (k, v) ∷ []) ≡ print ps ++ pair k v
print-append [] k v = append-nil (pair k v)
print-append ((j, w) ∷ ps) k v =
    ap (λ t. pair j w ++ t) (print-append ps k v)
    ∙ sym (append_assoc (pair j w) (print ps) (pair k v))

start_of-printed : (ps : Pairs) → start_of (printed ps) ≡ length (print ps)
start_of-printed ps = ground arith

length-pair : (k v : List ℕ) → length (pair k v) ≡ length k + length v + 2
length-pair k v = omega (arith, length-append k (b'\\' ∷ v))

fast_set-printed :
    (ps : Pairs) (key value : List ℕ)
    → fast_set_value_for_key (printed ps) key value ≡ printed (add_pair ps key value)
unfolding fast_set_value_for_key
fast_set-printed ps key value =
    let n = length (print ps) in
    elim (Bool-cases (leb max_info_string (length key + length value + 2 + n))) [
      | inl full ↦ rw (start_of-printed ps, full) refl
      | inr fits ↦
          rw
            (
              start_of-printed ps,
              fits,
              take-all n (print ps) (omega arith),
              print-append ps key value,
            )
            (ap (λ (m : ℕ). record { curpos = m; string = print ps ++ pair key value })
              (omega (arith, length-append (print ps) (pair key value), length-pair key value)))
    ]

-- Calls, each with its key and value, one after the other.
abbrev pub run : FastInfo → Pairs → FastInfo
run f [] = f
run f ((k, v) ∷ calls) = run (fast_set_value_for_key f k v) calls

abbrev pub added : Pairs → Pairs → Pairs
added ps [] = ps
added ps ((k, v) ∷ calls) = added (add_pair ps k v) calls

run-printed : (ps calls : Pairs) → run (printed ps) calls ≡ printed (added ps calls)
run-printed ps [] = refl
run-printed ps ((k, v) ∷ calls) = rw (fast_set-printed ps k v) (run-printed (add_pair ps k v) calls)

-- The kept position does not count while the string is empty.
run-empty :
    (n : ℕ) (calls : Pairs)
    → (run (record { curpos = n; string = [] }) calls).string ≡ print (added [] calls)
unfolding fast_set_value_for_key
run-empty n [] = refl
run-empty n ((k, v) ∷ calls) =
    ap (λ (f : FastInfo). (run f calls).string)
      {x = fast_set_value_for_key (record { curpos = n; string = [] }) k v}
      {y = printed (add_pair [] k v)} (fast_set-printed [] k v)
    ∙ ap (λ (f : FastInfo). f.string) (run-printed (add_pair [] k v) calls)

append-IsPair :
    (ps : Pairs) (p : List ℕ × List ℕ) → All IsPair ps → IsPair p → All IsPair (ps ++ p ∷ [])
append-IsPair [] p h q = (q, tt)
append-IsPair (r ∷ ps) p (hr, h) q = (hr, append-IsPair ps p h q)

-- The pairs fit with their zero byte.
abbrev pub AreShort : Pairs → Type 0
AreShort ps = All IsPair ps × (length (print ps) < max_info_string)

add_pair-AreShort :
    (ps : Pairs) (k v : List ℕ) → AreShort ps → IsPair (k, v) → AreShort (add_pair ps k v)
add_pair-AreShort ps k v (h, short) q =
    elim (Bool-cases (leb max_info_string (length k + length v + 2 + length (print ps)))) [
      | inl full ↦ rw full (h, short)
      | inr fits ↦
          rw (fits, print-append ps k v)
            (
              append-IsPair ps (k, v) h q,
              ground (arith, fits, length-append (print ps) (pair k v), length-pair k v),
            )
    ]

added-AreShort : (ps calls : Pairs) → AreShort ps → All IsPair calls → AreShort (added ps calls)
added-AreShort ps [] h q = h
added-AreShort ps ((k, v) ∷ calls) h (qc, q) =
    added-AreShort (add_pair ps k v) calls (add_pair-AreShort ps k v h qc) q

-- Calls of `FastInfo_SetValueForKey` on an empty string, wherever its position stood: the string is
-- shorter than 1024 bytes, and `Info_ValueForKey` finds in it the first of the pairs that fit when
-- their call came. No key or value has a backslash.
pub value_for_key-run :
    (n : ℕ) (calls : Pairs) (key : List ℕ)
    → All IsPair calls
    → let s = (run (record { curpos = n; string = [] }) calls).string in
      (value_for_key (some s) (some key) ≡ find (added [] calls) key) × (length s < max_info_string)
value_for_key-run n calls key q =
    let (pairs, short) = added-AreShort [] calls (tt, omega arith) q in
    rw (run-empty n calls)
      (value_for_key-print (added [] calls) key pairs (omega (arith, short)), short)
