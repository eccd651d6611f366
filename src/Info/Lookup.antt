-- ===== src/Info/Lookup.antt =====
-- The info strings of src/qshared.c as lists of pairs.
use co_d4x_client_pub.Common.{
  ℕ, zero, suc, ◌≤◌, ◌≡◌, ◌≢◌, refl, ap, ◌∙◌, true, Bool-cases, inl, inr, List, [], ◌∷◌, ◌++◌,
  if◌then◌else◌, ==_iff, length, length-append, append_assoc, All, arith,
}
use co_d4x_client_pub.Text.{stricmpn, same}
use co_d4x_client_pub.Text.Compare.{stricmpn-zero}
use co_d4x_client_pub.Info.{
  backslash, before, behind, same_key, lookup_from, remove_from, pair, next_round,
}

abbrev pub Pairs : Type 0
Pairs = List (List ℕ × List ℕ)

-- The info string of a list of pairs.
abbrev pub print : Pairs → List ℕ
print [] = []
print ((k, v) ∷ ps) = pair k v ++ print ps

-- What a reader of the pairs finds: the value of the first key that is the same but for capitals.
abbrev pub find : Pairs → List ℕ → List ℕ
find [] key = []
find ((k, v) ∷ ps) key = if same_key key k then v else find ps key

-- The first pair of exactly that key is removed.
abbrev pub erase : Pairs → List ℕ → Pairs
erase [] key = []
erase ((k, v) ∷ ps) key = if same key k then ps else (k, v) ∷ erase ps key

-- A key or a value: no backslash.
abbrev pub IsPlain : List ℕ → Type 0
IsPlain s = All (λ c. c ≢ backslash) s

abbrev pub IsPair : List ℕ × List ℕ → Type 0
IsPair p = IsPlain p.0 × IsPlain p.1

-- The string is at its end or at the backslash of the next pair.
abbrev pub AtPair : List ℕ → Type 0
AtPair [] = Unit {0}
AtPair (c ∷ s) = c ≡ backslash

pub print-AtPair : (ps : Pairs) → AtPair (print ps)
print-AtPair [] = tt
print-AtPair ((k, v) ∷ ps) = refl

before-append : (s rest : List ℕ) → IsPlain s → AtPair rest → before (s ++ rest) ≡ s
before-append [] [] p a = refl
before-append [] (c ∷ rest) p a = ground (arith, a)
before-append (c ∷ s) rest (ne, p) a = ground (arith, ne, before-append s rest p a)

behind-append : (s rest : List ℕ) → IsPlain s → AtPair rest → behind (s ++ rest) ≡ rest
behind-append [] [] p a = refl
behind-append [] (c ∷ rest) p a = ground (arith, a)
behind-append (c ∷ s) rest (ne, p) a = ground (arith, ne, behind-append s rest p a)

-- The parts of a string that begins with a pair.
module _ (k v rest : List ℕ) (pk : IsPlain k) (pv : IsPlain v) (a : AtPair rest) where
  pub pair-key : before ((k ++ (backslash ∷ v)) ++ rest) ≡ k
  pair-key =
      ap before (append_assoc k (backslash ∷ v) rest)
      ∙ before-append k (backslash ∷ (v ++ rest)) pk refl

  pub pair-behind : behind ((k ++ (backslash ∷ v)) ++ rest) ≡ backslash ∷ (v ++ rest)
  pair-behind =
      ap behind (append_assoc k (backslash ∷ v) rest)
      ∙ behind-append k (backslash ∷ (v ++ rest)) pk refl

  pub pair-value : before (v ++ rest) ≡ v
  pair-value = before-append v rest pv a

  pub pair-rest : behind (v ++ rest) ≡ rest
  pair-rest = behind-append v rest pv a

-- A round that is not the last.
next_round-print :
    (more : List ℕ → List ℕ) (ps : Pairs) (r end : List ℕ)
    → more (print ps) ≡ r
    → (ps ≡ [] → end ≡ r)
    → next_round more end (print ps) ≡ r
next_round-print more [] r end e h = h refl
next_round-print more ((k, v) ∷ ps) r end e h = e

pub lookup_from-print :
    (n : ℕ) (ps : Pairs) (key : List ℕ)
    → All IsPair ps
    → length (print ps) ≤ n
    → lookup_from n (print ps) key ≡ find ps key
lookup_from-print zero [] key p h = refl
lookup_from-print zero ((k, v) ∷ ps) key p h = absurd (omega arith)
lookup_from-print (suc n) [] key p h = refl
lookup_from-print (suc n) ((k, v) ∷ ps) key ((pk, pv), p) h =
    let rest = print ps in
    let a = print-AtPair ps in
    let short : length rest ≤ n = omega (arith, length-append (pair k v) rest) in
    rw (pair-key k v rest pk pv a, pair-behind k v rest pk pv a)
      (rw (pair-value k v rest pk pv a, pair-rest k v rest pk pv a)
        (ap (λ t. if same_key key k then v else t)
          (next_round-print (λ t. lookup_from n t key) ps (find ps key) []
            (lookup_from-print n ps key p short) (λ e. rw e refl))))

pub remove_from-print :
    (n : ℕ) (ps : Pairs) (key : List ℕ)
    → All IsPair ps
    → length (print ps) ≤ n
    → remove_from n (print ps) key ≡ print (erase ps key)
remove_from-print zero [] key p h = refl
remove_from-print zero ((k, v) ∷ ps) key p h = absurd (omega arith)
remove_from-print (suc n) [] key p h = refl
remove_from-print (suc n) ((k, v) ∷ ps) key ((pk, pv), p) h =
    let rest = print ps in
    let a = print-AtPair ps in
    let short : length rest ≤ n = omega (arith, length-append (pair k v) rest) in
    rw (pair-key k v rest pk pv a, pair-behind k v rest pk pv a)
      (rw (pair-value k v rest pk pv a, pair-rest k v rest pk pv a)
        (elim (Bool-cases (same key k)) [
          | inl hit ↦ rw hit
          | inr miss ↦ rw miss (
              next_round-print kept ps (print ((k, v) ∷ erase ps key)) (print ((k, v) ∷ ps))
                (again (remove_from-print n ps key p short)) (λ e. rw e refl))
        ]))
  where
    kept : List ℕ → List ℕ
    kept t =
        backslash
        ∷ (before ((k ++ (backslash ∷ v)) ++ print ps) ++ (backslash ∷ (v ++ remove_from n t key)))

    again :
        remove_from n (print ps) key ≡ print (erase ps key)
        → kept (print ps) ≡ print ((k, v) ∷ erase ps key)
    again ih = rw (pair-key k v (print ps) pk pv (print-AtPair ps), ih, append_assoc)

pub same_key_refl : (key : List ℕ) → same_key key key ≡ true
unfolding same_key
same_key_refl key = (==_iff (stricmpn key key 99999) 0).1 ((stricmpn-zero key key 99999).1 refl)
