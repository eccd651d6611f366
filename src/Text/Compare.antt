-- ===== src/Text/Compare.antt =====
-- The comparisons of src/qshared.c.
use co_d4x_client_pub.Common.{
  ℕ, zero, suc, ◌<◌, ◌≡◌, ◌≢◌, ◌↔◌, refl, true, false, Bool-cases, inl, inr, List, [], ◌∷◌, ◌==◌,
  if◌then◌else◌, take, map, All, arith, minus_one,
}
use co_d4x_client_pub.Text.{same, upper, order, compare_by, stricmpn}

-- A byte of a C string.
abbrev pub IsChar : ℕ → Type 0
IsChar c = (0 < c) × (c < 256)

order-ne : (c d : ℕ) → order c d ≢ 0
order-ne c d h = absurd (ground (arith, h))

cons_eq : (c d : ℕ) (s t : List ℕ) → (c ∷ s ≡ d ∷ t) ↔ ((c ≡ d) × (s ≡ t))
cons_eq c d s t = (λ e. ground (arith, e), λ e. ground (arith, e))

compare_by-zero :
    (f : ℕ → ℕ) (n : ℕ) (s t : List ℕ)
    → (compare_by f n s t ≡ 0) ↔ (map f (take n s) ≡ map f (take n t))
compare_by-zero f zero s t = (λ e. refl, λ e. refl)
compare_by-zero f (suc n) [] [] = (λ e. refl, λ e. refl)
compare_by-zero f (suc n) [] (d ∷ t) =
    (λ e. absurd (order-ne 0 (f d) e), λ e. absurd (ground (arith, e)))
compare_by-zero f (suc n) (c ∷ s) [] =
    (λ e. absurd (order-ne (f c) 0 e), λ e. absurd (ground (arith, e)))
compare_by-zero f (suc n) (c ∷ s) (d ∷ t) =
    let ih = compare_by-zero f n s t in
    let split = cons_eq (f c) (f d) (map f (take n s)) (map f (take n t)) in
    elim (Bool-cases (f c == f d)) [
      | inl same ↦
          let same' : f c ≡ f d = ground (arith, same) in
          rw same (λ e. split.1 (same', ih.0 e), λ e. ih.1 (split.0 e).1)
      | inr other ↦
          rw other (
            λ e. absurd (order-ne (f c) (f d) e),
            λ e. absurd (ground (arith, other, (split.0 e).0)),
          )
    ]

-- `Q_stricmpn` returns 0 for exactly those strings whose first `n` characters are the same, as
-- capital letters.
pub stricmpn-zero :
    (s t : List ℕ) (n : ℕ) → (stricmpn s t n ≡ 0) ↔ (map upper (take n s) ≡ map upper (take n t))
unfolding stricmpn
stricmpn-zero s t n = compare_by-zero upper n s t

-- The result with the strings swapped.
abbrev pub opposite : ℕ → ℕ
opposite r = if r == 0 then 0 else if r == 1 then minus_one else 1

order-swap : (c d : ℕ) → c < 256 → d < 256 → c ≢ d → order d c ≡ opposite (order c d)
order-swap c d hc hd ne = ground (arith, ne)

upper_lem : (c : ℕ) → IsChar c → IsChar (upper c)
upper_lem c h = ground arith

compare_by-swap :
    (n : ℕ) (s t : List ℕ)
    → All IsChar s
    → All IsChar t
    → compare_by upper n t s ≡ opposite (compare_by upper n s t)
compare_by-swap zero s t hs ht = refl
compare_by-swap (suc n) [] [] hs ht = refl
compare_by-swap (suc n) [] (d ∷ t) hs (hd, ht) =
    let u = upper_lem d hd in
    order-swap 0 (upper d) (omega arith) (omega arith) (λ e. omega (arith, u))
compare_by-swap (suc n) (c ∷ s) [] (hc, hs) ht =
    let u = upper_lem c hc in
    order-swap (upper c) 0 (omega arith) (omega arith) (λ e. omega (arith, u))
compare_by-swap (suc n) (c ∷ s) (d ∷ t) (hc, hs) (hd, ht) =
    let u = upper_lem c hc in
    let v = upper_lem d hd in
    elim (Bool-cases (upper c == upper d)) [
      | inl same ↦
          let back : upper d == upper c ≡ true = ground (arith, same) in
          rw (same, back) (compare_by-swap n s t hs ht)
      | inr other ↦
          let back : upper d == upper c ≡ false = ground (arith, other) in
          rw (other, back)
            (order-swap (upper c) (upper d) (omega arith) (omega arith)
              (λ e. absurd (ground (arith, other, e))))
    ]

-- With its strings swapped `Q_stricmpn` returns the opposite.
pub stricmpn-swap :
    (s t : List ℕ) (n : ℕ)
    → All IsChar s
    → All IsChar t
    → stricmpn t s n ≡ opposite (stricmpn s t n)
unfolding stricmpn
stricmpn-swap s t n hs ht = compare_by-swap n s t hs ht

pub same-eq : (s t : List ℕ) → same s t ≡ true → s ≡ t
same-eq [] [] h = refl
same-eq [] (d ∷ t) h = absurd (ground (arith, h))
same-eq (c ∷ s) [] h = absurd (ground (arith, h))
same-eq (c ∷ s) (d ∷ t) h = ground (arith, h, same-eq s t)

pub same_refl : (s : List ℕ) → same s s ≡ true
same_refl [] = refl
same_refl (c ∷ s) = ground (arith, same_refl s)
