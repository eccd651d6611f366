-- ===== src/Common/Lists.antt =====
-- C arrays as lists measured and indexed by native numbers, under the library's names.
use Prim.Native.Nat.{ℕ, zero, suc, ◌+◌, ◌-◌, ◌≤◌, ◌<◌, min}
use mathlib.Core.Path.{◌≡◌, refl, ap, ◌∙◌}
use mathlib.Core.Logic.{◌≢◌}
use mathlib.Core.List.{List, [], ◌∷◌, ◌++◌}
use native.Mathlib.Omega.{arith}

module _ {ℓ} {A : Type ℓ} where
  abbrev pub length : List A → ℕ
  length [] = 0
  length (x ∷ xs) = suc (length xs)

  abbrev pub get_or : List A → ℕ → A → A
  get_or [] i d = d
  get_or (x ∷ xs) zero d = x
  get_or (x ∷ xs) (suc i) d = get_or xs i d

  -- A write out of bounds changes nothing.
  abbrev pub set : List A → ℕ → A → List A
  set [] i v = []
  set (x ∷ xs) zero v = v ∷ xs
  set (x ∷ xs) (suc i) v = x ∷ set xs i v

  abbrev pub take : ℕ → List A → List A
  take zero xs = []
  take (suc n) [] = []
  take (suc n) (x ∷ xs) = x ∷ take n xs

  abbrev pub drop : ℕ → List A → List A
  drop zero xs = xs
  drop (suc n) [] = []
  drop (suc n) (x ∷ xs) = drop n xs

  abbrev pub replicate : ℕ → A → List A
  replicate zero a = []
  replicate (suc n) a = a ∷ replicate n a

  abbrev pub All {κ} : (A → Type κ) → List A → Type κ
  All P [] = Unit {κ}
  All P (x ∷ xs) = P x × All P xs

  pub length-append : (xs ys : List A) → length (xs ++ ys) ≡ length xs + length ys
  length-append [] ys = omega arith
  length-append (x ∷ xs) ys = omega (arith, length-append xs ys)

  pub length-set : (xs : List A) (i : ℕ) (v : A) → length (set xs i v) ≡ length xs
  length-set [] i v = refl
  length-set (x ∷ xs) zero v = refl
  length-set (x ∷ xs) (suc i) v = ap suc (length-set xs i v)

  pub length-take : (n : ℕ) (xs : List A) → length (take n xs) ≡ min n (length xs)
  length-take zero xs = omega arith
  length-take (suc n) [] = omega arith
  length-take (suc n) (x ∷ xs) = omega (arith, length-take n xs)

  pub length-drop : (n : ℕ) (xs : List A) → length (drop n xs) ≡ length xs - n
  length-drop zero xs = omega arith
  length-drop (suc n) [] = omega arith
  length-drop (suc n) (x ∷ xs) = omega (arith, length-drop n xs)

  pub length-replicate : (n : ℕ) (a : A) → length (replicate n a) ≡ n
  length-replicate zero a = refl
  length-replicate (suc n) a = ap suc (length-replicate n a)

  pub get_or-set_self :
      (xs : List A) (i : ℕ) (v d : A) → i < length xs → get_or (set xs i v) i d ≡ v
  get_or-set_self [] i v d h = absurd (omega arith)
  get_or-set_self (x ∷ xs) zero v d h = refl
  get_or-set_self (x ∷ xs) (suc i) v d h = get_or-set_self xs i v d (omega arith)

  pub get_or-set_ne :
      (xs : List A) (i j : ℕ) (v d : A) → i ≢ j → get_or (set xs i v) j d ≡ get_or xs j d
  get_or-set_ne [] i j v d h = refl
  get_or-set_ne (x ∷ xs) zero zero v d h = absurd (h refl)
  get_or-set_ne (x ∷ xs) zero (suc j) v d h = refl
  get_or-set_ne (x ∷ xs) (suc i) zero v d h = refl
  get_or-set_ne (x ∷ xs) (suc i) (suc j) v d h = get_or-set_ne xs i j v d (λ e. h (ap suc e))

  pub take-append_left : (n : ℕ) (xs ys : List A) → n ≡ length xs → take n (xs ++ ys) ≡ xs
  take-append_left zero [] ys e = refl
  take-append_left zero (x ∷ xs) ys e = absurd (omega arith)
  take-append_left (suc n) [] ys e = absurd (omega arith)
  take-append_left (suc n) (x ∷ xs) ys e = ap (λ l. x ∷ l) (take-append_left n xs ys (omega arith))

  pub drop-append_left : (n : ℕ) (xs ys : List A) → n ≡ length xs → drop n (xs ++ ys) ≡ ys
  drop-append_left zero [] ys e = refl
  drop-append_left zero (x ∷ xs) ys e = absurd (omega arith)
  drop-append_left (suc n) [] ys e = absurd (omega arith)
  drop-append_left (suc n) (x ∷ xs) ys e = drop-append_left n xs ys (omega arith)

  pub take-all : (n : ℕ) (xs : List A) → length xs ≤ n → take n xs ≡ xs
  take-all zero [] h = refl
  take-all zero (x ∷ xs) h = absurd (omega arith)
  take-all (suc n) [] h = refl
  take-all (suc n) (x ∷ xs) h = ap (λ l. x ∷ l) (take-all n xs (omega arith))

  pub take-append-drop : (n : ℕ) (xs : List A) → take n xs ++ drop n xs ≡ xs
  take-append-drop zero xs = refl
  take-append-drop (suc n) [] = refl
  take-append-drop (suc n) (x ∷ xs) = rw (take-append-drop n xs)

  pub drop-drop : (m n k : ℕ) (xs : List A) → m + n ≡ k → drop n (drop m xs) ≡ drop k xs
  drop-drop zero n k xs e = ap (λ j. drop j xs) (omega arith)
  drop-drop (suc m) zero zero [] e = refl
  drop-drop (suc m) zero (suc k) [] e = refl
  drop-drop (suc m) (suc n) zero [] e = refl
  drop-drop (suc m) (suc n) (suc k) [] e = refl
  drop-drop (suc m) n zero (x ∷ xs) e = absurd (omega arith)
  drop-drop (suc m) n (suc k) (x ∷ xs) e = drop-drop m n k xs (omega arith)

  -- A write at `i` splits the array there.
  pub take-set_suc :
      (xs : List A) (i : ℕ) (v : A)
      → i < length xs
      → take (i + 1) (set xs i v) ≡ take i xs ++ v ∷ []
  take-set_suc [] i v h = absurd (omega arith)
  take-set_suc (x ∷ xs) zero v h = refl
  take-set_suc (x ∷ xs) (suc i) v h =
      ap (λ k. take k (x ∷ set xs i v)) step ∙ ap (λ l. x ∷ l) (take-set_suc xs i v (omega arith))
    where
      step : suc i + 1 ≡ suc (i + 1)
      step = omega arith

  pub take-set_le : (xs : List A) (n i : ℕ) (v : A) → n ≤ i → take n (set xs i v) ≡ take n xs
  take-set_le xs zero i v h = refl
  take-set_le [] (suc n) i v h = refl
  take-set_le (x ∷ xs) (suc n) zero v h = absurd (omega arith)
  take-set_le (x ∷ xs) (suc n) (suc i) v h = ap (λ l. x ∷ l) (take-set_le xs n i v (omega arith))

  pub drop-set_lt : (xs : List A) (n i : ℕ) (v : A) → i < n → drop n (set xs i v) ≡ drop n xs
  drop-set_lt xs zero i v h = absurd (omega arith)
  drop-set_lt [] (suc n) i v h = refl
  drop-set_lt (x ∷ xs) (suc n) zero v h = refl
  drop-set_lt (x ∷ xs) (suc n) (suc i) v h = drop-set_lt xs n i v (omega arith)

  -- A window inside a prefix is a window of the whole.
  pub take-drop-take :
      (i n k : ℕ) (xs : List A) → i + n ≤ k → take n (drop i (take k xs)) ≡ take n (drop i xs)
  take-drop-take zero zero k xs h = refl
  take-drop-take zero (suc n) zero xs h = absurd (omega arith)
  take-drop-take zero (suc n) (suc k) [] h = refl
  take-drop-take zero (suc n) (suc k) (x ∷ xs) h =
      ap (λ l. x ∷ l) (take-drop-take zero n k xs (omega arith))
  take-drop-take (suc i) n zero xs h = absurd (omega arith)
  take-drop-take (suc i) n (suc k) [] h = refl
  take-drop-take (suc i) n (suc k) (x ∷ xs) h = take-drop-take i n k xs (omega arith)

  pub drop-take : (k n j : ℕ) (xs : List A) → k + j ≡ n → drop k (take n xs) ≡ take j (drop k xs)
  drop-take zero n j xs e = ap (λ t. take t xs) (omega arith)
  drop-take (suc k) zero j xs e = absurd (omega arith)
  drop-take (suc k) (suc n) zero [] e = refl
  drop-take (suc k) (suc n) (suc j) [] e = refl
  drop-take (suc k) (suc n) j (x ∷ xs) e = drop-take k n j xs (omega arith)

  pub take-append_le : (n : ℕ) (xs ys : List A) → n ≤ length xs → take n (xs ++ ys) ≡ take n xs
  take-append_le zero xs ys h = refl
  take-append_le (suc n) [] ys h = absurd (omega arith)
  take-append_le (suc n) (x ∷ xs) ys h = ap (λ l. x ∷ l) (take-append_le n xs ys (omega arith))

  pub drop-append_le :
      (n : ℕ) (xs ys : List A) → n ≤ length xs → drop n (xs ++ ys) ≡ drop n xs ++ ys
  drop-append_le zero xs ys h = refl
  drop-append_le (suc n) [] ys h = absurd (omega arith)
  drop-append_le (suc n) (x ∷ xs) ys h = drop-append_le n xs ys (omega arith)

  pub take-append_ge :
      (k n : ℕ) (xs ys : List A) → length xs + k ≡ n → take n (xs ++ ys) ≡ xs ++ take k ys
  take-append_ge k n [] ys e = ap (λ j. take j ys) (omega arith)
  take-append_ge k zero (x ∷ xs) ys e = absurd (omega arith)
  take-append_ge k (suc n) (x ∷ xs) ys e = ap (λ l. x ∷ l) (take-append_ge k n xs ys (omega arith))

  pub drop-append_ge :
      (k n : ℕ) (xs ys : List A) → length xs + k ≡ n → drop n (xs ++ ys) ≡ drop k ys
  drop-append_ge k n [] ys e = ap (λ j. drop j ys) (omega arith)
  drop-append_ge k zero (x ∷ xs) ys e = absurd (omega arith)
  drop-append_ge k (suc n) (x ∷ xs) ys e = drop-append_ge k n xs ys (omega arith)

  pub All-take {κ} : (P : A → Type κ) (n : ℕ) (xs : List A) → All P xs → All P (take n xs)
  All-take P zero xs a = tt
  All-take P (suc n) [] a = a
  All-take P (suc n) (x ∷ xs) (a, more) = (a, All-take P n xs more)

  pub All-drop {κ} : (P : A → Type κ) (n : ℕ) (xs : List A) → All P xs → All P (drop n xs)
  All-drop P zero xs a = a
  All-drop P (suc n) [] a = a
  All-drop P (suc n) (x ∷ xs) (a, more) = All-drop P n xs more

pub drop-nil {ℓ} : (A : Type ℓ) (n : ℕ) → drop {A = A} n [] ≡ []
drop-nil A zero = refl
drop-nil A (suc n) = refl
