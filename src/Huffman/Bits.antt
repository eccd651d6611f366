-- ===== src/Huffman/Bits.antt =====
-- The bits that src/huffman.c puts into the bytes and takes out of them.
use co_d4x_client_pub.Common.{
  ℕ, zero, suc, ◌+◌, ◌*◌, ◌/◌, ◌%◌, ◌^◌, ◌≤◌, ◌<◌, ◌≡◌, refl, sym, ap, subst, ◌∙◌, arith,
  append-nil, append_assoc, Bool, true, false, List, [], ◌∷◌, ◌++◌, length, length-append,
  length-set, get_or, set, get_or-set_self, get_or-set_ne, bit_or, ◌==◌, Bool-cases, inl, inr,
  if◌then◌else◌,
}
use native.Mathlib.Nat.{pow-suc, div-div-eq-div-mul, pow-le-pow_right}
use co_d4x_client_pub.Common.Bits.{bit_or_fields}
use co_d4x_client_pub.Huffman.{Out, add_bit, get_bit, byte_of}
use co_d4x_client_pub.Huffman.Tree.{add_bits}

-- The bit of a number, by halves.
abbrev bit_at : ℕ → ℕ → ℕ
bit_at zero x = x % 2
bit_at (suc m) x = bit_at m (x / 2)

shifted : (m x : ℕ) → x / 2 ^ m % 2 ≡ bit_at m x
shifted zero x = omega arith
shifted (suc m) x =
    let parts : x / 2 ^ suc m ≡ x / 2 / 2 ^ m =
      ap (λ t. x / t) (pow-suc 2 m ∙ omega arith) ∙ sym (div-div-eq-div-mul x 2 (2 ^ m)) in
    rw parts (shifted m (x / 2))

-- A field above some bits changes none of them.
bit_at-below : (m k q r : ℕ) → m < k → bit_at m (r + q * 2 ^ k) ≡ bit_at m r
bit_at-below m zero q r lt = absurd (omega arith)
bit_at-below zero (suc k) q r lt = ground (arith, pow-suc 2 k, ap (λ t. q * t) (pow-suc 2 k))
bit_at-below (suc m) (suc k) q r lt =
    let half : (r + q * 2 ^ suc k) / 2 ≡ r / 2 + q * 2 ^ k =
      ground (arith, pow-suc 2 k, ap (λ t. q * t) (pow-suc 2 k)) in
    rw half (bit_at-below m k q (r / 2) (omega arith))

bit_at-here : (k q r : ℕ) → r < 2 ^ k → q < 2 → bit_at k (r + q * 2 ^ k) ≡ q
bit_at-here zero q r lt small = omega arith
bit_at-here (suc k) q r lt small =
    let half : (r + q * 2 ^ suc k) / 2 ≡ r / 2 + q * 2 ^ k =
      ground (arith, pow-suc 2 k, ap (λ t. q * t) (pow-suc 2 k)) in
    rw half (bit_at-here k q (r / 2) (ground (arith, pow-suc 2 k)) small)

-- The bits from a position on.
abbrev pub Reads : List ℕ → ℕ → List Bool → Type 0
Reads fin bloc bs = (j : ℕ) → j < length bs → get_bit fin (bloc + j) ≡ get_or bs j false

-- The bytes hold the bits up to the position, and the byte there has no bit beyond.
pub record Written (o : Out) (bs : List Bool) : Type 0 where
  pub count : o.bloc ≡ length bs
  pub reads : Reads o.bytes 0 bs
  pub clean : 0 < o.bloc % 8 → get_or o.bytes (o.bloc / 8) 0 < 2 ^ (o.bloc % 8)

-- The bytes before a bit is put in.
abbrev opened : Out → List ℕ
opened o = if o.bloc % 8 == 0 then set o.bytes (o.bloc / 8) 0 else o.bytes

bit_test : (bit : Bool) → (byte_of bit == 1) ≡ bit
bit_test true = refl
bit_test false = refl

byte_of-lt : (bit : Bool) → byte_of bit < 2
byte_of-lt true = omega arith
byte_of-lt false = omega arith

byte_fits : (k q r : ℕ) → k < 8 → q < 2 → r < 2 ^ k → (r + q * 2 ^ k) % 256 ≡ r + q * 2 ^ k
byte_fits k zero r small bit lt =
    omega (arith, pow-le-pow_right {n = 2} (omega arith) {i = k} {j = 8} (omega arith))
byte_fits k (suc zero) r small bit lt =
    omega
      (arith, pow-suc 2 k, pow-le-pow_right {n = 2} (omega arith) {i = suc k} {j = 8} (omega arith))
byte_fits k (suc (suc q)) r small bit lt = absurd (omega arith)

byte_fits_lt : (k q r : ℕ) → q < 2 → r < 2 ^ k → r + q * 2 ^ k < 2 ^ suc k
byte_fits_lt k zero r bit lt = omega (arith, pow-suc 2 k)
byte_fits_lt k (suc zero) r bit lt = omega (arith, pow-suc 2 k)
byte_fits_lt k (suc (suc q)) r bit lt = absurd (omega arith)

pub get_or-append_lt :
    {A : Type 0} (xs ys : List A) (i : ℕ) (d : A)
    → i < length xs
    → get_or (xs ++ ys) i d ≡ get_or xs i d
get_or-append_lt [] ys i d lt = absurd (omega arith)
get_or-append_lt (x ∷ xs) ys zero d lt = refl
get_or-append_lt (x ∷ xs) ys (suc i) d lt = get_or-append_lt xs ys i d (omega arith)

pub get_or-append_ge :
    {A : Type 0} (xs ys : List A) (i : ℕ) (d : A)
    → get_or (xs ++ ys) (length xs + i) d ≡ get_or ys i d
get_or-append_ge [] ys i d = ap (λ j. get_or ys j d) (omega arith)
get_or-append_ge (x ∷ xs) ys i d =
    ap (λ j. get_or (x ∷ xs ++ ys) j d) {x = suc (length xs) + i} {y = suc (length xs + i)}
      (omega arith)
    ∙ get_or-append_ge xs ys i d

module _ (o : Out) (bs : List Bool) (w : Written o bs) (inside : o.bloc / 8 < length o.bytes) where
  length-opened : length (opened o) ≡ length o.bytes
  length-opened = elim (Bool-cases (o.bloc % 8 == 0)) [
    | inl e ↦ rw e (length-set o.bytes (o.bloc / 8) 0)
    | inr e ↦ rw e refl
  ]

  opened-lt : get_or (opened o) (o.bloc / 8) 0 < 2 ^ (o.bloc % 8)
  opened-lt = elim (Bool-cases (o.bloc % 8 == 0)) [
    | inl e ↦
        let z : o.bloc % 8 ≡ 0 = ground (arith, e) in
        rw (e, z) (rw (get_or-set_self o.bytes (o.bloc / 8) 0 0 inside) (omega arith))
    | inr e ↦ rw e (w.clean (ground (arith, e)))
  ]

  opened-before : (j : ℕ) → j < o.bloc → get_or (opened o) (j / 8) 0 ≡ get_or o.bytes (j / 8) 0
  opened-before j lt = elim (Bool-cases (o.bloc % 8 == 0)) [
    | inl e ↦
        rw e (get_or-set_ne o.bytes (o.bloc / 8) (j / 8) 0 0 (λ same. ground (arith, e, same)))
    | inr e ↦ rw e refl
  ]

  -- The byte that `add_bit` stores.
  stored_byte :
      (bit : Bool)
      → bit_or (get_or (opened o) (o.bloc / 8) 0) (byte_of bit * 2 ^ (o.bloc % 8)) % 256
        ≡ get_or (opened o) (o.bloc / 8) 0 + byte_of bit * 2 ^ (o.bloc % 8)
  stored_byte bit =
      rw (bit_or_fields (o.bloc % 8) (byte_of bit) (get_or (opened o) (o.bloc / 8) 0) opened-lt)
        (byte_fits (o.bloc % 8) (byte_of bit) _ (omega arith) (byte_of-lt bit) opened-lt)

  -- The byte behind `add_bit` at the position.
  add_bit-byte :
      (bit : Bool)
      → get_or (add_bit bit o).bytes (o.bloc / 8) 0
        ≡ get_or (opened o) (o.bloc / 8) 0 + byte_of bit * 2 ^ (o.bloc % 8)
  unfolding add_bit
  add_bit-byte bit =
      get_or-set_self (opened o) (o.bloc / 8) _ 0 (omega (arith, length-opened)) ∙ stored_byte bit

  add_bit_self : (bit : Bool) → get_bit (add_bit bit o).bytes o.bloc ≡ bit
  unfolding get_bit
  add_bit_self bit = rw (add_bit-byte bit) (
      rw
        (
          shifted (o.bloc % 8) (get_or (opened o) (o.bloc / 8) 0 + byte_of bit * 2 ^ (o.bloc % 8)),
          bit_at-here (o.bloc % 8) (byte_of bit) (get_or (opened o) (o.bloc / 8) 0) opened-lt
              (byte_of-lt bit),
        )
        (bit_test bit))

  add_bit-before :
      (bit : Bool) (j : ℕ) → j < o.bloc → get_bit (add_bit bit o).bytes j ≡ get_bit o.bytes j
  unfolding get_bit add_bit
  add_bit-before bit j lt = elim (Bool-cases (j / 8 == o.bloc / 8)) [
    | inl e ↦
        let same : j / 8 ≡ o.bloc / 8 = ground (arith, e) in
        let below : j % 8 < o.bloc % 8 = omega (arith, same) in
        let r = get_or (opened o) (o.bloc / 8) 0 in
        let old : r ≡ get_or o.bytes (o.bloc / 8) 0 =
          ap (λ i. get_or (opened o) i 0) (sym same)
          ∙ opened-before j lt
          ∙ ap (λ i. get_or o.bytes i 0) same in
        rw (same, add_bit-byte bit)
          (ap (λ t. t == 1)
            (shifted (j % 8) (r + byte_of bit * 2 ^ (o.bloc % 8))
              ∙ bit_at-below (j % 8) (o.bloc % 8) (byte_of bit) r below
              ∙ ap (bit_at (j % 8)) old
              ∙ sym (shifted (j % 8) (get_or o.bytes (o.bloc / 8) 0))))
    | inr other ↦
        ap (λ t. t / 2 ^ (j % 8) % 2 == 1)
          (get_or-set_ne (opened o) (o.bloc / 8) (j / 8) _ 0 (λ e. ground (arith, e, other))
            ∙ opened-before j lt)
  ]

  pub add_bit-Written : (bit : Bool) → Written (add_bit bit o) (bs ++ bit ∷ [])
  unfolding add_bit
  add_bit-Written bit = record {
    count = omega (arith, length-append bs (bit ∷ []), w.count);
    reads = λ j lt. elim (Bool-cases (j == o.bloc)) [
      | inl e ↦
          let here : j ≡ o.bloc = ground (arith, e) in
          let z : 0 + o.bloc ≡ o.bloc = omega arith in
          rw (here, z)
            (add_bit_self bit
              ∙ sym (
                  ap (λ i. get_or (bs ++ bit ∷ []) i false) (w.count ∙ omega arith)
                  ∙ get_or-append_ge bs (bit ∷ []) 0 false))
      | inr e ↦
          let before : j < o.bloc = ground (arith, e, lt, length-append bs (bit ∷ []), w.count) in
          let early : j < length bs = omega (arith, before, w.count) in
          let z : 0 + j ≡ j = omega arith in
          rw z (
            add_bit-before bit j before
            ∙ rw z at (w.reads j early)
            ∙ sym (get_or-append_lt bs (bit ∷ []) j false early))
    ];
    clean = λ inner.
        let here : (o.bloc + 1) / 8 ≡ o.bloc / 8 = omega arith in
        let next : (o.bloc + 1) % 8 ≡ suc (o.bloc % 8) = omega arith in
        rw (here, next, add_bit-byte bit)
          (byte_fits_lt (o.bloc % 8) (byte_of bit) _ (byte_of-lt bit) opened-lt);
  }

  pub length-add_bit : (bit : Bool) → length (add_bit bit o).bytes ≡ length o.bytes
  unfolding add_bit
  length-add_bit bit = length-set (opened o) (o.bloc / 8) _ ∙ length-opened

pub add_bits-bloc : (cs : List Bool) (o : Out) → (add_bits cs o).bloc ≡ o.bloc + length cs
unfolding add_bit
add_bits-bloc [] o = omega arith
add_bits-bloc (c ∷ cs) o = omega (arith, add_bits-bloc cs (add_bit c o))

-- More bits, in bytes that have room for them.
pub add_bits-Written :
    (cs bs : List Bool) (o : Out)
    → Written o bs
    → o.bloc + length cs ≤ 8 * length o.bytes
    → Written (add_bits cs o) (bs ++ cs) × (length (add_bits cs o).bytes ≡ length o.bytes)
add_bits-Written [] bs o w room = (rw append-nil w, refl)
add_bits-Written (c ∷ cs) bs o w room =
    let inside : o.bloc / 8 < length o.bytes = omega arith in
    let kept = length-add_bit o bs w inside c in
    let step : (add_bit c o).bloc ≡ o.bloc + 1 = add_bits-bloc (c ∷ []) o in
    let (rest, same) =
      add_bits-Written cs (bs ++ c ∷ []) (add_bit c o) (add_bit-Written o bs w inside c)
        (omega (arith, kept, step)) in
    (
      subst (λ l. Written (add_bits cs (add_bit c o)) l) (append_assoc bs (c ∷ []) cs) rest,
      same ∙ kept,
    )
