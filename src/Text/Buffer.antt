-- ===== src/Text/Buffer.antt =====
-- The bounded copies of src/qshared.c, in the buffer that they write to.
use co_d4x_client_pub.Common.{
  ℕ, zero, suc, ◌+◌, ◌-◌, ◌≤◌, ◌<◌, ◌≡◌, refl, sym, ap, ◌∙◌, some, List, [], ◌∷◌, ◌++◌, length,
  take, drop, replicate, All, arith, put_bytes, length-append, length-replicate, length-take,
  length-drop, take-put_bytes, length-put_bytes, drop-put_bytes, put_bytes-split, append_assoc,
  lt→leb, le→ltb, drop-drop, drop-append_ge,
}
use co_d4x_client_pub.Text.{c_string, strncpyz, strcat}
use co_d4x_client_pub.Text.Compare.{IsChar}

abbrev pub IsString : List ℕ → Type 0
IsString s = All IsChar s

-- A string ends at its first zero byte, whatever stands behind.
pub c_string-append : (s rest : List ℕ) → IsString s → c_string (s ++ 0 ∷ rest) ≡ s
c_string-append [] rest h = refl
c_string-append (c ∷ s) rest (hc, h) = ground (arith, hc, c_string-append s rest h)

-- A text that is stored with its zero byte.
pub c_string-stored :
    (s buf : List ℕ)
    → IsString s
    → length s < length buf
    → c_string (put_bytes buf 0 (s ++ 0 ∷ [])) ≡ s
c_string-stored s buf str lt =
    let size = length-append s (0 ∷ []) in
    let split =
      put_bytes-split (s ++ 0 ∷ []) buf 0 (length s + 1) (omega (arith, size))
        (omega (arith, size)) in
    let rest = drop (length s + 1) buf in
    ap c_string (split ∙ append_assoc s (0 ∷ []) rest) ∙ c_string-append s rest str

take-replicate : (n k : ℕ) → n ≤ k → take n (replicate {A = ℕ} k 0) ≡ replicate n 0
take-replicate zero k h = refl
take-replicate (suc n) zero h = absurd (omega arith)
take-replicate (suc n) (suc k) h = ap (λ l. 0 ∷ l) (take-replicate n k (omega arith))

-- What `strncpyz` puts before the last byte.
abbrev filled : ℕ → List ℕ → List ℕ
filled n src = take n (src ++ replicate n 0)

length-filled : (n : ℕ) (src : List ℕ) → length (filled n src) ≡ n
length-filled n src = omega (
  arith,
  length-take n (src ++ replicate n 0),
  length-append src (replicate n 0),
  length-replicate {A = ℕ} n 0,
)

filled-pad : (n k : ℕ) (src : List ℕ) → n ≤ k → take n (src ++ replicate k 0) ≡ filled n src
filled-pad zero k src h = refl
filled-pad (suc n) k [] h =
    take-replicate (suc n) k h ∙ sym (take-replicate (suc n) (suc n) (omega arith))
filled-pad (suc n) k (c ∷ src) h =
    ap (λ l. c ∷ l)
      (filled-pad n k src (omega arith) ∙ sym (filled-pad n (suc n) src (omega arith)))

filled-c_string :
    (n : ℕ) (src rest : List ℕ) → IsString src → c_string (filled n src ++ 0 ∷ rest) ≡ take n src
filled-c_string zero src rest s = refl
filled-c_string (suc n) [] rest s = refl
filled-c_string (suc n) (c ∷ src) rest (hc, s) =
    rw (filled-pad n (suc n) src (omega arith)) (ground (arith, hc, filled-c_string n src rest s))

-- The whole array behind a copy.
strncpyz-split :
    (dest src : List ℕ) (destsize : ℕ)
    → 0 < destsize
    → destsize ≤ length dest
    → strncpyz dest src destsize ≡ some (filled (destsize - 1) src ++ 0 ∷ drop destsize dest)
unfolding strncpyz
strncpyz-split dest src destsize p h =
    let n = destsize - 1 in
    let size = length-filled n src in
    let copied = put_bytes dest 0 (filled n src) in
    let front = take-put_bytes (filled n src) dest 0 n (omega arith) (omega arith) in
    let back = drop-put_bytes (filled n src) dest 0 destsize (omega arith) in
    let whole =
      put_bytes-split (0 ∷ []) copied n destsize
        (omega (arith, length-put_bytes (filled n src) dest 0)) (omega arith) in
    rw (le→ltb destsize 1 p) (
      ap some
        (whole ∙ rw (front, back) (append_assoc (filled n src) (0 ∷ []) (drop destsize dest))))

pub record Copied (dest dest' s : List ℕ) (size : ℕ) : Type 0 where
  pub string : c_string dest' ≡ s
  pub same_length : length dest' ≡ length dest
  pub outside : drop size dest' ≡ drop size dest

filled-Copied :
    (dest front s : List ℕ) (size : ℕ)
    → length front + 1 ≡ size
    → size ≤ length dest
    → c_string (front ++ 0 ∷ drop size dest) ≡ s
    → Copied dest (front ++ 0 ∷ drop size dest) s size
filled-Copied dest front s size e h same = record {
  string = same;
  same_length = omega (arith, length-append front (0 ∷ drop size dest), length-drop size dest);
  outside = drop-append_ge 1 size front (0 ∷ drop size dest) e;
}

-- `Q_strncpyz` leaves in the buffer the string, cut to one byte less than its size, and does not
-- touch what is behind that size; its size is at least one byte and within the array.
pub strncpyz-c_string :
    (dest src : List ℕ) (destsize : ℕ)
    → 0 < destsize
    → destsize ≤ length dest
    → IsString src
    → (dest' : List ℕ) × (strncpyz dest src destsize ≡ some dest')
      × Copied dest dest' (take (destsize - 1) src) destsize
strncpyz-c_string dest src destsize p h s = (
  filled (destsize - 1) src ++ 0 ∷ drop destsize dest,
  strncpyz-split dest src destsize p h,
  filled-Copied dest (filled (destsize - 1) src) (take (destsize - 1) src) destsize
      (omega (arith, length-filled (destsize - 1) src)) h
      (filled-c_string (destsize - 1) src (drop destsize dest) s),
)

c_string-front :
    (dest rest : List ℕ)
    → c_string (take (length (c_string dest)) dest ++ rest) ≡ c_string dest ++ c_string rest
c_string-front [] rest = refl
c_string-front (c ∷ dest) rest = ground (arith, c_string-front dest rest)

length-c_string : (dest : List ℕ) → length (c_string dest) ≤ length dest
length-c_string [] = omega arith
length-c_string (c ∷ dest) = ground (arith, length-c_string dest)

-- `Q_strcat` puts as much of the string behind the one in the buffer as its size has room for, with
-- the zero byte, and does not touch what is behind that size; the string in the buffer is shorter
-- than the size, and that is within the array.
pub strcat-c_string :
    (dest src : List ℕ) (size : ℕ)
    → length (c_string dest) < size
    → size ≤ length dest
    → IsString src
    → (dest' : List ℕ) × (strcat dest size src ≡ some dest')
      × Copied dest dest' (c_string dest ++ take (size - length (c_string dest) - 1) src) size
unfolding strcat
strcat-c_string dest src size p h s =
    let l = length (c_string dest) in
    let part = drop l dest in
    let split =
      strncpyz-split part src (size - l) (omega arith) (omega (arith, length-drop l dest)) in
    let front = take l dest ++ filled (size - l - 1) src in
    let behind = drop-drop l (size - l) size dest (omega arith) in
    (
      front ++ 0 ∷ drop size dest,
      rw (lt→leb l size p, split, behind)
          (ap some
            (sym (append_assoc (take l dest) (filled (size - l - 1) src) (0 ∷ drop size dest)))),
      filled-Copied dest front (c_string dest ++ take (size - l - 1) src) size
          (omega (
            arith,
            length-append (take l dest) (filled (size - l - 1) src),
            length-take l dest,
            length-filled (size - l - 1) src,
          ))
          h
          (rw append_assoc (
            rw (c_string-front dest (filled (size - l - 1) src ++ 0 ∷ drop size dest)) (
              ap (λ t. c_string dest ++ t)
                (filled-c_string (size - l - 1) src (drop size dest) s)))),
    )
