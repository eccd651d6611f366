-- ===== src/Common/Bytes.antt =====
-- Numbers in memory, lowest byte first, as the x86 client stores and loads them.
use Prim.Native.Nat.{ℕ, zero, suc, ◌+◌, ◌*◌, ◌/◌, ◌%◌, ◌^◌, ◌≤◌, ◌<◌}
use mathlib.Core.Path.{◌≡◌, refl, sym, ap, ◌∙◌}
use mathlib.Core.List.{List, [], ◌∷◌, ◌++◌, append-nil, append_assoc}
use native.Mathlib.Omega.{arith}
use native.Mathlib.Nat.{pow-suc}
use co_d4x_client_pub.Common.Lists.{
  length, set, take, drop, length-set, take-set_suc, take-set_le, drop-set_lt, take-append-drop,
}

abbrev pub le_bytes : ℕ → ℕ → List ℕ
le_bytes zero c = []
le_bytes (suc n) c = (c % 256) ∷ le_bytes n (c / 256)

abbrev pub from_le : List ℕ → ℕ
from_le [] = 0
from_le (b ∷ bs) = b + 256 * from_le bs

-- Consecutive writes from offset `i` on.
abbrev pub put_bytes : List ℕ → ℕ → List ℕ → List ℕ
put_bytes buf i [] = buf
put_bytes buf i (b ∷ bs) = put_bytes (set buf i b) (i + 1) bs

pub length-le_bytes : (n c : ℕ) → length (le_bytes n c) ≡ n
length-le_bytes zero c = refl
length-le_bytes (suc n) c = ap suc (length-le_bytes n (c / 256))

pub from_le-le_bytes : (n c : ℕ) → c < 256 ^ n → from_le (le_bytes n c) ≡ c
from_le-le_bytes zero c h = omega arith
from_le-le_bytes (suc n) c h =
    omega (arith, from_le-le_bytes n (c / 256) (omega (arith, pow-suc 256 n)))

pub length-put_bytes : (bs buf : List ℕ) (i : ℕ) → length (put_bytes buf i bs) ≡ length buf
length-put_bytes [] buf i = refl
length-put_bytes (b ∷ bs) buf i = length-put_bytes bs (set buf i b) (i + 1) ∙ length-set buf i b

-- What stands before the writes stays, and the bytes follow it.
pub take-put_bytes :
    (bs buf : List ℕ) (i k : ℕ)
    → i + length bs ≤ length buf
    → i + length bs ≡ k
    → take k (put_bytes buf i bs) ≡ take i buf ++ bs
take-put_bytes [] buf i k h e = rw append-nil (ap (λ j. take j buf) (omega arith))
take-put_bytes (b ∷ bs) buf i k h e =
    take-put_bytes bs (set buf i b) (i + 1) k (omega (arith, length-set buf i b)) (omega arith)
    ∙ rw (take-set_suc buf i b (omega arith)) (append_assoc (take i buf) (b ∷ []) bs)

pub take-put_bytes_le :
    (bs buf : List ℕ) (n i : ℕ) → n ≤ i → take n (put_bytes buf i bs) ≡ take n buf
take-put_bytes_le [] buf n i h = refl
take-put_bytes_le (b ∷ bs) buf n i h =
    take-put_bytes_le bs (set buf i b) n (i + 1) (omega arith) ∙ take-set_le buf n i b h

pub drop-put_bytes :
    (bs buf : List ℕ) (i n : ℕ) → i + length bs ≤ n → drop n (put_bytes buf i bs) ≡ drop n buf
drop-put_bytes [] buf i n h = refl
drop-put_bytes (b ∷ bs) buf i n h =
    drop-put_bytes bs (set buf i b) (i + 1) n (omega arith) ∙ drop-set_lt buf n i b (omega arith)

-- The writes as a whole.
pub put_bytes-split :
    (bs buf : List ℕ) (i k : ℕ)
    → i + length bs ≤ length buf
    → i + length bs ≡ k
    → put_bytes buf i bs ≡ (take i buf ++ bs) ++ drop k buf
put_bytes-split bs buf i k h e =
    sym (take-append-drop k (put_bytes buf i bs))
    ∙ rw (take-put_bytes bs buf i k h e, drop-put_bytes bs buf i k (omega arith))
