-- ===== src/Reliable/Ring.antt =====
-- The fragments of a window of src/net_reliabletransport.c as a ring, and the bytes of a run of them.
use co_d4x_client_pub.Common.{
  ℕ, zero, suc, ◌+◌, ◌-◌, ◌*◌, ◌/◌, ◌%◌, ◌≤◌, ◌<◌, ◌≡◌, ◌≢◌, inl, inr, refl, sym, ap, Bool-cases,
  List, ◌++◌, ltb, ◌==◌, length, ltb→lt, ltb→le, set, get_or-set_self, get_or-set_ne, append-nil,
  append_assoc, arith,
}
use native.Mathlib.Nat.{div-add-mod, mul-add}
use co_d4x_client_pub.Reliable.{Fragment, Frame, slot, no_fragment, max_fragment_size}
use co_d4x_client_pub.Reliable.Deliver.{window_bytes, fragment_data}

mul-lt : (n a b : ℕ) → a < b → n * a + n ≤ n * b
mul-lt n a b h =
    let k = b - a - 1 in
    let e : b ≡ a + 1 + k = omega arith in rw (e, mul-add n (a + 1) k, mul-add n a 1) (omega arith)

mul-le : (n a b : ℕ) → a ≤ b → n * a ≤ n * b
mul-le n a b h =
    let k = b - a in let e : b ≡ a + k = omega arith in rw (e, mul-add n a k) (omega arith)

-- Two places in a ring that are less than its size apart.
pub mod_ne : (n i j : ℕ) → i < j → j < i + n → i % n ≢ j % n
mod_ne n i j h b e =
    let di = div-add-mod i n in
    let dj = div-add-mod j n in
    elim (Bool-cases (ltb (i / n) (j / n))) [
      | inl l ↦ omega (arith, di, dj, mul-lt n (i / n) (j / n) (ltb→lt (i / n) (j / n) l))
      | inr g ↦ omega (arith, di, dj, mul-le n (j / n) (i / n) (ltb→le (i / n) (j / n) g))
    ]

pub mod_lt : (n i : ℕ) → 0 < n → i % n < n
mod_lt n i h = grind arith

-- A buffer of fragments with its counters: each element has room for a fragment, and no more wait
-- than the buffer holds.
pub record IsRing (f : Frame) : Type 0 where
  pub positive : 0 < f.bufferlen
  pub count : length f.fragments ≡ f.bufferlen
  pub ordered : f.acknowledge ≤ f.sequence
  pub fits : f.sequence ≤ f.acknowledge + f.bufferlen
  pub room : (i : ℕ) → max_fragment_size ≤ length (slot f.fragments f.bufferlen i).data_bytes

-- The bytes that wait for their acknowledge.
abbrev pub queued : Frame → List ℕ
queued f = window_bytes f (f.sequence - f.acknowledge) f.acknowledge

pub window_bytes-agree :
    (f g : Frame) (n i : ℕ)
    → ((j : ℕ)
        → i ≤ j
        → j < i + n
        → fragment_data (slot f.fragments f.bufferlen j)
          ≡ fragment_data (slot g.fragments g.bufferlen j))
    → window_bytes f n i ≡ window_bytes g n i
window_bytes-agree f g zero i h = refl
window_bytes-agree f g (suc n) i h =
    rw
      (
        h i (omega arith) (omega arith),
        window_bytes-agree f g n (i + 1) (λ j a b. h j (omega arith) (omega arith)),
      )
      refl

pub window_bytes-snoc :
    (f : Frame) (n i : ℕ)
    → window_bytes f (suc n) i
      ≡ window_bytes f n i ++ fragment_data (slot f.fragments f.bufferlen (i + n))
window_bytes-snoc f zero i =
    rw append-nil (ap (λ j. fragment_data (slot f.fragments f.bufferlen j)) here)
  where
    here : i ≡ i + 0
    here = omega arith
window_bytes-snoc f (suc n) i = rw (window_bytes-snoc f n (i + 1), append_assoc, there) refl
  where
    there : i + suc n ≡ i + 1 + n
    there = omega arith

-- A write at one place of the ring, read at another.
pub slot-set_ne :
    (fragments : List Fragment) (n i j : ℕ) (g : Fragment)
    → i < j
    → j < i + n
    → slot (set fragments (j % n) g) n i ≡ slot fragments n i
slot-set_ne fragments n i j g h b =
    get_or-set_ne fragments (j % n) (i % n) g no_fragment (λ e. mod_ne n i j h b (sym e))

pub slot-set_self :
    (fragments : List Fragment) (n j : ℕ) (g : Fragment)
    → 0 < n
    → length fragments ≡ n
    → slot (set fragments (j % n) g) n j ≡ g
slot-set_self fragments n j g h e =
    get_or-set_self fragments (j % n) g no_fragment (omega (arith, mod_lt n j h))

pub set-room :
    (fragments : List Fragment) (n j : ℕ) (g : Fragment)
    → 0 < n
    → length fragments ≡ n
    → ((i : ℕ) → max_fragment_size ≤ length (slot fragments n i).data_bytes)
    → max_fragment_size ≤ length g.data_bytes
    → (i : ℕ) → max_fragment_size ≤ length (slot (set fragments (j % n) g) n i).data_bytes
set-room fragments n j g p e room h i = elim (Bool-cases ((j % n) == (i % n))) [
  | inl same ↦
      let same' : j % n ≡ i % n = ground arith in
      rw (sym same', get_or-set_self fragments (j % n) g no_fragment (omega (arith, mod_lt n j p)))
        h
  | inr other ↦
      let other' : j % n ≢ i % n = λ q. absurd (ground arith) in
      rw (get_or-set_ne fragments (j % n) (i % n) g no_fragment other') (room i)
]
