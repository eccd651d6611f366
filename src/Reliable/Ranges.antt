-- ===== src/Reliable/Ranges.antt =====
-- The ranges that `ReliableMessageWriteSelectiveAcklist` of src/net_reliabletransport.c finds in the
-- receive window, and what its loop counts of them.
use co_d4x_client_pub.Common.{
  ℕ, zero, suc, ◌+◌, ◌-◌, ◌≤◌, ◌<◌, ◌≡◌, ◌∙◌, subst, true, false, Bool, Bool-cases, inl, inr, List,
  [], ◌∷◌, not, ◌&&◌, ltb, leb, min, if◌then◌else◌, arith,
}
use co_d4x_client_pub.Reliable.{Frame, has_ack}
use co_d4x_client_pub.Reliable.Transmit.{Acks, acks_loop, end_range, in_range, is_full}

-- Which of the `n` fragments from offset `i` on have come.
abbrev pub arrivals : Frame → ℕ → ℕ → List Bool
arrivals f zero i = []
arrivals f (suc n) i = has_ack f (i + f.sequence) ∷ arrivals f n (i + 1)

-- How many ranges begin in such a list, and how many a gap ends, behind a fragment that has come or not.
abbrev pub begun : Bool → List Bool → ℕ
begun before [] = 0
begun before (came ∷ rest) = (if came && not before then 1 else 0) + begun came rest

abbrev pub ended : Bool → List Bool → ℕ
ended before [] = 0
ended before (came ∷ rest) = (if before && not came then 1 else 0) + ended came rest

-- What the loop counts of such a list, with `k` ranges begun before: the ranges up to the third, and
-- whether it leaves the window early, which it does where a gap ends a third.
pub record Counts (before : Bool) (k : ℕ) (window : List Bool) (limit : ℕ) (r : Acks × ℕ)
    : Type 0 where
  pub count : r.0.count ≡ min 3 (k + begun before window)
  pub early : ltb r.1 limit ≡ leb (3 + (if before then 1 else 0)) (k + ended before window)

Counts-end :
    (before : Bool) (limit i : ℕ) (a : Acks)
    → limit ≤ i
    → a.count + (if before then 0 else 1) ≤ 3
    → Counts before a.count [] limit (a, i)
Counts-end true limit i a h few = record { count = omega arith; early = ground arith }
Counts-end false limit i a h few = record { count = omega arith; early = ground arith }

Counts-came :
    (before : Bool) (k : ℕ) (window : List Bool) (limit : ℕ) (r : Acks × ℕ)
    → Counts true (if before then k else k + 1) window limit r
    → Counts before k (true ∷ window) limit r
Counts-came true k window limit r c = record {
  count = omega (arith, c.count);
  early = c.early ∙ ground arith;
}
Counts-came false k window limit r c = record {
  count = omega (arith, c.count);
  early = c.early ∙ ground arith;
}

Counts-gap :
    (before : Bool) (k : ℕ) (window : List Bool) (limit : ℕ) (r : Acks × ℕ)
    → Counts false k window limit r
    → Counts before k (false ∷ window) limit r
Counts-gap true k window limit r c = record {
  count = omega (arith, c.count);
  early = c.early ∙ ground arith;
}
Counts-gap false k window limit r c = record {
  count = omega (arith, c.count);
  early = c.early ∙ ground arith;
}

Counts-full :
    (before : Bool) (k : ℕ) (window : List Bool) (limit i : ℕ) (a : Acks)
    → before ≡ true
    → i < limit
    → a.count ≡ 3
    → k ≡ 3
    → Counts before k (false ∷ window) limit (a, i)
Counts-full true k window limit i a on h e three = record {
  count = omega arith;
  early = ground arith;
}
Counts-full false k window limit i a on h e three = absurd (ground arith)

count-in_range :
    (a : Acks) (i : ℕ) → (in_range a i).count ≡ (if a.inrange then a.count else a.count + 1)
count-in_range a i = ground arith

count-end_range : (a : Acks) → (end_range a).count ≡ a.count
count-end_range a = ground arith

pub acks_loop-Counts :
    (f : Frame) (n i limit : ℕ) (a : Acks)
    → n ≡ limit - i
    → a.count + (if a.inrange then 0 else 1) ≤ 3
    → Counts a.inrange a.count (arrivals f n i) limit (acks_loop f n i a)
unfolding acks_loop
acks_loop-Counts f zero i limit a h few = Counts-end a.inrange limit i a (omega arith) few
acks_loop-Counts f (suc n) i limit a h few = elim (Bool-cases (has_ack f (i + f.sequence))) [
  | inl came ↦
      let rest = arrivals f n (i + 1) in
      let next =
        acks_loop-Counts f n (i + 1) limit (in_range a i) (omega arith) (ground (arith, few)) in
      rw came (
        Counts-came a.inrange a.count rest limit (acks_loop f n (i + 1) (in_range a i)) (
          subst (λ k. Counts true k rest limit (acks_loop f n (i + 1) (in_range a i)))
            (count-in_range a i) next))
  | inr gap ↦ elim (Bool-cases (is_full a)) [
    | inl full ↦
        let on : a.inrange ≡ true = ground (arith, full) in
        let three : a.count ≡ 3 = ground (arith, full, few, on) in
        rw (gap, full)
          (Counts-full a.inrange a.count (arrivals f n (i + 1)) limit i (end_range a) on
            (omega arith) (count-end_range a ∙ three) three)
    | inr part ↦
        let rest = arrivals f n (i + 1) in
        let a' = record (end_range a) { inrange = false } in
        let next =
          acks_loop-Counts f n (i + 1) limit a' (omega arith) (ground (arith, few, part)) in
        rw (gap, part)
          (Counts-gap a.inrange a.count rest limit (acks_loop f n (i + 1) a') (
            subst (λ k. Counts false k rest limit (acks_loop f n (i + 1) a')) (count-end_range a)
              next))
  ]
]
