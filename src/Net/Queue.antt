-- ===== src/Net/Queue.antt =====
-- The loopback buffer of src/net_chan.c, and a queue of packets as its abstract view.
use co_d4x_client_pub.Common.{
  ℕ, zero, suc, ◌+◌, ◌-◌, ◌%◌, ◌^◌, ◌≤◌, ◌<◌, ◌≡◌, ◌≢◌, refl, sym, ap, ◌∙◌, arith, Option, none,
  some, List, [], ◌∷◌, ◌++◌, length, length-append, get_or, set, le→ltb, lt→ltb, sle, add32, true,
  false, length-set, get_or-set_self, get_or-set_ne, min, ltb, if◌then◌else◌, drop, All,
}
use native.Mathlib.Decide.{dec_lt}
use co_d4x_client_pub.Net.{Loopback, max_packetlen, catch_up, get_loop_packet, send_loop_packet}

-- The storage has its 16 places and was not written past, and the counters of the 2 ^ 31 - 1 packets
-- that they can count are in order.
pub record IsValid (l : Loopback) : Type 0 where
  pub storage : length l.msgs ≡ 16
  pub ordered : l.get ≤ l.send
  pub countable : l.send + 1 < 2 ^ 31
  pub intact : l.intact ≡ true

-- The `n` packets from counter `s` on.
abbrev pub window : List (List ℕ) → ℕ → ℕ → List (List ℕ)
window msgs s zero = []
window msgs s (suc n) = get_or msgs (s % 16) [] ∷ window msgs (s + 1) n

-- How many packets can still be read, and which.
abbrev pub count : Loopback → ℕ
count l = min 16 (l.send - l.get)

abbrev pub pending : Loopback → List (List ℕ)
pending l = window l.msgs (l.send - count l) (count l)

-- The queue: a packet goes to the back, and with more than 16 the oldest is dropped.
pub enqueue : List (List ℕ) → List ℕ → List (List ℕ)
enqueue q bytes = let q' = q ++ bytes ∷ [] in if ltb 16 (length q') then drop 1 q' else q'

pub dequeue : List (List ℕ) → Option (List ℕ) × List (List ℕ)
dequeue [] = (none, [])
dequeue (bytes ∷ q) = (some bytes, q)

pub length-window : (msgs : List (List ℕ)) (s n : ℕ) → length (window msgs s n) ≡ n
length-window msgs s zero = refl
length-window msgs s (suc n) = ap suc (length-window msgs (s + 1) n)

-- A packet stored behind fewer than 16 others joins them.
window-set :
    (msgs : List (List ℕ)) (bytes : List ℕ) (n s e : ℕ)
    → length msgs ≡ 16
    → n < 16
    → s + n ≡ e
    → window (set msgs (e % 16) bytes) s (suc n) ≡ window msgs s n ++ bytes ∷ []
window-set msgs bytes zero s e l h k =
    let same : s ≡ e = omega arith in
    rw (same, get_or-set_self msgs (e % 16) bytes [] (omega arith))
window-set msgs bytes (suc n) s e l h k =
    let apart : e % 16 ≢ s % 16 = omega arith in
    rw (get_or-set_ne msgs (e % 16) (s % 16) bytes [] apart) (
      ap (λ q. get_or msgs (s % 16) [] ∷ q)
        (window-set msgs bytes n (s + 1) e l (omega arith) (omega arith)))

-- The view over its numbers: `n` packets up to counter `e`, and one more.
window_room :
    (l : Loopback) (bytes : List ℕ)
    → IsValid l
    → count l < 16
    → pending (send_loop_packet l bytes) ≡ pending l ++ bytes ∷ []
unfolding send_loop_packet
window_room l bytes v below =
    let n : count (send_loop_packet l bytes) ≡ suc (count l) = omega arith in
    let s : (send_loop_packet l bytes).send - suc (count l) ≡ l.send - count l = omega arith in
    rw (n, s)
      (window-set l.msgs bytes (count l) (l.send - count l) l.send v.storage below (omega arith))

window_full :
    (l : Loopback) (bytes : List ℕ)
    → IsValid l
    → 16 ≤ count l
    → pending (send_loop_packet l bytes) ≡ drop 1 (pending l ++ bytes ∷ [])
unfolding send_loop_packet
window_full l bytes v full =
    let n : count (send_loop_packet l bytes) ≡ 16 = omega arith in
    let s : (send_loop_packet l bytes).send - 16 ≡ l.send - 15 = omega arith in
    let n0 : count l ≡ 16 = omega arith in
    let s0 : l.send - 16 + 1 ≡ l.send - 15 = omega arith in
    rw (n, s, n0)
      (window-set l.msgs bytes 15 (l.send - 15) l.send v.storage (omega arith) (omega arith)
        ∙ rw s0)

-- `NET_SendLoopPacket` puts the packet at the back of the queue, which drops the oldest of 17.
pub send_loop_packet_refines :
    (l : Loopback) (bytes : List ℕ)
    → IsValid l
    → pending (send_loop_packet l bytes) ≡ enqueue (pending l) bytes
unfolding enqueue
send_loop_packet_refines l bytes v = elim (dec_lt (count l) 16) [
  | yes below ↦
      rw (le→ltb 16 (length (pending l ++ bytes ∷ [])) (omega (arith, grows)))
        (window_room l bytes v below)
  | no above ↦
      rw (lt→ltb 16 (length (pending l ++ bytes ∷ [])) (omega (arith, grows)))
        (window_full l bytes v (omega arith))
]
  where
    grows : length (pending l ++ bytes ∷ []) ≡ count l + 1
    grows =
        length-append (pending l) (bytes ∷ [])
        ∙ ap (λ k. k + 1) (length-window l.msgs (l.send - count l) (count l))

catch_up_lem : (l : Loopback) → IsValid l → catch_up l ≡ record l { get = l.send - count l }
catch_up_lem l v = ground arith

dequeue-window :
    (msgs : List (List ℕ)) (n s k : ℕ)
    → n ≡ suc k
    → dequeue (window msgs s n) ≡ (some (get_or msgs (s % 16) []), window msgs (s + 1) k)
unfolding dequeue
dequeue-window msgs n s k e = rw e

window_none : (msgs : List (List ℕ)) (n s : ℕ) → n ≡ 0 → window msgs s n ≡ []
window_none msgs n s e = rw e

-- `NET_GetLoopPacket` takes the packet at the front of the queue, and answers that there is none
-- exactly where the queue is empty. The buffer stays valid.
pub get_loop_packet_refines :
    (l : Loopback)
    → IsValid l
    → let (answer, l') = get_loop_packet l in
      ((answer, pending l') ≡ dequeue (pending l)) × IsValid l'
unfolding get_loop_packet dequeue
get_loop_packet_refines l v = elim (dec_lt l.get l.send) [
  | yes left ↦
      let g : ℕ = l.send - count l in
      let more : sle l.send g ≡ false = ground arith in
      let k : ℕ = min 16 (l.send - (g + 1)) in
      let front : Option (List ℕ) = some (get_or l.msgs (g % 16) []) in
      let wrap : add32 g 1 ≡ g + 1 = omega arith in
      rw (catch_up_lem l v, more, wrap)
        (
          ap (λ t. (front, window l.msgs t k)) (omega arith)
              ∙ sym (dequeue-window l.msgs (count l) g k (omega arith)),
          record {
            storage = v.storage;
            ordered = omega arith;
            countable = omega arith;
            intact = v.intact;
          },
        )
  | no done ↦
      let g : ℕ = l.send - count l in
      let none_left : sle l.send g ≡ true = ground arith in
      let n : count l ≡ 0 = omega arith in
      rw (catch_up_lem l v, none_left)
        (
          ap (λ t. (none, t))
                (window_none l.msgs (min 16 (l.send - g)) (l.send - min 16 (l.send - g))
                  (omega arith))
              ∙ sym (ap dequeue (window_none l.msgs (count l) g n)),
          record {
            storage = v.storage;
            ordered = omega arith;
            countable = omega arith;
            intact = v.intact;
          },
        )
]

send_loop_packet-IsValid :
    (l : Loopback) (bytes : List ℕ)
    → IsValid l
    → l.send + 2 < 2 ^ 31
    → length bytes ≤ max_packetlen
    → IsValid (send_loop_packet l bytes) × ((send_loop_packet l bytes).send ≡ l.send + 1)
unfolding send_loop_packet
send_loop_packet-IsValid l bytes v h fits =
    ground (arith, length-set l.msgs (l.send % 16) bytes, v.intact)

get_loop_packet-send : (l : Loopback) → (get_loop_packet l).1.send ≡ l.send
unfolding get_loop_packet
get_loop_packet-send l = ground arith

-- A call of one side.
pub data Call : Type 0 where
  put : List ℕ → Call
  take_one : Call

-- A packet that has room in its message's storage.
abbrev pub Fits : Call → Type 0
Fits (put bytes) = length bytes ≤ max_packetlen
Fits take_one = Unit

-- What the calls to read answer, on the buffer and on the queue.
abbrev pub run : Loopback → List Call → List (Option (List ℕ))
run l [] = []
run l (put bytes ∷ calls) = run (send_loop_packet l bytes) calls
run l (take_one ∷ calls) = (get_loop_packet l).0 ∷ run (get_loop_packet l).1 calls

abbrev pub run_queue : List (List ℕ) → List Call → List (Option (List ℕ))
run_queue q [] = []
run_queue q (put bytes ∷ calls) = run_queue (enqueue q bytes) calls
run_queue q (take_one ∷ calls) = (dequeue q).0 ∷ run_queue (dequeue q).1 calls

-- The buffer behind the calls.
abbrev pub final : Loopback → List Call → Loopback
final l [] = l
final l (put bytes ∷ calls) = final (send_loop_packet l bytes) calls
final l (take_one ∷ calls) = final (get_loop_packet l).1 calls

-- No sequence of calls whose packets are at most as long as the storage of a message, 1400 bytes, tells
-- a valid loopback buffer from the queue of its pending packets, which keeps the last 16 packets that
-- were not read, as long as fewer than 2 ^ 31 - 1 are sent; nothing is written past a message's storage.
pub run_refines :
    (calls : List Call) (l : Loopback)
    → IsValid l
    → l.send + length calls + 1 < 2 ^ 31
    → All Fits calls
    → (run l calls ≡ run_queue (pending l) calls) × ((final l calls).intact ≡ true)
run_refines [] l v h p = (refl, v.intact)
run_refines (put bytes ∷ calls) l v h (pb, p) =
    let (v', e) = send_loop_packet-IsValid l bytes v (omega arith) pb in
    rw (← send_loop_packet_refines l bytes v)
      (run_refines calls (send_loop_packet l bytes) v' (omega arith) p)
run_refines (take_one ∷ calls) l v h (pb, p) =
    let (e, v') = get_loop_packet_refines l v in
    let (answers, kept) =
      run_refines calls (get_loop_packet l).1 v' (omega (arith, get_loop_packet-send l)) p in
    rw (← e) (ap (λ rest. (get_loop_packet l).0 ∷ rest) answers, kept)
