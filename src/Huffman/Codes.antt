-- ===== src/Huffman/Codes.antt =====
-- The bits of bytes, as src/huffman.c writes them and reads them in its tree.
use co_d4x_client_pub.Common.{
  ℕ, zero, suc, ◌+◌, ◌-◌, ◌*◌, ◌%◌, ◌^◌, ◌≤◌, ◌<◌, ◌≡◌, refl, sym, ap, ◌∙◌, arith, Bool, true,
  false, none, some, List, [], ◌∷◌, ◌++◌, length, length-append, put_bytes, set, ◌==◌, slt, All,
  Option-cases, inl, inr,
}
use native.Mathlib.Nat.{mod-eq_of_lt}
use co_d4x_client_pub.Msg.Stream.{IsByte}
use co_d4x_client_pub.Huffman.{
  Huff, Out, node_at, internal_node, max_nodes, is_at, get_bit, send_child, offset_transmit,
  offset_receive, write_loop, read_loop,
}
use co_d4x_client_pub.Huffman.Tree.{
  IsTree, linked-root, has_leaf-Leaf, linked-Parent, child_of, code, leaf_of, code_of, add_bits,
  send-code, add_bits-append,
}
use co_d4x_client_pub.Huffman.Bits.{Reads, get_or-append_lt, get_or-append_ge}

Reads-left :
    (fin : List ℕ) (bloc : ℕ) (bs cs : List Bool) → Reads fin bloc (bs ++ cs) → Reads fin bloc bs
Reads-left fin bloc bs cs r j lt =
    r j (omega (arith, length-append bs cs)) ∙ get_or-append_lt bs cs j false lt

Reads-right :
    (fin : List ℕ) (bloc : ℕ) (bs cs : List Bool)
    → Reads fin bloc (bs ++ cs)
    → Reads fin (bloc + length bs) cs
Reads-right fin bloc bs cs r j lt =
    ap (get_bit fin) (omega arith)
    ∙ r (length bs + j) (omega (arith, length-append bs cs))
    ∙ get_or-append_ge bs cs j false

code-root : (fuel : ℕ) (h : Huff) (i : ℕ) → (node_at h i).parent ≡ none → code (suc fuel) h i ≡ []
code-root fuel h i e = rw (e, code) refl

code-child :
    (fuel : ℕ) (h : Huff) (i p : ℕ)
    → (node_at h i).parent ≡ some p
    → code (suc fuel) h i ≡ code fuel h p ++ is_at (node_at h p).right i ∷ []
code-child fuel h i p e = rw (e, code) refl

-- A round of the loop at an inner node.
pub receive-inner :
    (k : ℕ) (h : Huff) (p : ℕ) (fin : List ℕ) (offset bloc : ℕ) (bit : Bool)
    → ((node_at h p).symbol == internal_node) ≡ true
    → get_bit fin bloc ≡ bit
    → offset_receive (suc k) h (some p) fin offset bloc
      ≡ offset_receive k h (child_of (node_at h p) bit) fin offset (bloc + 1)
unfolding offset_receive
receive-inner k h p fin offset bloc bit inner e = rw (inner, e) refl

slt-lt : (a b : ℕ) → a < b → b < 2 ^ 31 → slt a b ≡ true
slt-lt a b lt small = ground (arith, lt, small)

pub read_loop-round :
    (h : Huff) (room : ℕ) (input : List ℕ) (readsize offset i : ℕ) (buf : List ℕ) (ch next : ℕ)
    → slt offset readsize ≡ true
    → offset_receive (max_nodes + 1) h h.tree input offset offset ≡ some (ch, next)
    → read_loop (suc room) h input readsize offset i buf
      ≡ read_loop room h input readsize next (i + 1) (set buf i (ch % 256))
unfolding read_loop
read_loop-round h room input readsize offset i buf ch next on got = rw (on, got) refl

module _ (h : Huff) (r : ℕ) (t : IsTree h r) where
  -- The loop over the bits of a node's way ends at the node.
  receive-code :
      (fuel k i : ℕ) (fin : List ℕ) (offset bloc : ℕ)
      → i ≤ r
      → r - i < fuel
      → Reads fin bloc (code fuel h i)
      → offset_receive (length (code fuel h i) + k) h (some r) fin offset bloc
        ≡ offset_receive k h (some i) fin offset (bloc + length (code fuel h i))
  receive-code zero k i fin offset bloc le lt reads = absurd (omega arith)
  receive-code (suc fuel) k i fin offset bloc le lt reads =
      elim (Option-cases (node_at h i).parent) [
        | inl e ↦
            let here : i ≡ r = linked-root h r i (t.linked i le) e in
            let z : 0 + k ≡ k = omega arith in
            let z' : bloc + 0 ≡ bloc = omega arith in
            rw (code-root fuel h i e) (rw (here, z, z') refl)
        | inr (p, e) ↦
            let up = linked-Parent h r i p (t.linked i le) e in
            let way = code fuel h p in
            let bit = is_at (node_at h p).right i in
            let split = code-child fuel h i p e in
            let reads' : Reads fin bloc (way ++ bit ∷ []) = rw split at reads in
            let size : length (way ++ bit ∷ []) + k ≡ length way + suc k =
              omega (arith, length-append way (bit ∷ [])) in
            let next : bloc + length (way ++ bit ∷ []) ≡ bloc + length way + 1 =
              omega (arith, length-append way (bit ∷ [])) in
            let z : bloc + length way + 0 ≡ bloc + length way = omega arith in
            let last : get_bit fin (bloc + length way) ≡ bit =
              ap (get_bit fin) (sym z)
              ∙ Reads-right fin bloc way (bit ∷ []) reads' 0 (omega arith) in
            rw (split, size, next)
              (receive-code fuel (suc k) p fin offset bloc up.inside (omega (arith, up.later))
                  (Reads-left fin bloc way (bit ∷ []) reads')
                ∙ receive-inner k h p fin offset (bloc + length way) bit up.internal last
                ∙ ap (λ n. offset_receive k h n fin offset (bloc + length way + 1)) up.child)
      ]

  -- A byte's bits are received as the byte.
  receive-byte :
      (ch : ℕ) (fin : List ℕ) (bloc : ℕ)
      → ch < 256
      → Reads fin bloc (code_of h ch)
      → offset_receive (max_nodes + 1) h h.tree fin bloc bloc
        ≡ some (ch, bloc + length (code_of h ch))
  unfolding offset_receive
  receive-byte ch fin bloc lt reads =
      let l = has_leaf-Leaf h r ch (t.leaves ch lt) in
      let n = length (code_of h ch) in
      let fuel : max_nodes + 1 ≡ n + suc (max_nodes - n) = omega (arith, l.few_bits) in
      let byte : ((node_at h (leaf_of h ch)).symbol == internal_node) ≡ false =
        ground (arith, l.symbol, lt) in
      ap (λ at. offset_receive (max_nodes + 1) h at fin bloc bloc) t.root
      ∙ ap (λ f. offset_receive f h (some r) fin bloc bloc) fuel
      ∙ receive-code max_nodes (suc (max_nodes - n)) (leaf_of h ch) fin bloc bloc l.inside
          (omega (arith, t.small)) reads
      ∙ rw (byte, l.symbol) refl

  transmit-byte :
      (ch : ℕ) (o : Out) → ch < 256 → offset_transmit h ch o ≡ some (add_bits (code_of h ch) o)
  unfolding offset_transmit send_child
  transmit-byte ch o lt =
      let l = has_leaf-Leaf h r ch (t.leaves ch lt) in
      rw (l.found, offset_transmit)
        (send-code max_nodes h r (leaf_of h ch) none o t l.inside (omega (arith, t.small)))

  abbrev pub encode : List ℕ → List Bool
  encode [] = []
  encode (b ∷ bs) = code_of h b ++ encode bs

  pub length-encode :
      (bs : List ℕ)
      → All IsByte bs
      → (length bs ≤ length (encode bs)) × (length (encode bs) ≤ 11 * length bs)
  length-encode [] p = (omega arith, omega arith)
  length-encode (b ∷ bs) (byte, p) =
      let l = has_leaf-Leaf h r b (t.leaves b byte) in
      let (least, most) = length-encode bs p in
      (
        omega (arith, length-append (code_of h b) (encode bs), l.some_bit),
        omega (arith, length-append (code_of h b) (encode bs), l.few_bits),
      )

  pub write_loop-encode :
      (bs : List ℕ) (o : Out) → All IsByte bs → write_loop h bs o ≡ some (add_bits (encode bs) o)
  unfolding write_loop
  write_loop-encode [] o p = refl
  write_loop-encode (b ∷ bs) o (byte, p) =
      rw (transmit-byte b o byte, write_loop)
        (write_loop-encode bs (add_bits (code_of h b) o) p
          ∙ ap some (sym (add_bits-append (code_of h b) (encode bs) o)))

  -- The loop of the reader goes over the bytes' bits, and puts the bytes down.
  pub read_loop-encode :
      (bs : List ℕ) (room : ℕ) (input : List ℕ) (readsize offset i : ℕ) (buf : List ℕ)
      → All IsByte bs
      → Reads input offset (encode bs)
      → offset + length (encode bs) ≤ readsize
      → readsize < 2 ^ 31
      → read_loop (length bs + room) h input readsize offset i buf
        ≡ read_loop room h input readsize
            (offset + length (encode bs))
            (i + length bs)
            (put_bytes buf i bs)
  read_loop-encode [] room input readsize offset i buf p reads fits small =
      let z : 0 + room ≡ room = omega arith in
      let z1 : offset + 0 ≡ offset = omega arith in
      let z2 : i + 0 ≡ i = omega arith in rw (z, z1, z2) refl
  read_loop-encode (b ∷ bs) room input readsize offset i buf (byte, p) reads fits small =
      let l = has_leaf-Leaf h r b (t.leaves b byte) in
      let n = length (code_of h b) in
      let size = length-append (code_of h b) (encode bs) in
      let got =
        receive-byte b input offset byte
          (Reads-left input offset (code_of h b) (encode bs) reads) in
      let on : slt offset readsize ≡ true =
        slt-lt offset readsize (omega (arith, size, l.some_bit)) small in
      let f : length (b ∷ bs) + room ≡ suc (length bs + room) = omega arith in
      let off : offset + length (code_of h b ++ encode bs) ≡ offset + n + length (encode bs) =
        omega (arith, size) in
      let count : i + suc (length bs) ≡ i + 1 + length bs = omega arith in
      let value : b % 256 ≡ b = mod-eq_of_lt byte in
      ap (λ k. read_loop k h input readsize offset i buf) f
      ∙ read_loop-round h (length bs + room) input readsize offset i buf b (offset + n) on got
      ∙ rw (off, count, value)
          (read_loop-encode bs room input readsize (offset + n) (i + 1) (set buf i b) p
            (Reads-right input offset (code_of h b) (encode bs) reads) (omega (arith, size)) small)
