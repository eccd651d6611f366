-- ===== src/Huffman/Ends.antt =====
-- The expansion of any bytes by src/huffman.c.
use co_d4x_client_pub.Common.{
  both, ℕ, zero, suc, ◌+◌, ◌-◌, ◌*◌, ◌%◌, ◌^◌, ◌≤◌, ◌<◌, ◌≡◌, refl, ap, ◌∙◌, arith, Bool, true,
  false, Option, none, some, List, length, length-set, take, set, take-set_le, ◌==◌, if◌then◌else◌,
  slt, sle, Bool-cases, inl, inr,
}
use co_d4x_client_pub.Huffman.{
  Huff, node_at, internal_node, max_nodes, get_bit, offset_receive, read_loop, read_bits_compress,
}
use co_d4x_client_pub.Huffman.Build.{init}
use co_d4x_client_pub.Huffman.Tree.{IsTree, init-IsTree, child_of, is_child}
use co_d4x_client_pub.Huffman.Codes.{read_loop-round, receive-inner}

is_child-some : (i : ℕ) (o : Option ℕ) → is_child i o ≡ true → (j : ℕ) × (o ≡ some j) × (j < i)
is_child-some i none e = absurd (ground (arith, e))
is_child-some i (some j) e = (j, refl, ground (arith, e))

-- A symbol that `Huff_offsetReceive` finds, behind `bloc`.
record Received (h : Huff) (fuel i : ℕ) (fin : List ℕ) (offset bloc least : ℕ) : Type 0 where
  ch : ℕ
  next : ℕ
  found : offset_receive fuel h (some i) fin offset bloc ≡ some (ch, next)
  later : bloc + least ≤ next
  sooner : next ≤ bloc + fuel

module _ (h : Huff) (r : ℕ) (t : IsTree h r) where
  has_child :
      (i : ℕ) (bit : Bool)
      → i ≤ r
      → ((node_at h i).symbol == internal_node) ≡ true
      → (j : ℕ) × (child_of (node_at h i) bit ≡ some j) × (j < i)
  has_child i bit le inner =
      let (left, right) = both _ _ (rw inner at (t.children i le)) in go bit left right
    where
      go :
          (bit : Bool)
          → is_child i (node_at h i).left ≡ true
          → is_child i (node_at h i).right ≡ true
          → (j : ℕ) × (child_of (node_at h i) bit ≡ some j) × (j < i)
      go true left right = is_child-some i (node_at h i).right right
      go false left right = is_child-some i (node_at h i).left left

  -- Whatever the bits are, the loop ends at a leaf.
  receive-ends :
      (fuel i : ℕ) (fin : List ℕ) (offset bloc : ℕ)
      → i ≤ r
      → i < fuel
      → Received h fuel i fin offset bloc 0
  unfolding offset_receive
  receive-ends zero i fin offset bloc le lt = absurd (omega arith)
  receive-ends (suc fuel) i fin offset bloc le lt =
      elim (Bool-cases ((node_at h i).symbol == internal_node)) [
        | inl inner ↦
            let (j, child, less) = has_child i (get_bit fin bloc) le inner in
            let rest = receive-ends fuel j fin offset (bloc + 1) (omega arith) (omega arith) in
            record {
              ch = rest.ch;
              next = rest.next;
              found =
                  receive-inner fuel h i fin offset bloc (get_bit fin bloc) inner refl
                  ∙ ap (λ n. offset_receive fuel h n fin offset (bloc + 1)) child
                  ∙ rest.found;
              later = omega (arith, rest.later);
              sooner = omega (arith, rest.sooner);
            }
        | inr leaf ↦ record {
          ch = (node_at h i).symbol;
          next = bloc;
          found = rw leaf refl;
          later = omega arith;
          sooner = omega arith;
        }
      ]

  receive-root : (fin : List ℕ) (offset : ℕ) → Received h (max_nodes + 1) r fin offset offset 1
  receive-root fin offset =
      let (j, child, less) = has_child r (get_bit fin offset) (omega arith) t.internal in
      let rest =
        receive-ends max_nodes j fin offset (offset + 1) (omega arith) (omega (arith, t.small)) in
      record {
        ch = rest.ch;
        next = rest.next;
        found =
            receive-inner max_nodes h r fin offset offset (get_bit fin offset) t.internal refl
            ∙ ap (λ n. offset_receive max_nodes h n fin offset (offset + 1)) child
            ∙ rest.found;
        later = omega (arith, rest.later);
        sooner = omega (arith, rest.sooner);
      }

-- What the loop of the reader leaves: it goes on behind the bytes that are there.
pub record Expanded (o : Option (ℕ × List ℕ)) (i : ℕ) (buf : List ℕ) (room bits : ℕ) : Type 0 where
  pub count : ℕ
  pub bytes : List ℕ
  pub returned : o ≡ some (count, bytes)
  pub least : i ≤ count
  pub most : (count ≤ i + room) × (count ≤ i + bits)
  pub size : length bytes ≡ length buf
  pub kept : (k : ℕ) → k ≤ i → take k bytes ≡ take k buf

module _ (h : Huff) (r : ℕ) (t : IsTree h r) where
  pub read_loop-ends :
      (room : ℕ) (input : List ℕ) (readsize offset i : ℕ) (buf : List ℕ)
      → readsize < 2 ^ 30
      → offset < 2 ^ 31
      → Expanded (read_loop room h input readsize offset i buf) i buf room (readsize - offset)
  unfolding read_loop
  read_loop-ends zero input readsize offset i buf small near = record {
    count = i;
    bytes = buf;
    returned = refl;
    least = omega arith;
    most = (omega arith, omega arith);
    size = refl;
    kept = λ k le. refl;
  }
  read_loop-ends (suc room) input readsize offset i buf small near =
      elim (Bool-cases (slt offset readsize)) [
        | inl on ↦
            let before : offset < readsize = ground (arith, on) in
            let got = receive-root h r t input offset in
            let sooner = got.sooner in
            let rest =
              read_loop-ends room input readsize got.next (i + 1) (set buf i (got.ch % 256)) small
                (omega arith) in
            let later = got.later in
            let (most, bits) = rest.most in
            record {
              count = rest.count;
              bytes = rest.bytes;
              returned =
                  read_loop-round h room input readsize offset i buf got.ch got.next on (
                    ap (λ at. offset_receive (max_nodes + 1) h at input offset offset) t.root
                    ∙ got.found)
                  ∙ rest.returned;
              least = omega (arith, rest.least);
              most = (omega arith, omega arith);
              size = rest.size ∙ length-set buf i (got.ch % 256);
              kept = λ k le. rest.kept k (omega arith) ∙ take-set_le buf k i (got.ch % 256) le;
            }
        | inr off ↦ record {
          count = i;
          bytes = buf;
          returned = rw off refl;
          least = omega arith;
          most = (omega arith, omega arith);
          size = refl;
          kept = λ k le. refl;
        }
      ]

-- With the program's own tree, MSG_ReadBitsCompress ends on any input: it never leaves the tree and
-- never loops, and it puts down no more bytes than its output has room for and its input has bits.
-- The input has less than 2^27 bytes.
pub read_bits_compress-ends :
    (input : List ℕ) (readsize : ℕ) (out : List ℕ) (out_size : ℕ)
    → 8 * readsize < 2 ^ 30
    → Expanded (read_bits_compress init input readsize out out_size) 0 out out_size (8 * readsize)
unfolding read_bits_compress
read_bits_compress-ends input readsize out out_size small =
    let bits : readsize * 8 % 2 ^ 32 ≡ 8 * readsize = omega arith in
    let room = if sle out_size 0 then 0 else out_size in
    let e =
      read_loop-ends init 512 init-IsTree room input (8 * readsize) 0 0 out small (omega arith) in
    let fits : room ≤ out_size = ground arith in
    let (most, few) = e.most in
    rw bits (elim (Bool-cases (sle (8 * readsize) 0)) [
      | inl stop ↦ record {
        count = 0;
        bytes = out;
        returned = rw stop refl;
        least = omega arith;
        most = (omega arith, omega arith);
        size = refl;
        kept = λ k le. refl;
      }
      | inr on ↦ record {
        count = e.count;
        bytes = e.bytes;
        returned = rw on e.returned;
        least = e.least;
        most = (omega (arith, most, fits), omega (arith, few));
        size = e.size;
        kept = e.kept;
      }
    ])
