-- ===== src/Huffman/Tree.antt =====
-- The tree of src/huffman.c: how its pointers fit together, and the bits of a byte in it.
use co_d4x_client_pub.Common.{
  all_below, all_below-lt, both, ℕ, zero, suc, ◌-◌, ◌≤◌, ◌<◌, ◌≡◌, refl, sym, ap, arith, Bool, true,
  false, ◌&&◌, Option, none, some, List, [], ◌∷◌, ◌++◌, length, get_or, ltb, leb, ◌==◌,
  if◌then◌else◌, Option-cases, ltb→lt, ==_iff, inl, inr,
}
use co_d4x_client_pub.Huffman.{
  Node, Huff, Out, node_at, internal_node, max_nodes, is_at, add_bit, send, send_child,
}
use co_d4x_client_pub.Huffman.Build.{init}

abbrev pub child_of : Node → Bool → Option ℕ
child_of n bit = if bit then n.right else n.left

-- The bits of the way from the root to the node.
abbrev pub code : ℕ → Huff → ℕ → List Bool
code zero h i = []
code (suc fuel) h i = elim (node_at h i).parent [
  | none ↦ []
  | some p ↦ code fuel h p ++ is_at (node_at h p).right i ∷ []
]

abbrev pub leaf_of : Huff → ℕ → ℕ
leaf_of h ch = elim (get_or h.loc ch none) [ none ↦ 0 | some i ↦ i ]

abbrev pub code_of : Huff → ℕ → List Bool
code_of h ch = code max_nodes h (leaf_of h ch)

-- The node below `r` is its parent's child, and a parent stands behind its children in the list.
abbrev is_linked : Huff → ℕ → ℕ → Bool
is_linked h r i = elim (node_at h i).parent [
  | none ↦ i == r
  | some p ↦
      ltb i p
      && (leb p r
          && (((node_at h p).symbol == internal_node)
              && is_at (child_of (node_at h p) (is_at (node_at h p).right i)) i))
]

abbrev pub is_child : ℕ → Option ℕ → Bool
is_child i none = false
is_child i (some j) = ltb j i

abbrev pub has_children : Huff → ℕ → Bool
has_children h i =
    if (node_at h i).symbol == internal_node
    then is_child i (node_at h i).left && is_child i (node_at h i).right
    else true

abbrev has_leaf : Huff → ℕ → ℕ → Bool
has_leaf h r ch = elim (get_or h.loc ch none) [
  | none ↦ false
  | some i ↦
      leb i r
      && (((node_at h i).symbol == ch)
          && (ltb 0 (length (code_of h ch)) && leb (length (code_of h ch)) 11))
]

-- The root is the last node, and the pointers of the nodes up to it and of the bytes' leaves fit.
pub record IsTree (h : Huff) (r : ℕ) : Type 0 where
  pub root : h.tree ≡ some r
  pub small : r < max_nodes
  pub internal : ((node_at h r).symbol == internal_node) ≡ true
  pub linked : (i : ℕ) → i ≤ r → is_linked h r i ≡ true
  pub children : (i : ℕ) → i ≤ r → has_children h i ≡ true
  pub leaves : (ch : ℕ) → ch < 256 → has_leaf h r ch ≡ true

init_linked : all_below 513 (is_linked init 512) ≡ true
unfolding init
init_linked = refl

init_children : all_below 513 (has_children init) ≡ true
unfolding init
init_children = refl

init_leaves : all_below 256 (has_leaf init 512) ≡ true
unfolding init
init_leaves = refl

init_root : init.tree ≡ some 512
unfolding init
init_root = refl

init_internal : ((node_at init 512).symbol == internal_node) ≡ true
unfolding init
init_internal = refl

pub init-IsTree : IsTree init 512
init-IsTree = record {
  root = init_root;
  small = omega arith;
  internal = init_internal;
  linked = λ i le. all_below-lt 513 (is_linked init 512) i init_linked (omega arith);
  children = λ i le. all_below-lt 513 (has_children init) i init_children (omega arith);
  leaves = λ ch lt. all_below-lt 256 (has_leaf init 512) ch init_leaves lt;
}

abbrev pub add_bits : List Bool → Out → Out
add_bits [] o = o
add_bits (b ∷ bs) o = add_bits bs (add_bit b o)

pub add_bits-append :
    (bs cs : List Bool) (o : Out) → add_bits (bs ++ cs) o ≡ add_bits cs (add_bits bs o)
add_bits-append [] cs o = refl
add_bits-append (b ∷ bs) cs o = add_bits-append bs cs (add_bit b o)

-- The parent behind a node.
pub record Parent (h : Huff) (r i p : ℕ) : Type 0 where
  pub later : i < p
  pub inside : p ≤ r
  pub internal : ((node_at h p).symbol == internal_node) ≡ true
  pub child : child_of (node_at h p) (is_at (node_at h p).right i) ≡ some i

is_at-some : (o : Option ℕ) (i : ℕ) → is_at o i ≡ true → o ≡ some i
is_at-some none i h = ground (arith, h)
is_at-some (some j) i h = ap some (ground (arith, h))

pub linked-root :
    (h : Huff) (r i : ℕ) → is_linked h r i ≡ true → (node_at h i).parent ≡ none → i ≡ r
linked-root h r i l e = let l' = rw (e, is_linked) at l in ground (arith, l')

pub linked-Parent :
    (h : Huff) (r i p : ℕ) → is_linked h r i ≡ true → (node_at h i).parent ≡ some p → Parent h r i p
linked-Parent h r i p l e =
    let l' = rw (e, is_linked) at l in
    record {
      later = ground (arith, l');
      inside = ground (arith, l');
      internal = ground (arith, l');
      child = is_at-some _ i (ground (arith, l'));
    }

-- `Huff_send` writes the bits of the node's way, and then the child's.
pub send-code :
    (fuel : ℕ) (h : Huff) (r i : ℕ) (child : Option ℕ) (o : Out)
    → IsTree h r
    → i ≤ r
    → r - i < fuel
    → send fuel h i child o ≡ send_child (node_at h i) child (some (add_bits (code fuel h i) o))
unfolding send send_child
send-code zero h r i child o t le lt = absurd (omega arith)
send-code (suc fuel) h r i child o t le lt = elim (Option-cases (node_at h i).parent) [
  | inl e ↦ rw (e, code) refl
  | inr (p, e) ↦
      let up = linked-Parent h r i p (t.linked i le) e in
      let above = send-code fuel h r p (some i) o t up.inside (omega (arith, up.later)) in
      rw (e, above, code)
        (ap (λ u. send_child (node_at h i) child (some u))
          (sym (add_bits-append (code fuel h p) (is_at (node_at h p).right i ∷ []) o)))
]

leb→le : (a b : ℕ) → leb a b ≡ true → a ≤ b
leb→le a b h = ground (arith, h)

-- What a byte's leaf is.
pub record Leaf (h : Huff) (r ch : ℕ) : Type 0 where
  pub found : get_or h.loc ch none ≡ some (leaf_of h ch)
  pub inside : leaf_of h ch ≤ r
  pub symbol : (node_at h (leaf_of h ch)).symbol ≡ ch
  pub some_bit : 0 < length (code_of h ch)
  pub few_bits : length (code_of h ch) ≤ 11

pub has_leaf-Leaf : (h : Huff) (r ch : ℕ) → has_leaf h r ch ≡ true → Leaf h r ch
has_leaf-Leaf h r ch l = elim (Option-cases (get_or h.loc ch none)) [
  | inl e ↦ let l' = rw (e, has_leaf) at l in ground (arith, l')
  | inr (i, e) ↦
      let (inside, others) = both _ _ (rw (e, has_leaf) at l) in
      let (symbol, bits) = both _ _ others in
      let (some_bit, few_bits) = both _ _ bits in
      let leaf : leaf_of h ch ≡ i = rw (e, leaf_of) refl in
      record {
        found = rw leaf e;
        inside = rw leaf (leb→le i r inside);
        symbol = rw leaf ((==_iff _ ch).0 symbol);
        some_bit = ltb→lt 0 _ some_bit;
        few_bits = leb→le _ 11 few_bits;
      }
]
