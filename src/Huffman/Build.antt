-- ===== src/Huffman/Build.antt =====
-- What the statements of `Huff_InitTree` of src/huffman.c, and `Huff_Init` with them, do to the coder.
use co_d4x_client_pub.Common.{
  Bool, true, false, ℕ, Option, none, some, List, [], ◌∷◌, ◌++◌, set, replicate,
}
use co_d4x_client_pub.Huffman.{Node, Huff, no_node, node_at, nyt, max_nodes}
use co_d4x_client_pub.Huffman.Table.{Step}
use co_d4x_client_pub.Huffman.Table.PartA.{steps1, steps2, steps3, steps4}
use co_d4x_client_pub.Huffman.Table.PartB.{steps5, steps6, steps7, steps8}
use co_d4x_client_pub.Huffman.Table.PartC.{steps9, steps10, steps11, steps12}
use co_d4x_client_pub.Huffman.Table.PartD.{steps13, steps14, steps15, steps16}

-- A change of one node.
abbrev set_node : Huff → ℕ → Node → Huff
set_node h i n = record {
  bloc_node = h.bloc_node;
  tree = h.tree;
  loc = h.loc;
  node_list = set h.node_list i n;
}

abbrev with_parent : Node → Option ℕ → Node
with_parent n p = record {
  left = n.left;
  right = n.right;
  parent = p;
  weight = n.weight;
  symbol = n.symbol;
}

abbrev run_step : Step → Huff → Huff
run_step (Step.bloc_to n) h = record {
  bloc_node = n;
  tree = h.tree;
  loc = h.loc;
  node_list = h.node_list;
}
run_step (Step.tree_to i) h = record {
  bloc_node = h.bloc_node;
  tree = some i;
  loc = h.loc;
  node_list = h.node_list;
}
run_step (Step.loc_to ch i) h = record {
  bloc_node = h.bloc_node;
  tree = h.tree;
  loc = set h.loc ch (some i);
  node_list = h.node_list;
}
run_step (Step.left_to i j) h =
    let n = node_at h i in
    set_node h i (record {
      left = some j;
      right = n.right;
      parent = n.parent;
      weight = n.weight;
      symbol = n.symbol;
    })
run_step (Step.right_to i j) h =
    let n = node_at h i in
    set_node h i (record {
      left = n.left;
      right = some j;
      parent = n.parent;
      weight = n.weight;
      symbol = n.symbol;
    })
run_step (Step.parent_to i j) h = set_node h i (with_parent (node_at h i) (some j))
run_step (Step.parent_left i k) h = set_node h i (with_parent (node_at h i) (node_at h k).left)
run_step (Step.parent_right i k) h = set_node h i (with_parent (node_at h i) (node_at h k).right)
run_step (Step.parent_parent i k) h = set_node h i (with_parent (node_at h i) (node_at h k).parent)
run_step (Step.weigh i w) h =
    let n = node_at h i in
    set_node h i
      (record { left = n.left; right = n.right; parent = n.parent; weight = w; symbol = n.symbol })
run_step (Step.name i s) h =
    let n = node_at h i in
    set_node h i
      (record { left = n.left; right = n.right; parent = n.parent; weight = n.weight; symbol = s })

abbrev run_steps : List Step → Huff → Huff
run_steps [] h = h
run_steps (s ∷ ss) h = run_steps ss (run_step s h)

abbrev all_steps : List Step
all_steps =
    steps1 ++ steps2 ++ steps3 ++ steps4 ++ steps5 ++ steps6 ++ steps7 ++ steps8 ++ steps9
    ++ steps10 ++ steps11 ++ steps12 ++ steps13 ++ steps14 ++ steps15 ++ steps16

-- `Com_Memset`, the first node as the one that stands for what was not yet transmitted, and the tree.
unfoldable pub init : Huff
init =
    let tree : Huff = record {
      bloc_node = 1;
      tree = some 0;
      loc = set (replicate 257 none) nyt (some 0);
      node_list =
          set (replicate max_nodes no_node) 0
            (record { left = none; right = none; parent = none; weight = 0; symbol = nyt });
    } in
    run_steps all_steps tree

-- `huffInit`, and the coder: only the first call builds it.
pub init_main : Bool → Huff → Bool × Huff
init_main true h = (true, h)
init_main false h = (true, init)
