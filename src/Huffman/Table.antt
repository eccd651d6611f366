-- ===== src/Huffman/Table.antt =====
-- The statements of `Huff_InitTree` of src/huffman.c, in their order. The children hold them in parts.
use co_d4x_client_pub.Common.{ℕ}
pub mod PartA
pub mod PartB
pub mod PartC
pub mod PartD

-- `parent_left i k` is `nodeList[i].parent = nodeList[k].left`; `left_to i k` takes the address of `k`.
pub data Step : Type 0 where
  bloc_to : ℕ → Step
  tree_to : ℕ → Step
  loc_to : ℕ → ℕ → Step
  left_to : ℕ → ℕ → Step
  right_to : ℕ → ℕ → Step
  parent_to : ℕ → ℕ → Step
  parent_left : ℕ → ℕ → Step
  parent_right : ℕ → ℕ → Step
  parent_parent : ℕ → ℕ → Step
  weigh : ℕ → ℕ → Step
  name : ℕ → ℕ → Step
