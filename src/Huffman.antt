-- ===== src/Huffman.antt =====
-- The Huffman coder of src/huffman.c, with the node and the coder of src/qcommon.h. A node's address
-- is its place in the list of nodes. The static position `bloc` and the bytes that are written are
-- passed on from call to call. A use of no address, and a loop without an end, yield `none`.
use co_d4x_client_pub.Common.{
  ℕ, zero, suc, ◌+◌, ◌*◌, ◌/◌, ◌%◌, ◌^◌, Bool, true, false, Option, none, some, List, [], ◌∷◌,
  bit_or, ◌==◌, if◌then◌else◌, set, get_or, slt, sle,
}
pub mod Table
pub mod Build
pub mod Tree
pub mod Bits
pub mod Codes
pub mod Ends
pub mod RoundTrip
mod Tests

pub record Node : Type 0 where
  pub left : Option ℕ
  pub right : Option ℕ
  pub parent : Option ℕ
  pub weight : ℕ
  pub symbol : ℕ

-- The node that `Com_Memset` leaves.
abbrev pub no_node : Node
no_node = record { left = none; right = none; parent = none; weight = 0; symbol = 0 }

abbrev pub nyt : ℕ
nyt = 256

abbrev pub internal_node : ℕ
internal_node = 257

abbrev pub max_nodes : ℕ
max_nodes = 768

pub record Huff : Type 0 where
  pub bloc_node : ℕ
  pub tree : Option ℕ
  pub loc : List (Option ℕ)
  pub node_list : List Node

abbrev pub node_at : Huff → ℕ → Node
node_at h i = get_or h.node_list i no_node

-- The bytes that are written, and the static position.
pub record Out : Type 0 where
  pub bytes : List ℕ
  pub bloc : ℕ

abbrev pub byte_of : Bool → ℕ
byte_of true = 1
byte_of false = 0

unfoldable pub add_bit : Bool → Out → Out
add_bit bit o =
    let here = o.bloc / 8 in
    let fout = if o.bloc % 8 == 0 then set o.bytes here 0 else o.bytes in
    let byte = bit_or (get_or fout here 0) (byte_of bit * 2 ^ (o.bloc % 8)) % 256 in
    record { bytes = set fout here byte; bloc = o.bloc + 1 }

unfoldable pub get_bit : List ℕ → ℕ → Bool
get_bit fin bloc = get_or fin (bloc / 8) 0 / 2 ^ (bloc % 8) % 2 == 1

abbrev pub is_at : Option ℕ → ℕ → Bool
is_at none i = false
is_at (some j) i = j == i

-- The bit of `Huff_send` behind its call for the parent.
unfoldable pub send_child : Node → Option ℕ → Option Out → Option Out
send_child n child none = none
send_child n none (some o) = some o
send_child n (some c) (some o) = some (add_bit (is_at n.right c) o)

-- The fuel is the number of nodes on the way to the root.
unfoldable pub send : ℕ → Huff → ℕ → Option ℕ → Out → Option Out
send zero h node child o = none
send (suc fuel) h node child o =
    let above : Option Out = elim (node_at h node).parent [
      | none ↦ some o
      | some p ↦ send fuel h p (some node) o
    ] in
    send_child (node_at h node) child above

-- The byte's leaf may not be there.
unfoldable pub offset_transmit : Huff → ℕ → Out → Option Out
offset_transmit h ch o = elim (get_or h.loc ch none) [
  | none ↦ none
  | some leaf ↦ send max_nodes h leaf none o
]

-- The symbol and the new offset. Where the tree has no node the offset stays.
unfoldable pub offset_receive : ℕ → Huff → Option ℕ → List ℕ → ℕ → ℕ → Option (ℕ × ℕ)
offset_receive zero h at fin offset bloc = none
offset_receive (suc fuel) h none fin offset bloc = some (0, offset)
offset_receive (suc fuel) h (some i) fin offset bloc =
    let n = node_at h i in
    let next = if get_bit fin bloc then n.right else n.left in
    let rest = offset_receive fuel h next fin offset (bloc + 1) in
    if n.symbol == internal_node then rest else some (n.symbol, bloc)

-- The count of bytes and the storage with them.
unfoldable pub write_loop : Huff → List ℕ → Out → Option Out
write_loop h [] o = some o
write_loop h (b ∷ bs) o = elim (offset_transmit h b o) [
  | none ↦ none
  | some o' ↦ write_loop h bs o'
]

abbrev pub byte_count : Out → ℕ × List ℕ
byte_count o = ((o.bloc + 7) / 8, o.bytes)

-- `datasrc` has the `bytecount` bytes; a count that is not positive comes with none of them.
unfoldable pub write_bits_compress : Huff → List ℕ → List ℕ → Option (ℕ × List ℕ)
write_bits_compress h datasrc buffdest =
    elim (write_loop h datasrc (record { bytes = buffdest; bloc = 0 })) [
      | none ↦ none
      | some o ↦ some (byte_count o)
    ]

-- `room` is what `outputBuf` has left behind the byte at `i`.
unfoldable pub read_loop : ℕ → Huff → List ℕ → ℕ → ℕ → ℕ → List ℕ → Option (ℕ × List ℕ)
read_loop zero h input readsize offset i buf = some (i, buf)
read_loop (suc room) h input readsize offset i buf =
    let got = offset_receive (max_nodes + 1) h h.tree input offset offset in
    let rest : Option (ℕ × List ℕ) = elim got [
      | none ↦ none
      | some (ch, next) ↦ read_loop room h input readsize next (i + 1) (set buf i (ch % 256))
    ] in
    if slt offset readsize then rest else some (i, buf)

-- The sizes are C's ints, as words of 32 bits. The result is the count of bytes, and the storage.
unfoldable pub read_bits_compress : Huff → List ℕ → ℕ → List ℕ → ℕ → Option (ℕ × List ℕ)
read_bits_compress h input readsize output_buf output_buf_size =
    let bits = readsize * 8 % 2 ^ 32 in
    let room = if sle output_buf_size 0 then 0 else output_buf_size in
    let rest = read_loop room h input bits 0 0 output_buf in
    if sle bits 0 then some (0, output_buf) else rest
