-- ===== src/Huffman/Tests.antt =====
-- Runs of src/huffman.c with its own tree, and the theorems at concrete bytes.
use co_d4x_client_pub.Common.{ℕ, ◌≡◌, refl, arith, some, List, [], ◌∷◌, replicate}
use co_d4x_client_pub.Huffman.{
  add_bit, get_bit, send, send_child, offset_transmit, offset_receive, write_loop,
  write_bits_compress, read_loop, read_bits_compress,
}
use co_d4x_client_pub.Huffman.Build.{init}
use co_d4x_client_pub.Huffman.RoundTrip.{Restored, read_bits_compress-write_bits_compress}
use co_d4x_client_pub.Huffman.Ends.{Expanded, read_bits_compress-ends}

abbrev some_bytes : List ℕ
some_bytes = 0 ∷ 1 ∷ 213 ∷ 255 ∷ 6 ∷ []

abbrev zeros : List ℕ
zeros = replicate 8 0

abbrev sevens : List ℕ
sevens = replicate 8 7

compressed :
    write_bits_compress init some_bytes zeros ≡ some (4, 41 ∷ 189 ∷ 117 ∷ 0 ∷ 0 ∷ 0 ∷ 0 ∷ 0 ∷ [])
unfolding init write_bits_compress write_loop offset_transmit send send_child add_bit
compressed = refl

-- The bits that fill up the last byte are expanded too.
expanded_one_more :
    read_bits_compress init (5 ∷ []) 1 sevens 8 ≡ some (2, 1 ∷ 6 ∷ 7 ∷ 7 ∷ 7 ∷ 7 ∷ 7 ∷ 7 ∷ [])
unfolding init read_bits_compress read_loop offset_receive get_bit
expanded_one_more = refl

compressed_one :
    write_bits_compress init (1 ∷ []) zeros ≡ some (1, 5 ∷ 0 ∷ 0 ∷ 0 ∷ 0 ∷ 0 ∷ 0 ∷ 0 ∷ [])
unfolding init write_bits_compress write_loop offset_transmit send send_child add_bit
compressed_one = refl

read_bits_compress-write_bits_compress_example : Restored some_bytes zeros sevens 8
read_bits_compress-write_bits_compress_example =
    read_bits_compress-write_bits_compress some_bytes zeros sevens 8
      (omega arith, (omega arith, (omega arith, (omega arith, (omega arith, record {})))))
      (omega arith) (omega arith) (omega arith) (omega arith) (omega arith)

read_bits_compress-ends_example :
    Expanded (read_bits_compress init (255 ∷ 18 ∷ []) 2 sevens 8) 0 sevens 8 16
read_bits_compress-ends_example = read_bits_compress-ends (255 ∷ 18 ∷ []) 2 sevens 8 (omega arith)
