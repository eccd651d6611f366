-- ===== src/Huffman/RoundTrip.antt =====
-- Bytes that src/huffman.c has compressed, expanded again.
use co_d4x_client_pub.Common.{
  ℕ, zero, suc, ◌+◌, ◌-◌, ◌*◌, ◌/◌, ◌%◌, ◌^◌, ◌≤◌, ◌<◌, ◌≡◌, refl, sym, ap, ◌∙◌, arith, false,
  Option, some, List, [], ◌∷◌, length, take, put_bytes, take-put_bytes, get_or, sle, All,
}
use co_d4x_client_pub.Msg.Stream.{IsByte}
use co_d4x_client_pub.Huffman.{Out, get_bit, write_bits_compress, read_loop, read_bits_compress}
use co_d4x_client_pub.Huffman.Build.{init}
use co_d4x_client_pub.Huffman.Tree.{add_bits, init-IsTree}
use co_d4x_client_pub.Huffman.Bits.{Reads, Written, add_bits-Written, add_bits-bloc}
use co_d4x_client_pub.Huffman.Codes.{encode, length-encode, write_loop-encode, read_loop-encode}
use co_d4x_client_pub.Huffman.Ends.{Expanded, read_loop-ends}

get_or-take : (xs : List ℕ) (n i : ℕ) → i < n → get_or (take n xs) i 0 ≡ get_or xs i 0
get_or-take xs zero i lt = absurd (omega arith)
get_or-take [] (suc n) i lt = refl
get_or-take (x ∷ xs) (suc n) zero lt = refl
get_or-take (x ∷ xs) (suc n) (suc i) lt = get_or-take xs n i (omega arith)

get_bit-take :
    (xs ys : List ℕ) (n j : ℕ) → take n xs ≡ take n ys → j < n * 8 → get_bit xs j ≡ get_bit ys j
unfolding get_bit
get_bit-take xs ys n j e lt =
    let byte : get_or xs (j / 8) 0 ≡ get_or ys (j / 8) 0 =
      sym (get_or-take xs n (j / 8) (omega arith))
      ∙ ap (λ l. get_or l (j / 8) 0) e
      ∙ get_or-take ys n (j / 8) (omega arith) in
    rw byte refl

none_yet : (dest : List ℕ) → Written (record { bytes = dest; bloc = 0 }) []
none_yet dest = record {
  count = refl;
  reads = λ j lt. absurd (omega arith);
  clean = λ lt. absurd (omega arith);
}

-- A reader of bytes' bits, with at most seven more behind them.
read-encode :
    (bs input out : List ℕ) (size out_size : ℕ)
    → All IsByte bs
    → Reads input 0 (encode init 512 init-IsTree bs)
    → length (encode init 512 init-IsTree bs) ≤ 8 * size
    → 8 * size ≤ length (encode init 512 init-IsTree bs) + 7
    → 8 * size < 2 ^ 30
    → length bs ≤ out_size
    → out_size < 2 ^ 31
    → Expanded
        (read_bits_compress init input size out out_size)
        (length bs)
        (put_bytes out 0 bs)
        (out_size - length bs)
        7
unfolding read_bits_compress
read-encode [] input out size out_size p reads least most small fits max =
    let empty : size * 8 % 2 ^ 32 ≡ 0 = omega arith in
    rw empty (record {
      count = 0;
      bytes = out;
      returned = refl;
      least = omega arith;
      most = (omega arith, omega arith);
      size = refl;
      kept = λ k le. refl;
    })
read-encode (b ∷ bs) input out size out_size p reads least most small fits max =
    let t = init-IsTree in
    let all = encode init 512 t (b ∷ bs) in
    let (some_bits, few_bits) = length-encode init 512 t (b ∷ bs) p in
    let bits : size * 8 % 2 ^ 32 ≡ 8 * size = omega arith in
    let on : sle (8 * size) 0 ≡ false = ground (arith, some_bits, least, small) in
    let room : sle out_size 0 ≡ false = ground (arith, fits, max) in
    let split : out_size ≡ length (b ∷ bs) + (out_size - length (b ∷ bs)) = omega arith in
    let rest = out_size - length (b ∷ bs) in
    let loop =
      read_loop-encode init 512 t (b ∷ bs) rest input (8 * size) 0 0 out p reads
        (omega (arith, least)) (omega arith) in
    let end =
      read_loop-ends init 512 t rest input (8 * size) (0 + length all) (0 + length (b ∷ bs))
        (put_bytes out 0 (b ∷ bs)) small (omega arith) in
    rw (bits, on, room)
      (record {
        count = end.count;
        bytes = end.bytes;
        returned = ap (λ k. read_loop k init input (8 * size) 0 0 out) split ∙ loop ∙ end.returned;
        least = omega (arith, end.least);
        most = (omega (arith, end.most), omega (arith, end.most));
        size = end.size;
        kept = λ k le. end.kept k (omega arith);
      })

-- An expansion that begins with the bytes, and has at most seven more.
pub record Begins (bs : List ℕ) (o : Option (ℕ × List ℕ)) (out_size : ℕ) : Type 0 where
  pub count : ℕ
  pub bytes : List ℕ
  pub returned : o ≡ some (count, bytes)
  pub least : length bs ≤ count
  pub most : (count ≤ length bs + 7) × (count ≤ out_size)
  pub restored : take (length bs) bytes ≡ bs

Expanded-Begins :
    (bs out : List ℕ) (out_size : ℕ) (o : Option (ℕ × List ℕ))
    → Expanded o (length bs) (put_bytes out 0 bs) (out_size - length bs) 7
    → length bs ≤ out_size
    → out_size ≤ length out
    → Begins bs o out_size
Expanded-Begins bs out out_size o e fits room =
    let (most, few) = e.most in
    record {
      count = e.count;
      bytes = e.bytes;
      returned = e.returned;
      least = e.least;
      most = (few, omega (arith, most));
      restored =
          e.kept (length bs) (omega arith)
          ∙ take-put_bytes bs out 0 (length bs) (omega arith) (omega arith);
    }

-- What is sent of the bytes, and its expansion, whatever stands behind it where it arrives.
pub record Restored (bs dest out : List ℕ) (out_size : ℕ) : Type 0 where
  pub size : ℕ
  pub sent : List ℕ
  pub wrote : write_bits_compress init bs dest ≡ some (size, sent)
  pub fits : (8 * size ≤ 11 * length bs + 7) × (length sent ≡ length dest)
  pub reads :
      (input : List ℕ)
      → take size input ≡ take size sent
      → Begins bs (read_bits_compress init input size out out_size) out_size

-- With the program's own tree, what MSG_WriteBitsCompress has made of some bytes, in at most eleven
-- bits for each, MSG_ReadBitsCompress expands to a text that begins with the bytes and has at most
-- seven more, wherever the compressed bytes were copied to. The storage has the room for the bits,
-- and that of the reader for the bytes; there are less than 2^30 bits, and the reader has less than
-- 2^31 bytes of room.
pub read_bits_compress-write_bits_compress :
    (bs dest out : List ℕ) (out_size : ℕ)
    → All IsByte bs
    → 11 * length bs ≤ 8 * length dest
    → 11 * length bs < 2 ^ 30 - 7
    → length bs ≤ out_size
    → out_size ≤ length out
    → out_size < 2 ^ 31
    → Restored bs dest out out_size
unfolding write_bits_compress read_bits_compress
read_bits_compress-write_bits_compress bs dest out out_size p room enough s holds max =
    let t = init-IsTree in
    let start : Out = record { bytes = dest; bloc = 0 } in
    let end = add_bits (encode init 512 t bs) start in
    let (least, most) = length-encode init 512 t bs p in
    let (w, same) =
      add_bits-Written (encode init 512 t bs) [] start (none_yet dest)
        (omega (arith, most, room)) in
    let loop = write_loop-encode init 512 t bs start p in
    let bloc = add_bits-bloc (encode init 512 t bs) start in
    record {
      size = (end.bloc + 7) / 8;
      sent = end.bytes;
      wrote = rw (loop, write_bits_compress) refl;
      fits = (omega (arith, bloc, most), same);
      reads = λ input e.
          let size = (end.bloc + 7) / 8 in
          let bits : Reads input 0 (encode init 512 t bs) = λ j lt.
            get_bit-take input end.bytes size (0 + j) e (omega (arith, bloc)) ∙ w.reads j lt in
          Expanded-Begins bs out out_size _
            (read-encode bs input out size out_size p bits (omega (arith, bloc))
              (omega (arith, bloc)) (omega (arith, bloc, most)) s max)
            s holds;
    }
