-- ===== src/NetChan/Keystream.antt =====
-- The bytes that the scrambling of src/cl_netchan.c mixes into a packet.
use co_d4x_client_pub.Common.{
  ℕ, ◌+◌, ◌%◌, ◌<◌, ◌≡◌, List, [], ◌∷◌, ◌==◌, if◌then◌else◌, get_or, bit_xor, zero, suc, ◌≤◌,
  length,
}

-- The byte of a text that repeats itself without end.
abbrev pub text_char : List ℕ → ℕ → ℕ
text_char text j = get_or text (j % length text) 0

-- That byte, doubled in a byte at odd places.
abbrev pub mixed_in : ℕ → ℕ → ℕ
mixed_in j c = if j % 2 == 0 then c else (c + c) % 256

-- The key and the first `n` bytes of the repeated text, one after another.
abbrev pub stream : List ℕ → ℕ → ℕ → ℕ
stream text key zero = key
stream text key (suc n) = bit_xor (stream text key n) (mixed_in n (text_char text n))

-- A text is one with each byte of another under the stream of its place.
pub record IsStreamed (text : List ℕ) (key : ℕ) (bytes out : List ℕ) : Type 0 where
  pub count : length out ≡ length bytes
  pub each :
      (j : ℕ)
      → j < length bytes
      → get_or out j 0 ≡ bit_xor (get_or bytes j 0) (stream text key (j + 1))

-- Where the index stands before round `i`.
abbrev Stands : List ℕ → ℕ → ℕ → Type 0
Stands [] i index = Unit
Stands (c ∷ text) i index =
    (index ≤ length (c ∷ text)) × (index % length (c ∷ text) ≡ i % length (c ∷ text))

-- The index of round `i` behind the test for the zero byte.
abbrev wrapped : List ℕ → ℕ → ℕ
wrapped text index = if get_or text index 0 == 0 then 0 else index

record Steps (text : List ℕ) (i index : ℕ) : Type 0 where
  char : get_or text (wrapped text index) 0 ≡ text_char text i
  stands : Stands text (i + 1) (wrapped text index + 1)

-- What the rounds from `i` on leave.
abbrev FromRound : List ℕ → ℕ → ℕ → List ℕ → List ℕ → Type 0
FromRound text key i bytes out =
    (length out ≡ length bytes)
    × ((j : ℕ)
        → j < length bytes
        → get_or out j 0 ≡ bit_xor (get_or bytes j 0) (stream text key (i + j + 1)))
