-- ===== src/NetChan/Cipher.antt =====
-- The scrambling of packets in src/cl_netchan.c: `CL_Netchan_Encode_Default` and
-- `CL_Netchan_Decode_Default`.
-- The key is a byte, and is mixed with the text of a command at each step; the text starts again at
-- its zero byte. The part of the client's state that they read is the record below.
use co_d4x_client_pub.Common.{
  ℕ, ◌+◌, ◌*◌, ◌%◌, ◌^◌, List, [], ◌∷◌, ◌==◌, if◌then◌else◌, get_or, bit_xor, take, drop, Option,
  ◌++◌, Bool,
}
use co_d4x_client_pub.Net.{Adr, Net}
use co_d4x_client_pub.NetChan.{Chan, transmit}

-- What the two functions read of `clc` and `cl`: the command buffers are indexed by the last seven
-- bits of a counter.
pub record Client : Type 0 where
  pub challenge : ℕ
  pub server_message_sequence : ℕ
  pub server_id : ℕ
  pub server_command_sequence : ℕ
  pub reliable_acknowledge : ℕ
  pub server_commands : List (List ℕ)
  pub reliable_commands : List (List ℕ)

abbrev pub max_reliable_commands : ℕ
max_reliable_commands = 128

-- The loop of `CL_Netchan_Decode_Default`, from round `i` on.
unfoldable pub decode_loop : List ℕ → ℕ → ℕ → ℕ → List ℕ → List ℕ
decode_loop string i index key [] = []
decode_loop string i index key (b ∷ bs) =
    let index' = if get_or string index 0 == 0 then 0 else index in
    let key' = bit_xor key (get_or string index' 0 * 2 ^ (i % 2) % 256) in
    bit_xor b key' ∷ decode_loop string (i + 1) (index' + 1) key' bs

-- The loop of `CL_Netchan_Encode_Default`, from round `i` on.
unfoldable pub encode_loop : List ℕ → ℕ → ℕ → ℕ → List ℕ → List ℕ
encode_loop string i index key [] = []
encode_loop string i index key (b ∷ bs) =
    let index' = if get_or string index 0 == 0 then 0 else index in
    let key' = bit_xor key (get_or string index' 0 * 2 ^ (i % 2) % 256) in
    bit_xor b key' ∷ encode_loop string (i + 1) (index' + 1) key' bs

abbrev pub decode_key : Client → ℕ
decode_key c = bit_xor c.challenge c.server_message_sequence % 256

abbrev pub decode_text : Client → List ℕ
decode_text c = get_or c.reliable_commands (c.reliable_acknowledge % max_reliable_commands) []

abbrev pub encode_key : Client → ℕ
encode_key c = bit_xor (bit_xor (c.server_id % 256) c.server_message_sequence) c.challenge % 256

abbrev pub encode_text : Client → List ℕ
encode_text c = get_or c.server_commands (c.server_command_sequence % max_reliable_commands) []

unfoldable pub decode : Client → List ℕ → List ℕ
unfolding decode_loop
decode c bytes = decode_loop (decode_text c) 0 0 (decode_key c) bytes

unfoldable pub encode : Client → List ℕ → List ℕ
unfolding encode_loop
encode c bytes = encode_loop (encode_text c) 0 0 (encode_key c) bytes

-- `CL_Netchan_Transmit`: the bytes from 9, or 16, on are scrambled first. `legacy` is the answer of
-- `Com_IsLegacyServer`.
pub transmit_encoded :
    (Adr → List ℕ → Bool) → ℕ → Bool → Client → Chan → Net → List ℕ → Option (Bool × Chan × Net)
transmit_encoded accepts port legacy c ch net bytes =
    let start = if legacy then 9 else 16 in
    transmit accepts port ch net (take start bytes ++ encode c (drop start bytes))
