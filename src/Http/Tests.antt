-- ===== src/Http/Tests.antt =====
-- Runs of src/httpftp.c, and the theorems at concrete texts.
use co_d4x_client_pub.Common.{
  ℕ, ◌≡◌, refl, arith, true, ◌⊎◌, Option, none, some, List, [], ◌∷◌, ◌++◌, replicate,
  length-replicate, length, ◌≤◌, set, drop, minus_one,
}
use co_d4x_client_pub.Msg.{init}
use co_d4x_client_pub.Http.{
  PostVal, no_val, strtol, encode_loop, encode_url, decode_from, decode_url, get_form_data_item,
  pair_size, decode_url_form_data,
}
use co_d4x_client_pub.Text.{strchrrepl, stricmp, stricmpn}
use co_d4x_client_pub.Http.Coded.{Encoded, decode_url-encode_url}
use co_d4x_client_pub.Http.Posted.{Posted, create_forms, parse_form-create_forms}
use co_d4x_client_pub.Http.Clients.{
  Pointers, new_from, IsGiven, IsFull, connection_id_to_pointer, new_connection_id,
  new_connection_id-IsGiven,
}
use co_d4x_client_pub.Http.Send.{Sender, Answer}
use co_d4x_client_pub.Http.Sent.{Call, total, added, run, run-total}

-- `a b&`
abbrev spaced : List ℕ
spaced = b'a' ∷ b' ' ∷ b'b' ∷ b'&' ∷ []

encoded_spaced :
    encode_url spaced 0 (replicate 16 1) 16 true
    ≡ (8, b'a' ∷ b'%' ∷ b'2' ∷ b'0' ∷ b'b' ∷ b'%' ∷ b'2' ∷ b'6' ∷ 0 ∷ replicate 7 1)
unfolding encode_url encode_loop
encoded_spaced = refl

-- A byte from 128 on is printed with eight digits, of which three characters are kept.
encoded_high :
    encode_url (0xE4 ∷ b'a' ∷ b'b' ∷ []) 0 (replicate 16 1) 16 true
    ≡ (5, b'%' ∷ b'F' ∷ b'F' ∷ b'a' ∷ b'b' ∷ 0 ∷ b'F' ∷ b'E' ∷ b'4' ∷ 0 ∷ replicate 6 1)
unfolding encode_url encode_loop
encoded_high = refl

-- The value `50%2525` of a form is `50%25` when it is read first, and `50%` when it is looked up.
decoded_twice :
    get_form_data_item
      (record { name = b'k' ∷ []; value = b'%' ∷ b'2' ∷ b'5' ∷ b'0' ∷ [] } ∷ [])
      (b'K' ∷ [])
    ≡ (b'%' ∷ b'0' ∷ [], record { name = b'k' ∷ []; value = b'%' ∷ b'0' ∷ [] } ∷ [])
unfolding get_form_data_item decode_url_form_data strchrrepl decode_url decode_from strtol stricmp
    stricmpn
decoded_twice = refl

decode_url-encode_url_example : Encoded spaced (replicate 16 1) 16 true
decode_url-encode_url_example =
    decode_url-encode_url true spaced (replicate 16 1) 16 (ground arith) (omega arith) (omega arith)

abbrev name_pair : PostVal
name_pair = record { name = b'n' ∷ []; value = spaced }

abbrev key_pair : PostVal
key_pair = record { name = b'k' ∷ []; value = b'=' ∷ [] }

abbrev values : List PostVal
values = replicate 3 no_val

large : List ℕ
large = replicate pair_size 0

large_size : pair_size ≤ length large
unfolding large
large_size = omega (arith, length-replicate {A = ℕ} pair_size 0)

parse_form-create_forms_example :
    Posted name_pair
      (key_pair ∷ [])
      values
      (create_forms large (replicate 32 0) 32 (name_pair ∷ key_pair ∷ []))
parse_form-create_forms_example =
    parse_form-create_forms name_pair (key_pair ∷ []) values large (replicate 32 0) 32
      (record { name = ground arith; value = ground arith; short = (omega arith, omega arith) })
      (
        record { name = ground arith; value = ground arith; short = (omega arith, omega arith) },
        record {},
      )
      (omega arith) large_size refl (omega arith) (omega arith)

abbrev clients : Pointers
clients = set (replicate 257 none) 1 (some 7)

second_given : (new_connection_id (some 8) clients).0 ≡ 2
unfolding new_connection_id new_from
second_given = refl

new_connection_id-IsGiven_example :
    IsGiven 8 clients (new_connection_id (some 8) clients).1 (new_connection_id (some 8) clients).0
    ⊎ ((IsFull (drop 1 clients)) × (new_connection_id (some 8) clients ≡ (minus_one, clients)))
new_connection_id-IsGiven_example = new_connection_id-IsGiven 8 clients refl

-- The id 257 is let through, past the end of the array.
pointer_past_end : connection_id_to_pointer clients 257 ≡ none
unfolding connection_id_to_pointer
pointer_past_end = refl

abbrev sender : Sender
sender = record { socket = 5; sendmsg = init (replicate 2 0) 2; wire = [] }

abbrev calls : List Call
calls =
    Call.add (1 ∷ 2 ∷ 3 ∷ [])
    ∷ Call.send (Answer.bytes 2)
    ∷ Call.add (4 ∷ [])
    ∷ Call.send Answer.want_write
    ∷ Call.send (Answer.bytes 2)
    ∷ []

abbrev allocate : ℕ → Option (List ℕ)
allocate n = some (replicate n 0)

run-total_example : total (run allocate calls sender) ≡ total sender ++ added calls
unfolding init
run-total_example =
    run-total allocate calls sender (λ n. (replicate n 0, refl, length-replicate {A = ℕ} n 0))
      (record { inside = omega arith; array = omega arith }) (ground arith) (omega arith)
