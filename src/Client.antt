-- ===== src/Client.antt =====
-- `CL_ReceiveReliableMessages` of src/cl_main.c, which takes messages off the reliable stream: each is
-- its length in four bytes, and as many bytes. The stream is a parameter, with its
-- `ReliableMessageReceive`. The static `msg` is the bytes that it holds, from the first call with
-- `clear` on, which gives it its storage; what a message does when it is executed is left out.
pub mod Frames
pub mod Channel
pub mod Stuck
mod Tests
use co_d4x_client_pub.Common.{
  ℕ, zero, suc, ◌+◌, ◌-◌, ◌*◌, Bool, true, false, List, [], ◌∷◌, ◌++◌, ltb, if◌then◌else◌, length,
  take, from_le, minus_one, slt, add32, sub32,
}

-- The size of the storage of `msg`.
abbrev pub max_message : ℕ
max_message = 1024 * 1024

-- CA_CONNECTED in `connstate_t`: the states before it stand for no connection.
abbrev pub ca_connected : ℕ
ca_connected = 5

-- `MSG_ReadLong` from the beginning: -1 where fewer than four bytes are there.
abbrev pub message_size : List ℕ → ℕ
message_size held = if ltb (length held) 4 then minus_one else from_le (take 4 held)

-- The messages that were executed, what `msg` holds, the stream, and whether there was no error.
pub record Received (S : Type 0) : Type 0 where
  pub executed : List (List ℕ)
  pub held : List ℕ
  pub stream : S
  pub ok : Bool

module _ {S : Type 0} where
  abbrev pub stop : List ℕ → S → Received S
  stop held s = record { executed = []; held = held; stream = s; ok = true }

  abbrev pub drop_error : List ℕ → S → Received S
  drop_error held s = record { executed = []; held = held; stream = s; ok = false }

  abbrev pub execute : List ℕ → Received S → Received S
  execute message r = record r { executed = message ∷ r.executed }

  abbrev pub finish : (S → Received S) → List ℕ → S → ℕ → Received S
  finish more held s size =
      if slt (length held) (add32 size 4) then stop held s else execute held (more s)

module _ {S : Type 0} (receive : S → ℕ → List ℕ × S) where
  abbrev pub complete : (S → Received S) → List ℕ → S → ℕ → Received S
  complete more held s size =
      let (bytes, s') = receive s (sub32 (add32 size 4) (length held)) in
      if slt (length held) (add32 size 4)
      then finish more (held ++ bytes) s' size
      else finish more held s size

  abbrev pub with_size : (S → Received S) → List ℕ → S → ℕ → Received S
  with_size more held s size =
      if slt size 0
      then stop held s
      else if slt max_message (add32 size 4)
      then drop_error held s
      else complete more held s size

  abbrev pub with_header : (S → Received S) → List ℕ → S → Received S
  with_header more held s =
      if ltb (length held) 1 then stop held s else with_size more held s (message_size held)

  abbrev pub round : (S → Received S) → List ℕ → S → Received S
  round more held s =
      let (bytes, s') = receive s 4 in
      if ltb (length held) 1 then with_header more bytes s' else with_header more held s

  -- The loop, on the number of rounds, of which each but the last executes a message.
  abbrev pub receive_loop : ℕ → List ℕ → S → Received S
  receive_loop zero held s = stop held s
  receive_loop (suc n) held s = round (λ t. receive_loop n [] t) held s

  -- `CL_ReceiveReliableMessages`, with `clear` and the state of the connection: the first empties
  -- `msg`, and nothing is done before there is a connection.
  abbrev pub receive_messages : Bool → ℕ → ℕ → List ℕ → S → Received S
  receive_messages clear state n held s =
      if clear
      then stop [] s
      else if ltb state ca_connected
      then stop held s
      else receive_loop n held s
