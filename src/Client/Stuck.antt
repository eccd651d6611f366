-- ===== src/Client/Stuck.antt =====
-- What `CL_ReceiveReliableMessages` of src/cl_main.c does behind a read that returns part of a length.
use co_d4x_client_pub.Common.{
  ℕ, zero, suc, ◌≤◌, ◌<◌, ◌≡◌, refl, ◌∙◌, Bool-cases, inl, inr, true, false, List, [], ◌∷◌, ◌++◌,
  ltb, length, arith, take-all,
}
use co_d4x_client_pub.Client.{ca_connected, stop, receive_loop, receive_messages}
use co_d4x_client_pub.Client.Frames.{Stream}

-- What happens to the stream: a call that does not clear, in some state of the connection, or whatever
-- the network does to the stream between two calls.
pub data Event (S : Type 0) : Type 0 where
  call : (state rounds : ℕ) → Event S
  change : (S → S) → Event S

module _ {S : Type 0} (receive : S → ℕ → List ℕ × S) where
  -- The messages that are executed by the events, what `msg` holds behind them, and the stream.
  abbrev pub run : List (Event S) → List ℕ → S → List (List ℕ) × List ℕ × S
  run [] held s = ([], held, s)
  run (change f ∷ events) held s = run events held (f s)
  run (call state n ∷ events) held s =
      let r = receive_messages receive false state n held s in
      let (executed, held', s') = run events r.held r.stream in (r.executed ++ executed, held', s')

  receive_loop_held :
      (n : ℕ) (held : List ℕ) (s : S)
      → 0 < length held
      → length held < 4
      → receive_loop receive n held s ≡ stop held s
  receive_loop_held zero held s some_held part = refl
  receive_loop_held (suc n) held s some_held part =
      let not_empty : ltb (length held) 1 ≡ false = ground arith in
      let no_header : ltb (length held) 4 ≡ true = ground arith in rw (not_empty, no_header) refl

  receive_messages_held :
      (state n : ℕ) (held : List ℕ) (s : S)
      → 0 < length held
      → length held < 4
      → receive_messages receive false state n held s ≡ stop held s
  receive_messages_held state n held s some_held part = elim (Bool-cases (ltb state ca_connected)) [
    | inl before ↦ rw before refl
    | inr connected ↦ rw connected (receive_loop_held n held s some_held part)
  ]

  run_held :
      (events : List (Event S)) (held : List ℕ) (s : S)
      → 0 < length held
      → length held < 4
      → ((run events held s).0 ≡ []) × ((run events held s).1 ≡ held)
  run_held [] held s some_held part = (refl, refl)
  run_held (change f ∷ events) held s some_held part = run_held events held (f s) some_held part
  run_held (call state n ∷ events) held s some_held part =
      rw (receive_messages_held state n held s some_held part)
        (run_held events held s some_held part)

module _ {S : Type 0} (receive : S → ℕ → List ℕ × S) (stream : Stream receive) where
  -- A read that takes the whole of one to three bytes.
  receive_loop_part :
      (n : ℕ) (s : S)
      → stream.IsGood s
      → 0 < length (stream.readable s)
      → length (stream.readable s) < 4
      → receive_loop receive (suc n) [] s ≡ stop (stream.readable s) (receive s 4).1
  receive_loop_part n s g some_there part =
      let bytes : (receive s 4).0 ≡ stream.readable s =
        stream.taken s 4 g ∙ take-all 4 (stream.readable s) (omega arith) in
      let not_empty : ltb (length (stream.readable s)) 1 ≡ false = ground arith in
      let no_header : ltb (length (stream.readable s)) 4 ≡ true = ground arith in
      rw (bytes, not_empty, no_header) refl

  -- A call that finds `msg` empty, a connection, and only one to three bytes to read on a stream in a
  -- good state executes nothing; and no later call without `clear` executes anything either, in
  -- whatever state of the connection and whatever comes onto the stream between: `msg` goes on to hold
  -- just these bytes.
  pub run_stuck :
      (events : List (Event S)) (state n : ℕ) (s : S)
      → ca_connected ≤ state
      → stream.IsGood s
      → 0 < length (stream.readable s)
      → length (stream.readable s) < 4
      → let all = run receive (call state (suc n) ∷ events) [] s in
        (all.0 ≡ []) × (all.1 ≡ stream.readable s)
  run_stuck events state n s connected g some_there part =
      let go : ltb state ca_connected ≡ false = ground (arith, connected) in
      rw (go, receive_loop_part n s g some_there part)
        (run_held receive events (stream.readable s) (receive s 4).1 some_there part)
