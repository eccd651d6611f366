-- ===== src/Http/Send.antt =====
-- The data that waits to be sent in src/httpftp.c. `wire` is what the socket has taken.
use co_d4x_client_pub.Common.{
  ℕ, ◌+◌, ◌-◌, ◌<◌, ◌||◌, Option, none, some, List, ◌++◌, length, take, drop, put_bytes, ltb, slt,
  ◌==◌, if◌then◌else◌, minus_one, ◌^◌,
}
use co_d4x_client_pub.Msg.{Msg, write_data}

pub record Sender : Type 0 where
  pub socket : ℕ
  pub sendmsg : Msg
  pub wire : List ℕ

abbrev pub with_data : Msg → List ℕ → ℕ → ℕ → Msg
with_data m buf maxsize cursize = record {
  overflowed = m.overflowed;
  readonly = m.readonly;
  buf = buf;
  splitdata = m.splitdata;
  maxsize = maxsize;
  cursize = cursize;
  splitsize = m.splitsize;
  readcount = m.readcount;
  bit = m.bit;
  last_ref_entity = m.last_ref_entity;
}

abbrev pub with_msg : Sender → Msg → Sender
with_msg s m = record { socket = s.socket; sendmsg = m; wire = s.wire }

-- `malloc` yields what an allocation of some size returns: nothing, or an array of that size.
module _ (malloc : ℕ → Option (List ℕ)) where
  unfoldable pub add_data : Sender → List ℕ → Sender
  add_data s piece =
      let m = s.sendmsg in
      let newsize = m.cursize + length piece in
      let grown : Msg = elim (malloc newsize) [
        | none ↦ m
        | some newbuf ↦ with_data m (put_bytes newbuf 0 (take m.cursize m.buf)) newsize m.cursize
      ] in
      if ltb m.maxsize newsize
      then with_msg s (write_data grown piece)
      else with_msg s (write_data m piece)

-- What the network answers: that it would block, or its count of bytes, as a 32-bit int.
pub data Answer : Type 0 where
  want_write : Answer
  bytes : ℕ → Answer

abbrev pub close : Sender → Sender
close s = record { socket = minus_one; sendmsg = s.sendmsg; wire = s.wire }

abbrev pub taken : Sender → ℕ → Sender
taken s n =
    let m = s.sendmsg in
    record {
      socket = s.socket;
      sendmsg =
          with_data m (put_bytes m.buf 0 (take (m.cursize - n) (drop n m.buf))) m.maxsize
            (m.cursize - n);
      wire = s.wire ++ take n m.buf;
    }

abbrev pub answered : Sender → Answer → ℕ × Sender
answered s Answer.want_write = (0, s)
answered s (Answer.bytes n) =
    if slt n 0 || slt s.sendmsg.cursize n
    then (minus_one, close s)
    else if n == 0
    then (0, s)
    else (1, taken s n)

-- The count is a 32-bit pattern.
abbrev pub IsInt : Answer → Type 0
IsInt Answer.want_write = Unit
IsInt (Answer.bytes n) = n < 2 ^ 32

-- The result and the state.
unfoldable pub send_data : Sender → Answer → ℕ × Sender
send_data s answer =
    if s.socket == minus_one
    then (minus_one, s)
    else if slt s.sendmsg.cursize 1
    then (0, s)
    else answered s answer
