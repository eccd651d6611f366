-- ===== src/NetChan/Reassembly/Fragments.antt =====
-- The fragments of a message, as packets.
use co_d4x_client_pub.Common.{ℕ, zero, suc, ◌+◌, List, [], ◌∷◌, take, drop}
use co_d4x_client_pub.Net.{Sock, fragment_size}
use co_d4x_client_pub.NetChan.Packet.{fragment_bytes}

-- `n` full fragments from position `start` on, and then the rest, which may be empty.
abbrev pub fragments : Sock → ℕ → ℕ → ℕ → ℕ → List ℕ → List (List ℕ)
fragments sock port sequence zero start bytes = fragment_bytes sock port sequence start bytes ∷ []
fragments sock port sequence (suc n) start bytes =
    fragment_bytes sock port sequence start (take fragment_size bytes)
    ∷ fragments sock port sequence n (start + fragment_size) (drop fragment_size bytes)
