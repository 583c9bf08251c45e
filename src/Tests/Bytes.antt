-- ===== src/Tests/Bytes.antt =====
-- Bytes, keys and lists of servers on which the theorems are applied.
use cpp_raft.Base.{pos, ℕ, ◌*◌, ◌^◌, ◌≡◌, refl, Option, none, List, [], ◌∷◌, arith}
use cpp_raft.Tcp.Bytes.{
  swap_4_bytes, foreign, is_endian_differ_and_request, is_endian_differ_and_request-foreign,
}
use cpp_raft.Tcp.Keys.{Text, NodeIdentifierKey}

-- Words of bytes, as `swap_4_bytes` leaves them.
swapped : (swap_4_bytes 67305985 ≡ 67240705)
unfolding swap_4_bytes
swapped = refl

is_endian_differ_and_request-foreign_example :
    (is_endian_differ_and_request 3 ≡ (0, 3))
    × (is_endian_differ_and_request (foreign 3) ≡ (1, foreign 3))
    × (foreign 3 ≡ 3 * 2 ^ 24)
is_endian_differ_and_request-foreign_example =
    is_endian_differ_and_request-foreign 3 (omega arith) (omega arith)

abbrev no_name : Text → Option Text
no_name host = none

abbrev pub an_address : List ℕ
an_address =
    49 ∷ 48 ∷ 0 ∷ 0 ∷ 0 ∷ 0 ∷ 0 ∷ 0 ∷ 0 ∷ 0 ∷ 0 ∷ 0 ∷ 0 ∷ 0 ∷ 0 ∷ 0 ∷ 0 ∷ 0 ∷ 0 ∷ 0 ∷ 0 ∷ 0 ∷ 0 ∷ 0
    ∷ []

abbrev pub a_key : NodeIdentifierKey
a_key = record { port = pos 8000; ip4_address = an_address }
