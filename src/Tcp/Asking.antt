-- ===== src/Tcp/Asking.antt =====
-- tcp/raft_tcp_server.cpp, `TryFindClusterThredSafe`: what a new server reads from an adder.
use cpp_raft.Base.{
  ◌^◌, ltb, ◌==◌, if◌then◌else◌, length, take, drop, ℤ, pos_part, ltb_ℤ, pos, ℕ, zero, suc, ◌*◌,
  Bool, true, false, Option, none, some, List, [], ◌∷◌,
}
use cpp_raft.Sockets.Stream.{SocketTcp}
use cpp_raft.Tcp.Bytes.{int_bytes}
use cpp_raft.Tcp.Connect.{receive_extra_data}
use cpp_raft.Tcp.Connections.{read_exactly, write_series, received_int}
use cpp_raft.Tcp.Exchange.{received_key}
use cpp_raft.Tcp.Keys.{NodeIdentifierKey, key_size}
use cpp_raft.Tcp.Requests.{node_with_key_already_exist, to_new_node_add_partitions}

-- The keys in what an adder sends, each of `key_size` bytes.
unfoldable pub split_keys : ℕ → ℕ → List ℕ → List NodeIdentifierKey
split_keys differ zero bytes = []
split_keys differ (suc n) bytes =
    received_key differ (take key_size bytes) ∷ split_keys differ n (drop key_size bytes)

-- What the adder has told: the index of the leader and the keys, or too little. Where the product of
-- the count and the size of a key does not fit `nBytesToReceive`, an `int32_t`, the memory for the
-- keys is too small for them, or negative.
pub data Told : Type 0 where
  told : ℤ → List NodeIdentifierKey → Told
  untold overrun : Told

unfoldable pub read_keys : ℕ → ℤ → ℤ → SocketTcp → Told × SocketTcp
unfolding split_keys
read_keys differ index n s =
    if ltb_ℤ n (pos 1)
    then (untold, s)
    else if ltb (key_size * pos_part n) (2 ^ 31)
    then (let (info, s1) = read_exactly (key_size * pos_part n) s in
        elim info [
          | none ↦ (untold, s1)
          | some bytes ↦ (told index (split_keys differ (pos_part n) bytes), s1)
        ])
    else (overrun, s)

unfoldable pub read_count : ℕ → ℤ → SocketTcp → Told × SocketTcp
read_count differ index s =
    let (count, s1) = read_exactly 4 s in
    elim count [
      | none ↦ (untold, s1)
      | some bytes ↦ read_keys differ index (received_int differ bytes) s1
    ]

unfoldable pub read_cluster : ℕ → SocketTcp → Told × SocketTcp
unfolding read_count read_keys
read_cluster differ s =
    let (index, s1) = read_exactly 4 s in
    elim index [
      | none ↦ (untold, s1)
      | some bytes ↦ read_count differ (received_int differ bytes) s1
    ]

-- The steps 5 to 10: the extra data, the confirmation and the data that come back. The first result
-- is whether the adder already has the key, on which the program exits.
unfoldable pub confirm : ℕ → List ℕ → SocketTcp → Bool × Option (List ℕ) × SocketTcp
unfolding write_series read_exactly receive_extra_data
confirm differ extra s =
    let (sent, s1) = write_series (int_bytes (pos (length extra)) ∷ extra ∷ []) s in
    let (answer, s2) = read_exactly 1 s1 in
    if sent
    then elim answer [
      | some (a ∷ []) ↦
          if a == node_with_key_already_exist
          then (true, none, s2)
          else if a == to_new_node_add_partitions
          then (let (content, s3) = receive_extra_data differ s2 in (false, content, s3))
          else (false, none, s2)
      | _ ↦ (false, none, s2)
    ]
    else (false, none, s1)
