-- ===== src/Tcp/Client.antt =====
-- tcp/raft_tcp_client.cpp: the client's questions to a node. `a` is what the operating system
-- answers to the connection.
use cpp_raft.Base.{
  if◌then◌else◌, take, drop, ℤ, pos_part, ltb_ℤ, leb_ℤ, pos, negsuc, ℕ, ◌*◌, Bool, ◌&&◌, Option,
  none, some, List, [],
}
use cpp_raft.Sockets.Stream.{SocketTcp, new_socket}
use cpp_raft.Sockets.Connecting.{ConnectAnswers}
use cpp_raft.Tcp.Connect.{connect_and_get_endian2}
use cpp_raft.Tcp.Connections.{read_exactly, received_int}
use cpp_raft.Tcp.Asking.{split_keys}
use cpp_raft.Tcp.Keys.{Text, NodeIdentifierKey, key_size, set_ip4_address1}
use cpp_raft.Tcp.Requests.{ping_request, start_time_request, all_nodes_info}

-- `SetNodeDetails`; a null name leaves the address as it is.
unfoldable pub set_node_details :
    (Text → Option Text) → Text → Option Text → ℤ → NodeIdentifierKey → NodeIdentifierKey
unfolding set_ip4_address1
set_node_details resolve own host port k =
    let named : NodeIdentifierKey = elim host [
      | none ↦ k
      | some h ↦ set_ip4_address1 resolve own h k
    ] in
    record named { port = if ltb_ℤ (pos 0) port then port else pos 9030 }

-- The result is 0 with whether the byte order differs, or -1.
unfoldable pub ping_to_node : NodeIdentifierKey → ConnectAnswers → ℤ × Option ℕ
unfolding connect_and_get_endian2 new_socket
ping_to_node node a =
    let (differ, s) = connect_and_get_endian2 node ping_request a new_socket in
    (elim differ [ none ↦ negsuc 0 | some d ↦ pos 0 ], differ)

unfoldable pub get_start_time : NodeIdentifierKey → ConnectAnswers → ℤ × Option ℤ
unfolding connect_and_get_endian2 new_socket read_exactly
get_start_time node a =
    let (differ, s) = connect_and_get_endian2 node start_time_request a new_socket in
    elim differ [
      | none ↦ (negsuc 0, none)
      | some d ↦
          let (bytes, t) = read_exactly 4 s in
          elim bytes [ none ↦ (negsuc 0, none) | some time ↦ (pos 0, some (received_int d time)) ]
    ]

-- The counts that the code goes on with.
abbrev pub is_cluster : ℤ → ℤ → Bool
is_cluster count index = leb_ℤ (pos 1) count && (leb_ℤ (pos 0) index && ltb_ℤ index count)

-- The keys behind the counts.
unfoldable pub read_nodes : ℕ → ℤ → ℤ → SocketTcp → ℤ × List NodeIdentifierKey
unfolding read_exactly split_keys
read_nodes differ count index s =
    if is_cluster count index
    then (let (bytes, t) = read_exactly (key_size * pos_part count) s in
        elim bytes [
          | none ↦ (negsuc 0, [])
          | some keys ↦ (index, split_keys differ (pos_part count) keys)
        ])
    else (negsuc 0, [])

-- The result is the index of the leader, or -1; without it, the keys are not those of a cluster.
unfoldable pub receive_all_nodes : NodeIdentifierKey → ConnectAnswers → ℤ × List NodeIdentifierKey
unfolding connect_and_get_endian2 new_socket read_exactly read_nodes
receive_all_nodes node a =
    let (differ, s) = connect_and_get_endian2 node all_nodes_info a new_socket in
    elim differ [
      | none ↦ (negsuc 0, [])
      | some d ↦
          let (bytes, t) = read_exactly 8 s in
          elim bytes [
            | none ↦ (negsuc 0, [])
            | some nl ↦ read_nodes d (received_int d (take 4 nl)) (received_int d (drop 4 nl)) t
          ]
    ]
