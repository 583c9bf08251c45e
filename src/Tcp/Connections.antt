-- ===== src/Tcp/Connections.antt =====
-- tcp/raft_tcp_server.cpp: the job for a new connection, with the answer to each kind of request.
use cpp_raft.Base.{
  ◌==◌, if◌then◌else◌, length, ℤ, eqb_ℤ, pos, ℕ, ◌%◌, ◌^◌, Bool, true, false, Option, none, some,
  List, [], ◌∷◌, ◌++◌,
}
use cpp_raft.Node.{Ptr, null}
use cpp_raft.Server.Members.{find_node}
use cpp_raft.Outcome.{Outcome}
use cpp_raft.Sockets.Stream.{SocketTcp, read_c, write_c, close_c}
use cpp_raft.Tcp.Bytes.{
  int_bytes, word_bytes, read_int, read_word, swap_int, is_endian_differ_and_request,
}
use cpp_raft.Tcp.Connect.{receive_extra_data}
use cpp_raft.Tcp.Exchange.{
  collect_all_nodes_data, received_key, send_information_to_all_nodes, send_information_to_node,
}
use cpp_raft.Tcp.Keys.{
  Text, NodeIdentifierKey, key_bytes, key_of, key_size, set_ip4_address2, eqb_node_key,
}
use cpp_raft.Tcp.Members.{NewNode, add_node}
use cpp_raft.Tcp.Requests.{
  connect_new_node, permanent_bridge, other_leader_found, all_nodes_info, start_time_request,
  adder_new_node, to_new_node_add_partitions, node_with_key_already_exist,
}
use cpp_raft.Tcp.State.{
  NodeTools, TcpServer, Action, None, and_then, ◌>>◌, pure, node_at, tools_of, set_tools, returns,
  undefined,
}
use cpp_raft.Tcp.Tools.{raft_index, set_socket}

-- Reads and writes on a socket that is not yet of a node: all the bytes, or none.
unfoldable pub read_exactly : ℕ → SocketTcp → Option (List ℕ) × SocketTcp
unfolding read_c
read_exactly n s =
    let (r, bytes, t) = read_c n s in (if eqb_ℤ r (pos n) then some bytes else none, t)

unfoldable pub write_exactly : List ℕ → SocketTcp → Bool × SocketTcp
unfolding write_c
write_exactly bytes s = let (w, t) = write_c bytes s in (eqb_ℤ w (pos (length bytes)), t)

-- Several writes, each done only if the one before wrote all.
unfoldable pub write_series : List (List ℕ) → SocketTcp → Bool × SocketTcp
unfolding write_exactly
write_series [] s = (true, s)
write_series (bytes ∷ more) s =
    let (done, t) = write_exactly bytes s in if done then write_series more t else (false, t)

-- A number as it came from a peer.
abbrev pub received_int : ℕ → List ℕ → ℤ
received_int differ bytes = let i = read_int bytes in if differ == 0 then i else swap_int i

-- What a new node is told about the cluster: the index of the leader, the count of the nodes, and
-- their keys.
unfoldable pub cluster_info : TcpServer → List (List ℕ)
unfolding collect_all_nodes_data
cluster_info t =
    let (keys, leader) = collect_all_nodes_data t.raft in
    int_bytes leader ∷ int_bytes (pos (length t.raft.nodes)) ∷ keys ∷ []

-- `raft_connect_toAnyNode_newNode`, behind the port: the extra data.
unfoldable pub tell_new_node : ℕ → TcpServer → SocketTcp → Option (List ℕ) × SocketTcp
unfolding write_series cluster_info receive_extra_data
tell_new_node differ t s =
    let (done, u) = write_series (cluster_info t) s in
    if done then receive_extra_data differ u else (none, u)

module _ (own : Text) where
  -- The key of the peer with the port that it sends.
  unfoldable pub remote_key : Text → ℕ → SocketTcp → Option NodeIdentifierKey × SocketTcp
  unfolding read_exactly set_ip4_address2 swap_int
  remote_key remote differ s =
      let (bytes, t) = read_exactly 4 s in
      (
        elim bytes [
          | none ↦ none
          | some port ↦ some (
              set_ip4_address2 own remote
                (record { port = received_int differ port; ip4_address = [] }))
        ],
        t,
      )

  -- `raft_connect_toAnyNode_newNode`
  unfoldable pub connect_new :
      Text → ℕ → TcpServer → SocketTcp → Option (NodeIdentifierKey × List ℕ) × SocketTcp
  unfolding remote_key tell_new_node
  connect_new remote differ t s =
      let (key, u) = remote_key remote differ s in
      elim key [
        | none ↦ (none, u)
        | some k ↦
            let (extra, v) = tell_new_node differ t u in
            (elim extra [ none ↦ none | some content ↦ some (k, content) ], v)
      ]

  -- `raft_connect_fromClient_allNodesInfo`
  unfoldable pub connect_all_nodes_info : TcpServer → SocketTcp → SocketTcp
  unfolding write_series collect_all_nodes_data
  connect_all_nodes_info t s =
      let (keys, leader) = collect_all_nodes_data t.raft in
      (write_series ((int_bytes (pos (length t.raft.nodes)) ++ int_bytes leader) ∷ keys ∷ []) s).1

  -- `raft_connect_fromClient_startTime`
  unfoldable pub connect_start_time : TcpServer → SocketTcp → SocketTcp
  unfolding write_c
  connect_start_time t s = (write_c (word_bytes (t.server_start_time % 2 ^ 32)) s).1

  -- `raft_connect_toAnyNode_otherLeaderFound`: 'o' for the known leader, 'e' for another.
  unfoldable pub connect_other_leader_found : ℕ → SocketTcp → Action SocketTcp
  unfolding read_exactly write_c eqb_node_key swap_int
  connect_other_leader_found differ s t =
      let (bytes, u) = read_exactly key_size s in
      elim bytes [
        | none ↦ returns u t
        | some key ↦
            if t.leader_node == null
            then undefined
            else (let same =
                  eqb_node_key (key_of (node_at t.leader_node t).key) (received_key differ key) in
                returns (write_c ((if same then 111 else 101) ∷ []) u).1 t)
      ]

  -- Stores a tool that may be out of the array.
  abbrev pub store_tools : Ptr → Outcome NodeTools → Action None
  store_tools p (cpp_raft.Outcome.ok n) t = returns tt (set_tools p n t)
  store_tools p _ t = undefined

  -- `raft_connect_toAnyNode_permanentBridge`: the connection goes to the node with the key.
  unfoldable pub connect_permanent_bridge : Text → ℕ → SocketTcp → Action None
  unfolding remote_key find_node read_exactly set_tools set_socket swap_int
  connect_permanent_bridge remote differ s t =
      let (key, u) = remote_key remote differ s in
      elim key [
        | none ↦ returns tt t
        | some k ↦ elim (find_node (key_bytes k) t.raft) [
          | none ↦ returns tt t
          | some p ↦
              let marked = record (tools_of p t) { is_endian_differ = differ } in
              let (bytes, v) = read_exactly 4 u in
              elim bytes [
                | none ↦ returns tt (set_tools p marked t)
                | some index ↦ store_tools p (set_socket (received_int differ index) v marked) t
              ]
        ]
      ]

  -- `handleNewConnectionBeforeLock`: the key and the data of a new node, where it returns true.
  unfoldable pub handle_new_connection_before_lock :
      ℕ → Text → ℕ → SocketTcp → Action (Option (NodeIdentifierKey × List ℕ) × SocketTcp)
  unfolding connect_new connect_permanent_bridge connect_all_nodes_info connect_start_time
      connect_other_leader_found
  handle_new_connection_before_lock request remote differ s t =
      if request == connect_new_node
      then returns (connect_new remote differ t s) t
      else if request == permanent_bridge
      then and_then (connect_permanent_bridge remote differ s t) (λ _ u. returns (none, s) u)
      else if request == all_nodes_info
      then returns (none, connect_all_nodes_info t s) t
      else if request == start_time_request
      then returns (none, connect_start_time t s) t
      else if request == other_leader_found
      then and_then (connect_other_leader_found differ s t) (λ v u. returns (none, v) u)
      else returns (none, s) t

  -- `handleNewConnectionLocked` and `handleNewConnectionAfterLock` for a new node.
  unfoldable pub admit_node : NewNode → NodeIdentifierKey → List ℕ → SocketTcp → Action SocketTcp
  unfolding add_node write_c send_information_to_all_nodes set_socket set_tools
      send_information_to_node
  admit_node new key extra s t =
      let (p, u) = add_node new key t in
      if p == null
      then returns (write_c (node_with_key_already_exist ∷ []) s).1 t
      else (do
        send_information_to_all_nodes raft_index adder_new_node (some extra) (some key) p true
        (λ v. store_tools p (set_socket raft_index s (tools_of p v)) v)
        send_information_to_node p raft_index to_new_node_add_partitions (some extra) none
        pure (close_c s))
          u

  -- `HandleNewConnectionPrivate`, with the socket that it leaves.
  unfoldable pub handle_new_connection_private : NewNode → Text → SocketTcp → Action SocketTcp
  unfolding write_exactly read_exactly is_endian_differ_and_request
      handle_new_connection_before_lock admit_node
  handle_new_connection_private new remote s t =
      let (told, u) = write_exactly (1 ∷ 0 ∷ []) s in
      let (bytes, v) = read_exactly 4 u in
      if told
      then elim bytes [
        | none ↦ returns (close_c v) t
        | some word ↦
            let (differ, request) = is_endian_differ_and_request (read_word word) in
            and_then (handle_new_connection_before_lock request remote differ v t) (λ (found, w) t'.
              elim found [
                | none ↦ returns w t'
                | some (key, extra) ↦ admit_node new key extra w t'
              ])
      ]
      else returns (close_c u) t
