-- ===== src/Tcp/Joining.antt =====
-- tcp/raft_tcp_server.cpp: how a server starts and finds its cluster.
pub mod Timeouts
pub mod Cluster
use cpp_raft.Base.{
  ltb, leb, ◌==◌, if◌then◌else◌, to_nat, ==_iff, ==_refl, Bool-cases, Option-cases, length,
  is_empty, get_elem?, set, get_last?, take, drop, replicate, take-append-drop, take-append,
  drop-append, length-append, length-take_le, get_elem?-take, get_elem?-eq_none, get_elem?-some,
  get_elem?-append_lt, get_elem?-append_last, length-set, get_elem?-set_self, get_elem?-set_ne,
  get_last?-append, has, ℤ, pos_part, neg_part, sub_ℕ, ◌+ℤ◌, ◌-ℤ◌, ◌≤ℤ◌, ◌<ℤ◌, ltb_ℤ, leb_ℤ, eqb_ℤ,
  half_ℤ, to_int, to_unsigned, +ℤ_parts, -ℤ_parts, eq_of_parts, eqb_ℤ→eq, ne→eqb_ℤ, +ℤ_assoc,
  +ℤ-pos, -ℤ-pos, suc-sub-one, int_laws, pos, negsuc, ℕ, zero, suc, ◌+◌, ◌-◌, ◌*◌, ◌/◌, ◌%◌, ◌^◌,
  ◌≤◌, ◌<◌, ◌≡◌, refl, sym, ap, ◌∙◌, ◌≢◌, ◌↔◌, ◌⊎◌, inl, inr, Bool, true, false, not, ◌&&◌, ◌||◌,
  Option, none, some, List, [], ◌∷◌, ◌++◌, map, arith,
}
use cpp_raft.Node.{
  Ptr, null, RaftNode, initial_ping_count, new_node, increment_lock2, decrement_lock2,
  mark_will_be_deleted, ping_received, set_unable_to_vote, set_next_idx, set_votes_for_me,
  set_udata, make_leader, reset_leader, increment_ok_count, ping,
}
use cpp_raft.Containers.HashTbl.{eqb_key}
use cpp_raft.Server.State.{
  Server, RaftState, follower, candidate, leader, new_server, set_callbacks,
}
use cpp_raft.Sockets.Stream.{SocketTcp, new_socket, close_c}
use cpp_raft.Sockets.Connecting.{ConnectAnswers}
use cpp_raft.Tcp.Asking.{told, untold, overrun, read_cluster, confirm}
use cpp_raft.Tcp.Bytes.{int_bytes}
use cpp_raft.Tcp.Connect.{connect_and_get_endian2, receive_extra_data}
use cpp_raft.Tcp.Connections.{read_exactly, write_exactly, write_series, received_int}
use cpp_raft.Tcp.Exchange.{received_key}
use cpp_raft.Tcp.Keys.{
  Text, NodeIdentifierKey, key_bytes, key_size, eqb_node_key, padded, loopback, max_ip4_len,
  ip4_address1,
}
use cpp_raft.Tcp.Members.{NewNode, add_node, clear_all_nodes}
use cpp_raft.Tcp.Requests.{
  connect_new_node, node_with_key_already_exist, to_new_node_add_partitions,
}
use cpp_raft.Tcp.State.{
  NodeTools, WorkRequest, Pear, WorkerData, TcpServer, Ending, Action, None, and_then, ◌>>=◌, ◌>>◌,
  pure, gets, modify, undefined_action, exits_action, node_at, change_raft, change_node, tools_of,
  set_tools, no_request, handle_connection, handle_receive, handle_internal, nothing, con, rcv,
  intr, returns, throws, waits, undefined, exits, out_of_fuel,
}
use cpp_raft.Tcp.Workers.{set_leader, text_of}

abbrev pub def_rep_rate_ms : ℤ
def_rep_rate_ms = pos 2000

abbrev pub min_rep_rate_ms : ℤ
min_rep_rate_ms = pos 5

abbrev pub timeouts_ratio_min : ℕ
timeouts_ratio_min = 11

-- `Server::Server`; the store of nodes and tools is what the memory holds.
unfoldable pub new_tcp_server : (Ptr → RaftNode) → (Ptr → NodeTools) → ℤ → TcpServer
unfolding new_server set_callbacks
new_tcp_server store tools unset = record {
  raft = record (set_callbacks true true (new_server false false store)) {
    election_timeout = pos 20000;
  };
  tools = tools;
  leader_node = null;
  work = false;
  period = def_rep_rate_ms;
  port_own = pos 0;
  jobs = [];
  sema_worker = 0;
  sema_duplicates = 0;
  possible_nodes = [];
  server_start_time = 0;
  unset = unset;
}

abbrev pub mul_ℤ : ℕ → ℤ → ℤ
mul_ℤ m (pos n) = pos (m * n)
mul_ℤ m (negsuc n) = if m == 0 then pos 0 else negsuc (m * suc n - 1)

-- The first five lines of `FindClusterAndInit`, each on what the one before left.
unfoldable pub init_timeouts : ℤ → TcpServer → TcpServer
init_timeouts raft_port t =
    let port = if ltb_ℤ (pos 0) raft_port then raft_port else t.port_own in
    let period = if ltb_ℤ t.period min_rep_rate_ms then def_rep_rate_ms else t.period in
    let request = if ltb_ℤ t.raft.request_timeout period then period else t.raft.request_timeout in
    let election =
      if ltb_ℤ t.raft.election_timeout (mul_ℤ timeouts_ratio_min request)
      then mul_ℤ timeouts_ratio_min request
      else t.raft.election_timeout in
    record t {
      port_own = port;
      period = period;
      raft = record t.raft {
        request_timeout = request;
        election_timeout = election;
        timeout_elapsed = pos 0;
      };
    }

-- The loop over the keys, from an index on; `news` are the new nodes by index. Beside the server,
-- the node with the key of the adder, or null.
unfoldable pub add_nodes :
    (ℕ → NewNode)
    → NodeIdentifierKey
    → ℤ
    → ℕ
    → List NodeIdentifierKey
    → Ptr
    → TcpServer
    → Ptr × TcpServer
unfolding add_node eqb_node_key set_leader
add_nodes news adder leader_index i [] found t = (found, t)
add_nodes news adder leader_index i (key ∷ keys) found t =
    let (p, u) = add_node (news i) key t in
    if p == null
    then add_nodes news adder leader_index (i + 1) keys found u
    else add_nodes news adder leader_index (i + 1) keys
        (if eqb_node_key key adder then p else found)
        (if eqb_ℤ (pos i) leader_index then set_leader p u else u)

module _ (resolve : Text → Option Text) (own : Text) where
  unfoldable pub own_key : TcpServer → NodeIdentifierKey
  unfolding padded
  own_key t = record { port = t.port_own; ip4_address = padded max_ip4_len own }

  unfoldable pub add_own_node : Bool → NewNode → TcpServer → TcpServer
  unfolding add_node own_key set_leader
  add_own_node as_leader new t =
      if t.raft.this_node == null
      then (let (p, u) = add_node new (own_key t) t in
          let v = change_raft (λ s. record s { this_node = p }) u in
          if as_leader && not (p == null) then set_leader p v else v)
      else t

  -- The failure: all nodes go, and the sockets with them.
  abbrev pub not_found : TcpServer → Ending (Option (List ℕ))
  not_found t = returns none (clear_all_nodes t)

  -- `TryFindClusterThredSafe`: the extra data, if the cluster took this server in. The loop gives
  -- the connection to the adder's node and goes on to use it; in the model the node gets it when
  -- the last byte has been read.
  unfoldable pub try_find_cluster :
      (ℕ → NewNode) → ConnectAnswers → NodeIdentifierKey → List ℕ → Action (Option (List ℕ))
  unfolding connect_and_get_endian2 write_exactly read_cluster add_nodes confirm clear_all_nodes
      add_own_node set_tools new_socket
  try_find_cluster news a adder extra t =
      let (endian, s) = connect_and_get_endian2 adder connect_new_node a new_socket in
      elim endian [
        | none ↦ not_found t
        | some differ ↦
            let (sent, s1) = write_exactly (int_bytes t.port_own) s in
            let (cluster, s2) = read_cluster differ s1 in
            if sent
            then elim cluster [
              | untold ↦ not_found t
              | overrun ↦ undefined
              | told index keys ↦
                  let (p, u) =
                    add_nodes news adder index 0 keys null (record t { leader_node = null }) in
                  let (exist, content, s3) = confirm differ extra s2 in
                  if exist then exits else elim content [
                    | none ↦ not_found u
                    | some back ↦
                        let v =
                          if p == null
                          then u
                          else set_tools p (record (tools_of p u) { raft_socket = s3 }) u in
                        returns (some back) (add_own_node false (news (length keys)) v)
                  ]
            ]
            else not_found t
      ]

  -- What the loop of `CheckAllPossibleSeeds` does with an entry: skip it (`none`), or note a key
  -- (`some (some key)`) and go on, or only go on.
  unfoldable pub seed_key : ℤ → NodeIdentifierKey → Option (Option NodeIdentifierKey)
  unfolding ip4_address1 text_of
  seed_key port_own k =
      let mine = eqb_ℤ port_own k.port in
      let noted : Text → Option (Option NodeIdentifierKey) = λ host.
        some (some (record { port = k.port; ip4_address = ip4_address1 resolve own host })) in
      if eqb_key own (text_of k.ip4_address) && mine
      then none
      else elim (resolve (text_of k.ip4_address)) [
        | none ↦ noted (text_of k.ip4_address)
        | some ip ↦
            if eqb_key ip loopback || eqb_key ip own
            then (if mine then none else noted own)
            else some none
      ]

  -- The loop, with the answers to each attempt to connect. The result is whether a cluster was
  -- found.
  unfoldable pub check_seeds :
      (ℕ → ℕ → NewNode)
      → ℕ
      → List (NodeIdentifierKey × ConnectAnswers)
      → List ℕ
      → Bool
      → Action Bool
  unfolding seed_key try_find_cluster
  check_seeds news i [] extra found t = returns found t
  check_seeds news i ((k, a) ∷ seeds) extra found t = elim (seed_key t.port_own k) [
    | none ↦ check_seeds news (i + 1) seeds extra found t
    | some noted ↦
        let u : TcpServer = elim noted [
          | none ↦ t
          | some key ↦ record t { possible_nodes = t.possible_nodes ++ key ∷ [] }
        ] in
        if found
        then check_seeds news (i + 1) seeds extra true u
        else and_then (try_find_cluster (news i) a k extra u) (λ content v. elim content [
          | none ↦ check_seeds news (i + 1) seeds extra false v
          | some back ↦ check_seeds news (i + 1) seeds back true v
        ])
  ]

  unfoldable pub set_role : Bool → NewNode → TcpServer → TcpServer
  unfolding add_own_node
  set_role found new t =
      if found
      then change_raft
          (λ s. record s { state = if t.leader_node == null then candidate else follower }) t
      else change_raft (λ s. record s { state = leader }) (add_own_node true new t)

  -- `FindClusterAndInit` with `CheckAllPossibleSeeds`.
  unfoldable pub find_cluster_and_init :
      (ℕ → ℕ → NewNode) → List (NodeIdentifierKey × ConnectAnswers) → List ℕ → ℤ → Action None
  unfolding init_timeouts check_seeds set_role
  find_cluster_and_init news seeds extra raft_port t =
      and_then (check_seeds news 1 seeds extra false (init_timeouts raft_port t))
        (λ found u. returns tt (set_role found (news 0 0) u))
