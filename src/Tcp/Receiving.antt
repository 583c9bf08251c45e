-- ===== src/Tcp/Receiving.antt =====
-- tcp/raft_tcp_server.cpp: the thread that receives from the sockets of the nodes.
pub mod Unread
pub mod RoundTrip
pub mod Bytes
pub mod Seeds
use cpp_raft.Base.{
  ltb, leb, ◌==◌, if◌then◌else◌, to_nat, ==_iff, ==_refl, Bool-cases, Option-cases, length,
  is_empty, get_elem?, set, get_last?, take, drop, replicate, take-append-drop, take-append,
  drop-append, length-append, length-take_le, get_elem?-take, get_elem?-eq_none, get_elem?-some,
  get_elem?-append_lt, get_elem?-append_last, length-set, get_elem?-set_self, get_elem?-set_ne,
  get_last?-append, has, ℤ, pos_part, neg_part, sub_ℕ, ◌+ℤ◌, ◌-ℤ◌, ◌≤ℤ◌, ◌<ℤ◌, ltb_ℤ, leb_ℤ, eqb_ℤ,
  half_ℤ, to_int, to_unsigned, +ℤ_parts, -ℤ_parts, eq_of_parts, eqb_ℤ→eq, ne→eqb_ℤ, +ℤ_assoc,
  +ℤ-pos, -ℤ-pos, suc-sub-one, int_laws, pos, negsuc, ℕ, zero, suc, ◌+◌, ◌-◌, ◌*◌, ◌/◌, ◌%◌, ◌^◌,
  ◌≤◌, ◌<◌, ◌≡◌, refl, sym, ap, ◌∙◌, ◌≢◌, ◌↔◌, ◌⊎◌, inl, inr, Bool, true, false, not, ◌&&◌, ◌||◌,
  Option, none, some, List, [], ◌∷◌, ◌++◌, map, arith,
}
use cpp_raft.Msg.{
  MsgRequestvote, MsgRequestvoteResponse, MsgAppendEntries, MsgAppendentriesResponse,
}
use cpp_raft.Node.{
  Ptr, null, RaftNode, initial_ping_count, new_node, increment_lock2, decrement_lock2,
  mark_will_be_deleted, ping_received, set_unable_to_vote, set_next_idx, set_votes_for_me,
  set_udata, make_leader, reset_leader, increment_ok_count, ping,
}
use cpp_raft.Server.State.{Server, is_leader, is_follower}
use cpp_raft.Server.Members.{find_node}
use cpp_raft.Server.Voting.{recv_requestvote}
use cpp_raft.Server.Appending.{recv_appendentries}
use cpp_raft.Server.Replies.{recv_appendentries_response}
use cpp_raft.Tcp.Bytes.{read_int, swap_int}
use cpp_raft.Tcp.Exchange.{read_all, receive_extra_from, received_key}
use cpp_raft.Tcp.Jobs.{new_worker_data, add_job, lock_node}
use cpp_raft.Tcp.Keys.{NodeIdentifierKey, key_bytes, key_size}
use cpp_raft.Tcp.Requests.{
  error_response, ok_response, connect_new_node, permanent_bridge, other_leader_found, init_leader,
  init_follower, all_nodes_info, ping_request, start_time_request, clbk_cmd, reset_ping,
  remove_node_request, adder_new_node, to_new_node_add_partitions, node_with_key_already_exist,
  old_leader_died, internal_remove_node, internal_become_leader,
}
use cpp_raft.Tcp.Roles.{recv_requestvote_response}
use cpp_raft.Tcp.Sending.{call_raft, on_raft}
use cpp_raft.Tcp.State.{
  NodeTools, WorkRequest, Pear, WorkerData, TcpServer, Ending, Action, None, and_then, ◌>>=◌, ◌>>◌,
  pure, gets, modify, undefined_action, exits_action, node_at, change_raft, change_node, tools_of,
  set_tools, no_request, handle_connection, handle_receive, handle_internal, nothing, con, rcv,
  intr, returns, throws, waits, undefined, exits, out_of_fuel,
}
use cpp_raft.Tcp.Tools.{raft_index, validate_index, read_node}

-- The `int` at a place in the memory of a message.
abbrev pub int_at : ℕ → List ℕ → ℤ
int_at offset bytes = read_int (take 4 (drop offset bytes))

abbrev pub read_requestvote : List ℕ → MsgRequestvote
read_requestvote bytes = record {
  term = int_at 0 bytes;
  candidate_id = int_at 4 bytes;
  last_log_idx = int_at 8 bytes;
  last_log_term = int_at 12 bytes;
}

abbrev pub read_requestvote_response : List ℕ → MsgRequestvoteResponse
read_requestvote_response bytes = record { term = int_at 0 bytes; vote_granted = int_at 4 bytes }

abbrev pub read_appendentries : List ℕ → MsgAppendEntries
read_appendentries bytes = record {
  term = int_at 0 bytes;
  prev_log_idx = int_at 4 bytes;
  prev_log_term = int_at 8 bytes;
  leader_commit = int_at 12 bytes;
  entries = [];
}

abbrev pub read_appendentries_response : List ℕ → MsgAppendentriesResponse
read_appendentries_response bytes = record {
  term = int_at 0 bytes;
  success = int_at 4 bytes;
  current_idx = some (int_at 8 bytes);
  first_idx = some (int_at 12 bytes);
}

-- `sizeof(msg_entry_t)`
abbrev pub entry_size : ℕ
entry_size = 24

-- The cases of the `switch`. The result is `bPingReceived`.
unfoldable pub seed_requestvote : ℕ → Ptr → Action Bool
unfolding read_all call_raft recv_requestvote half_ℤ
seed_requestvote now p t =
    if leb_ℤ (half_ℤ t.raft.election_timeout) t.raft.timeout_elapsed
    then read_all raft_index 16 p
        (λ bytes. do call_raft now (recv_requestvote p (read_requestvote bytes)); pure true)
        (pure false) t
    else returns true t

unfoldable pub seed_requestvote_response : ℕ → Ptr → Action Bool
unfolding read_all change_node ping_received recv_requestvote_response
seed_requestvote_response now p =
    read_all raft_index 8 p
      (λ bytes. do
        change_node p (ping_received now)
        recv_requestvote_response now p (read_requestvote_response bytes)
        pure true)
      (pure false)

-- The entries of a message hold addresses of the peer's memory, which must not be read here. The
-- array takes 64 of them.
unfoldable pub seed_entries : ℤ → Ptr → Action Bool
unfolding read_all
seed_entries n p =
    if ltb_ℤ (pos 0) n && leb_ℤ n (pos 64)
    then read_all raft_index (entry_size * pos_part n) p (λ bytes. undefined_action) (pure false)
    else undefined_action

unfoldable pub seed_appendentries : ℕ → Ptr → Action Bool
unfolding read_all on_raft recv_appendentries seed_entries
seed_appendentries now p =
    read_all raft_index 24 p
      (λ bytes.
        if eqb_ℤ (int_at 16 bytes) (pos 0)
        then (do on_raft now (recv_appendentries true p (read_appendentries bytes)); pure true)
        else seed_entries (int_at 16 bytes) p)
      (pure false)

unfoldable pub seed_appendentries_response : ℕ → Ptr → Action Bool
unfolding read_all change_node ping_received on_raft recv_appendentries_response
seed_appendentries_response now p =
    read_all raft_index 16 p
      (λ bytes. do
        change_node p (ping_received now)
        on_raft now (recv_appendentries_response p (read_appendentries_response bytes))
        pure true)
      (pure false)

unfoldable pub seed_message : ℕ → Ptr → ℤ → Action Bool
unfolding seed_requestvote seed_requestvote_response seed_appendentries seed_appendentries_response
seed_message now p type =
    if eqb_ℤ type (pos 0)
    then seed_requestvote now p
    else if eqb_ℤ type (pos 1)
    then seed_requestvote_response now p
    else if eqb_ℤ type (pos 2)
    then seed_appendentries now p
    else if eqb_ℤ type (pos 3)
    then seed_appendentries_response now p
    else pure false

unfoldable pub handle_seed_clbk : ℕ → Ptr → Action None
unfolding read_all seed_message change_node ping_received
handle_seed_clbk now p = do
  ping ← read_all raft_index 4 p (λ bytes. seed_message now p (read_int bytes)) (pure false)
  if ping then change_node p (ping_received now) else pure tt

-- The job with what was read, or none where the function returns false.
unfoldable pub receive_from_leader_remove_node : WorkerData → Action (Option WorkerData)
unfolding read_all
receive_from_leader_remove_node j t =
    if not (j.node == t.leader_node) || not (is_follower t.raft.state)
    then returns none t
    else read_all raft_index key_size j.node
        (λ key.
          read_all raft_index 4 j.node
            (λ bytes.
              let k = record j {
                node_key = received_key (tools_of j.node t).is_endian_differ key;
              } in
              if ltb_ℤ (pos 0) (read_int bytes)
              then read_all raft_index (pos_part (read_int bytes)) j.node
                  (λ extra. pure (some (record k { extra = extra }))) (pure none)
              else pure (some k))
            (pure none))
        (pure none) t

-- The part behind the key.
unfoldable pub receive_new_node : WorkerData → NodeIdentifierKey → Action (Option WorkerData)
receive_new_node j key t = elim (find_node (key_bytes key) t.raft) [
  | some p ↦ returns none t
  | none ↦ and_then (receive_extra_from j.node t) (λ extra u.
      returns
        (elim extra [
          | none ↦ none
          | some content ↦ some (record j { node_key = key; extra = content })
        ])
        u)
]

unfoldable pub receive_from_adder_new_node : WorkerData → Action (Option WorkerData)
unfolding receive_new_node
receive_from_adder_new_node j =
    read_all raft_index key_size j.node
      (λ bytes t. receive_new_node j (received_key (tools_of j.node t).is_endian_differ bytes) t)
      (pure none)

-- After a failure the data are not used.
unfoldable pub receive_old_leader_died : WorkerData → Action (Option WorkerData)
unfolding receive_extra_from
receive_old_leader_died j t =
    if is_leader t.raft.state
    then returns none t
    else and_then (receive_extra_from j.node t) (λ extra u.
      returns (some (record j { extra = elim extra [ none ↦ [] | some content ↦ content ] })) u)

-- `handleReceiveFromNodeBeforeLockRcvContext`
unfoldable pub handle_receive_before_lock : ℕ → ℕ → WorkerData → Action (Option WorkerData)
unfolding change_node ping_received increment_ok_count handle_seed_clbk receive_from_adder_new_node
    receive_from_leader_remove_node receive_old_leader_died
handle_receive_before_lock now c_request j =
    if c_request == ok_response
    then (do
      change_node j.node (ping_received now)
      change_node j.node increment_ok_count
      pure (some j))
    else if c_request == reset_ping
    then (do change_node j.node (ping_received now); pure (some j))
    else if c_request == clbk_cmd
    then (do handle_seed_clbk now j.node; pure (some j))
    else if c_request == adder_new_node
    then receive_from_adder_new_node j
    else if c_request == remove_node_request
    then receive_from_leader_remove_node j
    else if c_request == old_leader_died
    then receive_old_leader_died j
    else pure none

unfoldable pub first_byte : List ℕ → ℕ
first_byte [] = 0
first_byte (b ∷ bs) = b

-- The job of a request, locked and in the queue, if the request was read.
unfoldable pub queue_request : ℕ → Ptr → ℤ → ℕ → Action None
unfolding new_worker_data handle_receive_before_lock lock_node add_job
queue_request now p i c_request = do
  j ←
      handle_receive_before_lock now c_request
        (record (new_worker_data handle_receive) { node = p; pear = rcv i c_request })
  elim j [ none ↦ pure tt | some k ↦ modify (λ u. add_job k (lock_node p u)) ]

unfoldable pub receive_from_socket_and_inform : ℕ → Ptr → ℤ → Action None
receive_from_socket_and_inform now p i t =
    if (node_at p t).is_marked_for_delete == 1
    then returns tt t
    else if validate_index i
    then read_all i 1 p (λ bytes. queue_request now p i (first_byte bytes)) (pure tt) t
    else returns tt t
