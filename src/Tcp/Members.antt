-- ===== src/Tcp/Members.antt =====
-- tcp/raft_tcp_server.cpp: the nodes with their tools: the overridden `AddAdditionalDataToNode` and
-- `CleanNodeData`, and the methods of `RaftServer` that call them.
pub mod Waiting
use cpp_raft.Base.{
  ltb, leb, ◌==◌, if◌then◌else◌, to_nat, ==_iff, ==_refl, Bool-cases, Option-cases, length,
  is_empty, get_elem?, set, get_last?, take, drop, replicate, take-append-drop, take-append,
  drop-append, length-append, length-take_le, get_elem?-take, get_elem?-eq_none, get_elem?-some,
  get_elem?-append_lt, get_elem?-append_last, length-set, get_elem?-set_self, get_elem?-set_ne,
  get_last?-append, has, ℤ, pos_part, neg_part, sub_ℕ, ◌+ℤ◌, ◌-ℤ◌, ◌≤ℤ◌, ◌<ℤ◌, ltb_ℤ, leb_ℤ, eqb_ℤ,
  half_ℤ, to_int, to_unsigned, +ℤ_parts, -ℤ_parts, eq_of_parts, eqb_ℤ→eq, ne→eqb_ℤ, +ℤ_assoc,
  +ℤ-pos, -ℤ-pos, suc-sub-one, int_laws, pos, negsuc, ℕ, zero, suc, ◌+◌, ◌-◌, ◌*◌, ◌/◌, ◌%◌, ◌^◌,
  ◌≤◌, ◌<◌, ◌≡◌, refl, sym, ap, ◌∙◌, ◌≢◌, ◌↔◌, ◌⊎◌, inl, inr, Bool, true, false, not, ◌&&◌, ◌||◌,
  Option, none, some, List, [], ◌∷◌, ◌++◌, map, arith,
}
use cpp_raft.Node.{
  Ptr, null, RaftNode, initial_ping_count, new_node, increment_lock2, decrement_lock2,
  mark_will_be_deleted, ping_received, set_unable_to_vote, set_next_idx, set_votes_for_me,
  set_udata, make_leader, reset_leader, increment_ok_count, ping,
}
use cpp_raft.Server.State.{Server, at_node}
use cpp_raft.Server.Members.{
  find_node, add_node as raft_add_node, remove_node1 as raft_remove_node1,
}
use cpp_raft.Sockets.Stream.{SocketTcp, close_c}
use cpp_raft.Sockets.Connecting.{ConnectAnswers}
use cpp_raft.Tcp.Keys.{NodeIdentifierKey, key_bytes}
use cpp_raft.Tcp.State.{
  NodeTools, WorkRequest, Pear, WorkerData, TcpServer, Ending, Action, None, and_then, ◌>>=◌, ◌>>◌,
  pure, gets, modify, undefined_action, exits_action, node_at, change_raft, change_node, tools_of,
  set_tools, no_request, handle_connection, handle_receive, handle_internal, nothing, con, rcv,
  intr, returns, throws, waits, undefined, exits, out_of_fuel,
}
use cpp_raft.Tcp.Tools.{new_node_tools}

-- What a new node is given from outside: the addresses of the node and its tools, the clock, and
-- what the operating system will answer when it is connected.
pub record NewNode : Type 0 where
  pub address : Ptr
  pub tools : Ptr
  pub now : ℕ
  pub reconnect : ConnectAnswers

unfoldable pub add_additional_data_to_node : NewNode → TcpServer → TcpServer
unfolding new_node_tools at_node set_udata
add_additional_data_to_node new t =
    record (change_raft (at_node new.address (set_udata new.tools)) t) {
      tools = λ q. if q == new.tools then new_node_tools new.reconnect else t.tools q;
    }

-- `AddNode`; null if the key is there already.
unfoldable pub add_node : NewNode → NodeIdentifierKey → TcpServer → Ptr × TcpServer
unfolding raft_add_node add_additional_data_to_node
add_node new key t =
    let (p, s) = raft_add_node new.address new.now (key_bytes key) t.raft in
    if p == null then (null, t) else (p, add_additional_data_to_node new (record t { raft = s }))

-- Deleting the tools closes their sockets.
unfoldable pub clean_node_data : Ptr → TcpServer → TcpServer
unfolding close_c at_node set_udata set_tools
clean_node_data p t =
    let tools = tools_of p t in
    change_raft (at_node p (set_udata null)) (
      set_tools p
        (record tools {
          raft_socket = close_c tools.raft_socket;
          data1_socket = close_c tools.data1_socket;
        })
        t)

-- The node is cleaned once no job locks it, and then taken off the table.
unfoldable pub remove_node1 : List ℕ → Action None
unfolding find_node raft_remove_node1 clean_node_data
remove_node1 key t = elim (find_node key t.raft) [
  | none ↦ returns tt t
  | some p ↦ elim (raft_remove_node1 key t.raft) [
    | cpp_raft.Server.State.returns a s ↦ returns tt (clean_node_data p (record t { raft = s }))
    | cpp_raft.Server.State.throws x s ↦ throws x (record t { raft = s })
    | cpp_raft.Server.State.undefined ↦ undefined
    | cpp_raft.Server.State.waits s ↦ waits (record t { raft = s })
    | cpp_raft.Server.State.out_of_fuel ↦ out_of_fuel
  ]
]

-- The key of a node that has been deleted must not be read.
unfoldable pub remove_node2 : Ptr → Action None
unfolding remove_node1
remove_node2 p t = if has p t.raft.nodes then remove_node1 (node_at p t).key t else undefined

unfoldable pub clear_nodes : List Ptr → TcpServer → TcpServer
unfolding clean_node_data
clear_nodes [] t = change_raft (λ s. record s { nodes = [] }) t
clear_nodes (p ∷ ps) t = clear_nodes ps (clean_node_data p t)

unfoldable pub clear_all_nodes : TcpServer → TcpServer
unfolding clear_nodes
clear_all_nodes t = clear_nodes t.raft.nodes t
