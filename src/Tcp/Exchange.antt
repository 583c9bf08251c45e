-- ===== src/Tcp/Exchange.antt =====
-- tcp/raft_tcp_server.cpp: what nodes tell one another behind a request of one byte.
pub mod Reading
pub mod Writing
use cpp_raft.Base.{
  ltb, leb, ◌==◌, if◌then◌else◌, to_nat, ==_iff, ==_refl, Bool-cases, Option-cases, length,
  is_empty, get_elem?, set, get_last?, take, drop, replicate, take-append-drop, take-append,
  drop-append, length-append, length-take_le, get_elem?-take, get_elem?-eq_none, get_elem?-some,
  get_elem?-append_lt, get_elem?-append_last, length-set, get_elem?-set_self, get_elem?-set_ne,
  get_last?-append, has, ℤ, pos_part, neg_part, sub_ℕ, ◌+ℤ◌, ◌-ℤ◌, ◌≤ℤ◌, ◌<ℤ◌, ltb_ℤ, leb_ℤ, eqb_ℤ,
  half_ℤ, to_int, to_unsigned, +ℤ_parts, -ℤ_parts, eq_of_parts, eqb_ℤ→eq, ne→eqb_ℤ, +ℤ_assoc,
  +ℤ-pos, -ℤ-pos, suc-sub-one, int_laws, pos, negsuc, ℕ, zero, suc, ◌+◌, ◌-◌, ◌*◌, ◌/◌, ◌%◌, ◌^◌,
  ◌≤◌, ◌<◌, ◌≡◌, refl, sym, ap, ◌∙◌, ◌≢◌, ◌↔◌, ◌⊎◌, inl, inr, Bool, true, false, not, ◌&&◌, ◌||◌,
  Option, none, some, List, [], ◌∷◌, ◌++◌, map, arith,
}
use cpp_raft.Outcome.{Outcome}
use cpp_raft.Node.{
  Ptr, null, RaftNode, initial_ping_count, new_node, increment_lock2, decrement_lock2,
  mark_will_be_deleted, ping_received, set_unable_to_vote, set_next_idx, set_votes_for_me,
  set_udata, make_leader, reset_leader, increment_ok_count, ping,
}
use cpp_raft.Server.State.{Server}
use cpp_raft.Tcp.Bytes.{int_bytes, swap_int}
use cpp_raft.Tcp.Connect.{receive_extra_data}
use cpp_raft.Tcp.Keys.{Text, NodeIdentifierKey, key_bytes, key_size, key_of}
use cpp_raft.Tcp.State.{
  NodeTools, WorkRequest, Pear, WorkerData, TcpServer, Ending, Action, None, and_then, ◌>>=◌, ◌>>◌,
  pure, gets, modify, undefined_action, exits_action, node_at, change_raft, change_node, tools_of,
  set_tools, no_request, handle_connection, handle_receive, handle_internal, nothing, con, rcv,
  intr, returns, throws, waits, undefined, exits, out_of_fuel,
}
use cpp_raft.Tcp.Tools.{raft_index, read_node, write_node}

-- Writes, and goes on if all was written.
unfoldable pub write_all : ℤ → Ptr → List ℕ → Action Bool → Action Bool
unfolding write_node
write_all i p bytes next = do
  w ← write_node i p bytes
  if eqb_ℤ w (pos (length bytes)) then next else pure false

unfoldable pub write_extra : ℤ → Ptr → Option (List ℕ) → Action Bool
unfolding write_all
write_extra i p none = pure true
write_extra i p (some extra) =
    write_all i p (int_bytes (pos (length extra)))
      (if ltb 0 (length extra) then write_all i p extra (pure true) else pure true)

-- The key is a parameter that may be NULL, as the data may.
unfoldable pub send_information_to_node :
    Ptr → ℤ → ℕ → Option (List ℕ) → Option NodeIdentifierKey → Action Bool
unfolding write_all write_extra
send_information_to_node p i c_request extra key = write_all i p (c_request ∷ []) (elim key [
  | none ↦ write_extra i p extra
  | some k ↦ write_all i p (key_bytes k) (write_extra i p extra)
])

-- The first loop.
unfoldable pub inform_nodes :
    ℤ → ℕ → Option (List ℕ) → Option NodeIdentifierKey → Ptr → List Ptr → Action None
unfolding send_information_to_node
inform_nodes i c_request extra key skip [] t = returns tt t
inform_nodes i c_request extra key skip (p ∷ ps) t =
    if not (p == skip) && not (p == t.raft.this_node)
    then (do
      send_information_to_node p i c_request extra key
      inform_nodes i c_request extra key skip ps)
        t
    else inform_nodes i c_request extra key skip ps t

-- The loop that waits starts where the first one ended, behind the last node, so that it has no
-- round, whether or not it is asked for.
unfoldable pub send_information_to_all_nodes :
    ℤ → ℕ → Option (List ℕ) → Option NodeIdentifierKey → Ptr → Bool → Action None
unfolding inform_nodes
send_information_to_all_nodes i c_request extra key skip wait t =
    inform_nodes i c_request extra key skip t.raft.nodes t

-- Reads exactly the bytes wanted, or goes the other way.
unfoldable pub read_all : {A : Type 0} → ℤ → ℕ → Ptr → (List ℕ → Action A) → Action A → Action A
unfolding read_node
read_all i n p next failed = do
  (r, bytes) ← read_node i n p
  if eqb_ℤ r (pos n) then next bytes else failed

-- `ReceiveExtraData` on the Raft socket of a node.
unfoldable pub receive_extra_from : Ptr → Action (Option (List ℕ))
receive_extra_from p t =
    let tools = tools_of p t in
    let (extra, s) = receive_extra_data tools.is_endian_differ tools.raft_socket in
    returns extra (set_tools p (record tools { raft_socket = s }) t)

-- A key as it came from a node.
abbrev pub received_key : ℕ → List ℕ → NodeIdentifierKey
received_key differ bytes =
    let k = key_of bytes in if differ == 0 then k else record k { port = swap_int k.port }

-- `CollectAllNodesDataNotThrSafe`: the keys of all nodes, and the index of the last node that is
-- marked as the leader, or -1.
unfoldable pub leader_index : (Ptr → RaftNode) → ℕ → ℤ → List Ptr → ℤ
leader_index store i found [] = found
leader_index store i found (p ∷ ps) =
    leader_index store (i + 1) (if (store p).is_leader == 1 then pos i else found) ps

unfoldable pub all_keys : (Ptr → RaftNode) → List Ptr → List ℕ
all_keys store [] = []
all_keys store (p ∷ ps) = (store p).key ++ all_keys store ps

-- `*a_pnTotalSize`, an `int32_t` that wraps.
unfoldable pub total_size : ℕ → ℤ
unfolding to_int
total_size nodes_count = to_int (nodes_count * key_size)

-- The keys are as many bytes as the total size says. Where it has wrapped, the memory for them is
-- too small, and copying them into it is undefined.
unfoldable pub collect_all_nodes_data : Server → List ℕ × ℤ
unfolding leader_index all_keys total_size
collect_all_nodes_data s = (
  take (pos_part (total_size (length s.nodes))) (all_keys s.store s.nodes),
  leader_index s.store 0 (negsuc 0) s.nodes,
)
