-- ===== src/Tcp/Sending.antt =====
-- tcp/raft_tcp_server.cpp: `SendClbkFunction`, the callback by which the Raft server sends, and the
-- calls of methods of the Raft server. The code calls it in the middle of a method; since it
-- changes nothing that the method reads afterwards, the model calls it behind the method, for
-- every message in the order in which they were sent. `now` is the clock in ms.
pub mod Readiness
pub mod Written
use cpp_raft.Base.{
  ltb, leb, ◌==◌, if◌then◌else◌, to_nat, ==_iff, ==_refl, Bool-cases, Option-cases, length,
  is_empty, get_elem?, set, get_last?, take, drop, replicate, take-append-drop, take-append,
  drop-append, length-append, length-take_le, get_elem?-take, get_elem?-eq_none, get_elem?-some,
  get_elem?-append_lt, get_elem?-append_last, length-set, get_elem?-set_self, get_elem?-set_ne,
  get_last?-append, has, ℤ, pos_part, neg_part, sub_ℕ, ◌+ℤ◌, ◌-ℤ◌, ◌≤ℤ◌, ◌<ℤ◌, ltb_ℤ, leb_ℤ, eqb_ℤ,
  half_ℤ, to_int, to_unsigned, +ℤ_parts, -ℤ_parts, eq_of_parts, eqb_ℤ→eq, ne→eqb_ℤ, +ℤ_assoc,
  +ℤ-pos, -ℤ-pos, suc-sub-one, int_laws, pos, negsuc, ℕ, zero, suc, ◌+◌, ◌-◌, ◌*◌, ◌/◌, ◌%◌, ◌^◌,
  ◌≤◌, ◌<◌, ◌≡◌, refl, sym, ap, ◌∙◌, ◌≢◌, ◌↔◌, ◌⊎◌, inl, inr, Bool, true, false, not, ◌&&◌, ◌||◌,
  Option, none, some, List, [], ◌∷◌, ◌++◌, map, arith,
}
use cpp_raft.Msg.{
  MsgRequestvote, MsgEntry, RaftEntry, MsgEntryResponse, MsgRequestvoteResponse,
  MsgAppendentriesResponse, MsgAppendEntries, Msg, max_num_of_append_entries_log, empty_entry,
  new_entry, populate_from_msg_entry, new_append_entries, add_entry2, get_entry, has_any_logs,
  requestvote, requestvote_response, appendentries, appendentries_response, entry_response,
}
use cpp_raft.Node.{
  Ptr, null, RaftNode, initial_ping_count, new_node, increment_lock2, decrement_lock2,
  mark_will_be_deleted, ping_received, set_unable_to_vote, set_next_idx, set_votes_for_me,
  set_udata, make_leader, reset_leader, increment_ok_count, ping,
}
use cpp_raft.Server.State.{Server, Run, is_leader, update}
use cpp_raft.Tcp.Bytes.{int_bytes, word_bytes}
use cpp_raft.Tcp.Jobs.{add_internal_for_worker}
use cpp_raft.Tcp.Requests.{clbk_cmd, internal_remove_node}
use cpp_raft.Tcp.State.{
  NodeTools, WorkRequest, Pear, WorkerData, TcpServer, Ending, Action, None, and_then, ◌>>=◌, ◌>>◌,
  pure, gets, modify, undefined_action, exits_action, node_at, change_raft, change_node, tools_of,
  set_tools, no_request, handle_connection, handle_receive, handle_internal, nothing, con, rcv,
  intr, returns, throws, waits, undefined, exits, out_of_fuel,
}
use cpp_raft.Tcp.Tools.{raft_index, write_node}

-- `RAFT_MSG_REQUESTVOTE` and the others
abbrev pub msg_type : Msg → ℕ
msg_type (requestvote m) = 0
msg_type (requestvote_response m) = 1
msg_type (appendentries m) = 2
msg_type (appendentries_response m) = 3
msg_type (entry_response m) = 5

abbrev pub or_unset : ℤ → Option ℤ → ℤ
or_unset unset none = unset
or_unset unset (some i) = i

-- The memory of a message; of `MsgAppendEntries2`, the first 24 bytes.
unfoldable pub msg_bytes : ℤ → Msg → List ℕ
msg_bytes unset (requestvote m) =
    int_bytes m.term
    ++ int_bytes m.candidate_id
    ++ int_bytes m.last_log_idx
    ++ int_bytes m.last_log_term
msg_bytes unset (requestvote_response m) = int_bytes m.term ++ int_bytes m.vote_granted
msg_bytes unset (appendentries m) =
    int_bytes m.term
    ++ int_bytes m.prev_log_idx
    ++ int_bytes m.prev_log_term
    ++ int_bytes m.leader_commit
    ++ int_bytes (pos (length m.entries))
    ++ int_bytes (pos 0)
msg_bytes unset (appendentries_response m) =
    int_bytes m.term
    ++ int_bytes m.success
    ++ int_bytes (or_unset unset m.current_idx)
    ++ int_bytes (or_unset unset m.first_idx)
msg_bytes unset (entry_response m) = word_bytes m.id ++ int_bytes m.was_committed

abbrev pub min_unseen_time_to_display : ℤ
min_unseen_time_to_display = pos 6000

abbrev pub max_unseen_time_to_change_state : ℤ
max_unseen_time_to_change_state = pos 20000

unfoldable pub write_body : Ptr → Msg → Action None
unfolding write_node msg_bytes
write_body p m = do
  w ← write_node raft_index p (int_bytes (pos (msg_type m)))
  unset ← gets (λ t. t.unset)
  if eqb_ℤ w (pos 4) then (do write_node raft_index p (msg_bytes unset m); pure tt) else pure tt

-- The three writes, each done only if the one before wrote all.
unfoldable pub write_msg : Ptr → Msg → Action None
unfolding write_node write_body
write_msg p m = do
  w ← write_node raft_index p (clbk_cmd ∷ [])
  if eqb_ℤ w (pos 1) then write_body p m else pure tt

-- The part behind the `switch`.
unfoldable pub ping_and_write : ℤ → Ptr → Msg → Action None
unfolding change_node ping write_msg
ping_and_write unseen p m =
    if ltb_ℤ min_unseen_time_to_display unseen
    then (λ t.
        if ltb (node_at p t).ping_count 4
        then (do change_node p ping; write_msg p m) t
        else returns tt t)
    else write_msg p m

abbrev pub unseen_time : ℕ → Ptr → TcpServer → ℤ
unseen_time now p t = pos now -ℤ pos (node_at p t).last_seen

-- The `switch` and what follows it.
unfoldable pub send_seen : ℤ → Ptr → Msg → Action None
unfolding add_internal_for_worker change_node set_unable_to_vote ping_and_write
send_seen unseen p (appendentries m) t =
    if ltb_ℤ max_unseen_time_to_change_state unseen
      && (is_leader t.raft.state && ltb 2 (node_at p t).ping_count)
    then returns tt (add_internal_for_worker internal_remove_node p t)
    else ping_and_write unseen p (appendentries m) t
send_seen unseen p (requestvote m) t =
    if ltb_ℤ max_unseen_time_to_change_state unseen && ltb 2 (node_at p t).ping_count
    then (do change_node p set_unable_to_vote; ping_and_write unseen p (requestvote m)) t
    else ping_and_write unseen p (requestvote m) t
send_seen unseen p m t = ping_and_write unseen p m t

-- A node with a negative count of answers is not ready: the call only counts up.
unfoldable pub send_clbk_function : ℕ → Ptr → Msg → Action None
unfolding change_node increment_ok_count send_seen ◌-ℤ◌
send_clbk_function now p m t =
    if ltb_ℤ (node_at p t).ok_count (pos 0)
    then change_node p increment_ok_count t
    else send_seen (unseen_time now p t) p m t

unfoldable pub deliver : ℕ → List (Ptr × Msg) → Action None
unfolding send_clbk_function
deliver now [] = pure tt
deliver now ((p, m) ∷ sent) = do send_clbk_function now p m; deliver now sent

-- The state behind a method of the Raft server, whose messages are delivered.
abbrev pub after_raft : ℕ → Server → TcpServer → Ending None
after_raft now s t = deliver now s.sent (record t { raft = record s { sent = [] } })

unfoldable pub on_raft : {A : Type 0} → ℕ → (Server → Run A) → Action A
unfolding deliver
on_raft now f t = elim (f t.raft) [
  | cpp_raft.Server.State.returns a s ↦ and_then (after_raft now s t) (λ _ u. returns a u)
  | cpp_raft.Server.State.throws x s ↦ and_then (after_raft now s t) (λ _ u. throws x u)
  | cpp_raft.Server.State.undefined ↦ undefined
  | cpp_raft.Server.State.waits s ↦ and_then (after_raft now s t) (λ _ u. waits u)
  | cpp_raft.Server.State.out_of_fuel ↦ out_of_fuel
]

unfoldable pub call_raft : ℕ → (Server → Server) → Action None
unfolding deliver
call_raft now f t = after_raft now (f t.raft) t
