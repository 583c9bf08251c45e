-- ===== src/Tests.antt =====
-- Concrete servers and messages on which the theorems are applied.
pub mod Votes
pub mod Roles
pub mod Entries
pub mod Answers
pub mod Parts
pub mod Containers
pub mod Sockets
pub mod Bytes
pub mod Tcp
pub mod Seeds
pub mod Locks
pub mod Stopping
pub mod Files
use cpp_raft.Base.{
  ltb, leb, ◌==◌, if◌then◌else◌, to_nat, ==_iff, ==_refl, Bool-cases, Option-cases, length,
  is_empty, get_elem?, set, get_last?, take, drop, replicate, length-append, length-take_le,
  get_elem?-take, get_elem?-eq_none, get_elem?-some, get_elem?-append_lt, get_elem?-append_last,
  length-set, get_elem?-set_self, get_elem?-set_ne, get_last?-append, has, ℤ, pos_part, neg_part,
  sub_ℕ, ◌+ℤ◌, ◌-ℤ◌, ◌≤ℤ◌, ◌<ℤ◌, ltb_ℤ, leb_ℤ, eqb_ℤ, half_ℤ, to_int, to_unsigned, +ℤ_parts,
  -ℤ_parts, eq_of_parts, eqb_ℤ→eq, ne→eqb_ℤ, +ℤ_assoc, +ℤ-pos, -ℤ-pos, suc-sub-one, int_laws, pos,
  negsuc, ℕ, zero, suc, ◌+◌, ◌-◌, ◌*◌, ◌/◌, ◌%◌, ◌^◌, ◌≤◌, ◌<◌, ◌≡◌, refl, sym, ap, ◌∙◌, ◌≢◌, ◌↔◌,
  ◌⊎◌, inl, inr, Bool, true, false, not, ◌&&◌, ◌||◌, Option, none, some, List, [], ◌∷◌, ◌++◌, map,
  arith,
}
use cpp_raft.Msg.{
  MsgRequestvote, MsgEntry, RaftEntry, MsgEntryResponse, MsgRequestvoteResponse,
  MsgAppendentriesResponse, MsgAppendEntries, Msg, max_num_of_append_entries_log, empty_entry,
  new_entry, populate_from_msg_entry, new_append_entries, add_entry2, get_entry, has_any_logs,
  requestvote, requestvote_response, appendentries, appendentries_response, entry_response,
}
use cpp_raft.Log.{
  Log, log_append_entry, log_get_from_idx, log_count, log_delete, log_peektail, log_empty,
  log_mark_node_has_committed,
}
use cpp_raft.Node.{
  Ptr, null, RaftNode, initial_ping_count, new_node, increment_lock2, decrement_lock2,
  mark_will_be_deleted, ping_received, set_unable_to_vote, set_next_idx, set_votes_for_me,
  set_udata, make_leader, reset_leader, increment_ok_count, ping,
}
use cpp_raft.Server.State.{
  RaftState, is_follower, is_leader, is_candidate, Server, Run, and_then, new_server, set_callbacks,
  set_election_timeout, set_request_timeout, set_current_term, set_current_idx, set_commit_idx,
  set_last_applied_idx, vote, update, at_node, send, for_nodes, for_all_nodes_except_self,
  send_requestvote, send_appendentries, send_appendentries_all, none_state, follower, candidate,
  leader, returns, throws, undefined, waits, out_of_fuel,
}

-- The node at an address has the address as its key.
abbrev pub node_store : Ptr → RaftNode
node_store q = record (new_node 0) { key = q ∷ [] }

abbrev pub cluster : Server
cluster = record (new_server true true node_store) { nodes = 10 ∷ 11 ∷ 12 ∷ []; this_node = 10 }

abbrev pub an_entry : ℕ → ℕ → RaftEntry
an_entry term id = record { term = pos term; id = pos id; content = []; len = 0; num_nodes = pos 1 }

abbrev pub three_entries : Log
three_entries = an_entry 1 1 ∷ an_entry 1 2 ∷ an_entry 2 3 ∷ []

abbrev pub logged : Server
logged = record cluster { log = three_entries; current_idx = pos 4; current_term = pos 2 }

abbrev pub a_request : ℕ → ℕ → MsgRequestvote
a_request term idx = record {
  term = pos term;
  candidate_id = pos 0;
  last_log_idx = pos idx;
  last_log_term = pos 0;
}

abbrev pub a_msg_entry : ℕ → MsgEntry
a_msg_entry id = record { id = id; content = 7 ∷ []; len = 1 }

abbrev pub an_append : ℕ → ℕ → ℕ → ℕ → List MsgEntry → MsgAppendEntries
an_append term prev prev_term commit entries = record {
  term = pos term;
  prev_log_idx = pos prev;
  prev_log_term = pos prev_term;
  leader_commit = pos commit;
  entries = entries;
}
