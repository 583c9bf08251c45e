-- ===== src/Server/State.antt =====
-- The fields of `RaftServer`, its constructor and its small methods. The nodes are in a store, by
-- address; `nodes` is the list behind `m_Nodes`. `sent` and `applied` record the calls of the
-- callbacks `send` and `applylog`, which the flags `cb_send` and `cb_applylog` say are set.
pub mod Loops
use cpp_raft.Base.{
  ℕ, suc, ◌+◌, ◌≡◌, ℤ, pos, Bool, true, false, List, [], ◌∷◌, ◌++◌, ◌||◌, ◌&&◌, not, ◌==◌, length,
  if◌then◌else◌, ◌+ℤ◌,
}
use cpp_raft.Outcome.{Fault}
use cpp_raft.Msg.{
  RaftEntry, Msg, MsgRequestvote, requestvote, requestvote_response, appendentries,
  appendentries_response, entry_response, new_append_entries,
}
use cpp_raft.Log.{Log}
use cpp_raft.Node.{Ptr, null, RaftNode}

-- `RAFT_STATE`
pub data RaftState : Type 0 where
  none_state follower candidate leader : RaftState

abbrev pub is_follower : RaftState → Bool
is_follower follower = true
is_follower _ = false

abbrev pub is_leader : RaftState → Bool
is_leader leader = true
is_leader _ = false

abbrev pub is_candidate : RaftState → Bool
is_candidate candidate = true
is_candidate _ = false

pub record Server : Type 0 where
  pub current_term : ℤ
  pub voted_for : Ptr
  pub log : Log
  pub commit_idx : ℤ
  pub last_applied_idx : ℤ
  pub state : RaftState
  pub current_idx : ℤ
  pub timeout_elapsed : ℤ
  pub nodes : List Ptr
  pub store : Ptr → RaftNode
  pub leader_commit : ℤ
  pub election_timeout : ℤ
  pub request_timeout : ℤ
  pub cb_send : Bool
  pub cb_applylog : Bool
  pub this_node : Ptr
  pub sent : List (Ptr × Msg)
  pub applied : List RaftEntry

-- How a method ends: it returns, it throws, it leaves the defined language, it waits for another
-- thread, or the fuel of a loop was too little (which the theorems exclude).
pub data Run (A : Type 0) : Type 0 where
  returns : A → Server → Run A
  throws : Fault → Server → Run A
  undefined : Run A
  waits : Server → Run A
  out_of_fuel : Run A

abbrev pub and_then : {A B : Type 0} → Run A → (A → Server → Run B) → Run B
and_then (returns a s) k = k a s
and_then (throws x s) k = throws x s
and_then undefined k = undefined
and_then (waits s) k = waits s
and_then out_of_fuel k = out_of_fuel

-- `RaftServer::RaftServer`. The constructor leaves the callbacks as the memory holds them, and the
-- store as it is.
unfoldable pub new_server : Bool → Bool → (Ptr → RaftNode) → Server
new_server cb_send cb_applylog store = record {
  current_term = pos 0;
  voted_for = null;
  log = [];
  commit_idx = pos 0;
  last_applied_idx = pos 0;
  state = follower;
  current_idx = pos 1;
  timeout_elapsed = pos 0;
  nodes = [];
  store = store;
  leader_commit = pos 0;
  election_timeout = pos 1000;
  request_timeout = pos 200;
  cb_send = cb_send;
  cb_applylog = cb_applylog;
  this_node = null;
  sent = [];
  applied = [];
}

unfoldable pub set_callbacks : Bool → Bool → Server → Server
set_callbacks cb_send cb_applylog s = record s { cb_send = cb_send; cb_applylog = cb_applylog }

unfoldable pub set_election_timeout : ℤ → Server → Server
set_election_timeout millisec s = record s { election_timeout = millisec }

unfoldable pub set_request_timeout : ℤ → Server → Server
set_request_timeout millisec s = record s { request_timeout = millisec }

unfoldable pub set_current_term : ℤ → Server → Server
set_current_term term s = record s { current_term = term }

unfoldable pub set_current_idx : ℤ → Server → Server
set_current_idx idx s = record s { current_idx = idx }

unfoldable pub set_commit_idx : ℤ → Server → Server
set_commit_idx idx s = record s { commit_idx = idx }

unfoldable pub set_last_applied_idx : ℤ → Server → Server
set_last_applied_idx idx s = record s { last_applied_idx = idx }

unfoldable pub vote : Ptr → Server → Server
vote p s = record s { voted_for = p }

-- A change of the node at an address.
unfoldable pub update : Ptr → (RaftNode → RaftNode) → (Ptr → RaftNode) → Ptr → RaftNode
update p f store q = if q == p then f (store q) else store q

unfoldable pub at_node : Ptr → (RaftNode → RaftNode) → Server → Server
unfolding update
at_node p f s = record s { store = update p f s.store }

-- `if (this->cb.send) this->cb.send(...)`
unfoldable pub send : Ptr → Msg → Server → Server
send p m s = if s.cb_send then record s { sent = s.sent ++ (p, m) ∷ [] } else s

-- The loop of `forAllNodesExceptSelf`. No callback of the class changes the list.
unfoldable pub for_nodes : (Ptr → Server → Server) → Bool → List Ptr → Server → Server
for_nodes f skip_leader [] s = s
for_nodes f skip_leader (p ∷ ps) s =
    for_nodes f skip_leader ps
      (if (p == s.this_node) || (skip_leader && ((s.store p).is_leader == 1)) then s else f p s)

unfoldable pub for_all_nodes_except_self : (Ptr → Server → Server) → Bool → Server → Server
unfolding for_nodes
for_all_nodes_except_self f skip_leader s = for_nodes f skip_leader s.nodes s

unfoldable pub send_requestvote : Ptr → Server → Server
unfolding send
send_requestvote p s =
    send p
      (requestvote (record {
        term = s.current_term;
        candidate_id = pos 0;
        last_log_idx = s.current_idx;
        last_log_term = pos 0;
      }))
      s

-- The arguments of the constructor in the source's order: the previous log index is 0 and the
-- node's next index goes to the previous log term. The message has no entries, so there is one
-- call of `send`.
unfoldable pub send_appendentries : Ptr → Server → Server
unfolding send new_append_entries
send_appendentries p s =
    send p
      (appendentries
        (new_append_entries s.current_term (pos 0) (s.store p).next_idx (pos 0) s.leader_commit))
      s

unfoldable pub send_appendentries_all : Server → Server
unfolding for_all_nodes_except_self send_appendentries
send_appendentries_all s =
    for_all_nodes_except_self send_appendentries false
      (record s { leader_commit = s.leader_commit +ℤ pos 1 })
