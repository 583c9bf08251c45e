-- ===== src/Msg.antt =====
-- raft_msg.h: log entries and the messages that the servers exchange.
use cpp_raft.Base.{
  ℕ, ℤ, pos, Bool, true, false, Option, none, some, List, [], ◌∷◌, ◌++◌, not, leb, eqb_ℤ,
  if◌then◌else◌, length, get_elem?, take, to_int,
}
use cpp_raft.Outcome.{Outcome, ok, throws, wrong_index}

pub record MsgRequestvote : Type 0 where
  pub term : ℤ
  pub candidate_id : ℤ
  pub last_log_idx : ℤ
  pub last_log_term : ℤ

-- `content` is what `d_data` points to, `len` the 32-bit field `d_len`.
pub record MsgEntry : Type 0 where
  pub id : ℕ
  pub content : List ℕ
  pub len : ℕ

pub record RaftEntry : Type 0 where
  pub term : ℤ
  pub id : ℤ
  pub content : List ℕ
  pub len : ℕ
  pub num_nodes : ℤ

pub record MsgEntryResponse : Type 0 where
  pub id : ℕ
  pub was_committed : ℤ

pub record MsgRequestvoteResponse : Type 0 where
  pub term : ℤ
  pub vote_granted : ℤ

-- `none` is a field that the code leaves uninitialised.
pub record MsgAppendentriesResponse : Type 0 where
  pub term : ℤ
  pub success : ℤ
  pub current_idx : Option ℤ
  pub first_idx : Option ℤ

-- `entries` are the first `m_nSize` elements of the array `d_entries2`.
pub record MsgAppendEntries : Type 0 where
  pub term : ℤ
  pub prev_log_idx : ℤ
  pub prev_log_term : ℤ
  pub leader_commit : ℤ
  pub entries : List MsgEntry

-- The message types of the enumeration, each with its body.
pub data Msg : Type 0 where
  requestvote : MsgRequestvote → Msg
  requestvote_response : MsgRequestvoteResponse → Msg
  appendentries : MsgAppendEntries → Msg
  appendentries_response : MsgAppendentriesResponse → Msg
  entry_response : MsgEntryResponse → Msg

abbrev pub max_num_of_append_entries_log : ℕ
max_num_of_append_entries_log = 64

-- The default constructor of `raft_entry_t`.
abbrev pub empty_entry : RaftEntry
empty_entry = record { term = pos 0; id = pos 0; content = []; len = 0; num_nodes = pos 0 }

-- The constructor with arguments; `num_nodes` defaults to 0.
unfoldable pub new_entry : ℤ → ℕ → List ℕ → ℕ → RaftEntry
unfolding to_int
new_entry term id content len = record {
  term = term;
  id = to_int id;
  content = content;
  len = len;
  num_nodes = pos 0;
}

-- Copies `len` bytes of the message; the allocation is taken to succeed. Where the message has fewer
-- bytes, the copy of the code is undefined, and this is not what it does.
unfoldable pub populate_from_msg_entry : RaftEntry → MsgEntry → RaftEntry
unfolding to_int
populate_from_msg_entry c msg = record c {
  len = msg.len;
  id = to_int msg.id;
  content = take msg.len msg.content;
}

-- The constructor ignores its argument `n_entries` and starts with no entry.
unfoldable pub new_append_entries : ℤ → ℤ → ℤ → ℤ → ℤ → MsgAppendEntries
new_append_entries term prev_log_idx prev_log_term n_entries leader_commit = record {
  term = term;
  prev_log_idx = prev_log_idx;
  prev_log_term = prev_log_term;
  leader_commit = leader_commit;
  entries = [];
}

unfoldable pub add_entry2 : MsgAppendEntries → MsgEntry → Bool × MsgAppendEntries
add_entry2 ae e =
    if leb max_num_of_append_entries_log (length ae.entries)
    then (false, ae)
    else (true, record ae { entries = ae.entries ++ e ∷ [] })

unfoldable pub get_entry : MsgAppendEntries → ℕ → Outcome MsgEntry
get_entry ae i = elim (get_elem? ae.entries i) [ none ↦ throws wrong_index | some e ↦ ok e ]

unfoldable pub has_any_logs : MsgAppendEntries → Bool
has_any_logs ae = not (eqb_ℤ ae.prev_log_idx (pos 0))
