-- ===== src/Tcp/Receiving/Bytes.antt =====
-- The bytes of a message, read back.
use cpp_raft.Base.{length, ℤ, pos, ◌≡◌, sym, ap, ◌∙◌, Option, some, List, [], arith}
use cpp_raft.Msg.{
  MsgEntry, MsgRequestvote, MsgRequestvoteResponse, MsgAppendEntries, MsgAppendentriesResponse, Msg,
  requestvote, requestvote_response, appendentries, appendentries_response, entry_response,
}
use cpp_raft.Tcp.Bytes.{IsInt, int_bytes, read_int, read_int-int_bytes}
use cpp_raft.Tcp.Receiving.{
  int_at, read_requestvote, read_requestvote_response, read_appendentries,
  read_appendentries_response,
}
use cpp_raft.Tcp.Sending.{msg_type, msg_bytes, or_unset}

-- The messages whose fields are all set and fit their bytes, and that carry no entries.
abbrev pub Plain : Msg → Type 0
Plain (requestvote m) =
    IsInt m.term × IsInt m.candidate_id × IsInt m.last_log_idx × IsInt m.last_log_term
Plain (requestvote_response m) = IsInt m.term × IsInt m.vote_granted
Plain (appendentries m) =
    IsInt m.term
    × IsInt m.prev_log_idx
    × IsInt m.prev_log_term
    × IsInt m.leader_commit
    × (m.entries ≡ [])
Plain (appendentries_response m) =
    IsInt m.term
    × IsInt m.success
    × ((i : ℤ) × (m.current_idx ≡ some i) × IsInt i)
    × ((i : ℤ) × (m.first_idx ≡ some i) × IsInt i)
Plain (entry_response m) = ⊥

pub read_requestvote-bytes :
    (m : MsgRequestvote) (unset : ℤ)
    → Plain (requestvote m)
    → read_requestvote (msg_bytes unset (requestvote m)) ≡ m
unfolding msg_bytes
read_requestvote-bytes m unset (a, b, c, d) = λ i. record {
  term = read_int-int_bytes m.term a i;
  candidate_id = read_int-int_bytes m.candidate_id b i;
  last_log_idx = read_int-int_bytes m.last_log_idx c i;
  last_log_term = read_int-int_bytes m.last_log_term d i;
}

pub read_requestvote_response-bytes :
    (m : MsgRequestvoteResponse) (unset : ℤ)
    → Plain (requestvote_response m)
    → read_requestvote_response (msg_bytes unset (requestvote_response m)) ≡ m
unfolding msg_bytes
read_requestvote_response-bytes m unset (a, b) = λ i. record {
  term = read_int-int_bytes m.term a i;
  vote_granted = read_int-int_bytes m.vote_granted b i;
}

pub read_appendentries-bytes :
    (m : MsgAppendEntries) (unset : ℤ)
    → Plain (appendentries m)
    → read_appendentries (msg_bytes unset (appendentries m)) ≡ m
unfolding msg_bytes
read_appendentries-bytes m unset (a, b, c, d, e) = λ i. record {
  term = read_int-int_bytes m.term a i;
  prev_log_idx = read_int-int_bytes m.prev_log_idx b i;
  prev_log_term = read_int-int_bytes m.prev_log_term c i;
  leader_commit = read_int-int_bytes m.leader_commit d i;
  entries = sym e i;
}

-- A field that is set, as it comes back.
read_set :
    (unset : ℤ) (f : Option ℤ)
    → ((i : ℤ) × (f ≡ some i) × IsInt i)
    → some (read_int (int_bytes (or_unset unset f))) ≡ f
read_set unset f (i, e, h) =
    ap (λ (g : Option ℤ). some (read_int (int_bytes (or_unset unset g)))) e
    ∙ ap some (read_int-int_bytes i h)
    ∙ sym e

pub read_appendentries_response-bytes :
    (m : MsgAppendentriesResponse) (unset : ℤ)
    → Plain (appendentries_response m)
    → read_appendentries_response (msg_bytes unset (appendentries_response m)) ≡ m
unfolding msg_bytes
read_appendentries_response-bytes m unset (a, b, c, d) = λ i. record {
  term = read_int-int_bytes m.term a i;
  success = read_int-int_bytes m.success b i;
  current_idx = read_set unset m.current_idx c i;
  first_idx = read_set unset m.first_idx d i;
}

pub no_entries :
    (m : MsgAppendEntries) (unset : ℤ)
    → m.entries ≡ []
    → int_at 16 (msg_bytes unset (appendentries m)) ≡ pos 0
unfolding msg_bytes
no_entries m unset e =
    ap (λ (es : List MsgEntry). read_int (int_bytes (pos (length es)))) e
    ∙ read_int-int_bytes (pos 0) (ground arith)

pub type_fits : (m : Msg) → Plain m → read_int (int_bytes (pos (msg_type m))) ≡ pos (msg_type m)
type_fits (requestvote m) h = read_int-int_bytes (pos 0) (ground arith)
type_fits (requestvote_response m) h = read_int-int_bytes (pos 1) (ground arith)
type_fits (appendentries m) h = read_int-int_bytes (pos 2) (ground arith)
type_fits (appendentries_response m) h = read_int-int_bytes (pos 3) (ground arith)
type_fits (entry_response m) h = absurd h
