-- ===== src/Server/Appending/Accepting.antt =====
-- Taking over the entries of a message.
use mathlib.Core.List.{append-nil, append_assoc}
use cpp_raft.Base.{
  refl, if◌then◌else◌, length, ℤ, ◌+ℤ◌, to_int, +ℤ_parts, eq_of_parts, int_laws, pos, suc, ◌≡◌, sym,
  ap, ◌∙◌, ◌≢◌, inl, inr, some, Bool-cases, true, false, List, [], ◌∷◌, ◌++◌, map, arith,
}
use cpp_raft.Msg.{
  Msg, appendentries_response, MsgEntry, RaftEntry, MsgAppendEntries, empty_entry,
  populate_from_msg_entry,
}
use cpp_raft.Node.{Ptr, null}
use cpp_raft.Server.State.{is_candidate, Server, follower, send, set_current_term}
use cpp_raft.Server.Applying.{append_entry}
use cpp_raft.Server.Applying.Progress.{append_entry_none, append_entry_some}
use cpp_raft.Server.Election.{become_follower}
use cpp_raft.Server.Appending.{reply_success, append_all, accept}

-- The log entry that a message's entry becomes, in the term of the server.
abbrev pub entry_of : ℤ → MsgEntry → RaftEntry
entry_of t m = populate_from_msg_entry (record empty_entry { term = t }) m

-- No id is 0, as an `int`.
abbrev pub IdsSet : List MsgEntry → Type 0
IdsSet [] = Unit
IdsSet (m ∷ ms) = (to_int m.id ≢ pos 0) × IdsSet ms

-- The server with entries added to its log.
abbrev pub extended : List MsgEntry → Server → Server
extended ms s = record s {
  log = s.log ++ map (entry_of s.current_term) ms;
  current_idx = s.current_idx +ℤ pos (length ms);
}

extended-nil : (s : Server) → extended [] s ≡ s
unfolding ◌+ℤ◌
extended-nil s = λ i. record s {
  log = append-nil s.log i;
  current_idx =
      eq_of_parts (s.current_idx +ℤ pos 0) s.current_idx
        (omega (arith, +ℤ_parts s.current_idx (pos 0))) i;
}

pub append_one :
    (m : MsgEntry) (s : Server)
    → to_int m.id ≢ pos 0
    → append_entry (entry_of s.current_term m) s ≡ (
      1,
      record s {
        log = s.log ++ entry_of s.current_term m ∷ [];
        current_idx = s.current_idx +ℤ pos 1;
      },
    )
unfolding populate_from_msg_entry
append_one m s h = append_entry_some (entry_of s.current_term m) s h

extended-cons :
    (m : MsgEntry) (ms : List MsgEntry) (s : Server)
    → extended ms (record s {
      log = s.log ++ entry_of s.current_term m ∷ [];
      current_idx = s.current_idx +ℤ pos 1;
    })
      ≡ extended (m ∷ ms) s
extended-cons m ms s =
    let idx : s.current_idx +ℤ pos 1 +ℤ pos (length ms) ≡ s.current_idx +ℤ pos (suc (length ms)) =
      eq_of_parts _ _ (omega int_laws) in
    λ i. record s {
      log =
          append_assoc s.log (entry_of s.current_term m ∷ []) (map (entry_of s.current_term) ms) i;
      current_idx = idx i;
    }

-- If no id is 0 the loop appends every entry of the message, in order, in the current term, and
-- moves the current index by their number.
pub append_all-all :
    (ms : List MsgEntry) (s : Server) → IdsSet ms → append_all ms s ≡ (true, extended ms s)
unfolding append_all
append_all-all [] s h = ap (λ (t : Server). (true, t)) (sym (extended-nil s))
append_all-all (m ∷ ms) s (h, hs) =
    rw (append_all, append_one m s h)
      (append_all-all ms _ hs ∙ ap (λ (t : Server). (true, t)) (extended-cons m ms s))

-- An entry with id 0 stops the loop; the entries before it are appended.
pub append_all_stops :
    (ms : List MsgEntry) (m : MsgEntry) (ns : List MsgEntry) (s : Server)
    → IdsSet ms
    → to_int m.id ≡ pos 0
    → append_all (ms ++ m ∷ ns) s ≡ (false, extended ms s)
unfolding append_all populate_from_msg_entry
append_all_stops [] m ns s h z =
    rw (append_all, append_entry_none (entry_of s.current_term m) s z)
      (ap (λ (t : Server). (false, t)) (sym (extended-nil s)))
append_all_stops (k ∷ ms) m ns s (h, hs) z =
    rw (append_all, append_one k s h)
      (append_all_stops ms m ns _ hs z ∙ ap (λ (t : Server). (false, t)) (extended-cons k ms s))

-- The answer to a message whose entries were all appended.
abbrev pub accepted_answer : ℤ → ℤ → ℤ → Msg
accepted_answer term prev_log_idx current_idx = appendentries_response (record {
  term = term;
  success = pos 1;
  current_idx = some current_idx;
  first_idx = some (prev_log_idx +ℤ pos 1);
})

answered :
    (p : Ptr) (m : Msg) (s : Server)
    → send p m s ≡ record s { sent = if s.cb_send then s.sent ++ (p, m) ∷ [] else s.sent }
unfolding send
answered p m s = elim (Bool-cases s.cb_send) [ inl on ↦ rw on refl | inr off ↦ rw off refl ]

-- The server behind such a message. A candidate follows, and forgets its vote.
abbrev pub accepted : Ptr → ℤ → MsgAppendEntries → Server → Server
accepted p term ae s =
    let stood = is_candidate s.state in
    let current_idx = s.current_idx +ℤ pos (length ae.entries) in
    record s {
      state = if stood then follower else s.state;
      voted_for = if stood then null else s.voted_for;
      current_term = ae.term;
      log = s.log ++ map (entry_of ae.term) ae.entries;
      current_idx = current_idx;
      sent =
          if s.cb_send
          then s.sent ++ (p, accepted_answer term ae.prev_log_idx current_idx) ∷ []
          else s.sent;
    }

-- A message whose ids are not 0 is accepted: its term becomes the current term, a candidate becomes
-- a follower without a vote, every entry is appended in that term, and the current index moves by
-- their number. If the server can send, it sends one message more, to the sender: a success, with
-- the given term, the new current index, and the index behind the one that the message gives as the
-- previous. Nothing else changes.
pub accept-all :
    (p : Ptr) (term : ℤ) (ae : MsgAppendEntries) (s : Server)
    → IdsSet ae.entries
    → accept p term ae s ≡ accepted p term ae s
unfolding accept set_current_term become_follower reply_success
accept-all p term ae s h =
    let answer = λ (t : Server).
      accepted_answer term ae.prev_log_idx (t.current_idx +ℤ pos (length ae.entries)) in
    elim (Bool-cases (is_candidate s.state)) [
      | inl stood ↦
          let t = record s { state = follower; voted_for = null; current_term = ae.term } in
          rw (stood, append_all-all ae.entries t h) (answered p (answer t) (extended ae.entries t))
      | inr other ↦
          let t = record s { current_term = ae.term } in
          rw (other, append_all-all ae.entries t h) (answered p (answer t) (extended ae.entries t))
    ]
