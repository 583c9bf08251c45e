-- ===== src/Server/Appending.antt =====
-- `recv_appendentries`, `recv_entry`.
pub mod Checking
pub mod Committing
pub mod Accepting
pub mod Whole
pub mod Previous
pub mod Following
pub mod Receiving
use cpp_raft.Base.{
  ℕ, zero, suc, ◌+◌, ◌≡◌, ℤ, pos, Bool, true, false, Option, none, some, List, [], ◌∷◌, ◌&&◌, not,
  ◌==◌, length, if◌then◌else◌, ◌+ℤ◌, ltb_ℤ, leb_ℤ, eqb_ℤ, to_int, to_unsigned,
}
use cpp_raft.Outcome
use cpp_raft.Outcome.{Outcome}
use cpp_raft.Msg.{
  RaftEntry, MsgEntry, MsgAppendEntries, MsgAppendentriesResponse, appendentries_response,
  entry_response, empty_entry, new_entry, populate_from_msg_entry, has_any_logs,
}
use cpp_raft.Log.{log_get_from_idx, log_delete, log_peektail}
use cpp_raft.Node.{Ptr}
use cpp_raft.Server.State.{
  Server, Run, returns, throws, undefined, out_of_fuel, and_then, is_leader, is_candidate, send,
  set_current_term, set_commit_idx, set_last_applied_idx, for_all_nodes_except_self,
  send_appendentries,
}
use cpp_raft.Server.Election.{become_follower}
use cpp_raft.Server.Applying.{append_entry, apply_all, apply_fuel}

-- `done:` with `success` 0: the other two fields are not set.
unfoldable pub reply_failure : Ptr → ℤ → Server → Server
unfolding send
reply_failure p term s =
    send p
      (appendentries_response
        (record { term = term; success = pos 0; current_idx = none; first_idx = none }))
      s

unfoldable pub reply_success : Ptr → ℤ → ℤ → Server → Server
unfolding send
reply_success p term prev_log_idx s =
    send p
      (appendentries_response (record {
        term = term;
        success = pos 1;
        current_idx = some s.current_idx;
        first_idx = some (prev_log_idx +ℤ pos 1);
      }))
      s

-- Steps 2 and 3, for a message with a previous entry: `true` goes on, `false` replies 0.
-- `log_delete` throws nothing.
unfoldable pub check_prev : MsgAppendEntries → Server → Run Bool
check_prev ae s = elim (log_get_from_idx s.log ae.prev_log_idx) [
  | Outcome.throws x ↦ returns false s
  | Outcome.undefined ↦ undefined
  | Outcome.ok e ↦
      if not (eqb_ℤ e.term ae.prev_log_term)
      then returns false s
      else elim (log_delete s.log (ae.prev_log_idx +ℤ pos 1)) [
        | Outcome.ok l ↦ returns true (record s { log = l })
        | Outcome.throws x ↦ returns true s
        | Outcome.undefined ↦ undefined
      ]
]

unfoldable pub min_ℤ : ℤ → ℤ → ℤ
min_ℤ a b = if ltb_ℤ a b then a else b

-- Step 5.
unfoldable pub follow_commit : MsgAppendEntries → Server → Run (Unit {0})
unfolding min_ℤ set_commit_idx set_last_applied_idx
follow_commit ae s =
    if ltb_ℤ s.commit_idx ae.leader_commit
    then elim (log_peektail s.log) [
      | Outcome.ok e ↦
          let idx = min_ℤ e.id ae.leader_commit in
          let t = set_last_applied_idx idx (set_commit_idx idx s) in apply_all (apply_fuel t) t
      | Outcome.throws x ↦ returns tt s
      | Outcome.undefined ↦ undefined
    ]
    else returns tt s

-- The loop over the message's entries: `false` if one could not be appended.
unfoldable pub append_all : List MsgEntry → Server → Bool × Server
append_all [] s = (true, s)
append_all (m ∷ ms) s =
    let (done, t) =
      append_entry (populate_from_msg_entry (record empty_entry { term = s.current_term }) m) s in
    let rest = append_all ms t in if done == 0 then (false, t) else rest

-- From the adoption of the message's term on.
unfoldable pub accept : Ptr → ℤ → MsgAppendEntries → Server → Server
unfolding set_current_term
accept p term ae s =
    let t = if is_candidate s.state then become_follower s else s in
    let (done, u) = append_all ae.entries (set_current_term ae.term t) in
    if done then reply_success p term ae.prev_log_idx u else reply_failure p term u

-- What follows the test of the term.
unfoldable pub proceed : Ptr → ℤ → MsgAppendEntries → Server → Run ℕ
proceed p term ae s =
    and_then (if has_any_logs ae then check_prev ae s else returns true s) λ goes_on t.
      if goes_on
      then and_then (follow_commit ae t) (λ _ u. returns 1 (accept p term ae u))
      else returns 1 (reply_failure p term t)

-- The answer carries the term from before the call.
unfoldable pub recv_appendentries : Bool → Ptr → MsgAppendEntries → Server → Run ℕ
recv_appendentries as_response p ae s₀ =
    let s₁ = if as_response then record s₀ { timeout_elapsed = pos 0 } else s₀ in
    let s₂ =
      if is_leader s₁.state && leb_ℤ s₁.current_term ae.term then become_follower s₁ else s₁ in
    if ltb_ℤ ae.term s₂.current_term
    then returns 1 (reply_failure p s₁.current_term s₂)
    else proceed p s₁.current_term ae s₂

unfoldable pub send_entry_response : Ptr → ℤ → ℕ → Server → Server
unfolding send to_unsigned
send_entry_response p etyid was_committed s =
    send p (entry_response (record { id = to_unsigned etyid; was_committed = pos was_committed })) s

-- Returns 0 always.
unfoldable pub recv_entry : Ptr → MsgEntry → Server → Server
recv_entry p m s =
    let (done, t) = append_entry (new_entry s.current_term m.id m.content m.len) s in
    for_all_nodes_except_self send_appendentries false (send_entry_response p (to_int m.id) done t)
