-- ===== src/Server/Periodic/Timing.antt =====
-- The timer, the heartbeats of a leader, and the entries that a follower applies.
use mathlib.Core.Path.{ap₂, subst}
use native.Mathlib.Decide.{dec_lt}
use cpp_raft.Base.{
  if◌then◌else◌, Bool-cases, length, get_elem?, get_elem?-eq_none, get_elem?-some, ℤ, ◌+ℤ◌, ◌≤ℤ◌,
  ◌<ℤ◌, ltb_ℤ, leb_ℤ, pos, ℕ, ◌≡◌, refl, ap, ◌∙◌, inl, inr, Bool, true, false, ◌&&◌, none, some, [],
  ◌∷◌, ◌++◌, map, arith,
}
use cpp_raft.Msg.{new_append_entries}
use cpp_raft.Node.{Ptr, RaftNode}
use cpp_raft.Server.State.{
  RaftState, is_follower, is_leader, Server, vote, send, send_appendentries, send_appendentries_all,
  follower, returns,
}
use cpp_raft.Server.State.Loops.{targets, Sends, for_nodes-sent}
use cpp_raft.Server.Election.{election_start}
use cpp_raft.Server.Election.Roles.{heartbeat}
use cpp_raft.Server.Election.Candidacy.{become_candidate-state}
use cpp_raft.Server.Applying.{advance}
use cpp_raft.Server.Applying.Progress.{apply-beyond, apply-next}
use cpp_raft.Server.Periodic.{tick, periodic}

record Beats (s t : Server) : Type 0 where
  term : t.current_term ≡ s.current_term
  commit : t.leader_commit ≡ s.leader_commit
  store : t.store ≡ s.store

send_appendentries-Sends :
    (s : Server)
    → Sends send_appendentries
        (λ p. (heartbeat s.current_term (s.store p).next_idx s.leader_commit))
        (Beats s)
unfolding send_appendentries send new_append_entries
send_appendentries-Sends s = record {
  sends = λ p t k on. rw on (
      ap
        (λ (st : Ptr → RaftNode).
          t.sent ++ (p, heartbeat t.current_term (st p).next_idx t.leader_commit) ∷ [])
        k.store
      ∙ rw (k.term, k.commit) refl);
  keeps = λ p t k. ground arith;
  set = λ p t. ground arith;
  same = λ p t. ground arith;
  flags = λ p q t. ground arith;
}

-- The heartbeats go to every node but the server's own, in the order of the list, with the term, the
-- node's next index in the place of the previous term, and a commit index that is one higher than
-- it was; they have no entries.
pub send_appendentries_all-sent :
    (s : Server)
    → s.cb_send ≡ true
    → (send_appendentries_all s).sent
      ≡ s.sent
        ++ map
            (λ p. (p, heartbeat s.current_term (s.store p).next_idx (s.leader_commit +ℤ pos 1)))
            (targets false s s.nodes)
unfolding send_appendentries_all
send_appendentries_all-sent s on =
    for_nodes-sent
      (send_appendentries-Sends (record s { leader_commit = s.leader_commit +ℤ pos 1 })) false
      s.nodes _ (record { term = refl; commit = refl; store = refl }) on

record SameTimer (s t : Server) : Type 0 where
  state : t.state ≡ s.state
  request : t.request_timeout ≡ s.request_timeout
  election : t.election_timeout ≡ s.election_timeout

-- What is asked of the timeouts of a server that leads, or does not.
abbrev pub TimeoutFits : Server → Bool → Type 0
TimeoutFits s leads = if leads then pos 0 <ℤ s.request_timeout else pos 500 ≤ℤ s.election_timeout

for_role :
    (s : Server) (leads : Bool)
    → is_leader s.state ≡ leads
    → TimeoutFits s (is_leader s.state)
    → TimeoutFits s leads
for_role s leads role h = subst (TimeoutFits s) role h

-- After a tick the timer of a leader stands below its request timeout, where that is above 0; the
-- timer of any other server stands below its election timeout, where that is at least 500 ms.
pub tick_below :
    (draw draw' : ℕ) (msec : ℤ) (s : Server)
    → TimeoutFits s (is_leader s.state)
    → (tick draw draw' msec s).timeout_elapsed
      <ℤ (if is_leader s.state then s.request_timeout else s.election_timeout)
unfolding tick election_start
tick_below draw draw' msec s fits = elim (Bool-cases (is_leader s.state)) [
  | inl role ↦ elim (Bool-cases (leb_ℤ s.request_timeout (s.timeout_elapsed +ℤ msec))) [
    | inl late ↦ rw (tick, role, late) (for_role s true role fits)
    | inr early ↦ rw (tick, role, early) (ground arith)
  ]
  | inr role ↦ elim (Bool-cases (leb_ℤ s.election_timeout (s.timeout_elapsed +ℤ msec))) [
    | inl late ↦
        let t = record s { timeout_elapsed = s.timeout_elapsed +ℤ msec } in
        let (same, state, vote, above, bound, timer, small, store) =
          become_candidate-state draw draw' t in
        let election : pos 500 ≤ℤ s.election_timeout = for_role s false role fits in
        rw (tick, role, late) (rw timer (omega arith))
    | inr early ↦ rw (tick, role, early) (ground arith)
  ]
]

-- A follower that has not applied all that is committed applies exactly the next entry of its log
-- and then lets the time pass; if its log has no further entry, it only returns 0.
pub periodic_applies :
    (draw draw' : ℕ) (msec : ℤ) (s : Server) (k : ℕ)
    → s.state ≡ follower
    → s.last_applied_idx ≡ pos k
    → pos k <ℤ s.commit_idx
    → periodic draw draw' msec s ≡ (elim (get_elem? s.log k) [
      | none ↦ returns 0 s
      | some e ↦ returns 1 (tick draw draw' msec (advance e s))
    ])
unfolding periodic
periodic_applies draw draw' msec s k role at behind =
    let due : (is_follower s.state && ltb_ℤ s.last_applied_idx s.commit_idx) ≡ true =
      ap₂ (λ (r : RaftState) (i : ℤ). is_follower r && ltb_ℤ i s.commit_idx) role at
      ∙ ground arith in
    elim (dec_lt k (length s.log)) [
      | no out ↦
          rw
            (
              periodic,
              due,
              apply-beyond s k at (omega arith),
              get_elem?-eq_none s.log k (omega arith),
            )
            refl
      | yes lt ↦
          let (e, p) = get_elem?-some s.log k lt in
          rw (periodic, due, apply-next s k at p lt, p) refl
    ]
