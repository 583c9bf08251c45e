-- ===== src/Server/Election/Roles.antt =====
-- What a change of role does, and what it sends.
use cpp_raft.Base.{
  if◌then◌else◌, ==_refl, Bool-cases, has, ℤ, ◌+ℤ◌, pos, ◌≡◌, refl, ◌∙◌, inl, inr, Bool, true, List,
  [], ◌∷◌, ◌++◌, map, arith,
}
use cpp_raft.Msg.{Msg, requestvote, appendentries}
use cpp_raft.Node.{Ptr, null}
use cpp_raft.Server.State.{Server, update, send, for_nodes, leader}
use cpp_raft.Server.State.Loops.{
  skips, targets, Sends, targets-callback, for_nodes-sent, for_nodes_keeps,
}
use cpp_raft.Server.Election.{lead_node, become_leader}

-- The heartbeat that a new leader sends.
abbrev pub heartbeat : ℤ → ℤ → ℤ → Msg
heartbeat term next_idx commit = appendentries (record {
  term = term;
  prev_log_idx = pos 0;
  prev_log_term = next_idx;
  leader_commit = commit;
  entries = [];
})

-- The call for votes.
abbrev pub call : ℤ → ℤ → Msg
call term idx =
    requestvote
      (record { term = term; candidate_id = pos 0; last_log_idx = idx; last_log_term = pos 0 })

record SameRole (t i c : ℤ) (s : Server) : Type 0 where
  term : s.current_term ≡ t
  idx : s.current_idx ≡ i
  commit : s.leader_commit ≡ c

lead_node-Sends :
    (term idx commit : ℤ)
    → Sends lead_node (λ p. heartbeat term (idx +ℤ pos 1) commit) (SameRole term idx commit)
unfolding lead_node send update
lead_node-Sends term idx commit = record {
  sends = λ p s k on. ground (arith, ==_refl p);
  keeps = λ p s k. ground arith;
  set = λ p s. ground arith;
  same = λ p s. ground arith;
  flags = λ p q s. ground arith;
}

-- A new leader has forgotten its vote, and has sent each node but itself, and but one marked as
-- leader, one heartbeat with its own term and no entry, in the order of the list.
pub become_leader-sent :
    (s : Server)
    → s.cb_send ≡ true
    → (become_leader s).sent
      ≡ s.sent
        ++ map
            (λ p. (p, heartbeat s.current_term (s.current_idx +ℤ pos 1) s.leader_commit))
            (targets true s s.nodes)
unfolding become_leader
become_leader-sent s on =
    for_nodes-sent (lead_node-Sends s.current_term s.current_idx s.leader_commit) true s.nodes _
      (record { term = refl; idx = refl; commit = refl }) on

-- The fields that a change of role leaves as they were.
pub record SameLog (s t : Server) : Type 0 where
  pub log : t.log ≡ s.log
  pub current_idx : t.current_idx ≡ s.current_idx
  pub commit_idx : t.commit_idx ≡ s.commit_idx
  pub last_applied_idx : t.last_applied_idx ≡ s.last_applied_idx
  pub applied : t.applied ≡ s.applied
  pub nodes : t.nodes ≡ s.nodes
  pub this_node : t.this_node ≡ s.this_node

record Leads (s t : Server) : Type 0 where
  same : SameLog s t
  term : t.current_term ≡ s.current_term
  state : t.state ≡ leader
  voted_for : t.voted_for ≡ null

-- Becoming leader changes the role and forgets the vote; the term and the log stay.
pub become_leader-state :
    (s : Server)
    → let t = become_leader s in
      SameLog s t × (t.state ≡ leader) × (t.voted_for ≡ null) × (t.current_term ≡ s.current_term)
unfolding become_leader lead_node send
become_leader-state s =
    let l =
      for_nodes_keeps {f = lead_node} (Leads s) true s.nodes
        (record s { state = leader; voted_for = null }) (λ p t h. ground arith) (ground arith) in
    (l.same, l.state, l.voted_for, l.term)

lead_nodes-next_idx :
    (q : Ptr) (skip : Bool) (ps : List Ptr) (s : Server)
    → ((for_nodes lead_node skip ps s).store q).next_idx
      ≡ (if has q (targets skip s ps) then s.current_idx +ℤ pos 1 else (s.store q).next_idx)
unfolding for_nodes lead_node send update
lead_nodes-next_idx q skip [] s = refl
lead_nodes-next_idx q skip (p ∷ ps) s = elim (Bool-cases (skips skip s p)) [
  | inl e ↦ rw (e, for_nodes) (lead_nodes-next_idx q skip ps s)
  | inr e ↦
      rw (e, for_nodes)
        (lead_nodes-next_idx q skip ps (lead_node p s)
          ∙ rw
              (targets-callback (lead_node-Sends s.current_term s.current_idx s.leader_commit) skip
                p s ps)
              (ground arith))
]

-- The next index of every node that the new leader wrote to is one past its own current index;
-- every other node keeps its next index.
pub become_leader-next_idx :
    (s : Server) (q : Ptr)
    → ((become_leader s).store q).next_idx
      ≡ (if has q (targets true s s.nodes) then s.current_idx +ℤ pos 1 else (s.store q).next_idx)
unfolding become_leader
become_leader-next_idx s q =
    lead_nodes-next_idx q true s.nodes (record s { state = leader; voted_for = null })
