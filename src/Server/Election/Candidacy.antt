-- ===== src/Server/Election/Candidacy.antt =====
-- Standing for election.
use cpp_raft.Base.{
  length, ℤ, ◌+ℤ◌, ◌≤ℤ◌, ◌<ℤ◌, +ℤ_parts, pos, ℕ, ◌+◌, ◌%◌, ◌≤◌, ◌<◌, ◌≡◌, refl, true, ◌++◌, map,
  arith,
}
use cpp_raft.Server.State.{Server, send, send_requestvote, candidate}
use cpp_raft.Server.State.Loops.{targets, Sends, for_nodes-sent, for_nodes_keeps}
use cpp_raft.Server.Election.{rand_factor, become_candidate}
use cpp_raft.Server.Election.Roles.{SameLog, call}

rand_factor-bounds : (s : Server) → (6 ≤ rand_factor s) × (length s.nodes ≤ rand_factor s)
unfolding rand_factor
rand_factor-bounds s = ground arith

draw-lt : (draw n : ℕ) → 6 ≤ n → draw % n < n
draw-lt draw n h = omega arith

record Stands (t i : ℤ) (s : Server) : Type 0 where
  term : s.current_term ≡ t
  idx : s.current_idx ≡ i

send_requestvote-Sends : (t i : ℤ) → Sends send_requestvote (λ p. call t i) (Stands t i)
unfolding send_requestvote send
send_requestvote-Sends t i = record {
  sends = λ p s k on. ground arith;
  keeps = λ p s k. ground arith;
  set = λ p s. ground arith;
  same = λ p s. ground arith;
  flags = λ p q s. ground arith;
}

-- A candidate asks each node but itself, and but one marked as leader, once for its vote, with its
-- new term and its current index, in the order of the list.
pub become_candidate-sent :
    (draw draw' : ℕ) (s : Server)
    → s.cb_send ≡ true
    → (become_candidate draw draw' s).sent
      ≡ s.sent
        ++ map
            (λ p. (p, call (s.current_term +ℤ pos (1 + draw % rand_factor s)) s.current_idx))
            (targets true s s.nodes)
unfolding become_candidate
become_candidate-sent draw draw' s on =
    for_nodes-sent (send_requestvote-Sends _ s.current_idx) true s.nodes _
      (record { term = refl; idx = refl }) on

record Candidate (s : Server) (draw draw' : ℕ) (t : Server) : Type 0 where
  same : SameLog s t
  state : t.state ≡ candidate
  voted_for : t.voted_for ≡ s.this_node
  term : t.current_term ≡ s.current_term +ℤ pos (1 + draw % rand_factor s)
  elapsed : t.timeout_elapsed ≡ pos (draw' % 500)
  store : t.store ≡ s.store

become_candidate-Candidate :
    (draw draw' : ℕ) (s : Server) → Candidate s draw draw' (become_candidate draw draw' s)
unfolding become_candidate send_requestvote send
become_candidate-Candidate draw draw' s =
    for_nodes_keeps {f = send_requestvote} (Candidate s draw draw') true s.nodes _
      (λ p t h. ground arith) (ground arith)

pub become_candidate-state :
    (draw draw' : ℕ) (s : Server)
    → let t = become_candidate draw draw' s in
      SameLog s t
      × (t.state ≡ candidate)
      × (t.voted_for ≡ s.this_node)
      × (s.current_term <ℤ t.current_term)
      × (t.current_term ≤ℤ s.current_term +ℤ pos (rand_factor s))
      × (t.timeout_elapsed ≡ pos (draw' % 500))
      × (draw' % 500 < 500)
      × (t.store ≡ s.store)
become_candidate-state draw draw' s =
    let c = become_candidate-Candidate draw draw' s in
    let d = draw-lt draw (rand_factor s) (rand_factor-bounds s).0 in
    let p = +ℤ_parts s.current_term (pos (1 + draw % rand_factor s)) in
    let q = +ℤ_parts s.current_term (pos (rand_factor s)) in
    (
      c.same,
      c.state,
      c.voted_for,
      rw c.term (omega arith),
      rw c.term (omega arith),
      c.elapsed,
      omega arith,
      c.store,
    )
