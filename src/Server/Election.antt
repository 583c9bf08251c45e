-- ===== src/Server/Election.antt =====
-- The changes of role. `draw` and `draw'` are the two results of `rand()`.
pub mod Roles
pub mod Candidacy
use cpp_raft.Base.{ℕ, ◌+◌, ◌%◌, ◌≡◌, ℤ, pos, Bool, true, false, ltb, length, if◌then◌else◌, ◌+ℤ◌}
use cpp_raft.Node.{Ptr, null, set_next_idx}
use cpp_raft.Server.State.{
  Server, follower, candidate, leader, vote, at_node, for_all_nodes_except_self, send_requestvote,
  send_appendentries,
}

-- The λ that `become_leader` hands to the loop.
unfoldable pub lead_node : Ptr → Server → Server
unfolding at_node set_next_idx send_appendentries
lead_node p s = send_appendentries p (at_node p (set_next_idx (s.current_idx +ℤ pos 1)) s)

unfoldable pub become_leader : Server → Server
unfolding for_all_nodes_except_self lead_node
become_leader s =
    for_all_nodes_except_self lead_node true (record s { state = leader; voted_for = null })

abbrev pub minimum_rand_factor : ℕ
minimum_rand_factor = 6

unfoldable pub rand_factor : Server → ℕ
rand_factor s =
    if ltb minimum_rand_factor (length s.nodes) then length s.nodes else minimum_rand_factor

unfoldable pub become_candidate : ℕ → ℕ → Server → Server
unfolding rand_factor vote for_all_nodes_except_self send_requestvote
become_candidate draw draw' s =
    let t = record s { current_term = s.current_term +ℤ pos (1 + draw % rand_factor s) } in
    let u = record (vote t.this_node t) {
      state = candidate;
      timeout_elapsed = pos (draw' % 500);
    } in
    for_all_nodes_except_self send_requestvote true u

unfoldable pub become_follower : Server → Server
become_follower s = record s { state = follower; voted_for = null }

unfoldable pub election_start : ℕ → ℕ → Server → Server
unfolding become_candidate
election_start = become_candidate
