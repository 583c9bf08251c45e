-- ===== src/Server/Voting/Winning.antt =====
-- Answers to requests for votes.
use cpp_raft.Base.{
  length, ℤ, eqb_ℤ→eq, suc-sub-one, pos, ℕ, suc, ◌*◌, ◌≤◌, ◌<◌, ◌≡◌, ◌≢◌, ◌↔◌, arith,
}
use cpp_raft.Msg.{MsgRequestvoteResponse}
use cpp_raft.Node.{Ptr, set_votes_for_me}
use cpp_raft.Server.State.{Server, at_node, leader}
use cpp_raft.Server.Election.Roles.{become_leader-state}
use cpp_raft.Server.Voting.{get_nvotes_for_me, recv_requestvote_response}
use cpp_raft.Server.Voting.Majority.{majority_iff}

-- The server with the answer of a node noted down.
abbrev pub noted : Ptr → ℤ → Server → Server
noted p v s = at_node p (set_votes_for_me v) s

-- A server that does not lead yet leads after an answer exactly if the answer is a vote and, with
-- that vote noted, the votes are more than half of the nodes but one, and no more than those.
pub leads_iff :
    (p : Ptr) (r : MsgRequestvoteResponse) (s : Server) (n : ℕ)
    → s.state ≢ leader
    → length s.nodes ≡ suc n
    → ((recv_requestvote_response p r s).state ≡ leader) ↔ (
        (r.vote_granted ≡ pos 1)
        × (get_nvotes_for_me (noted p (pos 1) s) ≤ n)
        × (n < 2 * get_nvotes_for_me (noted p (pos 1) s)))
unfolding recv_requestvote_response at_node
leads_iff p r s n follows size =
    let t = noted p (pos 1) s in
    ground (
      arith,
      (become_leader-state t).1,
      majority_iff n (get_nvotes_for_me t),
      suc-sub-one n,
      eqb_ℤ→eq r.vote_granted (pos 1),
    )
