-- ===== src/Tests/Votes.antt =====
-- Voting on a cluster of three nodes.
use cpp_raft.Base.{pos, ◌*◌, ◌≤◌, ◌<◌, ◌≡◌, refl, ◌↔◌, [], ◌∷◌, ◌++◌, arith}
use cpp_raft.Msg.{MsgRequestvoteResponse}
use cpp_raft.Node.{new_node, set_votes_for_me}
use cpp_raft.Server.State.{Server, new_server, update, at_node, for_nodes, candidate, leader}
use cpp_raft.Server.Voting.{
  granted, get_nvotes_for_me, raft_votes_is_majority, recv_requestvote_response,
}
use cpp_raft.Server.Voting.Sharing.{Common, has_vote, two_leaders_share}
use cpp_raft.Server.Voting.Grants.{grant, requests, refusals, one_vote_per_term, double_vote}
use cpp_raft.Server.Voting.Winning.{noted, leads_iff}
use cpp_raft.Server.Election.{become_leader}
use cpp_raft.Tests.{logged, a_request}

abbrev voted : Server
voted = record logged { voted_for = 11 }

one_vote_per_term_example :
    requests ((12, a_request 2 9) ∷ (11, a_request 1 9) ∷ []) voted ≡ record voted {
      sent = voted.sent ++ refusals (pos 2) ((12, a_request 2 9) ∷ (11, a_request 1 9) ∷ []);
    }
unfolding new_server
one_vote_per_term_example =
    one_vote_per_term ((12, a_request 2 9) ∷ (11, a_request 1 9) ∷ []) voted (omega arith) refl
      (omega arith, (omega arith, tt))

double_vote_example :
    requests ((11, a_request 3 4) ∷ (12, a_request 3 9) ∷ []) logged
    ≡ record logged { voted_for = 12; sent = [] ++ (11, grant (pos 2)) ∷ (12, grant (pos 2)) ∷ [] }
unfolding new_server
double_vote_example =
    double_vote 11 12 (a_request 3 4) (a_request 3 9) logged (omega arith) (omega arith)
      (omega arith) (omega arith) refl

abbrev standing : Server
standing = record logged { state = candidate; voted_for = 10 }

leads_iff_example :
    ((recv_requestvote_response 11 (record { term = pos 2; vote_granted = pos 1 }) standing).state
      ≡ leader)
    ↔ ((pos 1 ≡ pos 1)
        × (get_nvotes_for_me (noted 11 (pos 1) standing) ≤ 2)
        × (2 < 2 * get_nvotes_for_me (noted 11 (pos 1) standing)))
leads_iff_example =
    leads_iff 11 (record { term = pos 2; vote_granted = pos 1 }) standing 2 (ground arith) refl

-- One answer besides the own vote is enough among three nodes.
wins :
    (recv_requestvote_response 11 (record { term = pos 2; vote_granted = pos 1 }) standing).state
    ≡ leader
unfolding recv_requestvote_response new_server raft_votes_is_majority get_nvotes_for_me
    become_leader for_nodes granted at_node update new_node set_votes_for_me
wins = refl

-- The node 12 stands too, and has the vote of the node 11 as well.
abbrev other_standing : Server
other_standing = record standing { this_node = 12; voted_for = 12 }

abbrev granted_vote : MsgRequestvoteResponse
granted_vote = record { term = pos 2; vote_granted = pos 1 }

other_wins : (recv_requestvote_response 11 granted_vote other_standing).state ≡ leader
unfolding recv_requestvote_response new_server raft_votes_is_majority get_nvotes_for_me
    become_leader for_nodes granted at_node update new_node set_votes_for_me
other_wins = refl

two_leaders_share_example :
    Common
      (has_vote (noted 11 (pos 1) standing))
      (has_vote (noted 11 (pos 1) other_standing))
      (10 ∷ 11 ∷ 12 ∷ [])
unfolding new_server
two_leaders_share_example =
    two_leaders_share 11 11 granted_vote granted_vote standing other_standing 1 refl refl refl refl
      (ground arith) (ground arith) wins other_wins

-- With a fourth node two servers can lead without a common voter.
abbrev of_four : Server → Server
of_four s = record s { nodes = 10 ∷ 11 ∷ 12 ∷ 13 ∷ [] }

split :
    ((recv_requestvote_response 11 granted_vote (of_four standing)).state ≡ leader)
    × ((recv_requestvote_response 13 granted_vote (of_four other_standing)).state ≡ leader)
unfolding recv_requestvote_response new_server raft_votes_is_majority get_nvotes_for_me
    become_leader for_nodes granted at_node update new_node set_votes_for_me
split = (refl, refl)
