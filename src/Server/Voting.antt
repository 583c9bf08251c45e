-- ===== src/Server/Voting.antt =====
-- Requests for votes, the answers to them, and counting.
pub mod Grants
pub mod Standing
pub mod Winning
pub mod Majority
pub mod Sharing
use cpp_raft.Base.{
  ℕ, suc, ◌+◌, ◌-◌, ◌≡◌, ℤ, pos, Bool, true, false, List, [], ◌∷◌, ◌||◌, ◌&&◌, not, ◌==◌, length,
  if◌then◌else◌, ◌+ℤ◌, ◌-ℤ◌, ltb_ℤ, leb_ℤ, eqb_ℤ, half_ℤ, to_nat,
}
use cpp_raft.Msg.{MsgRequestvote, MsgRequestvoteResponse, requestvote_response}
use cpp_raft.Node.{Ptr, null, RaftNode, set_votes_for_me}
use cpp_raft.Server.State.{Server, is_leader, vote, send, at_node}
use cpp_raft.Server.Election.{become_leader}

-- The loop over the nodes: one for each node but the own one whose answer was 1.
unfoldable pub granted : Server → List Ptr → ℕ
granted s [] = 0
granted s (p ∷ ps) =
    to_nat (not (p == s.this_node) && eqb_ℤ (s.store p).votes_for_me (pos 1)) + granted s ps

unfoldable pub get_nvotes_for_me : Server → ℕ
unfolding granted
get_nvotes_for_me s = granted s s.nodes + to_nat (s.voted_for == s.this_node)

unfoldable pub raft_votes_is_majority : ℤ → ℤ → Bool
unfolding ◌+ℤ◌ half_ℤ
raft_votes_is_majority num_nodes nvotes =
    if ltb_ℤ num_nodes nvotes then false else leb_ℤ (half_ℤ num_nodes +ℤ pos 1) nvotes

-- The refusal: an old term, a vote already given, or a longer log of its own.
refuses : Server → MsgRequestvote → Bool
refuses s vr =
    ltb_ℤ vr.term s.current_term || not (s.voted_for == null) || ltb_ℤ vr.last_log_idx s.current_idx

reply : Ptr → ℤ → Server → Server
unfolding send
reply p granted s =
    send p (requestvote_response (record { term = s.current_term; vote_granted = granted })) s

-- Returns 0 always.
unfoldable pub recv_requestvote : Ptr → MsgRequestvote → Server → Server
unfolding vote refuses reply
recv_requestvote p vr s =
    let t = if ltb_ℤ s.current_term vr.term then record s { voted_for = null } else s in
    if refuses t vr then reply p (pos 0) t else reply p (pos 1) (vote p t)

unfoldable pub recv_requestvote_response : Ptr → MsgRequestvoteResponse → Server → Server
unfolding ◌-ℤ◌
recv_requestvote_response p r s =
    if is_leader s.state
    then s
    else if eqb_ℤ r.vote_granted (pos 1)
    then (let t = at_node p (set_votes_for_me (pos 1)) s in
        if raft_votes_is_majority (pos (length t.nodes) -ℤ pos 1) (pos (get_nvotes_for_me t))
        then become_leader t
        else t)
    else at_node p (set_votes_for_me (pos 0)) s
