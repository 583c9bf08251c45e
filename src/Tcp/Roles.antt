-- ===== src/Tcp/Roles.antt =====
-- tcp/raft_tcp_server.cpp: the overridden `become_leader` and `become_candidate`, and the methods of
-- `RaftServer` that reach them by virtual calls.
use cpp_raft.Base.{
  ltb, ◌==◌, if◌then◌else◌, to_nat, length, ℤ, ◌+ℤ◌, ◌-ℤ◌, ltb_ℤ, leb_ℤ, eqb_ℤ, pos, ℕ, ◌+◌, ◌&&◌,
  List, [], ◌∷◌,
}
use cpp_raft.Msg.{MsgRequestvoteResponse}
use cpp_raft.Node.{Ptr, null, RaftNode, set_unable_to_vote, set_votes_for_me}
use cpp_raft.Server.State.{at_node, is_follower, is_leader, send_appendentries_all}
use cpp_raft.Server.Election.{
  become_leader as raft_become_leader, become_candidate as raft_become_candidate,
}
use cpp_raft.Server.Voting.{raft_votes_is_majority, get_nvotes_for_me}
use cpp_raft.Server.Applying.{apply_entry}
use cpp_raft.Tcp.Jobs.{add_internal_for_worker}
use cpp_raft.Tcp.Requests.{internal_become_leader}
use cpp_raft.Tcp.Sending.{call_raft, on_raft}
use cpp_raft.Tcp.State.{TcpServer, Action, None, ◌>>=◌, ◌>>◌, pure, modify, change_raft, returns}

unfoldable pub become_leader : ℕ → Action None
unfolding add_internal_for_worker call_raft raft_become_leader
become_leader now t =
    if t.leader_node == null
    then call_raft now raft_become_leader t
    else returns tt (add_internal_for_worker internal_become_leader null t)

unfoldable pub count_voters : (Ptr → RaftNode) → List Ptr → ℕ
count_voters store [] = 0
count_voters store (p ∷ ps) = to_nat ((store p).is_able_to_vote == 1) + count_voters store ps

-- The leader that is silent is no voter.
unfoldable pub exclude_leader : TcpServer → TcpServer
unfolding set_unable_to_vote
exclude_leader t =
    if t.leader_node == null then t else change_raft (at_node t.leader_node set_unable_to_vote) t

-- The two calls of the base class are the same. With less than two voters the server makes itself
-- the leader, by a job.
unfoldable pub become_candidate : ℕ → ℕ → ℕ → Action None
unfolding exclude_leader count_voters call_raft raft_become_candidate add_internal_for_worker
become_candidate now draw draw' t =
    let u = exclude_leader t in
    if ltb (count_voters u.raft.store u.raft.nodes) 2
    then (do
      call_raft now (raft_become_candidate draw draw')
      modify (add_internal_for_worker internal_become_leader null))
        u
    else call_raft now (raft_become_candidate draw draw') u

-- `RaftServer::recv_requestvote_response`
unfoldable pub recv_requestvote_response : ℕ → Ptr → MsgRequestvoteResponse → Action None
unfolding become_leader ◌-ℤ◌
recv_requestvote_response now p r t =
    if is_leader t.raft.state
    then returns tt t
    else if eqb_ℤ r.vote_granted (pos 1)
    then (let u = change_raft (at_node p (set_votes_for_me (pos 1))) t in
        if raft_votes_is_majority (pos (length u.raft.nodes) -ℤ pos 1)
          (pos (get_nvotes_for_me u.raft))
        then become_leader now u
        else returns tt u)
    else returns tt (change_raft (at_node p (set_votes_for_me (pos 0))) t)

-- The part of `RaftServer::periodic` behind the `switch`, with `election_start`.
unfoldable pub tick : ℕ → ℕ → ℕ → ℤ → Action None
unfolding call_raft send_appendentries_all become_candidate
tick now draw draw' msec t =
    let u = change_raft (λ s. record s { timeout_elapsed = s.timeout_elapsed +ℤ msec }) t in
    if is_leader u.raft.state
    then (if leb_ℤ u.raft.request_timeout u.raft.timeout_elapsed
        then (do
          call_raft now send_appendentries_all
          modify (change_raft (λ s. record s { timeout_elapsed = pos 0 })))
            u
        else returns tt u)
    else (if leb_ℤ u.raft.election_timeout u.raft.timeout_elapsed
        then become_candidate now draw draw' u
        else returns tt u)

-- `RaftServer::periodic`
unfoldable pub periodic : ℕ → ℕ → ℕ → ℤ → Action ℕ
unfolding on_raft tick
periodic now draw draw' msec t =
    if is_follower t.raft.state && ltb_ℤ t.raft.last_applied_idx t.raft.commit_idx
    then (do
      done ← on_raft now apply_entry
      if done == 0 then pure 0 else (do tick now draw draw' msec; pure 1))
        t
    else (do tick now draw draw' msec; pure 1) t
