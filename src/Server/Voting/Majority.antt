-- ===== src/Server/Voting/Majority.antt =====
-- The majority test, and the count of the votes.
use cpp_raft.Base.{
  ℕ, ◌*◌, ◌≤◌, ◌<◌, ◌≡◌, ◌↔◌, pos, negsuc, true, false, List, [], ◌∷◌, ◌+ℤ◌, half_ℤ, arith, length,
  has,
}
use cpp_raft.Node.{Ptr}
use cpp_raft.Server.State.{Server}
use cpp_raft.Server.Voting.{granted, get_nvotes_for_me, raft_votes_is_majority}

-- For counts that are not negative the test holds exactly if the votes are no more than the nodes
-- and more than half of them.
pub majority_iff :
    (n v : ℕ) → (raft_votes_is_majority (pos n) (pos v) ≡ true) ↔ ((v ≤ n) × (n < 2 * v))
unfolding raft_votes_is_majority half_ℤ ◌+ℤ◌
majority_iff n v = ground arith

-- With no node but a negative count no number of votes is a majority.
pub majority_negative : (n v : ℕ) → raft_votes_is_majority (negsuc n) (pos v) ≡ false
unfolding raft_votes_is_majority half_ℤ ◌+ℤ◌
majority_negative n v = ground arith

granted-le : (s : Server) (ps : List Ptr) → granted s ps ≤ length ps
unfolding granted
granted-le s [] = omega arith
granted-le s (p ∷ ps) = ground (arith, granted-le s ps)

granted-lt : (s : Server) (ps : List Ptr) → has s.this_node ps ≡ true → granted s ps < length ps
unfolding granted
granted-lt s [] h = ground arith
granted-lt s (p ∷ ps) h = ground (arith, granted-le s ps, granted-lt s ps)

-- The votes are never more than the nodes of the cluster, provided that the own node is one.
pub nvotes-le-nodes :
    (s : Server) → has s.this_node s.nodes ≡ true → get_nvotes_for_me s ≤ length s.nodes
unfolding get_nvotes_for_me
nvotes-le-nodes s h = ground (arith, granted-lt s s.nodes)
