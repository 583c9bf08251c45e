-- ===== src/Server/Voting/Standing.antt =====
-- The votes that a new candidate counts.
use cpp_raft.Base.{ℕ, ◌+◌, ◌≡◌, refl, List, [], ◌∷◌, arith}
use cpp_raft.Node.{Ptr}
use cpp_raft.Server.State.{Server}
use cpp_raft.Server.Election.{become_candidate}
use cpp_raft.Server.Election.Candidacy.{become_candidate-state}
use cpp_raft.Server.Voting.{granted, get_nvotes_for_me}

granted_congr :
    (s t : Server) (ps : List Ptr)
    → t.this_node ≡ s.this_node
    → t.store ≡ s.store
    → granted t ps ≡ granted s ps
unfolding granted
granted_congr s t [] h k = refl
granted_congr s t (p ∷ ps) h k = rw (h, k, granted_congr s t ps h k)

own_vote :
    (s t : Server)
    → t.this_node ≡ s.this_node
    → t.store ≡ s.store
    → t.nodes ≡ s.nodes
    → t.voted_for ≡ s.this_node
    → get_nvotes_for_me t ≡ granted s s.nodes + 1
unfolding get_nvotes_for_me
own_vote s t h k n v = rw (n, granted_congr s t s.nodes h k) (ground arith)

-- Becoming a candidate resets no answer: the votes it counts at once are its own and every vote
-- that a node still has from an earlier election.
pub candidate_keeps_old_votes :
    (draw draw' : ℕ) (s : Server)
    → get_nvotes_for_me (become_candidate draw draw' s) ≡ granted s s.nodes + 1
unfolding get_nvotes_for_me
candidate_keeps_old_votes draw draw' s =
    let (same, state, own, up, most, elapsed, below, store) = become_candidate-state draw draw' s in
    own_vote s (become_candidate draw draw' s) same.this_node store same.nodes own
