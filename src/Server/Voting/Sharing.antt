-- ===== src/Server/Voting/Sharing.antt =====
-- The voters of two servers that come to lead.
use cpp_raft.Base.{
  ◌==◌, if◌then◌else◌, to_nat, Bool-cases, length, has, eqb_ℤ, pos, ℕ, ◌+◌, ◌*◌, ◌<◌, ◌≡◌, refl,
  sym, ap, ◌∙◌, ◌≢◌, inl, inr, Bool, true, false, List, [], ◌∷◌, arith,
}
use cpp_raft.Sums.{times}
use cpp_raft.Msg.{MsgRequestvoteResponse}
use cpp_raft.Node.{Ptr}
use cpp_raft.Server.State.{Server, leader, at_node}
use cpp_raft.Server.Voting.{granted, get_nvotes_for_me, recv_requestvote_response}
use cpp_raft.Server.Voting.Winning.{noted, leads_iff}

-- Whether a server has the vote of a node: its own, or one that came as an answer.
abbrev pub has_vote : Server → Ptr → Bool
has_vote s p =
    if p == s.this_node then s.voted_for == s.this_node else eqb_ℤ (s.store p).votes_for_me (pos 1)

abbrev pub count : (Ptr → Bool) → List Ptr → ℕ
count f [] = 0
count f (p ∷ ps) = to_nat (f p) + count f ps

granted-others :
    (s : Server) (ps : List Ptr)
    → (s.voted_for == s.this_node) ≡ false
    → granted s ps ≡ count (has_vote s) ps
unfolding granted
granted-others s [] off = refl
granted-others s (p ∷ ps) off = elim (Bool-cases (p == s.this_node)) [
  | inl e ↦ rw (e, off) (omega (arith, granted-others s ps off))
  | inr e ↦
      rw e (ap (λ n. to_nat (eqb_ℤ (s.store p).votes_for_me (pos 1)) + n) (granted-others s ps off))
]

granted-own :
    (s : Server) (ps : List Ptr)
    → (s.voted_for == s.this_node) ≡ true
    → granted s ps + times s.this_node ps ≡ count (has_vote s) ps
unfolding granted
granted-own s [] on = refl
granted-own s (p ∷ ps) on = elim (Bool-cases (p == s.this_node)) [
  | inl e ↦
      let own : to_nat (s.this_node == p) ≡ 1 = ground (arith, e) in
      rw (e, on, own) (omega (arith, granted-own s ps on))
  | inr e ↦
      let own : to_nat (s.this_node == p) ≡ 0 = ground (arith, e) in
      rw (e, own) (omega (arith, granted-own s ps on))
]

-- The votes that a server counts are those of the nodes whose vote it has, if it is itself one of
-- the nodes.
votes-count :
    (s : Server) → times s.this_node s.nodes ≡ 1 → get_nvotes_for_me s ≡ count (has_vote s) s.nodes
unfolding get_nvotes_for_me
votes-count s once = elim (Bool-cases (s.voted_for == s.this_node)) [
  | inl on ↦ rw on (omega (arith, once, granted-own s s.nodes on))
  | inr off ↦ rw off (omega (arith, granted-others s s.nodes off))
]

-- A node of a list that two tests both take.
pub record Common (f g : Ptr → Bool) (ps : List Ptr) : Type 0 where
  pub node : Ptr
  pub is_node : has node ps ≡ true
  pub first : f node ≡ true
  pub second : g node ≡ true

more : {f g : Ptr → Bool} (p : Ptr) (ps : List Ptr) → Common f g ps → Common f g (p ∷ ps)
more p ps c = record {
  node = c.node;
  is_node = ground (arith, c.is_node);
  first = c.first;
  second = c.second;
}

both_count :
    (f g : Ptr → Bool) (ps : List Ptr) → length ps < count f ps + count g ps → Common f g ps
both_count f g [] h = absurd (omega (arith, h))
both_count f g (p ∷ ps) h = elim (Bool-cases (f p)) [
  | inl a ↦ elim (Bool-cases (g p)) [
    | inl b ↦ record { node = p; is_node = ground arith; first = a; second = b }
    | inr b ↦ more p ps (both_count f g ps (ground (arith, h, a, b)))
  ]
  | inr a ↦ more p ps (both_count f g ps (ground (arith, h, a)))
]

-- If the number of nodes is odd, two servers that know the same nodes by the same addresses, each of
-- them once one of the nodes, and that both come to lead by an answer that they get, have the vote of
-- the same node. Each knows it as
-- its own vote or as an answer that it has noted.
pub two_leaders_share :
    (p q : Ptr) (r r' : MsgRequestvoteResponse) (s s' : Server) (m : ℕ)
    → s.nodes ≡ s'.nodes
    → length s.nodes ≡ 2 * m + 1
    → times s.this_node s.nodes ≡ 1
    → times s'.this_node s'.nodes ≡ 1
    → s.state ≢ leader
    → s'.state ≢ leader
    → (recv_requestvote_response p r s).state ≡ leader
    → (recv_requestvote_response q r' s').state ≡ leader
    → Common (has_vote (noted p (pos 1) s)) (has_vote (noted q (pos 1) s')) s.nodes
unfolding at_node
two_leaders_share p q r r' s s' m same odd own own' follows follows' leads leads' =
    let size : length s'.nodes ≡ 2 * m + 1 = ap length (sym same) ∙ odd in
    let won = (leads_iff p r s (2 * m) follows (omega (arith, odd))).0 leads in
    let won' = (leads_iff q r' s' (2 * m) follows' (omega (arith, size))).0 leads' in
    let votes = votes-count (noted p (pos 1) s) own in
    let votes' =
      votes-count (noted q (pos 1) s') own'
      ∙ ap (count (has_vote (noted q (pos 1) s'))) (sym same) in
    both_count _ _ s.nodes (omega (arith, odd, won.2, won'.2, votes, votes'))
