-- ===== src/Server/Voting/Grants.antt =====
-- When a vote is granted.
use cpp_raft.Base.{
  if◌then◌else◌, ℤ, ◌≤ℤ◌, ◌<ℤ◌, ltb_ℤ, pos, ◌≡◌, sym, ap, ◌∙◌, ◌≢◌, ◌⊎◌, inl, inr, true, List, [],
  ◌∷◌, ◌++◌, arith,
}
use mathlib.Core.List.{append-nil, append_assoc}
use cpp_raft.Msg.{MsgRequestvote, Msg, requestvote_response}
use cpp_raft.Node.{Ptr, null}
use cpp_raft.Server.State.{Server, send}
use cpp_raft.Server.Voting.{recv_requestvote}

-- A vote in a term.
abbrev pub grant : ℤ → Msg
grant t = requestvote_response (record { term = t; vote_granted = pos 1 })

-- The conditions of the code: the candidate's term is not behind, no vote is given in a term that
-- is not behind the candidate's, and the candidate's log is not shorter.
pub record Grantable (s : Server) (vr : MsgRequestvote) : Type 0 where
  pub term : s.current_term ≤ℤ vr.term
  pub free : (s.voted_for ≡ null) ⊎ (s.current_term <ℤ vr.term)
  pub log : s.current_idx ≤ℤ vr.last_log_idx

-- A request that meets the conditions is answered by 1, and the vote goes to its sender; nothing
-- else changes, the current term included.
pub grants :
    (p : Ptr) (vr : MsgRequestvote) (s : Server)
    → Grantable s vr
    → recv_requestvote p vr s ≡ send p (grant s.current_term) (record s { voted_for = p })
unfolding recv_requestvote
grants p vr s g = ground arith

-- The vote is forgotten before the tests if the candidate's term is ahead.
abbrev pub forgotten : MsgRequestvote → Server → Server
forgotten vr s = if ltb_ℤ s.current_term vr.term then record s { voted_for = null } else s

-- A refusal in a term.
abbrev pub refusal : ℤ → Msg
refusal t = requestvote_response (record { term = t; vote_granted = pos 0 })

-- The three reasons to refuse.
abbrev pub Refusable : Server → MsgRequestvote → Type 0
Refusable s vr =
    (vr.term <ℤ s.current_term)
    ⊎ ((s.voted_for ≢ null) × (vr.term ≤ℤ s.current_term))
    ⊎ (vr.last_log_idx <ℤ s.current_idx)

-- A request that is behind in its term, that comes when a vote is given in a term not behind its
-- own, or whose log is shorter, is answered by 0. The term and the log stay; the vote is forgotten
-- exactly if the request's term is ahead.
pub refuses_otherwise :
    (p : Ptr) (vr : MsgRequestvote) (s : Server)
    → Refusable s vr
    → recv_requestvote p vr s ≡ send p (refusal s.current_term) (forgotten vr s)
unfolding recv_requestvote
refuses_otherwise p vr s h = ground arith

-- Requests in the order of arrival.
abbrev pub requests : List (Ptr × MsgRequestvote) → Server → Server
requests [] s = s
requests ((p, vr) ∷ rs) s = requests rs (recv_requestvote p vr s)

abbrev pub NoneAhead : ℤ → List (Ptr × MsgRequestvote) → Type 0
NoneAhead t [] = Unit
NoneAhead t ((p, vr) ∷ rs) = (vr.term ≤ℤ t) × NoneAhead t rs

abbrev pub refusals : ℤ → List (Ptr × MsgRequestvote) → List (Ptr × Msg)
refusals t [] = []
refusals t ((p, vr) ∷ rs) = (p, refusal t) ∷ refusals t rs

-- Once a vote is given, every request of a term that is not ahead is refused, however many come
-- and whoever sends them: the server changes in nothing but the messages it has sent.
pub one_vote_per_term :
    (rs : List (Ptr × MsgRequestvote)) (s : Server)
    → s.voted_for ≢ null
    → s.cb_send ≡ true
    → NoneAhead s.current_term rs
    → requests rs s ≡ record s { sent = s.sent ++ refusals s.current_term rs }
unfolding send
one_vote_per_term [] s v on h =
    ap (λ (m : List (Ptr × Msg)). record s { sent = m }) (sym (append-nil s.sent))
one_vote_per_term ((p, vr) ∷ rs) s v on (le, h) =
    let step : recv_requestvote p vr s
        ≡ record s { sent = s.sent ++ (p, refusal s.current_term) ∷ [] } =
      refuses_otherwise p vr s (inr (inl (v, le))) ∙ ground arith in
    ap (requests rs) step
    ∙ one_vote_per_term rs (record s { sent = s.sent ++ (p, refusal s.current_term) ∷ [] }) v on h
    ∙ ap (λ (m : List (Ptr × Msg)). record s { sent = m }) (append_assoc s.sent _ _)

-- The term of a request that is ahead is not adopted. So two requests whose terms are ahead, of the
-- same term or not, one after the other and from any two nodes, are both granted, if their logs are
-- not shorter and the server can send; the vote stays with the second.
pub double_vote :
    (p q : Ptr) (vr wr : MsgRequestvote) (s : Server)
    → s.current_term <ℤ vr.term
    → s.current_term <ℤ wr.term
    → s.current_idx ≤ℤ vr.last_log_idx
    → s.current_idx ≤ℤ wr.last_log_idx
    → s.cb_send ≡ true
    → requests ((p, vr) ∷ (q, wr) ∷ []) s ≡ record s {
      voted_for = q;
      sent = s.sent ++ (p, grant s.current_term) ∷ (q, grant s.current_term) ∷ [];
    }
unfolding send
double_vote p q vr wr s ahead ahead' longer longer' on =
    let g : Grantable s vr = record {
      term = omega arith;
      free = inr (omega arith);
      log = omega arith;
    } in
    let t = record s { voted_for = p; sent = s.sent ++ (p, grant s.current_term) ∷ [] } in
    let first : recv_requestvote p vr s ≡ t = grants p vr s g ∙ rw on in
    let g' : Grantable t wr = record { term = omega arith; free = inr ahead'; log = longer' } in
    let second : recv_requestvote q wr t
        ≡ record t { voted_for = q; sent = t.sent ++ (q, grant s.current_term) ∷ [] } =
      grants q wr t g' ∙ rw on in
    ap (recv_requestvote q wr) first
    ∙ second
    ∙ ap (λ (m : List (Ptr × Msg)). record s { voted_for = q; sent = m }) (append_assoc s.sent _ _)
