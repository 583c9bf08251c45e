-- ===== src/Server/Appending/Following.antt =====
-- What following the leader's commit index leaves as it was.
use cpp_raft.Base.{
  ◌^◌, ◌-◌, ◌<◌, Bool-cases, Option-cases, length, get_last?, pos_part, ◌<ℤ◌, ltb_ℤ, pos, ℕ, ◌≡◌,
  refl, ap, ◌⊎◌, inl, inr, false, none, arith,
}
use cpp_raft.Msg.{MsgAppendEntries}
use cpp_raft.Log.{log_peektail}
use cpp_raft.Server.State.{Server, returns}
use cpp_raft.Server.Appending.{follow_commit}
use cpp_raft.Server.Appending.Whole.{Whole, Carried}
use cpp_raft.Server.Appending.Committing.{Followed, follow_commit-end}
use cpp_raft.Server.Appending.Previous.{IdsFit-last, Sound, pos-eq}

-- How far an index of a log can go, so that the next one is an `int`.
abbrev pub max_index : ℕ
max_index = 2 ^ 31 - 1

-- A message whose entries have the bytes that they say, and a commit index that fits, for a server
-- whose log is as it should be, and not too long.
pub record Fitting (ae : MsgAppendEntries) (s : Server) : Type 0 where
  pub whole : Whole s.log
  pub carried : Carried ae.entries
  pub commit : ae.leader_commit <ℤ pos max_index
  pub short : length s.log < max_index

-- The last index applied has stayed, or the index behind it is an `int`.
abbrev pub Below : Server → Server → Type 0
Below s t = (t.last_applied_idx ≡ s.last_applied_idx) ⊎ (t.last_applied_idx <ℤ pos max_index)

-- Following the leader's commit index always returns, and changes no more than the two indices and
-- the entries applied.
pub record Follows (s t : Server) : Type 0 where
  pub term : t.current_term ≡ s.current_term
  pub state : t.state ≡ s.state
  pub log : t.log ≡ s.log
  pub last : Below s t

pub Followed-Follows :
    (m : ℕ) (s t : Server) → m < max_index → length s.log < max_index → Followed m s t → Follows s t
Followed-Follows m s t small short (inl (_, e)) = record {
  last = inr (ground (arith, small, ap (λ (u : Server). u.last_applied_idx) e));
  term = ap (λ (u : Server). u.current_term) e;
  state = ap (λ (u : Server). u.state) e;
  log = ap (λ (u : Server). u.log) e;
}
Followed-Follows m s t small short (inr (_, a)) = record {
  last = inr (ground (arith, short, a.last));
  term = ap (λ (u : Server). u.current_term) a.rest;
  state = ap (λ (u : Server). u.state) a.rest;
  log = ap (λ (u : Server). u.log) a.rest;
}

pub follow-idle :
    (ae : MsgAppendEntries) (s : Server)
    → (ltb_ℤ s.commit_idx ae.leader_commit ≡ false) ⊎ (get_last? s.log ≡ none)
    → follow_commit ae s ≡ returns tt s
unfolding follow_commit log_peektail
follow-idle ae s h = ground arith

pub followed :
    (ae : MsgAppendEntries) (s : Server)
    → Sound s
    → ae.leader_commit <ℤ pos max_index
    → length s.log < max_index
    → (t : Server) × (follow_commit ae s ≡ returns tt t) × Follows s t
followed ae s sound small short = elim (Bool-cases (ltb_ℤ s.commit_idx ae.leader_commit)) [
  | inr idle ↦ (
    s,
    follow-idle ae s (inl idle),
    record { term = refl; state = refl; log = refl; last = inl refl },
  )
  | inl behind ↦ elim (Option-cases (get_last? s.log)) [
    | inl empty ↦ (
      s,
      follow-idle ae s (inr empty),
      record { term = refl; state = refl; log = refl; last = inl refl },
    )
    | inr (e, last) ↦
        let lt : s.commit_idx <ℤ ae.leader_commit = ground arith in
        let (t, run, f) =
          follow_commit-end ae s (pos_part e.id) (pos_part ae.leader_commit) lt last
            (pos-eq e.id (IdsFit-last s.log sound.ids last))
            (pos-eq ae.leader_commit (ground (arith, sound.commit))) in
        (t, run, Followed-Follows _ s t (ground (arith, small, sound.commit)) short f)
  ]
]
