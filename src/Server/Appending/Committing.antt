-- ===== src/Server/Appending/Committing.antt =====
-- The commit index that a follower takes over.
use cpp_raft.Base.{
  ltb, if◌then◌else◌, length, get_last?, drop, ℤ, ◌+ℤ◌, ◌<ℤ◌, pos, negsuc, ℕ, suc, ◌≤◌, ◌<◌, ◌≡◌,
  refl, ap, ◌∙◌, ◌⊎◌, inl, inr, some, [], ◌∷◌, arith,
}
use native.Mathlib.Numerals.{add-two}
use native.Mathlib.Decide.{dec_lt}
use mathlib.Core.Path.{ap₂, subst}
use cpp_raft.Outcome
use cpp_raft.Msg.{RaftEntry, MsgAppendEntries}
use cpp_raft.Log.{Log, log_get_from_idx, log_peektail}
use cpp_raft.Log.Laws.{get_from_idx-zero}
use cpp_raft.Server.State.{Server, returns, undefined}
use cpp_raft.Server.Applying.{apply_entry, apply_all, apply_fuel}
use cpp_raft.Server.Applying.Progress.{apply-beyond, handed, AppliedFrom, apply_all-end}
use cpp_raft.Server.Appending.{min_ℤ, follow_commit}

-- The server with both indices set, before the loop.
abbrev pub moved : ℤ → Server → Server
moved i s = record s { commit_idx = i; last_applied_idx = i }

follow-run :
    (ae : MsgAppendEntries) (s : Server) {e : RaftEntry}
    → s.commit_idx <ℤ ae.leader_commit
    → get_last? s.log ≡ some e
    → follow_commit ae s ≡ apply_all (apply_fuel s) (moved (min_ℤ e.id ae.leader_commit) s)
unfolding follow_commit log_peektail
follow-run ae s behind last = ground arith

abbrev pub smaller : ℕ → ℕ → ℕ
smaller a b = if ltb a b then a else b

min-pos : (a b : ℕ) → min_ℤ (pos a) (pos b) ≡ pos (smaller a b)
unfolding min_ℤ
min-pos a b = ground arith

-- Past the log there is nothing to apply; else all that follows position `m` is.
abbrev pub Followed : ℕ → Server → Server → Type 0
Followed m s t =
    ((length s.log < m) × (t ≡ moved (pos m) s))
    ⊎ ((m ≤ length s.log) × AppliedFrom m (moved (pos m) s) t)

apply_moved :
    (m : ℕ) (s : Server)
    → (t : Server) × (apply_all (apply_fuel s) (moved (pos m) s) ≡ returns tt t) × Followed m s t
unfolding apply_all
apply_moved m s = elim (dec_lt (length s.log) m) [
  | yes lt ↦ (
    moved (pos m) s,
    rw (add-two, apply_all, apply-beyond (moved (pos m) s) m refl (omega arith)),
    inl (lt, refl),
  )
  | no le ↦
      let (t, run, a) =
        apply_all-end (apply_fuel s) m (moved (pos m) s) refl (omega arith) (omega arith) in
      (t, run, inr (omega arith, a))
]

-- A follower that is behind the leader's commit index, and whose last entry has an id that is not
-- negative, takes over the smaller of the two as its commit index and as the last index applied,
-- and then applies every entry behind it.
pub follow_commit-end :
    (ae : MsgAppendEntries) (s : Server) (i c : ℕ) {e : RaftEntry}
    → s.commit_idx <ℤ ae.leader_commit
    → get_last? s.log ≡ some e
    → e.id ≡ pos i
    → ae.leader_commit ≡ pos c
    → (t : Server) × (follow_commit ae s ≡ returns tt t) × Followed (smaller i c) s t
follow_commit-end ae s i c {e} behind last id lead =
    let (t, run, f) = apply_moved (smaller i c) s in
    let idx : min_ℤ e.id ae.leader_commit ≡ pos (smaller i c) = ap₂ min_ℤ id lead ∙ min-pos i c in
    (
      t,
      follow-run ae s behind last ∙ ap (λ (j : ℤ). apply_all (apply_fuel s) (moved j s)) idx ∙ run,
      f,
    )

-- A follower that is behind the leader's commit index, which is not negative, does not apply the
-- entries up to it, and applies those behind it: where its log is longer than the leader has
-- committed, and its last id is no smaller, it ends with the whole log committed, past what the
-- leader has committed.
pub commits_past_leader :
    (ae : MsgAppendEntries) (s : Server) (i c : ℕ) {e : RaftEntry}
    → s.commit_idx <ℤ ae.leader_commit
    → get_last? s.log ≡ some e
    → e.id ≡ pos i
    → ae.leader_commit ≡ pos c
    → c ≤ i
    → c < length s.log
    → (t : Server) × (follow_commit ae s ≡ returns tt t)
      × (t.commit_idx ≡ pos (length s.log))
      × (ae.leader_commit <ℤ t.commit_idx)
      × (t.applied ≡ handed s (drop c s.log))
commits_past_leader ae s i c behind last id lead le lt =
    let (t, run, f) = follow_commit-end ae s i c behind last id lead in
    let m : smaller i c ≡ c = ground arith in
    elim (subst (λ (k : ℕ). Followed k s t) m f) [
      | inl (out, _) ↦ absurd (omega arith)
      | inr (_, a) ↦
          let end : t.commit_idx ≡ pos (length s.log) = ground (arith, a.only, a.reaches) in
          (t, run, end, ground arith, a.calls)
    ]

get_from_idx-undefined :
    (l : Log) {e : RaftEntry}
    → get_last? l ≡ some e
    → log_get_from_idx l (negsuc 0 +ℤ pos 1) ≡ Outcome.undefined
unfolding ◌+ℤ◌
get_from_idx-undefined [] h = ground arith
get_from_idx-undefined (x ∷ l) h = get_from_idx-zero x l

apply_all-undefined :
    (fuel : ℕ) (s : Server) {e : RaftEntry}
    → get_last? s.log ≡ some e
    → s.last_applied_idx ≡ negsuc 0
    → apply_all (suc fuel) s ≡ undefined
unfolding apply_all apply_entry
apply_all-undefined fuel s h k =
    let bad : log_get_from_idx s.log (s.last_applied_idx +ℤ pos 1) ≡ Outcome.undefined =
      ap (λ (i : ℤ). log_get_from_idx s.log (i +ℤ pos 1)) k ∙ get_from_idx-undefined s.log h in
    rw (apply_all, apply_entry, bad)

-- The last index applied can become -1, where the access at index 0 is undefined: an entry whose
-- 32-bit id is the largest, as last entry of the log, with any commit index of the leader that is
-- ahead of one that is not negative.
pub follow_commit-undefined :
    (ae : MsgAppendEntries) (s : Server) (k : ℕ) {e : RaftEntry}
    → s.commit_idx ≡ pos k
    → s.commit_idx <ℤ ae.leader_commit
    → get_last? s.log ≡ some e
    → e.id ≡ negsuc 0
    → follow_commit ae s ≡ undefined
unfolding min_ℤ
follow_commit-undefined ae s k {e} behind lead last id =
    let idx : min_ℤ e.id ae.leader_commit ≡ negsuc 0 = ground arith in
    follow-run ae s lead last
    ∙ ap (λ (j : ℤ). apply_all (apply_fuel s) (moved j s)) idx
    ∙ rw add-two (apply_all-undefined (suc (length s.log)) (moved (negsuc 0) s) last refl)
