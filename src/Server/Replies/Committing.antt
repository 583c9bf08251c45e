-- ===== src/Server/Replies/Committing.antt =====
-- What a leader commits on an answer.
use native.Mathlib.Decide.{dec_lt}
use cpp_raft.Base.{
  ◌*◌, ◌/◌, Bool-cases, length, get_elem?, drop, get_elem?-some, ℤ, ◌<ℤ◌, eqb_ℤ→eq, ◌≤ℤ◌, ltb_ℤ,
  eqb_ℤ, pos, ℕ, zero, suc, ◌+◌, ◌≤◌, ◌<◌, ◌≡◌, refl, sym, ap, ◌∙◌, inl, inr, true, false, some,
  List, [], ◌∷◌, ◌++◌, arith,
}
use cpp_raft.Outcome.{no_such_log}
use cpp_raft.Msg.{RaftEntry}
use cpp_raft.Log.{Log}
use cpp_raft.Server.State.{Server, Run, returns, throws}
use cpp_raft.Server.Applying.{advance}
use cpp_raft.Server.Applying.Progress.{
  behind_log, next_entry, apply-next, drop-get_elem?, handed, handed-nil, handed-cons,
  advance-commit, advance-last,
}
use cpp_raft.Server.Replies.{is_replicated, commit_loop}

-- Every entry is counted on half of the nodes, rounded down: of n nodes it is on k, with n at most
-- 2 k + 1.
abbrev pub Replicated : Server → List RaftEntry → Type 0
Replicated s [] = Unit
Replicated s (e ∷ es) =
    ((k : ℕ) × (pos k ≤ℤ e.num_nodes) × (length s.nodes ≤ 2 * k + 1)) × Replicated s es

half_of :
    (s : Server) (num_nodes : ℤ)
    → is_replicated s num_nodes ≡ true
    → (k : ℕ) × (pos k ≤ℤ num_nodes) × (length s.nodes ≤ 2 * k + 1)
unfolding is_replicated
half_of s num_nodes h = (length s.nodes / 2, ground arith, omega arith)

-- `t` is `s` with the next entries behind position `k` applied, each replicated, and nothing else.
pub record CommitsFrom (k : ℕ) (s t : Server) : Type 0 where
  pub new : List RaftEntry
  pub within : new ++ drop (k + length new) s.log ≡ drop k s.log
  pub replicated : Replicated s new
  pub last : t.last_applied_idx ≡ pos (k + length new)
  pub calls : t.applied ≡ handed s new
  pub grows : s.commit_idx ≤ℤ t.commit_idx
  pub log : t.log ≡ s.log

-- Why the loop returns: the commit index has come to the one that was answered, the next entry is
-- counted on too few nodes, or the last entry applied has the id that was answered.
pub data Settled (current : ℤ) (t : Server) : Type 0 where
  reached : current ≤ℤ t.commit_idx → Settled current t
  too_few :
      (e : RaftEntry) (n : ℕ)
      → t.last_applied_idx ≡ pos n
      → get_elem? t.log n ≡ some e
      → e.num_nodes <ℤ pos (length t.nodes / 2)
      → Settled current t
  found :
      (e : RaftEntry) (n : ℕ)
      → t.last_applied_idx ≡ pos (suc n)
      → get_elem? t.log n ≡ some e
      → e.id ≡ current
      → Settled current t

-- The loop ends by returning, or, when the whole log is applied and the commit index is still below
-- the one that was answered, by the exception of an access behind the log.
pub data Commits (current : ℤ) (k : ℕ) (s : Server) : Run (Unit {0}) → Type 0 where
  commits :
      {t : Server} → CommitsFrom k s t → Settled current t → Commits current k s (returns tt t)
  breaks :
      {t : Server}
      → CommitsFrom k s t
      → t.last_applied_idx ≡ pos (length t.log)
      → t.commit_idx <ℤ current
      → Commits current k s (throws no_such_log t)

-- The test of the code fails.
few_nodes :
    (s : Server) (num_nodes : ℤ)
    → is_replicated s num_nodes ≡ false
    → num_nodes <ℤ pos (length s.nodes / 2)
unfolding is_replicated
few_nodes s num_nodes h = ground arith

stays : (k : ℕ) (s : Server) → s.last_applied_idx ≡ pos k → CommitsFrom k s s
stays k s h = record {
  new = [];
  within = ap (λ (n : ℕ). drop n s.log) (omega arith);
  replicated = tt;
  last = h ∙ ap pos (omega arith);
  calls = handed-nil s;
  grows = omega arith;
  log = refl;
}

Replicated-advance :
    (e : RaftEntry) (s : Server) (es : List RaftEntry)
    → Replicated (advance e s) es
    → Replicated s es
unfolding advance is_replicated
Replicated-advance e s [] h = tt
Replicated-advance e s (x ∷ es) (h, hs) = (h, Replicated-advance e s es hs)

goes_on :
    (k : ℕ) (e : RaftEntry) (s t : Server)
    → s.last_applied_idx ≡ pos k
    → get_elem? s.log k ≡ some e
    → is_replicated s e.num_nodes ≡ true
    → CommitsFrom (suc k) (advance e s) t
    → CommitsFrom k s t
unfolding advance
goes_on k e s t h p r c =
    let (up, least, was) = advance-commit k e s h in
    record {
      new = e ∷ c.new;
      within =
          ap (λ (n : ℕ). e ∷ c.new ++ drop n s.log) (omega arith)
          ∙ ap (λ (l : Log). e ∷ l) c.within
          ∙ sym (drop-get_elem? s.log k p);
      replicated = (half_of s e.num_nodes r, Replicated-advance e s c.new c.replicated);
      last = c.last ∙ ap pos (omega arith);
      calls = c.calls ∙ handed-cons e c.new s;
      grows = omega (arith, c.grows);
      log = c.log;
    }

Commits-goes_on :
    (current : ℤ) (k : ℕ) (e : RaftEntry) (s : Server) {r : Run (Unit {0})}
    → s.last_applied_idx ≡ pos k
    → get_elem? s.log k ≡ some e
    → is_replicated s e.num_nodes ≡ true
    → Commits current (suc k) (advance e s) r
    → Commits current k s r
Commits-goes_on current k e s h p r (commits {t} c why) = commits (goes_on k e s t h p r c) why
Commits-goes_on current k e s h p r (breaks {t} c end below) =
    breaks (goes_on k e s t h p r c) end below

-- The loop ends, by returning or by the exception of an access behind the log, with the fuel that
-- it is given: it applies a run of entries that follow the last one applied, in order, and every
-- one of them is counted on half of the nodes at least, rounded down. The commit index does not
-- fall. It returns only when the commit index has come to the one that was answered, when the next
-- entry is counted on fewer nodes, or when the last entry applied has the id that was answered; the
-- exception comes when the whole log is applied and the commit index is still lower.
pub commit_loop-Commits :
    (fuel k : ℕ) (current : ℤ) (s : Server)
    → s.last_applied_idx ≡ pos k
    → k ≤ length s.log
    → length s.log < k + fuel
    → Commits current k s (commit_loop fuel current s)
unfolding commit_loop advance
commit_loop-Commits zero k current s h le enough = absurd (omega arith)
commit_loop-Commits (suc fuel) k current s h le enough =
    elim (Bool-cases (ltb_ℤ s.commit_idx current)) [
      | inr done ↦ rw (commit_loop, done) (commits (stays k s h) (reached (ground arith)))
      | inl behind ↦ elim (dec_lt k (length s.log)) [
        | no end ↦
            rw (commit_loop, behind, behind_log k s h (omega arith))
              (breaks (stays k s h) (h ∙ ap pos (omega arith)) (ground arith))
        | yes lt ↦
            let (e, p) = get_elem?-some s.log k lt in
            elim (Bool-cases (is_replicated s e.num_nodes)) [
              | inr few ↦
                  rw (commit_loop, behind, next_entry k s h lt p, few)
                    (commits (stays k s h) (too_few e k h p (few_nodes s e.num_nodes few)))
              | inl many ↦
                  rw (commit_loop, behind, next_entry k s h lt p, many, apply-next s k h p lt)
                    (Commits-goes_on current k e s h p many
                      (elim (Bool-cases (eqb_ℤ e.id current)) [
                        | inl eq ↦ rw eq (
                            commits (stays (suc k) (advance e s) (advance-last k e s h))
                              (found e k (advance-last k e s h) p (eqb_ℤ→eq e.id current eq)))
                        | inr ne ↦ rw ne (
                            commit_loop-Commits fuel (suc k) current (advance e s)
                              (advance-last k e s h) (omega arith) (omega arith))
                      ]))
            ]
      ]
    ]
