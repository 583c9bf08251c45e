-- ===== src/Server/Applying/Progress.antt =====
-- Appending and applying entries.
use cpp_raft.Base.{
  if◌then◌else◌, Bool-cases, length, get_elem?, drop, length-append, get_elem?-some, ℤ, ◌+ℤ◌, ◌≤ℤ◌,
  eqb_ℤ, eqb_ℤ→eq, ne→eqb_ℤ, +ℤ-pos, pos, ℕ, zero, suc, ◌+◌, ◌≤◌, ◌<◌, ◌≡◌, refl, sym, ap, ◌∙◌, ◌≢◌,
  ◌⊎◌, inl, inr, some, List, [], ◌∷◌, ◌++◌, arith,
}
use native.Mathlib.Numerals.{add-one}
use cpp_raft.Outcome
use native.Mathlib.Decide.{dec_lt}
use mathlib.Core.List.{append-nil, append_assoc}
use cpp_raft.Outcome.{no_such_log}
use cpp_raft.Msg.{RaftEntry}
use cpp_raft.Log.{Log, log_append_entry, log_get_from_idx}
use cpp_raft.Log.Laws.{get_from_idx-ok, get_from_idx-beyond}
use cpp_raft.Server.State.{Server, returns}
use cpp_raft.Server.Applying.{append_entry, advance, apply_entry, apply_all}

-- The current index is one past the number of entries.
abbrev pub IndexMatches : Server → Type 0
IndexMatches s = s.current_idx ≡ pos (suc (length s.log))

pub append_entry_none : (c : RaftEntry) (s : Server) → c.id ≡ pos 0 → append_entry c s ≡ (0, s)
unfolding append_entry log_append_entry
append_entry_none c s h = rw h

pub append_entry_some :
    (c : RaftEntry) (s : Server)
    → c.id ≢ pos 0
    → append_entry c s ≡ (
      1,
      record s {
        log = s.log ++ record c { num_nodes = pos 0 } ∷ [];
        current_idx = s.current_idx +ℤ pos 1;
      },
    )
unfolding append_entry log_append_entry
append_entry_some c s h = rw (ne→eqb_ℤ c.id (pos 0) h)

-- Appending keeps the current index one past the number of entries: an entry with an id other
-- than 0 goes to the end with its count of nodes reset and moves the index by one, an entry with
-- id 0 changes nothing.
pub append_entry-IndexMatches :
    (c : RaftEntry) (s : Server)
    → IndexMatches s
    → IndexMatches (append_entry c s).1
      × (append_entry c s ≡ (
          if eqb_ℤ c.id (pos 0) then (0, s) else (
            1,
            record s {
              log = s.log ++ record c { num_nodes = pos 0 } ∷ [];
              current_idx = s.current_idx +ℤ pos 1;
            },
          )))
append_entry-IndexMatches c s h = elim (Bool-cases (eqb_ℤ c.id (pos 0))) [
  | inl e ↦ rw (append_entry_none c s (eqb_ℤ→eq _ _ e), e) (h, refl)
  | inr e ↦
      rw (append_entry_some c s (λ p. ground arith), e)
        (rw (length-append, h, +ℤ-pos) (ap pos (omega arith)), refl)
]

-- The access to the entry behind the last one applied.
pub behind_log :
    (k : ℕ) (s : Server)
    → s.last_applied_idx ≡ pos k
    → length s.log ≤ k
    → log_get_from_idx s.log (s.last_applied_idx +ℤ pos 1) ≡ Outcome.throws no_such_log
behind_log k s h le =
    ap (λ (i : ℤ). log_get_from_idx s.log (i +ℤ pos 1)) h
    ∙ rw +ℤ-pos (get_from_idx-beyond s.log (k + 1) (omega arith))

pub next_entry :
    (k : ℕ) (s : Server) {e : RaftEntry}
    → s.last_applied_idx ≡ pos k
    → k < length s.log
    → get_elem? s.log k ≡ some e
    → log_get_from_idx s.log (s.last_applied_idx +ℤ pos 1) ≡ Outcome.ok e
next_entry k s h lt p =
    ap (λ (i : ℤ). log_get_from_idx s.log (i +ℤ pos 1)) h
    ∙ rw (+ℤ-pos, add-one) (get_from_idx-ok s.log k lt p)

-- The branches of `apply_entry`, by the last index applied.
pub apply-beyond :
    (s : Server) (k : ℕ)
    → s.last_applied_idx ≡ pos k
    → length s.log ≤ k
    → apply_entry s ≡ returns 0 s
unfolding apply_entry
apply-beyond s k h le = rw (apply_entry, behind_log k s h le)

pub apply-next :
    (s : Server) (k : ℕ) {e : RaftEntry}
    → s.last_applied_idx ≡ pos k
    → get_elem? s.log k ≡ some e
    → k < length s.log
    → apply_entry s ≡ returns 1 (advance e s)
unfolding apply_entry
apply-next s k {e} h p lt = rw (apply_entry, next_entry k s h lt p)

pub drop-get_elem? :
    {e : RaftEntry} (l : Log) (k : ℕ) → get_elem? l k ≡ some e → drop k l ≡ e ∷ drop (suc k) l
drop-get_elem? [] k h = ground arith
drop-get_elem? (x ∷ l) zero h = ground arith
drop-get_elem? (x ∷ l) (suc k) h = drop-get_elem? l k h

pub drop-length : (l : Log) (k : ℕ) → length l ≤ k → drop k l ≡ []
drop-length [] zero h = refl
drop-length [] (suc k) h = refl
drop-length (x ∷ l) zero h = absurd (omega arith)
drop-length (x ∷ l) (suc k) h = drop-length l k (omega arith)

-- The calls of `applylog` after those for some entries, if the callback is set.
abbrev pub handed : Server → List RaftEntry → List RaftEntry
handed s es = if s.cb_applylog then s.applied ++ es else s.applied

pub handed-nil : (s : Server) → s.applied ≡ handed s []
handed-nil s = elim (Bool-cases s.cb_applylog) [
  | inl on ↦ rw on (sym (append-nil s.applied))
  | inr off ↦ rw off refl
]

pub handed-cons :
    (e : RaftEntry) (es : List RaftEntry) (s : Server) → handed (advance e s) es ≡ handed s (e ∷ es)
unfolding advance
handed-cons e es s = elim (Bool-cases s.cb_applylog) [
  | inl on ↦ rw on (append_assoc s.applied (e ∷ []) es)
  | inr off ↦ rw off refl
]

-- `t` is `s` with the entries from position `k` on applied: they are handed to the callback in
-- order, the last index applied is that of the last entry, and the commit index does not fall, is
-- at least that index if there were such entries, and otherwise stays. Nothing else changes.
pub record AppliedFrom (k : ℕ) (s t : Server) : Type 0 where
  pub last : t.last_applied_idx ≡ pos (length s.log)
  pub calls : t.applied ≡ handed s (drop k s.log)
  pub grows : s.commit_idx ≤ℤ t.commit_idx
  pub reaches : (length s.log ≤ k) ⊎ (pos (length s.log) ≤ℤ t.commit_idx)
  pub only : (t.commit_idx ≡ s.commit_idx) ⊎ (t.commit_idx ≡ pos (length s.log))
  pub rest : t ≡ record s {
    last_applied_idx = t.last_applied_idx;
    commit_idx = t.commit_idx;
    applied = t.applied;
  }

nothing_left :
    (k : ℕ) (s : Server) → s.last_applied_idx ≡ pos k → k ≡ length s.log → AppliedFrom k s s
nothing_left k s h e = record {
  last = h ∙ ap pos e;
  calls = handed-nil s ∙ ap (handed s) (sym (drop-length s.log k (omega arith)));
  grows = omega arith;
  reaches = inl (omega arith);
  only = inl refl;
  rest = refl;
}

pub advance-commit :
    (k : ℕ) (e : RaftEntry) (s : Server)
    → s.last_applied_idx ≡ pos k
    → let c = (advance e s).commit_idx in
      (s.commit_idx ≤ℤ c) × (pos (suc k) ≤ℤ c) × ((c ≡ s.commit_idx) ⊎ (c ≡ pos (suc k)))
unfolding advance
advance-commit k e s h =
    let next : s.last_applied_idx +ℤ pos 1 ≡ pos (suc k) =
      ap (λ (i : ℤ). i +ℤ pos 1) h ∙ rw (+ℤ-pos, add-one) refl in
    ground (arith, next)

one_more :
    (k : ℕ) (e : RaftEntry) (s t : Server)
    → s.last_applied_idx ≡ pos k
    → k < length s.log
    → get_elem? s.log k ≡ some e
    → AppliedFrom (suc k) (advance e s) t
    → AppliedFrom k s t
unfolding advance
one_more k e s t h lt p a =
    let (up, least, was) = advance-commit k e s h in
    record {
      last = a.last;
      calls =
          a.calls
          ∙ handed-cons e (drop (suc k) s.log) s
          ∙ ap (handed s) (sym (drop-get_elem? s.log k p));
      grows = omega (arith, a.grows);
      reaches = inr (ground (arith, a.grows, a.reaches));
      only = ground (arith, a.only, a.reaches, a.grows);
      rest = a.rest;
    }

pub advance-last :
    (k : ℕ) (e : RaftEntry) (s : Server)
    → s.last_applied_idx ≡ pos k
    → (advance e s).last_applied_idx ≡ pos (suc k)
unfolding advance
advance-last k e s h = ap (λ (i : ℤ). i +ℤ pos 1) h ∙ rw (+ℤ-pos, add-one) refl

-- With fuel for each entry left, the loop ends, and has applied every entry of the log from the
-- last index applied on.
pub apply_all-end :
    (fuel k : ℕ) (s : Server)
    → s.last_applied_idx ≡ pos k
    → k ≤ length s.log
    → length s.log < k + fuel
    → (t : Server) × (apply_all fuel s ≡ returns tt t) × AppliedFrom k s t
unfolding apply_all advance
apply_all-end zero k s h le enough = absurd (omega arith)
apply_all-end (suc fuel) k s h le enough = elim (dec_lt k (length s.log)) [
  | no stop ↦
      (s, rw (apply_all, apply-beyond s k h (omega arith)), nothing_left k s h (omega arith))
  | yes lt ↦
      let (e, p) = get_elem?-some s.log k lt in
      let (t, run, a) =
        apply_all-end fuel (suc k) (advance e s) (advance-last k e s h) (omega arith)
          (omega arith) in
      (t, rw (apply_all, apply-next s k h p lt) run, one_more k e s t h lt p a)
]
