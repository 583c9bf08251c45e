-- ===== src/Server/Appending/Checking.antt =====
-- The check of the previous entry.
use cpp_raft.Base.{
  length, get_elem?, take, length-take_le, ℤ, ◌+ℤ◌, eqb_ℤ, ne→eqb_ℤ, +ℤ-pos, pos, negsuc, ℕ, suc,
  ◌<◌, ◌≡◌, ap, ◌∙◌, ◌≢◌, ◌⊎◌, inl, inr, true, false, some, arith,
}
use native.Mathlib.Numerals.{add-one}
use cpp_raft.Outcome
use cpp_raft.Msg.{RaftEntry, MsgAppendEntries}
use cpp_raft.Log.{log_get_from_idx, log_delete}
use cpp_raft.Log.Laws.{get_from_idx-ok, get_from_idx-beyond, get_from_idx-neg, delete-ok}
use cpp_raft.Server.State.{Server, returns}
use cpp_raft.Server.Applying.Progress.{IndexMatches}
use cpp_raft.Server.Appending.{check_prev}

-- A previous entry that the log has, with the term that the message says, is kept together with
-- all before it, and what follows it is deleted, whether it conflicts or not.
pub check-match :
    (ae : MsgAppendEntries) (s : Server) (i : ℕ) {e : RaftEntry}
    → ae.prev_log_idx ≡ pos (suc i)
    → i < length s.log
    → get_elem? s.log i ≡ some e
    → e.term ≡ ae.prev_log_term
    → check_prev ae s ≡ returns true (record s { log = take (suc i) s.log })
unfolding check_prev
check-match ae s i {e} h lt p same =
    let got : log_get_from_idx s.log ae.prev_log_idx ≡ Outcome.ok e =
      ap (log_get_from_idx s.log) h ∙ get_from_idx-ok s.log i lt p in
    let cut : log_delete s.log (ae.prev_log_idx +ℤ pos 1) ≡ Outcome.ok (take (suc i) s.log) =
      ap (λ (j : ℤ). log_delete s.log (j +ℤ pos 1)) h
      ∙ rw (+ℤ-pos, add-one) (delete-ok s.log (suc i) (omega arith)) in
    let eq : eqb_ℤ e.term ae.prev_log_term ≡ true = rw same (ground arith) in
    rw (check_prev, got, eq, cut)

-- Another term at that place is refused, and the log stays.
pub check-mismatch :
    (ae : MsgAppendEntries) (s : Server) (i : ℕ) {e : RaftEntry}
    → ae.prev_log_idx ≡ pos (suc i)
    → i < length s.log
    → get_elem? s.log i ≡ some e
    → e.term ≢ ae.prev_log_term
    → check_prev ae s ≡ returns false s
unfolding check_prev
check-mismatch ae s i {e} h lt p differs =
    let got : log_get_from_idx s.log ae.prev_log_idx ≡ Outcome.ok e =
      ap (log_get_from_idx s.log) h ∙ get_from_idx-ok s.log i lt p in
    rw (check_prev, got, ne→eqb_ℤ e.term ae.prev_log_term differs)

-- So is a previous index behind the log, or below 0.
pub check-beyond :
    (ae : MsgAppendEntries) (s : Server) (i : ℕ)
    → (ae.prev_log_idx ≡ negsuc i) ⊎ ((ae.prev_log_idx ≡ pos i) × (length s.log < i))
    → check_prev ae s ≡ returns false s
unfolding check_prev
check-beyond ae s i (inl h) =
    rw (check_prev, ap (log_get_from_idx s.log) h, get_from_idx-neg s.log i)
check-beyond ae s i (inr (h, lt)) =
    rw (check_prev, ap (log_get_from_idx s.log) h, get_from_idx-beyond s.log i lt)

-- Deleting does not move the current index: if it was one past the number of entries, and the
-- previous entry of an accepted message is not the last, it is so no more.
pub check_breaks_index :
    (ae : MsgAppendEntries) (s : Server) (i : ℕ) {e : RaftEntry}
    → IndexMatches s
    → ae.prev_log_idx ≡ pos (suc i)
    → suc i < length s.log
    → get_elem? s.log i ≡ some e
    → e.term ≡ ae.prev_log_term
    → (t : Server) × (check_prev ae s ≡ returns true t) × (¬ IndexMatches t)
check_breaks_index ae s i m h lt p same = (
  record s { log = take (suc i) s.log },
  check-match ae s i h (omega arith) p same,
  λ n.
      let short : length (take (suc i) s.log) ≡ suc i =
        length-take_le (suc i) s.log (omega arith) in
      ground (arith, short),
)
