-- ===== src/Server/Appending/Previous.antt =====
-- What the check of the previous entry returns.
use native.Mathlib.Decide.{dec_lt}
use cpp_raft.Base.{
  ◌≤◌, if◌then◌else◌, Bool-cases, length, get_last?, take, get_elem?-some, ℤ, pos_part, neg_part,
  eqb_ℤ, eqb_ℤ→eq, pos, negsuc, ℕ, zero, suc, ◌≡◌, refl, ◌≢◌, inl, inr, Bool, true, false, some, [],
  ◌∷◌, arith,
}
use cpp_raft.Msg.{RaftEntry, MsgAppendEntries, has_any_logs}
use cpp_raft.Log.{Log}
use cpp_raft.Server.State.{Server, Run, returns}
use cpp_raft.Server.Appending.{check_prev}
use cpp_raft.Server.Appending.Whole.{Whole, Whole-take, length-take-le}
use cpp_raft.Server.Appending.Checking.{check-match, check-mismatch, check-beyond}

-- No id in the log is negative.
abbrev pub IdsFit : Log → Type 0
IdsFit [] = Unit
IdsFit (e ∷ l) = (neg_part e.id ≡ 0) × IdsFit l

pub IdsFit-take : (n : ℕ) (l : Log) → IdsFit l → IdsFit (take n l)
IdsFit-take zero l h = tt
IdsFit-take (suc n) [] h = tt
IdsFit-take (suc n) (e ∷ l) (h, hs) = (h, IdsFit-take n l hs)

pub IdsFit-last : (l : Log) {e : RaftEntry} → IdsFit l → get_last? l ≡ some e → neg_part e.id ≡ 0
IdsFit-last [] h p = ground arith
IdsFit-last (x ∷ []) (h, hs) p = ground arith
IdsFit-last (x ∷ y ∷ l) (h, hs) p = IdsFit-last (y ∷ l) hs p

-- What makes a server safe from the undefined access: neither its commit index nor an id in its log
-- is negative.
pub record Sound (s : Server) : Type 0 where
  pub commit : neg_part s.commit_idx ≡ 0
  pub ids : IdsFit s.log

pub pos-eq : (a : ℤ) → neg_part a ≡ 0 → a ≡ pos (pos_part a)
pos-eq a h = ground arith

-- What the check of the previous entry returns: a verdict, and the server with a log that still fits.
abbrev pub Verdict : Server → Run Bool → Type 0
Verdict s r =
    (b : Bool) × (l : Log) × (r ≡ returns b (record s { log = l }))
    × IdsFit l
    × Whole l
    × (length l ≤ length s.log)

pub checked-at :
    (ae : MsgAppendEntries) (s : Server) (x : ℤ)
    → IdsFit s.log
    → Whole s.log
    → ae.prev_log_idx ≡ x
    → x ≢ pos 0
    → Verdict s (check_prev ae s)
checked-at ae s (negsuc i) fit whole h ne =
    (false, s.log, check-beyond ae s i (inl h), fit, whole, omega arith)
checked-at ae s (pos zero) fit whole h ne = absurd (ne refl)
checked-at ae s (pos (suc i)) fit whole h ne = elim (dec_lt i (length s.log)) [
  | no out ↦
      (false, s.log, check-beyond ae s (suc i) (inr (h, omega arith)), fit, whole, omega arith)
  | yes lt ↦
      let (e, p) = get_elem?-some s.log i lt in
      elim (Bool-cases (eqb_ℤ e.term ae.prev_log_term)) [
        | inl same ↦ (
          true,
          take (suc i) s.log,
          check-match ae s i h lt p (eqb_ℤ→eq _ _ same),
          IdsFit-take (suc i) s.log fit,
          Whole-take (suc i) s.log whole,
          length-take-le (suc i) s.log,
        )
        | inr differs ↦ (
          false,
          s.log,
          check-mismatch ae s i h lt p (λ e. ground arith),
          fit,
          whole,
          omega arith,
        )
      ]
]

pub checked :
    (ae : MsgAppendEntries) (s : Server)
    → IdsFit s.log
    → Whole s.log
    → Verdict s (if has_any_logs ae then check_prev ae s else returns true s)
unfolding has_any_logs
checked ae s fit whole = elim (Bool-cases (eqb_ℤ ae.prev_log_idx (pos 0))) [
  | inl e ↦ rw e (true, s.log, refl, fit, whole, omega arith)
  | inr e ↦ rw e (checked-at ae s ae.prev_log_idx fit whole refl (λ z. ground arith))
]
