-- ===== src/Server/Appending/Whole.antt =====
-- The bytes of the entries of a log, and what taking over a message leaves as it was.
use mathlib.Core.Path.{subst}
use cpp_raft.Base.{
  ◌≤◌, ◌++◌, sym, to_int, length-take_le, if◌then◌else◌, Bool-cases, length, take, ℤ, eqb_ℤ,
  eqb_ℤ→eq, pos, ℕ, zero, suc, ◌≡◌, refl, inl, inr, List, [], ◌∷◌, arith,
}
use cpp_raft.Msg.{MsgEntry, RaftEntry, MsgAppendEntries, empty_entry, populate_from_msg_entry}
use cpp_raft.Node.{Ptr}
use cpp_raft.Log.{Log, log_append_entry}
use cpp_raft.Server.State.{is_candidate, Server, set_current_term, send}
use cpp_raft.Server.Election.{become_follower}
use cpp_raft.Server.Applying.{append_entry}
use cpp_raft.Server.Appending.{reply_failure, reply_success, append_all, accept}
use cpp_raft.Server.Applying.Progress.{append_entry_none}
use cpp_raft.Server.Appending.Accepting.{entry_of, append_one}

-- Each entry of a log has as many bytes as it says, and each of a message at least as many.
abbrev pub Whole : Log → Type 0
Whole [] = Unit
Whole (e ∷ l) = (length e.content ≡ e.len) × Whole l

abbrev pub Carried : List MsgEntry → Type 0
Carried [] = Unit
Carried (m ∷ ms) = (m.len ≤ length m.content) × Carried ms

pub Whole-take : (n : ℕ) (l : Log) → Whole l → Whole (take n l)
Whole-take zero l h = tt
Whole-take (suc n) [] h = tt
Whole-take (suc n) (e ∷ l) (h, hs) = (h, Whole-take n l hs)

pub length-take-le : (n : ℕ) (l : Log) → length (take n l) ≤ length l
length-take-le zero l = omega arith
length-take-le (suc n) [] = omega arith
length-take-le (suc n) (e ∷ l) = omega (arith, length-take-le n l)

pub Whole-append :
    (l : Log) (e : RaftEntry) → Whole l → length e.content ≡ e.len → Whole (l ++ e ∷ [])
Whole-append [] e h k = (k, tt)
Whole-append (x ∷ l) e (h, hs) k = (h, Whole-append l e hs k)

pub append_all-last :
    (ms : List MsgEntry) (s : Server) → (append_all ms s).1.last_applied_idx ≡ s.last_applied_idx
unfolding append_all append_entry log_append_entry populate_from_msg_entry
append_all-last [] s = refl
append_all-last (m ∷ ms) s = ground (
  arith,
  append_all-last ms
      (append_entry (populate_from_msg_entry (record empty_entry { term = s.current_term }) m) s).1,
)

pub append_all-Whole :
    (ms : List MsgEntry) (s : Server) → Carried ms → Whole s.log → Whole (append_all ms s).1.log
unfolding append_all populate_from_msg_entry
append_all-Whole [] s c h = h
append_all-Whole (m ∷ ms) s (c, cs) h = elim (Bool-cases (eqb_ℤ (to_int m.id) (pos 0))) [
  | inl e ↦ rw (append_entry_none (entry_of s.current_term m) s (eqb_ℤ→eq _ _ e)) h
  | inr e ↦ rw (append_one m s (λ z. ground (arith, e, z))) (
      append_all-Whole ms _ cs
        (Whole-append s.log (entry_of s.current_term m) h (length-take_le m.len m.content c)))
]

pub accept-last :
    (p : Ptr) (term : ℤ) (ae : MsgAppendEntries) (s : Server)
    → (accept p term ae s).last_applied_idx ≡ s.last_applied_idx
unfolding accept reply_failure reply_success send set_current_term become_follower
accept-last p term ae s =
    let t = if is_candidate s.state then become_follower s else s in
    ground (arith, append_all-last ae.entries (record t { current_term = ae.term }))

pub accept-log :
    (p : Ptr) (term : ℤ) (ae : MsgAppendEntries) (s : Server)
    → (accept p term ae s).log
      ≡ (append_all ae.entries (record (if is_candidate s.state then become_follower s else s) {
        current_term = ae.term;
      })).1.log
unfolding accept reply_failure reply_success send set_current_term become_follower
accept-log p term ae s = ground arith

pub accept-Whole :
    (p : Ptr) (term : ℤ) (ae : MsgAppendEntries) (s : Server)
    → Carried ae.entries
    → Whole s.log
    → Whole (accept p term ae s).log
unfolding become_follower
accept-Whole p term ae s c h =
    let t = if is_candidate s.state then become_follower s else s in
    let same : t.log ≡ s.log = ground arith in
    subst Whole (sym (accept-log p term ae s)) (
      append_all-Whole ae.entries (record t { current_term = ae.term }) c
        (subst Whole (sym same) h))

pub replied_log : (p : Ptr) (term : ℤ) (s : Server) → s.log ≡ (reply_failure p term s).log
unfolding reply_failure send
replied_log p term s = ground arith
