-- ===== src/Server/Replies/Marking.antt =====
-- Counting the nodes that have an entry.
use mathlib.Core.Path.{subst, ap₂}
use native.Mathlib.Decide.{dec_lt, ℕ_discrete}
use native.Mathlib.Numerals.{add-one}
use cpp_raft.Base.{
  ltb, leb, length, get_elem?, get_elem?-some, ℤ, pos_part, ◌+ℤ◌, ◌-ℤ◌, +ℤ-pos, -ℤ-pos, pos, ℕ,
  zero, suc, ◌+◌, ◌-◌, ◌≤◌, ◌<◌, ◌≡◌, refl, ap, ◌∙◌, ◌≢◌, Bool, true, ◌&&◌, Option, some, arith,
}
use cpp_raft.Outcome
use cpp_raft.Outcome.{Fault, no_such_log}
use cpp_raft.Msg.{RaftEntry, MsgAppendentriesResponse}
use cpp_raft.Log.{Log, log_mark_node_has_committed}
use cpp_raft.Log.Laws.{get_from_idx-beyond, mark_get}
use cpp_raft.Node.{Ptr, set_next_idx}
use cpp_raft.Server.State.{Server, at_node, returns, throws}
use cpp_raft.Server.Applying.Progress.{IndexMatches}
use cpp_raft.Server.Replies.{mark_loop, mark_and_commit, recv_appendentries_response}

-- An entry that one more node has.
abbrev pub counted : RaftEntry → RaftEntry
counted e = record e { num_nodes = e.num_nodes +ℤ pos 1 }

abbrev pub counted? : Bool → Option RaftEntry → Option RaftEntry
counted? true (some e) = some (counted e)
counted? _ o = o

mark-beyond :
    (l : Log) (i : ℕ)
    → length l ≤ i
    → log_mark_node_has_committed l (pos (suc i)) ≡ Outcome.throws no_such_log
unfolding log_mark_node_has_committed
mark-beyond l i h = rw (log_mark_node_has_committed, get_from_idx-beyond l (suc i) (omega arith))

counts_step :
    (i n j : ℕ) {e : RaftEntry} (l l' start : Log)
    → get_elem? start i ≡ some e
    → get_elem? l i ≡ some (counted e)
    → (i ≢ j → get_elem? l j ≡ get_elem? start j)
    → get_elem? l' j ≡ counted? (leb (suc i) j && ltb j (suc i + n)) (get_elem? l j)
    → get_elem? l' j ≡ counted? (leb i j && ltb j (i + suc n)) (get_elem? start j)
counts_step i n j {e} l l' start old new others rest = elim (ℕ_discrete i j) [
  | yes same ↦
      let old' : get_elem? start j ≡ some e =
        subst (λ (k : ℕ). get_elem? start k ≡ some e) same old in
      let new' : get_elem? l j ≡ some (counted e) =
        subst (λ (k : ℕ). get_elem? l k ≡ some (counted e)) same new in
      rest ∙ rw (new', old') (ground arith)
  | no ne ↦ rest ∙ rw (others ne) (ap (λ (b : Bool). counted? b (get_elem? start j)) (ground arith))
]

-- Within the log the loop counts one more node for each position from `i` on, `n` of them, and
-- changes nothing else.
pub mark_loop-counts :
    (n i : ℕ) (s : Server)
    → i + n ≤ length s.log
    → (l : Log) × (mark_loop n (pos (suc i)) s ≡ returns tt (record s { log = l }))
      × (length l ≡ length s.log)
      × ((j : ℕ) → get_elem? l j ≡ counted? (leb i j && ltb j (i + n)) (get_elem? s.log j))
unfolding mark_loop
mark_loop-counts zero i s h = (s.log, refl, refl, λ j. ground arith)
mark_loop-counts (suc n) i s h =
    let (e, p) = get_elem?-some s.log i (omega arith) in
    let (l, run, size, at_i, others) = mark_get s.log i (omega arith) p in
    let (l', run', size', rest) = mark_loop-counts n (suc i) (record s { log = l }) (omega arith) in
    (
      l',
      rw (mark_loop, run, +ℤ-pos, add-one) run',
      size' ∙ size,
      λ j. counts_step i n j l l' s.log p at_i (others j) (rest j),
    )

-- If the loop goes behind the log it ends with the exception of the access there, which nothing
-- catches; what it has counted until then stays counted.
pub mark_loop_throws :
    (n i : ℕ) (s : Server)
    → i ≤ length s.log
    → length s.log < i + n
    → (t : Server) × (mark_loop n (pos (suc i)) s ≡ throws no_such_log t)
unfolding mark_loop
mark_loop_throws zero i s le h = absurd (omega arith)
mark_loop_throws (suc n) i s le h = elim (dec_lt i (length s.log)) [
  | no out ↦ (s, rw (mark_loop, mark-beyond s.log i (omega arith)))
  | yes lt ↦
      let (e, p) = get_elem?-some s.log i lt in
      let (l, run, size, at_i, others) = mark_get s.log i lt p in
      let (t, run') =
        mark_loop_throws n (suc i) (record s { log = l }) (omega arith) (omega arith) in
      (t, rw (mark_loop, run, +ℤ-pos, add-one) run')
]

-- The answer of success that a follower `t` sends, to a message whose previous index is `prev`.
abbrev pub answer : ℤ → ℕ → Server → MsgAppendentriesResponse
answer term prev t = record {
  term = term;
  success = pos 1;
  current_idx = some t.current_idx;
  first_idx = some (pos prev +ℤ pos 1);
}

mark_and_commit_throws :
    (prev n : ℕ) (s : Server)
    → prev ≤ length s.log
    → length s.log ≤ n
    → (u : Server) × (mark_and_commit (pos (suc prev)) (pos (suc n)) s ≡ throws no_such_log u)
unfolding mark_and_commit
mark_and_commit_throws prev n s le short =
    let (u, run) = mark_loop_throws (suc n - prev) prev s le (omega arith) in
    let rounds : pos_part (pos (suc n) +ℤ pos 1 -ℤ pos (suc prev)) ≡ suc n - prev = ap pos_part (
      ap (λ (a : ℤ). a -ℤ pos (suc prev)) (+ℤ-pos (suc n) 1)
      ∙ -ℤ-pos (suc n + 1) (suc prev) (omega arith)
      ∙ ap pos (omega arith)) in
    (u, rw (mark_and_commit, rounds, run))

-- A follower answers with its current index, which is one past its last entry. A leader whose log
-- is no longer than the follower's looks for an entry there: the handler ends with an exception.
pub answer_throws :
    (p : Ptr) (term : ℤ) (prev : ℕ) (s t : Server)
    → IndexMatches t
    → length s.log ≤ length t.log
    → prev ≤ length s.log
    → (u : Server) × (recv_appendentries_response p (answer term prev t) s ≡ throws no_such_log u)
unfolding recv_appendentries_response at_node
answer_throws p term prev s t index short le =
    let at : Server = at_node p (set_next_idx t.current_idx) s in
    let (u, run) = mark_and_commit_throws prev (length t.log) at le short in
    let first : pos prev +ℤ pos 1 ≡ pos (suc prev) = rw (+ℤ-pos, add-one) in
    let start : mark_and_commit (pos prev +ℤ pos 1) t.current_idx at ≡ throws no_such_log u =
      ap₂ (λ (a b : ℤ). mark_and_commit a b at) first index ∙ run in
    (u, rw (recv_appendentries_response, start))
