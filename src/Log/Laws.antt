-- ===== src/Log/Laws.antt =====
-- Laws of the log.
use mathlib.Core.Path.{subst}
use native.Mathlib.Decide.{dec_lt, ℕ_discrete}
use cpp_raft.Base.{
  ltb, ◌==◌, if◌then◌else◌, length, get_elem?, set, take, length-append, length-take_le,
  get_elem?-take, get_elem?-some, get_elem?-append_lt, get_elem?-append_last, length-set,
  get_elem?-set_self, get_elem?-set_ne, ◌+ℤ◌, eqb_ℤ, ne→eqb_ℤ, suc-sub-one, pos, negsuc, ℕ, suc,
  ◌+◌, ◌-◌, ◌≤◌, ◌<◌, ◌≡◌, refl, sym, ◌∙◌, ◌≢◌, false, some, [], ◌∷◌, ◌++◌, arith,
}
use cpp_raft.Outcome.{ok, throws, undefined, no_such_log}
use cpp_raft.Msg.{RaftEntry}
use cpp_raft.Log.{
  at, Log, log_append_entry, log_get_from_idx, log_count, log_delete, log_mark_node_has_committed,
}

-- Within the log the accessor returns the entry at the position, which it counts from 1.
pub get_from_idx-ok :
    (l : Log) (i : ℕ) {e : RaftEntry}
    → i < length l
    → get_elem? l i ≡ some e
    → log_get_from_idx l (pos (suc i)) ≡ ok e
unfolding log_get_from_idx at
get_from_idx-ok [] i h p = absurd (omega arith)
get_from_idx-ok (x ∷ l) i h p = ground arith

pub get_from_idx-beyond :
    (l : Log) (i : ℕ) → length l < i → log_get_from_idx l (pos i) ≡ throws no_such_log
unfolding log_get_from_idx at
get_from_idx-beyond l i h = ground arith

pub get_from_idx-neg : (l : Log) (i : ℕ) → log_get_from_idx l (negsuc i) ≡ throws no_such_log
unfolding log_get_from_idx at
get_from_idx-neg l i = ground arith

pub get_from_idx-zero : (x : RaftEntry) (l : Log) → log_get_from_idx (x ∷ l) (pos 0) ≡ undefined
unfolding log_get_from_idx at
get_from_idx-zero x l = ground arith

-- Deleting from position `i + 1` keeps the first `i` entries, and is defined up to one position
-- behind the last entry.
pub delete-ok : (l : Log) (i : ℕ) → i ≤ length l → log_delete l (pos (suc i)) ≡ ok (take i l)
unfolding log_delete
delete-ok l i h = rw suc-sub-one (ground arith)

pub delete-undefined : (l : Log) (i : ℕ) → length l < i → log_delete l (pos (suc i)) ≡ undefined
unfolding log_delete
delete-undefined l i h = rw suc-sub-one (ground arith)

pub delete-zero : (l : Log) → log_delete l (pos 0) ≡ undefined
unfolding log_delete
delete-zero l = refl

-- After a delete the log is shorter, what stands before the cut is as it was, and an access at or
-- behind the cut throws.
pub delete_get :
    (l : Log) (i : ℕ)
    → i ≤ length l
    → (l' : Log) × (log_delete l (pos (suc i)) ≡ ok l')
      × (log_count l' ≡ i)
      × ((j : ℕ)
          → log_get_from_idx l' (pos (suc j))
            ≡ (if ltb j i then log_get_from_idx l (pos (suc j)) else throws no_such_log))
unfolding log_count
delete_get l i h = (
  take i l,
  delete-ok l i h,
  length-take_le i l h,
  λ j. elim (dec_lt j i) [
    | yes lt ↦
        let (e, p) = get_elem?-some l j (omega arith) in
        get_from_idx-ok (take i l) j (rw (length-take_le i l h) lt) (rw (get_elem?-take i j l lt) p)
        ∙ sym (get_from_idx-ok l j (omega arith) p)
        ∙ ground arith
    | no le ↦
        get_from_idx-beyond (take i l) (suc j) (rw (length-take_le i l h) (omega arith))
        ∙ ground arith
  ],
)

-- Appending an entry whose id is not 0 returns 1, puts the entry with its count of nodes reset
-- behind the others, and leaves every access before it as it was; behind it an access throws.
pub append_get :
    (l : Log) (c : RaftEntry)
    → c.id ≢ pos 0
    → (log_append_entry l c ≡ (1, l ++ record c { num_nodes = pos 0 } ∷ []))
      × ((j : ℕ)
          → log_get_from_idx (log_append_entry l c).1 (pos (suc j)) ≡ (
              if j == log_count l
              then ok (record c { num_nodes = pos 0 })
              else log_get_from_idx l (pos (suc j))))
unfolding log_append_entry log_count
append_get l c h =
    let nz : eqb_ℤ c.id (pos 0) ≡ false = ne→eqb_ℤ c.id (pos 0) h in
    let longer = l ++ record c { num_nodes = pos 0 } ∷ [] in
    let size : length longer ≡ length l + 1 = length-append l _ in
    (
      rw nz,
      λ j. rw nz (elim (dec_lt j (length l)) [
        | yes lt ↦
            let (e, p) = get_elem?-some l j lt in
            get_from_idx-ok longer j (omega arith) (get_elem?-append_lt l _ j lt ∙ p)
            ∙ sym (get_from_idx-ok l j lt p)
            ∙ ground arith
        | no le ↦ elim (ℕ_discrete (length l) j) [
          | yes same ↦
              get_from_idx-ok longer j (omega arith) (
                subst (λ (k : ℕ). get_elem? longer k ≡ some (record c { num_nodes = pos 0 })) same
                  (get_elem?-append_last l _))
              ∙ ground arith
          | no ne ↦
              get_from_idx-beyond longer (suc j) (omega arith)
              ∙ sym (get_from_idx-beyond l (suc j) (omega arith))
              ∙ ground arith
        ]
      ]),
    )

suc-sub : (i : ℕ) → suc i - 1 ≡ i
suc-sub i = omega arith

-- Marking position `i + 1` adds one to the count of nodes of that entry and changes no other.
pub mark_get :
    (l : Log) (i : ℕ) {e : RaftEntry}
    → i < length l
    → get_elem? l i ≡ some e
    → (l' : Log) × (log_mark_node_has_committed l (pos (suc i)) ≡ ok l')
      × (length l' ≡ length l)
      × (get_elem? l' i ≡ some (record e { num_nodes = e.num_nodes +ℤ pos 1 }))
      × ((j : ℕ) → i ≢ j → get_elem? l' j ≡ get_elem? l j)
unfolding log_mark_node_has_committed
mark_get l i {e} h p = (
  set l i (record e { num_nodes = e.num_nodes +ℤ pos 1 }),
  rw (log_mark_node_has_committed, get_from_idx-ok l i h p, suc-sub),
  length-set l i _,
  get_elem?-set_self l i _ h,
  λ j ne. get_elem?-set_ne l i j _ ne,
)
