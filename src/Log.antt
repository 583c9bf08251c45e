-- ===== src/Log.antt =====
-- raft_logger.cpp: the log, a vector of entries that the code indexes from 1.
pub mod Laws
use cpp_raft.Base.{
  ℕ, ◌-◌, ◌≡◌, ℤ, pos, negsuc, Bool, true, false, Option, none, some, List, [], ◌∷◌, ◌++◌, ◌||◌,
  ltb, ltb_ℤ, eqb_ℤ, pos_part, ◌+ℤ◌, ◌-ℤ◌, if◌then◌else◌, length, is_empty, get_elem?, set,
  get_last?, take,
}
use cpp_raft.Outcome.{Outcome, ok, throws, undefined, no_such_log}
use cpp_raft.Msg.{RaftEntry}

abbrev pub Log : Type 0
Log = List RaftEntry

-- Returns the code's 0 or 1 and the log.
unfoldable pub log_append_entry : Log → RaftEntry → ℕ × Log
log_append_entry l c =
    if eqb_ℤ c.id (pos 0) then (0, l) else (1, l ++ record c { num_nodes = pos 0 } ∷ [])

-- `entries[i]`, which does not check its index
unfoldable pub at : Log → ℤ → Outcome RaftEntry
at l (negsuc n) = undefined
at l (pos i) = elim (get_elem? l i) [ none ↦ undefined | some e ↦ ok e ]

unfoldable pub log_get_from_idx : Log → ℤ → Outcome RaftEntry
unfolding at ◌-ℤ◌
log_get_from_idx l idx =
    if is_empty l || ltb_ℤ idx (pos 0) || ltb (length l) (pos_part idx)
    then throws no_such_log
    else at l (idx -ℤ pos 1)

unfoldable pub log_count : Log → ℕ
log_count l = length l

-- `erase(begin() + i, end())`, undefined unless `begin() + i` is in the vector
erase_from : Log → ℤ → Outcome Log
erase_from l (negsuc n) = undefined
erase_from l (pos i) = if ltb (length l) i then undefined else ok (take i l)

unfoldable pub log_delete : Log → ℤ → Outcome Log
unfolding erase_from ◌-ℤ◌
log_delete l idx = erase_from l (idx -ℤ pos 1)

unfoldable pub log_peektail : Log → Outcome RaftEntry
log_peektail l = elim (get_last? l) [ none ↦ throws no_such_log | some e ↦ ok e ]

unfoldable pub log_empty : Log → Log
log_empty l = []

-- `e.d_num_nodes += 1` through the reference that `log_get_from_idx` returns
unfoldable pub log_mark_node_has_committed : Log → ℤ → Outcome Log
log_mark_node_has_committed l idx = elim (log_get_from_idx l idx) [
  | ok e ↦ ok (set l (pos_part idx - 1) (record e { num_nodes = e.num_nodes +ℤ pos 1 }))
  | throws x ↦ throws x
  | undefined ↦ undefined
]
