-- ===== src/Server/Replies.antt =====
-- `recv_appendentries_response`.
pub mod Marking
pub mod Committing
use cpp_raft.Base.{
  ℕ, zero, suc, ◌+◌, ◌≡◌, ℤ, pos, pos_part, Bool, true, false, Option, none, some, ◌==◌, length,
  if◌then◌else◌, ◌+ℤ◌, ◌-ℤ◌, ◌/◌, ltb_ℤ, leb_ℤ, eqb_ℤ,
}
use cpp_raft.Outcome
use cpp_raft.Outcome.{Outcome, could_not_apply}
use cpp_raft.Msg.{MsgAppendentriesResponse}
use cpp_raft.Log.{log_get_from_idx, log_mark_node_has_committed}
use cpp_raft.Node.{Ptr, set_next_idx}
use cpp_raft.Server.State.{
  Server, Run, returns, throws, undefined, out_of_fuel, and_then, at_node, send_appendentries,
}
use cpp_raft.Server.Applying.{apply_entry}

-- The loop from `first_idx` to `current_idx`, over the number of its rounds.
unfoldable pub mark_loop : ℕ → ℤ → Server → Run (Unit {0})
mark_loop zero i s = returns tt s
mark_loop (suc n) i s = elim (log_mark_node_has_committed s.log i) [
  | Outcome.ok l ↦ mark_loop n (i +ℤ pos 1) (record s { log = l })
  | Outcome.throws x ↦ throws x s
  | Outcome.undefined ↦ undefined
]

-- `m_Nodes.count() / 2 <= e.d_num_nodes`
unfoldable pub is_replicated : Server → ℤ → Bool
is_replicated s num_nodes = leb_ℤ (pos (length s.nodes / 2)) num_nodes

-- The loop that applies what the answer commits.
unfoldable pub commit_loop : ℕ → ℤ → Server → Run (Unit {0})
unfolding is_replicated
commit_loop zero current_idx s = out_of_fuel
commit_loop (suc fuel) current_idx s = elim (ltb_ℤ s.commit_idx current_idx) [
  | false ↦ returns tt s
  | true ↦ elim (log_get_from_idx s.log (s.last_applied_idx +ℤ pos 1)) [
    | Outcome.throws x ↦ throws x s
    | Outcome.undefined ↦ undefined
    | Outcome.ok e ↦ elim (is_replicated s e.num_nodes) [
      | false ↦ returns tt s
      | true ↦ and_then (apply_entry s) λ done t.
          let rest = commit_loop fuel current_idx t in
          if done == 1
          then (if eqb_ℤ e.id current_idx then returns tt t else rest)
          else throws could_not_apply t
    ]
  ]
]

abbrev pub commit_fuel : Server → ℕ
commit_fuel s = length s.log + 2

unfoldable pub mark_and_commit : ℤ → ℤ → Server → Run (Unit {0})
mark_and_commit first_idx current_idx s =
    and_then (mark_loop (pos_part (current_idx +ℤ pos 1 -ℤ first_idx)) first_idx s)
      λ _ t. commit_loop (commit_fuel t) current_idx t

-- Reading a field that the sender left uninitialised is undefined.
unfoldable pub recv_appendentries_response : Ptr → MsgAppendentriesResponse → Server → Run ℕ
recv_appendentries_response p r s =
    if eqb_ℤ r.success (pos 1)
    then elim r.current_idx [
      | none ↦ undefined
      | some current ↦ elim r.first_idx [
        | none ↦ undefined
        | some first ↦
            and_then (mark_and_commit first current (at_node p (set_next_idx current) s))
              λ _ t. returns 1 t
      ]
    ]
    else returns 1 (send_appendentries p s)
