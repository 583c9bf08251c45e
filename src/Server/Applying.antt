-- ===== src/Server/Applying.antt =====
-- The log as the server uses it: appending, applying, and the loops that apply.
pub mod Progress
use cpp_raft.Base.{
  ℕ, zero, suc, ◌+◌, ◌≡◌, ℤ, pos, Bool, true, false, List, [], ◌∷◌, ◌++◌, ◌==◌, length,
  if◌then◌else◌, ◌+ℤ◌, ltb_ℤ,
}
use cpp_raft.Outcome
use cpp_raft.Outcome.{Outcome}
use cpp_raft.Msg.{RaftEntry}
use cpp_raft.Log.{Log, log_append_entry, log_get_from_idx}
use cpp_raft.Server.State.{Server, Run, returns, throws, undefined, out_of_fuel, and_then}

-- Returns the code's 0 or 1.
unfoldable pub append_entry : RaftEntry → Server → ℕ × Server
append_entry c s =
    let (done, l) = log_append_entry s.log c in
    if done == 1
    then (1, record s { log = l; current_idx = s.current_idx +ℤ pos 1 })
    else (0, record s { log = l })

-- What `apply_entry` does once it has the entry.
unfoldable pub advance : RaftEntry → Server → Server
advance e s =
    let next = s.last_applied_idx +ℤ pos 1 in
    record s {
      last_applied_idx = next;
      commit_idx = if ltb_ℤ s.commit_idx next then next else s.commit_idx;
      applied = if s.cb_applylog then s.applied ++ e ∷ [] else s.applied;
    }

-- The index behind the last one applied is taken to be an `int`.
unfoldable pub apply_entry : Server → Run ℕ
unfolding advance
apply_entry s = elim (log_get_from_idx s.log (s.last_applied_idx +ℤ pos 1)) [
  | Outcome.ok e ↦ returns 1 (advance e s)
  | Outcome.throws x ↦ returns 0 s
  | Outcome.undefined ↦ undefined
]

-- `while (1 == apply_entry());`
unfoldable pub apply_all : ℕ → Server → Run (Unit {0})
apply_all zero s = out_of_fuel
apply_all (suc fuel) s =
    and_then (apply_entry s)
      λ done t. let rest = apply_all fuel t in if done == 1 then rest else returns tt t

-- Each round that goes on moves `last_applied_idx` one further within the log.
abbrev pub apply_fuel : Server → ℕ
apply_fuel s = length s.log + 2
