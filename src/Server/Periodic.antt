-- ===== src/Server/Periodic.antt =====
-- `periodic`.
pub mod Timing
use cpp_raft.Base.{
  ℕ, zero, suc, ◌+◌, ◌≡◌, ℤ, pos, Bool, true, false, ◌&&◌, ◌==◌, if◌then◌else◌, ◌+ℤ◌, ltb_ℤ, leb_ℤ,
}
use cpp_raft.Server.State.{
  Server, Run, returns, and_then, is_follower, is_leader, send_appendentries_all,
}
use cpp_raft.Server.Election.{election_start}
use cpp_raft.Server.Applying.{apply_entry}

-- The part behind the `switch`.
unfoldable pub tick : ℕ → ℕ → ℤ → Server → Server
tick draw draw' msec s =
    let t = record s { timeout_elapsed = s.timeout_elapsed +ℤ msec } in
    if is_leader t.state
    then (if leb_ℤ t.request_timeout t.timeout_elapsed
        then record (send_appendentries_all t) { timeout_elapsed = pos 0 }
        else t)
    else (if leb_ℤ t.election_timeout t.timeout_elapsed then election_start draw draw' t else t)

unfoldable pub periodic : ℕ → ℕ → ℤ → Server → Run ℕ
periodic draw draw' msec s =
    if is_follower s.state && ltb_ℤ s.last_applied_idx s.commit_idx
    then and_then (apply_entry s)
        (λ done t. if done == 0 then returns 0 t else returns 1 (tick draw draw' msec t))
    else returns 1 (tick draw draw' msec s)
