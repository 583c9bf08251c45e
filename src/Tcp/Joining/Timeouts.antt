-- ===== src/Tcp/Joining/Timeouts.antt =====
-- The times of a server that starts.
use cpp_raft.Base.{ℤ, leb_ℤ, pos, ℕ, ◌*◌, ◌≡◌, refl, true, arith}
use cpp_raft.Tcp.State.{TcpServer}
use cpp_raft.Tcp.Joining.{min_rep_rate_ms, timeouts_ratio_min, mul_ℤ, init_timeouts}

mul-pos : (m n : ℕ) → mul_ℤ m (pos n) ≡ pos (m * n)
mul-pos m n = refl

-- Whatever the settings are, the server starts with a period of at least 5 ms, a time between the
-- messages of a leader of at least the period, an election timeout of at least 11 such times, and
-- the elapsed time 0; settings that are large enough are kept.
pub init_timeouts_bounds :
    (raft_port : ℤ) (t : TcpServer)
    → let u = init_timeouts raft_port t in
      (leb_ℤ min_rep_rate_ms u.period ≡ true)
      × (leb_ℤ u.period u.raft.request_timeout ≡ true)
      × (leb_ℤ (mul_ℤ timeouts_ratio_min u.raft.request_timeout) u.raft.election_timeout ≡ true)
      × (leb_ℤ t.raft.election_timeout u.raft.election_timeout ≡ true)
      × (u.raft.timeout_elapsed ≡ pos 0)
unfolding init_timeouts
init_timeouts_bounds raft_port t = (ground arith, ground arith, ground arith, ground arith, refl)
