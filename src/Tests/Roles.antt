-- ===== src/Tests/Roles.antt =====
-- Changes of role, and time passing, on a cluster of three nodes.
use cpp_raft.Base.{if◌then◌else◌, ◌<ℤ◌, pos, ◌≡◌, refl, true, [], ◌∷◌, arith}
use cpp_raft.Node.{new_node}
use cpp_raft.Server.State.{is_leader, Server, new_server}
use cpp_raft.Server.State.Loops.{targets}
use cpp_raft.Server.Periodic.{tick}
use cpp_raft.Server.Periodic.Timing.{tick_below}
use cpp_raft.Tests.{logged}

-- The own node is passed over.
others : targets true logged logged.nodes ≡ 11 ∷ 12 ∷ []
unfolding new_server new_node
others = refl

tick_below_example :
    (tick 4 1234 (pos 700) logged).timeout_elapsed
    <ℤ (if is_leader logged.state then logged.request_timeout else logged.election_timeout)
unfolding new_server
tick_below_example = tick_below 4 1234 (pos 700) logged (omega arith)

abbrev lagging : Server
lagging = record logged { commit_idx = pos 3; last_applied_idx = pos 1 }
