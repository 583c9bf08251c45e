-- ===== src/Tests/Answers.antt =====
-- Answers that a leader receives.
use cpp_raft.Base.{ltb, leb, length, get_elem?, ◌+ℤ◌, ◌-ℤ◌, pos, ℕ, ◌≡◌, refl, ◌&&◌, arith}
use cpp_raft.Log.{Log, log_get_from_idx}
use cpp_raft.Server.State.{new_server, returns}
use cpp_raft.Server.Applying.{advance, apply_entry}
use cpp_raft.Server.Replies.{mark_loop, is_replicated, commit_loop}
use cpp_raft.Server.Replies.Marking.{counted?, mark_loop-counts}
use cpp_raft.Server.Replies.Committing.{Commits, commit_loop-Commits}
use cpp_raft.Tests.{three_entries, logged}

commit_loop-Commits_example : Commits (pos 3) 0 logged (commit_loop 5 (pos 3) logged)
unfolding new_server
commit_loop-Commits_example =
    commit_loop-Commits 5 0 (pos 3) logged refl (omega arith) (omega arith)

-- Each entry is on one node, half of three rounded down: all are committed.
commits_three :
    commit_loop 5 (pos 3) logged
    ≡ returns tt
        (record logged { last_applied_idx = pos 3; commit_idx = pos 3; applied = three_entries })
unfolding commit_loop apply_entry log_get_from_idx new_server advance is_replicated ◌+ℤ◌ ◌-ℤ◌
commits_three = refl

mark_loop-counts_example :
    (l : Log) × (mark_loop 2 (pos 2) logged ≡ returns tt (record logged { log = l }))
    × (length l ≡ 3)
    × ((j : ℕ) → get_elem? l j ≡ counted? (leb 1 j && ltb j 3) (get_elem? three_entries j))
mark_loop-counts_example = mark_loop-counts 2 1 logged (omega arith)
