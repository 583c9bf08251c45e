-- ===== src/Tests/Entries.antt =====
-- Messages with entries, on a server with three entries.
use cpp_raft.Base.{
  drop, ◌≤ℤ◌, ◌<ℤ◌, to_int, pos, negsuc, ◌-◌, ◌^◌, ◌≡◌, refl, ◌⊎◌, true, false, [], ◌∷◌, arith,
}
use cpp_raft.Msg.{MsgAppendEntries}
use cpp_raft.Server.State.{Server, new_server, returns}
use cpp_raft.Server.Applying.{apply_all}
use cpp_raft.Server.Applying.Progress.{handed, AppliedFrom, apply_all-end}
use cpp_raft.Server.Appending.{follow_commit, append_all, accept, recv_appendentries}
use cpp_raft.Server.Appending.Committing.{smaller, Followed, follow_commit-end, commits_past_leader}
use cpp_raft.Server.Appending.Accepting.{extended, accepted, append_all_stops, accept-all}
use cpp_raft.Server.Appending.Receiving.{receive_total}
use cpp_raft.Server.Appending.Following.{Below}
use cpp_raft.Server.Appending.Whole.{Whole}
use cpp_raft.Tests.{an_entry, three_entries, logged, a_msg_entry, an_append}

abbrev message : MsgAppendEntries
message = an_append 3 2 1 2 (a_msg_entry 8 ∷ a_msg_entry 9 ∷ [])

receive_total_example :
    (t : Server) × (recv_appendentries true 11 message logged ≡ returns 1 t)
    × (logged.current_term ≤ℤ t.current_term)
    × ((t.current_term ≡ logged.current_term) ⊎ (t.current_term ≡ pos 3))
    × Whole t.log
    × Below logged t
unfolding new_server
receive_total_example =
    receive_total true 11 message logged
      (record { commit = refl; ids = (refl, (refl, (refl, tt))) })
      (record {
        whole = (refl, (refl, (refl, tt)));
        carried = (omega arith, (omega arith, tt));
        commit = omega arith;
        short = omega arith;
      })

accept-all_example : accept 11 (pos 2) message logged ≡ accepted 11 (pos 2) message logged
unfolding to_int
accept-all_example =
    accept-all 11 (pos 2) message logged ((λ h. ground arith), ((λ h. ground arith), tt))

append_all_stops_example :
    append_all (a_msg_entry 8 ∷ a_msg_entry 0 ∷ a_msg_entry 9 ∷ []) logged
    ≡ (false, extended (a_msg_entry 8 ∷ []) logged)
unfolding to_int
append_all_stops_example =
    append_all_stops (a_msg_entry 8 ∷ []) (a_msg_entry 0) (a_msg_entry 9 ∷ []) logged
      ((λ h. ground arith), tt) refl

apply_all-end_example : (t : Server) × (apply_all 5 logged ≡ returns tt t) × AppliedFrom 0 logged t
unfolding new_server
apply_all-end_example = apply_all-end 5 0 logged refl (omega arith) (omega arith)

follow_commit-end_example :
    (t : Server) × (follow_commit message logged ≡ returns tt t) × Followed (smaller 3 2) logged t
unfolding new_server
follow_commit-end_example = follow_commit-end message logged 3 2 (omega arith) refl refl refl

commits_past_leader_example :
    (t : Server) × (follow_commit message logged ≡ returns tt t)
    × (t.commit_idx ≡ pos 3)
    × (pos 2 <ℤ t.commit_idx)
    × (t.applied ≡ handed logged (drop 2 three_entries))
unfolding new_server
commits_past_leader_example =
    commits_past_leader message logged 3 2 (omega arith) refl refl refl (omega arith) (omega arith)

-- The id 2 ^ 32 - 1 of a message is the id -1 of its entry.
abbrev odd : Server
odd = record logged { log = record (an_entry 1 1) { id = negsuc 0 } ∷ [] }

odd_id : to_int (2 ^ 32 - 1) ≡ negsuc 0
unfolding to_int
odd_id = refl
