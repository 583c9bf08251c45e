-- ===== src/Tests/Parts.antt =====
-- The log, the nodes and the table of nodes.
use cpp_raft.Base.{refl}
use cpp_raft.Node.{new_node, mark_will_be_deleted, ping_received, increment_ok_count}
use cpp_raft.Node.Laws.{Fits, Reach-Fits, mark, received, answered, here, step}
use cpp_raft.Server.State.{new_server}
use cpp_raft.Server.Members.{find_entry}
use cpp_raft.Server.Members.Keys.{Distinct}
use cpp_raft.Server.Members.Table.{DistinctKeys}
use cpp_raft.Tests.{cluster}

Reach-Fits_example : Fits (increment_ok_count (ping_received 9 (mark_will_be_deleted (new_node 5))))
Reach-Fits_example = Reach-Fits 5 (step (step (step here (mark _)) (received _ 9)) (answered _))

cluster-DistinctKeys : DistinctKeys cluster
unfolding Distinct find_entry new_server new_node
cluster-DistinctKeys = (refl, (refl, (refl, tt)))
