-- ===== src/Node.antt =====
-- raft_node.cpp and raft_node.h: what a server keeps for each node of the cluster. The list links
-- `prev` and `next` are those of the list module; `now` is what `ftime` stores.
pub mod Laws
use cpp_raft.Base.{ℕ, ◌+◌, ℤ, pos, negsuc, List, [], ltb, ltb_ℤ, eqb_ℤ, ◌+ℤ◌, ◌-ℤ◌, if◌then◌else◌}

abbrev pub Ptr : Type 0
Ptr = ℕ

abbrev pub null : Ptr
null = 0

pub record RaftNode : Type 0 where
  pub key : List ℕ
  pub locks_count : ℤ
  pub udata : Ptr
  pub next_idx : ℤ
  pub votes_for_me : ℤ
  pub is_leader : ℕ  -- 1 bit
  pub is_able_to_vote : ℕ  -- 1 bit
  pub ok_count : ℤ  -- 10 bits, signed
  pub is_marked_for_delete : ℕ  -- 1 bit
  pub ping_count : ℕ  -- 4 bits
  pub last_seen : ℕ

abbrev pub initial_ping_count : ℤ
initial_ping_count = negsuc 24

unfoldable pub new_node : ℕ → RaftNode
new_node now = record {
  key = [];
  locks_count = pos 0;
  udata = null;
  next_idx = pos 0;
  votes_for_me = pos 0;
  is_leader = 0;
  is_able_to_vote = 1;
  ok_count = initial_ping_count;
  is_marked_for_delete = 0;
  ping_count = 0;
  last_seen = now;
}

unfoldable pub increment_lock2 : RaftNode → RaftNode
increment_lock2 n = record n { locks_count = n.locks_count +ℤ pos 1 }

unfoldable pub decrement_lock2 : RaftNode → RaftNode
decrement_lock2 n = record n { locks_count = n.locks_count -ℤ pos 1 }

unfoldable pub mark_will_be_deleted : RaftNode → RaftNode
mark_will_be_deleted n = record n { is_marked_for_delete = 1 }

unfoldable pub ping_received : ℕ → RaftNode → RaftNode
ping_received now n = record n {
  ok_count = if ltb_ℤ n.ok_count (pos 0) then pos 0 else n.ok_count;
  is_able_to_vote = 1;
  ping_count = 0;
  last_seen = now;
}

unfoldable pub set_unable_to_vote : RaftNode → RaftNode
set_unable_to_vote n = record n { is_able_to_vote = 0 }

unfoldable pub set_next_idx : ℤ → RaftNode → RaftNode
set_next_idx idx n = record n { next_idx = idx }

unfoldable pub set_votes_for_me : ℤ → RaftNode → RaftNode
set_votes_for_me vote n = record n { votes_for_me = vote }

unfoldable pub set_udata : Ptr → RaftNode → RaftNode
set_udata p n = record n { udata = p }

unfoldable pub make_leader : RaftNode → RaftNode
make_leader n = record n { is_leader = 1 }

unfoldable pub reset_leader : RaftNode → RaftNode
reset_leader n = record n { is_leader = 0 }

-- `++` on the signed bit field of 10 bits, which wraps at 511
unfoldable pub increment_ok_count : RaftNode → RaftNode
increment_ok_count n = record n {
  ok_count = if eqb_ℤ n.ok_count (pos 511) then negsuc 511 else n.ok_count +ℤ pos 1;
}

unfoldable pub ping : RaftNode → RaftNode
ping n = if ltb n.ping_count 8 then record n { ping_count = n.ping_count + 1 } else n
