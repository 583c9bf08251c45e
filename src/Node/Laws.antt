-- ===== src/Node/Laws.antt =====
-- What the bit fields of a node hold, whatever is done to it.
use cpp_raft.Base.{ℕ, ◌≤◌, ◌≡◌, refl, ℤ, pos, negsuc, ◌≤ℤ◌, arith, +ℤ_parts}
use cpp_raft.Node.{
  Ptr, RaftNode, new_node, increment_lock2, decrement_lock2, mark_will_be_deleted, ping_received,
  set_unable_to_vote, set_next_idx, set_votes_for_me, set_udata, make_leader, reset_leader,
  increment_ok_count, ping,
}

-- A call of one of the methods that change a node.
pub data Step : RaftNode → RaftNode → Type 0 where
  lock : (n : RaftNode) → Step n (increment_lock2 n)
  unlock : (n : RaftNode) → Step n (decrement_lock2 n)
  mark : (n : RaftNode) → Step n (mark_will_be_deleted n)
  received : (n : RaftNode) (now : ℕ) → Step n (ping_received now n)
  unable : (n : RaftNode) → Step n (set_unable_to_vote n)
  next : (n : RaftNode) (idx : ℤ) → Step n (set_next_idx idx n)
  votes : (n : RaftNode) (v : ℤ) → Step n (set_votes_for_me v n)
  user : (n : RaftNode) (p : Ptr) → Step n (set_udata p n)
  lead : (n : RaftNode) → Step n (make_leader n)
  follow : (n : RaftNode) → Step n (reset_leader n)
  answered : (n : RaftNode) → Step n (increment_ok_count n)
  pinged : (n : RaftNode) → Step n (ping n)

pub data Reach (s : RaftNode) : RaftNode → Type 0 where
  here : Reach s s
  step : {t u : RaftNode} → Reach s t → Step t u → Reach s u

-- Every bit field holds a value that fits it, and pings are counted up to 8 only.
pub record Fits (n : RaftNode) : Type 0 where
  pub leader_bit : n.is_leader ≤ 1
  pub able_bit : n.is_able_to_vote ≤ 1
  pub marked_bit : n.is_marked_for_delete ≤ 1
  pub pings : n.ping_count ≤ 8
  pub ok_above : negsuc 511 ≤ℤ n.ok_count
  pub ok_below : n.ok_count ≤ℤ pos 511

pub new_node-Fits : (now : ℕ) → Fits (new_node now)
unfolding new_node
new_node-Fits now = ground arith

pub Step-Fits : {n m : RaftNode} → Step n m → Fits n → Fits m
unfolding increment_lock2 decrement_lock2 mark_will_be_deleted ping_received set_unable_to_vote
    set_next_idx set_votes_for_me set_udata make_leader reset_leader increment_ok_count ping
Step-Fits (lock n) f = ground arith
Step-Fits (received n now) f = ground arith
Step-Fits (answered n) f = ground (arith, +ℤ_parts n.ok_count (pos 1))
Step-Fits (pinged n) f = ground arith
Step-Fits _ f = ground arith

-- Whatever methods are called on a new node, in whatever order, each bit field holds a value that
-- fits it: the flags are 0 or 1, the ping count stays at most 8 and the answer count within 10
-- signed bits.
pub Reach-Fits : (now : ℕ) {n : RaftNode} → Reach (new_node now) n → Fits n
Reach-Fits now here = new_node-Fits now
Reach-Fits now (step r s) = Step-Fits s (Reach-Fits now r)

-- Once a node is marked for deletion, no method takes the mark away.
pub Step-marked :
    {n m : RaftNode} → Step n m → n.is_marked_for_delete ≡ 1 → m.is_marked_for_delete ≡ 1
unfolding increment_lock2 decrement_lock2 mark_will_be_deleted ping_received set_unable_to_vote
    set_next_idx set_votes_for_me set_udata make_leader reset_leader increment_ok_count ping
Step-marked (mark n) h = refl
Step-marked (pinged n) h = ground arith
Step-marked _ h = h
