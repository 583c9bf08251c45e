-- ===== src/Server/Members.antt =====
-- Adding, finding and removing nodes. The list is in the order of addition; the keys are bytes.
-- The hooks `AddAdditionalDataToNode` and `CleanNodeData` of this class do nothing.
pub mod Keys
pub mod Table
use cpp_raft.Base.{
  ℕ, zero, suc, ◌+◌, ◌≡◌, ℤ, pos, Bool, true, false, Option, none, some, List, [], ◌∷◌, ◌++◌, ◌&&◌,
  ◌==◌, length, if◌then◌else◌, eqb_ℤ,
}
use cpp_raft.Containers.HashTbl.{eqb_key}
use cpp_raft.Node.{Ptr, null, RaftNode, new_node, mark_will_be_deleted}
use cpp_raft.Server.State.{Server, Run, returns, waits, at_node}

unfoldable pub find_entry : (Ptr → RaftNode) → List ℕ → List Ptr → Option Ptr
find_entry store key [] = none
find_entry store key (p ∷ ps) =
    if eqb_key key (store p).key then some p else find_entry store key ps

unfoldable pub find_node : List ℕ → Server → Option Ptr
unfolding find_entry
find_node key s = find_entry s.store key s.nodes

-- `fresh` is what `new` returns, `now` the clock; the result is the node or null.
unfoldable pub add_node : Ptr → ℕ → List ℕ → Server → Ptr × Server
unfolding new_node
add_node fresh now key s = elim (find_node key s) [
  | some p ↦ (null, s)
  | none ↦ (
    fresh,
    record s {
      nodes = s.nodes ++ fresh ∷ [];
      store = λ q. if q == fresh then record (new_node now) { key = key } else s.store q;
    },
  )
]

unfoldable pub erase_ptr : Ptr → List Ptr → List Ptr
erase_ptr p [] = []
erase_ptr p (q ∷ qs) = if q == p then qs else q ∷ erase_ptr p qs

-- While the node is locked the loop waits for other threads to unlock it.
unfoldable pub remove_node1 : List ℕ → Server → Run (Unit {0})
remove_node1 key s = elim (find_node key s) [
  | none ↦ returns tt s
  | some p ↦
      let t = at_node p mark_will_be_deleted s in
      if eqb_ℤ (t.store p).locks_count (pos 0)
      then returns tt (record t { nodes = erase_ptr p t.nodes })
      else waits t
]

unfoldable pub remove_node2 : Ptr → Server → Run (Unit {0})
unfolding remove_node1
remove_node2 p s = remove_node1 (s.store p).key s

-- The loop takes the first node off the list until there is none.
unfoldable pub clear_nodes : List Ptr → Server → Server
unfolding erase_ptr
clear_nodes [] s = s
clear_nodes (p ∷ ps) s = clear_nodes ps (record s { nodes = erase_ptr p s.nodes })

unfoldable pub clear_all_nodes : Server → Server
unfolding clear_nodes
clear_all_nodes s = clear_nodes s.nodes s
