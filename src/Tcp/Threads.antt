-- ===== src/Tcp/Threads.antt =====
-- tcp/raft_tcp_server.cpp: what a worker, the periodic thread and the receiving thread do in one
-- round. An exception in a round is caught, and the thread goes on.
pub mod Chains
use cpp_raft.Base.{
  ◌==◌, if◌then◌else◌, ℤ, ltb_ℤ, pos, ℕ, ◌+◌, ◌%◌, Bool, true, false, not, ◌&&◌, Option, List, [],
  ◌∷◌,
}
use cpp_raft.Node.{Ptr, null, RaftNode, ping_received}
use cpp_raft.Outcome.{Outcome}
use cpp_raft.Tcp.Connections.{handle_new_connection_private}
use cpp_raft.Tcp.Keys.{Text, NodeIdentifierKey, eqb_node_key, key_of}
use cpp_raft.Tcp.Members.{NewNode}
use cpp_raft.Tcp.Receiving.{receive_from_socket_and_inform}
use cpp_raft.Tcp.Requests.{ok_response}
use cpp_raft.Tcp.Roles.{periodic}
use cpp_raft.Tcp.State.{
  WorkerData, Ending, Action, None, and_then, ◌>>=◌, ◌>>◌, pure, gets, node_at, change_node,
  tools_of, nothing, con, rcv, intr, returns, throws, undefined,
}
use cpp_raft.Tcp.Tools.{raft_index, get_socket_num, write_node}
use cpp_raft.Tcp.Workers.{unlock_node, handle_receive_private, handle_internal_private}

-- A job goes to its handler by its type.
unfoldable pub dispatch : (Text → Option Text) → Text → NewNode → ℕ → WorkerData → Action None
unfolding handle_new_connection_private handle_receive_private handle_internal_private
dispatch resolve own new now j t = elim j.pear [
  | nothing ↦ returns tt t
  | con remote sock ↦
      and_then (handle_new_connection_private own new remote sock t) (λ _ u. returns tt u)
  | rcv index c_request ↦ handle_receive_private new c_request j.node j.node_key t
  | intr c_request ↦ handle_internal_private resolve own now c_request j.node j.node_key j.extra t
]

abbrev pub caught : Ending None → Ending None
caught (throws x t) = returns tt t
caught e = e

-- One round of the inner loop of `ThreadFunctionWorker`: the first job of the queue. A job of a
-- node that is to be deleted is dropped, and only its lock is taken back.
unfoldable pub worker_round : (Text → Option Text) → Text → NewNode → ℕ → Action None
unfolding unlock_node dispatch
worker_round resolve own new now t = elim t.jobs [
  | [] ↦ returns tt t
  | j ∷ js ↦
      let u = record t { jobs = js } in
      if t.work
      then (if not (j.node == null) && ((node_at j.node u).is_marked_for_delete == 1)
          then returns tt (unlock_node j.node u)
          else caught (dispatch resolve own new now j u))
      else returns tt u
]

-- The greeting that `ThreadFunctionPeriodic` starts with, to every node but the own one.
unfoldable pub greet : ℕ → List Ptr → Action None
unfolding write_node change_node ping_received
greet now [] = pure tt
greet now (p ∷ ps) = do
  own ← gets (λ t. t.raft.this_node)
  if p == own then greet now ps else (do
    write_node raft_index p (ok_response ∷ [])
    change_node p (ping_received now)
    greet now ps)

unfoldable pub start_periodic : ℕ → Action None
unfolding greet write_node
start_periodic now t =
    (do
      greet now t.raft.nodes
      (λ u.
          if not (u.leader_node == null) && not (u.leader_node == u.raft.this_node)
          then and_then (write_node raft_index u.leader_node (ok_response ∷ []) u)
              (λ _ v. returns tt v)
          else returns tt u))
      t

-- One round of the loop; the semaphore of the other chains is posted in the first of every 500.
unfoldable pub periodic_round : ℕ → ℕ → ℕ → ℕ → Action None
unfolding periodic
periodic_round iteration now draw draw' t = caught (
    and_then (periodic now draw draw' t.period t) (λ _ u.
      returns tt
        (if iteration % 500 == 0 then record u { sema_duplicates = u.sema_duplicates + 1 } else u)))

-- The loop of `FunctionForMultiRcv` behind `select`: the nodes whose sockets are in the set of
-- those that can be read.
unfoldable pub receive_round : ℕ → ℤ → (ℤ → Bool) → List Ptr → Action None
unfolding get_socket_num receive_from_socket_and_inform
receive_round now index readable [] t = returns tt t
receive_round now index readable (p ∷ ps) t =
    if p == t.raft.this_node
    then receive_round now index readable ps t
    else elim (get_socket_num index (tools_of p t)) [
      | cpp_raft.Outcome.ok num ↦
          if ltb_ℤ (pos 0) num && readable num
          then (do receive_from_socket_and_inform now p index; receive_round now index readable ps)
              t
          else receive_round now index readable ps t
      | cpp_raft.Outcome.throws x ↦ undefined
      | cpp_raft.Outcome.undefined ↦ undefined
    ]

-- The search of `ThreadFunctionFindOtherChains` for a key among the nodes.
unfoldable pub is_known : (Ptr → RaftNode) → NodeIdentifierKey → List Ptr → Bool
unfolding eqb_node_key
is_known store key [] = false
is_known store key (p ∷ ps) =
    if eqb_node_key (key_of (store p).key) key then true else is_known store key ps
