-- ===== src/Tcp/Jobs.antt =====
-- tcp/raft_tcp_server.cpp: the jobs for the workers, and what `Server` overrides of `RaftServer`.
pub mod Locking
use cpp_raft.Base.{
  ltb, leb, ◌==◌, if◌then◌else◌, to_nat, ==_iff, ==_refl, Bool-cases, Option-cases, length,
  is_empty, get_elem?, set, get_last?, take, drop, replicate, take-append-drop, take-append,
  drop-append, length-append, length-take_le, get_elem?-take, get_elem?-eq_none, get_elem?-some,
  get_elem?-append_lt, get_elem?-append_last, length-set, get_elem?-set_self, get_elem?-set_ne,
  get_last?-append, has, ℤ, pos_part, neg_part, sub_ℕ, ◌+ℤ◌, ◌-ℤ◌, ◌≤ℤ◌, ◌<ℤ◌, ltb_ℤ, leb_ℤ, eqb_ℤ,
  half_ℤ, to_int, to_unsigned, +ℤ_parts, -ℤ_parts, eq_of_parts, eqb_ℤ→eq, ne→eqb_ℤ, +ℤ_assoc,
  +ℤ-pos, -ℤ-pos, suc-sub-one, int_laws, pos, negsuc, ℕ, zero, suc, ◌+◌, ◌-◌, ◌*◌, ◌/◌, ◌%◌, ◌^◌,
  ◌≤◌, ◌<◌, ◌≡◌, refl, sym, ap, ◌∙◌, ◌≢◌, ◌↔◌, ◌⊎◌, inl, inr, Bool, true, false, not, ◌&&◌, ◌||◌,
  Option, none, some, List, [], ◌∷◌, ◌++◌, map, arith,
}
use cpp_raft.Node.{
  Ptr, null, RaftNode, initial_ping_count, new_node, increment_lock2, decrement_lock2,
  mark_will_be_deleted, ping_received, set_unable_to_vote, set_next_idx, set_votes_for_me,
  set_udata, make_leader, reset_leader, increment_ok_count, ping,
}
use cpp_raft.Server.State.{Server, update}
use cpp_raft.Server.Election.{become_leader as raft_become_leader}
use cpp_raft.Sockets.Stream.{SocketTcp, new_socket}
use cpp_raft.Tcp.Keys.{Text, NodeIdentifierKey}
use cpp_raft.Tcp.Requests.{internal_become_leader}
use cpp_raft.Tcp.State.{
  NodeTools, WorkRequest, Pear, WorkerData, TcpServer, Ending, Action, None, and_then, ◌>>=◌, ◌>>◌,
  pure, gets, modify, undefined_action, exits_action, node_at, change_raft, change_node, tools_of,
  set_tools, no_request, handle_connection, handle_receive, handle_internal, nothing, con, rcv,
  intr, returns, throws, waits, undefined, exits, out_of_fuel,
}

-- `SWorkerData::SWorkerData`
unfoldable pub new_worker_data : WorkRequest → WorkerData
new_worker_data type = record {
  req_type = type;
  node = null;
  node_key = record { port = pos 0; ip4_address = [] };
  pear = nothing;
  extra = [];
}

-- `m_fifoWorker.AddElement2` and `m_semaWorker.post`
unfoldable pub add_job : WorkerData → TcpServer → TcpServer
add_job j t = record t { jobs = t.jobs ++ j ∷ []; sema_worker = t.sema_worker + 1 }

-- The switch of `AddJobForWorkerPrivate`, behind the lock.
unfoldable pub fill_job : WorkRequest → ℕ → Ptr → Text → SocketTcp → TcpServer → TcpServer
unfolding new_worker_data add_job
fill_job handle_connection c_request p remote sock =
    add_job (record (new_worker_data handle_connection) { node = null; pear = con remote sock })
fill_job handle_internal c_request p remote sock =
    add_job (record (new_worker_data handle_internal) { node = p; pear = intr c_request })
fill_job _ c_request p remote sock = λ t. t

unfoldable pub lock_node : Ptr → TcpServer → TcpServer
unfolding increment_lock2
lock_node p = change_raft (λ s. record s { store = update p increment_lock2 s.store })

unfoldable pub add_job_for_worker_private :
    WorkRequest → ℕ → Ptr → Text → SocketTcp → TcpServer → TcpServer
unfolding fill_job lock_node
add_job_for_worker_private type c_request p remote sock t =
    if p == null
    then fill_job type c_request p remote sock t
    else if (node_at p t).is_marked_for_delete == 1
    then t
    else fill_job type c_request p remote sock (lock_node p t)

-- `AddClient` hands every connection on.
unfoldable pub add_connect_for_worker : Text → SocketTcp → TcpServer → TcpServer
unfolding add_job_for_worker_private
add_connect_for_worker remote sock = add_job_for_worker_private handle_connection 0 null remote sock

unfoldable pub add_internal_for_worker : ℕ → Ptr → TcpServer → TcpServer
unfolding add_job_for_worker_private new_socket
add_internal_for_worker c_request p =
    add_job_for_worker_private handle_internal c_request p [] new_socket

-- The number of jobs in the queue that name a node.
abbrev pub jobs_of : Ptr → List WorkerData → ℕ
jobs_of p [] = 0
jobs_of p (j ∷ js) = to_nat (j.node == p) + jobs_of p js

-- Every node is locked once for each of its jobs.
abbrev pub Locked : TcpServer → Type 0
Locked t = (p : Ptr) → p ≢ null → (node_at p t).locks_count ≡ pos (jobs_of p t.jobs)
