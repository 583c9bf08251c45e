-- ===== src/Tests/Tcp.antt =====
-- Servers with sockets, nodes, jobs and messages on which the theorems are applied.
use cpp_raft.Base.{
  ◌==◌, if◌then◌else◌, length, half_ℤ, ltb_ℤ, leb_ℤ, ℤ, pos, negsuc, ℕ, ◌+◌, ◌*◌, ◌^◌, ◌<◌, ◌≡◌,
  refl, Bool, true, false, Option, none, some, List, [], ◌∷◌, ◌++◌, arith,
}
use cpp_raft.Msg.{requestvote}
use cpp_raft.Node.{Ptr, null, RaftNode, new_node, increment_lock2}
use cpp_raft.Server.State.{Server, at_node}
use cpp_raft.Server.Members.{find_node}
use cpp_raft.Sockets.Stream.{is_open_c, write_c, write_loop}
use cpp_raft.Sockets.Connecting.{ConnectAnswers}
use cpp_raft.Tcp.State.{
  WorkerData, handle_internal, intr, NodeTools, TcpServer, Ending, returns, waits, node_at,
  set_tools,
}
use cpp_raft.Tcp.Keys.{NodeIdentifierKey, key_bytes}
use cpp_raft.Tcp.Requests.{adder_new_node, clbk_cmd}
use cpp_raft.Tcp.Tools.{raft_index, write_node}
use cpp_raft.Tcp.Jobs.{new_worker_data, jobs_of, Locked, lock_node, add_internal_for_worker}
use cpp_raft.Tcp.Jobs.Locking.{
  Reach, here, next, internal, drop, stops, take_job, LockedFor, LockedFor-Locked, Reach-Locked,
}
use cpp_raft.Tcp.Members.{remove_node1}
use cpp_raft.Tcp.Members.Waiting.{removed, only_marked, remove_node1-waits}
use cpp_raft.Tcp.Sending.{send_clbk_function, send_seen, unseen_time}
use cpp_raft.Tcp.Sending.Readiness.{send_clbks, counted_out, send_clbks_ready}
use cpp_raft.Tcp.Exchange.{send_information_to_node}
use cpp_raft.Tcp.Exchange.Reading.{incoming_of, after_read}
use cpp_raft.Tcp.Exchange.Writing.{outgoing_of, Takes}
use cpp_raft.Tcp.Receiving.{queue_request, receive_from_socket_and_inform}
use cpp_raft.Tcp.Receiving.Unread.{unread_is_request}
use cpp_raft.Tcp.Receiving.RoundTrip.{IsKey, new_node_job, receive-send_information}
use cpp_raft.Tests.Bytes.{a_key, an_address}
use cpp_raft.Tests.{cluster, a_request}

-- Nodes that have their tools at their own address.
abbrev pub nodes_store : Ptr → RaftNode
nodes_store p = record (new_node 0) {
  key = key_bytes a_key;
  udata = p;
  ok_count = negsuc 0;
  votes_for_me = pos 0;
}

abbrev unreachable : ConnectAnswers
unreachable = record {
  socket = negsuc 0;
  gethostname = pos 0;
  is_address = true;
  has_entry = false;
  entry_is_address = false;
  connect = negsuc 0;
  in_progress = false;
  select = pos 0;
  interrupted = false;
  is_set = false;
  incoming = [];
  answers = [];
}

abbrev pub tools_with : List ℕ → Ptr → NodeTools
tools_with bytes p = record {
  raft_socket = record { socket = pos 5; incoming = bytes; outgoing = []; answers = [] };
  data1_socket = record { socket = pos 6; incoming = []; outgoing = []; answers = [] };
  is_endian_differ = 0;
  reconnect = unreachable;
}

abbrev pub tcp_server : List ℕ → TcpServer
tcp_server bytes = record {
  raft = record cluster { store = nodes_store; election_timeout = pos 20000; nodes = 10 ∷ 11 ∷ [] };
  tools = tools_with bytes;
  leader_node = null;
  work = true;
  period = pos 1000;
  port_own = pos 9000;
  jobs = [];
  sema_worker = 0;
  sema_duplicates = 0;
  possible_nodes = [];
  server_start_time = 0;
  unset = pos 0;
}

unlocked : Locked (tcp_server [])
unfolding new_node
unlocked p ne = refl

-- The server has put a job for the node 10 into its queue.
abbrev with_job : TcpServer
with_job = add_internal_for_worker 8 10 (tcp_server [])

one_job : jobs_of 10 with_job.jobs ≡ 1
unfolding add_internal_for_worker new_node
one_job = refl

-- The server is stopped, and a worker drops the job.
abbrev at_stop : TcpServer
at_stop = record with_job { work = false }

abbrev the_job : WorkerData
the_job = record {
  req_type = handle_internal;
  node = 10;
  node_key = record { port = pos 0; ip4_address = [] };
  pear = intr 8;
  extra = [];
}

the_jobs : at_stop.jobs ≡ the_job ∷ []
unfolding add_internal_for_worker new_worker_data new_node
the_jobs = refl

job_dropped : Reach (tcp_server []) (the_job ∷ []) (take_job the_job [] at_stop)
unfolding add_internal_for_worker
job_dropped =
    next (next (next here (internal (tcp_server []) 8 10)) (stops with_job))
      (drop at_stop the_job [] refl the_jobs)

Reach-Locked_example : LockedFor (the_job ∷ []) (take_job the_job [] at_stop)
Reach-Locked_example = Reach-Locked job_dropped unlocked

with_job-Locked : Locked with_job
with_job-Locked =
    LockedFor-Locked with_job (Reach-Locked (next here (internal (tcp_server []) 8 10)) unlocked)

one_lock : (node_at 10 with_job).locks_count ≡ pos 1
unfolding add_internal_for_worker lock_node increment_lock2 new_node cpp_raft.Server.State.update
    cpp_raft.Base.◌+ℤ◌
one_lock = refl

remove_node1-waits_example : remove_node1 (key_bytes a_key) with_job ≡ (
    if jobs_of 10 with_job.jobs == 0
    then returns tt (removed 10 with_job)
    else waits (only_marked 10 with_job))
unfolding find_node add_internal_for_worker lock_node new_node cpp_raft.Server.State.update
    cpp_raft.Base.to_unsigned
remove_node1-waits_example =
    remove_node1-waits (key_bytes a_key) 10 with_job (omega arith) with_job-Locked refl

-- Settings that are too small are raised.
abbrev hasty : TcpServer
hasty = record (tcp_server []) { period = pos 1 }

send_clbks_ready_example :
    (send_clbks 50 10 (requestvote (a_request 1 1) ∷ []) (tcp_server [])
      ≡ returns tt (counted_out 10 (tcp_server [])))
    × (send_clbk_function 50 10 (requestvote (a_request 1 1)) (counted_out 10 (tcp_server []))
        ≡ send_seen
            (unseen_time 50 10 (counted_out 10 (tcp_server [])))
            10
            (requestvote (a_request 1 1))
            (counted_out 10 (tcp_server [])))
send_clbks_ready_example =
    send_clbks_ready 50 10 0 (requestvote (a_request 1 1) ∷ []) (requestvote (a_request 1 1))
      (tcp_server []) refl refl

abbrev asked : TcpServer
asked = tcp_server (clbk_cmd ∷ 0 ∷ 0 ∷ 0 ∷ 0 ∷ 1 ∷ 2 ∷ [])

unread_is_request_example :
    (u : TcpServer) × (receive_from_socket_and_inform 50 10 raft_index asked ≡ returns tt u)
    × (u.raft.current_term ≡ asked.raft.current_term)
    × (u.raft.voted_for ≡ asked.raft.voted_for)
    × (u.raft.sent ≡ asked.raft.sent)
    × (incoming_of 10 u ≡ 1 ∷ 2 ∷ [])
    × (receive_from_socket_and_inform 60 10 raft_index u
        ≡ queue_request 60 10 raft_index 1 (after_read 10 (2 ∷ []) u))
unfolding is_open_c half_ℤ new_node cpp_raft.Server.State.new_server
unread_is_request_example = unread_is_request 50 60 10 1 (2 ∷ []) asked refl refl refl refl

-- A server tells its node 10 of a new node, and the other end receives it.
abbrev new_key : NodeIdentifierKey
new_key = record { port = pos 8001; ip4_address = an_address }

abbrev telling : Ending Bool
telling =
    send_information_to_node 10 raft_index adder_new_node (some (7 ∷ [])) (some new_key)
      (tcp_server [])

abbrev state_or : TcpServer → Ending Bool → TcpServer
state_or t (returns done u) = u
state_or t _ = t

abbrev after_telling : TcpServer
after_telling = state_or (tcp_server []) telling

abbrev listening : TcpServer
listening = tcp_server (outgoing_of 10 after_telling ++ 9 ∷ [])

new_key-IsKey : IsKey new_key
new_key-IsKey = record { port = omega arith; size = refl }

takes : Takes 10 (tcp_server [])
unfolding is_open_c
takes = record { open_socket = refl; answers = refl }

told_all :
    send_information_to_node 10 raft_index adder_new_node
      (some (7 ∷ []))
      (some new_key)
      (tcp_server [])
    ≡ returns true after_telling
unfolding send_information_to_node write_c write_loop write_node is_open_c new_node set_tools
told_all = refl

unknown_key : find_node (key_bytes new_key) listening.raft ≡ none
unfolding find_node new_node cpp_raft.Base.to_unsigned
unknown_key = refl

receive-send_information_example :
    (t : TcpServer) × (receive_from_socket_and_inform 50 11 raft_index listening ≡ returns tt t)
    × (incoming_of 11 t ≡ 9 ∷ [])
    × (t.jobs ≡ new_node_job 11 new_key (7 ∷ []) ∷ [])
    × ((node_at 11 t).locks_count ≡ pos 1)
unfolding is_open_c new_node cpp_raft.Base.◌+ℤ◌
receive-send_information_example =
    receive-send_information 50 10 11 new_key (7 ∷ []) (9 ∷ []) (tcp_server []) after_telling
      listening new_key-IsKey (omega arith) takes refl told_all refl refl refl unknown_key refl
