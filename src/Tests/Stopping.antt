-- ===== src/Tests/Stopping.antt =====
-- A server whose threads are started and stopped, and what its receiving thread watches.
use cpp_raft.Base.{
  ltb_ℤ, length, ℤ, pos, negsuc, ℕ, ◌+◌, ◌*◌, ◌≤◌, ◌≡◌, ◌⊎◌, inr, refl, true, false, none, some,
  List, [], ◌∷◌,
}
use cpp_raft.Sums.{total, times}
use cpp_raft.Outcome.{ok}
use cpp_raft.Sockets.Listener.{
  CreateAnswers, AcceptAnswer, timed_out, connected, select_failed, run, is_run, ServerTcp,
}
use cpp_raft.Tcp.Stopping.{
  ServerThreads, returns, waits, stop_all, stop_workers, start_other_periodic,
}
use cpp_raft.Tcp.Stopping.Starting.{
  Stopped, Running, within, running, running-Running, start_other_periodic-Running,
}
use cpp_raft.Tcp.Stopping.Joining.{stop_all-joins, stop_all-waits}
use cpp_raft.Tcp.Stopping.Working.{
  shared, waiting, extracting, Moves, here, move, wakes, Settled, CanMove, left, stuck, workers_end,
}
use cpp_raft.Tcp.Tools.{raft_index}
use cpp_raft.Tcp.Selecting.{prepare_select}
use cpp_raft.Tcp.Selecting.Watching.{AllAtMost, prepare_select-watched}
use cpp_raft.Tests.Tcp.{tcp_server}

abbrev listener : ServerTcp
listener = record { work_status = run; server_thread_id = 2; socket = pos 4 }

-- No threads yet, and those that follow are numbered from 1 on.
abbrev resting : ServerThreads
resting = record {
  work = false;
  intrpt_socket_for_rcv = negsuc 0 ∷ negsuc 0 ∷ [];
  rcv_thread_ids = 0 ∷ 0 ∷ [];
  periodic_thread_id = 0;
  fix_double_cycles = none;
  tcp_listen = none;
  periodic = none;
  receives = none ∷ none ∷ [];
  workers = [];
  other_periodic = [];
  sema_worker = 0;
  sema_duplicates = 0;
  server_tcp = listener;
  listen_ended = false;
  next_thread = 1;
  joined = [];
  killed = [];
  closed = [];
}

resting-Stopped : Stopped resting
resting-Stopped = record {
  idle = refl;
  no_fix = refl;
  no_listen = refl;
  no_periodic = refl;
  no_receives = refl;
  no_workers = refl;
  no_others = refl;
}

-- Three workers, and a periodic thread of the user.
abbrev at_work : ServerThreads
at_work = start_other_periodic (running (pos 7 ∷ pos 8 ∷ []) 3 resting)

at_work-Running : Running 1 at_work
at_work-Running =
    start_other_periodic-Running 1 (running (pos 7 ∷ pos 8 ∷ []) 3 resting)
      (running-Running (pos 7 ∷ pos 8 ∷ []) 3 resting resting-Stopped)

-- The socket can be opened.
abbrev opens : CreateAnswers
opens = record { socket = pos 4; gethostname = pos 0; bind = pos 0; listen = pos 0 }

-- A connection comes, and then an error.
abbrev broken_off : List AcceptAnswer
broken_off = timed_out ∷ connected 9 1 ∷ select_failed ∷ []

stop_all-joins_example :
    (v : ServerThreads) × (stop_all 0 true opens broken_off at_work ≡ returns v)
    × Stopped v
    × ((i : ℕ) → times i v.joined ≡ times i at_work.joined + within 1 at_work.next_thread i)
    × (v.next_thread ≡ at_work.next_thread)
    × (v.sema_worker ≡ at_work.sema_worker + length at_work.workers)
    × (stop_all 0 true opens broken_off v ≡ returns v)
stop_all-joins_example =
    stop_all-joins 0 1 opens broken_off at_work at_work-Running (inr (inr refl))

runs_on : is_run at_work.server_tcp.work_status ≡ true
unfolding start_other_periodic
runs_on = refl

stop_all-waits_example :
    (v : ServerThreads) × (stop_all 0 true opens (timed_out ∷ connected 9 1 ∷ []) at_work ≡ waits v)
    × (v.work ≡ false)
    × (v.tcp_listen ≡ at_work.tcp_listen)
    × (is_run v.server_tcp.work_status ≡ true)
stop_all-waits_example =
    stop_all-waits 0 1 true opens (timed_out ∷ connected 9 1 ∷ []) at_work at_work-Running runs_on
      refl

-- Two workers wait and one has a job when the server is stopped, and one of them wakes.
abbrev three_workers : ServerThreads
three_workers = record resting { work = true; workers = 6 ∷ 7 ∷ 8 ∷ [] }

one_wakes :
    Moves
      (shared (stop_workers 0 three_workers).work (stop_workers 0 three_workers).sema_worker 0)
      (waiting ∷ waiting ∷ extracting ∷ [])
      1
      (shared false 2 0)
      (waiting ∷ extracting ∷ extracting ∷ [])
unfolding stop_workers
one_wakes = move (waiting ∷ []) waiting extracting (extracting ∷ []) here wakes

workers_end_example :
    (1 + total left (waiting ∷ extracting ∷ extracting ∷ []) ≤ 3 * length three_workers.workers)
    × (Settled (waiting ∷ extracting ∷ extracting ∷ [])
        ⊎ CanMove (shared false 2 0) (waiting ∷ extracting ∷ extracting ∷ []))
    × (total stuck (waiting ∷ extracting ∷ extracting ∷ []) ≡ 0)
workers_end_example =
    workers_end 0 three_workers 0 (waiting ∷ waiting ∷ extracting ∷ []) 1 (shared false 2 0)
      (waiting ∷ extracting ∷ extracting ∷ []) refl one_wakes

prepare_select-watched_example :
    (m : ℤ) × (prepare_select (pos 3) raft_index (negsuc 0) none (tcp_server [])
      ≡ ok (record {
        read_fds = pos 5 ∷ [];
        error_fds = pos 3 ∷ pos 5 ∷ [];
        count_in_fd = 2;
        max = some m;
      }))
    × (ltb_ℤ m (pos 3) ≡ false)
    × AllAtMost m (pos 5 ∷ [])
prepare_select-watched_example =
    prepare_select-watched (pos 3) (negsuc 0) none (tcp_server []) refl refl (refl, tt)
