-- ===== src/Tcp/Stopping.antt =====
-- tcp/raft_tcp_server.cpp: how the threads of the Raft server are started and stopped. A thread is
-- a number, given in the order of the starts.
pub mod Starting
pub mod Listening
pub mod Joining
pub mod Working
use cpp_raft.Base.{
  ltb, get_elem?, set, ◌==◌, if◌then◌else◌, length, ℤ, ltb_ℤ, pos, negsuc, ℕ, zero, suc, ◌+◌, ◌≡◌,
  refl, Bool, true, false, not, Option, none, some, List, [], ◌∷◌, ◌++◌, map, ◌&&◌,
}
use cpp_raft.Sockets.Listener.{
  ServerTcp, WorkStatus, AcceptAnswer, CreateAnswers, is_run, start_server_s, stop_server,
  run_server,
}

pub record ServerThreads : Type 0 where
  pub work : Bool
  pub intrpt_socket_for_rcv : List ℤ
  pub rcv_thread_ids : List ℕ
  pub periodic_thread_id : ℕ
  pub fix_double_cycles : Option ℕ
  pub tcp_listen : Option ℕ
  pub periodic : Option ℕ
  pub receives : List (Option ℕ)
  pub workers : List ℕ
  pub other_periodic : List ℕ
  pub sema_worker : ℕ
  pub sema_duplicates : ℕ
  pub server_tcp : ServerTcp
  pub listen_ended : Bool
  pub next_thread : ℕ
  pub joined : List ℕ
  pub killed : List (ℕ × ℕ)
  pub closed : List ℤ

-- A call returns, ends the program, or waits for a thread that does not end.
pub data Stop : Type 0 where
  returns : ServerThreads → Stop
  terminates : Stop
  waits : ServerThreads → Stop

abbrev pub and_then : Stop → (ServerThreads → Stop) → Stop
and_then (returns s) f = f s
and_then terminates f = terminates
and_then (waits s) f = waits s

-- Assigning a new thread to a thread that can be joined ends the program, as does joining one that
-- cannot.
abbrev pub no_thread : Option ℕ → Bool
no_thread none = true
no_thread (some n) = false

abbrev pub all_free : List (Option ℕ) → Bool
all_free [] = true
all_free (none ∷ slots) = all_free slots
all_free (some n ∷ slots) = false

-- The numbers of some new threads.
abbrev pub numbers : ℕ → ℕ → List ℕ
numbers first zero = []
numbers first (suc n) = first ∷ numbers (suc first) n

abbrev pub started : ℕ → List (Option ℕ) → List (Option ℕ)
started first [] = []
started first (_ ∷ slots) = some first ∷ started (suc first) slots

-- The thread that listens, with what the system answers to it.
unfoldable pub start_receives : ServerThreads → Stop
start_receives s =
    if all_free s.receives
    then returns (record s {
      receives = started s.next_thread s.receives;
      next_thread = s.next_thread + length s.receives;
    })
    else terminates

unfoldable pub start_workers : ℕ → ServerThreads → Stop
start_workers workers_count s = returns (record s {
  workers = s.workers ++ numbers s.next_thread workers_count;
  next_thread = s.next_thread + workers_count;
})

-- `a = std::thread(...)` for the three threads of their own.
unfoldable pub start_threads : ServerThreads → Stop
start_threads s =
    if no_thread s.fix_double_cycles && (no_thread s.tcp_listen && no_thread s.periodic)
    then returns (record s {
      fix_double_cycles = some s.next_thread;
      tcp_listen = some (s.next_thread + 1);
      listen_ended = false;
      periodic = some (s.next_thread + 2);
      next_thread = s.next_thread + 3;
    })
    else terminates

-- `RunAllThreadPrivate`, with what `CreateEmptySocket` returns.
unfoldable pub run_all_thread_private : List ℤ → ℕ → ServerThreads → Stop
unfolding start_threads start_receives start_workers
run_all_thread_private empty_sockets workers_count s =
    if s.work
    then returns s
    else and_then
        (and_then (start_threads (record s { work = true; intrpt_socket_for_rcv = empty_sockets }))
          start_receives)
        (start_workers workers_count)

-- `StartOtherPeriodic`, without the callback.
unfoldable pub start_other_periodic : ServerThreads → ServerThreads
start_other_periodic s = record s {
  other_periodic = s.other_periodic ++ s.next_thread ∷ [];
  next_thread = s.next_thread + 1;
}

abbrev pub sigint : ℕ
sigint = 2

abbrev pub sigpipe : ℕ
sigpipe = 13

-- `pthread_kill`, for a thread that has said its name.
abbrev pub kill_thread : ℕ → ℕ → List (ℕ × ℕ)
kill_thread signal id = if id == 0 then [] else (id, signal) ∷ []

unfoldable pub interrupt_periodic_thread : ServerThreads → ServerThreads
interrupt_periodic_thread s = record s {
  killed = s.killed ++ kill_thread sigint s.periodic_thread_id;
}

abbrev pub kill_all : ℕ → List ℕ → List (ℕ × ℕ)
kill_all signal [] = []
kill_all signal (id ∷ ids) = kill_thread signal id ++ kill_all signal ids

abbrev minus_one : ℤ → ℤ
minus_one i = negsuc 0

-- `VALIDATE_INDEX_INVALID`, of an index that is not negative.
abbrev pub valid_index : ℕ → Bool
valid_index index = ltb index 2

abbrev id_at : List ℕ → ℕ → ℕ
id_at ids index = elim (get_elem? ids index) [ none ↦ 0 | some id ↦ id ]

abbrev pub replace_socket : ℕ → ℤ → ServerThreads → ServerThreads
replace_socket index new_socket s = elim (get_elem? s.intrpt_socket_for_rcv index) [
  | none ↦ s
  | some old ↦
      if ltb_ℤ (pos 0) old
      then record s {
        intrpt_socket_for_rcv = set s.intrpt_socket_for_rcv index new_socket;
        closed = s.closed ++ old ∷ [];
      }
      else s
]

-- The socket of a receiver is replaced by the one that `CreateEmptySocket` returns, and the old one
-- closed, which wakes the receiver from its `select`.
unfoldable pub interrupt_receiverc_thread : ℕ → ℤ → ServerThreads → ServerThreads
interrupt_receiverc_thread index new_socket s =
    if valid_index index
    then (let t = replace_socket index new_socket s in
        record t { killed = t.killed ++ kill_thread sigpipe (id_at s.rcv_thread_ids index) })
    else s

-- The loop that closes the sockets by which the receivers are interrupted.
unfoldable pub close_receivers : ServerThreads → ServerThreads
close_receivers s = record s {
  closed = s.closed ++ s.intrpt_socket_for_rcv;
  intrpt_socket_for_rcv = map minus_one s.intrpt_socket_for_rcv;
  killed = s.killed ++ kill_all sigpipe s.rcv_thread_ids;
}

-- The joins of the threads of the user, where these return.
unfoldable pub join_other_periodic : ServerThreads → ServerThreads
join_other_periodic s = record s { joined = s.joined ++ s.other_periodic; other_periodic = [] }

-- The posts, and the joins behind them, where these return.
unfoldable pub join_workers : ServerThreads → ServerThreads
join_workers s = record s {
  sema_worker = s.sema_worker + length s.workers;
  joined = s.joined ++ s.workers;
  workers = [];
}

abbrev pub joinable : List (Option ℕ) → Bool
joinable [] = true
joinable (none ∷ slots) = false
joinable (some n ∷ slots) = joinable slots

abbrev pub threads_of : List (Option ℕ) → List ℕ
threads_of [] = []
threads_of (none ∷ slots) = threads_of slots
threads_of (some n ∷ slots) = n ∷ threads_of slots

abbrev pub free_all : List (Option ℕ) → List (Option ℕ)
free_all [] = []
free_all (_ ∷ slots) = none ∷ free_all slots

unfoldable pub join_receives : ServerThreads → Stop
join_receives s =
    if joinable s.receives
    then returns
        (record s { joined = s.joined ++ threads_of s.receives; receives = free_all s.receives })
    else terminates

unfoldable pub join_periodic : ServerThreads → Stop
join_periodic s = elim s.periodic [
  | none ↦ terminates
  | some n ↦ returns (record s { joined = s.joined ++ n ∷ []; periodic = none })
]

-- What the thread that listens does from then on: it is in the loop over what the system answers,
-- or behind it, or `ThreadFunctionListen` has still to open the socket and to enter the loop.
unfoldable pub listens : ℕ → CreateAnswers → List AcceptAnswer → ServerThreads → ServerTcp
unfolding run_server start_server_s
listens n a answers s =
    if is_run s.server_tcp.work_status
    then (run_server n answers s.server_tcp).1
    else if s.listen_ended
    then s.server_tcp
    else (start_server_s n a answers s.server_tcp).2

-- The thread that listens is left when its loop has ended, or was not entered.
unfoldable pub join_tcp_listen : CreateAnswers → List AcceptAnswer → ServerThreads → Stop
unfolding listens
join_tcp_listen a answers s = elim s.tcp_listen [
  | none ↦ terminates
  | some n ↦
      let u = listens n a answers s in
      if is_run u.work_status
      then waits (record s { server_tcp = u })
      else returns (record s {
        server_tcp = u;
        listen_ended = true;
        joined = s.joined ++ n ∷ [];
        tcp_listen = none;
      })
]

unfoldable pub join_fix_double_cycles : ServerThreads → Stop
join_fix_double_cycles s = elim s.fix_double_cycles [
  | none ↦ terminates
  | some n ↦ returns (record s { joined = s.joined ++ n ∷ []; fix_double_cycles = none })
]

-- What is done before the first join.
unfoldable pub begin_stop : ℕ → ServerThreads → ServerThreads
unfolding interrupt_periodic_thread close_receivers stop_server
begin_stop thread s =
    let t = close_receivers (interrupt_periodic_thread (record s { work = false })) in
    record t {
      server_tcp = (stop_server thread t.server_tcp).1;
      sema_duplicates = t.sema_duplicates + 1;
    }

-- The joins of the threads that have no field of their own, where they return.
unfoldable pub stop_workers : ℕ → ServerThreads → ServerThreads
unfolding begin_stop join_other_periodic join_workers
stop_workers thread s = join_workers (join_other_periodic (begin_stop thread s))

-- `Server::StopServer`, on a thread: whether the other threads that are joined come to their end, is
-- an argument, as is what the system answers to the thread that listens from then on. If one of them
-- does not end, the stop waits in its join; the joins that have returned before are not noted then.
unfoldable pub stop_all : ℕ → Bool → CreateAnswers → List AcceptAnswer → ServerThreads → Stop
unfolding stop_workers join_receives join_periodic join_tcp_listen join_fix_double_cycles begin_stop
stop_all thread others_end a answers s =
    if s.work
    then (if others_end
        then and_then
            (and_then (and_then (join_receives (stop_workers thread s)) join_periodic)
              (join_tcp_listen a answers))
            join_fix_double_cycles
        else waits (begin_stop thread s))
    else returns s
