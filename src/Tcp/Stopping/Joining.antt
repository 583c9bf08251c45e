-- ===== src/Tcp/Stopping/Joining.antt =====
-- The threads of the Raft server that a stop joins.
use cpp_raft.Base.{
  length, ℕ, ◌+◌, ◌≡◌, refl, ap, ◌∙◌, Bool, true, false, not, none, some, List, [], ◌∷◌, ◌++◌,
  arith,
}
use cpp_raft.Sums.{times, times-append}
use cpp_raft.Sockets.Listener.{
  CreateAnswers, AcceptAnswer, is_run, run_server, any_error, stop_server-keeps,
}
use cpp_raft.Tcp.Stopping.{
  ServerThreads, Stop, returns, waits, and_then, threads_of, free_all, stop_workers, listens,
  begin_stop, join_tcp_listen, join_fix_double_cycles, stop_all,
}
use cpp_raft.Tcp.Stopping.Listening.{Ends, run_server-status, listens-Ends}
use cpp_raft.Tcp.Stopping.Starting.{within, Stopped, Running, all_free-free_all}

-- The state behind the joins of all threads but the one that listens and the last.
abbrev stopping : ℕ → ℕ → ServerThreads → ServerThreads
stopping thread ticks s =
    let t = stop_workers thread s in
    record t {
      server_tcp = s.server_tcp;
      joined = (t.joined ++ threads_of s.receives) ++ ticks ∷ [];
      receives = free_all s.receives;
      periodic = none;
    }

stops :
    (thread low : ℕ) (a : CreateAnswers) (answers : List AcceptAnswer) (s : ServerThreads)
    (k : Running low s)
    → stop_all thread true a answers s
      ≡ and_then (join_tcp_listen a answers (stopping thread k.ticks s)) join_fix_double_cycles
unfolding stop_all begin_stop
stops thread low a answers s k =
    rw (k.at_work, k.has_receives, k.has_periodic, stop_server-keeps thread s.server_tcp) refl

-- The state behind a wait for the thread that listens.
abbrev pub listening : List AcceptAnswer → ℕ → ServerThreads → ServerThreads
listening answers n s = record s { server_tcp = (run_server n answers s.server_tcp).1 }

join-waits :
    (a : CreateAnswers) (answers : List AcceptAnswer) (n : ℕ) (s : ServerThreads)
    → s.tcp_listen ≡ some n
    → is_run s.server_tcp.work_status ≡ true
    → any_error answers ≡ false
    → join_tcp_listen a answers s ≡ waits (listening answers n s)
unfolding join_tcp_listen listens
join-waits a answers n s has runs_on fine =
    let still = run_server-status n answers s.server_tcp ∙ ap not fine in
    rw (has, runs_on, still) refl

join-returns :
    (a : CreateAnswers) (answers : List AcceptAnswer) (n : ℕ) (s : ServerThreads)
    → s.tcp_listen ≡ some n
    → Ends a answers s
    → join_tcp_listen a answers s
      ≡ returns (record s {
        server_tcp = listens n a answers s;
        listen_ended = true;
        joined = s.joined ++ n ∷ [];
        tcp_listen = none;
      })
unfolding join_tcp_listen
join-returns a answers n s has ends = rw (has, listens-Ends n a answers s ends) refl

stops_nowhere :
    (thread : ℕ) (a : CreateAnswers) (answers : List AcceptAnswer) (s : ServerThreads)
    → s.work ≡ true
    → stop_all thread false a answers s ≡ waits (begin_stop thread s)
unfolding stop_all
stops_nowhere thread a answers s h = rw h refl

-- A stop of a server whose threads run does not return if the socket that listens has been opened
-- and gets no error: `ServerTCP::StopServer` changes nothing, so that the thread that listens goes
-- on, and the stop waits for it, if not for another thread before.
pub stop_all-waits :
    (thread low : ℕ) (others_end : Bool) (a : CreateAnswers) (answers : List AcceptAnswer)
    (s : ServerThreads)
    → Running low s
    → is_run s.server_tcp.work_status ≡ true
    → any_error answers ≡ false
    → (v : ServerThreads) × (stop_all thread others_end a answers s ≡ waits v)
      × (v.work ≡ false)
      × (v.tcp_listen ≡ s.tcp_listen)
      × (is_run v.server_tcp.work_status ≡ true)
unfolding stop_workers begin_stop
stop_all-waits thread low true a answers s k runs_on fine = (
  listening answers k.listen (stopping thread k.ticks s),
  stops thread low a answers s k
      ∙ ap (λ (r : Stop). and_then r join_fix_double_cycles)
          (join-waits a answers k.listen (stopping thread k.ticks s) k.has_listen runs_on fine),
  refl,
  refl,
  run_server-status k.listen answers s.server_tcp ∙ ap not fine,
)
stop_all-waits thread low false a answers s k runs_on fine = (
  begin_stop thread s,
  stops_nowhere thread a answers s k.at_work,
  refl,
  refl,
  rw (stop_server-keeps thread s.server_tcp) runs_on,
)

join-fix :
    (n : ℕ) (s : ServerThreads)
    → s.fix_double_cycles ≡ some n
    → join_fix_double_cycles s
      ≡ returns (record s { joined = s.joined ++ n ∷ []; fix_double_cycles = none })
unfolding join_fix_double_cycles
join-fix n s has = rw has refl

stops_again :
    (thread : ℕ) (a : CreateAnswers) (answers : List AcceptAnswer) (s : ServerThreads)
    → s.work ≡ false
    → stop_all thread true a answers s ≡ returns s
unfolding stop_all
stops_again thread a answers s h = rw h refl

times-joined :
    (i : ℕ) (before others workers receives : List ℕ) (a b c : ℕ)
    → times i ((((((before ++ others) ++ workers) ++ receives) ++ a ∷ []) ++ b ∷ []) ++ c ∷ [])
      ≡ times i before
        + (times i others + times i workers + times i receives + times i (a ∷ b ∷ c ∷ []))
times-joined i before others workers receives a b c =
    let xs = before ++ others in
    let ys = xs ++ workers in
    let zs = ys ++ receives in
    omega (
      arith,
      times-append i ((zs ++ a ∷ []) ++ b ∷ []) (c ∷ []),
      times-append i (zs ++ a ∷ []) (b ∷ []),
      times-append i zs (a ∷ []),
      times-append i ys receives,
      times-append i xs workers,
      times-append i before others,
    )

-- A stop of a server whose threads run returns if the other threads come to their end, and the
-- thread that listens has ended, or has not entered its loop and cannot open the socket, or gets an
-- error. Then no thread is there, each thread that was started has been joined once more than before
-- and no other, and the semaphore of the workers was posted once for each of them. A second stop
-- changes nothing.
pub stop_all-joins :
    (thread low : ℕ) (a : CreateAnswers) (answers : List AcceptAnswer) (s : ServerThreads)
    → Running low s
    → Ends a answers s
    → (v : ServerThreads) × (stop_all thread true a answers s ≡ returns v)
      × Stopped v
      × ((i : ℕ) → times i v.joined ≡ times i s.joined + within low s.next_thread i)
      × (v.next_thread ≡ s.next_thread)
      × (v.sema_worker ≡ s.sema_worker + length s.workers)
      × (stop_all thread true a answers v ≡ returns v)
unfolding stop_workers begin_stop
stop_all-joins thread low a answers s k ends =
    let t = stopping thread k.ticks s in
    let u = record t {
      server_tcp = listens k.listen a answers t;
      listen_ended = true;
      joined = t.joined ++ k.listen ∷ [];
      tcp_listen = none;
    } in
    let v = record u { joined = u.joined ++ k.fix ∷ []; fix_double_cycles = none } in
    (
      v,
      stops thread low a answers s k
          ∙ ap (λ (r : Stop). and_then r join_fix_double_cycles)
              (join-returns a answers k.listen t k.has_listen ends)
          ∙ join-fix k.fix u k.has_fix,
      record {
        idle = refl;
        no_fix = refl;
        no_listen = refl;
        no_periodic = refl;
        no_receives = all_free-free_all s.receives;
        no_workers = refl;
        no_others = refl;
      },
      λ i.
          times-joined i s.joined s.other_periodic s.workers (threads_of s.receives) k.ticks
            k.listen k.fix
          ∙ ap (λ n. times i s.joined + n) (k.alive i),
      refl,
      refl,
      stops_again thread a answers v refl,
    )
