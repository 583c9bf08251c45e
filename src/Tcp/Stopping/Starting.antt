-- ===== src/Tcp/Stopping/Starting.antt =====
-- Threads that have been started.
use cpp_raft.Base.{
  ltb, leb, to_nat, length, ℤ, ℕ, zero, suc, ◌+◌, ◌≡◌, ◌≤◌, refl, ap, ◌∙◌, true, false, ◌&&◌,
  Option, none, some, List, [], ◌∷◌, ◌++◌, arith,
}
use cpp_raft.Sums.{times, times-append}
use cpp_raft.Tcp.Stopping.{
  ServerThreads, returns, all_free, numbers, started, threads_of, joinable, free_all,
  run_all_thread_private, start_other_periodic,
}

-- 1 for the threads from one number up to another.
abbrev pub within : ℕ → ℕ → ℕ → ℕ
within low high i = to_nat (leb low i && ltb i high)

times-numbers : (i first n : ℕ) → times i (numbers first n) ≡ within first (first + n) i
times-numbers i first zero = ground arith
times-numbers i first (suc n) = ground (arith, times-numbers i (suc first) n)

threads_of-started :
    (first : ℕ) (slots : List (Option ℕ))
    → threads_of (started first slots) ≡ numbers first (length slots)
threads_of-started first [] = refl
threads_of-started first (_ ∷ slots) = ap (λ ns. first ∷ ns) (threads_of-started (suc first) slots)

joinable-started : (first : ℕ) (slots : List (Option ℕ)) → joinable (started first slots) ≡ true
joinable-started first [] = refl
joinable-started first (_ ∷ slots) = joinable-started (suc first) slots

pub all_free-free_all : (slots : List (Option ℕ)) → all_free (free_all slots) ≡ true
all_free-free_all [] = refl
all_free-free_all (_ ∷ slots) = all_free-free_all slots

-- No thread is there.
pub record Stopped (s : ServerThreads) : Type 0 where
  pub idle : s.work ≡ false
  pub no_fix : s.fix_double_cycles ≡ none
  pub no_listen : s.tcp_listen ≡ none
  pub no_periodic : s.periodic ≡ none
  pub no_receives : all_free s.receives ≡ true
  pub no_workers : s.workers ≡ []
  pub no_others : s.other_periodic ≡ []

-- All threads are there; those from a number on have been started and not joined.
pub record Running (low : ℕ) (s : ServerThreads) : Type 0 where
  pub at_work : s.work ≡ true
  pub below : low ≤ s.next_thread
  pub fix : ℕ
  pub listen : ℕ
  pub ticks : ℕ
  pub has_fix : s.fix_double_cycles ≡ some fix
  pub has_listen : s.tcp_listen ≡ some listen
  pub has_periodic : s.periodic ≡ some ticks
  pub has_receives : joinable s.receives ≡ true
  pub alive :
      (i : ℕ)
      → times i s.other_periodic
          + times i s.workers
          + times i (threads_of s.receives)
          + times i (ticks ∷ listen ∷ fix ∷ [])
        ≡ within low s.next_thread i

three_threads : (i n : ℕ) → times i ((n + 2) ∷ (n + 1) ∷ n ∷ []) ≡ within n (n + 3) i
three_threads i n = ground arith

four_parts :
    (i low first next high others workers receives : ℕ)
    → others ≡ 0
    → workers ≡ within next high i
    → receives ≡ within first next i
    → low + 3 ≡ first
    → first ≤ next
    → next ≤ high
    → others + workers + receives + times i ((low + 2) ∷ (low + 1) ∷ low ∷ []) ≡ within low high i
four_parts i low first next high others workers receives a b c d e f =
    ground (arith, a, b, c, three_threads i low)

one_more :
    (i low next others others' workers receives rest : ℕ)
    → low ≤ next
    → others' ≡ others + times i (next ∷ [])
    → others + workers + receives + rest ≡ within low next i
    → others' + workers + receives + rest ≡ within low (next + 1) i
one_more i low next others others' workers receives rest h e k = ground (arith, h, e, k)

-- The state behind `RunAllThreadPrivate`.
abbrev pub running : List ℤ → ℕ → ServerThreads → ServerThreads
running sockets n s =
    let first = s.next_thread + 3 in
    let next = first + length s.receives in
    record s {
      work = true;
      intrpt_socket_for_rcv = sockets;
      fix_double_cycles = some s.next_thread;
      tcp_listen = some (s.next_thread + 1);
      listen_ended = false;
      periodic = some (s.next_thread + 2);
      receives = started first s.receives;
      workers = s.workers ++ numbers next n;
      next_thread = next + n;
    }

runs :
    (sockets : List ℤ) (n : ℕ) (s : ServerThreads)
    → Stopped s
    → run_all_thread_private sockets n s ≡ returns (running sockets n s)
unfolding run_all_thread_private
runs sockets n s h = rw (h.idle, h.no_fix, h.no_listen, h.no_periodic, h.no_receives) refl

pub running-Running :
    (sockets : List ℤ) (n : ℕ) (s : ServerThreads)
    → Stopped s
    → Running s.next_thread (running sockets n s)
running-Running sockets n s h = record {
  at_work = refl;
  below = omega arith;
  fix = s.next_thread;
  listen = s.next_thread + 1;
  ticks = s.next_thread + 2;
  has_fix = refl;
  has_listen = refl;
  has_periodic = refl;
  has_receives = joinable-started _ s.receives;
  alive = λ i.
      let first = s.next_thread + 3 in
      let next = first + length s.receives in
      let none_left : times i s.other_periodic ≡ 0 = ap (times i) h.no_others in
      let new_workers : times i (s.workers ++ numbers next n) ≡ within next (next + n) i =
        ap (λ (ns : List ℕ). times i (ns ++ numbers next n)) h.no_workers
        ∙ times-numbers i next n in
      let new_receives : times i (threads_of (started first s.receives)) ≡ within first next i =
        ap (times i) (threads_of-started first s.receives)
        ∙ times-numbers i first (length s.receives) in
      four_parts i s.next_thread first next (next + n) _ _ _ none_left new_workers new_receives
        (omega arith) (omega arith) (omega arith);
}

-- Starting the threads of a server that has none succeeds, and all are there.
pub run_all_thread_private-Running :
    (sockets : List ℤ) (n : ℕ) (s : ServerThreads)
    → Stopped s
    → (t : ServerThreads) × (run_all_thread_private sockets n s ≡ returns t)
      × Running s.next_thread t
run_all_thread_private-Running sockets n s h =
    (running sockets n s, runs sockets n s h, running-Running sockets n s h)

-- One more thread keeps that.
pub start_other_periodic-Running :
    (low : ℕ) (s : ServerThreads) → Running low s → Running low (start_other_periodic s)
unfolding start_other_periodic
start_other_periodic-Running low s k = record {
  at_work = k.at_work;
  below = omega (arith, k.below);
  fix = k.fix;
  listen = k.listen;
  ticks = k.ticks;
  has_fix = k.has_fix;
  has_listen = k.has_listen;
  has_periodic = k.has_periodic;
  has_receives = k.has_receives;
  alive = λ i.
      one_more i low s.next_thread _ _ (times i s.workers) (times i (threads_of s.receives)) _
        k.below (times-append i s.other_periodic (s.next_thread ∷ [])) (k.alive i);
}
