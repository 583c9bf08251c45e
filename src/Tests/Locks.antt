-- ===== src/Tests/Locks.antt =====
-- Threads that use the shared lock, and an interrupt.
use cpp_raft.Base.{ℕ, ◌≤◌, ◌≡◌, refl, true, none, List, [], ◌∷◌, arith}
use cpp_raft.Sums.{total}
use cpp_raft.Locks.SharedMutex.{
  System, Point, Step, Reach, here, next, create_shared_mutex, begin_lock_shared,
  begin_unlock_shared, next_access, idle, shared_first, shared_next, reading, lock_queue,
  lock_waiting, lock_shared, lock, unlock_shared, go,
}
use cpp_raft.Locks.SharedMutex.Counting.{writer, counted}
use cpp_raft.Locks.SharedMutex.Writers.{start, one_writer}
use cpp_raft.Locks.SharedMutex.Deadlock.{Stuck, leaving_reader_blocks_all}
use cpp_raft.Tcp.Signals.{sigint, Handling, sig_handler_static, interrupts_count_servers}

abbrev with_counts : ℕ → ℕ → ℕ → List Point → System
with_counts readers permanent concurse threads = record {
  mutex = record {
    readers_count = readers;
    lock_permanent = permanent;
    sema_new_concurse = concurse;
  };
  threads = threads;
}

-- A reader has the lock, a writer waits for it, and a second reader has been counted.
abbrev contended : System
contended = with_counts 2 0 0 (reading ∷ lock_waiting ∷ shared_next ∷ [])

contended_reached : Reach (start 3) contended
unfolding start create_shared_mutex next_access begin_lock_shared
contended_reached =
    let waits = lock_queue ∷ idle ∷ [] in
    let r1 : Reach (start 3) (with_counts 1 1 1 (shared_first ∷ idle ∷ idle ∷ [])) =
      next [] idle (idle ∷ idle ∷ []) here refl lock_shared in
    let r2 : Reach (start 3) (with_counts 1 0 1 (reading ∷ idle ∷ idle ∷ [])) =
      next [] shared_first (idle ∷ idle ∷ []) r1 refl (go shared_first reading _ refl) in
    let r3 : Reach (start 3) (with_counts 1 0 1 (reading ∷ lock_queue ∷ idle ∷ [])) =
      next (reading ∷ []) idle (idle ∷ []) r2 refl lock in
    let r4 : Reach (start 3) (with_counts 1 0 0 (reading ∷ lock_waiting ∷ idle ∷ [])) =
      next (reading ∷ []) lock_queue (idle ∷ []) r3 refl (go lock_queue lock_waiting _ refl) in
    next (reading ∷ lock_waiting ∷ []) idle [] r4 refl lock_shared

one_writer_example :
    (total writer contended.threads ≤ 1)
    × (contended.mutex.readers_count ≡ total counted contended.threads)
one_writer_example = one_writer 3 contended contended_reached

-- The first reader leaves.
abbrev left_alone : System
left_alone = with_counts 1 0 0 (idle ∷ lock_waiting ∷ shared_next ∷ [])

leaves_now : Step contended.mutex [] (lock_waiting ∷ shared_next ∷ []) reading left_alone
unfolding begin_unlock_shared
leaves_now = unlock_shared

leaving_reader_blocks_all_example : Stuck left_alone
leaving_reader_blocks_all_example =
    leaving_reader_blocks_all contended.mutex [] (lock_waiting ∷ shared_next ∷ []) left_alone
      left_alone (omega arith) refl refl tt (tt, (tt, tt)) leaves_now here

-- Three servers, and the first interrupt.
abbrev undisturbed : Handling
undisturbed = record { interrupt_count = 0; application_run = true; calls = [] }

interrupts_count_servers_example :
    sig_handler_static true true sigint (5 ∷ 6 ∷ 7 ∷ []) undisturbed ≡ none
interrupts_count_servers_example = interrupts_count_servers true (5 ∷ 6 ∷ 7 ∷ []) undisturbed
