-- ===== src/Locks/SharedMutex.antt =====
-- common/cpp11+/shared_mutex_cpp14.cpp: the lock for many readers or one writer, as it is built on
-- two semaphores of Windows; elsewhere the four methods only call the lock of the system. Threads
-- are interleaved in any order, one access of the shared state at a time.
pub mod Counting
pub mod Writers
pub mod Deadlock
use cpp_raft.Base.{
  ◌==◌, ltb, if◌then◌else◌, ℕ, ◌+◌, ◌-◌, ◌≡◌, Option, none, some, List, [], ◌∷◌, ◌++◌,
}

-- The count of readers and the counts of the two semaphores.
pub record SharedMutex : Type 0 where
  pub readers_count : ℕ
  pub lock_permanent : ℕ
  pub sema_new_concurse : ℕ

-- `createSharedMutex`: both semaphores start at 1, and their greatest count is 5.
unfoldable pub create_shared_mutex : SharedMutex
create_shared_mutex = record { readers_count = 0; lock_permanent = 1; sema_new_concurse = 1 }

abbrev pub maximum_count : ℕ
maximum_count = 5

-- `ReleaseSemaphore` changes nothing if the count would be greater than its greatest.
abbrev pub released : ℕ → ℕ
released n = if ltb n maximum_count then n + 1 else n

-- Where a thread stands in the methods, by its next access.
pub data Point : Type 0 where
  idle shared_first shared_next shared_passing reading unsharing : Point
  lock_queue lock_waiting lock_passing writing : Point

-- The first access of `lock_shared`. `InterlockedIncrement` returns the new count.
unfoldable pub begin_lock_shared : SharedMutex → Point × SharedMutex
begin_lock_shared m =
    let n = m.readers_count + 1 in
    (if ltb 1 n then shared_next else shared_first, record m { readers_count = n })

-- The first access of `unlock_shared`.
unfoldable pub begin_unlock_shared : SharedMutex → Point × SharedMutex
begin_unlock_shared m =
    let n = m.readers_count - 1 in
    (if n == 0 then unsharing else idle, record m { readers_count = n })

-- `unlock`
unfoldable pub unlock_writer : SharedMutex → SharedMutex
unlock_writer m = record m { lock_permanent = released m.lock_permanent }

-- The waits, none if the semaphore is at 0.
abbrev pub wait_permanent : Point → SharedMutex → Option (Point × SharedMutex)
wait_permanent p m =
    if m.lock_permanent == 0
    then none
    else some (p, record m { lock_permanent = m.lock_permanent - 1 })

abbrev pub wait_new_concurse : Point → SharedMutex → Option (Point × SharedMutex)
wait_new_concurse p m =
    if m.sema_new_concurse == 0
    then none
    else some (p, record m { sema_new_concurse = m.sema_new_concurse - 1 })

-- The next access of a thread within a method, and where it stands then.
unfoldable pub next_access : Point → SharedMutex → Option (Point × SharedMutex)
next_access shared_first m = wait_permanent reading m
next_access shared_next m = wait_new_concurse shared_passing m
next_access shared_passing m =
    some (reading, record m { sema_new_concurse = released m.sema_new_concurse })
next_access unsharing m = some (idle, record m { lock_permanent = released m.lock_permanent })
next_access lock_queue m = wait_new_concurse lock_waiting m
next_access lock_waiting m = wait_permanent lock_passing m
next_access lock_passing m =
    some (writing, record m { sema_new_concurse = released m.sema_new_concurse })
next_access _ m = none

pub record System : Type 0 where
  pub mutex : SharedMutex
  pub threads : List Point

-- One thread, with others before and behind it, makes an access.
pub data Step (m : SharedMutex) (xs : List Point) (ys : List Point) : Point → System → Type 0 where
  lock_shared :
      Step m xs ys idle
        (record { mutex = (begin_lock_shared m).1; threads = xs ++ (begin_lock_shared m).0 ∷ ys })
  lock : Step m xs ys idle (record { mutex = m; threads = xs ++ lock_queue ∷ ys })
  unlock_shared :
      Step m xs ys reading (record {
        mutex = (begin_unlock_shared m).1;
        threads = xs ++ (begin_unlock_shared m).0 ∷ ys;
      })
  unlock : Step m xs ys writing (record { mutex = unlock_writer m; threads = xs ++ idle ∷ ys })
  go :
      (p q : Point) (n : SharedMutex)
      → next_access p m ≡ some (q, n)
      → Step m xs ys p (record { mutex = n; threads = xs ++ q ∷ ys })

pub data Reach (s : System) : System → Type 0 where
  here : Reach s s
  next :
      {t : System} {m : SharedMutex} (xs : List Point) (p : Point) (ys : List Point) {u : System}
      → Reach s t
      → t ≡ record { mutex = m; threads = xs ++ p ∷ ys }
      → Step m xs ys p u
      → Reach s u
