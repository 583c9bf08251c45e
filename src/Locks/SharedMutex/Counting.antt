-- ===== src/Locks/SharedMutex/Counting.antt =====
-- Sums over the threads, of those that the state of the lock counts.
use cpp_raft.Base.{ℕ, ◌+◌, ◌<◌, ◌≤◌, ◌≡◌, List, [], ◌∷◌, ◌++◌, arith}
use cpp_raft.Sums.{total, total-middle}
use cpp_raft.Locks.SharedMutex.{
  SharedMutex, Point, shared_first, shared_next, shared_passing, reading, unsharing, lock_waiting,
  lock_passing, writing,
}

-- Those that the count of readers has, the one that waits for the others, those that keep either
-- semaphore at 0.
abbrev pub counted : Point → ℕ
counted shared_first = 1
counted shared_next = 1
counted shared_passing = 1
counted reading = 1
counted _ = 0

abbrev pub first_reader : Point → ℕ
first_reader shared_first = 1
first_reader _ = 0

abbrev pub owns_permanent : Point → ℕ
owns_permanent unsharing = 1
owns_permanent lock_passing = 1
owns_permanent writing = 1
owns_permanent _ = 0

abbrev pub owns_new_concurse : Point → ℕ
owns_new_concurse shared_passing = 1
owns_new_concurse lock_waiting = 1
owns_new_concurse lock_passing = 1
owns_new_concurse _ = 0

abbrev pub writer : Point → ℕ
writer writing = 1
writer _ = 0

-- `group` is 1 while the readers together own the permanent semaphore.
pub record Counts (m : SharedMutex) (readers first permanent concurse : ℕ) (group : ℕ)
    : Type 0 where
  pub all_readers : m.readers_count ≡ readers
  pub permanent_one : m.lock_permanent + permanent + group ≡ 1
  pub concurse_one : m.sema_new_concurse + concurse ≡ 1
  pub no_group : m.readers_count ≡ 0 → group ≡ 0
  pub one_group : 0 < m.readers_count → first + group ≡ 1

-- The same of a list of threads.
pub record Balanced (m : SharedMutex) (ps : List Point) : Type 0 where
  pub group : ℕ
  pub counts :
      Counts m
        (total counted ps)
        (total first_reader ps)
        (total owns_permanent ps)
        (total owns_new_concurse ps)
        group

pub first_reader-le-counted : (ps : List Point) → total first_reader ps ≤ total counted ps
first_reader-le-counted [] = omega arith
first_reader-le-counted (p ∷ ps) = ground (arith, first_reader-le-counted ps)

-- An access of one thread keeps the sums of the others.
module _ (m n : SharedMutex) (xs : List Point) (p q : Point) (ys : List Point) where
  abbrev Keeps : Type 0
  Keeps =
      (r f o c g : ℕ)
      → f ≤ r
      → Counts m (counted p + r) (first_reader p + f) (owns_permanent p + o)
          (owns_new_concurse p + c) g
      → (h : ℕ) × Counts n (counted q + r) (first_reader q + f) (owns_permanent q + o)
          (owns_new_concurse q + c) h

  pub keeps-Balanced : Keeps → Balanced m (xs ++ p ∷ ys) → Balanced n (xs ++ q ∷ ys)
  keeps-Balanced k b =
      let r = total counted xs + total counted ys in
      let (h, c) =
        k r (total first_reader xs + total first_reader ys)
          (total owns_permanent xs + total owns_permanent ys)
          (total owns_new_concurse xs + total owns_new_concurse ys) b.group
          (omega (arith, first_reader-le-counted xs, first_reader-le-counted ys))
          (rw
            (
              ← total-middle counted xs p ys,
              ← total-middle first_reader xs p ys,
              ← total-middle owns_permanent xs p ys,
              ← total-middle owns_new_concurse xs p ys,
            )
            b.counts) in
      record {
        group = h;
        counts =
            rw
              (
                total-middle counted xs q ys,
                total-middle first_reader xs q ys,
                total-middle owns_permanent xs q ys,
                total-middle owns_new_concurse xs q ys,
              )
              c;
      }
