-- ===== src/Locks/SharedMutex/Writers.antt =====
-- What the semaphores keep apart, and what they do not.
use cpp_raft.Base.{
  zero, suc, ◌==◌, ltb, Bool-cases, ℕ, ◌+◌, ◌-◌, ◌≤◌, ◌≡◌, refl, inl, inr, true, Option, none, some,
  List, [], ◌∷◌, ◌++◌, arith,
}
use mathlib.Core.Path.{subst}
use cpp_raft.Locks.SharedMutex.{
  SharedMutex, System, Point, Step, Reach, here, next, create_shared_mutex, begin_lock_shared,
  begin_unlock_shared, unlock_writer, next_access, idle, shared_first, shared_next, shared_passing,
  reading, unsharing, lock_queue, lock_waiting, lock_passing, writing, lock_shared, lock,
  unlock_shared, unlock, go,
}
use cpp_raft.Sums.{total}
use cpp_raft.Locks.SharedMutex.Counting.{
  counted, first_reader, owns_permanent, owns_new_concurse, writer, Counts, Balanced,
  keeps-Balanced,
}

-- What the other threads count, and the sums with a thread at a point.
module _ (r f o c : ℕ) where
  abbrev With : Point → SharedMutex → ℕ → Type 0
  With p m =
      Counts m (counted p + r) (first_reader p + f) (owns_permanent p + o) (owns_new_concurse p + c)

  abbrev Kept : Option (Point × SharedMutex) → Type 0
  Kept none = Unit
  Kept (some (q, n)) = (h : ℕ) × With q n h

  -- What the next access of a thread keeps.
  next_access-Kept :
      (p : Point) (m : SharedMutex) (g : ℕ) → f ≤ r → With p m g → Kept (next_access p m)
  unfolding next_access
  next_access-Kept idle m g few k = tt
  next_access-Kept shared_first m g few k = elim (Bool-cases (m.lock_permanent == 0)) [
    | inl e ↦ rw e tt
    | inr e ↦
        rw e (
          1,
          ground (arith, k.all_readers, k.permanent_one, k.concurse_one, k.no_group, k.one_group),
        )
  ]
  next_access-Kept shared_next m g few k = elim (Bool-cases (m.sema_new_concurse == 0)) [
    | inl e ↦ rw e tt
    | inr e ↦
        rw e (
          g,
          ground (arith, k.all_readers, k.permanent_one, k.concurse_one, k.no_group, k.one_group),
        )
  ]
  next_access-Kept shared_passing m g few k =
      (g, ground (arith, k.all_readers, k.permanent_one, k.concurse_one, k.no_group, k.one_group))
  next_access-Kept reading m g few k = tt
  next_access-Kept unsharing m g few k =
      (g, ground (arith, k.all_readers, k.permanent_one, k.concurse_one, k.no_group, k.one_group))
  next_access-Kept lock_queue m g few k = elim (Bool-cases (m.sema_new_concurse == 0)) [
    | inl e ↦ rw e tt
    | inr e ↦
        rw e (
          g,
          ground (arith, k.all_readers, k.permanent_one, k.concurse_one, k.no_group, k.one_group),
        )
  ]
  next_access-Kept lock_waiting m g few k = elim (Bool-cases (m.lock_permanent == 0)) [
    | inl e ↦ rw e tt
    | inr e ↦
        rw e (
          g,
          ground (arith, k.all_readers, k.permanent_one, k.concurse_one, k.no_group, k.one_group),
        )
  ]
  next_access-Kept lock_passing m g few k =
      (g, ground (arith, k.all_readers, k.permanent_one, k.concurse_one, k.no_group, k.one_group))
  next_access-Kept writing m g few k = tt

  begin_lock_shared-Kept :
      (m : SharedMutex) (g : ℕ) → f ≤ r → With idle m g → Kept (some (begin_lock_shared m))
  unfolding begin_lock_shared
  begin_lock_shared-Kept m g few k = elim (Bool-cases (ltb 1 (m.readers_count + 1))) [
    | inl e ↦
        rw e (
          g,
          ground (arith, k.all_readers, k.permanent_one, k.concurse_one, k.no_group, k.one_group),
        )
    | inr e ↦
        rw e (
          g,
          ground (arith, k.all_readers, k.permanent_one, k.concurse_one, k.no_group, k.one_group),
        )
  ]

  begin_unlock_shared-Kept :
      (m : SharedMutex) (g : ℕ) → f ≤ r → With reading m g → Kept (some (begin_unlock_shared m))
  unfolding begin_unlock_shared
  begin_unlock_shared-Kept m g few k = elim (Bool-cases (m.readers_count - 1 == 0)) [
    | inl e ↦
        rw e (
          0,
          ground (arith, k.all_readers, k.permanent_one, k.concurse_one, k.no_group, k.one_group),
        )
    | inr e ↦
        rw e (
          g,
          ground (arith, k.all_readers, k.permanent_one, k.concurse_one, k.no_group, k.one_group),
        )
  ]

  unlock_writer-Kept :
      (m : SharedMutex) (g : ℕ) → f ≤ r → With writing m g → Kept (some (idle, unlock_writer m))
  unfolding unlock_writer
  unlock_writer-Kept m g few k =
      (g, ground (arith, k.all_readers, k.permanent_one, k.concurse_one, k.no_group, k.one_group))

abbrev Good : System → Type 0
Good s = Balanced s.mutex s.threads

Step-Good :
    {m : SharedMutex} {xs ys : List Point} {p : Point} {u : System}
    → Step m xs ys p u
    → Balanced m (xs ++ p ∷ ys)
    → Good u
Step-Good {m} {xs} {ys} lock_shared =
    keeps-Balanced m _ xs idle _ ys (λ r f o c g. begin_lock_shared-Kept r f o c m g)
Step-Good {m} {xs} {ys} lock = keeps-Balanced m m xs idle lock_queue ys (λ r f o c g few k. (g, k))
Step-Good {m} {xs} {ys} unlock_shared =
    keeps-Balanced m _ xs reading _ ys (λ r f o c g. begin_unlock_shared-Kept r f o c m g)
Step-Good {m} {xs} {ys} unlock =
    keeps-Balanced m _ xs writing idle ys (λ r f o c g. unlock_writer-Kept r f o c m g)
Step-Good {m} {xs} {ys} (go p q n e) =
    keeps-Balanced m n xs p q ys
      (λ r f o c g few k. subst (Kept r f o c) e (next_access-Kept r f o c p m g few k))

Reach-Good : {s t : System} → Reach s t → Good s → Good t
Reach-Good here h = h
Reach-Good (next xs p ys r e step) h = Step-Good step (subst Good e (Reach-Good r h))

writer-le-owner : (ps : List Point) → total writer ps ≤ total owns_permanent ps
writer-le-owner [] = omega arith
writer-le-owner (p ∷ ps) = ground (arith, writer-le-owner ps)

abbrev idle_threads : ℕ → List Point
idle_threads zero = []
idle_threads (suc n) = idle ∷ idle_threads n

all-idle : (w : Point → ℕ) (n : ℕ) → w idle ≡ 0 → total w (idle_threads n) ≡ 0
all-idle w zero h = refl
all-idle w (suc n) h = omega (arith, h, all-idle w n h)

-- Any number of threads, none of them in a method, and a new lock.
unfoldable pub start : ℕ → System
start n = record { mutex = create_shared_mutex; threads = idle_threads n }

start-Good : (n : ℕ) → Good (start n)
unfolding start create_shared_mutex
start-Good n = record {
  group = 0;
  counts = ground (
    arith,
    all-idle counted n refl,
    all-idle first_reader n refl,
    all-idle owns_permanent n refl,
    all-idle owns_new_concurse n refl,
  );
}

-- However many threads use the lock, and in whatever order, two of them never have it for writing
-- together, and the count of the readers is the number of threads between `lock_shared` and
-- `unlock_shared`.
pub one_writer :
    (n : ℕ) (t : System)
    → Reach (start n) t
    → (total writer t.threads ≤ 1) × (t.mutex.readers_count ≡ total counted t.threads)
one_writer n t r =
    let c = (Reach-Good r (start-Good n)).counts in
    (omega (arith, writer-le-owner t.threads, c.permanent_one), c.all_readers)

-- While a thread holds the lock for writing and a reader waits for it, the next reader is not held
-- up: three accesses later it reads, and all other threads stand where they stood.
pub reader_beside_writer :
    (readers permanent : ℕ) (xs ys : List Point)
    → Reach
        (record {
          mutex = record {
            readers_count = suc readers;
            lock_permanent = permanent;
            sema_new_concurse = 1;
          };
          threads = xs ++ idle ∷ ys;
        })
        (record {
          mutex = record {
            readers_count = suc readers + 1;
            lock_permanent = permanent;
            sema_new_concurse = 1;
          };
          threads = xs ++ reading ∷ ys;
        })
unfolding next_access begin_lock_shared
reader_beside_writer readers permanent xs ys =
    let at : ℕ → ℕ → SharedMutex =
      λ r c. record { readers_count = r; lock_permanent = permanent; sema_new_concurse = c } in
    let m = at (suc readers) 1 in
    let n = suc readers + 1 in
    let not_first : ltb 1 n ≡ true = ground arith in
    let counted_now : begin_lock_shared m ≡ (shared_next, at n 1) = rw not_first refl in
    let one =
      subst
        (λ (b : Point × SharedMutex).
          Reach (record { mutex = m; threads = xs ++ idle ∷ ys })
            (record { mutex = b.1; threads = xs ++ b.0 ∷ ys }))
        counted_now (next xs idle ys here refl lock_shared) in
    let two = next xs shared_next ys one refl (go shared_next shared_passing (at n 0) refl) in
    next xs shared_passing ys two refl (go shared_passing reading (at n 1) refl)
