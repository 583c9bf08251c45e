-- ===== src/Locks/SharedMutex/Deadlock.antt =====
-- A deadlock of readers and a writer.
use mathlib.Core.Path.{subst}
use cpp_raft.Base.{
  ◌==◌, ltb, ◌+◌, ◌-◌, ◌<◌, ◌≡◌, refl, sym, ◌∙◌, true, false, none, List, [], ◌∷◌, ◌++◌, arith,
}
use cpp_raft.Locks.SharedMutex.{
  SharedMutex, System, Point, Step, Reach, here, next, begin_lock_shared, begin_unlock_shared,
  next_access, idle, shared_first, shared_next, shared_passing, reading, unsharing, lock_queue,
  lock_waiting, lock_passing, writing, lock_shared, lock, unlock_shared, unlock, go,
}

-- A thread that is outside the methods, or waits for a semaphore in a place where the lock is not
-- taken for the first time.
abbrev pub IsStuck : Point → Type 0
IsStuck idle = Unit
IsStuck shared_next = Unit
IsStuck lock_queue = Unit
IsStuck lock_waiting = Unit
IsStuck _ = ⊥

abbrev pub AllStuck : List Point → Type 0
AllStuck [] = Unit
AllStuck (p ∷ ps) = IsStuck p × AllStuck ps

-- Both semaphores are at 0, the count of readers is not, and no thread is where it would raise a
-- semaphore.
pub record Stuck (s : System) : Type 0 where
  pub readers : 0 < s.mutex.readers_count
  pub permanent : s.mutex.lock_permanent ≡ 0
  pub concurse : s.mutex.sema_new_concurse ≡ 0
  pub threads : AllStuck s.threads

AllStuck-middle :
    (xs : List Point) (p : Point) (ys : List Point) → AllStuck (xs ++ p ∷ ys) → IsStuck p
AllStuck-middle [] p ys (h, hs) = h
AllStuck-middle (x ∷ xs) p ys (h, hs) = AllStuck-middle xs p ys hs

AllStuck-replace :
    (xs : List Point) (p q : Point) (ys : List Point)
    → AllStuck (xs ++ p ∷ ys)
    → IsStuck q
    → AllStuck (xs ++ q ∷ ys)
AllStuck-replace [] p q ys (h, hs) k = (k, hs)
AllStuck-replace (x ∷ xs) p q ys (h, hs) k = (h, AllStuck-replace xs p q ys hs k)

-- No thread in such a place can go on.
next_access-none :
    (p : Point) (m : SharedMutex)
    → IsStuck p
    → m.lock_permanent ≡ 0
    → m.sema_new_concurse ≡ 0
    → next_access p m ≡ none
unfolding next_access
next_access-none idle m h e f = refl
next_access-none shared_next m h e f = rw f refl
next_access-none lock_queue m h e f = rw f refl
next_access-none lock_waiting m h e f = rw e refl
next_access-none shared_first m h e f = absurd h
next_access-none shared_passing m h e f = absurd h
next_access-none reading m h e f = absurd h
next_access-none unsharing m h e f = absurd h
next_access-none lock_passing m h e f = absurd h
next_access-none writing m h e f = absurd h

Step-Stuck :
    {m : SharedMutex} {xs ys : List Point} {p : Point} {u : System}
    → Step m xs ys p u
    → Stuck (record { mutex = m; threads = xs ++ p ∷ ys })
    → Stuck u
unfolding begin_lock_shared
Step-Stuck {m} {xs} {ys} lock_shared h =
    let later : ltb 1 (m.readers_count + 1) ≡ true = ground (arith, h.readers) in
    rw later (record {
      readers = ground arith;
      permanent = h.permanent;
      concurse = h.concurse;
      threads = AllStuck-replace xs idle shared_next ys h.threads tt;
    })
Step-Stuck {m} {xs} {ys} lock h = record {
  readers = h.readers;
  permanent = h.permanent;
  concurse = h.concurse;
  threads = AllStuck-replace xs idle lock_queue ys h.threads tt;
}
Step-Stuck {m} {xs} {ys} unlock_shared h = absurd (AllStuck-middle xs reading ys h.threads)
Step-Stuck {m} {xs} {ys} unlock h = absurd (AllStuck-middle xs writing ys h.threads)
Step-Stuck {m} {xs} {ys} (go p q n e) h = absurd (
    ground (
      arith,
      sym e ∙ next_access-none p m (AllStuck-middle xs p ys h.threads) h.permanent h.concurse,
    ))

Reach-Stuck : {s t : System} → Reach s t → Stuck s → Stuck t
Reach-Stuck here h = h
Reach-Stuck (next xs p ys r e step) h = Step-Stuck step (subst Stuck e (Reach-Stuck r h))

AllStuck-append :
    (xs : List Point) (p : Point) (ys : List Point)
    → AllStuck xs
    → IsStuck p
    → AllStuck ys
    → AllStuck (xs ++ p ∷ ys)
AllStuck-append [] p ys h k l = (k, l)
AllStuck-append (x ∷ xs) p ys (h, hs) k l = (h, AllStuck-append xs p ys hs k l)

leave-Stuck :
    {m : SharedMutex} {xs ys : List Point} {u : System}
    → 1 < m.readers_count
    → m.lock_permanent ≡ 0
    → m.sema_new_concurse ≡ 0
    → AllStuck xs
    → AllStuck ys
    → Step m xs ys reading u
    → Stuck u
unfolding begin_unlock_shared next_access
leave-Stuck {m} {xs} {ys} more e f h k unlock_shared =
    let others : (m.readers_count - 1 == 0) ≡ false = ground (arith, more) in
    rw others (record {
      readers = omega (arith, more);
      permanent = e;
      concurse = f;
      threads = AllStuck-append xs idle ys h tt k;
    })
leave-Stuck more e f h k (go p q n none_left) = absurd (ground (arith, none_left))

-- If the only reader that has the lock leaves while another reader has been counted behind it, and
-- both semaphores are at 0 since a writer has one and waits for the other, then no thread ever has
-- the lock again: in every state that is reached, both semaphores are at 0, and every thread waits
-- for one of them or is outside.
pub leaving_reader_blocks_all :
    (m : SharedMutex) (xs ys : List Point) (u t : System)
    → 1 < m.readers_count
    → m.lock_permanent ≡ 0
    → m.sema_new_concurse ≡ 0
    → AllStuck xs
    → AllStuck ys
    → Step m xs ys reading u
    → Reach u t
    → Stuck t
leaving_reader_blocks_all m xs ys u t more e f h k leave r =
    Reach-Stuck r (leave-Stuck more e f h k leave)
