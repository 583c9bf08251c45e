-- ===== src/Locks/Balance.antt =====
-- What a guard has locked when it is destroyed.
use mathlib.Core.Bool.{true≢false}
use cpp_raft.Base.{
  ◌==◌, to_nat, Bool-cases, ℕ, ◌+◌, ◌≡◌, refl, sym, inl, inr, Bool, true, false, not, ◌&&◌, List,
  [], ◌∷◌, ◌++◌, arith,
}
use cpp_raft.Node.{Ptr, null}
use cpp_raft.Locks.{
  MutexCall, Guard, Use, lock, unlock, acquire, release, new_guard, set_and_lock_mutex,
  unset_and_unlock_mutex, destroy_guard, apply_use, apply_uses,
}

-- How often a mutex is locked and unlocked.
abbrev pub locks_of : Ptr → List MutexCall → ℕ
locks_of p [] = 0
locks_of p (lock q ∷ cs) = to_nat (q == p) + locks_of p cs
locks_of p (unlock q ∷ cs) = locks_of p cs

abbrev pub unlocks_of : Ptr → List MutexCall → ℕ
unlocks_of p [] = 0
unlocks_of p (lock q ∷ cs) = unlocks_of p cs
unlocks_of p (unlock q ∷ cs) = to_nat (q == p) + unlocks_of p cs

-- No mutex is set while another one is held: `held` says whether one is.
abbrev pub in_turn : Bool → List Use → Bool
in_turn held [] = true
in_turn held (acquire p ∷ us) = not held && in_turn true us
in_turn held (release ∷ us) = in_turn false us

locks_of-append :
    (p : Ptr) (cs ds : List MutexCall) → locks_of p (cs ++ ds) ≡ locks_of p cs + locks_of p ds
locks_of-append p [] ds = omega arith
locks_of-append p (lock q ∷ cs) ds = omega (arith, locks_of-append p cs ds)
locks_of-append p (unlock q ∷ cs) ds = locks_of-append p cs ds

unlocks_of-append :
    (p : Ptr) (cs ds : List MutexCall) → unlocks_of p (cs ++ ds) ≡ unlocks_of p cs + unlocks_of p ds
unlocks_of-append p [] ds = omega arith
unlocks_of-append p (lock q ∷ cs) ds = unlocks_of-append p cs ds
unlocks_of-append p (unlock q ∷ cs) ds = omega (arith, unlocks_of-append p cs ds)

-- The mutex that a guard holds has been locked once more than it has been unlocked.
abbrev Holding : Ptr → Guard → Type 0
Holding p g =
    locks_of p g.calls ≡ unlocks_of p g.calls + to_nat (not (g.mutex == null) && (g.mutex == p))

-- Each step by itself.
acquire-Holding :
    (p q : Ptr) (g : Guard)
    → (g.mutex == null) ≡ true
    → Holding p g
    → Holding p (set_and_lock_mutex q g)
unfolding set_and_lock_mutex
acquire-Holding p q g e k = elim (Bool-cases (q == null)) [
  | inl f ↦ rw f (ground (arith, k))
  | inr f ↦ rw f (
      ground (
        arith,
        k,
        locks_of-append p g.calls (lock q ∷ []),
        unlocks_of-append p g.calls (lock q ∷ []),
      ))
]

release-Holding : (p : Ptr) (g : Guard) → Holding p g → Holding p (unset_and_unlock_mutex g)
unfolding unset_and_unlock_mutex
release-Holding p g k = elim (Bool-cases (g.mutex == null)) [
  | inl f ↦ rw f (ground (arith, k))
  | inr f ↦ rw f (
      ground (
        arith,
        k,
        locks_of-append p g.calls (unlock g.mutex ∷ []),
        unlocks_of-append p g.calls (unlock g.mutex ∷ []),
      ))
]

in_turn_free : (b : Bool) (us : List Use) → in_turn true us ≡ true → in_turn b us ≡ true
in_turn_free true us h = h
in_turn_free false [] h = refl
in_turn_free false (acquire q ∷ us) h = absurd (true≢false (sym h))
in_turn_free false (release ∷ us) h = h

apply_uses-Holding :
    (p : Ptr) (us : List Use) (g : Guard)
    → in_turn (not (g.mutex == null)) us ≡ true
    → Holding p g
    → Holding p (apply_uses us g)
unfolding apply_uses apply_use
apply_uses-Holding p [] g h k = k
apply_uses-Holding p (acquire q ∷ us) g h k =
    let free : (g.mutex == null) ≡ true = ground (arith, h) in
    let rest : in_turn true us ≡ true = ground (arith, h) in
    apply_uses-Holding p us (set_and_lock_mutex q g)
      (unfold set_and_lock_mutex in in_turn_free (not (q == null)) us rest)
      (acquire-Holding p q g free k)
apply_uses-Holding p (release ∷ us) g h k =
    apply_uses-Holding p us (unset_and_unlock_mutex g) (unfold unset_and_unlock_mutex in h)
      (release-Holding p g k)

destroyed :
    (p : Ptr) (g : Guard)
    → Holding p g
    → locks_of p (destroy_guard g) ≡ unlocks_of p (destroy_guard g)
unfolding destroy_guard
destroyed p g k = elim (Bool-cases (g.mutex == null)) [
  | inl f ↦ rw f (ground (arith, k))
  | inr f ↦ rw f (
      ground (
        arith,
        k,
        locks_of-append p g.calls (unlock g.mutex ∷ []),
        unlocks_of-append p g.calls (unlock g.mutex ∷ []),
      ))
]

-- A guard that never takes a mutex while it holds another has unlocked every mutex as often as it
-- has locked it when it is destroyed, wherever the function that uses it is left.
pub destroy_guard_balanced :
    (p : Ptr) (us : List Use)
    → in_turn false us ≡ true
    → locks_of p (destroy_guard (apply_uses us new_guard))
      ≡ unlocks_of p (destroy_guard (apply_uses us new_guard))
unfolding new_guard
destroy_guard_balanced p us h =
    destroyed p (apply_uses us new_guard) (apply_uses-Holding p us new_guard h refl)
