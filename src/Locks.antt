-- ===== src/Locks.antt =====
-- include/common/: the guards that lock a mutex for a time, and the deadline of a semaphore. A call
-- on a mutex, which belongs to the library of the platform, is recorded.
pub mod Balance
pub mod SharedMutex
use cpp_raft.Base.{
  ltb, leb, ◌==◌, if◌then◌else◌, to_nat, ==_iff, ==_refl, Bool-cases, Option-cases, length,
  is_empty, get_elem?, get_last?, take, drop, replicate, take-append-drop, take-append, drop-append,
  length-append, length-take_le, get_elem?-take, get_elem?-eq_none, get_elem?-some,
  get_elem?-append_lt, get_elem?-append_last, length-set, get_elem?-set_self, get_elem?-set_ne,
  get_last?-append, has, ℤ, pos_part, neg_part, sub_ℕ, ◌+ℤ◌, ◌-ℤ◌, ◌≤ℤ◌, ◌<ℤ◌, ltb_ℤ, leb_ℤ, eqb_ℤ,
  half_ℤ, to_int, to_unsigned, +ℤ_parts, -ℤ_parts, eq_of_parts, eqb_ℤ→eq, ne→eqb_ℤ, +ℤ_assoc,
  +ℤ-pos, -ℤ-pos, suc-sub-one, int_laws, pos, negsuc, ℕ, zero, suc, ◌+◌, ◌-◌, ◌*◌, ◌/◌, ◌%◌, ◌^◌,
  ◌≤◌, ◌<◌, ◌≡◌, refl, sym, ap, ◌∙◌, ◌≢◌, ◌↔◌, ◌⊎◌, inl, inr, Bool, true, false, not, ◌&&◌, ◌||◌,
  Option, none, some, List, [], ◌∷◌, ◌++◌, map, arith,
}
use cpp_raft.Node.{Ptr, null}

pub data MutexCall : Type 0 where
  lock unlock : Ptr → MutexCall

-- A guard holds a mutex or null.
pub record Guard : Type 0 where
  pub mutex : Ptr
  pub calls : List MutexCall

unfoldable pub new_guard : Guard
new_guard = record { mutex = null; calls = [] }

-- `SetAndLockMutex`
unfoldable pub set_and_lock_mutex : Ptr → Guard → Guard
set_and_lock_mutex p g = record {
  mutex = p;
  calls = if p == null then g.calls else g.calls ++ lock p ∷ [];
}

-- `UnsetAndUnlockMutex`
unfoldable pub unset_and_unlock_mutex : Guard → Guard
unset_and_unlock_mutex g = record {
  mutex = null;
  calls = if g.mutex == null then g.calls else g.calls ++ unlock g.mutex ∷ [];
}

-- The destructor: the calls of the guard's whole life.
unfoldable pub destroy_guard : Guard → List MutexCall
destroy_guard g = if g.mutex == null then g.calls else g.calls ++ unlock g.mutex ∷ []

-- What a function does with its guard, from the first use to the last.
pub data Use : Type 0 where
  acquire : Ptr → Use
  release : Use

unfoldable pub apply_use : Use → Guard → Guard
unfolding set_and_lock_mutex unset_and_unlock_mutex
apply_use (acquire p) = set_and_lock_mutex p
apply_use release = unset_and_unlock_mutex

unfoldable pub apply_uses : List Use → Guard → Guard
unfolding apply_use
apply_uses [] g = g
apply_uses (u ∷ us) g = apply_uses us (apply_use u g)

-- `UnnamedSemaphoreLite::wait`: the time until which it waits, in seconds and nanoseconds, from the
-- current time in seconds and microseconds and the milliseconds to wait.
unfoldable pub final_abs_time : ℕ → ℕ → ℕ → ℕ × ℕ
final_abs_time sec usec wait_ms =
    let extra_nanoseconds = usec * 1000 + wait_ms % 1000 * 1000000 in
    (sec + wait_ms / 1000 + extra_nanoseconds / 1000000000, extra_nanoseconds % 1000000000)

-- The time until which a semaphore waits is the current time and the milliseconds, and its
-- nanoseconds are less than a second.
pub final_abs_time_exact :
    (sec usec wait_ms : ℕ)
    → let (s, ns) = final_abs_time sec usec wait_ms in
      (s * 1000000000 + ns ≡ (sec * 1000000000 + usec * 1000) + wait_ms * 1000000)
      × (ns < 1000000000)
unfolding final_abs_time
final_abs_time_exact sec usec wait_ms = (omega arith, omega arith)
