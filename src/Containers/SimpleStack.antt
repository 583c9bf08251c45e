-- ===== src/Containers/SimpleStack.antt =====
-- include/common/impl.common_fifofast.hpp: `SimpleStack`, an array with a count. The mutex is held
-- over each method. The constructor starts with all of the array, uninitialised.
use cpp_raft.Base.{
  ltb, ◌==◌, if◌then◌else◌, ==_refl, ℕ, ◌+◌, ◌-◌, ◌<◌, ◌≡◌, refl, Bool, true, false, Option, none,
  some, arith,
}

pub record SimpleStack (A : Type 0) : Type 0 where
  pub cash_size : ℕ
  pub buffer_for_stack : ℕ → Option A
  pub in_the_stack : ℕ

module _ {A : Type 0} where
  unfoldable pub new_simple_stack : ℕ → SimpleStack A
  new_simple_stack cash_size = record {
    cash_size = cash_size;
    buffer_for_stack = λ i. none;
    in_the_stack = cash_size;
  }

  -- Whether there was one, and what it is, if it was ever set.
  unfoldable pub get_from : SimpleStack A → Bool × Option A × SimpleStack A
  get_from s = if s.in_the_stack == 0 then (false, none, s) else (
    true,
    s.buffer_for_stack (s.in_the_stack - 1),
    record s { in_the_stack = s.in_the_stack - 1 },
  )

  unfoldable pub set_to : A → SimpleStack A → Bool × SimpleStack A
  set_to a s =
      if ltb s.in_the_stack s.cash_size
      then (
        true,
        record s {
          buffer_for_stack = λ i. if i == s.in_the_stack then some a else s.buffer_for_stack i;
          in_the_stack = s.in_the_stack + 1;
        },
      )
      else (false, s)

  -- Setting into a stack that is not full and getting returns what was set, and the count and every
  -- place below it are as before; setting into a full stack is refused.
  pub get_from-set_to :
      (a : A) (s : SimpleStack A) (i : ℕ)
      → s.in_the_stack < s.cash_size
      → i < s.in_the_stack
      → let (found, content, t) = get_from (set_to a s).1 in
        ((set_to a s).0 ≡ true)
        × (found ≡ true)
        × (content ≡ some a)
        × (t.in_the_stack ≡ s.in_the_stack)
        × (t.buffer_for_stack i ≡ s.buffer_for_stack i)
  unfolding get_from set_to
  get_from-set_to a s i free below =
      let room : ltb s.in_the_stack s.cash_size ≡ true = ground arith in
      let some_left : (s.in_the_stack + 1 == 0) ≡ false = ground arith in
      let back : s.in_the_stack + 1 - 1 ≡ s.in_the_stack = omega arith in
      let same = ==_refl s.in_the_stack in
      let apart : (i == s.in_the_stack) ≡ false = ground arith in
      rw (room, some_left, back, same, apart) (refl, refl, refl, refl, refl)
