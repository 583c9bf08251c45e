-- ===== src/Containers/Fifo/Queue.antt =====
-- The queue as a list of values.
use cpp_raft.Base.{
  ltb, ◌==◌, if◌then◌else◌, ==_refl, Bool-cases, length, length-append, has, ℕ, ◌-◌, ◌<◌, ◌≡◌, refl,
  ap, ◌∙◌, inl, inr, ◌⊎◌, true, false, List, [], ◌∷◌, ◌++◌, arith,
}
use cpp_raft.Node.{Ptr, null}
use cpp_raft.Containers.Fifo.{Cell, FifoFast, new_fifo, write, next_cell, append_cell, add_element1}
use cpp_raft.Containers.Fifo.Chain.{
  Chain, Last, NoDup, Chain-length, has-append, NoDup-append, Last-append, Chain-append,
}

-- The entries of the queue, at pairwise different addresses, have the values `xs` in order. The
-- cache holds as many entries as the queue has less than the cache's size, none of them twice and
-- none of the queue's.
pub record Holds {A : Type 0} (f : FifoFast A) (ps : List Ptr) (xs : List A) : Type 0 where
  pub chain : Chain f.cells f.first ps xs
  pub last : Last f.last ps
  pub distinct : NoDup ps
  pub num : f.num_of_elements ≡ length ps
  pub index : f.index_in_cash_plus1 ≡ f.cash_size - length ps
  pub apart : (i : ℕ) → i < f.index_in_cash_plus1 → has (f.cashed_entries i) ps ≡ false
  pub once :
      (i j : ℕ)
      → i < f.index_in_cash_plus1
      → j < f.index_in_cash_plus1
      → f.cashed_entries i ≡ f.cashed_entries j
      → i ≡ j

abbrev pub Queue : {A : Type 0} → FifoFast A → List A → Type 0
Queue f xs = (ps : List Ptr) × Holds f ps xs

abbrev pub tail : {A : Type 0} → List A → List A
tail [] = []
tail (x ∷ xs) = xs

abbrev pub SameLimits : {A : Type 0} → FifoFast A → FifoFast A → Type 0
SameLimits f g = (g.max_size ≡ f.max_size) × (g.cash_size ≡ f.cash_size)

module _ {A : Type 0} where
  -- The constructor, with a cache of pairwise different entries, makes an empty queue.
  pub new_fifo-Queue :
      (max_size cash_size : ℕ) (entries : ℕ → Ptr) (cells : Ptr → Cell A)
      → ((i j : ℕ) → entries i ≡ entries j → i ≡ j)
      → Queue (new_fifo max_size cash_size entries cells) []
  unfolding new_fifo Chain Last NoDup
  new_fifo-Queue max_size cash_size entries cells inj = (
    [],
    record {
      chain = tt;
      last = tt;
      distinct = tt;
      num = refl;
      index = omega arith;
      apart = λ i lt. refl;
      once = λ i j lt lt' e. inj i j e;
    },
  )

  -- The next entry is not one of the queue's.
  next_cell-apart :
      (fresh : Ptr) (f : FifoFast A) (ps : List Ptr) {xs : List A}
      → Holds f ps xs
      → has fresh ps ≡ false
      → has (next_cell fresh f) ps ≡ false
  unfolding next_cell
  next_cell-apart fresh f ps h out = elim (Bool-cases (f.index_in_cash_plus1 == 0)) [
    | inl e ↦ rw e out
    | inr e ↦ rw e (h.apart (f.index_in_cash_plus1 - 1) (ground arith))
  ]

  -- What a cache without its last entry holds.
  apart-append :
      (fresh : Ptr) (f : FifoFast A) (ps : List Ptr) {xs : List A}
      → Holds f ps xs
      → (i : ℕ) → i < f.index_in_cash_plus1 - 1
      → has (f.cashed_entries i) (ps ++ next_cell fresh f ∷ []) ≡ false
  unfolding next_cell
  apart-append fresh f ps h i lt =
      let some_left : (f.index_in_cash_plus1 == 0) ≡ false = ground arith in
      rw some_left (
        has-append (f.cashed_entries i) (f.cashed_entries (f.index_in_cash_plus1 - 1)) ps
          (λ e.
            absurd
              (omega (arith, h.once i (f.index_in_cash_plus1 - 1) (omega arith) (omega arith) e)))
          (h.apart i (omega arith)))

  written : (q : Ptr) (c : Cell A) (cells : Ptr → Cell A) → (write q c cells q).value ≡ c.value
  unfolding write
  written q c cells = ground (arith, ==_refl q)

  next_unfold :
      (fresh : Ptr) (x : A) (f : FifoFast A)
      → add_element1 fresh x f ≡ (
          if ltb f.num_of_elements f.max_size
          then (true, append_cell (next_cell fresh f) x f)
          else (false, f))
  unfolding add_element1 next_cell
  next_unfold fresh x f = refl

  append_cell-limits : (q : Ptr) (x : A) (f : FifoFast A) → SameLimits f (append_cell q x f)
  unfolding append_cell
  append_cell-limits q x f = elim (Bool-cases (f.num_of_elements == 0)) [
    | inl e ↦ rw e (refl, refl)
    | inr e ↦ rw e (refl, refl)
  ]

  append_cell-Holds :
      (fresh : Ptr) (x : A) (f : FifoFast A) (ps : List Ptr) (xs : List A)
      → Holds f ps xs
      → has fresh ps ≡ false
      → Holds (append_cell (next_cell fresh f) x f) (ps ++ next_cell fresh f ∷ []) (xs ++ x ∷ [])
  unfolding append_cell Chain
  append_cell-Holds fresh x f [] [] h out =
      let empty : (f.num_of_elements == 0) ≡ true = rw h.num refl in
      rw empty (record {
        chain = (refl, written (next_cell fresh f) (record { next = null; value = x }) f.cells, tt);
        last = Last-append (next_cell fresh f) [];
        distinct = NoDup-append (next_cell fresh f) [] h.distinct refl;
        num = omega (arith, h.num);
        index = omega (arith, h.index);
        apart = apart-append fresh f [] h;
        once = λ i j lt lt'. h.once i j (omega arith) (omega arith);
      })
  append_cell-Holds fresh x f [] (y ∷ xs) h out = absurd h.chain
  append_cell-Holds fresh x f (r ∷ ps) xs h out =
      let out' = next_cell-apart fresh f (r ∷ ps) h out in
      let more : (f.num_of_elements == 0) ≡ false = rw h.num (ground arith) in
      let longer = length-append ps (next_cell fresh f ∷ []) in
      rw more (record {
        chain =
            Chain-append f.cells f.first f.last (next_cell fresh f) r ps x xs h.chain h.last
              h.distinct out';
        last = Last-append (next_cell fresh f) (r ∷ ps);
        distinct = NoDup-append (next_cell fresh f) (r ∷ ps) h.distinct out';
        num = omega (arith, h.num);
        index = omega (arith, h.index);
        apart = apart-append fresh f (r ∷ ps) h;
        once = λ i j lt lt'. h.once i j (omega arith) (omega arith);
      })

  -- Adding to a queue that is not full returns true and puts the value behind the others; adding to
  -- a full one returns false and changes nothing. The limits of the queue stay in both cases. The
  -- address of a new entry is one that the queue does not use.
  pub add_element1-Queue :
      (fresh : Ptr) (x : A) (f : FifoFast A) (ps : List Ptr) (xs : List A)
      → Holds f ps xs
      → has fresh ps ≡ false
      → ((add_element1 fresh x f).0 ≡ ltb (length xs) f.max_size)
        × Queue (add_element1 fresh x f).1 (if ltb (length xs) f.max_size then xs ++ x ∷ [] else xs)
        × SameLimits f (add_element1 fresh x f).1
        × ((ltb (length xs) f.max_size ≡ true) ⊎ (add_element1 fresh x f ≡ (false, f)))
  add_element1-Queue fresh x f ps xs h out =
      let size : f.num_of_elements ≡ length xs =
        h.num ∙ Chain-length f.cells f.first ps xs h.chain in
      let test : ltb f.num_of_elements f.max_size ≡ ltb (length xs) f.max_size =
        ap (λ (n : ℕ). ltb n f.max_size) size in
      elim (Bool-cases (ltb (length xs) f.max_size)) [
        | inr full ↦ rw (next_unfold fresh x f, test, full) (refl, (ps, h), (refl, refl), inr refl)
        | inl free ↦
            rw (next_unfold fresh x f, test, free)
              (
                refl,
                (ps ++ next_cell fresh f ∷ [], append_cell-Holds fresh x f ps xs h out),
                append_cell-limits (next_cell fresh f) x f,
                inl refl,
              )
      ]
