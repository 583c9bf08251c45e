-- ===== src/Containers/Fifo/Extracting.antt =====
-- `Extract` takes the first value of the queue.
use mathlib.Core.Path.{subst}
use mathlib.Core.Bool.{true≢false}
use cpp_raft.Base.{
  ltb, leb, ◌==◌, if◌then◌else◌, ==_refl, Bool-cases, get_elem?, has, ℕ, ◌+◌, ◌-◌, ◌≤◌, ◌<◌, ◌≡◌,
  refl, sym, ap, ◌∙◌, ◌≢◌, inl, inr, true, false, some, List, [], ◌∷◌, arith,
}
use cpp_raft.Outcome.{ok}
use cpp_raft.Node.{Ptr}
use cpp_raft.Containers.Fifo.{FifoFast, extract}
use cpp_raft.Containers.Fifo.Chain.{Chain, NoDup, Last-tail}
use cpp_raft.Containers.Fifo.Queue.{Holds, Queue, tail}

module _ {A : Type 0} where
  -- The queue without its first entry, which is dropped or kept in the cache.
  dropped : FifoFast A → FifoFast A
  dropped f = record f { first = (f.cells f.first).next; num_of_elements = f.num_of_elements - 1 }

  kept : FifoFast A → FifoFast A
  unfolding dropped
  kept f = record (dropped f) {
    index_in_cash_plus1 = f.index_in_cash_plus1 + 1;
    cashed_entries = λ i. if i == f.index_in_cash_plus1 then f.first else f.cashed_entries i;
  }

  first_value :
      (f : FifoFast A) (p : Ptr) (ps : List Ptr) (x : A) (xs : List A)
      → Holds f (p ∷ ps) (x ∷ xs)
      → (f.cells f.first).value ≡ x
  unfolding Chain
  first_value f p ps x xs h =
      let (e, v, rest) = h.chain in ap (λ (q : Ptr). (f.cells q).value) e ∙ v

  rest-Chain :
      (f : FifoFast A) (p : Ptr) (ps : List Ptr) (x : A) (xs : List A)
      → Holds f (p ∷ ps) (x ∷ xs)
      → Chain f.cells (f.cells f.first).next ps xs
  unfolding Chain
  rest-Chain f p ps x xs h =
      let (e, v, rest) = h.chain in
      subst (λ (q : Ptr). Chain f.cells (f.cells q).next ps xs) (sym e) rest

  dropped-Holds :
      (f : FifoFast A) (p : Ptr) (ps : List Ptr) (x : A) (xs : List A)
      → Holds f (p ∷ ps) (x ∷ xs)
      → f.cash_size < f.num_of_elements
      → Holds (dropped f) ps xs
  unfolding dropped NoDup
  dropped-Holds f p ps x xs h large = record {
    chain = rest-Chain f p ps x xs h;
    last = Last-tail f.last p ps h.last;
    distinct = h.distinct.1;
    num = omega (arith, h.num);
    index = omega (arith, h.num, h.index);
    apart = λ i lt. absurd (omega (arith, h.num, h.index));
    once = λ i j lt. absurd (omega (arith, h.num, h.index));
  }

  front :
      (f : FifoFast A) (p : Ptr) (ps : List Ptr) (x : A) (xs : List A)
      → Holds f (p ∷ ps) (x ∷ xs)
      → f.first ≡ p
  unfolding Chain
  front f p ps x xs h = h.chain.0

  not_front :
      (f : FifoFast A) (p : Ptr) (ps : List Ptr) (x : A) (xs : List A)
      → Holds f (p ∷ ps) (x ∷ xs)
      → (j : ℕ) → j < f.index_in_cash_plus1
      → f.first ≢ f.cashed_entries j
  not_front f p ps x xs h j lt e =
      let at = sym (front f p ps x xs h) ∙ e in
      let out = subst (λ (q : Ptr). has q (p ∷ ps) ≡ false) (sym at) (h.apart j lt) in
      absurd (true≢false (sym (ground (arith, ==_refl p)) ∙ out))

  kept_entry :
      (f : FifoFast A) (i : ℕ)
      → (kept f).cashed_entries i
        ≡ (if i == f.index_in_cash_plus1 then f.first else f.cashed_entries i)
  unfolding kept dropped
  kept_entry f i = refl

  kept-apart :
      (f : FifoFast A) (p : Ptr) (ps : List Ptr) (x : A) (xs : List A)
      → Holds f (p ∷ ps) (x ∷ xs)
      → (i : ℕ) → i < f.index_in_cash_plus1 + 1
      → has ((kept f).cashed_entries i) ps ≡ false
  unfolding NoDup
  kept-apart f p ps x xs h i lt = elim (Bool-cases (i == f.index_in_cash_plus1)) [
    | inl e ↦ rw (kept_entry f i, e, front f p ps x xs h) h.distinct.0
    | inr e ↦
        let out : has (f.cashed_entries i) (p ∷ ps) ≡ false = h.apart i (ground arith) in
        rw (kept_entry f i, e) (ground (arith, out))
  ]

  kept-once :
      (f : FifoFast A) (p : Ptr) (ps : List Ptr) (x : A) (xs : List A)
      → Holds f (p ∷ ps) (x ∷ xs)
      → (i j : ℕ) → i < f.index_in_cash_plus1 + 1
      → j < f.index_in_cash_plus1 + 1
      → (kept f).cashed_entries i ≡ (kept f).cashed_entries j
      → i ≡ j
  kept-once f p ps x xs h i j lt lt' same =
      let same' = sym (kept_entry f i) ∙ same ∙ kept_entry f j in
      let apart = not_front f p ps x xs h in
      elim (Bool-cases (i == f.index_in_cash_plus1)) [
        | inl e ↦ elim (Bool-cases (j == f.index_in_cash_plus1)) [
          | inl e' ↦ ground arith
          | inr e' ↦ absurd (apart j (ground arith) (sym (rw e refl) ∙ same' ∙ rw e' refl))
        ]
        | inr e ↦ elim (Bool-cases (j == f.index_in_cash_plus1)) [
          | inl e' ↦ absurd (apart i (ground arith) (sym (rw e' refl) ∙ sym same' ∙ rw e refl))
          | inr e' ↦ h.once i j (ground arith) (ground arith) (sym (rw e refl) ∙ same' ∙ rw e' refl)
        ]
      ]

  kept-Holds :
      (f : FifoFast A) (p : Ptr) (ps : List Ptr) (x : A) (xs : List A)
      → Holds f (p ∷ ps) (x ∷ xs)
      → f.num_of_elements ≤ f.cash_size
      → Holds (kept f) ps xs
  unfolding kept dropped NoDup
  kept-Holds f p ps x xs h small = record {
    chain = rest-Chain f p ps x xs h;
    last = Last-tail f.last p ps h.last;
    distinct = h.distinct.1;
    num = omega (arith, h.num);
    index = omega (arith, h.num, h.index);
    apart = kept-apart f p ps x xs h;
    once = kept-once f p ps x xs h;
  }

  -- Extracting returns the first value, and leaves the others; from an empty queue it returns
  -- false. It never writes behind the array of cached entries.
  pub extract-Queue :
      (f : FifoFast A) (ps : List Ptr) (xs : List A)
      → Holds f ps xs
      → (g : FifoFast A) × (extract f ≡ ok (get_elem? xs 0, g)) × Queue g (tail xs)
  unfolding extract Chain kept dropped
  extract-Queue f [] [] h =
      let empty : (f.num_of_elements == 0) ≡ true = rw h.num refl in (f, rw empty refl, ([], h))
  extract-Queue f [] (x ∷ xs) h = absurd h.chain
  extract-Queue f (p ∷ ps) [] h = absurd h.chain
  extract-Queue f (p ∷ ps) (x ∷ xs) h =
      let some_left : (f.num_of_elements == 0) ≡ false = rw h.num (ground arith) in
      elim (Bool-cases (leb f.num_of_elements f.cash_size)) [
        | inl small ↦
            let room : ltb f.index_in_cash_plus1 f.cash_size ≡ true =
              ground (arith, h.num, h.index) in
            (
              kept f,
              rw (some_left, small, room)
                  (ap (λ (v : A). ok (some v, kept f)) (first_value f p ps x xs h)),
              (ps, kept-Holds f p ps x xs h (ground arith)),
            )
        | inr large ↦ (
          dropped f,
          rw (some_left, large)
              (ap (λ (v : A). ok (some v, dropped f)) (first_value f p ps x xs h)),
          (ps, dropped-Holds f p ps x xs h (ground arith)),
        )
      ]
