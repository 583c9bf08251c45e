-- ===== src/Containers/Fifo/Chain.antt =====
-- The linked list behind the queue.
use mathlib.Core.Path.{subst}
use mathlib.Core.Bool.{true≢false}
use cpp_raft.Base.{
  ==_refl, length, has, suc, ◌≡◌, refl, sym, ap, ◌∙◌, ◌≢◌, true, false, List, [], ◌∷◌, ◌++◌, arith,
}
use cpp_raft.Node.{Ptr, null}
use cpp_raft.Containers.Fifo.{Cell, write, link}

-- The entries from an address on, by `next`, are those of the list, with the values.
unfoldable pub Chain : {A : Type 0} → (Ptr → Cell A) → Ptr → List Ptr → List A → Type 0
Chain cells p [] [] = Unit
Chain cells p (q ∷ qs) (x ∷ xs) = (p ≡ q) × ((cells q).value ≡ x) × Chain cells (cells q).next qs xs
Chain cells p _ _ = ⊥

unfoldable pub Last : Ptr → List Ptr → Type 0
Last l [] = Unit
Last l (p ∷ []) = p ≡ l
Last l (p ∷ q ∷ ps) = Last l (q ∷ ps)

unfoldable pub NoDup : List Ptr → Type 0
NoDup [] = Unit
NoDup (p ∷ ps) = (has p ps ≡ false) × NoDup ps

module _ {A : Type 0} where
  pub Chain-length :
      (cells : Ptr → Cell A) (p : Ptr) (ps : List Ptr) (xs : List A)
      → Chain cells p ps xs
      → length ps ≡ length xs
  unfolding Chain
  Chain-length cells p [] [] h = refl
  Chain-length cells p (q ∷ qs) (x ∷ xs) (e, v, h) =
      ap suc (Chain-length cells (cells q).next qs xs h)
  Chain-length cells p [] (x ∷ xs) h = absurd h
  Chain-length cells p (q ∷ qs) [] h = absurd h

pub has-Last : (l : Ptr) (p : Ptr) (ps : List Ptr) → Last l (p ∷ ps) → has l (p ∷ ps) ≡ true
unfolding Last
has-Last l p [] h = ground (arith, ==_refl l)
has-Last l p (q ∷ ps) h = ground (arith, has-Last l q ps h)

pub Last-tail : (l : Ptr) (p : Ptr) (ps : List Ptr) → Last l (p ∷ ps) → Last l ps
unfolding Last
Last-tail l p [] h = tt
Last-tail l p (q ∷ ps) h = h

pub has-append :
    (r q : Ptr) (ps : List Ptr) → r ≢ q → has r ps ≡ false → has r (ps ++ q ∷ []) ≡ false
has-append r q [] ne h = ground arith
has-append r q (p ∷ ps) ne h = ground (arith, has-append r q ps ne)

pub NoDup-append : (q : Ptr) (ps : List Ptr) → NoDup ps → has q ps ≡ false → NoDup (ps ++ q ∷ [])
unfolding NoDup
NoDup-append q [] h out = (refl, tt)
NoDup-append q (p ∷ ps) (new, h) out =
    (has-append p q ps (λ e. ground arith) new, NoDup-append q ps h (ground arith))

pub Last-append : (q : Ptr) (ps : List Ptr) → Last q (ps ++ q ∷ [])
unfolding Last
Last-append q [] = refl
Last-append q (p ∷ []) = refl
Last-append q (p ∷ r ∷ ps) = Last-append q (r ∷ ps)

module _ {A : Type 0} where
  value_kept :
      (l q r : Ptr) (x : A) (cells : Ptr → Cell A)
      → r ≢ q
      → (link l q (write q (record { next = null; value = x }) cells) r).value ≡ (cells r).value
  unfolding link write
  value_kept l q r x cells ne = ground arith

  next_kept :
      (l q r : Ptr) (x : A) (cells : Ptr → Cell A)
      → r ≢ q
      → r ≢ l
      → (link l q (write q (record { next = null; value = x }) cells) r).next ≡ (cells r).next
  unfolding link write
  next_kept l q r x cells ne ne' = ground arith

  next_linked :
      (l q : Ptr) (x : A) (cells : Ptr → Cell A)
      → (link l q (write q (record { next = null; value = x }) cells) l).next ≡ q
  unfolding link write
  next_linked l q x cells = ground (arith, ==_refl l)

  new_value :
      (l q : Ptr) (x : A) (cells : Ptr → Cell A)
      → (link l q (write q (record { next = null; value = x }) cells) q).value ≡ x
  unfolding link write
  new_value l q x cells = ground (arith, ==_refl q)

  -- Linking a new entry behind the last one puts its value behind the others.
  pub Chain-append :
      (cells : Ptr → Cell A) (p l q : Ptr) (r : Ptr) (ps : List Ptr) (x : A) (xs : List A)
      → Chain cells p (r ∷ ps) xs
      → Last l (r ∷ ps)
      → NoDup (r ∷ ps)
      → has q (r ∷ ps) ≡ false
      → Chain
          (link l q (write q (record { next = null; value = x }) cells))
          p
          (r ∷ ps ++ q ∷ [])
          (xs ++ x ∷ [])
  unfolding Chain Last NoDup
  Chain-append cells p l q r ps x [] h last distinct out = absurd h
  Chain-append cells p l q r [] x (y ∷ []) (e, v, h) last distinct out = (
    e,
    value_kept l q r x cells (λ s. ground arith) ∙ v,
    (
      ap (λ (a : Ptr). (link l q (write q (record { next = null; value = x }) cells) a).next) last
          ∙ next_linked l q x cells,
      new_value l q x cells,
      tt,
    ),
  )
  Chain-append cells p l q r [] x (y ∷ z ∷ xs) (e, v, h) last distinct out = absurd h
  Chain-append cells p l q r (r' ∷ ps) x (y ∷ xs) (e, v, h) last (new, distinct) out = (
    e,
    value_kept l q r x cells (λ s. ground arith) ∙ v,
    let behind = has-Last l r' ps last in
        subst
          (λ (a : Ptr).
            Chain (link l q (write q (record { next = null; value = x }) cells)) a
              (r' ∷ ps ++ q ∷ []) (xs ++ x ∷ []))
          (sym (
            next_kept l q r x cells (λ s. ground arith)
              (λ s. true≢false (sym behind ∙ subst (λ (a : Ptr). has a (r' ∷ ps) ≡ false) s new))))
          (Chain-append cells (cells r).next l q r' ps x xs h last distinct (ground arith)),
  )
