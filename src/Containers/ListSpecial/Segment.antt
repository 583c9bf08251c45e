-- ===== src/Containers/ListSpecial/Segment.antt =====
-- Segments of a doubly linked list.
use mathlib.Core.Path.{subst}
use mathlib.Core.Bool.{true≢false}
use cpp_raft.Base.{
  ==_refl, has, ◌≡◌, refl, sym, ap, ◌∙◌, ◌≢◌, true, false, ◌||◌, List, [], ◌∷◌, ◌++◌, arith,
}
use cpp_raft.Node.{Ptr, null}
use cpp_raft.Containers.ListSpecial.{Links, Store, relink_next, relink_prev}

abbrev pub head_or : Ptr → List Ptr → Ptr
head_or a [] = a
head_or a (p ∷ ps) = p

abbrev pub last_or : Ptr → List Ptr → Ptr
last_or b [] = b
last_or b (p ∷ ps) = last_or p ps

-- The elements are linked in both directions, between `b` and `a`.
unfoldable pub Seg : Store → Ptr → List Ptr → Ptr → Type 0
Seg σ b [] a = Unit
Seg σ b (p ∷ ps) a = ((σ p).prev ≡ b) × ((σ p).next ≡ head_or a ps) × Seg σ p ps a

-- The addresses are pairwise different, and none is null.
unfoldable pub Addresses : List Ptr → Type 0
Addresses [] = Unit
Addresses (p ∷ ps) = (p ≢ null) × (has p ps ≡ false) × Addresses ps

pub Seg-frame :
    (σ τ : Store) (b a : Ptr) (ps : List Ptr)
    → ((r : Ptr) → has r ps ≡ true → τ r ≡ σ r)
    → Seg σ b ps a
    → Seg τ b ps a
unfolding Seg
Seg-frame σ τ b a [] same h = tt
Seg-frame σ τ b a (p ∷ ps) same (e, f, h) =
    let at = same p (rw (==_refl p) refl) in
    (
      ap (λ (l : Links). l.prev) at ∙ e,
      ap (λ (l : Links). l.next) at ∙ f,
      Seg-frame σ τ p a ps (λ r i. same r (ground arith)) h,
    )

pub head_or-append : (a : Ptr) (xs ys : List Ptr) → head_or a (xs ++ ys) ≡ head_or (head_or a ys) xs
head_or-append a [] ys = refl
head_or-append a (x ∷ xs) ys = refl

pub last_or-append : (b : Ptr) (xs ys : List Ptr) → last_or b (xs ++ ys) ≡ last_or (last_or b xs) ys
last_or-append b [] ys = refl
last_or-append b (x ∷ xs) ys = last_or-append x xs ys

pub Seg-append :
    (σ : Store) (b a : Ptr) (xs ys : List Ptr)
    → Seg σ b xs (head_or a ys)
    → Seg σ (last_or b xs) ys a
    → Seg σ b (xs ++ ys) a
unfolding Seg
Seg-append σ b a [] ys h k = k
Seg-append σ b a (x ∷ xs) ys (e, f, h) k =
    (e, f ∙ sym (head_or-append a xs ys), Seg-append σ x a xs ys h k)

pub Seg-split :
    (σ : Store) (b a : Ptr) (xs ys : List Ptr)
    → Seg σ b (xs ++ ys) a
    → Seg σ b xs (head_or a ys) × Seg σ (last_or b xs) ys a
unfolding Seg
Seg-split σ b a [] ys h = (tt, h)
Seg-split σ b a (x ∷ xs) ys (e, f, h) =
    let (k, l) = Seg-split σ x a xs ys h in ((e, f ∙ head_or-append a xs ys, k), l)

pub has-last_or : (p : Ptr) (ps : List Ptr) → has (last_or p ps) (p ∷ ps) ≡ true
has-last_or p [] = rw (==_refl p) refl
has-last_or p (q ∷ ps) = ground (arith, has-last_or q ps)

pub has-differ : (q r : Ptr) (ps : List Ptr) → has q ps ≡ false → has r ps ≡ true → r ≢ q
has-differ q r ps out i e = true≢false (sym (subst (λ (s : Ptr). has s ps ≡ true) e i) ∙ out)

pub has-append : (r : Ptr) (xs ys : List Ptr) → has r (xs ++ ys) ≡ (has r xs || has r ys)
has-append r [] ys = refl
has-append r (x ∷ xs) ys = ground (arith, has-append r xs ys)

pub not_null : (ps : List Ptr) → Addresses ps → has null ps ≡ false
unfolding Addresses
not_null [] h = refl
not_null (p ∷ ps) (ne, out, h) = ground (arith, not_null ps h)

-- What the writes leave.
pub relink_next-other : (q v r : Ptr) (σ : Store) → r ≢ q → relink_next q v σ r ≡ σ r
unfolding relink_next
relink_next-other q v r σ ne = ground arith

pub relink_prev-other : (q v r : Ptr) (σ : Store) → r ≢ q → relink_prev q v σ r ≡ σ r
unfolding relink_prev
relink_prev-other q v r σ ne = ground arith

pub relink_next-null : (v r : Ptr) (σ : Store) → relink_next null v σ r ≡ σ r
unfolding relink_next
relink_next-null v r σ = ground arith

pub relink_next_self :
    (q v : Ptr) (σ : Store) → q ≢ null → relink_next q v σ q ≡ record (σ q) { next = v }
unfolding relink_next
relink_next_self q v σ ne = ground (arith, ==_refl q)

pub relink_prev_self :
    (q v : Ptr) (σ : Store) → q ≢ null → relink_prev q v σ q ≡ record (σ q) { prev = v }
unfolding relink_prev
relink_prev_self q v σ ne = ground (arith, ==_refl q)

-- Writing the next link of the last element ends the segment before another address.
pub Seg-relink_next :
    (σ : Store) (b a v p : Ptr) (ps : List Ptr)
    → Addresses (p ∷ ps)
    → Seg σ b (p ∷ ps) a
    → Seg (relink_next (last_or p ps) v σ) b (p ∷ ps) v
unfolding Seg Addresses
Seg-relink_next σ b a v p [] (ne, out, d) (e, f, h) =
    let self = relink_next_self p v σ ne in
    (ap (λ (l : Links). l.prev) self ∙ e, ap (λ (l : Links). l.next) self, tt)
Seg-relink_next σ b a v p (q ∷ ps) (ne, out, d) (e, f, h) =
    let self =
      relink_next-other (last_or q ps) v p σ
        (λ s. has-differ p (last_or q ps) (q ∷ ps) out (has-last_or q ps) (sym s)) in
    (
      ap (λ (l : Links). l.prev) self ∙ e,
      ap (λ (l : Links). l.next) self ∙ f,
      Seg-relink_next σ p a v q ps d h,
    )

-- Writing the previous link of the first element starts the segment behind another address.
pub Seg-relink_prev :
    (σ : Store) (b a v p : Ptr) (ps : List Ptr)
    → Addresses (p ∷ ps)
    → Seg σ b (p ∷ ps) a
    → Seg (relink_prev p v σ) v (p ∷ ps) a
unfolding Seg Addresses
Seg-relink_prev σ b a v p ps (ne, out, d) (e, f, h) =
    let self = relink_prev_self p v σ ne in
    (
      ap (λ (l : Links). l.prev) self,
      ap (λ (l : Links). l.next) self ∙ f,
      Seg-frame σ (relink_prev p v σ) p a ps
          (λ r i. relink_prev-other p v r σ (has-differ p r ps out i)) h,
    )
