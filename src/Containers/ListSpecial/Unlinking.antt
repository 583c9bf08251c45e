-- ===== src/Containers/ListSpecial/Unlinking.antt =====
-- Taking an element out of the links of the others, wherever it stands.
use mathlib.Core.Path.{subst, ap₂}
use mathlib.Core.Bool.{true≢false}
use cpp_raft.Base.{
  ◌==◌, ==_iff, Bool-cases, has, ◌≡◌, refl, sym, ap, ◌∙◌, ◌≢◌, inl, inr, true, false, List, [], ◌∷◌,
  ◌++◌, arith,
}
use cpp_raft.Node.{Ptr, null}
use cpp_raft.Containers.ListSpecial.{Links, Store, relink_next, relink_prev, unlink}
use cpp_raft.Containers.ListSpecial.Segment.{
  head_or, last_or, Seg, Addresses, Seg-frame, Seg-append, Seg-split, has-last_or, has-differ,
  has-append, relink_next-other, relink_next-null, Seg-relink_next, Seg-relink_prev,
}

-- What an element in the middle of the addresses is not.
pub record Middle (xs : List Ptr) (p : Ptr) (ys : List Ptr) : Type 0 where
  pub ne : p ≢ null
  pub before : has p xs ≡ false
  pub behind : has p ys ≡ false
  pub left : Addresses xs
  pub right : Addresses ys
  pub both : Addresses (xs ++ ys)
  pub disjoint : (r : Ptr) → has r xs ≡ true → has r ys ≡ false

pub middle : (xs : List Ptr) (p : Ptr) (ys : List Ptr) → Addresses (xs ++ p ∷ ys) → Middle xs p ys
unfolding Addresses
middle [] p ys (ne, out, h) = record {
  ne = ne;
  before = refl;
  behind = out;
  left = tt;
  right = h;
  both = h;
  disjoint = λ r i. absurd (true≢false (sym i));
}
middle (x ∷ xs) p ys (ne, out, h) =
    let m = middle xs p ys h in
    let parts = sym (has-append x xs (p ∷ ys)) ∙ out in
    record {
      ne = m.ne;
      before = ground (arith, parts, m.before);
      behind = m.behind;
      left = (ne, ground (arith, parts), m.left);
      right = m.right;
      both = (ne, has-append x xs ys ∙ ground (arith, parts), m.both);
      disjoint = λ r i. elim (Bool-cases (r == x)) [
        | inl e ↦
            let out' : has x ys ≡ false = ground (arith, parts) in
            subst (λ (q : Ptr). has q ys ≡ false) (sym ((==_iff r x).0 e)) out'
        | inr e ↦ m.disjoint r (ground (arith, i))
      ];
    }

pub kept_next :
    (xs : List Ptr) (v r : Ptr) (σ : Store)
    → has r xs ≡ false
    → relink_next (last_or null xs) v σ r ≡ σ r
kept_next [] v r σ out = relink_next-null v r σ
kept_next (x ∷ xs) v r σ out =
    relink_next-other (last_or x xs) v r σ
      (λ e. has-differ r (last_or x xs) (x ∷ xs) out (has-last_or x xs) (sym e))

pub kept_prev :
    (ys : List Ptr) (v r : Ptr) (σ : Store)
    → has r ys ≡ false
    → relink_prev (head_or null ys) v σ r ≡ σ r
unfolding relink_prev
kept_prev [] v r σ out = ground arith
kept_prev (y ∷ ys) v r σ out = ground arith

pub left_end :
    (σ : Store) (xs : List Ptr) (a v : Ptr)
    → Addresses xs
    → Seg σ null xs a
    → Seg (relink_next (last_or null xs) v σ) null xs v
unfolding Seg
left_end σ [] a v d h = tt
left_end σ (x ∷ xs) a v d h = Seg-relink_next σ null a v x xs d h

pub right_start :
    (σ : Store) (ys : List Ptr) (b v : Ptr)
    → Addresses ys
    → Seg σ b ys null
    → Seg (relink_prev (head_or null ys) v σ) v ys null
unfolding Seg
right_start σ [] b v d h = tt
right_start σ (y ∷ ys) b v d h = Seg-relink_prev σ b null v y ys d h

-- The store behind the two lines that unlink, with the addresses that they write to.
module _ (xs : List Ptr) (p : Ptr) (ys : List Ptr) (σ : Store) where
  bridged : Store
  bridged = relink_next (last_or null xs) (head_or null ys) σ

  unlinked : Store
  unfolding bridged
  unlinked = relink_prev (head_or null ys) (last_or null xs) bridged

  unlinked-Seg :
      Addresses (xs ++ p ∷ ys) → Seg σ null (xs ++ p ∷ ys) null → Seg unlinked null (xs ++ ys) null
  unfolding unlinked bridged Seg
  unlinked-Seg d h =
      let m = middle xs p ys d in
      let (left, (prev, next, right)) = Seg-split σ null null xs (p ∷ ys) h in
      Seg-append unlinked null null xs ys
        (Seg-frame bridged unlinked null (head_or null ys) xs
          (λ r i. kept_prev ys (last_or null xs) r bridged (m.disjoint r i))
          (left_end σ xs p (head_or null ys) m.left left))
        (right_start bridged ys p (last_or null xs) m.right (
          Seg-frame σ bridged p null ys
            (λ r i. kept_next xs (head_or null ys) r σ (elim (Bool-cases (has r xs)) [
              | inl e ↦ absurd (true≢false (sym i ∙ m.disjoint r e))
              | inr e ↦ e
            ]))
            right))

  unlinked_self : Addresses (xs ++ p ∷ ys) → (bridged p ≡ σ p) × (unlinked p ≡ σ p)
  unfolding unlinked bridged
  unlinked_self d =
      let m = middle xs p ys d in
      let first = kept_next xs (head_or null ys) p σ m.before in
      (first, kept_prev ys (last_or null xs) p bridged m.behind ∙ first)

  pub around :
      Seg σ null (xs ++ p ∷ ys) null
      → ((σ p).prev ≡ last_or null xs) × ((σ p).next ≡ head_or null ys)
  unfolding Seg
  around h = let (left, (prev, next, right)) = Seg-split σ null null xs (p ∷ ys) h in (prev, next)

  unlink-unlinked :
      Addresses (xs ++ p ∷ ys) → Seg σ null (xs ++ p ∷ ys) null → unlink p σ ≡ unlinked
  unfolding unlink unlinked bridged
  unlink-unlinked d h =
      let (prev, next) = around h in
      let (self, _) = unlinked_self d in
      let first : relink_next (σ p).prev (σ p).next σ ≡ bridged =
        ap₂ (λ (b a : Ptr). relink_next b a σ) prev next in
      ap (λ (τ : Store). relink_prev (τ p).next (τ p).prev τ) first
      ∙ ap (λ (k : Links). relink_prev k.next k.prev bridged) self
      ∙ ap₂ (λ (a b : Ptr). relink_prev a b bridged) next prev

-- The unlinked element keeps its own links, and the others are linked without it.
pub unlink_self :
    (xs : List Ptr) (p : Ptr) (ys : List Ptr) (σ : Store)
    → Addresses (xs ++ p ∷ ys)
    → Seg σ null (xs ++ p ∷ ys) null
    → unlink p σ p ≡ σ p
unlink_self xs p ys σ d h =
    ap (λ (τ : Store). τ p) (unlink-unlinked xs p ys σ d h) ∙ (unlinked_self xs p ys σ d).1

pub unlink-Seg :
    (xs : List Ptr) (p : Ptr) (ys : List Ptr) (σ : Store)
    → Addresses (xs ++ p ∷ ys)
    → Seg σ null (xs ++ p ∷ ys) null
    → Seg (unlink p σ) null (xs ++ ys) null
unlink-Seg xs p ys σ d h =
    subst (λ (τ : Store). Seg τ null (xs ++ ys) null) (sym (unlink-unlinked xs p ys σ d h))
      (unlinked-Seg xs p ys σ d h)
