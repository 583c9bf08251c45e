-- ===== src/Containers/ListSpecial/Adding.antt =====
-- `AddDataRaw` puts an element at the end.
use mathlib.Core.Path.{subst}
use cpp_raft.Base.{
  ◌==◌, ==_refl, length, length-append, has, ℤ, ◌+ℤ◌, +ℤ-pos, pos, ◌≡◌, refl, sym, ap, ◌∙◌, ◌≢◌,
  true, false, List, [], ◌∷◌, ◌++◌, arith,
}
use cpp_raft.Node.{Ptr, null}
use cpp_raft.Containers.ListSpecial.{Links, Store, ListSpecial, relink_next, enter, add_data_raw}
use cpp_raft.Containers.ListSpecial.Segment.{
  head_or, last_or, Seg, Addresses, Seg-frame, last_or-append, Seg-append, has-last_or, has-differ,
  has-append, relink_next-other, Seg-relink_next,
}

-- The list of the elements, in order, linked in both directions, with its ends and its count.
pub record Holds (σ : Store) (l : ListSpecial) (ps : List Ptr) : Type 0 where
  pub first : l.first ≡ head_or null ps
  pub last : l.last ≡ last_or null ps
  pub count : l.count ≡ pos (length ps)
  pub links : Seg σ null ps null
  pub addresses : Addresses ps

entered : (p last : Ptr) (σ : Store) → enter p last σ p ≡ record { prev = last; next = null }
unfolding enter
entered p last σ = ground (arith, ==_refl p)

enter-other : (p last r : Ptr) (σ : Store) → r ≢ p → enter p last σ r ≡ σ r
unfolding enter
enter-other p last r σ ne = ground arith

pub Addresses-append :
    (p : Ptr) (ps : List Ptr)
    → Addresses ps
    → p ≢ null
    → has p ps ≡ false
    → Addresses (ps ++ p ∷ [])
unfolding Addresses
Addresses-append p [] h ne out = (ne, refl, tt)
Addresses-append p (q ∷ ps) (ne', new, h) ne out =
    (ne', has-append q ps (p ∷ []) ∙ ground (arith, new), Addresses-append p ps h ne (ground arith))

last_or-found : (p : Ptr) (ps : List Ptr) (b : Ptr) → last_or b (ps ++ p ∷ []) ≡ p
last_or-found p ps b = last_or-append b ps (p ∷ [])

longer :
    (n : ℤ) (p : Ptr) (ps : List Ptr)
    → n ≡ pos (length ps)
    → n +ℤ pos 1 ≡ pos (length (ps ++ p ∷ []))
longer n p ps h =
    ap (λ (m : ℤ). m +ℤ pos 1) h
    ∙ +ℤ-pos (length ps) 1
    ∙ ap pos (omega (arith, length-append ps (p ∷ [])))

pub not-null : (p : Ptr) (ps : List Ptr) → Addresses (p ∷ ps) → (p == null) ≡ false
unfolding Addresses
not-null p ps (ne, out, h) = ground arith

-- Adding an element that is not null and not in the list puts it at the end, and counts it.
pub add_data_raw-Holds :
    (p : Ptr) (σ : Store) (l : ListSpecial) (ps : List Ptr)
    → Holds σ l ps
    → p ≢ null
    → has p ps ≡ false
    → let (τ, m) = add_data_raw p σ l in Holds τ m (ps ++ p ∷ [])
unfolding add_data_raw Seg
add_data_raw-Holds p σ l [] h ne out =
    let none_yet : (l.first == null) ≡ true = rw h.first refl in
    rw none_yet (record {
      first = refl;
      last = refl;
      count = ap (λ (n : ℤ). n +ℤ pos 1) h.count ∙ +ℤ-pos 0 1;
      links = (
        ap (λ (k : Links). k.prev) (entered p l.last σ) ∙ h.last,
        ap (λ (k : Links). k.next) (entered p l.last σ),
        tt,
      );
      addresses = Addresses-append p [] h.addresses ne refl;
    })
add_data_raw-Holds p σ l (q ∷ ps) h ne out =
    let some_yet : (l.first == null) ≡ false = rw h.first (not-null q ps h.addresses) in
    let τ = enter p l.last σ in
    let old =
      Seg-frame σ τ null null (q ∷ ps)
        (λ r i. enter-other p l.last r σ (has-differ p r (q ∷ ps) out i)) h.links in
    let other : p ≢ l.last =
      λ e. has-differ p (last_or q ps) (q ∷ ps) out (has-last_or q ps) (sym (e ∙ h.last)) in
    let at = relink_next-other l.last p p τ other ∙ entered p l.last σ in
    rw some_yet (record {
      first = h.first;
      last = sym (last_or-found p (q ∷ ps) null);
      count = longer l.count p (q ∷ ps) h.count;
      links =
          Seg-append (relink_next l.last p τ) null null (q ∷ ps) (p ∷ [])
            (subst (λ (e : Ptr). Seg (relink_next e p τ) null (q ∷ ps) p) (sym h.last)
              (Seg-relink_next τ null null p q ps h.addresses old))
            (ap (λ (k : Links). k.prev) at ∙ h.last, ap (λ (k : Links). k.next) at, tt);
      addresses = Addresses-append p (q ∷ ps) h.addresses ne out;
    })
