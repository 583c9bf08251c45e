-- ===== src/Containers/ListSpecial/Removing.antt =====
-- `RemoveDataRaw` takes out an element, wherever it stands.
use cpp_raft.Base.{
  ◌==◌, if◌then◌else◌, ==_iff, ==_refl, Bool-cases, length, length-append, ℤ, ◌-ℤ◌, suc-sub-one,
  pos, suc, ◌≡◌, refl, sym, ap, ◌∙◌, inl, inr, false, List, [], ◌∷◌, ◌++◌, arith,
}
use cpp_raft.Node.{Ptr, null}
use cpp_raft.Containers.ListSpecial.{Links, Store, ListSpecial, unlink, remove_data_raw}
use cpp_raft.Containers.ListSpecial.Segment.{
  head_or, last_or, Addresses, last_or-append, has-last_or, has-differ,
}
use cpp_raft.Containers.ListSpecial.Unlinking.{middle, around, unlink_self, unlink-Seg}
use cpp_raft.Containers.ListSpecial.Adding.{Holds}

new_first :
    (xs : List Ptr) (p : Ptr) (ys : List Ptr) (first next : Ptr)
    → Addresses (xs ++ p ∷ ys)
    → first ≡ head_or null (xs ++ p ∷ ys)
    → next ≡ head_or null ys
    → (if p == first then next else first) ≡ head_or null (xs ++ ys)
new_first [] p ys first next d h k = rw (h, ==_refl p) k
new_first (x ∷ xs) p ys first next d h k =
    let m = middle (x ∷ xs) p ys d in
    let other : (p == x) ≡ false = ground (arith, m.before) in rw (h, other) refl

new_last :
    (xs : List Ptr) (p : Ptr) (ys : List Ptr) (last prev : Ptr)
    → Addresses (xs ++ p ∷ ys)
    → last ≡ last_or null (xs ++ p ∷ ys)
    → prev ≡ last_or null xs
    → (if p == last then prev else last) ≡ last_or null (xs ++ ys)
new_last xs p [] last prev d h k =
    let end = h ∙ last_or-append null xs (p ∷ []) in
    rw (end, ==_refl p) (k ∙ sym (last_or-append null xs []))
new_last xs p (y ∷ ys) last prev d h k =
    let m = middle xs p (y ∷ ys) d in
    let end = h ∙ last_or-append null xs (p ∷ y ∷ ys) in
    let other : (p == last_or y ys) ≡ false = elim (Bool-cases (p == last_or y ys)) [
      | inr e ↦ e
      | inl e ↦ absurd (
          has-differ p (last_or y ys) (y ∷ ys) m.behind (has-last_or y ys)
            (sym ((==_iff p (last_or y ys)).0 e)))
    ] in
    rw (end, other) (sym (last_or-append null xs (y ∷ ys)))

shorter :
    (n : ℤ) (xs : List Ptr) (p : Ptr) (ys : List Ptr)
    → n ≡ pos (length (xs ++ p ∷ ys))
    → n -ℤ pos 1 ≡ pos (length (xs ++ ys))
shorter n xs p ys h =
    let size : length (xs ++ p ∷ ys) ≡ suc (length (xs ++ ys)) =
      omega (arith, length-append xs (p ∷ ys), length-append xs ys) in
    ap (λ (m : ℤ). m -ℤ pos 1) (h ∙ ap pos size) ∙ suc-sub-one (length (xs ++ ys))

-- Removing an element of the list takes it out and counts it off; the element behind it is
-- returned, or null if it was the last.
pub remove_data_raw-Holds :
    (xs : List Ptr) (p : Ptr) (ys : List Ptr) (σ : Store) (l : ListSpecial)
    → Holds σ l (xs ++ p ∷ ys)
    → let (next, τ, m) = remove_data_raw p σ l in Holds τ m (xs ++ ys) × (next ≡ head_or null ys)
unfolding remove_data_raw
remove_data_raw-Holds xs p ys σ l h =
    let d = h.addresses in
    let (prev, next) = around xs p ys σ h.links in
    let self = unlink_self xs p ys σ d h.links in
    let prev' = ap (λ (k : Links). k.prev) self ∙ prev in
    let next' = ap (λ (k : Links). k.next) self ∙ next in
    (
      record {
        first = new_first xs p ys l.first (unlink p σ p).next d h.first next';
        last = new_last xs p ys l.last (unlink p σ p).prev d h.last prev';
        count = shorter l.count xs p ys h.count;
        links = unlink-Seg xs p ys σ d h.links;
        addresses = (middle xs p ys d).both;
      },
      next',
    )
