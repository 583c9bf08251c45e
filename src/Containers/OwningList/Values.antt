-- ===== src/Containers/OwningList/Values.antt =====
-- The owning list and its queue as a list of values.
use mathlib.Core.Path.{subst}
use cpp_raft.Base.{
  ◌==◌, ==_refl, length, get_elem?, drop, has, ℤ, pos_part, eqb_ℤ, pos, ◌≡◌, refl, sym, ap, ◌∙◌,
  ◌≢◌, false, some, List, [], ◌∷◌, ◌++◌, map, arith,
}
use cpp_raft.Node.{Ptr, null}
use cpp_raft.Containers.ListSpecial.Adding.{Holds, not-null, add_data_raw-Holds}
use cpp_raft.Containers.ListSpecial.Removing.{remove_data_raw-Holds}
use cpp_raft.Containers.OwningList.{
  OwningList, set_content, list_add_data, list_remove_data, clear_loop, clear, add_element,
  extract_first,
}

module _ {A : Type 0} where
  -- The items are linked in order, and have the values in the same order.
  pub record Owns (s : OwningList A) (ps : List Ptr) (xs : List A) : Type 0 where
    pub list : Holds s.links s.list ps
    pub values : map s.content ps ≡ xs

  set_here : (p : Ptr) (a : A) (content : Ptr → A) → set_content p a content p ≡ a
  unfolding set_content
  set_here p a content = rw (==_refl p) refl

  map_kept :
      (p : Ptr) (a : A) (content : Ptr → A) (ps : List Ptr)
      → has p ps ≡ false
      → map (set_content p a content) ps ≡ map content ps
  unfolding set_content
  map_kept p a content [] out = refl
  map_kept p a content (q ∷ ps) out =
      let other : (q == p) ≡ false = ground arith in
      rw (other, map_kept p a content ps (ground arith)) refl

  map-append : (f : Ptr → A) (ps : List Ptr) (p : Ptr) → map f (ps ++ p ∷ []) ≡ map f ps ++ f p ∷ []
  map-append f [] p = refl
  map-append f (q ∷ ps) p = ap (λ (l : List A). f q ∷ l) (map-append f ps p)

  -- Adding an element puts its value behind the others, if the address of the new item is not null
  -- and none that an item has.
  pub add_element-Owns :
      (fresh : Ptr) (a : A) (s : OwningList A) (ps : List Ptr) (xs : List A)
      → Owns s ps xs
      → fresh ≢ null
      → has fresh ps ≡ false
      → Owns (add_element fresh a s).1 (ps ++ fresh ∷ []) (xs ++ a ∷ [])
  unfolding add_element list_add_data
  add_element-Owns fresh a s ps xs h ne out = record {
    list = add_data_raw-Holds fresh s.links s.list ps h.list ne out;
    values =
        map-append (set_content fresh a s.content) ps fresh
        ∙ ap (λ (l : List A). l ++ set_content fresh a s.content fresh ∷ [])
            (map_kept fresh a s.content ps out ∙ h.values)
        ∙ ap (λ (b : A). xs ++ b ∷ []) (set_here fresh a s.content);
  }

  at_first :
      (s : OwningList A) (p : Ptr) (ps : List Ptr) (xs : List A)
      → Owns s (p ∷ ps) xs
      → Owns s (s.list.first ∷ ps) xs
  at_first s p ps xs h = subst (λ (q : Ptr). Owns s (q ∷ ps) xs) (sym h.list.first) h

  -- Extracting returns the first value and leaves the others.
  pub extract_first-Owns :
      (s : OwningList A) (p : Ptr) (ps : List Ptr) (x : A) (xs : List A)
      → Owns s (p ∷ ps) (x ∷ xs)
      → ((extract_first s).0 ≡ some x) × Owns (extract_first s).1 ps xs
  unfolding extract_first list_remove_data
  extract_first-Owns s p ps x xs h =
      let more : eqb_ℤ s.list.count (pos 0) ≡ false =
        ap (λ (n : ℤ). eqb_ℤ n (pos 0)) h.list.count ∙ ground arith in
      let k = at_first s p ps (x ∷ xs) h in
      let (rest, next) = remove_data_raw-Holds [] s.list.first ps s.links s.list k.list in
      rw more (
        ap (λ (l : List A). get_elem? l 0) k.values,
        record { list = rest; values = ap (drop 1) k.values },
      )

  clear_loop-first :
      (ps : List Ptr) (s : OwningList A)
      → Holds s.links s.list ps
      → (clear_loop (length ps) s).list.first ≡ null
  unfolding clear_loop list_remove_data
  clear_loop-first [] s h = h.first
  clear_loop-first (p ∷ ps) s h =
      let more : (s.list.first == null) ≡ false = rw h.first (not-null p ps h.addresses) in
      let k = subst (λ (q : Ptr). Holds s.links s.list (q ∷ ps)) (sym h.first) h in
      let (rest, next) = remove_data_raw-Holds [] s.list.first ps s.links s.list k in
      rw more (clear_loop-first ps (list_remove_data s.list.first s).1 rest)

  -- `clear` ends with no item in the list, for the fuel that it takes.
  pub clear-first :
      (ps : List Ptr) (s : OwningList A) → Holds s.links s.list ps → (clear s).list.first ≡ null
  unfolding clear
  clear-first ps s h =
      ap (λ (n : ℤ). (clear_loop (pos_part n) s).list.first) h.count ∙ clear_loop-first ps s h
