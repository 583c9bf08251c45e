-- ===== src/Containers/ListspecialAndHashtbl/Adding.antt =====
-- The hash table and the list hold the same elements.
use mathlib.Core.Option.{some-ne-none}
use cpp_raft.Base.{
  ◌==◌, if◌then◌else◌, ==_refl, Bool-cases, Option-cases, has, ℕ, ◌≡◌, refl, sym, ap, ◌∙◌, ◌≢◌, inl,
  ◌⊎◌, inr, true, false, Option, none, some, List, [], ◌∷◌, ◌++◌, arith,
}
use cpp_raft.Node.{Ptr, null}
use cpp_raft.Containers.HashTbl.{eqb_key, add_entry2, find_content}
use cpp_raft.Containers.HashTbl.Keys.{eqb_key-apart}
use cpp_raft.Containers.HashTbl.Lookup.{add_entry2-find_content}
use cpp_raft.Containers.ListSpecial.{add_data_raw}
use cpp_raft.Containers.ListSpecial.Adding.{Holds, add_data_raw-Holds}
use cpp_raft.Containers.ListspecialAndHashtbl.{World, ListspecialAndHashtbl, set_key, add_data}

-- The first of the elements that has a key.
unfoldable pub search : (Ptr → List ℕ) → List ℕ → List Ptr → Option Ptr
search keys k [] = none
search keys k (p ∷ ps) = if eqb_key k (keys p) then some p else search keys k ps

-- The list has the elements in order, and the table finds under each key what a search of the
-- list finds.
pub record Agree (w : World) (t : ListspecialAndHashtbl) (ps : List Ptr) : Type 0 where
  pub list : Holds w.links t.list ps
  pub finds : (k : List ℕ) → find_content k t.hash ≡ search w.keys k ps

search-append :
    (p : Ptr) (key k : List ℕ) (keys : Ptr → List ℕ) (ps : List Ptr)
    → has p ps ≡ false
    → search keys key ps ≡ none
    → search (set_key p key keys) k (ps ++ p ∷ [])
      ≡ (if eqb_key k key then some p else search keys k ps)
unfolding search set_key
search-append p key k keys [] out free = rw (==_refl p) refl
search-append p key k keys (q ∷ ps) out free =
    let other : (q == p) ≡ false = ground arith in
    elim (Bool-cases (eqb_key key (keys q))) [
      | inl e ↦ absurd (some-ne-none q (sym (rw e refl) ∙ free))
      | inr e ↦ elim (Bool-cases (eqb_key k (keys q))) [
        | inl f ↦ rw (other, f, eqb_key-apart k key (keys q) f e) refl
        | inr f ↦
            rw (other, f) (search-append p key k keys ps (ground arith) (sym (rw e refl) ∙ free))
      ]
    ]

add_data_new :
    (p : Ptr) (key : List ℕ) (w : World) (t : ListspecialAndHashtbl)
    → find_content key t.hash ≡ none
    → add_data p key w t ≡ (
      true,
      record { links = (add_data_raw p w.links t.list).0; keys = set_key p key w.keys },
      record { hash = add_entry2 key p t.hash; list = (add_data_raw p w.links t.list).1 },
    )
unfolding add_data
add_data_new p key w t e = rw (add_data, e) refl

add_data_taken :
    (p : Ptr) (key : List ℕ) (w : World) (t : ListspecialAndHashtbl) (q : Ptr)
    → find_content key t.hash ≡ some q
    → add_data p key w t ≡ (false, w, t)
unfolding add_data
add_data_taken p key w t q e = rw (add_data, e) refl

-- Adding an element that is not null and not in the list, under a key that the table does not
-- find, returns true and puts it at the end of the list; under a key that it finds, it returns
-- false and changes nothing. The table and the list still agree.
pub add_data-Agree :
    (p : Ptr) (key : List ℕ) (w : World) (t : ListspecialAndHashtbl) (ps : List Ptr)
    → Agree w t ps
    → p ≢ null
    → has p ps ≡ false
    → let (added, v, u) = add_data p key w t in
      (added ≡ (elim (search w.keys key ps) [ none ↦ true | some q ↦ false ]))
      × Agree v u (if added then ps ++ p ∷ [] else ps)
      × ((search w.keys key ps ≡ none) ⊎ (add_data p key w t ≡ (false, w, t)))
add_data-Agree p key w t ps h ne out = elim (Option-cases (search w.keys key ps)) [
  | inr (q, e) ↦ rw (add_data_taken p key w t q (h.finds key ∙ e), e) (refl, h, inr refl)
  | inl e ↦
      rw (add_data_new p key w t (h.finds key ∙ e), e)
        (
          refl,
          record {
            list = add_data_raw-Holds p w.links t.list ps h.list ne out;
            finds = λ k.
                add_entry2-find_content key k p t.hash
                ∙ ap (λ (o : Option Ptr). if eqb_key k key then some p else o) (h.finds k)
                ∙ sym (search-append p key k w.keys ps out e);
          },
          inl refl,
        )
]
