-- ===== src/Containers/HashTbl/Lookup.antt =====
-- The table as a map from keys, with the older items of a key behind the newer.
use mathlib.Core.Path.{subst}
use cpp_raft.Base.{
  ◌==◌, if◌then◌else◌, ==_iff, ==_refl, Bool-cases, ℕ, ◌≡◌, refl, sym, ap, ◌∙◌, inl, inr, true,
  false, some, List, [], ◌∷◌,
}
use cpp_raft.Containers.HashTbl.{
  eqb_key, HashItem, HashTbl, un_hash, add_entry2, remove_item, remove_entry2, find_item,
  find_content,
}
use cpp_raft.Containers.HashTbl.Keys.{eqb_key_refl, eqb_key→eq}

module _ {A : Type 0} where
  -- After adding, the new content is found under the key, and what was there before under every
  -- other key, whether the hashes meet or not.
  pub add_entry2-find_content :
      (key k : List ℕ) (content : A) (h : HashTbl A)
      → find_content k (add_entry2 key content h)
        ≡ (if eqb_key k key then some content else find_content k h)
  unfolding add_entry2 find_content find_item un_hash
  add_entry2-find_content key k content h = elim (Bool-cases (eqb_key k key)) [
    | inl e ↦
        rw (e, eqb_key→eq k key e)
          (let same : (un_hash h key == un_hash h key) ≡ true = ==_refl (un_hash h key) in
            rw (same, eqb_key_refl key) refl)
    | inr e ↦ elim (Bool-cases (un_hash h k == un_hash h key)) [
      | inl meet ↦ rw (meet, e) refl
      | inr apart ↦ rw (apart, e) refl
    ]
  ]

  remove_item-found :
      (key : List ℕ) (items : List (HashItem A)) → (remove_item key items).0 ≡ find_item key items
  unfolding remove_item find_item
  remove_item-found key [] = refl
  remove_item-found key (item ∷ items) = elim (Bool-cases (eqb_key key item.key)) [
    | inl e ↦ rw e refl
    | inr e ↦ rw e (remove_item-found key items)
  ]

  remove_item-others :
      (key k : List ℕ) (items : List (HashItem A))
      → eqb_key k key ≡ false
      → find_item k (remove_item key items).1 ≡ find_item k items
  unfolding remove_item find_item
  remove_item-others key k [] ne = refl
  remove_item-others key k (item ∷ items) ne = elim (Bool-cases (eqb_key key item.key)) [
    | inl e ↦
        let other : eqb_key k item.key ≡ false =
          subst (λ (l : List ℕ). eqb_key k l ≡ false) (eqb_key→eq key item.key e) ne in
        rw (e, other) refl
    | inr e ↦ rw e (elim (Bool-cases (eqb_key k item.key)) [
      | inl f ↦ rw f refl
      | inr f ↦ rw f (remove_item-others key k items ne)
    ])
  ]

  -- Removing returns what was found under the key, and leaves what is found under every other key.
  pub remove_entry2-find_content :
      (key k : List ℕ) (h : HashTbl A)
      → eqb_key k key ≡ false
      → ((remove_entry2 key h).0 ≡ find_content key h)
        × (find_content k (remove_entry2 key h).1 ≡ find_content k h)
  unfolding remove_entry2 find_content un_hash
  remove_entry2-find_content key k h ne = (
    remove_item-found key (h.table (un_hash h key)),
    elim (Bool-cases (un_hash h k == un_hash h key)) [
      | inl meet ↦ rw meet (
          remove_item-others key k (h.table (un_hash h key)) ne
          ∙ ap (λ (i : ℕ). find_item k (h.table i)) (sym ((==_iff _ _).0 meet)))
      | inr apart ↦ rw apart refl
    ],
  )

  -- Removing right after adding returns the content that was added, and every place of the table is
  -- as before.
  pub remove_entry2-add_entry2 :
      (key : List ℕ) (content : A) (h : HashTbl A) (i : ℕ)
      → ((remove_entry2 key (add_entry2 key content h)).0 ≡ some content)
        × ((remove_entry2 key (add_entry2 key content h)).1.table i ≡ h.table i)
  unfolding remove_entry2 add_entry2 remove_item un_hash
  remove_entry2-add_entry2 key content h i =
      let same : (un_hash h key == un_hash h key) ≡ true = ==_refl (un_hash h key) in
      (
        rw (same, eqb_key_refl key) refl,
        elim (Bool-cases (i == un_hash h key)) [
          | inl at ↦
              rw (at, same, eqb_key_refl key) (ap h.table (sym ((==_iff i (un_hash h key)).0 at)))
          | inr apart ↦ rw apart refl
        ],
      )
