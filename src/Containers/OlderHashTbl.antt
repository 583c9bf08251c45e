-- ===== src/Containers/OlderHashTbl.antt =====
-- include/common/hashtbl.impl.hpp: the older hash table. The doubly linked items of a place of the
-- table are a list, from the head on; the allocations are taken to succeed.
use Prim.Native.Nat.{bit_and}
use cpp_raft.Base.{
  ◌==◌, if◌then◌else◌, Bool-cases, ==_refl, ℤ, pos, ℕ, ◌+◌, ◌-◌, ◌*◌, ◌^◌, ◌≡◌, refl, inl, inr,
  Bool, true, false, Option, none, some, List, [], ◌∷◌,
}
use cpp_raft.Containers.HashTbl.{eqb_key, count_bits, default_table_size}
use cpp_raft.Containers.HashTbl.Keys.{eqb_key_refl}

-- The size of the data is the length of the key.
pub record OlderItem (A : Type 0) : Type 0 where
  pub key : List ℕ
  pub content : A

pub record OlderHashTbl (A : Type 0) : Type 0 where
  pub hash_fnc : List ℕ → ℕ
  pub table : ℕ → List (OlderItem A)
  pub rounded_table_size_min1 : ℕ

-- The size in the constructor.
unfoldable pub older_size : ℕ → ℕ
unfolding count_bits
older_size init =
    if init == 0
    then default_table_size
    else (let size = 2 ^ (count_bits (init + 1) init 0 - 1) in
        if size == init then size else size * 2)

module _ {A : Type 0} where
  unfoldable pub new_older_hash_tbl : (List ℕ → ℕ) → ℕ → OlderHashTbl A
  unfolding older_size
  new_older_hash_tbl hash_fnc init_size = record {
    hash_fnc = hash_fnc;
    table = λ i. [];
    rounded_table_size_min1 = older_size init_size - 1;
  }

  -- The place of a key.
  unfoldable pub place_of : OlderHashTbl A → List ℕ → ℕ
  place_of h key = bit_and (h.hash_fnc key) h.rounded_table_size_min1

  abbrev pub at_place : ℕ → List (OlderItem A) → OlderHashTbl A → OlderHashTbl A
  at_place n items h = record h { table = λ i. if i == n then items else h.table i }

  -- `AddEntry`, which does not look for the key.
  unfoldable pub older_add_entry : List ℕ → A → OlderHashTbl A → ℤ × OlderHashTbl A
  unfolding place_of
  older_add_entry key content h =
      let n = place_of h key in
      (pos 0, at_place n (record { key = key; content = content } ∷ h.table n) h)

  -- The loop of the removal: the data, and the items without the first that has the key.
  unfoldable pub older_remove_item : List ℕ → List (OlderItem A) → Option A × List (OlderItem A)
  older_remove_item key [] = (none, [])
  older_remove_item key (item ∷ items) =
      let (found, rest) = older_remove_item key items in
      if eqb_key key item.key then (some item.content, items) else (found, item ∷ rest)

  unfoldable pub remove_entry_and_get_removed_data :
      List ℕ → OlderHashTbl A → Option A × OlderHashTbl A
  unfolding place_of older_remove_item
  remove_entry_and_get_removed_data key h =
      let n = place_of h key in
      let (found, rest) = older_remove_item key (h.table n) in (found, at_place n rest h)

  unfoldable pub older_remove_entry : List ℕ → OlderHashTbl A → Bool × OlderHashTbl A
  unfolding remove_entry_and_get_removed_data
  older_remove_entry key h =
      let (found, t) = remove_entry_and_get_removed_data key h in
      (elim found [ none ↦ false | some a ↦ true ], t)

  unfoldable pub older_find_item : List ℕ → List (OlderItem A) → Option A
  older_find_item key [] = none
  older_find_item key (item ∷ items) =
      if eqb_key key item.key then some item.content else older_find_item key items

  unfoldable pub older_find_entry : List ℕ → OlderHashTbl A → Option A
  unfolding place_of older_find_item
  older_find_entry key h = older_find_item key (h.table (place_of h key))

  -- The contents under a key at the items of a place, the newest first.
  abbrev pub contents : List ℕ → List (OlderItem A) → List A
  contents key [] = []
  contents key (item ∷ items) =
      if eqb_key key item.key then item.content ∷ contents key items else contents key items

  abbrev pub all_under : List ℕ → OlderHashTbl A → List A
  all_under key h = contents key (h.table (place_of h key))

  abbrev pub first_of : List A → Option A
  first_of [] = none
  first_of (a ∷ more) = some a

  abbrev pub behind_first : List A → List A
  behind_first [] = []
  behind_first (a ∷ more) = more

  older_find_item-first :
      (key : List ℕ) (items : List (OlderItem A))
      → older_find_item key items ≡ first_of (contents key items)
  unfolding older_find_item
  older_find_item-first key [] = refl
  older_find_item-first key (item ∷ items) = elim (Bool-cases (eqb_key key item.key)) [
    | inl e ↦ rw e refl
    | inr e ↦ rw e (older_find_item-first key items)
  ]

  older_remove_item-first :
      (key : List ℕ) (items : List (OlderItem A))
      → ((older_remove_item key items).0 ≡ first_of (contents key items))
        × (contents key (older_remove_item key items).1 ≡ behind_first (contents key items))
  unfolding older_remove_item
  older_remove_item-first key [] = (refl, refl)
  older_remove_item-first key (item ∷ items) = elim (Bool-cases (eqb_key key item.key)) [
    | inl e ↦ rw e (refl, refl)
    | inr e ↦ rw (e, e) (older_remove_item-first key items)
  ]

  -- The table keeps a stack under every key: adding puts the content before those that were there,
  -- finding gives the first, and removing gives it and takes it away.
  pub older_hash_tbl-stacks :
      (key : List ℕ) (content : A) (h : OlderHashTbl A)
      → (all_under key (older_add_entry key content h).1 ≡ content ∷ all_under key h)
        × (older_find_entry key h ≡ first_of (all_under key h))
        × ((remove_entry_and_get_removed_data key h).0 ≡ first_of (all_under key h))
        × (all_under key (remove_entry_and_get_removed_data key h).1
            ≡ behind_first (all_under key h))
  unfolding older_add_entry older_find_entry remove_entry_and_get_removed_data
  older_hash_tbl-stacks key content h =
      let same : (place_of h key == place_of h key) ≡ true = ==_refl (place_of h key) in
      let (a, b) = older_remove_item-first key (h.table (place_of h key)) in
      (
        rw (same, eqb_key_refl key) refl,
        older_find_item-first key (h.table (place_of h key)),
        a,
        rw same b,
      )
