-- ===== src/Containers/HashTbl.antt =====
-- include/common/impl.common_hashtbl.hpp: the hash table `HashTbl`. A key is the list of its bytes.
-- The doubly linked items of a place of the table are a list, from the head on; the allocations
-- are taken to succeed.
pub mod Keys
pub mod Lookup
pub mod Hash
use Prim.Native.Nat.{bit_and}
use cpp_raft.Base.{
  ltb, leb, ◌==◌, if◌then◌else◌, to_nat, ==_iff, ==_refl, Bool-cases, Option-cases, length,
  is_empty, get_elem?, set, get_last?, take, drop, replicate, length-append, length-take_le,
  get_elem?-take, get_elem?-eq_none, get_elem?-some, get_elem?-append_lt, get_elem?-append_last,
  length-set, get_elem?-set_self, get_elem?-set_ne, get_last?-append, has, ℤ, pos_part, neg_part,
  sub_ℕ, ◌+ℤ◌, ◌-ℤ◌, ◌≤ℤ◌, ◌<ℤ◌, ltb_ℤ, leb_ℤ, eqb_ℤ, half_ℤ, to_int, to_unsigned, +ℤ_parts,
  -ℤ_parts, eq_of_parts, eqb_ℤ→eq, ne→eqb_ℤ, +ℤ_assoc, +ℤ-pos, -ℤ-pos, suc-sub-one, int_laws, pos,
  negsuc, ℕ, zero, suc, ◌+◌, ◌-◌, ◌*◌, ◌/◌, ◌%◌, ◌^◌, ◌≤◌, ◌<◌, ◌≡◌, refl, sym, ap, ◌∙◌, ◌≢◌, ◌↔◌,
  ◌⊎◌, inl, inr, Bool, true, false, not, ◌&&◌, ◌||◌, Option, none, some, List, [], ◌∷◌, ◌++◌, map,
  arith,
}

-- Equal lengths and equal bytes.
abbrev pub eqb_key : List ℕ → List ℕ → Bool
eqb_key [] [] = true
eqb_key (x ∷ xs) (y ∷ ys) = (x == y) && eqb_key xs ys
eqb_key _ _ = false

-- The size of the data is the length of the key.
pub record HashItem (A : Type 0) : Type 0 where
  pub key : List ℕ
  pub content : A

pub record HashTbl (A : Type 0) : Type 0 where
  pub hash_fnc : List ℕ → ℕ
  pub table : ℕ → List (HashItem A)
  pub un_rounded_table_size_min1 : ℕ

abbrev pub default_table_size : ℕ
default_table_size = 64

-- The loop `for (; tRet; tRet = (a_tInitSize >> ++i))`, which counts the binary digits. The fuel is
-- more than their number.
unfoldable pub count_bits : ℕ → ℕ → ℕ → ℕ
count_bits zero init i = i
count_bits (suc fuel) init i =
    let rest = count_bits fuel init (i + 1) in if init / 2 ^ i == 0 then i else rest

-- A power of two, which is not below the size asked for.
unfoldable pub rounded_size : ℕ → ℕ
unfolding count_bits
rounded_size init =
    if init == 0
    then default_table_size
    else (let size = 2 ^ (count_bits (init + 1) init 0 - 1) in
        if size == init then size else size * 2)

module _ {A : Type 0} where
  -- The constructor, with an empty table from `calloc`; the code passes `hash1_`.
  unfoldable pub new_hash_tbl : (List ℕ → ℕ) → ℕ → HashTbl A
  unfolding rounded_size
  new_hash_tbl hash_fnc init_size = record {
    hash_fnc = hash_fnc;
    table = λ i. [];
    un_rounded_table_size_min1 = rounded_size init_size - 1;
  }

  -- `uint32_t unHash(((*m_fpHashFnc)(a_key, a_nKeyLen))&m_unRoundedTableSizeMin1)`
  unfoldable pub un_hash : HashTbl A → List ℕ → ℕ
  un_hash h key = bit_and (h.hash_fnc key) h.un_rounded_table_size_min1 % 2 ^ 32

  unfoldable pub add_entry2 : List ℕ → A → HashTbl A → HashTbl A
  add_entry2 key content h = record h {
    table = λ i.
        if i == un_hash h key
        then record { key = key; content = content } ∷ h.table i
        else h.table i;
  }

  -- `AddEntry` takes all of the hash, and returns 0.
  unfoldable pub add_entry : List ℕ → A → HashTbl A → ℤ × HashTbl A
  add_entry key content h = (
    pos 0,
    record h {
      table = λ i.
          if i == bit_and (h.hash_fnc key) h.un_rounded_table_size_min1
          then record { key = key; content = content } ∷ h.table i
          else h.table i;
    },
  )

  -- The first item with the key, and the others.
  unfoldable pub remove_item : List ℕ → List (HashItem A) → Option A × List (HashItem A)
  remove_item key [] = (none, [])
  remove_item key (item ∷ items) =
      let (found, rest) = remove_item key items in
      if eqb_key key item.key then (some item.content, items) else (found, item ∷ rest)

  unfoldable pub remove_entry2 : List ℕ → HashTbl A → Option A × HashTbl A
  remove_entry2 key h =
      let (found, rest) = remove_item key (h.table (un_hash h key)) in
      (found, record h { table = λ i. if i == un_hash h key then rest else h.table i })

  unfoldable pub remove_entry : List ℕ → HashTbl A → Bool × HashTbl A
  remove_entry key h =
      let (found, t) = remove_entry2 key h in (elim found [ none ↦ false | some a ↦ true ], t)

  unfoldable pub find_item : List ℕ → List (HashItem A) → Option A
  find_item key [] = none
  find_item key (item ∷ items) =
      if eqb_key key item.key then some item.content else find_item key items

  unfoldable pub find_content : List ℕ → HashTbl A → Option A
  find_content key h = find_item key (h.table (un_hash h key))

  -- The pair of the two tables: the content goes to the other one, and its table comes here. The
  -- hash function stays here, and is copied.
  unfoldable pub move_content_to_empty_hash : HashTbl A → HashTbl A → HashTbl A × HashTbl A
  move_content_to_empty_hash h other = (
    record h { table = other.table; un_rounded_table_size_min1 = other.un_rounded_table_size_min1 },
    record {
      hash_fnc = h.hash_fnc;
      table = h.table;
      un_rounded_table_size_min1 = h.un_rounded_table_size_min1;
    },
  )
