-- ===== src/Containers/ListspecialAndHashtbl.antt =====
-- include/common/impl.listspecialandhashtbl.hpp: a doubly linked list whose elements a hash table
-- finds by their keys. The key of an element is a copy that the table makes, and lives as long as
-- its item. Keys are shorter than 2 ^ 32 bytes.
pub mod Adding
use cpp_raft.Base.{
  ltb, leb, ◌==◌, if◌then◌else◌, to_nat, ==_iff, ==_refl, Bool-cases, Option-cases, length,
  is_empty, get_elem?, set, get_last?, take, drop, replicate, length-append, length-take_le,
  get_elem?-take, get_elem?-eq_none, get_elem?-some, get_elem?-append_lt, get_elem?-append_last,
  length-set, get_elem?-set_self, get_elem?-set_ne, get_last?-append, has, ℤ, pos_part, neg_part,
  sub_ℕ, ◌+ℤ◌, ◌-ℤ◌, ◌≤ℤ◌, ◌<ℤ◌, ltb_ℤ, leb_ℤ, eqb_ℤ, half_ℤ, to_int, to_unsigned, +ℤ_parts,
  -ℤ_parts, eq_of_parts, eqb_ℤ→eq, ne→eqb_ℤ, +ℤ_assoc, +ℤ-pos, -ℤ-pos, suc-sub-one, int_laws, pos,
  negsuc, ℕ, zero, suc, ◌+◌, ◌-◌, ◌*◌, ◌/◌, ◌%◌, ◌^◌, ◌≤◌, ◌<◌, ◌≡◌, refl, sym, ap, ◌∙◌, ◌≢◌, ◌↔◌,
  ◌⊎◌, inl, inr, Bool, true, false, not, ◌&&◌, ◌||◌, Option, none, some, List, [], ◌∷◌, ◌++◌, map,
  arith,
}
use cpp_raft.Node.{
  Ptr, null, RaftNode, initial_ping_count, new_node, increment_lock2, decrement_lock2,
  mark_will_be_deleted, ping_received, set_unable_to_vote, set_next_idx, set_votes_for_me,
  set_udata, make_leader, reset_leader, increment_ok_count, ping,
}
use cpp_raft.Containers.HashTbl.{
  eqb_key, HashItem, HashTbl, default_table_size, count_bits, rounded_size, new_hash_tbl, un_hash,
  add_entry2, remove_item, remove_entry2, remove_entry, find_item, find_content,
  move_content_to_empty_hash,
}
use cpp_raft.Containers.ListSpecial.{
  Links, Store, ListSpecial, new_list_special, relink_next, relink_prev, enter, add_data_raw,
  unlink, remove_data_raw, move_content_to_other_list, move_item_to_other_list,
}

-- The links and the keys of the elements, by address.
pub record World : Type 0 where
  pub links : Store
  pub keys : Ptr → List ℕ

pub record ListspecialAndHashtbl : Type 0 where
  pub hash : HashTbl Ptr
  pub list : ListSpecial

unfoldable pub set_key : Ptr → List ℕ → (Ptr → List ℕ) → Ptr → List ℕ
set_key p key keys q = if q == p then key else keys q

unfoldable pub add_data :
    Ptr → List ℕ → World → ListspecialAndHashtbl → Bool × World × ListspecialAndHashtbl
add_data p key w t = elim (find_content key t.hash) [
  | some q ↦ (false, w, t)
  | none ↦
      let (links, list) = add_data_raw p w.links t.list in
      (
        true,
        record { links = links; keys = set_key p key w.keys },
        record { hash = add_entry2 key p t.hash; list = list },
      )
]

-- By the key: the element behind the removed one, or null.
unfoldable pub remove_data_key :
    List ℕ → World → ListspecialAndHashtbl → Ptr × World × ListspecialAndHashtbl
remove_data_key key w t =
    let (found, hash) = remove_entry2 key t.hash in
    elim found [
      | none ↦ (null, w, record t { hash = hash })
      | some p ↦
          let (next, links, list) = remove_data_raw p w.links t.list in
          (next, record w { links = links }, record { hash = hash; list = list })
    ]

-- By the element, with the key that it has.
unfoldable pub remove_data :
    Ptr → World → ListspecialAndHashtbl → Ptr × World × ListspecialAndHashtbl
remove_data p w t =
    let (found, hash) = remove_entry (w.keys p) t.hash in
    if found
    then (let (next, links, list) = remove_data_raw p w.links t.list in
        (next, record w { links = links }, record { hash = hash; list = list }))
    else (null, w, record t { hash = hash })

unfoldable pub move_item :
    Ptr
    → World
    → ListspecialAndHashtbl
    → ListspecialAndHashtbl
    → World × ListspecialAndHashtbl × ListspecialAndHashtbl
move_item p w t o =
    let key = w.keys p in
    let (found, hash) = remove_entry key t.hash in
    let (links, list, list') = move_item_to_other_list p w.links t.list o.list in
    (
      record w { links = links },
      record { hash = hash; list = list },
      record { hash = add_entry2 key p o.hash; list = list' },
    )
