-- ===== src/Containers/OwningList.antt =====
-- include/common/impl.lists.hpp: `List`, which makes and deletes its items, and `listN::Fifo`, a
-- queue on it. The mutex is held over each method of the queue. The store keeps the links and the
-- data of an item; a deleted item is not looked at again.
pub mod Values
use cpp_raft.Base.{
  ltb, leb, ◌==◌, if◌then◌else◌, to_nat, ==_iff, ==_refl, Bool-cases, Option-cases, length,
  is_empty, get_elem?, set, get_last?, take, drop, replicate, length-append, length-take_le,
  get_elem?-take, get_elem?-eq_none, get_elem?-some, get_elem?-append_lt, get_elem?-append_last,
  length-set, get_elem?-set_self, get_elem?-set_ne, get_last?-append, has, ℤ, pos_part, neg_part,
  sub_ℕ, ◌+ℤ◌, ◌-ℤ◌, ◌≤ℤ◌, ◌<ℤ◌, ltb_ℤ, leb_ℤ, eqb_ℤ, half_ℤ, to_int, to_unsigned, +ℤ_parts,
  -ℤ_parts, eq_of_parts, eqb_ℤ→eq, ne→eqb_ℤ, +ℤ_assoc, +ℤ-pos, -ℤ-pos, suc-sub-one, int_laws, pos,
  negsuc, ℕ, zero, suc, ◌+◌, ◌-◌, ◌*◌, ◌/◌, ◌%◌, ◌^◌, ◌≤◌, ◌<◌, ◌≡◌, refl, sym, ap, ◌∙◌, ◌≢◌, ◌↔◌,
  ◌⊎◌, inl, inr, Bool, true, false, not, ◌&&◌, ◌||◌, Option, none, some, List, [], ◌∷◌, ◌++◌, map,
  arith,
}
use cpp_raft.Node.{
  Ptr, null, RaftNode, initial_ping_count, new_node, increment_lock2, decrement_lock2,
  mark_will_be_deleted, ping_received, set_unable_to_vote, set_next_idx, set_votes_for_me,
  set_udata, make_leader, reset_leader, increment_ok_count, ping,
}
use cpp_raft.Containers.ListSpecial.{
  Links, Store, ListSpecial, new_list_special, relink_next, relink_prev, enter, add_data_raw,
  unlink, remove_data_raw, move_content_to_other_list, move_item_to_other_list,
}

-- `ListItem`s by address, and the list of them.
pub record OwningList (A : Type 0) : Type 0 where
  pub links : Store
  pub content : Ptr → A
  pub list : ListSpecial

module _ {A : Type 0} where
  unfoldable pub set_content : Ptr → A → (Ptr → A) → Ptr → A
  set_content p a content q = if q == p then a else content q

  -- `fresh` is the address of the new item, which is returned.
  unfoldable pub list_add_data : Ptr → A → OwningList A → OwningList A
  unfolding set_content
  list_add_data fresh a s =
      let (links, list) = add_data_raw fresh s.links s.list in
      record { links = links; content = set_content fresh a s.content; list = list }

  -- Returns the item behind the removed one.
  unfoldable pub list_remove_data : Ptr → OwningList A → Ptr × OwningList A
  list_remove_data p s =
      let (next, links, list) = remove_data_raw p s.links s.list in
      (next, record s { links = links; list = list })

  -- The loop of `clear`; the fuel is the count.
  unfoldable pub clear_loop : ℕ → OwningList A → OwningList A
  clear_loop zero s = s
  clear_loop (suc fuel) s =
      let rest = clear_loop fuel (list_remove_data s.list.first s).1 in
      if s.list.first == null then s else rest

  unfoldable pub clear : OwningList A → OwningList A
  unfolding clear_loop
  clear s = clear_loop (pos_part s.list.count) s

  -- `Fifo::AddElement`, which returns true always.
  unfoldable pub add_element : Ptr → A → OwningList A → Bool × OwningList A
  add_element fresh a s = (true, list_add_data fresh a s)

  -- `Fifo::AddElements`, with the address of each new item.
  unfoldable pub add_elements : List (Ptr × A) → OwningList A → Bool × OwningList A
  add_elements [] s = (true, s)
  add_elements ((fresh, a) ∷ rest) s = add_elements rest (list_add_data fresh a s)

  -- `Fifo::Extract`
  unfoldable pub extract_first : OwningList A → Option A × OwningList A
  extract_first s =
      if eqb_ℤ s.list.count (pos 0)
      then (none, s)
      else (some (s.content s.list.first), (list_remove_data s.list.first s).1)
