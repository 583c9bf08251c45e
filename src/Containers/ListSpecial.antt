-- ===== src/Containers/ListSpecial.antt =====
-- include/common/impl.lists.hpp: the doubly linked list `ListSpecial`, whose links are fields of
-- the elements. All lists share one store of links, by address.
pub mod Segment
pub mod Adding
pub mod Unlinking
pub mod Removing
use cpp_raft.Base.{
  ltb, leb, ◌==◌, if◌then◌else◌, to_nat, ==_iff, ==_refl, Bool-cases, Option-cases, length,
  is_empty, get_elem?, set, get_last?, take, drop, replicate, length-append, length-take_le,
  get_elem?-take, get_elem?-eq_none, get_elem?-some, get_elem?-append_lt, get_elem?-append_last,
  length-set, get_elem?-set_self, get_elem?-set_ne, get_last?-append, has, ℤ, pos_part, neg_part,
  sub_ℕ, ◌+ℤ◌, ◌-ℤ◌, ◌≤ℤ◌, ◌<ℤ◌, ltb_ℤ, leb_ℤ, eqb_ℤ, half_ℤ, to_int, to_unsigned, +ℤ_parts,
  -ℤ_parts, eq_of_parts, eqb_ℤ→eq, ne→eqb_ℤ, +ℤ_assoc, +ℤ-pos, -ℤ-pos, suc-sub-one, int_laws, pos,
  negsuc, ℕ, zero, suc, ◌+◌, ◌-◌, ◌*◌, ◌/◌, ◌%◌, ◌^◌, ◌≤◌, ◌<◌, ◌≡◌, refl, sym, ap, ◌∙◌, ◌≢◌, ◌↔◌,
  ◌⊎◌, inl, inr, Bool, true, false, not, ◌&&◌, ◌||◌, Option, none, some, List, [], ◌∷◌, ◌++◌, map,
  arith,
}
use cpp_raft.Node.{
  Ptr, null, RaftNode, initial_ping_count, new_node, increment_lock2, decrement_lock2,
  mark_will_be_deleted, ping_received, set_unable_to_vote, set_next_idx, set_votes_for_me,
  set_udata, make_leader, reset_leader, increment_ok_count, ping,
}

pub record Links : Type 0 where
  pub prev : Ptr
  pub next : Ptr

abbrev pub Store : Type 0
Store = Ptr → Links

pub record ListSpecial : Type 0 where
  pub first : Ptr
  pub last : Ptr
  pub count : ℤ

unfoldable pub new_list_special : ListSpecial
new_list_special = record { first = null; last = null; count = pos 0 }

-- `if (q) { q->next = v; }`
unfoldable pub relink_next : Ptr → Ptr → Store → Store
relink_next q v σ r = if (r == q) && not (q == null) then record (σ r) { next = v } else σ r

-- `if (q) { q->prev = v; }`
unfoldable pub relink_prev : Ptr → Ptr → Store → Store
relink_prev q v σ r = if (r == q) && not (q == null) then record (σ r) { prev = v } else σ r

-- The two assignments to the links of the new element.
unfoldable pub enter : Ptr → Ptr → Store → Store
enter p last σ r = if r == p then record { prev = last; next = null } else σ r

-- A list with a first element has a last one.
unfoldable pub add_data_raw : Ptr → Store → ListSpecial → Store × ListSpecial
add_data_raw p σ l =
    let τ = enter p l.last σ in
    let m = record l { last = p; count = l.count +ℤ pos 1 } in
    if l.first == null then (τ, record m { first = p }) else (relink_next l.last p τ, m)

-- The store behind the first two lines of `RemoveDataRaw`.
unfoldable pub unlink : Ptr → Store → Store
unlink p σ = let τ = relink_next (σ p).prev (σ p).next σ in relink_prev (τ p).next (τ p).prev τ

-- Returns the element behind the removed one.
unfoldable pub remove_data_raw : Ptr → Store → ListSpecial → Ptr × Store × ListSpecial
remove_data_raw p σ l =
    let τ = unlink p σ in
    (
      (τ p).next,
      τ,
      record {
        first = if p == l.first then (τ p).next else l.first;
        last = if p == l.last then (τ p).prev else l.last;
        count = l.count -ℤ pos 1;
      },
    )

-- The store, this list and the other.
unfoldable pub move_content_to_other_list :
    Store → ListSpecial → ListSpecial → Store × ListSpecial × ListSpecial
move_content_to_other_list σ l o =
    let τ = relink_next o.last l.first σ in
    let υ = relink_prev l.first o.last τ in
    (
      υ,
      new_list_special,
      record {
        first = if o.last == null then l.first else o.first;
        last = if l.first == null then o.last else l.last;
        count = o.count +ℤ l.count;
      },
    )

unfoldable pub move_item_to_other_list :
    Ptr → Store → ListSpecial → ListSpecial → Store × ListSpecial × ListSpecial
move_item_to_other_list p σ l o =
    let (next, τ, m) = remove_data_raw p σ l in let (υ, n) = add_data_raw p τ o in (υ, m, n)
