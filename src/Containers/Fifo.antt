-- ===== src/Containers/Fifo.antt =====
-- include/common/impl.common_fifofast.hpp: the bounded queue `FifoFast_base`, a linked list whose
-- entries come from an array of cached ones, and the stack that `FifoAndStack` makes of the cache.
-- The mutex is held over each method, so that every method is one step.
pub mod Chain
pub mod Queue
pub mod Extracting
use cpp_raft.Base.{
  ltb, leb, ◌==◌, if◌then◌else◌, to_nat, ==_iff, ==_refl, Bool-cases, Option-cases, length,
  is_empty, get_elem?, set, get_last?, take, drop, replicate, length-append, length-take_le,
  get_elem?-take, get_elem?-eq_none, get_elem?-some, get_elem?-append_lt, get_elem?-append_last,
  length-set, get_elem?-set_self, get_elem?-set_ne, get_last?-append, has, ℤ, pos_part, neg_part,
  sub_ℕ, ◌+ℤ◌, ◌-ℤ◌, ◌≤ℤ◌, ◌<ℤ◌, ltb_ℤ, leb_ℤ, eqb_ℤ, half_ℤ, to_int, to_unsigned, +ℤ_parts,
  -ℤ_parts, eq_of_parts, eqb_ℤ→eq, ne→eqb_ℤ, +ℤ_assoc, +ℤ-pos, -ℤ-pos, suc-sub-one, int_laws, pos,
  negsuc, ℕ, zero, suc, ◌+◌, ◌-◌, ◌*◌, ◌/◌, ◌%◌, ◌^◌, ◌≤◌, ◌<◌, ◌≡◌, refl, sym, ap, ◌∙◌, ◌≢◌, ◌↔◌,
  ◌⊎◌, inl, inr, Bool, true, false, not, ◌&&◌, ◌||◌, Option, none, some, List, [], ◌∷◌, ◌++◌, map,
  arith,
}
use cpp_raft.Outcome.{
  Fault, Outcome, no_such_log, could_not_apply, wrong_index, ok, throws, undefined,
}
use cpp_raft.Node.{
  Ptr, null, RaftNode, initial_ping_count, new_node, increment_lock2, decrement_lock2,
  mark_will_be_deleted, ping_received, set_unable_to_vote, set_next_idx, set_votes_for_me,
  set_udata, make_leader, reset_leader, increment_ok_count, ping,
}

-- `SListStr`
pub record Cell (A : Type 0) : Type 0 where
  pub next : Ptr
  pub value : A

pub record FifoFast (A : Type 0) : Type 0 where
  pub max_size : ℕ
  pub cash_size : ℕ
  pub index_in_cash_plus1 : ℕ
  pub num_of_elements : ℕ
  pub first : Ptr
  pub last : Ptr
  pub cashed_entries : ℕ → Ptr
  pub cells : Ptr → Cell A

module _ {A : Type 0} where
  -- `entries` are the addresses that the constructor's calls of `new` return.
  unfoldable pub new_fifo : ℕ → ℕ → (ℕ → Ptr) → (Ptr → Cell A) → FifoFast A
  new_fifo max_size cash_size entries cells = record {
    max_size = max_size;
    cash_size = cash_size;
    index_in_cash_plus1 = cash_size;
    num_of_elements = 0;
    first = null;
    last = null;
    cashed_entries = entries;
    cells = cells;
  }

  unfoldable pub write : Ptr → Cell A → (Ptr → Cell A) → Ptr → Cell A
  write p c cells q = if q == p then c else cells q

  -- The entry that is used next: the last cached one, or else a new one at `fresh`.
  unfoldable pub next_cell : Ptr → FifoFast A → Ptr
  next_cell fresh f =
      if f.index_in_cash_plus1 == 0 then fresh else f.cashed_entries (f.index_in_cash_plus1 - 1)

  -- `m_pLast->next = p`
  unfoldable pub link : Ptr → Ptr → (Ptr → Cell A) → Ptr → Cell A
  unfolding write
  link last p cells = write last (record (cells last) { next = p }) cells

  -- The part of `AddElement1` behind the test of the size, with the entry `p`.
  unfoldable pub append_cell : Ptr → A → FifoFast A → FifoFast A
  unfolding write link
  append_cell p x f =
      let cells = write p (record { next = null; value = x }) f.cells in
      let g = record f {
        index_in_cash_plus1 = f.index_in_cash_plus1 - 1;
        num_of_elements = f.num_of_elements + 1;
        last = p;
      } in
      if f.num_of_elements == 0
      then record g { first = p; cells = cells }
      else record g { cells = link f.last p cells }

  unfoldable pub add_element1 : Ptr → A → FifoFast A → Bool × FifoFast A
  unfolding next_cell
  add_element1 fresh x f =
      if ltb f.num_of_elements f.max_size
      then (true, append_cell (next_cell fresh f) x f)
      else (false, f)

  -- The extracted value, or none where the code returns `false`. A write behind the array of cached
  -- entries is undefined.
  unfoldable pub extract : FifoFast A → Outcome (Option A × FifoFast A)
  extract f =
      if f.num_of_elements == 0
      then ok (none, f)
      else (let cell = f.cells f.first in
          let g = record f { first = cell.next; num_of_elements = f.num_of_elements - 1 } in
          if leb f.num_of_elements f.cash_size
          then (if ltb f.index_in_cash_plus1 f.cash_size
              then ok (
                some cell.value,
                record g {
                  index_in_cash_plus1 = f.index_in_cash_plus1 + 1;
                  cashed_entries =
                      λ i. if i == f.index_in_cash_plus1 then f.first else f.cashed_entries i;
                },
              )
              else undefined)
          else ok (some cell.value, g))

  -- `AddElement2` and `ExtractMv`, which move the value that the others copy.
  unfoldable pub add_element2 : Ptr → A → FifoFast A → Bool × FifoFast A
  unfolding add_element1
  add_element2 fresh x f = add_element1 fresh x f

  unfoldable pub extract_mv : FifoFast A → Outcome (Option A × FifoFast A)
  unfolding extract
  extract_mv f = extract f

  unfoldable pub size : FifoFast A → ℕ
  size f = f.num_of_elements

  -- `FifoAndStack::GetFromStack`
  unfoldable pub get_from_stack : FifoFast A → Option A × FifoFast A
  get_from_stack f =
      if f.index_in_cash_plus1 == 0
      then (none, f)
      else (let i = f.index_in_cash_plus1 - 1 in
          (some (f.cells (f.cashed_entries i)).value, record f { index_in_cash_plus1 = i }))

  -- `FifoAndStack::SetToStack`
  unfoldable pub set_to_stack : A → FifoFast A → Bool × FifoFast A
  unfolding write
  set_to_stack x f =
      if ltb f.index_in_cash_plus1 f.cash_size
      then (let p = f.cashed_entries f.index_in_cash_plus1 in
          (
            true,
            record f {
              index_in_cash_plus1 = f.index_in_cash_plus1 + 1;
              cells = write p (record (f.cells p) { value = x }) f.cells;
            },
          ))
      else (false, f)
