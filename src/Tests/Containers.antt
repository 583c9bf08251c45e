-- ===== src/Tests/Containers.antt =====
-- Queues, lists and tables with a few elements.
use cpp_raft.Base.{
  if◌then◌else◌, ltb, ℕ, ◌+◌, ◌≡◌, ◌⊎◌, refl, true, false, some, none, [], ◌∷◌, arith,
}
use cpp_raft.Outcome.{ok}
use cpp_raft.Node.{null}
use cpp_raft.Containers.Fifo.{
  FifoFast, new_fifo, write, next_cell, append_cell, add_element1, extract, set_to_stack,
}
use cpp_raft.Containers.Fifo.Chain.{Chain, Last, NoDup}
use cpp_raft.Containers.Fifo.Queue.{Holds as FifoHolds, Queue, SameLimits, add_element1-Queue}
use cpp_raft.Containers.Fifo.Extracting.{extract-Queue}
use cpp_raft.Containers.HashTbl.{
  HashTbl, count_bits, rounded_size, new_hash_tbl, add_entry2, find_item, find_content,
}
use cpp_raft.Containers.HashTbl.Hash.{hash1}
use cpp_raft.Containers.ListSpecial.{
  Store, ListSpecial, new_list_special, add_data_raw, remove_data_raw,
}
use cpp_raft.Containers.ListSpecial.Segment.{Seg, Addresses}
use cpp_raft.Containers.ListSpecial.Adding.{Holds, add_data_raw-Holds}
use cpp_raft.Containers.ListSpecial.Removing.{remove_data_raw-Holds}
use cpp_raft.Containers.ListspecialAndHashtbl.{World, ListspecialAndHashtbl, add_data}
use cpp_raft.Containers.ListspecialAndHashtbl.Adding.{search, Agree, add_data-Agree}

-- A queue for three, with a cache of two entries at 100 and 101.
abbrev fifo : FifoFast ℕ
fifo = new_fifo 3 2 (λ i. 100 + i) (λ p. record { next = null; value = 0 })

fifo-Holds : FifoHolds fifo [] []
unfolding new_fifo Chain Last NoDup
fifo-Holds = record {
  chain = tt;
  last = tt;
  distinct = tt;
  num = refl;
  index = refl;
  apart = λ i lt. refl;
  once = λ i j lt lt' e. omega arith;
}

add_element1-Queue_example :
    ((add_element1 50 7 fifo).0 ≡ true)
    × Queue (add_element1 50 7 fifo).1 (7 ∷ [])
    × SameLimits fifo (add_element1 50 7 fifo).1
    × ((ltb 0 fifo.max_size ≡ true) ⊎ (add_element1 50 7 fifo ≡ (false, fifo)))
unfolding new_fifo
add_element1-Queue_example = add_element1-Queue 50 7 fifo [] [] fifo-Holds refl

abbrev loaded : FifoFast ℕ
loaded = (add_element1 50 7 fifo).1

loaded-Queue : Queue loaded (7 ∷ [])
unfolding new_fifo
loaded-Queue = (add_element1-Queue 50 7 fifo [] [] fifo-Holds refl).1

extract-Queue_example : (g : FifoFast ℕ) × (extract loaded ≡ ok (some 7, g)) × Queue g []
extract-Queue_example = extract-Queue loaded loaded-Queue.0 (7 ∷ []) loaded-Queue.1

-- Setting to the stack of a queue that has taken an entry from the cache overwrites the value in
-- the queue: the array still has the entry.
overwritten : ((set_to_stack 9 loaded).1.cells loaded.first).value ≡ 9
unfolding set_to_stack add_element1 append_cell next_cell write new_fifo
overwritten = refl

abbrev no_links : Store
no_links p = record { prev = null; next = null }

none-Holds : Holds no_links new_list_special []
unfolding new_list_special Seg Addresses
none-Holds = record { first = refl; last = refl; count = refl; links = tt; addresses = tt }

abbrev one : Store × ListSpecial
one = add_data_raw 5 no_links new_list_special

one-Holds : Holds one.0 one.1 (5 ∷ [])
one-Holds = add_data_raw-Holds 5 no_links new_list_special [] none-Holds (omega arith) refl

abbrev two : Store × ListSpecial
two = add_data_raw 6 one.0 one.1

two-Holds : Holds two.0 two.1 (5 ∷ 6 ∷ [])
two-Holds = add_data_raw-Holds 6 one.0 one.1 (5 ∷ []) one-Holds (omega arith) refl

remove_data_raw-Holds_example :
    Holds (remove_data_raw 5 two.0 two.1).1 (remove_data_raw 5 two.0 two.1).2 (6 ∷ [])
    × ((remove_data_raw 5 two.0 two.1).0 ≡ 6)
remove_data_raw-Holds_example = remove_data_raw-Holds [] 5 (6 ∷ []) two.0 two.1 two-Holds

abbrev table : HashTbl ℕ
table = add_entry2 (2 ∷ []) 20 (new_hash_tbl hash1 8)

abbrev world : World
world = record { links = no_links; keys = λ p. [] }

abbrev empty_table : ListspecialAndHashtbl
empty_table = record { hash = new_hash_tbl hash1 8; list = new_list_special }

empty-Agree : Agree world empty_table []
unfolding find_content find_item new_hash_tbl search
empty-Agree = record { list = none-Holds; finds = λ k. refl }

add_data-Agree_example :
    ((add_data 5 (1 ∷ 2 ∷ []) world empty_table).0 ≡ true)
    × Agree
        (add_data 5 (1 ∷ 2 ∷ []) world empty_table).1
        (add_data 5 (1 ∷ 2 ∷ []) world empty_table).2
        (if (add_data 5 (1 ∷ 2 ∷ []) world empty_table).0 then 5 ∷ [] else [])
    × ((search world.keys (1 ∷ 2 ∷ []) [] ≡ none)
        ⊎ (add_data 5 (1 ∷ 2 ∷ []) world empty_table ≡ (false, world, empty_table)))
unfolding search
add_data-Agree_example =
    add_data-Agree 5 (1 ∷ 2 ∷ []) world empty_table [] empty-Agree (omega arith) refl

-- Sizes are rounded up to a power of two.
sizes : (rounded_size 0 ≡ 64) × (rounded_size 1 ≡ 1) × (rounded_size 5 ≡ 8) × (rounded_size 64 ≡ 64)
unfolding rounded_size count_bits
sizes = (refl, refl, refl, refl)
