-- ===== src/Server/Members/Table.antt =====
-- The nodes of a server as a table from keys to nodes.
use mathlib.Core.Path.{subst}
use mathlib.Core.Bool.{true≢false}
use cpp_raft.Base.{
  ◌==◌, if◌then◌else◌, ==_iff, ==_refl, Bool-cases, Option-cases, has, pos, ℕ, ◌≡◌, refl, sym, ap,
  ◌∙◌, inl, inr, true, false, none, some, List, [], ◌∷◌, ◌++◌, arith,
}
use cpp_raft.Node.{Ptr, null, RaftNode, new_node, mark_will_be_deleted}
use cpp_raft.Server.State.{Server, update, at_node, returns}
use cpp_raft.Containers.HashTbl.{eqb_key}
use cpp_raft.Containers.HashTbl.Keys.{eqb_key→eq}
use cpp_raft.Server.Members.{
  eqb_key, find_entry, find_node, add_node, erase_ptr, remove_node1, clear_nodes, clear_all_nodes,
}
use cpp_raft.Server.Members.Keys.{
  or_else, Distinct, find_entry-append, find_entry-store, find_entry-erase, Distinct-erase,
  Distinct-store, Distinct-append,
}

-- The keys are pairwise different, and so no key is listed twice.
abbrev pub DistinctKeys : Server → Type 0
DistinctKeys s = Distinct s.store s.nodes

find_node_lem : (k : List ℕ) (s : Server) → find_node k s ≡ find_entry s.store k s.nodes
unfolding find_node
find_node_lem k s = refl

grown : Ptr → ℕ → List ℕ → Server → Ptr → RaftNode
grown fresh now key s q = if q == fresh then record (new_node now) { key = key } else s.store q

same_keys :
    (fresh now : ℕ) (key : List ℕ) (s : Server)
    → has fresh s.nodes ≡ false
    → (q : Ptr) → has q s.nodes ≡ true
    → (grown fresh now key s q).key ≡ (s.store q).key
unfolding grown
same_keys fresh now key s out q h = elim (Bool-cases (q == fresh)) [
  | inl e ↦
      let inside = subst (λ (r : Ptr). has r s.nodes ≡ true) ((==_iff q fresh).0 e) h in
      absurd (true≢false (sym inside ∙ out))
  | inr e ↦ rw e refl
]

add_new :
    (fresh now : ℕ) (key : List ℕ) (s : Server)
    → find_node key s ≡ none
    → add_node fresh now key s
      ≡ (fresh, record s { nodes = s.nodes ++ fresh ∷ []; store = grown fresh now key s })
unfolding grown add_node new_node
add_new fresh now key s e = rw (add_node, e) refl

add_taken :
    (fresh now : ℕ) (key : List ℕ) (s : Server) (q : Ptr)
    → find_node key s ≡ some q
    → add_node fresh now key s ≡ (null, s)
unfolding add_node
add_taken fresh now key s q e = rw (add_node, e) refl

fresh_key : (fresh now : ℕ) (key : List ℕ) (s : Server) → (grown fresh now key s fresh).key ≡ key
unfolding grown
fresh_key fresh now key s = rw (==_refl fresh) refl

taken :
    (key k : List ℕ) (fresh q : Ptr) (s : Server)
    → find_node key s ≡ some q
    → find_node k s ≡ or_else (find_node k s) (if eqb_key k key then some fresh else none)
taken key k fresh q s e = elim (Bool-cases (eqb_key k key)) [
  | inl f ↦ rw (f, eqb_key→eq k key f, e) refl
  | inr f ↦ ground (arith, f)
]

-- Adding a node under a key, at an address that no listed node has: under the key there is then the
-- node that was there before, or else the new one; under every other key there is what was there
-- before; and the address is returned, or null if the key was taken.
pub add_node-find :
    (fresh now : ℕ) (key k : List ℕ) (s : Server)
    → has fresh s.nodes ≡ false
    → let (p, t) = add_node fresh now key s in
      (find_node k t ≡ or_else (find_node k s) (if eqb_key k key then some fresh else none))
      × (p ≡ (elim (find_node key s) [ none ↦ fresh | some q ↦ null ]))
add_node-find fresh now key k s out = elim (Option-cases (find_node key s)) [
  | inl e ↦
      rw (add_new fresh now key s e, e)
        (
          find_node_lem k
                (record s { nodes = s.nodes ++ fresh ∷ []; store = grown fresh now key s })
              ∙ (find_entry-append (grown fresh now key s) k s.nodes fresh
                  ∙ rw
                      (
                        fresh_key fresh now key s,
                        find_entry-store s.store (grown fresh now key s) k s.nodes
                            (same_keys fresh now key s out),
                        find_node_lem k s,
                      )
                      refl),
          refl,
        )
  | inr (q, e) ↦ rw (add_taken fresh now key s q e, e) (taken key k fresh q s e, refl)
]

-- The keys stay different.
pub add_node-DistinctKeys :
    (fresh now : ℕ) (key : List ℕ) (s : Server)
    → has fresh s.nodes ≡ false
    → DistinctKeys s
    → DistinctKeys (add_node fresh now key s).1
add_node-DistinctKeys fresh now key s out distinct = elim (Option-cases (find_node key s)) [
  | inr (q, e) ↦ rw (add_taken fresh now key s q e) distinct
  | inl e ↦
      let store = grown fresh now key s in
      let same = same_keys fresh now key s out in
      rw (add_new fresh now key s e) (
        Distinct-append store fresh s.nodes (Distinct-store s.store store s.nodes same distinct) (
          ap (λ (k : List ℕ). find_entry store k s.nodes) (fresh_key fresh now key s)
          ∙ find_entry-store s.store store key s.nodes same
          ∙ sym (find_node_lem key s)
          ∙ e))
]

mark-key :
    (p q : Ptr) (s : Server) → ((at_node p mark_will_be_deleted s).store q).key ≡ (s.store q).key
unfolding at_node update mark_will_be_deleted
mark-key p q s = ground arith

mark-locks :
    (p q : Ptr) (s : Server)
    → ((at_node p mark_will_be_deleted s).store q).locks_count ≡ (s.store q).locks_count
unfolding at_node update mark_will_be_deleted
mark-locks p q s = ground arith

-- Removing the node under a key that no thread holds a lock of: it returns; nothing is found under
-- the key, and what was there before under every other.
pub remove_node1-find :
    (key k : List ℕ) (s : Server) (p : Ptr)
    → DistinctKeys s
    → find_node key s ≡ some p
    → (s.store p).locks_count ≡ pos 0
    → (t : Server) × (remove_node1 key s ≡ returns tt t)
      × (find_node k t ≡ (if eqb_key k key then none else find_node k s))
      × DistinctKeys t
unfolding remove_node1 at_node
remove_node1-find key k s p distinct found free =
    let t = at_node p mark_will_be_deleted s in
    let left = record t { nodes = erase_ptr p t.nodes } in
    let found' = sym (find_node_lem key s) ∙ found in
    (
      left,
      rw (remove_node1, found, mark-locks p p s, free) refl,
      find_node_lem k left
          ∙ find_entry-store s.store t.store k (erase_ptr p s.nodes) (λ q h. mark-key p q s)
          ∙ find_entry-erase s.store key s.nodes p distinct found' k
          ∙ rw (find_node_lem k s) refl,
      Distinct-store s.store t.store (erase_ptr p s.nodes) (λ q h. mark-key p q s)
          (Distinct-erase s.store p s.nodes distinct),
    )

clear_nodes-empty : (ps : List Ptr) (s : Server) → s.nodes ≡ ps → (clear_nodes ps s).nodes ≡ []
unfolding clear_nodes
clear_nodes-empty [] s h = h
clear_nodes-empty (p ∷ ps) s h =
    clear_nodes-empty ps (record s { nodes = erase_ptr p s.nodes })
      (rw (h, erase_ptr, ==_refl p) refl)

-- `clear_all_nodes` leaves no node.
pub clear_all_nodes-empty : (s : Server) → (clear_all_nodes s).nodes ≡ []
unfolding clear_all_nodes
clear_all_nodes-empty s = clear_nodes-empty s.nodes s refl
