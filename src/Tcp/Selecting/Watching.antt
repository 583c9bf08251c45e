-- ===== src/Tcp/Selecting/Watching.antt =====
-- The descriptors that are watched.
use mathlib.Core.Bool.{true≢false}
use cpp_raft.Base.{
  ◌==◌, if◌then◌else◌, Bool-cases, length, ℤ, ltb_ℤ, eqb_ℤ, pos, ℕ, suc, ◌+◌, ◌≡◌, refl, sym, ap,
  ◌∙◌, inl, inr, Bool, true, false, not, ◌&&◌, Option, none, some, List, [], ◌∷◌, ◌++◌, arith,
}
use mathlib.Core.List.{append-nil, append_assoc}
use cpp_raft.Node.{Ptr}
use cpp_raft.Outcome.{Outcome, ok, undefined}
use cpp_raft.Tcp.State.{TcpServer, tools_of}
use cpp_raft.Tcp.Tools.{raft_index}
use cpp_raft.Tcp.Selecting.{SelectSets, fd_setsize, empty_sets, set_nodes, prepare_select}

-- The descriptors of the other nodes that are open and are not left out.
abbrev pub socket_of : Ptr → TcpServer → ℤ
socket_of p t = (tools_of p t).raft_socket.socket

abbrev pub is_watched : ℤ → TcpServer → Ptr → Bool
is_watched to_ignore t p =
    not (p == t.raft.this_node)
    && (ltb_ℤ (pos 0) (socket_of p t) && not (eqb_ℤ (socket_of p t) to_ignore))

abbrev pub watched : ℤ → TcpServer → List Ptr → List ℤ
watched to_ignore t [] = []
watched to_ignore t (p ∷ ps) =
    if is_watched to_ignore t p
    then socket_of p t ∷ watched to_ignore t ps
    else watched to_ignore t ps

abbrev pub AllBelow : ℤ → List ℤ → Type 0
AllBelow high [] = Unit
AllBelow high (fd ∷ fds) = (ltb_ℤ fd high ≡ true) × AllBelow high fds

abbrev pub AllAtMost : ℤ → List ℤ → Type 0
AllAtMost high [] = Unit
AllAtMost high (fd ∷ fds) = (ltb_ℤ high fd ≡ false) × AllAtMost high fds

-- The largest of some descriptors and another.
abbrev maximum : ℤ → List ℤ → ℤ
maximum m [] = m
maximum m (fd ∷ fds) = maximum (if ltb_ℤ m fd then fd else m) fds

abbrev sets : List ℤ → List ℤ → ℕ → ℤ → SelectSets
sets r e c m = record { read_fds = r; error_fds = e; count_in_fd = c; max = some m }

-- The sets with some more descriptors.
abbrev more : List ℤ → List ℤ → List ℤ → ℕ → ℤ → SelectSets
more fds r e c m = sets (r ++ fds) (e ++ fds) (c + length fds) (maximum m fds)

more-none : (r e : List ℤ) (c : ℕ) (m : ℤ) → sets r e c m ≡ more [] r e c m
more-none r e c m = λ i. sets (sym (append-nil r) i) (sym (append-nil e) i) (count i) m
  where
    count : c ≡ c + 0
    count = omega arith

more-one :
    (fd : ℤ) (fds r e : List ℤ) (c : ℕ) (m : ℤ)
    → more fds (r ++ fd ∷ []) (e ++ fd ∷ []) (c + 1) (if ltb_ℤ m fd then fd else m)
      ≡ more (fd ∷ fds) r e c m
more-one fd fds r e c m = λ i.
    sets (append_assoc r (fd ∷ []) fds i) (append_assoc e (fd ∷ []) fds i) (count i)
      (maximum m (fd ∷ fds))
  where
    count : c + 1 + length fds ≡ c + suc (length fds)
    count = omega arith

set_nodes-more :
    (to_ignore : ℤ) (t : TcpServer) (ps : List Ptr) (r e : List ℤ) (c : ℕ) (m : ℤ)
    → AllBelow fd_setsize (watched to_ignore t ps)
    → set_nodes raft_index to_ignore t ps (sets r e c m)
      ≡ ok (more (watched to_ignore t ps) r e c m)
unfolding set_nodes
set_nodes-more to_ignore t [] r e c m below = ap ok (more-none r e c m)
set_nodes-more to_ignore t (p ∷ ps) r e c m below = elim (Bool-cases (p == t.raft.this_node)) [
  | inl own ↦ rw own (set_nodes-more to_ignore t ps r e c m (rw own at below))
  | inr other ↦
      elim (Bool-cases (ltb_ℤ (pos 0) (socket_of p t) && not (eqb_ℤ (socket_of p t) to_ignore))) [
        | inr closed ↦
            rw (other, closed) (set_nodes-more to_ignore t ps r e c m (rw (other, closed) at below))
        | inl ready ↦
            let (small, rest) : AllBelow fd_setsize (socket_of p t ∷ watched to_ignore t ps) =
              rw (other, ready) at below in
            rw (other, ready, small)
              (set_nodes-more to_ignore t ps (r ++ socket_of p t ∷ []) (e ++ socket_of p t ∷ [])
                  (c + 1) (if ltb_ℤ m (socket_of p t) then socket_of p t else m) rest
                ∙ ap ok (more-one (socket_of p t) (watched to_ignore t ps) r e c m))
      ]
]

larger-covers :
    (top m fd : ℤ)
    → ltb_ℤ top (if ltb_ℤ m fd then fd else m) ≡ false
    → (ltb_ℤ top m ≡ false) × (ltb_ℤ top fd ≡ false)
larger-covers top m fd h = elim (Bool-cases (ltb_ℤ m fd)) [
  | inl e ↦ let k : ltb_ℤ top fd ≡ false = rw e at h in (ground (arith, e, k), k)
  | inr e ↦ let k : ltb_ℤ top m ≡ false = rw e at h in (k, ground (arith, e, k))
]

irrefl_ℤ : (m : ℤ) → ltb_ℤ m m ≡ false
irrefl_ℤ m = ground arith

maximum-covers :
    (m : ℤ) (fds : List ℤ) → (ltb_ℤ (maximum m fds) m ≡ false) × AllAtMost (maximum m fds) fds
maximum-covers m [] = (irrefl_ℤ m, tt)
maximum-covers m (fd ∷ fds) =
    let (covers, rest) = maximum-covers (if ltb_ℤ m fd then fd else m) fds in
    let (a, b) = larger-covers (maximum m (fd ∷ fds)) m fd covers in (a, (b, rest))

abbrev watch_nodes : ℤ → TcpServer → Outcome SelectSets → Outcome SelectSets
watch_nodes to_ignore t r = elim r [
  | cpp_raft.Outcome.throws x ↦ cpp_raft.Outcome.throws x
  | undefined ↦ undefined
  | ok s ↦ set_nodes raft_index to_ignore t t.raft.nodes s
]

empty_sets-open :
    (info : ℤ) (old_max : Option ℤ)
    → ltb_ℤ (pos 0) info ≡ true
    → ltb_ℤ info fd_setsize ≡ true
    → empty_sets info old_max ≡ ok (sets [] (info ∷ []) 1 info)
unfolding empty_sets
empty_sets-open info old_max h e = rw (h, e) refl

empty_sets-closed :
    (info : ℤ) (old_max : Option ℤ)
    → ltb_ℤ (pos 0) info ≡ false
    → empty_sets info old_max
      ≡ ok (record { read_fds = []; error_fds = []; count_in_fd = 0; max = old_max })
unfolding empty_sets
empty_sets-closed info old_max h = rw h refl

abbrev no_sets : SelectSets
no_sets = record { read_fds = []; error_fds = []; count_in_fd = 0; max = none }

-- When the socket for interruptions is open and all descriptors have a place in a set, the thread
-- watches for reading exactly the open sockets of the other nodes that are not left out, in the
-- order of the nodes, for errors the same and the one for interruptions, counts them right, and the
-- bound that it gives to `select` is at least each of them.
pub prepare_select-watched :
    (info to_ignore : ℤ) (old_max : Option ℤ) (t : TcpServer)
    → ltb_ℤ (pos 0) info ≡ true
    → ltb_ℤ info fd_setsize ≡ true
    → AllBelow fd_setsize (watched to_ignore t t.raft.nodes)
    → let fds = watched to_ignore t t.raft.nodes in
      (m : ℤ) × (prepare_select info raft_index to_ignore old_max t
        ≡ ok (record {
          read_fds = fds;
          error_fds = info ∷ fds;
          count_in_fd = 1 + length fds;
          max = some m;
        }))
      × (ltb_ℤ m info ≡ false)
      × AllAtMost m fds
unfolding prepare_select
prepare_select-watched info to_ignore old_max t open_info small below =
    let fds = watched to_ignore t t.raft.nodes in
    let (covers, rest) = maximum-covers info fds in
    (
      maximum info fds,
      ap (watch_nodes to_ignore t) (empty_sets-open info old_max open_info small)
          ∙ set_nodes-more to_ignore t t.raft.nodes [] (info ∷ []) 1 info below,
      covers,
      rest,
    )

-- Without the socket for interruptions, the first round of the thread reads the bound before it has
-- a value, as soon as there is an open socket of another node.
pub prepare_select-undefined :
    (info to_ignore : ℤ) (t : TcpServer) (p : Ptr) (ps : List Ptr)
    → ltb_ℤ (pos 0) info ≡ false
    → t.raft.nodes ≡ p ∷ ps
    → is_watched to_ignore t p ≡ true
    → prepare_select info raft_index to_ignore none t ≡ undefined
unfolding prepare_select
prepare_select-undefined info to_ignore t p ps closed nodes watches =
    elim (Bool-cases (p == t.raft.this_node)) [
      | inl own ↦ absurd (true≢false (sym watches ∙ rw own refl))
      | inr other ↦
          let ready : (ltb_ℤ (pos 0) (socket_of p t) && not (eqb_ℤ (socket_of p t) to_ignore))
              ≡ true =
            rw other at watches in
          ap (watch_nodes to_ignore t) (empty_sets-closed info none closed)
          ∙ ap (λ (qs : List Ptr). set_nodes raft_index to_ignore t qs no_sets) nodes
          ∙ rw (other, ready) refl
    ]
