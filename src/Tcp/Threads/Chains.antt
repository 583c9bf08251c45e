-- ===== src/Tcp/Threads/Chains.antt =====
-- `ThreadFunctionFindOtherChains`: one round of the thread that looks for nodes that have another
-- leader.
use cpp_raft.Base.{
  ◌==◌, if◌then◌else◌, Bool-cases, eqb_ℤ, pos, ℕ, ◌≡◌, refl, ap, ◌∙◌, inl, inr, false, Option, none,
  some, List, [], ◌∷◌,
}
use cpp_raft.Node.{null}
use cpp_raft.Outcome.{Outcome, ok, undefined}
use cpp_raft.Sockets.Stream.{SocketTcp, new_socket, read_c, write_c}
use cpp_raft.Sockets.Connecting.{ConnectAnswers}
use cpp_raft.Tcp.Connect.{connect_and_get_endian2}
use cpp_raft.Tcp.Keys.{NodeIdentifierKey, key_size}
use cpp_raft.Tcp.Requests.{other_leader_found}
use cpp_raft.Tcp.State.{TcpServer, node_at}
use cpp_raft.Tcp.Threads.{is_known}

-- The key of the leader is written, and a byte read, before the socket is closed. The leader's node
-- is not tested.
unfoldable pub tell_leader : TcpServer → SocketTcp → Outcome SocketTcp
unfolding write_c read_c
tell_leader t s =
    if t.leader_node == null
    then undefined
    else (let (w, s1) = write_c (node_at t.leader_node t).key s in
        if eqb_ℤ w (pos key_size) then (let (_, _, s2) = read_c 1 s1 in ok s2) else ok s1)

-- What follows the connecting.
unfoldable pub tell_connected : TcpServer → Option ℕ × SocketTcp → Outcome (Option SocketTcp)
unfolding tell_leader
tell_connected t (none, s) = ok none
tell_connected t (some d, s) = elim (tell_leader t s) [
  | cpp_raft.Outcome.throws x ↦ cpp_raft.Outcome.throws x
  | undefined ↦ undefined
  | ok told ↦ ok (some told)
]

-- One host: the socket, if it was told.
unfoldable pub tell_host :
    TcpServer → NodeIdentifierKey → ConnectAnswers → Outcome (Option SocketTcp)
unfolding is_known connect_and_get_endian2 tell_connected
tell_host t key a =
    if is_known t.raft.store key t.raft.nodes
    then ok none
    else tell_connected t (connect_and_get_endian2 key other_leader_found a new_socket)

-- The host, if it was told, before the others.
abbrev pub join_told :
    NodeIdentifierKey
    → Outcome (Option SocketTcp)
    → Outcome (List (NodeIdentifierKey × SocketTcp))
    → Outcome (List (NodeIdentifierKey × SocketTcp))
join_told key (ok none) r = r
join_told key (ok (some s)) (ok others) = ok ((key, s) ∷ others)
join_told key (ok (some s)) r = r
join_told key (cpp_raft.Outcome.throws x) r = cpp_raft.Outcome.throws x
join_told key undefined r = undefined

-- The keys of the possible nodes, with what connecting to each is answered. The result is those that
-- were told, with the socket as it was then.
unfoldable pub find_other_chains :
    List (NodeIdentifierKey × ConnectAnswers)
    → TcpServer
    → Outcome (List (NodeIdentifierKey × SocketTcp))
unfolding tell_host
find_other_chains [] t = ok []
find_other_chains ((key, a) ∷ possible) t =
    join_told key (tell_host t key a) (find_other_chains possible t)

abbrev pub NoneKnown : TcpServer → List (NodeIdentifierKey × SocketTcp) → Type 0
NoneKnown t [] = Unit
NoneKnown t ((key, s) ∷ told) = (is_known t.raft.store key t.raft.nodes ≡ false) × NoneKnown t told

tell_leader-ok :
    (t : TcpServer) (s : SocketTcp)
    → (t.leader_node == null) ≡ false
    → (u : SocketTcp) × (tell_leader t s ≡ ok u)
unfolding tell_leader
tell_leader-ok t s h =
    let (w, s1) = write_c (node_at t.leader_node t).key s in
    elim (Bool-cases (eqb_ℤ w (pos key_size))) [
      | inl e ↦ ((read_c 1 s1).2, rw (h, e) refl)
      | inr e ↦ (s1, rw (h, e) refl)
    ]

-- A host that is told is not known.
abbrev Unknown : TcpServer → NodeIdentifierKey → Option SocketTcp → Type 0
Unknown t key none = Unit
Unknown t key (some s) = is_known t.raft.store key t.raft.nodes ≡ false

tell_connected-Unknown :
    (t : TcpServer) (key : NodeIdentifierKey) (c : Option ℕ × SocketTcp)
    → (t.leader_node == null) ≡ false
    → is_known t.raft.store key t.raft.nodes ≡ false
    → (r : Option SocketTcp) × (tell_connected t c ≡ ok r) × Unknown t key r
unfolding tell_connected
tell_connected-Unknown t key (none, s) h new = (none, refl, tt)
tell_connected-Unknown t key (some d, s) h new =
    let (u, e) = tell_leader-ok t s h in
    (
      some u,
      ap
          (λ (r : Outcome SocketTcp). elim r as (λ _. Outcome (Option SocketTcp)) [
            | cpp_raft.Outcome.throws x ↦ cpp_raft.Outcome.throws x
            | undefined ↦ undefined
            | ok told ↦ ok (some told)
          ])
          e,
      new,
    )

tell_host-Unknown :
    (t : TcpServer) (key : NodeIdentifierKey) (a : ConnectAnswers)
    → (t.leader_node == null) ≡ false
    → (r : Option SocketTcp) × (tell_host t key a ≡ ok r) × Unknown t key r
unfolding tell_host
tell_host-Unknown t key a h = elim (Bool-cases (is_known t.raft.store key t.raft.nodes)) [
  | inl known ↦ (none, rw known refl, tt)
  | inr new ↦
      let c = connect_and_get_endian2 key other_leader_found a new_socket in
      let (r, e, u) = tell_connected-Unknown t key c h new in (r, rw new e, u)
]

join_told-NoneKnown :
    (t : TcpServer) (key : NodeIdentifierKey) (r : Option SocketTcp)
    (others : List (NodeIdentifierKey × SocketTcp))
    → Unknown t key r
    → NoneKnown t others
    → (told : List (NodeIdentifierKey × SocketTcp)) × (join_told key (ok r) (ok others) ≡ ok told)
      × NoneKnown t told
join_told-NoneKnown t key none others u k = (others, refl, k)
join_told-NoneKnown t key (some s) others u k = ((key, s) ∷ others, refl, (u, k))

-- A round of a server that knows its leader ends, and tells the leader only to hosts of which the
-- key is not that of a node.
pub find_other_chains-NoneKnown :
    (possible : List (NodeIdentifierKey × ConnectAnswers)) (t : TcpServer)
    → (t.leader_node == null) ≡ false
    → (told : List (NodeIdentifierKey × SocketTcp)) × (find_other_chains possible t ≡ ok told)
      × NoneKnown t told
unfolding find_other_chains
find_other_chains-NoneKnown [] t h = ([], refl, tt)
find_other_chains-NoneKnown ((key, a) ∷ possible) t h =
    let (r, d, u) = tell_host-Unknown t key a h in
    let (others, e, k) = find_other_chains-NoneKnown possible t h in
    let (told, f, g) = join_told-NoneKnown t key r others u k in
    (
      told,
      ap (λ (o : Outcome (Option SocketTcp)). join_told key o (find_other_chains possible t)) d
          ∙ ap (join_told key (ok r)) e
          ∙ f,
      g,
    )
