-- ===== src/Tcp/Exchange/Writing.antt =====
-- Writing to a node whose socket takes all.
use mathlib.Core.List.{append-nil, append_assoc}
use cpp_raft.Base.{
  ltb, if◌then◌else◌, ==_refl, length, ℤ, eqb_ℤ, pos, ℕ, suc, ◌+◌, ◌≡◌, refl, sym, ap, ◌∙◌, Bool,
  true, false, some, List, [], ◌∷◌, ◌++◌, arith,
}
use cpp_raft.Outcome.{Outcome, ok}
use cpp_raft.Node.{Ptr}
use cpp_raft.Sockets.Stream.{is_open_c, write_c-append}
use cpp_raft.Tcp.Bytes.{int_bytes}
use cpp_raft.Tcp.Keys.{key_of, NodeIdentifierKey, key_bytes}
use cpp_raft.Tcp.State.{
  NodeTools, TcpServer, Ending, Action, and_then, pure, node_at, tools_of, set_tools, returns,
}
use cpp_raft.Tcp.Tools.{raft_index, keep_tools, tools_write, write_node}
use cpp_raft.Tcp.Exchange.Reading.{tools_of-set_tools}
use cpp_raft.Tcp.Exchange.{write_all, write_extra, send_information_to_node}

-- What has gone out to a node.
abbrev pub outgoing_of : Ptr → TcpServer → List ℕ
outgoing_of p t = (tools_of p t).raft_socket.outgoing

-- The Raft socket to a node is open, and `send` takes all.
pub record Takes (p : Ptr) (t : TcpServer) : Type 0 where
  pub open_socket : is_open_c (tools_of p t).raft_socket ≡ true
  pub answers : (tools_of p t).raft_socket.answers ≡ []

abbrev pub after_write : Ptr → List ℕ → TcpServer → TcpServer
after_write p bytes t =
    let tools = tools_of p t in
    let s = tools.raft_socket in
    set_tools p
      (record tools { raft_socket = record s { outgoing = s.outgoing ++ bytes; answers = [] } }) t

tools_write-append :
    (key : NodeIdentifierKey) (port : ℤ) (bytes : List ℕ) (tools : NodeTools)
    → is_open_c tools.raft_socket ≡ true
    → tools.raft_socket.answers ≡ []
    → tools_write raft_index key port bytes tools
      ≡ ok (
        pos (length bytes),
        record tools {
          raft_socket = record tools.raft_socket {
            outgoing = tools.raft_socket.outgoing ++ bytes;
            answers = [];
          };
        },
      )
unfolding tools_write
tools_write-append key port bytes tools op e =
    rw (op, write_c-append bytes tools.raft_socket op e) refl

pub write_node-append :
    (p : Ptr) (bytes : List ℕ) (t : TcpServer)
    → Takes p t
    → write_node raft_index p bytes t ≡ returns (pos (length bytes)) (after_write p bytes t)
unfolding write_node
write_node-append p bytes t h =
    ap (λ (r : Outcome (ℤ × NodeTools)). keep_tools p r t)
      (tools_write-append (key_of (node_at p t).key) t.port_own bytes (tools_of p t) h.open_socket
        h.answers)

-- The state behind a write.
pub after_write-Takes :
    (p : Ptr) (bytes : List ℕ) (t : TcpServer) → Takes p t → Takes p (after_write p bytes t)
unfolding is_open_c
after_write-Takes p bytes t h = record {
  open_socket =
      ap (λ (n : NodeTools). is_open_c n.raft_socket) (tools_of-set_tools p _ t) ∙ h.open_socket;
  answers = ap (λ (n : NodeTools). n.raft_socket.answers) (tools_of-set_tools p _ t);
}

pub outgoing_of-after_write :
    (p : Ptr) (bytes : List ℕ) (t : TcpServer)
    → outgoing_of p (after_write p bytes t) ≡ outgoing_of p t ++ bytes
outgoing_of-after_write p bytes t =
    ap (λ (n : NodeTools). n.raft_socket.outgoing) (tools_of-set_tools p _ t)

write_all-append :
    (p : Ptr) (bytes : List ℕ) (following : Action Bool) (t : TcpServer)
    → Takes p t
    → write_all raft_index p bytes following t ≡ following (after_write p bytes t)
unfolding write_all
write_all-append p bytes following t h =
    ap
      (λ (r : Ending ℤ).
        and_then r (λ w. if eqb_ℤ w (pos (length bytes)) then following else pure false))
      (write_node-append p bytes t h)
    ∙ rw (==_refl (length bytes + 0)) refl

-- An action that writes some bytes to a node and returns true.
abbrev Writes : Ptr → List ℕ → Action Bool → TcpServer → Type 0
Writes p bytes action t =
    (u : TcpServer) × (action t ≡ returns true u) × (outgoing_of p u ≡ outgoing_of p t ++ bytes)

write_all-Writes :
    (p : Ptr) (bytes more : List ℕ) (following : Action Bool) (t : TcpServer)
    → Takes p t
    → Writes p more following (after_write p bytes t)
    → Writes p (bytes ++ more) (write_all raft_index p bytes following) t
write_all-Writes p bytes more following t h (u, e, f) = (
  u,
  write_all-append p bytes following t h ∙ e,
  f
      ∙ ap (λ (xs : List ℕ). xs ++ more) (outgoing_of-after_write p bytes t)
      ∙ append_assoc (outgoing_of p t) bytes more,
)

nothing-Writes : (p : Ptr) (t : TcpServer) → Writes p [] (pure true) t
nothing-Writes p t = (t, refl, sym (append-nil (outgoing_of p t)))

content-Writes :
    (p : Ptr) (extra : List ℕ) (t : TcpServer)
    → Takes p t
    → Writes p extra
        (if ltb 0 (length extra) then write_all raft_index p extra (pure true) else pure true)
        t
content-Writes p [] t h = nothing-Writes p t
content-Writes p (b ∷ bs) t h =
    let some_bytes : ltb 0 (suc (length bs)) ≡ true = ground arith in
    let (u, e, f) =
      write_all-Writes p (b ∷ bs) [] (pure true) t h
        (nothing-Writes p (after_write p (b ∷ bs) t)) in
    (u, rw some_bytes e, f ∙ ap (λ (xs : List ℕ). outgoing_of p t ++ xs) (append-nil (b ∷ bs)))

write_extra-Writes :
    (p : Ptr) (extra : List ℕ) (t : TcpServer)
    → Takes p t
    → Writes p (int_bytes (pos (length extra)) ++ extra) (write_extra raft_index p (some extra)) t
unfolding write_extra
write_extra-Writes p extra t h =
    let bytes = int_bytes (pos (length extra)) in
    write_all-Writes p bytes extra _ t h
      (content-Writes p extra (after_write p bytes t) (after_write-Takes p bytes t h))

-- What is sent to a node of which the socket takes all: the request, the key, the length of the
-- data and the data.
pub send_information_to_node-outgoing :
    (p : Ptr) (c_request : ℕ) (extra : List ℕ) (key : NodeIdentifierKey) (t : TcpServer)
    → Takes p t
    → (u : TcpServer) × (send_information_to_node p raft_index c_request (some extra) (some key) t
        ≡ returns true u)
      × (outgoing_of p u
          ≡ outgoing_of p t
            ++ (c_request ∷ [] ++ (key_bytes key ++ (int_bytes (pos (length extra)) ++ extra))))
unfolding send_information_to_node
send_information_to_node-outgoing p c_request extra key t h =
    let h1 = after_write-Takes p (c_request ∷ []) t h in
    let h2 = after_write-Takes p (key_bytes key) _ h1 in
    write_all-Writes p (c_request ∷ []) _ _ t h
      (write_all-Writes p (key_bytes key) _ _ _ h1 (write_extra-Writes p extra _ h2))
