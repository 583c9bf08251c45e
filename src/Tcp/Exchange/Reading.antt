-- ===== src/Tcp/Exchange/Reading.antt =====
-- Reading what has come from a node.
use cpp_raft.Base.{
  if◌then◌else◌, ==_refl, length, ℤ, eqb_ℤ, pos, ℕ, ◌+◌, ◌≡◌, refl, ap, ◌∙◌, true, List, ◌++◌,
}
use cpp_raft.Node.{Ptr}
use cpp_raft.Sockets.Stream.{is_open_c, read_c-append}
use cpp_raft.Tcp.State.{
  NodeTools, TcpServer, Ending, Action, and_then, node_at, tools_of, set_tools, returns,
}
use cpp_raft.Tcp.Tools.{raft_index, read_node, tools_read}
use cpp_raft.Tcp.Exchange.{read_all}

pub tools_of-set_tools :
    (p : Ptr) (n : NodeTools) (t : TcpServer) → tools_of p (set_tools p n t) ≡ n
unfolding set_tools
tools_of-set_tools p n t = rw (==_refl (node_at p t).udata) refl

-- The bytes that a node has still to read on the Raft socket of another.
abbrev pub incoming_of : Ptr → TcpServer → List ℕ
incoming_of p t = (tools_of p t).raft_socket.incoming

-- Reading from an open socket with enough bytes: the bytes, and the state with the rest.
abbrev pub after_read : Ptr → List ℕ → TcpServer → TcpServer
after_read p rest t =
    let tools = tools_of p t in
    set_tools p (record tools { raft_socket = record tools.raft_socket { incoming = rest } }) t

pub read_node-append :
    (n : ℕ) (p : Ptr) (bytes rest : List ℕ) (t : TcpServer)
    → length bytes ≡ n
    → is_open_c (tools_of p t).raft_socket ≡ true
    → incoming_of p t ≡ bytes ++ rest
    → read_node raft_index n p t ≡ returns (pos n, bytes) (after_read p rest t)
unfolding read_node tools_read
read_node-append n p bytes rest t h op e =
    rw (read_c-append n bytes rest (tools_of p t).raft_socket h op e, ==_refl (n + 0)) refl

pub read_all-append :
    {A : Type 0} (n : ℕ) (p : Ptr) (bytes rest : List ℕ) (t : TcpServer) (next : List ℕ → Action A)
    (failed : Action A)
    → length bytes ≡ n
    → is_open_c (tools_of p t).raft_socket ≡ true
    → incoming_of p t ≡ bytes ++ rest
    → read_all raft_index n p next failed t ≡ next bytes (after_read p rest t)
unfolding read_all
read_all-append n p bytes rest t next failed h op e =
    ap
      (λ (r : Ending (ℤ × List ℕ)).
        and_then r (λ x. if eqb_ℤ x.0 (pos n) then next x.1 else failed))
      (read_node-append n p bytes rest t h op e)
    ∙ rw (==_refl (n + 0)) refl

-- The state behind a read.
pub incoming_of-after_read :
    (p : Ptr) (rest : List ℕ) (t : TcpServer) → incoming_of p (after_read p rest t) ≡ rest
incoming_of-after_read p rest t =
    ap (λ (n : NodeTools). n.raft_socket.incoming) (tools_of-set_tools p _ t)

pub open_after_read :
    (p : Ptr) (rest : List ℕ) (t : TcpServer)
    → is_open_c (tools_of p (after_read p rest t)).raft_socket
      ≡ is_open_c (tools_of p t).raft_socket
unfolding is_open_c
open_after_read p rest t =
    ap (λ (n : NodeTools). is_open_c n.raft_socket) (tools_of-set_tools p _ t)

pub differ_after_read :
    (p : Ptr) (rest : List ℕ) (t : TcpServer)
    → (tools_of p (after_read p rest t)).is_endian_differ ≡ (tools_of p t).is_endian_differ
differ_after_read p rest t = ap (λ (n : NodeTools). n.is_endian_differ) (tools_of-set_tools p _ t)

pub raft_after_read :
    (p : Ptr) (rest : List ℕ) (t : TcpServer) → (after_read p rest t).raft ≡ t.raft
unfolding set_tools
raft_after_read p rest t = refl
