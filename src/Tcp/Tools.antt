-- ===== src/Tcp/Tools.antt =====
-- tcp/raft_tcp_server.cpp: `NodeTools`, the sockets to another node. The interruption of the
-- receiving thread leaves the state as it is.
use cpp_raft.Base.{
  if◌then◌else◌, ℤ, ltb_ℤ, eqb_ℤ, pos, negsuc, ℕ, zero, suc, Bool, Option, none, some, List, [],
}
use cpp_raft.Outcome.{Outcome, ok, undefined}
use cpp_raft.Node.{Ptr}
use cpp_raft.Sockets.Stream.{SocketTcp, new_socket, is_open_c, close_c, read_c, write_c}
use cpp_raft.Sockets.Connecting.{ConnectAnswers}
use cpp_raft.Tcp.Bytes.{int_bytes}
use cpp_raft.Tcp.Keys.{NodeIdentifierKey, key_of}
use cpp_raft.Tcp.Connect.{connect_and_get_endian2}
use cpp_raft.Tcp.Requests.{permanent_bridge}
use cpp_raft.Tcp.State.{NodeTools, Action, node_at, tools_of, set_tools, returns, undefined}

-- `socketTypes::raft`
abbrev pub raft_index : ℤ
raft_index = pos 0

-- `NUMBER_OF_TOOLS_SOCKETS`
abbrev pub number_of_tools_sockets : ℤ
number_of_tools_sockets = pos 2

-- `VALIDATE_INDEX_INVALID`, which has no lower bound
abbrev pub validate_index : ℤ → Bool
validate_index i = ltb_ℤ i number_of_tools_sockets

unfoldable pub new_node_tools : ConnectAnswers → NodeTools
unfolding new_socket
new_node_tools a = record {
  raft_socket = new_socket;
  data1_socket = new_socket;
  is_endian_differ = 0;
  reconnect = a;
}

-- The element of the array `m_sockets`; below 0 there is none.
abbrev pub socket_at : ℤ → NodeTools → Outcome SocketTcp
socket_at (pos zero) n = ok n.raft_socket
socket_at (pos (suc i)) n = ok n.data1_socket
socket_at (negsuc i) n = undefined

abbrev pub put_socket : ℤ → SocketTcp → NodeTools → NodeTools
put_socket (pos zero) s n = record n { raft_socket = s }
put_socket (pos (suc i)) s n = record n { data1_socket = s }
put_socket (negsuc i) s n = n

abbrev pub on_socket : {A : Type 0} → Outcome SocketTcp → (SocketTcp → Outcome A) → Outcome A
on_socket (ok s) k = k s
on_socket _ k = undefined

-- `NodeTools::readC`
unfoldable pub tools_read : ℤ → ℕ → NodeTools → Outcome ((ℤ × List ℕ) × NodeTools)
unfolding read_c close_c
tools_read i n tools =
    if validate_index i
    then on_socket (socket_at i tools) (λ s.
      let (r, bytes, t) = read_c n s in
      ok ((r, bytes), put_socket i (if eqb_ℤ r (pos n) then t else close_c t) tools))
    else ok ((negsuc 0, []), tools)

-- The connection that `writeC` makes when the socket is not open: the code, 0 where it goes on, and
-- the socket, and `isEndianDiffer` of the peer.
unfoldable pub open_bridge :
    ℤ → NodeIdentifierKey → ℤ → ConnectAnswers → SocketTcp → ℤ × SocketTcp × Option ℕ
unfolding connect_and_get_endian2 write_c close_c
open_bridge i key port a s =
    let (differ, t) = connect_and_get_endian2 key permanent_bridge a s in
    elim differ [
      | none ↦ (negsuc 0, close_c t, none)
      | some e ↦
          let (w, u) = write_c (int_bytes port) t in
          if eqb_ℤ w (pos 4)
          then (let (w', v) = write_c (int_bytes i) u in
              if eqb_ℤ w' (pos 4) then (pos 0, v, some e) else (negsuc 3, close_c v, none))
          else (negsuc 2, close_c u, none)
    ]

-- Writing on a socket that is not open.
unfoldable pub write_closed :
    ℤ → NodeIdentifierKey → ℤ → List ℕ → NodeTools → SocketTcp → Outcome (ℤ × NodeTools)
unfolding open_bridge write_c
write_closed i key port bytes tools s =
    let (code, t, differ) = open_bridge i key port tools.reconnect s in
    elim differ [
      | none ↦ ok (code, put_socket i t tools)
      | some e ↦
          let (w, u) = write_c bytes t in
          ok (w, put_socket i u (record tools { is_endian_differ = e }))
    ]

-- `NodeTools::writeC`
unfoldable pub tools_write :
    ℤ → NodeIdentifierKey → ℤ → List ℕ → NodeTools → Outcome (ℤ × NodeTools)
tools_write i key port bytes tools =
    if validate_index i
    then on_socket (socket_at i tools) (λ s.
      if is_open_c s
      then (let (w, t) = write_c bytes s in ok (w, put_socket i t tools))
      else write_closed i key port bytes tools s)
    else ok (negsuc 0, tools)

-- `NodeTools::setSocket`; the descriptor comes with its connection.
unfoldable pub set_socket : ℤ → SocketTcp → NodeTools → Outcome NodeTools
set_socket i s tools =
    if validate_index i
    then on_socket (socket_at i tools) (λ old. ok (put_socket i s tools))
    else ok tools

unfoldable pub get_socket_num : ℤ → NodeTools → Outcome ℤ
get_socket_num i tools =
    if validate_index i then on_socket (socket_at i tools) (λ s. ok s.socket) else ok (negsuc 1)

-- The same on a node of the server.
abbrev pub keep_tools : {A : Type 0} → Ptr → Outcome (A × NodeTools) → Action A
keep_tools p (ok (a, n)) t = returns a (set_tools p n t)
keep_tools p _ t = undefined

unfoldable pub read_node : ℤ → ℕ → Ptr → Action (ℤ × List ℕ)
unfolding tools_read
read_node i n p t = keep_tools p (tools_read i n (tools_of p t)) t

unfoldable pub write_node : ℤ → Ptr → List ℕ → Action ℤ
unfolding tools_write
write_node i p bytes t =
    keep_tools p (tools_write i (key_of (node_at p t).key) t.port_own bytes (tools_of p t)) t
