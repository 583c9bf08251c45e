-- ===== src/Tcp/State.antt =====
-- tcp/raft_tcp_server.hpp: the state of `raft::tcp::Server` behind that of the Raft server it is
-- derived from, and how a method on it ends.
use cpp_raft.Base.{◌==◌, if◌then◌else◌, ℤ, ℕ, Bool, List}
use cpp_raft.Outcome.{Fault}
use cpp_raft.Node.{Ptr, RaftNode}
use cpp_raft.Server.State.{Server, update}
use cpp_raft.Sockets.Stream.{SocketTcp}
use cpp_raft.Sockets.Connecting.{ConnectAnswers}
use cpp_raft.Tcp.Keys.{Text, NodeIdentifierKey}

-- `number_of_tools_sockets` is 2: the sockets of the types `raft` and `data1`. `reconnect` is what
-- the operating system answers when a socket of the node is connected next.
pub record NodeTools : Type 0 where
  pub raft_socket : SocketTcp
  pub data1_socket : SocketTcp
  pub is_endian_differ : ℕ
  pub reconnect : ConnectAnswers

-- `workRequest::Type`
pub data WorkRequest : Type 0 where
  no_request handle_connection handle_receive handle_internal : WorkRequest

-- The union `pear`. A descriptor stands with its connection.
pub data Pear : Type 0 where
  nothing : Pear
  con : Text → SocketTcp → Pear
  rcv : ℤ → ℕ → Pear
  intr : ℕ → Pear

pub record WorkerData : Type 0 where
  pub req_type : WorkRequest
  pub node : Ptr
  pub node_key : NodeIdentifierKey
  pub pear : Pear
  pub extra : List ℕ

-- `tools` are what the nodes' `udata` point to; `sema_worker` and `sema_duplicates` the counts of
-- the two semaphores; `unset` what the memory holds that the code has not initialised.
pub record TcpServer : Type 0 where
  pub raft : Server
  pub tools : Ptr → NodeTools
  pub leader_node : Ptr
  pub work : Bool
  pub period : ℤ
  pub port_own : ℤ
  pub jobs : List WorkerData
  pub sema_worker : ℕ
  pub sema_duplicates : ℕ
  pub possible_nodes : List NodeIdentifierKey
  pub server_start_time : ℕ
  pub unset : ℤ

-- How a method ends: it returns, throws, leaves the defined language, waits for another thread, has
-- called `exit`, or the fuel of a loop was too little.
pub data Ending (A : Type 0) : Type 0 where
  returns : A → TcpServer → Ending A
  throws : Fault → TcpServer → Ending A
  waits : TcpServer → Ending A
  undefined exits out_of_fuel : Ending A

abbrev pub Action : Type 0 → Type 0
Action A = TcpServer → Ending A

abbrev pub None : Type 0
None = Unit {0}

abbrev pub and_then : {A B : Type 0} → Ending A → (A → TcpServer → Ending B) → Ending B
and_then (returns a t) k = k a t
and_then (throws x t) k = throws x t
and_then (waits t) k = waits t
and_then undefined k = undefined
and_then exits k = exits
and_then out_of_fuel k = out_of_fuel

infixl 5 ◌>>=◌ ◌>>◌
abbrev pub ◌>>=◌ : {A B : Type 0} → Action A → (A → Action B) → Action B
◌>>=◌ m k t = and_then (m t) k

abbrev pub ◌>>◌ : {A B : Type 0} → Action A → Action B → Action B
m >> k = m >>= λ _. k

module _ {A : Type 0} where
  abbrev pub pure : A → Action A
  pure a t = returns a t

  abbrev pub gets : (TcpServer → A) → Action A
  gets f t = returns (f t) t

abbrev pub modify : (TcpServer → TcpServer) → Action None
modify f t = returns tt (f t)

abbrev pub undefined_action : {A : Type 0} → Action A
undefined_action t = undefined

abbrev pub exits_action : {A : Type 0} → Action A
exits_action t = exits

-- A node of the server, and a change of it.
abbrev pub node_at : Ptr → TcpServer → RaftNode
node_at p t = t.raft.store p

abbrev pub change_raft : (Server → Server) → TcpServer → TcpServer
change_raft f t = record t { raft = f t.raft }

unfoldable pub change_node : Ptr → (RaftNode → RaftNode) → Action None
unfolding update
change_node p f = modify (change_raft (λ s. record s { store = update p f s.store }))

-- `GET_NODE_TOOLS`. Every node has its tools, since `AddAdditionalDataToNode` makes them.
abbrev pub tools_of : Ptr → TcpServer → NodeTools
tools_of p t = t.tools (t.raft.store p).udata

unfoldable pub set_tools : Ptr → NodeTools → TcpServer → TcpServer
set_tools p n t =
    let u = (t.raft.store p).udata in record t { tools = λ q. if q == u then n else t.tools q }
