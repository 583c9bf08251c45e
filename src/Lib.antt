-- ===== src/Lib.antt =====
-- The Raft server of this repository, as a model and theorems about it.
--
-- The core is `RaftServer`. Around it `raft::tcp::Server` finds a cluster, exchanges nodes and
-- messages with the other servers over sockets, and has threads for connections, for what nodes
-- send, for time, and workers that take jobs from a queue.
--
-- A `RaftServer` keeps a log of entries, a table of the nodes of its cluster and its role, and
-- reacts to four kinds of message, to entries from clients and to time that passes. Every method
-- is here a function from the server to the server and to how the call ends.
--
-- The files and the code:
-- - Base, Base/Tests, Base/Lists, Base/Int: Boolean tests, lists and the C++ `int`.
-- - Outcome: how a call of the log ends (a value, an exception, undefined behaviour); Sums: sums
--   over lists.
-- - Msg: raft_msg.h, the entries and messages, and the 64 entries that a message holds.
-- - Log, Log/Laws: raft_logger.cpp, the log counted from 1.
-- - Node, Node/Laws: raft_node.cpp and raft_node.h, the bit fields and counters of a node.
-- - Server/State: raft_server.h, state_mach.cpp and the small methods of raft_server.cpp, with
--   `forAllNodesExceptSelf`, `send_requestvote`, `send_appendentries` and
--   `send_appendentries_all`; State/Loops: what a loop over the nodes sends.
-- - Server/Voting: `recv_requestvote`, `recv_requestvote_response`, `get_nvotes_for_me`,
--   `raft_votes_is_majority`; Grants, Majority, Winning, Sharing and Standing are about them.
-- - Server/Election: `become_leader`, `become_candidate`, `become_follower`, `election_start`;
--   Roles and Candidacy are about them.
-- - Server/Applying: `append_entry`, `apply_entry`; Progress is about the loop over the latter.
-- - Server/Appending: `recv_appendentries`, in the steps that its comments number, `recv_entry`
--   and `send_entry_response`; Checking, Committing, Accepting, Whole, Previous, Following and
--   Receiving are about them.
-- - Server/Replies: `recv_appendentries_response`; Marking and Committing are about its loops.
-- - Server/Members: `AddNode`, `FindNode`, `RemoveNode1`, `RemoveNode2`, `ClearAllNodes`; Keys and
--   Table are about the keys.
-- - Server/Periodic: `periodic`; Timing is about it.
-- - Containers/ListSpecial: include/common/impl.lists.hpp, the doubly linked list on a store of
--   links; Segment, Adding and Removing are about it.
-- - Containers/OwningList: `List` and `listN::Fifo` of the same file; Values is about them.
-- - Containers/HashTbl: include/common/impl.common_hashtbl.hpp; Keys and Lookup are about its
--   items, Hash is `hash1_`. Containers/OlderHashTbl: include/common/hashtbl.impl.hpp.
-- - Containers/ListspecialAndHashtbl: include/common/impl.listspecialandhashtbl.hpp, the container
--   behind `m_Nodes`; Adding says how the list and the table agree, which is why Server/Members
--   keeps a list of addresses and searches it.
-- - Containers/Fifo, Containers/SimpleStack: include/common/impl.common_fifofast.hpp, the bounded
--   queue on a store of entries with its cache, and the stacks; Chain, Queue and Extracting
--   are about the queue.
-- - Sockets/Stream, Sockets/Connecting: common/common_sockettcp.cpp, reading, writing and
--   connecting.
-- - Sockets/Device: common/common_iodevice.cpp and common/common_socketbase.cpp, the copies of a
--   socket that share a descriptor; Copying is about making one.
-- - Sockets/Listener: common/common_servertcp.cpp, the listening socket and its loop.
-- - Sockets/Nonblocking: common/common_nonblockingsockettcp.cpp; Sockets/Addresses:
--   common/common_socketbase.cpp, time-outs, ports and the own address.
-- - Locks: include/common/impl.newlockguards.hpp and the deadline of
--   include/common/common_unnamedsemaphorelite.hpp; Balance is about the guards.
-- - Locks/SharedMutex: common/cpp11+/shared_mutex_cpp14.cpp, the shared lock on Windows; Counting,
--   Writers and Deadlock are about threads that use it.
-- - Tcp/Requests: include/raft_macroses_and_functions.h, the numbers of the requests.
-- - Tcp/Bytes: common/raft_common_functions.cpp, the order of bytes; Tcp/Keys, Tcp/Connect:
--   tcp/raft_tcp_common.cpp, the keys of nodes and the first bytes of a connection; Connect/Extra:
--   the data of any length behind it.
-- - Tcp/Client: tcp/raft_tcp_client.cpp.
-- - Tcp/LogFiles: tcp/raft_tcp_common.cpp, the log files; Closing is about the files opened.
-- - Tcp/State: tcp/raft_tcp_server.hpp, and how a method of the server ends. The other files of
--   Tcp are about tcp/raft_tcp_server.cpp:
-- - Tcp/Tools: `NodeTools`, the sockets of a node.
-- - Tcp/Jobs: the queue of the workers; Locking is about the locks of the nodes in it.
-- - Tcp/Sending: `SendClbkFunction`; Readiness is about nodes that are not yet ready, and
--   Written about the bytes that go out.
-- - Tcp/Roles: `become_leader`, `become_candidate` and the methods of `RaftServer` that call them.
-- - Tcp/Exchange: `SendInformationToNode`, `SendInformationToAllNodes`, `ReceiveExtraData`,
--   `CollectAllNodesDataNotThrSafe`; Reading and Writing are about a node's socket.
-- - Tcp/Members: `AddAdditionalDataToNode`, `CleanNodeData` and the table of nodes with them;
--   Waiting is about the removal of a node that jobs still use.
-- - Tcp/Receiving: `ReceiveFromSocketAndInform`, `HandleSeedClbk` and the other requests of nodes;
--   Unread, RoundTrip, Bytes and Seeds are about them.
-- - Tcp/Workers: what a worker does with a job of a node or of the server itself.
-- - Tcp/Connections: what a worker does with a new connection.
-- - Tcp/Asking: what a new server reads from the one that adds it.
-- - Tcp/Joining: the constructor, `FindClusterAndInit`, `CheckAllPossibleSeeds`,
--   `TryFindClusterThredSafe`, `AddOwnNode`; Timeouts and Cluster are about them.
-- - Tcp/Threads: the rounds of the loops of the threads; Tcp/Registry: the list of all servers.
--   Threads/Chains: `ThreadFunctionFindOtherChains`.
-- - Tcp/Selecting: what `FunctionForMultiRcv` gives to `select`; Watching is about it.
-- - Tcp/Signals: `SigHandlerStatic`.
-- - Tcp/Stopping: `RunAllThreadPrivate`, `StartOtherPeriodic`, `StopServer` and the interruption of
--   threads; Starting and Joining are about the threads that are there, Listening and Working
--   about the end of the one that listens and of the workers.
-- - Tests: the theorems on concrete servers, messages and nodes.
--
-- How the state corresponds: a `RaftNode2*` is an address, and the nodes are in a store by
-- address, so that the vote, the own node and the list name the same node. The list behind
-- `m_Nodes` is the list of the addresses in the order of addition. Calls of the callbacks `send`
-- and `applylog` are recorded in order; the callbacks do not call back into the server. The
-- results of `rand()`, the clock and the address that `new` returns are arguments. A field that
-- the code leaves uninitialised is `none`, and reading it is undefined.
--
-- A socket is a record of its descriptor, the bytes that the peer still sends, the bytes that have
-- gone out, and what the next calls of `send` answer; the answers to the other calls of the
-- operating system are arguments. `NodeTools*`, which a node has as its `udata`, is an address in a
-- second store. The fifo of jobs is a list, since Containers/OwningList has the one of the code. A
-- method of `raft::tcp::Server` runs to its end before the next one; what several threads do is a
-- sequence of such steps.
--
-- How a call ends: `returns`, `throws` with what the code throws, `undefined` for undefined
-- behaviour (an access of a vector out of its bounds), `waits` where the code waits for another
-- thread, `out_of_fuel` for a loop that has run out. An exception that leaves a method leaves the
-- state as it was then.
--
-- Numbers: an `int` is an integer without bounds, and arithmetic that overflows it is not
-- followed, since it is undefined; the conversion from `unsigned int` wraps at 32 bits; bit
-- fields have their width; the sizes in bytes of the keys of a cluster wrap. Copying more bytes of
-- an entry of a message than there are is undefined and not followed either; the theorem on
-- `recv_appendentries` asks for them.
--
-- Fuel: the loops over `apply_entry` move one position of the log in every round and stop behind
-- it, so that the length of the log and two is enough; the loop of `clear` takes the count of the
-- list, that of `hash1_` the length of the key, and the count of binary digits the number and one.
--
-- Not modelled: memory that cannot be allocated, `set_configuration`, which is compiled out, and the
-- hooks of the base class, which are empty; the formatting of what is logged; the installation of
-- signal handlers and the making of the socket for interruptions; the replacements of `std::thread`
-- and `std::mutex` for compilers without them; what is only compiled on Windows, but for the shared
-- lock; names and addresses, which the operating system resolves. Whether the threads that are
-- joined come to their end is an argument of `stop_all`, but for the one that listens, which is
-- followed; the steps of the workers are in Stopping/Working, where a job need not end.
mod Base
pub mod Outcome
pub mod Sums
pub mod Msg
pub mod Log
pub mod Node
pub mod Server
pub mod Sockets
pub mod Locks
pub mod Tcp
pub mod Containers
pub mod Tests
