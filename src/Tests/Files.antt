-- ===== src/Tests/Files.antt =====
-- The log file of a program, and a connection.
use cpp_raft.Base.{pos, negsuc, ℕ, ◌≡◌, true, false, none, some, List, [], ◌∷◌, arith}
use cpp_raft.Sums.{times}
use cpp_raft.Node.{Ptr}
use cpp_raft.Outcome.{ok}
use cpp_raft.Sockets.Stream.{new_socket}
use cpp_raft.Sockets.Addresses.{receive_timeout}
use cpp_raft.Sockets.Connecting.{ConnectAnswers, connect_c, wait_connected}
use cpp_raft.Sockets.Nonblocking.{
  NonblockingSocketTcp, with_tcp, nonblocking_connect_c, nonblocking_connect_c-connect_c,
}
use cpp_raft.Tcp.LogFiles.{Logs, new_logs, clean_log_files_in_the_end_static}
use cpp_raft.Tcp.LogFiles.Closing.{Use, opens, prints, flushes, use_logs, use_logs-closed}

-- The name `log`, and what is printed.
abbrev log_name : List ℕ
log_name = 108 ∷ 111 ∷ 103 ∷ []

abbrev log_uses : List Use
log_uses =
    opens log_name 5
    ∷ prints 2 none 0 (104 ∷ 105 ∷ [])
    ∷ opens log_name 6
    ∷ flushes
    ∷ prints 2 (some 200000000) 7 (104 ∷ 105 ∷ [])
    ∷ []

use_logs-closed_example :
    (t : Logs) × (use_logs log_uses new_logs ≡ ok t)
    × ((i : Ptr)
        → times i (clean_log_files_in_the_end_static t).disk.closed ≡ times i t.disk.opened)
use_logs-closed_example = use_logs-closed log_uses (omega arith)

-- The connection takes time.
abbrev in_time : ConnectAnswers
in_time = record {
  socket = pos 3;
  gethostname = pos 0;
  is_address = true;
  has_entry = false;
  entry_is_address = false;
  connect = negsuc 0;
  in_progress = true;
  select = pos 1;
  interrupted = false;
  is_set = true;
  incoming = [];
  answers = [];
}

abbrev unused_socket : NonblockingSocketTcp
unused_socket = with_tcp new_socket

nonblocking_connect_c-connect_c_example :
    ((nonblocking_connect_c false true (pos 1500) in_time unused_socket).0
      ≡ (connect_c false in_time new_socket).0)
    × ((nonblocking_connect_c false true (pos 1500) in_time unused_socket).1.tcp
        ≡ (connect_c false in_time new_socket).1)
    × ((nonblocking_connect_c false true (pos 1500) in_time unused_socket).1.timeout
        ≡ some (receive_timeout (pos 1500)))
unfolding connect_c wait_connected
nonblocking_connect_c-connect_c_example =
    nonblocking_connect_c-connect_c false true (pos 1500) in_time unused_socket
