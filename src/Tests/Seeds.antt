-- ===== src/Tests/Seeds.antt =====
-- A vote that one server sends to another.
use cpp_raft.Base.{
  ◌==◌, ltb_ℤ, ℤ, pos, ℕ, suc, ◌+◌, ◌<◌, ◌≡◌, refl, true, false, List, [], ◌∷◌, ◌++◌, arith,
}
use cpp_raft.Msg.{Msg, requestvote_response}
use cpp_raft.Sockets.Stream.{is_open_c}
use cpp_raft.Tcp.State.{TcpServer, and_then, returns, tools_of}
use cpp_raft.Tcp.Tools.{raft_index}
use cpp_raft.Tcp.Sending.{send_clbk_function}
use cpp_raft.Tcp.Sending.Written.{written_bytes, Heard}
use cpp_raft.Tcp.Exchange.Reading.{incoming_of}
use cpp_raft.Tcp.Exchange.Writing.{Takes, outgoing_of}
use cpp_raft.Tcp.Receiving.{receive_from_socket_and_inform}
use cpp_raft.Tcp.Receiving.Seeds.{act, behind_act, receive-send_clbk_function}
use cpp_raft.Tests.Tcp.{nodes_store, tcp_server}
use cpp_raft.Tests.{cluster}

abbrev a_vote : Msg
a_vote = requestvote_response (record { term = pos 3; vote_granted = pos 1 })

-- A server whose nodes are ready.
abbrev sender : TcpServer
sender = record (tcp_server []) {
  raft = record cluster {
    store = λ p. record (nodes_store p) { ok_count = pos 0; last_seen = 100 };
    nodes = 10 ∷ 11 ∷ [];
  };
}

-- Two bytes more have come.
abbrev receiver : TcpServer
receiver = tcp_server (written_bytes (pos 0) a_vote ++ 7 ∷ 8 ∷ [])

sender-Takes : Takes 10 sender
unfolding is_open_c
sender-Takes = record { open_socket = refl; answers = refl }

receiver_open : is_open_c (tools_of 11 receiver).raft_socket ≡ true
unfolding is_open_c
receiver_open = refl

sender-Heard : Heard 200 10 sender
unfolding cpp_raft.Base.◌-ℤ◌
sender-Heard = refl

receive-send_clbk_function_example :
    (s' : TcpServer) × (send_clbk_function 200 10 a_vote sender ≡ returns tt s')
    × (incoming_of 11 receiver ≡ outgoing_of 10 s' ++ 7 ∷ 8 ∷ [])
    × (v : TcpServer) × (receive_from_socket_and_inform 300 11 raft_index receiver
        ≡ and_then (act 300 11 a_vote v) (behind_act 300 11))
    × (v.raft ≡ receiver.raft)
    × (v.jobs ≡ receiver.jobs)
    × (incoming_of 11 v ≡ 7 ∷ 8 ∷ [])
unfolding cpp_raft.Node.new_node
receive-send_clbk_function_example =
    receive-send_clbk_function 200 300 10 11 a_vote (7 ∷ 8 ∷ []) sender receiver
      (omega arith, omega arith) tt sender-Takes refl refl sender-Heard refl refl receiver_open refl
      refl
