-- ===== src/Tcp/Receiving/Unread.antt =====
-- Requests for votes that come too early.
use cpp_raft.Base.{
  ◌==◌, ==_refl, none, some, if◌then◌else◌, leb_ℤ, half_ℤ, to_int, ℕ, ◌≡◌, refl, ap, ◌∙◌, Bool,
  true, false, List, [], ◌∷◌,
}
use cpp_raft.Sockets.Stream.{is_open_c}
use cpp_raft.Tcp.Bytes.{read_int}
use cpp_raft.Tcp.Exchange.Reading.{
  incoming_of, after_read, read_all-append, incoming_of-after_read, open_after_read,
}
use cpp_raft.Tcp.Jobs.{add_job, lock_node}
use cpp_raft.Tcp.Receiving.{
  seed_requestvote, seed_message, handle_seed_clbk, queue_request, handle_receive_before_lock,
  first_byte, receive_from_socket_and_inform,
}
use cpp_raft.Tcp.Receiving.Seeds.{seed_job}
use cpp_raft.Tcp.Requests.{clbk_cmd}
use cpp_raft.Tcp.Tools.{raft_index}
use cpp_raft.Server.State.{update}
use cpp_raft.Tcp.State.{
  NodeTools, Action, None, modify, node_at, change_raft, TcpServer, Ending, and_then, pure,
  change_node, tools_of, set_tools, returns,
}
use cpp_raft.Node.{Ptr, ping_received, increment_lock2}

early :
    (now : ℕ) (p : Ptr) (t : TcpServer)
    → leb_ℤ (half_ℤ t.raft.election_timeout) t.raft.timeout_elapsed ≡ false
    → seed_requestvote now p t ≡ returns true t
unfolding seed_requestvote
early now p t h = rw h refl

-- A request for a vote that comes before half of the election timeout has passed counts as a sign
-- of life of the node, but the message behind its type is not read.
pub handle_seed_clbk-unread :
    (now : ℕ) (p : Ptr) (message : List ℕ) (t : TcpServer)
    → is_open_c (tools_of p t).raft_socket ≡ true
    → incoming_of p t ≡ 0 ∷ 0 ∷ 0 ∷ 0 ∷ message
    → leb_ℤ (half_ℤ t.raft.election_timeout) t.raft.timeout_elapsed ≡ false
    → handle_seed_clbk now p t ≡ change_node p (ping_received now) (after_read p message t)
unfolding handle_seed_clbk seed_message to_int set_tools
handle_seed_clbk-unread now p message t op e h =
    ap
      (λ (r : Ending Bool).
        and_then r (λ ping. if ping then change_node p (ping_received now) else pure tt))
      (read_all-append 4 p (0 ∷ 0 ∷ 0 ∷ 0 ∷ []) message t
          (λ bytes. seed_message now p (read_int bytes)) (pure false) refl op e
        ∙ early now p (after_read p message t) h)

-- The server behind such a message: the node is marked alive, and a job for it is put into the queue.
abbrev pub behind_early : ℕ → Ptr → TcpServer → TcpServer
behind_early now q t =
    add_job (seed_job q)
      (lock_node q (change_raft (λ s. record s { store = update q (ping_received now) s.store }) t))

behind_early-node :
    (now : ℕ) (q : Ptr) (t : TcpServer)
    → (tools_of q (behind_early now q t) ≡ tools_of q t)
      × ((node_at q (behind_early now q t)).is_marked_for_delete
          ≡ (node_at q t).is_marked_for_delete)
unfolding add_job lock_node increment_lock2 ping_received update
behind_early-node now q t = (rw (==_refl q) refl, rw (==_refl q) refl)

receive_early :
    (now : ℕ) (q : Ptr) (message : List ℕ) (t : TcpServer)
    → is_open_c (tools_of q t).raft_socket ≡ true
    → ((node_at q t).is_marked_for_delete == 1) ≡ false
    → incoming_of q t ≡ clbk_cmd ∷ 0 ∷ 0 ∷ 0 ∷ 0 ∷ message
    → leb_ℤ (half_ℤ t.raft.election_timeout) t.raft.timeout_elapsed ≡ false
    → receive_from_socket_and_inform now q raft_index t
      ≡ returns tt
          (behind_early now q (after_read q message (after_read q (0 ∷ 0 ∷ 0 ∷ 0 ∷ message) t)))
unfolding receive_from_socket_and_inform queue_request handle_receive_before_lock first_byte
    set_tools change_node
receive_early now q message t op unmarked came h =
    let rest = 0 ∷ 0 ∷ 0 ∷ 0 ∷ message in
    let t1 = after_read q rest t in
    rw unmarked (
      read_all-append 1 q (clbk_cmd ∷ []) rest t
        (λ bs. queue_request now q raft_index (first_byte bs)) (pure tt) refl op came
      ∙ ap
          (λ (r : Ending None). and_then (and_then r (λ _. pure (some (seed_job q)))) (λ j.
            elim j as (λ _. Action None) [
              | none ↦ pure tt
              | some l ↦ modify (λ u. add_job l (lock_node q u))
            ]))
          (handle_seed_clbk-unread now q message t1 (open_after_read q rest t ∙ op)
            (incoming_of-after_read q rest t) h))

-- The byte in front is what the next round takes for a request.
receive_next :
    (later : ℕ) (q : Ptr) (b : ℕ) (message : List ℕ) (u : TcpServer)
    → is_open_c (tools_of q u).raft_socket ≡ true
    → ((node_at q u).is_marked_for_delete == 1) ≡ false
    → incoming_of q u ≡ b ∷ message
    → receive_from_socket_and_inform later q raft_index u
      ≡ queue_request later q raft_index b (after_read q message u)
unfolding receive_from_socket_and_inform first_byte
receive_next later q b message u op unmarked came = rw unmarked (
    read_all-append 1 q (b ∷ []) message u (λ bs. queue_request later q raft_index (first_byte bs))
      (pure tt) refl op came)

-- When a request for a vote comes before half of the election timeout has passed, on an open
-- connection and from a node that is not to be deleted, the receiver does not read the message behind
-- its type, and gives no answer: its Raft server keeps its term and its vote, and has sent nothing
-- more. What was not read stays on the connection, and when the receiver next reads from the node it
-- takes the first byte of that message for a request.
pub unread_is_request :
    (now later : ℕ) (q : Ptr) (b : ℕ) (message : List ℕ) (t : TcpServer)
    → is_open_c (tools_of q t).raft_socket ≡ true
    → ((node_at q t).is_marked_for_delete == 1) ≡ false
    → incoming_of q t ≡ clbk_cmd ∷ 0 ∷ 0 ∷ 0 ∷ 0 ∷ b ∷ message
    → leb_ℤ (half_ℤ t.raft.election_timeout) t.raft.timeout_elapsed ≡ false
    → (u : TcpServer) × (receive_from_socket_and_inform now q raft_index t ≡ returns tt u)
      × (u.raft.current_term ≡ t.raft.current_term)
      × (u.raft.voted_for ≡ t.raft.voted_for)
      × (u.raft.sent ≡ t.raft.sent)
      × (incoming_of q u ≡ b ∷ message)
      × (receive_from_socket_and_inform later q raft_index u
          ≡ queue_request later q raft_index b (after_read q message u))
unfolding set_tools add_job lock_node
unread_is_request now later q b message t op unmarked came h =
    let t1 = after_read q (0 ∷ 0 ∷ 0 ∷ 0 ∷ b ∷ message) t in
    let t2 = after_read q (b ∷ message) t1 in
    let u = behind_early now q t2 in
    let (tools, marks) = behind_early-node now q t2 in
    let left : incoming_of q u ≡ b ∷ message =
      ap (λ (n : NodeTools). n.raft_socket.incoming) tools
      ∙ incoming_of-after_read q (b ∷ message) t1 in
    (
      u,
      receive_early now q (b ∷ message) t op unmarked came h,
      refl,
      refl,
      refl,
      left,
      receive_next later q b message u
          (ap (λ (n : NodeTools). is_open_c n.raft_socket) tools
            ∙ open_after_read q (b ∷ message) t1
            ∙ open_after_read q (0 ∷ 0 ∷ 0 ∷ 0 ∷ b ∷ message) t
            ∙ op)
          (ap (λ (m : ℕ). m == 1) marks ∙ unmarked) left,
    )
