-- ===== src/Tcp/Receiving/Seeds.antt =====
-- A message that one Raft server sends by its callback and another receives.
use cpp_raft.Base.{
  ◌==◌, if◌then◌else◌, ℤ, ltb_ℤ, leb_ℤ, eqb_ℤ, half_ℤ, pos, ℕ, ◌≡◌, refl, sym, ap, ◌∙◌, Bool, true,
  false, Option, none, some, List, [], ◌∷◌, ◌++◌,
}
use cpp_raft.Msg.{
  MsgRequestvote, MsgRequestvoteResponse, MsgAppendEntries, MsgAppendentriesResponse, Msg,
  requestvote, requestvote_response, appendentries, appendentries_response, entry_response,
}
use cpp_raft.Node.{Ptr, ping_received}
use cpp_raft.Server.State.{Server}
use cpp_raft.Server.Voting.{recv_requestvote}
use cpp_raft.Server.Appending.{recv_appendentries}
use cpp_raft.Server.Replies.{recv_appendentries_response}
use cpp_raft.Sockets.Stream.{is_open_c}
use cpp_raft.Tcp.Bytes.{int_bytes, read_int}
use cpp_raft.Tcp.Exchange.Reading.{
  incoming_of, after_read, read_all-append, incoming_of-after_read, open_after_read,
}
use cpp_raft.Tcp.Exchange.Writing.{Takes, outgoing_of}
use cpp_raft.Tcp.Jobs.{new_worker_data, add_job, lock_node}
use cpp_raft.Tcp.Receiving.{
  queue_request, first_byte, receive_from_socket_and_inform, handle_receive_before_lock,
  seed_requestvote, seed_requestvote_response, seed_appendentries, seed_appendentries_response,
  seed_entries, seed_message, handle_seed_clbk, int_at, read_requestvote, read_requestvote_response,
  read_appendentries, read_appendentries_response,
}
use cpp_raft.Tcp.Requests.{clbk_cmd}
use cpp_raft.Tcp.Roles.{recv_requestvote_response}
use cpp_raft.Tcp.Sending.{call_raft, on_raft, msg_type, msg_bytes, send_clbk_function}
use cpp_raft.Tcp.Sending.Written.{written_bytes, Heard, send_clbk_function-written}
use cpp_raft.Tcp.State.{
  WorkerData, modify, throws, waits, undefined, exits, out_of_fuel, handle_receive, rcv, TcpServer,
  Ending, Action, None, and_then, pure, node_at, change_node, tools_of, set_tools, returns, ◌>>◌,
}
use cpp_raft.Tcp.Tools.{raft_index}
use cpp_raft.Tcp.Receiving.Bytes.{
  Plain, read_requestvote-bytes, read_requestvote_response-bytes, read_appendentries-bytes,
  read_appendentries_response-bytes, no_entries, type_fits,
}

-- What the receiver does with a message from the node at an address.
abbrev pub act : ℕ → Ptr → Msg → Action Bool
act now q (requestvote m) = do call_raft now (recv_requestvote q m); pure true
act now q (requestvote_response m) = do
  change_node q (ping_received now)
  recv_requestvote_response now q m
  pure true
act now q (appendentries m) = do on_raft now (recv_appendentries true q m); pure true
act now q (appendentries_response m) = do
  change_node q (ping_received now)
  on_raft now (recv_appendentries_response q m)
  pure true
act now q (entry_response m) = pure false

-- An answer that says so counts as a sign of life of the node.
abbrev pub sign_of_life : ℕ → Ptr → Bool → Action None
sign_of_life now q ping = if ping then change_node q (ping_received now) else pure tt

-- A request for a vote is read only when half of the election timeout has passed.
abbrev pub Timely : Msg → Server → Type 0
Timely (requestvote m) s = leb_ℤ (half_ℤ s.election_timeout) s.timeout_elapsed ≡ true
Timely _ s = Unit

-- What the receiver does with the bytes of a message that has come.
module _ (now : ℕ) (q : Ptr) (unset : ℤ) (rest : List ℕ) (t : TcpServer) where
  seed_message-bytes :
      (m : Msg)
      → Plain m
      → Timely m t.raft
      → is_open_c (tools_of q t).raft_socket ≡ true
      → incoming_of q t ≡ msg_bytes unset m ++ rest
      → seed_message now q (pos (msg_type m)) t ≡ act now q m (after_read q rest t)
  unfolding seed_message seed_requestvote seed_requestvote_response seed_appendentries
      seed_appendentries_response msg_bytes
  seed_message-bytes (requestvote m) h timely op e = rw timely (
      read_all-append 16 q (msg_bytes unset (requestvote m)) rest t
        (λ bytes. do call_raft now (recv_requestvote q (read_requestvote bytes)); pure true)
        (pure false) refl op e
      ∙ ap (λ (k : MsgRequestvote). act now q (requestvote k) (after_read q rest t))
          (read_requestvote-bytes m unset h))
  seed_message-bytes (requestvote_response m) h timely op e =
      read_all-append 8 q (msg_bytes unset (requestvote_response m)) rest t
        (λ bytes. act now q (requestvote_response (read_requestvote_response bytes))) (pure false)
        refl op e
      ∙ ap
          (λ (k : MsgRequestvoteResponse). act now q (requestvote_response k) (after_read q rest t))
          (read_requestvote_response-bytes m unset h)
  seed_message-bytes (appendentries m) h timely op e =
      let bytes = msg_bytes unset (appendentries m) in
      let read = λ (bs : List ℕ) (n : ℤ).
        (if eqb_ℤ n (pos 0)
          then act now q (appendentries (read_appendentries bs))
          else seed_entries n q) in
      read_all-append 24 q bytes rest t (λ bs. read bs (int_at 16 bs)) (pure false) refl op e
      ∙ ap (λ (n : ℤ). read bytes n (after_read q rest t)) (no_entries m unset h.4)
      ∙ ap (λ (k : MsgAppendEntries). act now q (appendentries k) (after_read q rest t))
          (read_appendentries-bytes m unset h)
  seed_message-bytes (appendentries_response m) h timely op e =
      read_all-append 16 q (msg_bytes unset (appendentries_response m)) rest t
        (λ bytes. act now q (appendentries_response (read_appendentries_response bytes)))
        (pure false) refl op e
      ∙ ap
          (λ (k : MsgAppendentriesResponse).
            act now q (appendentries_response k) (after_read q rest t))
          (read_appendentries_response-bytes m unset h)
  seed_message-bytes (entry_response m) h timely op e = absurd h

handle_seed_clbk-bytes :
    (now : ℕ) (q : Ptr) (unset : ℤ) (rest : List ℕ) (t : TcpServer) (m : Msg)
    → Plain m
    → Timely m t.raft
    → is_open_c (tools_of q t).raft_socket ≡ true
    → incoming_of q t ≡ int_bytes (pos (msg_type m)) ++ (msg_bytes unset m ++ rest)
    → handle_seed_clbk now q t
      ≡ and_then
          (act now q m (after_read q rest (after_read q (msg_bytes unset m ++ rest) t)))
          (sign_of_life now q)
unfolding handle_seed_clbk set_tools
handle_seed_clbk-bytes now q unset rest t m h timely op e =
    let left = msg_bytes unset m ++ rest in
    let u = after_read q left t in
    ap (λ (r : Ending Bool). and_then r (sign_of_life now q))
      (read_all-append 4 q (int_bytes (pos (msg_type m))) left t
          (λ bytes. seed_message now q (read_int bytes)) (pure false) refl op e
        ∙ ap (λ (n : ℤ). seed_message now q n u) (type_fits m h)
        ∙ seed_message-bytes now q unset rest u m h timely (open_after_read q left t ∙ op)
            (incoming_of-after_read q left t))

-- The job that a message by the callback becomes, behind which nothing is left to do.
abbrev pub seed_job : Ptr → WorkerData
seed_job q = record (new_worker_data handle_receive) { node = q; pear = rcv raft_index clbk_cmd }

-- What follows the operation of the Raft server.
abbrev pub behind_act : ℕ → Ptr → Bool → Action None
behind_act now q ping = do
  sign_of_life now q ping
  modify (λ u. add_job (seed_job q) (lock_node q u))

-- The end of `handleReceiveFromNodeBeforeLockRcvContext` and what follows it.
abbrev queue_job : Ptr → Option WorkerData → Action None
queue_job q j = elim j [ none ↦ pure tt | some l ↦ modify (λ u. add_job l (lock_node q u)) ]

behind_seed :
    (now : ℕ) (q : Ptr) (r : Ending Bool)
    → and_then
        (and_then (and_then r (sign_of_life now q)) (λ _. pure (some (seed_job q))))
        (queue_job q)
      ≡ and_then r (behind_act now q)
unfolding change_node
behind_seed now q (returns true t) = refl
behind_seed now q (returns false t) = refl
behind_seed now q (throws x t) = refl
behind_seed now q (waits t) = refl
behind_seed now q undefined = refl
behind_seed now q exits = refl
behind_seed now q out_of_fuel = refl

queue_seed :
    (now : ℕ) (q : Ptr) (unset : ℤ) (rest : List ℕ) (t : TcpServer) (m : Msg)
    → Plain m
    → Timely m t.raft
    → is_open_c (tools_of q t).raft_socket ≡ true
    → incoming_of q t ≡ int_bytes (pos (msg_type m)) ++ (msg_bytes unset m ++ rest)
    → queue_request now q raft_index clbk_cmd t
      ≡ and_then
          (act now q m (after_read q rest (after_read q (msg_bytes unset m ++ rest) t)))
          (behind_act now q)
unfolding queue_request handle_receive_before_lock
queue_seed now q unset rest t m h timely op e =
    ap (λ (r : Ending None). and_then (and_then r (λ _. pure (some (seed_job q)))) (queue_job q))
      (handle_seed_clbk-bytes now q unset rest t m h timely op e)
    ∙ behind_seed now q
        (act now q m (after_read q rest (after_read q (msg_bytes unset m ++ rest) t)))

-- What one Raft server sends to another of the same byte order by the callback, to a node that is
-- ready and was heard of in the last 6 seconds, and on a connection that takes all and on which
-- nothing else was written, is what the receiver acts on: it reads the same message from the connection, leaves what follows, does what the Raft
-- server does with such a message, and puts a job behind the others for which nothing is left to do.
-- The message is one whose fields are set and fit their bytes, and that has no entries; a request
-- for a vote must come when half of the election timeout has passed. The connections are open, and
-- the receiver's node is not to be deleted.
pub receive-send_clbk_function :
    (now then_now : ℕ) (p q : Ptr) (m : Msg) (rest : List ℕ) (s t : TcpServer)
    → Plain m
    → Timely m t.raft
    → Takes p s
    → outgoing_of p s ≡ []
    → ltb_ℤ (node_at p s).ok_count (pos 0) ≡ false
    → Heard now p s
    → (tools_of p s).is_endian_differ ≡ 0
    → (tools_of q t).is_endian_differ ≡ 0
    → is_open_c (tools_of q t).raft_socket ≡ true
    → ((node_at q t).is_marked_for_delete == 1) ≡ false
    → incoming_of q t ≡ written_bytes s.unset m ++ rest
    → (s' : TcpServer) × (send_clbk_function now p m s ≡ returns tt s')
      × (incoming_of q t ≡ outgoing_of p s' ++ rest)
      × (v : TcpServer) × (receive_from_socket_and_inform then_now q raft_index t
          ≡ and_then (act then_now q m v) (behind_act then_now q))
      × (v.raft ≡ t.raft)
      × (v.jobs ≡ t.jobs)
      × (incoming_of q v ≡ rest)
unfolding receive_from_socket_and_inform set_tools first_byte
receive-send_clbk_function now then_now p q m rest s t h timely takes fresh ready heard _ _ op
      unmarked came =
    let (s', e, f) = send_clbk_function-written now p m s takes fresh ready heard in
    let bytes = int_bytes (pos (msg_type m)) ++ msg_bytes s.unset m in
    let t1 = after_read q (bytes ++ rest) t in
    let t2 = after_read q (msg_bytes s.unset m ++ rest) t1 in
    let v = after_read q rest t2 in
    (
      s',
      e,
      came ∙ ap (λ (xs : List ℕ). xs ++ rest) (sym f),
      v,
      rw unmarked (
          read_all-append 1 q (clbk_cmd ∷ []) (bytes ++ rest) t
            (λ bs. queue_request then_now q raft_index (first_byte bs)) (pure tt) refl op came
          ∙ queue_seed then_now q s.unset rest t1 m h timely
              (open_after_read q (bytes ++ rest) t ∙ op)
              (incoming_of-after_read q (bytes ++ rest) t)),
      refl,
      refl,
      incoming_of-after_read q rest t2,
    )
