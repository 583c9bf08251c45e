-- ===== src/Tcp/Receiving/RoundTrip.antt =====
-- A request that one node sends and another receives.
use mathlib.Core.List.{append_assoc}
use cpp_raft.Base.{
  ◌==◌, ==_refl, length, ℤ, ◌+ℤ◌, pos, ℕ, suc, ◌^◌, ◌<◌, ◌≡◌, refl, sym, ap, ◌∙◌, true, false,
  Option, none, some, List, [], ◌∷◌, ◌++◌,
}
use cpp_raft.Node.{Ptr, increment_lock2}
use cpp_raft.Server.State.{update}
use cpp_raft.Server.Members.{find_node}
use cpp_raft.Sockets.Stream.{is_open_c}
use cpp_raft.Tcp.Bytes.{IsInt, read_int-int_bytes}
use cpp_raft.Tcp.Connect.Extra.{extra_bytes, receive_extra_data-append}
use cpp_raft.Tcp.Exchange.{receive_extra_from, send_information_to_node, received_key}
use cpp_raft.Tcp.Exchange.Reading.{
  incoming_of, after_read, read_all-append, incoming_of-after_read, open_after_read,
  differ_after_read,
}
use cpp_raft.Tcp.Exchange.Writing.{Takes, outgoing_of, send_information_to_node-outgoing}
use cpp_raft.Tcp.Jobs.{new_worker_data, add_job, lock_node}
use cpp_raft.Tcp.Keys.{NodeIdentifierKey, key_bytes, key_of, max_ip4_len, key_size}
use cpp_raft.Tcp.Receiving.{
  receive_new_node, receive_from_adder_new_node, queue_request, first_byte,
  receive_from_socket_and_inform, handle_receive_before_lock,
}
use cpp_raft.Tcp.Requests.{adder_new_node}
use cpp_raft.Tcp.State.{
  WorkerData, TcpServer, Ending, Action, None, and_then, pure, modify, node_at, tools_of, set_tools,
  handle_receive, rcv, returns,
}
use cpp_raft.Tcp.Tools.{raft_index}

-- A key that fits its 28 bytes.
pub record IsKey (key : NodeIdentifierKey) : Type 0 where
  pub port : IsInt key.port
  pub size : length key.ip4_address ≡ max_ip4_len

pub key_of-key_bytes : (key : NodeIdentifierKey) → IsInt key.port → key_of (key_bytes key) ≡ key
key_of-key_bytes key h = ap (λ (i : ℤ). record key { port = i }) (read_int-int_bytes key.port h)

pub length-key_bytes : (key : NodeIdentifierKey) → IsKey key → length (key_bytes key) ≡ key_size
length-key_bytes key h = ap (λ (n : ℕ). suc (suc (suc (suc n)))) h.size

receive_extra_from-append :
    (p : Ptr) (extra rest : List ℕ) (t : TcpServer)
    → length extra < 2 ^ 31
    → (tools_of p t).is_endian_differ ≡ 0
    → is_open_c (tools_of p t).raft_socket ≡ true
    → incoming_of p t ≡ extra_bytes extra ++ rest
    → receive_extra_from p t ≡ returns (some extra) (after_read p rest t)
unfolding receive_extra_from
receive_extra_from-append p extra rest t h same op e =
    rw (same, receive_extra_data-append extra rest (tools_of p t).raft_socket h op e) refl

received_key-key_bytes :
    (key : NodeIdentifierKey) (differ : ℕ)
    → IsInt key.port
    → differ ≡ 0
    → received_key differ (key_bytes key) ≡ key
received_key-key_bytes key differ h e =
    ap (λ (d : ℕ). received_key d (key_bytes key)) e ∙ key_of-key_bytes key h

-- The job that the request of an adder becomes.
module _ (j : WorkerData) (key : NodeIdentifierKey) (extra rest : List ℕ) where
  abbrev received : WorkerData
  received = record j { node_key = key; extra = extra }

  receive_new_node-append :
      (t : TcpServer)
      → length extra < 2 ^ 31
      → (tools_of j.node t).is_endian_differ ≡ 0
      → is_open_c (tools_of j.node t).raft_socket ≡ true
      → find_node (key_bytes key) t.raft ≡ none
      → incoming_of j.node t ≡ extra_bytes extra ++ rest
      → receive_new_node j key t ≡ returns (some received) (after_read j.node rest t)
  unfolding receive_new_node
  receive_new_node-append t h same op new e =
      rw (receive_new_node, new)
        (ap
          (λ (r : Ending (Option (List ℕ))). and_then r (λ found u.
            returns
              (elim found as (λ _. Option WorkerData) [
                | none ↦ none
                | some content ↦ some (record j { node_key = key; extra = content })
              ])
              u))
          (receive_extra_from-append j.node extra rest t h same op e))

  receive_from_adder_new_node-append :
      (t : TcpServer)
      → IsKey key
      → length extra < 2 ^ 31
      → (tools_of j.node t).is_endian_differ ≡ 0
      → is_open_c (tools_of j.node t).raft_socket ≡ true
      → find_node (key_bytes key) t.raft ≡ none
      → incoming_of j.node t ≡ key_bytes key ++ (extra_bytes extra ++ rest)
      → receive_from_adder_new_node j t
        ≡ returns
            (some received)
            (after_read j.node rest (after_read j.node (extra_bytes extra ++ rest) t))
  unfolding receive_from_adder_new_node set_tools
  receive_from_adder_new_node-append t k h same op new e =
      let left = extra_bytes extra ++ rest in
      let behind = after_read j.node left t in
      let same' = differ_after_read j.node left t ∙ same in
      read_all-append key_size j.node (key_bytes key) left t
        (λ bytes u. receive_new_node j (received_key (tools_of j.node u).is_endian_differ bytes) u)
        (pure none) (length-key_bytes key k) op e
      ∙ ap (λ (k' : NodeIdentifierKey). receive_new_node j k' behind)
          (received_key-key_bytes key _ k.port same')
      ∙ receive_new_node-append behind h same' (open_after_read j.node left t ∙ op) new
          (incoming_of-after_read j.node left t)

-- The job that it becomes.
abbrev pub new_node_job : Ptr → NodeIdentifierKey → List ℕ → WorkerData
new_node_job q key extra = record (new_worker_data handle_receive) {
  node = q;
  pear = rcv raft_index adder_new_node;
  node_key = key;
  extra = extra;
}

-- The same, from the byte of the request on, to the queue.
queue_new_node :
    (now : ℕ) (q : Ptr) (key : NodeIdentifierKey) (extra rest : List ℕ) (t : TcpServer)
    → IsKey key
    → length extra < 2 ^ 31
    → (tools_of q t).is_endian_differ ≡ 0
    → is_open_c (tools_of q t).raft_socket ≡ true
    → find_node (key_bytes key) t.raft ≡ none
    → incoming_of q t ≡ key_bytes key ++ (extra_bytes extra ++ rest)
    → queue_request now q raft_index adder_new_node t
      ≡ returns tt (
          add_job
            (new_node_job q key extra)
            (lock_node q (after_read q rest (after_read q (extra_bytes extra ++ rest) t))))
unfolding queue_request handle_receive_before_lock
queue_new_node now q key extra rest t k h same op new e =
    ap
      (λ (r : Ending (Option WorkerData)). and_then r (λ j. elim j as (λ _. Action None) [
        | none ↦ pure tt
        | some l ↦ modify (λ u. add_job l (lock_node q u))
      ]))
      (receive_from_adder_new_node-append
        (record (new_worker_data handle_receive) { node = q; pear = rcv raft_index adder_new_node })
        key extra rest t k h same op new e)

abbrev state_of : {A : Type 0} → TcpServer → Ending A → TcpServer
state_of s (returns a t) = t
state_of s _ = s

sent_bytes :
    (p : Ptr) (key : NodeIdentifierKey) (extra : List ℕ) (s s' : TcpServer)
    → Takes p s
    → outgoing_of p s ≡ []
    → send_information_to_node p raft_index adder_new_node (some extra) (some key) s
      ≡ returns true s'
    → outgoing_of p s' ≡ adder_new_node ∷ (key_bytes key ++ extra_bytes extra)
sent_bytes p key extra s s' takes fresh e =
    let (u, f, g) = send_information_to_node-outgoing p adder_new_node extra key s takes in
    ap (outgoing_of p) (ap (state_of s) (sym e ∙ f))
    ∙ g
    ∙ ap (λ (xs : List ℕ). xs ++ adder_new_node ∷ (key_bytes key ++ extra_bytes extra)) fresh

-- The state behind the queue.
queued :
    (j : WorkerData) (q : Ptr) (t : TcpServer)
    → (incoming_of q (add_job j (lock_node q t)) ≡ incoming_of q t)
      × ((add_job j (lock_node q t)).jobs ≡ t.jobs ++ j ∷ [])
      × ((node_at q (add_job j (lock_node q t))).locks_count ≡ (node_at q t).locks_count +ℤ pos 1)
unfolding add_job lock_node increment_lock2 update
queued j q t = (rw (==_refl q) refl, refl, rw (==_refl q) refl)

-- What a server writes to a node about a new node, with fewer than 2 ^ 31 bytes of data, on a fresh
-- connection that is open and takes all, is received there as a job with the same key and the same
-- data, if the connection is open there, the byte order is the same, the sender's node is not to be
-- deleted, and the key is not known: the job is put behind the others, the sender's node is locked
-- for it, and what follows on the connection is left.
pub receive-send_information :
    (now : ℕ) (p q : Ptr) (key : NodeIdentifierKey) (extra rest : List ℕ) (s s' t : TcpServer)
    → IsKey key
    → length extra < 2 ^ 31
    → Takes p s
    → outgoing_of p s ≡ []
    → send_information_to_node p raft_index adder_new_node (some extra) (some key) s
      ≡ returns true s'
    → (tools_of q t).is_endian_differ ≡ 0
    → is_open_c (tools_of q t).raft_socket ≡ true
    → ((node_at q t).is_marked_for_delete == 1) ≡ false
    → find_node (key_bytes key) t.raft ≡ none
    → incoming_of q t ≡ outgoing_of p s' ++ rest
    → (t' : TcpServer) × (receive_from_socket_and_inform now q raft_index t ≡ returns tt t')
      × (incoming_of q t' ≡ rest)
      × (t'.jobs ≡ t.jobs ++ new_node_job q key extra ∷ [])
      × ((node_at q t').locks_count ≡ (node_at q t).locks_count +ℤ pos 1)
unfolding receive_from_socket_and_inform set_tools first_byte
receive-send_information now p q key extra rest s s' t k h takes fresh sent same op unmarked new e =
    let message = key_bytes key ++ (extra_bytes extra ++ rest) in
    let came : incoming_of q t ≡ adder_new_node ∷ message =
      e
      ∙ ap (λ (xs : List ℕ). xs ++ rest) (sent_bytes p key extra s s' takes fresh sent)
      ∙ ap (λ (xs : List ℕ). adder_new_node ∷ xs)
          (append_assoc (key_bytes key) (extra_bytes extra) rest) in
    let left = extra_bytes extra ++ rest in
    let t1 = after_read q message t in
    let t2 = after_read q rest (after_read q left t1) in
    let (inc, jobs, locks) = queued (new_node_job q key extra) q t2 in
    (
      add_job (new_node_job q key extra) (lock_node q t2),
      rw unmarked (
          read_all-append 1 q (adder_new_node ∷ []) message t
            (λ bytes. queue_request now q raft_index (first_byte bytes)) (pure tt) refl op came
          ∙ queue_new_node now q key extra rest t1 k h (differ_after_read q message t ∙ same)
              (open_after_read q message t ∙ op) new (incoming_of-after_read q message t)),
      inc ∙ incoming_of-after_read q rest (after_read q left t1),
      jobs,
      locks,
    )
