-- ===== src/Tcp/Workers.antt =====
-- tcp/raft_tcp_server.cpp: the workers, and the jobs that other nodes and the server itself give
-- them. A worker holds the lock of the nodes while it changes them.
use cpp_raft.Base.{
  ◌==◌, if◌then◌else◌, ℕ, Bool, true, false, not, Option, none, some, List, [], ◌∷◌,
}
use cpp_raft.Node.{Ptr, null, decrement_lock2, make_leader}
use cpp_raft.Server.State.{is_leader, is_candidate, at_node}
use cpp_raft.Server.Election.{become_leader as raft_become_leader}
use cpp_raft.Tcp.Exchange.{send_information_to_all_nodes}
use cpp_raft.Tcp.Keys.{Text, NodeIdentifierKey, key_bytes, key_of, ip4_address1}
use cpp_raft.Tcp.Members.{NewNode, add_node, remove_node1, remove_node2}
use cpp_raft.Tcp.Requests.{
  ok_response, remove_node_request, adder_new_node, old_leader_died, internal_remove_node,
  internal_become_leader,
}
use cpp_raft.Tcp.Sending.{call_raft}
use cpp_raft.Tcp.State.{
  TcpServer, Action, None, ◌>>=◌, ◌>>◌, pure, modify, node_at, change_raft, returns, undefined,
}
use cpp_raft.Tcp.Tools.{raft_index, write_node}

unfoldable pub unlock_node : Ptr → TcpServer → TcpServer
unfolding decrement_lock2
unlock_node p t = if p == null then t else change_raft (at_node p decrement_lock2) t

-- `m_pLeaderNode = p; m_pLeaderNode->makeLeader();`
unfoldable pub set_leader : Ptr → TcpServer → TcpServer
unfolding at_node make_leader
set_leader p t = record (change_raft (at_node p make_leader) t) { leader_node = p }

-- `handleReceiveFromNodeLocked`
unfoldable pub handle_receive_locked : NewNode → ℕ → Ptr → NodeIdentifierKey → Action Bool
unfolding add_node remove_node1 remove_node2 set_leader
handle_receive_locked new c_request p key t =
    if c_request == adder_new_node
    then (let (q, u) = add_node new key t in returns (not (q == null)) u)
    else if c_request == remove_node_request
    then (do remove_node1 (key_bytes key); pure true) t
    else if c_request == old_leader_died
    then (if t.leader_node == null
        then returns false t
        else (do remove_node2 t.leader_node; modify (set_leader p); pure true) t)
    else returns false t

unfoldable pub handle_receive_after_lock : ℕ → Ptr → Action None
unfolding write_node
handle_receive_after_lock c_request p =
    if c_request == adder_new_node
    then (do write_node raft_index p (ok_response ∷ []); pure tt)
    else pure tt

-- `HandleReceiveFromNodePrivate`
unfoldable pub handle_receive_private : NewNode → ℕ → Ptr → NodeIdentifierKey → Action None
unfolding unlock_node handle_receive_locked handle_receive_after_lock
handle_receive_private new c_request p key = do
  modify (unlock_node p)
  done ← handle_receive_locked new c_request p key
  if done then handle_receive_after_lock c_request p else pure tt

-- The name that a field of an address holds.
unfoldable pub text_of : List ℕ → Text
text_of [] = []
text_of (c ∷ cs) = if c == 0 then [] else c ∷ text_of cs

module _ (resolve : Text → Option Text) (own : Text) where
  -- The key of a node, as `set_ip4Address1` and the port make it.
  unfoldable pub known_key : List ℕ → NodeIdentifierKey
  unfolding ip4_address1 text_of
  known_key bytes =
      let k = key_of bytes in
      record { port = k.port; ip4_address = ip4_address1 resolve own (text_of k.ip4_address) }

  -- The request and the key of the job from then on, if the call returns true. Deleting the old
  -- leader reads its key, and there may be none.
  unfoldable pub handle_internal_locked :
      ℕ → ℕ → Ptr → NodeIdentifierKey → Action (Option NodeIdentifierKey)
  unfolding known_key remove_node2 set_leader call_raft raft_become_leader
  handle_internal_locked now c_request p key t =
      if c_request == internal_remove_node
      then (if is_leader t.raft.state
          then (do remove_node2 p; pure (some (known_key (node_at p t).key))) t
          else returns none t)
      else if c_request == internal_become_leader
      then (if not (is_candidate t.raft.state)
          then returns none t
          else if t.raft.this_node == null
          then undefined
          else (do
            modify (set_leader t.raft.this_node)
            call_raft now raft_become_leader
            remove_node2 t.leader_node
            pure (some key))
              t)
      else returns none t

  unfoldable pub handle_internal_after_lock : ℕ → NodeIdentifierKey → List ℕ → Action None
  unfolding send_information_to_all_nodes
  handle_internal_after_lock c_request key extra =
      if c_request == internal_remove_node
      then send_information_to_all_nodes raft_index remove_node_request (some extra) (some key) null
          false
      else if c_request == internal_become_leader
      then send_information_to_all_nodes raft_index old_leader_died (some extra) none null false
      else pure tt

  -- `HandleInternalPrivate`; `handleInternalBeforeLock` returns true.
  unfoldable pub handle_internal_private : ℕ → ℕ → Ptr → NodeIdentifierKey → List ℕ → Action None
  unfolding unlock_node handle_internal_locked handle_internal_after_lock
  handle_internal_private now c_request p key extra = do
    modify (unlock_node p)
    done ← handle_internal_locked now c_request p key
    elim done [ none ↦ pure tt | some k ↦ handle_internal_after_lock c_request k extra ]
