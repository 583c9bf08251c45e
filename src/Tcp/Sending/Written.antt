-- ===== src/Tcp/Sending/Written.antt =====
-- What `SendClbkFunction` writes to a node of which the socket takes all.
use cpp_raft.Base.{
  if◌then◌else◌, ℤ, ltb_ℤ, eqb_ℤ, pos, negsuc, ℕ, ◌≡◌, refl, ap, ◌∙◌, false, List, [], ◌∷◌, ◌++◌,
  arith,
}
use cpp_raft.Msg.{
  Msg, requestvote, requestvote_response, appendentries, appendentries_response, entry_response,
}
use cpp_raft.Node.{Ptr}
use cpp_raft.Tcp.Bytes.{int_bytes}
use cpp_raft.Tcp.Requests.{clbk_cmd}
use cpp_raft.Tcp.State.{
  TcpServer, Ending, and_then, pure, gets, node_at, set_tools, returns, ◌>>=◌, ◌>>◌,
}
use cpp_raft.Tcp.Tools.{raft_index, write_node}
use cpp_raft.Tcp.Exchange.Writing.{
  Takes, outgoing_of, after_write, write_node-append, after_write-Takes, outgoing_of-after_write,
}
use cpp_raft.Tcp.Sending.{
  msg_type, msg_bytes, write_body, write_msg, ping_and_write, send_seen, send_clbk_function,
  unseen_time, min_unseen_time_to_display,
}

-- The bytes of a message on the way: the request, the type and the message.
abbrev pub written_bytes : ℤ → Msg → List ℕ
written_bytes unset m = clbk_cmd ∷ (int_bytes (pos (msg_type m)) ++ msg_bytes unset m)

-- The state behind the three writes.
abbrev pub after_msg : Ptr → Msg → TcpServer → TcpServer
after_msg p m t =
    after_write p (msg_bytes t.unset m)
      (after_write p (int_bytes (pos (msg_type m))) (after_write p (clbk_cmd ∷ []) t))

write_body-Takes :
    (p : Ptr) (m : Msg) (t : TcpServer)
    → Takes p t
    → write_body p m t
      ≡ returns tt
          (after_write p (msg_bytes t.unset m) (after_write p (int_bytes (pos (msg_type m))) t))
unfolding write_body set_tools
write_body-Takes p m t h =
    let bytes = int_bytes (pos (msg_type m)) in
    let u = after_write p bytes t in
    ap
      (λ (r : Ending ℤ). and_then r (λ w. do
        unset ← gets (λ v. v.unset)
        if eqb_ℤ w (pos 4)
            then (do write_node raft_index p (msg_bytes unset m); pure tt)
            else pure tt))
      (write_node-append p bytes t h)
    ∙ ap (λ (r : Ending ℤ). and_then r (λ _. returns tt))
        (write_node-append p (msg_bytes t.unset m) u (after_write-Takes p bytes t h))

write_msg-Takes :
    (p : Ptr) (m : Msg) (t : TcpServer) → Takes p t → write_msg p m t ≡ returns tt (after_msg p m t)
unfolding write_msg set_tools
write_msg-Takes p m t h =
    ap (λ (r : Ending ℤ). and_then r (λ w. if eqb_ℤ w (pos 1) then write_body p m else pure tt))
      (write_node-append p (clbk_cmd ∷ []) t h)
    ∙ write_body-Takes p m (after_write p (clbk_cmd ∷ []) t) (after_write-Takes p _ t h)

outgoing_of-after_msg :
    (p : Ptr) (m : Msg) (t : TcpServer)
    → outgoing_of p t ≡ []
    → outgoing_of p (after_msg p m t) ≡ written_bytes t.unset m
outgoing_of-after_msg p m t fresh =
    let u = after_write p (clbk_cmd ∷ []) t in
    let type = int_bytes (pos (msg_type m)) in
    outgoing_of-after_write p (msg_bytes t.unset m) (after_write p type u)
    ∙ ap (λ (xs : List ℕ). xs ++ msg_bytes t.unset m)
        (outgoing_of-after_write p type u
          ∙ ap (λ (xs : List ℕ). xs ++ type)
              (outgoing_of-after_write p (clbk_cmd ∷ []) t
                ∙ ap (λ (xs : List ℕ). xs ++ clbk_cmd ∷ []) fresh))

-- A node that has been heard of in the last 6 seconds.
abbrev pub Heard : ℕ → Ptr → TcpServer → Type 0
Heard now p t = ltb_ℤ min_unseen_time_to_display (unseen_time now p t) ≡ false

recently : (i : ℤ) → ltb_ℤ (pos 6000) i ≡ false → ltb_ℤ (pos 20000) i ≡ false
recently (pos n) h = ground arith
recently (negsuc n) h = ground arith

send_seen-Heard :
    (unseen : ℤ) (p : Ptr) (m : Msg) (t : TcpServer)
    → ltb_ℤ min_unseen_time_to_display unseen ≡ false
    → send_seen unseen p m t ≡ write_msg p m t
unfolding send_seen ping_and_write
send_seen-Heard unseen p (requestvote m) t h = rw (recently unseen h, h) refl
send_seen-Heard unseen p (requestvote_response m) t h = rw h refl
send_seen-Heard unseen p (appendentries m) t h = rw (recently unseen h, h) refl
send_seen-Heard unseen p (appendentries_response m) t h = rw h refl
send_seen-Heard unseen p (entry_response m) t h = rw h refl

-- The callback returns for every message, and on a connection on which nothing else was written has
-- then written the request, the type and the bytes of the message, if the node is ready and was
-- heard of in the last 6 seconds.
pub send_clbk_function-written :
    (now : ℕ) (p : Ptr) (m : Msg) (t : TcpServer)
    → Takes p t
    → outgoing_of p t ≡ []
    → ltb_ℤ (node_at p t).ok_count (pos 0) ≡ false
    → Heard now p t
    → (u : TcpServer) × (send_clbk_function now p m t ≡ returns tt u)
      × (outgoing_of p u ≡ written_bytes t.unset m)
unfolding send_clbk_function
send_clbk_function-written now p m t takes fresh ready heard = (
  after_msg p m t,
  rw ready (send_seen-Heard (unseen_time now p t) p m t heard ∙ write_msg-Takes p m t takes),
  outgoing_of-after_msg p m t fresh,
)
