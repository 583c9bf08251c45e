-- ===== src/Tcp/Sending/Readiness.antt =====
-- The calls of the sending callback for a node that is not yet ready.
use cpp_raft.Base.{
  ◌==◌, ==_refl, ==_iff, Bool-cases, inl, inr, length, ℤ, sub_ℕ, ◌+ℤ◌, ltb_ℤ, pos, negsuc, ℕ, zero,
  suc, ◌≡◌, refl, ap, ◌∙◌, true, List, [], ◌∷◌, arith,
}
use cpp_raft.Msg.{Msg}
use cpp_raft.Node.{Ptr, RaftNode, increment_ok_count}
use cpp_raft.Server.State.{update}
use cpp_raft.Tcp.State.{
  TcpServer, Action, None, ◌>>◌, pure, node_at, change_raft, change_node, returns,
}
use cpp_raft.Tcp.Sending.{unseen_time, send_seen, send_clbk_function}

-- Calls of the callback for one node, one after the other, and all of them returned.
unfoldable pub send_clbks : ℕ → Ptr → List Msg → Action None
send_clbks now p [] = pure tt
send_clbks now p (m ∷ ms) = do send_clbk_function now p m; send_clbks now p ms

counted :
    (k : ℕ) (n : RaftNode)
    → n.ok_count ≡ negsuc k
    → (increment_ok_count n).ok_count ≡ sub_ℕ 1 (suc k)
unfolding increment_ok_count ◌+ℤ◌
counted k n h = rw h (ground arith)

-- A call that only counts.
unfoldable pub count_up : Ptr → TcpServer → TcpServer
unfolding update
count_up p = change_raft (λ s. record s { store = update p increment_ok_count s.store })

below_zero : (k : ℕ) → ltb_ℤ (negsuc k) (pos 0) ≡ true
below_zero k = ground arith

send_clbk_counts :
    (now : ℕ) (p : Ptr) (m : Msg) (k : ℕ) (t : TcpServer)
    → (node_at p t).ok_count ≡ negsuc k
    → send_clbk_function now p m t ≡ returns tt (count_up p t)
unfolding send_clbk_function change_node count_up
send_clbk_counts now p m k t h = rw (ap (λ (c : ℤ). ltb_ℤ c (pos 0)) h ∙ below_zero k) refl

send_clbk_ready :
    (now : ℕ) (p : Ptr) (m : Msg) (t : TcpServer)
    → (node_at p t).ok_count ≡ pos 0
    → send_clbk_function now p m t ≡ send_seen (unseen_time now p t) p m t
unfolding send_clbk_function
send_clbk_ready now p m t h = rw h refl

count_up-ok_count :
    (p : Ptr) (k : ℕ) (t : TcpServer)
    → (node_at p t).ok_count ≡ negsuc k
    → (node_at p (count_up p t)).ok_count ≡ sub_ℕ 1 (suc k)
unfolding count_up update
count_up-ok_count p k t h = rw (==_refl p) (counted k (node_at p t) h)

-- The server with the count of answers of a node at 0.
unfoldable pub counted_out : Ptr → TcpServer → TcpServer
unfolding update
counted_out p =
    change_raft (λ s. record s { store = update p (λ n. record n { ok_count = pos 0 }) s.store })

same_stores :
    (t : TcpServer) (f g : Ptr → RaftNode)
    → ((q : Ptr) → f q ≡ g q)
    → change_raft (λ s. record s { store = f }) t ≡ change_raft (λ s. record s { store = g }) t
same_stores t f g h = λ i. change_raft (λ s. record s { store = λ q. h q i }) t

-- A count that comes after others, or as the last.
counted_out-count_up : (p : Ptr) (t : TcpServer) → counted_out p (count_up p t) ≡ counted_out p t
unfolding counted_out count_up update increment_ok_count
counted_out-count_up p t =
    same_stores t _ _ λ q. elim (Bool-cases (q == p)) [ inl e ↦ rw e refl | inr e ↦ rw e refl ]

last_count :
    (p q : Ptr) (t : TcpServer)
    → (q == p) ≡ true
    → (node_at p t).ok_count ≡ negsuc 0
    → (increment_ok_count (t.raft.store q)).ok_count ≡ pos 0
last_count p q t e h =
    counted 0 (t.raft.store q) (ap (λ (r : Ptr). (t.raft.store r).ok_count) ((==_iff q p).0 e) ∙ h)

counted_out-ok_count : (p : Ptr) (t : TcpServer) → (node_at p (counted_out p t)).ok_count ≡ pos 0
unfolding counted_out update
counted_out-ok_count p t = rw (==_refl p) refl

count_up-last :
    (p : Ptr) (t : TcpServer) → (node_at p t).ok_count ≡ negsuc 0 → count_up p t ≡ counted_out p t
unfolding counted_out count_up update increment_ok_count
count_up-last p t h = same_stores t _ _ λ q. elim (Bool-cases (q == p)) [
  | inl e ↦ rw e (ap (λ (c : ℤ). record (t.raft.store q) { ok_count = c }) (last_count p q t e h))
  | inr e ↦ rw e refl
]

-- A node whose count of answers is k + 1 below 0, as it is 25 below for a new one, gets nothing of
-- the first k + 1 messages: every call returns, and all that they change is that the count is 0
-- then, without a byte written or a job made. The next message goes on to the sending.
pub send_clbks_ready :
    (now : ℕ) (p : Ptr) (k : ℕ) (ms : List Msg) (m : Msg) (t : TcpServer)
    → length ms ≡ suc k
    → (node_at p t).ok_count ≡ negsuc k
    → (send_clbks now p ms t ≡ returns tt (counted_out p t))
      × (send_clbk_function now p m (counted_out p t)
          ≡ send_seen (unseen_time now p (counted_out p t)) p m (counted_out p t))
unfolding send_clbks
send_clbks_ready now p k [] m t len h = absurd (omega (arith, len))
send_clbks_ready now p zero (m' ∷ []) m t len h = (
  rw (send_clbk_counts now p m' zero t h) (ap (returns tt) (count_up-last p t h)),
  send_clbk_ready now p m (counted_out p t) (counted_out-ok_count p t),
)
send_clbks_ready now p zero (m' ∷ m'' ∷ ms) m t len h = absurd (omega (arith, len))
send_clbks_ready now p (suc k) (m' ∷ ms) m t len h =
    let (e, _) =
      send_clbks_ready now p k ms m (count_up p t) (omega (arith, len))
        (count_up-ok_count p (suc k) t h ∙ ground arith) in
    (
      rw (send_clbk_counts now p m' (suc k) t h) (e ∙ ap (returns tt) (counted_out-count_up p t)),
      send_clbk_ready now p m (counted_out p t) (counted_out-ok_count p t),
    )
