-- ===== src/Tcp/Members/Waiting.antt =====
-- Removing a node waits for the workers.
use cpp_raft.Base.{
  negsuc, sym, ==_iff, ◌==◌, if◌then◌else◌, ==_refl, Bool-cases, ℤ, eqb_ℤ, pos, ℕ, ◌≡◌, refl, ap,
  ◌∙◌, ◌≢◌, inl, inr, Bool, true, false, some, List, arith,
}
use cpp_raft.Node.{RaftNode, set_udata, Ptr, null, mark_will_be_deleted}
use cpp_raft.Server.State.{Server, update, at_node}
use cpp_raft.Server.Members.{find_node, erase_ptr, remove_node1 as raft_remove_node1}
use cpp_raft.Sockets.Stream.{close_c}
use cpp_raft.Tcp.Jobs.{jobs_of, Locked}
use cpp_raft.Tcp.State.{set_tools, NodeTools, TcpServer, node_at, change_raft, returns, waits}
use cpp_raft.Tcp.Members.{clean_node_data, remove_node1}

unfoldable pub marked : Ptr → TcpServer → TcpServer
unfolding at_node mark_will_be_deleted
marked p t = change_raft (at_node p mark_will_be_deleted) t

marked-locks :
    (p : Ptr) (t : TcpServer) → (node_at p (marked p t)).locks_count ≡ (node_at p t).locks_count
unfolding marked at_node update mark_will_be_deleted
marked-locks p t = rw (==_refl p) refl

eqb_ℤ-pos : (n : ℕ) → eqb_ℤ (pos n) (pos 0) ≡ (n == 0)
eqb_ℤ-pos n = ground arith

raft_remove_found :
    (key : List ℕ) (p : Ptr) (t : TcpServer) (free : Bool)
    → find_node key t.raft ≡ some p
    → eqb_ℤ (node_at p (marked p t)).locks_count (pos 0) ≡ free
    → raft_remove_node1 key t.raft ≡ (
        if free
        then cpp_raft.Server.State.returns tt
            (record (marked p t).raft { nodes = erase_ptr p t.raft.nodes })
        else cpp_raft.Server.State.waits (marked p t).raft)
unfolding marked raft_remove_node1 erase_ptr
raft_remove_found key p t free found e = rw (raft_remove_node1, found, e) refl

-- The tools without their sockets.
abbrev pub closed_tools : NodeTools → NodeTools
closed_tools n = record n {
  raft_socket = record n.raft_socket { socket = negsuc 0 };
  data1_socket = record n.data1_socket { socket = negsuc 0 };
}

-- The server without a node: the node is marked and has no tools, and those that it had are closed.
abbrev pub removed : Ptr → TcpServer → TcpServer
removed p t = record t {
  raft = record t.raft {
    nodes = erase_ptr p t.raft.nodes;
    store = λ q.
        if q == p
        then record (t.raft.store q) { is_marked_for_delete = 1; udata = null }
        else t.raft.store q;
  };
  tools = λ a. if a == (t.raft.store p).udata then closed_tools (t.tools a) else t.tools a;
}

-- The server that has only marked a node.
abbrev pub only_marked : Ptr → TcpServer → TcpServer
only_marked p t = record t {
  raft = record t.raft {
    store = λ q.
        if q == p then record (t.raft.store q) { is_marked_for_delete = 1 } else t.raft.store q;
  };
}

same_tools :
    (u : TcpServer) (f g : Ptr → RaftNode) (h k : Ptr → NodeTools)
    → ((q : Ptr) → f q ≡ g q)
    → ((a : Ptr) → h a ≡ k a)
    → record u { raft = record u.raft { store = f }; tools = h }
      ≡ record u { raft = record u.raft { store = g }; tools = k }
same_tools u f g h k e d =
    λ i. record u { raft = record u.raft { store = λ q. e q i }; tools = λ a. d a i }

marked-only : (p : Ptr) (t : TcpServer) → marked p t ≡ only_marked p t
unfolding marked at_node update mark_will_be_deleted
marked-only p t =
    same_tools t _ _ t.tools t.tools
      (λ q. elim (Bool-cases (q == p)) [ inl e ↦ rw e refl | inr e ↦ rw e refl ]) (λ a. refl)

marked-udata :
    (p : Ptr) (t : TcpServer)
    → (update p mark_will_be_deleted t.raft.store p).udata ≡ (t.raft.store p).udata
unfolding update mark_will_be_deleted
marked-udata p t = rw (==_refl p) refl

clean-removed :
    (p : Ptr) (t : TcpServer)
    → clean_node_data p (change_raft (λ s. record s { nodes = erase_ptr p s.nodes }) (marked p t))
      ≡ removed p t
unfolding clean_node_data close_c set_udata set_tools marked at_node update mark_will_be_deleted
clean-removed p t =
    (same_tools (record t { raft = record t.raft { nodes = erase_ptr p t.raft.nodes } }) _ _ _ _
      (λ q. elim (Bool-cases (q == p)) [ inl e ↦ rw e refl | inr e ↦ rw e refl ])
      (λ a. elim (Bool-cases (a == (t.raft.store p).udata)) [
        | inl e ↦
            rw (marked-udata p t, e)
              (ap (λ (b : Ptr). closed_tools (t.tools b)) (sym ((==_iff a _).0 e)))
        | inr e ↦ rw (marked-udata p t, e) refl
      ]))

-- If every node is locked once for each of its jobs, removing a node that is found and that no job
-- names marks it, takes it off the table, closes both of its sockets and leaves it without tools;
-- if a job names it, the removal has only marked the node, and waits. Nothing else changes.
pub remove_node1-waits :
    (key : List ℕ) (p : Ptr) (t : TcpServer)
    → p ≢ null
    → Locked t
    → find_node key t.raft ≡ some p
    → remove_node1 key t
      ≡ (if jobs_of p t.jobs == 0 then returns tt (removed p t) else waits (only_marked p t))
unfolding remove_node1 clean_node_data marked
remove_node1-waits key p t ne h found =
    let count : eqb_ℤ (node_at p (marked p t)).locks_count (pos 0) ≡ (jobs_of p t.jobs == 0) =
      ap (λ (m : ℤ). eqb_ℤ m (pos 0)) (marked-locks p t ∙ h p ne) ∙ eqb_ℤ-pos (jobs_of p t.jobs) in
    elim (Bool-cases (jobs_of p t.jobs == 0)) [
      | inl e ↦
          rw (e, remove_node1, found, raft_remove_found key p t true found (count ∙ e))
            (ap (returns tt) (clean-removed p t))
      | inr e ↦
          rw (e, remove_node1, found, raft_remove_found key p t false found (count ∙ e))
            (ap waits (marked-only p t))
    ]
