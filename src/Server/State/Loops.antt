-- ===== src/Server/State/Loops.antt =====
-- What a loop over the nodes sends.
use cpp_raft.Base.{
  ◌≡◌, refl, sym, ◌∙◌, Bool, true, List, [], ◌∷◌, ◌++◌, ◌||◌, ◌&&◌, ◌==◌, map, if◌then◌else◌,
  Bool-cases, inl, inr,
}
use mathlib.Core.List.{append-nil, append_assoc}
use cpp_raft.Msg.{Msg}
use cpp_raft.Node.{Ptr}
use cpp_raft.Server.State.{Server, for_nodes}

-- Whether the loop passes over a node.
abbrev pub skips : Bool → Server → Ptr → Bool
skips skip_leader s p = (p == s.this_node) || (skip_leader && ((s.store p).is_leader == 1))

-- The nodes that the callback is called on, in order.
abbrev pub targets : Bool → Server → List Ptr → List Ptr
targets skip_leader s [] = []
targets skip_leader s (p ∷ ps) =
    let rest = targets skip_leader s ps in if skips skip_leader s p then rest else p ∷ rest

-- A callback that sends the message `m p` to its node and leaves the state that the loop and the
-- messages read as it was.
pub record Sends (f : Ptr → Server → Server) (m : Ptr → Msg) (Keeps : Server → Type 0)
    : Type 0 where
  pub sends :
      (p : Ptr) (s : Server) → Keeps s → s.cb_send ≡ true → (f p s).sent ≡ s.sent ++ (p, m p) ∷ []
  pub keeps : (p : Ptr) (s : Server) → Keeps s → Keeps (f p s)
  pub set : (p : Ptr) (s : Server) → (f p s).cb_send ≡ s.cb_send
  pub same : (p : Ptr) (s : Server) → (f p s).this_node ≡ s.this_node
  pub flags : (p q : Ptr) (s : Server) → ((f p s).store q).is_leader ≡ (s.store q).is_leader

module _ {f : Ptr → Server → Server} {m : Ptr → Msg} {Keeps : Server → Type 0} (c : Sends f m Keeps)
    (skip : Bool) where
  skips-callback : (p q : Ptr) (s : Server) → skips skip (f p s) q ≡ skips skip s q
  skips-callback p q s = rw (c.same p s, c.flags p q s)

  pub targets-callback :
      (p : Ptr) (s : Server) (qs : List Ptr) → targets skip (f p s) qs ≡ targets skip s qs
  targets-callback p s [] = refl
  targets-callback p s (q ∷ qs) = rw (c.same p s, c.flags p q s, targets-callback p s qs)

  -- The loop sends one message to each target, in the order of the list.
  pub for_nodes-sent :
      (ps : List Ptr) (s : Server)
      → Keeps s
      → s.cb_send ≡ true
      → (for_nodes f skip ps s).sent ≡ s.sent ++ map (λ p. (p, m p)) (targets skip s ps)
  unfolding for_nodes
  for_nodes-sent [] s k on = sym (append-nil s.sent)
  for_nodes-sent (p ∷ ps) s k on = elim (Bool-cases (skips skip s p)) [
    | inl e ↦ rw (e, for_nodes) (for_nodes-sent ps s k on)
    | inr e ↦
        rw (e, for_nodes)
          (for_nodes-sent ps (f p s) (c.keeps p s k) (c.set p s ∙ on)
            ∙ rw (c.sends p s k on, targets-callback p s ps) (append_assoc s.sent _ _))
  ]

-- What every call of the callback keeps, the loop keeps.
pub for_nodes_keeps :
    {f : Ptr → Server → Server} (P : Server → Type 0) (skip : Bool) (ps : List Ptr) (s : Server)
    → ((p : Ptr) (t : Server) → P t → P (f p t))
    → P s
    → P (for_nodes f skip ps s)
unfolding for_nodes
for_nodes_keeps P skip [] s step h = h
for_nodes_keeps {f} P skip (p ∷ ps) s step h = elim (Bool-cases (skips skip s p)) [
  | inl e ↦ rw (e, for_nodes) (for_nodes_keeps P skip ps s step h)
  | inr e ↦ rw (e, for_nodes) (for_nodes_keeps P skip ps (f p s) step (step p s h))
]
