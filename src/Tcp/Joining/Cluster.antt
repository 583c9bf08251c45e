-- ===== src/Tcp/Joining/Cluster.antt =====
-- What an adder tells of its cluster and a new server reads.
use cpp_raft.Base.{length, ℕ, ◌≡◌, List, [], ◌∷◌, ◌++◌}
use cpp_raft.Node.{Ptr, RaftNode}
use cpp_raft.Tcp.Keys.{NodeIdentifierKey, key_of, key_size}

-- The keys of the nodes, and that each has its 28 bytes.
abbrev pub node_keys : (Ptr → RaftNode) → List Ptr → List NodeIdentifierKey
node_keys store [] = []
node_keys store (p ∷ ps) = key_of (store p).key ∷ node_keys store ps

abbrev pub Sized : (Ptr → RaftNode) → List Ptr → Type 0
Sized store [] = Unit
Sized store (p ∷ ps) = (length (store p).key ≡ key_size) × Sized store ps

-- The bytes of several writes.
abbrev pub concat : List (List ℕ) → List ℕ
concat [] = []
concat (b ∷ bs) = b ++ concat bs
