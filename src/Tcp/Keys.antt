-- ===== src/Tcp/Keys.antt =====
-- tcp/raft_tcp_common.cpp: `NodeIdentifierKey`, the port and the address by which a node is found.
-- A text is its bytes in front of the terminating 0.
use cpp_raft.Base.{
  ◌==◌, if◌then◌else◌, Bool-cases, length, take, drop, ℤ, eqb_ℤ, pos, ℕ, zero, suc, ◌≡◌, refl, sym,
  ap, ◌∙◌, ◌≢◌, inl, inr, Bool, true, false, Option, none, some, List, [], ◌∷◌, ◌++◌, arith,
}
use cpp_raft.Containers.HashTbl.{eqb_key}
use cpp_raft.Containers.HashTbl.Keys.{eqb_key→eq}
use cpp_raft.Tcp.Bytes.{int_bytes, IsInt, read_int, read_int-int_bytes}

abbrev pub max_ip4_len : ℕ
max_ip4_len = 24

abbrev pub Text : Type 0
Text = List ℕ

pub record NodeIdentifierKey : Type 0 where
  pub port : ℤ
  pub ip4_address : List ℕ

-- The memory of a key, which the tables compare.
abbrev pub key_bytes : NodeIdentifierKey → List ℕ
key_bytes k = int_bytes k.port ++ k.ip4_address

-- `sizeof(NodeIdentifierKey)`
abbrev pub key_size : ℕ
key_size = 28

-- A key in memory.
abbrev pub key_of : List ℕ → NodeIdentifierKey
key_of bytes = record { port = read_int (take 4 bytes); ip4_address = drop 4 bytes }

-- `memset` to 0 and `strncpy`: the text, cut off at the size, and zeros behind it.
unfoldable pub padded : ℕ → Text → List ℕ
padded zero t = []
padded (suc n) [] = 0 ∷ padded n []
padded (suc n) (c ∷ t) = c ∷ padded n t

-- "127.0.0.1"
abbrev pub loopback : Text
loopback = 49 ∷ 50 ∷ 55 ∷ 46 ∷ 48 ∷ 46 ∷ 48 ∷ 46 ∷ 49 ∷ []

-- `operator==`
unfoldable pub eqb_node_key : NodeIdentifierKey → NodeIdentifierKey → Bool
eqb_node_key a b = eqb_key (key_bytes a) (key_bytes b)

-- The text in front of the first `:`, and what is behind it.
unfoldable pub split_colon : Text → Text × Option Text
split_colon [] = ([], none)
split_colon (c ∷ t) =
    let (front, back) = split_colon t in if c == 58 then ([], some t) else (c ∷ front, back)

-- The text of a remote address; `own` is the own address that the operating system gives.
unfoldable pub set_ip4_address2 : Text → Text → NodeIdentifierKey → NodeIdentifierKey
unfolding padded
set_ip4_address2 own remote k = record k {
  ip4_address = padded max_ip4_len (if eqb_key remote loopback then own else remote);
}

-- The host names are resolved by the operating system.
module _ (resolve : Text → Option Text) (own : Text) where
  -- The field after `set_ip4Address1`.
  unfoldable pub ip4_address1 : Text → List ℕ
  unfolding padded
  ip4_address1 host =
      let ip : Text = elim (resolve host) [ some t ↦ t | none ↦ host ] in
      padded max_ip4_len (if eqb_key ip loopback then own else ip)

  unfoldable pub set_ip4_address1 : Text → NodeIdentifierKey → NodeIdentifierKey
  unfolding ip4_address1
  set_ip4_address1 host k = record k { ip4_address = ip4_address1 host }

  -- `atoi` is the library's.
  unfoldable pub set_address_and_port :
      (Text → ℤ) → Text → ℤ → NodeIdentifierKey → NodeIdentifierKey
  unfolding split_colon set_ip4_address1
  set_address_and_port atoi text default k =
      let (host, port) = split_colon text in
      set_ip4_address1 host (record k { port = elim port [ some t ↦ atoi t | none ↦ default ] })

  unfoldable pub is_same : Text → ℤ → NodeIdentifierKey → Bool
  unfolding set_ip4_address1 eqb_node_key
  is_same host port k =
      if eqb_ℤ k.port port
      then eqb_node_key (set_ip4_address1 host (record { port = port; ip4_address = [] })) k
      else false

  unfoldable pub generate_key : Text → ℤ → List ℕ
  unfolding set_ip4_address1
  generate_key host port =
      key_bytes
        (record (set_ip4_address1 host (record { port = pos 0; ip4_address = [] })) { port = port })

-- The address in a field always has its size.
pub length-padded : (n : ℕ) (t : Text) → length (padded n t) ≡ n
unfolding padded
length-padded zero t = refl
length-padded (suc n) [] = ap suc (length-padded n [])
length-padded (suc n) (c ∷ t) = ap suc (length-padded n t)

-- Two ports are equal if the bytes of their keys are.
pub eqb_key-port :
    (k l : NodeIdentifierKey)
    → IsInt k.port
    → IsInt l.port
    → eqb_key (key_bytes k) (key_bytes l) ≡ true
    → k.port ≡ l.port
eqb_key-port k l hk hl h =
    sym (read_int-int_bytes k.port hk)
    ∙ ap (λ (bs : List ℕ). read_int (take 4 bs)) (eqb_key→eq (key_bytes k) (key_bytes l) h)
    ∙ read_int-int_bytes l.port hl

ports_differ : (p q : ℤ) → eqb_ℤ q p ≡ false → p ≢ q
ports_differ p q h e = ground arith

-- A node is the one with a host and port exactly if its key is the one generated from them.
pub is_same-generate_key :
    (resolve : Text → Option Text) (own : Text) (host : Text) (port : ℤ) (k : NodeIdentifierKey)
    → IsInt port
    → IsInt k.port
    → is_same resolve own host port k ≡ eqb_key (generate_key resolve own host port) (key_bytes k)
unfolding is_same generate_key set_ip4_address1 eqb_node_key
is_same-generate_key resolve own host port k h hk = elim (Bool-cases (eqb_ℤ k.port port)) [
  | inl e ↦ rw e refl
  | inr e ↦ elim (Bool-cases (eqb_key (generate_key resolve own host port) (key_bytes k))) [
    | inl same ↦
        let l : NodeIdentifierKey = record {
          port = port;
          ip4_address = ip4_address1 resolve own host;
        } in
        absurd (ports_differ port k.port e (eqb_key-port l k h hk same))
    | inr differ ↦ rw (e, differ) refl
  ]
]
