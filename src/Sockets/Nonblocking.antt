-- ===== src/Sockets/Nonblocking.antt =====
-- common_nonblockingsockettcp.cpp: the socket that tells what went wrong by the negated `errno`. As
-- for the other kind, what the operating system answers is an argument, or a part of the socket.
use cpp_raft.Base.{
  if◌then◌else◌, Bool-cases, length, is_empty, take, drop, ℤ, ltb_ℤ, eqb_ℤ, eqb_ℤ→eq, pos, negsuc,
  ℕ, zero, suc, ◌≡◌, refl, sym, inl, inr, Bool, true, not, ◌&&◌, Option, none, some, List, [],
  arith,
}
use cpp_raft.Sockets.Stream.{SocketTcp, e_send, is_open_c, close_c, write_loop}
use cpp_raft.Sockets.Connecting.{
  ConnectAnswers, e_no_connect, e_no_socket, e_unknown_host, wait_connected, opened, connect_c,
}
use cpp_raft.Sockets.Addresses.{Time, receive_timeout, set_timeout}

pub record NonblockingSocketTcp : Type 0 where
  pub tcp : SocketTcp
  pub timeout : Option Time

abbrev pub with_tcp : SocketTcp → NonblockingSocketTcp
with_tcp s = record { tcp = s; timeout = none }

-- The socket is made to wait again, and has the time for connecting as its time for reading.
unfoldable pub set_connected : Bool → ℤ → ConnectAnswers → ℤ × NonblockingSocketTcp
unfolding opened set_timeout
set_connected accepted ms a =
    (pos 0, record { tcp = opened a; timeout = (set_timeout accepted ms none).1 })

-- `connectC`: the Booleans say whether the name is null or empty, and whether `setsockopt` takes the
-- time.
unfoldable pub nonblocking_connect_c :
    Bool → Bool → ℤ → ConnectAnswers → NonblockingSocketTcp → ℤ × NonblockingSocketTcp
unfolding wait_connected set_connected close_c
nonblocking_connect_c no_name accepted ms a s =
    if ltb_ℤ a.socket (pos 0)
    then (e_no_socket, record s { tcp = close_c s.tcp })
    else if no_name && ltb_ℤ a.gethostname (pos 0)
    then (e_unknown_host, with_tcp (opened a))
    else if not a.is_address && not (a.has_entry && a.entry_is_address)
    then (e_unknown_host, with_tcp (opened a))
    else if eqb_ℤ a.connect (pos 0)
    then set_connected accepted ms a
    else if a.in_progress
    then (if eqb_ℤ (wait_connected a) (pos 0)
        then set_connected accepted ms a
        else (wait_connected a, with_tcp (opened a)))
    else (e_no_connect, with_tcp (opened a))

-- `EBADF`
abbrev pub ebadf : ℕ
ebadf = 9

-- The result of a `recv` that fails: the negated `errno`, if there is one.
abbrev pub negated_errno : ℤ → ℤ
negated_errno (pos zero) = negsuc 0
negated_errno (pos (suc n)) = negsuc n
negated_errno (negsuc n) = negsuc n

-- `readC`, where `recv` may fail with an `errno`, as it does on a socket that is not open.
unfoldable pub nonblocking_read_c :
    ℕ → Option ℤ → NonblockingSocketTcp → ℤ × List ℕ × NonblockingSocketTcp
unfolding is_open_c
nonblocking_read_c n failure s =
    if is_open_c s.tcp
    then elim failure [
      | some errno ↦ (negated_errno errno, [], s)
      | none ↦ (
        pos (length (take n s.tcp.incoming)),
        take n s.tcp.incoming,
        record s { tcp = record s.tcp { incoming = drop n s.tcp.incoming } },
      )
    ]
    else (negated_errno (pos ebadf), [], s)

-- `writeC`, whose loop is that of the other kind of socket.
unfoldable pub nonblocking_write_c : List ℕ → NonblockingSocketTcp → ℤ × NonblockingSocketTcp
unfolding write_loop is_open_c
nonblocking_write_c bytes s =
    if is_open_c s.tcp
    then (let (r, out, answers) = write_loop s.tcp.answers 0 bytes 0 s.tcp.outgoing in
        (r, record s { tcp = record s.tcp { outgoing = out; answers = answers } }))
    else (if is_empty bytes then pos 0 else e_send, s)

abbrev behind_wait : Bool → ℤ → ConnectAnswers → ℤ × NonblockingSocketTcp
behind_wait accepted ms a =
    if eqb_ℤ (wait_connected a) (pos 0)
    then set_connected accepted ms a
    else (wait_connected a, with_tcp (opened a))

waited :
    (accepted : Bool) (ms : ℤ) (a : ConnectAnswers)
    → ((behind_wait accepted ms a).0 ≡ wait_connected a)
      × ((behind_wait accepted ms a).1.tcp ≡ opened a)
      × ((behind_wait accepted ms a).1.timeout ≡ (
          if eqb_ℤ (wait_connected a) (pos 0) && accepted then some (receive_timeout ms) else none))
unfolding set_connected set_timeout
waited accepted ms a = elim (Bool-cases (eqb_ℤ (wait_connected a) (pos 0))) [
  | inl e ↦ rw e (sym (eqb_ℤ→eq (wait_connected a) (pos 0) e), refl, ground arith)
  | inr e ↦ rw e (refl, refl, refl)
]

negated_errno-negative : (errno : ℤ) → ltb_ℤ (negated_errno errno) (pos 0) ≡ true
negated_errno-negative (pos zero) = refl
negated_errno-negative (pos (suc n)) = ground arith
negated_errno-negative (negsuc n) = ground arith

-- The time for reading behind a connect: what is set if it succeeds and the system takes it, the
-- old one if no socket was made, and none otherwise.
abbrev pub reading_time : Bool → ℤ → ConnectAnswers → NonblockingSocketTcp → ℤ → Option Time
reading_time accepted ms a s result =
    if ltb_ℤ a.socket (pos 0)
    then s.timeout
    else if eqb_ℤ result (pos 0) && accepted
    then some (receive_timeout ms)
    else none

-- Connecting gives the same result, and leaves the same socket, as connecting one of the other kind.
-- If it succeeds and the system takes the time, the time for reading is the one given for
-- connecting; if no socket was made it stays, and otherwise there is none.
pub nonblocking_connect_c-connect_c :
    (no_name accepted : Bool) (ms : ℤ) (a : ConnectAnswers) (s : NonblockingSocketTcp)
    → ((nonblocking_connect_c no_name accepted ms a s).0 ≡ (connect_c no_name a s.tcp).0)
      × ((nonblocking_connect_c no_name accepted ms a s).1.tcp ≡ (connect_c no_name a s.tcp).1)
      × ((nonblocking_connect_c no_name accepted ms a s).1.timeout
          ≡ reading_time accepted ms a s (connect_c no_name a s.tcp).0)
unfolding nonblocking_connect_c connect_c set_connected set_timeout
nonblocking_connect_c-connect_c no_name accepted ms a s =
    elim (Bool-cases (ltb_ℤ a.socket (pos 0))) [
      | inl e ↦ rw e (refl, refl, refl)
      | inr e ↦ elim (Bool-cases (no_name && ltb_ℤ a.gethostname (pos 0))) [
        | inl f ↦ rw (e, f) (refl, refl, refl)
        | inr f ↦ elim (Bool-cases (not a.is_address && not (a.has_entry && a.entry_is_address))) [
          | inl g ↦ rw (e, f, g) (refl, refl, refl)
          | inr g ↦ elim (Bool-cases (eqb_ℤ a.connect (pos 0))) [
            | inl h ↦ rw (e, f, g, h) (refl, refl, ground arith)
            | inr h ↦ elim (Bool-cases a.in_progress) [
              | inr k ↦ rw (e, f, g, h, k) (refl, refl, refl)
              | inl k ↦ rw (e, f, g, h, k) (waited accepted ms a)
            ]
          ]
        ]
      ]
    ]

-- A read that fails has a negative result, and neither takes a byte nor gives one.
pub nonblocking_read_c-failure :
    (n : ℕ) (errno : ℤ) (s : NonblockingSocketTcp)
    → let (r, bytes, t) = nonblocking_read_c n (some errno) s in
      (ltb_ℤ r (pos 0) ≡ true) × (bytes ≡ []) × (t ≡ s)
unfolding nonblocking_read_c
nonblocking_read_c-failure n errno s = elim (Bool-cases (is_open_c s.tcp)) [
  | inl e ↦ rw e (negated_errno-negative errno, refl, refl)
  | inr e ↦ rw e (refl, refl, refl)
]
