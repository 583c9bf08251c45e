-- ===== src/Sockets/Connecting.antt =====
-- common_sockettcp.cpp: `connectC`. What the calls of the operating system answer is an argument.
use cpp_raft.Base.{
  if◌then◌else◌, ℤ, ltb_ℤ, eqb_ℤ, pos, negsuc, ℕ, ◌≡◌, ◌⊎◌, Bool, true, not, ◌&&◌, List, [], arith,
}
use cpp_raft.Sockets.Stream.{SendAnswer, SocketTcp, close_c, is_open_c}

-- The descriptor of `socket`; what `gethostname` returns; whether `inet_addr` knows the name, and
-- whether `gethostbyname` does, with an address; what `connect` and `select` return, with the
-- meaning of `errno` behind each; whether the socket is in the set. Behind them stand the bytes of
-- the peer, and what `send` will answer.
pub record ConnectAnswers : Type 0 where
  pub socket : ℤ
  pub gethostname : ℤ
  pub is_address : Bool
  pub has_entry : Bool
  pub entry_is_address : Bool
  pub connect : ℤ
  pub in_progress : Bool
  pub select : ℤ
  pub interrupted : Bool
  pub is_set : Bool
  pub incoming : List ℕ
  pub answers : List SendAnswer

abbrev pub e_fatal : ℤ
e_fatal = negsuc 0

abbrev pub e_no_connect : ℤ
e_no_connect = negsuc 7

abbrev pub e_no_socket : ℤ
e_no_socket = negsuc 17

abbrev pub e_select : ℤ
e_select = negsuc 27

abbrev pub e_unknown_host : ℤ
e_unknown_host = negsuc 37

abbrev pub socket_timeout : ℤ
socket_timeout = negsuc 2000

-- `-EINTR`, with the number of Linux
abbrev pub eintr_error : ℤ
eintr_error = negsuc 3

unfoldable pub opened : ConnectAnswers → SocketTcp
opened a = record { socket = a.socket; incoming = a.incoming; outgoing = []; answers = a.answers }

-- What `select` says of a connection in progress.
unfoldable pub wait_connected : ConnectAnswers → ℤ
wait_connected a =
    if eqb_ℤ a.select (pos 0)
    then socket_timeout
    else if eqb_ℤ a.select (negsuc 0)
    then (if a.interrupted then eintr_error else e_select)
    else if a.is_set
    then pos 0
    else e_fatal

-- The Boolean says whether the name is null or empty. An error leaves the new socket open.
unfoldable pub connect_c : Bool → ConnectAnswers → SocketTcp → ℤ × SocketTcp
unfolding wait_connected opened close_c
connect_c no_name a s =
    if ltb_ℤ a.socket (pos 0)
    then (e_no_socket, close_c s)
    else if no_name && ltb_ℤ a.gethostname (pos 0)
    then (e_unknown_host, opened a)
    else if not a.is_address && not (a.has_entry && a.entry_is_address)
    then (e_unknown_host, opened a)
    else if eqb_ℤ a.connect (pos 0)
    then (pos 0, opened a)
    else if a.in_progress
    then (wait_connected a, opened a)
    else (e_no_connect, opened a)

-- Connecting returns 0 with the new socket open, or a negative code.
pub connect_c-code :
    (no_name : Bool) (a : ConnectAnswers) (s : SocketTcp)
    → let (r, t) = connect_c no_name a s in
      ((r ≡ pos 0) × (t ≡ opened a) × (is_open_c t ≡ true)) ⊎ (ltb_ℤ r (pos 0) ≡ true)
unfolding connect_c wait_connected opened is_open_c
connect_c-code no_name a s = ground arith
