-- ===== src/Tcp/Connect.antt =====
-- tcp/raft_tcp_common.cpp: how a connection to a node starts.
pub mod Extra
use cpp_raft.Base.{
  ltb, leb, ◌==◌, if◌then◌else◌, to_nat, ==_iff, ==_refl, Bool-cases, Option-cases, length,
  is_empty, get_elem?, set, get_last?, take, drop, replicate, take-append-drop, take-append,
  drop-append, length-append, length-take_le, get_elem?-take, get_elem?-eq_none, get_elem?-some,
  get_elem?-append_lt, get_elem?-append_last, length-set, get_elem?-set_self, get_elem?-set_ne,
  get_last?-append, has, ℤ, pos_part, neg_part, sub_ℕ, ◌+ℤ◌, ◌-ℤ◌, ◌≤ℤ◌, ◌<ℤ◌, ltb_ℤ, leb_ℤ, eqb_ℤ,
  half_ℤ, to_int, to_unsigned, +ℤ_parts, -ℤ_parts, eq_of_parts, eqb_ℤ→eq, ne→eqb_ℤ, +ℤ_assoc,
  +ℤ-pos, -ℤ-pos, suc-sub-one, int_laws, pos, negsuc, ℕ, zero, suc, ◌+◌, ◌-◌, ◌*◌, ◌/◌, ◌%◌, ◌^◌,
  ◌≤◌, ◌<◌, ◌≡◌, refl, sym, ap, ◌∙◌, ◌≢◌, ◌↔◌, ◌⊎◌, inl, inr, Bool, true, false, not, ◌&&◌, ◌||◌,
  Option, none, some, List, [], ◌∷◌, ◌++◌, map, arith,
}
use cpp_raft.Sockets.Stream.{SocketTcp, read_c, write_c, close_c}
use cpp_raft.Sockets.Connecting.{ConnectAnswers, connect_c}
use cpp_raft.Tcp.Bytes.{word_bytes, swap_int, int_bytes, read_int}
use cpp_raft.Tcp.Keys.{Text, NodeIdentifierKey}
use cpp_raft.Tcp.Requests.{error_response}

-- Is the text in a field empty?
abbrev pub is_empty_text : List ℕ → Bool
is_empty_text [] = true
is_empty_text (c ∷ cs) = c == 0

-- `uint16_t` from two bytes
abbrev pub read_half : List ℕ → ℕ
read_half (a ∷ b ∷ []) = a + 256 * b
read_half _ = 0

-- Sends the request behind the byte order of the peer; the result is `isEndianDiffer`, or none
-- where the function returns false.
unfoldable pub exchange_endian : ℕ → SocketTcp → Option ℕ × SocketTcp
unfolding read_c write_c close_c
exchange_endian request s =
    let (r, bytes, t) = read_c 2 s in
    if eqb_ℤ r (pos 2)
    then (let (w, u) = write_c (word_bytes request) t in
        if eqb_ℤ w (pos 4)
        then (some (if read_half bytes == 1 then 0 else 1), u)
        else (none, close_c u))
    else (none, close_c t)

-- The timeouts of the socket are left to the operating system.
unfoldable pub connect_and_get_endian2 :
    NodeIdentifierKey → ℕ → ConnectAnswers → SocketTcp → Option ℕ × SocketTcp
unfolding connect_c close_c exchange_endian
connect_and_get_endian2 key request a s =
    let (code, t) = connect_c (is_empty_text key.ip4_address) a s in
    if eqb_ℤ code (pos 0) then exchange_endian request t else (none, close_c t)

unfoldable pub send_error_with_string : Text → SocketTcp → SocketTcp
unfolding write_c
send_error_with_string text s =
    let (_, t) = write_c (int_bytes error_response) s in
    let (_, u) = write_c (int_bytes (pos (length text))) t in let (_, v) = write_c text u in v

-- `Server::ReceiveExtraData`: the data, or none where it returns false.
unfoldable pub receive_extra_data : ℕ → SocketTcp → Option (List ℕ) × SocketTcp
receive_extra_data is_endian_differ s =
    let (r, bytes, t) = read_c 4 s in
    if eqb_ℤ r (pos 4)
    then (let n = if is_endian_differ == 0 then read_int bytes else swap_int (read_int bytes) in
        if ltb_ℤ (pos 0) n
        then (let (q, content, u) = read_c (pos_part n) t in
            (if eqb_ℤ q n then some content else none, u))
        else (some [], t))
    else (none, t)
