-- ===== src/Tcp/Connect/Extra.antt =====
-- Reading the extra data that a peer of the same byte order has sent.
use cpp_raft.Base.{
  ==_refl, length, ltb_ℤ, pos, ℕ, suc, ◌+◌, ◌^◌, ◌<◌, ◌≡◌, refl, true, some, List, [], ◌∷◌, ◌++◌,
  arith,
}
use cpp_raft.Sockets.Stream.{SocketTcp, is_open_c, read_c-append}
use cpp_raft.Tcp.Bytes.{int_bytes, read_int, read_int-int_bytes}
use cpp_raft.Tcp.Connect.{receive_extra_data}

abbrev pub extra_bytes : List ℕ → List ℕ
extra_bytes extra = int_bytes (pos (length extra)) ++ extra

length_int : (n : ℕ) → n < 2 ^ 31 → read_int (int_bytes (pos n)) ≡ pos n
length_int n h = read_int-int_bytes (pos n) (omega (arith, h))

-- The length and the data are taken off what has come.
pub receive_extra_data-append :
    (extra rest : List ℕ) (s : SocketTcp)
    → length extra < 2 ^ 31
    → is_open_c s ≡ true
    → s.incoming ≡ extra_bytes extra ++ rest
    → receive_extra_data 0 s ≡ (some extra, record s { incoming = rest })
unfolding receive_extra_data is_open_c
receive_extra_data-append [] rest s h op e =
    rw (read_c-append 4 (int_bytes (pos 0)) rest s refl op e, length_int 0 h) refl
receive_extra_data-append (b ∷ bs) rest s h op e =
    let bytes = int_bytes (pos (suc (length bs))) in
    let positive : ltb_ℤ (pos 0) (pos (suc (length bs))) ≡ true = ground arith in
    let behind : SocketTcp = record s { incoming = b ∷ bs ++ rest } in
    rw
      (
        read_c-append 4 bytes (b ∷ bs ++ rest) s refl op e,
        length_int (suc (length bs)) h,
        positive,
        read_c-append (suc (length bs)) (b ∷ bs) rest behind refl op refl,
        ==_refl (suc (length bs) + 0),
      )
      refl
