-- ===== src/Tcp/Bytes.antt =====
-- tcp/raft_tcp_common.hpp and common/raft_common_functions.cpp: numbers of 32 bits as bytes, the
-- lowest first, and the swap of their order.
use cpp_raft.Base.{
  ltb, if◌then◌else◌, ℤ, pos_part, neg_part, to_int, to_unsigned, pos, negsuc, ℕ, ◌+◌, ◌*◌, ◌/◌,
  ◌%◌, ◌^◌, ◌<◌, ◌≡◌, ap, ◌∙◌, List, [], ◌∷◌, arith,
}

-- The bytes of a number of 32 bits, in the order of the addresses.
pub record Bytes4 : Type 0 where
  pub byte0 : ℕ
  pub byte1 : ℕ
  pub byte2 : ℕ
  pub byte3 : ℕ

abbrev pub bytes_of : ℕ → Bytes4
bytes_of u = record {
  byte0 = u % 256;
  byte1 = u / 256 % 256;
  byte2 = u / 65536 % 256;
  byte3 = u / 16777216 % 256;
}

abbrev pub word_of : Bytes4 → ℕ
word_of v = v.byte0 + 256 * v.byte1 + 65536 * v.byte2 + 16777216 * v.byte3

-- `raft_swap_4_bytes`, one assignment after the other.
unfoldable pub swap_bytes : Bytes4 → Bytes4
swap_bytes v =
    let temp = v.byte0 in
    let v1 = record v { byte0 = v.byte3 } in
    let v2 = record v1 { byte0 = temp } in
    let temp2 = v2.byte1 in let v3 = record v2 { byte1 = v2.byte2 } in record v3 { byte2 = temp2 }

unfoldable pub swap_4_bytes : ℕ → ℕ
unfolding swap_bytes
swap_4_bytes u = word_of (swap_bytes (bytes_of u))

unfoldable pub swap_int : ℤ → ℤ
unfolding swap_4_bytes to_int to_unsigned
swap_int i = to_int (swap_4_bytes (to_unsigned i))

abbrev pub max_request_number_prvt : ℕ
max_request_number_prvt = 0xffff

-- `IS_ENDIAN_DIFFER_AND_REQUEST`: the value, and the request behind the macro.
unfoldable pub is_endian_differ_and_request : ℕ → ℕ × ℕ
unfolding swap_4_bytes
is_endian_differ_and_request r =
    if ltb r max_request_number_prvt then (0, r) else (1, swap_4_bytes r)

-- A number as it is read from memory that a machine of the other byte order wrote.
abbrev pub foreign : ℕ → ℕ
foreign u =
    let v = bytes_of u in
    word_of (record { byte0 = v.byte3; byte1 = v.byte2; byte2 = v.byte1; byte3 = v.byte0 })

-- Memory as it is written to a socket, and back.
abbrev pub word_bytes : ℕ → List ℕ
word_bytes u = let v = bytes_of u in v.byte0 ∷ v.byte1 ∷ v.byte2 ∷ v.byte3 ∷ []

abbrev pub read_word : List ℕ → ℕ
read_word (a ∷ b ∷ c ∷ d ∷ []) = word_of (record { byte0 = a; byte1 = b; byte2 = c; byte3 = d })
read_word _ = 0

abbrev pub int_bytes : ℤ → List ℕ
int_bytes i = word_bytes (to_unsigned i)

abbrev pub read_int : List ℕ → ℤ
read_int bs = to_int (read_word bs)

abbrev pub IsWord : ℕ → Type 0
IsWord u = u < 2 ^ 32

abbrev pub IsInt : ℤ → Type 0
IsInt i = pos_part i + neg_part i < 2 ^ 31

pub read_word-word_bytes : (u : ℕ) → IsWord u → read_word (word_bytes u) ≡ u
read_word-word_bytes u h = omega arith

pub to_unsigned-IsWord : (i : ℤ) → IsWord (to_unsigned i)
unfolding to_unsigned
to_unsigned-IsWord (pos n) = omega arith
to_unsigned-IsWord (negsuc n) = omega arith

pub to_int-to_unsigned : (i : ℤ) → IsInt i → to_int (to_unsigned i) ≡ i
unfolding to_int to_unsigned
to_int-to_unsigned (pos n) h = ground arith
to_int-to_unsigned (negsuc n) h = ground arith

pub read_int-int_bytes : (i : ℤ) → IsInt i → read_int (int_bytes i) ≡ i
read_int-int_bytes i h =
    ap to_int (read_word-word_bytes (to_unsigned i) (to_unsigned-IsWord i)) ∙ to_int-to_unsigned i h

-- Swapping the bytes of a number of 32 bits twice gives the number back, and a number stays below
-- 2 ^ 32.
pub swap_4_bytes_twice :
    (u : ℕ) → IsWord u → (swap_4_bytes (swap_4_bytes u) ≡ u) × IsWord (swap_4_bytes u)
unfolding swap_4_bytes swap_bytes
swap_4_bytes_twice u h = (omega arith, omega arith)

foreign_small : (n : ℕ) → n < 256 → foreign n ≡ n * 2 ^ 24
foreign_small n h = omega arith

swap_4_bytes_high : (n : ℕ) → n < 256 → swap_4_bytes (n * 2 ^ 24) ≡ n * 2 ^ 24
unfolding swap_4_bytes swap_bytes
swap_4_bytes_high n h = omega arith

foreign_request :
    (n : ℕ) → 0 < n → n < 256 → is_endian_differ_and_request (n * 2 ^ 24) ≡ (1, n * 2 ^ 24)
unfolding is_endian_differ_and_request
foreign_request n h k = ground (arith, swap_4_bytes_high n k)

-- A request between 1 and 255 from a machine of the same byte order is taken as it is. One from a
-- machine of the other byte order is seen to be foreign, but the swap leaves its first and last
-- bytes where they are, so that the request stays the number that came.
pub is_endian_differ_and_request-foreign :
    (n : ℕ)
    → 0 < n
    → n < 256
    → (is_endian_differ_and_request n ≡ (0, n))
      × (is_endian_differ_and_request (foreign n) ≡ (1, foreign n))
      × (foreign n ≡ n * 2 ^ 24)
unfolding is_endian_differ_and_request
is_endian_differ_and_request-foreign n h k =
    (ground arith, rw (foreign_small n k) (foreign_request n h k), foreign_small n k)
