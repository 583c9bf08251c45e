-- ===== src/Containers/HashTbl/Hash.antt =====
-- `hash1_` and `mix2`, on words of 64 bits.
use Prim.Native.Nat.{bit_xor}
use cpp_raft.Base.{
  ltb, if◌then◌else◌, length, get_elem?, drop, ℕ, zero, suc, ◌+◌, ◌-◌, ◌*◌, ◌/◌, ◌%◌, ◌^◌, none,
  some, List,
}

-- `size_t` arithmetic, which wraps.
abbrev pub word : ℕ → ℕ
word n = n % 2 ^ 64

-- For words `a` and `b`.
abbrev pub sub_word : ℕ → ℕ → ℕ
sub_word a b = word (a + 2 ^ 64 - b)

-- One line of `mix2`: two subtractions, and the exclusive or with a shifted word.
abbrev pub mix_line : ℕ → ℕ → ℕ → ℕ → ℕ
mix_line a b c shifted = bit_xor (sub_word (sub_word a b) c) shifted

-- Three lines: the first shifts right by `r`, the second left by `l`, the third right by `s`.
unfoldable pub mix_round : ℕ → ℕ → ℕ → ℕ × ℕ × ℕ → ℕ × ℕ × ℕ
mix_round r l s (a, b, c) =
    let a' = mix_line a b c (c / 2 ^ r) in
    let b' = mix_line b c a' (word (a' * 2 ^ l)) in
    let c' = mix_line c a' b' (b' / 2 ^ s) in (a', b', c')

unfoldable pub mix2 : ℕ × ℕ × ℕ → ℕ × ℕ × ℕ
unfolding mix_round
mix2 abc = mix_round 3 10 15 (mix_round 12 16 5 (mix_round 13 8 13 abc))

-- The byte at a place, shifted left.
abbrev pub byte_at : List ℕ → ℕ → ℕ → ℕ
byte_at k i shift = elim (get_elem? k i) [ none ↦ 0 | some b ↦ b * 2 ^ shift ]

-- Four bytes from a place on, the lowest first; a byte behind the key counts nothing.
abbrev pub four_bytes : List ℕ → ℕ → ℕ
four_bytes k i = byte_at k i 0 + byte_at k (i + 1) 8 + byte_at k (i + 2) 16 + byte_at k (i + 3) 24

-- The switch over the rest of fewer than 12 bytes: the lowest byte of `c` is left to the length.
unfoldable pub last_bytes : List ℕ → ℕ × ℕ × ℕ → ℕ × ℕ × ℕ
last_bytes k (a, b, c) = (
  word (a + four_bytes k 0),
  word (b + four_bytes k 4),
  word (c + byte_at k 8 8 + byte_at k 9 16 + byte_at k 10 24),
)

-- The loop over the blocks of 12 bytes; the fuel is more than their number.
unfoldable pub blocks : ℕ → List ℕ → ℕ × ℕ × ℕ → List ℕ × (ℕ × ℕ × ℕ)
unfolding mix2
blocks zero k abc = (k, abc)
blocks (suc fuel) k (a, b, c) =
    let next =
      mix2 (word (a + four_bytes k 0), word (b + four_bytes k 4), word (c + four_bytes k 8)) in
    let rest = blocks fuel (drop 12 k) next in if ltb (length k) 12 then (k, (a, b, c)) else rest

unfoldable pub hash1 : List ℕ → ℕ
unfolding blocks last_bytes mix2
hash1 key =
    let golden : ℕ = 0x9e3779b9 in
    let (k, (a, b, c)) = blocks (length key) key (golden, golden, 13) in
    let (a', b', c') = mix2 (last_bytes k (a, b, word (c + length key))) in c'
