-- ===== src/Sums.antt =====
-- Sums of a weight over a list, such as the threads at the points of their code.
use cpp_raft.Base.{◌==◌, to_nat, ℕ, ◌+◌, ◌≡◌, List, [], ◌∷◌, ◌++◌, arith}

module _ {ℓ} {A : Type ℓ} where
  abbrev pub total : (A → ℕ) → List A → ℕ
  total w [] = 0
  total w (p ∷ ps) = w p + total w ps

  pub total-middle :
      (w : A → ℕ) (xs : List A) (p : A) (ys : List A)
      → total w (xs ++ p ∷ ys) ≡ w p + (total w xs + total w ys)
  total-middle w [] p ys = omega arith
  total-middle w (x ∷ xs) p ys = omega (arith, total-middle w xs p ys)

-- How often a number is in a list.
abbrev pub times : ℕ → List ℕ → ℕ
times i [] = 0
times i (n ∷ ns) = to_nat (i == n) + times i ns

pub times-append : (i : ℕ) (xs ys : List ℕ) → times i (xs ++ ys) ≡ times i xs + times i ys
times-append i [] ys = omega arith
times-append i (x ∷ xs) ys = omega (arith, times-append i xs ys)
