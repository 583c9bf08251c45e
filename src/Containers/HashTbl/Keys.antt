-- ===== src/Containers/HashTbl/Keys.antt =====
-- Keys and their equality test.
use mathlib.Core.Path.{ap₂, subst}
use mathlib.Core.Bool.{true≢false}
use cpp_raft.Base.{
  ◌==◌, ==_iff, ==_refl, Bool-cases, ℕ, ◌≡◌, refl, sym, ◌∙◌, inl, inr, true, false, List, [], ◌∷◌,
  arith,
}
use cpp_raft.Containers.HashTbl.{eqb_key}

pub eqb_key_refl : (k : List ℕ) → eqb_key k k ≡ true
eqb_key_refl [] = refl
eqb_key_refl (x ∷ xs) = rw (==_refl x) (eqb_key_refl xs)

pub eqb_key→eq : (k l : List ℕ) → eqb_key k l ≡ true → k ≡ l
eqb_key→eq [] [] h = refl
eqb_key→eq [] (y ∷ ys) h = absurd (ground arith)
eqb_key→eq (x ∷ xs) [] h = absurd (ground arith)
eqb_key→eq (x ∷ xs) (y ∷ ys) h = elim (Bool-cases (x == y)) [
  | inl e ↦
      let rest = eqb_key→eq xs ys (sym (rw e refl) ∙ h) in
      ap₂ (λ (n : ℕ) (ns : List ℕ). n ∷ ns) ((==_iff x y).0 e) rest
  | inr e ↦ absurd (ground arith)
]

pub eqb_key-apart :
    (k key l : List ℕ) → eqb_key k l ≡ true → eqb_key key l ≡ false → eqb_key k key ≡ false
eqb_key-apart k key l h apart = elim (Bool-cases (eqb_key k key)) [
  | inr e ↦ e
  | inl e ↦
      let equal = subst (λ (x : List ℕ). eqb_key x l ≡ true) (eqb_key→eq k key e) h in
      absurd (true≢false (sym equal ∙ apart))
]

pub eqb_key_sym : (k l : List ℕ) → eqb_key k l ≡ false → eqb_key l k ≡ false
eqb_key_sym k l h = elim (Bool-cases (eqb_key l k)) [
  | inr e ↦ e
  | inl e ↦
      let equal =
        subst (λ (x : List ℕ). eqb_key k x ≡ true) (sym (eqb_key→eq l k e)) (eqb_key_refl k) in
      absurd (true≢false (sym equal ∙ h))
]
