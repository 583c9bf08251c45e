-- ===== src/Server/Members/Keys.antt =====
-- Finding nodes by their keys before and after the additions and removals.
use mathlib.Core.Path.{subst}
use mathlib.Core.Bool.{true≢false}
use mathlib.Core.Option.{some-injective, none-ne-some}
use cpp_raft.Base.{
  ◌==◌, if◌then◌else◌, ==_iff, ==_refl, Bool-cases, has, ℕ, ◌≡◌, refl, sym, ap, ◌∙◌, ◌≢◌, inl, inr,
  true, false, Option, none, some, List, [], ◌∷◌, ◌++◌, arith,
}
use cpp_raft.Node.{Ptr, RaftNode}
use cpp_raft.Containers.HashTbl.{eqb_key}
use cpp_raft.Containers.HashTbl.Keys.{eqb_key→eq, eqb_key-apart, eqb_key_sym}
use cpp_raft.Server.Members.{eqb_key, find_entry, erase_ptr}

-- The first of two results, or else the second.
abbrev pub or_else : Option Ptr → Option Ptr → Option Ptr
or_else (some p) o = some p
or_else none o = o

-- The keys of the listed nodes are pairwise different.
unfoldable pub Distinct : (Ptr → RaftNode) → List Ptr → Type 0
Distinct store [] = Unit
Distinct store (p ∷ ps) = (find_entry store (store p).key ps ≡ none) × Distinct store ps

pub find_entry-append :
    (store : Ptr → RaftNode) (key : List ℕ) (ps : List Ptr) (q : Ptr)
    → find_entry store key (ps ++ q ∷ [])
      ≡ or_else (find_entry store key ps) (if eqb_key key (store q).key then some q else none)
unfolding find_entry
find_entry-append store key [] q = refl
find_entry-append store key (p ∷ ps) q = elim (Bool-cases (eqb_key key (store p).key)) [
  | inl e ↦ rw e refl
  | inr e ↦ rw e (find_entry-append store key ps q)
]

-- What is found depends on the keys of the listed nodes only.
pub find_entry-store :
    (store store' : Ptr → RaftNode) (key : List ℕ) (ps : List Ptr)
    → ((q : Ptr) → has q ps ≡ true → (store' q).key ≡ (store q).key)
    → find_entry store' key ps ≡ find_entry store key ps
unfolding find_entry
find_entry-store store store' key [] same = refl
find_entry-store store store' key (p ∷ ps) same =
    let rest = find_entry-store store store' key ps (λ q h. same q (ground arith)) in
    rw (same p (rw (==_refl p) refl), rest) refl

find_nil : (store : Ptr → RaftNode) (key : List ℕ) (p : Ptr) → find_entry store key [] ≢ some p
unfolding find_entry
find_nil store key p h = none-ne-some p h

find_here :
    (store : Ptr → RaftNode) (key : List ℕ) (q : Ptr) (qs : List Ptr)
    → eqb_key key (store q).key ≡ true
    → find_entry store key (q ∷ qs) ≡ some q
unfolding find_entry
find_here store key q qs e = rw e refl

find_there :
    (store : Ptr → RaftNode) (key : List ℕ) (q : Ptr) (qs : List Ptr)
    → eqb_key key (store q).key ≡ false
    → find_entry store key (q ∷ qs) ≡ find_entry store key qs
unfolding find_entry
find_there store key q qs e = rw e refl

pub find_entry-key :
    (store : Ptr → RaftNode) (key : List ℕ) (ps : List Ptr) (p : Ptr)
    → find_entry store key ps ≡ some p
    → eqb_key key (store p).key ≡ true
find_entry-key store key [] p h = absurd (find_nil store key p h)
find_entry-key store key (q ∷ qs) p h = elim (Bool-cases (eqb_key key (store q).key)) [
  | inl e ↦
      let same = some-injective q p (sym (find_here store key q qs e) ∙ h) in
      subst (λ (r : Ptr). eqb_key key (store r).key ≡ true) same e
  | inr e ↦ find_entry-key store key qs p (sym (find_there store key q qs e) ∙ h)
]

-- Erasing the node found under a key, where the keys are different: nothing is found under the key
-- any more, and the same as before under any other.
pub find_entry-erase :
    (store : Ptr → RaftNode) (key : List ℕ) (ps : List Ptr) (p : Ptr)
    → Distinct store ps
    → find_entry store key ps ≡ some p
    → (k : List ℕ)
    → find_entry store k (erase_ptr p ps) ≡ (if eqb_key k key then none else find_entry store k ps)
unfolding erase_ptr Distinct
find_entry-erase store key [] p distinct h k = absurd (find_nil store key p h)
find_entry-erase store key (q ∷ qs) p (new, distinct) h k =
    elim (Bool-cases (eqb_key key (store q).key)) [
      | inl e ↦
          let same = some-injective q p (sym (find_here store key q qs e) ∙ h) in
          let at = eqb_key→eq key (store q).key e in
          elim (Bool-cases (eqb_key k key)) [
            | inl f ↦
                let gone =
                  ap (λ (x : List ℕ). find_entry store x qs) (eqb_key→eq k key f ∙ at) ∙ new in
                rw ((==_iff q p).1 same, f) gone
            | inr f ↦
                let there = subst (λ (x : List ℕ). eqb_key k x ≡ false) at f in
                rw ((==_iff q p).1 same, f) (sym (find_there store k q qs there))
          ]
      | inr e ↦
          let h' = sym (find_there store key q qs e) ∙ h in
          let found = find_entry-key store key qs p h' in
          let rest = find_entry-erase store key qs p distinct h' k in
          let other : (q == p) ≡ false = elim (Bool-cases (q == p)) [
            | inr f ↦ f
            | inl f ↦
                let equal =
                  subst (λ (r : Ptr). eqb_key key (store r).key ≡ false) ((==_iff q p).0 f) e in
                absurd (true≢false (sym found ∙ equal))
          ] in
          elim (Bool-cases (eqb_key k (store q).key)) [
            | inl f ↦
                rw (other, eqb_key-apart k key (store q).key f e)
                  (find_here store k q _ f ∙ sym (find_here store k q qs f))
            | inr f ↦
                rw other (find_there store k q _ f ∙ rest ∙ rw (find_there store k q qs f) refl)
          ]
    ]

-- Erasing adds nothing.
pub find_none-erase :
    (store : Ptr → RaftNode) (k : List ℕ) (p : Ptr) (ps : List Ptr)
    → find_entry store k ps ≡ none
    → find_entry store k (erase_ptr p ps) ≡ none
unfolding erase_ptr
find_none-erase store k p [] h = h
find_none-erase store k p (q ∷ qs) h = elim (Bool-cases (eqb_key k (store q).key)) [
  | inl e ↦ absurd (none-ne-some q (sym h ∙ find_here store k q qs e))
  | inr e ↦
      let h' = sym (find_there store k q qs e) ∙ h in
      elim (Bool-cases (q == p)) [
        | inl f ↦ rw f h'
        | inr f ↦ rw f (find_there store k q _ e ∙ find_none-erase store k p qs h')
      ]
]

pub Distinct-erase :
    (store : Ptr → RaftNode) (p : Ptr) (ps : List Ptr)
    → Distinct store ps
    → Distinct store (erase_ptr p ps)
unfolding erase_ptr Distinct
Distinct-erase store p [] h = h
Distinct-erase store p (q ∷ qs) (new, h) = elim (Bool-cases (q == p)) [
  | inl f ↦ rw f h
  | inr f ↦ rw f (find_none-erase store (store q).key p qs new, Distinct-erase store p qs h)
]

pub Distinct-store :
    (store store' : Ptr → RaftNode) (ps : List Ptr)
    → ((q : Ptr) → has q ps ≡ true → (store' q).key ≡ (store q).key)
    → Distinct store ps
    → Distinct store' ps
unfolding Distinct
Distinct-store store store' [] same h = h
Distinct-store store store' (p ∷ ps) same (new, h) =
    let within : (q : Ptr) → has q ps ≡ true → (store' q).key ≡ (store q).key =
      λ q h. same q (ground arith) in
    (
      find_entry-store store store' (store' p).key ps within
          ∙ ap (λ (k : List ℕ). find_entry store k ps) (same p (rw (==_refl p) refl))
          ∙ new,
      Distinct-store store store' ps within h,
    )

pub Distinct-append :
    (store : Ptr → RaftNode) (q : Ptr) (ps : List Ptr)
    → Distinct store ps
    → find_entry store (store q).key ps ≡ none
    → Distinct store (ps ++ q ∷ [])
unfolding Distinct
Distinct-append store q [] h none_there = (none_there, tt)
Distinct-append store q (p ∷ ps) (new, h) none_there =
    elim (Bool-cases (eqb_key (store q).key (store p).key)) [
      | inl e ↦ absurd (none-ne-some p (sym none_there ∙ find_here store (store q).key p ps e))
      | inr e ↦ (
        find_entry-append store (store p).key ps q
            ∙ rw (new, eqb_key_sym (store q).key (store p).key e) refl,
        Distinct-append store q ps h (sym (find_there store (store q).key p ps e) ∙ none_there),
      )
    ]
