-- ===== src/Sockets/Device/Copying.antt =====
-- Copying a socket puts the copy behind it among those that share its descriptor.
use mathlib.Core.Bool.{true≢false}
use cpp_raft.Base.{
  ◌==◌, Bool-cases, has, leb_ℤ, pos, ℕ, suc, ◌≡◌, refl, sym, ap, ◌∙◌, ◌≢◌, inl, inr, true, false,
  List, [], ◌∷◌, ◌++◌, arith,
}
use cpp_raft.Node.{Ptr, null}
use cpp_raft.Containers.ListSpecial.{Links, Store, relink_next, relink_prev}
use cpp_raft.Containers.ListSpecial.Segment.{
  head_or, last_or, Seg, Addresses, Seg-frame, Seg-append, Seg-split, relink_next_self,
  relink_next-other, relink_prev_self, relink_prev-other, has-differ, has-append, has-last_or,
}
use cpp_raft.Containers.ListSpecial.Unlinking.{
  Middle, middle, left_end, right_start, kept_next, kept_prev,
}
use cpp_raft.Sockets.Device.{Devices, Shares, assign, clone_from_other, set_socket, is_open}

-- The four lines of `cloneFromOther`, where `o` is the last of `xs`.
abbrev copied : Ptr → Ptr → Ptr → Store → Store
copied p o next σ = relink_prev p o (relink_prev next p (relink_next p next (relink_next o p σ)))

module _ (xs : List Ptr) (p : Ptr) (ys : List Ptr) (σ : Store) (m : Middle xs p ys) where
  s1 : Store
  s1 = relink_next (last_or null xs) p σ

  s2 : Store
  unfolding s1
  s2 = relink_next p (head_or null ys) s1

  s3 : Store
  unfolding s2
  s3 = relink_prev (head_or null ys) p s2

  s4 : Store
  unfolding s3
  s4 = relink_prev p (last_or null xs) s3

  front_kept : (r : Ptr) → has r xs ≡ true → s4 r ≡ s1 r
  unfolding s4 s3 s2
  front_kept r i =
      let ne : r ≢ p = has-differ p r xs m.before i in
      relink_prev-other p (last_or null xs) r s3 ne
      ∙ kept_prev ys p r s2 (m.disjoint r i)
      ∙ relink_next-other p (head_or null ys) r s1 ne

  back_kept : (r : Ptr) → has r ys ≡ true → s2 r ≡ σ r
  unfolding s2 s1
  back_kept r i =
      relink_next-other p (head_or null ys) r s1 (has-differ p r ys m.behind i)
      ∙ kept_next xs p r σ (elim (Bool-cases (has r xs)) [
        | inl e ↦ absurd (true≢false (sym i ∙ m.disjoint r e))
        | inr e ↦ e
      ])

  copy_self : s4 p ≡ record { prev = last_or null xs; next = head_or null ys }
  unfolding s4 s3 s2
  copy_self =
      relink_prev_self p (last_or null xs) s3 m.ne
      ∙ ap (λ (k : Links). record k { prev = last_or null xs })
          (kept_prev ys p p s2 m.behind ∙ relink_next_self p (head_or null ys) s1 m.ne)

  copied-Seg : Seg σ null (xs ++ ys) null → Seg s4 null (xs ++ p ∷ ys) null
  unfolding s4 s3 s2 s1 Seg
  copied-Seg h =
      let (left, right) = Seg-split σ null null xs ys h in
      Seg-append s4 null null xs (p ∷ ys)
        (Seg-frame s1 s4 null p xs front_kept (left_end σ xs (head_or null ys) p m.left left))
        (
          ap (λ (k : Links). k.prev) copy_self,
          ap (λ (k : Links). k.next) copy_self,
          Seg-frame s3 s4 p null ys
              (λ r i. relink_prev-other p (last_or null xs) r s3 (has-differ p r ys m.behind i))
              (right_start s2 ys (last_or null xs) p m.right
                (Seg-frame σ s2 (last_or null xs) null ys back_kept right)),
        )

Addresses-insert :
    (xs : List Ptr) (p : Ptr) (ys : List Ptr)
    → Addresses (xs ++ ys)
    → p ≢ null
    → has p (xs ++ ys) ≡ false
    → Addresses (xs ++ p ∷ ys)
unfolding Addresses
Addresses-insert [] p ys d ne out = (ne, out, d)
Addresses-insert (x ∷ xs) p ys (ne', new, d) ne out = (
  ne',
  has-append x xs (p ∷ ys) ∙ ground (arith, sym (has-append x xs ys) ∙ new, out),
  Addresses-insert xs p ys d ne (ground (arith, out)),
)

last-next :
    (σ : Store) (b a x : Ptr) (xs : List Ptr) → Seg σ b (x ∷ xs) a → (σ (last_or x xs)).next ≡ a
unfolding Seg
last-next σ b a x [] (e, f, h) = f
last-next σ b a x (y ∷ xs) (e, f, h) = last-next σ x a y xs h

-- Assigning to a socket that shares no descriptor yet makes it one of those that share the
-- descriptor of the other, behind that one.
pub assign-Shares :
    (x : Ptr) (xs : List Ptr) (p : Ptr) (ys : List Ptr) (d : Devices) (n : ℕ)
    → Shares d ((x ∷ xs) ++ ys) n
    → p ≢ null
    → has p ((x ∷ xs) ++ ys) ≡ false
    → Shares (assign p (last_or x xs) d) ((x ∷ xs) ++ p ∷ ys) n
unfolding assign clone_from_other is_open set_socket s4 s3 s2 s1
assign-Shares x xs p ys d n h ne out =
    let o = last_or x xs in
    let places = Addresses-insert (x ∷ xs) p ys h.addresses ne out in
    let m = middle (x ∷ xs) p ys places in
    let in_list : has o ((x ∷ xs) ++ ys) ≡ true =
      has-append o (x ∷ xs) ys ∙ ground (arith, has-last_or x xs) in
    let fd = h.same o in_list in
    let (left, _) = Seg-split d.links null null (x ∷ xs) ys h.links in
    let next : (d.links o).next ≡ head_or null ys =
      last-next d.links null (head_or null ys) x xs left in
    let opened : leb_ℤ (pos 0) (pos (suc n)) ≡ true = ground arith in
    rw (fd, opened, next)
      (record {
        links = copied-Seg (x ∷ xs) p ys d.links m h.links;
        addresses = places;
        same = λ r i. elim (Bool-cases (r == p)) [
          | inl e ↦ rw e refl
          | inr e ↦ rw e (
              h.same r
                (has-append r (x ∷ xs) ys ∙ ground (arith, has-append r (x ∷ xs) (p ∷ ys), i, e)))
        ];
      })
