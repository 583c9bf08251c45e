-- ===== src/Tcp/Registry.antt =====
-- tcp/raft_tcp_server.cpp: the list of all servers of the program, which the handler of signals
-- goes through. `AddNewRaftServer` puts a server in front, `RemoveRaftServer` takes its item out.
use mathlib.Core.Path.{subst, fun_ext}
use cpp_raft.Base.{
  ◌==◌, if◌then◌else◌, ==_refl, Bool-cases, ◌&&◌, not, has, ◌≡◌, refl, sym, ap, ◌∙◌, ◌≢◌, inl, inr,
  false, List, [], ◌∷◌, ◌++◌, arith,
}
use cpp_raft.Node.{Ptr, null}
use cpp_raft.Containers.ListSpecial.{Links, Store, relink_next, relink_prev, unlink}
use cpp_raft.Containers.ListSpecial.Segment.{
  head_or, Seg, Addresses, Seg-frame, Seg-relink_prev, has-differ, relink_next_self,
  relink_next-other, relink_prev-other,
}
use cpp_raft.Containers.ListSpecial.Unlinking.{
  middle, around, kept_next, kept_prev, unlink_self, unlink-Seg,
}

-- `s_pFirst` and the items by address.
pub record Registry : Type 0 where
  pub first : Ptr
  pub links : Store

-- The item comes from `calloc`.
unfoldable pub clear_item : Ptr → Store → Store
clear_item p σ q = if q == p then record { prev = null; next = null } else σ q

unfoldable pub add_new_raft_server : Ptr → Registry → Registry
unfolding clear_item
add_new_raft_server p r = record {
  first = p;
  links = relink_next p r.first (relink_prev r.first p (clear_item p r.links));
}

unfoldable pub remove_raft_server : Ptr → Registry → Registry
remove_raft_server p r =
    let σ = relink_prev (r.links p).next (r.links p).prev r.links in
    let τ = relink_next (σ p).prev (σ p).next σ in
    record { first = if p == r.first then (τ p).next else r.first; links = τ }

-- The servers in the order of the handler.
pub record Registered (r : Registry) (ps : List Ptr) : Type 0 where
  pub first : r.first ≡ head_or null ps
  pub links : Seg r.links null ps null
  pub addresses : Addresses ps

clear_item_self : (p : Ptr) (σ : Store) → clear_item p σ p ≡ record { prev = null; next = null }
unfolding clear_item
clear_item_self p σ = ground (arith, ==_refl p)

clear_item-other : (p q : Ptr) (σ : Store) → q ≢ p → clear_item p σ q ≡ σ q
unfolding clear_item
clear_item-other p q σ ne = ground arith

-- An item without links comes in front of the others.
in_front :
    (p : Ptr) (ps : List Ptr) (σ : Store)
    → Addresses ps
    → p ≢ null
    → has p ps ≡ false
    → σ p ≡ record { prev = null; next = null }
    → Seg σ null ps null
    → Seg (relink_next p (head_or null ps) (relink_prev (head_or null ps) p σ)) null (p ∷ ps) null
unfolding Seg
in_front p [] σ d ne out e h =
    let self = relink_next_self p null (relink_prev null p σ) ne in
    let at = relink_prev-other null p p σ ne ∙ e in
    (
      ap (λ (l : Links). l.prev) self ∙ ap (λ (l : Links). l.prev) at,
      ap (λ (l : Links). l.next) self,
      tt,
    )
in_front p (q ∷ ps) σ d ne out e h =
    let τ = relink_prev q p σ in
    let self = relink_next_self p q τ ne in
    let at = relink_prev-other q p p σ (ground (arith, out)) ∙ e in
    (
      ap (λ (l : Links). l.prev) self ∙ ap (λ (l : Links). l.prev) at,
      ap (λ (l : Links). l.next) self,
      Seg-frame τ (relink_next p q τ) p null (q ∷ ps)
          (λ r i. relink_next-other p q r τ (has-differ p r (q ∷ ps) out i))
          (Seg-relink_prev σ null null p q ps d h),
    )

-- A new server comes in front of the others.
pub add_new_raft_server-Registered :
    (p : Ptr) (r : Registry) (ps : List Ptr)
    → Registered r ps
    → p ≢ null
    → has p ps ≡ false
    → Registered (add_new_raft_server p r) (p ∷ ps)
unfolding add_new_raft_server Addresses
add_new_raft_server-Registered p r ps h ne out =
    let σ = clear_item p r.links in
    record {
      first = refl;
      links =
          subst (λ (f : Ptr). Seg (relink_next p f (relink_prev f p σ)) null (p ∷ ps) null)
            (sym h.first)
            (in_front p ps σ h.addresses ne out (clear_item_self p r.links) (
              Seg-frame r.links σ null null ps
                (λ q i. clear_item-other p q r.links (has-differ p q ps out i)) h.links));
      addresses = (ne, out, h.addresses);
    }

-- The two lines write to different fields, so that their order does not matter.
relink-relink :
    (a b v w : Ptr) (σ : Store)
    → relink_next a v (relink_prev b w σ) ≡ relink_prev b w (relink_next a v σ)
unfolding relink_next relink_prev
relink-relink a b v w σ = fun_ext (λ r. elim (Bool-cases ((r == a) && not (a == null))) [
  | inl e ↦ elim (Bool-cases ((r == b) && not (b == null))) [
    | inl f ↦ rw (e, f) refl
    | inr f ↦ rw (e, f) refl
  ]
  | inr e ↦ elim (Bool-cases ((r == b) && not (b == null))) [
    | inl f ↦ rw (e, f) refl
    | inr f ↦ rw (e, f) refl
  ]
])

-- The store behind the two lines of `RemoveRaftServer`.
abbrev taken_out : Ptr → Store → Store
taken_out p links =
    let σ = relink_prev (links p).next (links p).prev links in relink_next (σ p).prev (σ p).next σ

module _ (xs : List Ptr) (p : Ptr) (ys : List Ptr) (links : Store) where
  taken_out-unlink :
      Addresses (xs ++ p ∷ ys)
      → Seg links null (xs ++ p ∷ ys) null
      → taken_out p links ≡ unlink p links
  unfolding unlink
  taken_out-unlink d h =
      let l = links p in
      let m = middle xs p ys d in
      let (prev, next) = around xs p ys links h in
      let σ = relink_prev l.next l.prev links in
      let τ = relink_next l.prev l.next links in
      let first : σ p ≡ l =
        ap (λ (b : Ptr). relink_prev b l.prev links p) next
        ∙ kept_prev ys l.prev p links m.behind in
      let other : τ p ≡ l =
        ap (λ (a : Ptr). relink_next a l.next links p) prev
        ∙ kept_next xs l.next p links m.before in
      ap (λ (k : Links). relink_next k.prev k.next σ) first
      ∙ relink-relink l.prev l.next l.next l.prev links
      ∙ sym (ap (λ (k : Links). relink_prev k.next k.prev τ) other)

  taken_out_self :
      Addresses (xs ++ p ∷ ys)
      → Seg links null (xs ++ p ∷ ys) null
      → (taken_out p links p).next ≡ head_or null ys
  taken_out_self d h =
      ap (λ (σ : Store). (σ p).next) (taken_out-unlink d h)
      ∙ ap (λ (k : Links). k.next) (unlink_self xs p ys links d h)
      ∙ (around xs p ys links h).1

-- The first server, if the one that goes away is that, and if it is not.
removed_first :
    (xs : List Ptr) (p : Ptr) (ys : List Ptr) (first after : Ptr)
    → has p xs ≡ false
    → first ≡ head_or null (xs ++ p ∷ ys)
    → after ≡ head_or null ys
    → (if p == first then after else first) ≡ head_or null (xs ++ ys)
removed_first [] p ys first after out e f = rw (e, ==_refl p) f
removed_first (x ∷ xs) p ys first after out e f =
    let other : (p == x) ≡ false = ground (arith, out) in rw (e, other) refl

-- A server that goes away, wherever it stands, leaves the others in their order.
pub remove_raft_server-Registered :
    (xs : List Ptr) (p : Ptr) (ys : List Ptr) (r : Registry)
    → Registered r (xs ++ p ∷ ys)
    → Registered (remove_raft_server p r) (xs ++ ys)
unfolding remove_raft_server
remove_raft_server-Registered xs p ys r h =
    let m = middle xs p ys h.addresses in
    record {
      first =
          removed_first xs p ys r.first _ m.before h.first
            (taken_out_self xs p ys r.links h.addresses h.links);
      links =
          subst (λ (τ : Store). Seg τ null (xs ++ ys) null)
            (sym (taken_out-unlink xs p ys r.links h.addresses h.links))
            (unlink-Seg xs p ys r.links h.addresses h.links);
      addresses = m.both;
    }

-- Servers that come and go.
pub data RegistryStep : Registry → List Ptr → Registry → List Ptr → Type 0 where
  come :
      (p : Ptr) (r : Registry) (ps : List Ptr)
      → p ≢ null
      → has p ps ≡ false
      → RegistryStep r ps (add_new_raft_server p r) (p ∷ ps)
  go :
      (xs : List Ptr) (p : Ptr) (ys : List Ptr) (r : Registry)
      → RegistryStep r (xs ++ p ∷ ys) (remove_raft_server p r) (xs ++ ys)

-- The list of the servers stays linked in both directions and without repetition when a server
-- comes, which puts it in front, and when one goes away, which leaves the others in their order.
pub RegistryStep-Registered :
    {r s : Registry} {ps qs : List Ptr} → RegistryStep r ps s qs → Registered r ps → Registered s qs
RegistryStep-Registered (come p r ps ne out) h = add_new_raft_server-Registered p r ps h ne out
RegistryStep-Registered (go xs p ys r) h = remove_raft_server-Registered xs p ys r h
