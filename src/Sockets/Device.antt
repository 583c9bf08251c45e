-- ===== src/Sockets/Device.antt =====
-- common_iodevice.cpp, and what common_socketbase.cpp adds: sockets that are copies of one another
-- share a descriptor and are linked, and the last one that is closed closes it.
pub mod Copying
use mathlib.Core.Path.{subst}
use cpp_raft.Base.{
  ◌==◌, if◌then◌else◌, ==_refl, is_empty, has, ℤ, ltb_ℤ, leb_ℤ, pos, negsuc, ℕ, suc, ◌≡◌, refl, sym,
  ◌∙◌, ◌≢◌, Bool, true, false, ◌&&◌, List, [], ◌∷◌, ◌++◌, arith,
}
use cpp_raft.Node.{Ptr, null}
use cpp_raft.Containers.ListSpecial.{Store, relink_next, relink_prev, unlink}
use cpp_raft.Containers.ListSpecial.Segment.{
  head_or, last_or, Seg, Addresses, Seg-frame, has-append, has-last_or, has-differ, not_null,
}
use cpp_raft.Containers.ListSpecial.Unlinking.{Middle, middle, around, unlink-Seg}

-- The links and descriptors by address; `closed` records the descriptors given to `close`.
pub record Devices : Type 0 where
  pub links : Store
  pub sockets : Ptr → ℤ
  pub closed : List ℤ

unfoldable pub is_open : Ptr → Devices → Bool
is_open p d = leb_ℤ (pos 0) (d.sockets p)

unfoldable pub set_socket : Ptr → ℤ → Devices → Devices
set_socket p fd d = record d { sockets = λ q. if q == p then fd else d.sockets q }

-- `SocketBase::closeHard` does not close the descriptor 0.
unfoldable pub close_hard : Ptr → Devices → Devices
unfolding set_socket
close_hard p d =
    set_socket p (negsuc 0) (
      if ltb_ℤ (pos 0) (d.sockets p) then record d { closed = d.closed ++ d.sockets p ∷ [] } else d)

-- `m_pPrev = m_pNext = NULL`
unfoldable pub no_links : Ptr → Store → Store
no_links p σ q = if q == p then record { prev = null; next = null } else σ q

unfoldable pub detach : Ptr → Devices → Devices
unfolding close_hard
detach p d =
    let l = d.links p in
    if (l.prev == null) && (l.next == null)
    then close_hard p d
    else record d { links = unlink p d.links }

-- `IODevice::closeC`
unfoldable pub io_close_c : Ptr → Devices → Devices
unfolding is_open detach no_links
io_close_c p d =
    if is_open p d then (let e = detach p d in record e { links = no_links p e.links }) else d

-- `SocketBase::closeC`
unfoldable pub close_c : Ptr → Devices → Devices
unfolding io_close_c set_socket
close_c p d = set_socket p (negsuc 0) (io_close_c p d)

-- `p` becomes a copy of `o`, behind it. The addresses of objects are not null.
unfoldable pub clone_from_other : Ptr → Ptr → Devices → Devices
unfolding is_open
clone_from_other p o d =
    if is_open o d
    then (let next = (d.links o).next in
        record d {
          links =
              relink_prev p o (relink_prev next p (relink_next p next (relink_next o p d.links)));
        })
    else d

-- `SocketBase::operator=`
unfoldable pub assign : Ptr → Ptr → Devices → Devices
unfolding clone_from_other set_socket
assign p o d = set_socket p (d.sockets o) (clone_from_other p o d)

unfoldable pub set_new_socket_descriptor : Ptr → ℤ → Devices → Devices
unfolding close_c set_socket
set_new_socket_descriptor p fd d = set_socket p fd (close_c p d)

-- The links of the others stay as they are.
unfoldable pub reset_socket_without_close : Ptr → Devices → Devices
unfolding no_links set_socket
reset_socket_without_close p d = set_socket p (negsuc 0) (record d { links = no_links p d.links })

-- The sockets that share a descriptor above 0, in the order of their links.
pub record Shares (d : Devices) (ps : List Ptr) (n : ℕ) : Type 0 where
  pub links : Seg d.links null ps null
  pub addresses : Addresses ps
  pub same : (r : Ptr) → has r ps ≡ true → d.sockets r ≡ pos (suc n)

ends_null :
    (xs ys : List Ptr)
    → has null xs ≡ false
    → has null ys ≡ false
    → ((last_or null xs == null) && (head_or null ys == null)) ≡ is_empty (xs ++ ys)
ends_null [] [] h k = refl
ends_null [] (y ∷ ys) h k = ground (arith, k)
ends_null (x ∷ xs) ys h k =
    let last : last_or x xs ≢ null = has-differ null (last_or x xs) (x ∷ xs) h (has-last_or x xs) in
    ground (arith, last)

alone :
    (xs : List Ptr) (p : Ptr) (ys : List Ptr) (d : Devices) (n : ℕ)
    → Shares d (xs ++ p ∷ ys) n
    → (((d.links p).prev == null) && ((d.links p).next == null)) ≡ is_empty (xs ++ ys)
alone xs p ys d n h =
    let (e, f) = around xs p ys d.links h.links in
    let m = middle xs p ys h.addresses in
    rw (e, f) (ends_null xs ys (not_null xs m.left) (not_null ys m.right))

has-middle : (xs : List Ptr) (p : Ptr) (ys : List Ptr) → has p (xs ++ p ∷ ys) ≡ true
has-middle xs p ys = ground (arith, has-append p xs (p ∷ ys), ==_refl p)

-- What closing an open socket leaves; the Boolean says whether it is linked to no other.
module _ (p : Ptr) (d : Devices) (n : ℕ) (fd : d.sockets p ≡ pos (suc n)) where
  close_c-links :
      (b : Bool)
      → (((d.links p).prev == null) && ((d.links p).next == null)) ≡ b
      → (close_c p d).links ≡ no_links p (if b then d.links else unlink p d.links)
  unfolding close_c io_close_c detach is_open close_hard set_socket
  close_c-links true a = rw (fd, a) (ground arith)
  close_c-links false a = rw (fd, a) (ground arith)

  close_c-closed :
      (b : Bool)
      → (((d.links p).prev == null) && ((d.links p).next == null)) ≡ b
      → (close_c p d).closed ≡ (if b then d.closed ++ pos (suc n) ∷ [] else d.closed)
  unfolding close_c io_close_c detach is_open close_hard set_socket
  close_c-closed true a = rw (fd, a) (ground arith)
  close_c-closed false a = rw (fd, a) (ground arith)

  close_c-sockets :
      (b : Bool)
      → (((d.links p).prev == null) && ((d.links p).next == null)) ≡ b
      → (q : Ptr) → q ≢ p
      → (close_c p d).sockets q ≡ d.sockets q
  unfolding close_c io_close_c detach is_open close_hard set_socket
  close_c-sockets true a q ne = rw (fd, a) (ground arith)
  close_c-sockets false a q ne = rw (fd, a) (ground arith)

no_links-other : (p r : Ptr) (σ : Store) → r ≢ p → no_links p σ r ≡ σ r
unfolding no_links
no_links-other p r σ ne = ground arith

outside : (xs : List Ptr) (p : Ptr) (ys : List Ptr) → Middle xs p ys → has p (xs ++ ys) ≡ false
outside xs p ys m = ground (arith, has-append p xs ys, m.before, m.behind)

has-rest :
    (xs : List Ptr) (p : Ptr) (ys : List Ptr) (r : Ptr)
    → has r (xs ++ ys) ≡ true
    → has r (xs ++ p ∷ ys) ≡ true
has-rest xs p ys r i = ground (arith, has-append r xs ys, has-append r xs (p ∷ ys))

beside :
    (xs : List Ptr) (p : Ptr) (ys : List Ptr) (σ : Store)
    → Middle xs p ys
    → Addresses (xs ++ p ∷ ys)
    → Seg σ null (xs ++ p ∷ ys) null
    → Seg (no_links p (unlink p σ)) null (xs ++ ys) null
beside xs p ys σ m d h =
    Seg-frame (unlink p σ) (no_links p (unlink p σ)) null null (xs ++ ys)
      (λ r i. no_links-other p r (unlink p σ) (has-differ p r (xs ++ ys) (outside xs p ys m) i))
      (unlink-Seg xs p ys σ d h)

kept :
    (xs : List Ptr) (p : Ptr) (ys : List Ptr) (σ : Store)
    → Middle xs p ys
    → Addresses (xs ++ p ∷ ys)
    → Seg σ null (xs ++ p ∷ ys) null
    → Seg (no_links p (if is_empty (xs ++ ys) then σ else unlink p σ)) null (xs ++ ys) null
unfolding Seg
kept [] p [] σ m d h = tt
kept [] p (y ∷ ys) σ m d h = beside [] p (y ∷ ys) σ m d h
kept (x ∷ xs) p ys σ m d h = beside (x ∷ xs) p ys σ m d h

-- Closing one of the sockets that share a descriptor above 0 takes it out of the others, which stay
-- open; the descriptor itself is closed if no other is left, and only then.
pub close_c-Shares :
    (xs : List Ptr) (p : Ptr) (ys : List Ptr) (d : Devices) (n : ℕ)
    → Shares d (xs ++ p ∷ ys) n
    → Shares (close_c p d) (xs ++ ys) n
      × ((close_c p d).closed
          ≡ (if is_empty (xs ++ ys) then d.closed ++ pos (suc n) ∷ [] else d.closed))
close_c-Shares xs p ys d n h =
    let fd = h.same p (has-middle xs p ys) in
    let a = alone xs p ys d n h in
    let m = middle xs p ys h.addresses in
    (
      record {
        links =
            subst (λ (τ : Store). Seg τ null (xs ++ ys) null)
              (sym (close_c-links p d n fd (is_empty (xs ++ ys)) a))
              (kept xs p ys d.links m h.addresses h.links);
        addresses = m.both;
        same = λ r i.
            let ne : r ≢ p = has-differ p r (xs ++ ys) (outside xs p ys m) i in
            close_c-sockets p d n fd (is_empty (xs ++ ys)) a r ne ∙ h.same r (has-rest xs p ys r i);
      },
      close_c-closed p d n fd (is_empty (xs ++ ys)) a,
    )
