-- ===== src/Tcp/Stopping/Working.antt =====
-- The loop of `ThreadFunctionWorker`, of any number of threads, one access to what they share at a
-- time. Here a job is only counted; what is done with one is in Tcp/Threads.
use mathlib.Core.Bool.{true≢false}
use mathlib.Core.Path.{subst}
use cpp_raft.Base.{
  ◌*◌, ℕ, zero, suc, ◌+◌, ◌≤◌, ◌<◌, ◌≡◌, ◌⊎◌, inl, inr, refl, sym, ap, Bool, true, false, List, [],
  ◌∷◌, ◌++◌, length, arith,
}
use cpp_raft.Tcp.Stopping.{ServerThreads, stop_workers}
use cpp_raft.Sums.{total, total-middle}

-- A worker at the test of `m_nWork`, in `wait` of the semaphore, at the test of the inner loop,
-- with a job, which comes to its end or does not, or behind the loop. A job that removes a node may
-- wait for ever for the locks of that node.
pub data Point : Type 0 where
  testing waiting extracting ended : Point
  busy : Bool → Point

pub record Shared : Type 0 where
  pub work : Bool
  pub sema_worker : ℕ
  pub jobs : ℕ

abbrev pub shared : Bool → ℕ → ℕ → Shared
shared w m j = record { work = w; sema_worker = m; jobs = j }

-- A worker leaves a job for the outer loop when the node is to be deleted or when something was
-- thrown.
pub data Move : Shared → Point → Shared → Point → Type 0 where
  goes_on : {m j : ℕ} → Move (shared true m j) testing (shared true m j) waiting
  finishes : {m j : ℕ} → Move (shared false m j) testing (shared false m j) ended
  wakes : {w : Bool} {m j : ℕ} → Move (shared w (suc m) j) waiting (shared w m j) extracting
  finds_none : {w : Bool} {m : ℕ} → Move (shared w m 0) extracting (shared w m 0) testing
  extracts :
      {m j : ℕ} (ends : Bool)
      → Move (shared true m (suc j)) extracting (shared true m j) (busy ends)
  drops : {m j : ℕ} → Move (shared false m (suc j)) extracting (shared false m j) testing
  does : {s : Shared} → Move s (busy true) s extracting
  leaves : {s : Shared} → Move s (busy true) s testing

-- Some moves of the workers, counted, with jobs that others add between them.
pub data Moves (s : Shared) (ps : List Point) : ℕ → Shared → List Point → Type 0 where
  here : Moves s ps 0 s ps
  move :
      {n : ℕ} {t u : Shared} (xs : List Point) (p q : Point) (ys : List Point)
      → Moves s ps n t (xs ++ p ∷ ys)
      → Move t p u q
      → Moves s ps (suc n) u (xs ++ q ∷ ys)
  add :
      {n : ℕ} {t : Shared} {qs : List Point}
      → Moves s ps n t qs
      → Moves s ps n (record t { sema_worker = t.sema_worker + 1; jobs = t.jobs + 1 }) qs

abbrev pub waits : Point → ℕ
waits waiting = 1
waits _ = 0

-- How many moves a worker can still make when the server does not work.
abbrev pub left : Point → ℕ
left testing = 1
left waiting = 3
left extracting = 2
left (busy true) = 3
left (busy false) = 0
left ended = 0

-- The workers in jobs that do not end, and those that have ended.
abbrev pub stuck : Point → ℕ
stuck (busy false) = 1
stuck _ = 0

abbrev pub over : Point → ℕ
over ended = 1
over _ = 0

at_most : (p : Point) → left p ≤ 3
at_most testing = omega arith
at_most waiting = omega arith
at_most extracting = omega arith
at_most (busy true) = omega arith
at_most (busy false) = omega arith
at_most ended = omega arith

waits_once : (p : Point) → waits p ≤ 1
waits_once testing = omega arith
waits_once waiting = omega arith
waits_once extracting = omega arith
waits_once (busy b) = omega arith
waits_once ended = omega arith

left-le : (ps : List Point) → total left ps ≤ 3 * length ps
left-le [] = omega arith
left-le (p ∷ ps) = omega (arith, left-le ps, at_most p)

-- The server does not work, and the semaphore lets every worker pass that waits.
pub record Released (s : Shared) (ps : List Point) : Type 0 where
  pub off : s.work ≡ false
  pub enough : total waits ps ≤ s.sema_worker

-- Every worker has ended, or is in a job that does not end.
abbrev pub Settled : List Point → Type 0
Settled ps = total over ps + total stuck ps ≡ length ps

Move-Released :
    {s t : Shared} {p q : Point} (others : ℕ)
    → Move s p t q
    → s.work ≡ false
    → waits p + others ≤ s.sema_worker
    → (t.work ≡ false)
      × (waits q + others ≤ t.sema_worker)
      × (left q < left p)
      × (stuck q ≡ stuck p)
Move-Released others goes_on off h = absurd (true≢false off)
Move-Released others finishes off h = (off, h, omega arith, refl)
Move-Released others wakes off h = (off, omega (arith, h), omega arith, refl)
Move-Released others finds_none off h = (off, h, omega arith, refl)
Move-Released others (extracts ends) off h = absurd (true≢false off)
Move-Released others drops off h = (off, h, omega arith, refl)
Move-Released others does off h = (off, h, omega arith, refl)
Move-Released others leaves off h = (off, h, omega arith, refl)

Moves-Released :
    {s : Shared} {ps : List Point} {n : ℕ} {t : Shared} {qs : List Point}
    → Moves s ps n t qs
    → Released s ps
    → Released t qs × (n + total left qs ≤ total left ps) × (total stuck qs ≡ total stuck ps)
Moves-Released here h = (h, omega arith, refl)
Moves-Released (add r) h =
    let (k, few, same) = Moves-Released r h in
    (record { off = k.off; enough = omega (arith, k.enough) }, few, same)
Moves-Released (move xs p q ys r m) h =
    let (k, few, same) = Moves-Released r h in
    let (off, enough, less, kept) =
      Move-Released (total waits xs + total waits ys) m k.off
        (omega (arith, k.enough, total-middle waits xs p ys)) in
    (
      record { off = off; enough = omega (arith, enough, total-middle waits xs q ys) },
      omega (arith, few, less, total-middle left xs p ys, total-middle left xs q ys),
      omega (arith, same, kept, total-middle stuck xs p ys, total-middle stuck xs q ys),
    )

-- A worker that can make a move.
pub record CanMove (s : Shared) (ps : List Point) : Type 0 where
  pub front : List Point
  pub point : Point
  pub back : List Point
  pub split : ps ≡ front ++ point ∷ back
  pub behind : Shared
  pub becomes : Point
  pub moves : Move s point behind becomes

next-Move :
    (m j : ℕ) (p : Point)
    → waits p ≤ m
    → (over p + stuck p ≡ 1) ⊎ ((t : Shared) × (q : Point) × Move (shared false m j) p t q)
next-Move m j testing h = inr (_, _, finishes)
next-Move zero j waiting h = absurd (omega (arith, h))
next-Move (suc m) j waiting h = inr (_, _, wakes)
next-Move m zero extracting h = inr (_, _, finds_none)
next-Move m (suc j) extracting h = inr (_, _, drops)
next-Move m j (busy true) h = inr (_, _, does)
next-Move m j (busy false) h = inl refl
next-Move m j ended h = inl refl

some-Move :
    (m j : ℕ) (ps : List Point) → total waits ps ≤ m → Settled ps ⊎ CanMove (shared false m j) ps
some-Move m j [] h = inl refl
some-Move m j (p ∷ ps) h = elim (next-Move m j p (omega (arith, h))) [
  | inr (t, q, v) ↦ inr (record {
    front = [];
    point = p;
    back = ps;
    split = refl;
    behind = t;
    becomes = q;
    moves = v;
  })
  | inl e ↦ elim (some-Move m j ps (omega (arith, h))) [
    | inl f ↦ inl (omega (arith, e, f))
    | inr c ↦ inr (record {
      front = p ∷ c.front;
      point = c.point;
      back = c.back;
      split = ap (λ qs. p ∷ qs) c.split;
      behind = c.behind;
      becomes = c.becomes;
      moves = c.moves;
    })
  ]
]

at_work_off : (s : Shared) (ps : List Point) → Released s ps → Settled ps ⊎ CanMove s ps
at_work_off s ps h =
    subst (λ w. Settled ps ⊎ CanMove (record s { work = w }) ps) (sym h.off)
      (some-Move s.sema_worker s.jobs ps h.enough)

waits-le : (ps : List Point) → total waits ps ≤ length ps
waits-le [] = omega arith
waits-le (p ∷ ps) = omega (arith, waits-le ps, waits_once p)

-- Behind `StopServer`'s posts, wherever the workers are.
stopped-Released :
    (thread : ℕ) (s : ServerThreads) (j : ℕ) (ps : List Point)
    → length ps ≡ length s.workers
    → Released (shared (stop_workers thread s).work (stop_workers thread s).sema_worker j) ps
unfolding stop_workers
stopped-Released thread s j ps h = record { off = refl; enough = omega (arith, h, waits-le ps) }

-- Once a stop has posted the semaphore for the workers, then wherever they are, whatever they do in
-- whatever order, and whatever jobs there are and are added meanwhile, they make no more than three
-- moves each, and one can move until every one of them has ended or is in a job that does not end.
-- Those in such jobs are as many as at the stop: if there were none, all workers end, and their
-- joins return.
pub workers_end :
    (thread : ℕ) (s : ServerThreads) (j : ℕ) (ps : List Point) (n : ℕ) (t : Shared)
    (qs : List Point)
    → length ps ≡ length s.workers
    → Moves (shared (stop_workers thread s).work (stop_workers thread s).sema_worker j) ps n t qs
    → (n + total left qs ≤ 3 * length s.workers)
      × (Settled qs ⊎ CanMove t qs)
      × (total stuck qs ≡ total stuck ps)
workers_end thread s j ps n t qs h r =
    let (k, few, same) = Moves-Released r (stopped-Released thread s j ps h) in
    (omega (arith, few, left-le ps, h), at_work_off t qs k, same)
