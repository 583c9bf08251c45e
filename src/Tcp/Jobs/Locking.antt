-- ===== src/Tcp/Jobs/Locking.antt =====
-- The locks of the nodes and the queue of jobs.
use mathlib.Core.Bool.{true≢false}
use cpp_raft.Base.{
  ◌==◌, if◌then◌else◌, to_nat, ==_iff, Bool-cases, ℤ, ◌+ℤ◌, ◌-ℤ◌, +ℤ-pos, suc-sub-one, pos, ℕ, ◌+◌,
  ◌≡◌, refl, sym, ap, ◌∙◌, ◌≢◌, inl, inr, true, false, List, [], ◌∷◌, ◌++◌, arith,
}
use cpp_raft.Node.{Ptr, null, increment_lock2, decrement_lock2}
use cpp_raft.Server.State.{update}
use cpp_raft.Sockets.Stream.{SocketTcp}
use cpp_raft.Tcp.Keys.{Text}
use cpp_raft.Tcp.State.{WorkerData, TcpServer, node_at, change_raft}
use cpp_raft.Tcp.Jobs.{
  add_job, fill_job, lock_node, add_job_for_worker_private, add_connect_for_worker,
  add_internal_for_worker, jobs_of, Locked,
}

-- A worker takes a job off the queue, up to the point at which it has given back the lock: the
-- handlers do that first. A job that is being handled counts as waiting until then. When the server
-- does not work any more, the worker drops the job, and its lock stays.
unfoldable pub take_job : WorkerData → List WorkerData → TcpServer → TcpServer
unfolding decrement_lock2
take_job j js t =
    let u = record t { jobs = js } in
    if t.work
    then (if j.node == null
        then u
        else change_raft (λ s. record s { store = update j.node decrement_lock2 s.store }) u)
    else u

-- What is done to the queue, with the jobs that are dropped: a connection comes, the server gives
-- itself a job, a request of a node has been read, a worker takes a job, the server is stopped.
pub data QueueStep : TcpServer → List WorkerData → TcpServer → Type 0 where
  connection :
      (t : TcpServer) (remote : Text) (sock : SocketTcp)
      → QueueStep t [] (add_connect_for_worker remote sock t)
  internal :
      (t : TcpServer) (c_request : ℕ) (p : Ptr)
      → QueueStep t [] (add_internal_for_worker c_request p t)
  request :
      (t : TcpServer) (j : WorkerData)
      → j.node ≢ null
      → QueueStep t [] (add_job j (lock_node j.node t))
  take :
      (t : TcpServer) (j : WorkerData) (js : List WorkerData)
      → t.work ≡ true
      → t.jobs ≡ j ∷ js
      → QueueStep t [] (take_job j js t)
  drop :
      (t : TcpServer) (j : WorkerData) (js : List WorkerData)
      → t.work ≡ false
      → t.jobs ≡ j ∷ js
      → QueueStep t (j ∷ []) (take_job j js t)
  stops : (t : TcpServer) → QueueStep t [] (record t { work = false })

-- Some steps, with all jobs that were dropped.
pub data Reach (t : TcpServer) : List WorkerData → TcpServer → Type 0 where
  here : Reach t [] t
  next :
      {u v : TcpServer} {ds es : List WorkerData}
      → Reach t ds u
      → QueueStep u es v
      → Reach t (es ++ ds) v

-- Every node is locked once for each of its jobs, in the queue or dropped.
abbrev pub LockedFor : List WorkerData → TcpServer → Type 0
LockedFor ds t =
    (p : Ptr) → p ≢ null → (node_at p t).locks_count ≡ pos (jobs_of p t.jobs + jobs_of p ds)

jobs_of-append :
    (p : Ptr) (js ks : List WorkerData) → jobs_of p (js ++ ks) ≡ jobs_of p js + jobs_of p ks
jobs_of-append p [] ks = omega arith
jobs_of-append p (j ∷ js) ks = omega (arith, jobs_of-append p js ks)

jobs_of_last :
    (p : Ptr) (js : List WorkerData) (j : WorkerData)
    → jobs_of p (js ++ j ∷ []) ≡ jobs_of p js + to_nat (j.node == p)
jobs_of_last p js j = omega (arith, jobs_of-append p js (j ∷ []))

same_node : (p q : Ptr) → (p == q) ≡ true → to_nat (q == p) ≡ 1
same_node p q e = ground (arith, e)

other_node : (p q : Ptr) → (p == q) ≡ false → to_nat (q == p) ≡ 0
other_node p q e = ground (arith, e)

module _ (ds : List WorkerData) where
  -- A job for no node changes no count.
  add_job-free :
      (j : WorkerData) (t : TcpServer) → j.node ≡ null → LockedFor ds t → LockedFor ds (add_job j t)
  unfolding add_job
  add_job-free j t e h p ne =
      let none : to_nat (j.node == p) ≡ 0 = ground (arith, e, ne) in
      h p ne ∙ ap pos (omega (arith, jobs_of_last p t.jobs j, none))

  add_job-Locked :
      (j : WorkerData) (t : TcpServer)
      → j.node ≢ null
      → LockedFor ds t
      → LockedFor ds (add_job j (lock_node j.node t))
  unfolding add_job lock_node increment_lock2 update
  add_job-Locked j t ne h p pne = elim (Bool-cases (p == j.node)) [
    | inl e ↦ rw e (
        ap (λ (m : ℤ). m +ℤ pos 1) (h p pne)
        ∙ +ℤ-pos (jobs_of p t.jobs + jobs_of p ds) 1
        ∙ ap pos (omega (arith, jobs_of_last p t.jobs j, same_node p j.node e)))
    | inr e ↦
        rw e (h p pne ∙ ap pos (omega (arith, jobs_of_last p t.jobs j, other_node p j.node e)))
  ]

  add_internal_for_worker-Locked :
      (c_request : ℕ) (p : Ptr) (t : TcpServer)
      → LockedFor ds t
      → LockedFor ds (add_internal_for_worker c_request p t)
  unfolding add_internal_for_worker add_job_for_worker_private fill_job
  add_internal_for_worker-Locked c_request p t h = elim (Bool-cases (p == null)) [
    | inl e ↦ rw e (add_job-free _ t ((==_iff p null).0 e) h)
    | inr e ↦ rw e (elim (Bool-cases ((node_at p t).is_marked_for_delete == 1)) [
      | inl m ↦ rw m h
      | inr m ↦ rw m (add_job-Locked _ t (λ same. true≢false (sym ((==_iff p null).1 same) ∙ e)) h)
    ])
  ]

  -- The locks of the first job of the queue and of the others.
  first_job :
      (j : WorkerData) (js : List WorkerData) (t : TcpServer)
      → t.jobs ≡ j ∷ js
      → LockedFor ds t
      → (p : Ptr) → p ≢ null
      → (node_at p t).locks_count ≡ pos (to_nat (j.node == p) + (jobs_of p js + jobs_of p ds))
  first_job j js t e h p ne =
      h p ne
      ∙ ap (λ (ks : List WorkerData). pos (jobs_of p ks + jobs_of p ds)) e
      ∙ ap pos (omega arith)

  take_job-Locked :
      (j : WorkerData) (js : List WorkerData) (t : TcpServer)
      → t.work ≡ true
      → t.jobs ≡ j ∷ js
      → LockedFor ds t
      → LockedFor ds (take_job j js t)
  unfolding take_job decrement_lock2 update
  take_job-Locked j js t on e h p ne =
      let all = first_job j js t e h p ne in
      let left = jobs_of p js + jobs_of p ds in
      elim (Bool-cases (j.node == null)) [
        | inl f ↦
            let none : to_nat (j.node == p) ≡ 0 = ground (arith, f, ne) in
            rw (on, f) (all ∙ ap pos (omega (arith, none)))
        | inr f ↦
            rw (on, f)
              (elim (Bool-cases (p == j.node)) [
                | inl g ↦ rw g (
                    ap (λ (m : ℤ). m -ℤ pos 1) (all ∙ ap pos (omega (arith, same_node p j.node g)))
                    ∙ suc-sub-one left)
                | inr g ↦ rw g (all ∙ ap pos (omega (arith, other_node p j.node g)))
              ])
      ]

  -- A job that is dropped keeps its lock.
  take_job-dropped :
      (j : WorkerData) (js : List WorkerData) (t : TcpServer)
      → t.work ≡ false
      → t.jobs ≡ j ∷ js
      → LockedFor ds t
      → LockedFor (j ∷ ds) (take_job j js t)
  unfolding take_job
  take_job-dropped j js t off e h p ne = rw off (first_job j js t e h p ne ∙ ap pos (omega arith))

  QueueStep-Locked :
      {t u : TcpServer} {es : List WorkerData}
      → QueueStep t es u
      → LockedFor ds t
      → LockedFor (es ++ ds) u
  unfolding add_connect_for_worker add_job_for_worker_private fill_job
  QueueStep-Locked (connection t remote sock) h = add_job-free _ t refl h
  QueueStep-Locked (internal t c_request p) h = add_internal_for_worker-Locked c_request p t h
  QueueStep-Locked (request t j ne) h = add_job-Locked j t ne h
  QueueStep-Locked (stops t) h = h
  QueueStep-Locked (take t j js on e) h = take_job-Locked j js t on e h
  QueueStep-Locked (drop t j js off e) h = take_job-dropped j js t off e h

-- Where nothing was dropped.
none_dropped : (t : TcpServer) → Locked t → LockedFor [] t
none_dropped t h p ne = h p ne ∙ ap pos (omega arith)

pub LockedFor-Locked : (t : TcpServer) → LockedFor [] t → Locked t
LockedFor-Locked t h p ne = h p ne ∙ ap pos (omega arith)

-- However connections, requests of nodes and the server's own jobs come and are taken, and whenever
-- the server is stopped, every node is locked exactly as often as jobs in the queue name it, and
-- jobs that workers have dropped after the stop, if the queue accounted for the locks at the start.
-- The locks of the dropped jobs are never given back.
pub Reach-Locked :
    {t u : TcpServer} {ds : List WorkerData} → Reach t ds u → Locked t → LockedFor ds u
Reach-Locked {t} here h = none_dropped t h
Reach-Locked {t} (next {ds} r step) h = QueueStep-Locked ds step (Reach-Locked r h)
