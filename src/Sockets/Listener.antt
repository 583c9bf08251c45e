-- ===== src/Sockets/Listener.antt =====
-- common_servertcp.cpp: the listening socket. What the operating system answers to every round of
-- the loop is an argument.
use mathlib.Core.Bool.{true≢false}
use cpp_raft.Base.{
  ◌==◌, if◌then◌else◌, ℤ, ltb_ℤ, eqb_ℤ, pos, negsuc, ℕ, ◌≡◌, refl, sym, Bool, true, false, not,
  ◌&&◌, ◌||◌, Option, none, some, List, [], ◌∷◌, ◌++◌,
}
use cpp_raft.Sockets.Connecting.{e_fatal, e_select, e_no_socket, e_unknown_host}

-- `WORK_STATUSES`
pub data WorkStatus : Type 0 where
  stopped trying_to_stop run inited2 : WorkStatus

abbrev pub is_stopped : WorkStatus → Bool
is_stopped stopped = true
is_stopped _ = false

abbrev pub is_trying : WorkStatus → Bool
is_trying trying_to_stop = true
is_trying _ = false

abbrev pub is_run : WorkStatus → Bool
is_run run = true
is_run _ = false

abbrev pub is_inited2 : WorkStatus → Bool
is_inited2 inited2 = true
is_inited2 _ = false

pub record ServerTcp : Type 0 where
  pub work_status : WorkStatus
  pub server_thread_id : ℕ
  pub socket : ℤ

unfoldable pub new_server_tcp : ServerTcp
new_server_tcp = record { work_status = stopped; server_thread_id = 0; socket = negsuc 0 }

unfoldable pub close_c : ServerTcp → ServerTcp
close_c s = record s { socket = negsuc 0 }

-- What `select` and `accept` answer: nothing in time, an interruption, an error, a set without the
-- socket, an invalid descriptor, or a descriptor with the remote address.
pub data AcceptAnswer : Type 0 where
  timed_out interrupted select_failed not_in_set refused : AcceptAnswer
  connected : ℕ → ℕ → AcceptAnswer

-- The result, and the client's descriptor with its address.
unfoldable pub server_accept : AcceptAnswer → ℤ × Option (ℕ × ℕ)
server_accept timed_out = (pos 0, none)
server_accept interrupted = (pos 2, none)
server_accept select_failed = (e_select, none)
server_accept not_in_set = (e_fatal, none)
server_accept refused = (pos 0, none)
server_accept (connected fd address) = (pos 1, some (fd, address))

-- What `socket`, `gethostname`, `bind` and `listen` answer.
pub record CreateAnswers : Type 0 where
  pub socket : ℤ
  pub gethostname : ℤ
  pub bind : ℤ
  pub listen : ℤ

abbrev pub e_no_bind : ℤ
e_no_bind = negsuc 6

abbrev pub e_no_listen : ℤ
e_no_listen = negsuc 13

unfoldable pub create_server : CreateAnswers → ServerTcp → ℤ × ServerTcp
create_server a s =
    let t = record s { socket = a.socket } in
    if ltb_ℤ a.socket (pos 0)
    then (e_no_socket, t)
    else if ltb_ℤ a.gethostname (pos 0)
    then (e_unknown_host, t)
    else if ltb_ℤ a.bind (pos 0)
    then (e_no_bind, t)
    else if ltb_ℤ a.listen (pos 0)
    then (e_no_listen, t)
    else (pos 0, t)

-- The loop over the answers that come: the clients handed to the callback, and whether the loop
-- has ended. Nothing else changes the status while it runs.
unfoldable pub accept_loop : List AcceptAnswer → List (ℕ × ℕ) × Bool
accept_loop [] = ([], false)
accept_loop (a ∷ answers) =
    let (code, client) = server_accept a in
    let (clients, ended) = accept_loop answers in
    if ltb_ℤ code (pos 0)
    then ([], true)
    else elim client [ none ↦ (clients, ended) | some c ↦ (c ∷ clients, ended) ]

unfoldable pub run_server : ℕ → List AcceptAnswer → ServerTcp → List (ℕ × ℕ) × ServerTcp
unfolding accept_loop close_c
run_server thread answers s =
    let (clients, ended) = accept_loop answers in
    (
      clients,
      if ended
          then record (close_c s) { work_status = stopped; server_thread_id = 0 }
          else record s { work_status = run; server_thread_id = thread },
    )

-- The result, the clients and the server.
unfoldable pub start_server_s :
    ℕ → CreateAnswers → List AcceptAnswer → ServerTcp → ℤ × List (ℕ × ℕ) × ServerTcp
unfolding create_server run_server close_c
start_server_s thread a answers s =
    if is_stopped s.work_status
    then (let (code, t) = create_server a s in
        if eqb_ℤ code (pos 0)
        then (let (clients, u) = run_server thread answers t in (pos 0, clients, u))
        else (code, [], close_c t))
    else (negsuc 0, [], s)

unfoldable pub init_server : ℕ → CreateAnswers → ServerTcp → ℤ × ServerTcp
unfolding create_server close_c
init_server thread a s =
    if is_stopped s.work_status
    then (let (code, t) = create_server a s in
        if eqb_ℤ code (pos 0)
        then (pos 0, record t { server_thread_id = thread; work_status = inited2 })
        else (code, close_c t))
    else (pos 0, s)

unfoldable pub wait_for_connection : AcceptAnswer → ℤ
unfolding server_accept
wait_for_connection a =
    let (code, client) = server_accept a in
    elim client [ some (fd, address) ↦ pos fd | none ↦ if ltb_ℤ code (pos 0) then code else pos 0 ]

-- Called on the thread with the identifier given. The Boolean says whether the call returns; the
-- loop that waits for the other thread is left when that thread has changed the status.
unfoldable pub stop_server : ℕ → ServerTcp → Bool × ServerTcp
unfolding close_c
stop_server thread s =
    if not (is_run s.work_status) || not (is_inited2 s.work_status)
    then (true, s)
    else if not (thread == s.server_thread_id)
    then (let t = close_c (record s { work_status = trying_to_stop }) in
        if not (is_inited2 t.work_status) && is_trying t.work_status
        then (false, t)
        else (true, record t { work_status = stopped }))
    else (true, close_c (record s { work_status = stopped; server_thread_id = 0 }))

guarded : (w : WorkStatus) → (not (is_run w) || not (is_inited2 w)) ≡ true
guarded stopped = refl
guarded trying_to_stop = refl
guarded run = refl
guarded inited2 = refl

-- Stopping a server, on whatever thread and in whatever state, returns at once and changes
-- nothing: a server that runs goes on running, with its socket open.
pub stop_server-keeps : (thread : ℕ) (s : ServerTcp) → stop_server thread s ≡ (true, s)
unfolding stop_server
stop_server-keeps thread s = rw (guarded s.work_status) refl

-- The answers that end the loop.
abbrev pub is_error : AcceptAnswer → Bool
is_error select_failed = true
is_error not_in_set = true
is_error _ = false

abbrev pub any_error : List AcceptAnswer → Bool
any_error [] = false
any_error (a ∷ answers) = is_error a || any_error answers

-- The connections among the answers, in order.
abbrev pub connections : List AcceptAnswer → List (ℕ × ℕ)
connections [] = []
connections (connected fd address ∷ answers) = (fd, address) ∷ connections answers
connections (_ ∷ answers) = connections answers

accept_loop-connections :
    (answers : List AcceptAnswer)
    → any_error answers ≡ false
    → accept_loop answers ≡ (connections answers, false)
unfolding accept_loop server_accept
accept_loop-connections [] h = refl
accept_loop-connections (timed_out ∷ answers) h = rw (accept_loop-connections answers h) refl
accept_loop-connections (interrupted ∷ answers) h = rw (accept_loop-connections answers h) refl
accept_loop-connections (select_failed ∷ answers) h = absurd (true≢false h)
accept_loop-connections (not_in_set ∷ answers) h = absurd (true≢false h)
accept_loop-connections (refused ∷ answers) h = rw (accept_loop-connections answers h) refl
accept_loop-connections (connected fd address ∷ answers) h =
    rw (accept_loop-connections answers h) refl

accept_loop-error :
    (front : List AcceptAnswer) (a : AcceptAnswer) (back : List AcceptAnswer)
    → any_error front ≡ false
    → is_error a ≡ true
    → accept_loop (front ++ a ∷ back) ≡ (connections front, true)
unfolding accept_loop server_accept
accept_loop-error [] select_failed back h e = refl
accept_loop-error [] not_in_set back h e = refl
accept_loop-error [] timed_out back h e = absurd (true≢false (sym e))
accept_loop-error [] interrupted back h e = absurd (true≢false (sym e))
accept_loop-error [] refused back h e = absurd (true≢false (sym e))
accept_loop-error [] (connected fd address) back h e = absurd (true≢false (sym e))
accept_loop-error (timed_out ∷ front) a back h e = rw (accept_loop-error front a back h e) refl
accept_loop-error (interrupted ∷ front) a back h e = rw (accept_loop-error front a back h e) refl
accept_loop-error (select_failed ∷ front) a back h e = absurd (true≢false h)
accept_loop-error (not_in_set ∷ front) a back h e = absurd (true≢false h)
accept_loop-error (refused ∷ front) a back h e = rw (accept_loop-error front a back h e) refl
accept_loop-error (connected fd address ∷ front) a back h e =
    rw (accept_loop-error front a back h e) refl

-- While no answer is an error the server runs on and has handed every connection to the callback
-- once, in the order of their coming. At the first error it has handed over those before it,
-- whatever would follow, and it is stopped with its socket closed.
pub run_server-connections :
    (thread : ℕ) (front : List AcceptAnswer) (a : AcceptAnswer) (back : List AcceptAnswer)
    (s : ServerTcp)
    → any_error front ≡ false
    → is_error a ≡ true
    → (run_server thread front s
        ≡ (connections front, record s { work_status = run; server_thread_id = thread }))
      × (run_server thread (front ++ a ∷ back) s ≡ (
        connections front,
        record s { work_status = stopped; server_thread_id = 0; socket = negsuc 0 },
      ))
unfolding run_server close_c
run_server-connections thread front a back s h e =
    (rw (accept_loop-connections front h) refl, rw (accept_loop-error front a back h e) refl)
