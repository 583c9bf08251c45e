-- ===== src/Tcp/Stopping/Listening.antt =====
-- When the thread that listens comes to its end.
use mathlib.Core.Bool.{true≢false}
use cpp_raft.Base.{
  sym, eqb_ℤ, pos, Bool-cases, ℕ, ◌≡◌, ◌⊎◌, inl, inr, refl, ap, ◌∙◌, Bool, true, false, not, ◌&&◌,
  List, [], ◌∷◌, arith,
}
use cpp_raft.Sockets.Listener.{
  CreateAnswers, create_server, start_server_s, close_c, is_stopped, ServerTcp, AcceptAnswer,
  is_run, run_server, accept_loop, server_accept, any_error, timed_out, interrupted, select_failed,
  not_in_set, refused, connected,
}
use cpp_raft.Tcp.Stopping.{ServerThreads, listens}

-- The loop over the answers ends at the first error among them.
pub loop_ends : (answers : List AcceptAnswer) → (accept_loop answers).1 ≡ any_error answers
unfolding accept_loop server_accept
loop_ends [] = refl
loop_ends (timed_out ∷ answers) = loop_ends answers
loop_ends (interrupted ∷ answers) = loop_ends answers
loop_ends (select_failed ∷ answers) = refl
loop_ends (not_in_set ∷ answers) = refl
loop_ends (refused ∷ answers) = loop_ends answers
loop_ends (connected fd address ∷ answers) = loop_ends answers

abbrev listens_on : List AcceptAnswer → ServerTcp → Bool
listens_on answers tcp = is_run tcp.work_status && not (any_error answers)

pub run_server-status :
    (n : ℕ) (answers : List AcceptAnswer) (tcp : ServerTcp)
    → is_run (run_server n answers tcp).1.work_status ≡ not (any_error answers)
unfolding run_server
run_server-status n answers tcp = elim (Bool-cases (any_error answers)) [
  | inl e ↦ rw (loop_ends answers, e) refl
  | inr e ↦ rw (loop_ends answers, e) refl
]

-- The thread that listens has come to its end, or is not in its loop and finds that the socket
-- cannot be opened, or will get an error.
abbrev pub Ends : CreateAnswers → List AcceptAnswer → ServerThreads → Type 0
Ends a answers s =
    ((is_run s.server_tcp.work_status ≡ false) × (s.listen_ended ≡ true))
    ⊎ ((is_run s.server_tcp.work_status ≡ false)
        × (eqb_ℤ (create_server a s.server_tcp).0 (pos 0) ≡ false))
    ⊎ (any_error answers ≡ true)

-- Opening the socket does not change the status.
pub create_server-status :
    (a : CreateAnswers) (tcp : ServerTcp) → (create_server a tcp).1.work_status ≡ tcp.work_status
unfolding create_server
create_server-status a tcp = ground arith

pub start_server_s-error :
    (n : ℕ) (a : CreateAnswers) (answers : List AcceptAnswer) (tcp : ServerTcp)
    → is_run tcp.work_status ≡ false
    → (eqb_ℤ (create_server a tcp).0 (pos 0) ≡ false) ⊎ (any_error answers ≡ true)
    → is_run (start_server_s n a answers tcp).2.work_status ≡ false
unfolding start_server_s close_c
start_server_s-error n a answers tcp off h = elim (Bool-cases (is_stopped tcp.work_status)) [
  | inr busy ↦ rw busy off
  | inl free ↦ elim (Bool-cases (eqb_ℤ (create_server a tcp).0 (pos 0))) [
    | inr e ↦ rw (free, e) (ap is_run (create_server-status a tcp) ∙ off)
    | inl e ↦ elim h [
      | inl f ↦ absurd (true≢false (sym e ∙ f))
      | inr error ↦
          rw (free, e) (run_server-status n answers (create_server a tcp).1 ∙ ap not error)
    ]
  ]
]

pub listens-Ends :
    (n : ℕ) (a : CreateAnswers) (answers : List AcceptAnswer) (s : ServerThreads)
    → Ends a answers s
    → is_run (listens n a answers s).work_status ≡ false
unfolding listens
listens-Ends n a answers s (inl (off, ended)) = rw (off, ended) off
listens-Ends n a answers s (inr (inl (off, closed))) = elim (Bool-cases s.listen_ended) [
  | inl e ↦ rw (off, e) off
  | inr e ↦ rw (off, e) (start_server_s-error n a answers s.server_tcp off (inl closed))
]
listens-Ends n a answers s (inr (inr error)) = elim (Bool-cases (is_run s.server_tcp.work_status)) [
  | inl on ↦ rw on (run_server-status n answers s.server_tcp ∙ ap not error)
  | inr off ↦ elim (Bool-cases s.listen_ended) [
    | inl e ↦ rw (off, e) off
    | inr e ↦ rw (off, e) (start_server_s-error n a answers s.server_tcp off (inr error))
  ]
]
