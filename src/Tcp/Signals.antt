-- ===== src/Tcp/Signals.antt =====
-- tcp/raft_tcp_server.cpp, `SigHandlerStatic`: what a signal does, on Linux.
use mathlib.Core.Path.{ap₂}
use mathlib.Core.List.{append-nil, append_assoc}
use cpp_raft.Base.{
  sym, suc, ltb, if◌then◌else◌, is_empty, length, not, ◌&&◌, Bool-cases, inl, inr, ℕ, ◌+◌, ◌≡◌,
  refl, ap, ◌∙◌, Bool, true, false, Option, none, some, List, [], ◌∷◌, ◌++◌, map, arith,
}
use cpp_raft.Node.{Ptr}

pub data Signal : Type 0 where
  sigabrt sigtstp sigfpe sigill sigint sigterm sigsegv sigpipe other_signal : Signal

-- The method of a server, the signal sent on to the main thread, and the writing of the log files.
pub data HandlerCall : Type 0 where
  signal_handler : Ptr → Signal → HandlerCall
  interrupt_main flush_log_files : HandlerCall

-- `interrupt_count` is `snSigIntCount`, and `application_run` is `g_nApplicationRun`.
pub record Handling : Type 0 where
  pub interrupt_count : ℕ
  pub application_run : Bool
  pub calls : List HandlerCall

-- How the `switch` ends for one server: behind it, in a `return`, or in `exit`.
pub data Reaction : Type 0 where
  goes_on leaves : Handling → Reaction
  ends_program : Reaction

abbrev pub called : HandlerCall → Handling → Handling
called c h = record h { calls = h.calls ++ c ∷ [] }

-- On the main thread the count is tested before it grows.
unfoldable pub interrupt : Bool → Handling → Reaction
interrupt on_main h =
    let stopping = record h { application_run = false } in
    if not on_main
    then goes_on (called interrupt_main stopping)
    else if ltb 1 h.interrupt_count
    then ends_program
    else goes_on (record stopping { interrupt_count = h.interrupt_count + 1 })

-- The `switch`; `log_files` says whether the program is built with log files.
unfoldable pub react : Bool → Bool → Signal → Handling → Reaction
unfolding interrupt
react log_files on_main sigabrt h =
    if log_files then leaves (called flush_log_files h) else goes_on h
react log_files on_main sigtstp h =
    if log_files then leaves (called flush_log_files h) else goes_on h
react log_files on_main sigint h = interrupt on_main h
react log_files on_main sigterm h = interrupt on_main h
react log_files on_main _ h = goes_on h

-- The loop over the servers, in the order of the registry; none if the program ends in it.
unfoldable pub sig_handler_static : Bool → Bool → Signal → List Ptr → Handling → Option Handling
unfolding react
sig_handler_static log_files on_main sig [] h = some h
sig_handler_static log_files on_main sig (p ∷ ps) h = elim (react log_files on_main sig h) [
  | ends_program ↦ none
  | leaves g ↦ some g
  | goes_on g ↦ sig_handler_static log_files on_main sig ps (called (signal_handler p sig) g)
]

-- The state after the loop over `n` servers with those calls.
abbrev pub handled : ℕ → Bool → List HandlerCall → Handling → Handling
handled n stop calls h = record {
  interrupt_count = n + h.interrupt_count;
  application_run = if stop then false else h.application_run;
  calls = h.calls ++ calls;
}

handled-none : (h : Handling) → handled 0 false [] h ≡ h
handled-none h =
    ap₂ (λ (n : ℕ) (cs : List HandlerCall). record h { interrupt_count = n; calls = cs })
      (omega arith) (append-nil h.calls)

always_stops : (b : Bool) → (if b then false else false) ≡ false
always_stops true = refl
always_stops false = refl

same_test :
    (ps : List Ptr) (count : ℕ)
    → ltb 1 count ≡ false
    → (not (is_empty ps) && ltb 2 (length ps + (count + 1))) ≡ ltb 2 (suc (length ps) + count)
same_test [] count e = ground (arith, e)
same_test (p ∷ ps) count e = ground arith

handled-more :
    (p : Ptr) (ps : List Ptr) (h : Handling)
    → handled (length ps) (not (is_empty ps)) (map (λ q. signal_handler q sigint) ps) (
        called
          (signal_handler p sigint)
          (record h { application_run = false; interrupt_count = h.interrupt_count + 1 }))
      ≡ handled (suc (length ps)) true (map (λ q. signal_handler q sigint) (p ∷ ps)) h
handled-more p ps h =
    ap₂
      (λ (n : ℕ) (cs : List HandlerCall). record {
        interrupt_count = n;
        application_run = if not (is_empty ps) then false else false;
        calls = cs;
      })
      (omega arith)
      (append_assoc h.calls (signal_handler p sigint ∷ []) (map (λ q. signal_handler q sigint) ps))
    ∙ ap
        (λ (b : Bool). record h {
          interrupt_count = suc (length ps) + h.interrupt_count;
          application_run = b;
          calls = h.calls ++ signal_handler p sigint ∷ map (λ q. signal_handler q sigint) ps;
        })
        (always_stops (not (is_empty ps)))

-- An interrupt on the main thread counts once for each server, not once for each signal. With the
-- count before it, three in all end the program in the middle of the loop; with fewer, the handler
-- of every server is called once, in order, and the application is told to stop if there is one.
pub interrupts_count_servers :
    (log_files : Bool) (ps : List Ptr) (h : Handling)
    → sig_handler_static log_files true sigint ps h ≡ (
        if not (is_empty ps) && ltb 2 (length ps + h.interrupt_count)
        then none
        else some
            (handled (length ps) (not (is_empty ps)) (map (λ p. signal_handler p sigint) ps) h))
unfolding sig_handler_static react interrupt
interrupts_count_servers log_files [] h = ap some (sym (handled-none h))
interrupts_count_servers log_files (p ∷ ps) h = elim (Bool-cases (ltb 1 h.interrupt_count)) [
  | inl e ↦
      let many : ltb 2 (suc (length ps) + h.interrupt_count) ≡ true = ground (arith, e) in
      rw (sig_handler_static, e, many) refl
  | inr e ↦
      rw (sig_handler_static, e)
        (interrupts_count_servers log_files ps _
          ∙ rw (same_test ps h.interrupt_count e, handled-more p ps h) refl)
]
