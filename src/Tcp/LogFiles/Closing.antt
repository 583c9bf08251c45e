-- ===== src/Tcp/LogFiles/Closing.antt =====
-- The log files that are opened, and those that are closed.
use cpp_raft.Base.{
  ◌==◌, ltb, if◌then◌else◌, Bool-cases, ℕ, ◌+◌, ◌%◌, ◌^◌, ◌<◌, ◌≤◌, ◌≡◌, inl, inr, refl, ap, ◌∙◌,
  Bool, true, false, not, ◌&&◌, Option, none, some, List, [], ◌∷◌, ◌++◌, arith, length,
}
use cpp_raft.Sums.{times, times-append}
use cpp_raft.Node.{Ptr, null}
use cpp_raft.Outcome.{Outcome, ok, undefined}
use cpp_raft.Tcp.LogFiles.{
  LogFile, Disk, Logs, new_logs, fopen, fclose, close_own, open_log_file_static, open_raft_log_file,
  clean_log_files_in_the_end_static, move_file_and_reset_content, flush_file,
  flush_log_files_if_non_null, out, write_log, fprintf_on_both_files_if_needed_static,
}

-- The file that the code is to close.
abbrev pub owned : LogFile → List Ptr
owned l = if not (l.file == null) && l.should_be_closed then l.file ∷ [] else []

-- Every file was opened once more than it was closed, or as often, as it is open or not.
abbrev pub Balanced : LogFile → Disk → Type 0
Balanced l d = (i : Ptr) → times i d.opened ≡ times i d.closed + times i (owned l)

close_own-closed :
    (i : Ptr) (l : LogFile) (d : Disk)
    → times i (close_own l d).closed ≡ times i d.closed + times i (owned l)
close_own-closed i l d = elim (Bool-cases (not (l.file == null) && l.should_be_closed)) [
  | inl e ↦ rw e (times-append i d.closed (l.file ∷ []))
  | inr e ↦ rw e (omega arith)
]

close_own-opened : (l : LogFile) (d : Disk) → (close_own l d).opened ≡ d.opened
close_own-opened l d = elim (Bool-cases (not (l.file == null) && l.should_be_closed)) [
  | inl e ↦ rw e refl
  | inr e ↦ rw e refl
]

fopen-opened :
    (i result : Ptr) (flag : Bool) (name : List ℕ) (d : Disk)
    → (not (result == null) && flag) ≡ not (result == null)
    → (times i (fopen result d).opened
        ≡ times i d.opened
          + times i (owned (record { file = result; should_be_closed = flag; name = name })))
      × ((fopen result d).closed ≡ d.closed)
fopen-opened i result flag name d h = elim (Bool-cases (result == null)) [
  | inl e ↦ rw (h, e) (omega arith, refl)
  | inr e ↦ rw (h, e) (times-append i d.opened (result ∷ []), refl)
]

both_flags : (b : Bool) → ((b && b) ≡ b) × ((b && true) ≡ b)
both_flags true = (refl, refl)
both_flags false = (refl, refl)

open-Balanced :
    (result : Ptr) (l : LogFile) (d : Disk)
    → Balanced l d
    → let (m, e) = open_log_file_static result l d in Balanced m e
unfolding open_log_file_static
open-Balanced result l d h i =
    let (a, b) =
      fopen-opened i result (not (result == null)) l.name (close_own l d)
        (both_flags (not (result == null))).0 in
    omega
      (arith, a, ap (times i) b, close_own-closed i l d, ap (times i) (close_own-opened l d), h i)

-- What is moved is owned, and there.
abbrev own_file : Ptr → Bool → List ℕ → LogFile
own_file file flag name = record { file = file; should_be_closed = flag; name = name }

-- What is moved is there.
move-Balanced :
    (maximum : ℕ) (size : Option ℕ) (result file : Ptr) (flag : Bool) (name : List ℕ) (d : Disk)
    → (file == null) ≡ false
    → Balanced (own_file file flag name) d
    → (m : LogFile) × (e : Disk) × (move_file_and_reset_content maximum size result
          (own_file file flag name)
          d
        ≡ ok (m, e))
      × Balanced m e
unfolding move_file_and_reset_content
move-Balanced maximum size result file false name d there h = (own_file file false name, d, refl, h)
move-Balanced maximum none result file true name d there h =
    (own_file file true name, d, rw there refl, h)
move-Balanced maximum (some n) result file true name d there h = elim (Bool-cases (ltb maximum n)) [
  | inr e ↦ (own_file file true name, d, rw (there, e) refl, h)
  | inl e ↦
      let closed = fclose file d in
      let moved = record closed { renamed = closed.renamed ++ name ∷ [] } in
      (
        own_file result true name,
        fopen result moved,
        rw (there, e) refl,
        λ i.
            let (a, b) =
              fopen-opened i result true name moved (both_flags (not (result == null))).1 in
            let mine : times i (owned (own_file file true name)) ≡ times i (file ∷ []) =
              rw there refl in
            omega (arith, a, ap (times i) b, h i, mine, times-append i d.closed (file ∷ [])),
      )
]

-- What is written to the file that is there, before the counter ends.
write-Balanced :
    (maximum : ℕ) (size : Option ℕ) (result : Ptr) (text : List ℕ) (count : ℕ) (l : LogFile)
    (d : Disk)
    → (l.file == null) ≡ false
    → count + 1 < 2 ^ 31
    → Balanced l d
    → (m : LogFile) × (e : Disk) × (write_log maximum size result text count l d ≡ ok (m, e))
      × Balanced m e
unfolding write_log
write-Balanced maximum size result text count l d there few h =
    let e = record d { written = d.written ++ (l.file, text) ∷ [] } in
    let below : ltb (count + 1) (2 ^ 31) ≡ true = ground (arith, few) in
    elim (Bool-cases ((count + 1) % 1000 == 0)) [
      | inl f ↦
          let flushed = flush_file l.file e in
          let (m, e', g, k) =
            move-Balanced maximum size result l.file l.should_be_closed l.name flushed there h in
          let moves : write_log maximum size result text count l d
              ≡ move_file_and_reset_content maximum size result l flushed =
            rw (there, below, f) refl in
          (m, e', moves ∙ g, k)
      | inr f ↦ (l, e, rw (there, below, f) refl, h)
    ]

-- What a program does with the file for the usual output, from the start on.
pub data Use : Type 0 where
  opens : List ℕ → Ptr → Use
  prints : ℕ → Option ℕ → Ptr → List ℕ → Use
  flushes : Use

abbrev pub number_dropped : Outcome (ℕ × Logs) → Outcome Logs
number_dropped (ok (n, t)) = ok t
number_dropped (cpp_raft.Outcome.throws x) = cpp_raft.Outcome.throws x
number_dropped undefined = undefined

abbrev pub use_log : Use → Logs → Outcome Logs
use_log (opens name result) s = ok (open_raft_log_file name result s).1
use_log (prints printed size result text) s =
    number_dropped (fprintf_on_both_files_if_needed_static printed size result out text s)
use_log flushes s = ok (flush_log_files_if_non_null s)

-- A program that only opens, prints and flushes.
abbrev pub use_logs : List Use → Logs → Outcome Logs
use_logs [] s = ok s
use_logs (u ∷ us) s = elim (use_log u s) [
  | ok t ↦ use_logs us t
  | cpp_raft.Outcome.throws x ↦ cpp_raft.Outcome.throws x
  | undefined ↦ undefined
]

abbrev Kept : Logs → Type 0
Kept s = Balanced s.log s.disk × (owned s.error_log ≡ [])

flush_if :
    (b : Bool) (file : Ptr) (d : Disk)
    → ((if b then flush_file file d else d).opened ≡ d.opened)
      × ((if b then flush_file file d else d).closed ≡ d.closed)
      × ((if b then d else flush_file file d).opened ≡ d.opened)
      × ((if b then d else flush_file file d).closed ≡ d.closed)
flush_if true file d = (refl, refl, refl, refl)
flush_if false file d = (refl, refl, refl, refl)

flush-keeps :
    (s : Logs)
    → ((flush_log_files_if_non_null s).disk.opened ≡ s.disk.opened)
      × ((flush_log_files_if_non_null s).disk.closed ≡ s.disk.closed)
unfolding flush_log_files_if_non_null
flush-keeps s =
    let d = if s.log.file == null then s.disk else flush_file s.log.file s.disk in
    let (_, _, a, b) = flush_if (s.log.file == null) s.log.file s.disk in
    let (c, e, _, _) =
      flush_if (not (s.log.file == s.error_log.file) && not (s.error_log.file == null))
        s.error_log.file d in
    (c ∙ a, e ∙ b)

abbrev put : ℕ → Logs → Outcome (LogFile × Disk) → Outcome (ℕ × Logs)
put printed s r = elim r [
  | ok (l, d) ↦ ok (printed, record s { log = l; disk = d; time_to_reset = s.time_to_reset + 1 })
  | cpp_raft.Outcome.throws x ↦ cpp_raft.Outcome.throws x
  | undefined ↦ undefined
]

print-out :
    (printed : ℕ) (size : Option ℕ) (result : Ptr) (text : List ℕ) (s : Logs)
    → (s.log.file == null) ≡ false
    → fprintf_on_both_files_if_needed_static printed size result out text s
      ≡ put printed s (write_log s.file_maximum_size size result text s.time_to_reset s.log s.disk)
unfolding fprintf_on_both_files_if_needed_static
print-out printed size result text s e = rw e refl

use_log-Kept :
    (u : Use) (s : Logs)
    → s.time_to_reset + 1 < 2 ^ 31
    → Kept s
    → (t : Logs) × (use_log u s ≡ ok t) × Kept t × (t.time_to_reset ≤ s.time_to_reset + 1)
unfolding open_raft_log_file fprintf_on_both_files_if_needed_static flush_log_files_if_non_null
use_log-Kept (opens name result) s few (h, k) =
    (_, refl, (open-Balanced result (record s.log { name = name }) s.disk h, k), omega arith)
use_log-Kept flushes s few (h, k) =
    let (a, b) = flush-keeps s in
    (
      flush_log_files_if_non_null s,
      refl,
      (λ i. omega (arith, ap (times i) a, ap (times i) b, h i), k),
      omega arith,
    )
use_log-Kept (prints printed size result text) s few (h, k) =
    elim (Bool-cases (s.log.file == null)) [
      | inl e ↦ (s, rw (use_log, e) refl, (h, k), omega arith)
      | inr e ↦
          let (m, d, f, g) =
            write-Balanced s.file_maximum_size size result text s.time_to_reset s.log s.disk e few
              h in
          (
            record s { log = m; disk = d; time_to_reset = s.time_to_reset + 1 },
            ap number_dropped (print-out printed size result text s e ∙ ap (put printed s) f),
            (g, k),
            omega arith,
          )
    ]

use_logs-Kept :
    (us : List Use) (s : Logs)
    → s.time_to_reset + length us < 2 ^ 31
    → Kept s
    → (t : Logs) × (use_logs us s ≡ ok t) × Kept t
use_logs-Kept [] s few h = (s, refl, h)
use_logs-Kept (u ∷ us) s few h =
    let (t, e, k, more) = use_log-Kept u s (omega (arith, few)) h in
    let (v, f, g) = use_logs-Kept us t (omega (arith, few, more)) k in (v, rw (use_logs, e) f, g)

-- A program that opens the file for the usual output, under whatever names, prints on it and flushes
-- it, fewer than 2 ^ 31 times and in any order, never does what is undefined, and at its exit every
-- file that it opened has been closed as often as it was opened: also those that were replaced by
-- another, and those that were moved because they were too long.
pub use_logs-closed :
    (us : List Use)
    → length us < 2 ^ 31
    → (t : Logs) × (use_logs us new_logs ≡ ok t)
      × ((i : Ptr)
          → times i (clean_log_files_in_the_end_static t).disk.closed ≡ times i t.disk.opened)
unfolding clean_log_files_in_the_end_static new_logs
use_logs-closed us few =
    let (t, e, (h, k)) = use_logs-Kept us new_logs (omega (arith, few)) ((λ i. refl), refl) in
    (
      t,
      e,
      λ i. omega (
        arith,
        close_own-closed i t.error_log (close_own t.log t.disk),
        ap (times i) k,
        close_own-closed i t.log t.disk,
        h i,
      ),
    )
