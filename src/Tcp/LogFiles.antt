-- ===== src/Tcp/LogFiles.antt =====
-- tcp/raft_tcp_common.cpp: the log files, to which what is printed on the standard streams is
-- written too. A `FILE*` is an address; a text is the list of its bytes.
pub mod Closing
use cpp_raft.Base.{
  ◌==◌, ltb, if◌then◌else◌, ℕ, suc, ◌+◌, ◌%◌, ◌^◌, ◌≡◌, refl, Bool, true, false, not, ◌&&◌, Option,
  none, some, List, [], ◌∷◌, ◌++◌,
}
use cpp_raft.Node.{Ptr, null}
use cpp_raft.Outcome.{Outcome, ok, undefined}

-- A file, whether the code opened it, and its name.
pub record LogFile : Type 0 where
  pub file : Ptr
  pub should_be_closed : Bool
  pub name : List ℕ

-- What was opened and closed, what was written to which file, and which names were renamed.
pub record Disk : Type 0 where
  pub opened : List Ptr
  pub closed : List Ptr
  pub written : List (Ptr × List ℕ)
  pub flushed : List Ptr
  pub renamed : List (List ℕ)

pub record Logs : Type 0 where
  pub log : LogFile
  pub error_log : LogFile
  pub cleanup_inited : Bool
  pub file_maximum_size : ℕ
  pub time_to_reset : ℕ
  pub error_time_to_reset : ℕ
  pub disk : Disk

abbrev no_file : LogFile
no_file = record { file = null; should_be_closed = false; name = [] }

unfoldable pub new_logs : Logs
new_logs = record {
  log = no_file;
  error_log = no_file;
  cleanup_inited = false;
  file_maximum_size = 100000000;
  time_to_reset = 0;
  error_time_to_reset = 0;
  disk = record { opened = []; closed = []; written = []; flushed = []; renamed = [] };
}

-- `fopen`, of which the result is given.
abbrev pub fopen : Ptr → Disk → Disk
fopen result d = if result == null then d else record d { opened = d.opened ++ result ∷ [] }

abbrev pub fclose : Ptr → Disk → Disk
fclose file d = record d { closed = d.closed ++ file ∷ [] }

abbrev pub close_own : LogFile → Disk → Disk
close_own l d = if not (l.file == null) && l.should_be_closed then fclose l.file d else d

-- `OpenLogFileStatic`, with what `fopen` returns.
unfoldable pub open_log_file_static : Ptr → LogFile → Disk → LogFile × Disk
open_log_file_static result l d = (
  record l { file = result; should_be_closed = not (result == null) },
  fopen result (close_own l d),
)

unfoldable pub open_raft_log_file : List ℕ → Ptr → Logs → Ptr × Logs
unfolding open_log_file_static
open_raft_log_file name result s =
    let (l, d) = open_log_file_static result (record s.log { name = name }) s.disk in
    (l.file, record s { log = l; disk = d; cleanup_inited = true })

unfoldable pub open_raft_error_log_file : List ℕ → Ptr → Logs → Ptr × Logs
unfolding open_log_file_static
open_raft_error_log_file name result s =
    let (l, d) = open_log_file_static result (record s.error_log { name = name }) s.disk in
    (l.file, record s { error_log = l; disk = d; cleanup_inited = true })

abbrev given_file : Ptr → LogFile → LogFile
given_file file l = record l { file = file; should_be_closed = false }

-- A file that the code opened before is not closed.
unfoldable pub set_raft_log_file : Ptr → Logs → Logs
set_raft_log_file file s = record s { log = given_file file s.log }

unfoldable pub set_raft_error_log_file : Ptr → Logs → Logs
set_raft_error_log_file file s = record s { error_log = given_file file s.error_log }

-- `CleanLogFilesInTheEndStatic`, called at the exit.
unfoldable pub clean_log_files_in_the_end_static : Logs → Logs
clean_log_files_in_the_end_static s = record s {
  log = given_file null s.log;
  error_log = given_file null s.error_log;
  disk = close_own s.error_log (close_own s.log s.disk);
}

-- `MoveFileAndResetContent`, with the size that `fstat` tells, if it does, and what `fopen` returns
-- for the file anew. The descriptor of no file must not be asked for.
unfoldable pub move_file_and_reset_content :
    ℕ → Option ℕ → Ptr → LogFile → Disk → Outcome (LogFile × Disk)
move_file_and_reset_content maximum size result l d =
    if l.should_be_closed
    then (if l.file == null then undefined else elim size [
      | none ↦ ok (l, d)
      | some n ↦
          if ltb maximum n
          then ok (
            record l { file = result },
            fopen result
                (let e = fclose l.file d in record e { renamed = e.renamed ++ l.name ∷ [] }),
          )
          else ok (l, d)
    ])
    else ok (l, d)

abbrev flush_file : Ptr → Disk → Disk
flush_file file d = record d { flushed = d.flushed ++ file ∷ [] }

unfoldable pub flush_log_files_if_non_null : Logs → Logs
flush_log_files_if_non_null s =
    let d = if s.log.file == null then s.disk else flush_file s.log.file s.disk in
    record s {
      disk =
          if not (s.log.file == s.error_log.file) && not (s.error_log.file == null)
          then flush_file s.error_log.file d
          else d;
    }

-- The standard streams, and another file.
pub data Stream : Type 0 where
  out err : Stream
  other : Ptr → Stream

-- What is written to a log file: every thousandth time it is flushed, and moved if it is too long.
-- Writing to no file, and counting beyond an `int`, is undefined.
unfoldable pub write_log :
    ℕ → Option ℕ → Ptr → List ℕ → ℕ → LogFile → Disk → Outcome (LogFile × Disk)
unfolding move_file_and_reset_content
write_log maximum size result text count l d =
    if l.file == null
    then undefined
    else if ltb (count + 1) (2 ^ 31)
    then (let e = record d { written = d.written ++ (l.file, text) ∷ [] } in
        if (count + 1) % 1000 == 0
        then move_file_and_reset_content maximum size result l (flush_file l.file e)
        else ok (l, e))
    else undefined

-- `fprintfOnBothFilesIfNeededStatic`, of a text that is formatted, with what `vfprintf` returns for
-- the stream, and what is returned if a log file is to be moved. The file for errors is not looked
-- at before it is written to.
unfoldable pub fprintf_on_both_files_if_needed_static :
    ℕ → Option ℕ → Ptr → Stream → List ℕ → Logs → Outcome (ℕ × Logs)
unfolding write_log
fprintf_on_both_files_if_needed_static printed size result out text s =
    if s.log.file == null
    then ok (printed, s)
    else elim (write_log s.file_maximum_size size result text s.time_to_reset s.log s.disk) [
      | ok (l, d) ↦
          ok (printed, record s { log = l; disk = d; time_to_reset = s.time_to_reset + 1 })
      | cpp_raft.Outcome.throws x ↦ cpp_raft.Outcome.throws x
      | undefined ↦ undefined
    ]
fprintf_on_both_files_if_needed_static printed size result err text s =
    if s.log.file == null
    then ok (printed, s)
    else elim (write_log s.file_maximum_size size result text s.error_time_to_reset s.error_log
        s.disk) [
          | ok (l, d) ↦ ok (
            printed,
            record s { error_log = l; disk = d; error_time_to_reset = s.error_time_to_reset + 1 },
          )
          | cpp_raft.Outcome.throws x ↦ cpp_raft.Outcome.throws x
          | undefined ↦ undefined
        ]
fprintf_on_both_files_if_needed_static printed size result (other f) text s = ok (printed, s)

-- `fprintfWithTime`: the time and then the text, with what is returned for both.
unfoldable pub fprintf_with_time :
    ℕ → ℕ → Option ℕ → Ptr → Stream → List ℕ → List ℕ → Logs → Outcome (ℕ × Logs)
unfolding fprintf_on_both_files_if_needed_static
fprintf_with_time printed printed' size result stream time text s =
    elim (fprintf_on_both_files_if_needed_static printed size result stream time s) [
      | ok (n, t) ↦
          elim (fprintf_on_both_files_if_needed_static printed' size result stream text t) [
            | ok (m, u) ↦ ok (n + m, u)
            | cpp_raft.Outcome.throws x ↦ cpp_raft.Outcome.throws x
            | undefined ↦ undefined
          ]
      | cpp_raft.Outcome.throws x ↦ cpp_raft.Outcome.throws x
      | undefined ↦ undefined
    ]
