-- ===== src/Tcp/Selecting.antt =====
-- tcp/raft_tcp_server.cpp: what the thread that receives gives to `select`. A variable that has no
-- value yet is `none`.
pub mod Watching
use mathlib.Core.Bool.{true≢false}
use cpp_raft.Base.{
  ◌==◌, if◌then◌else◌, Bool-cases, length, ℤ, ◌≤ℤ◌, ltb_ℤ, eqb_ℤ, pos_part, neg_part, pos, negsuc,
  ℕ, suc, ◌+◌, ◌≤◌, ◌≡◌, refl, sym, ap, ◌∙◌, inl, inr, Bool, true, false, not, ◌&&◌, Option, none,
  some, List, [], ◌∷◌, ◌++◌, arith,
}
use mathlib.Core.List.{append-nil, append_assoc}
use cpp_raft.Node.{Ptr}
use cpp_raft.Outcome.{Outcome, ok, undefined}
use cpp_raft.Tcp.State.{TcpServer, tools_of}
use cpp_raft.Tcp.Tools.{raft_index, get_socket_num}

-- `rFds`, `eFds`, `nCountInFd` and `nMax`
pub record SelectSets : Type 0 where
  pub read_fds : List ℤ
  pub error_fds : List ℤ
  pub count_in_fd : ℕ
  pub max : Option ℤ

-- `FD_SETSIZE`: a set has no place for a larger descriptor.
abbrev pub fd_setsize : ℤ
fd_setsize = pos 1024

-- The socket by which the thread is interrupted is watched for errors; without it `nMax` keeps its
-- value of the round before.
unfoldable pub empty_sets : ℤ → Option ℤ → Outcome SelectSets
empty_sets info old_max =
    if ltb_ℤ (pos 0) info
    then (if ltb_ℤ info fd_setsize
        then ok (record { read_fds = []; error_fds = info ∷ []; count_in_fd = 1; max = some info })
        else undefined)
    else ok (record { read_fds = []; error_fds = []; count_in_fd = 0; max = old_max })

unfoldable pub fd_set : ℤ → SelectSets → Outcome SelectSets
fd_set fd s = elim s.max [
  | none ↦ undefined
  | some m ↦
      if ltb_ℤ fd fd_setsize
      then ok (record {
        read_fds = s.read_fds ++ fd ∷ [];
        error_fds = s.error_fds ++ fd ∷ [];
        count_in_fd = s.count_in_fd + 1;
        max = some (if ltb_ℤ m fd then fd else m);
      })
      else undefined
]

-- The loop over the nodes.
unfoldable pub set_nodes : ℤ → ℤ → TcpServer → List Ptr → SelectSets → Outcome SelectSets
unfolding fd_set get_socket_num
set_nodes index to_ignore t [] s = ok s
set_nodes index to_ignore t (p ∷ ps) s =
    if p == t.raft.this_node
    then set_nodes index to_ignore t ps s
    else elim (get_socket_num index (tools_of p t)) [
      | cpp_raft.Outcome.throws x ↦ cpp_raft.Outcome.throws x
      | undefined ↦ undefined
      | ok fd ↦
          if ltb_ℤ (pos 0) fd && not (eqb_ℤ fd to_ignore)
          then elim (fd_set fd s) [
            | cpp_raft.Outcome.throws x ↦ cpp_raft.Outcome.throws x
            | undefined ↦ undefined
            | ok u ↦ set_nodes index to_ignore t ps u
          ]
          else set_nodes index to_ignore t ps s
    ]

-- The part of `FunctionForMultiRcv` before `select`: what is watched.
unfoldable pub prepare_select : ℤ → ℤ → ℤ → Option ℤ → TcpServer → Outcome SelectSets
unfolding empty_sets set_nodes
prepare_select info index to_ignore old_max t = elim (empty_sets info old_max) [
  | cpp_raft.Outcome.throws x ↦ cpp_raft.Outcome.throws x
  | undefined ↦ undefined
  | ok s ↦ set_nodes index to_ignore t t.raft.nodes s
]

-- The socket to leave out in the next round, after what `select` returned. The last socket that was
-- read is forgotten before the call.
unfoldable pub next_to_ignore : ℤ → ℤ
next_to_ignore select_return =
    let last_socket = negsuc 0 in if ltb_ℤ select_return (pos 0) then last_socket else negsuc 0
