-- ===== src/Server/Appending/Receiving.antt =====
-- `recv_appendentries` as a whole.
use mathlib.Core.Path.{subst}
use cpp_raft.Base.{
  ◌<◌, sym, if◌then◌else◌, Bool-cases, length, ℤ, neg_part, ◌≤ℤ◌, ◌<ℤ◌, ltb_ℤ, pos, ◌≡◌, refl, ap,
  ◌∙◌, ◌⊎◌, inl, inr, Bool, List, [], ◌∷◌, arith,
}
use cpp_raft.Msg.{MsgEntry, MsgAppendEntries, empty_entry, populate_from_msg_entry}
use cpp_raft.Node.{Ptr}
use cpp_raft.Log.{Log, log_append_entry}
use cpp_raft.Server.State.{is_leader, is_candidate, Server, set_current_term, send, returns}
use cpp_raft.Server.Election.{become_follower}
use cpp_raft.Server.Applying.{append_entry}
use cpp_raft.Server.Appending.{
  reply_failure, reply_success, append_all, accept, proceed, recv_appendentries,
}
use cpp_raft.Server.Appending.Whole.{Whole, accept-last, accept-Whole, replied_log}
use cpp_raft.Server.Appending.Previous.{IdsFit, Sound, checked}
use cpp_raft.Server.Appending.Following.{max_index, Fitting, Below, followed}

-- The timer is reset when the call says so.
abbrev pub timed : Bool → Server → Server
timed as_response s = if as_response then record s { timeout_elapsed = pos 0 } else s

-- A message of an earlier term is refused: the server answers with its own term and changes in
-- nothing but the timer and the message sent.
pub receive_stale :
    (as_response : Bool) (p : Ptr) (ae : MsgAppendEntries) (s : Server)
    → ae.term <ℤ s.current_term
    → recv_appendentries as_response p ae s
      ≡ returns 1 (reply_failure p s.current_term (timed as_response s))
unfolding recv_appendentries
receive_stale as_response p ae s h = ground arith

-- Whatever the message, the term is kept or raised to that of the message.
append_all-term :
    (ms : List MsgEntry) (s : Server) → (append_all ms s).1.current_term ≡ s.current_term
unfolding append_all append_entry log_append_entry populate_from_msg_entry
append_all-term [] s = refl
append_all-term (m ∷ ms) s = ground (
  arith,
  append_all-term ms
      (append_entry (populate_from_msg_entry (record empty_entry { term = s.current_term }) m) s).1,
)

accept-term :
    (p : Ptr) (term : ℤ) (ae : MsgAppendEntries) (s : Server)
    → (accept p term ae s).current_term ≡ ae.term
unfolding accept reply_failure reply_success send set_current_term become_follower
accept-term p term ae s =
    let t = if is_candidate s.state then become_follower s else s in
    ground (arith, append_all-term ae.entries (record t { current_term = ae.term }))

proceeds :
    (p : Ptr) (term : ℤ) (ae : MsgAppendEntries) (s : Server)
    → Sound s
    → Fitting ae s
    → (t : Server) × (proceed p term ae s ≡ returns 1 t)
      × ((t.current_term ≡ s.current_term) ⊎ (t.current_term ≡ ae.term))
      × Whole t.log
      × Below s t
unfolding proceed reply_failure send
proceeds p term ae s sound h =
    let (b, l, run, fit, kept, less) = checked ae s sound.ids h.whole in
    elim (Bool-cases b) [
      | inr stop ↦ (
        reply_failure p term (record s { log = l }),
        rw (proceed, run, stop),
        inl (ground arith),
        subst Whole (replied_log p term (record s { log = l })) kept,
        inl (ground arith),
      )
      | inl go ↦
          let (t, run', f) =
            followed ae (record s { log = l }) (record { commit = sound.commit; ids = fit })
              h.commit (omega (arith, h.short, less)) in
          (
            accept p term ae t,
            rw (proceed, run, go, run'),
            inr (accept-term p term ae t),
            accept-Whole p term ae t h.carried (subst Whole (sym f.log) kept),
            ground (arith, f.last, accept-last p term ae t),
          )
    ]

-- The server that goes on with a message that is not behind: a leader has stepped down.
abbrev pub settled : Bool → Server → Server
settled as_response s =
    if is_leader s.state then become_follower (timed as_response s) else timed as_response s

receive_fresh :
    (as_response : Bool) (p : Ptr) (ae : MsgAppendEntries) (s : Server)
    → s.current_term ≤ℤ ae.term
    → recv_appendentries as_response p ae s ≡ proceed p s.current_term ae (settled as_response s)
unfolding recv_appendentries become_follower
receive_fresh as_response p ae s h = ground arith

settled-same :
    (as_response : Bool) (ae : MsgAppendEntries) (s : Server)
    → Sound s
    → Fitting ae s
    → Sound (settled as_response s)
      × Fitting ae (settled as_response s)
      × ((settled as_response s).current_term ≡ s.current_term)
      × ((settled as_response s).last_applied_idx ≡ s.last_applied_idx)
unfolding become_follower
settled-same as_response ae s sound h =
    let same : (settled as_response s).log ≡ s.log = ground arith in
    let commit : (settled as_response s).commit_idx ≡ s.commit_idx = ground arith in
    (
      record {
        commit = ap neg_part commit ∙ sound.commit;
        ids = subst IdsFit (sym same) sound.ids;
      },
      record {
        whole = subst Whole (sym same) h.whole;
        carried = h.carried;
        commit = h.commit;
        short = subst (λ (l : Log). length l < max_index) (sym same) h.short;
      },
      ground arith,
      ground arith,
    )

-- The handler always ends and returns 1, integers taken as unbounded: it throws nothing, no access
-- to the log or to the bytes of an entry is undefined, and its loop stops. This is for a server whose
-- commit index and ids are not negative and whose log has fewer than 2 ^ 31 - 1 entries, and for a
-- message with a commit index below 2 ^ 31 - 1, each of whose entries has as many bytes as it says.
-- The current term does not fall, and if it changes it becomes the message's; each entry of the log
-- has as many bytes as it says, if it was so before; and the last index applied stays, or ends below
-- 2 ^ 31 - 1.
pub receive_total :
    (as_response : Bool) (p : Ptr) (ae : MsgAppendEntries) (s : Server)
    → Sound s
    → Fitting ae s
    → (t : Server) × (recv_appendentries as_response p ae s ≡ returns 1 t)
      × (s.current_term ≤ℤ t.current_term)
      × ((t.current_term ≡ s.current_term) ⊎ (t.current_term ≡ ae.term))
      × Whole t.log
      × Below s t
unfolding reply_failure send
receive_total as_response p ae s sound h = elim (Bool-cases (ltb_ℤ ae.term s.current_term)) [
  | inl stale ↦
      let same : (timed as_response s).log ≡ s.log = ground arith in
      (
        reply_failure p s.current_term (timed as_response s),
        receive_stale as_response p ae s (ground arith),
        ground arith,
        inl (ground arith),
        subst Whole (sym same ∙ replied_log p s.current_term (timed as_response s)) h.whole,
        inl (ground arith),
      )
  | inr fresh ↦
      let le : s.current_term ≤ℤ ae.term = ground arith in
      let (sound', h', term, last) = settled-same as_response ae s sound h in
      let (t, run, now, whole, below) =
        proceeds p s.current_term ae (settled as_response s) sound' h' in
      (
        t,
        receive_fresh as_response p ae s le ∙ run,
        ground (arith, now, term),
        ground (arith, now, term),
        whole,
        ground (arith, below, last),
      )
]
