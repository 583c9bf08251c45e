-- ===== src/Sockets/Stream.antt =====
-- common_sockettcp.cpp: reading from a socket and writing to it. What the operating system does is
-- a part of the socket: the bytes that the peer still sends before the connection ends, and what
-- the next calls of `send` answer; behind the answers listed, `send` takes all that it is given.
use mathlib.Core.List.{append-nil, append_assoc}
use cpp_raft.Base.{
  ltb, if◌then◌else◌, Bool-cases, length, is_empty, take, drop, take-append-drop, take-append,
  drop-append, length-append, ℤ, ltb_ℤ, leb_ℤ, pos, negsuc, ℕ, suc, ◌+◌, ◌≡◌, refl, sym, ap, ◌∙◌,
  ◌⊎◌, inl, inr, Bool, true, List, [], ◌∷◌, ◌++◌, arith,
}

-- A result of `send`: the number of bytes taken, `EWOULDBLOCK`, or another error.
pub data SendAnswer : Type 0 where
  accepted : ℕ → SendAnswer
  would_block failed : SendAnswer

pub record SocketTcp : Type 0 where
  pub socket : ℤ
  pub incoming : List ℕ
  pub outgoing : List ℕ
  pub answers : List SendAnswer

-- `E_SEND`
abbrev pub e_send : ℤ
e_send = negsuc 28

-- `_SOCKET_TIMEOUT_`
abbrev pub socket_timeout : ℤ
socket_timeout = negsuc 2000

abbrev pub max_number_of_iters : ℕ
max_number_of_iters = 100000

unfoldable pub new_socket : SocketTcp
new_socket = record { socket = negsuc 0; incoming = []; outgoing = []; answers = [] }

unfoldable pub is_open_c : SocketTcp → Bool
is_open_c s = leb_ℤ (pos 0) s.socket

unfoldable pub close_c : SocketTcp → SocketTcp
close_c s = record s { socket = negsuc 0 }

-- `recv` with `MSG_WAITALL`: all the bytes asked for, or those that came before the end.
unfoldable pub read_c : ℕ → SocketTcp → ℤ × List ℕ × SocketTcp
unfolding is_open_c
read_c n s =
    if is_open_c s
    then (
      pos (length (take n s.incoming)),
      take n s.incoming,
      record s { incoming = drop n s.incoming },
    )
    else (negsuc 0, [], s)

-- The loop of `writeC`: the answers, the round, the bytes left, the count of those written, and
-- what has gone out.
unfoldable pub write_loop : List SendAnswer → ℕ → List ℕ → ℕ → List ℕ → ℤ × List ℕ × List SendAnswer
write_loop answers i [] wrote out = (pos wrote, out, answers)
write_loop [] i (b ∷ bs) wrote out = (pos (wrote + length (b ∷ bs)), out ++ b ∷ bs, [])
write_loop (failed ∷ answers) i (b ∷ bs) wrote out = (e_send, out, answers)
write_loop (would_block ∷ answers) i (b ∷ bs) wrote out =
    let rest = write_loop answers (i + 1) (b ∷ bs) wrote out in
    if ltb i max_number_of_iters then rest else (socket_timeout, out, answers)
write_loop (accepted k ∷ answers) i (b ∷ bs) wrote out =
    write_loop answers (i + 1) (drop k (b ∷ bs)) (wrote + length (take k (b ∷ bs)))
      (out ++ take k (b ∷ bs))

-- `send` on a socket that is not open fails.
unfoldable pub write_c : List ℕ → SocketTcp → ℤ × SocketTcp
unfolding write_loop is_open_c
write_c bytes s =
    if is_open_c s
    then (let (r, out, answers) = write_loop s.answers 0 bytes 0 s.outgoing in
        (r, record s { outgoing = out; answers = answers }))
    else (if is_empty bytes then pos 0 else e_send, s)

-- What a loop that has `wrote` bytes out returns and leaves.
abbrev Written : ℕ → List ℕ → List ℕ → ℤ × List ℕ × List SendAnswer → Type 0
Written wrote bytes out (r, out', answers) =
    ((r ≡ pos (wrote + length bytes)) × (out' ≡ out ++ bytes))
    ⊎ ((front : List ℕ) × (back : List ℕ) × (bytes ≡ front ++ back)
        × (out' ≡ out ++ front)
        × (ltb_ℤ r (pos 0) ≡ true))

Written-accepted :
    (wrote k : ℕ) (bytes out : List ℕ) (result : ℤ × List ℕ × List SendAnswer)
    → Written (wrote + length (take k bytes)) (drop k bytes) (out ++ take k bytes) result
    → Written wrote bytes out result
Written-accepted wrote k bytes out result (inl (e, f)) =
    let parts = take-append-drop k bytes in
    inl (
      e ∙ ap pos (omega (arith, length-append (take k bytes) (drop k bytes), ap length parts)),
      f ∙ append_assoc out (take k bytes) (drop k bytes) ∙ ap (λ (xs : List ℕ). out ++ xs) parts,
    )
Written-accepted wrote k bytes out result (inr (front, back, e, f, g)) = inr (
  take k bytes ++ front,
  back,
  sym (take-append-drop k bytes)
      ∙ ap (λ (xs : List ℕ). take k bytes ++ xs) e
      ∙ sym (append_assoc (take k bytes) front back),
  f ∙ append_assoc out (take k bytes) front,
  g,
)

write_loop-Written :
    (answers : List SendAnswer) (i : ℕ) (bytes : List ℕ) (wrote : ℕ) (out : List ℕ)
    → Written wrote bytes out (write_loop answers i bytes wrote out)
unfolding write_loop
write_loop-Written answers i [] wrote out = inl (ap pos (omega arith), sym (append-nil out))
write_loop-Written [] i (b ∷ bs) wrote out = inl (refl, refl)
write_loop-Written (failed ∷ answers) i (b ∷ bs) wrote out =
    inr ([], b ∷ bs, refl, sym (append-nil out), refl)
write_loop-Written (would_block ∷ answers) i (b ∷ bs) wrote out =
    elim (Bool-cases (ltb i max_number_of_iters)) [
      | inl e ↦ rw e (write_loop-Written answers (i + 1) (b ∷ bs) wrote out)
      | inr e ↦ rw e (inr ([], b ∷ bs, refl, sym (append-nil out), refl))
    ]
write_loop-Written (accepted k ∷ answers) i (b ∷ bs) wrote out =
    Written-accepted wrote k (b ∷ bs) out
      (write_loop answers (i + 1) (drop k (b ∷ bs)) (wrote + length (take k (b ∷ bs)))
        (out ++ take k (b ∷ bs)))
      (write_loop-Written answers (i + 1) (drop k (b ∷ bs)) (wrote + length (take k (b ∷ bs)))
        (out ++ take k (b ∷ bs)))

closed-Written :
    (bytes out : List ℕ) (answers : List SendAnswer)
    → Written 0 bytes out (if is_empty bytes then pos 0 else e_send, out, answers)
closed-Written [] out answers = inl (refl, sym (append-nil out))
closed-Written (b ∷ bs) out answers = inr ([], b ∷ bs, refl, sym (append-nil out), refl)

write_c-Written :
    (bytes : List ℕ) (s : SocketTcp)
    → Written 0 bytes s.outgoing
        ((write_c bytes s).0, (write_c bytes s).1.outgoing, (write_c bytes s).1.answers)
unfolding write_c
write_c-Written bytes s = elim (Bool-cases (is_open_c s)) [
  | inl e ↦ rw e (write_loop-Written s.answers 0 bytes 0 s.outgoing)
  | inr e ↦ rw e (closed-Written bytes s.outgoing s.answers)
]

-- Writing returns the number of the bytes given and has sent all of them in order, or it returns
-- a negative code and has sent a front part of them; nothing that went out before is lost.
pub write_c-outgoing :
    (bytes : List ℕ) (s : SocketTcp)
    → let (r, t) = write_c bytes s in
      ((r ≡ pos (length bytes)) × (t.outgoing ≡ s.outgoing ++ bytes))
      ⊎ ((front : List ℕ) × (back : List ℕ) × (bytes ≡ front ++ back)
          × (t.outgoing ≡ s.outgoing ++ front)
          × (ltb_ℤ r (pos 0) ≡ true))
write_c-outgoing bytes s = elim (write_c-Written bytes s) [
  | inl (e, f) ↦ inl (e ∙ ap pos (omega arith), f)
  | inr sent ↦ inr sent
]

-- Reading from an open socket on which the bytes have come takes them, and leaves the rest.
pub read_c-append :
    (n : ℕ) (bytes rest : List ℕ) (s : SocketTcp)
    → length bytes ≡ n
    → is_open_c s ≡ true
    → s.incoming ≡ bytes ++ rest
    → read_c n s ≡ (pos n, bytes, record s { incoming = rest })
unfolding read_c
read_c-append n bytes rest s h op e =
    let front : take n s.incoming ≡ bytes =
      ap (take n) e ∙ ap (λ (m : ℕ). take m (bytes ++ rest)) (sym h) ∙ take-append bytes rest in
    let back : drop n s.incoming ≡ rest =
      ap (drop n) e ∙ ap (λ (m : ℕ). drop m (bytes ++ rest)) (sym h) ∙ drop-append bytes rest in
    rw (op, front, back, h) refl

-- Writing to an open socket of which `send` takes all.
pub write_c-append :
    (bytes : List ℕ) (s : SocketTcp)
    → is_open_c s ≡ true
    → s.answers ≡ []
    → write_c bytes s
      ≡ (pos (length bytes), record s { outgoing = s.outgoing ++ bytes; answers = [] })
unfolding write_c write_loop
write_c-append [] s op e = rw (op, e, append-nil s.outgoing) refl
write_c-append (b ∷ bs) s op e =
    let size : 0 + suc (length bs) ≡ suc (length bs) = omega arith in rw (op, e, size) refl
