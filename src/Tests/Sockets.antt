-- ===== src/Tests/Sockets.antt =====
-- Sockets, guards and numbers on which the theorems are applied.
use cpp_raft.Base.{
  ◌==◌, if◌then◌else◌, ltb_ℤ, pos, negsuc, ℕ, ◌≡◌, refl, ◌⊎◌, true, false, List, [], ◌∷◌, ◌++◌,
  arith,
}
use cpp_raft.Node.{null}
use cpp_raft.Containers.ListSpecial.{relink_next, relink_prev}
use cpp_raft.Containers.ListSpecial.Segment.{Seg, Addresses}
use cpp_raft.Sockets.Stream.{
  SocketTcp, accepted, would_block, is_open_c, write_c, write_loop, read_c, write_c-outgoing,
}
use cpp_raft.Sockets.Connecting.{ConnectAnswers}
use cpp_raft.Sockets.Device.{
  Devices, is_open, clone_from_other, assign, set_socket, Shares, close_c-Shares,
}
use cpp_raft.Sockets.Device.{close_c as close_device}
use cpp_raft.Sockets.Device.Copying.{assign-Shares}
use cpp_raft.Sockets.Listener.{
  stopped, run, timed_out, interrupted, select_failed, connected, new_server_tcp, run_server,
  run_server-connections,
}
use cpp_raft.Locks.{Use, acquire, release, final_abs_time}

-- An open socket with bytes to read, whose next calls of `send` take one byte, nothing, and all.
abbrev a_socket : SocketTcp
a_socket = record {
  socket = pos 5;
  incoming = 1 ∷ 2 ∷ 3 ∷ [];
  outgoing = 9 ∷ [];
  answers = accepted 1 ∷ would_block ∷ [];
}

write_in_parts : (write_c (4 ∷ 5 ∷ 6 ∷ []) a_socket).0 ≡ pos 3
unfolding write_c write_loop is_open_c
write_in_parts = refl

read_two : (read_c 2 a_socket).1 ≡ 1 ∷ 2 ∷ []
unfolding read_c is_open_c
read_two = refl

write_c-outgoing_example :
    (((write_c (4 ∷ 5 ∷ []) a_socket).0 ≡ pos 2)
      × ((write_c (4 ∷ 5 ∷ []) a_socket).1.outgoing ≡ 9 ∷ 4 ∷ 5 ∷ []))
    ⊎ ((front : List ℕ) × (back : List ℕ) × (4 ∷ 5 ∷ [] ≡ front ++ back)
        × ((write_c (4 ∷ 5 ∷ []) a_socket).1.outgoing ≡ 9 ∷ front)
        × (ltb_ℤ (write_c (4 ∷ 5 ∷ []) a_socket).0 (pos 0) ≡ true))
write_c-outgoing_example = write_c-outgoing (4 ∷ 5 ∷ []) a_socket

-- The connection is in progress, and `select` says that it has come about.
abbrev answered : ConnectAnswers
answered = record {
  socket = pos 5;
  gethostname = pos 0;
  is_address = true;
  has_entry = false;
  entry_is_address = false;
  connect = negsuc 0;
  in_progress = true;
  select = pos 1;
  interrupted = false;
  is_set = true;
  incoming = 0 ∷ [];
  answers = [];
}

-- Three sockets, of which 11 and 12 are copies of 10.
abbrev devices : Devices
devices = assign 12 11 (
    assign 11 10 (record {
      links = λ p. record { prev = null; next = null };
      sockets = λ p. if p == 10 then pos 7 else negsuc 0;
      closed = [];
    }))

abbrev shared : Devices
shared = record {
  links = λ p.
      if p == 10
      then record { prev = null; next = 11 }
      else if p == 11
      then record { prev = 10; next = 12 }
      else record { prev = 11; next = null };
  sockets = λ p. pos 7;
  closed = [];
}

copies_linked :
    ((devices.links 11).prev ≡ 10) × ((devices.links 11).next ≡ 12) × (devices.sockets 12 ≡ pos 7)
unfolding assign clone_from_other is_open set_socket relink_next relink_prev
copies_linked = (refl, refl, refl)

shared-Shares : Shares shared (10 ∷ 11 ∷ 12 ∷ []) 6
unfolding Seg Addresses
shared-Shares = record {
  links = (refl, refl, (refl, refl, (refl, refl, tt)));
  addresses = (omega arith, refl, (omega arith, refl, (omega arith, refl, tt)));
  same = λ r i. refl;
}

close_c-Shares_example :
    Shares (close_device 11 shared) (10 ∷ 12 ∷ []) 6 × ((close_device 11 shared).closed ≡ [])
close_c-Shares_example = close_c-Shares (10 ∷ []) 11 (12 ∷ []) shared 6 shared-Shares

run_server-connections_example :
    (run_server 4 (timed_out ∷ connected 8 1 ∷ interrupted ∷ connected 9 2 ∷ []) new_server_tcp
      ≡ ((8, 1) ∷ (9, 2) ∷ [], record new_server_tcp { work_status = run; server_thread_id = 4 }))
    × (run_server 4
          (timed_out
            ∷ connected 8 1
            ∷ interrupted
            ∷ connected 9 2
            ∷ select_failed
            ∷ connected 10 3
            ∷ [])
          new_server_tcp
        ≡ (
          (8, 1) ∷ (9, 2) ∷ [],
          record new_server_tcp { work_status = stopped; server_thread_id = 0; socket = negsuc 0 },
        ))
run_server-connections_example =
    run_server-connections 4 (timed_out ∷ connected 8 1 ∷ interrupted ∷ connected 9 2 ∷ [])
      select_failed (connected 10 3 ∷ []) new_server_tcp refl refl

-- The guard of a worker: it holds one mutex after the other.
abbrev uses : List Use
uses = acquire 10 ∷ release ∷ acquire 11 ∷ []

-- One second and 500 ms behind the current time, where the microseconds carry.
deadline : final_abs_time 10 999999 1500 ≡ (12, 499999000)
unfolding final_abs_time
deadline = refl

abbrev single : Devices
single = record {
  links = λ p. record { prev = null; next = null };
  sockets = λ p. if p == 10 then pos 7 else negsuc 0;
  closed = [];
}

single-Shares : Shares single (10 ∷ []) 6
unfolding Seg Addresses
single-Shares = record {
  links = (refl, refl, tt);
  addresses = (omega arith, refl, tt);
  same = λ r i. ground (arith, i);
}

assign-Shares_example : Shares (assign 11 10 single) (10 ∷ 11 ∷ []) 6
assign-Shares_example = assign-Shares 10 [] 11 [] single 6 single-Shares (omega arith) refl
