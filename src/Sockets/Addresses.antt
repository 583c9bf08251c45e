-- ===== src/Sockets/Addresses.antt =====
-- common_socketbase.cpp: the time that a read may take, and the addresses and ports of hosts.
use cpp_raft.Base.{
  ◌==◌, if◌then◌else◌, ℤ, pos, negsuc, ℕ, ◌+◌, ◌*◌, ◌/◌, ◌%◌, ◌^◌, ◌<◌, ◌≡◌, ◌⊎◌, inl, inr, refl,
  Bool, true, false, ◌&&◌, Option, none, some, List, [], ◌∷◌, ◌++◌, arith,
}
use cpp_raft.Outcome.{Outcome, ok, undefined}

-- `timeval`, `timespec`: the seconds, and the rest in parts of a second.
pub record Time : Type 0 where
  pub tv_sec : ℕ
  pub tv_rest : ℕ

-- What `setTimeout` asks for; a negative time is more than 248 days.
unfoldable pub receive_timeout : ℤ → Time
receive_timeout (pos ms) = record { tv_sec = ms / 1000; tv_rest = ms % 1000 * 1000 }
receive_timeout (negsuc n) = record { tv_sec = 21474836; tv_rest = 1000 }

-- `setTimeout` of a socket, with what `setsockopt` says: the result and the time.
unfoldable pub set_timeout : Bool → ℤ → Option Time → ℤ × Option Time
unfolding receive_timeout
set_timeout accepted ms old =
    if accepted then (pos 0, some (receive_timeout ms)) else (negsuc 0, old)

-- What `SleepN` asks `nanosleep` for.
unfoldable pub sleep_n : ℕ → Time
sleep_n ns = record { tv_sec = ns / 1000000000; tv_rest = ns % 1000000000 }

-- A time from 0 on is asked for to the millisecond, and the rest is less than a second, as the
-- system wants it.
pub receive_timeout-exact :
    (ms : ℕ)
    → let t = receive_timeout (pos ms) in
      (t.tv_sec * 1000000 + t.tv_rest ≡ ms * 1000) × (t.tv_rest < 1000000)
unfolding receive_timeout
receive_timeout-exact ms = (omega arith, omega arith)

pub sleep_n-exact :
    (ns : ℕ)
    → let t = sleep_n ns in (t.tv_sec * 1000000000 + t.tv_rest ≡ ns) × (t.tv_rest < 1000000000)
unfolding sleep_n
sleep_n-exact ns = (omega arith, omega arith)

-- `ntohs` and `htons` on a machine whose lowest byte comes first.
abbrev pub swap_short : ℕ → ℕ
swap_short n = n % 256 * 256 + n / 256 % 256

-- `GetPort`, of an address that may be NULL, whose port is in the order of the network.
unfoldable pub get_port : Option ℕ → ℕ
get_port none = 0
get_port (some sin_port) = swap_short sin_port

pub get_port-htons : (port : ℕ) → port < 2 ^ 16 → get_port (some (swap_short port)) ≡ port
unfolding get_port
get_port-htons port h = omega (arith, h)

-- An interface of the machine: its name, and its address, which may be NULL, as a text if it is one
-- of IP 4.
pub data InterfaceAddress : Type 0 where
  ip4 : List ℕ → InterfaceAddress
  not_ip4 no_address : InterfaceAddress

pub record Interface : Type 0 where
  pub ifa_name : List ℕ
  pub ifa_addr : InterfaceAddress

-- The name `lo`
abbrev pub is_loopback : List ℕ → Bool
is_loopback (a ∷ b ∷ []) = (a == 108) && (b == 111)
is_loopback _ = false

-- The loop of `GetOwnIp4Address` over what `getifaddrs` gives, with the text in the buffer.
unfoldable pub own_ip4_loop : List ℕ → List Interface → Outcome (List ℕ)
own_ip4_loop buffer [] = ok buffer
own_ip4_loop buffer (i ∷ is) = elim i.ifa_addr [
  | ip4 text ↦ if is_loopback i.ifa_name then own_ip4_loop text is else ok text
  | not_ip4 ↦ own_ip4_loop buffer is
  | no_address ↦ undefined
]

unfoldable pub get_own_ip4_address : List Interface → Outcome (List ℕ)
unfolding own_ip4_loop
get_own_ip4_address interfaces = own_ip4_loop [] interfaces

-- Interfaces that all have an address, and are the loopback or without IP 4.
abbrev pub Passed : List Interface → Type 0
Passed [] = Unit
Passed (i ∷ is) =
    ((i.ifa_addr ≡ not_ip4)
      ⊎ ((text : List ℕ) × (i.ifa_addr ≡ ip4 text) × (is_loopback i.ifa_name ≡ true)))
    × Passed is

own_ip4_loop-first :
    (buffer : List ℕ) (front : List Interface) (i : Interface) (text : List ℕ)
    (back : List Interface)
    → Passed front
    → i.ifa_addr ≡ ip4 text
    → is_loopback i.ifa_name ≡ false
    → own_ip4_loop buffer (front ++ i ∷ back) ≡ ok text
unfolding own_ip4_loop
own_ip4_loop-first buffer [] i text back h e f = rw (e, f) refl
own_ip4_loop-first buffer (j ∷ front) i text back (inl g, h) e f =
    rw g (own_ip4_loop-first buffer front i text back h e f)
own_ip4_loop-first buffer (j ∷ front) i text back (inr (t, g, l), h) e f =
    rw (g, l) (own_ip4_loop-first t front i text back h e f)

-- The own address is that of the first interface with an address of IP 4 other than the loopback,
-- whatever follows, if all before it have an address.
pub get_own_ip4_address-first :
    (front : List Interface) (i : Interface) (text : List ℕ) (back : List Interface)
    → Passed front
    → i.ifa_addr ≡ ip4 text
    → is_loopback i.ifa_name ≡ false
    → get_own_ip4_address (front ++ i ∷ back) ≡ ok text
unfolding get_own_ip4_address
get_own_ip4_address-first front i text back h e f = own_ip4_loop-first [] front i text back h e f
