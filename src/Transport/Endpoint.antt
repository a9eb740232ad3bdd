-- ===== src/Transport/Endpoint.antt =====
-- What a user of the transport can tell: whether it is connected and whether it is shut down, and of
-- each call whether it throws. Descriptors, addresses and the calls of the system are forgotten.
use netft_cpp.Base.{
  ℕ, ◌≡◌, refl, sym, arith, Bool, true, false, ◌&&◌, ◌||◌, List, [], ◌∷◌, map, Option, none, some,
  Result, ok, err, ◌==◌, ◌∙◌,
}
use netft_cpp.Base.Text.{Bytes}
use netft_cpp.Base.Lists.{length}
use netft_cpp.Transport.{
  Errno, Thrown, failure, UdpTransport, Done, Address, Attempt, on_connected, on_created,
  try_addresses, keep_socket, connect, check_sent, send_on, send, shutdown, close, Command,
  connects, sends_request, shuts, closes, run_command, run_commands,
}

-- The abstract transport.
pub data Endpoint : Type 0 where
  unconnected open_ shut_down : Endpoint

-- An abstract command: whether the host can be reached, or whether the system takes the request.
pub data Ask : Type 0 where
  connect_to : Bool → Ask
  send_out : Bool → Ask
  shut_it close_it : Ask

-- what it leaves behind
abbrev pub next : Ask → Endpoint → Endpoint
next (connect_to true) e = open_
next (connect_to false) e = e
next (send_out taken) e = e
next shut_it unconnected = unconnected
next shut_it open_ = shut_down
next shut_it shut_down = shut_down
next close_it e = unconnected

-- whether it returns
abbrev pub returns : Ask → Endpoint → Bool
returns (connect_to reachable) e = reachable
returns (send_out taken) unconnected = false
returns (send_out taken) open_ = taken
returns (send_out taken) shut_down = taken
returns shut_it e = true
returns close_it e = true

abbrev pub next_all : List Ask → Endpoint → Endpoint
next_all [] e = e
next_all (ask ∷ asks) e = next_all asks (next ask e)

abbrev pub returns_all : List Ask → Endpoint → List Bool
returns_all [] e = []
returns_all (ask ∷ asks) e = returns ask e ∷ returns_all asks (next ask e)

-- What is forgotten.
abbrev view_of : Option ℕ → Bool → Endpoint
view_of none requested = unconnected
view_of (some socket) false = open_
view_of (some socket) true = shut_down

abbrev pub view : UdpTransport → Endpoint
view t = view_of t.socket t.shutdown_requested

abbrev pub succeeds {ℓ κ} : {E : Type ℓ} {A : Type κ} → Result E A → Bool
succeeds (ok a) = true
succeeds (err e) = false

-- A host can be reached if for one of its addresses a socket is created and connected.
abbrev reachable : List Address → Bool
reachable [] = false
reachable (a ∷ rest) = (succeeds a.created && succeeds a.connected) || reachable rest

abbrev resolves : Result ℕ (List Address) → Bool
resolves (err code) = false
resolves (ok addresses) = reachable addresses

abbrev taken_whole : Bytes → Result Errno ℕ → Bool
taken_whole request (err error) = false
taken_whole request (ok sent) = sent == length request

abbrev pub abstract : Command → Ask
abstract (connects answer) = connect_to (resolves answer)
abstract (sends_request request sent) = send_out (taken_whole request sent)
abstract shuts = shut_it
abstract closes = close_it

abbrev is_some {ℓ} : {A : Type ℓ} → Option A → Bool
is_some none = false
is_some (some a) = true

-- the replies to commands that run one after the other
abbrev pub replies : List Command → UdpTransport → List Bool
replies [] t = []
replies (command ∷ commands) t =
    let done = run_command command t in succeeds done.reply ∷ replies commands done.transport

connected_reachable :
    (connected : Result Errno (Unit {0})) (k : ℕ) (error : Errno) (next : Errno → Attempt)
    (b : Bool)
    → ((e : Errno) → is_some (next e).connected_socket ≡ b)
    → is_some (on_connected connected k error next).connected_socket ≡ (succeeds connected || b)
unfolding on_connected
connected_reachable (ok done) k error next b h = refl
connected_reachable (err e) k error next b h = h e

created_reachable :
    (created : Result Errno ℕ) (a : Address) (error : Errno) (next : Errno → Attempt) (b : Bool)
    → ((e : Errno) → is_some (next e).connected_socket ≡ b)
    → is_some (on_created created a error next).connected_socket
      ≡ ((succeeds created && succeeds a.connected) || b)
unfolding on_created
created_reachable (err e) a error next b h = h e
created_reachable (ok k) a error next b h = connected_reachable a.connected k error next b h

try_addresses-reachable :
    (addresses : List Address) (error : Errno)
    → is_some (try_addresses addresses error).connected_socket ≡ reachable addresses
unfolding try_addresses
try_addresses-reachable [] error = refl
try_addresses-reachable (a ∷ rest) error =
    created_reachable a.created a error (try_addresses rest) (reachable rest)
      (try_addresses-reachable rest)

-- One command: the abstract state behind it, and whether it returns.
Follows : Ask → UdpTransport → Done (Result Thrown (Unit {0})) → Type 0
Follows ask t done =
    (view done.transport ≡ next ask (view t)) × (succeeds done.reply ≡ returns ask (view t))

keep_socket-Follows :
    (attempt : Attempt) (socket : Option ℕ) (t : UdpTransport)
    → Follows (connect_to (is_some socket)) t (keep_socket attempt socket t)
unfolding keep_socket Follows
keep_socket-Follows attempt none t = (refl, refl)
keep_socket-Follows attempt (some k) t = (refl, refl)

connect-Follows :
    (answer : Result ℕ (List Address)) (t : UdpTransport)
    → Follows (connect_to (resolves answer)) t (connect answer t)
unfolding connect Follows
connect-Follows (err code) t = (refl, refl)
connect-Follows (ok addresses) t =
    let attempt = try_addresses addresses (failure 0) in
    rw (← try_addresses-reachable addresses (failure 0))
      (keep_socket-Follows attempt attempt.connected_socket t)

check_sent-taken :
    (sent : Result Errno ℕ) (request : Bytes)
    → succeeds (check_sent sent (length request)) ≡ taken_whole request sent
unfolding check_sent
check_sent-taken (err error) request = refl
check_sent-taken (ok sent) request = ground arith

returns_sent :
    (taken : Bool) (k : ℕ) (b : Bool) → returns (send_out taken) (view_of (some k) b) ≡ taken
returns_sent taken k false = refl
returns_sent taken k true = refl

send-Follows :
    (request : Bytes) (sent : Result Errno ℕ) (socket : Option ℕ) (b : Bool)
    → Follows
        (send_out (taken_whole request sent))
        (record { socket = socket; shutdown_requested = b })
        (send_on socket request sent (record { socket = socket; shutdown_requested = b }))
unfolding send_on Follows
send-Follows request sent none b = (refl, refl)
send-Follows request sent (some k) b =
    (refl, check_sent-taken sent request ∙ sym (returns_sent (taken_whole request sent) k b))

shutdown-Follows :
    (socket : Option ℕ) (b : Bool) → view_of socket true ≡ next shut_it (view_of socket b)
shutdown-Follows none b = refl
shutdown-Follows (some k) false = refl
shutdown-Follows (some k) true = refl

run_command-Follows :
    (command : Command) (t : UdpTransport) → Follows (abstract command) t (run_command command t)
unfolding run_command send shutdown close Follows
run_command-Follows (connects answer) t = connect-Follows answer t
run_command-Follows (sends_request request sent) t =
    send-Follows request sent t.socket t.shutdown_requested
run_command-Follows shuts t = (shutdown-Follows t.socket t.shutdown_requested, refl)
run_command-Follows closes t = (refl, refl)

-- Any sequence of commands, with any answers of the system, behaves as on the abstract transport: the
-- same calls return, the others throw, and the transport is left in a state with that view.
pub run_commands_refine :
    (commands : List Command) (t : UdpTransport)
    → (replies commands t ≡ returns_all (map abstract commands) (view t))
      × (view (run_commands commands t).transport ≡ next_all (map abstract commands) (view t))
unfolding run_commands Follows
run_commands_refine [] t = (refl, refl)
run_commands_refine (command ∷ commands) t =
    let (moved, replied) = run_command-Follows command t in
    let (r, v) = run_commands_refine commands (run_command command t).transport in (cc, cc)
