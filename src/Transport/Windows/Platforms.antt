-- ===== src/Transport/Windows/Platforms.antt =====
-- The commands on both platforms.
use netft_cpp.Base.{ℕ, ◌≡◌, refl, List, [], ◌∷◌, Option, none, some, Result, ok, err, length}
use netft_cpp.Base.Text.{Bytes}
use netft_cpp.Transport
use netft_cpp.Transport.{
  Command, connects, sends_request, shuts, closes, UdpTransport, Done, Thrown, Errno, failure,
  Address, Attempt, on_connected, on_created, try_addresses, keep_socket,
}
use netft_cpp.Transport.Endpoint.{succeeds}
use netft_cpp.Transport.Windows
use netft_cpp.Transport.Windows.{host_unreachable, send_on, check_sent, shut_held, close_held}

-- Two attempts that make the same calls and hold the same socket.
abbrev Agree : Attempt → Attempt → Type 0
Agree a b = (a.connected_socket ≡ b.connected_socket) × (a.calls ≡ b.calls)

connected_Agree :
    (connected : Result Errno (Unit {0})) (k : ℕ) (x y : Errno) (next : Errno → Attempt)
    → ((u v : Errno) → Agree (next u) (next v))
    → Agree (on_connected connected k x next) (on_connected connected k y next)
unfolding on_connected
connected_Agree (ok done) k x y next h = (refl, refl)
connected_Agree (err e) k x y next h = (refl, refl)

created_Agree :
    (created : Result Errno ℕ) (a : Address) (x y : Errno) (next : Errno → Attempt)
    → ((u v : Errno) → Agree (next u) (next v))
    → Agree (on_created created a x next) (on_created created a y next)
unfolding on_created
created_Agree (err e) a x y next h = (refl, refl)
created_Agree (ok k) a x y next h = connected_Agree a.connected k x y next h

try_addresses-Agree :
    (addresses : List Address) (x y : Errno)
    → Agree (try_addresses addresses x) (try_addresses addresses y)
unfolding try_addresses
try_addresses-Agree [] x y = (refl, refl)
try_addresses-Agree (a ∷ rest) x y =
    created_Agree a.created a x y (try_addresses rest) (try_addresses-Agree rest)

-- Two operations that leave the same transport, make the same calls and both return or both throw.
abbrev pub Same : Done (Result Thrown (Unit {0})) → Done (Result Thrown (Unit {0})) → Type 0
Same a b = (a.transport ≡ b.transport) × (a.calls ≡ b.calls) × (succeeds a.reply ≡ succeeds b.reply)

keep_socket-Same :
    (a b : Attempt) (s r : Option ℕ) (t : UdpTransport)
    → s ≡ r
    → a.calls ≡ b.calls
    → Same (keep_socket a s t) (keep_socket b r t)
unfolding keep_socket Transport.close_held
keep_socket-Same a b none none t e c = (refl, c, refl)
keep_socket-Same a b none (some k) t e c = cc
keep_socket-Same a b (some k) none t e c = cc
keep_socket-Same a b (some k) (some l) t e c = (cc, rw c refl, refl)

connect-Same :
    (answer : Result ℕ (List Address)) (t : UdpTransport)
    → Same (Windows.connect answer t) (Transport.connect answer t)
unfolding Windows.connect Transport.connect
connect-Same (err code) t = (refl, refl, refl)
connect-Same (ok addresses) t =
    let a = try_addresses addresses host_unreachable in
    let b = try_addresses addresses (failure 0) in
    let (socket, calls) = try_addresses-Agree addresses host_unreachable (failure 0) in
    keep_socket-Same a b a.connected_socket b.connected_socket t socket calls

check_sent-Same :
    (sent : Result Errno ℕ) (size : ℕ)
    → succeeds (check_sent sent size) ≡ succeeds (Transport.check_sent sent size)
unfolding check_sent Transport.check_sent
check_sent-Same (ok n) size = refl
check_sent-Same (err e) size = refl

send-Same :
    (socket : Option ℕ) (request : Bytes) (sent : Result Errno ℕ) (t : UdpTransport)
    → Same (send_on socket request sent t) (Transport.send_on socket request sent t)
unfolding send_on Transport.send_on
send-Same none request sent t = (refl, refl, refl)
send-Same (some k) request sent t = (refl, refl, check_sent-Same sent (length request))

held-Same :
    (socket : Option ℕ)
    → (close_held socket ≡ Transport.close_held socket)
      × (shut_held socket ≡ Transport.shut_held socket)
unfolding close_held Transport.close_held shut_held Transport.shut_held
held-Same none = (refl, refl)
held-Same (some k) = (refl, refl)

-- A command leaves the same transport on both platforms, makes the same calls of the system, and
-- returns on one exactly when it returns on the other.
pub run_command-Same :
    (command : Command) (t : UdpTransport)
    → Same (Windows.run_command command t) (Transport.run_command command t)
unfolding Windows.run_command Transport.run_command Windows.send Transport.send Windows.shutdown
    Transport.shutdown Windows.close Transport.close
run_command-Same (connects answer) t = connect-Same answer t
run_command-Same (sends_request request sent) t = send-Same t.socket request sent t
run_command-Same shuts t = (refl, (held-Same t.socket).1, refl)
run_command-Same closes t = (refl, (held-Same t.socket).0, refl)
