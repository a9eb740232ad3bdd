-- ===== src/Transport.antt =====
-- src/detail/udp_transport.hpp and src/detail/udp_transport_posix.cpp: the socket that a client talks
-- to its sensor through. What the system answers is given with each operation, and an operation also
-- returns the calls that it made of the system, in order. The test hook of the class is left out.
pub mod Receive
pub mod Windows
pub mod Descriptors
pub mod Counting
pub mod Sending
pub mod Life
pub mod Endpoint
use netft_cpp.Base.{
  ℕ, ◌-◌, ◌^◌, Bool, true, false, not, List, [], ◌∷◌, ◌++◌, Option, none, some, Result, ok, err,
  if◌then◌else◌, ◌==◌, leb,
}
use netft_cpp.Base.Int.{ℤ, pos}
use netft_cpp.Base.Text.{Bytes}
use netft_cpp.Base.Lists.{length}
use netft_cpp.Floats.{Floats, LongFloats, IntFloats}
use netft_cpp.Time.{TimeError, checked_deadline}

-- A call of the system on a descriptor; `polls` also has the time to wait, in milliseconds.
pub data Call : Type 0 where
  opened closed shut_down : ℕ → Call
  sends : ℕ → Bytes → Call
  polls : ℕ → ℤ → Call
  receives : ℕ → ℕ → Call

-- Why a call failed: a signal interrupted it, the socket was shut down, or another code.
pub data Errno : Type 0 where
  interrupted shut : Errno
  failure : ℕ → Errno

-- The exceptions, by what their message says.
pub data Thrown : Type 0 where
  not_resolved : ℕ → Thrown
  no_connection : Errno → Thrown
  not_connected short_write invalid_socket : Thrown
  not_sent not_waited not_received : Errno → Thrown
  bad_time : TimeError → Thrown
  no_winsock : ℕ → Thrown

-- `kInvalidSocket` is `none`
pub record UdpTransport : Type 0 where
  pub socket : Option ℕ
  pub shutdown_requested : Bool

abbrev pub initial : UdpTransport
initial = record { socket = none; shutdown_requested = false }

-- What an operation leaves, the calls that it made, and what it returned.
pub record Done (A : Type 0) : Type 0 where
  pub transport : UdpTransport
  pub calls : List Call
  pub reply : A

-- An address of the host, with what `socket` and `connect` answer for it.
pub record Address : Type 0 where
  pub created : Result Errno ℕ
  pub connected : Result Errno (Unit {0})

-- What the loop over the addresses ends with.
pub record Attempt : Type 0 where
  pub connected_socket : Option ℕ
  pub last_error : Errno
  pub calls : List Call

on_connected : Result Errno (Unit {0}) → ℕ → Errno → (Errno → Attempt) → Attempt
on_connected (ok done) socket last_error next = record {
  connected_socket = some socket;
  last_error = last_error;
  calls = opened socket ∷ [];
}
on_connected (err error) socket last_error next =
    let rest = next error in record rest { calls = opened socket ∷ closed socket ∷ rest.calls }

on_created : Result Errno ℕ → Address → Errno → (Errno → Attempt) → Attempt
unfolding on_connected
on_created (err error) address last_error next = next error
on_created (ok socket) address last_error next =
    on_connected address.connected socket last_error next

unfoldable pub try_addresses : List Address → Errno → Attempt
unfolding on_created
try_addresses [] last_error = record {
  connected_socket = none;
  last_error = last_error;
  calls = [];
}
try_addresses (address ∷ addresses) last_error =
    on_created address.created address last_error (try_addresses addresses)

-- the call that closes the held socket
close_held : Option ℕ → List Call
close_held none = []
close_held (some socket) = closed socket ∷ []

-- under the lock, with the socket that is connected
unfoldable pub keep_socket : Attempt → Option ℕ → UdpTransport → Done (Result Thrown (Unit {0}))
unfolding close_held
keep_socket attempt none t = record {
  transport = t;
  calls = attempt.calls;
  reply = err (no_connection attempt.last_error);
}
keep_socket attempt (some socket) t = record {
  transport = record { socket = some socket; shutdown_requested = false };
  calls = attempt.calls ++ close_held t.socket;
  reply = ok tt;
}

-- by what `getaddrinfo` answers: a code, or addresses; `last_error` starts as 0
unfoldable pub connect : Result ℕ (List Address) → UdpTransport → Done (Result Thrown (Unit {0}))
unfolding keep_socket try_addresses
connect (err code) t = record { transport = t; calls = []; reply = err (not_resolved code) }
connect (ok addresses) t =
    let attempt = try_addresses addresses (failure 0) in
    keep_socket attempt attempt.connected_socket t

-- by what the call `send` answers: the number of bytes that it took
check_sent : Result Errno ℕ → ℕ → Result Thrown (Unit {0})
check_sent (err error) size = err (not_sent error)
check_sent (ok sent) size = if not (sent == size) then err short_write else ok tt

send_on : Option ℕ → Bytes → Result Errno ℕ → UdpTransport → Done (Result Thrown (Unit {0}))
unfolding check_sent
send_on none request sent t = record { transport = t; calls = []; reply = err not_connected }
send_on (some socket) request sent t = record {
  transport = t;
  calls = sends socket request ∷ [];
  reply = check_sent sent (length request);
}

unfoldable pub send : Bytes → Result Errno ℕ → UdpTransport → Done (Result Thrown (Unit {0}))
unfolding send_on
send request sent t = send_on t.socket request sent t

shut_held : Option ℕ → List Call
shut_held none = []
shut_held (some socket) = shut_down socket ∷ []

unfoldable pub shutdown : UdpTransport → Done (Unit {0})
unfolding shut_held
shutdown t = record {
  transport = record t { shutdown_requested = true };
  calls = shut_held t.socket;
  reply = tt;
}

unfoldable pub close : UdpTransport → Done (Unit {0})
unfolding close_held
close t = record {
  transport = record { socket = none; shutdown_requested = true };
  calls = close_held t.socket;
  reply = tt;
}

-- What a thread asks for under one lock: all operations but `receive`.
pub data Command : Type 0 where
  connects : Result ℕ (List Address) → Command
  sends_request : Bytes → Result Errno ℕ → Command
  shuts closes : Command

-- `send` and `connect` reply; the other two return nothing.
abbrev pub no_reply : Done (Unit {0}) → Done (Result Thrown (Unit {0}))
no_reply step = record { transport = step.transport; calls = step.calls; reply = ok tt }

unfoldable pub run_command : Command → UdpTransport → Done (Result Thrown (Unit {0}))
run_command (connects answer) t = connect answer t
run_command (sends_request request sent) t = send request sent t
run_command shuts t = no_reply (shutdown t)
run_command closes t = no_reply (close t)

unfoldable pub run_commands : List Command → UdpTransport → Done (Unit {0})
run_commands [] t = record { transport = t; calls = []; reply = tt }
run_commands (command ∷ commands) t =
    let step = run_command command t in
    let rest = run_commands commands step.transport in
    record rest { calls = step.calls ++ rest.calls }
