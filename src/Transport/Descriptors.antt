-- ===== src/Transport/Descriptors.antt =====
-- How often the transport opens and closes a descriptor, over any sequence of operations.
use netft_cpp.Base.{
  ℕ, ◌+◌, ◌≡◌, refl, arith, List, [], ◌∷◌, ◌++◌, Option, none, some, Result, ok, err, if◌then◌else◌,
  ◌==◌,
}
use netft_cpp.Base.Text.{Bytes}
use netft_cpp.Transport.{
  Call, opened, closed, Errno, failure, UdpTransport, Done, Address, Attempt, on_connected,
  on_created, try_addresses, close_held, keep_socket, connect, send_on, send, shut_held, shutdown,
  close, Command, connects, sends_request, shuts, closes, run_command, run_commands,
}

-- how often the calls open and close the descriptor `s`
abbrev pub opens_of : ℕ → Call → ℕ
opens_of s (opened k) = if k == s then 1 else 0
opens_of s _ = 0

abbrev pub closes_of : ℕ → Call → ℕ
closes_of s (closed k) = if k == s then 1 else 0
closes_of s _ = 0

abbrev pub total : (Call → ℕ) → List Call → ℕ
total count [] = 0
total count (call ∷ calls) = count call + total count calls

abbrev pub held : ℕ → Option ℕ → ℕ
held s none = 0
held s (some k) = if k == s then 1 else 0

pub total-append :
    (count : Call → ℕ) (a b : List Call) → total count (a ++ b) ≡ total count a + total count b
total-append count [] b = omega arith
total-append count (x ∷ a) b = omega (arith, total-append count a b)

-- The calls lead from one held socket to another.
abbrev pub Balances : ℕ → Option ℕ → List Call → Option ℕ → Type 0
Balances s before calls after =
    held s before + total (opens_of s) calls ≡ held s after + total (closes_of s) calls

pub Balances-append :
    (s : ℕ) (x y z : Option ℕ) (a b : List Call)
    → Balances s x a y
    → Balances s y b z
    → Balances s x (a ++ b) z
Balances-append s x y z a b p q =
    omega (arith, p, q, total-append (opens_of s) a b, total-append (closes_of s) a b)

abbrev AttemptBalances : ℕ → Attempt → Type 0
AttemptBalances s attempt = Balances s none attempt.calls attempt.connected_socket

connected_Balances :
    (s : ℕ) (connected : Result Errno (Unit {0})) (k : ℕ) (error : Errno) (next : Errno → Attempt)
    → ((e : Errno) → AttemptBalances s (next e))
    → AttemptBalances s (on_connected connected k error next)
unfolding on_connected
connected_Balances s (ok done) k error next ih = omega arith
connected_Balances s (err e) k error next ih = omega (arith, ih e)

created_Balances :
    (s : ℕ) (created : Result Errno ℕ) (address : Address) (error : Errno) (next : Errno → Attempt)
    → ((e : Errno) → AttemptBalances s (next e))
    → AttemptBalances s (on_created created address error next)
unfolding on_created
created_Balances s (err e) address error next ih = ih e
created_Balances s (ok k) address error next ih =
    connected_Balances s address.connected k error next ih

pub try_addresses-Balances :
    (s : ℕ) (addresses : List Address) (error : Errno)
    → AttemptBalances s (try_addresses addresses error)
unfolding try_addresses
try_addresses-Balances s [] error = refl
try_addresses-Balances s (address ∷ addresses) error =
    created_Balances s address.created address error (try_addresses addresses)
      (try_addresses-Balances s addresses)

-- an operation accounts for the descriptor
abbrev pub Accounts : {A : Type 0} → ℕ → UdpTransport → Done A → Type 0
Accounts s t done = Balances s t.socket done.calls done.transport.socket

close_held-Balances : (s : ℕ) (before : Option ℕ) → Balances s before (close_held before) none
unfolding close_held
close_held-Balances s none = refl
close_held-Balances s (some k) = omega arith

pub close-Accounts : (s : ℕ) (t : UdpTransport) → Accounts s t (close t)
unfolding close
close-Accounts s t = close_held-Balances s t.socket

keep_socket-Accounts :
    (s : ℕ) (attempt : Attempt) (connected : Option ℕ) (t : UdpTransport)
    → Balances s none attempt.calls connected
    → Accounts s t (keep_socket attempt connected t)
unfolding keep_socket
keep_socket-Accounts s attempt none t h = omega (arith, h)
keep_socket-Accounts s attempt (some k) t h = omega (
  arith,
  h,
  close_held-Balances s t.socket,
  total-append (opens_of s) attempt.calls (close_held t.socket),
  total-append (closes_of s) attempt.calls (close_held t.socket),
)

connect-Accounts :
    (s : ℕ) (answer : Result ℕ (List Address)) (t : UdpTransport) → Accounts s t (connect answer t)
unfolding connect
connect-Accounts s (err code) t = refl
connect-Accounts s (ok addresses) t =
    let attempt = try_addresses addresses (failure 0) in
    keep_socket-Accounts s attempt attempt.connected_socket t
      (try_addresses-Balances s addresses (failure 0))

send_on-Accounts :
    (s : ℕ) (socket : Option ℕ) (request : Bytes) (sent : Result Errno ℕ) (t : UdpTransport)
    → Accounts s t (send_on socket request sent t)
unfolding send_on
send_on-Accounts s none request sent t = refl
send_on-Accounts s (some k) request sent t = refl

shut_held-quiet :
    (s : ℕ) (socket : Option ℕ)
    → (total (opens_of s) (shut_held socket) ≡ 0) × (total (closes_of s) (shut_held socket) ≡ 0)
unfolding shut_held
shut_held-quiet s none = (refl, refl)
shut_held-quiet s (some k) = (refl, refl)

pub run_command-Accounts :
    (s : ℕ) (command : Command) (t : UdpTransport) → Accounts s t (run_command command t)
unfolding run_command send shutdown close
run_command-Accounts s (connects answer) t = connect-Accounts s answer t
run_command-Accounts s (sends_request request sent) t = send_on-Accounts s t.socket request sent t
run_command-Accounts s shuts t = omega (arith, shut_held-quiet s t.socket)
run_command-Accounts s closes t = close_held-Balances s t.socket

pub run_commands-Accounts :
    (s : ℕ) (commands : List Command) (t : UdpTransport) → Accounts s t (run_commands commands t)
unfolding run_commands
run_commands-Accounts s [] t = refl
run_commands-Accounts s (command ∷ commands) t =
    let step = run_command command t in
    Balances-append s t.socket step.transport.socket
      (run_commands commands step.transport).transport.socket step.calls
      (run_commands commands step.transport).calls (run_command-Accounts s command t)
      (run_commands-Accounts s commands step.transport)
