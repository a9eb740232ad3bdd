-- ===== src/Transport/Counting.antt =====
-- How often the commands make a call of some kind that none of them makes by itself.
use netft_cpp.Base.{ℕ, ◌≡◌, refl, arith, List, [], ◌∷◌, Option, none, some, Result, ok, err}
use netft_cpp.Base.Text.{Bytes}
use netft_cpp.Transport.{
  Call, opened, closed, shut_down, sends, Errno, failure, UdpTransport, Address, Attempt,
  on_connected, on_created, try_addresses, close_held, keep_socket, connect, send_on, send,
  shut_held, shutdown, close, Command, connects, sends_request, shuts, closes, run_command,
  run_commands,
}
use netft_cpp.Transport.Descriptors.{total, total-append}

-- No call of a command counts.
pub record IsQuiet (count : Call → ℕ) : Type 0 where
  pub quiet_open : (k : ℕ) → count (opened k) ≡ 0
  pub quiet_close : (k : ℕ) → count (closed k) ≡ 0
  pub quiet_shut : (k : ℕ) → count (shut_down k) ≡ 0
  pub quiet_send : (k : ℕ) (request : Bytes) → count (sends k request) ≡ 0

module _ (count : Call → ℕ) (quiet : IsQuiet count) where
  connected_count :
      (connected : Result Errno (Unit {0})) (k : ℕ) (error : Errno) (next : Errno → Attempt)
      → ((e : Errno) → total count (next e).calls ≡ 0)
      → total count (on_connected connected k error next).calls ≡ 0
  unfolding on_connected
  connected_count (ok done) k error next h = omega (arith, quiet.quiet_open k)
  connected_count (err e) k error next h =
      omega (arith, quiet.quiet_open k, quiet.quiet_close k, h e)

  created_count :
      (created : Result Errno ℕ) (a : Address) (error : Errno) (next : Errno → Attempt)
      → ((e : Errno) → total count (next e).calls ≡ 0)
      → total count (on_created created a error next).calls ≡ 0
  unfolding on_created
  created_count (err e) a error next h = h e
  created_count (ok k) a error next h = connected_count a.connected k error next h

  try_addresses_count :
      (addresses : List Address) (error : Errno)
      → total count (try_addresses addresses error).calls ≡ 0
  unfolding try_addresses
  try_addresses_count [] error = refl
  try_addresses_count (a ∷ rest) error =
      created_count a.created a error (try_addresses rest) (try_addresses_count rest)

  close_held_count : (socket : Option ℕ) → total count (close_held socket) ≡ 0
  unfolding close_held
  close_held_count none = refl
  close_held_count (some k) = omega (arith, quiet.quiet_close k)

  shut_held_count : (socket : Option ℕ) → total count (shut_held socket) ≡ 0
  unfolding shut_held
  shut_held_count none = refl
  shut_held_count (some k) = omega (arith, quiet.quiet_shut k)

  keep_socket_count :
      (attempt : Attempt) (socket : Option ℕ) (t : UdpTransport)
      → total count attempt.calls ≡ 0
      → total count (keep_socket attempt socket t).calls ≡ 0
  unfolding keep_socket
  keep_socket_count attempt none t h = h
  keep_socket_count attempt (some k) t h =
      omega (
        arith,
        h,
        close_held_count t.socket,
        total-append count attempt.calls (close_held t.socket),
      )

  send_on_count :
      (socket : Option ℕ) (request : Bytes) (sent : Result Errno ℕ) (t : UdpTransport)
      → total count (send_on socket request sent t).calls ≡ 0
  unfolding send_on
  send_on_count none request sent t = refl
  send_on_count (some k) request sent t = omega (arith, quiet.quiet_send k request)

  connect_count :
      (answer : Result ℕ (List Address)) (t : UdpTransport)
      → total count (connect answer t).calls ≡ 0
  unfolding connect
  connect_count (err code) t = refl
  connect_count (ok addresses) t =
      let attempt = try_addresses addresses (failure 0) in
      keep_socket_count attempt attempt.connected_socket t
        (try_addresses_count addresses (failure 0))

  run_command_count :
      (command : Command) (t : UdpTransport) → total count (run_command command t).calls ≡ 0
  unfolding run_command send shutdown close
  run_command_count (connects answer) t = connect_count answer t
  run_command_count (sends_request request sent) t = send_on_count t.socket request sent t
  run_command_count shuts t = shut_held_count t.socket
  run_command_count closes t = close_held_count t.socket

  pub run_commands_count :
      (commands : List Command) (t : UdpTransport) → total count (run_commands commands t).calls ≡ 0
  unfolding run_commands
  run_commands_count [] t = refl
  run_commands_count (command ∷ commands) t =
      let done = run_command command t in
      omega (
        arith,
        run_command_count command t,
        run_commands_count commands done.transport,
        total-append count done.calls (run_commands commands done.transport).calls,
      )
