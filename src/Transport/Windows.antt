-- ===== src/Transport/Windows.antt =====
-- src/detail/udp_transport_windows.cpp. Here the wait of `receive` runs in slices, and each looks
-- whether the transport is shut down. What other threads ask for runs before each section that holds
-- the lock, by the other platform's `run_commands`: Transport/Windows/Platforms compares the two.
pub mod Quiet
pub mod Platforms
pub mod Shutdown
use netft_cpp.Base.{
  ℕ, ◌-◌, ◌^◌, Bool, true, false, ◌||◌, ◌&&◌, List, [], ◌∷◌, ◌++◌, Option, none, some, Result, ok,
  err, if◌then◌else◌, leb, ltb, min, not, ◌==◌, length,
}
use netft_cpp.Base.Int.{ℤ, pos, leb_ℤ}
use netft_cpp.Base.Text.{Bytes}
use netft_cpp.Floats.{Floats, LongFloats, IntFloats}
use netft_cpp.Time.{TimeError, checked_deadline}
use netft_cpp.Transport.{
  Call, opened, closed, shut_down, sends, polls, receives, Errno, interrupted, shut, failure,
  Thrown, not_resolved, not_connected, short_write, not_sent, not_waited, not_received, bad_time,
  no_winsock, UdpTransport, Done, Command, connects, sends_request, shuts, closes, no_reply,
  run_commands, Address, try_addresses, keep_socket,
}
use netft_cpp.Transport.Receive.{Reply, returned, threw, still_waits, timeout_milliseconds}

-- the codes 10065 `WSAEHOSTUNREACH`, 10038 `WSAENOTSOCK` and 10054 `WSAECONNRESET`
abbrev host_unreachable : Errno
host_unreachable = failure 10065

abbrev not_a_socket : Errno
not_a_socket = failure 10038

abbrev connection_reset : Errno
connection_reset = failure 10054

unfoldable pub connect : Result ℕ (List Address) → UdpTransport → Done (Result Thrown (Unit {0}))
connect (err code) t = record { transport = t; calls = []; reply = err (not_resolved code) }
connect (ok addresses) t =
    let attempt = try_addresses addresses host_unreachable in
    keep_socket attempt attempt.connected_socket t

-- `WinSockRuntime`'s constructor, by what `WSAStartup` answers
start_winsock : ℕ → Result Thrown (Unit {0})
start_winsock result = if not (result == 0) then err (no_winsock result) else ok tt

-- by what the call `send` answers
check_sent : Result Errno ℕ → ℕ → Result Thrown (Unit {0})
check_sent (err error) size = err (not_sent error)
check_sent (ok sent) size = if not (sent == size) then err short_write else ok tt

send_on : Option ℕ → Bytes → Result Errno ℕ → UdpTransport → Done (Result Thrown (Unit {0}))
unfolding check_sent
send_on none request sent t = record { transport = t; calls = []; reply = err not_connected }
send_on (some socket) request sent t = record {
  transport = t;
  calls = sends socket request ∷ [];
  reply = check_sent sent (length request);
}

unfoldable pub send : Bytes → Result Errno ℕ → UdpTransport → Done (Result Thrown (Unit {0}))
unfolding send_on
send request sent t = send_on t.socket request sent t

shut_held : Option ℕ → List Call
shut_held none = []
shut_held (some socket) = shut_down socket ∷ []

unfoldable pub shutdown : UdpTransport → Done (Unit {0})
unfolding shut_held
shutdown t = record {
  transport = record t { shutdown_requested = true };
  calls = shut_held t.socket;
  reply = tt;
}

close_held : Option ℕ → List Call
close_held none = []
close_held (some socket) = closed socket ∷ []

unfoldable pub close : UdpTransport → Done (Unit {0})
unfolding close_held
close t = record {
  transport = record { socket = none; shutdown_requested = true };
  calls = close_held t.socket;
  reply = tt;
}

unfoldable pub run_command : Command → UdpTransport → Done (Result Thrown (Unit {0}))
run_command (connects answer) t = connect answer t
run_command (sends_request request sent) t = send request sent t
run_command shuts t = no_reply (shutdown t)
run_command closes t = no_reply (close t)

-- The bits of `revents` that say that something is wrong, and what `getsockopt` tells about it, when
-- it tells an error.
pub record Events : Type 0 where
  pub invalid : Bool
  pub error : Bool
  pub hang_up : Bool
  pub socket_error : Option Errno

pub data SliceAnswer : Type 0 where
  slice_failed : Errno → SliceAnswer
  nothing_ready : SliceAnswer
  ready : Events → SliceAnswer

-- A round of the loop: what others asked for before it, the clock, the answer, the clock behind it.
pub record Slice : Type 0 where
  pub others : List Command
  pub now : ℕ
  pub answer : SliceAnswer
  pub checked_at : ℕ

pub record SlicedArrival : Type 0 where
  pub started_at : ℕ
  pub slices : List Slice
  pub others : List Command
  pub received : Result Errno ℕ
  pub others_behind : List Command

told_error : Bool → Option Errno → Errno
told_error true (some error) = error
told_error _ _ = connection_reset

socket_wait_error : Events → Errno
unfolding told_error
socket_wait_error events =
    if events.invalid then not_a_socket else told_error events.error events.socket_error

pub data SliceEnd : Type 0 where
  readable : Events → SliceEnd
  ended : Reply → SliceEnd

pub record Sliced : Type 0 where
  pub end : SliceEnd
  pub transport : UdpTransport
  pub calls : List Call

-- behind `recv`, under the lock when it has failed
on_received : Result Errno ℕ → Bool → Reply
on_received (ok size) requested = returned size
on_received (err interrupted) requested = returned 0
on_received (err shut) requested = returned 0
on_received (err error) requested = if requested then returned 0 else threw (not_received error)

abbrev has_trouble : Events → Bool
has_trouble events = events.error || (events.hang_up || events.invalid)

-- behind the loop
read_sliced : Events → ℕ → ℕ → SlicedArrival → UdpTransport → Done Reply
unfolding on_received socket_wait_error
read_sliced events socket capacity arrival t =
    if t.shutdown_requested
    then record { transport = t; calls = []; reply = returned 0 }
    else if has_trouble events
    then record { transport = t; calls = []; reply = threw (not_waited (socket_wait_error events)) }
    else let others = run_commands arrival.others_behind t in
      record {
        transport = others.transport;
        calls = receives socket (min capacity (2 ^ 31 - 1)) ∷ others.calls;
        reply = on_received arrival.received others.transport.shutdown_requested;
      }

behind_slices : SliceEnd → ℕ → ℕ → SlicedArrival → UdpTransport → Done Reply
unfolding read_sliced
behind_slices (ended reply) socket capacity arrival t = record {
  transport = t;
  calls = [];
  reply = reply;
}
behind_slices (readable events) socket capacity arrival t =
    let others = run_commands arrival.others t in
    let done = read_sliced events socket capacity arrival others.transport in
    record done { calls = others.calls ++ done.calls }

-- by the answer and the clock behind it
on_slice : SliceAnswer → ℕ → ℕ → UdpTransport → Sliced → Sliced
on_slice (slice_failed interrupted) checked_at deadline t again = record {
  end = ended (returned 0);
  transport = t;
  calls = [];
}
on_slice (slice_failed error) checked_at deadline t again = record {
  end = ended (threw (not_waited error));
  transport = t;
  calls = [];
}
on_slice (ready events) checked_at deadline t again = record {
  end = readable events;
  transport = t;
  calls = [];
}
on_slice nothing_ready checked_at deadline t again =
    if leb deadline checked_at
    then record { end = ended (returned 0); transport = t; calls = [] }
    else again

module _ (F : Floats) (L : LongFloats F.Double) (I : IntFloats F.Double) where
  open F use {Double, lt, of_ticks}

  -- 50 milliseconds, in ticks of the clock
  abbrev check_interval : Double
  check_interval = of_ticks 50000000

  poll_timeout : ℕ → ℕ → Double
  poll_timeout deadline now =
      if ltb now deadline
      then if lt check_interval (of_ticks (deadline - now))
        then check_interval
        else of_ticks (deadline - now)
      else of_ticks 0

  slice_milliseconds : ℕ → ℕ → ℤ
  unfolding poll_timeout
  slice_milliseconds deadline now =
      let milliseconds = timeout_milliseconds F L I (poll_timeout deadline now) in
      if leb_ℤ (pos 50) milliseconds then pos 50 else milliseconds

  unfoldable pub wait_in_slices : ℕ → ℕ → List Slice → UdpTransport → Sliced
  unfolding on_slice slice_milliseconds
  wait_in_slices socket deadline [] t = record {
    end = ended still_waits;
    transport = t;
    calls = [];
  }
  wait_in_slices socket deadline (slice ∷ slices) t =
      let others = run_commands slice.others t in
      let again = wait_in_slices socket deadline slices others.transport in
      let next = on_slice slice.answer slice.checked_at deadline others.transport again in
      if others.transport.shutdown_requested
      then record { end = ended (returned 0); transport = others.transport; calls = others.calls }
      else record next {
        calls = others.calls ++ (polls socket (slice_milliseconds deadline slice.now) ∷ next.calls);
      }

  sliced_until : Result TimeError ℕ → ℕ → ℕ → SlicedArrival → UdpTransport → Done Reply
  unfolding behind_slices
  sliced_until (err error) socket capacity arrival t = record {
    transport = t;
    calls = [];
    reply = threw (bad_time error);
  }
  sliced_until (ok deadline) socket capacity arrival t =
      let sliced = wait_in_slices socket deadline arrival.slices t in
      let done = behind_slices sliced.end socket capacity arrival sliced.transport in
      record done { calls = sliced.calls ++ done.calls }

  sliced_on : Option ℕ → ℕ → Double → SlicedArrival → UdpTransport → Done Reply
  unfolding sliced_until
  sliced_on none capacity timeout arrival t = record {
    transport = t;
    calls = [];
    reply = threw not_connected;
  }
  sliced_on (some socket) capacity timeout arrival t =
      if t.shutdown_requested
      then record { transport = t; calls = []; reply = returned 0 }
      else sliced_until (checked_deadline L arrival.started_at timeout) socket capacity arrival t

  unfoldable pub receive : ℕ → Double → SlicedArrival → UdpTransport → Done Reply
  unfolding sliced_on
  receive capacity timeout arrival t = sliced_on t.socket capacity timeout arrival t
