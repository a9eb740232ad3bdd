-- ===== src/Transport/Receive.antt =====
-- `receive` of src/detail/udp_transport_posix.cpp. The loop takes what `poll` answers as a list, with
-- the clock after each answer; a loop that has not ended by then still waits. Other threads' commands
-- run between the two sections that hold the lock.
pub mod Quiet
pub mod Interrupts
pub mod Shutdown
use netft_cpp.Base.{
  ℕ, ◌-◌, ◌^◌, Bool, true, false, List, [], ◌∷◌, ◌++◌, Option, none, some, Result, ok, err,
  if◌then◌else◌, leb,
}
use netft_cpp.Base.Int.{ℤ, pos}
use netft_cpp.Floats.{Floats, LongFloats, IntFloats}
use netft_cpp.Time.{TimeError, checked_deadline}
use netft_cpp.Transport.{
  Call, polls, receives, Errno, interrupted, Thrown, not_connected, invalid_socket, not_waited,
  not_received, bad_time, UdpTransport, Done, Command, run_commands,
}

-- An answer of `poll`: an error, a result of 0, or a descriptor that is ready, and whether `revents`
-- has `POLLNVAL`.
pub data PollAnswer : Type 0 where
  poll_failed : Errno → PollAnswer
  nothing_ready : PollAnswer
  ready : Bool → PollAnswer

pub record Poll : Type 0 where
  pub answer : PollAnswer
  pub now : ℕ

-- What a call of `receive` meets.
pub record Arrival : Type 0 where
  pub started_at : ℕ
  pub polls : List Poll
  pub others : List Command
  pub received : Result Errno ℕ

-- The call returns a size, throws, or still waits.
pub data Reply : Type 0 where
  returned : ℕ → Reply
  threw : Thrown → Reply
  still_waits : Reply

-- How the loop ends, and the calls that it made.
pub data WaitEnd : Type 0 where
  readable : Bool → WaitEnd
  gives_up : WaitEnd
  fails : Errno → WaitEnd
  goes_on : WaitEnd

pub record Waited : Type 0 where
  pub end : WaitEnd
  pub calls : List Call

-- behind the loop and the lock: the test of `revents`, and `recv`
read_socket : Bool → Bool → Result Errno ℕ → ℕ → ℕ → UdpTransport → Done Reply
read_socket true invalid received socket capacity t = record {
  transport = t;
  calls = [];
  reply = returned 0;
}
read_socket false true received socket capacity t = record {
  transport = t;
  calls = [];
  reply = threw invalid_socket;
}
read_socket false false (ok size) socket capacity t = record {
  transport = t;
  calls = receives socket capacity ∷ [];
  reply = returned size;
}
read_socket false false (err interrupted) socket capacity t = record {
  transport = t;
  calls = receives socket capacity ∷ [];
  reply = returned 0;
}
read_socket false false (err error) socket capacity t = record {
  transport = t;
  calls = receives socket capacity ∷ [];
  reply = threw (not_received error);
}

-- by how the loop has ended; the transport is the one that the others have left
behind_loop : WaitEnd → Result Errno ℕ → ℕ → ℕ → UdpTransport → Done Reply
unfolding read_socket
behind_loop (readable invalid) received socket capacity t =
    read_socket t.shutdown_requested invalid received socket capacity t
behind_loop gives_up received socket capacity t = record {
  transport = t;
  calls = [];
  reply = returned 0;
}
behind_loop (fails error) received socket capacity t = record {
  transport = t;
  calls = [];
  reply = threw (not_waited error);
}
behind_loop goes_on received socket capacity t = record {
  transport = t;
  calls = [];
  reply = still_waits;
}

module _ (F : Floats) (L : LongFloats F.Double) (I : IntFloats F.Double) where
  open F use {Double, le, mul, of_nat, of_ticks}
  open I use {ceil, to_int}

  -- `std::numeric_limits<int>::max()` is that of a 32-bit `int`.
  unfoldable pub timeout_milliseconds : Double → ℤ
  timeout_milliseconds timeout =
      let milliseconds = ceil (mul timeout (of_nat 1000)) in
      if le (of_nat (2 ^ 31 - 1)) milliseconds then pos (2 ^ 31 - 1) else to_int milliseconds

  -- by an answer of `poll`, the clock after it, and the rest of the loop
  on_answer : PollAnswer → ℕ → ℕ → Waited → Waited
  on_answer nothing_ready now deadline again = record { end = gives_up; calls = [] }
  on_answer (ready invalid) now deadline again = record { end = readable invalid; calls = [] }
  on_answer (poll_failed interrupted) now deadline again =
      if leb deadline now then record { end = gives_up; calls = [] } else again
  on_answer (poll_failed error) now deadline again = record { end = fails error; calls = [] }

  unfoldable pub wait : ℕ → ℕ → List Poll → Double → Waited
  unfolding on_answer
  wait socket deadline [] remaining = record { end = goes_on; calls = [] }
  wait socket deadline (poll ∷ rest) remaining =
      let again = wait socket deadline rest (of_ticks (deadline - poll.now)) in
      let ended = on_answer poll.answer poll.now deadline again in
      record ended { calls = polls socket (timeout_milliseconds remaining) ∷ ended.calls }

  -- behind the first section
  wait_and_read : Result TimeError ℕ → ℕ → ℕ → Double → Arrival → UdpTransport → Done Reply
  unfolding behind_loop
  wait_and_read (err error) socket capacity timeout arrival t = record {
    transport = t;
    calls = [];
    reply = threw (bad_time error);
  }
  wait_and_read (ok deadline) socket capacity timeout arrival t =
      let waited = wait socket deadline arrival.polls timeout in
      let others = run_commands arrival.others t in
      let done = behind_loop waited.end arrival.received socket capacity others.transport in
      record done { calls = waited.calls ++ (others.calls ++ done.calls) }

  receive_on : Option ℕ → ℕ → Double → Arrival → UdpTransport → Done Reply
  unfolding wait_and_read
  receive_on none capacity timeout arrival t = record {
    transport = t;
    calls = [];
    reply = threw not_connected;
  }
  receive_on (some socket) capacity timeout arrival t =
      if t.shutdown_requested
      then record { transport = t; calls = []; reply = returned 0 }
      else wait_and_read (checked_deadline L arrival.started_at timeout) socket capacity timeout
          arrival t

  unfoldable pub receive : ℕ → Double → Arrival → UdpTransport → Done Reply
  unfolding receive_on
  receive capacity timeout arrival t = receive_on t.socket capacity timeout arrival t
