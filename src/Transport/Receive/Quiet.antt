-- ===== src/Transport/Receive/Quiet.antt =====
-- `receive` opens and closes no descriptor.
use netft_cpp.Base.{
  ℕ, ◌-◌, refl, arith, Bool, true, false, List, [], ◌∷◌, Option, none, some, Result, ok, err,
  Bool-cases, inl, inr, ◌++◌,
}
use netft_cpp.Floats.{Floats, LongFloats, IntFloats}
use netft_cpp.Time.{TimeError, checked_deadline}
use netft_cpp.Transport.{Errno, interrupted, shut, failure, UdpTransport, run_commands}
use netft_cpp.Transport.Descriptors.{Balances, Balances-append, Accounts, run_commands-Accounts}
use netft_cpp.Transport.Receive.{
  PollAnswer, poll_failed, nothing_ready, ready, Poll, Arrival, WaitEnd, readable, gives_up, fails,
  goes_on, Waited, read_socket, behind_loop, on_answer, wait, wait_and_read, receive_on, receive,
}

read_socket-Accounts :
    (s : ℕ) (requested invalid : Bool) (received : Result Errno ℕ) (socket capacity : ℕ)
    (t : UdpTransport)
    → Accounts s t (read_socket requested invalid received socket capacity t)
unfolding read_socket
read_socket-Accounts s true invalid received socket capacity t = refl
read_socket-Accounts s false true received socket capacity t = refl
read_socket-Accounts s false false (ok size) socket capacity t = refl
read_socket-Accounts s false false (err interrupted) socket capacity t = refl
read_socket-Accounts s false false (err shut) socket capacity t = refl
read_socket-Accounts s false false (err (failure code)) socket capacity t = refl

behind_loop-Accounts :
    (s : ℕ) (end : WaitEnd) (received : Result Errno ℕ) (socket capacity : ℕ) (t : UdpTransport)
    → Accounts s t (behind_loop end received socket capacity t)
unfolding behind_loop
behind_loop-Accounts s (readable invalid) received socket capacity t =
    read_socket-Accounts s t.shutdown_requested invalid received socket capacity t
behind_loop-Accounts s gives_up received socket capacity t = refl
behind_loop-Accounts s (fails error) received socket capacity t = refl
behind_loop-Accounts s goes_on received socket capacity t = refl

module _ (F : Floats) (L : LongFloats F.Double) (I : IntFloats F.Double) where
  open F use {Double}

  on_answer-Balances :
      (s : ℕ) (x : Option ℕ) (answer : PollAnswer) (now deadline : ℕ) (again : Waited)
      → Balances s x again.calls x
      → Balances s x (on_answer F L I answer now deadline again).calls x
  unfolding on_answer
  on_answer-Balances s x nothing_ready now deadline again h = refl
  on_answer-Balances s x (ready invalid) now deadline again h = refl
  on_answer-Balances s x (poll_failed interrupted) now deadline again h = ground (arith, h)
  on_answer-Balances s x (poll_failed shut) now deadline again h = refl
  on_answer-Balances s x (poll_failed (failure code)) now deadline again h = refl

  wait-Balances :
      (s : ℕ) (x : Option ℕ) (socket deadline : ℕ) (answers : List Poll) (remaining : Double)
      → Balances s x (wait F L I socket deadline answers remaining).calls x
  unfolding wait
  wait-Balances s x socket deadline [] remaining = refl
  wait-Balances s x socket deadline (p ∷ rest) remaining = omega (
    arith,
    on_answer-Balances s x p.answer p.now deadline
        (wait F L I socket deadline rest (F.of_ticks (deadline - p.now)))
        (wait-Balances s x socket deadline rest (F.of_ticks (deadline - p.now))),
  )

  wait_and_read-Accounts :
      (s : ℕ) (until : Result TimeError ℕ) (socket capacity : ℕ) (timeout : Double) (a : Arrival)
      (t : UdpTransport)
      → Accounts s t (wait_and_read F L I until socket capacity timeout a t)
  unfolding wait_and_read
  wait_and_read-Accounts s (err error) socket capacity timeout a t = refl
  wait_and_read-Accounts s (ok deadline) socket capacity timeout a t =
      let waited = wait F L I socket deadline a.polls timeout in
      let others = run_commands a.others t in
      let done = behind_loop waited.end a.received socket capacity others.transport in
      Balances-append s t.socket t.socket done.transport.socket waited.calls
        (others.calls ++ done.calls) (wait-Balances s t.socket socket deadline a.polls timeout)
        (Balances-append s t.socket others.transport.socket done.transport.socket others.calls
          done.calls (run_commands-Accounts s a.others t)
          (behind_loop-Accounts s waited.end a.received socket capacity others.transport))

  receive_on-Accounts :
      (s : ℕ) (socket : Option ℕ) (capacity : ℕ) (timeout : Double) (a : Arrival) (t : UdpTransport)
      → Accounts s t (receive_on F L I socket capacity timeout a t)
  unfolding receive_on
  receive_on-Accounts s none capacity timeout a t = refl
  receive_on-Accounts s (some socket) capacity timeout a t =
      elim (Bool-cases t.shutdown_requested) [
        | inl y ↦ simp y refl
        | inr n ↦
            let h =
              wait_and_read-Accounts s (checked_deadline L a.started_at timeout) socket capacity
                timeout a t in
            simp n h
      ]

  pub receive-Accounts :
      (s : ℕ) (capacity : ℕ) (timeout : Double) (a : Arrival) (t : UdpTransport)
      → Accounts s t (receive F L I capacity timeout a t)
  unfolding receive
  receive-Accounts s capacity timeout a t = receive_on-Accounts s t.socket capacity timeout a t
