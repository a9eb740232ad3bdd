-- ===== src/Transport/Receive/Shutdown.antt =====
-- What a shutdown does to a wait in `receive`.
use netft_cpp.Base.{
  ℕ, ◌-◌, ◌≡◌, refl, arith, Bool, true, false, List, [], ◌∷◌, ◌++◌, Option, none, some, Result, ok,
  err, Bool-cases, inl, inr,
}
use netft_cpp.Floats.{Floats, LongFloats, IntFloats}
use netft_cpp.Time.{TimeError, checked_deadline}
use netft_cpp.Transport.{
  Call, receives, Errno, interrupted, shut, failure, UdpTransport, Done, run_commands,
}
use netft_cpp.Transport.Descriptors.{total, total-append}
use netft_cpp.Transport.Counting.{IsQuiet, run_commands_count}
use netft_cpp.Transport.Receive.{
  PollAnswer, poll_failed, nothing_ready, ready, Poll, Arrival, Reply, returned, WaitEnd, readable,
  gives_up, fails, goes_on, Waited, read_socket, behind_loop, on_answer, wait, wait_and_read,
  receive_on, receive,
}

-- how often the calls read from a socket
abbrev pub reads : Call → ℕ
reads (receives socket capacity) = 1
reads _ = 0

no_reads : IsQuiet reads
no_reads = record {
  quiet_open = λ k. refl;
  quiet_close = λ k. refl;
  quiet_shut = λ k. refl;
  quiet_send = λ k request. refl;
}

-- nothing is read, and no size but 0 is returned
abbrev IsSilent : Done Reply → Type 0
IsSilent done = (total reads done.calls ≡ 0) × ((size : ℕ) → done.reply ≡ returned size → size ≡ 0)

read_socket-IsSilent :
    (requested invalid : Bool) (received : Result Errno ℕ) (socket capacity : ℕ) (t : UdpTransport)
    → requested ≡ true
    → IsSilent (read_socket requested invalid received socket capacity t)
unfolding read_socket
read_socket-IsSilent true invalid received socket capacity t h = (refl, λ size e. ground arith)
read_socket-IsSilent false invalid received socket capacity t h = cc

behind_loop-IsSilent :
    (end : WaitEnd) (received : Result Errno ℕ) (socket capacity : ℕ) (t : UdpTransport)
    → t.shutdown_requested ≡ true
    → IsSilent (behind_loop end received socket capacity t)
unfolding behind_loop
behind_loop-IsSilent (readable invalid) received socket capacity t h =
    read_socket-IsSilent t.shutdown_requested invalid received socket capacity t h
behind_loop-IsSilent gives_up received socket capacity t h = (refl, λ size e. ground arith)
behind_loop-IsSilent (fails error) received socket capacity t h = (refl, λ size e. cc)
behind_loop-IsSilent goes_on received socket capacity t h = (refl, λ size e. cc)

module _ (F : Floats) (L : LongFloats F.Double) (I : IntFloats F.Double) where
  open F use {Double, of_ticks}

  on_answer-reads :
      (answer : PollAnswer) (now deadline : ℕ) (again : Waited)
      → total reads again.calls ≡ 0
      → total reads (on_answer F L I answer now deadline again).calls ≡ 0
  unfolding on_answer
  on_answer-reads nothing_ready now deadline again h = refl
  on_answer-reads (ready invalid) now deadline again h = refl
  on_answer-reads (poll_failed shut) now deadline again h = refl
  on_answer-reads (poll_failed (failure code)) now deadline again h = refl
  on_answer-reads (poll_failed interrupted) now deadline again h = ground (arith, h)

  wait-reads :
      (socket deadline : ℕ) (answers : List Poll) (remaining : Double)
      → total reads (wait F L I socket deadline answers remaining).calls ≡ 0
  unfolding wait
  wait-reads socket deadline [] remaining = refl
  wait-reads socket deadline (p ∷ rest) remaining =
      let time = of_ticks (deadline - p.now) in
      omega (
        arith,
        on_answer-reads p.answer p.now deadline (wait F L I socket deadline rest time)
            (wait-reads socket deadline rest time),
      )

  wait_and_read-IsSilent :
      (until : Result TimeError ℕ) (socket capacity : ℕ) (timeout : Double) (a : Arrival)
      (t : UdpTransport)
      → (run_commands a.others t).transport.shutdown_requested ≡ true
      → IsSilent (wait_and_read F L I until socket capacity timeout a t)
  unfolding wait_and_read
  wait_and_read-IsSilent (err error) socket capacity timeout a t h = (refl, λ size e. cc)
  wait_and_read-IsSilent (ok deadline) socket capacity timeout a t h =
      let waited = wait F L I socket deadline a.polls timeout in
      let others = run_commands a.others t in
      let done = behind_loop waited.end a.received socket capacity others.transport in
      let (r, silent) =
        behind_loop-IsSilent waited.end a.received socket capacity others.transport h in
      (
        omega (
          arith,
          r,
          wait-reads socket deadline a.polls timeout,
          run_commands_count reads no_reads a.others t,
          total-append reads others.calls done.calls,
          total-append reads waited.calls (others.calls ++ done.calls),
        ),
        silent,
      )

  receive_on-IsSilent :
      (socket : Option ℕ) (capacity : ℕ) (timeout : Double) (a : Arrival) (t : UdpTransport)
      → (run_commands a.others t).transport.shutdown_requested ≡ true
      → IsSilent (receive_on F L I socket capacity timeout a t)
  unfolding receive_on
  receive_on-IsSilent none capacity timeout a t h = (refl, λ size e. cc)
  receive_on-IsSilent (some k) capacity timeout a t h =
      let on =
        wait_and_read-IsSilent (checked_deadline L a.started_at timeout) k capacity timeout a t h in
      elim (Bool-cases t.shutdown_requested) [
        | inl y ↦ simp y (refl, λ size e. ground arith)
        | inr n ↦ simp n on
      ]

  -- Once other threads have shut the transport down during the wait of `receive`, and no later command
  -- has connected it again, the call reads nothing from the socket and returns no size but 0.
  pub receive_shut :
      (capacity : ℕ) (timeout : Double) (a : Arrival) (t : UdpTransport)
      → (run_commands a.others t).transport.shutdown_requested ≡ true
      → (total reads (receive F L I capacity timeout a t).calls ≡ 0)
        × ((size : ℕ) → (receive F L I capacity timeout a t).reply ≡ returned size → size ≡ 0)
  unfolding receive
  receive_shut capacity timeout a t h = receive_on-IsSilent t.socket capacity timeout a t h
