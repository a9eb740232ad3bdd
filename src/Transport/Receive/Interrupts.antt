-- ===== src/Transport/Receive/Interrupts.antt =====
-- What interrupts a wait in `receive`.
use netft_cpp.Base.{
  ℕ, ◌+◌, ◌-◌, ◌<◌, ◌≡◌, ◌≢◌, refl, ap, ◌∙◌, ◌↔◌, arith, Bool, true, false, List, [], ◌∷◌, ◌++◌,
  Option, none, some, Result, ok, err, Bool-cases, inl, inr, All, leb, length,
}
use netft_cpp.Floats.{Floats, LongFloats, IntFloats}
use netft_cpp.Time.{TimeError, checked_deadline}
use netft_cpp.Transport.{Call, polls, Errno, interrupted, shut, failure, UdpTransport, run_commands}
use netft_cpp.Transport.Descriptors.{total}
use netft_cpp.Transport.Receive.{
  PollAnswer, poll_failed, nothing_ready, ready, Poll, Arrival, still_waits, WaitEnd, readable,
  gives_up, fails, goes_on, Waited, read_socket, behind_loop, on_answer, wait, wait_and_read,
  receive_on, receive,
}

-- how often the calls wait for a socket
abbrev pub waits : Call → ℕ
waits (polls socket milliseconds) = 1
waits _ = 0

-- a signal, with time left
abbrev pub Interrupts : ℕ → Poll → Type 0
Interrupts deadline poll = (poll.answer ≡ poll_failed interrupted) × (poll.now < deadline)

abbrev pub open_on : ℕ → UdpTransport
open_on socket = record { socket = some socket; shutdown_requested = false }

module _ (F : Floats) (L : LongFloats F.Double) (I : IntFloats F.Double) where
  open F use {Double, of_ticks}

  on_answer-interrupted :
      (poll : Poll) (deadline : ℕ) (again : Waited)
      → Interrupts deadline poll
      → on_answer F L I poll.answer poll.now deadline again ≡ again
  unfolding on_answer
  on_answer-interrupted poll deadline again (a, b) = rw a (ground arith)

  -- the time that is left behind the interrupts
  abbrev left : ℕ → List Poll → Double → Double
  left deadline [] remaining = remaining
  left deadline (poll ∷ rest) remaining = left deadline rest (of_ticks (deadline - poll.now))

  wait-interrupted :
      (socket deadline : ℕ) (before after : List Poll) (remaining : Double)
      → All (Interrupts deadline) before
      → let whole = wait F L I socket deadline (before ++ after) remaining in
        let rest = wait F L I socket deadline after (left deadline before remaining) in
        (whole.end ≡ rest.end) × (total waits whole.calls ≡ length before + total waits rest.calls)
  unfolding wait
  wait-interrupted socket deadline [] after remaining h = (refl, omega arith)
  wait-interrupted socket deadline (poll ∷ before) after remaining (p, h) =
      let again = wait F L I socket deadline (before ++ after) (of_ticks (deadline - poll.now)) in
      let e = on_answer-interrupted poll deadline again p in
      let (a, b) =
        wait-interrupted socket deadline before after (of_ticks (deadline - poll.now)) h in
      (
        ap (λ (w : Waited). w.end) e ∙ a,
        omega (arith, b, ap (λ (w : Waited). total waits w.calls) e),
      )

  wait-remaining :
      (socket deadline : ℕ) (answers : List Poll) (a b : Double)
      → (wait F L I socket deadline answers a).end ≡ (wait F L I socket deadline answers b).end
  unfolding wait
  wait-remaining socket deadline [] a b = refl
  wait-remaining socket deadline (poll ∷ rest) a b = refl

  behind-wait :
      (until : Result TimeError ℕ) (socket capacity deadline : ℕ) (timeout : Double) (a : Arrival)
      (before after : List Poll) (t : UdpTransport)
      → until ≡ ok deadline
      → All (Interrupts deadline) before
      → (wait_and_read F L I until socket capacity timeout
          (record a { polls = before ++ after })
          t).reply
        ≡ (wait_and_read F L I until socket capacity timeout (record a { polls = after }) t).reply
  unfolding wait_and_read
  behind-wait until socket capacity deadline timeout a before after t u h =
      let others = run_commands a.others t in
      let e =
        (wait-interrupted socket deadline before after timeout h).0
        ∙ wait-remaining socket deadline after (left deadline before timeout) timeout in
      rw u
        (ap (λ (w : WaitEnd). (behind_loop w a.received socket capacity others.transport).reply) e)

  receive_on-interrupted :
      (socket : Option ℕ) (capacity deadline : ℕ) (timeout : Double) (a : Arrival)
      (before after : List Poll) (t : UdpTransport)
      → checked_deadline L a.started_at timeout ≡ ok deadline
      → All (Interrupts deadline) before
      → (receive_on F L I socket capacity timeout (record a { polls = before ++ after }) t).reply
        ≡ (receive_on F L I socket capacity timeout (record a { polls = after }) t).reply
  unfolding receive_on
  receive_on-interrupted none capacity deadline timeout a before after t u h = refl
  receive_on-interrupted (some k) capacity deadline timeout a before after t u h =
      let same =
        behind-wait (checked_deadline L a.started_at timeout) k capacity deadline timeout a before
          after t u h in
      elim (Bool-cases t.shutdown_requested) [ inl y ↦ simp y refl | inr n ↦ simp n same ]

  -- When signals interrupt the wait of `receive` while time is left, the call replies as if it had not
  -- been interrupted.
  pub receive_interrupted :
      (capacity deadline : ℕ) (timeout : Double) (a : Arrival) (before after : List Poll)
      (t : UdpTransport)
      → checked_deadline L a.started_at timeout ≡ ok deadline
      → All (Interrupts deadline) before
      → (receive F L I capacity timeout (record a { polls = before ++ after }) t).reply
        ≡ (receive F L I capacity timeout (record a { polls = after }) t).reply
  unfolding receive
  receive_interrupted capacity deadline timeout a before after t u h =
      receive_on-interrupted t.socket capacity deadline timeout a before after t u h

  answer_iff :
      (answer : PollAnswer) (now deadline : ℕ) (again : Waited) {P : Type 0}
      → (again.end ≡ goes_on) ↔ P
      → ((on_answer F L I answer now deadline again).end ≡ goes_on)
        ↔ (((answer ≡ poll_failed interrupted) × (now < deadline)) × P)
  unfolding on_answer
  answer_iff nothing_ready now deadline again h = (λ e. cc, λ e. cc)
  answer_iff (ready invalid) now deadline again h = (λ e. cc, λ e. cc)
  answer_iff (poll_failed shut) now deadline again h = (λ e. cc, λ e. cc)
  answer_iff (poll_failed (failure code)) now deadline again h = (λ e. cc, λ e. cc)
  answer_iff (poll_failed interrupted) now deadline again (f, g) =
      elim (Bool-cases (leb deadline now)) [
        | inl y ↦ (
          λ e. let n : gives_up ≡ goes_on = simp y at e in cc,
          λ e. let never = e.0.1 in ground arith,
        )
        | inr n ↦ (λ e. ((refl, ground arith), f (simp n at e)), λ e. simp n (g e.1))
      ]

  wait_iff :
      (socket deadline : ℕ) (answers : List Poll) (remaining : Double)
      → ((wait F L I socket deadline answers remaining).end ≡ goes_on)
        ↔ All (Interrupts deadline) answers
  unfolding wait
  wait_iff socket deadline [] remaining = (λ e. tt, λ h. refl)
  wait_iff socket deadline (poll ∷ rest) remaining =
      let time = of_ticks (deadline - poll.now) in
      answer_iff poll.answer poll.now deadline (wait F L I socket deadline rest time)
        (wait_iff socket deadline rest time)

  read_socket-ends :
      (requested invalid : Bool) (received : Result Errno ℕ) (socket capacity : ℕ)
      (t : UdpTransport)
      → (read_socket requested invalid received socket capacity t).reply ≢ still_waits
  unfolding read_socket
  read_socket-ends true invalid received socket capacity t e = cc
  read_socket-ends false true received socket capacity t e = cc
  read_socket-ends false false (ok size) socket capacity t e = cc
  read_socket-ends false false (err interrupted) socket capacity t e = cc
  read_socket-ends false false (err shut) socket capacity t e = cc
  read_socket-ends false false (err (failure code)) socket capacity t e = cc

  behind_loop_iff :
      (end : WaitEnd) (received : Result Errno ℕ) (socket capacity : ℕ) (t : UdpTransport)
      → ((behind_loop end received socket capacity t).reply ≡ still_waits) ↔ (end ≡ goes_on)
  unfolding behind_loop
  behind_loop_iff (readable invalid) received socket capacity t = (
    λ e. elim (read_socket-ends t.shutdown_requested invalid received socket capacity t e) [ ],
    λ e. cc,
  )
  behind_loop_iff gives_up received socket capacity t = (λ e. cc, λ e. cc)
  behind_loop_iff (fails error) received socket capacity t = (λ e. cc, λ e. cc)
  behind_loop_iff goes_on received socket capacity t = (λ e. refl, λ e. refl)

  -- `receive` on a connected transport that is not shut down still waits exactly while each answer so
  -- far was an interrupt with time left: any other answer, and the first clock reading behind the
  -- deadline, ends the call.
  pub receive_waits_iff :
      (socket capacity deadline : ℕ) (timeout : Double) (a : Arrival)
      → checked_deadline L a.started_at timeout ≡ ok deadline
      → ((receive F L I capacity timeout a (open_on socket)).reply ≡ still_waits)
        ↔ All (Interrupts deadline) a.polls
  unfolding receive receive_on wait_and_read
  receive_waits_iff socket capacity deadline timeout a u =
      let others = run_commands a.others (open_on socket) in
      let waited = wait F L I socket deadline a.polls timeout in
      let (f, g) = behind_loop_iff waited.end a.received socket capacity others.transport in
      let (p, q) = wait_iff socket deadline a.polls timeout in rw u (λ e. p (f e), λ h. g (q h))
