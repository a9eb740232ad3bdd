-- ===== src/Transport/Life.antt =====
-- A transport over its whole life: `UdpTransport`'s operations, in any order, on either platform, up
-- to its destructor, which closes it.
use netft_cpp.Base.{ℕ, ◌+◌, ◌≡◌, refl, ap, arith, List, [], ◌∷◌, ◌++◌, none}
use netft_cpp.Floats.{Floats, LongFloats, IntFloats}
use netft_cpp.Transport.{UdpTransport, initial, Done, close, Command, run_command}
use netft_cpp.Transport.Descriptors.{
  opens_of, closes_of, total, held, Balances-append, Accounts, run_command-Accounts, close-Accounts,
}
use netft_cpp.Transport.Receive
use netft_cpp.Transport.Receive.{Arrival, Reply}
use netft_cpp.Transport.Receive.Quiet as Waits
use netft_cpp.Transport.Windows
use netft_cpp.Transport.Windows.{SlicedArrival}
use netft_cpp.Transport.Windows.Platforms.{run_command-Same}
use netft_cpp.Transport.Windows.Quiet as Slices

-- what is asked of a transport
pub data Request (D : Type 0) : Type 0 where
  commands windows_commands : Command → Request D
  receives : ℕ → D → Arrival → Request D
  receives_sliced : ℕ → D → SlicedArrival → Request D

closed_socket : (t : UdpTransport) → (close t).transport.socket ≡ none
unfolding close
closed_socket t = refl

module _ (F : Floats) (L : LongFloats F.Double) (I : IntFloats F.Double) where
  open F use {Double}

  abbrev answer : Request Double → UdpTransport → Done (Unit {0})
  answer (commands command) t =
      let done = run_command command t in
      record { transport = done.transport; calls = done.calls; reply = tt }
  answer (windows_commands command) t =
      let done = Windows.run_command command t in
      record { transport = done.transport; calls = done.calls; reply = tt }
  answer (receives capacity timeout arrival) t =
      let done = Receive.receive F L I capacity timeout arrival t in
      record { transport = done.transport; calls = done.calls; reply = tt }
  answer (receives_sliced capacity timeout arrival) t =
      let done = Windows.receive F L I capacity timeout arrival t in
      record { transport = done.transport; calls = done.calls; reply = tt }

  abbrev pub live : List (Request Double) → UdpTransport → Done (Unit {0})
  live [] t = record { transport = t; calls = []; reply = tt }
  live (request ∷ requests) t =
      let done = answer request t in
      let rest = live requests done.transport in record rest { calls = done.calls ++ rest.calls }

  answer-Accounts :
      (s : ℕ) (request : Request Double) (t : UdpTransport) → Accounts s t (answer request t)
  answer-Accounts s (commands command) t = run_command-Accounts s command t
  answer-Accounts s (windows_commands command) t =
      let (same, calls, replied) = run_command-Same command t in
      rw (same, calls) (run_command-Accounts s command t)
  answer-Accounts s (receives capacity timeout arrival) t =
      Waits.receive-Accounts F L I s capacity timeout arrival t
  answer-Accounts s (receives_sliced capacity timeout arrival) t =
      Slices.receive-Accounts F L I s capacity timeout arrival t

  live-Accounts :
      (s : ℕ) (requests : List (Request Double)) (t : UdpTransport) → Accounts s t (live requests t)
  live-Accounts s [] t = refl
  live-Accounts s (request ∷ requests) t =
      let done = answer request t in
      let rest = live requests done.transport in
      Balances-append s t.socket done.transport.socket rest.transport.socket done.calls rest.calls
        (answer-Accounts s request t) (live-Accounts s requests done.transport)

  -- Whatever is asked of a transport, in any order, with any answers of the system and with other
  -- threads' commands during a wait, on either platform: at every point a descriptor has been opened
  -- once more than closed if the transport holds it, and as often otherwise. So once the transport is
  -- closed, every descriptor has been closed as often as it was opened.
  pub live-balanced :
      (requests : List (Request Double)) (s : ℕ)
      → let run = live requests initial in
        (total (opens_of s) run.calls ≡ held s run.transport.socket + total (closes_of s) run.calls)
        × (total (opens_of s) (run.calls ++ (close run.transport).calls)
            ≡ total (closes_of s) (run.calls ++ (close run.transport).calls))
  live-balanced requests s =
      let run = live requests initial in
      let last = close run.transport in
      let h = live-Accounts s requests initial in
      (
        omega (arith, h),
        omega (
          arith,
          Balances-append s none run.transport.socket last.transport.socket run.calls last.calls h
              (close-Accounts s run.transport),
          ap (held s) (closed_socket run.transport),
        ),
      )
