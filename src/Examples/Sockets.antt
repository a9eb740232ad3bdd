-- ===== src/Examples/Sockets.antt =====
-- A transport that connects at the second address, and waits.
use netft_cpp.Base.{
  ℕ, ◌+◌, ◌≤◌, ◌≡◌, ◌≢◌, ◌↔◌, refl, true, false, List, [], ◌∷◌, ◌++◌, ok, err, All,
}
use netft_cpp.Examples.Numbers.{not_negative, Number, numbers, long_numbers, int_numbers, whole}
use netft_cpp.Time.{checked_duration, checked_deadline}
use netft_cpp.Transport.{
  Command, connects, sends_request, shuts, closes, Address, initial, failure, interrupted, close,
  run_commands, run_command, shutdown,
}
use netft_cpp.Transport.Descriptors.{opens_of, closes_of, total, held}
use netft_cpp.Transport.Endpoint.{Endpoint, replies, view, run_commands_refine}
use netft_cpp.Transport.Life.{Request, commands, windows_commands, receives, live, live-balanced}
use netft_cpp.Transport.Receive
use netft_cpp.Transport.Receive.{Poll, poll_failed, ready, Arrival, still_waits, receive}
use netft_cpp.Transport.Receive.Interrupts.{Interrupts, open_on, receive_waits_iff}
use netft_cpp.Transport.Receive.Shutdown.{reads, receive_shut}
use netft_cpp.Transport.Windows
use netft_cpp.Transport.Windows.{Slice, SlicedArrival}
use netft_cpp.Transport.Windows.Shutdown.{long_waits, receive_stops}
use netft_cpp.Transport.Windows.Shutdown

abbrev refused : Address
refused = record { created = ok 6; connected = err (failure 113) }

abbrev reached : Address
reached = record { created = ok 7; connected = ok tt }

abbrev connecting : Command
connecting = connects (ok (refused ∷ reached ∷ []))

-- a signal, then a datagram
abbrev arrival : Arrival
arrival = record {
  started_at = 5000;
  polls =
      record { answer = poll_failed interrupted; now = 6000 }
      ∷ record { answer = ready false; now = 7000 }
      ∷ [];
  others = [];
  received = ok 36;
}

abbrev requests : List (Request Number)
requests =
    commands connecting
    ∷ commands (sends_request (1 ∷ 2 ∷ []) (ok 2))
    ∷ receives 512 (whole 1) arrival
    ∷ windows_commands connecting
    ∷ []

live-balanced_example :
    let run = live numbers long_numbers int_numbers requests initial in
    (total (opens_of 7) run.calls ≡ held 7 run.transport.socket + total (closes_of 7) run.calls)
    × (total (opens_of 7) (run.calls ++ (close run.transport).calls)
        ≡ total (closes_of 7) (run.calls ++ (close run.transport).calls))
live-balanced_example = live-balanced numbers long_numbers int_numbers requests 7

abbrev session : List Command
session =
    sends_request [] (ok 0) ∷ connecting ∷ sends_request (1 ∷ 2 ∷ []) (ok 1) ∷ shuts ∷ closes ∷ []

run_commands_refine_example :
    (replies session initial ≡ false ∷ true ∷ false ∷ true ∷ true ∷ [])
    × (view (run_commands session initial).transport ≡ Endpoint.unconnected)
run_commands_refine_example = run_commands_refine session initial

abbrev interrupts : Arrival
interrupts = record arrival { polls = record { answer = poll_failed interrupted; now = 6000 } ∷ [] }

one_second : checked_deadline long_numbers 5000 (whole 1) ≡ ok 1000005000
unfolding checked_duration checked_deadline
one_second = refl

receive_waits_iff_example :
    ((receive numbers long_numbers int_numbers 512 (whole 1) interrupts (open_on 7)).reply
      ≡ still_waits)
    ↔ All (Interrupts 1000005000) interrupts.polls
receive_waits_iff_example =
    receive_waits_iff numbers long_numbers int_numbers 7 512 1000005000 (whole 1) interrupts
      one_second

abbrev interrupted_by_shutdown : Arrival
interrupted_by_shutdown = record arrival { others = shuts ∷ [] }

receive_shut_example :
    let done =
      receive numbers long_numbers int_numbers 512 (whole 1) interrupted_by_shutdown (open_on 7) in
    (total reads done.calls ≡ 0) × ((size : ℕ) → done.reply ≡ Receive.returned size → size ≡ 0)
unfolding run_commands run_command shutdown
receive_shut_example =
    receive_shut numbers long_numbers int_numbers 512 (whole 1) interrupted_by_shutdown (open_on 7)
      refl

abbrev quiet : Slice
quiet = record { others = []; now = 6000; answer = Windows.nothing_ready; checked_at = 7000 }

abbrev sliced : SlicedArrival
sliced = record {
  started_at = 5000;
  slices = quiet ∷ record quiet { others = shuts ∷ [] } ∷ quiet ∷ [];
  others = [];
  received = ok 36;
  others_behind = [];
}

receive_stops_example :
    let done = Windows.receive numbers long_numbers int_numbers 512 (whole 1) sliced (open_on 7) in
    (total Shutdown.waits done.calls ≤ 1)
    × (total long_waits done.calls ≡ 0)
    × (done.reply ≢ still_waits)
unfolding run_commands run_command shutdown
receive_stops_example =
    receive_stops numbers long_numbers int_numbers not_negative 512 (whole 1) sliced (quiet ∷ [])
      (record quiet { others = shuts ∷ [] }) (quiet ∷ []) (open_on 7) refl refl
