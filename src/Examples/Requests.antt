-- ===== src/Examples/Requests.antt =====
-- What other threads ask of a client that streams.
use netft_cpp.Base.{ℕ, ◌≡◌, ◌↔◌, ◌⊎◌, refl, arith, true, false, [], ◌∷◌, some, ok, length}
use netft_cpp.Client.Commands.{
  bias, biased, health, Wake, wait_for_first_sample, answers, still_waits, faulted,
}
use netft_cpp.Client.Commands.Bias.{bias_calls, bias_biased}
use netft_cpp.Client.Commands.Health.{health_rates}
use netft_cpp.Client.Commands.Waiting.{StaysPending, GetsDelivered, wait_for_first_sample_iff}
use netft_cpp.Client.Rates.{recent}
use netft_cpp.Client.State.{Impl}
use netft_cpp.Examples.Fixtures.{impl}
use netft_cpp.Examples.Numbers.{Number, numbers, long_numbers, whole}
use netft_cpp.FaultLatch
use netft_cpp.Protocol.{encode_request}
use netft_cpp.Sequence.Rdt
use netft_cpp.Time.{checked_duration, checked_deadline}
use netft_cpp.Transport.{UdpTransport, send}
use netft_cpp.Types.{ClientState}
use netft_cpp.Types.Faults.{FaultCode}

abbrev transport : UdpTransport
transport = record { socket = some 7; shutdown_requested = false }

bias_returns : (bias (ok 8) (ok 8) impl transport).end ≡ biased
unfolding bias send encode_request faulted FaultLatch.faulted
bias_returns = refl

bias_biased_example :
    let after = bias (ok 8) (ok 8) impl transport in
    (true ≡ true)
    × (ClientState.streaming ≡ ClientState.streaming)
    × ((s : ℕ) × (some 7 ≡ some s) × (after.calls ≡ bias_calls s))
    × (after.impl ≡ record impl { rdt_sequence = after.impl.rdt_sequence })
    × ((Rdt.observe after.impl.rdt_sequence 900).0 ≡ Rdt.seen Rdt.first 0)
bias_biased_example = bias_biased (ok 8) (ok 8) impl transport 900 bias_returns

health_rates_example :
    let (next, snapshot) = health numbers long_numbers 1000004500 impl in
    (snapshot.receive_rate_hz ≡ whole (length (recent 1000004500 impl.receive_times)))
    × (snapshot.delivery_rate_hz ≡ whole (length (recent 1000004500 impl.delivery_times)))
    × ((snapshot.state ≡ ClientState.faulted) ⊎ (snapshot.fault_code ≡ FaultCode.none))
    × (health numbers long_numbers 1000004500 next ≡ (next, snapshot))
health_rates_example = health_rates numbers long_numbers 1000004500 impl (omega arith) (omega arith)

-- the first sample of the run has not been delivered yet; it is before the first return
abbrev fresh : Impl Number
fresh = record impl { generation = 2 }

abbrev wake : Wake Number
wake = record { others = λ state. record state { delivered_generation = 2 }; timed_out = false }

one_second : checked_deadline long_numbers 5000 (whole 1) ≡ ok 1000005000
unfolding checked_duration checked_deadline
one_second = refl

wait_for_first_sample_iff_example :
    let reply = wait_for_first_sample numbers long_numbers 5000 (whole 1) (wake ∷ []) fresh in
    ((reply ≡ still_waits) ↔ StaysPending 2 (wake ∷ []) fresh)
    × ((reply ≡ answers true) ↔ GetsDelivered 2 (wake ∷ []) fresh)
wait_for_first_sample_iff_example =
    wait_for_first_sample_iff numbers long_numbers 5000 1000005000 (whole 1) (wake ∷ []) fresh
      one_second (omega arith)
