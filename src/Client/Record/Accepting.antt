-- ===== src/Client/Record/Accepting.antt =====
-- What is known of a record that `accept_record` took.
use netft_cpp.Base.{
  ℕ, zero, suc, ◌+◌, ◌-◌, ◌≡◌, refl, ap, ◌∙◌, Bool, false, if◌then◌else◌, arith, not, ◌&&◌, ◌||◌,
  List, [], ◌∷◌, ◌++◌, Option, some, length, u64,
}
use netft_cpp.Base.Int.{pos}
use netft_cpp.Floats.{Floats}
use netft_cpp.Protocol.{RawRecord}
use netft_cpp.Sequence.Ft
use netft_cpp.Sequence.Ft.{FtSequenceKind}
use netft_cpp.Sequence.Rdt
use netft_cpp.Sequence.Rdt.{SequenceObservation}
use netft_cpp.Status.{StatusSeverity, classify_status}
use netft_cpp.Types.{ClientState, Config, HealthSnapshot, SensorConfiguration}
use netft_cpp.Client.Outcome.{SessionResult}
use netft_cpp.Client.Rates.{prune_rate_window}
use netft_cpp.Client.Record.{judge, note_record, too_soon, accepted, accept_with, accept_record}
use netft_cpp.Client.Record.Counting.{judge_counts}
use netft_cpp.Client.Record.Decision.{is_new, has_progress, is_error, ending, judge_decides}
use netft_cpp.Client.State.{Impl}

module _ (F : Floats) where
  open F use {Double, lt, of_int, of_nat, div, ticks_lt}

  -- A sample was delivered, the rate is limited, and less than one over the limit has passed since.
  abbrev pub is_recent : Double → ℕ → ℕ → Bool
  is_recent limit zero received_at = false
  is_recent limit (suc last) received_at =
      if lt (of_int (pos 0)) limit
      then ticks_lt (received_at - suc last) (div (of_int (pos 1)) limit)
      else false

  too_soon-is_recent :
      (config : Config Double) (last received_at : ℕ)
      → too_soon F config last received_at ≡ is_recent config.sample_rate_limit_hz last received_at
  unfolding too_soon
  too_soon-is_recent config zero received_at = ground arith
  too_soon-is_recent config (suc last) received_at = ground arith

  -- The record is wanted, by its numbers, its status and the time since the last delivery.
  abbrev pub wanted : Impl Double → RawRecord → ℕ → Bool
  wanted impl r received_at =
      is_new (Rdt.observe impl.rdt_sequence r.rdt_sequence).0.kind
      && has_progress (Ft.observe impl.ft_sequence r.ft_sequence).0
      && (not (is_error (classify_status r.status))
          || impl.config.deliver_samples_with_error_status)
      && not (is_recent impl.config.sample_rate_limit_hz impl.last_delivery_at received_at)

  abbrev pub ends : Impl Double → RawRecord → Option SessionResult
  ends impl r =
      ending impl.config.recovery_policy (classify_status r.status)
        (Ft.observe impl.ft_sequence r.ft_sequence).0

  abbrev pub window : Impl Double → ℕ → List ℕ
  window impl received_at = prune_rate_window (impl.receive_times ++ (received_at ∷ [])) received_at

  -- The state `next` that the record leaves, and what stands in it unchanged.
  pub record Accepts (impl : Impl Double) (r : RawRecord) (received_at : ℕ) (next : Impl Double)
      : Type 0 where
    pub same_config : next.config ≡ impl.config
    pub same_latest : next.latest ≡ impl.latest
    pub same_last_delivery : next.last_delivery_at ≡ impl.last_delivery_at
    pub same_deliveries : next.delivery_times ≡ impl.delivery_times
    pub same_generation : next.generation ≡ impl.generation
    pub same_delivered_generation : next.delivered_generation ≡ impl.delivered_generation
    pub same_delivered_count : next.health.delivered_count ≡ impl.health.delivered_count
    pub one_more : next.health.received_count ≡ u64 (impl.health.received_count + 1)
    pub times : next.receive_times ≡ window impl received_at
    pub last_record : next.last_record_at ≡ received_at
    pub rdt_moved : next.rdt_sequence ≡ (Rdt.observe impl.rdt_sequence r.rdt_sequence).1
    pub ft_moved : next.ft_sequence ≡ (Ft.observe impl.ft_sequence r.ft_sequence).1
    pub streams : next.health.state ≡ ClientState.streaming
    pub rate : next.health.receive_rate_hz ≡ of_nat (length (window impl received_at))
    pub last_rdt : next.health.last_rdt_sequence ≡ some r.rdt_sequence
    pub last_ft : next.health.last_ft_sequence ≡ some r.ft_sequence
    pub last_status : next.health.last_status ≡ r.status
    pub same_fault : next.health.fault_code ≡ impl.health.fault_code
    pub same_configuration : next.health.sensor_configuration ≡ impl.health.sensor_configuration

  -- the fields that the five decisions leave
  judge_keeps :
      (config : Config Double) (soon : Bool) (rdt : SequenceObservation) (ft : FtSequenceKind)
      (severity : StatusSeverity) (health : HealthSnapshot Double)
      → let h = (judge F config soon rdt ft severity health).health in
        (h.state ≡ health.state)
        × (h.receive_rate_hz ≡ health.receive_rate_hz)
        × (h.last_rdt_sequence ≡ health.last_rdt_sequence)
        × (h.last_ft_sequence ≡ health.last_ft_sequence)
        × (h.last_status ≡ health.last_status)
        × (h.fault_code ≡ health.fault_code)
        × (h.sensor_configuration ≡ health.sensor_configuration)
  unfolding judge
  judge_keeps config soon rdt ft severity health = ground arith

  accept_next : Impl Double → RawRecord → ℕ → Impl Double
  accept_next impl r received_at = record impl {
    rdt_sequence = (Rdt.observe impl.rdt_sequence r.rdt_sequence).1;
    ft_sequence = (Ft.observe impl.ft_sequence r.ft_sequence).1;
    health =
        (judge F impl.config (too_soon F impl.config impl.last_delivery_at received_at)
          (Rdt.observe impl.rdt_sequence r.rdt_sequence).0
          (Ft.observe impl.ft_sequence r.ft_sequence).0 (classify_status r.status)
          (note_record F impl.health r (length (window impl received_at)))).health;
    receive_times = window impl received_at;
    last_record_at = received_at;
  }

  accept_next-Accepts :
      (impl : Impl Double) (r : RawRecord) (received_at : ℕ)
      → Accepts impl r received_at (accept_next impl r received_at)
  unfolding accept_next note_record
  accept_next-Accepts impl r received_at =
      let counted =
        judge_counts F impl.config (too_soon F impl.config impl.last_delivery_at received_at)
          (Rdt.observe impl.rdt_sequence r.rdt_sequence).0
          (Ft.observe impl.ft_sequence r.ft_sequence).0 (classify_status r.status)
          (note_record F impl.health r (length (window impl received_at))) in
      let kept =
        judge_keeps impl.config (too_soon F impl.config impl.last_delivery_at received_at)
          (Rdt.observe impl.rdt_sequence r.rdt_sequence).0
          (Ft.observe impl.ft_sequence r.ft_sequence).0 (classify_status r.status)
          (note_record F impl.health r (length (window impl received_at))) in
      record {
        same_config = refl;
        same_latest = refl;
        same_last_delivery = refl;
        same_deliveries = refl;
        same_generation = refl;
        same_delivered_generation = refl;
        same_delivered_count = counted.10;
        one_more = counted.9;
        times = refl;
        last_record = refl;
        rdt_moved = refl;
        ft_moved = refl;
        streams = kept.0;
        rate = kept.1;
        last_rdt = kept.2;
        last_ft = kept.3;
        last_status = kept.4;
        same_fault = kept.5;
        same_configuration = kept.6;
      }

  -- On a configured client the record is accepted, to be delivered if it is wanted, with the outcome
  -- that its table says. It is counted as received, the client streams and shows the record's numbers,
  -- its status and the rate of the window of receive times, that window and both trackers move on, and
  -- the configuration, the fault and all that was delivered stay.
  pub accept_record_configured :
      (impl : Impl Double) (r : RawRecord) (received_at : ℕ) (c : SensorConfiguration Double)
      → impl.health.sensor_configuration ≡ some c
      → (next : Impl Double) × (accept_record F impl r received_at
          ≡ accepted next c (wanted impl r received_at) (ends impl r))
        × Accepts impl r received_at next
  unfolding accept_record accept_next
  accept_record_configured impl r received_at c e =
      let rdt = Rdt.observe impl.rdt_sequence r.rdt_sequence in
      let ft = Ft.observe impl.ft_sequence r.ft_sequence in
      let soon = too_soon F impl.config impl.last_delivery_at received_at in
      let noted = note_record F impl.health r (length (window impl received_at)) in
      let decided = judge_decides F impl.config soon rdt.0 ft.0 (classify_status r.status) noted in
      let moved = record impl { rdt_sequence = rdt.1; ft_sequence = ft.1 } in
      (
        accept_next impl r received_at,
        ap (λ o. accept_with F o moved r rdt.0 ft.0 received_at) e
            ∙ (λ i. accepted (accept_next impl r received_at) c (decided.0 i) (decided.1 i))
            ∙ ap
                (λ s.
                  accepted (accept_next impl r received_at) c
                    (is_new rdt.0.kind
                      && has_progress ft.0
                      && (not (is_error (classify_status r.status))
                          || impl.config.deliver_samples_with_error_status)
                      && not s)
                    (ends impl r))
                (too_soon-is_recent impl.config impl.last_delivery_at received_at),
        accept_next-Accepts impl r received_at,
      )
