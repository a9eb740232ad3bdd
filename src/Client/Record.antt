-- ===== src/Client/Record.antt =====
-- The part of `handle_record` (src/detail/client_impl.cpp) that runs under the record lock: the
-- record is counted, and the client decides whether to deliver it and whether the session ends.
pub mod Decision
pub mod Counting
pub mod Accepting
use netft_cpp.Base.{
  ℕ, ◌+◌, ◌-◌, Bool, true, false, not, ◌&&◌, ◌||◌, List, [], ◌∷◌, ◌++◌, Option, none, some,
  if◌then◌else◌, ◌==◌, ltb, length, u64,
}
use netft_cpp.Base.Int.{pos}
use netft_cpp.Base.Text.{Bytes, codes}
use netft_cpp.Floats.{Floats}
use netft_cpp.Protocol.{RawRecord}
use netft_cpp.Sequence.Ft
use netft_cpp.Sequence.Ft.{FtSequenceKind, FtSequenceTracker}
use netft_cpp.Sequence.Rdt
use netft_cpp.Sequence.Rdt.{SequenceKind, SequenceObservation, RdtSequenceTracker}
use netft_cpp.Status.{StatusSeverity, classify_status}
use netft_cpp.Types.{SensorConfiguration, Config, RecoveryPolicy, ClientState, HealthSnapshot}
use netft_cpp.Client.Outcome.{SessionResult}
use netft_cpp.Client.Rates.{prune_rate_window}
use netft_cpp.Client.State.{Impl}

unfoldable pub ft_progress_name : FtSequenceKind → Bytes
ft_progress_name FtSequenceKind.first = codes "first"
ft_progress_name FtSequenceKind.forward = codes "forward"
ft_progress_name FtSequenceKind.stall = codes "stall"
ft_progress_name FtSequenceKind.backward = codes "backward"
ft_progress_name FtSequenceKind.restart = codes "restart"

-- The block's variables: `health_`, `deliver` and `outcome`.
pub record Judged (D : Type 0) : Type 0 where
  pub health : HealthSnapshot D
  pub deliver : Bool
  pub outcome : Option SessionResult

-- `outcome == FtStall || outcome == FtBackward`
is_discontinuity : Option SessionResult → Bool
is_discontinuity (some SessionResult.ft_stall) = true
is_discontinuity (some SessionResult.ft_backward) = true
is_discontinuity _ = false

is_reconnect : RecoveryPolicy → Bool
is_reconnect RecoveryPolicy.reconnect = true
is_reconnect RecoveryPolicy.fail_stop = false

is_none : Option SessionResult → Bool
is_none none = true
is_none (some _) = false

-- the outcome of a stall or a backward step, if there is none yet
progress_outcome : FtSequenceKind → Option SessionResult → Option SessionResult
progress_outcome FtSequenceKind.stall outcome =
    if is_none outcome then some SessionResult.ft_stall else outcome
progress_outcome FtSequenceKind.backward outcome =
    if is_none outcome then some SessionResult.ft_backward else outcome
progress_outcome _ outcome = outcome

ft_discontinuity : FtSequenceKind → Bool
ft_discontinuity FtSequenceKind.stall = true
ft_discontinuity FtSequenceKind.backward = true
ft_discontinuity _ = false

module _ {D : Type 0} where
  -- `switch (rdt.kind)`
  on_sequence : SequenceKind → ℕ → Judged D → Judged D
  on_sequence SequenceKind.gap_kind gap j = record j {
    health = record (j.health) { lost_count = u64 (j.health.lost_count + gap) };
  }
  on_sequence SequenceKind.duplicate gap j = record j {
    health = record (j.health) { duplicate_count = u64 (j.health.duplicate_count + 1) };
    deliver = false;
  }
  on_sequence SequenceKind.out_of_order gap j = record j {
    health = record (j.health) { out_of_order_count = u64 (j.health.out_of_order_count + 1) };
    deliver = false;
  }
  on_sequence SequenceKind.first gap j = j
  on_sequence SequenceKind.contiguous gap j = j

  -- `switch (ft.kind)` on the counters
  count_progress : FtSequenceKind → HealthSnapshot D → HealthSnapshot D
  count_progress FtSequenceKind.stall health = record health {
    ft_stall_count = u64 (health.ft_stall_count + 1);
  }
  count_progress FtSequenceKind.backward health = record health {
    ft_backward_count = u64 (health.ft_backward_count + 1);
  }
  count_progress FtSequenceKind.restart health = record health {
    ft_restart_count = u64 (health.ft_restart_count + 1);
  }
  count_progress FtSequenceKind.first health = health
  count_progress FtSequenceKind.forward health = health

  -- with the name of the progress
  on_progress : FtSequenceKind → Judged D → Judged D
  on_progress kind j = record j {
    health = count_progress kind (record (j.health) { last_ft_progress = ft_progress_name kind });
  }

  on_severity : Bool → StatusSeverity → Judged D → Judged D
  on_severity with_error StatusSeverity.ok j = j
  on_severity with_error StatusSeverity.warn j = record j {
    health = record (j.health) { warning_count = u64 (j.health.warning_count + 1) };
  }
  on_severity with_error StatusSeverity.error j = record j {
    health = record (j.health) { device_error_count = u64 (j.health.device_error_count + 1) };
    deliver = with_error && j.deliver;
    outcome = some SessionResult.serious_status;
  }

  on_discontinuity : RecoveryPolicy → FtSequenceKind → Judged D → Judged D
  on_discontinuity policy kind j =
      let outcome = progress_outcome kind j.outcome in
      if ft_discontinuity kind
      then record j {
        deliver = false;
        outcome = if is_reconnect policy && is_discontinuity outcome then none else outcome;
      }
      else record j { outcome = outcome }

-- What `handle_record` has when it releases the record lock, or the exception that it throws.
pub data Accepted (D : Type 0) : Type 0 where
  unconfigured : Impl D → Accepted D
  accepted : Impl D → SensorConfiguration D → Bool → Option SessionResult → Accepted D

module _ (F : Floats) where
  open F use {Double, lt, of_int, of_nat, div, ticks_lt}

  -- The sample would follow the last delivery too soon. A time of 0 is the clock's epoch, which
  -- stands for no delivery yet.
  unfoldable pub too_soon : Config Double → ℕ → ℕ → Bool
  too_soon config last_delivery_at received_at =
      lt (of_int (pos 0)) config.sample_rate_limit_hz
      && not (last_delivery_at == 0)
      && ticks_lt (received_at - last_delivery_at)
          (div (of_int (pos 1)) config.sample_rate_limit_hz)

  on_rate : Bool → Judged Double → Judged Double
  on_rate soon j =
      if j.deliver && soon
      then record j {
        health = record (j.health) { rate_limited_count = u64 (j.health.rate_limited_count + 1) };
        deliver = false;
      }
      else j

  -- the five decisions, in the order of the source
  unfoldable pub judge :
      Config Double
      → Bool
      → SequenceObservation
      → FtSequenceKind
      → StatusSeverity
      → HealthSnapshot Double
      → Judged Double
  unfolding on_sequence on_progress count_progress on_severity on_discontinuity progress_outcome
      ft_discontinuity is_discontinuity is_reconnect is_none on_rate ft_progress_name
  judge config soon rdt ft severity health = on_rate soon (
      on_discontinuity config.recovery_policy ft (
        on_severity config.deliver_samples_with_error_status severity (
          on_progress ft (
            on_sequence rdt.kind rdt.gap
              (record { health = health; deliver = true; outcome = none })))))

  -- the fields of `health_` that every record sets
  unfoldable pub note_record : HealthSnapshot Double → RawRecord → ℕ → HealthSnapshot Double
  note_record health r window = record health {
    state = ClientState.streaming;
    received_count = u64 (health.received_count + 1);
    receive_rate_hz = of_nat window;
    last_rdt_sequence = some r.rdt_sequence;
    last_ft_sequence = some r.ft_sequence;
    last_status = r.status;
  }

  -- with the configuration at hand, under the data lock
  accept_configured :
      SensorConfiguration Double
      → Impl Double
      → RawRecord
      → SequenceObservation
      → FtSequenceKind
      → ℕ
      → Accepted Double
  accept_configured configuration impl r rdt ft received_at =
      let times = prune_rate_window (impl.receive_times ++ (received_at ∷ [])) received_at in
      let soon = too_soon impl.config impl.last_delivery_at received_at in
      let j =
        judge impl.config soon rdt ft (classify_status r.status)
          (note_record impl.health r (length times)) in
      accepted
        (record impl { health = j.health; receive_times = times; last_record_at = received_at })
        configuration j.deliver j.outcome

  accept_with :
      Option (SensorConfiguration Double)
      → Impl Double
      → RawRecord
      → SequenceObservation
      → FtSequenceKind
      → ℕ
      → Accepted Double
  accept_with none impl r rdt ft received_at = unconfigured impl
  accept_with (some configuration) impl r rdt ft received_at =
      accept_configured configuration impl r rdt ft received_at

  unfoldable pub accept_record : Impl Double → RawRecord → ℕ → Accepted Double
  unfolding accept_with accept_configured
  accept_record impl r received_at =
      let (rdt, rdt_tracker) = Rdt.observe impl.rdt_sequence r.rdt_sequence in
      let (ft, ft_tracker) = Ft.observe impl.ft_sequence r.ft_sequence in
      accept_with impl.health.sensor_configuration
        (record impl { rdt_sequence = rdt_tracker; ft_sequence = ft_tracker }) r rdt ft received_at
