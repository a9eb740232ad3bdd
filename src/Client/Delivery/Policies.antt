-- ===== src/Client/Delivery/Policies.antt =====
-- Which records end a session, by recovery policy.
use netft_cpp.Base.{ℕ, ◌≡◌, refl, Option, none, some}
use netft_cpp.Floats.{Floats}
use netft_cpp.Protocol.{RawRecord}
use netft_cpp.Sequence.Ft
use netft_cpp.Sequence.Ft.{FtSequenceKind}
use netft_cpp.Status.{StatusSeverity, classify_status}
use netft_cpp.Types.{SensorConfiguration, Sample, RecoveryPolicy}
use netft_cpp.Client.Delivery.{
  CallbackEnd, returned, threw, threw_unknown, Callback, Handled, handled, threw_logic_error,
  make_sample, call, after_callback, callback_failure_outcome, deliver_sample, handle_record,
}
use netft_cpp.Client.Delivery.Handling.{ignored, unsound, called, handle_record-Ends}
use netft_cpp.Client.Outcome.{SessionResult}
use netft_cpp.Client.Record.Accepting.{ends}
use netft_cpp.Client.Record.Decision.{ending}
use netft_cpp.Client.State.{Impl}

-- The reasons for which a record ends a session when the client reconnects.
pub data Fatal (severity : StatusSeverity) : Option SessionResult → Type 0 where
  goes_on : Fatal severity none
  error_status :
      severity ≡ StatusSeverity.error → Fatal severity (some SessionResult.serious_status)
  no_scale : Fatal severity (some SessionResult.sensor_configuration)

module _ (F : Floats) where
  open F use {Double}

  -- A callback, with all that happens while it runs, never changes the configuration.
  abbrev pub KeepsConfig : Option (Callback Double) → Type 0
  KeepsConfig none = Unit {0}
  KeepsConfig (some callback) =
      (s : Sample Double) (impl : Impl Double) → (callback s impl).1.config ≡ impl.config

  abbrev pub FatalEnd : StatusSeverity → Handled Double → Type 0
  FatalEnd severity (threw_logic_error impl) = ⊥
  FatalEnd severity (handled impl outcome) = Fatal severity outcome

  ending-Fatal :
      (severity : StatusSeverity) (ft : FtSequenceKind)
      → Fatal severity (ending RecoveryPolicy.reconnect severity ft)
  ending-Fatal StatusSeverity.error ft = error_status refl
  ending-Fatal StatusSeverity.ok FtSequenceKind.stall = goes_on
  ending-Fatal StatusSeverity.ok _ = goes_on
  ending-Fatal StatusSeverity.warn FtSequenceKind.stall = goes_on
  ending-Fatal StatusSeverity.warn _ = goes_on

  failure-Fatal :
      (severity : StatusSeverity) (outcome : Option SessionResult)
      → Fatal severity outcome
      → Fatal severity (callback_failure_outcome outcome RecoveryPolicy.reconnect)
  unfolding callback_failure_outcome
  failure-Fatal severity none f = f
  failure-Fatal severity (some x) f = f

  after_callback-Fatal :
      (severity : StatusSeverity) (s : Sample Double) (received_at : ℕ)
      (outcome : Option SessionResult) (end : CallbackEnd) (impl : Impl Double)
      → impl.config.recovery_policy ≡ RecoveryPolicy.reconnect
      → Fatal severity outcome
      → FatalEnd severity (after_callback F s received_at outcome end impl)
  unfolding after_callback
  after_callback-Fatal severity s received_at outcome returned impl p f = f
  after_callback-Fatal severity s received_at outcome (threw m) impl p f =
      rw p (failure-Fatal severity outcome f)
  after_callback-Fatal severity s received_at outcome threw_unknown impl p f =
      rw p (failure-Fatal severity outcome f)

  deliver_sample-Fatal :
      (severity : StatusSeverity) (callback : Option (Callback Double)) (s : Sample Double)
      (impl : Impl Double) (outcome : Option SessionResult)
      → KeepsConfig callback
      → impl.config.recovery_policy ≡ RecoveryPolicy.reconnect
      → Fatal severity outcome
      → FatalEnd severity (deliver_sample F callback s impl outcome)
  unfolding deliver_sample call
  deliver_sample-Fatal severity none s impl outcome k p f =
      after_callback-Fatal severity s s.received_at outcome returned impl p f
  deliver_sample-Fatal severity (some callback) s impl outcome k p f =
      after_callback-Fatal severity s s.received_at outcome (callback s impl).0 (callback s impl).1
        (rw (k s impl) p) f

  -- On a configured client under the policy to reconnect, with a callback that leaves the
  -- configuration alone, a record ends the session only as a serious status, and then its status is
  -- an error, or as a bad sensor configuration: not for a stall, a backward step or a callback that
  -- throws. No exception leaves `handle_record`.
  pub handle_record_reconnect :
      (callback : Option (Callback Double)) (impl : Impl Double) (r : RawRecord) (received_at : ℕ)
      (c : SensorConfiguration Double)
      → impl.health.sensor_configuration ≡ some c
      → impl.config.recovery_policy ≡ RecoveryPolicy.reconnect
      → KeepsConfig callback
      → FatalEnd (classify_status r.status) (handle_record F callback impl r received_at)
  handle_record_reconnect callback impl r received_at c e p k =
      let (next, kept, result) = handle_record-Ends F callback impl r received_at c e in
      let severity = classify_status r.status in
      let fatal : Fatal severity (ends F impl r) =
        rw p (ending-Fatal severity (Ft.observe impl.ft_sequence r.ft_sequence).0) in
      elim result [
        | ignored _ same ↦ rw same fatal
        | unsound _ _ same ↦ rw same no_scale
        | called _ sound same ↦ rw same (
            deliver_sample-Fatal severity callback (make_sample F c r received_at) next
              (ends F impl r) k (rw kept.same_config p) fatal)
      ]
