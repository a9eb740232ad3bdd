-- ===== src/Client/Record/Decision.antt =====
-- The decisions on a record against a table that does not follow the order of the code.
use netft_cpp.Base.{◌≡◌, Bool, true, false, not, ◌&&◌, ◌||◌, Option, none, some, arith}
use netft_cpp.Floats.{Floats}
use netft_cpp.Sequence.Ft.{FtSequenceKind}
use netft_cpp.Sequence.Rdt.{SequenceKind, SequenceObservation}
use netft_cpp.Status.{StatusSeverity}
use netft_cpp.Types.{Config, RecoveryPolicy, HealthSnapshot}
use netft_cpp.Client.Outcome.{SessionResult}
use netft_cpp.Client.Record.{judge}

-- The RDT number is one that was not seen before.
abbrev pub is_new : SequenceKind → Bool
is_new SequenceKind.duplicate = false
is_new SequenceKind.out_of_order = false
is_new _ = true

-- The FT number moved on, or started.
abbrev pub has_progress : FtSequenceKind → Bool
has_progress FtSequenceKind.stall = false
has_progress FtSequenceKind.backward = false
has_progress _ = true

abbrev pub is_error : StatusSeverity → Bool
is_error StatusSeverity.error = true
is_error _ = false

-- Why the session ends at a record, by policy, severity and progress.
abbrev pub ending : RecoveryPolicy → StatusSeverity → FtSequenceKind → Option SessionResult
ending policy StatusSeverity.error ft = some SessionResult.serious_status
ending RecoveryPolicy.fail_stop severity FtSequenceKind.stall = some SessionResult.ft_stall
ending RecoveryPolicy.fail_stop severity FtSequenceKind.backward = some SessionResult.ft_backward
ending _ _ _ = none

module _ (F : Floats) where
  open F use {Double}

  -- A record is delivered exactly if its RDT number is new, its FT number has progress, its status
  -- is no error or such samples are wanted, and it does not follow the last delivery too soon. The
  -- session ends at an error status under both policies, and at a stall or a backward step only
  -- under fail-stop; the error status takes precedence.
  pub judge_decides :
      (config : Config Double) (soon : Bool) (rdt : SequenceObservation) (ft : FtSequenceKind)
      (severity : StatusSeverity) (health : HealthSnapshot Double)
      → let j = judge F config soon rdt ft severity health in
        (j.deliver ≡ (
          is_new rdt.kind
          && has_progress ft
          && (not (is_error severity) || config.deliver_samples_with_error_status)
          && not soon))
        × (j.outcome ≡ ending config.recovery_policy severity ft)
  unfolding judge
  judge_decides config soon rdt ft severity health = ground arith
