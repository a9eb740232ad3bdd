-- ===== src/Examples/Records.antt =====
-- Records that a streaming client receives.
use netft_cpp.Base.{◌≡◌, refl, true, false, [], ◌∷◌, none, some, if◌then◌else◌}
use netft_cpp.Base.Text.{codes}
use netft_cpp.Client.Delivery.{
  CallbackEnd, Callback, handle_record, handled, is_sound, make_sample, note_delivery,
}
use netft_cpp.Client.Delivery.Policies.{handle_record_reconnect, FatalEnd}
use netft_cpp.Client.Delivery.Sound.{
  LatestSound, state_of, AgreesOnSound, handle_record-LatestSound, handle_record_unwanted,
}
use netft_cpp.Client.Record.{accept_record, accepted, judge, note_record, too_soon}
use netft_cpp.Client.Record.Accepting.{wanted, ends, Accepts, accept_record_configured}
use netft_cpp.Client.Record.Counting.{judge_counts}
use netft_cpp.Client.Record.Decision.{judge_decides}
use netft_cpp.Client.State.{Impl}
use netft_cpp.Examples.Fixtures.{config, configuration, health, impl, raw_record}
use netft_cpp.Examples.Numbers.{Number, numbers}
use netft_cpp.Sequence.Ft.{FtSequenceKind}
use netft_cpp.Sequence.Rdt.{SequenceKind, seen}
use netft_cpp.Sequence.Ft
use netft_cpp.Sequence.Rdt
use netft_cpp.Status.{StatusSeverity, classify_status}
use netft_cpp.Types.{Sample}

-- A callback that asks the client to stop, and throws.
abbrev stops : Callback Number
stops sample impl' = (CallbackEnd.threw (codes "late"), record impl' { stopping = true })

judge_decides_example :
    (judge numbers config true
      (seen SequenceKind.contiguous 0)
      FtSequenceKind.forward
      StatusSeverity.warn
      health).deliver
    ≡ false
judge_decides_example =
    (judge_decides numbers config true (seen SequenceKind.contiguous 0) FtSequenceKind.forward
      StatusSeverity.warn health).0

judge_counts_example :
    (judge numbers config false
      (seen SequenceKind.gap_kind 12)
      FtSequenceKind.restart
      StatusSeverity.ok
      health).health.lost_count
    ≡ 12
judge_counts_example =
    (judge_counts numbers config false (seen SequenceKind.gap_kind 12) FtSequenceKind.restart
      StatusSeverity.ok health).0

accept_record_configured_example :
    (next : Impl Number) × (accept_record numbers impl (raw_record 9 101 0) 6000
      ≡ accepted next configuration
          (wanted numbers impl (raw_record 9 101 0) 6000)
          (ends numbers impl (raw_record 9 101 0)))
    × Accepts numbers impl (raw_record 9 101 0) 6000 next
accept_record_configured_example =
    accept_record_configured numbers impl (raw_record 9 101 0) 6000 configuration refl

-- A callback that takes each sample, and one that throws on those that are not finite.
abbrev takes : Callback Number
takes sample impl' = (CallbackEnd.returned, impl')

abbrev takes_sound : Callback Number
takes_sound sample impl' =
    if is_sound numbers sample then (CallbackEnd.returned, impl') else stops sample impl'

takes-AgreesOnSound : AgreesOnSound numbers (some takes) (some takes_sound)
takes-AgreesOnSound s impl' h = rw h refl

-- The record is delivered.
latest_is_some :
    (s : Sample Number) × ((state_of numbers
        (handle_record numbers (some takes) impl (raw_record 7 101 0) 6000)).latest
      ≡ some s)
unfolding handle_record accept_record note_record judge too_soon classify_status Rdt.observe
    Ft.observe is_sound make_sample note_delivery
latest_is_some = (_, refl)

handle_record-LatestSound_example :
    (handle_record numbers (some takes) impl (raw_record 7 101 0) 6000
      ≡ handle_record numbers (some takes_sound) impl (raw_record 7 101 0) 6000)
    × LatestSound numbers
        (state_of numbers (handle_record numbers (some takes) impl (raw_record 7 101 0) 6000))
handle_record-LatestSound_example =
    handle_record-LatestSound numbers (some takes) (some takes_sound) impl (raw_record 7 101 0) 6000
      configuration refl takes-AgreesOnSound (λ s impl' h l. l) tt

handle_record_unwanted_example :
    (next : Impl Number) × (handle_record numbers (some stops) impl (raw_record 6 101 0) 6000
      ≡ handled next none)
    × (next.latest ≡ none)
    × (next.last_delivery_at ≡ 4000)
    × (next.delivery_times ≡ 4000 ∷ [])
    × (next.delivered_generation ≡ 1)
    × (next.health.delivered_count ≡ 4)
    × (next.health.received_count ≡ 6)
unfolding classify_status Rdt.observe Ft.observe
handle_record_unwanted_example =
    handle_record_unwanted numbers (some stops) impl (raw_record 6 101 0) 6000 configuration refl
      refl

handle_record_reconnect_example :
    FatalEnd numbers
      (classify_status 2)
      (handle_record numbers (some stops) impl (raw_record 7 101 2) 6000)
handle_record_reconnect_example =
    handle_record_reconnect numbers (some stops) impl (raw_record 7 101 2) 6000 configuration refl
      refl (λ s impl'. refl)
