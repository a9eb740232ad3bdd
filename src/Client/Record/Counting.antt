-- ===== src/Client/Record/Counting.antt =====
-- The counters that one record moves.
use netft_cpp.Base.{ℕ, ◌+◌, ◌≡◌, Bool, true, false, not, ◌&&◌, ◌||◌, if◌then◌else◌, u64, arith}
use netft_cpp.Floats.{Floats}
use netft_cpp.Sequence.Ft.{FtSequenceKind}
use netft_cpp.Sequence.Rdt.{SequenceKind, SequenceObservation}
use netft_cpp.Status.{StatusSeverity}
use netft_cpp.Types.{Config, HealthSnapshot}
use netft_cpp.Client.Record.{judge}
use netft_cpp.Client.Record.Decision.{is_new, has_progress, is_error}

-- One more, if the test holds.
abbrev pub bump : Bool → ℕ → ℕ
bump b n = if b then u64 (n + 1) else n

abbrev pub is_sequence : SequenceKind → SequenceKind → Bool
is_sequence SequenceKind.first SequenceKind.first = true
is_sequence SequenceKind.contiguous SequenceKind.contiguous = true
is_sequence SequenceKind.gap_kind SequenceKind.gap_kind = true
is_sequence SequenceKind.duplicate SequenceKind.duplicate = true
is_sequence SequenceKind.out_of_order SequenceKind.out_of_order = true
is_sequence _ _ = false

abbrev pub is_progress : FtSequenceKind → FtSequenceKind → Bool
is_progress FtSequenceKind.first FtSequenceKind.first = true
is_progress FtSequenceKind.forward FtSequenceKind.forward = true
is_progress FtSequenceKind.stall FtSequenceKind.stall = true
is_progress FtSequenceKind.backward FtSequenceKind.backward = true
is_progress FtSequenceKind.restart FtSequenceKind.restart = true
is_progress _ _ = false

abbrev pub is_warning : StatusSeverity → Bool
is_warning StatusSeverity.warn = true
is_warning _ = false

module _ (F : Floats) where
  open F use {Double}

  -- Each counter goes up by one exactly for its own kind of record, and the lost count by the size
  -- of a gap, all modulo 2 ^ 64. A sample counts as rate-limited only if it would have been
  -- delivered otherwise.
  pub judge_counts :
      (config : Config Double) (soon : Bool) (rdt : SequenceObservation) (ft : FtSequenceKind)
      (severity : StatusSeverity) (health : HealthSnapshot Double)
      → let h = (judge F config soon rdt ft severity health).health in
        (h.lost_count ≡ (
          if is_sequence rdt.kind SequenceKind.gap_kind
          then u64 (health.lost_count + rdt.gap)
          else health.lost_count))
        × (h.duplicate_count
            ≡ bump (is_sequence rdt.kind SequenceKind.duplicate) health.duplicate_count)
        × (h.out_of_order_count
            ≡ bump (is_sequence rdt.kind SequenceKind.out_of_order) health.out_of_order_count)
        × (h.ft_stall_count ≡ bump (is_progress ft FtSequenceKind.stall) health.ft_stall_count)
        × (h.ft_backward_count
            ≡ bump (is_progress ft FtSequenceKind.backward) health.ft_backward_count)
        × (h.ft_restart_count
            ≡ bump (is_progress ft FtSequenceKind.restart) health.ft_restart_count)
        × (h.warning_count ≡ bump (is_warning severity) health.warning_count)
        × (h.device_error_count ≡ bump (is_error severity) health.device_error_count)
        × (h.rate_limited_count
            ≡ bump
                (is_new rdt.kind
                  && has_progress ft
                  && (not (is_error severity) || config.deliver_samples_with_error_status)
                  && soon)
                health.rate_limited_count)
        × (h.received_count ≡ health.received_count)
        × (h.delivered_count ≡ health.delivered_count)
  unfolding judge
  judge_counts config soon rdt ft severity health = ground arith
