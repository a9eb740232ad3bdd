-- ===== src/Client/Delivery/Handling.antt =====
-- The three ways in which `handle_record` ends on a configured client.
use netft_cpp.Base.{ℕ, ◌≡◌, inl, inr, ap, ◌∙◌, true, false, Option, some, Bool-cases}
use netft_cpp.Floats.{Floats}
use netft_cpp.Protocol.{RawRecord}
use netft_cpp.Types.{SensorConfiguration}
use netft_cpp.Client.Delivery.{
  Callback, Handled, handled, make_sample, is_sound, deliver_sample, finish_record, handle_record,
}
use netft_cpp.Client.Outcome.{SessionResult}
use netft_cpp.Client.Record.Accepting.{wanted, ends, Accepts, accept_record_configured}
use netft_cpp.Client.State.{Impl}

module _ (F : Floats) where
  open F use {Double}

  -- The record is not wanted, its sample is not sound, or the callback decides.
  pub data Ends (callback : Option (Callback Double)) (impl next : Impl Double) (r : RawRecord)
      (received_at : ℕ) (c : SensorConfiguration Double) (result : Handled Double) : Type 0 where
    ignored :
        wanted F impl r received_at ≡ false
        → result ≡ handled next (ends F impl r)
        → Ends callback impl next r received_at c result
    unsound :
        wanted F impl r received_at ≡ true
        → is_sound F (make_sample F c r received_at) ≡ false
        → result ≡ handled next (some SessionResult.sensor_configuration)
        → Ends callback impl next r received_at c result
    called :
        wanted F impl r received_at ≡ true
        → is_sound F (make_sample F c r received_at) ≡ true
        → result ≡ deliver_sample F callback (make_sample F c r received_at) next (ends F impl r)
        → Ends callback impl next r received_at c result

  pub handle_record-Ends :
      (callback : Option (Callback Double)) (impl : Impl Double) (r : RawRecord) (received_at : ℕ)
      (c : SensorConfiguration Double)
      → impl.health.sensor_configuration ≡ some c
      → (next : Impl Double) × Accepts F impl r received_at next
        × Ends callback impl next r received_at c (handle_record F callback impl r received_at)
  unfolding handle_record
  handle_record-Ends callback impl r received_at c e =
      let (next, same, kept) = accept_record_configured F impl r received_at c e in
      let result = ap (finish_record F callback r received_at) same in
      (
        next,
        kept,
        elim (Bool-cases (wanted F impl r received_at)) [
          | inl yes_ ↦ elim (Bool-cases (is_sound F (make_sample F c r received_at))) [
            | inl sound ↦ called yes_ sound (result ∙ rw (yes_, sound))
            | inr broken ↦ unsound yes_ broken (result ∙ rw (yes_, broken))
          ]
          | inr ignore ↦ ignored ignore (result ∙ rw ignore)
        ],
      )
