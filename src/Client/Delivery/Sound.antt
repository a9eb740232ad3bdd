-- ===== src/Client/Delivery/Sound.antt =====
-- No sample with an axis that is not a finite number is ever handed out, and no stale sample.
use netft_cpp.Base.{
  ℕ, ◌+◌, ◌≡◌, subst, sym, ap, refl, Bool-cases, inl, inr, true, false, Option, none, some, u64,
}
use netft_cpp.Floats.{Floats}
use netft_cpp.Protocol.{RawRecord}
use netft_cpp.Types.{SensorConfiguration, Sample}
use netft_cpp.Client.Delivery.{
  CallbackEnd, returned, threw, threw_unknown, Callback, Handled, handled, threw_logic_error,
  make_sample, is_sound, call, after_callback, deliver_sample, handle_record, note_delivery,
  record_callback_error, finish_record,
}
use netft_cpp.Client.Delivery.Handling.{ignored, unsound, called, handle_record-Ends}
use netft_cpp.Client.Outcome.{SessionResult}
use netft_cpp.Client.Record.{Accepted, unconfigured, accepted, accept_record}
use netft_cpp.Client.Record.Accepting.{wanted, ends}
use netft_cpp.Client.State.{Impl}

module _ (F : Floats) where
  open F use {Double}

  abbrev pub SoundSample : Option (Sample Double) → Type 0
  SoundSample none = Unit {0}
  SoundSample (some s) = is_sound F s ≡ true

  -- Every axis of the latest sample is finite.
  abbrev pub LatestSound : Impl Double → Type 0
  LatestSound impl = SoundSample impl.latest

  -- A callback, with all that happens while it runs, that keeps this if it is given sound samples.
  abbrev pub KeepsSound : Option (Callback Double) → Type 0
  KeepsSound none = Unit {0}
  KeepsSound (some callback) =
      (s : Sample Double) (impl : Impl Double)
      → is_sound F s ≡ true
      → LatestSound impl
      → LatestSound (callback s impl).1

  -- Two callbacks, each of which may be missing, that do the same when they are given a sound sample.
  abbrev pub AgreesOnSound : Option (Callback Double) → Option (Callback Double) → Type 0
  AgreesOnSound none none = Unit {0}
  AgreesOnSound (some f) none =
      (s : Sample Double) (impl : Impl Double)
      → is_sound F s ≡ true
      → f s impl ≡ (CallbackEnd.returned, impl)
  AgreesOnSound none (some g) =
      (s : Sample Double) (impl : Impl Double)
      → is_sound F s ≡ true
      → g s impl ≡ (CallbackEnd.returned, impl)
  AgreesOnSound (some f) (some g) =
      (s : Sample Double) (impl : Impl Double) → is_sound F s ≡ true → f s impl ≡ g s impl

  call-agree :
      (f g : Option (Callback Double)) (s : Sample Double) (impl : Impl Double)
      → AgreesOnSound f g
      → is_sound F s ≡ true
      → call F f s impl ≡ call F g s impl
  unfolding call
  call-agree none none s impl a h = refl
  call-agree (some f) none s impl a h = a s impl h
  call-agree none (some g) s impl a h = sym (a s impl h)
  call-agree (some f) (some g) s impl a h = a s impl h

  deliver_sample-agree :
      (f g : Option (Callback Double)) (s : Sample Double) (impl : Impl Double)
      (outcome : Option SessionResult)
      → AgreesOnSound f g
      → is_sound F s ≡ true
      → deliver_sample F f s impl outcome ≡ deliver_sample F g s impl outcome
  unfolding deliver_sample
  deliver_sample-agree f g s impl outcome a h =
      ap (λ (e : CallbackEnd × Impl Double). after_callback F s s.received_at outcome e.0 e.1)
        (call-agree f g s impl a h)

  finish_record-agree :
      (f g : Option (Callback Double)) (r : RawRecord) (received_at : ℕ)
      (accepted_as : Accepted Double)
      → AgreesOnSound f g
      → finish_record F f r received_at accepted_as ≡ finish_record F g r received_at accepted_as
  unfolding finish_record
  finish_record-agree f g r received_at (unconfigured impl) a = refl
  finish_record-agree f g r received_at (accepted impl c deliver outcome) a =
      elim (Bool-cases deliver) [
        | inr n ↦ rw n refl
        | inl y ↦ elim (Bool-cases (is_sound F (make_sample F c r received_at))) [
          | inr n ↦ rw (y, n) refl
          | inl sound ↦
              rw (y, sound)
                (deliver_sample-agree f g (make_sample F c r received_at) impl outcome a sound)
        ]
      ]

  handle_record-agree :
      (f g : Option (Callback Double)) (impl : Impl Double) (r : RawRecord) (received_at : ℕ)
      → AgreesOnSound f g
      → handle_record F f impl r received_at ≡ handle_record F g impl r received_at
  unfolding handle_record
  handle_record-agree f g impl r received_at a =
      finish_record-agree f g r received_at (accept_record F impl r received_at) a

  abbrev pub state_of : Handled Double → Impl Double
  state_of (threw_logic_error impl) = impl
  state_of (handled impl outcome) = impl

  after_callback-LatestSound :
      (s : Sample Double) (received_at : ℕ) (outcome : Option SessionResult) (end : CallbackEnd)
      (impl : Impl Double)
      → is_sound F s ≡ true
      → LatestSound impl
      → LatestSound (state_of (after_callback F s received_at outcome end impl))
  unfolding after_callback note_delivery record_callback_error
  after_callback-LatestSound s received_at outcome returned impl h l = h
  after_callback-LatestSound s received_at outcome (threw m) impl h l = l
  after_callback-LatestSound s received_at outcome threw_unknown impl h l = l

  deliver_sample-LatestSound :
      (callback : Option (Callback Double)) (s : Sample Double) (impl : Impl Double)
      (outcome : Option SessionResult)
      → KeepsSound callback
      → is_sound F s ≡ true
      → LatestSound impl
      → LatestSound (state_of (deliver_sample F callback s impl outcome))
  unfolding deliver_sample call
  deliver_sample-LatestSound none s impl outcome k h l =
      after_callback-LatestSound s s.received_at outcome returned impl h l
  deliver_sample-LatestSound (some callback) s impl outcome k h l =
      after_callback-LatestSound s s.received_at outcome (callback s impl).0 (callback s impl).1 h
        (k s impl h l)

  handle_record-keeps :
      (callback : Option (Callback Double)) (impl : Impl Double) (r : RawRecord) (received_at : ℕ)
      (c : SensorConfiguration Double)
      → impl.health.sensor_configuration ≡ some c
      → KeepsSound callback
      → LatestSound impl
      → LatestSound (state_of (handle_record F callback impl r received_at))
  handle_record-keeps callback impl r received_at c e k l =
      let (next, kept, result) = handle_record-Ends F callback impl r received_at c e in
      let before : LatestSound next = subst SoundSample (sym kept.same_latest) l in
      elim result [
        | ignored _ same ↦ rw same before
        | unsound _ _ same ↦ rw same before
        | called _ sound same ↦ rw same (
            deliver_sample-LatestSound callback (make_sample F c r received_at) next (ends F impl r)
              k sound before)
      ]

  -- On a configured client `handle_record` calls the callback on samples only that are finite on every
  -- axis: a callback that does the same on those, whatever it does on others, makes no difference. And
  -- it keeps the latest sample finite on every axis, if the callback, given samples that are, does.
  pub handle_record-LatestSound :
      (callback other : Option (Callback Double)) (impl : Impl Double) (r : RawRecord)
      (received_at : ℕ) (c : SensorConfiguration Double)
      → impl.health.sensor_configuration ≡ some c
      → AgreesOnSound callback other
      → KeepsSound callback
      → LatestSound impl
      → (handle_record F callback impl r received_at ≡ handle_record F other impl r received_at)
        × LatestSound (state_of (handle_record F callback impl r received_at))
  handle_record-LatestSound callback other impl r received_at c e a k l = (
    handle_record-agree callback other impl r received_at a,
    handle_record-keeps callback impl r received_at c e k l,
  )

  -- On a configured client a record that is not wanted changes nothing of what was delivered,
  -- whatever the callback would do: the latest sample, the time, the times and the count of
  -- deliveries and the delivered generation stay, the record is counted as received, and the outcome
  -- is that of its table.
  pub handle_record_unwanted :
      (callback : Option (Callback Double)) (impl : Impl Double) (r : RawRecord) (received_at : ℕ)
      (c : SensorConfiguration Double)
      → impl.health.sensor_configuration ≡ some c
      → wanted F impl r received_at ≡ false
      → (next : Impl Double) × (handle_record F callback impl r received_at
          ≡ handled next (ends F impl r))
        × (next.latest ≡ impl.latest)
        × (next.last_delivery_at ≡ impl.last_delivery_at)
        × (next.delivery_times ≡ impl.delivery_times)
        × (next.delivered_generation ≡ impl.delivered_generation)
        × (next.health.delivered_count ≡ impl.health.delivered_count)
        × (next.health.received_count ≡ u64 (impl.health.received_count + 1))
  handle_record_unwanted callback impl r received_at c e w =
      let (next, kept, result) = handle_record-Ends F callback impl r received_at c e in
      (
        next,
        elim result [ ignored _ same ↦ same | unsound w' _ _ ↦ cc | called w' _ _ ↦ cc ],
        kept.same_latest,
        kept.same_last_delivery,
        kept.same_deliveries,
        kept.same_delivered_generation,
        kept.same_delivered_count,
        kept.one_more,
      )
