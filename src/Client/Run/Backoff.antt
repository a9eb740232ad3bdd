-- ===== src/Client/Run/Backoff.antt =====
-- What follows a session under the policy to reconnect.
use netft_cpp.Base.{
  ℕ, ◌+◌, ◌≡◌, ◌≢◌, ◌⊎◌, inl, inr, refl, sym, subst, true, false, Option, Result, ok, err, u64,
  arith, if◌then◌else◌, Bool-cases,
}
use netft_cpp.Base.Int.{pos}
use netft_cpp.Base.Text.{Bytes}
use netft_cpp.Client.Delivery.{Callback}
use netft_cpp.Client.Outcome.{SessionResult}
use netft_cpp.Client.Run.{
  Turn, RunStep, waits, leaves, is_stopped, set_fault, conclude, next_delay, wait_for, on_exception,
}
use netft_cpp.Client.Session.{SessionOutcome}
use netft_cpp.Client.State.{Impl}
use netft_cpp.FaultLatch.{publish, faulted}
use netft_cpp.Floats.{Floats, LongFloats}
use netft_cpp.Time.{TimeError, checked_deadline}
use netft_cpp.Types.{ClientState, RecoveryPolicy}
use netft_cpp.Types.Faults.{FaultCode}
use netft_cpp.Client.Run.Endings.{not_stopped, is_stopped_cases, is_reconnect_of, told}

module _ (F : Floats) (L : LongFloats F.Double) (callback : Option (Callback F.Double)) where
  open F use {Double, lt, mul, of_int}

  -- `next` is twice the delay, or the limit where that is less.
  pub data IsBackoff (delay limit next : Double) : Type 0 where
    doubled :
        lt limit (mul delay (of_int (pos 2))) ≡ false
        → next ≡ mul delay (of_int (pos 2))
        → IsBackoff delay limit next
    limited :
        lt limit (mul delay (of_int (pos 2))) ≡ true → next ≡ limit → IsBackoff delay limit next

  next_delay-IsBackoff :
      (delay limit : Double) → IsBackoff delay limit (next_delay F L callback delay limit)
  unfolding next_delay
  next_delay-IsBackoff delay limit = elim (Bool-cases (lt limit (mul delay (of_int (pos 2))))) [
    | inl y ↦ rw y (limited y refl)
    | inr n ↦ rw n (doubled n refl)
  ]

  -- The client that waits for its next session: nothing is latched, and the wait is counted.
  pub record BacksOff (impl next : Impl Double) : Type 0 where
    pub same_latch : next.fault_latch ≡ impl.fault_latch
    pub same_session : next.session_started ≡ impl.session_started
    pub same_exited : next.worker_exited ≡ impl.worker_exited
    pub state : next.health.state ≡ ClientState.backoff
    pub counted : next.health.reconnect_count ≡ u64 (impl.health.reconnect_count + 1)

  -- What follows a session under the policy to reconnect: the worker leaves on a stop, waits with the
  -- next delay, or, where its clock cannot hold the end of the wait, leaves as by an exception.
  pub data Follows (turn : Turn Double) (result : SessionResult) (impl : Impl Double)
      (delay : Double) (step : RunStep Double) : Type 0 where
    left :
        (result ≡ SessionResult.stopped) ⊎ (turn.stopping_behind ≡ true)
        → step ≡ leaves impl
        → Follows turn result impl delay step
    backed_off :
        (next : Impl Double) (next_one : Double)
        → result ≢ SessionResult.stopped
        → turn.stopping_behind ≡ false
        → step ≡ waits next next_one
        → BacksOff impl next
        → IsBackoff delay impl.config.reconnect_max_delay next_one
        → Follows turn result impl delay step
    too_late :
        (next : Impl Double) (e : TimeError)
        → checked_deadline L turn.waits_at delay ≡ err e
        → step ≡ leaves next
        → (turn.stopping_in_handler ≡ true) ⊎ (faulted next.fault_latch ≡ true)
        → Follows turn result impl delay step

  backing_off : SessionOutcome → Impl Double → Impl Double
  backing_off o impl = record impl {
    health = record (impl.health) {
      last_error = told F L callback o;
      state = ClientState.backoff;
      reconnect_count = u64 (impl.health.reconnect_count + 1);
    };
  }

  backing_off-BacksOff :
      (o : SessionOutcome) (impl : Impl Double) → BacksOff impl (backing_off o impl)
  unfolding backing_off
  backing_off-BacksOff o impl = record {
    same_latch = refl;
    same_session = refl;
    same_exited = refl;
    state = refl;
    counted = refl;
  }

  set_fault-faulted :
      (message : Bytes) (impl : Impl Double)
      → faulted (set_fault FaultCode.socket message impl).fault_latch ≡ true
  unfolding set_fault publish faulted
  set_fault-faulted message impl = ground arith

  wait_for-Follows :
      (until : Result TimeError ℕ) (turn : Turn Double) (o : SessionOutcome) (impl : Impl Double)
      (delay : Double)
      → checked_deadline L turn.waits_at delay ≡ until
      → o.result ≢ SessionResult.stopped
      → turn.stopping_behind ≡ false
      → Follows turn o.result impl delay
          (wait_for F L callback until turn delay (backing_off o impl))
  unfolding wait_for on_exception backing_off
  wait_for-Follows (err e) turn o impl delay d r s = elim (Bool-cases turn.stopping_in_handler) [
    | inl y ↦ too_late (backing_off o impl) e d (rw y refl) (inl y)
    | inr n ↦
        too_late (set_fault FaultCode.socket turn.thrown (backing_off o impl)) e d (rw n refl)
          (inr (set_fault-faulted turn.thrown (backing_off o impl)))
  ]
  wait_for-Follows (ok deadline) turn o impl delay d r s =
      backed_off (backing_off o impl)
        (next_delay F L callback delay impl.config.reconnect_max_delay) r s refl
        (backing_off-BacksOff o impl) (next_delay-IsBackoff delay impl.config.reconnect_max_delay)

  -- Under the policy to reconnect, whatever the end of a session is: the worker leaves, with the
  -- client as it is, if the session or the client was stopped; else no fault is latched, the client
  -- backs off and counts a reconnection, and its next delay is twice the present one, or the longest
  -- where that is less; unless the clock cannot hold the end of the wait, which latches a fault if the
  -- client is not being stopped. The present delay is the initial one after a session with a valid
  -- record.
  pub conclude_reconnect :
      (turn : Turn Double) (o : SessionOutcome) (impl : Impl Double) (backoff : Double)
      → impl.config.recovery_policy ≡ RecoveryPolicy.reconnect
      → Follows turn o.result impl
          (if o.received_valid_record then impl.config.reconnect_initial_delay else backoff)
          (conclude F L callback turn o impl backoff)
  unfolding conclude told backing_off is_stopped
  conclude_reconnect turn o impl backoff p =
      let delay =
        if o.received_valid_record then impl.config.reconnect_initial_delay else backoff in
      elim (is_stopped_cases F L callback o.result) [
        | inl y ↦ left (inl y) (rw y refl)
        | inr r ↦ elim (Bool-cases turn.stopping_behind) [
          | inl b ↦ left (inr b) (
              rw
                (
                  not_stopped F L callback o.result r,
                  is_reconnect_of F L callback impl.config.recovery_policy p,
                  b,
                )
                refl)
          | inr n ↦
              subst (Follows turn o.result impl delay)
                (sym (
                  rw
                    (
                      not_stopped F L callback o.result r,
                      is_reconnect_of F L callback impl.config.recovery_policy p,
                      n,
                    )
                    refl))
                (wait_for-Follows (checked_deadline L turn.waits_at delay) turn o impl delay refl r
                  n)
        ]
      ]
