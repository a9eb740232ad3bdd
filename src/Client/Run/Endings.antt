-- ===== src/Client/Run/Endings.antt =====
-- How the worker ends, and what it leaves behind.
use netft_cpp.Base.{
  ◌≡◌, ◌≢◌, ◌⊎◌, inl, inr, refl, ap, true, false, List, [], ◌∷◌, Option, arith, if◌then◌else◌,
  Bool-cases,
}
use netft_cpp.Base.Text.{Bytes, equal}
use netft_cpp.Client.Delivery.{Callback}
use netft_cpp.Client.Outcome.{SessionResult, fault_for, message_for}
use netft_cpp.Client.Run.{
  Turn, RunStep, waits, in_session, leaves, is_stopped, is_fail_stop, set_fault, close_session,
  finish_session, conclude, run_on, run_loop, run, run_turn,
}
use netft_cpp.Client.Session.{SessionOutcome}
use netft_cpp.Client.State.{Impl}
use netft_cpp.FaultLatch.{publish, faulted, is_fault}
use netft_cpp.Floats.{Floats, LongFloats}
use netft_cpp.Types.{ClientState, RecoveryPolicy}
use netft_cpp.Types.Faults.{FaultCode}

-- The worker is gone: its exit is visible, no session is open, and the client reports that it is
-- stopped unless a fault is latched.
pub record IsFinished {D : Type 0} (impl : Impl D) : Type 0 where
  pub exited : impl.worker_exited ≡ true
  pub closed : impl.session_started ≡ false
  pub reported : (faulted impl.fault_latch ≡ true) ⊎ (impl.health.state ≡ ClientState.stopped)

-- The end of a session that a user reads off a fault code, by its name.
abbrev pub end_of : FaultCode → SessionResult
end_of FaultCode.none = SessionResult.stopped
end_of FaultCode.sensor_configuration = SessionResult.sensor_configuration
end_of FaultCode.timeout = SessionResult.timeout
end_of FaultCode.socket = SessionResult.socket
end_of FaultCode.serious_status = SessionResult.serious_status
end_of FaultCode.ft_stall = SessionResult.ft_stall
end_of FaultCode.ft_backward = SessionResult.ft_backward
end_of FaultCode.malformed_storm = SessionResult.malformed_storm
end_of FaultCode.callback = SessionResult.callback

-- The latched and the reported code are those that are named like the end of the session.
pub record IsFaulted {D : Type 0} (result : SessionResult) (impl : Impl D) : Type 0 where
  pub latched : end_of impl.fault_latch.code ≡ result
  pub code : end_of impl.health.fault_code ≡ result
  pub state : impl.health.state ≡ ClientState.faulted
  pub still_exited : impl.worker_exited ≡ true

end_of-fault_for : (r : SessionResult) → end_of (fault_for r) ≡ r
end_of-fault_for r = ground arith

-- A stopped session leaves the client as it is; any other one leaves it faulted.
abbrev pub LeftBy : {D : Type 0} → SessionResult → Impl D → Impl D → Type 0
LeftBy result impl next =
    ((result ≡ SessionResult.stopped) × (next ≡ impl))
    ⊎ ((result ≢ SessionResult.stopped) × IsFaulted result (finish_session next))

finish_session-IsFinished : {D : Type 0} (impl : Impl D) → IsFinished (finish_session impl)
unfolding finish_session close_session
finish_session-IsFinished impl = elim (Bool-cases (faulted impl.fault_latch)) [
  | inl yes_ ↦ rw yes_ (record { exited = refl; closed = refl; reported = inl yes_ })
  | inr no_ ↦ rw no_ (record { exited = refl; closed = refl; reported = inr refl })
]

module _ (F : Floats) (L : LongFloats F.Double) (callback : Option (Callback F.Double)) where
  open F use {Double, lt, mul, of_int}

  abbrev pub Finishes : RunStep Double → Type 0
  Finishes (waits impl delay) = Unit {0}
  Finishes (in_session impl) = Unit {0}
  Finishes (leaves impl) = IsFinished impl

  run_on-Finishes :
      (again : Impl Double → Double → RunStep Double) (step : RunStep Double)
      → ((impl : Impl Double) (delay : Double) → Finishes (again impl delay))
      → Finishes (run_on F L callback again step)
  unfolding run_on
  run_on-Finishes again (waits impl delay) h = h impl delay
  run_on-Finishes again (in_session impl) h = tt
  run_on-Finishes again (leaves impl) h = finish_session-IsFinished impl

  run_loop-Finishes :
      (turns : List (Turn Double)) (impl : Impl Double) (delay : Double)
      → Finishes (run_loop F L callback turns impl delay)
  unfolding run_loop
  run_loop-Finishes [] impl delay = tt
  run_loop-Finishes (turn ∷ turns) impl delay =
      run_on-Finishes (run_loop F L callback turns) (run_turn F L callback turn impl delay)
        (run_loop-Finishes turns)

  -- Whenever the worker leaves its loop, on a stop, a fault or an exception, after any number of
  -- sessions, its exit is visible, no session is open, and the client reports that it is stopped
  -- unless a fault is latched.
  pub run-Finishes :
      (turns : List (Turn Double)) (impl : Impl Double) → Finishes (run F L callback turns impl)
  unfolding run
  run-Finishes turns impl = run_loop-Finishes turns impl impl.config.reconnect_initial_delay

  pub not_stopped : (r : SessionResult) → r ≢ SessionResult.stopped → is_stopped r ≡ false
  unfolding is_stopped
  not_stopped r h = ground arith

  pub is_stopped_cases :
      (r : SessionResult) → (r ≡ SessionResult.stopped) ⊎ (r ≢ SessionResult.stopped)
  is_stopped_cases SessionResult.stopped = inl refl
  is_stopped_cases SessionResult.sensor_configuration = inr (λ e. cc)
  is_stopped_cases SessionResult.timeout = inr (λ e. cc)
  is_stopped_cases SessionResult.socket = inr (λ e. cc)
  is_stopped_cases SessionResult.serious_status = inr (λ e. cc)
  is_stopped_cases SessionResult.ft_stall = inr (λ e. cc)
  is_stopped_cases SessionResult.ft_backward = inr (λ e. cc)
  is_stopped_cases SessionResult.malformed_storm = inr (λ e. cc)
  is_stopped_cases SessionResult.callback = inr (λ e. cc)

  is_fail_stop_of :
      (policy : RecoveryPolicy) → policy ≡ RecoveryPolicy.fail_stop → is_fail_stop policy ≡ true
  unfolding is_fail_stop
  is_fail_stop_of policy h = ground arith

  pub is_reconnect_of :
      (policy : RecoveryPolicy) → policy ≡ RecoveryPolicy.reconnect → is_fail_stop policy ≡ false
  unfolding is_fail_stop
  is_reconnect_of policy h = ground arith

  is_fault-fault_for :
      (r : SessionResult) → r ≢ SessionResult.stopped → is_fault (fault_for r) ≡ true
  is_fault-fault_for r h = ground arith

  -- The client once a fault is latched on a latch that was empty.
  latched_with : FaultCode → Bytes → Impl Double → Impl Double
  latched_with code message impl = record impl {
    fault_latch = record { code = code };
    health = record (impl.health) {
      state = ClientState.faulted;
      fault_code = code;
      last_error = message;
    };
  }

  set_fault-latched_with :
      (code : FaultCode) (message : Bytes) (impl : Impl Double)
      → impl.fault_latch.code ≡ FaultCode.none
      → set_fault code message impl ≡ latched_with code message impl
  unfolding set_fault publish latched_with
  set_fault-latched_with code message impl l = rw l refl

  latched_with-IsFaulted :
      (r : SessionResult) (message : Bytes) (impl : Impl Double)
      → r ≢ SessionResult.stopped
      → IsFaulted r (finish_session (latched_with (fault_for r) message impl))
  unfolding finish_session close_session latched_with faulted
  latched_with-IsFaulted r message impl h = rw (is_fault-fault_for r h) (record {
    latched = end_of-fault_for r;
    code = end_of-fault_for r;
    state = refl;
    still_exited = refl;
  })

  -- the message of an end of a session
  unfoldable pub told : SessionOutcome → Bytes
  told o = if equal o.message [] then message_for o.result else o.message

  -- Under fail-stop the worker leaves after every session. If the session was stopped, the client is
  -- left as it is; after any other end it is left with the fault named like that end latched and
  -- reported, if no fault was latched before.
  pub conclude_fail_stop :
      (turn : Turn Double) (o : SessionOutcome) (impl : Impl Double) (backoff : Double)
      → impl.config.recovery_policy ≡ RecoveryPolicy.fail_stop
      → impl.fault_latch.code ≡ FaultCode.none
      → (next : Impl Double) × (conclude F L callback turn o impl backoff ≡ leaves next)
        × LeftBy o.result impl next
  unfolding conclude told is_stopped
  conclude_fail_stop turn o impl backoff p l = elim (is_stopped_cases o.result) [
    | inl y ↦ (impl, rw y refl, inl (y, refl))
    | inr r ↦ (
      latched_with (fault_for o.result) (told o) impl,
      rw (not_stopped o.result r, is_fail_stop_of impl.config.recovery_policy p)
          (ap (λ (next : Impl Double). leaves next)
            (set_fault-latched_with (fault_for o.result) (told o) impl l)),
      inr (r, latched_with-IsFaulted o.result (told o) impl r),
    )
  ]
