-- ===== src/Client/Lifecycle/Rollback.antt =====
-- A start that fails leaves no trace.
use netft_cpp.Base.{ℕ, ◌≡◌, refl, sym, ap, ◌∙◌, false, Option, none}
use netft_cpp.Client.Lifecycle.{
  restore_fault, restore, reset_run, not_started, create_worker, start_with, start_section,
  start_round, called_from_worker_thread,
}
use netft_cpp.Client.State.{Impl}
use netft_cpp.FaultLatch.{reset, publish}
use netft_cpp.Floats.{Floats}
use netft_cpp.Types.{ClientState, HealthSnapshot}
use netft_cpp.Types.Faults.{FaultCode}

-- If a fault is latched, the client reports it.
abbrev pub Shows : {D : Type 0} → FaultCode → HealthSnapshot D → Type 0
Shows FaultCode.none health = Unit {0}
Shows code health = (health.state ≡ ClientState.faulted) × (health.fault_code ≡ code)

module _ (F : Floats) where
  open F use {Double}

  rewritten :
      (code : FaultCode) (impl : Impl Double)
      → impl.fault_latch.code ≡ code
      → impl.health.state ≡ ClientState.faulted
      → impl.health.fault_code ≡ code
      → record impl {
        fault_latch = record { code = code };
        health = record (impl.health) { state = ClientState.faulted; fault_code = code };
      }
        ≡ impl
  rewritten code impl e s c = λ i. record impl {
    fault_latch = record { code = sym e i };
    health = record (impl.health) { state = sym s i; fault_code = sym c i };
  }

  restore_fault_self :
      (code : FaultCode) (impl : Impl Double)
      → impl.fault_latch.code ≡ code
      → Shows code impl.health
      → restore_fault code impl (record impl { fault_latch = record { code = FaultCode.none } })
        ≡ impl
  unfolding restore_fault publish
  restore_fault_self FaultCode.none impl e h =
      λ i. record impl { fault_latch = record { code = sym e i } }
  restore_fault_self FaultCode.sensor_configuration impl e h =
      rewritten FaultCode.sensor_configuration impl e h.0 h.1
  restore_fault_self FaultCode.timeout impl e h = rewritten FaultCode.timeout impl e h.0 h.1
  restore_fault_self FaultCode.socket impl e h = rewritten FaultCode.socket impl e h.0 h.1
  restore_fault_self FaultCode.serious_status impl e h =
      rewritten FaultCode.serious_status impl e h.0 h.1
  restore_fault_self FaultCode.ft_stall impl e h = rewritten FaultCode.ft_stall impl e h.0 h.1
  restore_fault_self FaultCode.ft_backward impl e h = rewritten FaultCode.ft_backward impl e h.0 h.1
  restore_fault_self FaultCode.malformed_storm impl e h =
      rewritten FaultCode.malformed_storm impl e h.0 h.1
  restore_fault_self FaultCode.callback impl e h = rewritten FaultCode.callback impl e h.0 h.1

  create_worker-fails :
      (callback : Option ℕ) (impl : Impl Double)
      → Shows impl.fault_latch.code impl.health
      → create_worker F callback none impl ≡ not_started impl
  unfolding create_worker reset_run restore reset
  create_worker-fails callback impl h =
      ap (λ (x : Impl Double). not_started x) (restore_fault_self impl.fault_latch.code impl refl h)

  -- A start that cannot create its thread throws and leaves every member as it was, whatever they
  -- were, if nobody joins, the client has no worker, and it reports the fault that it has latched, if
  -- there is one.
  pub start_round_rollback :
      (self : ℕ) (callback : Option ℕ) (impl : Impl Double)
      → called_from_worker_thread self impl ≡ false
      → impl.joining ≡ false
      → impl.worker ≡ none
      → Shows impl.fault_latch.code impl.health
      → start_round F self callback none impl ≡ not_started impl
  unfolding start_round start_section start_with
  start_round_rollback self callback impl other alone no_worker h =
      simp (other, alone)
        (ap (λ (o : Option ℕ). start_with F o callback none impl) no_worker
          ∙ create_worker-fails callback impl h)
