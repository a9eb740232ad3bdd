-- ===== src/Client/Lifecycle/Invariant/Sections.antt =====
-- Every section of `start` and `stop` keeps the invariant.
use netft_cpp.Base.{
  ℕ, ◌≡◌, refl, sym, ap, subst, Bool, true, false, not, Option, none, some, arith, if◌then◌else◌,
  Bool-cases, inl, inr, ◌⊎◌,
}
use netft_cpp.Client.Lifecycle.{
  called_from_worker_thread, is_self, request_stop, show_stopped, take_worker, stop_section,
  stop_joined, start_joined, restore, restore_fault, reset_run, create_worker, start_with,
  start_section, start_round, already_running, waits_for_join, waits_for_exit, start_joins,
  stop_returns, stop_waits,
}
use netft_cpp.Client.Lifecycle.Threads.{
  Role, caller, ended, outside, stop_top, stop_blocked, start_top, start_blocked, start_waiting,
  stop_joining, start_joining, System, at, after_stop, after_start, update, may_call, Creatable,
}
use netft_cpp.Client.Lifecycle.Invariant.Moves.{
  Life, joins, is_alive, is_caller, Inv, Inv-moves, Inv-takes, Inv-joined, Inv-started,
}
use netft_cpp.Client.Run.{finish_session}
use netft_cpp.Client.State.{Impl}
use netft_cpp.FaultLatch.{faulted, publish}
use netft_cpp.Floats.{Floats}
use netft_cpp.Types.Faults.{FaultCode}

abbrev pub life : {D : Type 0} → Impl D → Life
life impl = record {
  worker = impl.worker;
  active = impl.active_worker_id;
  joining = impl.joining;
  exited = impl.worker_exited;
}

abbrev pub IsOwned : {D : Type 0} → System D → Type 0
IsOwned s = Inv (life s.impl) s.role s.place

calling : (r : Role) → may_call r ≡ true → (r ≡ caller) ⊎ (r ≡ Role.running)
calling r h = ground arith

module _ {D : Type 0} where
  show_stopped-life : (impl : Impl D) → life (show_stopped impl) ≡ life impl
  unfolding show_stopped
  show_stopped-life impl = elim (Bool-cases (faulted impl.fault_latch)) [
    | inl y ↦ rw y refl
    | inr n ↦ rw n refl
  ]

  pub finish_session-life :
      (impl : Impl D) → life (finish_session impl) ≡ record (life impl) { exited = true }
  unfolding finish_session
  finish_session-life impl = elim (Bool-cases (faulted impl.fault_latch)) [
    | inl y ↦ rw y refl
    | inr n ↦ rw n refl
  ]

  restore_fault-life :
      (code : FaultCode) (previous impl : Impl D)
      → life (restore_fault code previous impl) ≡ life impl
  unfolding restore_fault publish
  restore_fault-life FaultCode.none previous impl = refl
  restore_fault-life code previous impl = refl

  -- A thread at the top of a round that is not the worker in its loop is a caller.
  top_caller :
      (s : System D) (i : ℕ)
      → IsOwned s
      → may_call (s.role i) ≡ true
      → called_from_worker_thread i s.impl ≡ false
      → s.role i ≡ caller
  unfolding called_from_worker_thread is_self
  top_caller s i inv may other = elim (calling (s.role i) may) [
    | inl h ↦ h
    | inr h ↦
        let active = (inv.owned i (ap is_alive h)).0 in
        let going = inv.at_work i h in let never : true ≡ false = ground arith in cc
  ]

  from_top : (s : System D) (i : ℕ) → IsOwned s → s.place i ≡ stop_top → may_call (s.role i) ≡ true
  from_top s i inv e = ground (arith, inv.places i)

  stop_branch :
      (s : System D) (i : ℕ) (self joining : Bool) (worker : Option ℕ)
      → IsOwned s
      → s.place i ≡ stop_top
      → called_from_worker_thread i s.impl ≡ self
      → s.impl.joining ≡ joining
      → s.impl.worker ≡ worker
      → IsOwned (
          after_stop s i (
            if self
            then stop_returns (request_stop s.impl)
            else if joining
            then stop_waits (request_stop s.impl)
            else take_worker worker (request_stop s.impl)))
  unfolding after_stop request_stop take_worker
  stop_branch s i true joining worker inv e c j o = Inv-moves inv i outside (ap joins e) refl refl
  stop_branch s i false true worker inv e c j o =
      Inv-moves inv i stop_blocked (ap joins e) refl
        (ap is_caller (top_caller s i inv (from_top s i inv e) c))
  stop_branch s i false false none inv e c j o =
      subst (λ (l : Life). Inv l s.role (update s.place i outside))
        (sym (show_stopped-life (request_stop s.impl)))
        (Inv-moves inv i outside (ap joins e) refl refl)
  stop_branch s i false false (some w) inv e c j o =
      Inv-takes inv i w (stop_joining w) o j (top_caller s i inv (from_top s i inv e) c) refl

  pub stop_section-IsOwned :
      (s : System D) (i : ℕ)
      → IsOwned s
      → s.place i ≡ stop_top
      → IsOwned (after_stop s i (stop_section i s.impl))
  unfolding stop_section called_from_worker_thread request_stop
  stop_section-IsOwned s i inv e = stop_branch s i _ _ _ inv e refl refl refl

  pub stop_joined-IsOwned :
      (s : System D) (i w : ℕ)
      → IsOwned s
      → s.place i ≡ stop_joining w
      → s.role w ≡ ended
      → IsOwned (at s i (stop_joined s.impl) outside)
  unfolding stop_joined
  stop_joined-IsOwned s i w inv e gone =
      subst
        (λ (l : Life).
          Inv (record l { active = none; joining = false }) s.role (update s.place i outside))
        (sym (show_stopped-life s.impl)) (Inv-joined inv i w outside (ap joins e) gone refl refl)

module _ (F : Floats) where
  open F use {Double}

  create_worker-IsOwned :
      (s : System Double) (i : ℕ) (callback created : Option ℕ)
      → IsOwned s
      → joins (s.place i) ≡ none
      → Creatable s created
      → s.impl.joining ≡ false
      → s.impl.worker ≡ none
      → IsOwned (after_start s i callback (create_worker F callback created s.impl))
  unfolding after_start create_worker reset_run restore
  create_worker-IsOwned s i callback none inv n free j o =
      subst (λ (l : Life). Inv l s.role (update s.place i outside))
        (sym (restore_fault-life s.impl.fault_latch.code s.impl _))
        (Inv-moves inv i outside n refl refl)
  create_worker-IsOwned s i callback (some w) inv n free j o =
      subst
        (λ (b : Bool).
          Inv (record { worker = some w; active = some w; joining = b; exited = false })
            (update s.role w Role.running) (update s.place i outside))
        (sym j) (Inv-started inv i w o j free n)

  start_taken :
      (s : System Double) (i w : ℕ) (callback : Option ℕ) (exited fault : Bool)
      → IsOwned s
      → s.role i ≡ caller
      → joins (s.place i) ≡ none
      → s.impl.joining ≡ false
      → s.impl.worker ≡ some w
      → IsOwned (
          after_start s i callback (
            if not exited
            then (if not fault then already_running s.impl else waits_for_exit s.impl)
            else start_joins w (record (s.impl) { joining = true; worker = none })))
  unfolding after_start
  start_taken s i w callback true fault inv c n j o =
      Inv-takes inv i w (start_joining callback w) o j c refl
  start_taken s i w callback false true inv c n j o =
      Inv-moves inv i (start_waiting callback) n refl (ap is_caller c)
  start_taken s i w callback false false inv c n j o = Inv-moves inv i outside n refl refl

  start_branch :
      (s : System Double) (i : ℕ) (callback created worker : Option ℕ)
      → IsOwned s
      → s.role i ≡ caller
      → joins (s.place i) ≡ none
      → Creatable s created
      → s.impl.joining ≡ false
      → s.impl.worker ≡ worker
      → IsOwned (after_start s i callback (start_with F worker callback created s.impl))
  unfolding start_with
  start_branch s i callback created none inv c n free j o =
      create_worker-IsOwned s i callback created inv n free j o
  start_branch s i callback created (some w) inv c n free j o =
      start_taken s i w callback s.impl.worker_exited (faulted s.impl.fault_latch) inv c n j o

  pub start_section-IsOwned :
      (s : System Double) (i : ℕ) (callback created : Option ℕ)
      → IsOwned s
      → s.role i ≡ caller
      → joins (s.place i) ≡ none
      → Creatable s created
      → s.impl.joining ≡ false
      → IsOwned (after_start s i callback (start_section F callback created s.impl))
  unfolding start_section
  start_section-IsOwned s i callback created inv c n free j =
      start_branch s i callback created s.impl.worker inv c n free j refl

  round_branch :
      (s : System Double) (i : ℕ) (callback created : Option ℕ) (self joining : Bool)
      → IsOwned s
      → s.place i ≡ start_top callback
      → Creatable s created
      → called_from_worker_thread i s.impl ≡ self
      → s.impl.joining ≡ joining
      → IsOwned (
          after_start s i callback (
            if self
            then already_running s.impl
            else if joining
            then waits_for_join s.impl
            else start_section F callback created s.impl))
  unfolding after_start
  round_branch s i callback created true joining inv e free c j =
      Inv-moves inv i outside (ap joins e) refl refl
  round_branch s i callback created false joining inv e free c j =
      let may : may_call (s.role i) ≡ true = ground (arith, inv.places i) in
      let is_one = top_caller s i inv may c in go joining j is_one
    where
      go :
          (b : Bool)
          → s.impl.joining ≡ b
          → s.role i ≡ caller
          → IsOwned (
              after_start s i callback
                (if b then waits_for_join s.impl else start_section F callback created s.impl))
      go true k is_one =
          Inv-moves inv i (start_blocked callback) (ap joins e) refl (ap is_caller is_one)
      go false k is_one = start_section-IsOwned s i callback created inv is_one (ap joins e) free k

  pub start_round-IsOwned :
      (s : System Double) (i : ℕ) (callback created : Option ℕ)
      → IsOwned s
      → s.place i ≡ start_top callback
      → Creatable s created
      → IsOwned (after_start s i callback (start_round F i callback created s.impl))
  unfolding start_round
  start_round-IsOwned s i callback created inv e free =
      round_branch s i callback created (called_from_worker_thread i s.impl) s.impl.joining inv e
        free refl refl

  pub start_joined-IsOwned :
      (s : System Double) (i w : ℕ) (callback : Option ℕ)
      → IsOwned s
      → s.place i ≡ start_joining callback w
      → s.role w ≡ ended
      → IsOwned (at s i (start_joined s.impl) (start_top callback))
  unfolding start_joined
  start_joined-IsOwned s i w callback inv e gone =
      let one : is_caller (s.role i) ≡ true = ground (arith, inv.places i) in
      Inv-joined inv i w (start_top callback) (ap joins e) gone refl (ground arith)
