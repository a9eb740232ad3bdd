-- ===== src/Examples/Threads.antt =====
-- Threads that start, stop and destroy a client.
use netft_cpp.Base.{
  ℕ, ◌≡◌, refl, Bool-cases, inl, inr, ◌⊎◌, true, false, none, some, ◌==◌, if◌then◌else◌, [], ◌∷◌,
  List,
}
use netft_cpp.Client.Facade.{deferred, destroy, destroy_by}
use netft_cpp.Client.Facade.Destroyer.{Event, pushes, notifies, runs, wakes, happen, new_destroyer}
use netft_cpp.Client.Facade.Destroyer.Draining.{remaining, happen_in_order}
use netft_cpp.Client.Facade.Destroyer.Keeping.{Keeps, lives}
use netft_cpp.Client.Lifecycle.{
  start_round, start_section, reset_run, not_started, stop_section, stop_joined,
  called_from_worker_thread,
}
use netft_cpp.Client.Lifecycle.Invariant.Moves.{is_alive}
use netft_cpp.Client.Lifecycle.Rollback.{start_round_rollback}
use netft_cpp.Client.Lifecycle.Safety.{
  Able, MissedExit, behind_join, ReportsStop, one_worker, no_deadlock, stop_leaves_no_worker,
}
use netft_cpp.Client.Lifecycle.Threads.{
  Role, caller, fresh, ended, outside, stop_top, start_top, System, update, at, after_stop,
  after_start, Step, Reach, IsInitial, notify_all,
}
use netft_cpp.Client.Run.{finish_session, set_fault}
use netft_cpp.Client.State.{Impl}
use netft_cpp.Examples.Fixtures
use netft_cpp.Examples.Numbers.{Number, numbers}
use netft_cpp.FaultLatch.{publish, faulted, reset}
use netft_cpp.Types.Faults.{FaultCode}

abbrev idle : Impl Number
idle = record (Fixtures.impl) {
  worker = none;
  active_worker_id = none;
  worker_exited = true;
  session_started = false;
}

-- thread 0 may call the client
abbrev roles : ℕ → Role
roles i = if i == 0 then caller else fresh

abbrev new_system : System Number
new_system = record {
  impl = idle;
  role = roles;
  place = λ i. outside;
  lock = none;
  sleeps = λ i. false;
  late = λ i. false;
}

roles_new : (i : ℕ) → (roles i ≡ caller) ⊎ (roles i ≡ fresh)
roles_new i = elim (Bool-cases (i == 0)) [ inl y ↦ rw y (inl refl) | inr n ↦ rw n (inr refl) ]

new_system-IsInitial : IsInitial numbers new_system
new_system-IsInitial = record {
  no_worker = refl;
  no_active = refl;
  not_joining = refl;
  exited = refl;
  unlocked = refl;
  awake = λ i. refl;
  all_outside = λ i. refl;
  no_workers = roles_new;
}

-- it starts the client with thread 5 as the worker
abbrev started_system : System Number
started_system =
    after_start (at new_system 0 idle (start_top (some 1))) 0 (some 1)
      (start_round numbers 0 (some 1) (some 5) idle)

started_reached : Reach numbers new_system started_system
started_reached =
    Reach.next (Reach.next Reach.here (Step.calls_start 0 (some 1) refl refl))
      (Step.starts 0 (some 1) (some 5) refl refl refl)

-- and stops it, so it joins the worker
abbrev joining_system : System Number
joining_system =
    after_stop (notify_all (at started_system 0 started_system.impl stop_top)) 0
      (stop_section 0 started_system.impl)

joining_reached : Reach numbers new_system joining_system
unfolding after_start start_round start_section called_from_worker_thread
joining_reached =
    Reach.next (Reach.next started_reached (Step.calls_stop 0 refl refl)) (Step.stops 0 refl refl)

-- the worker finishes and ends
abbrev ended_system : System Number
ended_system = record (notify_all joining_system) {
  impl = finish_session joining_system.impl;
  role = update (update joining_system.role 5 Role.exiting) 5 ended;
}

ended_reached : Reach numbers new_system ended_system
unfolding after_start start_round start_section called_from_worker_thread after_stop stop_section
    reset_run
ended_reached =
    Reach.next (Reach.next joining_reached (Step.finishes 5 refl refl)) (Step.ends 5 refl)

one_worker_example : ◌≡◌ {A = ℕ} 5 5
unfolding after_start start_round start_section called_from_worker_thread
one_worker_example = one_worker numbers new_system-IsInitial started_reached 5 5 refl refl

no_deadlock_example : ((j : ℕ) × Able joining_system j) ⊎ MissedExit joining_system 0
unfolding after_start start_round start_section called_from_worker_thread after_stop stop_section
    reset_run
no_deadlock_example = no_deadlock numbers new_system-IsInitial joining_reached 0 refl

-- A caller starts the client again after a fault, and falls asleep behind the worker's exit.
abbrev faulted_impl : Impl Number
faulted_impl = set_fault FaultCode.timeout [] started_system.impl

abbrev waiting_system : System Number
waiting_system =
    after_start
      (at (record started_system { impl = faulted_impl }) 0 faulted_impl (start_top (some 2))) 0
      (some 2) (start_round numbers 0 (some 2) none faulted_impl)

abbrev exit_system : System Number
exit_system = record (notify_all (record waiting_system { lock = some 0 })) {
  impl = finish_session waiting_system.impl;
  role = update waiting_system.role 5 Role.exiting;
}

abbrev missed_system : System Number
missed_system = record exit_system {
  lock = none;
  sleeps = update exit_system.sleeps 0 true;
  late = update exit_system.late 0 exit_system.impl.worker_exited;
}

missed_reached : Reach numbers new_system missed_system
unfolding after_start start_round start_section called_from_worker_thread set_fault publish
    reset_run faulted reset
missed_reached =
    Reach.next
      (Reach.next
        (Reach.next
          (Reach.next
            (Reach.next
              (Reach.next started_reached (
                Step.works faulted_impl (record {
                  same_worker = refl;
                  same_active = refl;
                  same_joining = refl;
                  same_exited = refl;
                })))
              (Step.calls_start 0 (some 2) refl refl))
            (Step.starts 0 (some 2) none refl refl tt))
          (Step.start_tests 0 (some 2) refl refl refl refl refl))
        (Step.finishes 5 refl refl))
      (Step.start_sleeps 0 refl)

missed_exit : MissedExit missed_system 0
unfolding after_start start_round start_section called_from_worker_thread set_fault publish
    finish_session reset_run faulted reset
missed_exit = record { waits_for_exit = refl; asleep = refl; has_exited = refl; was_late = refl }

stop_leaves_no_worker_example :
    ((w : ℕ) → is_alive (ended_system.role w) ≡ false) × ReportsStop (stop_joined ended_system.impl)
unfolding after_start start_round start_section called_from_worker_thread after_stop stop_section
    reset_run
stop_leaves_no_worker_example =
    stop_leaves_no_worker numbers new_system-IsInitial ended_reached 0
      (stop_joined ended_system.impl) (behind_join 5 refl refl refl)

start_round_rollback_example : start_round numbers 0 (some 1) none idle ≡ not_started idle
unfolding called_from_worker_thread
start_round_rollback_example = start_round_rollback numbers 0 (some 1) idle refl refl refl tt

-- the worker destroys the client in its callback
destroy_by_example :
    destroy 5 started_system.impl
    ≡ deferred (record (started_system.impl) { stopping = true; session_started = false })
unfolding after_start start_round start_section called_from_worker_thread
destroy_by_example = destroy_by numbers new_system-IsInitial started_reached 5 refl

-- The thread falls asleep before the first client comes, and has taken it by the time the second and
-- the third are pending.
abbrev events : List (Event ℕ)
events =
    runs ∷ pushes 1 ∷ runs ∷ notifies ∷ runs ∷ pushes 2 ∷ runs ∷ wakes ∷ pushes 3 ∷ notifies ∷ []

happen_in_order_example :
    let last = happen events new_destroyer in
    Keeps last (1 ∷ 2 ∷ 3 ∷ []) × ((happen (remaining last) last).log ≡ lives (1 ∷ 2 ∷ 3 ∷ []))
happen_in_order_example = happen_in_order events
