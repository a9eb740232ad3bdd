-- ===== src/Client/Lifecycle/Threads.antt =====
-- The threads that run `start`, `stop` and `run`, one section at a time, with the waits on
-- `lifecycle_cv_`: a thread that sleeps there goes on only once it is notified, or for no reason. A
-- notification is part of the step of the section before it, and a wait for the end of a join tests
-- its condition and falls asleep in one step, since `joining_` changes only under the mutex. The wait
-- for the worker's exit tests and falls asleep in two, as `finish_session` does not take the mutex.
-- A worker calls `start` and `stop` from its callback; other threads may call them at any time. Which
-- thread goes next, whether a thread can be created, and what a worker does to the rest of the client
-- is open.
use netft_cpp.Base.{ℕ, ◌≡◌, ◌⊎◌, Bool, true, false, Option, none, some, if◌then◌else◌, ◌==◌}
use netft_cpp.Client.Lifecycle.{
  StopStep, stop_returns, stop_waits, stop_joins, StartStep, already_running, waits_for_join,
  waits_for_exit, start_joins, started, not_started, stop_section, stop_joined, start_joined,
  start_section, start_round,
}
use netft_cpp.Client.Run.{finish_session}
use netft_cpp.Client.State.{Impl}
use netft_cpp.FaultLatch.{faulted}
use netft_cpp.Floats.{Floats}

-- A thread that is no worker, one that does not exist yet, and a worker in its loop, behind
-- `finish_session`, and at its end.
pub data Role : Type 0 where
  caller fresh running exiting ended : Role

-- Where a thread stands in `start` or `stop`, if it is in one of them.
pub data Place : Type 0 where
  outside stop_top stop_blocked : Place
  start_top start_blocked start_waiting : Option ℕ → Place
  stop_joining : ℕ → Place
  start_joining : Option ℕ → ℕ → Place

pub record System (D : Type 0) : Type 0 where
  pub impl : Impl D
  pub role : ℕ → Role
  pub place : ℕ → Place
  -- the thread that holds the lifecycle mutex in `start`, between the test and the sleep of a wait
  pub lock : Option ℕ
  -- asleep in a wait, and whether the worker had exited when the thread fell asleep for its exit
  pub sleeps : ℕ → Bool
  pub late : ℕ → Bool

-- a wait that tests and falls asleep at once
abbrev pub is_blocked : Place → Bool
is_blocked stop_blocked = true
is_blocked (start_blocked callback) = true
is_blocked _ = false

abbrev pub update {ℓ} : {A : Type ℓ} → (ℕ → A) → ℕ → A → ℕ → A
update f i a j = if i == j then a else f j

-- A thread that may call the client.
abbrev pub may_call : Role → Bool
may_call caller = true
may_call running = true
may_call _ = false

-- A number that no thread has, or no longer.
abbrev pub is_free : Role → Bool
is_free fresh = true
is_free ended = true
is_free _ = false

module _ {D : Type 0} where
  abbrev pub at : System D → ℕ → Impl D → Place → System D
  at s i impl p = record s {
    impl = impl;
    place = update s.place i p;
    sleeps = update s.sleeps i (is_blocked p);
  }

  -- `lifecycle_cv_.notify_all()`
  abbrev pub notify_all : System D → System D
  notify_all s = record s { sleeps = λ i. false }

  -- what thread `i` does behind a section of `stop`
  unfoldable pub after_stop : System D → ℕ → StopStep D → System D
  after_stop s i (stop_returns impl) = at s i impl outside
  after_stop s i (stop_waits impl) = at s i impl stop_blocked
  after_stop s i (stop_joins w impl) = at s i impl (stop_joining w)

  -- what thread `i` does behind a section of `start`
  unfoldable pub after_start : System D → ℕ → Option ℕ → StartStep D → System D
  after_start s i callback (already_running impl) = at s i impl outside
  after_start s i callback (waits_for_join impl) = at s i impl (start_blocked callback)
  after_start s i callback (waits_for_exit impl) = at s i impl (start_waiting callback)
  after_start s i callback (start_joins w impl) = at s i impl (start_joining callback w)
  after_start s i callback (started w impl) = record (at (notify_all s) i impl outside) {
    role = update s.role w running;
  }
  after_start s i callback (not_started impl) = at (notify_all s) i impl outside

  -- A thread that can be created: its number is free.
  abbrev pub Creatable : System D → Option ℕ → Type 0
  Creatable s none = Unit {0}
  Creatable s (some w) = is_free (s.role w) ≡ true

  -- What no worker touches before `finish_session`, and no caller but `start` and `stop`.
  pub record SameLife (impl next : Impl D) : Type 0 where
    pub same_worker : next.worker ≡ impl.worker
    pub same_active : next.active_worker_id ≡ impl.active_worker_id
    pub same_joining : next.joining ≡ impl.joining
    pub same_exited : next.worker_exited ≡ impl.worker_exited

module _ (F : Floats) where
  open F use {Double}

  pub data Step (s : System Double) : System Double → Type 0 where
    -- a call begins
    calls_stop :
        (i : ℕ) → may_call (s.role i) ≡ true → s.place i ≡ outside → Step s (at s i s.impl stop_top)
    calls_start :
        (i : ℕ) (callback : Option ℕ)
        → may_call (s.role i) ≡ true
        → s.place i ≡ outside
        → Step s (at s i s.impl (start_top callback))
    -- `stop`
    stops :
        (i : ℕ)
        → s.place i ≡ stop_top
        → s.lock ≡ none
        → Step s (after_stop (notify_all s) i (stop_section i s.impl))
    stop_sleeps_on :
        (i : ℕ)
        → s.place i ≡ stop_blocked
        → s.sleeps i ≡ false
        → s.lock ≡ none
        → s.impl.joining ≡ true
        → Step s (at s i s.impl stop_blocked)
    stop_wakes :
        (i : ℕ)
        → s.place i ≡ stop_blocked
        → s.sleeps i ≡ false
        → s.lock ≡ none
        → s.impl.joining ≡ false
        → Step s (at s i s.impl stop_top)
    stop_joins_ended :
        (i w : ℕ)
        → s.place i ≡ stop_joining w
        → s.role w ≡ ended
        → s.lock ≡ none
        → Step s (at (notify_all s) i (stop_joined s.impl) outside)
    -- `start`
    starts :
        (i : ℕ) (callback created : Option ℕ)
        → s.place i ≡ start_top callback
        → s.lock ≡ none
        → Creatable s created
        → Step s (after_start s i callback (start_round F i callback created s.impl))
    start_sleeps_on :
        (i : ℕ) (callback : Option ℕ)
        → s.place i ≡ start_blocked callback
        → s.sleeps i ≡ false
        → s.lock ≡ none
        → s.impl.joining ≡ true
        → Step s (at s i s.impl (start_blocked callback))
    start_wakes :
        (i : ℕ) (callback created : Option ℕ)
        → s.place i ≡ start_blocked callback
        → s.sleeps i ≡ false
        → s.lock ≡ none
        → s.impl.joining ≡ false
        → Creatable s created
        → Step s (after_start s i callback (start_section F callback created s.impl))
    start_tests :
        (i : ℕ) (callback : Option ℕ)
        → s.place i ≡ start_waiting callback
        → s.sleeps i ≡ false
        → s.lock ≡ none
        → s.impl.worker_exited ≡ false
        → faulted s.impl.fault_latch ≡ true
        → Step s (record s { lock = some i })
    start_sleeps :
        (i : ℕ)
        → s.lock ≡ some i
        → Step s (record s {
          lock = none;
          sleeps = update s.sleeps i true;
          late = update s.late i s.impl.worker_exited;
        })
    start_goes_on :
        (i : ℕ) (callback : Option ℕ)
        → s.place i ≡ start_waiting callback
        → s.sleeps i ≡ false
        → s.lock ≡ none
        → ((s.impl.worker_exited ≡ true) ⊎ (faulted s.impl.fault_latch ≡ false))
        → Step s (at s i s.impl (start_top callback))
    start_joins_ended :
        (i w : ℕ) (callback : Option ℕ)
        → s.place i ≡ start_joining callback w
        → s.role w ≡ ended
        → s.lock ≡ none
        → Step s (at (notify_all s) i (start_joined s.impl) (start_top callback))
    -- a spurious wake-up, or one by the notification that comes with a delivery or a fault
    wakes : (i : ℕ) → Step s (record s { sleeps = update s.sleeps i false })
    -- `run` in a worker, and all that other threads do to the rest of the client
    works : (next : Impl Double) → SameLife s.impl next → Step s (record s { impl = next })
    finishes :
        (w : ℕ)
        → s.role w ≡ running
        → s.place w ≡ outside
        → Step s
            (record (notify_all s) { impl = finish_session s.impl; role = update s.role w exiting })
    ends : (w : ℕ) → s.role w ≡ exiting → Step s (record s { role = update s.role w ended })

  pub data Reach (s : System Double) : System Double → Type 0 where
    here : Reach s s
    next : {t u : System Double} → Reach s t → Step t u → Reach s u

  -- A client that was just made: no worker, and every thread outside.
  pub record IsInitial (s : System Double) : Type 0 where
    pub no_worker : s.impl.worker ≡ none
    pub no_active : s.impl.active_worker_id ≡ none
    pub not_joining : s.impl.joining ≡ false
    pub exited : s.impl.worker_exited ≡ true
    pub unlocked : s.lock ≡ none
    pub awake : (i : ℕ) → s.sleeps i ≡ false
    pub all_outside : (i : ℕ) → s.place i ≡ outside
    pub no_workers : (i : ℕ) → (s.role i ≡ caller) ⊎ (s.role i ≡ fresh)
