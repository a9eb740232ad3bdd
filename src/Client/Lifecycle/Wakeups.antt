-- ===== src/Client/Lifecycle/Wakeups.antt =====
-- Which threads sleep in `start` and `stop` in a reachable state, and what they still wait for.
use netft_cpp.Base.{
  ℕ, ◌≡◌, ◌≢◌, inl, inr, refl, sym, subst, ◌∙◌, Bool, true, false, Option, none, some, arith,
  Bool-cases,
}
use netft_cpp.Client.Lifecycle.{
  StopStep, stop_returns, stop_waits, stop_joins, StartStep, already_running, waits_for_join,
  waits_for_exit, start_joins, started, not_started, called_from_worker_thread, stop_section,
  stop_joined, start_joined, start_section, start_round, request_stop, take_worker, start_with,
  create_worker,
}
use netft_cpp.Client.Lifecycle.Threads.{
  Place, stop_blocked, start_blocked, start_waiting, start_top, outside, stop_top, stop_joining,
  start_joining, System, is_blocked, at, notify_all, after_stop, after_start, Step, Reach, here,
  next, IsInitial, calls_stop, calls_start, stops, stop_sleeps_on, stop_wakes, stop_joins_ended,
  starts, start_sleeps_on, start_wakes, start_tests, start_sleeps, start_goes_on, start_joins_ended,
  wakes, works, finishes, ends,
}
use netft_cpp.Client.State.{Impl}
use netft_cpp.FaultLatch.{faulted}
use netft_cpp.Floats.{Floats}

abbrev pub is_waiting : Place → Bool
is_waiting (start_waiting callback) = true
is_waiting _ = false

-- The lock is held by a thread that waits for the worker's exit. A thread sleeps for the end of a join only while one is going on, and for the worker's exit, once
-- the worker has exited, only if it had exited by the time the thread fell asleep.
pub record Watched {D : Type 0} (s : System D) : Type 0 where
  pub holds : (i : ℕ) → s.lock ≡ some i → is_waiting (s.place i) ≡ true
  pub blocked : (i : ℕ) → s.sleeps i ≡ true → is_blocked (s.place i) ≡ true → s.impl.joining ≡ true
  pub waiting :
      (i : ℕ)
      → s.sleeps i ≡ true
      → is_waiting (s.place i) ≡ true
      → s.impl.worker_exited ≡ true
      → s.late i ≡ true

-- What others sleep for stays.
abbrev Quiet : {D : Type 0} → Impl D → Impl D → Type 0
Quiet impl after =
    (impl.joining ≡ true → after.joining ≡ true)
    × (after.worker_exited ≡ true → impl.worker_exited ≡ true)

blocked_not_waiting : (p : Place) → is_blocked p ≡ true → is_waiting p ≡ false
blocked_not_waiting p h = ground arith

module _ {D : Type 0} where
  at-Watched :
      (s : System D) (i : ℕ) (impl : Impl D) (p : Place)
      → Watched s
      → Quiet s.impl impl
      → (is_blocked p ≡ true → impl.joining ≡ true)
      → s.lock ≢ some i
      → Watched (at s i impl p)
  at-Watched s i impl p w (j, x) b l = record {
    holds = λ k e. ground (arith, w.holds k e, l);
    blocked = λ k a h. ground (arith, w.blocked k);
    waiting = λ k a h e. ground (arith, w.waiting k, blocked_not_waiting p);
  }

  notified_at :
      (s : System D) (i : ℕ) (impl : Impl D) (p : Place)
      → (is_blocked p ≡ true → impl.joining ≡ true)
      → s.lock ≡ none
      → Watched (at (notify_all s) i impl p)
  notified_at s i impl p b l = record {
    holds = λ k e. cc;
    blocked = λ k a h. ground arith;
    waiting = λ k a h e. ground (arith, blocked_not_waiting p);
  }

  -- `stop` waits only while a join is going on
  abbrev StopTells : StopStep D → Type 0
  StopTells (stop_returns impl) = Unit {0}
  StopTells (stop_waits impl) = impl.joining ≡ true
  StopTells (stop_joins w impl) = Unit {0}

  take_worker-StopTells : (worker : Option ℕ) (impl : Impl D) → StopTells (take_worker worker impl)
  unfolding take_worker
  take_worker-StopTells none impl = tt
  take_worker-StopTells (some w) impl = tt

  stop_section-StopTells : (i : ℕ) (impl : Impl D) → StopTells (stop_section i impl)
  unfolding stop_section
  stop_section-StopTells i impl =
      let asked = request_stop impl in
      elim (Bool-cases (called_from_worker_thread i asked)) [
        | inl y ↦ rw y tt
        | inr n ↦ elim (Bool-cases asked.joining) [
          | inl j ↦
              subst StopTells {x = stop_waits asked} {y = stop_section i impl}
                (sym (rw (n, j) refl)) j
          | inr o ↦
              subst StopTells {x = take_worker asked.worker asked} {y = stop_section i impl}
                (sym (rw (n, o) refl)) (take_worker-StopTells asked.worker asked)
        ]
      ]

  after_stop-Watched :
      (s : System D) (i : ℕ) (step : StopStep D)
      → StopTells step
      → s.lock ≡ none
      → Watched (after_stop (notify_all s) i step)
  unfolding after_stop
  after_stop-Watched s i (stop_returns impl) h l = notified_at s i impl outside (λ e. cc) l
  after_stop-Watched s i (stop_waits impl) h l = notified_at s i impl stop_blocked (λ e. h) l
  after_stop-Watched s i (stop_joins w impl) h l = notified_at s i impl (stop_joining w) (λ e. cc) l

  -- `start` waits only while a join is going on, and, where it notifies nobody, changes nothing that
  -- others sleep for
  abbrev StartTells : Impl D → StartStep D → Type 0
  StartTells before (already_running impl) = Quiet before impl
  StartTells before (waits_for_join impl) = (impl.joining ≡ true) × Quiet before impl
  StartTells before (waits_for_exit impl) = Quiet before impl
  StartTells before (start_joins w impl) = Quiet before impl
  StartTells before (started w impl) = Unit {0}
  StartTells before (not_started impl) = Unit {0}

  after_start-Watched :
      (s : System D) (i : ℕ) (callback : Option ℕ) (step : StartStep D)
      → Watched s
      → StartTells s.impl step
      → s.lock ≡ none
      → Watched (after_start s i callback step)
  unfolding after_start
  after_start-Watched s i callback (already_running impl) w h l =
      at-Watched s i impl outside w h (λ e. cc) (λ m. cc)
  after_start-Watched s i callback (waits_for_join impl) w (j, h) l =
      at-Watched s i impl (start_blocked callback) w h (λ e. j) (λ m. cc)
  after_start-Watched s i callback (waits_for_exit impl) w h l =
      at-Watched s i impl (start_waiting callback) w h (λ e. cc) (λ m. cc)
  after_start-Watched s i callback (start_joins v impl) w h l =
      at-Watched s i impl (start_joining callback v) w h (λ e. cc) (λ m. cc)
  after_start-Watched s i callback (started v impl) w h l =
      let n = notified_at s i impl outside (λ e. cc) l in
      record { holds = n.holds; blocked = n.blocked; waiting = n.waiting }
  after_start-Watched s i callback (not_started impl) w h l =
      notified_at s i impl outside (λ e. cc) l

module _ (F : Floats) where
  open F use {Double}

  start_with-StartTells :
      (worker callback created : Option ℕ) (impl : Impl Double)
      → StartTells impl (start_with F worker callback created impl)
  unfolding start_with create_worker
  start_with-StartTells none callback none impl = tt
  start_with-StartTells none callback (some w) impl = tt
  start_with-StartTells (some v) callback created impl = elim (Bool-cases impl.worker_exited) [
    | inl y ↦
        subst (StartTells impl) {x = start_joins v (record impl { joining = true; worker = none })}
          {y = start_with F (some v) callback created impl} (sym (rw y refl)) (λ j. refl, λ x. y)
    | inr n ↦ elim (Bool-cases (faulted impl.fault_latch)) [
      | inl y ↦
          subst (StartTells impl) {x = waits_for_exit impl}
            {y = start_with F (some v) callback created impl} (sym (rw (n, y) refl))
            (λ j. j, λ x. x)
      | inr o ↦
          subst (StartTells impl) {x = already_running impl}
            {y = start_with F (some v) callback created impl} (sym (rw (n, o) refl))
            (λ j. j, λ x. x)
    ]
  ]

  start_section-StartTells :
      (callback created : Option ℕ) (impl : Impl Double)
      → StartTells impl (start_section F callback created impl)
  unfolding start_section
  start_section-StartTells callback created impl =
      start_with-StartTells impl.worker callback created impl

  start_round-StartTells :
      (i : ℕ) (callback created : Option ℕ) (impl : Impl Double)
      → StartTells impl (start_round F i callback created impl)
  unfolding start_round
  start_round-StartTells i callback created impl =
      elim (Bool-cases (called_from_worker_thread i impl)) [
        | inl y ↦
            subst (StartTells impl) {x = already_running impl}
              {y = start_round F i callback created impl} (sym (rw y refl)) (λ j. j, λ x. x)
        | inr n ↦ elim (Bool-cases impl.joining) [
          | inl j ↦
              subst (StartTells impl) {x = waits_for_join impl}
                {y = start_round F i callback created impl} (sym (rw (n, j) refl))
                (j, (λ k. k, λ x. x))
          | inr o ↦
              subst (StartTells impl) {x = start_section F callback created impl}
                {y = start_round F i callback created impl} (sym (rw (n, o) refl))
                (start_section-StartTells callback created impl)
        ]
      ]

  Step-Watched : {s t : System Double} → Step F s t → Watched s → Watched t
  Step-Watched {s} (calls_stop i may o) w =
      at-Watched s i s.impl stop_top w (λ j. j, λ x. x) (λ e. cc) (λ l. ground (arith, w.holds i l))
  Step-Watched {s} (calls_start i callback may o) w =
      at-Watched s i s.impl (start_top callback) w (λ j. j, λ x. x) (λ e. cc)
        (λ l. ground (arith, w.holds i l))
  Step-Watched {s} (stops i e free) w =
      after_stop-Watched s i (stop_section i s.impl) (stop_section-StopTells i s.impl) free
  Step-Watched {s} (stop_sleeps_on i e a free j) w =
      at-Watched s i s.impl stop_blocked w (λ j. j, λ x. x) (λ e. j) (λ l. cc)
  Step-Watched {s} (stop_wakes i e a free j) w =
      at-Watched s i s.impl stop_top w (λ j. j, λ x. x) (λ e. cc) (λ l. cc)
  Step-Watched {s} (stop_joins_ended i v e gone free) w =
      notified_at s i (stop_joined s.impl) outside (λ e. cc) free
  Step-Watched {s} (starts i callback created e unlocked free) w =
      after_start-Watched s i callback (start_round F i callback created s.impl) w
        (start_round-StartTells i callback created s.impl) unlocked
  Step-Watched {s} (start_sleeps_on i callback e a free j) w =
      at-Watched s i s.impl (start_blocked callback) w (λ j. j, λ x. x) (λ e. j) (λ l. cc)
  Step-Watched {s} (start_wakes i callback created e a unlocked j free) w =
      after_start-Watched s i callback (start_section F callback created s.impl) w
        (start_section-StartTells callback created s.impl) unlocked
  Step-Watched {s} (start_tests i callback e a free x f) w = record {
    holds = λ k l. ground arith;
    blocked = w.blocked;
    waiting = w.waiting;
  }
  Step-Watched {s} (start_sleeps i l) w = record {
    holds = λ k e. cc;
    blocked = λ k a h. ground (arith, w.holds i l, w.blocked k, blocked_not_waiting (s.place i));
    waiting = λ k a h e. ground (arith, w.waiting k);
  }
  Step-Watched {s} (start_goes_on i callback e a free h) w =
      at-Watched s i s.impl (start_top callback) w (λ j. j, λ x. x) (λ e. cc) (λ l. cc)
  Step-Watched {s} (start_joins_ended i v callback e gone free) w =
      notified_at s i (start_joined s.impl) (start_top callback) (λ e. cc) free
  Step-Watched {s} (wakes i) w = record {
    holds = w.holds;
    blocked = λ k a h. ground (arith, w.blocked k);
    waiting = λ k a h e. ground (arith, w.waiting k);
  }
  Step-Watched {s} (works n same) w = record {
    holds = w.holds;
    blocked = λ k a h. same.same_joining ∙ w.blocked k a h;
    waiting = λ k a h e. w.waiting k a h (sym same.same_exited ∙ e);
  }
  Step-Watched {s} (finishes v r o) w = record {
    holds = w.holds;
    blocked = λ k a h. cc;
    waiting = λ k a h e. cc;
  }
  Step-Watched {s} (ends v r) w = record {
    holds = w.holds;
    blocked = w.blocked;
    waiting = w.waiting;
  }

  pub Reach-Watched : {s t : System Double} → IsInitial F s → Reach F s t → Watched t
  Reach-Watched h here = record {
    holds = λ k e. absurd (ground (arith, h.unlocked));
    blocked = λ k a b. ground (arith, h.awake k);
    waiting = λ k a b e. ground (arith, h.awake k);
  }
  Reach-Watched h (next r st) = Step-Watched st (Reach-Watched h r)
