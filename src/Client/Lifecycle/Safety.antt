-- ===== src/Client/Lifecycle/Safety.antt =====
-- What holds of the threads of a client in every reachable state.
use netft_cpp.Base.{
  ℕ, ◌≡◌, ◌≢◌, ◌⊎◌, inl, inr, refl, sym, ap, ◌∙◌, Bool, true, false, Option, none, some, arith,
  Bool-cases, if◌then◌else◌,
}
use netft_cpp.Client.Lifecycle.{
  called_from_worker_thread, stop_section, stop_joined, stop_returns, stop_waits, is_self,
  show_stopped, request_stop, take_worker,
}
use netft_cpp.Client.Lifecycle.Invariant.{Reach-IsOwned}
use netft_cpp.Client.Lifecycle.Invariant.Moves.{is_alive, joins, is_worker}
use netft_cpp.Client.Lifecycle.Invariant.Sections.{IsOwned}
use netft_cpp.Client.Lifecycle.Threads.{
  Role, caller, ended, Place, outside, stop_top, stop_blocked, start_top, start_blocked,
  start_waiting, stop_joining, start_joining, System, Reach, IsInitial, is_blocked,
}
use netft_cpp.Client.Lifecycle.Wakeups.{is_waiting, Watched, Reach-Watched}
use netft_cpp.Client.State.{Impl}
use netft_cpp.FaultLatch.{faulted}
use netft_cpp.Floats.{Floats}
use netft_cpp.Types.{ClientState}

-- A place where a thread waits for another one.
abbrev pub waits : Place → Bool
waits outside = false
waits stop_top = false
waits (start_top callback) = false
waits _ = true

-- Some thread `j` can go on: it holds the lifecycle mutex and falls asleep, or the mutex is free and it
-- is a worker that waits for nobody, a thread whose worker has ended, or one that is awake and whose
-- condition has come true.
pub data Able {D : Type 0} (s : System D) (j : ℕ) : Type 0 where
  falls_asleep : s.lock ≡ some j → is_waiting (s.place j) ≡ true → Able s j
  runs : s.lock ≡ none → is_alive (s.role j) ≡ true → waits (s.place j) ≡ false → Able s j
  joins_ended : (w : ℕ) → s.lock ≡ none → joins (s.place j) ≡ some w → s.role w ≡ ended → Able s j
  stop_goes_on :
      s.place j ≡ stop_blocked
      → s.lock ≡ none
      → s.sleeps j ≡ false
      → s.impl.joining ≡ false
      → Able s j
  start_goes_on :
      (callback : Option ℕ)
      → s.place j ≡ start_blocked callback
      → s.lock ≡ none
      → s.sleeps j ≡ false
      → s.impl.joining ≡ false
      → Able s j
  start_retries :
      (callback : Option ℕ)
      → s.place j ≡ start_waiting callback
      → s.lock ≡ none
      → s.sleeps j ≡ false
      → s.impl.worker_exited ≡ true
      → Able s j

-- Thread `i` sleeps for the exit of the worker, which had exited by the time it fell asleep.
pub record MissedExit {D : Type 0} (s : System D) (i : ℕ) : Type 0 where
  pub waits_for_exit : is_waiting (s.place i) ≡ true
  pub asleep : s.sleeps i ≡ true
  pub has_exited : s.impl.worker_exited ≡ true
  pub was_late : s.late i ≡ true

-- A call of `stop` by a thread that is no worker returns, with the client `next`: at the end of its
-- first section, or behind its join.
pub data StopEnds {D : Type 0} (s : System D) (i : ℕ) (next : Impl D) : Type 0 where
  at_once :
      s.role i ≡ caller
      → s.place i ≡ stop_top
      → stop_section i s.impl ≡ stop_returns next
      → StopEnds s i next
  behind_join :
      (w : ℕ)
      → s.place i ≡ stop_joining w
      → s.role w ≡ ended
      → next ≡ stop_joined s.impl
      → StopEnds s i next

abbrev pub ReportsStop : {D : Type 0} → Impl D → Type 0
ReportsStop impl = (faulted impl.fault_latch ≡ true) ⊎ (impl.health.state ≡ ClientState.stopped)

show_stopped-ReportsStop : {D : Type 0} (impl : Impl D) → ReportsStop (show_stopped impl)
unfolding show_stopped
show_stopped-ReportsStop impl = elim (Bool-cases (faulted impl.fault_latch)) [
  | inl y ↦ rw y (inl y)
  | inr n ↦ rw n (inr refl)
]

stop_joined-ReportsStop : {D : Type 0} (impl : Impl D) → ReportsStop (stop_joined impl)
unfolding stop_joined
stop_joined-ReportsStop impl = show_stopped-ReportsStop impl

Bool-alive : (r : Role) → is_worker r ≡ true → (is_alive r ≡ true) ⊎ (r ≡ ended)
Bool-alive r h = ground arith

module _ {D : Type 0} (t : System D) (inv : IsOwned t) where
  waiting_caller : (i : ℕ) → waits (t.place i) ≡ true → t.role i ≡ caller
  waiting_caller i h = ground (arith, inv.places i)

  alive_awake : (w : ℕ) → is_alive (t.role w) ≡ true → waits (t.place w) ≡ false
  alive_awake w h = ground (arith, inv.places w)

  nobody_alive :
      t.impl.worker ≡ none → t.impl.joining ≡ false → (w : ℕ) → is_alive (t.role w) ≡ false
  nobody_alive o j w = elim (Bool-cases (is_alive (t.role w))) [
    | inr n ↦ n
    | inl y ↦ elim (inv.owned w y).1 [
      | inl h ↦ cc
      | inr (k, h) ↦ let never = (inv.sole k w h).0 in cc
    ]
  ]

  pub caller_other : (i : ℕ) → t.role i ≡ caller → called_from_worker_thread i t.impl ≡ false
  unfolding called_from_worker_thread is_self
  caller_other i c = elim (Bool-cases t.impl.worker_exited) [
    | inl y ↦ rw y refl
    | inr n ↦ let (w, h) = inv.present n in let a = (inv.owned w (ap is_alive h)).0 in ground arith
  ]

  at_once_alone :
      (i : ℕ) (next : Impl D) (joining : Bool) (worker : Option ℕ)
      → t.role i ≡ caller
      → t.impl.joining ≡ joining
      → t.impl.worker ≡ worker
      → (if joining
          then stop_waits (request_stop t.impl)
          else take_worker worker (request_stop t.impl))
        ≡ stop_returns next
      → ((w : ℕ) → is_alive (t.role w) ≡ false) × ReportsStop next
  unfolding take_worker
  at_once_alone i next true worker c j o e = cc
  at_once_alone i next false (some w) c j o e = cc
  at_once_alone i next false none c j o e =
      let same : show_stopped (request_stop t.impl) ≡ next = cc in
      (nobody_alive o j, rw (← same) (show_stopped-ReportsStop (request_stop t.impl)))

  stop_section-other :
      (i : ℕ)
      → called_from_worker_thread i t.impl ≡ false
      → stop_section i t.impl ≡ (
          if t.impl.joining
          then stop_waits (request_stop t.impl)
          else take_worker t.impl.worker (request_stop t.impl))
  unfolding stop_section called_from_worker_thread request_stop
  stop_section-other i h = rw h refl

  joined_alone :
      (v i w : ℕ) → t.place i ≡ stop_joining w → t.role w ≡ ended → is_alive (t.role v) ≡ false
  joined_alone v i w e gone = elim (Bool-cases (is_alive (t.role v))) [
    | inr n ↦ n
    | inl y ↦
        let a = (inv.owned v y).0 in
        let b = (inv.sole i w (ap joins e)).2 in
        let same : ◌≡◌ {A = Option ℕ} (some v) (some w) = cc in
        let never : is_alive (t.role v) ≡ false = ground arith in never
  ]

  StopEnds-alone :
      (i : ℕ) (next : Impl D)
      → StopEnds t i next
      → ((w : ℕ) → is_alive (t.role w) ≡ false) × ReportsStop next
  StopEnds-alone i next (at_once c e same) =
      at_once_alone i next t.impl.joining t.impl.worker c refl refl
        (sym (stop_section-other i (caller_other i c)) ∙ same)
  StopEnds-alone i next (behind_join w e gone same) =
      (λ v. joined_alone v i w e gone, rw same (stop_joined-ReportsStop t.impl))

module _ {D : Type 0} (t : System D) (inv : IsOwned t) (watched : Watched t)
    (unlocked : t.lock ≡ none) where
  joined_Able : (j w : ℕ) → joins (t.place j) ≡ some w → (k : ℕ) × Able t k
  joined_Able j w e = elim (Bool-alive (t.role w) (inv.sole j w e).3) [
    | inl h ↦ (w, runs unlocked h (alive_awake t inv w h))
    | inr gone ↦ (j, joins_ended w unlocked e gone)
  ]

  blocked_Able :
      (i : ℕ)
      → is_blocked (t.place i) ≡ true
      → (t.sleeps i ≡ false → t.impl.joining ≡ false → Able t i)
      → (k : ℕ) × Able t k
  blocked_Able i b able = elim (Bool-cases t.impl.joining) [
    | inl e ↦ let (j, w, h) = inv.joiner e in joined_Able j w h
    | inr e ↦ elim (Bool-cases (t.sleeps i)) [
      | inl a ↦ let never = watched.blocked i a b in cc
      | inr a ↦ (i, able a e)
    ]
  ]

  exited_Able :
      (i : ℕ) (callback : Option ℕ)
      → t.place i ≡ start_waiting callback
      → ((k : ℕ) × Able t k) ⊎ MissedExit t i
  exited_Able i callback e = elim (Bool-cases t.impl.worker_exited) [
    | inr n ↦
        let (w, h) = inv.present n in
        let alive = ap is_alive h in inl (w, runs unlocked alive (alive_awake t inv w alive))
    | inl x ↦ elim (Bool-cases (t.sleeps i)) [
      | inr a ↦ inl (i, start_retries callback e unlocked a x)
      | inl a ↦
          let here = ap is_waiting e in
          inr (record {
            waits_for_exit = here;
            asleep = a;
            has_exited = x;
            was_late = watched.waiting i a here x;
          })
    ]
  ]

  place_Able :
      (i : ℕ) (p : Place) → t.place i ≡ p → waits p ≡ true → ((k : ℕ) × Able t k) ⊎ MissedExit t i
  place_Able i outside e h = cc
  place_Able i stop_top e h = cc
  place_Able i (start_top callback) e h = cc
  place_Able i stop_blocked e h =
      inl (blocked_Able i (ap is_blocked e) (λ a j. stop_goes_on e unlocked a j))
  place_Able i (start_blocked callback) e h =
      inl (blocked_Able i (ap is_blocked e) (λ a j. start_goes_on callback e unlocked a j))
  place_Able i (start_waiting callback) e h = exited_Able i callback e
  place_Able i (stop_joining w) e h = inl (joined_Able i w (ap joins e))
  place_Able i (start_joining callback w) e h = inl (joined_Able i w (ap joins e))

module _ {D : Type 0} (t : System D) (inv : IsOwned t) (watched : Watched t) where
  lock_Able :
      (i : ℕ) (lock : Option ℕ)
      → t.lock ≡ lock
      → waits (t.place i) ≡ true
      → ((k : ℕ) × Able t k) ⊎ MissedExit t i
  lock_Able i none e h = place_Able t inv watched e i (t.place i) refl h
  lock_Able i (some k) e h = inl (k, falls_asleep e (watched.holds k e))

module _ (F : Floats) {s t : System F.Double} (first : IsInitial F s) (reached : Reach F s t) where
  open F use {Double}

  -- In every reachable state of a client at most one worker has not ended, however threads call
  -- `start` and `stop`, the worker's own callback included.
  pub one_worker : (v w : ℕ) → is_alive (t.role v) ≡ true → is_alive (t.role w) ≡ true → v ≡ w
  one_worker v w a b =
      let inv = Reach-IsOwned F first reached in
      let x = (inv.owned v a).0 in let y = (inv.owned w b).0 in cc

  -- In every reachable state a thread that waits inside `start` or `stop` is no worker, so the worker
  -- waits for nobody, and no thread joins itself.
  pub waiting_is_caller :
      (i : ℕ) → waits (t.place i) ≡ true → (t.role i ≡ caller) × (joins (t.place i) ≢ some i)
  waiting_is_caller i h =
      let inv = Reach-IsOwned F first reached in
      let c = waiting_caller t inv i h in (c, λ e. let w = (inv.sole i i e).3 in ground arith)

  -- In every reachable state in which a thread waits inside `start` or `stop`, some thread can go on,
  -- without a spurious wake-up; or the waiting thread sleeps in `start` for the exit of a worker that
  -- had exited by the time it fell asleep.
  pub no_deadlock : (i : ℕ) → waits (t.place i) ≡ true → ((j : ℕ) × Able t j) ⊎ MissedExit t i
  no_deadlock i h =
      lock_Able t (Reach-IsOwned F first reached) (Reach-Watched F first reached) i t.lock refl h

  -- Whenever `stop` returns to a thread that is no worker, no worker is left that has not ended, and
  -- the client reports that it is stopped unless a fault is latched.
  pub stop_leaves_no_worker :
      (i : ℕ) (next : Impl Double)
      → StopEnds t i next
      → ((w : ℕ) → is_alive (t.role w) ≡ false) × ReportsStop next
  stop_leaves_no_worker i next e = StopEnds-alone t (Reach-IsOwned F first reached) i next e
