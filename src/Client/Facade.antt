-- ===== src/Client/Facade.antt =====
-- src/client.cpp: the destructor of `Client`, and the thread that destroys clients whose destructor
-- ran in their own callback. The other members of `Client` call those of the same name in
-- `Client::Impl`. `impl_` is never null before the destructor, as a `Client` cannot be moved from.
pub mod Destroyer
use netft_cpp.Base.{ℕ, ◌≡◌, inl, inr, refl, ap, arith, true, false, if◌then◌else◌, ◌==◌, Bool-cases}
use netft_cpp.Client.Lifecycle.{
  called_from_worker_thread, stop_section, StopStep, stop_returns, stop_waits, stop_joins,
}
use netft_cpp.Client.Lifecycle.Invariant.{Reach-IsOwned}
use netft_cpp.Client.Lifecycle.Invariant.Moves.{is_alive, is_caller}
use netft_cpp.Client.Lifecycle.Safety.{caller_other}
use netft_cpp.Client.Lifecycle.Threads.{caller, running, System, Reach, IsInitial, may_call}
use netft_cpp.Client.State.{Impl}
use netft_cpp.Floats.{Floats}

-- What `~Client` comes to: the client is enqueued on the deferred destroyer, or `stop` runs on.
pub data Destruction (D : Type 0) : Type 0 where
  deferred : Impl D → Destruction D
  stops : StopStep D → Destruction D

module _ {D : Type 0} where
  -- by how `stop` in the callback ends; it never waits there
  defer : StopStep D → Destruction D
  defer (stop_returns impl) = deferred impl
  defer (stop_waits impl) = stops (stop_waits impl)
  defer (stop_joins w impl) = stops (stop_joins w impl)

  unfoldable pub destroy : ℕ → Impl D → Destruction D
  unfolding defer
  destroy self impl =
      if called_from_worker_thread self impl
      then defer (stop_section self impl)
      else stops (stop_section self impl)

  destroy-own :
      (self : ℕ) (impl : Impl D)
      → called_from_worker_thread self impl ≡ true
      → destroy self impl ≡ deferred (record impl { stopping = true; session_started = false })
  unfolding destroy defer stop_section called_from_worker_thread
  destroy-own self impl h = simp h refl

  destroy-other :
      (self : ℕ) (impl : Impl D)
      → called_from_worker_thread self impl ≡ false
      → destroy self impl ≡ stops (stop_section self impl)
  unfolding destroy
  destroy-other self impl h = rw h refl

module _ (F : Floats) {s t : System F.Double} (first : IsInitial F s) (reached : Reach F s t) where
  worker_called : (i : ℕ) → t.role i ≡ running → called_from_worker_thread i t.impl ≡ true
  unfolding called_from_worker_thread
  worker_called i h =
      let inv = Reach-IsOwned F first reached in
      let at_work = inv.at_work i h in
      let active = (inv.owned i (ap is_alive h)).0 in
      let same : (i == i) ≡ true = ground arith in simp (at_work, active) same

  -- In every reachable state, when a thread that may call the client destroys it: a worker, in its own
  -- callback, enqueues the client on the deferred destroyer with its stop requested, and neither waits
  -- nor joins; any other thread stops it itself.
  pub destroy_by :
      (i : ℕ)
      → may_call (t.role i) ≡ true
      → destroy i t.impl ≡ (
          if is_caller (t.role i)
          then stops (stop_section i t.impl)
          else deferred (record (t.impl) { stopping = true; session_started = false }))
  destroy_by i h = elim (Bool-cases (is_caller (t.role i))) [
    | inl y ↦
        let c : t.role i ≡ caller = ground arith in
        rw y (destroy-other i t.impl (caller_other t (Reach-IsOwned F first reached) i c))
    | inr n ↦
        let w : t.role i ≡ running = ground arith in rw n (destroy-own i t.impl (worker_called i w))
  ]
