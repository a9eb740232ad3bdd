-- ===== src/Client/Facade/Destroyer.antt =====
-- `DeferredDestroyer` of src/client.cpp: its thread, the lock's sections and the notifications of its
-- condition variable, one at a time.
pub mod Keeping
pub mod Draining
use netft_cpp.Base.{
  ℕ, zero, suc, ◌+◌, ◌≡◌, ◌≢◌, ◌⊎◌, inl, inr, refl, sym, ◌∙◌, ap, subst, List, [], ◌∷◌, ◌++◌,
}
use mathlib.Core.List.{append_assoc, append-nil}

-- What the thread does to a client: `stop` runs, or the rest of its destructor.
pub data Action (V : Type 0) : Type 0 where
  stop_called destroyed : V → Action V

-- Where the thread is: before the predicate of its wait, asleep in the wait, behind the section with
-- a client, or behind the call of `stop` on it.
pub data Place (V : Type 0) : Type 0 where
  testing asleep : Place V
  holding stopped : V → Place V

-- `due` counts the threads between the two halves of `enqueue`; `log` is what the thread has done.
pub record DeferredDestroyer (V : Type 0) : Type 0 where
  pub pending : List V
  pub thread : Place V
  pub due : ℕ
  pub log : List (Action V)

-- The two halves of `enqueue` in any thread, a part of the loop of `run`, and a spurious wake-up.
pub data Event (V : Type 0) : Type 0 where
  pushes : V → Event V
  notifies runs wakes : Event V

module _ {V : Type 0} where
  unfoldable pub push : V → DeferredDestroyer V → DeferredDestroyer V
  push value d = record d { pending = d.pending ++ (value ∷ []); due = suc d.due }

  pub woken : Place V → Place V
  woken asleep = testing
  woken testing = testing
  woken (holding value) = holding value
  woken (stopped value) = stopped value

  unfoldable pub wake : DeferredDestroyer V → DeferredDestroyer V
  unfolding woken
  wake d = record d { thread = woken d.thread }

  -- `notify_one`, if a thread is about to call it
  notify_due : ℕ → DeferredDestroyer V → DeferredDestroyer V
  unfolding wake
  notify_due zero d = d
  notify_due (suc due) d = record (wake d) { due = due }

  unfoldable pub notify : DeferredDestroyer V → DeferredDestroyer V
  unfolding notify_due
  notify d = notify_due d.due d

  -- the predicate, with the lock held: it waits on, or takes the front
  run_front : List V → DeferredDestroyer V → DeferredDestroyer V
  run_front [] d = record d { thread = asleep }
  run_front (value ∷ rest) d = record d { pending = rest; thread = holding value }

  -- `value->stop()`, and then the end of `value`, in which the destructor of `Impl` calls `stop` again
  run_from : Place V → DeferredDestroyer V → DeferredDestroyer V
  unfolding run_front
  run_from testing d = run_front d.pending d
  run_from asleep d = d
  run_from (holding value) d = record d {
    thread = stopped value;
    log = d.log ++ (stop_called value ∷ []);
  }
  run_from (stopped value) d = record d {
    thread = testing;
    log = d.log ++ (stop_called value ∷ destroyed value ∷ []);
  }

  unfoldable pub run_round : DeferredDestroyer V → DeferredDestroyer V
  unfolding run_from
  run_round d = run_from d.thread d

  unfoldable pub happen : List (Event V) → DeferredDestroyer V → DeferredDestroyer V
  happen [] d = d
  happen (pushes value ∷ events) d = happen events (push value d)
  happen (notifies ∷ events) d = happen events (notify d)
  happen (runs ∷ events) d = happen events (run_round d)
  happen (wakes ∷ events) d = happen events (wake d)

  abbrev pub new_destroyer : DeferredDestroyer V
  new_destroyer = record { pending = []; thread = testing; due = 0; log = [] }

  -- the clients that are enqueued
  abbrev pub pushed : List (Event V) → List V
  pushed [] = []
  pushed (pushes value ∷ events) = value ∷ pushed events
  pushed (notifies ∷ events) = pushed events
  pushed (runs ∷ events) = pushed events
  pushed (wakes ∷ events) = pushed events
