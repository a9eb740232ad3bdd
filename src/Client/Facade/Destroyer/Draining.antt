-- ===== src/Client/Facade/Destroyer/Draining.antt =====
-- All clients are destroyed in the end.
use netft_cpp.Base.{ℕ, zero, suc, ◌≡◌, ◌≢◌, ◌⊎◌, inl, inr, refl, sym, ◌∙◌, ap, List, [], ◌∷◌, ◌++◌}
use mathlib.Core.List.{append_assoc, append-nil}
use netft_cpp.Client.Facade.Destroyer.{
  Action, stop_called, destroyed, Place, testing, asleep, holding, stopped, DeferredDestroyer,
  Event, notifies, runs, woken, wake, notify_due, notify, run_front, run_from, run_round, happen,
  new_destroyer, pushed,
}
use netft_cpp.Client.Facade.Destroyer.Keeping.{
  lives, Keeps, lives-append, awake_Keeps, destroyer, wake_at, woken_twice, woken_awake, run_at,
  happen-Keeps,
}

module _ {V : Type 0} where
  -- the notifications that are due, and the rounds up to the end of the last pending client
  abbrev pub notices : ℕ → List (Event V)
  notices zero = []
  notices (suc due) = notifies ∷ notices due

  abbrev pub finishing : Place V → List (Event V)
  finishing (holding value) = runs ∷ runs ∷ []
  finishing (stopped value) = runs ∷ []
  finishing _ = []

  abbrev pub rounds : List V → List (Event V)
  rounds [] = []
  rounds (value ∷ rest) = runs ∷ runs ∷ runs ∷ rounds rest

  abbrev pub remaining : DeferredDestroyer V → List (Event V)
  remaining d = notices d.due ++ (finishing d.thread ++ rounds d.pending)

  drains :
      (pending : List V) (due : ℕ) (log : List (Action V))
      → (happen (rounds pending) (destroyer pending testing due log)).log ≡ log ++ lives pending
  unfolding happen run_round run_from run_front destroyer
  drains [] due log = sym (append-nil log)
  drains (value ∷ rest) due log =
      drains rest due
        ((log ++ (stop_called value ∷ [])) ++ (stop_called value ∷ destroyed value ∷ []))
      ∙ simp append_assoc refl

  finishes_testing :
      (pending : List V) (due : ℕ) (log : List (Action V)) (sent : List V)
      → Keeps (destroyer pending testing due log) sent
      → (happen (rounds pending) (destroyer pending testing due log)).log ≡ lives sent
  unfolding destroyer
  finishes_testing pending due log sent k =
      drains pending due log
      ∙ ap (λ (l : List (Action V)). l ++ lives pending) (k.logged ∙ append-nil (lives k.done))
      ∙ sym (lives-append k.done pending)
      ∙ ap lives k.all_there

  finishes_from :
      (pending : List V) (thread : Place V) (due : ℕ) (log : List (Action V)) (sent : List V)
      → (thread ≢ asleep) ⊎ (pending ≡ [])
      → Keeps (destroyer pending thread due log) sent
      → (happen (finishing thread ++ rounds pending) (destroyer pending thread due log)).log
        ≡ lives sent
  unfolding happen run_round run_from destroyer
  finishes_from pending testing due log sent a k = finishes_testing pending due log sent k
  finishes_from [] asleep due log sent a k =
      k.logged ∙ append-nil (lives k.done) ∙ ap lives (sym (append-nil k.done) ∙ k.all_there)
  finishes_from (value ∷ rest) asleep due log sent a k = elim a [
    | inl h ↦ absurd (h refl)
    | inr e ↦ cc
  ]
  finishes_from pending (holding value) due log sent a k =
      let once = run_at pending (holding value) due log sent k in
      finishes_testing pending due _ sent (run_at pending (stopped value) due _ sent once)
  finishes_from pending (stopped value) due log sent a k =
      finishes_testing pending due _ sent (run_at pending (stopped value) due log sent k)

  -- once a notification that is due comes, the thread is awake
  after_notices :
      (due : ℕ) (pending : List V) (thread : Place V) (log : List (Action V)) (sent : List V)
      (more : List (Event V))
      → happen (notices (suc due) ++ more) (destroyer pending thread (suc due) log)
        ≡ happen more (destroyer pending (woken thread) 0 log)
  unfolding happen notify notify_due wake destroyer
  after_notices zero pending thread log sent more = refl
  after_notices (suc due) pending thread log sent more =
      after_notices due pending (woken thread) log sent more
      ∙ ap (λ (p : Place V). happen more (destroyer pending p 0 log)) (woken_twice thread)

  finishing-woken : (p : Place V) → finishing p ≡ finishing (woken p)
  unfolding woken
  finishing-woken testing = refl
  finishing-woken asleep = refl
  finishing-woken (holding value) = refl
  finishing-woken (stopped value) = refl

  finishes :
      (pending : List V) (thread : Place V) (due : ℕ) (log : List (Action V)) (sent : List V)
      → Keeps (destroyer pending thread due log) sent
      → (happen
          (notices due ++ (finishing thread ++ rounds pending))
          (destroyer pending thread due log)).log
        ≡ lives sent
  unfolding destroyer wake
  finishes pending thread zero log sent k =
      finishes_from pending thread 0 log sent
        (elim k.notified [ inl a ↦ inl a | inr (inl e) ↦ inr e | inr (inr n) ↦ absurd (n refl) ]) k
  finishes pending thread (suc due) log sent k =
      let w = wake_at pending thread (suc due) log sent k in
      let next = destroyer pending (woken thread) 0 log in
      let kept = awake_Keeps next sent (woken_awake thread) w.done w.logged w.all_there in
      ap (λ (d : DeferredDestroyer V). d.log)
        (after_notices due pending thread log sent (finishing thread ++ rounds pending))
      ∙ ap (λ (l : List (Event V)). (happen (l ++ rounds pending) next).log)
          (finishing-woken thread)
      ∙ finishes_from pending (woken thread) 0 log sent (inl (woken_awake thread)) kept

  -- However the threads that enqueue clients, their notifications, the destroyer's thread and its
  -- spurious wake-ups interleave: in order, every enqueued client is done with, in hand or pending; a
  -- client that is done with was stopped, stopped again by its own destructor and destroyed, before
  -- anything happened to the next one; and the thread sleeps while clients are pending only if a
  -- notification is still due. Once the notifications that are due have come, a number of rounds that
  -- depends on the pending clients brings all of them to that end.
  pub happen_in_order :
      (events : List (Event V))
      → let last = happen events new_destroyer in
        Keeps last (pushed events) × ((happen (remaining last) last).log ≡ lives (pushed events))
  unfolding destroyer
  happen_in_order events =
      let last = happen events new_destroyer in
      let first : Keeps new_destroyer [] = record {
        done = [];
        logged = refl;
        all_there = refl;
        notified = inr (inl refl);
      } in
      let kept = happen-Keeps events new_destroyer [] first in
      (kept, finishes last.pending last.thread last.due last.log (pushed events) kept)
