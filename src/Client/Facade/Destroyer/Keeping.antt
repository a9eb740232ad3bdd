-- ===== src/Client/Facade/Destroyer/Keeping.antt =====
-- No client is lost: what every part of the destroyer's work keeps.
use netft_cpp.Base.{
  ℕ, zero, suc, ◌≡◌, ◌≢◌, ◌⊎◌, inl, inr, refl, sym, ◌∙◌, ap, subst, List, [], ◌∷◌, ◌++◌,
}
use mathlib.Core.List.{append_assoc, append-nil}
use netft_cpp.Client.Facade.Destroyer.{
  Action, stop_called, destroyed, Place, testing, asleep, holding, stopped, DeferredDestroyer,
  Event, pushes, notifies, runs, wakes, push, woken, wake, notify_due, notify, run_front, run_from,
  run_round, happen, pushed,
}

module _ {V : Type 0} where
  -- each client is stopped, stopped again by its destructor, and destroyed, before the next one
  abbrev pub lives : List V → List (Action V)
  lives [] = []
  lives (value ∷ rest) = stop_called value ∷ stop_called value ∷ destroyed value ∷ lives rest

  -- the client that the thread has in hand, and what it has done to it
  abbrev pub held : Place V → List V
  held (holding value) = value ∷ []
  held (stopped value) = value ∷ []
  held _ = []

  abbrev pub begun : Place V → List (Action V)
  begun (stopped value) = stop_called value ∷ []
  begun _ = []

  -- All clients of `sent` are done with, in hand or pending, in order, each done with as it should
  -- be, and the thread sleeps on pending clients only while a notification is due.
  pub record Keeps (d : DeferredDestroyer V) (sent : List V) : Type 0 where
    pub done : List V
    pub logged : d.log ≡ lives done ++ begun d.thread
    pub all_there : done ++ (held d.thread ++ d.pending) ≡ sent
    pub notified : (d.thread ≢ asleep) ⊎ (d.pending ≡ []) ⊎ (d.due ≢ 0)

  pub lives-append : (a b : List V) → lives (a ++ b) ≡ lives a ++ lives b
  lives-append [] b = refl
  lives-append (value ∷ a) b =
      ap (λ (l : List (Action V)). stop_called value ∷ stop_called value ∷ destroyed value ∷ l)
        (lives-append a b)

  push-Keeps :
      (value : V) (d : DeferredDestroyer V) (sent : List V)
      → Keeps d sent
      → Keeps (push value d) (sent ++ (value ∷ []))
  unfolding push
  push-Keeps value d sent k = record {
    done = k.done;
    logged = k.logged;
    all_there =
        ap (λ (l : List V). k.done ++ l) (sym (append_assoc (held d.thread) d.pending (value ∷ [])))
        ∙ sym (append_assoc k.done (held d.thread ++ d.pending) (value ∷ []))
        ∙ ap (λ (l : List V). l ++ (value ∷ [])) k.all_there;
    notified = inr (inr (λ e. cc));
  }

  pub awake_Keeps :
      (d : DeferredDestroyer V) (sent : List V)
      → d.thread ≢ asleep
      → (done : List V) → d.log ≡ lives done ++ begun d.thread
      → done ++ (held d.thread ++ d.pending) ≡ sent
      → Keeps d sent
  awake_Keeps d sent a done l e = record {
    done = done;
    logged = l;
    all_there = e;
    notified = inl a;
  }

  -- the members one by one, to tell the places apart
  unfoldable pub destroyer : List V → Place V → ℕ → List (Action V) → DeferredDestroyer V
  destroyer pending thread due log = record {
    pending = pending;
    thread = thread;
    due = due;
    log = log;
  }

  pub wake_at :
      (pending : List V) (thread : Place V) (due : ℕ) (log : List (Action V)) (sent : List V)
      → Keeps (destroyer pending thread due log) sent
      → Keeps (wake (destroyer pending thread due log)) sent
  unfolding wake woken destroyer
  wake_at pending testing due log sent k = k
  wake_at pending asleep due log sent k = record {
    done = k.done;
    logged = k.logged;
    all_there = k.all_there;
    notified = inl (λ e. cc);
  }
  wake_at pending (holding value) due log sent k = k
  wake_at pending (stopped value) due log sent k = k

  wake-Keeps : (d : DeferredDestroyer V) (sent : List V) → Keeps d sent → Keeps (wake d) sent
  unfolding destroyer
  wake-Keeps d sent k = wake_at d.pending d.thread d.due d.log sent k

  pub woken_twice : (p : Place V) → woken (woken p) ≡ woken p
  unfolding woken
  woken_twice testing = refl
  woken_twice asleep = refl
  woken_twice (holding value) = refl
  woken_twice (stopped value) = refl

  pub woken_awake : (p : Place V) → woken p ≢ asleep
  unfolding woken
  woken_awake testing e = cc
  woken_awake asleep e = cc
  woken_awake (holding value) e = cc
  woken_awake (stopped value) e = cc

  notify_due-Keeps :
      (due : ℕ) (d : DeferredDestroyer V) (sent : List V)
      → Keeps d sent
      → Keeps (notify_due due d) sent
  unfolding notify_due wake
  notify_due-Keeps zero d sent k = k
  notify_due-Keeps (suc due) d sent k =
      let w = wake-Keeps d sent k in
      awake_Keeps (record (wake d) { due = due }) sent (woken_awake d.thread) w.done w.logged
        w.all_there

  run_front-Keeps :
      (pending : List V) (due : ℕ) (log : List (Action V)) (sent : List V)
      → Keeps (destroyer pending testing due log) sent
      → Keeps (run_front pending (destroyer pending testing due log)) sent
  unfolding run_front destroyer
  run_front-Keeps [] due log sent k = record {
    done = k.done;
    logged = k.logged;
    all_there = k.all_there;
    notified = inr (inl refl);
  }
  run_front-Keeps (value ∷ rest) due log sent k =
      awake_Keeps (destroyer rest (holding value) due log) sent (λ e. cc) k.done k.logged
        k.all_there

  -- the second `stop` and the end of a client complete its life
  lives-snoc :
      (done : List V) (value : V)
      → (lives done ++ (stop_called value ∷ [])) ++ (stop_called value ∷ destroyed value ∷ [])
        ≡ lives (done ++ (value ∷ []))
  lives-snoc done value =
      append_assoc (lives done) (stop_called value ∷ []) (stop_called value ∷ destroyed value ∷ [])
      ∙ sym (lives-append done (value ∷ []))

  pub run_at :
      (pending : List V) (thread : Place V) (due : ℕ) (log : List (Action V)) (sent : List V)
      → Keeps (destroyer pending thread due log) sent
      → Keeps (run_round (destroyer pending thread due log)) sent
  unfolding run_round run_from destroyer
  run_at pending testing due log sent k = run_front-Keeps pending due log sent k
  run_at pending asleep due log sent k = k
  run_at pending (holding value) due log sent k =
      awake_Keeps _ sent (λ e. cc) k.done
        (ap (λ (l : List (Action V)). l ++ (stop_called value ∷ []))
          (k.logged ∙ append-nil (lives k.done)))
        k.all_there
  run_at pending (stopped value) due log sent k =
      awake_Keeps _ sent (λ e. cc) (k.done ++ (value ∷ []))
        (ap (λ (l : List (Action V)). l ++ (stop_called value ∷ destroyed value ∷ [])) k.logged
          ∙ lives-snoc k.done value
          ∙ sym (append-nil (lives (k.done ++ (value ∷ [])))))
        (append_assoc k.done (value ∷ []) pending ∙ k.all_there)

  run_round-Keeps :
      (d : DeferredDestroyer V) (sent : List V) → Keeps d sent → Keeps (run_round d) sent
  unfolding destroyer
  run_round-Keeps d sent k = run_at d.pending d.thread d.due d.log sent k

  pub happen-Keeps :
      (events : List (Event V)) (d : DeferredDestroyer V) (sent : List V)
      → Keeps d sent
      → Keeps (happen events d) (sent ++ pushed events)
  unfolding happen notify
  happen-Keeps [] d sent k = subst (Keeps d) (sym (append-nil sent)) k
  happen-Keeps (pushes value ∷ events) d sent k =
      subst (Keeps (happen events (push value d))) (append_assoc sent (value ∷ []) (pushed events))
        (happen-Keeps events (push value d) (sent ++ (value ∷ [])) (push-Keeps value d sent k))
  happen-Keeps (notifies ∷ events) d sent k =
      happen-Keeps events (notify d) sent (notify_due-Keeps d.due d sent k)
  happen-Keeps (runs ∷ events) d sent k =
      happen-Keeps events (run_round d) sent (run_round-Keeps d sent k)
  happen-Keeps (wakes ∷ events) d sent k = happen-Keeps events (wake d) sent (wake-Keeps d sent k)
