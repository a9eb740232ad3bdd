-- ===== src/Client/Lifecycle/Invariant.antt =====
-- Who holds the worker, in every reachable state.
pub mod Moves
pub mod Sections
use netft_cpp.Base.{
  ℕ, ◌≡◌, ◌⊎◌, inl, inr, refl, sym, ap, subst, Option, true, false, none, some, arith,
}
use netft_cpp.Client.Lifecycle.Invariant.Moves.{
  Life, Inv, Inv-moves, Inv-finishes, Inv-ends, joins, is_caller, is_alive,
}
use netft_cpp.Client.Lifecycle.Invariant.Sections.{
  life, IsOwned, finish_session-life, stop_section-IsOwned, stop_joined-IsOwned,
  start_section-IsOwned, start_round-IsOwned, start_joined-IsOwned,
}
use netft_cpp.Client.Lifecycle.Threads.{
  update, Role, System, Step, Reach, here, next, IsInitial, SameLife, may_call, stop_top, start_top,
  outside, caller, calls_stop, calls_start, stops, stop_wakes, stop_joins_ended, starts,
  start_wakes, start_goes_on, start_joins_ended, works, finishes, ends, notify_all, stop_blocked,
  start_blocked, stop_sleeps_on, start_sleeps_on, start_tests, start_sleeps, wakes,
}
use netft_cpp.Floats.{Floats}

module _ (F : Floats) where
  open F use {Double}

  Step-IsOwned : {s t : System Double} → Step F s t → IsOwned s → IsOwned t
  Step-IsOwned (calls_stop i may o) inv = Inv-moves inv i stop_top (ap joins o) refl may
  Step-IsOwned (calls_start i callback may o) inv =
      Inv-moves inv i (start_top callback) (ap joins o) refl may
  Step-IsOwned {s} (stops i e free) inv = stop_section-IsOwned (notify_all s) i inv e
  Step-IsOwned {s} (stop_sleeps_on i e a free j) inv =
      Inv-moves inv i stop_blocked (ap joins e) refl (ground (arith, inv.places i))
  Step-IsOwned {s} (stop_wakes i e a free j) inv =
      Inv-moves inv i stop_top (ap joins e) refl (ground (arith, inv.places i))
  Step-IsOwned {s} (stop_joins_ended i w e gone free) inv =
      stop_joined-IsOwned (notify_all s) i w inv e gone
  Step-IsOwned {s} (starts i callback created e unlocked free) inv =
      start_round-IsOwned F s i callback created inv e free
  Step-IsOwned {s} (start_sleeps_on i callback e a free j) inv =
      Inv-moves inv i (start_blocked callback) (ap joins e) refl (ground (arith, inv.places i))
  Step-IsOwned (start_tests i callback e a free x f) inv = inv
  Step-IsOwned (start_sleeps i l) inv = inv
  Step-IsOwned (wakes i) inv = inv
  Step-IsOwned {s} (start_wakes i callback created e a unlocked j free) inv =
      start_section-IsOwned F s i callback created inv (ground (arith, inv.places i)) (ap joins e)
        free j
  Step-IsOwned {s} (start_goes_on i callback e a free h) inv =
      Inv-moves inv i (start_top callback) (ap joins e) refl (ground (arith, inv.places i))
  Step-IsOwned {s} (start_joins_ended i w callback e gone free) inv =
      start_joined-IsOwned F (notify_all s) i w callback inv e gone
  Step-IsOwned {s} (works n same) inv =
      subst (λ (l : Life). Inv l s.role s.place)
        (λ i. record {
          worker = sym same.same_worker i;
          active = sym same.same_active i;
          joining = sym same.same_joining i;
          exited = sym same.same_exited i;
        })
        inv
  Step-IsOwned {s} (finishes w r o) inv =
      subst (λ (l : Life). Inv l (update s.role w Role.exiting) s.place)
        (sym (finish_session-life s.impl)) (Inv-finishes inv w r o)
  Step-IsOwned (ends w r) inv = Inv-ends inv w r

  IsInitial-IsOwned : {s : System Double} → IsInitial F s → IsOwned s
  IsInitial-IsOwned h = record {
    places = λ i. ground (arith, h.all_outside i);
    sole = λ i w e. ground (arith, h.all_outside i);
    unique = λ i j v w e f. ground (arith, h.all_outside i);
    joiner = λ e. absurd (ground (arith, h.not_joining));
    held = λ w e. ground (arith, h.no_worker);
    owned = λ w e. absurd (ground (arith, h.no_workers w));
    present = λ e. absurd (ground (arith, h.exited));
    at_work = λ w e. ground (arith, h.no_workers w);
  }

  pub Reach-IsOwned : {s t : System Double} → IsInitial F s → Reach F s t → IsOwned t
  Reach-IsOwned h here = IsInitial-IsOwned h
  Reach-IsOwned h (next r st) = Step-IsOwned st (Reach-IsOwned h r)
