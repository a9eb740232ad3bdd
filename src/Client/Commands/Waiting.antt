-- ===== src/Client/Commands/Waiting.antt =====
-- When `wait_for_first_sample` returns, and what it says.
use netft_cpp.Base.{
  ℕ, ◌≡◌, ◌≢◌, ◌↔◌, refl, sym, subst, arith, true, false, List, [], ◌∷◌, Option, none, some, ok,
  ◌==◌, Bool-cases, ◌⊎◌, inl, inr,
}
use netft_cpp.Client.Commands.{
  Wake, answers, still_waits, first_sample_settled, wait_until, decide, wait_for_generation,
  wait_for_first_sample,
}
use netft_cpp.Client.Commands
use netft_cpp.Client.State.{Impl}
use netft_cpp.FaultLatch
use netft_cpp.FaultLatch.{is_fault}
use netft_cpp.Floats.{Floats, LongFloats}
use netft_cpp.Time.{checked_deadline}
use netft_cpp.Types.Faults.{FaultCode}

no_fault : (code : FaultCode) → is_fault code ≡ false → code ≡ FaultCode.none
no_fault code e = ground arith

decide-none : (D : Type 0) (captured : ℕ) → decide {D = D} captured none ≡ still_waits
unfolding decide
decide-none D captured = refl

module _ {D : Type 0} where
  -- The run is the same, none of its samples has been delivered, and it goes on.
  abbrev pub IsPending : ℕ → Impl D → Type 0
  IsPending captured impl =
      (impl.generation ≡ captured)
      × (impl.delivered_generation ≢ captured)
      × (impl.stopping ≡ false)
      × (impl.fault_latch.code ≡ FaultCode.none)

  -- The run is the same, and a sample of it has been delivered.
  abbrev pub IsDelivered : ℕ → Impl D → Type 0
  IsDelivered captured impl = (impl.generation ≡ captured) × (impl.delivered_generation ≡ captured)

  -- Every state that a return from the wait meets is pending, and no return comes from the deadline.
  abbrev pub StaysPending : ℕ → List (Wake D) → Impl D → Type 0
  StaysPending captured [] impl = IsPending captured impl
  StaysPending captured (wake ∷ wakes) impl =
      IsPending captured impl
      × (wake.timed_out ≡ false)
      × StaysPending captured wakes (wake.others impl)

  -- The first of these states that is not pending, or that the deadline ends, is a delivered one.
  abbrev pub GetsDelivered : ℕ → List (Wake D) → Impl D → Type 0
  GetsDelivered captured [] impl = IsDelivered captured impl
  GetsDelivered captured (wake ∷ wakes) impl =
      IsDelivered captured impl
      ⊎ (IsPending captured impl
          × (((wake.timed_out ≡ true) × IsDelivered captured (wake.others impl))
              ⊎ ((wake.timed_out ≡ false) × GetsDelivered captured wakes (wake.others impl))))

  settled_iff :
      (captured : ℕ) (impl : Impl D)
      → (first_sample_settled captured impl ≡ false) ↔ IsPending captured impl
  unfolding first_sample_settled Commands.faulted FaultLatch.faulted
  settled_iff captured impl = (
    λ e.
        let code : is_fault impl.fault_latch.code ≡ false = ground arith in
        (ground arith, ground arith, ground arith, no_fault impl.fault_latch.code code),
    λ p. let (same, new, going, sound) = p in rw sound (ground arith),
  )

  decide-some_iff :
      (captured : ℕ) (impl : Impl D)
      → (decide captured (some impl) ≡ answers true) ↔ IsDelivered captured impl
  unfolding decide
  decide-some_iff captured impl =
      (λ e. (ground arith, ground arith), λ d. let (g, h) = d in ground arith)

  decide-some_ends : (captured : ℕ) (impl : Impl D) → decide captured (some impl) ≢ still_waits
  unfolding decide
  decide-some_ends captured impl e = cc

  -- Both claims about a wait whose end is `final`.
  abbrev Says : ℕ → List (Wake D) → Impl D → Option (Impl D) → Type 0
  Says captured wakes impl final =
      ((decide captured final ≡ still_waits) ↔ StaysPending captured wakes impl)
      × ((decide captured final ≡ answers true) ↔ GetsDelivered captured wakes impl)

  settled-Says :
      (captured : ℕ) (wakes : List (Wake D)) (impl : Impl D)
      → first_sample_settled captured impl ≡ true
      → Says captured wakes impl (some impl)
  settled-Says captured [] impl y =
      let pending = settled_iff captured impl in
      (
        (λ e. elim (decide-some_ends captured impl e) [ ], λ p. let n = pending.1 p in cc),
        decide-some_iff captured impl,
      )
  settled-Says captured (wake ∷ wakes) impl y =
      let pending = settled_iff captured impl in
      let (f, g) = decide-some_iff captured impl in
      (
        (λ e. elim (decide-some_ends captured impl e) [ ], λ p. let n = pending.1 p.0 in cc),
        (λ e. inl (f e), λ d. elim d [ inl h ↦ g h | inr h ↦ let n = pending.1 h.0 in cc ]),
      )

  late-Says :
      (captured : ℕ) (wake : Wake D) (wakes : List (Wake D)) (impl : Impl D)
      → IsPending captured impl
      → wake.timed_out ≡ true
      → Says captured (wake ∷ wakes) impl (some (wake.others impl))
  late-Says captured wake wakes impl p t =
      let next = wake.others impl in
      let (f, g) = decide-some_iff captured next in
      (
        (λ e. elim (decide-some_ends captured next e) [ ], λ q. let n = q.1 in cc),
        (
          λ e. inr (p, inl (t, f e)),
          λ d. elim d [
            | inl h ↦ elim (p.1 h.1) [ ]
            | inr (q, inl (u, h)) ↦ g h
            | inr (q, inr (u, h)) ↦ cc
          ],
        ),
      )

  wait_until-Says :
      (captured : ℕ) (wakes : List (Wake D)) (impl : Impl D)
      → Says captured wakes impl (wait_until captured wakes impl)
  unfolding wait_until
  wait_until-Says captured [] impl = elim (Bool-cases (first_sample_settled captured impl)) [
    | inl y ↦ let says = settled-Says captured [] impl y in simp y says
    | inr n ↦
        let p = (settled_iff captured impl).0 n in
        let still = decide-none D captured in
        let says : Says captured [] impl none =
          ((λ e. p, λ q. still), (λ e. cc, λ d. elim (p.1 d.1) [ ])) in
        simp n says
  ]
  wait_until-Says captured (wake ∷ wakes) impl =
      let next = wake.others impl in
      let ((f, g), (h, k)) = wait_until-Says captured wakes next in
      elim (Bool-cases (first_sample_settled captured impl)) [
        | inl y ↦ let says = settled-Says captured (wake ∷ wakes) impl y in simp y says
        | inr n ↦
            let p = (settled_iff captured impl).0 n in
            elim (Bool-cases wake.timed_out) [
              | inl t ↦
                  let says = late-Says captured wake wakes impl p t in
                  let same : wait_until captured (wake ∷ wakes) impl ≡ some next =
                    simp (n, t) refl in
                  subst (Says captured (wake ∷ wakes) impl) (sym same) says
              | inr o ↦
                  let says : Says captured (wake ∷ wakes) impl (wait_until captured wakes next) = (
                    (λ e. (p, o, f e), λ q. g q.2),
                    (
                      λ e. inr (p, inr (o, h e)),
                      λ d. elim d [
                        | inl m ↦ elim (p.1 m.1) [ ]
                        | inr (q, inl (u, m)) ↦ cc
                        | inr (q, inr (u, m)) ↦ k m
                      ],
                    ),
                  ) in
                  let same : wait_until captured (wake ∷ wakes) impl
                      ≡ wait_until captured wakes next =
                    simp (n, o) refl in
                  subst (Says captured (wake ∷ wakes) impl) (sym same) says
            ]
      ]

module _ (F : Floats) (L : LongFloats F.Double) where
  open F use {Double}

  -- With a deadline on the clock and in a run, `wait_for_first_sample` still waits exactly while at
  -- each return from the condition variable the deadline has not passed, the run is the same, has
  -- delivered no sample, and the client is neither stopping nor faulted. And it says yes exactly when
  -- the first state in which one of these has changed, or that the deadline ends, is one of the same
  -- run with its first sample delivered.
  pub wait_for_first_sample_iff :
      (now deadline : ℕ) (timeout : Double) (wakes : List (Wake Double)) (impl : Impl Double)
      → checked_deadline L now timeout ≡ ok deadline
      → impl.generation ≢ 0
      → let reply = wait_for_first_sample F L now timeout wakes impl in
        ((reply ≡ still_waits) ↔ StaysPending impl.generation wakes impl)
        × ((reply ≡ answers true) ↔ GetsDelivered impl.generation wakes impl)
  unfolding wait_for_first_sample wait_for_generation
  wait_for_first_sample_iff now deadline timeout wakes impl d g =
      let started : (impl.generation == 0) ≡ false = ground arith in
      let says = wait_until-Says impl.generation wakes impl in simp (d, started) says
