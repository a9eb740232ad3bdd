-- ===== src/Client/Lifecycle/Invariant/Moves.antt =====
-- The invariant on the members that the lifecycle lock guards, and the moves that change them.
use netft_cpp.Base.{
  ℕ, ◌≡◌, ◌⊎◌, inl, inr, refl, ap, Bool, true, false, Option, none, some, arith, ◌==◌, Bool-cases,
}
use netft_cpp.Client.Lifecycle.Threads.{
  Role, caller, fresh, running, exiting, ended, Place, outside, stop_top, start_top, stop_joining,
  start_joining, update, may_call, is_free,
}

pub record Life : Type 0 where
  pub worker : Option ℕ
  pub active : Option ℕ
  pub joining : Bool
  pub exited : Bool

-- The worker that a thread joins.
abbrev pub joins : Place → Option ℕ
joins (stop_joining w) = some w
joins (start_joining callback w) = some w
joins _ = none

abbrev pub is_alive : Role → Bool
is_alive running = true
is_alive exiting = true
is_alive _ = false

abbrev pub is_caller : Role → Bool
is_caller caller = true
is_caller _ = false

abbrev pub is_worker : Role → Bool
is_worker caller = false
is_worker fresh = false
is_worker _ = true

-- A worker is at the top of a round at most; a thread that is neither worker nor caller is outside.
abbrev pub allowed : Role → Place → Bool
allowed r outside = true
allowed r stop_top = may_call r
allowed r (start_top callback) = may_call r
allowed r _ = is_caller r

pub record Inv (l : Life) (role : ℕ → Role) (place : ℕ → Place) : Type 0 where
  pub places : (i : ℕ) → allowed (role i) (place i) ≡ true
  pub sole :
      (i w : ℕ)
      → joins (place i) ≡ some w
      → (l.joining ≡ true) × (l.worker ≡ none) × (l.active ≡ some w) × (is_worker (role w) ≡ true)
  pub unique : (i j v w : ℕ) → joins (place i) ≡ some v → joins (place j) ≡ some w → i ≡ j
  pub joiner : l.joining ≡ true → (i : ℕ) × (w : ℕ) × (joins (place i) ≡ some w)
  pub held : (w : ℕ) → l.worker ≡ some w → (l.active ≡ some w) × (is_worker (role w) ≡ true)
  pub owned :
      (w : ℕ)
      → is_alive (role w) ≡ true
      → (l.active ≡ some w) × ((l.worker ≡ some w) ⊎ ((i : ℕ) × (joins (place i) ≡ some w)))
  pub present : l.exited ≡ false → (w : ℕ) × (role w ≡ running)
  pub at_work : (w : ℕ) → role w ≡ running → l.exited ≡ false

module _ {l : Life} {role : ℕ → Role} {place : ℕ → Place} (inv : Inv l role place) where
  -- A thread goes to a place where it does not join, from one where it did not.
  pub Inv-moves :
      (i : ℕ) (p : Place)
      → joins (place i) ≡ none
      → joins p ≡ none
      → allowed (role i) p ≡ true
      → Inv l role (update place i p)
  Inv-moves i p before after good = record {
    places = λ j. ground (arith, inv.places j);
    sole = λ j w e. ground (arith, inv.sole j w);
    unique = λ j k v w e f. ground (arith, inv.unique j k v w);
    joiner = λ e. let (j, w, h) = inv.joiner e in (j, w, ground arith);
    held = inv.held;
    owned = λ w e.
        let (a, o) = inv.owned w e in
        (a, elim o [ inl h ↦ inl h | inr (j, h) ↦ inr (j, ground arith) ]);
    present = inv.present;
    at_work = inv.at_work;
  }

  -- A caller takes the worker.
  pub Inv-takes :
      (i w : ℕ) (p : Place)
      → l.worker ≡ some w
      → l.joining ≡ false
      → role i ≡ caller
      → joins p ≡ some w
      → Inv (record l { worker = none; joining = true }) role (update place i p)
  Inv-takes i w p e alone c j = record {
    places = λ k. ground (arith, inv.places k);
    sole = λ k v f. ground (arith, inv.sole k v, inv.held w);
    unique = λ k m u v f g. ground (arith, inv.sole k u, inv.sole m v);
    joiner = λ f. (i, w, ground arith);
    held = λ v f. cc;
    owned = λ v f.
        let (a, o) = inv.owned v f in
        let same : v ≡ w = ground (arith, inv.held w) in (a, inr (i, ground arith));
    present = inv.present;
    at_work = inv.at_work;
  }

  -- The worker that a thread joins has ended, and the thread goes on.
  pub Inv-joined :
      (i w : ℕ) (p : Place)
      → joins (place i) ≡ some w
      → role w ≡ ended
      → joins p ≡ none
      → allowed (role i) p ≡ true
      → Inv (record l { active = none; joining = false }) role (update place i p)
  Inv-joined i w p e gone j good = record {
    places = λ k. ground (arith, inv.places k);
    sole = λ k v f. ground (arith, inv.unique k i v w);
    unique = λ k m u v f g. ground (arith, inv.unique k m u v);
    joiner = λ f. cc;
    held = λ v f. ground (arith, inv.sole i w);
    owned =
        λ v f. let (a, o) = inv.owned v f in let b = (inv.sole i w e).2 in absurd (ground arith);
    present = inv.present;
    at_work = inv.at_work;
  }

  -- A worker is created.
  pub Inv-started :
      (i w : ℕ)
      → l.worker ≡ none
      → l.joining ≡ false
      → is_free (role w) ≡ true
      → joins (place i) ≡ none
      → Inv
          (record { worker = some w; active = some w; joining = false; exited = false })
          (update role w running)
          (update place i outside)
  Inv-started i w e alone free j = record {
    places = λ k. ground (arith, inv.places k);
    sole = λ k v f. ground (arith, inv.sole k v);
    unique = λ k m u v f g. ground (arith, inv.unique k m u v);
    joiner = λ f. cc;
    held = λ v f. ground arith;
    owned = λ v f.
        let same : w ≡ v = elim (Bool-cases (w == v)) [
          | inl hit ↦ ground arith
          | inr miss ↦
              let (a, o) = inv.owned v (ground arith) in
              elim o [
                | inl h ↦ cc
                | inr (k, h) ↦ let never : true ≡ false = ground (arith, inv.sole k v) in cc
              ]
        ] in
        (ap (λ (x : ℕ). some x) same, inl (ap (λ (x : ℕ). some x) same));
    present = λ f. (w, ground arith);
    at_work = λ v f. refl;
  }

  -- The worker leaves its loop.
  pub Inv-finishes :
      (w : ℕ)
      → role w ≡ running
      → place w ≡ outside
      → Inv (record l { exited = true }) (update role w exiting) place
  Inv-finishes w r o = record {
    places = λ k. ground (arith, inv.places k);
    sole = λ k v f. ground (arith, inv.sole k v);
    unique = inv.unique;
    joiner = inv.joiner;
    held = λ v f. ground (arith, inv.held v);
    owned = λ v f. inv.owned v (ground arith);
    present = λ f. cc;
    at_work = λ v f.
        let old : role v ≡ running = ground arith in
        let a = (inv.owned v (ground arith)).0 in
        let b = (inv.owned w (ground arith)).0 in ground arith;
  }

  -- The worker ends.
  pub Inv-ends : (w : ℕ) → role w ≡ exiting → Inv l (update role w ended) place
  Inv-ends w r = record {
    places = λ k. ground (arith, inv.places k);
    sole = λ k v f. ground (arith, inv.sole k v);
    unique = inv.unique;
    joiner = inv.joiner;
    held = λ v f. ground (arith, inv.held v);
    owned = λ v f. inv.owned v (ground arith);
    present = λ f. let (v, h) = inv.present f in (v, ground arith);
    at_work = λ v f. inv.at_work v (ground arith);
  }
