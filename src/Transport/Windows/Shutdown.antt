-- ===== src/Transport/Windows/Shutdown.antt =====
-- How soon the sliced wait sees a shutdown.
use netft_cpp.Base.{
  ℕ, ◌+◌, ◌-◌, ◌^◌, ◌≤◌, suc, min, ◌≡◌, ◌≢◌, refl, arith, Bool, true, false, List, [], ◌∷◌, ◌++◌,
  Option, none, some, Result, ok, err, Bool-cases, inl, inr, length, if◌then◌else◌, leb, ltb, ◌&&◌,
  ap,
}
use netft_cpp.Base.Int.{ℤ, pos, leb_ℤ}
use netft_cpp.Floats.{Floats, LongFloats, IntFloats, NotNegative}
use netft_cpp.Time.{TimeError, checked_deadline}
use netft_cpp.Transport.{
  Call, polls, receives, Errno, interrupted, shut, failure, UdpTransport, Done, run_commands,
}
use netft_cpp.Transport.Counting.{IsQuiet, run_commands_count}
use netft_cpp.Transport.Descriptors.{total, total-append}
use netft_cpp.Transport.Receive.{Reply, still_waits, timeout_milliseconds}
use netft_cpp.Transport.Windows.{
  Events, SliceAnswer, slice_failed, nothing_ready, ready, Slice, SlicedArrival, SliceEnd, readable,
  ended, Sliced, poll_timeout, has_trouble, on_received, read_sliced, behind_slices, on_slice,
  slice_milliseconds, wait_in_slices, sliced_until, sliced_on, receive,
}

-- how often the calls wait, and how often for more than 50 milliseconds or, by a negative number,
-- without end
abbrev pub waits : Call → ℕ
waits (polls socket milliseconds) = 1
waits _ = 0

abbrev pub long_waits : Call → ℕ
long_waits (polls socket milliseconds) =
    if leb_ℤ (pos 0) milliseconds && leb_ℤ milliseconds (pos 50) then 0 else 1
long_waits _ = 0

no_waits : IsQuiet waits
no_waits = record {
  quiet_open = λ k. refl;
  quiet_close = λ k. refl;
  quiet_shut = λ k. refl;
  quiet_send = λ k request. refl;
}

no_long_waits : IsQuiet long_waits
no_long_waits = record {
  quiet_open = λ k. refl;
  quiet_close = λ k. refl;
  quiet_shut = λ k. refl;
  quiet_send = λ k request. refl;
}

-- the transport as the other threads leave it before the lock of a round
abbrev pub behind : List Slice → UdpTransport → UdpTransport
behind [] t = t
behind (slice ∷ slices) t = behind slices (run_commands slice.others t).transport

-- at most `n` waits, none of them long
abbrev Brief : ℕ → List Call → Type 0
Brief n calls = (total waits calls ≤ n) × (total long_waits calls ≡ 0)

Brief-append : (m n : ℕ) (a b : List Call) → Brief m a → Brief n b → Brief (m + n) (a ++ b)
Brief-append m n a b (w, l) (v, k) =
    (omega (arith, w, v, total-append waits a b), omega (arith, l, k, total-append long_waits a b))

run_commands-Brief :
    (t : UdpTransport) (commands : List _) → Brief 0 (run_commands commands t).calls
run_commands-Brief t commands = (
  omega (arith, run_commands_count waits no_waits commands t),
  run_commands_count long_waits no_long_waits commands t,
)

on_received-ends :
    (received : Result Errno ℕ) (requested : Bool) → on_received received requested ≢ still_waits
unfolding on_received
on_received-ends (ok size) requested e = cc
on_received-ends (err interrupted) requested e = cc
on_received-ends (err shut) requested e = cc
on_received-ends (err (failure code)) true e = cc
on_received-ends (err (failure code)) false e = cc

abbrev IsOver : Done Reply → Type 0
IsOver done = Brief 0 done.calls × (done.reply ≢ still_waits)

read_sliced-IsOver :
    (events : Events) (socket capacity : ℕ) (a : SlicedArrival) (t : UdpTransport)
    → IsOver (read_sliced events socket capacity a t)
unfolding read_sliced
read_sliced-IsOver events socket capacity a t = elim (Bool-cases t.shutdown_requested) [
  | inl y ↦ simp y ((omega arith, refl), λ e. cc)
  | inr n ↦ elim (Bool-cases (has_trouble events)) [
    | inl y ↦ simp (n, y) ((omega arith, refl), λ e. cc)
    | inr o ↦
        let others = run_commands a.others_behind t in
        let over : IsOver (record {
          transport = others.transport;
          calls = receives socket (min capacity (2 ^ 31 - 1)) ∷ others.calls;
          reply = on_received a.received others.transport.shutdown_requested;
        }) =
          (
            Brief-append 0 0 (receives socket (min capacity (2 ^ 31 - 1)) ∷ []) others.calls
                (omega arith, refl) (run_commands-Brief t a.others_behind),
            on_received-ends a.received others.transport.shutdown_requested,
          ) in
        simp (n, o) over
  ]
]

behind_slices-IsOver :
    (end : SliceEnd) (socket capacity : ℕ) (a : SlicedArrival) (t : UdpTransport)
    → end ≢ ended still_waits
    → IsOver (behind_slices end socket capacity a t)
unfolding behind_slices
behind_slices-IsOver (ended reply) socket capacity a t h =
    ((omega arith, refl), λ e. h (ap (λ (r : Reply). ended r) e))
behind_slices-IsOver (readable events) socket capacity a t h =
    let others = run_commands a.others t in
    let (b, over) = read_sliced-IsOver events socket capacity a others.transport in
    (Brief-append 0 0 others.calls _ (run_commands-Brief t a.others) b, over)

-- a wait that has ended, after at most `n` slices
abbrev Stops : ℕ → Sliced → Type 0
Stops n sliced = Brief n sliced.calls × (sliced.end ≢ ended still_waits)

on_slice-Stops :
    (n : ℕ) (answer : SliceAnswer) (checked_at deadline : ℕ) (t : UdpTransport) (again : Sliced)
    → Stops n again
    → Stops n (on_slice answer checked_at deadline t again)
unfolding on_slice
on_slice-Stops n (slice_failed interrupted) checked_at deadline t again h =
    ((omega arith, refl), λ e. cc)
on_slice-Stops n (slice_failed shut) checked_at deadline t again h = ((omega arith, refl), λ e. cc)
on_slice-Stops n (slice_failed (failure code)) checked_at deadline t again h =
    ((omega arith, refl), λ e. cc)
on_slice-Stops n (ready events) checked_at deadline t again h = ((omega arith, refl), λ e. cc)
on_slice-Stops n nothing_ready checked_at deadline t again h =
    elim (Bool-cases (leb deadline checked_at)) [
      | inl y ↦ simp y ((omega arith, refl), λ e. cc)
      | inr o ↦ simp o h
    ]

is_short : ℤ → Bool
is_short m = leb_ℤ (pos 0) m && leb_ℤ m (pos 50)

cut_short :
    (m : ℤ) → leb_ℤ (pos 0) m ≡ true → is_short (if leb_ℤ (pos 50) m then pos 50 else m) ≡ true
unfolding is_short
cut_short m h = ground arith

module _ (F : Floats) (L : LongFloats F.Double) (I : IntFloats F.Double)
    (not_negative : NotNegative F I) where
  open F use {Double, le, mul, of_nat, of_ticks}
  open I use {ceil}

  ticks_timeout : (n : ℕ) → leb_ℤ (pos 0) (timeout_milliseconds F L I (of_ticks n)) ≡ true
  unfolding timeout_milliseconds
  ticks_timeout n =
      elim (Bool-cases (le (of_nat (2 ^ 31 - 1)) (ceil (mul (of_ticks n) (of_nat 1000))))) [
        | inl y ↦ rw y refl
        | inr o ↦ rw o (not_negative n o)
      ]

  poll_timeout-ticks : (deadline now : ℕ) → (n : ℕ) × (poll_timeout F L I deadline now ≡ of_ticks n)
  unfolding poll_timeout
  poll_timeout-ticks deadline now = elim (Bool-cases (ltb now deadline)) [
    | inr o ↦ (0, rw o refl)
    | inl y ↦ elim (Bool-cases (F.lt (of_ticks 50000000) (of_ticks (deadline - now)))) [
      | inl z ↦ (50000000, rw (y, z) refl)
      | inr o ↦ (deadline - now, rw (y, o) refl)
    ]
  ]

  slice_milliseconds-is_short :
      (deadline now : ℕ) → is_short (slice_milliseconds F L I deadline now) ≡ true
  unfolding slice_milliseconds
  slice_milliseconds-is_short deadline now =
      let (n, e) = poll_timeout-ticks deadline now in
      cut_short (timeout_milliseconds F L I (poll_timeout F L I deadline now))
        (rw e (ticks_timeout n))

  Brief-slice :
      (socket deadline now n : ℕ) (a b : List Call)
      → Brief 0 a
      → Brief n b
      → Brief (suc n) (a ++ (polls socket (slice_milliseconds F L I deadline now) ∷ b))
  unfolding is_short
  Brief-slice socket deadline now n a b (w, l) (v, k) =
      let m = slice_milliseconds F L I deadline now in
      let short : is_short m ≡ true = slice_milliseconds-is_short deadline now in
      (
        omega (arith, w, v, total-append waits a (polls socket m ∷ b)),
        ground (arith, short, l, k, total-append long_waits a (polls socket m ∷ b)),
      )

  wait_in_slices-Stops :
      (socket deadline : ℕ) (before : List Slice) (slice : Slice) (after : List Slice)
      (t : UdpTransport)
      → (behind (before ++ (slice ∷ [])) t).shutdown_requested ≡ true
      → Stops (length before) (wait_in_slices F L I socket deadline (before ++ (slice ∷ after)) t)
  unfolding wait_in_slices
  wait_in_slices-Stops socket deadline [] slice after t h =
      simp h (run_commands-Brief t slice.others, λ e. cc)
  wait_in_slices-Stops socket deadline (first ∷ before) slice after t h =
      let others = run_commands first.others t in
      let b = run_commands-Brief t first.others in
      let again =
        wait_in_slices F L I socket deadline (before ++ (slice ∷ after)) others.transport in
      let (c, over) =
        on_slice-Stops (length before) first.answer first.checked_at deadline others.transport again
          (wait_in_slices-Stops socket deadline before slice after others.transport h) in
      elim (Bool-cases others.transport.shutdown_requested) [
        | inl y ↦ simp y ((omega (arith, b), b.1), λ e. cc)
        | inr n ↦
            let whole = Brief-slice socket deadline first.now (length before) others.calls _ b c in
            simp n (whole, over)
      ]

  sliced_until-IsOver :
      (until : Result TimeError ℕ) (socket capacity : ℕ) (a : SlicedArrival) (before : List Slice)
      (slice : Slice) (after : List Slice) (t : UdpTransport)
      → a.slices ≡ before ++ (slice ∷ after)
      → (behind (before ++ (slice ∷ [])) t).shutdown_requested ≡ true
      → let done = sliced_until F L I until socket capacity a t in
        Brief (length before) done.calls × (done.reply ≢ still_waits)
  unfolding sliced_until
  sliced_until-IsOver (err error) socket capacity a before slice after t s h =
      ((omega arith, refl), λ e. cc)
  sliced_until-IsOver (ok deadline) socket capacity a before slice after t s h =
      let sliced = wait_in_slices F L I socket deadline a.slices t in
      let done = behind_slices sliced.end socket capacity a sliced.transport in
      let stops : Stops (length before) sliced =
        rw s (wait_in_slices-Stops socket deadline before slice after t h) in
      let (b, over) = behind_slices-IsOver sliced.end socket capacity a sliced.transport stops.1 in
      (
        (
          omega (arith, stops.0, b, total-append waits sliced.calls done.calls),
          omega (arith, stops.0, b, total-append long_waits sliced.calls done.calls),
        ),
        over,
      )

  sliced_on-IsOver :
      (socket : Option ℕ) (capacity : ℕ) (timeout : Double) (a : SlicedArrival)
      (before : List Slice) (slice : Slice) (after : List Slice) (t : UdpTransport)
      → a.slices ≡ before ++ (slice ∷ after)
      → (behind (before ++ (slice ∷ [])) t).shutdown_requested ≡ true
      → let done = sliced_on F L I socket capacity timeout a t in
        Brief (length before) done.calls × (done.reply ≢ still_waits)
  unfolding sliced_on
  sliced_on-IsOver none capacity timeout a before slice after t s h = ((omega arith, refl), λ e. cc)
  sliced_on-IsOver (some k) capacity timeout a before slice after t s h =
      let over =
        sliced_until-IsOver (checked_deadline L a.started_at timeout) k capacity a before slice
          after t s h in
      elim (Bool-cases t.shutdown_requested) [
        | inl y ↦ simp y ((omega arith, refl), λ e. cc)
        | inr n ↦ simp n over
      ]

  -- When the transport is shut down before a round of the wait on Windows, however the system has
  -- answered and whatever other threads did before, `receive` ends without that round's wait: it has
  -- waited at most once for each round before, and never for more than 50 milliseconds at a time or
  -- without end, provided that a number of ticks in milliseconds, where it fits an `int`, is not
  -- negative.
  pub receive_stops :
      (capacity : ℕ) (timeout : Double) (a : SlicedArrival) (before : List Slice) (slice : Slice)
      (after : List Slice) (t : UdpTransport)
      → a.slices ≡ before ++ (slice ∷ after)
      → (behind (before ++ (slice ∷ [])) t).shutdown_requested ≡ true
      → let done = receive F L I capacity timeout a t in
        (total waits done.calls ≤ length before)
        × (total long_waits done.calls ≡ 0)
        × (done.reply ≢ still_waits)
  unfolding receive
  receive_stops capacity timeout a before slice after t s h =
      let (b, over) = sliced_on-IsOver t.socket capacity timeout a before slice after t s h in
      (b.0, b.1, over)
