-- ===== src/Transport/Windows/Quiet.antt =====
-- The sliced `receive` opens and closes no descriptor by itself.
use netft_cpp.Base.{
  ℕ, ◌-◌, ◌^◌, min, refl, arith, List, [], ◌∷◌, Option, none, some, Result, ok, err, Bool-cases,
  inl, inr,
}
use netft_cpp.Floats.{Floats, LongFloats, IntFloats}
use netft_cpp.Time.{TimeError, checked_deadline}
use netft_cpp.Transport.{interrupted, shut, failure, UdpTransport, run_commands, polls, receives}
use netft_cpp.Transport.Descriptors.{Balances, Balances-append, Accounts, run_commands-Accounts}
use netft_cpp.Transport.Windows.{
  Events, SliceAnswer, slice_failed, nothing_ready, ready, Slice, SlicedArrival, SliceEnd, readable,
  ended, Sliced, has_trouble, read_sliced, behind_slices, on_slice, slice_milliseconds,
  wait_in_slices, sliced_until, sliced_on, receive,
}

read_sliced-Accounts :
    (s : ℕ) (events : Events) (socket capacity : ℕ) (a : SlicedArrival) (t : UdpTransport)
    → Accounts s t (read_sliced events socket capacity a t)
unfolding read_sliced
read_sliced-Accounts s events socket capacity a t = elim (Bool-cases t.shutdown_requested) [
  | inl y ↦ simp y refl
  | inr n ↦ elim (Bool-cases (has_trouble events)) [
    | inl y ↦ simp (n, y) refl
    | inr o ↦
        let others = run_commands a.others_behind t in
        let h =
          Balances-append s t.socket t.socket others.transport.socket
            (receives socket (min capacity (2 ^ 31 - 1)) ∷ []) others.calls refl
            (run_commands-Accounts s a.others_behind t) in
        simp (n, o) h
  ]
]

behind_slices-Accounts :
    (s : ℕ) (end : SliceEnd) (socket capacity : ℕ) (a : SlicedArrival) (t : UdpTransport)
    → Accounts s t (behind_slices end socket capacity a t)
unfolding behind_slices
behind_slices-Accounts s (ended reply) socket capacity a t = refl
behind_slices-Accounts s (readable events) socket capacity a t =
    let others = run_commands a.others t in
    let done = read_sliced events socket capacity a others.transport in
    Balances-append s t.socket others.transport.socket done.transport.socket others.calls done.calls
      (run_commands-Accounts s a.others t)
      (read_sliced-Accounts s events socket capacity a others.transport)

abbrev SliceAccounts : ℕ → UdpTransport → Sliced → Type 0
SliceAccounts s t sliced = Balances s t.socket sliced.calls sliced.transport.socket

on_slice-Accounts :
    (s : ℕ) (answer : SliceAnswer) (checked_at deadline : ℕ) (t : UdpTransport) (again : Sliced)
    → SliceAccounts s t again
    → SliceAccounts s t (on_slice answer checked_at deadline t again)
unfolding on_slice
on_slice-Accounts s (slice_failed interrupted) checked_at deadline t again h = refl
on_slice-Accounts s (slice_failed shut) checked_at deadline t again h = refl
on_slice-Accounts s (slice_failed (failure code)) checked_at deadline t again h = refl
on_slice-Accounts s (ready events) checked_at deadline t again h = refl
on_slice-Accounts s nothing_ready checked_at deadline t again h = ground (arith, h)

module _ (F : Floats) (L : LongFloats F.Double) (I : IntFloats F.Double) where
  open F use {Double}

  wait_in_slices-Accounts :
      (s : ℕ) (socket deadline : ℕ) (slices : List Slice) (t : UdpTransport)
      → SliceAccounts s t (wait_in_slices F L I socket deadline slices t)
  unfolding wait_in_slices
  wait_in_slices-Accounts s socket deadline [] t = refl
  wait_in_slices-Accounts s socket deadline (slice ∷ slices) t =
      let others = run_commands slice.others t in
      let again = wait_in_slices F L I socket deadline slices others.transport in
      let next = on_slice slice.answer slice.checked_at deadline others.transport again in
      let h = run_commands-Accounts s slice.others t in
      let rest =
        on_slice-Accounts s slice.answer slice.checked_at deadline others.transport again
          (wait_in_slices-Accounts s socket deadline slices others.transport) in
      elim (Bool-cases others.transport.shutdown_requested) [
        | inl y ↦ simp y h
        | inr n ↦
            let all =
              Balances-append s t.socket others.transport.socket next.transport.socket others.calls
                (polls socket (slice_milliseconds F L I deadline slice.now) ∷ next.calls) h
                (Balances-append s others.transport.socket others.transport.socket
                  next.transport.socket
                  (polls socket (slice_milliseconds F L I deadline slice.now) ∷ []) next.calls refl
                  rest) in
            simp n all
      ]

  sliced_until-Accounts :
      (s : ℕ) (until : Result TimeError ℕ) (socket capacity : ℕ) (a : SlicedArrival)
      (t : UdpTransport)
      → Accounts s t (sliced_until F L I until socket capacity a t)
  unfolding sliced_until
  sliced_until-Accounts s (err error) socket capacity a t = refl
  sliced_until-Accounts s (ok deadline) socket capacity a t =
      let sliced = wait_in_slices F L I socket deadline a.slices t in
      let done = behind_slices sliced.end socket capacity a sliced.transport in
      Balances-append s t.socket sliced.transport.socket done.transport.socket sliced.calls
        done.calls (wait_in_slices-Accounts s socket deadline a.slices t)
        (behind_slices-Accounts s sliced.end socket capacity a sliced.transport)

  sliced_on-Accounts :
      (s : ℕ) (socket : Option ℕ) (capacity : ℕ) (timeout : Double) (a : SlicedArrival)
      (t : UdpTransport)
      → Accounts s t (sliced_on F L I socket capacity timeout a t)
  unfolding sliced_on
  sliced_on-Accounts s none capacity timeout a t = refl
  sliced_on-Accounts s (some socket) capacity timeout a t =
      let h =
        sliced_until-Accounts s (checked_deadline L a.started_at timeout) socket capacity a t in
      elim (Bool-cases t.shutdown_requested) [ inl y ↦ simp y refl | inr n ↦ simp n h ]

  pub receive-Accounts :
      (s : ℕ) (capacity : ℕ) (timeout : Double) (a : SlicedArrival) (t : UdpTransport)
      → Accounts s t (receive F L I capacity timeout a t)
  unfolding receive
  receive-Accounts s capacity timeout a t = sliced_on-Accounts s t.socket capacity timeout a t
