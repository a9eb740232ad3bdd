-- ===== src/Client/Session.antt =====
-- The loop of `receive_session` in src/detail/client_impl.cpp. What a round meets is given by a record: each reading of the
-- clock and of `stopping_`, the transport's answer, and what other threads did to the client's state
-- since the round before. A list of rounds runs the loop that many times.
pub mod Storm
use netft_cpp.Base.{
  ℕ, ◌+◌, Bool, true, false, not, ◌&&◌, ◌||◌, List, [], ◌∷◌, Option, none, some, Result, ok, err,
  if◌then◌else◌, ◌==◌, leb, u64,
}
use netft_cpp.Base.Int.{pos}
use netft_cpp.Base.Text.{Bytes, codes, equal}
use netft_cpp.Client.Delivery.{Callback, Handled, handled, threw_logic_error, handle_record}
use netft_cpp.Client.Outcome.{SessionResult, fault_for, message_for}
use netft_cpp.Client.State.{Impl}
use netft_cpp.FaultLatch.{publish, faulted}
use netft_cpp.Floats.{Floats, LongFloats}
use netft_cpp.Protocol.{RawRecord, ProtocolError, decode_record}
use netft_cpp.Time.{TimeError, checked_deadline}
use netft_cpp.Types.{ClientState, RecoveryPolicy, HealthSnapshot}
use netft_cpp.Types.Faults.{FaultCode}

abbrev pub malformed_storm_threshold : ℕ
malformed_storm_threshold = 10

pub record SessionOutcome : Type 0 where
  pub result : SessionResult
  pub message : Bytes
  pub received_valid_record : Bool

-- The transport's answer: an exception with its text, or a datagram with its size and the buffer.
-- A size of 0 says that the time ran out.
pub data Incoming : Type 0 where
  receive_threw : Bytes → Incoming
  datagram : ℕ → Bytes → Incoming

-- What one round of the loop meets, in the order in which it meets it.
pub record Round (D : Type 0) : Type 0 where
  pub others : Impl D → Impl D
  pub stopping : Bool
  pub now : ℕ
  pub stopping_at_deadline : Bool
  pub incoming : Incoming
  pub stopping_in_catch : Bool
  pub stopping_after_receive : Bool
  pub stopping_when_empty : Bool
  pub received_at : ℕ

-- After a round the loop goes on, with its deadline and `received_valid_record`, or the function
-- returns, or an exception leaves it.
pub data LoopStep (D : Type 0) : Type 0 where
  continues : Impl D → ℕ → Bool → LoopStep D
  ends : Impl D → SessionOutcome → LoopStep D
  throws : Impl D → LoopStep D

abbrev pub outcome : SessionResult → Bytes → Bool → SessionOutcome
outcome result message received = record {
  result = result;
  message = message;
  received_valid_record = received;
}

module _ {D : Type 0} where
  -- under the data lock, when the time is over: `stopping_` is read once more
  time_out : Bool → Impl D → Bool → LoopStep D
  time_out true impl received = ends impl (outcome SessionResult.stopped [] received)
  time_out false impl received =
      ends
        (record impl {
          health = record (impl.health) { timeout_count = u64 (impl.health.timeout_count + 1) };
        })
        (outcome SessionResult.timeout [] received)

  -- the handler of a `ProtocolError`
  count_malformed : Impl D → ℕ → Bool → LoopStep D
  count_malformed impl deadline received =
      let consecutive = u64 (impl.consecutive_malformed + 1) in
      let next = record impl {
        health = record (impl.health) { malformed_count = u64 (impl.health.malformed_count + 1) };
        consecutive_malformed = consecutive;
      } in
      if leb malformed_storm_threshold consecutive
      then ends next (outcome SessionResult.malformed_storm [] received)
      else continues next deadline received

  -- by the end of `handle_record`, with the deadline that the record has set
  after_record : ℕ → Handled D → LoopStep D
  after_record deadline (threw_logic_error impl) = throws impl
  after_record deadline (handled impl none) = continues impl deadline true
  after_record deadline (handled impl (some result)) = ends impl (outcome result [] true)

module _ (F : Floats) (L : LongFloats F.Double) (callback : Option (Callback F.Double)) where
  open F use {Double, lt, mul, of_int}

  with_deadline : Result TimeError ℕ → RawRecord → ℕ → Impl Double → LoopStep Double
  unfolding after_record
  with_deadline (err e) r received_at impl = throws impl
  with_deadline (ok deadline) r received_at impl =
      after_record deadline (handle_record F callback impl r received_at)

  -- by what `decode_record` returns
  on_decoded : Result ProtocolError RawRecord → ℕ → Impl Double → ℕ → Bool → LoopStep Double
  unfolding with_deadline count_malformed
  on_decoded (err e) received_at impl deadline received = count_malformed impl deadline received
  on_decoded (ok r) received_at impl deadline received =
      with_deadline (checked_deadline L received_at impl.config.receive_timeout) r received_at
        (record impl { consecutive_malformed = 0 })

  on_incoming : Incoming → Round Double → Impl Double → ℕ → Bool → LoopStep Double
  unfolding on_decoded time_out
  on_incoming (receive_threw message) round impl deadline received = ends impl (
      outcome (if round.stopping_in_catch then SessionResult.stopped else SessionResult.socket)
        message received)
  on_incoming (datagram size buffer) round impl deadline received =
      if round.stopping_after_receive
      then ends impl (outcome SessionResult.stopped [] received)
      else if size == 0
      then time_out round.stopping_when_empty impl received
      else on_decoded (decode_record (some buffer) size) round.received_at impl deadline received

  -- The body of the `while` loop, its condition included.
  unfoldable pub receive_round : Round Double → Impl Double → ℕ → Bool → LoopStep Double
  unfolding on_incoming time_out
  receive_round round before deadline received =
      let impl = round.others before in
      if round.stopping
      then ends impl (outcome SessionResult.stopped [] received)
      else if leb deadline round.now
      then time_out round.stopping_at_deadline impl received
      else on_incoming round.incoming round impl deadline received

  go_on : (Impl Double → ℕ → Bool → LoopStep Double) → LoopStep Double → LoopStep Double
  go_on again (continues impl deadline received) = again impl deadline received
  go_on again (ends impl o) = ends impl o
  go_on again (throws impl) = throws impl

  unfoldable pub receive_loop : List (Round Double) → Impl Double → ℕ → Bool → LoopStep Double
  unfolding go_on
  receive_loop [] impl deadline received = continues impl deadline received
  receive_loop (round ∷ rounds) impl deadline received =
      go_on (receive_loop rounds) (receive_round round impl deadline received)
