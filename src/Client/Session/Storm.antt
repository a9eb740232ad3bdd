-- ===== src/Client/Session/Storm.antt =====
-- Malformed datagrams in a row.
use netft_cpp.Base.{
  ℕ, ◌+◌, ◌<◌, ◌≡◌, ◌≢◌, ◌^◌, ◌∙◌, refl, ap, Bool, true, false, List, [], ◌∷◌, ◌++◌, Option, length,
  u64, arith, leb, ◌==◌, All,
}
use netft_cpp.Base.Text.{Bytes}
use netft_cpp.Client.Delivery.{Callback}
use netft_cpp.Client.Outcome.{SessionResult}
use netft_cpp.Client.Session.{
  Round, datagram, continues, ends, outcome, receive_round, receive_loop, malformed_storm_threshold,
  go_on, count_malformed, on_decoded, on_incoming,
}
use netft_cpp.Client.State.{Impl}
use netft_cpp.Floats.{Floats, LongFloats}
use netft_cpp.Protocol.{decode_record}

module _ (F : Floats) where
  open F use {Double}

  -- A round in which a datagram arrives in time that is no record, and the client is not stopped.
  -- Other threads change nothing.
  pub record IsMalformed (deadline : ℕ) (round : Round Double) : Type 0 where
    pub alone : (impl : Impl Double) → round.others impl ≡ impl
    pub going : round.stopping ≡ false
    pub in_time : round.now < deadline
    pub size : ℕ
    pub buffer : Bytes
    pub arrives : round.incoming ≡ datagram size buffer
    pub nonempty : size ≢ 0
    pub no_record : size ≢ 36
    pub still_going : round.stopping_after_receive ≡ false

  -- The client after so many malformed datagrams.
  abbrev pub after_malformed : ℕ → Impl Double → Impl Double
  after_malformed n impl = record impl {
    health = record (impl.health) { malformed_count = u64 (impl.health.malformed_count + n) };
    consecutive_malformed = impl.consecutive_malformed + n;
  }

  module _ (L : LongFloats Double) (callback : Option (Callback Double)) where
    round_malformed :
        (deadline : ℕ) (received : Bool) (round : Round Double) (impl : Impl Double)
        → IsMalformed deadline round
        → receive_round F L callback round impl deadline received
          ≡ count_malformed impl deadline received
    unfolding receive_round on_incoming on_decoded decode_record
    round_malformed deadline received round impl h =
        let late : leb deadline round.now ≡ false = ground (arith, h.in_time) in
        let some_bytes : (h.size == 0) ≡ false = ground (arith, h.nonempty) in
        let not_36 : (h.size == 36) ≡ false = ground (arith, h.no_record) in
        rw (h.alone impl, h.going, late, h.arrives, h.still_going, some_bytes, not_36) refl

    after_malformed-suc :
        (n : ℕ) (impl : Impl Double)
        → after_malformed n (after_malformed 1 impl) ≡ after_malformed (n + 1) impl
    after_malformed-suc n impl =
        let total : u64 (u64 (impl.health.malformed_count + 1) + n)
            ≡ u64 (impl.health.malformed_count + (n + 1)) =
          omega arith in
        let row : impl.consecutive_malformed + 1 + n ≡ impl.consecutive_malformed + (n + 1) =
          omega arith in
        λ i. record impl {
          health = record (impl.health) { malformed_count = total i };
          consecutive_malformed = row i;
        }

    one_malformed :
        (deadline : ℕ) (received : Bool) (round : Round Double) (impl : Impl Double)
        → IsMalformed deadline round
        → impl.consecutive_malformed + 1 < malformed_storm_threshold
        → receive_round F L callback round impl deadline received
          ≡ continues (after_malformed 1 impl) deadline received
    unfolding count_malformed
    one_malformed deadline received round impl h few =
        let row : u64 (impl.consecutive_malformed + 1) ≡ impl.consecutive_malformed + 1 =
          omega arith in
        let going : leb malformed_storm_threshold (impl.consecutive_malformed + 1) ≡ false =
          ground arith in
        round_malformed deadline received round impl h ∙ rw (row, going) refl

    last_malformed :
        (deadline : ℕ) (received : Bool) (round : Round Double) (impl : Impl Double)
        → IsMalformed deadline round
        → impl.consecutive_malformed + 1 ≡ malformed_storm_threshold
        → receive_round F L callback round impl deadline received
          ≡ ends (after_malformed 1 impl) (outcome SessionResult.malformed_storm [] received)
    unfolding count_malformed
    last_malformed deadline received round impl h ten =
        let row : u64 (impl.consecutive_malformed + 1) ≡ impl.consecutive_malformed + 1 =
          omega arith in
        let over : leb malformed_storm_threshold (impl.consecutive_malformed + 1) ≡ true =
          ground arith in
        round_malformed deadline received round impl h ∙ rw (row, over) refl

    -- While malformed datagrams in a row, counted on from earlier ones, stay below ten, the loop goes
    -- on with the same deadline, and every one of them is counted.
    pub receive_loop_below_storm :
        (deadline : ℕ) (received : Bool) (rounds : List (Round Double)) (impl : Impl Double)
        → All (IsMalformed deadline) rounds
        → impl.health.malformed_count < 2 ^ 64
        → impl.consecutive_malformed + length rounds < malformed_storm_threshold
        → receive_loop F L callback rounds impl deadline received
          ≡ continues (after_malformed (length rounds) impl) deadline received
    unfolding receive_loop go_on
    receive_loop_below_storm deadline received [] impl h bounded few =
        let total : impl.health.malformed_count ≡ u64 (impl.health.malformed_count + 0) =
          omega arith in
        let row : impl.consecutive_malformed ≡ impl.consecutive_malformed + 0 = omega arith in
        λ i.
          continues
            (record impl {
              health = record (impl.health) { malformed_count = total i };
              consecutive_malformed = row i;
            })
            deadline received
    receive_loop_below_storm deadline received (round ∷ rounds) impl h bounded few =
        ap (go_on F L callback (receive_loop F L callback rounds))
          (one_malformed deadline received round impl h.0 (omega arith))
        ∙ receive_loop_below_storm deadline received rounds (after_malformed 1 impl) h.1
            (omega arith) (omega arith)
        ∙ ap (λ (next : Impl Double). continues next deadline received)
            (after_malformed-suc (length rounds) impl
              ∙ ap (λ (n : ℕ). after_malformed n impl) (omega arith))

    -- The tenth malformed datagram in a row, counted on from earlier ones, ends the session, whatever
    -- rounds would follow: the outcome is a malformed storm, and every one of them is counted.
    pub receive_loop_storm :
        (deadline : ℕ) (received : Bool) (rounds later : List (Round Double)) (impl : Impl Double)
        → All (IsMalformed deadline) rounds
        → impl.consecutive_malformed < malformed_storm_threshold
        → impl.consecutive_malformed + length rounds ≡ malformed_storm_threshold
        → receive_loop F L callback (rounds ++ later) impl deadline received
          ≡ ends
              (after_malformed (length rounds) impl)
              (outcome SessionResult.malformed_storm [] received)
    unfolding receive_loop go_on
    receive_loop_storm deadline received [] later impl h few ten = absurd (omega arith)
    receive_loop_storm deadline received (round ∷ []) later impl h few ten =
        ap (go_on F L callback (receive_loop F L callback later))
          (last_malformed deadline received round impl h.0 (omega arith))
    receive_loop_storm deadline received (round ∷ next ∷ rounds) later impl h few ten =
        ap (go_on F L callback (receive_loop F L callback (next ∷ (rounds ++ later))))
          (one_malformed deadline received round impl h.0 (omega arith))
        ∙ receive_loop_storm deadline received (next ∷ rounds) later (after_malformed 1 impl) h.1
            (omega arith) (omega arith)
        ∙ ap
            (λ (state : Impl Double).
              ends state (outcome SessionResult.malformed_storm [] received))
            (after_malformed-suc (length (next ∷ rounds)) impl
              ∙ ap (λ (n : ℕ). after_malformed n impl) (omega arith))
