-- ===== src/Examples/Runs.antt =====
-- The worker's loops.
use netft_cpp.Base.{◌≡◌, refl, true, false, [], ◌∷◌, none, ok, err, arith}
use netft_cpp.Base.Text.{codes}
use netft_cpp.Client.Outcome.{SessionResult}
use netft_cpp.Client.Run.{Session, Turn, leaves, run, conclude}
use netft_cpp.Client.Run.Backoff.{Follows, conclude_reconnect}
use netft_cpp.Client.Run.Endings.{Finishes, run-Finishes, conclude_fail_stop, LeftBy}
use netft_cpp.Client.Session.{Round, datagram, ends, outcome, receive_loop}
use netft_cpp.Client.Session.Storm.{IsMalformed, after_malformed, receive_loop_storm}
use netft_cpp.Client.State.{Impl}
use netft_cpp.Examples.Fixtures.{config, configuration, impl}
use netft_cpp.Examples.Numbers.{Number, numbers, long_numbers, whole}
use netft_cpp.Types.{RecoveryPolicy}

-- three bytes arrive
abbrev bad_round : Round Number
bad_round = record {
  others = λ state. state;
  stopping = false;
  now = 6000;
  stopping_at_deadline = false;
  incoming = datagram 3 (1 ∷ 2 ∷ 3 ∷ []);
  stopping_in_catch = false;
  stopping_after_receive = false;
  stopping_when_empty = false;
  received_at = 6001;
}

bad_round-IsMalformed : IsMalformed numbers 7000 bad_round
bad_round-IsMalformed = record {
  alone = λ state. refl;
  going = refl;
  in_time = omega arith;
  size = 3;
  buffer = 1 ∷ 2 ∷ 3 ∷ [];
  arrives = refl;
  nonempty = omega arith;
  no_record = omega arith;
  still_going = refl;
}

abbrev after_eight : Impl Number
after_eight = record impl { consecutive_malformed = 8 }

receive_loop_storm_example :
    receive_loop numbers long_numbers none
      (bad_round ∷ bad_round ∷ bad_round ∷ [])
      after_eight
      7000
      true
    ≡ ends (after_malformed numbers 2 after_eight) (outcome SessionResult.malformed_storm [] true)
receive_loop_storm_example =
    receive_loop_storm numbers long_numbers none 7000 true (bad_round ∷ bad_round ∷ [])
      (bad_round ∷ []) after_eight (bad_round-IsMalformed, (bad_round-IsMalformed, tt))
      (omega arith) (omega arith)

-- the transport cannot be connected
abbrev session : Session Number
session = record {
  stopping_first = false;
  discover_sensor = λ options. ok configuration;
  stopping_in_discovery = false;
  stopping_second = false;
  connected = err (codes "no route");
  stopping_third = false;
  sent = ok tt;
  stopping_in_catch = false;
  started_at = 5000;
  rounds = [];
}

abbrev turn : Turn Number
turn = record {
  stopping = false;
  session = session;
  stopping_behind = false;
  waits_at = 6000;
  stopping_in_handler = false;
  thrown = [];
}

run-Finishes_example :
    Finishes numbers long_numbers none
      (run numbers long_numbers none (turn ∷ record turn { stopping = true } ∷ []) impl)
run-Finishes_example =
    run-Finishes numbers long_numbers none (turn ∷ record turn { stopping = true } ∷ []) impl

abbrev strict : Impl Number
strict = record impl { config = record config { recovery_policy = RecoveryPolicy.fail_stop } }

conclude_fail_stop_example :
    (next : Impl Number) × (conclude numbers long_numbers none turn
        (outcome SessionResult.timeout [] true)
        strict
        (whole 1)
      ≡ leaves next)
    × LeftBy SessionResult.timeout strict next
conclude_fail_stop_example =
    conclude_fail_stop numbers long_numbers none turn (outcome SessionResult.timeout [] true) strict
      (whole 1) refl refl

conclude_reconnect_example :
    Follows numbers long_numbers none turn SessionResult.timeout impl (whole 4) (
      conclude numbers long_numbers none turn
        (outcome SessionResult.timeout [] false)
        impl
        (whole 4))
conclude_reconnect_example =
    conclude_reconnect numbers long_numbers none turn (outcome SessionResult.timeout [] false) impl
      (whole 4) refl
