-- ===== src/Tests/Reconnects.antt =====
-- The ReconnectClient at concrete values.
use mqtt_go.Base.{
  ◌*◌, ◌≡◌, ◌↔◌, refl, true, false, not, ◌&&◌, ◌||◌, List, [], ◌∷◌, ◌++◌, none, some, suc, arith,
  if◌then◌else◌,
}
use mqtt_go.Errors.{sentinel, closed_transport}
use mqtt_go.RetryClient.{resubscribing, retrying}
use mqtt_go.RetryClient.Loop.Operations.{new_system}
use mqtt_go.RetryClient.Loop.Invariant.{new_system-Invariant}
use mqtt_go.Reconnect.{
  ReconnectOptions, elapsed, user_cancelled, Round, no_dial, connects, base_done, Reconnecting,
  returned, run_rounds, start, made_actions, act_all, one_second,
}
use mqtt_go.Reconnect.Waiting.{GoesOnWith, streak, all_waits, run_rounds-backoff}
use mqtt_go.Reconnect.Ending.{EndsAt, run_rounds-returned_iff}
use mqtt_go.Reconnect.Queueing.{ComesTo, done_well, made_actions-ComesTo}
use mqtt_go.Tests.Requests.{client}

abbrev options : ReconnectOptions
options = record {
  connect_options = [];
  timeout = 0;
  reconnect_wait_base = one_second;
  reconnect_wait_max = 10 * one_second;
  ping_interval = 0;
  retry_client = new_system client;
  always_resubscribe = false;
}

abbrev two_rounds : List Round
two_rounds =
    no_dial (sentinel closed_transport) none elapsed
    ∷ connects client true (base_done (some (sentinel closed_transport))) elapsed
    ∷ []

run_rounds-backoff_example :
    GoesOnWith options
      (streak 0 two_rounds)
      (all_waits options.reconnect_wait_base options.reconnect_wait_max 0 two_rounds)
      (run_rounds options two_rounds (start options))
run_rounds-backoff_example =
    run_rounds-backoff options two_rounds (omega arith) (omega arith) (refl, (refl, tt))

abbrev cancelled_rounds : List Round
cancelled_rounds =
    no_dial (sentinel closed_transport) none elapsed
    ∷ no_dial (sentinel closed_transport) none user_cancelled
    ∷ []

run_rounds-returned_iff_example :
    ((st : Reconnecting) × (run_rounds options cancelled_rounds (start options) ≡ returned st))
    ↔ EndsAt cancelled_rounds
run_rounds-returned_iff_example = run_rounds-returned_iff options cancelled_rounds

made_actions-ComesTo_example :
    ComesTo
      (suc (new_system client).current)
      done_well
      ((new_system client).task_queue
        ++ ((if true && (not false || options.always_resubscribe) then resubscribing ∷ [] else [])
            ++ retrying ∷ []))
      (act_all (made_actions options client false true) (new_system client))
unfolding new_system
made_actions-ComesTo_example =
    made_actions-ComesTo options client false true (new_system client) (new_system-Invariant client)
      refl
