-- ===== src/Tests/Retries.antt =====
-- The RetryClient at concrete values.
use mqtt_go.Base.{ℕ, ◌≡◌, ◌≢◌, ◌⊎◌, ◌↔◌, refl, true, false, [], ◌∷◌, none, some}
use mqtt_go.Errors.{Go}
use mqtt_go.Base.Outcome.{err, ok, panic}
use mqtt_go.Publish.{validate_message, pack_publish, publish_header}
use mqtt_go.Packet.{append_string, append_bytes, append_uint16, pack, remaining_length}
use mqtt_go.Client.{
  publish_impl, publish_message, wrap_error_with_retry, Client, conn_closed, retry_publish,
}
use mqtt_go.RetryClient.{
  base, later_publish, World, Queues, Task, publishing, retrying, publish_queued, run_tasks,
  run_task, retry_all, run_fn, run_retry, retry, resubscribe,
}
use mqtt_go.RetryClient.Keeping.{Kept, publish_queued-Kept}
use mqtt_go.RetryClient.Repeating.{Retried, retry-Retried}
use mqtt_go.RetryClient.Restoring.{Restored, resubscribe-Restored}
use mqtt_go.RetryClient.Carrying.{Accounted, Runs}
use mqtt_go.RetryClient.Accounting.{published-Accounted}
use mqtt_go.RetryClient.Loop.{ChTask, unconnected, running, System, loop_step}
use mqtt_go.RetryClient.Loop.Operations.{new_system, set_client, push_task, stop}
use mqtt_go.RetryClient.Loop.Invariant.{Invariant}
use mqtt_go.RetryClient.Loop.Kept.{Move, Moves, moves-Invariant}
use mqtt_go.RetryClient.Loop.Panics.{calls-panic}
use mqtt_go.RetryClient.Loop.Progress.{Took, Within, taken_soon}
use mqtt_go.RetryClient.Loop.Losing.{Lost, switched-Lost}
use mqtt_go.Tests.Requests.{client, report, open_pipe}

abbrev world : World
world = record {
  transport = open_pipe;
  answers = λ n. record { wake = conn_closed; wake2 = conn_closed; sub_wake = conn_closed };
  max_payload_len = 0;
}

abbrev queues : Queues
queues = record {
  cli = client;
  retry_queue = [];
  sub_established =
      record { topic = b'a' ∷ []; qos = 1 } ∷ record { topic = b'b' ∷ []; qos = 0 } ∷ [];
  new_retry_by_error = false;
  requests = 0;
  errors = [];
  total_retries = 0;
  arrays = λ a. [];
  next_array = 0;
}

abbrev value_of : Go Queues → Queues
value_of panic = queues
value_of (err e) = queues
value_of (ok q) = q

report_valid : validate_message 0 report ≡ none
unfolding validate_message
report_valid = refl

publish_queued-Kept_example : Kept world report queues (publish_queued world false report queues)
publish_queued-Kept_example = publish_queued-Kept world report queues report_valid refl

abbrev behind : Queues
behind = record queues { retry_queue = base (retry_publish report) ∷ later_publish report ∷ [] }

retry-Retried_example :
    Retried world [] behind.retry_queue (record behind { retry_queue = [] }) (retry world behind)
retry-Retried_example = retry-Retried world behind

resubscribe-Restored_example :
    Restored world queues.sub_established
      (record queues { sub_established = [] })
      (resubscribe world queues)
resubscribe-Restored_example = resubscribe-Restored world queues

abbrev after_both : Queues
after_both =
    value_of (run_tasks world ((client, publishing report) ∷ (client, retrying) ∷ []) behind)

both_run :
    run_tasks world ((client, publishing report) ∷ (client, retrying) ∷ []) behind ≡ ok after_both
unfolding run_tasks run_task publish_queued retry retry_all run_fn run_retry publish_impl
    publish_message pack_publish publish_header validate_message append_string append_bytes
    append_uint16 pack remaining_length wrap_error_with_retry
both_run = refl

published-Accounted_example :
    Accounted world report
      (Runs world ((client, publishing report) ∷ (client, retrying) ∷ []) behind)
      after_both
published-Accounted_example =
    published-Accounted world report client ((client, retrying) ∷ []) behind after_both report_valid
      refl both_run

abbrev worlds : ℕ → World
worlds k = world

abbrev started_system : System
started_system = set_client client (new_system client)

abbrev pushed : System
pushed = record started_system {
  ch_task = some (record { token = true; is_closed = false });
  task_queue = retrying ∷ [];
  accepted = retrying ∷ [];
}

pushed_lem : push_task retrying started_system ≡ ok pushed
unfolding push_task set_client new_system
pushed_lem = refl

abbrev two_moves : Moves worlds (new_system client) pushed
two_moves =
    Moves.moves (Moves.moves Moves.stays (Move.sets client)) (Move.pushes retrying pushed_lem)

moves-Invariant_example : Invariant pushed
moves-Invariant_example = moves-Invariant worlds client two_moves

calls-panic_example :
    ((task : Task) → push_task task pushed ≢ panic)
    × ((stop pushed ≡ panic) ↔ ((pushed.ch_task ≡ none) ⊎ (pushed.stopped ≡ true)))
calls-panic_example = calls-panic worlds client two_moves

abbrev connected_system : System
connected_system = record pushed {
  place = unconnected;
  connect_errs = λ k. record { pending = none; is_closed = true };
}

connected_system-Invariant : Invariant connected_system
unfolding set_client new_system
connected_system-Invariant = record {
  kept = refl;
  counted = refl;
  awake = (_, refl);
  closed_by_stop = refl;
}

taken_soon_example : Within worlds 6 (Took connected_system.taken retrying) connected_system
unfolding set_client new_system
taken_soon_example =
    taken_soon worlds retrying [] connected_system connected_system-Invariant refl refl tt

abbrev channel : ChTask
channel = record { token = true; is_closed = false }

abbrev between : System
between = record (new_system client) {
  place = running;
  ch_task = some channel;
  task_queue = publishing report ∷ [];
}

abbrev unborn : Client
unborn = record client { sig = none }

switched-Lost_example :
    (s1 : System) × (s2 : System) × (loop_step worlds true
        (set_client unborn between).place
        (set_client unborn between)
      ≡ some s1)
    × (loop_step worlds true s1.place s1 ≡ some s2)
    × Lost [] between s2
unfolding new_system
switched-Lost_example =
    switched-Lost worlds true between unborn channel report [] refl refl refl report_valid refl refl
      refl
