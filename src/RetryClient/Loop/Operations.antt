-- ===== src/RetryClient/Loop/Operations.antt =====
-- The calls of the RetryClient (retryclient.go) on the state that they share with its goroutine.
-- SetClient, and each part of a call under the lock, is one step.
use mqtt_go.Base.{
  ℕ, suc, Bool, true, false, ◌&&◌, List, [], ◌∷◌, ◌++◌, length, Option, none, some, ◌==◌,
  if◌then◌else◌, String,
}
use mqtt_go.Base.Bits.{Bytes}
use mqtt_go.Base.Outcome.{ok, err, panic}
use mqtt_go.Errors.{Err, Go, sentinel, closed_client, wrap_error}
use mqtt_go.Message.{Message, Subscription, qos0}
use mqtt_go.Publish.{validate_message}
use mqtt_go.Client.{Client}
use mqtt_go.RetryClient.{
  World, Task, publishing, subscribing, unsubscribing, leaving, resubscribing, retrying,
}
use mqtt_go.RetryClient.Loop.{ChTask, absent, unconnected, System, update}

-- `select { case c.chTask <- struct{}{}: default: }`: a send on a closed channel panics, one on a nil
-- channel is never ready.
abbrev pub task_signalled : Option ChTask → Go (Option ChTask)
task_signalled none = ok none
task_signalled (some ch) = if ch.is_closed then panic else ok (some (record ch { token = true }))

abbrev pub enqueued : Task → Go (Option ChTask) → System → Go System
enqueued task (ok ch) s = ok (record s {
  ch_task = ch;
  task_queue = s.task_queue ++ task ∷ [];
  accepted = s.accepted ++ task ∷ [];
})
enqueued task (err e) s = err e
enqueued task panic s = panic

-- `pushTask`
unfoldable pub push_task : Task → System → Go System
push_task task s =
    if s.stopped then err (sentinel closed_client) else enqueued task (task_signalled s.ch_task) s

-- `wrapError(c.pushTask(…), …)`
abbrev pub wrap_pushed : String → Go System → Go System
wrap_pushed failure (ok s) = ok s
wrap_pushed failure (err e) = err (wrap_error e failure)
wrap_pushed failure panic = panic

-- `Publish` comes to the direct request of DirectlyPublishQoS0, on the client that stands there, or
-- to a task.
pub data Published : Type 0 where
  directly : ℕ → Published
  as_task : Go System → Published

abbrev pub checked : Option Err → Message → System → Go System
checked none m s = wrap_pushed "retryclient: publishing" (push_task (publishing m) s)
checked (some e) m s = err (wrap_error e "validating publishing message")

unfoldable pub publish_call : (ℕ → World) → Bool → Message → System → Published
publish_call w directly_qos0 m s =
    if directly_qos0 && m.qos == qos0
    then directly s.current
    else if s.current == 0
    then as_task (checked none m s)
    else as_task (checked (validate_message (w s.current).max_payload_len m) m s)

unfoldable pub subscribe_call : List Subscription → System → Go System
subscribe_call subs s = wrap_pushed "retryclient: subscribing" (push_task (subscribing subs) s)

unfoldable pub unsubscribe_call : List Bytes → System → Go System
unsubscribe_call topics s =
    wrap_pushed "retryclient: unsubscribing" (push_task (unsubscribing topics) s)

-- The error of pushTask is not used by Resubscribe and Retry.
abbrev pub ignoring_err : Go System → System → Go System
ignoring_err (ok s') s = ok s'
ignoring_err (err e) s = ok s
ignoring_err panic s = panic

unfoldable pub resubscribe_call : System → Go System
resubscribe_call s = ignoring_err (push_task resubscribing s) s

unfoldable pub retry_call : System → Go System
retry_call s = ignoring_err (push_task retrying s) s

abbrev pub close_task : Option ChTask → Go (Option ChTask)
close_task none = panic
close_task (some ch) = if ch.is_closed then panic else ok (some (record ch { is_closed = true }))

abbrev pub stopped_with : Go (Option ChTask) → System → Go System
stopped_with (ok ch) s = ok (record s { ch_task = ch; stopped = true })
stopped_with (err e) s = err e
stopped_with panic s = panic

-- The end of `Disconnect`, behind its pushTask: chTask is closed under the lock. Closing it twice, or
-- before SetClient has made it, panics.
unfoldable pub stop : System → Go System
stop s = stopped_with (close_task s.ch_task) s

-- `Disconnect` with no step between; what its pushTask returned is the error.
abbrev pub after_push : Go System → System → Option Err × Go System
after_push (ok s') s = (none, stop s')
after_push (err e) s = (some (wrap_error e "retryclient: disconnecting"), stop s)
after_push panic s = (none, panic)

unfoldable pub disconnect_call : System → Option Err × Go System
disconnect_call s = after_push (push_task leaving s) s

abbrev pub started : Option ChTask → System → System
started (some ch) s = s
started none s = record s {
  ch_task = some (record { token = false; is_closed = false });
  place = unconnected;
}

-- SetClient up to the test of chTask.
abbrev pub with_client : Client → System → System
with_client c s =
    let k = suc s.current in
    record s {
      current = k;
      clients = update s.clients k c;
      connect_errs = update s.connect_errs k (record { pending = none; is_closed = false });
      count_set_client = suc s.count_set_client;
    }

-- `SetClient`
unfoldable pub set_client : Client → System → System
set_client c s = started s.ch_task (with_client c s)

-- `Handle`
unfoldable pub handle_call : ℕ → System → System
handle_call h s =
    if s.current == 0
    then record s { handler = some h }
    else record s { handler = some h; handlers = update s.handlers s.current (some h) }

-- `Connect` up to the call of the client's Connect, with the client and the channel that it took.
unfoldable pub begin_connect : System → Go (ℕ × System)
begin_connect s =
    if s.current == 0
    then panic
    else ok (
      s.current,
      record s {
        handlers = update s.handlers s.current s.handler;
        count_connect = suc s.count_connect;
      },
    )

-- Behind the client's Connect: the error is sent, where the channel has room, and it is closed. A
-- channel that is closed already panics.
abbrev pub connect_reported : ℕ → Option Err → Bool → System → Go System
connect_reported k e true s = panic
connect_reported k none false s = ok (record s {
  connect_errs =
      update s.connect_errs k (record { pending = (s.connect_errs k).pending; is_closed = true });
})
connect_reported k (some e) false s = ok (record s {
  connect_errs = update s.connect_errs k (record { pending = some e; is_closed = true });
  count_connect_error = suc s.count_connect_error;
})

unfoldable pub end_connect : ℕ → Option Err → System → Go System
end_connect k e s = connect_reported k e (s.connect_errs k).is_closed s

-- `RetryStats`
pub record RetryStats : Type 0 where
  pub queued_tasks : ℕ
  pub queued_retries : ℕ
  pub total_tasks : ℕ
  pub total_retries : ℕ
  pub count_set_client : ℕ
  pub count_connect : ℕ
  pub count_connect_error : ℕ

-- `Stats`
unfoldable pub stats : System → RetryStats
stats s = record {
  queued_tasks = length s.task_queue;
  queued_retries = length s.queues.retry_queue;
  total_tasks = s.total_tasks;
  total_retries = s.queues.total_retries;
  count_set_client = s.count_set_client;
  count_connect = s.count_connect;
  count_connect_error = s.count_connect_error;
}

-- `&RetryClient{}`; a client that is not there is `nil`.
unfoldable pub new_system : Client → System
new_system nil = record {
  current = 0;
  clients = λ k. nil;
  handler = none;
  handlers = λ k. none;
  connect_errs = λ k. record { pending = none; is_closed = false };
  ch_task = none;
  stopped = false;
  task_queue = [];
  place = absent;
  queues = record {
    cli = nil;
    retry_queue = [];
    sub_established = [];
    new_retry_by_error = false;
    requests = 0;
    errors = [];
    total_retries = 0;
    arrays = λ a. [];
    next_array = 0;
  };
  total_tasks = 0;
  count_set_client = 0;
  count_connect = 0;
  count_connect_error = 0;
  accepted = [];
  taken = [];
}
