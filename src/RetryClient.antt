-- ===== src/RetryClient.antt =====
-- retryclient.go: what the tasks of the RetryClient do, one after the other, in its goroutine. The
-- fields here are touched by the tasks alone.
-- A request on the BaseClient takes the next answer of the world: what its selects find. The context
-- of a task is context.Background(), which is never done.
pub mod Keeping
pub mod Repeating
pub mod Behind
pub mod Restoring
pub mod Loop
pub mod Lengthening
pub mod Carrying
pub mod Resending
pub mod Accounting
use mqtt_go.Base.{
  ℕ, suc, Bool, true, false, not, ◌&&◌, ltb, List, [], ◌∷◌, ◌++◌, Option, none, some, if◌then◌else◌,
  ◌==◌,
}
use mqtt_go.Base.Bits.{Bytes}
use mqtt_go.Base.Outcome.{Outcome, ok, err, panic, ◌>>=◌}
use mqtt_go.Errors.{Err, Go}
use mqtt_go.Message.{Message, Subscription, qos0}
use mqtt_go.Ack.{PktSubAck}
use mqtt_go.Publish.{validate_message}
use mqtt_go.Subscriptions.{subscribe_to, unsubscribe_from}
use mqtt_go.Serve.{Transport}
use mqtt_go.Client.{
  Client, Wake, Retry, retry_publish, retry_release, retry_subscribe, retry_unsubscribe, Result,
  finished, failed, failed_with, panicked, release, publish_impl, publish,
}
use mqtt_go.Client.Asking.{subscribe_impl, unsubscribe_impl}
use mqtt_go.Client.Connecting.{disconnect}

-- The functions in the retry queue, by what they close over: one that an error carried, and those
-- that publish, subscribe and unsubscribe put there. The flag is `retry` of subscribe. Those that
-- subscribe share the array of `subs`, which a SUBACK overwrites, and close over its number; the base
-- one is retrySubscribe. Those that publish share a message, whose identifier is set before a second one
-- of them is made, and whose DUP each sets before it is used: they close over its value.
pub data RetryFn : Type 0 where
  base : Retry → RetryFn
  base_subscribe : ℕ → RetryFn
  later_publish : Message → RetryFn
  later_subscribe : Bool → ℕ → RetryFn
  later_unsubscribe : List Bytes → RetryFn

-- What the selects of one request find.
pub record Answer : Type 0 where
  pub wake : Wake (Unit {0})
  pub wake2 : Wake (Unit {0})
  pub sub_wake : Wake PktSubAck

pub record World : Type 0 where
  pub transport : Transport
  pub answers : ℕ → Answer
  pub max_payload_len : ℕ

-- `requests` counts the answers that were used, `errors` are the calls of OnError, latest first.
pub record Queues : Type 0 where
  pub cli : Client
  pub retry_queue : List RetryFn
  pub sub_established : List Subscription
  pub new_retry_by_error : Bool
  pub requests : ℕ
  pub errors : List Err
  pub total_retries : ℕ
  pub arrays : ℕ → List Subscription
  pub next_array : ℕ

-- The array with the number is overwritten.
abbrev pub overwritten : ℕ → List Subscription → Queues → Queues
overwritten a subs q = record q { arrays = λ b. if b == a then subs else q.arrays b }

-- An array of its own.
abbrev pub new_array : List Subscription → Queues → Queues
new_array subs q = record (overwritten q.next_array subs q) { next_array = suc q.next_array }

-- The state after a request that left the client `c`.
abbrev pub used : Client → Queues → Queues
used c q = record q { cli = c; requests = suc q.requests }

-- `if err := …; err != nil { … }` behind a request; `dropped` says that a retry is not queued.
abbrev pub after_request : {A : Type 0} → Bool → Result A → Queues → Go Queues
after_request dropped (finished a) q = ok q
after_request dropped (failed e) q = ok (record q { errors = e ∷ q.errors })
after_request dropped (failed_with e r) q =
    if dropped
    then ok (record q { errors = e ∷ q.errors })
    else ok (record q {
      errors = e ∷ q.errors;
      retry_queue = q.retry_queue ++ base r ∷ [];
      new_retry_by_error = true;
    })
after_request dropped panicked q = panic

-- The closure `publish` of RetryClient.publish.
unfoldable pub publish_now : World → Bool → Message → Queues → Go Queues
publish_now w cancelled m q =
    let a = w.answers q.requests in
    let (m', r) = publish w.max_payload_len w.transport a.wake a.wake2 m q.cli in
    after_request cancelled r.1 (used r.0 q)

abbrev pub is_empty {ℓ} : {A : Type ℓ} → List A → Bool
is_empty [] = true
is_empty (x ∷ xs) = false

abbrev pub is_none {ℓ} : {A : Type ℓ} → Option A → Bool
is_none none = true
is_none (some a) = false

-- `RetryClient.publish`; behind a queue, a message of QoS 0 is given up.
unfoldable pub publish_queued : World → Bool → Message → Queues → Go Queues
publish_queued w cancelled m q =
    if not (is_none (validate_message w.max_payload_len m))
    then ok q
    else if is_empty q.retry_queue
    then publish_now w cancelled m q
    else if ltb qos0 m.qos
    then ok (record q { retry_queue = q.retry_queue ++ later_publish m ∷ [] })
    else ok q

-- The same behind Subscribe with the array of the number; the result is its new contents.
abbrev pub after_subscribe : Bool → ℕ → Result (List Subscription) → Queues → Go Queues
after_subscribe dropped a (finished subs) q = ok (overwritten a subs q)
after_subscribe dropped a (failed e) q = ok (record q { errors = e ∷ q.errors })
after_subscribe dropped a (failed_with e r) q =
    if dropped
    then ok (record q { errors = e ∷ q.errors })
    else ok (record q {
      errors = e ∷ q.errors;
      retry_queue = q.retry_queue ++ base_subscribe a ∷ [];
      new_retry_by_error = true;
    })
after_subscribe dropped a panicked q = panic

-- The closure `subscribe` of RetryClient.subscribe.
unfoldable pub subscribe_now : World → Bool → Bool → ℕ → Queues → Go Queues
subscribe_now w cancelled retry a q =
    let q' = record q { sub_established = subscribe_to (q.arrays a) q.sub_established } in
    let r = subscribe_impl w.transport (w.answers q.requests).sub_wake (q.arrays a) q.cli in
    after_subscribe (cancelled && not retry) a r.1 (used r.0 q')

unfoldable pub subscribe_queued : World → Bool → Bool → List Subscription → Queues → Go Queues
subscribe_queued w cancelled retry subs q =
    let q' = new_array subs q in
    if is_empty q.retry_queue
    then subscribe_now w cancelled retry q.next_array q'
    else ok (record q' { retry_queue = q.retry_queue ++ later_subscribe retry q.next_array ∷ [] })

-- The closure `unsubscribe` of RetryClient.unsubscribe.
unfoldable pub unsubscribe_now : World → Bool → List Bytes → Queues → Go Queues
unsubscribe_now w cancelled topics q = unsubscribe_from topics q.sub_established >>= λ d.
    let r = unsubscribe_impl w.transport (w.answers q.requests).wake topics q.cli in
    after_request cancelled r.1 (used r.0 (record q { sub_established = d }))

unfoldable pub unsubscribe_queued : World → Bool → List Bytes → Queues → Go Queues
unsubscribe_queued w cancelled topics q =
    if is_empty q.retry_queue
    then unsubscribe_now w cancelled topics q
    else ok (record q { retry_queue = q.retry_queue ++ later_unsubscribe topics ∷ [] })

-- The value of a request is not used.
abbrev pub forget : {A : Type 0} → Result A → Result (Unit {0})
forget (finished a) = finished tt
forget (failed e) = failed e
forget (failed_with e r) = failed_with e r
forget panicked = panicked

-- `retryErr.Retry(ctx, cli)`
unfoldable pub run_retry : Transport → Answer → Retry → Client → Client × Result (Unit {0})
run_retry t a (retry_publish m) c = (publish_impl t a.wake a.wake2 m true c).1
run_retry t a (retry_release m) c = release t a.wake m c
run_retry t a (retry_subscribe subs) c =
    let r = subscribe_impl t a.sub_wake subs c in (r.0, forget r.1)
run_retry t a (retry_unsubscribe topics) c = unsubscribe_impl t a.wake topics c

-- What the loop of Retry learns: the state, the function as its run has left it, and the one to queue,
-- if the error carries one.
abbrev pub Ran : Type 0
Ran = Queues × RetryFn × Option RetryFn

abbrev pub retried : Retry → Result (Unit {0}) → Queues → Go Ran
retried f (finished a) q = ok (q, base f, none)
retried f (failed e) q = ok (q, base f, none)
retried f (failed_with e r) q = ok (q, base f, some (base r))
retried f panicked q = panic

abbrev pub subscribed_again : ℕ → Result (List Subscription) → Queues → Go Ran
subscribed_again a (finished subs) q = ok (overwritten a subs q, base_subscribe a, none)
subscribed_again a (failed e) q = ok (q, base_subscribe a, none)
subscribed_again a (failed_with e r) q = ok (q, base_subscribe a, some (base_subscribe a))
subscribed_again a panicked q = panic

-- The message behind Publish, which sets its identifier.
abbrev pub published_message : World → Message → Queues → Message
published_message w m q =
    let a = w.answers q.requests in (publish w.max_payload_len w.transport a.wake a.wake2 m q.cli).0

-- `err := retry(ctx, cli)`; the closures of this file return nil.
unfoldable pub run_fn : World → RetryFn → Queues → Go Ran
run_fn w (base r) q =
    let a = run_retry w.transport (w.answers q.requests) r q.cli in retried r a.1 (used a.0 q)
run_fn w (base_subscribe a) q =
    let r = subscribe_impl w.transport (w.answers q.requests).sub_wake (q.arrays a) q.cli in
    subscribed_again a r.1 (used r.0 q)
run_fn w (later_publish m) q =
    publish_now w false m q >>= λ q'. ok (q', later_publish (published_message w m q), none)
run_fn w (later_subscribe retry a) q =
    subscribe_now w false retry a q >>= λ q'. ok (q', later_subscribe retry a, none)
run_fn w (later_unsubscribe topics) q =
    unsubscribe_now w false topics q >>= λ q'. ok (q', later_unsubscribe topics, none)

abbrev pub counted : Queues → Queues
counted q = record q { total_retries = suc q.total_retries }

-- `break`, with the old queue behind what is queued now, or the next round.
abbrev pub or_break : List RetryFn → List RetryFn → Ran → (Queues → RetryFn → Go Queues) → Go Queues
or_break done fs (q, f, none) next = next q f
or_break done fs (q, f, some again) next =
    ok (record q { retry_queue = (q.retry_queue ++ again ∷ []) ++ (done ++ f ∷ fs) })

-- The loop of Retry: of the old queue, `done` have run and `fs` are left.
unfoldable pub retry_all : World → List RetryFn → List RetryFn → Queues → Go Queues
retry_all w done [] q = ok q
retry_all w done (f ∷ fs) q = run_fn w f (counted q) >>= λ r.
    or_break done fs r (λ q' f'. retry_all w (done ++ f' ∷ []) fs q')

-- The task of `Retry`.
unfoldable pub retry : World → Queues → Go Queues
retry w q = retry_all w [] q.retry_queue (record q { retry_queue = [] })

unfoldable pub subscribe_each : World → List Subscription → Queues → Go Queues
subscribe_each w [] q = ok q
subscribe_each w (sub ∷ subs) q =
    subscribe_queued w false true (sub ∷ []) q >>= λ q'. subscribe_each w subs q'

-- The task of `Resubscribe`.
unfoldable pub resubscribe : World → Queues → Go Queues
resubscribe w q = subscribe_each w q.sub_established (record q { sub_established = [] })

-- The task of `Disconnect`.
unfoldable pub leave : World → Queues → Go Queues
leave w q = let r = disconnect w.transport q.cli in after_request true r.1 (record q { cli = r.0 })

-- The functions in the task queue, by what they close over.
pub data Task : Type 0 where
  publishing : Message → Task
  subscribing : List Subscription → Task
  unsubscribing : List Bytes → Task
  leaving : Task
  resubscribing : Task
  retrying : Task

unfoldable pub run_task : World → Task → Queues → Go Queues
run_task w (publishing m) q = publish_queued w false m q
run_task w (subscribing subs) q = subscribe_queued w false false subs q
run_task w (unsubscribing topics) q = unsubscribe_queued w false topics q
run_task w leaving q = leave w q
run_task w resubscribing q = resubscribe w q
run_task w retrying q = retry w q

-- A task gets the client that the loop takes for it, and the flag is reset before.
abbrev pub given : Client → Queues → Queues
given c q = record q { cli = c; new_retry_by_error = false }

-- Tasks one after the other, each with a client, whatever the loop does to the clients in between.
unfoldable pub run_tasks : World → List (Client × Task) → Queues → Go Queues
run_tasks w [] q = ok q
run_tasks w ((c, t) ∷ ts) q = run_task w t (given c q) >>= run_tasks w ts
