-- ===== src/RetryClient/Lengthening.antt =====
-- retryclient.go: every task but that of Retry leaves the retry queue in place and only adds to its end.
use mqtt_go.Base.{
  ℕ, ◌≡◌, refl, sym, ap, ◌∙◌, Bool, true, false, ltb, List, [], ◌∷◌, ◌++◌, append-nil, append_assoc,
  not, if◌then◌else◌,
}
use mathlib.Core.Path.{subst}
use mqtt_go.Base.Bits.{Bytes}
use mqtt_go.Base.Outcome.{ok, err, panic, OnOk, >>=-OnOk}
use mqtt_go.Errors.{Go}
use mqtt_go.Message.{Message, Subscription, qos0}
use mqtt_go.Publish.{validate_message}
use mqtt_go.Subscriptions.{subscribe_to, unsubscribe_from}
use mqtt_go.Client.{Client, Result, finished, failed, failed_with, panicked}
use mqtt_go.Client.Asking.{subscribe_impl}
use mqtt_go.RetryClient.{
  base_subscribe, after_subscribe, new_array, Ran, subscribed_again, RetryFn, base, later_publish,
  later_subscribe, later_unsubscribe, World, Queues, used, after_request, is_empty, is_none,
  publish_now, publish_queued, subscribe_now, subscribe_queued, unsubscribe_now, unsubscribe_queued,
  run_retry, retried, run_fn, counted, subscribe_each, leave,
}
use mqtt_go.RetryClient.Repeating.{Completed}

-- The second queue is the first one with more at its end.
abbrev pub Grows : List RetryFn → List RetryFn → Type 0
Grows old new = (l : List RetryFn) × (new ≡ old ++ l)

Grows-refl : (old : List RetryFn) → Grows old old
Grows-refl old = ([], sym (append-nil old))

Grows-trans : (a b c : List RetryFn) → Grows a b → Grows b c → Grows a c
Grows-trans a b c (l, e) (l', e') = (l ++ l', e' ∙ ap (λ x. x ++ l') e ∙ append_assoc a l l')

-- The call leaves a longer queue.
abbrev pub Lengthens : List RetryFn → Go Queues → Type 0
Lengthens old out = OnOk (λ (q : Queues). Grows old q.retry_queue) out

Lengthens-then :
    (old mid : List RetryFn) (out : Go Queues)
    → Grows old mid
    → Lengthens mid out
    → Lengthens old out
Lengthens-then old mid panic g h = tt
Lengthens-then old mid (err e) g h = tt
Lengthens-then old mid (ok q) g h = Grows-trans old mid q.retry_queue g h

after_request-Lengthens :
    {A : Type 0} (dropped : Bool) (r : Result A) (q : Queues)
    → Lengthens q.retry_queue (after_request dropped r q)
after_request-Lengthens dropped (finished a) q = Grows-refl q.retry_queue
after_request-Lengthens dropped (failed e) q = Grows-refl q.retry_queue
after_request-Lengthens true (failed_with e r) q = Grows-refl q.retry_queue
after_request-Lengthens false (failed_with e r) q = (base r ∷ [], refl)
after_request-Lengthens dropped panicked q = tt

after_subscribe-Lengthens :
    (a : ℕ) (r : Result (List Subscription)) (q : Queues)
    → Lengthens q.retry_queue (after_subscribe false a r q)
after_subscribe-Lengthens a (finished subs) q = Grows-refl q.retry_queue
after_subscribe-Lengthens a (failed e) q = Grows-refl q.retry_queue
after_subscribe-Lengthens a (failed_with e r) q = (base_subscribe a ∷ [], refl)
after_subscribe-Lengthens a panicked q = tt

module _ (w : World) where
  publish_now-Lengthens :
      (m : Message) (q : Queues) → Lengthens q.retry_queue (publish_now w false m q)
  unfolding publish_now
  publish_now-Lengthens m q = after_request-Lengthens {A = Unit {0}} false _ (used _ q)

  pub publish_queued-Lengthens :
      (m : Message) (q : Queues) → Lengthens q.retry_queue (publish_queued w false m q)
  unfolding publish_queued
  publish_queued-Lengthens m q =
      branches (is_none (validate_message w.max_payload_len m)) (is_empty q.retry_queue)
        (ltb qos0 m.qos)
    where
      branches :
          (valid empty again : Bool)
          → Lengthens q.retry_queue (
              if not valid
              then ok q
              else if empty
              then publish_now w false m q
              else if again
              then ok (record q { retry_queue = q.retry_queue ++ later_publish m ∷ [] })
              else ok q)
      branches false empty again = Grows-refl q.retry_queue
      branches true true again = publish_now-Lengthens m q
      branches true false true = (later_publish m ∷ [], refl)
      branches true false false = Grows-refl q.retry_queue

  subscribe_now-Lengthens :
      (again : Bool) (a : ℕ) (q : Queues)
      → Lengthens q.retry_queue (subscribe_now w false again a q)
  unfolding subscribe_now
  subscribe_now-Lengthens again a q =
      after_subscribe-Lengthens a _
        (used _ (record q { sub_established = subscribe_to (q.arrays a) q.sub_established }))

  pub subscribe_queued-Lengthens :
      (again : Bool) (subs : List Subscription) (q : Queues)
      → Lengthens q.retry_queue (subscribe_queued w false again subs q)
  unfolding subscribe_queued
  subscribe_queued-Lengthens again subs q = branches (is_empty q.retry_queue)
    where
      branches :
          (empty : Bool)
          → Lengthens q.retry_queue (
              if empty
              then subscribe_now w false again q.next_array (new_array subs q)
              else ok (record (new_array subs q) {
                retry_queue = q.retry_queue ++ later_subscribe again q.next_array ∷ [];
              }))
      branches true = subscribe_now-Lengthens again q.next_array (new_array subs q)
      branches false = (later_subscribe again q.next_array ∷ [], refl)

  unsubscribe_now-Lengthens :
      (topics : List Bytes) (q : Queues)
      → Lengthens q.retry_queue (unsubscribe_now w false topics q)
  unfolding unsubscribe_now
  unsubscribe_now-Lengthens topics q =
      >>=-OnOk _ (unsubscribe_from topics q.sub_established) _ (λ d e.
        after_request-Lengthens {A = Unit {0}} false _ (used _ (record q { sub_established = d })))

  pub unsubscribe_queued-Lengthens :
      (topics : List Bytes) (q : Queues)
      → Lengthens q.retry_queue (unsubscribe_queued w false topics q)
  unfolding unsubscribe_queued
  unsubscribe_queued-Lengthens topics q = branches (is_empty q.retry_queue)
    where
      branches :
          (empty : Bool)
          → Lengthens q.retry_queue (
              if empty
              then unsubscribe_now w false topics q
              else ok (record q { retry_queue = q.retry_queue ++ later_unsubscribe topics ∷ [] }))
      branches true = unsubscribe_now-Lengthens topics q
      branches false = (later_unsubscribe topics ∷ [], refl)

  pub leave-Lengthens : (q : Queues) → Lengthens q.retry_queue (leave w q)
  unfolding leave
  leave-Lengthens q = after_request-Lengthens {A = Unit {0}} true _ (record q { cli = _ })

  pub subscribe_each-Lengthens :
      (subs : List Subscription) (q : Queues) → Lengthens q.retry_queue (subscribe_each w subs q)
  unfolding subscribe_each
  subscribe_each-Lengthens [] q = Grows-refl q.retry_queue
  subscribe_each-Lengthens (s ∷ subs) q =
      >>=-OnOk _ (subscribe_queued w false true (s ∷ []) q) _
        (λ q1 e. Lengthens-then _ _ _ (first q1 e) (subscribe_each-Lengthens subs q1))
    where
      first :
          (q1 : Queues)
          → subscribe_queued w false true (s ∷ []) q ≡ ok q1
          → Grows q.retry_queue q1.retry_queue
      first q1 e = subst (Lengthens q.retry_queue) e (subscribe_queued-Lengthens true (s ∷ []) q)

  run_fn-Lengthens :
      (f : RetryFn) (q : Queues)
      → OnOk (λ (r : Ran). Grows q.retry_queue r.0.retry_queue) (run_fn w f q)
  unfolding run_fn
  run_fn-Lengthens (base r) q = of_result (run_retry w.transport (w.answers q.requests) r q.cli).1 _
    where
      of_result :
          (x : Result (Unit {0})) (c : Client)
          → OnOk (λ (r : Ran). Grows q.retry_queue r.0.retry_queue) (retried r x (used c q))
      of_result (finished a) c = Grows-refl q.retry_queue
      of_result (failed e) c = Grows-refl q.retry_queue
      of_result (failed_with e r') c = Grows-refl q.retry_queue
      of_result panicked c = tt
  run_fn-Lengthens (base_subscribe a) q =
      of_result (subscribe_impl w.transport (w.answers q.requests).sub_wake (q.arrays a) q.cli).1 _
    where
      of_result :
          (x : Result (List Subscription)) (c : Client)
          → OnOk
              (λ (r : Ran). Grows q.retry_queue r.0.retry_queue)
              (subscribed_again a x (used c q))
      of_result (finished subs) c = Grows-refl q.retry_queue
      of_result (failed e) c = Grows-refl q.retry_queue
      of_result (failed_with e r) c = Grows-refl q.retry_queue
      of_result panicked c = tt
  run_fn-Lengthens (later_publish m) q =
      >>=-OnOk _ (publish_now w false m q) _
        (λ q1 e. subst (Lengthens q.retry_queue) e (publish_now-Lengthens m q))
  run_fn-Lengthens (later_subscribe again subs) q =
      >>=-OnOk _ (subscribe_now w false again subs q) _
        (λ q1 e. subst (Lengthens q.retry_queue) e (subscribe_now-Lengthens again subs q))
  run_fn-Lengthens (later_unsubscribe topics) q =
      >>=-OnOk _ (unsubscribe_now w false topics q) _
        (λ q1 e. subst (Lengthens q.retry_queue) e (unsubscribe_now-Lengthens topics q))

  pub Completed-Grows :
      {fs fs' : List RetryFn} {q q' : Queues}
      → Completed w fs fs' q q'
      → Grows q.retry_queue q'.retry_queue
  Completed-Grows (Completed.nothing {q}) = Grows-refl q.retry_queue
  Completed-Grows (Completed.then_run {f} {f'} {fs} {fs'} {q} {q1} {q'} run rest) =
      Grows-trans _ _ _
        (subst (OnOk (λ (r : Ran). Grows q.retry_queue r.0.retry_queue)) run
          (run_fn-Lengthens f (counted q)))
        (Completed-Grows rest)
