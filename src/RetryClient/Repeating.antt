-- ===== src/RetryClient/Repeating.antt =====
-- retryclient.go, the task of `Retry`: which of the queued functions run, and what is queued again.
use mqtt_go.Base.{
  append_assoc, ◌∙◌, Option-cases, length, take, ℕ, zero, suc, ◌≡◌, ◌⊎◌, inl, inr, refl, ap, Bool,
  arith, true, false, List, [], ◌∷◌, ◌++◌, none, some,
}
use mqtt_go.Base.Bits.{Bytes}
use mqtt_go.Base.Outcome.{ok, err, panic, ◌>>=◌, Errless, >>=-Errless}
use mqtt_go.Errors.{Go}
use mqtt_go.Message.{Message, Subscription}
use mqtt_go.Subscriptions.{find_topic, overwrite, remove_topic, remove_topics, unsubscribe_from}
use mqtt_go.Client.{Retry, Result, finished, failed, failed_with, panicked}
use mqtt_go.RetryClient.{
  RetryFn, base, base_subscribe, later_publish, later_subscribe, later_unsubscribe, World, Queues,
  after_request, after_subscribe, publish_now, subscribe_now, unsubscribe_now, Ran, retried,
  subscribed_again, run_fn, counted, or_break, retry_all, retry,
}

after_request-Errless :
    {A : Type 0} (dropped : Bool) (r : Result A) (q : Queues) → Errless (after_request dropped r q)
after_request-Errless dropped (finished a) q = tt
after_request-Errless dropped (failed e) q = tt
after_request-Errless true (failed_with e r) q = tt
after_request-Errless false (failed_with e r) q = tt
after_request-Errless dropped panicked q = tt

after_subscribe-Errless :
    (a : ℕ) (r : Result (List Subscription)) (q : Queues) → Errless (after_subscribe false a r q)
after_subscribe-Errless a (finished subs) q = tt
after_subscribe-Errless a (failed e) q = tt
after_subscribe-Errless a (failed_with e r) q = tt
after_subscribe-Errless a panicked q = tt

overwrite-Errless : (i l : ℕ) (d : List Subscription) → Errless (overwrite i l d)
unfolding overwrite
overwrite-Errless i zero d = tt
overwrite-Errless i (suc l) d = ground arith

remove_topic-Errless :
    (topic : Bytes) (l : ℕ) (d : List Subscription) → Errless (remove_topic topic l d)
unfolding remove_topic
remove_topic-Errless topic l d = elim (Option-cases (find_topic 0 topic d)) [
  | inl e ↦ rw (e, remove_topic) tt
  | inr (i, e) ↦ rw (e, remove_topic) (overwrite-Errless i l d)
]

remove_topics-Errless :
    (s : List Bytes) (l : ℕ) (d : List Subscription) → Errless (remove_topics s l d)
unfolding remove_topics
remove_topics-Errless [] l d = tt
remove_topics-Errless (topic ∷ s) l d =
    >>=-Errless (remove_topic topic l d) (λ r. remove_topics s r.0 r.1)
      (remove_topic-Errless topic l d) (λ r. remove_topics-Errless s r.0 r.1)

unsubscribe_from-Errless : (s : List Bytes) (d : List Subscription) → Errless (unsubscribe_from s d)
unfolding unsubscribe_from
unsubscribe_from-Errless s d =
    >>=-Errless (remove_topics s (length d) d) (λ r. ok (take r.0 r.1))
      (remove_topics-Errless s (length d) d) (λ r. tt)

publish_now-Errless : (w : World) (m : Message) (q : Queues) → Errless (publish_now w false m q)
unfolding publish_now
publish_now-Errless w m q = after_request-Errless {A = Unit {0}} false _ _

subscribe_now-Errless :
    (w : World) (again : Bool) (a : ℕ) (q : Queues) → Errless (subscribe_now w false again a q)
unfolding subscribe_now
subscribe_now-Errless w again a q = after_subscribe-Errless a _ _

unsubscribe_now-Errless :
    (w : World) (topics : List Bytes) (q : Queues) → Errless (unsubscribe_now w false topics q)
unfolding unsubscribe_now
unsubscribe_now-Errless w topics q =
    >>=-Errless (unsubscribe_from topics q.sub_established) _
      (unsubscribe_from-Errless topics q.sub_established)
      (λ d. after_request-Errless {A = Unit {0}} false _ _)

retried-Errless : (f : Retry) (x : Result (Unit {0})) (q : Queues) → Errless (retried f x q)
retried-Errless f (finished a) q = tt
retried-Errless f (failed e) q = tt
retried-Errless f (failed_with e r) q = tt
retried-Errless f panicked q = tt

subscribed_again-Errless :
    (a : ℕ) (x : Result (List Subscription)) (q : Queues) → Errless (subscribed_again a x q)
subscribed_again-Errless a (finished subs) q = tt
subscribed_again-Errless a (failed e) q = tt
subscribed_again-Errless a (failed_with e r) q = tt
subscribed_again-Errless a panicked q = tt

run_fn-Errless : (w : World) (f : RetryFn) (q : Queues) → Errless (run_fn w f q)
unfolding run_fn
run_fn-Errless w (base r) q = retried-Errless r _ _
run_fn-Errless w (base_subscribe a) q = subscribed_again-Errless a _ _
run_fn-Errless w (later_publish m) q =
    >>=-Errless (publish_now w false m q) _ (publish_now-Errless w m q) (λ a. tt)
run_fn-Errless w (later_subscribe again a) q =
    >>=-Errless (subscribe_now w false again a q) _ (subscribe_now-Errless w again a q) (λ x. tt)
run_fn-Errless w (later_unsubscribe topics) q =
    >>=-Errless (unsubscribe_now w false topics q) _ (unsubscribe_now-Errless w topics q) (λ a. tt)

-- The functions ran one after the other, each to its end, from the first state to the second; the second
-- list is what their runs have left of them.
pub data Completed (w : World) : List RetryFn → List RetryFn → Queues → Queues → Type 0 where
  nothing : {q : Queues} → Completed w [] [] q q
  then_run :
      {f f' : RetryFn} {fs fs' : List RetryFn} {q q1 q' : Queues}
      → run_fn w f (counted q) ≡ ok (q1, f', none)
      → Completed w fs fs' q1 q'
      → Completed w (f ∷ fs) (f' ∷ fs') q q'

-- A function of the list that is reached with all before it completed.
pub record Reached (w : World) (fs : List RetryFn) (q : Queues) : Type 0 where
  pub before : List RetryFn
  pub left : List RetryFn
  pub this : RetryFn
  pub behind : List RetryFn
  pub at : Queues
  pub whole : fs ≡ before ++ this ∷ behind
  pub completed : Completed w before left q at

-- What becomes of the functions `fs`, behind those of the old queue that have run.
abbrev pub Retried : World → List RetryFn → List RetryFn → Queues → Go Queues → Type 0
Retried w done fs q out =
    ((q' : Queues) × (fs' : List RetryFn) × Completed w fs fs' q q' × (out ≡ ok q'))
    ⊎ (((s : Reached w fs q) × (q' : Queues) × (f' : RetryFn) × (again : RetryFn) × (run_fn w s.this
              (counted s.at)
            ≡ ok (q', f', some again))
          × (out
              ≡ ok (record q' {
                retry_queue = (q'.retry_queue ++ again ∷ []) ++ (done ++ (s.left ++ f' ∷ s.behind));
              })))
        ⊎ ((s : Reached w fs q) × (run_fn w s.this (counted s.at) ≡ panic) × (out ≡ panic)))

module _ (w : World) (f f1 : RetryFn) (fs : List RetryFn) (q q1 : Queues)
    (run : run_fn w f (counted q) ≡ ok (q1, f1, none)) where
  abbrev pub Reached-later : Reached w fs q1 → Reached w (f ∷ fs) q
  Reached-later s = record {
    before = f ∷ s.before;
    left = f1 ∷ s.left;
    this = s.this;
    behind = s.behind;
    at = s.at;
    whole = ap (λ l. f ∷ l) s.whole;
    completed = then_run run s.completed;
  }

  Retried-later :
      (done : List RetryFn) (out : Go Queues)
      → Retried w (done ++ f1 ∷ []) fs q1 out
      → Retried w done (f ∷ fs) q out
  Retried-later done out (inl (q', fs', c, e)) = inl (q', f1 ∷ fs', then_run run c, e)
  Retried-later done out (inr (inl (s, q', f', again, r, e))) = inr (
      inl (
        Reached-later s,
        q',
        f',
        again,
        r,
        e
            ∙ ap (λ l. ok (record q' { retry_queue = (q'.retry_queue ++ again ∷ []) ++ l }))
                (append_assoc done (f1 ∷ []) (s.left ++ f' ∷ s.behind)),
      ))
  Retried-later done out (inr (inr (s, stop, e))) = inr (inr (Reached-later s, stop, e))

abbrev pub here : (w : World) (f : RetryFn) (fs : List RetryFn) (q : Queues) → Reached w (f ∷ fs) q
here w f fs q = record {
  before = [];
  left = [];
  this = f;
  behind = fs;
  at = q;
  whole = refl;
  completed = nothing;
}

retry_all-Retried :
    (w : World) (done fs : List RetryFn) (q : Queues) → Retried w done fs q (retry_all w done fs q)
unfolding retry_all
retry_all-Retried w done [] q = inl (q, [], nothing, refl)
retry_all-Retried w done (f ∷ fs) q =
    by_run (run_fn w f (counted q)) refl (run_fn-Errless w f (counted q))
      (λ q1 f1. retry_all-Retried w (done ++ f1 ∷ []) fs q1)
  where
    by_run :
        (x : Go Ran)
        → run_fn w f (counted q) ≡ x
        → Errless x
        → ((q1 : Queues) (f1 : RetryFn)
            → Retried w (done ++ f1 ∷ []) fs q1 (retry_all w (done ++ f1 ∷ []) fs q1))
        → Retried w done
            (f ∷ fs)
            q
            (x >>= λ r. or_break done fs r (λ q' f'. retry_all w (done ++ f' ∷ []) fs q'))
    by_run panic e h k = inr (inr (here w f fs q, e, refl))
    by_run (err x) e h k = absurd h
    by_run (ok (q1, f1, none)) e h k = Retried-later w f f1 fs q q1 e done _ (k q1 f1)
    by_run (ok (q1, f1, some again)) e h k = inr (inl (here w f fs q, q1, f1, again, e, refl))

-- The task of Retry runs the queued functions in order, from an empty queue. Either all of them
-- return without an error to retry, or the first one that does not ends the loop, with its own retry
-- put in front of the whole old queue, as the runs have left it, so that the functions before it,
-- which have completed, are queued again; or the first one that panics ends the program.
pub retry-Retried :
    (w : World) (q : Queues)
    → Retried w [] q.retry_queue (record q { retry_queue = [] }) (retry w q)
unfolding retry
retry-Retried w q = retry_all-Retried w [] q.retry_queue _
