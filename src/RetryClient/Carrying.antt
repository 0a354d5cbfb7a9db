-- ===== src/RetryClient/Carrying.antt =====
-- retryclient.go: which of the retry functions send a message, or the rest of its exchange, and where
-- a message stands after the tasks of a RetryClient.
use mqtt_go.Base.{◌≡◌, ◌⊎◌, inl, inr, sym, ap, ◌∙◌, Bool, List, [], ◌∷◌, ◌++◌}
use mathlib.Core.Path.{subst}
use mqtt_go.Base.Outcome.{ok}
use mqtt_go.Message.{Message}
use mqtt_go.Client.{Client, Result, finished, failed, failed_with, panicked}
use mqtt_go.Client.Retrying.{Repeats}
use mqtt_go.RetryClient.{
  RetryFn, base, base_subscribe, later_publish, later_subscribe, later_unsubscribe, World, Queues,
  run_retry, counted, Task, publishing, subscribing, unsubscribing, leaving, resubscribing,
  retrying, run_task, given,
}
use mqtt_go.RetryClient.Keeping.{publish_request}
use mqtt_go.RetryClient.Repeating.{Reached}
use mqtt_go.RetryClient.Lengthening.{Grows}

-- The same message, but for the identifier and DUP.
abbrev pub Same : Message → Message → Type 0
Same m m' =
    (m'.topic ≡ m.topic) × (m'.qos ≡ m.qos) × (m'.retain ≡ m.retain) × (m'.payload ≡ m.payload)

-- The function sends the message, or what is left of its exchange.
abbrev pub Carries : Message → RetryFn → Type 0
Carries m (base r) = (m' : Message) × Same m m' × Repeats m' r
Carries m (base_subscribe a) = ⊥
Carries m (later_publish m') = Same m m'
Carries m (later_subscribe again a) = ⊥
Carries m (later_unsubscribe topics) = ⊥

abbrev pub InQueue : Message → List RetryFn → Type 0
InQueue m [] = ⊥
InQueue m (f ∷ fs) = Carries m f ⊎ InQueue m fs

-- The request returned, and there is nothing to repeat.
abbrev pub NoRetry : Result (Unit {0}) → Type 0
NoRetry (finished a) = Unit {0}
NoRetry (failed e) = Unit {0}
NoRetry (failed_with e r) = ⊥
NoRetry panicked = ⊥

-- What the function requests in a state.
abbrev pub Ended : World → RetryFn → Queues → Type 0
Ended w (base r) q = NoRetry (run_retry w.transport (w.answers q.requests) r q.cli).1
Ended w (base_subscribe a) q = ⊥
Ended w (later_publish m) q = NoRetry (publish_request w m q).1.1
Ended w (later_subscribe again a) q = ⊥
Ended w (later_unsubscribe topics) q = ⊥

-- The functions that a task runs, and the states in which it does.
abbrev pub TaskRuns : World → Task → Queues → RetryFn → Queues → Type 0
TaskRuns w (publishing m) q f at = (q.retry_queue ≡ []) × (f ≡ later_publish m) × (at ≡ q)
TaskRuns w (subscribing subs) q f at = ⊥
TaskRuns w (unsubscribing topics) q f at = ⊥
TaskRuns w leaving q f at = ⊥
TaskRuns w resubscribing q f at = ⊥
TaskRuns w retrying q f at =
    (s : Reached w q.retry_queue (record q { retry_queue = [] })) × (f ≡ s.this)
    × (at ≡ counted s.at)

-- Those of tasks one after the other.
abbrev pub Runs : World → List (Client × Task) → Queues → RetryFn → Queues → Type 0
Runs w [] q f at = ⊥
Runs w ((c, t) ∷ ts) q f at =
    TaskRuns w t (given c q) f at
    ⊎ ((q1 : Queues) × (run_task w t (given c q) ≡ ok q1) × Runs w ts q1 f at)

-- A function that carries the message was run, and its request finished, or failed without a retry.
abbrev pub Settled : World → Message → (RetryFn → Queues → Type 0) → Type 0
Settled w m Run = (f : RetryFn) × (at : Queues) × Carries m f × Run f at × Ended w f at

abbrev pub Accounted : World → Message → (RetryFn → Queues → Type 0) → Queues → Type 0
Accounted w m Run q = Settled w m Run ⊎ InQueue m q.retry_queue

pub InQueue-append : (m : Message) (l l' : List RetryFn) → InQueue m l → InQueue m (l ++ l')
InQueue-append m (f ∷ l) l' (inl h) = inl h
InQueue-append m (f ∷ l) l' (inr h) = inr (InQueue-append m l l' h)
InQueue-append m [] l' h = absurd h

pub append-InQueue : (m : Message) (l l' : List RetryFn) → InQueue m l' → InQueue m (l ++ l')
append-InQueue m [] l' h = h
append-InQueue m (f ∷ l) l' h = inr (append-InQueue m l l' h)

pub InQueue-Grows : (m : Message) (l l' : List RetryFn) → InQueue m l → Grows l l' → InQueue m l'
InQueue-Grows m l l' h (more, e) = subst (InQueue m) (sym e) (InQueue-append m l more h)

pub Same-trans : (m m1 m2 : Message) → Same m m1 → Same m1 m2 → Same m m2
Same-trans m m1 m2 (t, q, r, p) (t', q', r', p') = (t' ∙ t, q' ∙ q, r' ∙ r, p' ∙ p)

pub Same-of : (m m' : Message) (dup : Bool) → m' ≡ record m { id = m'.id; dup = dup } → Same m m'
Same-of m m' dup e =
    (ap (λ x. x.topic) e, ap (λ x. x.qos) e, ap (λ x. x.retain) e, ap (λ x. x.payload) e)
