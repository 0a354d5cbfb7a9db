-- ===== src/RetryClient/Resending.antt =====
-- retryclient.go: a function that sends a message still does when it has run, and so does its retry.
use mqtt_go.Base.{inl, inr, refl, sym, false, Option-cases}
use mathlib.Core.Path.{subst}
use mqtt_go.Base.Outcome.{OnOk, >>=-OnOk}
use mqtt_go.Message.{Message}
use mqtt_go.Publish.{validate_message}
use mqtt_go.Client.{Client, Result, finished, failed, failed_with, panicked, publish}
use mqtt_go.Client.Retrying.{Repeats, RepeatsOnly, publish_impl-RepeatsOnly}
use mqtt_go.RetryClient.{
  base_subscribe, Ran, RetryFn, base, later_publish, later_subscribe, later_unsubscribe, World,
  Queues, publish_now, retried, run_fn,
}
use mqtt_go.RetryClient.Keeping.{publish_request, publish_valid}
use mqtt_go.RetryClient.Carrying.{Same, Carries, Same-trans, Same-of}

-- A retry sends the message on which it failed.
abbrev pub OnRetry : Message → Result (Unit {0}) → Type 0
OnRetry m (failed_with e r) = Repeats m r
OnRetry m x = Unit {0}

RepeatsOnly-OnRetry : (m : Message) (x : Result (Unit {0})) → RepeatsOnly m x → OnRetry m x
RepeatsOnly-OnRetry m (finished a) h = tt
RepeatsOnly-OnRetry m (failed e) h = tt
RepeatsOnly-OnRetry m (failed_with e r) h = h
RepeatsOnly-OnRetry m panicked h = tt

abbrev pub Keeps : Message → Message × (Client × Result (Unit {0})) → Type 0
Keeps m p = Same m p.0 × OnRetry p.0 p.1.1

pub publish_request-Keeps : (w : World) (m : Message) (q : Queues) → Keeps m (publish_request w m q)
unfolding publish
publish_request-Keeps w m q = elim (Option-cases (validate_message w.max_payload_len m)) [
  | inl v ↦
      let a = w.answers q.requests in
      let k = publish_impl-RepeatsOnly w.transport a.wake a.wake2 m false q.cli in
      subst (λ p. Same m p.0 × OnRetry p.0 p.1.1) (sym (publish_valid w m q v))
        (Same-of m _ false k.0, RepeatsOnly-OnRetry _ _ k.2)
  | inr (e, v) ↦ rw (v, publish) ((refl, refl, refl, refl), tt)
]

-- A function that has run still carries the message.
pub run_fn-Carries :
    (w : World) (m : Message) (f : RetryFn) (q : Queues)
    → Carries m f
    → OnOk (λ (r : Ran). Carries m r.1) (run_fn w f q)
unfolding run_fn
run_fn-Carries w m (base r) q h = of_result _ _
  where
    of_result :
        (x : Result (Unit {0})) (q' : Queues) → OnOk (λ (y : Ran). Carries m y.1) (retried r x q')
    of_result (finished a) q' = h
    of_result (failed e) q' = h
    of_result (failed_with e r') q' = h
    of_result panicked q' = tt
run_fn-Carries w m (later_publish m') q h =
    >>=-OnOk _ (publish_now w false m' q) _
      (λ q1 e. Same-trans m m' (publish_request w m' q).0 h (publish_request-Keeps w m' q).0)
run_fn-Carries w m (base_subscribe a) q h = absurd h
run_fn-Carries w m (later_subscribe again a) q h = absurd h
run_fn-Carries w m (later_unsubscribe topics) q h = absurd h
