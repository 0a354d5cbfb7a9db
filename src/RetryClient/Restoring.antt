-- ===== src/RetryClient/Restoring.antt =====
-- retryclient.go, the task of `Resubscribe`: the subscriptions of the client before are all asked for
-- again, now or behind what waits in the retry queue.
use mathlib.Core.Path.{subst}
use mqtt_go.Base.{
  ℕ, suc, ◌≡◌, ◌⊎◌, inl, inr, refl, sym, ap, ◌∙◌, true, false, List, [], ◌∷◌, ◌++◌, append-nil,
  append_assoc,
}
use mqtt_go.Base.Outcome.{ok, panic, ◌>>=◌}
use mqtt_go.Errors.{Go}
use mqtt_go.Message.{Subscription}
use mqtt_go.Subscriptions.{subscribe_to}
use mqtt_go.Client.{Client, Result, finished, failed, failed_with, panicked}
use mqtt_go.Client.Asking.{subscribe_impl}
use mqtt_go.RetryClient.{
  RetryFn, base_subscribe, World, Queues, used, after_subscribe, new_array, is_empty, subscribe_now,
  subscribe_queued, subscribe_each, resubscribe,
}
use mqtt_go.RetryClient.Keeping.{empty-cases}
use mqtt_go.RetryClient.Behind.{
  Brings, own_array, waits_behind, subscribe_queued-behind, still_behind, AllWait-later,
  subscribe_each-AllWait,
}

-- The request for one subscription in a state.
abbrev pub request : World → Subscription → Queues → Client × Result (List Subscription)
request w s q = subscribe_impl w.transport (w.answers q.requests).sub_wake (s ∷ []) q.cli

-- What the retry queue holds behind the request: nothing, or the request itself, with its subscription,
-- if it failed with an error that carries a retry.
abbrev pub Leaves : Subscription → Result (List Subscription) → Queues → Type 0
Leaves s (finished subs) q = q.retry_queue ≡ []
Leaves s (failed e) q = q.retry_queue ≡ []
Leaves s (failed_with e r) q =
    (a : ℕ) × (q.retry_queue ≡ base_subscribe a ∷ []) × (q.arrays a ≡ s ∷ [])
Leaves s panicked q = ⊥

-- With an empty queue the subscription is established, and the request is made.
abbrev pub Asks : World → Subscription → Queues → Queues → Type 0
Asks w s q q1 =
    (q.retry_queue ≡ [])
    × (q1.sub_established ≡ q.sub_established ++ s ∷ [])
    × (q1.requests ≡ suc q.requests)
    × (q1.cli ≡ (request w s q).0)
    × Leaves s (request w s q).1 q1

-- So for one subscription after the other.
pub data AsksAll (w : World) : List Subscription → Queues → Queues → Type 0 where
  asks_none : {q : Queues} → AsksAll w [] q q
  asks_next :
      {s : Subscription} {subs : List Subscription} {q q1 q' : Queues}
      → Asks w s q q1
      → AsksAll w subs q1 q'
      → AsksAll w (s ∷ subs) q q'

-- The first ones are asked for, the others wait.
abbrev pub Restored : World → List Subscription → Queues → Go Queues → Type 0
Restored w subs q out =
    ((now : List Subscription) × (s : Subscription) × (behind : List Subscription) × (at : Queues)
      × (subs ≡ now ++ s ∷ behind)
      × AsksAll w now q at
      × ((request w s at).1 ≡ panicked)
      × (out ≡ panic))
    ⊎ ((now : List Subscription) × (behind : List Subscription) × (at : Queues) × (q' : Queues)
        × (waiting : List RetryFn) × (subs ≡ now ++ behind)
        × AsksAll w now q at
        × ((behind ≡ []) ⊎ (is_empty at.retry_queue ≡ false))
        × (out ≡ ok q')
        × (q'.sub_established ≡ q.sub_established ++ now)
        × (q'.requests ≡ at.requests)
        × (q'.cli ≡ at.cli)
        × (q'.retry_queue ≡ at.retry_queue ++ waiting)
        × Brings q'.arrays waiting behind)

Leaves-of :
    (s : Subscription) {x y : Result (List Subscription)}
    → x ≡ y
    → (q : Queues) → Leaves s y q
    → Leaves s x q
Leaves-of s e q h = subst (λ z. Leaves s z q) (sym e) h

-- One subscription with an empty queue.
abbrev Step : World → Subscription → Queues → Go Queues → Type 0
Step w s q out =
    (((request w s q).1 ≡ panicked) × (out ≡ panic))
    ⊎ ((q1 : Queues) × (out ≡ ok q1) × Asks w s q q1)

module _ (w : World) (s : Subscription) (q : Queues) (e : q.retry_queue ≡ []) where
  by_result :
      (x : Result (List Subscription))
      → (request w s q).1 ≡ x
      → Step w s q (
          after_subscribe false q.next_array x (
            used (request w s q).0 (record (new_array (s ∷ []) q) {
              sub_established = subscribe_to (s ∷ []) q.sub_established;
            })))
  unfolding subscribe_to
  by_result (finished subs) r = inr (_, refl, (e, refl, refl, refl, Leaves-of s r _ e))
  by_result (failed x) r = inr (_, refl, (e, refl, refl, refl, Leaves-of s r _ e))
  by_result (failed_with x again) r = inr (
    _,
    refl,
    (
      e,
      refl,
      refl,
      refl,
      Leaves-of s r _
          (q.next_array, ap (λ l. l ++ base_subscribe q.next_array ∷ []) e, own_array s q),
    ),
  )
  by_result panicked r = inl (r, refl)

  with_array :
      (subs : List Subscription)
      → subs ≡ s ∷ []
      → Step w s q (
          let r = subscribe_impl w.transport (w.answers q.requests).sub_wake subs q.cli in
          after_subscribe false q.next_array r.1 (
            used r.0 (record (new_array (s ∷ []) q) {
              sub_established = subscribe_to subs q.sub_established;
            })))
  with_array subs same =
      subst
        (λ l. Step w s q (
          let r = subscribe_impl w.transport (w.answers q.requests).sub_wake l q.cli in
          after_subscribe false q.next_array r.1 (
            used r.0 (record (new_array (s ∷ []) q) {
              sub_established = subscribe_to l q.sub_established;
            }))))
        (sym same) (by_result (request w s q).1 refl)

  subscribe_queued-empty :
      is_empty q.retry_queue ≡ true
      → subscribe_queued w false true (s ∷ []) q
        ≡ subscribe_now w false true q.next_array (new_array (s ∷ []) q)
  unfolding subscribe_queued
  subscribe_queued-empty h = rw h refl

  subscribe_now-Step : Step w s q (subscribe_now w false true q.next_array (new_array (s ∷ []) q))
  unfolding subscribe_now
  subscribe_now-Step = with_array ((new_array (s ∷ []) q).arrays q.next_array) (own_array s q)

  subscribe_queued-Step : Step w s q (subscribe_queued w false true (s ∷ []) q)
  subscribe_queued-Step =
      subst (Step w s q) (sym (subscribe_queued-empty (ap is_empty e))) subscribe_now-Step

-- Behind a subscription that was asked for.
Restored-later :
    (w : World) (s : Subscription) (subs : List Subscription) (q q1 : Queues) (out : Go Queues)
    → Asks w s q q1
    → Restored w subs q1 out
    → Restored w (s ∷ subs) q out
Restored-later w s subs q q1 out a (inl (now, s', behind, at, whole, all, p, e)) =
    inl (s ∷ now, s', behind, at, ap (λ l. s ∷ l) whole, asks_next a all, p, e)
Restored-later w s subs q q1 out a
      (inr (now, behind, at, q', waiting, whole, all, b, e, established, r, c, l, brought)) =
    inr (
      s ∷ now,
      behind,
      at,
      q',
      waiting,
      ap (λ l. s ∷ l) whole,
      asks_next a all,
      b,
      e,
      established ∙ ap (λ l. l ++ now) a.1 ∙ append_assoc q.sub_established (s ∷ []) now,
      r,
      c,
      l,
      brought,
    )

subscribe_each-Restored :
    (w : World) (subs : List Subscription) (q : Queues)
    → Restored w subs q (subscribe_each w subs q)
unfolding subscribe_each
subscribe_each-Restored w [] q = inr (
  [],
  [],
  q,
  q,
  [],
  refl,
  asks_none,
  inl refl,
  refl,
  sym (append-nil q.sub_established),
  refl,
  refl,
  sym (append-nil q.retry_queue),
  tt,
)
subscribe_each-Restored w (s ∷ subs) q = elim (empty-cases q.retry_queue) [
  | inl e ↦
      by_first (subscribe_queued w false true (s ∷ []) q) (subscribe_queued-Step w s q e)
        (λ q1. subscribe_each-Restored w subs q1)
  | inr e ↦
      let (q', run, h) = subscribe_each-AllWait w subs (waits_behind w s q) (still_behind w s q) in
      let all = AllWait-later w s q subs q' h in
      inr (
        [],
        s ∷ subs,
        q,
        q',
        all.waiting,
        refl,
        asks_none,
        inr e,
        rw (subscribe_queued-behind w s q e) run,
        all.established ∙ sym (append-nil q.sub_established),
        all.same_requests,
        all.same_cli,
        all.queue,
        all.brings,
      )
]
  where
    by_first :
        (x : Go Queues)
        → Step w s q x
        → ((q1 : Queues) → Restored w subs q1 (subscribe_each w subs q1))
        → Restored w (s ∷ subs) q (x >>= λ q'. subscribe_each w subs q')
    by_first x (inl (p, e)) k = inl ([], s, subs, q, refl, asks_none, p, rw e refl)
    by_first x (inr (q1, e, a)) k = rw e (Restored-later w s subs q q1 _ a (k q1))

-- The task of Resubscribe forgets the established subscriptions and asks for each of them again, in
-- order. While the retry queue is empty each is established again and requested at once, with a
-- SUBSCRIBE for it alone; the first request that fails with an error to retry is the one that the queue
-- then holds. From there on, or from the start if something waited in the queue before, all others wait
-- behind it, each with its subscription, and are not established yet. If a request panics, so does
-- the task.
pub resubscribe-Restored :
    (w : World) (q : Queues)
    → Restored w q.sub_established (record q { sub_established = [] }) (resubscribe w q)
unfolding resubscribe
resubscribe-Restored w q = subscribe_each-Restored w q.sub_established _
