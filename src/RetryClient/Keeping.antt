-- ===== src/RetryClient/Keeping.antt =====
-- retryclient.go, `publish`: where a message goes when it is published behind earlier failures.
use mqtt_go.Base.{
  ◌≡◌, ◌⊎◌, inl, inr, refl, true, false, ltb, Bool, sym, ◌∙◌, List, [], ◌∷◌, ◌++◌, none, arith, ap,
}
use mathlib.Core.Path.{subst}
use mqtt_go.Base.Outcome.{ok, panic}
use mqtt_go.Errors.{Err, sentinel, not_connected, eof, Go}
use mqtt_go.Message.{Message, qos0}
use mqtt_go.Publish.{validate_message}
use mqtt_go.Client.{Client, Result, finished, failed, failed_with, panicked, publish, publish_impl}
use mqtt_go.Client.Retrying.{Repeats, RepeatsOnly, publish_impl-RepeatsOnly}
use mqtt_go.RetryClient.{
  RetryFn, base, base_subscribe, later_publish, later_subscribe, later_unsubscribe, World, Queues,
  used, after_request, publish_now, publish_queued, is_empty,
}

-- The request that publishing makes when it is made at once.
abbrev pub publish_request : World → Message → Queues → Message × (Client × Result (Unit {0}))
publish_request w m q =
    let a = w.answers q.requests in publish w.max_payload_len w.transport a.wake a.wake2 m q.cli

-- The function sends this message: first, or again with the identifier that it got.
abbrev pub Sends : Message → RetryFn → Type 0
Sends m (base r) = (m' : Message) × (m' ≡ record m { id = m'.id; dup = false }) × Repeats m' r
Sends m (base_subscribe a) = ⊥
Sends m (later_publish m') = m' ≡ m
Sends m (later_subscribe retry subs) = ⊥
Sends m (later_unsubscribe topics) = ⊥

abbrev pub Delivered : World → Message → Queues → Queues → Type 0
Delivered w m q q' =
    (q.retry_queue ≡ [])
    × ((publish_request w m q).1.1 ≡ finished tt)
    × (q'.retry_queue ≡ [])
    × (q'.errors ≡ q.errors)

abbrev pub GivenUp : Queues → Queues → Type 0
GivenUp q q' =
    (q.retry_queue ≡ [])
    × (q'.retry_queue ≡ [])
    × (e : Err) × (q'.errors ≡ e ∷ q.errors)
    × ((e ≡ sentinel not_connected) ⊎ (e ≡ sentinel eof))

abbrev pub Queued : Message → Queues → Queues → Type 0
Queued m q q' = (f : RetryFn) × Sends m f × (q'.retry_queue ≡ q.retry_queue ++ f ∷ [])

abbrev pub Kept : World → Message → Queues → Go Queues → Type 0
Kept w m q out =
    ((out ≡ panic) × (q.retry_queue ≡ []) × ((publish_request w m q).1.1 ≡ panicked))
    ⊎ ((q' : Queues) × (out ≡ ok q') × (Delivered w m q q' ⊎ (GivenUp q q' ⊎ Queued m q q')))

module _ (w : World) (m : Message) (q : Queues) (h : ltb qos0 m.qos ≡ true)
    (e : q.retry_queue ≡ []) where
  after_request-Kept :
      (m' : Message) (c : Client) (r : Result (Unit {0}))
      → m' ≡ record m { id = m'.id; dup = false }
      → RepeatsOnly m' r
      → (publish_request w m q).1.1 ≡ r
      → Kept w m q (after_request false r (used c q))
  after_request-Kept m' c (finished tt) same k req = inr (_, refl, inl (e, req, e, refl))
  after_request-Kept m' c (failed x) same (inl z) req =
      let z' : m.qos ≡ 0 = ap (λ n. n.qos) (sym same) ∙ z in absurd (ground arith)
  after_request-Kept m' c (failed x) same (inr k) req = inr (_, refl, inr (inl (e, e, x, refl, k)))
  after_request-Kept m' c (failed_with x r) same k req =
      inr (_, refl, inr (inr (base r, (m', same, k), refl)))
  after_request-Kept m' c panicked same k req = inl (refl, e, req)

pub empty-cases : {A : Type 0} (l : List A) → (l ≡ []) ⊎ (is_empty l ≡ false)
empty-cases [] = inl refl
empty-cases (x ∷ l) = inr refl

pub publish_valid :
    (w : World) (m : Message) (q : Queues)
    → validate_message w.max_payload_len m ≡ none
    → publish_request w m q
      ≡ publish_impl w.transport
          (w.answers q.requests).wake
          (w.answers q.requests).wake2
          m
          false
          q.cli
unfolding publish
publish_valid w m q v = rw (v, publish) refl

module _ (w : World) (cancelled : Bool) (m : Message) (q : Queues)
    (v : validate_message w.max_payload_len m ≡ none) where
  pub publish_queued-empty :
      is_empty q.retry_queue ≡ true → publish_queued w cancelled m q ≡ publish_now w cancelled m q
  unfolding publish_queued
  publish_queued-empty e = rw (v, e) refl

  pub publish_queued-behind :
      is_empty q.retry_queue ≡ false
      → ltb qos0 m.qos ≡ true
      → publish_queued w cancelled m q
        ≡ ok (record q { retry_queue = q.retry_queue ++ later_publish m ∷ [] })
  unfolding publish_queued
  publish_queued-behind e h = rw (v, e, h) refl

publish_now-Kept :
    (w : World) (m : Message) (q : Queues)
    → validate_message w.max_payload_len m ≡ none
    → ltb qos0 m.qos ≡ true
    → q.retry_queue ≡ []
    → Kept w m q (publish_now w false m q)
unfolding publish_now
publish_now-Kept w m q v h e =
    let AsAsked = λ (p : Message × (Client × Result (Unit {0}))).
      (p.0 ≡ record m { id = p.0.id; dup = false }) × RepeatsOnly p.0 p.1.1 in
    let a = w.answers q.requests in
    let k = publish_impl-RepeatsOnly w.transport a.wake a.wake2 m false q.cli in
    let k' = subst AsAsked (sym (publish_valid w m q v)) (k.0, k.2) in
    after_request-Kept w m q h e _ _ _ k'.0 k'.1 refl

-- The publish task of a valid message of QoS 1 or 2 panics only where its request does. Behind
-- functions that wait in the retry queue it joins the end of the queue; with an empty queue it is
-- requested at once, and it finishes, or it is given up on ErrNotConnected or io.EOF and the error is
-- reported, or the retry queue holds the function that sends it again, with its identifier.
pub publish_queued-Kept :
    (w : World) (m : Message) (q : Queues)
    → validate_message w.max_payload_len m ≡ none
    → ltb qos0 m.qos ≡ true
    → Kept w m q (publish_queued w false m q)
publish_queued-Kept w m q v h = elim (empty-cases q.retry_queue) [
  | inl e ↦
      subst (Kept w m q) (sym (publish_queued-empty w false m q v (ap is_empty e)))
        (publish_now-Kept w m q v h e)
  | inr e ↦
      subst (Kept w m q) (sym (publish_queued-behind w false m q v e h))
        (inr (_, refl, inr (inr (later_publish m, refl, refl))))
]
