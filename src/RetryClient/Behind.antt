-- ===== src/RetryClient/Behind.antt =====
-- retryclient.go: subscriptions that are asked for while something waits in the retry queue.
use mqtt_go.Base.{
  ℕ, ◌≡◌, refl, sym, ◌∙◌, true, false, List, [], ◌∷◌, ◌++◌, append-nil, append_assoc, arith, ==_iff,
  ◌<◌,
}
use mqtt_go.Base.Outcome.{ok}
use mqtt_go.Message.{Subscription}
use mqtt_go.RetryClient.{
  RetryFn, later_subscribe, World, Queues, new_array, is_empty, subscribe_queued, subscribe_each,
}

-- The functions subscribe to these, in order, with an array for each.
abbrev pub Brings : (ℕ → List Subscription) → List RetryFn → List Subscription → Type 0
Brings arrays [] [] = Unit {0}
Brings arrays [] (s ∷ subs) = ⊥
Brings arrays (f ∷ fs) [] = ⊥
Brings arrays (f ∷ fs) (s ∷ subs) =
    ((a : ℕ) × (f ≡ later_subscribe true a) × (arrays a ≡ s ∷ [])) × Brings arrays fs subs

pub own_array :
    (s : Subscription) (q : Queues) → (new_array (s ∷ []) q).arrays q.next_array ≡ s ∷ []
own_array s q = rw ((==_iff q.next_array q.next_array).1 refl) refl

-- The arrays of a state below its next number.
abbrev pub Below : Queues → Queues → Type 0
Below q q' = (a : ℕ) → a < q.next_array → q'.arrays a ≡ q.arrays a

-- Behind a queue, all of them wait.
pub record AllWait (subs : List Subscription) (q q' : Queues) : Type 0 where
  pub waiting : List RetryFn
  pub queue : q'.retry_queue ≡ q.retry_queue ++ waiting
  pub brings : Brings q'.arrays waiting subs
  pub established : q'.sub_established ≡ q.sub_established
  pub same_requests : q'.requests ≡ q.requests
  pub same_cli : q'.cli ≡ q.cli
  pub frame : Below q q'

module _ (w : World) (s : Subscription) (q : Queues) where
  abbrev pub waits_behind : Queues
  waits_behind = record (new_array (s ∷ []) q) {
    retry_queue = q.retry_queue ++ later_subscribe true q.next_array ∷ [];
  }

  pub subscribe_queued-behind :
      is_empty q.retry_queue ≡ false → subscribe_queued w false true (s ∷ []) q ≡ ok waits_behind
  unfolding subscribe_queued
  subscribe_queued-behind e = rw e refl

  pub still_behind : is_empty (q.retry_queue ++ later_subscribe true q.next_array ∷ []) ≡ false
  still_behind = by_queue q.retry_queue
    where
      by_queue : (l : List RetryFn) → is_empty (l ++ later_subscribe true q.next_array ∷ []) ≡ false
      by_queue [] = refl
      by_queue (f ∷ l) = refl

  pub AllWait-later :
      (subs : List Subscription) (q' : Queues)
      → AllWait subs waits_behind q'
      → AllWait (s ∷ subs) q q'
  AllWait-later subs q' h = record {
    waiting = later_subscribe true q.next_array ∷ h.waiting;
    queue = h.queue ∙ append_assoc q.retry_queue (later_subscribe true q.next_array ∷ []) h.waiting;
    brings = ((q.next_array, refl, h.frame q.next_array (omega arith) ∙ own_array s q), h.brings);
    established = h.established;
    same_requests = h.same_requests;
    same_cli = h.same_cli;
    frame = λ a below. h.frame a (omega arith) ∙ other a below;
  }
    where
      other : (a : ℕ) → a < q.next_array → (new_array (s ∷ []) q).arrays a ≡ q.arrays a
      other a below = ground arith

pub subscribe_each-AllWait :
    (w : World) (subs : List Subscription) (q : Queues)
    → is_empty q.retry_queue ≡ false
    → (q' : Queues) × (subscribe_each w subs q ≡ ok q') × AllWait subs q q'
unfolding subscribe_each
subscribe_each-AllWait w [] q e = (
  q,
  refl,
  record {
    waiting = [];
    queue = sym (append-nil q.retry_queue);
    brings = tt;
    established = refl;
    same_requests = refl;
    same_cli = refl;
    frame = λ a below. refl;
  },
)
subscribe_each-AllWait w (s ∷ subs) q e =
    let (q', run, h) = subscribe_each-AllWait w subs (waits_behind w s q) (still_behind w s q) in
    (q', rw (subscribe_queued-behind w s q e) run, AllWait-later w s q subs q' h)
