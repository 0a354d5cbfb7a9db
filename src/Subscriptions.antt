-- ===== src/Subscriptions.antt =====
-- subscriptions.go: the list of established subscriptions, and what a subscription and an
-- unsubscription do to it. The array under the slice is modelled: the loops shorten the slice only
-- at the end, so that they still see the places given up before.
pub mod Topics
pub mod Removing
pub mod Rounds
pub mod Duplicates
use mqtt_go.Base.{
  ℕ, zero, suc, ◌-◌, List, [], ◌∷◌, ◌++◌, length, get_elem?, set, take, Option, none, some, ◌==◌,
  if◌then◌else◌,
}
use mqtt_go.Base.Bits.{Bytes}
use mqtt_go.Base.Outcome.{ok, panic, ◌>>=◌}
use mqtt_go.Errors.{Go}
use mqtt_go.Message.{Subscription}
use mqtt_go.Filter.{bytes_eq}

-- `subscriptions.applyTo`.
unfoldable pub subscribe_to : List Subscription → List Subscription → List Subscription
subscribe_to s d = d ++ s

-- The inner loop up to its `break`: the first index, from `i` on, that holds the topic.
unfoldable pub find_topic : ℕ → Bytes → List Subscription → Option ℕ
find_topic i topic [] = none
find_topic i topic (e ∷ d) =
    let rest = find_topic (suc i) topic d in if bytes_eq e.topic topic then some i else rest

-- `l--; (*d)[i] = (*d)[l]`; at `l == 0` the index is -1 and panics.
unfoldable pub overwrite : ℕ → ℕ → List Subscription → Go (ℕ × List Subscription)
overwrite i zero d = panic
overwrite i (suc l) d = elim (get_elem? d l) [ none ↦ panic | some e ↦ ok (l, set d i e) ]

-- One round of the outer loop, on the length `l` that is left and the array.
unfoldable pub remove_topic : Bytes → ℕ → List Subscription → Go (ℕ × List Subscription)
remove_topic topic l d = elim (find_topic 0 topic d) [ none ↦ ok (l, d) | some i ↦ overwrite i l d ]

unfoldable pub remove_topics : List Bytes → ℕ → List Subscription → Go (ℕ × List Subscription)
remove_topics [] l d = ok (l, d)
remove_topics (topic ∷ s) l d = remove_topic topic l d >>= λ r. remove_topics s r.0 r.1

-- `unsubscriptions.applyTo`.
unfoldable pub unsubscribe_from : List Bytes → List Subscription → Go (List Subscription)
unsubscribe_from s d = remove_topics s (length d) d >>= λ r. ok (take r.0 r.1)
