-- ===== src/Tests/Subscriptions.antt =====
-- The list of established subscriptions at concrete values.
use mqtt_go.Base.{suc, ◌≡◌, refl, List, [], ◌∷◌}
use mathlib.Core.List.{Perm}
use mqtt_go.Base.Bits.{Bytes}
use mqtt_go.Base.Outcome.{ok, panic}
use mqtt_go.Message.{Subscription}
use mqtt_go.Filter.{bytes_eq}
use mqtt_go.Subscriptions.{
  subscribe_to, find_topic, overwrite, remove_topic, remove_topics, unsubscribe_from,
}
use mqtt_go.Subscriptions.Topics.{DistinctTopics, without}
use mqtt_go.Subscriptions.Rounds.{unsubscribe_from-perm}
use mqtt_go.Subscriptions.Duplicates.{count_topic, unsubscribe_twice-panic, unsubscribe_one-count}

abbrev first : Subscription
first = record { topic = b'a' ∷ []; qos = 0 }

abbrev second : Subscription
second = record { topic = b'b' ∷ []; qos = 1 }

abbrev third : Subscription
third = record { topic = b'c' ∷ []; qos = 2 }

abbrev all_three : List Subscription
all_three = first ∷ second ∷ third ∷ []

abbrev names : List Bytes
names = (b'a' ∷ []) ∷ (b'x' ∷ []) ∷ (b'c' ∷ []) ∷ []

-- The last element takes the place of the removed one.
moved_up : unsubscribe_from ((b'a' ∷ []) ∷ []) all_three ≡ ok (third ∷ second ∷ [])
unfolding unsubscribe_from remove_topics remove_topic find_topic overwrite bytes_eq
moved_up = refl

unsubscribe_from-perm_example :
    (out : List Subscription) × (unsubscribe_from names all_three ≡ ok out)
    × DistinctTopics out
    × Perm (without names all_three) out
unfolding bytes_eq
unsubscribe_from-perm_example =
    unsubscribe_from-perm names all_three (refl, (refl, (refl, tt))) (refl, (refl, (refl, tt)))

unsubscribe_twice-panic_example :
    unsubscribe_from (first.topic ∷ first.topic ∷ []) (subscribe_to (first ∷ []) []) ≡ panic
unsubscribe_twice-panic_example = unsubscribe_twice-panic first []

unsubscribe_one-count_example :
    (out : List Subscription) × (unsubscribe_from (first.topic ∷ []) (first ∷ second ∷ first ∷ [])
      ≡ ok out)
    × (suc (count_topic first.topic out) ≡ count_topic first.topic (first ∷ second ∷ first ∷ []))
unfolding bytes_eq
unsubscribe_one-count_example = unsubscribe_one-count first.topic (first ∷ second ∷ first ∷ []) refl
