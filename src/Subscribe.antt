-- ===== src/Subscribe.antt =====
-- The SUBSCRIBE and UNSUBSCRIBE packets of subscribe.go and unsubscribe.go.
pub mod Decode
use mqtt_go.Base.{ℕ, bit_or, Bool, List, [], ◌∷◌, ◌++◌, ◌==◌, if◌then◌else◌}
use mqtt_go.Base.Bits.{Bytes}
use mqtt_go.Base.Outcome.{ok, err, panic, ◌>>=◌}
use mqtt_go.Errors.{Go}
use mqtt_go.Message.{Subscription, qos0, qos1, qos2}
use mqtt_go.Packet.{
  packet_subscribe, packet_unsubscribe, packet_from_client, pack, append_string, pack_uint16,
}

abbrev pub subscribe_flag_qos0 : ℕ
subscribe_flag_qos0 = 0x00

abbrev pub subscribe_flag_qos1 : ℕ
subscribe_flag_qos1 = 0x01

abbrev pub subscribe_flag_qos2 : ℕ
subscribe_flag_qos2 = 0x02

pub record PktSubscribe : Type 0 where
  pub id : ℕ
  pub subscriptions : List Subscription

pub record PktUnsubscribe : Type 0 where
  pub id : ℕ
  pub topics : List Bytes

-- The `switch` on the QoS, from a flag of 0.
unfoldable pub subscribe_flag : ℕ → Go ℕ
subscribe_flag qos =
    if qos == qos0
    then ok (bit_or 0 subscribe_flag_qos0)
    else if qos == qos1
    then ok (bit_or 0 subscribe_flag_qos1)
    else if qos == qos2
    then ok (bit_or 0 subscribe_flag_qos2)
    else panic

-- The loop over the subscriptions.
unfoldable pub add_subscriptions : Bytes → List Subscription → Go Bytes
add_subscriptions payload [] = ok payload
add_subscriptions payload (sub ∷ subs) = append_string payload sub.topic >>= λ with_topic.
    subscribe_flag sub.qos >>= λ flag. add_subscriptions (with_topic ++ flag ∷ []) subs

unfoldable pub pack_subscribe : PktSubscribe → Go Bytes
pack_subscribe p = add_subscriptions [] p.subscriptions >>= λ payload.
    pack (bit_or packet_subscribe packet_from_client) (pack_uint16 p.id ∷ payload ∷ [])

-- The loop over the topics.
unfoldable pub add_topics : Bytes → List Bytes → Go Bytes
add_topics payload [] = ok payload
add_topics payload (topic ∷ topics) =
    append_string payload topic >>= λ with_topic. add_topics with_topic topics

unfoldable pub pack_unsubscribe : PktUnsubscribe → Go Bytes
pack_unsubscribe p = add_topics [] p.topics >>= λ payload.
    pack (bit_or packet_unsubscribe packet_from_client) (pack_uint16 p.id ∷ payload ∷ [])
