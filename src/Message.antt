-- ===== src/Message.antt =====
-- message.go, and the quality of service of mqtt.go. A `QoS` is any uint8; the topic and the
-- payload are bytes. `nil` pointers to a message are `none` where the source allows them.
use mqtt_go.Base.{ℕ, Bool}
use mqtt_go.Base.Bits.{Bytes}

abbrev pub qos0 : ℕ
qos0 = 0x00

abbrev pub qos1 : ℕ
qos1 = 0x01

abbrev pub qos2 : ℕ
qos2 = 0x02

abbrev pub subscribe_failure : ℕ
subscribe_failure = 0x80

pub record Message : Type 0 where
  pub topic : Bytes
  pub id : ℕ
  pub qos : ℕ
  pub retain : Bool
  pub dup : Bool
  pub payload : Bytes

-- `clone` builds a new message field by field; the copies share no memory with the original.
unfoldable pub clone : Message → Message
clone m = record {
  topic = m.topic;
  qos = m.qos;
  retain = m.retain;
  payload = m.payload;
  dup = m.dup;
  id = m.id;
}

pub record Subscription : Type 0 where
  pub topic : Bytes
  pub qos : ℕ
