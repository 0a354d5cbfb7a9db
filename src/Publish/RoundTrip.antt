-- ===== src/Publish/RoundTrip.antt =====
-- A PUBLISH packet that Pack makes is parsed back to the message.
use mqtt_go.Base.{
  ℕ, ◌+◌, ◌≤◌, ◌<◌, ◌≡◌, ap, ◌∙◌, List, ◌++◌, length, length-append, drop, drop-append, drop-add,
  if◌then◌else◌, ◌==◌, not, arith, All, bit_and,
}
use mqtt_go.Base.Bits.{Bytes, and_one, and_08, and_06}
use mqtt_go.Base.Outcome.{ok}
use mqtt_go.Message.{Message}
use native.Mathlib.Numerals.{towards_suc}
use mqtt_go.Packet.{read_packet, unpack_string, packet_publish}
use mqtt_go.Packet.Runes.{encode_runes, runes}
use mqtt_go.Packet.Text.{IsScalar, runes-encode_runes}
use mqtt_go.Packet.Strings.{string_field, IsNonzero, unpack_string-field, unpack_uint16-field}
use mqtt_go.Packet.Framing.{frame, read_packet-typed}
use mqtt_go.Publish.{parse_qos, parse_id, parse_publish, pack_publish}
use mqtt_go.Publish.Wire.{publish_flags, id_field, publish_contents, Fits, pack_publish-ok}

parse_qos-flags : (m : Message) → m.qos ≤ 2 → parse_qos (publish_flags m) ≡ ok m.qos
unfolding parse_qos
parse_qos-flags m h = ground (arith, and_06 (publish_flags m))

retain_lem : (m : Message) → m.qos ≤ 2 → not (bit_and (publish_flags m) 1 == 0) ≡ m.retain
retain_lem m h = ground (arith, and_one (publish_flags m))

dup_lem : (m : Message) → m.qos ≤ 2 → not (bit_and (publish_flags m) 8 == 0) ≡ m.dup
dup_lem m h = ground (arith, and_08 (publish_flags m))

-- A topic that the receiver accepts: UTF-8 without the null character.
pub record IsTopic (s : Bytes) : Type 0 where
  pub text : List ℕ
  pub scalars : All IsScalar text
  pub nonzero : All IsNonzero text
  pub encoded : encode_runes text ≡ s

-- The identifier of a message with QoS 0 is not sent.
abbrev pub received : Message → Message
received m = record m { id = if m.qos == 0 then 0 else m.id }

drop_topic : (t rest : Bytes) → drop (length t + 2) (string_field t ++ rest) ≡ rest
drop_topic t rest = simp towards_suc (drop-append t rest)

unpack_topic :
    (t rest : Bytes)
    → length t < 65536
    → IsTopic t
    → unpack_string (string_field t ++ rest) ≡ ok (length t + 2, t)
unpack_topic t rest h u =
    let back : runes t ≡ u.text = rw (← u.encoded) (runes-encode_runes u.text u.scalars) in
    unpack_string-field t rest h (rw back u.nonzero)
    ∙ ap (λ s. ok (length t + 2, s)) (ap encode_runes back ∙ u.encoded)

-- What `parse_id` finds behind the topic, and how many bytes it takes.
parse_id-contents :
    (m : Message)
    → m.id < 65536
    → parse_id m.qos (length m.topic + 2) (publish_contents m)
      ≡ ok (length (id_field m), (received m).id)
unfolding parse_id
parse_id-contents m h = ground (
  arith,
  drop_topic m.topic (id_field m ++ m.payload),
  length-append m.topic (id_field m ++ m.payload),
  length-append (id_field m) m.payload,
  unpack_uint16-field m.id m.payload h,
)

drop_contents :
    (m : Message) → drop (length m.topic + 2 + length (id_field m)) (publish_contents m) ≡ m.payload
drop_contents m =
    drop-add (length m.topic + 2) (length (id_field m)) (publish_contents m)
    ∙ rw (drop_topic m.topic (id_field m ++ m.payload)) (drop-append (id_field m) m.payload)

parse_publish-contents :
    (m : Message)
    → Fits m
    → IsTopic m.topic
    → parse_publish (publish_flags m) (publish_contents m) ≡ ok (received m)
unfolding parse_publish
parse_publish-contents m h t = rw (parse_qos-flags m h.qos_valid) (
    rw (unpack_topic m.topic (id_field m ++ m.payload) h.topic_short t) (
      rw (parse_id-contents m h.id_small)
        (rw (drop_contents m, retain_lem m h.qos_valid, dup_lem m h.qos_valid))))

flags_small : (m : Message) → m.qos ≤ 2 → publish_flags m < 16
flags_small m h = ground arith

-- A message that fits, with a well-formed topic: Pack makes a packet, and readPacket and Parse
-- at the receiver give back the message, with the identifier 0 if the QoS is 0, and leave the
-- rest of the stream.
pub publish_round_trip :
    (m : Message) (rest : Bytes)
    → Fits m
    → IsTopic m.topic
    → (pkt : Bytes) × (flag : ℕ) × (contents : Bytes) × (pack_publish m ≡ ok pkt)
      × (read_packet (pkt ++ rest)
          ≡ ok (record { pkt_type = packet_publish; pkt_flag = flag; contents = contents }, rest))
      × (parse_publish flag contents ≡ ok (received m))
publish_round_trip m rest h t = (
  frame (0x30 + publish_flags m) (publish_contents m),
  publish_flags m,
  publish_contents m,
  pack_publish-ok m h,
  read_packet-typed 3 (publish_flags m) (publish_contents m) rest (omega arith)
      (flags_small m h.qos_valid) h.contents_short,
  parse_publish-contents m h t,
)
