-- ===== src/Publish.antt =====
-- The PUBLISH packet and ValidateMessage of publish.go.
pub mod Wire
pub mod RoundTrip
pub mod Parsing
use mqtt_go.Base.{
  ℕ, ◌+◌, ◌-◌, ◌≡◌, bit_and, bit_or, Bool, true, false, not, ◌&&◌, List, [], ◌∷◌, ◌++◌, length,
  drop, Option, none, some, ltb, leb, ◌==◌, if◌then◌else◌,
}
use mqtt_go.Base.Bits.{Bytes}
use mqtt_go.Base.Outcome.{ok, err, panic, ◌>>=◌}
use mqtt_go.Errors.{
  Err, Go, invalid_packet, invalid_packet_length, payload_len_exceeded, invalid_qos, fail_with,
}
use mqtt_go.Message.{Message, qos0, qos1, qos2}
use mqtt_go.Packet.{
  packet_publish, pack, append_string, append_uint16, unpack_string, unpack_uint16,
}

abbrev pub publish_flag_retain : ℕ
publish_flag_retain = 0x01

abbrev pub publish_flag_qos0 : ℕ
publish_flag_qos0 = 0x00

abbrev pub publish_flag_qos1 : ℕ
publish_flag_qos1 = 0x02

abbrev pub publish_flag_qos2 : ℕ
publish_flag_qos2 = 0x04

abbrev pub publish_flag_qos_mask : ℕ
publish_flag_qos_mask = 0x06

abbrev pub publish_flag_dup : ℕ
publish_flag_dup = 0x08

-- The first `switch` of Parse.
unfoldable pub parse_qos : ℕ → Go ℕ
parse_qos flag =
    let q = bit_and flag publish_flag_qos_mask in
    if q == publish_flag_qos0
    then ok qos0
    else if q == publish_flag_qos1
    then ok qos1
    else if q == publish_flag_qos2
    then ok qos2
    else err (fail_with invalid_packet "parsing PUBLISH: QoS %d")

-- The identifier behind the topic, with the number of its bytes; `n` bytes are read so far.
unfoldable pub parse_id : ℕ → ℕ → Bytes → Go (ℕ × ℕ)
parse_id qos n contents =
    if not (qos == qos0)
    then (if ltb (length contents - n) 2
        then err (fail_with invalid_packet_length "parsing PUBLISH")
        else unpack_uint16 (drop n contents))
    else ok (0, 0)

-- `p.Message` at the end of Parse; `n` bytes of contents are the topic, `n_id` the identifier.
abbrev pub parsed_message : ℕ → Bytes → ℕ → ℕ × Bytes → ℕ × ℕ → Message
parsed_message flag contents qos (n, topic) (n_id, id) = record {
  topic = topic;
  id = id;
  qos = qos;
  retain = not (bit_and flag publish_flag_retain == 0);
  dup = not (bit_and flag publish_flag_dup == 0);
  payload = drop (n + n_id) contents;
}

-- `len(contents)-n` is not negative: `unpackString` reads no more than there is.
unfoldable pub parse_publish : ℕ → Bytes → Go Message
parse_publish flag contents = parse_qos flag >>= λ qos. unpack_string contents >>= λ t.
    parse_id qos t.0 contents >>= λ i. ok (parsed_message flag contents qos t i)

-- `pktHeader` after the `switch` and the tests of Pack.
unfoldable pub publish_header : Message → Go ℕ
publish_header m =
    let start = if m.retain then bit_or packet_publish publish_flag_retain else packet_publish in
    let finish = λ (h : ℕ). if m.dup then bit_or h publish_flag_dup else h in
    if m.qos == qos0
    then ok (finish (bit_or start publish_flag_qos0))
    else if m.qos == qos1
    then ok (finish (bit_or start publish_flag_qos1))
    else if m.qos == qos2
    then ok (finish (bit_or start publish_flag_qos2))
    else panic

unfoldable pub pack_publish : Message → Go Bytes
pack_publish m = publish_header m >>= λ pkt_header. append_string [] m.topic >>= λ header.
    pack pkt_header
      ((if not (m.qos == qos0) then append_uint16 header m.id else header) ∷ m.payload ∷ [])

-- `MaxPayloadLen` is the first argument; 0 stands for no limit.
unfoldable pub validate_message : ℕ → Message → Option Err
validate_message max_payload_len m =
    if not (max_payload_len == 0) && leb max_payload_len (length m.payload)
    then some (fail_with payload_len_exceeded "payload length %d")
    else if ltb qos2 m.qos
    then some (fail_with invalid_qos "QoS%d")
    else none
