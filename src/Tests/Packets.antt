-- ===== src/Tests/Packets.antt =====
-- Packets at concrete values.
use mqtt_go.Base.{
  take, ◌↔◌, ◌+◌, ℕ, ◌≤◌, ◌<◌, ◌≡◌, refl, true, false, List, [], ◌∷◌, ◌++◌, length, All, none, some,
  arith,
}
use mqtt_go.Base.Bits.{Bytes}
use mqtt_go.Base.Outcome.{ok, panic}
use mqtt_go.Message.{Message, Subscription}
use mqtt_go.Packet.{
  unpack_uint16, unpack_contents, check_runes, packet_publish, packet_connect, packet_subscribe,
  remaining_length, pack, read_packet, unpack_string, read_length, read_full,
}
use mqtt_go.Packet.Runes.{runes, runes_from, decode_rune, encode_runes, encode_rune}
use mqtt_go.Packet.Text.{IsScalar}
use mqtt_go.Packet.Framing.{read_packet-pack}
use mqtt_go.Packet.Strings.{IsWellFormed, IsNonzero, unpack_string-inv}
use mqtt_go.Publish.{parse_qos, parse_id, parse_publish, pack_publish}
use mqtt_go.Publish.Wire.{publish_contents}
use mqtt_go.Publish.RoundTrip.{IsTopic, received, publish_round_trip}
use mqtt_go.Publish.Parsing.{Accepted, parse_publish-Accepted}
use mqtt_go.Connect.{
  PktConnect, pack_connect, with_will, with_keep_alive, apply_options, ConnectOptions,
}
use mqtt_go.Connect.Reader.{decode_connect}
use mqtt_go.Connect.Decode.{requested, connect_round_trip}
use mqtt_go.Subscribe.{pack_subscribe}
use mqtt_go.Subscribe.Decode.{decode_subscribe, subscribe_round_trip}

length_200 : remaining_length 200 ≡ ok (0xC8 ∷ 0x01 ∷ [])
unfolding remaining_length
length_200 = refl

read_ping_resp :
    read_packet (0xD0 ∷ 0x00 ∷ 0x40 ∷ [])
    ≡ ok (record { pkt_type = 0xD0; pkt_flag = 0; contents = [] }, 0x40 ∷ [])
unfolding read_packet read_length read_full
read_ping_resp = refl

-- A length of ten bytes comes to a negative `int`, and `make` panics.
read_negative_length :
    read_packet (0x30 ∷ 0x80 ∷ 0x80 ∷ 0x80 ∷ 0x80 ∷ 0x80 ∷ 0x80 ∷ 0x80 ∷ 0x80 ∷ 0x80 ∷ 0x01 ∷ [])
    ≡ panic
unfolding read_packet read_length read_full
read_negative_length = refl

-- An encoded surrogate is replaced, and not refused.
surrogate_replaced : runes (0xED ∷ 0xA0 ∷ 0x80 ∷ []) ≡ 0xFFFD ∷ 0xFFFD ∷ 0xFFFD ∷ []
unfolding runes runes_from decode_rune
surrogate_replaced = refl

-- "é€😀"
abbrev text : List ℕ
text = 0xE9 ∷ 0x20AC ∷ 0x1F600 ∷ []

text_bytes : encode_runes text ≡ 0xC3 ∷ 0xA9 ∷ 0xE2 ∷ 0x82 ∷ 0xAC ∷ 0xF0 ∷ 0x9F ∷ 0x98 ∷ 0x80 ∷ []
unfolding encode_runes encode_rune
text_bytes = refl

read_packet-pack_example :
    (pkt : Bytes) × (pack 0x31 ((1 ∷ 2 ∷ []) ∷ (3 ∷ []) ∷ []) ≡ ok pkt)
    × (read_packet (pkt ++ 7 ∷ [])
        ≡ ok (record { pkt_type = 0x30; pkt_flag = 1; contents = 1 ∷ 2 ∷ 3 ∷ [] }, 7 ∷ []))
read_packet-pack_example =
    read_packet-pack 0x31 ((1 ∷ 2 ∷ []) ∷ (3 ∷ []) ∷ []) (7 ∷ []) (omega arith) (omega arith)

text_scalars : All IsScalar text
text_scalars = omega arith

text-IsNonzero : All IsNonzero text
text-IsNonzero = omega arith

text_short : length (encode_runes text) < 65536
unfolding encode_runes encode_rune
text_short = omega arith

unpack_hi : unpack_string (0 ∷ 2 ∷ b'h' ∷ b'i' ∷ 5 ∷ []) ≡ ok (4, b'h' ∷ b'i' ∷ [])
unfolding unpack_string unpack_uint16 unpack_contents check_runes runes runes_from decode_rune
    encode_runes encode_rune
unpack_hi = refl

unpack_string-inv_example :
    (4 ≤ 5)
    × ((rs : List ℕ) × All IsScalar rs × All IsNonzero rs × (encode_runes rs ≡ b'h' ∷ b'i' ∷ []))
    × (m : ℕ) × (4 ≡ m + 2)
    × ((◌≡◌ {A = Bytes} (b'h' ∷ b'i' ∷ []) (take m (b'h' ∷ b'i' ∷ 5 ∷ [])))
        ↔ IsWellFormed (take m (b'h' ∷ b'i' ∷ 5 ∷ [])))
unpack_string-inv_example =
    unpack_string-inv (0 ∷ 2 ∷ b'h' ∷ b'i' ∷ 5 ∷ []) (b'h' ∷ b'i' ∷ []) 4 unpack_hi

-- "a/b"
abbrev news : Message
news = record {
  topic = b'a' ∷ b'/' ∷ b'b' ∷ [];
  id = 77;
  qos = 1;
  retain = true;
  dup = false;
  payload = 1 ∷ 2 ∷ 3 ∷ [];
}

news-IsTopic : IsTopic news.topic
unfolding encode_runes encode_rune
news-IsTopic = record {
  text = b'a' ∷ b'/' ∷ b'b' ∷ [];
  scalars = omega arith;
  nonzero = omega arith;
  encoded = refl;
}

publish_round_trip_example :
    (pkt : Bytes) × (flag : ℕ) × (contents : Bytes) × (pack_publish news ≡ ok pkt)
    × (read_packet (pkt ++ 0xD0 ∷ [])
        ≡ ok
            (record { pkt_type = packet_publish; pkt_flag = flag; contents = contents }, 0xD0 ∷ []))
    × (parse_publish flag contents ≡ ok (received news))
publish_round_trip_example = publish_round_trip news (0xD0 ∷ []) (omega arith) news-IsTopic

news_parsed : parse_publish 3 (publish_contents news) ≡ ok news
unfolding parse_publish parse_qos parse_id unpack_string unpack_uint16 unpack_contents check_runes
    runes runes_from decode_rune encode_runes encode_rune
news_parsed = refl

parse_publish-Accepted_example : Accepted 3 (publish_contents news) news
parse_publish-Accepted_example =
    parse_publish-Accepted 3 (publish_contents news) news (omega arith) news_parsed

abbrev hello : PktConnect
hello = record {
  protocol_level = 4;
  clean_session = true;
  keep_alive = 300;
  client_id = b'c' ∷ [];
  user_name = b'u' ∷ [];
  password = [];
  will = some news;
}

connect_round_trip_example :
    (pkt : Bytes) × (contents : Bytes) × (pack_connect hello ≡ ok pkt)
    × (read_packet (pkt ++ [])
        ≡ ok (record { pkt_type = packet_connect; pkt_flag = 0; contents = contents }, []))
    × (decode_connect contents ≡ some (requested hello))
connect_round_trip_example = connect_round_trip hello [] (omega arith) refl refl (omega arith)

abbrev no_options : ConnectOptions
no_options = record {
  user_name = [];
  password = [];
  clean_session = false;
  keep_alive = 0;
  will = none;
  protocol_level = 4;
}

abbrev set_options : ConnectOptions
set_options = record no_options { keep_alive = 60; will = some news }

options_applied :
    apply_options (with_will news ∷ with_keep_alive 60 ∷ []) no_options ≡ ok set_options
unfolding apply_options with_will with_keep_alive
options_applied = refl

abbrev two_topics : List Subscription
two_topics =
    record { topic = b'a' ∷ []; qos = 1 } ∷ record { topic = b'b' ∷ b'c' ∷ []; qos = 2 } ∷ []

subscribe_round_trip_example :
    (pkt : Bytes) × (contents : Bytes) × (pack_subscribe
        (record { id = 5; subscriptions = two_topics })
      ≡ ok pkt)
    × (read_packet (pkt ++ [])
        ≡ ok (record { pkt_type = packet_subscribe; pkt_flag = 2; contents = contents }, []))
    × (decode_subscribe contents ≡ some (record { id = 5; subscriptions = two_topics }))
subscribe_round_trip_example =
    subscribe_round_trip (record { id = 5; subscriptions = two_topics }) [] (omega arith)
      (omega arith) (omega arith)

abbrev topics_only : List Bytes
topics_only = (b'a' ∷ []) ∷ (b'b' ∷ b'c' ∷ []) ∷ []
