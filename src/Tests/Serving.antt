-- ===== src/Tests/Serving.antt =====
-- The reading loop at concrete values.
use mqtt_go.Base.{
  ℕ, ◌≤◌, ◌≡◌, ◌≢◌, ◌↔◌, ◌<◌, refl, true, false, [], ◌∷◌, ◌++◌, length, none, some, lookup, arith,
}
use mqtt_go.Base.Bits.{Bytes}
use mqtt_go.Base.Outcome.{ok, panic}
use mqtt_go.Errors.{Go}
use mqtt_go.Message.{Message}
use mqtt_go.Packet.{RawPacket, packet_sub_ack, packet_pub_rec, packet_pub_comp}
use mqtt_go.Packet.Runes.{encode_runes, encode_rune}
use mqtt_go.Packet.Framing.{frame}
use mqtt_go.Packet.Strings.{uint16_field}
use mqtt_go.Ack.{pack_pub_rel}
use mqtt_go.Publish.{pack_publish}
use mqtt_go.Publish.RoundTrip.{IsTopic}
use mqtt_go.Signaller.{
  Signaller, pub_ack_signal, pub_rec_signal, pub_comp_signal, sub_ack_signal, unsub_ack_signal,
}
use mqtt_go.Serve.{
  wrote, served, Server, Transport, serve_packet, serve, on_pub_ack, on_pub_rec, on_pub_comp,
  on_sub_ack, on_unsub_ack,
}
use mqtt_go.Serve.Switch.{serve_packet-panic_iff}
use mqtt_go.Serve.Total.{Ended, serve-Ended}
use mqtt_go.Serve.Acks.{WakesOnce, acks-WakesOnce}
use mqtt_go.Serve.Stream.{handled, serve-pubrel}
use mqtt_go.Serve.Once.{exactly_once}
use mqtt_go.Serve.Balance.{handed_count, rec_count}
use mqtt_go.Serve.Invariant.{serve-handed_count}

abbrev two_requests : Signaller
two_requests = record {
  ch_conn_ack = none;
  ch_ping_resp = none;
  ch_pub_ack = (7, 0) ∷ [];
  ch_pub_rec = (7, 1) ∷ [];
  ch_pub_comp = [];
  ch_sub_ack = [];
  ch_unsub_ack = [];
}

abbrev fresh : Server
fresh = record {
  has_handler = true;
  sig = two_requests;
  channels = λ c. none;
  sub_buffer = [];
  writes = 0;
  trace = [];
}

abbrev open_transport : Transport
open_transport k = none

abbrev short_sub_ack : RawPacket
short_sub_ack = record { pkt_type = 0x90; pkt_flag = 0; contents = 1 ∷ [] }

serve_packet-panic_iff_example : ((serve_packet open_transport short_sub_ack fresh).1 ≡ panic) ↔ (
    (short_sub_ack.pkt_type ≡ packet_sub_ack)
    × (short_sub_ack.pkt_flag ≡ 0)
    × (length short_sub_ack.contents < 2))
serve_packet-panic_iff_example = serve_packet-panic_iff open_transport short_sub_ack fresh

-- PUBLISH at QoS 2 with the topic "a", the identifier 9 and no payload.
abbrev input : Bytes
input = 0x34 ∷ 5 ∷ 0 ∷ 1 ∷ 97 ∷ 0 ∷ 9 ∷ []

serve-Ended_example : Ended (serve 8 open_transport input fresh)
serve-Ended_example = serve-Ended 8 open_transport input fresh (omega arith)

serve-handed_count_example :
    (s' : Server) × (r : Go (Unit {0})) × (serve 8 open_transport input fresh ≡ some (s', r))
    × (r ≢ ok tt)
    × ((id : ℕ) → handed_count id s'.trace ≤ rec_count id s'.trace)
serve-handed_count_example = serve-handed_count 8 open_transport input fresh (omega arith) refl refl

acks-WakesOnce_example :
    WakesOnce
      (on_pub_ack 0 (uint16_field 7 ++ []))
      (λ x. x.ch_pub_ack)
      (λ m x. record x { ch_pub_ack = m })
      7
      (pub_ack_signal (record { id = 7 }))
      fresh
    × WakesOnce
        (on_pub_rec 0 (uint16_field 7 ++ []))
        (λ x. x.ch_pub_rec)
        (λ m x. record x { ch_pub_rec = m })
        7
        (pub_rec_signal (record { id = 7 }))
        fresh
    × WakesOnce
        (on_pub_comp 0 (uint16_field 7 ++ []))
        (λ x. x.ch_pub_comp)
        (λ m x. record x { ch_pub_comp = m })
        7
        (pub_comp_signal (record { id = 7 }))
        fresh
    × WakesOnce
        (on_sub_ack 0 (uint16_field 7 ++ []))
        (λ x. x.ch_sub_ack)
        (λ m x. record x { ch_sub_ack = m })
        7
        (sub_ack_signal (record { id = 7; codes = [] }))
        fresh
    × WakesOnce
        (on_unsub_ack 0 (uint16_field 7 ++ []))
        (λ x. x.ch_unsub_ack)
        (λ m x. record x { ch_unsub_ack = m })
        7
        (unsub_ack_signal (record { id = 7 }))
        fresh
acks-WakesOnce_example = acks-WakesOnce 7 [] fresh (omega arith)

abbrev letter : Message
letter = record {
  topic = b'a' ∷ [];
  id = 9;
  qos = 2;
  retain = false;
  dup = false;
  payload = 1 ∷ [];
}

abbrev letter_again : Message
letter_again = record letter { dup = true }

letter-IsTopic : IsTopic (b'a' ∷ [])
unfolding encode_runes encode_rune
letter-IsTopic = record {
  text = b'a' ∷ [];
  scalars = omega arith;
  nonzero = omega arith;
  encoded = refl;
}

serve-pubrel_example :
    (pkt : Bytes) × (pack_pub_rel (record { id = 9 }) ≡ ok pkt)
    × (serve 3 open_transport (pkt ++ []) fresh
        ≡ serve 2 open_transport [] (handled 9 (lookup 9 fresh.sub_buffer) fresh))
serve-pubrel_example = serve-pubrel 2 open_transport 9 [] fresh (omega arith) refl

exactly_once_example :
    (p p' rel : Bytes) × (s' : Server) × (pack_publish letter ≡ ok p)
    × (pack_publish letter_again ≡ ok p')
    × (pack_pub_rel (record { id = 9 }) ≡ ok rel)
    × (serve 5 open_transport (p ++ (p' ++ (rel ++ (rel ++ [])))) fresh
        ≡ serve 1 open_transport [] s')
    × (s'.trace
        ≡ wrote (frame packet_pub_comp (uint16_field 9))
          ∷ served letter_again
          ∷ wrote (frame packet_pub_rec (uint16_field 9))
          ∷ wrote (frame packet_pub_rec (uint16_field 9))
          ∷ [])
exactly_once_example =
    exactly_once 1 open_transport letter letter_again [] fresh (omega arith) (omega arith)
      letter-IsTopic letter-IsTopic refl refl refl refl (λ k. refl)
