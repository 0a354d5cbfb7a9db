-- ===== src/Serve/Switch.antt =====
-- A rule for the `switch` of the reading loop, and which packets make a step panic.
use mqtt_go.Base.{
  ℕ, ◌≡◌, ◌≢◌, ◌↔◌, ◌<◌, refl, Bool, true, false, [], ◌∷◌, length, Option, none, some, lookup, ◌==◌,
  ==_iff, if◌then◌else◌, arith, String,
}
use mqtt_go.Base.Bits.{Bytes}
use mqtt_go.Base.Outcome.{ok, err, panic}
use mqtt_go.Errors.{Err, Go}
use mqtt_go.Message.{Message, qos0, qos1, qos2}
use mqtt_go.Packet.{
  RawPacket, packet_conn_ack, packet_publish, packet_pub_rel, packet_unsub_ack, packet_ping_resp,
  packet_sub_ack, packet_pub_ack, packet_pub_rec, packet_pub_comp, pack, pack_uint16, append_uint16,
  remaining_length,
}
use mqtt_go.Ack.{pack_pub_ack, pack_pub_rec, pack_pub_comp, parse_sub_ack}
use mqtt_go.Ack.RoundTrip.{parsers_ne_panic, parse_sub_ack-panic_iff}
use mqtt_go.Publish.Parsing.{parse_publish-ne-panic}
use mqtt_go.Serve.{
  Server, Step, Transport, after, answered, and_then, reply, write, serve_message, receive_message,
  release_message, released, serve_packet, on_conn_ack, on_publish, on_pub_ack, on_pub_rec,
  on_pub_rel, on_pub_comp, on_sub_ack, on_unsub_ack, on_ping_resp,
}

either :
    (P : Step → Type 0) (b : Bool) {x y : Step}
    → (b ≡ true → P x)
    → (b ≡ false → P y)
    → P (if b then x else y)
either P true f g = f refl
either P false f g = g refl

-- What holds of each case holds of the switch.
module _ (P : Step → Type 0) (t : Transport) (p : RawPacket) (s : Server) where
  pub serve_packet-cases :
      P (on_conn_ack p.pkt_flag p.contents s)
      → P (on_publish t p.pkt_flag p.contents s)
      → P (on_pub_ack p.pkt_flag p.contents s)
      → P (on_pub_rec p.pkt_flag p.contents s)
      → P (on_pub_rel t p.pkt_flag p.contents s)
      → P (on_pub_comp p.pkt_flag p.contents s)
      → (p.pkt_type ≡ packet_sub_ack → P (on_sub_ack p.pkt_flag p.contents s))
      → P (on_unsub_ack p.pkt_flag p.contents s)
      → P (on_ping_resp p.pkt_flag p.contents s)
      → ((e : Err) → P (s, err e))
      → P (serve_packet t p s)
  unfolding serve_packet
  serve_packet-cases c1 c2 c3 c4 c5 c6 c7 c8 c9 c10 =
      either P (p.pkt_type == packet_conn_ack) (λ _. c1)
        (λ _.
          either P (p.pkt_type == packet_publish) (λ _. c2)
            (λ _.
              either P (p.pkt_type == packet_pub_ack) (λ _. c3)
                (λ _.
                  either P (p.pkt_type == packet_pub_rec) (λ _. c4)
                    (λ _.
                      either P (p.pkt_type == packet_pub_rel) (λ _. c5)
                        (λ _.
                          either P (p.pkt_type == packet_pub_comp) (λ _. c6)
                            (λ _.
                              either P (p.pkt_type == packet_sub_ack) (λ e. c7 ((==_iff _ _).0 e))
                                (λ _.
                                  either P (p.pkt_type == packet_unsub_ack) (λ _. c8)
                                    (λ _.
                                      either P (p.pkt_type == packet_ping_resp) (λ _. c9)
                                        (λ _. c10 _)))))))))

-- The step did not panic.
abbrev pub Returns : Step → Type 0
Returns r = r.1 ≢ panic

after-Returns :
    {A : Type 0} (call : Go A) (s : Server) (next : A → Step)
    → call ≢ panic
    → ((a : A) → Returns (next a))
    → Returns (after call s next)
after-Returns (ok a) s next h k = k a
after-Returns (err e) s next h k = λ p. cc
after-Returns panic s next h k = absurd (h refl)

id_packet-ne-panic : (h id : ℕ) → pack h (pack_uint16 id ∷ []) ≢ panic
unfolding pack pack_uint16 append_uint16 remaining_length
id_packet-ne-panic h id e = ground arith

answered-Returns : (f : String) (r : Server × Option Err) → Returns (answered f r)
answered-Returns f (s, none) = λ p. cc
answered-Returns f (s, some e) = λ p. cc

pub reply-Returns :
    (t : Transport) (pkt : Go Bytes) (f : String) (s : Server)
    → pkt ≢ panic
    → Returns (reply t pkt f s)
unfolding reply
reply-Returns t pkt f s h = after-Returns pkt s _ h (λ b. answered-Returns f (write t b s))

and_then-Returns :
    (r : Step) (next : Server → Step)
    → Returns r
    → ((s : Server) → Returns (next s))
    → Returns (and_then (λ r. r) r next)
and_then-Returns (s, ok x) next h k = k s
and_then-Returns (s, err e) next h k = h
and_then-Returns (s, panic) next h k = h

receive_message-Returns :
    (t : Transport) (m : Message) (s : Server) → Returns (receive_message t m s)
unfolding receive_message pack_pub_ack pack_pub_rec
receive_message-Returns t m s =
    either Returns (m.qos == qos0) (λ _ p. cc)
      (λ _.
        either Returns (m.qos == qos1)
          (λ _. reply-Returns t _ _ (serve_message m s) (id_packet-ne-panic packet_pub_ack m.id))
          (λ _.
            either Returns (m.qos == qos2)
              (λ _.
                and_then-Returns _ _
                  (reply-Returns t _ _ s (id_packet-ne-panic packet_pub_rec m.id)) (λ s' p. cc))
              (λ _ p. cc)))

released-Returns :
    (t : Transport) (id : ℕ) (found : Option Message) (s : Server) → Returns (released t id found s)
unfolding pack_pub_comp
released-Returns t id none s = λ p. cc
released-Returns t id (some m) s = reply-Returns t _ _ _ (id_packet-ne-panic packet_pub_comp id)

-- Flags and contents with which the parser of SUBACK fails.
abbrev TooShort : RawPacket → Type 0
TooShort p = (p.pkt_type ≡ packet_sub_ack) × (p.pkt_flag ≡ 0) × (length p.contents < 2)

of_parser :
    {A B : Type 0} (call : Go A) (s : Server) (next : A → Step)
    → call ≢ panic
    → ((a : A) → Returns (next a))
    → (after call s next).1 ≡ panic
    → B
of_parser call s next h k e = absurd (after-Returns call s next h k e)

sub_ack-panic :
    (flag : ℕ) (contents : Bytes) (s : Server)
    → (on_sub_ack flag contents s).1 ≡ panic
    → parse_sub_ack flag contents ≡ panic
unfolding on_sub_ack
sub_ack-panic flag contents s e = ground arith

serve_packet-panic :
    (t : Transport) (p : RawPacket) (s : Server) → (serve_packet t p s).1 ≡ panic → TooShort p
unfolding on_conn_ack on_publish on_pub_ack on_pub_rec on_pub_rel on_pub_comp on_unsub_ack
    on_ping_resp release_message
serve_packet-panic t p s =
    let (ack, rec, rel, comp, unsub, conn, ping) = parsers_ne_panic p.pkt_flag p.contents in
    serve_packet-cases (λ r. r.1 ≡ panic → TooShort p) t p s (of_parser _ _ _ conn (λ a e. cc))
      (of_parser _ _ _ (parse_publish-ne-panic p.pkt_flag p.contents)
        (λ m. receive_message-Returns t m s))
      (of_parser _ _ _ ack (λ a e. cc)) (of_parser _ _ _ rec (λ a e. cc))
      (of_parser _ _ _ rel (λ a. released-Returns t a.id (lookup a.id s.sub_buffer) s))
      (of_parser _ _ _ comp (λ a e. cc))
      (λ sub e.
        let (flag, short) =
          (parse_sub_ack-panic_iff p.pkt_flag p.contents).0
            (sub_ack-panic p.pkt_flag p.contents s e) in
        (sub, flag, short))
      (of_parser _ _ _ unsub (λ a e. cc)) (of_parser _ _ _ ping (λ a e. cc)) (λ x e. cc)

-- A step of the loop panics exactly on a SUBACK with flags 0 and fewer than two bytes of contents.
pub serve_packet-panic_iff :
    (t : Transport) (p : RawPacket) (s : Server)
    → ((serve_packet t p s).1 ≡ panic)
      ↔ ((p.pkt_type ≡ packet_sub_ack) × (p.pkt_flag ≡ 0) × (length p.contents < 2))
unfolding serve_packet on_sub_ack
serve_packet-panic_iff t p s = (
  serve_packet-panic t p s,
  λ (sub, flag, short).
      rw sub (rw flag (rw ((parse_sub_ack-panic_iff 0 p.contents).1 (refl, short)) refl)),
)
