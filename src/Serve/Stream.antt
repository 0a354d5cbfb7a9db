-- ===== src/Serve/Stream.antt =====
-- What the reading loop does with a PUBLISH and with a PUBREL, from the bytes of the stream on.
use mqtt_go.Base.{
  ℕ, suc, ◌<◌, ◌≤◌, ◌≡◌, Bool-cases, Option-cases, inl, inr, refl, ap, true, [], ◌∷◌, ◌++◌, Option,
  none, some, lookup, delete, insert, ◌==◌, if◌then◌else◌, String, arith,
}
use mqtt_go.Base.Bits.{Bytes}
use mqtt_go.Base.Outcome.{ok}
use mqtt_go.Message.{Message}
use mqtt_go.Packet.{packet_pub_ack, packet_pub_rec, packet_pub_comp, RawPacket, read_packet}
use mqtt_go.Packet.Framing.{frame, read_packet-frame}
use mqtt_go.Packet.Strings.{uint16_field}
use mqtt_go.Ack.{pack_pub_ack, pack_pub_rec, pack_pub_rel, pack_pub_comp}
use mqtt_go.Ack.RoundTrip.{pack_id}
use mqtt_go.Ack.Answers.{pub_rel-field}
use mqtt_go.Publish.{pack_publish}
use mqtt_go.Publish.Wire.{Fits}
use mqtt_go.Publish.RoundTrip.{IsTopic, received, publish_round_trip}
use mqtt_go.Serve.{
  wrote, Server, Transport, answered, and_then, reply, write, serve_message, receive_message,
  release_message, on_publish, on_pub_rel, serve_packet, serve,
}

-- The state after a packet of two bytes of contents was written.
abbrev pub sent : ℕ → ℕ → Server → Server
sent header id s = record s {
  writes = suc s.writes;
  trace = wrote (frame header (uint16_field id)) ∷ s.trace;
}

write-ok :
    (t : Transport) (b : ℕ) (bs : Bytes) (s : Server)
    → t s.writes ≡ none
    → write t (b ∷ bs) s
      ≡ (record s { writes = suc s.writes; trace = wrote (b ∷ bs) ∷ s.trace }, none)
unfolding write
write-ok t b bs s e = rw (e, write) refl

module _ (t : Transport) (id : ℕ) (f : String) (s : Server) (h : id < 65536)
    (e : t s.writes ≡ none) where
  pub reply-pub_ack :
      reply t (pack_pub_ack (record { id = id })) f s ≡ (sent packet_pub_ack id s, ok tt)
  unfolding reply pack_pub_ack
  reply-pub_ack = rw (pack_id id h packet_pub_ack) (ap (answered f) (write-ok t _ _ s e))

  pub reply-pub_rec :
      reply t (pack_pub_rec (record { id = id })) f s ≡ (sent packet_pub_rec id s, ok tt)
  unfolding reply pack_pub_rec
  reply-pub_rec = rw (pack_id id h packet_pub_rec) (ap (answered f) (write-ok t _ _ s e))

  pub reply-pub_comp :
      reply t (pack_pub_comp (record { id = id })) f s ≡ (sent packet_pub_comp id s, ok tt)
  unfolding reply pack_pub_comp
  reply-pub_comp = rw (pack_id id h packet_pub_comp) (ap (answered f) (write-ok t _ _ s e))

-- What the standard asks of a receiver: hand over at QoS 0; hand over, then PUBACK at QoS 1; PUBREC
-- and keep the message at QoS 2.
abbrev pub taken : Message → Server → Server
taken m s =
    if m.qos == 0
    then serve_message m s
    else if m.qos == 1
    then sent packet_pub_ack m.id (serve_message m s)
    else (let s' = sent packet_pub_rec m.id s in
        record s' { sub_buffer = insert m.id m s'.sub_buffer })

writes-serve_message : (m : Message) (s : Server) → (serve_message m s).writes ≡ s.writes
unfolding serve_message
writes-serve_message m s = ground arith

pub receive_message-taken :
    (t : Transport) (m : Message) (s : Server)
    → m.qos ≤ 2
    → m.id < 65536
    → t s.writes ≡ none
    → receive_message t m s ≡ (taken m s, ok tt)
unfolding receive_message
receive_message-taken t m s q h e = elim (Bool-cases (m.qos == 0)) [
  | inl z ↦ rw z refl
  | inr z ↦ elim (Bool-cases (m.qos == 1)) [
    | inl o ↦
        rw z (rw o (reply-pub_ack t m.id _ (serve_message m s) h (rw (writes-serve_message m s) e)))
    | inr o ↦
        let two : (m.qos == 2) ≡ true = ground arith in
        rw z (rw o (rw two (rw (reply-pub_rec t m.id "sending PUBREC" s h e) refl)))
  ]
]

-- One round of the loop on a packet that readPacket gives back.
round :
    (fuel : ℕ) (t : Transport) (input rest : Bytes) (p : RawPacket) (s s' : Server)
    → read_packet input ≡ ok (p, rest)
    → serve_packet t p s ≡ (s', ok tt)
    → serve (suc fuel) t input s ≡ serve fuel t rest s'
unfolding serve
round fuel t input rest p s s' e q =
    rw (e, serve) (ap (λ r. and_then some r (λ x. serve fuel t rest x)) q)

received-small : (m : Message) → Fits m → (received m).id < 65536
received-small m h = ground (arith, h.id_small)

pub serve-publish :
    (fuel : ℕ) (t : Transport) (m : Message) (rest : Bytes) (s : Server)
    → Fits m
    → IsTopic m.topic
    → t s.writes ≡ none
    → (pkt : Bytes) × (pack_publish m ≡ ok pkt)
      × (serve (suc fuel) t (pkt ++ rest) s ≡ serve fuel t rest (taken (received m) s))
unfolding serve_packet on_publish
serve-publish fuel t m rest s h topic e =
    let (pkt, flag, contents, packed, framed, parsed) = publish_round_trip m rest h topic in
    (
      pkt,
      packed,
      round fuel t (pkt ++ rest) rest _ s _ framed
          (rw parsed (receive_message-taken t (received m) s h.qos_valid (received-small m h) e)),
    )

-- The state after a PUBREL for a message that is kept.
abbrev pub handed_over : ℕ → Message → Server → Server
handed_over id m s =
    let s' = serve_message m s in
    sent packet_pub_comp id (record s' { sub_buffer = delete id s'.sub_buffer })

-- The state after a PUBREL, by what the buffer holds for its identifier.
abbrev pub handled : ℕ → Option Message → Server → Server
handled id none s = s
handled id (some m) s = handed_over id m s

release_message-handled :
    (t : Transport) (id : ℕ) (s : Server)
    → id < 65536
    → t s.writes ≡ none
    → release_message t id s ≡ (handled id (lookup id s.sub_buffer) s, ok tt)
unfolding release_message
release_message-handled t id s h e = elim (Option-cases (lookup id s.sub_buffer)) [
  | inl gone ↦ rw gone refl
  | inr (m, kept) ↦
      rw kept (reply-pub_comp t id "sending PUBCOMP" _ h (rw (writes-serve_message m s) e))
]

pub pubrel_round :
    (fuel : ℕ) (t : Transport) (id : ℕ) (rest : Bytes) (s : Server)
    → id < 65536
    → t s.writes ≡ none
    → serve (suc fuel) t (frame 0x62 (uint16_field id) ++ rest) s
      ≡ serve fuel t rest (handled id (lookup id s.sub_buffer) s)
unfolding serve_packet on_pub_rel
pubrel_round fuel t id rest s h e =
    round fuel t (frame 0x62 (uint16_field id) ++ rest) rest _ s _
      (read_packet-frame 0x62 (uint16_field id) rest (omega arith) (omega arith))
      (rw (pub_rel-field id [] h) (release_message-handled t id s h e))

-- A PUBREL that a peer packs is taken by the loop from the stream, where the transport takes the
-- reply: if a message is kept for its identifier, the handler is called with it, then it is
-- kept no more and PUBCOMP is sent; if not, nothing happens, and no PUBCOMP is sent.
pub serve-pubrel :
    (fuel : ℕ) (t : Transport) (id : ℕ) (rest : Bytes) (s : Server)
    → id < 65536
    → t s.writes ≡ none
    → (pkt : Bytes) × (pack_pub_rel (record { id = id }) ≡ ok pkt)
      × (serve (suc fuel) t (pkt ++ rest) s
          ≡ serve fuel t rest (handled id (lookup id s.sub_buffer) s))
unfolding pack_pub_rel
serve-pubrel fuel t id rest s h e =
    (frame 0x62 (uint16_field id), pack_id id h 0x62, pubrel_round fuel t id rest s h e)
