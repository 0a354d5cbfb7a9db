-- ===== src/Serve/Once.antt =====
-- A message of QoS 2 is handed over once.
use mqtt_go.Base.{
  ℕ, suc, ◌≡◌, refl, ap, ◌∙◌, true, ◌∷◌, ◌++◌, none, some, lookup, insert, lookup-insert,
  lookup-delete,
}
use mathlib.Core.Path.{subst}
use mqtt_go.Base.Bits.{Bytes}
use mqtt_go.Base.Outcome.{ok}
use mqtt_go.Message.{Message}
use mqtt_go.Packet.{packet_pub_rec, packet_pub_comp}
use mqtt_go.Packet.Framing.{frame}
use mqtt_go.Packet.Strings.{uint16_field}
use mqtt_go.Ack.{pack_pub_rel}
use mqtt_go.Ack.RoundTrip.{pack_id}
use mqtt_go.Publish.{pack_publish}
use mqtt_go.Publish.Wire.{Fits}
use mqtt_go.Publish.RoundTrip.{IsTopic, received}
use mqtt_go.Serve.{served, wrote, Server, Transport, serve_message, serve}
use mqtt_go.Serve.Stream.{sent, taken, handled, serve-publish, pubrel_round}

-- The state after a message of QoS 2.
abbrev kept : Message → Server → Server
kept m s =
    let s' = sent packet_pub_rec m.id s in record s' { sub_buffer = insert m.id m s'.sub_buffer }

taken-kept : (m : Message) (s : Server) → m.qos ≡ 2 → taken (received m) s ≡ kept m s
taken-kept m s q = rw q refl

-- After the two messages of the same identifier, and two PUBRELs.
last_state : Message → Message → Server → Server
last_state m m' s =
    let s2 = kept m' (kept m s) in
    let s3 = handled m.id (lookup m.id s2.sub_buffer) s2 in
    handled m.id (lookup m.id s3.sub_buffer) s3

module _ (m m' : Message) (s : Server) (handler : s.has_handler ≡ true) (same : m'.id ≡ m.id) where
  found : lookup m.id (insert m'.id m' (kept m s).sub_buffer) ≡ some m'
  found =
      subst (λ i. lookup i (insert m'.id m' (kept m s).sub_buffer) ≡ some m') same
        (lookup-insert m'.id m' (kept m s).sub_buffer)

  last_trace :
      (last_state m m' s).trace
      ≡ wrote (frame packet_pub_comp (uint16_field m.id))
        ∷ served m'
        ∷ wrote (frame packet_pub_rec (uint16_field m.id))
        ∷ wrote (frame packet_pub_rec (uint16_field m.id))
        ∷ s.trace
  unfolding last_state serve_message
  last_trace =
      rw found (rw handler (rw (lookup-delete m.id (kept m' (kept m s)).sub_buffer) (rw same refl)))

-- A peer that publishes at QoS 2, publishes once more with the same identifier, for want of the
-- PUBREC, and sends PUBREL twice: where there is a handler and the transport takes what is
-- written, the handler is called once, with the later message, after both PUBRECs and before the
-- only PUBCOMP.
pub exactly_once :
    (fuel : ℕ) (t : Transport) (m m' : Message) (rest : Bytes) (s : Server)
    → Fits m
    → Fits m'
    → IsTopic m.topic
    → IsTopic m'.topic
    → m.qos ≡ 2
    → m'.qos ≡ 2
    → m'.id ≡ m.id
    → s.has_handler ≡ true
    → ((k : ℕ) → t k ≡ none)
    → (p p' rel : Bytes) × (s' : Server) × (pack_publish m ≡ ok p)
      × (pack_publish m' ≡ ok p')
      × (pack_pub_rel (record { id = m.id }) ≡ ok rel)
      × (serve (suc (suc (suc (suc fuel)))) t (p ++ (p' ++ (rel ++ (rel ++ rest)))) s
          ≡ serve fuel t rest s')
      × (s'.trace
          ≡ wrote (frame packet_pub_comp (uint16_field m.id))
            ∷ served m'
            ∷ wrote (frame packet_pub_rec (uint16_field m.id))
            ∷ wrote (frame packet_pub_rec (uint16_field m.id))
            ∷ s.trace)
unfolding pack_pub_rel last_state
exactly_once fuel t m m' rest s h h' topic topic' q q' same handler free =
    let rel = frame 0x62 (uint16_field m.id) in
    let (p', packed', second) =
      serve-publish (suc (suc fuel)) t m' (rel ++ (rel ++ rest)) (kept m s) h' topic' (free _) in
    let (p, packed, first) =
      serve-publish (suc (suc (suc fuel))) t m (p' ++ (rel ++ (rel ++ rest))) s h topic (free _) in
    let s2 = kept m' (kept m s) in
    let s3 = handled m.id (lookup m.id s2.sub_buffer) s2 in
    (
      p,
      p',
      rel,
      last_state m m' s,
      packed,
      packed',
      pack_id m.id (h.id_small) 0x62,
      first
          ∙ ap (λ x. serve (suc (suc (suc fuel))) t (p' ++ (rel ++ (rel ++ rest))) x)
              (taken-kept m s q)
          ∙ second
          ∙ ap (λ x. serve (suc (suc fuel)) t (rel ++ (rel ++ rest)) x)
              (taken-kept m' (kept m s) q')
          ∙ pubrel_round (suc fuel) t m.id (rel ++ rest) s2 (h.id_small) (free _)
          ∙ pubrel_round fuel t m.id rest s3 (h.id_small) (free _),
      last_trace m m' s handler same,
    )
