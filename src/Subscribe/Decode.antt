-- ===== src/Subscribe/Decode.antt =====
-- Readers of SUBSCRIBE and UNSUBSCRIBE after sections 3.8 and 3.10 of the MQTT 3.1.1 standard,
-- independent of the code: what a broker recovers from the contents that Pack makes.
use mqtt_go.Base.{
  ℕ, zero, suc, ◌+◌, ◌*◌, ◌/◌, ◌%◌, ◌^◌, ◌≤◌, ◌<◌, ◌≡◌, refl, ap, sym, ◌∙◌, List, [], ◌∷◌, ◌++◌,
  append-nil, append_assoc, length, length-append, All, arith, Option, none, some, flatten,
}
use mqtt_go.Base.Bits.{Bytes}
use mqtt_go.Base.Outcome.{ok}
use mqtt_go.Message.{Subscription}
use mqtt_go.Packet.{
  pack, append_string, pack_uint16, packet_subscribe, packet_unsubscribe, read_packet,
}
use mqtt_go.Packet.Strings.{uint16_field, string_field, append_bytes-ok, append_uint16-field}
use mqtt_go.Packet.Framing.{frame, pack-ok, read_packet-typed}
use mqtt_go.Connect.Reader.{take_field}
use mqtt_go.Connect.Decode.{take_field-string_field}
use mqtt_go.Subscribe.{
  PktSubscribe, PktUnsubscribe, subscribe_flag, add_subscriptions, pack_subscribe, add_topics,
  pack_unsubscribe,
}

-- The bytes of the packets in plain terms.
abbrev pub entry : Subscription → Bytes
entry s = string_field s.topic ++ s.qos ∷ []

abbrev pub entries : List Subscription → Bytes
entries [] = []
entries (s ∷ ss) = entry s ++ entries ss

abbrev pub fields : List Bytes → Bytes
fields [] = []
fields (t ∷ ts) = string_field t ++ fields ts

abbrev pub IsShort : Bytes → Type 0
IsShort t = length t < 65536

abbrev pub Requestable : Subscription → Type 0
Requestable s = (length s.topic < 65536) × (s.qos ≤ 2)

subscribe_flag-ok : (q : ℕ) → q ≤ 2 → subscribe_flag q ≡ ok q
unfolding subscribe_flag
subscribe_flag-ok q h = ground arith

append_string-ok : (b s : Bytes) → length s < 65536 → append_string b s ≡ ok (b ++ string_field s)
unfolding append_string
append_string-ok b s h = append_bytes-ok b s h

add_subscriptions-ok :
    (payload : Bytes) (ss : List Subscription)
    → All Requestable ss
    → add_subscriptions payload ss ≡ ok (payload ++ entries ss)
unfolding add_subscriptions
add_subscriptions-ok payload [] h = ap ok (sym (append-nil payload))
add_subscriptions-ok payload (s ∷ ss) ((short, q), hs) =
    rw (append_string-ok payload s.topic short) (
      rw (subscribe_flag-ok s.qos q) (
        add_subscriptions-ok ((payload ++ string_field s.topic) ++ s.qos ∷ []) ss hs
        ∙ simp append_assoc))

add_topics-ok :
    (payload : Bytes) (ts : List Bytes)
    → All IsShort ts
    → add_topics payload ts ≡ ok (payload ++ fields ts)
unfolding add_topics
add_topics-ok payload [] h = ap ok (sym (append-nil payload))
add_topics-ok payload (t ∷ ts) (short, hs) =
    rw (append_string-ok payload t short)
      (add_topics-ok (payload ++ string_field t) ts hs ∙ simp append_assoc)

-- The readers. The fuel bounds the number of entries; each takes at least two bytes.
infixl 5 ◌>>=?◌
abbrev ◌>>=?◌ : {A B : Type 0} → Option A → (A → Option B) → Option B
some a >>=? f = f a
none >>=? f = none

abbrev with_qos : (Bytes → Option (List Subscription)) → Bytes → Bytes → Option (List Subscription)
with_qos next topic [] = none
with_qos next topic (q ∷ s) = next s >>=? λ rest. some (record { topic = topic; qos = q } ∷ rest)

unfoldable pub decode_entries : ℕ → Bytes → Option (List Subscription)
decode_entries fuel [] = some []
decode_entries zero (x ∷ s) = none
decode_entries (suc fuel) (x ∷ s) =
    let next = decode_entries fuel in take_field (x ∷ s) >>=? λ r. with_qos next r.0 r.1

unfoldable pub decode_fields : ℕ → Bytes → Option (List Bytes)
decode_fields fuel [] = some []
decode_fields zero (x ∷ s) = none
decode_fields (suc fuel) (x ∷ s) =
    let next = decode_fields fuel in
    take_field (x ∷ s) >>=? λ r. next r.1 >>=? λ rest. some (r.0 ∷ rest)

unfoldable pub decode_subscribe : Bytes → Option PktSubscribe
decode_subscribe (i0 ∷ i1 ∷ s) =
    decode_entries (length s) s >>=? λ ss. some (record { id = i0 * 256 + i1; subscriptions = ss })
decode_subscribe _ = none

unfoldable pub decode_unsubscribe : Bytes → Option PktUnsubscribe
decode_unsubscribe (i0 ∷ i1 ∷ s) =
    decode_fields (length s) s >>=? λ ts. some (record { id = i0 * 256 + i1; topics = ts })
decode_unsubscribe _ = none

decode_entries_step :
    (s : Subscription) (rest : Bytes) (fuel : ℕ) {ss : List Subscription}
    → length s.topic < 65536
    → decode_entries fuel rest ≡ some ss
    → decode_entries (suc fuel) (string_field s.topic ++ (s.qos ∷ rest)) ≡ some (s ∷ ss)
unfolding decode_entries
decode_entries_step s rest fuel short e =
    rw (take_field-string_field s.topic (s.qos ∷ rest) short) (rw e)

decode_entries_lem :
    (ss : List Subscription) (fuel : ℕ)
    → All Requestable ss
    → length (entries ss) ≤ fuel
    → decode_entries fuel (entries ss) ≡ some ss
decode_entries_lem [] fuel h f = unfold decode_entries in refl
decode_entries_lem (s ∷ ss) zero h f = absurd (omega arith)
decode_entries_lem (s ∷ ss) (suc fuel) ((short, q), hs) f =
    rw (append_assoc s.topic (s.qos ∷ []) (entries ss)) (
      decode_entries_step s (entries ss) fuel short
        (decode_entries_lem ss fuel hs (omega (arith, length-append (entry s) (entries ss)))))

decode_fields_step :
    (t rest : Bytes) (fuel : ℕ) {ts : List Bytes}
    → length t < 65536
    → decode_fields fuel rest ≡ some ts
    → decode_fields (suc fuel) (string_field t ++ rest) ≡ some (t ∷ ts)
unfolding decode_fields
decode_fields_step t rest fuel short e = rw (take_field-string_field t rest short) (rw e)

decode_fields_lem :
    (ts : List Bytes) (fuel : ℕ)
    → All IsShort ts
    → length (fields ts) ≤ fuel
    → decode_fields fuel (fields ts) ≡ some ts
decode_fields_lem [] fuel h f = unfold decode_fields in refl
decode_fields_lem (t ∷ ts) zero h f = absurd (omega arith)
decode_fields_lem (t ∷ ts) (suc fuel) (short, hs) f =
    decode_fields_step t (fields ts) fuel short
      (decode_fields_lem ts fuel hs (omega (arith, length-append (string_field t) (fields ts))))

framed :
    (header : ℕ) (xs ys : Bytes)
    → length (xs ++ ys) < 2 ^ 28
    → pack header (xs ∷ ys ∷ []) ≡ ok (frame header (xs ++ ys))
framed header xs ys h =
    let same : flatten (xs ∷ ys ∷ []) ≡ xs ++ ys = ap (λ t. xs ++ t) (append-nil ys) in
    pack-ok header (xs ∷ ys ∷ []) (rw same h) ∙ ap (λ c. ok (frame header c)) same

id_lem : (i : ℕ) → i < 65536 → pack_uint16 i ≡ uint16_field i
unfolding pack_uint16
id_lem i h = append_uint16-field [] i h

-- Subscriptions with short topics and a QoS of at most 2: Pack makes a SUBSCRIBE packet, and a
-- reader after the standard recovers from the stream the identifier and every subscription.
pub subscribe_round_trip :
    (p : PktSubscribe) (rest : Bytes)
    → p.id < 65536
    → All Requestable p.subscriptions
    → 2 + length (entries p.subscriptions) < 2 ^ 28
    → (pkt : Bytes) × (contents : Bytes) × (pack_subscribe p ≡ ok pkt)
      × (read_packet (pkt ++ rest)
          ≡ ok (record { pkt_type = packet_subscribe; pkt_flag = 2; contents = contents }, rest))
      × (decode_subscribe contents ≡ some p)
unfolding pack_subscribe decode_subscribe
subscribe_round_trip p rest small h short =
    let body = uint16_field p.id ++ entries p.subscriptions in
    let fits : length body < 2 ^ 28 = omega arith in
    let id : p.id / 256 * 256 + p.id % 256 ≡ p.id = omega arith in
    (
      frame 0x82 body,
      body,
      rw (add_subscriptions-ok [] p.subscriptions h)
          (rw (id_lem p.id small) (framed 0x82 (uint16_field p.id) (entries p.subscriptions) fits)),
      read_packet-typed 8 2 body rest (omega arith) (omega arith) fits,
      rw (
        decode_entries_lem p.subscriptions (length (entries p.subscriptions)) h (omega arith),
        id,
      ),
    )

-- Short topics: Pack makes an UNSUBSCRIBE packet, and a reader after the standard recovers from
-- the stream the identifier and every topic.
pub unsubscribe_round_trip :
    (p : PktUnsubscribe) (rest : Bytes)
    → p.id < 65536
    → All IsShort p.topics
    → 2 + length (fields p.topics) < 2 ^ 28
    → (pkt : Bytes) × (contents : Bytes) × (pack_unsubscribe p ≡ ok pkt)
      × (read_packet (pkt ++ rest)
          ≡ ok (record { pkt_type = packet_unsubscribe; pkt_flag = 2; contents = contents }, rest))
      × (decode_unsubscribe contents ≡ some p)
unfolding pack_unsubscribe decode_unsubscribe
unsubscribe_round_trip p rest small h short =
    let body = uint16_field p.id ++ fields p.topics in
    let fits : length body < 2 ^ 28 = omega arith in
    let id : p.id / 256 * 256 + p.id % 256 ≡ p.id = omega arith in
    (
      frame 0xA2 body,
      body,
      rw (add_topics-ok [] p.topics h)
          (rw (id_lem p.id small) (framed 0xA2 (uint16_field p.id) (fields p.topics) fits)),
      read_packet-typed 10 2 body rest (omega arith) (omega arith) fits,
      rw (decode_fields_lem p.topics (length (fields p.topics)) h (omega arith), id),
    )
