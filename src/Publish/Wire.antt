-- ===== src/Publish/Wire.antt =====
-- The bytes of a PUBLISH packet in plain terms, and what Pack makes.
use mqtt_go.Base.{
  ℕ, ◌+◌, ◌*◌, ◌^◌, ◌≤◌, ◌<◌, ◌≡◌, ◌⊎◌, ap, ◌∙◌, Bool, [], ◌∷◌, ◌++◌, append-nil, append_assoc,
  length, flatten, if◌then◌else◌, ◌==◌, not, arith, inl, inr, ◌↔◌, dec_lt,
}
use mqtt_go.Base.Bits.{Bytes}
use mqtt_go.Base.Outcome.{ok, panic}
use mqtt_go.Message.{Message, qos0}
use mqtt_go.Packet.{pack, append_string, append_uint16}
use mqtt_go.Packet.Strings.{
  uint16_field, string_field, append_bytes-ok, append_bytes-panic, append_uint16-field,
}
use mqtt_go.Packet.Framing.{frame, pack-ok, pack-panic}
use mqtt_go.Publish.{publish_header, pack_publish}

abbrev pub bit : Bool → ℕ
bit b = if b then 1 else 0

-- DUP, two bits of QoS, RETAIN.
abbrev pub publish_flags : Message → ℕ
publish_flags m = bit m.dup * 8 + m.qos * 2 + bit m.retain

abbrev pub id_field : Message → Bytes
id_field m = if m.qos == 0 then [] else uint16_field m.id

abbrev pub publish_contents : Message → Bytes
publish_contents m = string_field m.topic ++ (id_field m ++ m.payload)

-- What the packet has room for.
pub record Fits (m : Message) : Type 0 where
  pub qos_valid : m.qos ≤ 2
  pub id_small : m.id < 65536
  pub topic_short : length m.topic < 65536
  pub contents_short : length (publish_contents m) < 2 ^ 28

publish_header-ok : (m : Message) → m.qos ≤ 2 → publish_header m ≡ ok (0x30 + publish_flags m)
unfolding publish_header
publish_header-ok m h = ground arith

publish_header-panic : (m : Message) → 2 < m.qos → publish_header m ≡ panic
unfolding publish_header
publish_header-panic m h = ground arith

abbrev header_bytes : Message → Bytes
header_bytes m =
    if not (m.qos == qos0) then append_uint16 (string_field m.topic) m.id else string_field m.topic

header_bytes-ok : (m : Message) → m.id < 65536 → header_bytes m ≡ string_field m.topic ++ id_field m
header_bytes-ok m h =
    ground
      (arith, append_uint16-field (string_field m.topic) m.id h, append-nil (string_field m.topic))

contents_lem :
    (m : Message) → m.id < 65536 → flatten (header_bytes m ∷ m.payload ∷ []) ≡ publish_contents m
contents_lem m h =
    rw (header_bytes-ok m h)
      (rw (append-nil m.payload) (append_assoc (string_field m.topic) (id_field m) m.payload))

-- With a short topic and a valid QoS, Pack is `pack` of the header byte and the contents.
pack_publish_lem :
    (m : Message)
    → m.qos ≤ 2
    → length m.topic < 65536
    → pack_publish m ≡ pack (0x30 + publish_flags m) (header_bytes m ∷ m.payload ∷ [])
unfolding pack_publish append_string
pack_publish_lem m q t = rw (publish_header-ok m q) (rw (append_bytes-ok [] m.topic t))

pub pack_publish-ok :
    (m : Message)
    → Fits m
    → pack_publish m ≡ ok (frame (0x30 + publish_flags m) (publish_contents m))
pack_publish-ok m h =
    let same = contents_lem m h.id_small in
    pack_publish_lem m h.qos_valid h.topic_short
    ∙ pack-ok _ _ (rw same h.contents_short)
    ∙ ap (λ c. ok (frame (0x30 + publish_flags m) c)) same

bad_qos-panic : (m : Message) → 2 < m.qos → pack_publish m ≡ panic
unfolding pack_publish
bad_qos-panic m h = rw (publish_header-panic m h)

long_topic-panic : (m : Message) → 65536 ≤ length m.topic → pack_publish m ≡ panic
unfolding pack_publish append_string
long_topic-panic m h = elim (dec_lt 2 m.qos) [
  | yes q ↦ rw (publish_header-panic m q)
  | no q ↦ rw (publish_header-ok m (omega arith)) (rw (append_bytes-panic [] m.topic h))
]

long_contents-panic :
    (m : Message) → m.id < 65536 → 2 ^ 28 ≤ length (publish_contents m) → pack_publish m ≡ panic
long_contents-panic m i h = elim (dec_lt 2 m.qos) [
  | yes q ↦ bad_qos-panic m q
  | no q ↦ elim (dec_lt (length m.topic) 65536) [
    | yes t ↦ pack_publish_lem m (omega arith) t ∙ pack-panic _ _ (rw (contents_lem m i) h)
    | no t ↦ long_topic-panic m (omega arith)
  ]
]

-- Pack panics exactly on a message whose QoS is above 2, whose topic has 65536 bytes or more,
-- or whose contents have 2 ^ 28 bytes or more (for an identifier of 16 bits).
pub pack_publish-panic_iff :
    (m : Message)
    → m.id < 65536
    → (pack_publish m ≡ panic)
      ↔ ((2 < m.qos) ⊎ ((65536 ≤ length m.topic) ⊎ (2 ^ 28 ≤ length (publish_contents m))))
pack_publish-panic_iff m h = (forth, back)
  where
    forth :
        pack_publish m ≡ panic
        → (2 < m.qos) ⊎ ((65536 ≤ length m.topic) ⊎ (2 ^ 28 ≤ length (publish_contents m)))
    forth e = elim (dec_lt 2 m.qos) [
      | yes q ↦ inl q
      | no q ↦ elim (dec_lt (length m.topic) 65536) [
        | no t ↦ inr (inl (omega arith))
        | yes t ↦ elim (dec_lt (length (publish_contents m)) (2 ^ 28)) [
          | no c ↦ inr (inr (omega arith))
          | yes c ↦ cc (
            e,
            pack_publish-ok m (record {
              qos_valid = omega arith;
              id_small = h;
              topic_short = t;
              contents_short = c;
            }),
          )
        ]
      ]
    ]

    back :
        (2 < m.qos) ⊎ ((65536 ≤ length m.topic) ⊎ (2 ^ 28 ≤ length (publish_contents m)))
        → pack_publish m ≡ panic
    back (inl q) = bad_qos-panic m q
    back (inr (inl t)) = long_topic-panic m t
    back (inr (inr c)) = long_contents-panic m h c
