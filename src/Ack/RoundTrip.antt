-- ===== src/Ack/RoundTrip.antt =====
-- The acknowledgements of a publish: what Pack writes, readPacket and Parse read back; and how
-- the parsers of all acknowledgements answer on any bytes.
use mqtt_go.Base.{ℕ, ◌%◌, ◌<◌, ◌≡◌, ◌≢◌, ◌↔◌, [], ◌∷◌, ◌++◌, length, arith, true}
use mqtt_go.Base.Bits.{Bytes, IsBytes, and_one}
use mqtt_go.Base.Outcome.{ok, panic}
use mqtt_go.Errors.{Go}
use mqtt_go.Packet.{
  packet_pub_ack, packet_pub_rec, packet_pub_rel, packet_pub_comp, pack, pack_uint16, unpack_uint16,
  read_packet,
}
use mqtt_go.Packet.Strings.{uint16_field, append_uint16-field, unpack_uint16-field}
use mqtt_go.Packet.Framing.{frame, pack-ok, read_packet-frame}
use mqtt_go.Ack.{
  PktConnAck, parse_pub_ack, parse_pub_rec, parse_pub_rel, parse_pub_comp, parse_unsub_ack,
  parse_sub_ack, parse_conn_ack, parse_ping_resp, pack_pub_ack, pack_pub_rec, pack_pub_rel,
  pack_pub_comp,
}

-- Packed, sent in front of any bytes, read from the stream as a packet of type `ty` and parsed,
-- the value comes back.
abbrev pub Survives : {P : Type 0} → (P → Go Bytes) → (ℕ → Bytes → Go P) → ℕ → P → Type 0
Survives pack_it parse_it ty p =
    (rest : Bytes)
    → (pkt : Bytes) × (flag : ℕ) × (contents : Bytes) × (pack_it p ≡ ok pkt)
      × (read_packet (pkt ++ rest)
          ≡ ok (record { pkt_type = ty; pkt_flag = flag; contents = contents }, rest))
      × (parse_it flag contents ≡ ok p)

module _ (id : ℕ) (h : id < 65536) where
  pub pack_id :
      (header : ℕ) → pack header (pack_uint16 id ∷ []) ≡ ok (frame header (uint16_field id))
  unfolding pack_uint16
  pack_id header =
      rw (append_uint16-field [] id h) (pack-ok header (uint16_field id ∷ []) (omega arith))

  unpack_id : unpack_uint16 (uint16_field id) ≡ ok (2, id)
  unpack_id = unpack_uint16-field id [] h

  pub_ack_lem : Survives pack_pub_ack parse_pub_ack packet_pub_ack (record { id = id })
  unfolding pack_pub_ack parse_pub_ack
  pub_ack_lem rest = (
    frame packet_pub_ack (uint16_field id),
    0,
    uint16_field id,
    pack_id packet_pub_ack,
    read_packet-frame packet_pub_ack (uint16_field id) rest (omega arith) (omega arith),
    rw unpack_id,
  )

  pub_rec_lem : Survives pack_pub_rec parse_pub_rec packet_pub_rec (record { id = id })
  unfolding pack_pub_rec parse_pub_rec
  pub_rec_lem rest = (
    frame packet_pub_rec (uint16_field id),
    0,
    uint16_field id,
    pack_id packet_pub_rec,
    read_packet-frame packet_pub_rec (uint16_field id) rest (omega arith) (omega arith),
    rw unpack_id,
  )

  pub_rel_lem : Survives pack_pub_rel parse_pub_rel packet_pub_rel (record { id = id })
  unfolding pack_pub_rel parse_pub_rel
  pub_rel_lem rest = (
    frame 0x62 (uint16_field id),
    2,
    uint16_field id,
    pack_id 0x62,
    read_packet-frame 0x62 (uint16_field id) rest (omega arith) (omega arith),
    rw unpack_id,
  )

  pub_comp_lem : Survives pack_pub_comp parse_pub_comp packet_pub_comp (record { id = id })
  unfolding pack_pub_comp parse_pub_comp
  pub_comp_lem rest = (
    frame packet_pub_comp (uint16_field id),
    0,
    uint16_field id,
    pack_id packet_pub_comp,
    read_packet-frame packet_pub_comp (uint16_field id) rest (omega arith) (omega arith),
    rw unpack_id,
  )

-- PUBACK, PUBREC, PUBREL and PUBCOMP with any identifier of 16 bits: packed, read from the
-- stream and parsed, each comes back.
pub acks_round_trip :
    (id : ℕ)
    → id < 65536
    → Survives pack_pub_ack parse_pub_ack packet_pub_ack (record { id = id })
      × Survives pack_pub_rec parse_pub_rec packet_pub_rec (record { id = id })
      × Survives pack_pub_rel parse_pub_rel packet_pub_rel (record { id = id })
      × Survives pack_pub_comp parse_pub_comp packet_pub_comp (record { id = id })
acks_round_trip id h = (pub_ack_lem id h, pub_rec_lem id h, pub_rel_lem id h, pub_comp_lem id h)

-- No parser of PUBACK, PUBREC, PUBREL, PUBCOMP, UNSUBACK, CONNACK and PINGRESP panics, whatever
-- the flags and the contents.
pub parsers_ne_panic :
    (flag : ℕ) (contents : Bytes)
    → (parse_pub_ack flag contents ≢ panic)
      × (parse_pub_rec flag contents ≢ panic)
      × (parse_pub_rel flag contents ≢ panic)
      × (parse_pub_comp flag contents ≢ panic)
      × (parse_unsub_ack flag contents ≢ panic)
      × (parse_conn_ack flag contents ≢ panic)
      × (parse_ping_resp flag contents ≢ panic)
unfolding parse_pub_ack parse_pub_rec parse_pub_rel parse_pub_comp parse_unsub_ack parse_conn_ack
    parse_ping_resp unpack_uint16
parsers_ne_panic flag [] = (
  λ e. ground arith,
  λ e. ground arith,
  λ e. ground arith,
  λ e. ground arith,
  λ e. ground arith,
  λ e. ground arith,
  λ e. ground arith,
)
parsers_ne_panic flag (a ∷ []) = (
  λ e. ground arith,
  λ e. ground arith,
  λ e. ground arith,
  λ e. ground arith,
  λ e. ground arith,
  λ e. ground arith,
  λ e. ground arith,
)
parsers_ne_panic flag (a ∷ b ∷ c) = (
  λ e. ground arith,
  λ e. ground arith,
  λ e. ground arith,
  λ e. ground arith,
  λ e. ground arith,
  λ e. ground arith,
  λ e. ground arith,
)

-- The parser of SUBACK checks no length: with the flags right it panics exactly on contents of
-- fewer than two bytes.
pub parse_sub_ack-panic_iff :
    (flag : ℕ) (contents : Bytes)
    → (parse_sub_ack flag contents ≡ panic) ↔ ((flag ≡ 0) × (length contents < 2))
unfolding parse_sub_ack
parse_sub_ack-panic_iff flag [] = (λ e. ground arith, λ e. ground arith)
parse_sub_ack-panic_iff flag (a ∷ []) = (λ e. ground arith, λ e. ground arith)
parse_sub_ack-panic_iff flag (a ∷ b ∷ c) = (λ e. ground arith, λ e. ground arith)

-- A CONNACK is accepted exactly with flags 0 and two bytes of contents; the lowest bit of the
-- first byte says whether a session is present, and the second byte is the return code.
pub parse_conn_ack_iff :
    (flag : ℕ) (contents : Bytes) (p : PktConnAck)
    → IsBytes contents
    → (parse_conn_ack flag contents ≡ ok p) ↔ (
        (flag ≡ 0)
        × (b : ℕ) × (contents ≡ b ∷ p.code ∷ [])
        × ((p.session_present ≡ true) ↔ (b % 2 ≡ 1)))
unfolding parse_conn_ack
parse_conn_ack_iff flag [] p h = (λ e. ground arith, λ e. cc)
parse_conn_ack_iff flag (a ∷ []) p h = (λ e. ground arith, λ e. cc)
parse_conn_ack_iff flag (a ∷ b ∷ []) p h = (
  λ e. (
    ground arith,
    a,
    ground arith,
    (λ s. ground (arith, and_one a h.0), λ s. ground (arith, and_one a h.0)),
  ),
  λ (f, x, same, bit). ground (arith, and_one a h.0),
)
parse_conn_ack_iff flag (a ∷ b ∷ d ∷ c) p h = (λ e. ground arith, λ (f, x, same, rest). cc)
