-- ===== src/Ack.antt =====
-- The acknowledgements: puback.go, pubrec.go, pubrel.go, pubcomp.go, suback.go, unsuback.go,
-- connack.go and pingresp.go.
pub mod RoundTrip
pub mod Answers
use mqtt_go.Base.{
  ℕ, ◌≡◌, bit_and, bit_or, ◌*◌, ◌^◌, Bool, not, List, [], ◌∷◌, length, ltb, ◌==◌, if◌then◌else◌,
}
use mqtt_go.Base.Bits.{Bytes, uint16}
use mqtt_go.Base.Outcome.{ok, err, panic, ◌>>=◌}
use mqtt_go.Errors.{Go, Sentinel, invalid_packet, invalid_packet_length, fail_with}
use mqtt_go.Packet.{
  packet_pub_ack, packet_pub_rec, packet_pub_rel, packet_pub_comp, packet_from_client, pack,
  pack_uint16, unpack_uint16,
}

pub record PktPubAck : Type 0 where
  pub id : ℕ

pub record PktPubRec : Type 0 where
  pub id : ℕ

pub record PktPubRel : Type 0 where
  pub id : ℕ

pub record PktPubComp : Type 0 where
  pub id : ℕ

pub record PktUnsubAck : Type 0 where
  pub id : ℕ

-- The return codes of a SUBACK are bytes.
pub record PktSubAck : Type 0 where
  pub id : ℕ
  pub codes : Bytes

pub record PktConnAck : Type 0 where
  pub session_present : Bool
  pub code : ℕ

pub record PktPingResp : Type 0 where

unfoldable pub parse_pub_ack : ℕ → Bytes → Go PktPubAck
parse_pub_ack flag contents =
    if not (flag == 0)
    then err (fail_with invalid_packet "parsing PUBACK")
    else if ltb (length contents) 2
    then err (fail_with invalid_packet_length "parsing PUBACK")
    else unpack_uint16 contents >>= λ r. ok (record { id = r.1 })

unfoldable pub parse_pub_rec : ℕ → Bytes → Go PktPubRec
parse_pub_rec flag contents =
    if not (flag == 0)
    then err (fail_with invalid_packet "parsing PUBREC")
    else if ltb (length contents) 2
    then err (fail_with invalid_packet_length "parsing PUBREC")
    else unpack_uint16 contents >>= λ r. ok (record { id = r.1 })

unfoldable pub parse_pub_rel : ℕ → Bytes → Go PktPubRel
parse_pub_rel flag contents =
    if not (flag == 0x02)
    then err (fail_with invalid_packet "parsing PUBREL")
    else if ltb (length contents) 2
    then err (fail_with invalid_packet_length "parsing PUBREL")
    else unpack_uint16 contents >>= λ r. ok (record { id = r.1 })

unfoldable pub parse_pub_comp : ℕ → Bytes → Go PktPubComp
parse_pub_comp flag contents =
    if not (flag == 0)
    then err (fail_with invalid_packet "parsing PUBCOMP")
    else if ltb (length contents) 2
    then err (fail_with invalid_packet_length "parsing PUBCOMP")
    else unpack_uint16 contents >>= λ r. ok (record { id = r.1 })

-- `contents[0]` and `contents[1]`; an index out of range panics.
unsub_ack_id : Bytes → Go PktUnsubAck
unsub_ack_id (b0 ∷ b1 ∷ rest) = ok (record { id = bit_or (uint16 (b0 * 2 ^ 8)) b1 })
unsub_ack_id _ = panic

unfoldable pub parse_unsub_ack : ℕ → Bytes → Go PktUnsubAck
unfolding unsub_ack_id
parse_unsub_ack flag contents =
    if not (flag == 0)
    then err (fail_with invalid_packet "parsing UNSUBACK")
    else if ltb (length contents) 2
    then err (fail_with invalid_packet_length "parsing UNSUBACK")
    else unsub_ack_id contents

-- The identifier, and `contents[2:]` as the codes.
read_codes : Bytes → Go PktSubAck
read_codes (b0 ∷ b1 ∷ rest) = ok (record { id = bit_or (uint16 (b0 * 2 ^ 8)) b1; codes = rest })
read_codes _ = panic

unfoldable pub parse_sub_ack : ℕ → Bytes → Go PktSubAck
unfolding read_codes
parse_sub_ack flag contents =
    if not (flag == 0) then err (fail_with invalid_packet "parsing SUBSCK") else read_codes contents

conn_ack_fields : Bytes → Go PktConnAck
conn_ack_fields (b0 ∷ b1 ∷ rest) =
    ok (record { session_present = not (bit_and b0 0x01 == 0); code = b1 })
conn_ack_fields _ = panic

unfoldable pub parse_conn_ack : ℕ → Bytes → Go PktConnAck
unfolding conn_ack_fields
parse_conn_ack flag contents =
    if not (flag == 0)
    then err (fail_with invalid_packet "parsing CONNACK")
    else if not (length contents == 2)
    then err (fail_with invalid_packet_length "parsing CONNACK")
    else conn_ack_fields contents

unfoldable pub parse_ping_resp : ℕ → Bytes → Go PktPingResp
parse_ping_resp flag contents =
    if not (flag == 0) then err (fail_with invalid_packet "parsing PINGRESP") else ok (record {})

unfoldable pub pack_pub_ack : PktPubAck → Go Bytes
pack_pub_ack p = pack packet_pub_ack (pack_uint16 p.id ∷ [])

unfoldable pub pack_pub_rec : PktPubRec → Go Bytes
pack_pub_rec p = pack packet_pub_rec (pack_uint16 p.id ∷ [])

unfoldable pub pack_pub_rel : PktPubRel → Go Bytes
pack_pub_rel p = pack (bit_or packet_pub_rel packet_from_client) (pack_uint16 p.id ∷ [])

unfoldable pub pack_pub_comp : PktPubComp → Go Bytes
pack_pub_comp p = pack packet_pub_comp (pack_uint16 p.id ∷ [])
