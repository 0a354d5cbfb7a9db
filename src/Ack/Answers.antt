-- ===== src/Ack/Answers.antt =====
-- The acknowledgements whose contents begin with a packet identifier.
use mqtt_go.Base.{ℕ, ◌/◌, ◌%◌, ◌<◌, ◌≡◌, ◌++◌, arith}
use mqtt_go.Base.Bits.{Bytes, or_low}
use mqtt_go.Base.Outcome.{ok}
use mqtt_go.Packet.Strings.{uint16_field, unpack_uint16-field}
use mqtt_go.Ack.{
  parse_pub_ack, parse_pub_rec, parse_pub_rel, parse_pub_comp, parse_sub_ack, parse_unsub_ack,
  read_codes, unsub_ack_id,
}

module _ (id : ℕ) (rest : Bytes) (h : id < 65536) where
  pub pub_ack-field : parse_pub_ack 0 (uint16_field id ++ rest) ≡ ok (record { id = id })
  unfolding parse_pub_ack
  pub_ack-field = ground (arith, unpack_uint16-field id rest h)

  pub pub_rec-field : parse_pub_rec 0 (uint16_field id ++ rest) ≡ ok (record { id = id })
  unfolding parse_pub_rec
  pub_rec-field = ground (arith, unpack_uint16-field id rest h)

  pub pub_rel-field : parse_pub_rel 2 (uint16_field id ++ rest) ≡ ok (record { id = id })
  unfolding parse_pub_rel
  pub_rel-field = ground (arith, unpack_uint16-field id rest h)

  pub pub_comp-field : parse_pub_comp 0 (uint16_field id ++ rest) ≡ ok (record { id = id })
  unfolding parse_pub_comp
  pub_comp-field = ground (arith, unpack_uint16-field id rest h)

  pub sub_ack-field :
      parse_sub_ack 0 (uint16_field id ++ rest) ≡ ok (record { id = id; codes = rest })
  unfolding parse_sub_ack read_codes
  sub_ack-field = ground (arith, or_low 8 (id / 256) (id % 256))

  pub unsub_ack-field : parse_unsub_ack 0 (uint16_field id ++ rest) ≡ ok (record { id = id })
  unfolding parse_unsub_ack unsub_ack_id
  unsub_ack-field = ground (arith, or_low 8 (id / 256) (id % 256))
