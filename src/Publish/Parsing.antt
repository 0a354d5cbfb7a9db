-- ===== src/Publish/Parsing.antt =====
-- How Parse of PUBLISH answers on any bytes.
use mqtt_go.Base.{
  ℕ, ◌+◌, ◌/◌, ◌%◌, ◌≤◌, ◌<◌, ◌≡◌, ◌≢◌, ◌↔◌, refl, true, [], ◌∷◌, length, length-drop, drop, arith,
}
use mqtt_go.Base.Bits.{Bytes, and_06, and_08, and_one}
use mqtt_go.Base.Outcome.{ok, panic, >>=-ne-panic, >>=-eq-ok}
use mqtt_go.Message.{Message}
use mqtt_go.Packet.{unpack_string, unpack_uint16}
use mqtt_go.Packet.Strings.{unpack_string-ne-panic, unpack_string-inv}
use mathlib.Core.Path.{subst}
use mqtt_go.Publish.{parse_qos, parse_id, parsed_message, parse_publish}
use mqtt_go.Publish.RoundTrip.{IsTopic}

unpack_uint16-ne-panic : (b : Bytes) → 2 ≤ length b → unpack_uint16 b ≢ panic
unfolding unpack_uint16
unpack_uint16-ne-panic [] h e = absurd (omega arith)
unpack_uint16-ne-panic (x ∷ []) h e = absurd (omega arith)
unpack_uint16-ne-panic (x ∷ y ∷ b) h e = cc

parse_id-ne-panic : (qos n : ℕ) (c : Bytes) → parse_id qos n c ≢ panic
unfolding parse_id
parse_id-ne-panic qos n c e = ground (arith, unpack_uint16-ne-panic (drop n c), length-drop n c)

parse_qos-ne-panic : (flag : ℕ) → parse_qos flag ≢ panic
unfolding parse_qos
parse_qos-ne-panic flag e = ground arith

-- Parse of PUBLISH returns a message or an error on all flags and contents.
pub parse_publish-ne-panic : (flag : ℕ) (contents : Bytes) → parse_publish flag contents ≢ panic
unfolding parse_publish
parse_publish-ne-panic flag contents =
    >>=-ne-panic (parse_qos flag) _ (parse_qos-ne-panic flag) λ qos.
      >>=-ne-panic (unpack_string contents) _ (unpack_string-ne-panic contents) λ t.
        >>=-ne-panic (parse_id qos t.0 contents) _ (parse_id-ne-panic qos t.0 contents) λ i e. cc

-- What Parse accepts, at flags of four bits.
pub record Accepted (flag : ℕ) (contents : Bytes) (m : Message) : Type 0 where
  pub qos_bits : m.qos ≡ flag / 2 % 4
  pub qos_valid : m.qos ≤ 2
  pub retain_bit : (m.retain ≡ true) ↔ (flag % 2 ≡ 1)
  pub dup_bit : (m.dup ≡ true) ↔ (8 ≤ flag)
  pub topic_valid : IsTopic m.topic
  pub no_id : m.qos ≡ 0 → m.id ≡ 0
  pub payload_last : (n : ℕ) × (2 ≤ n) × (n ≤ length contents) × (m.payload ≡ drop n contents)

parse_qos-inv : (flag q : ℕ) → flag < 16 → parse_qos flag ≡ ok q → (q ≡ flag / 2 % 4) × (q ≤ 2)
unfolding parse_qos
parse_qos-inv flag q h e = ground (arith, and_06 flag)

unpack_uint16-inv : (b : Bytes) (i : ℕ × ℕ) → unpack_uint16 b ≡ ok i → i.0 ≡ 2
unfolding unpack_uint16
unpack_uint16-inv [] i e = cc
unpack_uint16-inv (x ∷ []) i e = cc
unpack_uint16-inv (x ∷ y ∷ b) i e = ground arith

parse_id-inv :
    (qos n : ℕ) (c : Bytes) (i : ℕ × ℕ)
    → n ≤ length c
    → parse_id qos n c ≡ ok i
    → (n + i.0 ≤ length c) × (qos ≡ 0 → i.1 ≡ 0)
unfolding parse_id
parse_id-inv qos n c i h e = ground (arith, unpack_uint16-inv (drop n c) i, length-drop n c)

Accepted-parsed_message :
    (flag : ℕ) (contents : Bytes) (qos : ℕ) (t : ℕ × Bytes) (i : ℕ × ℕ)
    → flag < 16
    → parse_qos flag ≡ ok qos
    → unpack_string contents ≡ ok t
    → parse_id qos t.0 contents ≡ ok i
    → Accepted flag contents (parsed_message flag contents qos t i)
Accepted-parsed_message flag contents qos (n, s) (n_id, id) h q u v =
    let (bits, small) = parse_qos-inv flag qos h q in
    let (within, (rs, scalars, nonzero, same), m, size, converted) =
      unpack_string-inv contents s n u in
    let two : 2 ≤ n = omega arith in
    let (inside, none_sent) = parse_id-inv qos n contents (n_id, id) within v in
    record {
      qos_bits = bits;
      qos_valid = small;
      retain_bit = (λ r. ground (arith, and_one flag), λ r. ground (arith, and_one flag));
      dup_bit = (λ r. ground (arith, and_08 flag), λ r. ground (arith, and_08 flag));
      topic_valid = record { text = rs; scalars = scalars; nonzero = nonzero; encoded = same };
      no_id = none_sent;
      payload_last = (n + n_id, omega arith, inside, refl);
    }

-- A message that Parse of PUBLISH returns has the QoS, RETAIN and DUP that the flags say, a QoS
-- of at most 2, a well-formed topic, the identifier 0 if its QoS is 0, and as its payload the
-- contents behind some offset within them, which is 2 at least.
pub parse_publish-Accepted :
    (flag : ℕ) (contents : Bytes) (m : Message)
    → flag < 16
    → parse_publish flag contents ≡ ok m
    → Accepted flag contents m
unfolding parse_publish
parse_publish-Accepted flag contents m h e =
    let (qos, q, e1) = >>=-eq-ok (parse_qos flag) _ e in
    let (t, u, e2) = >>=-eq-ok (unpack_string contents) _ e1 in
    let (i, v, e3) = >>=-eq-ok (parse_id qos t.0 contents) _ e2 in
    subst (Accepted flag contents) (cc e3) (Accepted-parsed_message flag contents qos t i h q u v)
