-- ===== src/Connect/Wire.antt =====
-- The bytes of a CONNECT packet in plain terms, and what Pack makes.
use mqtt_go.Base.{
  ℕ, ◌+◌, ◌*◌, ◌^◌, ◌≤◌, ◌<◌, ◌≡◌, ap, ◌∙◌, Bool, [], ◌∷◌, ◌++◌, append-nil, append_assoc, length,
  flatten, if◌then◌else◌, ◌==◌, not, arith, Option, none, some, bit_or,
}
use mathlib.Core.Path.{subst, sym}
use mqtt_go.Base.Bits.{Bytes, or_40, or_80}
use mqtt_go.Base.Outcome.{ok}
use mqtt_go.Message.{Message}
use mqtt_go.Packet.{append_string, pack_uint16, packet_connect}
use mqtt_go.Packet.Strings.{uint16_field, string_field, append_bytes-ok, append_uint16-field}
use mqtt_go.Packet.Framing.{frame, pack-ok}
use mqtt_go.Publish.Wire.{bit}
use mqtt_go.Connect.{PktConnect, add_will, add_string, pack_connect}

abbrev pub has : Bytes → Bool
has s = not (length s == 0)

abbrev pub will_flags : Option Message → ℕ
will_flags none = 0
will_flags (some w) = 4 + w.qos * 8 + bit w.retain * 32

-- User name, password, will retain, will QoS, will, clean session, and a 0.
abbrev pub connect_flags : PktConnect → ℕ
connect_flags p =
    bit (has p.user_name) * 128
    + bit (has p.password) * 64
    + (will_flags p.will + bit p.clean_session * 2)

abbrev pub optional_field : Bytes → Bytes
optional_field s = if has s then string_field s else []

abbrev pub will_fields : Option Message → Bytes
will_fields none = []
will_fields (some w) = string_field w.topic ++ string_field w.payload

abbrev pub connect_payload : PktConnect → Bytes
connect_payload p =
    string_field p.client_id
    ++ (will_fields p.will ++ (optional_field p.user_name ++ optional_field p.password))

abbrev pub connect_contents : PktConnect → Bytes
connect_contents p =
    0x00
    ∷ 0x04
    ∷ 0x4D
    ∷ 0x51
    ∷ 0x54
    ∷ 0x54
    ∷ p.protocol_level
    ∷ connect_flags p
    ∷ (uint16_field p.keep_alive ++ connect_payload p)

abbrev pub WillFits : Option Message → Type 0
WillFits none = Unit {0}
WillFits (some w) = (w.qos ≤ 2) × (length w.topic < 65536) × (length w.payload < 65536)

pub record Fits (p : PktConnect) : Type 0 where
  pub level_small : p.protocol_level < 256
  pub keep_alive_small : p.keep_alive < 65536
  pub client_id_short : length p.client_id < 65536
  pub user_name_short : length p.user_name < 65536
  pub password_short : length p.password < 65536
  pub will_fits : WillFits p.will

add_will-ok :
    (w : Option Message) (clean : Bool) (payload : Bytes)
    → WillFits w
    → add_will w (if clean then 2 else 0, payload)
      ≡ ok (will_flags w + bit clean * 2, payload ++ will_fields w)
unfolding add_will append_string
add_will-ok none clean payload h = ground (arith, append-nil payload)
add_will-ok (some w) clean payload (q, t, m) = rw (append_bytes-ok payload w.topic t) (
    rw (append_bytes-ok (payload ++ string_field w.topic) w.payload m)
      (ground (arith, append_assoc payload (string_field w.topic) (string_field w.payload))))

start_small : (w : Option Message) (clean : Bool) → WillFits w → will_flags w + bit clean * 2 < 64
start_small none clean h = ground arith
start_small (some w) clean h = ground arith

optional_lem :
    (flag_bit : ℕ) (s : Bytes) (flag : ℕ) (payload : Bytes)
    → length s < 65536
    → add_string flag_bit s (flag, payload)
      ≡ ok (if has s then bit_or flag flag_bit else flag, payload ++ optional_field s)
unfolding add_string append_string
optional_lem flag_bit s flag payload h =
    ground (arith, append_bytes-ok payload s h, append-nil payload)

user_name_flag :
    (flag : ℕ) (u : Bytes)
    → flag < 64
    → (if has u then bit_or flag 0x80 else flag) ≡ bit (has u) * 128 + flag
user_name_flag flag u h = ground (arith, or_80 flag)

password_flag :
    (flag : ℕ) (u w : Bytes)
    → flag < 64
    → (if has w then bit_or (bit (has u) * 128 + flag) 0x40 else bit (has u) * 128 + flag)
      ≡ bit (has u) * 128 + bit (has w) * 64 + flag
password_flag flag u w h = ground (arith, or_40 (bit (has u) * 128 + flag))

assemble :
    (p : PktConnect)
    → flatten (
        (0x00 ∷ 0x04 ∷ 0x4D ∷ 0x51 ∷ 0x54 ∷ 0x54 ∷ p.protocol_level ∷ connect_flags p ∷ [])
        ∷ uint16_field p.keep_alive
        ∷ (((string_field p.client_id ++ will_fields p.will) ++ optional_field p.user_name)
            ++ optional_field p.password)
        ∷ [])
      ≡ connect_contents p
assemble p = simp (append-nil, append_assoc)

start_payload : (c : Bytes) → length c < 65536 → append_string [] c ≡ ok (string_field c)
unfolding append_string
start_payload c h = append_bytes-ok [] c h

keep_alive_lem : (k : ℕ) → k < 65536 → pack_uint16 k ≡ uint16_field k
unfolding pack_uint16
keep_alive_lem k h = append_uint16-field [] k h

-- With fields that fit, Pack makes the frame of the contents.
pub pack_connect-ok :
    (p : PktConnect)
    → Fits p
    → length (connect_contents p) < 2 ^ 28
    → pack_connect p ≡ ok (frame packet_connect (connect_contents p))
unfolding pack_connect
pack_connect-ok p h short =
    let start = will_flags p.will + bit p.clean_session * 2 in
    let small = start_small p.will p.clean_session h.will_fits in
    rw (start_payload p.client_id h.client_id_short) (
      rw (add_will-ok p.will p.clean_session (string_field p.client_id) h.will_fits) (
        rw
          (
            optional_lem 0x80 p.user_name start _ h.user_name_short,
            user_name_flag start p.user_name small,
          )
          (rw
            (
              optional_lem 0x40 p.password _ _ h.password_short,
              password_flag start p.user_name p.password small,
            )
            (rw (keep_alive_lem p.keep_alive h.keep_alive_small) (
              pack-ok packet_connect _ (subst (λ c. length c < 2 ^ 28) (sym (assemble p)) short)
              ∙ ap (λ c. ok (frame packet_connect c)) (assemble p))))))
