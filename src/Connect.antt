-- ===== src/Connect.antt =====
-- The CONNECT packet and the connect options of connect.go.
pub mod Wire
pub mod Reader
pub mod Decode
pub mod Options
use mqtt_go.Base.{
  ℕ, ◌≡◌, bit_or, ◌/◌, ◌^◌, Bool, not, List, [], ◌∷◌, ◌++◌, length, Option, none, some, ◌==◌, ◌||◌,
  if◌then◌else◌, String,
}
use mqtt_go.Base.Bits.{Bytes}
use mqtt_go.Base.Outcome.{ok, err, panic, ◌>>=◌}
use mqtt_go.Errors.{Err, Go, invalid_packet, fail_with, wrapped}
use mqtt_go.Message.{Message, qos0, qos1, qos2}
use mqtt_go.Packet.{packet_connect, pack, append_string, append_bytes, pack_uint16}

abbrev pub protocol_level3 : ℕ
protocol_level3 = 0x03

abbrev pub protocol_level4 : ℕ
protocol_level4 = 0x04

abbrev pub connect_flag_clean_session : ℕ
connect_flag_clean_session = 0x02

abbrev pub connect_flag_will : ℕ
connect_flag_will = 0x04

abbrev pub connect_flag_will_qos0 : ℕ
connect_flag_will_qos0 = 0x00

abbrev pub connect_flag_will_qos1 : ℕ
connect_flag_will_qos1 = 0x08

abbrev pub connect_flag_will_qos2 : ℕ
connect_flag_will_qos2 = 0x10

abbrev pub connect_flag_will_retain : ℕ
connect_flag_will_retain = 0x20

abbrev pub connect_flag_password : ℕ
connect_flag_password = 0x40

abbrev pub connect_flag_user_name : ℕ
connect_flag_user_name = 0x80

pub record PktConnect : Type 0 where
  pub protocol_level : ℕ
  pub clean_session : Bool
  pub keep_alive : ℕ
  pub client_id : Bytes
  pub user_name : Bytes
  pub password : Bytes
  pub will : Option Message

-- `flag` and `payload` while Pack builds them.
abbrev pub Building : Type 0
Building = ℕ × Bytes

abbrev will_qos_flag : ℕ → ℕ → ℕ
will_qos_flag flag qos =
    if qos == qos0
    then bit_or flag connect_flag_will_qos0
    else if qos == qos1
    then bit_or flag connect_flag_will_qos1
    else if qos == qos2
    then bit_or flag connect_flag_will_qos2
    else flag

-- The block `if p.Will != nil`.
unfoldable pub add_will : Option Message → Building → Go Building
add_will none b = ok b
add_will (some w) (flag, payload) =
    let flag' = will_qos_flag (bit_or flag connect_flag_will) w.qos in
    append_string payload w.topic >>= λ with_topic.
    append_bytes with_topic w.payload >>= λ with_message.
    ok (if w.retain then bit_or flag' connect_flag_will_retain else flag', with_message)

-- The blocks for the user name and the password: a string that is not empty.
unfoldable pub add_string : ℕ → Bytes → Building → Go Building
add_string flag_bit s (flag, payload) =
    if not (length s == 0)
    then (append_string payload s >>= λ p. ok (bit_or flag flag_bit, p))
    else ok (flag, payload)

unfoldable pub pack_connect : PktConnect → Go Bytes
pack_connect p = append_string [] p.client_id >>= λ payload.
    add_will p.will (if p.clean_session then connect_flag_clean_session else 0, payload) >>= λ w.
    add_string connect_flag_user_name p.user_name w >>= λ u.
    add_string connect_flag_password p.password u >>= λ b. pack packet_connect (
      (0x00 ∷ 0x04 ∷ 0x4D ∷ 0x51 ∷ 0x54 ∷ 0x54 ∷ p.protocol_level ∷ b.0 ∷ [])
      ∷ pack_uint16 p.keep_alive
      ∷ b.1
      ∷ [])

pub record ConnectOptions : Type 0 where
  pub user_name : Bytes
  pub password : Bytes
  pub clean_session : Bool
  pub keep_alive : ℕ
  pub will : Option Message
  pub protocol_level : ℕ

-- An option changes the options or returns an error.
abbrev pub ConnectOption : Type 0
ConnectOption = ConnectOptions → Go ConnectOptions

unfoldable pub with_user_name_password : Bytes → Bytes → ConnectOption
with_user_name_password user_name password o =
    ok (record o { user_name = user_name; password = password })

unfoldable pub with_keep_alive : ℕ → ConnectOption
with_keep_alive interval o = ok (record o { keep_alive = interval })

unfoldable pub with_clean_session : Bool → ConnectOption
with_clean_session clean_session o = ok (record o { clean_session = clean_session })

unfoldable pub with_will : Message → ConnectOption
with_will w o =
    if w.qos == qos0 || (w.qos == qos1 || w.qos == qos2)
    then ok (record o { will = some w })
    else err (fail_with invalid_packet "setting will with QoS%d")

unfoldable pub with_protocol_level : ℕ → ConnectOption
with_protocol_level level o = ok (record o { protocol_level = level })

-- The loop of Connect over its options, up to the first error.
unfoldable pub apply_options : List ConnectOption → ConnectOption
apply_options [] o = ok o
apply_options (opt ∷ opts) o = opt o >>= apply_options opts
