-- ===== src/Client/Accepting.antt =====
-- When Connect succeeds.
use mqtt_go.Base.{◌≡◌, Bool, List, not, ◌&&◌, ◌⊎◌, if◌then◌else◌, ◌∷◌, Option, none}
use mqtt_go.Base.Bits.{Bytes}
use mqtt_go.Base.Outcome.{ok}
use mqtt_go.Errors.{Err, Go}
use mqtt_go.Ack.{PktConnAck}
use mqtt_go.Connect.{pack_connect, ConnectOptions, ConnectOption, apply_options}
use mqtt_go.State.{state_active, state_disconnected, same_state, Connection, accepted}
use mqtt_go.Signaller.{Signaller}
use mqtt_go.Serve.{Transport}
use mqtt_go.Client.{Client, Wake, acknowledged, Result}
use mqtt_go.Client.Connecting.{default_options}

-- Where a packet went out, and what follows returned a value.
record Sent {A : Type 0} (wrote : Option Err) (pkt : Go Bytes) (c : Client)
    (next : Client → Client × Result A) (r : Client × Result A) : Type 0 where
  writes : wrote ≡ none
  packet : Bytes
  packed : pkt ≡ ok packet
  after_it : Client
  went_out : after_it.sent ≡ packet ∷ c.sent
  same_connection : after_it.connection ≡ c.connection
  result : r ≡ next after_it

-- CONNACK accepted the connection.
record Accepted (wake : Wake PktConnAck) (b : Bool) (before after : Client) : Type 0 where
  ack : PktConnAck
  was_acknowledged : wake ≡ acknowledged ack
  accepts : ack.code ≡ 0
  session : ack.session_present ≡ b
  is_active : after.connection ≡ accepted before.connection
  same_sent : after.sent ≡ before.sent

-- The options were applied without an error, the CONNECT packet of exactly these fields could be made
-- and was written, and CONNACK came with the code 0 and the session flag `b`.
abbrev pub ConnectSucceeds :
    Transport → Wake PktConnAck → Bytes → List ConnectOption → Client → Bool → Bytes → Type 0
ConnectSucceeds t wake id opts c b packet =
    (o : ConnectOptions) × (ack : PktConnAck) × (apply_options opts default_options ≡ ok o)
    × (pack_connect (record {
      protocol_level = o.protocol_level;
      clean_session = o.clean_session;
      keep_alive = o.keep_alive;
      client_id = id;
      user_name = o.user_name;
      password = o.password;
      will = o.will;
    })
        ≡ ok packet)
    × (t c.writes ≡ none)
    × (wake ≡ acknowledged ack)
    × (ack.code ≡ 0)
    × (ack.session_present ≡ b)

-- The connection is active, and the callback was told if it was not; or it was disconnected before,
-- and is unchanged.
abbrev pub Activated : Connection → Connection → Type 0
Activated before after =
    ((before.conn_state ≡ state_disconnected) × (after ≡ before))
    ⊎ ((after.conn_state ≡ state_active)
        × (after.error ≡ before.error)
        × (after.calls ≡ (
            if before.has_callback && not (same_state before.conn_state state_active)
            then (state_active, before.error) ∷ before.calls
            else before.calls)))
