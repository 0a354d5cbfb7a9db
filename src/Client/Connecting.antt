-- ===== src/Client/Connecting.antt =====
-- Connect (connect.go) behind the start of the goroutine that reads, which is the loop of Serve, and
-- Disconnect (disconnect.go).
use mqtt_go.Base.{ℕ, suc, Bool, true, false, List, [], Option, none, some, ◌==◌}
use mqtt_go.Base.Bits.{Bytes}
use mqtt_go.Base.Outcome.{ok, err, panic}
use mqtt_go.Errors.{
  Err, Go, sentinel, wrapped, wrap_error, closed_transport, connection_error, connection_failed,
}
use mqtt_go.Packet.{pack, packet_disconnect}
use mqtt_go.Ack.{PktConnAck}
use mqtt_go.Connect.{
  PktConnect, pack_connect, ConnectOptions, ConnectOption, apply_options, protocol_level4,
}
use mqtt_go.Signaller.{Signaller}
use mqtt_go.Ids.{init_id}
use mqtt_go.State.{accepted, disconnecting}
use mqtt_go.Serve.{Transport}
use mqtt_go.Client.{
  Client, Wake, conn_closed, context_done, acknowledged, Result, finished, failed, panicked,
  sending,
}

-- The error that Connect returns for a code other than ConnectionAccepted.
abbrev refused_connection : ℕ → Err
refused_connection code =
    wrapped "received CONNACK" (connection_error code (sentinel connection_failed))

abbrev pub code_checked : Bool → Client → PktConnAck → Client × Result Bool
code_checked false c ack = (c, failed (refused_connection ack.code))
code_checked true c ack =
    (record c { connection = accepted c.connection }, finished ack.session_present)

-- Connect behind CONNACK: the session flag, or the error; where it is accepted the state becomes
-- active.
unfoldable pub conn_acked : Client → PktConnAck → Client × Result Bool
conn_acked c ack = code_checked (ack.code == 0) c ack

-- `&signaller{}`
abbrev new_signaller : Signaller
new_signaller = record {
  ch_conn_ack = none;
  ch_ping_resp = none;
  ch_pub_ack = [];
  ch_pub_rec = [];
  ch_pub_comp = [];
  ch_sub_ack = [];
  ch_unsub_ack = [];
}

-- `BaseClient.init`, where `r` is what rand.Int31n returned.
unfoldable pub init : ℕ → Client → Client
init r c = record c { sig = some new_signaller; id_last = init_id r }

-- The `select` of Connect; the error of a closed connection is not wrapped.
unfoldable pub conn_waiting : Wake PktConnAck → Client → Client × Result Bool
conn_waiting conn_closed c = (c, failed (sentinel closed_transport))
conn_waiting (context_done e) c = (c, failed (wrap_error e "waiting CONNACK"))
conn_waiting (acknowledged ack) c = conn_acked c ack

abbrev pub default_options : ConnectOptions
default_options = record {
  user_name = [];
  password = [];
  clean_session = false;
  keep_alive = 0;
  will = none;
  protocol_level = protocol_level4;
}

-- Behind init, which makes the signaller: a nil signaller panics.
abbrev pub connect_with :
    Transport → Wake PktConnAck → PktConnect → Option Signaller → Client → Client × Result Bool
connect_with t wake p none c = (c, panicked)
connect_with t wake p (some sig) c =
    let sig' = record sig { ch_conn_ack = some c.channels_made } in
    sending t (pack_connect p) (record c { sig = some sig'; channels_made = suc c.channels_made })
      (λ e. failed (wrap_error e "sending CONNECT")) (λ c1. conn_waiting wake c1)

-- The packet of Connect, from the options.
abbrev pub connect_fields : Bytes → ConnectOptions → PktConnect
connect_fields client_id o = record {
  protocol_level = o.protocol_level;
  clean_session = o.clean_session;
  keep_alive = o.keep_alive;
  client_id = client_id;
  user_name = o.user_name;
  password = o.password;
  will = o.will;
}

-- Connect behind the options: init and the packet.
abbrev pub with_options :
    ℕ → Transport → Wake PktConnAck → Bytes → Go ConnectOptions → Client → Client × Result Bool
with_options r t wake client_id panic c = (c, panicked)
with_options r t wake client_id (err e) c = (c, failed (wrap_error e "applying options"))
with_options r t wake client_id (ok o) c =
    connect_with t wake (connect_fields client_id o) (init r c).sig (init r c)

-- `Connect`: the options over level 4 and zero values, then the rest.
unfoldable pub connect :
    ℕ → Transport → Wake PktConnAck → Bytes → List ConnectOption → Client → Client × Result Bool
connect r t wake client_id opts c =
    with_options r t wake client_id (apply_options opts default_options) c

-- `Disconnect`
unfoldable pub disconnect : Transport → Client → Client × Result (Unit {0})
disconnect t c =
    sending t (pack packet_disconnect []) (record c { connection = disconnecting c.connection })
      (λ e. failed (wrap_error e "sending DISCONNECT"))
      (λ c1. (record c1 { is_closed = true }, finished tt))
