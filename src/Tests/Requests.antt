-- ===== src/Tests/Requests.antt =====
-- The requests of the client at concrete values.
use mqtt_go.Base.{
  ◌≡◌, refl, true, false, List, [], ◌∷◌, ◌++◌, none, some, insert, arith, ◌==◌, if◌then◌else◌, ◌↔◌,
}
use mqtt_go.Errors.{wrap_error, ping_timeout, sentinel, closed_transport}
use mqtt_go.Message.{Message, Subscription}
use mqtt_go.Packet.Strings.{uint16_field}
use mqtt_go.Ack.{PktSubAck, PktConnAck}
use mqtt_go.Signaller.{Signaller, pub_ack_signal}
use mqtt_go.State.{state_new}
use mqtt_go.State.Delays.{no_pings}
use mqtt_go.Serve.{Server, Transport, on_pub_ack}
use mqtt_go.Client.{Client, conn_closed, finished, publish_impl, acknowledged}
use mqtt_go.Connect.{pack_connect, apply_options, add_will, add_string}
use mqtt_go.Packet.{pack, append_string, append_bytes, append_uint16, pack_uint16, remaining_length}
use mqtt_go.Client.Connecting.{connect, conn_waiting, conn_acked, init}
use mqtt_go.KeepAlive.{Round, answered_round, failed_round, keep_alive}
use mqtt_go.KeepAlive.Stopping.{FirstFailure, keep_alive_iff}
use mqtt_go.Client.Retrying.{RepeatsOnly, publish_impl-RepeatsOnly}
use mqtt_go.Client.Reached.{register-on_pub_ack}

abbrev idle : Signaller
idle = record {
  ch_conn_ack = none;
  ch_ping_resp = none;
  ch_pub_ack = [];
  ch_pub_rec = [];
  ch_pub_comp = [];
  ch_sub_ack = [];
  ch_unsub_ack = [];
}

abbrev pub client : Client
client = record {
  sig = some idle;
  id_last = 6;
  channels_made = 0;
  writes = 0;
  sent = [];
  is_closed = false;
  stats = no_pings;
  connection = record { has_callback = false; conn_state = state_new; error = none; calls = [] };
}

abbrev pub report : Message
report = record {
  topic = b'a' ∷ [];
  id = 7;
  qos = 1;
  retain = false;
  dup = false;
  payload = 1 ∷ [];
}

abbrev pub open_pipe : Transport
open_pipe k = none

publish_impl-RepeatsOnly_example :
    ((publish_impl open_pipe conn_closed conn_closed report true client).0 ≡ record report {
      id = (publish_impl open_pipe conn_closed conn_closed report true client).0.id;
      dup = true;
    })
    × (7 ≡ (
        if 7 == 0
        then 0
        else (publish_impl open_pipe conn_closed conn_closed report true client).0.id))
    × RepeatsOnly
        (publish_impl open_pipe conn_closed conn_closed report true client).0
        (publish_impl open_pipe conn_closed conn_closed report true client).1.1
publish_impl-RepeatsOnly_example =
    publish_impl-RepeatsOnly open_pipe conn_closed conn_closed report true client

abbrev wanted : List Subscription
wanted = record { topic = b'a' ∷ []; qos = 2 } ∷ []

abbrev answer : PktSubAck
answer = record { id = 7; codes = 1 ∷ [] }

abbrev waiting_signaller : Signaller
waiting_signaller = record idle { ch_pub_ack = insert 7 0 [] }

abbrev reader : Server
reader = record {
  has_handler = false;
  sig = waiting_signaller;
  channels = λ c. none;
  sub_buffer = [];
  writes = 0;
  trace = [];
}

register-on_pub_ack_example :
    (on_pub_ack 0 (uint16_field 7 ++ []) reader).0.channels 0
    ≡ some (pub_ack_signal (record { id = 7 }))
register-on_pub_ack_example =
    register-on_pub_ack report idle waiting_signaller client reader refl (omega arith) refl refl
      refl

abbrev welcome : PktConnAck
welcome = record { session_present = true; code = 0 }

connected_once :
    (connect 5 open_pipe (acknowledged welcome) (b'c' ∷ []) [] client).1 ≡ finished true
unfolding connect apply_options init pack_connect pack append_string append_bytes append_uint16
    pack_uint16 add_will add_string remaining_length conn_waiting conn_acked
connected_once = refl

abbrev rounds : List Round
rounds = answered_round ∷ failed_round (sentinel closed_transport) none true ∷ []

keep_alive_iff_example :
    (keep_alive rounds ≡ some (wrap_error (sentinel ping_timeout) "keeping alive"))
    ↔ FirstFailure rounds (wrap_error (sentinel ping_timeout) "keeping alive")
keep_alive_iff_example = keep_alive_iff rounds (wrap_error (sentinel ping_timeout) "keeping alive")
