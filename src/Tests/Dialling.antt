-- ===== src/Tests/Dialling.antt =====
-- Dialing, and the wrapper for another library's interface, at concrete values.
use mqtt_go.Base.{◌*◌, ◌≡◌, ◌↔◌, refl, true, false, List, [], ◌∷◌, none, some, arith}
use mqtt_go.Base.Outcome.{ok, OnOk, ◌>>=◌}
use mqtt_go.Errors.{sentinel, closed_transport}
use mqtt_go.Connect.{apply_options}
use mqtt_go.Reconnect.{prepare, new_reconnect_client, one_second, no_options}
use mqtt_go.Dialer.{
  mqtts, Url, Net, DialOption, Dialled, host_with_port, with_max_payload_len, dial_context,
}
use mqtt_go.Dialer.Securing.{AsAsked, Reachable, with_max_payload_len-KeepsTls, dial_context_iff}
use mqtt_go.Paho.{
  ClientOptions, PahoWrapper, connect_options, paho_reconnect_options, OnceRound, once_no_dial,
  once_dialled, new_token, connect_once,
}
use mqtt_go.Paho.Options.{Carried, carried_waits, options-Carried}
use mqtt_go.Paho.Loops.{Settled, connect_once-Settled}
use mqtt_go.Tests.Requests.{client}

abbrev broker_url : Url
broker_url = record {
  scheme = mqtts;
  host = b'h' ∷ [];
  hostname = b'h' ∷ [];
  port = [];
  text = b'u' ∷ [];
}

default_port_added : host_with_port broker_url ≡ b'h' ∷ b':' ∷ b'8' ∷ b'8' ∷ b'8' ∷ b'3' ∷ []
unfolding host_with_port
default_port_added = refl

abbrev network : Net
network = record {
  parse = λ s. ok broker_url;
  dial_tcp = λ d address. ok 3;
  read_file = λ f. ok [];
  load_key_pair = λ c k. ok 0;
  new_config = λ l o. ok [];
  new_client = λ ps t. ok tt;
}

abbrev dialling : List DialOption
dialling = with_max_payload_len 5 ∷ []

dial_context_iff_example :
    OnOk (AsAsked network []) (dial_context network [] dialling)
    × (((d : Dialled) × (dial_context network [] dialling ≡ ok d)) ↔ Reachable network [] dialling)
dial_context_iff_example =
    dial_context_iff network [] dialling (with_max_payload_len-KeepsTls 5, tt)

abbrev paho_options : ClientOptions
paho_options = record {
  servers = (b'u' ∷ []) ∷ [];
  client_id = b'c' ∷ [];
  username = [];
  password = [];
  clean_session = true;
  keep_alive = 65600;
  protocol_version = 4;
  will_enabled = true;
  will_topic = b'w' ∷ [];
  will_payload = [];
  will_qos = 1;
  will_retained = false;
  tls_config = none;
  order = true;
  auto_reconnect = false;
  ping_timeout = one_second;
  on_connect = none;
  on_connection_lost = none;
  connect_retry = some true;
  connect_retry_interval = none;
  max_reconnect_interval = none;
}

abbrev wrapper : PahoWrapper
wrapper = record {
  cli = none;
  cli_closer = none;
  serve_mux = record { handlers = [] };
  paho_config = paho_options;
  retry_connect = true;
  retry_interval = one_second;
  max_interval = 10 * one_second;
  actions = [];
}

options-Carried_example :
    (apply_options (connect_options paho_options) no_options ≡ ok (Carried paho_options no_options))
    × ((new_reconnect_client client (paho_reconnect_options wrapper)
          >>= prepare (connect_options paho_options))
        ≡ ok (carried_waits wrapper client))
options-Carried_example = options-Carried wrapper no_options client (omega arith)

abbrev once_rounds : List OnceRound
once_rounds = once_no_dial (sentinel closed_transport) ∷ once_dialled 7 none ∷ []

connect_once-Settled_example :
    Settled once_rounds wrapper (connect_once once_rounds new_token wrapper)
connect_once-Settled_example = connect_once-Settled once_rounds wrapper
