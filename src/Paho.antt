-- ===== src/Paho.antt =====
-- paho/paho.go and paho/token.go: the client of another library's interface, over the
-- clients of this one. Of the options of that library (paho.ClientOptions) stands here what the code
-- reads; a client, a handler and a callback are numbers.
pub mod Options
pub mod Loops
pub mod Requests
use mqtt_go.Base.{
  ℕ, suc, ◌*◌, ◌%◌, ◌^◌, Bool, true, false, not, ltb, List, [], ◌∷◌, ◌++◌, length, Option, none,
  some, ◌==◌, if◌then◌else◌,
}
use mqtt_go.Base.Bits.{Bytes}
use mqtt_go.Base.Outcome.{ok, err, panic, ◌>>=◌}
use mqtt_go.Errors.{Err, Go, sentinel, paho_not_connected}
use mqtt_go.Message.{Message, Subscription}
use mqtt_go.Connect.{
  ConnectOption, with_user_name_password, with_clean_session, with_keep_alive, with_protocol_level,
  with_will,
}
use mqtt_go.State.{ConnState, state_new, state_active, state_closed, state_disconnected}
use mqtt_go.Mux.{ServeMux}
use mqtt_go.Dialer.{TlsConfig, DialOption, with_tls_config}
use mqtt_go.Reconnect.{
  ReconnectOption, with_ping_interval, with_timeout, with_reconnect_wait, one_second,
}

-- The last three fields are none where the version of that library does not have them.
pub record ClientOptions : Type 0 where
  pub servers : List Bytes
  pub client_id : Bytes
  pub username : Bytes
  pub password : Bytes
  pub clean_session : Bool
  pub keep_alive : ℕ
  pub protocol_version : ℕ
  pub will_enabled : Bool
  pub will_topic : Bytes
  pub will_payload : Bytes
  pub will_qos : ℕ
  pub will_retained : Bool
  pub tls_config : Option TlsConfig
  pub order : Bool
  pub auto_reconnect : Bool
  pub ping_timeout : ℕ
  pub on_connect : Option ℕ
  pub on_connection_lost : Option ℕ
  pub connect_retry : Option Bool
  pub connect_retry_interval : Option ℕ
  pub max_reconnect_interval : Option ℕ

-- What the wrapper does to its clients: it sets the ConnState callback, sets the multiplexer as the
-- handler, asynchronously or not, starts KeepAlive with an interval and a timeout, and sleeps.
pub data PahoAction : Type 0 where
  calls_back : ℕ → PahoAction
  handles : ℕ → Bool → PahoAction
  keeps_alive_with : ℕ → ℕ → ℕ → PahoAction
  sleeps : ℕ → PahoAction

-- `pahoWrapper`; `actions` records what it did.
pub record PahoWrapper : Type 0 where
  pub cli : Option ℕ
  pub cli_closer : Option ℕ
  pub serve_mux : ServeMux
  pub paho_config : ClientOptions
  pub retry_connect : Bool
  pub retry_interval : ℕ
  pub max_interval : ℕ
  pub actions : List PahoAction

abbrev pub or_else {ℓ} : {A : Type ℓ} → A → Option A → A
or_else d none = d
or_else d (some a) = a

-- `NewClient`
unfoldable pub new_client : ClientOptions → Go PahoWrapper
new_client o =
    if length o.servers == 1
    then ok (record {
      cli = none;
      cli_closer = none;
      serve_mux = record { handlers = [] };
      paho_config = o;
      retry_connect = or_else false o.connect_retry;
      retry_interval = or_else one_second o.connect_retry_interval;
      max_interval = or_else (10 * one_second) o.max_reconnect_interval;
      actions = [];
    })
    else panic

-- `IsConnected`, where `done` says of which clients Done is closed.
unfoldable pub is_connected : (ℕ → Bool) → PahoWrapper → Bool
is_connected done w = elim w.cli_closer [ none ↦ false | some c ↦ if done c then false else true ]

abbrev pub will_message : ClientOptions → Message
will_message o = record {
  topic = o.will_topic;
  id = 0;
  qos = o.will_qos;
  retain = o.will_retained;
  dup = false;
  payload = o.will_payload;
}

-- `opts` of Connect, with the conversions to uint16 and to a byte.
unfoldable pub connect_options : ClientOptions → List ConnectOption
connect_options o =
    let level =
      if ltb 0 o.protocol_version
      then with_protocol_level (o.protocol_version % 2 ^ 8) ∷ []
      else [] in
    let will = if o.will_enabled then with_will (will_message o) ∷ [] else [] in
    with_user_name_password o.username o.password
    ∷ with_clean_session o.clean_session
    ∷ with_keep_alive (o.keep_alive % 2 ^ 16)
    ∷ (level ++ will)

-- The option with which the wrapper dials.
unfoldable pub paho_dial_options : ClientOptions → List DialOption
paho_dial_options o = with_tls_config o.tls_config ∷ []

-- `time.Duration(n) * time.Second`, in 64 bits.
abbrev pub seconds : ℕ → ℕ
seconds n = (n * one_second) % 2 ^ 64

-- The options of NewReconnectClient in connectWithRetry.
unfoldable pub paho_reconnect_options : PahoWrapper → List ReconnectOption
paho_reconnect_options w =
    with_ping_interval (seconds w.paho_config.keep_alive)
    ∷ with_timeout w.paho_config.ping_timeout
    ∷ with_reconnect_wait w.retry_interval w.max_interval
    ∷ []

-- A call of the user's callbacks.
pub data Callback : Type 0 where
  connected_callback : ℕ → Callback
  lost_callback : ℕ → Option Err → Callback

abbrev pub call_lost : Option ℕ → Option Err → Option Callback
call_lost none e = none
call_lost (some f) e = some (lost_callback f e)

abbrev pub call_connected : Option ℕ → Option Callback
call_connected none = none
call_connected (some f) = some (connected_callback f)

-- The ConnState callback of both connects.
unfoldable pub on_conn_state : ClientOptions → ConnState → Option Err → Option Callback
on_conn_state o state_active e = call_connected o.on_connect
on_conn_state o state_closed e = call_lost o.on_connection_lost e
on_conn_state o state_new e = none
on_conn_state o state_disconnected e = none

-- `token`
pub record Token : Type 0 where
  pub error : Option Err
  pub is_done : Bool

-- `newToken`
unfoldable pub new_token : Token
new_token = record { error = none; is_done = false }

-- `release`: closing the channel twice panics.
unfoldable pub release_token : Token → Go Token
release_token t = if t.is_done then panic else ok (record t { is_done = true })

-- `token.err = err; token.release()`
abbrev pub finish : Option Err → Token → Go Token
finish e t = release_token (record t { error = e })

-- A round of connectOnce: dialing fails, or a client is there, and its Connect returns.
pub data OnceRound : Type 0 where
  once_no_dial : Err → OnceRound
  once_dialled : ℕ → Option Err → OnceRound

-- Where connectOnce is: it goes on, or it has released the token.
pub data Once : Type 0 where
  once_again : PahoWrapper → Once
  once_over : PahoWrapper → Go Token → Once

abbrev pub slept : PahoWrapper → PahoWrapper
slept w = record w { actions = w.actions ++ sleeps w.retry_interval ∷ [] }

abbrev pub keep_alive_actions : ClientOptions → ℕ → Option Err → List PahoAction
keep_alive_actions o c (some e) = []
keep_alive_actions o c none =
    if ltb 0 o.keep_alive then keeps_alive_with c (seconds o.keep_alive) o.ping_timeout ∷ [] else []

-- A client that was dialled, and what its Connect returned.
abbrev pub took_client : ℕ → Option Err → PahoWrapper → PahoWrapper
took_client c result w = record w {
  cli = some c;
  cli_closer = some c;
  actions =
      w.actions
      ++ (calls_back c
          ∷ handles c (not w.paho_config.order)
          ∷ keep_alive_actions w.paho_config c result);
}

-- The goroutine of connectOnce over the rounds that took place.
unfoldable pub connect_once : List OnceRound → Token → PahoWrapper → Once
connect_once [] t w = once_again w
connect_once (once_no_dial e ∷ rounds) t w =
    let rest = connect_once rounds t (slept w) in
    if w.retry_connect then rest else once_over w (finish (some e) t)
connect_once (once_dialled c result ∷ rounds) t w =
    once_over (took_client c result w) (finish result t)

-- The goroutine of connectWithRetry behind NewReconnectClient: `made` is its error, and `result` what
-- Connect returned. With an error of NewReconnectClient the client is nil, and Connect on it panics.
unfoldable pub connect_with_retry :
    ℕ → Option Err → Option Err → Token → PahoWrapper → PahoWrapper × Go Token
connect_with_retry c (some e) result t w = (w, panic)
connect_with_retry c none (some e) t w = (w, finish (some e) t)
connect_with_retry c none none t w =
    let handled = handles c (not w.paho_config.order) ∷ [] in
    (record w { cli = some c; actions = w.actions ++ handled }, release_token t)

-- What the dialer that connectWithRetry gives to NewReconnectClient does with a client that it made.
unfoldable pub note_closer : ℕ → PahoWrapper → PahoWrapper
note_closer c w = record w { cli_closer = some c; actions = w.actions ++ calls_back c ∷ [] }
