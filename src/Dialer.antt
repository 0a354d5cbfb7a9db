-- ===== src/Dialer.antt =====
-- dialer.go: from a URL to a BaseClient with its transport. The packages net, net/url, crypto/tls, os
-- files and websocket are parameters: what their calls return.
pub mod Addressing
pub mod Securing
use mqtt_go.Base.{
  String, ℕ, zero, suc, ◌+◌, ◌/◌, ◌%◌, Bool, true, false, ltb, List, [], ◌∷◌, ◌++◌, Option, none,
  some, if◌then◌else◌, ◌==◌,
}
use mqtt_go.Base.Bits.{Bytes}
use mqtt_go.Base.Outcome.{ok, err, panic, ◌>>=◌}
use mqtt_go.Errors.{Err, Go, unsupported_protocol, fail_with, wrap_error}

-- `u.Scheme`, by the strings that the code asks for.
pub data Scheme : Type 0 where
  tcp mqtt tls ssl mqtts wss ws : Scheme
  other_scheme : Bytes → Scheme

-- What is used of a *url.URL; `port` is empty where the URL has none, and `text` is its String.
pub record Url : Type 0 where
  pub scheme : Scheme
  pub host : Bytes
  pub hostname : Bytes
  pub port : Bytes
  pub text : Bytes

-- What is set of a tls.Config.
pub record TlsConfig : Type 0 where
  pub server_name : Bytes
  pub root_cas : Option Bytes
  pub certificates : List ℕ

-- A net.Conn, by its number, and what is laid around it.
pub data Transport : Type 0 where
  connection : ℕ → Transport
  tls_client : Option TlsConfig → Transport → Transport
  websocket : Option TlsConfig → List Bytes → Transport → Transport

pub record Net : Type 0 where
  pub parse : Bytes → Go Url
  -- Of the dialer with the number.
  pub dial_tcp : ℕ → Bytes → Go ℕ
  pub read_file : Bytes → Go Bytes
  pub load_key_pair : Bytes → Bytes → Go ℕ
  -- The protocols of the configuration for a location and an origin.
  pub new_config : Bytes → Bytes → Go (List Bytes)
  -- The handshake over a transport.
  pub new_client : List Bytes → Transport → Go (Unit {0})

pub record DialOptions : Type 0 where
  pub dialer : ℕ
  pub tls_config : Option TlsConfig
  pub conn_state : Option ℕ
  pub max_payload_len : ℕ

abbrev pub DialOption : Type 0
DialOption = DialOptions → Go DialOptions

unfoldable pub with_dialer : ℕ → DialOption
with_dialer d o = ok (record o { dialer = d })

unfoldable pub with_tls_config : Option TlsConfig → DialOption
with_tls_config config o = ok (record o { tls_config = config })

abbrev pub or_empty : Option TlsConfig → TlsConfig
or_empty none = record { server_name = []; root_cas = none; certificates = [] }
or_empty (some c) = c

unfoldable pub with_tls_cert_files : Net → Bytes → Bytes → Bytes → Bytes → DialOption
with_tls_cert_files net host ca_file cert_file private_key_file o = net.read_file ca_file >>= λ cas.
    net.load_key_pair cert_file private_key_file >>= λ cert. ok (record o {
      tls_config = some (record (or_empty o.tls_config) {
        server_name = host;
        root_cas = some cas;
        certificates = cert ∷ [];
      });
    })

unfoldable pub with_max_payload_len : ℕ → DialOption
with_max_payload_len l o = ok (record o { max_payload_len = l })

unfoldable pub with_conn_state_handler : Option ℕ → DialOption
with_conn_state_handler h o = ok (record o { conn_state = h })

-- The schemes of the first `switch`.
abbrev pub is_secure : Scheme → Bool
is_secure tcp = false
is_secure mqtt = false
is_secure tls = true
is_secure ssl = true
is_secure mqtts = true
is_secure wss = true
is_secure ws = false
is_secure (other_scheme s) = false

-- `defaultPorts`
abbrev pub default_port : Scheme → Option ℕ
default_port tcp = none
default_port mqtt = some 1883
default_port tls = none
default_port ssl = none
default_port mqtts = some 8883
default_port wss = some 443
default_port ws = some 80
default_port (other_scheme s) = none

-- `%d` of a port: no more than five digits.
abbrev pub digits : ℕ → ℕ → Bytes
digits zero n = []
digits (suc fuel) n =
    let front = digits fuel (n / 10) in
    if ltb n 10 then (b'0' + n) ∷ [] else front ++ ((b'0' + n % 10) ∷ [])

abbrev pub with_port : Option ℕ → Bytes → Bytes
with_port none host = host
with_port (some port) host = host ++ b':' ∷ digits 5 port

-- `hostWithPort`
unfoldable pub host_with_port : Url → Bytes
host_with_port u = elim u.port [ [] ↦ with_port (default_port u.scheme) u.host | ◌∷◌ c cs ↦ u.host ]

-- What is set of the BaseClient.
pub record Dialled : Type 0 where
  pub conn_state : Option ℕ
  pub max_payload_len : ℕ
  pub transport : Transport

abbrev pub wrapped_err : {A : Type 0} → String → Go A → Go A
wrapped_err failure (ok a) = ok a
wrapped_err failure (err e) = err (wrap_error e failure)
wrapped_err failure panic = panic

-- "https://" in front of the host.
abbrev pub origin : Url → Bytes
origin u = (b'h' ∷ b't' ∷ b't' ∷ b'p' ∷ b's' ∷ b':' ∷ b'/' ∷ b'/' ∷ []) ++ u.host

abbrev pub mqtt_protocol : Bytes
mqtt_protocol = b'm' ∷ b'q' ∷ b't' ∷ b't' ∷ []

-- The case "ws", to which "wss" falls through.
unfoldable pub dial_websocket : Net → DialOptions → Url → Transport → Go Transport
dial_websocket net o u base =
    wrapped_err "configuring websocket" (net.new_config u.text (origin u)) >>= λ ps.
    let protocols = ps ++ mqtt_protocol ∷ [] in
    wrapped_err "dialing websocket" (net.new_client protocols base) >>= λ _.
    ok (websocket o.tls_config protocols base)

-- The last `switch`.
unfoldable pub lay_transport : Net → DialOptions → Url → Scheme → Transport → Go Transport
lay_transport net o u tcp base = ok base
lay_transport net o u mqtt base = ok base
lay_transport net o u tls base = ok (tls_client o.tls_config base)
lay_transport net o u ssl base = ok (tls_client o.tls_config base)
lay_transport net o u mqtts base = ok (tls_client o.tls_config base)
lay_transport net o u wss base = dial_websocket net o u (tls_client o.tls_config base)
lay_transport net o u ws base = dial_websocket net o u base
lay_transport net o u (other_scheme s) base = ok base

-- The second `switch`, which refuses other schemes.
abbrev pub check_scheme : Scheme → Go (Unit {0})
check_scheme (other_scheme s) = err (fail_with unsupported_protocol "protocol %s")
check_scheme s = ok tt

unfoldable pub dial : Net → DialOptions → Url → Go Dialled
dial net o u = check_scheme u.scheme >>= λ _.
    wrapped_err "dialing tcp" (net.dial_tcp o.dialer (host_with_port u)) >>= λ c.
    lay_transport net o u u.scheme (connection c) >>= λ t.
    ok (record { conn_state = o.conn_state; max_payload_len = o.max_payload_len; transport = t })

unfoldable pub dial_options : List DialOption → DialOption
dial_options [] o = ok o
dial_options (opt ∷ opts) o = opt o >>= dial_options opts

-- The options before those of the caller; the dialer with the number 0 is a new one.
abbrev pub first_options : Url → DialOptions
first_options u = record {
  dialer = 0;
  tls_config =
      if is_secure u.scheme
      then some (record { server_name = u.hostname; root_cas = none; certificates = [] })
      else none;
  conn_state = none;
  max_payload_len = 0;
}

-- `DialContext`
unfoldable pub dial_context : Net → Bytes → List DialOption → Go Dialled
dial_context net url opts =
    net.parse url >>= λ u. dial_options opts (first_options u) >>= λ o. dial net o u

-- `BaseClientStoreDialer.DialContext`, from what the wrapped dialer returned: the client that is
-- stored, nil with an error.
unfoldable pub store_dialled : Go Dialled → Option Dialled → Option Dialled
store_dialled (ok c) stored = some c
store_dialled (err e) stored = none
store_dialled panic stored = stored
