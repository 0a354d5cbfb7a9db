-- ===== src/Errors.antt =====
-- error.go: the error values of the library, wrapping, and `Error.Is`.
-- A sentinel is a package-level `errors.New` value of this repository or of Go's standard library;
-- `transport` is any error of the connection. `wrapped` is `*Error` with its `Failure` (the format
-- string, arguments not rendered) and `Err`; its `File` and `Line` are left out.
use mqtt_go.Base.{ℕ, String, Bool, true, false, Option, none, some, ite, ℕ_discrete}
use mqtt_go.Base.Outcome.{Outcome}

pub data Sentinel : Type 0 where
  eof unexpected_eof closed_pipe : Sentinel
  context_canceled deadline_exceeded : Sentinel
  invalid_rune invalid_packet invalid_packet_length : Sentinel
  invalid_topic_filter invalid_sub_ack payload_len_exceeded invalid_qos : Sentinel
  closed_transport not_connected closed_client connection_failed : Sentinel
  keep_alive_disabled ping_timeout unsupported_protocol paho_not_connected : Sentinel
  transport : ℕ → Sentinel

unfoldable pub Sentinel-discrete : Discrete Sentinel
Sentinel-discrete = hlevel ℕ_discrete

pub data Err : Type 0 where
  sentinel : Sentinel → Err
  wrapped : String → Err → Err
  -- `*ConnectionError` with its return code and `Err`.
  connection_error : ℕ → Err → Err
  -- `*RequestTimeoutError`, whose embedded error is in an unexported field.
  request_timeout : Err → Err

-- A call that returns a value and an `error`, or panics.
abbrev pub Go : Type 0 → Type 0
Go A = Outcome Err A

-- `wrapErrorImpl`: `io.EOF` and `nil` are passed on as they are.
unfoldable pub wrap_error_impl : Option Err → String → Option Err
wrap_error_impl (some (sentinel eof)) failure = some (sentinel eof)
wrap_error_impl none failure = none
wrap_error_impl (some e) failure = some (wrapped failure e)

-- `wrapError` at an error that is not nil.
unfoldable pub wrap_error : Err → String → Err
wrap_error (sentinel eof) failure = sentinel eof
wrap_error e failure = wrapped failure e

-- `wrapError` at a sentinel other than `io.EOF`.
abbrev pub fail_with : Sentinel → String → Err
fail_with s failure = wrapped failure (sentinel s)

-- The loop of `Error.Is`: follow `Unwrap` (or an exported `Err` field) to the end of the chain.
is_loop : Err → Sentinel → Bool
is_loop (sentinel s) target = ite (Sentinel-discrete s target) true false
is_loop (wrapped failure e) target = is_loop e target
is_loop (connection_error code e) target = is_loop e target
is_loop (request_timeout e) target = false

-- `errors.Is` at a sentinel target: for an `*Error`, `Error.Is` starts from its `Err`.
unfoldable pub is : Err → Sentinel → Bool
unfolding is_loop
is e target = is_loop e target

-- The sentinel at the end of the chain of an error, if the chain reaches one.
unfoldable pub root : Err → Option Sentinel
root (sentinel s) = some s
root (wrapped failure e) = root e
root (connection_error code e) = root e
root (request_timeout e) = none
