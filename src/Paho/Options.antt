-- ===== src/Paho/Options.antt =====
-- What the wrapper's options become.
use mqtt_go.Base.{
  ◌∙◌, ℕ, ◌*◌, ◌%◌, ◌^◌, ◌≤◌, ◌≡◌, refl, Bool, true, false, ltb, List, [], ◌∷◌, ◌++◌, some, arith,
  if◌then◌else◌, ◌==◌,
}
use mqtt_go.Base.Outcome.{ok, ◌>>=◌}
use mqtt_go.Message.{Message}
use mqtt_go.Connect.{
  ConnectOption, ConnectOptions, apply_options, with_user_name_password, with_clean_session,
  with_keep_alive, with_protocol_level, with_will,
}
use mqtt_go.Client.{Client}
use mqtt_go.RetryClient.Loop.Operations.{new_system}
use mqtt_go.Reconnect.{
  ReconnectOptions, with_ping_interval, with_timeout, with_reconnect_wait, new_reconnect_client,
  prepare, fill_defaults, no_options,
}
use mqtt_go.Paho.{ClientOptions, PahoWrapper, connect_options, will_message, paho_reconnect_options}

-- The options of the connection that those of the other library stand for.
abbrev pub Carried : ClientOptions → ConnectOptions → ConnectOptions
Carried o d = record {
  user_name = o.username;
  password = o.password;
  clean_session = o.clean_session;
  keep_alive = o.keep_alive % 2 ^ 16;
  will =
      if o.will_enabled
      then some (record {
        topic = o.will_topic;
        id = 0;
        qos = o.will_qos;
        retain = o.will_retained;
        dup = false;
        payload = o.will_payload;
      })
      else d.will;
  protocol_level =
      if ltb 0 o.protocol_version then o.protocol_version % 2 ^ 8 else d.protocol_level;
}

level_then :
    (b : Bool) (n : ℕ) (opts : List ConnectOption) (d : ConnectOptions)
    → apply_options ((if b then with_protocol_level n ∷ [] else []) ++ opts) d
      ≡ apply_options opts (record d { protocol_level = if b then n else d.protocol_level })
unfolding apply_options with_protocol_level
level_then true n opts d = refl
level_then false n opts d = refl

with_will-ok :
    (m : Message) (d : ConnectOptions) → m.qos ≤ 2 → with_will m d ≡ ok (record d { will = some m })
unfolding with_will
with_will-ok m d h = ground arith

will_last :
    (b : Bool) (m : Message) (d : ConnectOptions)
    → m.qos ≤ 2
    → apply_options (if b then with_will m ∷ [] else []) d
      ≡ ok (record d { will = if b then some m else d.will })
unfolding apply_options
will_last true m d h = rw (with_will-ok m d h) refl
will_last false m d h = refl

connect_options-Carried :
    (o : ClientOptions) (d : ConnectOptions)
    → o.will_qos ≤ 2
    → apply_options (connect_options o) d ≡ ok (Carried o d)
unfolding connect_options apply_options with_user_name_password with_clean_session with_keep_alive
connect_options-Carried o d h =
    level_then (ltb 0 o.protocol_version) (o.protocol_version % 2 ^ 8) _ _
    ∙ will_last o.will_enabled (will_message o) _ h

-- What the ReconnectClient goes on with, when Connect has filled in its defaults: the ping interval is
-- the keep alive time in nanoseconds of 64 bits, or that of the CONNECT packet where these come to 0;
-- a ping timeout of 0 becomes the ping interval.
abbrev pub carried_ping : ClientOptions → ℕ
carried_ping o =
    if (o.keep_alive * 1000000000) % 2 ^ 64 == 0
    then (o.keep_alive % 2 ^ 16) * 1000000000
    else (o.keep_alive * 1000000000) % 2 ^ 64

abbrev pub carried_waits : PahoWrapper → Client → ReconnectOptions
carried_waits w nil = record {
  connect_options = [];
  timeout =
      if w.paho_config.ping_timeout == 0
      then carried_ping w.paho_config
      else w.paho_config.ping_timeout;
  reconnect_wait_base = w.retry_interval;
  reconnect_wait_max = w.max_interval;
  ping_interval = carried_ping w.paho_config;
  retry_client = new_system nil;
  always_resubscribe = false;
}

prepared-Carried :
    (w : PahoWrapper) (nil : Client)
    → w.paho_config.will_qos ≤ 2
    → (new_reconnect_client nil (paho_reconnect_options w)
        >>= prepare (connect_options w.paho_config))
      ≡ ok (carried_waits w nil)
unfolding new_reconnect_client paho_reconnect_options with_ping_interval with_timeout
    with_reconnect_wait prepare fill_defaults
prepared-Carried w nil h = rw (connect_options-Carried w.paho_config no_options h) refl

-- The options of the other library, with a will of QoS 2 at most: those of the connection carry each of
-- them, the keep alive time modulo 2 ^ 16, the protocol version, if it is set, modulo 2 ^ 8, and the
-- will, if it is enabled, with its topic, payload, QoS and retain flag. With the options of the wrapper
-- NewReconnectClient and the start of Connect succeed, and the waits are the wrapper's, the ping interval
-- is the keep alive time in nanoseconds of 64 bits, or where these are 0 that of the CONNECT packet, and
-- the timeout is the ping timeout, or where this is 0 the ping interval.
pub options-Carried :
    (w : PahoWrapper) (d : ConnectOptions) (nil : Client)
    → w.paho_config.will_qos ≤ 2
    → (apply_options (connect_options w.paho_config) d ≡ ok (Carried w.paho_config d))
      × ((new_reconnect_client nil (paho_reconnect_options w)
            >>= prepare (connect_options w.paho_config))
          ≡ ok (carried_waits w nil))
options-Carried w d nil h = (connect_options-Carried w.paho_config d h, prepared-Carried w nil h)
