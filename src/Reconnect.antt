-- ===== src/Reconnect.antt =====
-- reconnclient.go: the options, and the loop of Connect that dials, connects and waits. A round of the
-- loop is given by what its calls return and what its selects find.
pub mod Waiting
pub mod Ending
pub mod Queueing
use mqtt_go.Base.{
  ℕ, ◌*◌, ◌%◌, ◌^◌, Bool, true, false, not, ◌&&◌, ◌||◌, ltb, List, [], ◌∷◌, ◌++◌, Option, none,
  some, ite, ◌==◌, if◌then◌else◌,
}
use mqtt_go.Base.Outcome.{ok, err, panic, ◌>>=◌}
use mqtt_go.Errors.{Err, Go, Sentinel-discrete, sentinel, wrap_error}
use mqtt_go.Connect.{ConnectOptions, ConnectOption, apply_options}
use mqtt_go.State.{store}
use mqtt_go.Client.{Client}
use mqtt_go.RetryClient.Loop.{System}
use mqtt_go.RetryClient.Loop.Operations.{
  set_client, begin_connect, end_connect, resubscribe_call, retry_call, disconnect_call, new_system,
}

abbrev pub one_second : ℕ
one_second = 1000000000

-- Durations are nanoseconds.
pub record ReconnectOptions : Type 0 where
  pub connect_options : List ConnectOption
  pub timeout : ℕ
  pub reconnect_wait_base : ℕ
  pub reconnect_wait_max : ℕ
  pub ping_interval : ℕ
  pub retry_client : System
  pub always_resubscribe : Bool

abbrev pub ReconnectOption : Type 0
ReconnectOption = ReconnectOptions → Go ReconnectOptions

unfoldable pub with_timeout : ℕ → ReconnectOption
with_timeout timeout o = ok (record o { timeout = timeout })

unfoldable pub with_reconnect_wait : ℕ → ℕ → ReconnectOption
with_reconnect_wait base max o =
    ok (record o { reconnect_wait_base = base; reconnect_wait_max = max })

unfoldable pub with_ping_interval : ℕ → ReconnectOption
with_ping_interval interval o = ok (record o { ping_interval = interval })

unfoldable pub with_retry_client : System → ReconnectOption
with_retry_client cli o = ok (record o { retry_client = cli })

unfoldable pub with_always_resubscribe : Bool → ReconnectOption
with_always_resubscribe always o = ok (record o { always_resubscribe = always })

abbrev pub reconnect_options : List ReconnectOption → ReconnectOption
reconnect_options [] o = ok o
reconnect_options (opt ∷ opts) o = opt o >>= reconnect_options opts

-- The options of NewReconnectClient, which has no other state at the start.
unfoldable pub new_reconnect_client : Client → List ReconnectOption → Go ReconnectOptions
new_reconnect_client nil opts = reconnect_options opts (record {
  connect_options = [];
  timeout = 0;
  reconnect_wait_base = one_second;
  reconnect_wait_max = 10 * one_second;
  ping_interval = 0;
  retry_client = new_system nil;
  always_resubscribe = false;
})

-- `> 0` on a signed number of 64 bits.
abbrev pub is_positive : ℕ → Bool
is_positive d = ltb 0 d && ltb d (2 ^ 63)

abbrev pub or_default : ℕ → ℕ → ℕ
or_default d value = if d == 0 then value else d

-- The defaults that Connect fills in, from the options of the connection.
unfoldable pub fill_defaults : ConnectOptions → ReconnectOptions → ReconnectOptions
fill_defaults conn o =
    let ping = or_default o.ping_interval (conn.keep_alive * one_second) in
    record o { ping_interval = ping; timeout = or_default o.timeout ping }

abbrev pub no_options : ConnectOptions
no_options = record {
  user_name = [];
  password = [];
  clean_session = false;
  keep_alive = 0;
  will = none;
  protocol_level = 0;
}

-- Connect up to the start of its goroutine.
unfoldable pub prepare : List ConnectOption → ReconnectOptions → Go ReconnectOptions
prepare opts o = apply_options opts no_options >>= λ conn. ok (fill_defaults conn o)

-- `err == ctx.Err()`: two *Error values that were made apart are not one pointer.
unfoldable pub same_error : Err → Option Err → Bool
same_error (sentinel s) (some (sentinel s')) = ite (Sentinel-discrete s s') true false
same_error e ctx_err = false

-- What the last `select` of a round finds.
pub data Pause : Type 0 where
  elapsed user_cancelled told_to_disconnect : Pause

-- How a connection ends: Done of the client with its error, the context, or `disconnected`.
pub data End : Type 0 where
  base_done : Option Err → End
  cancelled_end told_end : End

-- A round: dialing fails, connecting fails, with the error of the context that they are compared
-- with, or the connection is made, with or without a session, and ends.
pub data Round : Type 0 where
  no_dial : Err → Option Err → Pause → Round
  no_connect : Client → Err → Option Err → Pause → Round
  connects : Client → Bool → End → Pause → Round

-- What the loop does to the rest.
pub data Action : Type 0 where
  sets : Client → Action
  connected_with : Option Err → Action
  resubscribes retries keeps_alive closes : Action
  waits : ℕ → Action

-- `session` is what was sent on `done`; it is sent with the change of `ctx` to Background.
pub record Reconnecting : Type 0 where
  pub reconn_wait : ℕ
  pub initialized : Bool
  pub session : Option Bool
  pub err_dial : Option Err
  pub err_connect : Option Err
  pub actions : List Action

-- The next round, the end of the goroutine, or a `select` whose answer cannot come.
pub data Next : Type 0 where
  again returned blocked : Reconnecting → Next

-- `reconnWait *= 2`, a signed number of 64 bits in two's complement, and its limit.
unfoldable pub next_wait : ℕ → ℕ → ℕ
next_wait max wait =
    let doubled = (wait * 2) % 2 ^ 64 in
    if ltb doubled (2 ^ 63) && ltb max doubled then max else doubled

abbrev pub acting : List Action → Reconnecting → Reconnecting
acting acts st = record st { actions = st.actions ++ acts }

abbrev pub is_sent : Option Bool → Bool
is_sent none = false
is_sent (some b) = true

-- The last `select`.
unfoldable pub pause : ℕ → Pause → Reconnecting → Next
pause max elapsed st = again (record st {
  reconn_wait = next_wait max st.reconn_wait;
  actions = st.actions ++ waits st.reconn_wait ∷ [];
})
pause max user_cancelled st = if is_sent st.session then blocked st else returned st
pause max told_to_disconnect st = returned st

abbrev pub send_once : Bool → Option Bool → Option Bool
send_once b none = some b
send_once b (some b') = some b'

-- What is done when a connection was made, up to the `select` on its end.
unfoldable pub made_actions : ReconnectOptions → Client → Bool → Bool → List Action
made_actions o c present initialized =
    let resubscribe =
      if initialized && (not present || o.always_resubscribe) then resubscribes ∷ [] else [] in
    let keep_alive = if is_positive o.ping_interval then keeps_alive ∷ [] else [] in
    sets c ∷ connected_with none ∷ (resubscribe ++ (retries ∷ keep_alive))

unfoldable pub made : ReconnectOptions → Client → Bool → Reconnecting → Reconnecting
made o c present st = record st {
  reconn_wait = o.reconnect_wait_base;
  session = send_once present st.session;
  initialized = true;
  actions = st.actions ++ made_actions o c present st.initialized;
}

unfoldable pub at_end : ℕ → End → Pause → Reconnecting → Next
at_end max (base_done none) p st = returned st
at_end max (base_done (some e)) p st = pause max p (acting (closes ∷ []) st)
at_end max cancelled_end p st = blocked st
at_end max told_end p st = returned st

-- One round.
unfoldable pub reconnect_round : ReconnectOptions → Round → Reconnecting → Next
reconnect_round o (no_dial e ctx_err p) st =
    pause o.reconnect_wait_max p
      (if same_error e ctx_err then st else record st { err_dial = store (some e) st.err_dial })
reconnect_round o (no_connect c e ctx_err p) st =
    let e' = wrap_error e "retryclient: connecting" in
    let st' = acting (sets c ∷ connected_with (some e) ∷ closes ∷ []) st in
    pause o.reconnect_wait_max p (
      if same_error e' ctx_err
      then st'
      else record st' { err_connect = store (some e') st.err_connect })
reconnect_round o (connects c present end p) st =
    at_end o.reconnect_wait_max end p (made o c present st)

abbrev pub after_round : Next → (Reconnecting → Next) → Next
after_round (again st) next = next st
after_round (returned st) next = returned st
after_round (blocked st) next = blocked st

-- The rounds that take place; `again` as long as the loop runs.
unfoldable pub run_rounds : ReconnectOptions → List Round → Reconnecting → Next
run_rounds o [] st = again st
run_rounds o (r ∷ rs) st = after_round (reconnect_round o r st) (run_rounds o rs)

unfoldable pub start : ReconnectOptions → Reconnecting
start o = record {
  reconn_wait = o.reconnect_wait_base;
  initialized = false;
  session = none;
  err_dial = none;
  err_connect = none;
  actions = [];
}

-- `Disconnect`, with the closed flag of `disconnected`, which panics when it is closed twice, what
-- the last select finds (the error of the context, if it is done), and the RetryClient's state.
abbrev pub left : Option Err → Option Err × Go System → Option Err × Go System
left (some e) r = (some (wrap_error e "disconnecting"), r.1)
left none r = r

unfoldable pub disconnect_reconnect : Bool → Option Err → System → Option Err × Go System
disconnect_reconnect true ctx_err s = (none, panic)
disconnect_reconnect false ctx_err s = left ctx_err (disconnect_call s)

-- The actions on the RetryClient, with no other call between.
unfoldable pub act : Action → System → Go System
act (sets c) s = ok (set_client c s)
act (connected_with e) s = begin_connect s >>= λ (k, s'). end_connect k e s'
act resubscribes s = resubscribe_call s
act retries s = retry_call s
act keeps_alive s = ok s
act closes s = ok s
act (waits d) s = ok s

unfoldable pub act_all : List Action → System → Go System
act_all [] s = ok s
act_all (a ∷ acts) s = act a s >>= act_all acts
