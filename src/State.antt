-- ===== src/State.antt =====
-- The state of a connection: conn.go, the statistics of client.go, atomic.go, and the parts of
-- Connect (connect.go) and Disconnect (disconnect.go) that change it.
pub mod Changes
pub mod Delays
pub mod Finality
use mqtt_go.Base.{
  ℕ, zero, suc, ◌+◌, Bool, true, false, not, ◌&&◌, ◌||◌, List, [], ◌∷◌, Option, none, some, ltb,
  ◌==◌, if◌then◌else◌,
}
use mqtt_go.Errors.{Err}

pub data ConnState : Type 0 where
  state_new state_active state_closed state_disconnected : ConnState

-- `==` on connection states, which are the numbers 0 to 3.
abbrev pub state_number : ConnState → ℕ
state_number state_new = 0
state_number state_active = 1
state_number state_closed = 2
state_number state_disconnected = 3

abbrev pub same_state : ConnState → ConnState → Bool
same_state a b = state_number a == state_number b

-- `firstError.Store`; nil is none.
unfoldable pub store : Option Err → Option Err → Option Err
store err none = err
store err (some old) = some old

-- The fields of BaseClient that these functions use; `calls` are those of the ConnState callback,
-- the latest first, and none are made where there is no callback.
pub record Connection : Type 0 where
  pub has_callback : Bool
  pub conn_state : ConnState
  pub error : Option Err
  pub calls : List (ConnState × Option Err)

-- `SetErrorOnce`
unfoldable pub set_error_once : Option Err → Connection → Connection
set_error_once err c = record c { error = store err c.error }

abbrev pub Call : Type 0
Call = ConnState × Option Err

-- `connStateUpdate` up to the Unlock, and the call of the callback that it goes on to make, if any.
unfoldable pub change_state : ConnState → Connection → Connection × Option Call
change_state new_state c =
    let last_state = c.conn_state in
    let state =
      if not (same_state c.conn_state state_disconnected) then new_state else c.conn_state in
    (
      record c { conn_state = state },
      if c.has_callback && not (same_state last_state state) then some (state, c.error) else none,
    )

-- The call, behind the Unlock.
abbrev pub call_back : Option Call → Connection → Connection
call_back none c = c
call_back (some k) c = record c { calls = k ∷ c.calls }

-- The whole of it, where no other goroutine comes between.
unfoldable pub conn_state_update : ConnState → Connection → Connection
conn_state_update new_state c = let r = change_state new_state c in call_back r.1 r.0

-- The goroutine of Connect behind `c.serve()`, which returned `err`, up to the Unlock; `err_conn` is
-- what Close of the transport returns.
unfoldable pub hold_reason : Option Err → Option Err → Connection → Connection
hold_reason err err_conn c =
    let reason = store err_conn err in
    if not (same_state c.conn_state state_disconnected) then set_error_once reason c else c

-- Connect with an accepting CONNACK.
unfoldable pub accepted : Connection → Connection
accepted c = conn_state_update state_active c

-- Disconnect, before it writes.
unfoldable pub disconnecting : Connection → Connection
disconnecting c = conn_state_update state_disconnected c

-- Durations of pings are not negative.
pub record BaseStats : Type 0 where
  pub ping_delay_recent : ℕ
  pub ping_delay_max : ℕ
  pub ping_delay_min : ℕ
  pub count_ping_error : ℕ

unfoldable pub store_ping_delay : ℕ → BaseStats → BaseStats
store_ping_delay d s = record {
  ping_delay_recent = d;
  ping_delay_max = if ltb s.ping_delay_max d then d else s.ping_delay_max;
  ping_delay_min = if ltb d s.ping_delay_min || s.ping_delay_min == 0 then d else s.ping_delay_min;
  count_ping_error = s.count_ping_error;
}

unfoldable pub store_ping_error : BaseStats → BaseStats
store_ping_error s = record s { ping_delay_recent = 0; count_ping_error = suc s.count_ping_error }
