-- ===== src/KeepAlive.antt =====
-- keepalive.go: the loop of pings. A round is what one Ping came to, and what the two contexts say
-- when it failed; the ticker only paces the rounds.
pub mod Stopping
use mqtt_go.Base.{ℕ, Bool, true, false, List, [], ◌∷◌, Option, none, some}
use mqtt_go.Errors.{Err, sentinel, ping_timeout, wrap_error}

pub data Round : Type 0 where
  answered_round : Round
  -- The error of Ping, `ctx.Err()` if the context is done, and whether `ctxTo` is done.
  failed_round : Err → Option Err → Bool → Round

-- The two `select`s behind a failed Ping.
unfoldable pub ping_error : Err → Option Err → Bool → Err
ping_error e (some reason) timed_out = wrap_error reason "keeping alive"
ping_error e none true = wrap_error (sentinel ping_timeout) "keeping alive"
ping_error e none false = e

-- `KeepAlive` over the rounds that took place: the error that it returned, or none as long as it
-- runs.
unfoldable pub keep_alive : List Round → Option Err
keep_alive [] = none
keep_alive (answered_round ∷ rounds) = keep_alive rounds
keep_alive (failed_round e done timed_out ∷ rounds) = some (ping_error e done timed_out)
