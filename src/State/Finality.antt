-- ===== src/State/Finality.antt =====
-- What of a connection no later step changes.
use mqtt_go.Base.{
  ◌≡◌, refl, ap, Bool, true, false, not, ◌&&◌, ◌++◌, Option, none, some, if◌then◌else◌,
}
use mathlib.Core.List.{Permᴰ}
use mathlib.Core.List.Permᴰ as PermD
use mqtt_go.Errors.{Err}
use mqtt_go.State.{ConnState, state_disconnected, same_state, Call, Connection, change_state}
use mqtt_go.State.Changes.{same_state_refl, Live}

module _ (new : ConnState) (c : Connection) where
  abbrev next : Bool → ConnState
  next gone = if not gone then new else c.conn_state

  stays :
      (gone callback : Bool)
      → gone ≡ true
      → ◌≡◌ {A = Connection × Option Call}
          (
            record c { conn_state = next gone },
            if callback && not (same_state c.conn_state (next gone))
                then some (next gone, c.error)
                else none,
          )
          (c, none)
  stays true true e = rw (same_state_refl c.conn_state) refl
  stays true false e = refl
  stays false callback e = cc

  pub change_state-disconnected : c.conn_state ≡ state_disconnected → change_state new c ≡ (c, none)
  unfolding change_state
  change_state-disconnected e =
      stays (same_state c.conn_state state_disconnected) c.has_callback
        (ap (λ x. same_state x state_disconnected) e)

-- Between two connections: the later one was disconnected on purpose too, with no more changes, none
-- that the callback is told of or will be, and an error that was held is held.
record Lasting (a b : Live) : Type 0 where
  pub is_disconnected : b.conn.conn_state ≡ state_disconnected
  pub no_change : b.changes ≡ a.changes
  pub no_call : Permᴰ (b.pending ++ b.conn.calls) (a.pending ++ a.conn.calls)
  pub same_error : (e : Err) → a.conn.error ≡ some e → b.conn.error ≡ some e
