-- ===== src/Tests/Clients.antt =====
-- The multiplexer, identifiers and the state of a connection at concrete values.
use mqtt_go.Base.{ℕ, ◌≡◌, ◌≢◌, ◌≤◌, ◌<◌, refl, true, false, List, [], ◌∷◌, none, some, arith}
use mathlib.Core.List.{Permᴰ}
use mathlib.Core.List.Permᴰ as PermD
use mqtt_go.Base.Bits.{Bytes}
use mqtt_go.Base.Outcome.{ok}
use mqtt_go.Message.{Message}
use mqtt_go.Filter.{new_topic_filter, check_levels, check_level, contains, split}
use mqtt_go.Mux.{ServeMux, handle, dispatch}
use mqtt_go.Mux.Dispatch.{handle_all, Calls, dispatch-Calls}
use mqtt_go.Ids.{init_id}
use mqtt_go.Ids.Cycle.{nth_id, new_id-distinct}
use mqtt_go.State.{
  state_new, state_active, state_closed, state_disconnected, Connection, change_state,
}
use mqtt_go.State.Changes.{
  Live, update, Moves, change, unchanged, is_accepted, is_closed, is_called, Informed,
  Moves-Informed,
}
use mqtt_go.State.Delays.{Ping, answered_ping, failed_ping}

abbrev registrations : List (Bytes × ℕ)
registrations = (b'#' ∷ [], 1) ∷ (b'b' ∷ [], 2) ∷ (b'a' ∷ [], 3) ∷ []

abbrev mux : ServeMux
mux = record {
  handlers =
      record { filter = (b'#' ∷ []) ∷ []; handler = 1 }
      ∷ record { filter = (b'b' ∷ []) ∷ []; handler = 2 }
      ∷ record { filter = (b'a' ∷ []) ∷ []; handler = 3 }
      ∷ [];
}

abbrev note : Message
note = record { topic = b'a' ∷ []; id = 0; qos = 0; retain = false; dup = false; payload = [] }

all_accepted : handle_all registrations (record { handlers = [] }) ≡ ok mux
unfolding handle new_topic_filter check_levels check_level contains split
all_accepted = refl

dispatch-Calls_example : Calls note registrations (dispatch mux note)
dispatch-Calls_example = dispatch-Calls registrations mux note all_accepted

new_id-distinct_example :
    (id id' last last' : ℕ) × (nth_id 0 (init_id 0xFFFD) ≡ some (id, last))
    × (nth_id 65534 (init_id 0xFFFD) ≡ some (id', last'))
    × (1 ≤ id)
    × (id < 65536)
    × (id ≢ id')
new_id-distinct_example = new_id-distinct 0xFFFD 0 65534 (omega arith) (omega arith) (omega arith)

abbrev new_connection : Connection
new_connection = record { has_callback = true; conn_state = state_new; error = none; calls = [] }

abbrev new_live : Live
new_live = record { conn = new_connection; pending = []; changes = [] }

informed : Informed new_live
informed = record { knows = refl; no_repeat = tt; told = PermD.refl []; listens = refl }

-- Connect's change to active and the reading goroutine's to closed, the calls of which come in the
-- other order.
abbrev overtaken : Live
overtaken = record {
  conn = record {
    has_callback = true;
    conn_state = state_closed;
    error = none;
    calls = (state_active, none) ∷ (state_closed, none) ∷ [];
  };
  pending = [];
  changes = (state_closed, none) ∷ (state_active, none) ∷ [];
}

overtaking : Moves new_live overtaken
unfolding change_state
overtaking =
    change
      (change (change (change unchanged is_accepted) is_closed)
        (is_called [] (state_closed, none) ((state_active, none) ∷ []) refl))
      (is_called [] (state_active, none) [] refl)

Moves-Informed_example : Informed overtaken
Moves-Informed_example = Moves-Informed overtaking informed

abbrev left_live : Live
left_live = update state_disconnected new_live

abbrev pings : List Ping
pings = failed_ping ∷ answered_ping 30 ∷ answered_ping 10 ∷ answered_ping 20 ∷ []
