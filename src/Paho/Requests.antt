-- ===== src/Paho/Requests.antt =====
-- paho/paho.go and paho/message.go: the requests of the wrapper, and the messages that it passes on.
use mqtt_go.Base.{ℕ, Bool, true, false, List, [], ◌∷◌, Option, none, some, if◌then◌else◌}
use mqtt_go.Base.Bits.{Bytes}
use mqtt_go.Base.Outcome.{ok, err, panic, ◌>>=◌}
use mqtt_go.Errors.{Err, Go, sentinel, paho_not_connected}
use mqtt_go.Message.{Message, Subscription}
use mqtt_go.Mux.{ServeMux}
use mqtt_go.Mux as Mux
use mqtt_go.Paho.{PahoWrapper, Token, new_token, finish}

-- The payload of Publish, by its dynamic type.
pub data Payload : Type 0 where
  of_bytes of_string : Bytes → Payload
  of_other : Payload

abbrev pub payload_bytes : Payload → Go Bytes
payload_bytes (of_bytes p) = ok p
payload_bytes (of_string p) = ok p
payload_bytes of_other = panic

-- The message of Publish; it panics in the call itself.
unfoldable pub publish_message_of : Bytes → ℕ → Bool → Payload → Go Message
publish_message_of topic qos retained payload = payload_bytes payload >>= λ p.
    ok (record { topic = topic; id = 0; qos = qos; retain = retained; dup = false; payload = p })

-- The goroutines of Publish, Subscribe, SubscribeMultiple and Unsubscribe: `result` is what the request
-- returned, if there is a client.
unfoldable pub run_request : Option ℕ → Option Err → Token → Go Token
run_request none result t = finish (some (sentinel paho_not_connected)) t
run_request (some c) result t = finish result t

-- `c.serveMux.Handle(…)`, whose error is not used.
abbrev pub ignoring_mux : Go ServeMux → PahoWrapper → Go PahoWrapper
ignoring_mux (ok m) w = ok (record w { serve_mux = m })
ignoring_mux (err e) w = ok w
ignoring_mux panic w = panic

-- `AddRoute`, and the registration of Subscribe.
unfoldable pub add_route : Bytes → ℕ → PahoWrapper → Go PahoWrapper
add_route topic callback w = ignoring_mux (Mux.handle topic callback w.serve_mux) w

-- The loop of SubscribeMultiple over its map, in the order that the iteration takes.
unfoldable pub add_routes :
    ℕ → List (Bytes × ℕ) → PahoWrapper → Go (PahoWrapper × List Subscription)
add_routes callback [] w = ok (w, [])
add_routes callback ((f, qos) ∷ filters) w = add_route f callback w >>= λ w1.
    add_routes callback filters w1 >>= λ r. ok (r.0, record { topic = f; qos = qos } ∷ r.1)

-- `wrappedMessage`, by its methods.
pub record WrappedMessage : Type 0 where
  pub duplicate : Bool
  pub qos : ℕ
  pub retained : Bool
  pub topic : Bytes
  pub message_id : ℕ
  pub payload : Bytes

unfoldable pub wrap_message : Message → WrappedMessage
wrap_message m = record {
  duplicate = m.dup;
  qos = m.qos;
  retained = m.retain;
  topic = m.topic;
  message_id = m.id;
  payload = m.payload;
}

-- The calls, with the client that their goroutines find, and what a request comes to. What a call does
-- itself comes first, its token in the end.
unfoldable pub paho_publish :
    Bytes → ℕ → Bool → Payload → Option ℕ → (Message → Option Err) → Go (Go Token)
paho_publish topic qos retained payload cli send =
    publish_message_of topic qos retained payload >>= λ m. ok (run_request cli (send m) new_token)

unfoldable pub paho_subscribe :
    Bytes
    → ℕ
    → ℕ
    → Option ℕ
    → (List Subscription → Option Err)
    → PahoWrapper
    → Go (PahoWrapper × Go Token)
paho_subscribe topic qos callback cli send w = add_route topic callback w >>= λ w1.
    ok (w1, run_request cli (send (record { topic = topic; qos = qos } ∷ [])) new_token)

unfoldable pub paho_subscribe_multiple :
    List (Bytes × ℕ)
    → ℕ
    → Option ℕ
    → (List Subscription → Option Err)
    → PahoWrapper
    → Go (PahoWrapper × Go Token)
paho_subscribe_multiple filters callback cli send w =
    add_routes callback filters w >>= λ r. ok (r.0, run_request cli (send r.1) new_token)

unfoldable pub paho_unsubscribe : List Bytes → Option ℕ → (List Bytes → Option Err) → Go Token
paho_unsubscribe topics cli send = run_request cli (send topics) new_token

-- `Disconnect`: the client that is told to disconnect, if there is one.
unfoldable pub paho_disconnect : PahoWrapper → Option ℕ
paho_disconnect w = w.cli

-- `Wait` and `WaitTimeout`, where the time is over or not: whether they return, with what.
unfoldable pub wait : Token → Option Bool
wait t = if t.is_done then some true else none

unfoldable pub wait_timeout : Bool → Token → Option Bool
wait_timeout timed_out t = if t.is_done then some true else if timed_out then some false else none
