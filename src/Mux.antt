-- ===== src/Mux.antt =====
-- servemux.go: the multiplexer of message handlers, and serveasync.go. A handler is a number; the calls are listed in
-- order, each with its own copy of the message.
pub mod Dispatch
use mqtt_go.Base.{ℕ, true, false, Bool, List, [], ◌∷◌, ◌++◌, if◌then◌else◌}
use mqtt_go.Base.Bits.{Bytes}
use mqtt_go.Base.Outcome.{ok, ◌>>=◌}
use mqtt_go.Errors.{Go}
use mqtt_go.Message.{Message, clone}
use mqtt_go.Filter.{TopicFilter, new_topic_filter, matches}

pub record ServeMuxHandler : Type 0 where
  pub filter : TopicFilter
  pub handler : ℕ

pub record ServeMux : Type 0 where
  pub handlers : List ServeMuxHandler

-- `ServeMux.Handle`; a filter that is refused leaves the multiplexer as it was.
unfoldable pub handle : Bytes → ℕ → ServeMux → Go ServeMux
handle filter handler m = new_topic_filter filter >>= λ f.
    ok (record { handlers = m.handlers ++ record { filter = f; handler = handler } ∷ [] })

-- The loop of `ServeMux.Serve`.
unfoldable pub call_handlers : List ServeMuxHandler → Message → List (ℕ × Message)
call_handlers [] message = []
call_handlers (h ∷ hs) message =
    let rest = call_handlers hs message in
    if matches h.filter message.topic then (h.handler, clone message) ∷ rest else rest

unfoldable pub dispatch : ServeMux → Message → List (ℕ × Message)
dispatch m message = call_handlers m.handlers message

-- `ServeAsync.Serve`: the call that a new goroutine makes, with its own copy.
unfoldable pub serve_async : ℕ → Message → ℕ × Message
serve_async handler message = (handler, clone message)
