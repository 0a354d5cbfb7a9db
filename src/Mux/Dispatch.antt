-- ===== src/Mux/Dispatch.antt =====
-- Which handlers of a multiplexer a message reaches.
use mqtt_go.Base.{
  ℕ, ◌≡◌, refl, sym, ap, ◌∙◌, true, List, [], ◌∷◌, ◌++◌, append_assoc, append-nil, if◌then◌else◌,
  Bool-cases, inl, inr,
}
use mathlib.Core.Path.{subst}
use mqtt_go.Base.Bits.{Bytes}
use mqtt_go.Base.Outcome.{ok, ◌>>=◌, >>=-eq-ok}
use mqtt_go.Errors.{Go}
use mqtt_go.Message.{Message, clone}
use mqtt_go.Filter.{TopicFilter, new_topic_filter, matches, split}
use mqtt_go.Filter.Matching.{Matches, matches_iff}
use mqtt_go.Filter.Valid.{new_topic_filter_iff}
use mqtt_go.Mux.{ServeMuxHandler, ServeMux, handle, call_handlers, dispatch}

-- Registrations one after the other, up to the first that is refused.
abbrev pub handle_all : List (Bytes × ℕ) → ServeMux → Go ServeMux
handle_all [] m = ok m
handle_all ((filter, handler) ∷ regs) m = handle filter handler m >>= λ m'. handle_all regs m'

-- The calls that a message should make: in the order of the registrations, each handler whose
-- filter matches the message's topic by the rules of the MQTT text, with the message.
pub data Calls (message : Message) : List (Bytes × ℕ) → List (ℕ × Message) → Type 0 where
  done : Calls message [] []
  called :
      {filter : Bytes} {handler : ℕ} {regs : List (Bytes × ℕ)} {calls : List (ℕ × Message)}
      → Matches (split filter) (split message.topic)
      → Calls message regs calls
      → Calls message ((filter, handler) ∷ regs) ((handler, message) ∷ calls)
  passed_over :
      {filter : Bytes} {handler : ℕ} {regs : List (Bytes × ℕ)} {calls : List (ℕ × Message)}
      → ¬ Matches (split filter) (split message.topic)
      → Calls message regs calls
      → Calls message ((filter, handler) ∷ regs) calls

call_handlers-append :
    (a b : List ServeMuxHandler) (m : Message)
    → call_handlers (a ++ b) m ≡ call_handlers a m ++ call_handlers b m
unfolding call_handlers
call_handlers-append [] b m = refl
call_handlers-append (h ∷ a) b m = elim (Bool-cases (matches h.filter m.topic)) [
  | inl e ↦ rw e (ap (λ l. (h.handler, clone m) ∷ l) (call_handlers-append a b m))
  | inr e ↦ rw e (call_handlers-append a b m)
]

-- The calls of one entry.
abbrev own : TopicFilter → ℕ → Message → List (ℕ × Message)
own f handler message = if matches f message.topic then (handler, message) ∷ [] else []

own-Calls :
    (filter : Bytes) (f : TopicFilter) (handler : ℕ) (regs : List (Bytes × ℕ))
    (calls : List (ℕ × Message)) (message : Message)
    → new_topic_filter filter ≡ ok f
    → Calls message regs calls
    → Calls message ((filter, handler) ∷ regs) (own f handler message ++ calls)
own-Calls filter f handler regs calls message accepted c =
    let (forth, back) = matches_iff filter message.topic f accepted in
    let (ne, same, v) = (new_topic_filter_iff filter f).0 accepted in
    elim (Bool-cases (matches f message.topic)) [
      | inl e ↦ rw e (called (subst (λ l. Matches l (split message.topic)) same (forth e)) c)
      | inr e ↦ rw e (
          passed_over
            (λ x.
              let hit : matches f message.topic ≡ true =
                back (subst (λ l. Matches l (split message.topic)) (sym same) x) in
              cc)
            c)
    ]

-- A multiplexer after registrations that were all accepted: what it calls for a message beyond
-- what it called before.
handle_all-Calls :
    (regs : List (Bytes × ℕ)) (m m' : ServeMux) (message : Message)
    → handle_all regs m ≡ ok m'
    → (calls : List (ℕ × Message)) × (dispatch m' message ≡ dispatch m message ++ calls)
      × Calls message regs calls
unfolding dispatch handle call_handlers clone
handle_all-Calls [] m m' message e =
    let same : m ≡ m' = cc in
    ([], ap (λ x. dispatch x message) (sym same) ∙ sym (append-nil (dispatch m message)), done)
handle_all-Calls ((filter, handler) ∷ regs) m m' message e =
    let (m1, first, second) = >>=-eq-ok (handle filter handler m) _ e in
    let (f, accepted, added) = >>=-eq-ok (new_topic_filter filter) _ first in
    let (calls, more, c) = handle_all-Calls regs m1 m' message second in
    let entry : ServeMuxHandler = record { filter = f; handler = handler } in
    let grown : record { handlers = m.handlers ++ entry ∷ [] } ≡ m1 = cc in
    let here : dispatch m1 message ≡ dispatch m message ++ own f handler message =
      ap (λ x. dispatch x message) (sym grown)
      ∙ call_handlers-append m.handlers (entry ∷ []) message in
    let all : dispatch m' message ≡ dispatch m message ++ (own f handler message ++ calls) =
      more
      ∙ ap (λ l. l ++ calls) here
      ∙ append_assoc (dispatch m message) (own f handler message) calls in
    (own f handler message ++ calls, all, own-Calls filter f handler regs calls message accepted c)

-- Whatever filters are registered, in whatever order, if all are accepted: a message then reaches
-- exactly the handlers whose filter matches its topic by the rules of the MQTT text, in the order
-- of their registration, once for each registration.
pub dispatch-Calls :
    (regs : List (Bytes × ℕ)) (m : ServeMux) (message : Message)
    → handle_all regs (record { handlers = [] }) ≡ ok m
    → Calls message regs (dispatch m message)
unfolding dispatch call_handlers
dispatch-Calls regs m message e =
    let (calls, same, c) = handle_all-Calls regs (record { handlers = [] }) m message e in
    subst (Calls message regs) (sym same) c
