-- ===== src/Serve/Invariant.antt =====
-- The balance of handed over messages and PUBRECs along the reading loop.
use mqtt_go.Base.{
  ℕ, zero, suc, ◌≤◌, ◌<◌, ◌≡◌, ◌≢◌, refl, sym, Bool, true, false, [], ◌∷◌, length, Option, none,
  some, lookup, delete, insert, ◌==◌, ==_iff, if◌then◌else◌, arith, Bool-cases, Option-cases, inl,
  inr, String,
}
use mathlib.Core.Path.{subst, subst₂}
use mqtt_go.Base.Bits.{Bytes}
use mqtt_go.Base.Outcome.{ok, err, panic, Outcome-cases}
use mqtt_go.Errors.{Err, Go}
use mqtt_go.Message.{Message}
use mqtt_go.Packet.{RawPacket, read_packet, packet_pub_rec, pack_uint16}
use mqtt_go.Packet.Progress.{pack-ne-nil}
use mqtt_go.Ack.{pack_pub_rec}
use mqtt_go.Serve.{
  served, Server, Step, Transport, after, answered, and_then, reply, write, serve_message,
  receive_message, release_message, serve_packet, serve, on_conn_ack, on_publish, on_pub_ack,
  on_pub_rec, on_pub_rel, on_pub_comp, on_sub_ack, on_unsub_ack, on_ping_resp,
}
use mqtt_go.Serve.Switch.{serve_packet-cases}
use mqtt_go.Serve.Total.{serve-Ended}
use mqtt_go.Serve.Balance.{
  Balanced, BalancedServer, handed_count, rec_count, Balanced-wrote, Balanced-start,
  Balanced-served_low, Balanced-kept, Balanced-released,
}

trace-serve_message :
    (m : Message) (s : Server)
    → (serve_message m s).trace ≡ (if s.has_handler then served m ∷ s.trace else s.trace)
unfolding serve_message
trace-serve_message m s = ground arith

sub_buffer-serve_message :
    (m : Message) (s : Server) → (serve_message m s).sub_buffer ≡ s.sub_buffer
unfolding serve_message
sub_buffer-serve_message m s = ground arith

abbrev Keeps : Step → Type 0
Keeps r = BalancedServer r.0

after-Keeps :
    {A : Type 0} (call : Go A) (s : Server) (next : A → Step)
    → BalancedServer s
    → ((a : A) → Keeps (next a))
    → Keeps (after call s next)
after-Keeps (ok a) s next h k = k a
after-Keeps (err e) s next h k = h
after-Keeps panic s next h k = h

low_message :
    (m : Message) (s : Server) → m.qos ≢ 2 → BalancedServer s → BalancedServer (serve_message m s)
low_message m s low h =
    subst₂ Balanced (sym (sub_buffer-serve_message m s)) (sym (trace-serve_message m s))
      (handler_or_not s.has_handler)
  where
    handler_or_not : (b : Bool) → Balanced s.sub_buffer (if b then served m ∷ s.trace else s.trace)
    handler_or_not true = Balanced-served_low s.sub_buffer s.trace h m low
    handler_or_not false = h

answered-Keeps : (f : String) (r : Server × Option Err) → BalancedServer r.0 → Keeps (answered f r)
answered-Keeps f (s, none) h = h
answered-Keeps f (s, some e) h = h

write-Keeps :
    (t : Transport) (b : Bytes) (s : Server) → BalancedServer s → BalancedServer (write t b s).0
unfolding write
write-Keeps t [] s h = h
write-Keeps t (b ∷ bs) s h = elim (Option-cases (t s.writes)) [
  | inl free ↦ rw (free, write) (Balanced-wrote s.sub_buffer s.trace h (b ∷ bs))
  | inr (x, failed) ↦ rw (failed, write) h
]

reply-Keeps :
    (t : Transport) (pkt : Go Bytes) (f : String) (s : Server)
    → BalancedServer s
    → Keeps (reply t pkt f s)
unfolding reply
reply-Keeps t pkt f s h =
    after-Keeps pkt s _ h (λ b. answered-Keeps f (write t b s) (write-Keeps t b s h))

-- The rest of the PUBLISH case at QoS 2, behind the write.
module _ (t : Transport) (m : Message) (s : Server) (two : m.qos ≡ 2) (h : BalancedServer s) where
  abbrev keep : Server → Step
  keep s' = (record s' { sub_buffer = insert m.id m s'.sub_buffer }, ok tt)

  written-Keeps :
      (f : String) (b : Bytes)
      → pack_pub_rec (record { id = m.id }) ≡ ok b
      → b ≢ []
      → Keeps (and_then (λ r. r) (answered f (write t b s)) keep)
  unfolding write
  written-Keeps f [] e some_bytes = absurd (some_bytes refl)
  written-Keeps f (b ∷ bs) e some_bytes = elim (Option-cases (t s.writes)) [
    | inl free ↦ rw (free, write) (Balanced-kept s.sub_buffer s.trace h m (b ∷ bs) two e)
    | inr (x, failed) ↦ rw (failed, write) h
  ]

  recorded-Keeps :
      (f : String)
      → Keeps (and_then (λ r. r) (reply t (pack_pub_rec (record { id = m.id })) f s) keep)
  unfolding reply
  recorded-Keeps f = elim (Outcome-cases (pack_pub_rec (record { id = m.id }))) [
    | inl e ↦ rw (e, reply) h
    | inr (inl (x, e)) ↦ rw (e, reply) h
    | inr (inr (b, e)) ↦
        rw (e, reply)
          (written-Keeps f b e
            (pack-ne-nil packet_pub_rec (pack_uint16 m.id ∷ []) b (unfold pack_pub_rec in e)))
  ]

receive_message-Keeps :
    (t : Transport) (m : Message) (s : Server) → BalancedServer s → Keeps (receive_message t m s)
unfolding receive_message
receive_message-Keeps t m s h = elim (Bool-cases (m.qos == 0)) [
  | inl z ↦ rw z (low_message m s (ground arith) h)
  | inr z ↦ elim (Bool-cases (m.qos == 1)) [
    | inl o ↦ rw z (rw o (reply-Keeps t _ _ _ (low_message m s (ground arith) h)))
    | inr o ↦ elim (Bool-cases (m.qos == 2)) [
      | inl two ↦ rw z (rw o (rw two (recorded-Keeps t m s ((==_iff _ _).0 two) h _)))
      | inr two ↦ rw z (rw o (rw two h))
    ]
  ]
]

release_message-Keeps :
    (t : Transport) (id : ℕ) (s : Server) → BalancedServer s → Keeps (release_message t id s)
unfolding release_message
release_message-Keeps t id s h = elim (Option-cases (lookup id s.sub_buffer)) [
  | inl gone ↦ rw gone h
  | inr (m, kept) ↦ rw kept (
      reply-Keeps t _ _ _ (
        subst₂ (λ buf l. Balanced (delete id buf) l) (sym (sub_buffer-serve_message m s))
          (sym (trace-serve_message m s))
          (Balanced-released s.sub_buffer s.trace h id m kept s.has_handler)))
]

serve_packet-Keeps :
    (t : Transport) (p : RawPacket) (s : Server) → BalancedServer s → Keeps (serve_packet t p s)
unfolding on_conn_ack on_publish on_pub_ack on_pub_rec on_pub_rel on_pub_comp on_sub_ack
    on_unsub_ack on_ping_resp
serve_packet-Keeps t p s h =
    serve_packet-cases Keeps t p s (after-Keeps _ s _ h (λ a. h))
      (after-Keeps _ s _ h (λ m. receive_message-Keeps t m s h)) (after-Keeps _ s _ h (λ a. h))
      (after-Keeps _ s _ h (λ a. h)) (after-Keeps _ s _ h (λ a. release_message-Keeps t a.id s h))
      (after-Keeps _ s _ h (λ a. h)) (λ _. after-Keeps _ s _ h (λ a. h))
      (after-Keeps _ s _ h (λ a. h)) (after-Keeps _ s _ h (λ a. h)) (λ e. h)

-- What holds of the state in which the loop ends.
abbrev Final : Option Step → Type 0
Final none = Unit {0}
Final (some r) = Keeps r

and_then-Final :
    (r : Step) (next : Server → Option Step)
    → Keeps r
    → ((s : Server) → BalancedServer s → Final (next s))
    → Final (and_then some r next)
and_then-Final (s, ok x) next h k = k s h
and_then-Final (s, err e) next h k = h
and_then-Final (s, panic) next h k = h

serve-Final :
    (fuel : ℕ) (t : Transport) (input : Bytes) (s : Server)
    → BalancedServer s
    → Final (serve fuel t input s)
unfolding serve
serve-Final zero t input s h = tt
serve-Final (suc fuel) t input s h = elim (Outcome-cases (read_packet input)) [
  | inl e ↦ rw (e, serve) h
  | inr (inl (x, e)) ↦ rw (e, serve) h
  | inr (inr ((p, rest), e)) ↦
      rw (e, serve)
        (and_then-Final (serve_packet t p s) _ (serve_packet-Keeps t p s h)
          (λ s' h'. serve-Final fuel t rest s' h'))
]

-- From a state in which nothing is kept and nothing has happened yet, on any input and with any
-- answers of the transport, the loop ends, and for every identifier the handler was called with
-- messages of QoS 2 no more often than PUBREC was sent.
pub serve-handed_count :
    (fuel : ℕ) (t : Transport) (input : Bytes) (s : Server)
    → length input < fuel
    → s.sub_buffer ≡ []
    → s.trace ≡ []
    → (s' : Server) × (r : Go (Unit {0})) × (serve fuel t input s ≡ some (s', r))
      × (r ≢ ok tt)
      × ((id : ℕ) → handed_count id s'.trace ≤ rec_count id s'.trace)
serve-handed_count fuel t input s enough no_message no_event =
    let (s', r, e, ended) = serve-Ended fuel t input s enough in
    let start : BalancedServer s = subst₂ Balanced (sym no_message) (sym no_event) Balanced-start in
    let final : BalancedServer s' = subst Final e (serve-Final fuel t input s start) in
    (s', r, e, ended, λ id. omega (arith, final.balance id))
