-- ===== src/Serve.antt =====
-- serve.go: the reading loop of a connection. A step takes one packet; its outcome says whether the
-- loop goes on, returns an error, or panics.
-- The transport is a parameter: the k-th Write takes all of its bytes, or returns an error, as
-- io.Writer requires. The handler is the user's; what is kept of it is whether there is one, and
-- which messages it was called with.
pub mod Switch
pub mod Total
pub mod Acks
pub mod Stream
pub mod Once
pub mod Balance
pub mod Invariant
use mqtt_go.Base.{
  ℕ, zero, suc, Bool, List, [], ◌∷◌, length, Option, none, some, Map, lookup, delete, insert, ◌==◌,
  if◌then◌else◌, String,
}
use mqtt_go.Base.Bits.{Bytes}
use mqtt_go.Base.Outcome.{ok, err, panic, ◌>>=◌}
use mqtt_go.Errors.{Err, Go, invalid_packet, fail_with, wrap_error}
use mqtt_go.Packet.{
  packet_conn_ack, packet_publish, packet_pub_ack, packet_pub_rec, packet_pub_rel, packet_pub_comp,
  packet_sub_ack, packet_unsub_ack, packet_ping_resp, RawPacket, read_packet,
}
use mqtt_go.Message.{Message, qos0, qos1, qos2}
use mqtt_go.Ack.{
  parse_pub_ack, parse_pub_rec, parse_pub_rel, parse_pub_comp, parse_sub_ack, parse_unsub_ack,
  parse_conn_ack, parse_ping_resp, pack_pub_ack, pack_pub_rec, pack_pub_comp,
}
use mqtt_go.Publish.{parse_publish}
use mqtt_go.Signaller.{
  Signal, conn_ack_signal, ping_resp_signal, pub_ack_signal, pub_rec_signal, pub_comp_signal,
  sub_ack_signal, unsub_ack_signal, Signaller, Channels, send, take_pub_ack, take_pub_rec,
  take_pub_comp, take_sub_ack, take_unsub_ack,
}

-- What the loop does to the outside, in order.
pub data Event : Type 0 where
  served : Message → Event
  wrote : Bytes → Event

-- The loop's variables, and what of the client it reads and changes. `trace` has the latest first.
pub record Server : Type 0 where
  pub has_handler : Bool
  pub sig : Signaller
  pub channels : Channels
  pub sub_buffer : Map Message
  pub writes : ℕ
  pub trace : List Event

abbrev pub Step : Type 0
Step = Server × Go (Unit {0})

-- The answers of the transport: none, or the error of the k-th Write.
abbrev pub Transport : Type 0
Transport = ℕ → Option Err

-- `if handler != nil { handler.Serve(m) }`
unfoldable pub serve_message : Message → Server → Server
serve_message m s = if s.has_handler then record s { trace = served m ∷ s.trace } else s

-- `BaseClient.write`: no call for no bytes, else one call, which takes them all or fails.
unfoldable pub write : Transport → Bytes → Server → Server × Option Err
write t [] s = (s, none)
write t (b ∷ bs) s = elim (t s.writes) [
  | none ↦ (record s { writes = suc s.writes; trace = wrote (b ∷ bs) ∷ s.trace }, none)
  | some e ↦ (record s { writes = suc s.writes }, some e)
]

-- What follows a call that may return an error or panic.
abbrev pub after : {A : Type 0} → Go A → Server → (A → Step) → Step
after (ok a) s next = next a
after (err e) s next = (s, err e)
after panic s next = (s, panic)

-- What follows a call of `write`.
abbrev pub answered : String → Server × Option Err → Step
answered failure (s, none) = (s, ok tt)
answered failure (s, some e) = (s, err (wrap_error e failure))

-- `if err := c.write(pkt); err != nil { return wrapError(err, failure) }`
unfoldable pub reply : Transport → Go Bytes → String → Server → Step
reply t pkt failure s = after pkt s (λ b. answered failure (write t b s))

-- A channel found for an identifier, and the signaller without it.
abbrev pub signalled : Option ℕ × Signaller → Signal → Server → Step
signalled (ch, sig') v s = (record s { sig = sig'; channels = send ch v s.channels }, ok tt)

unfoldable pub on_conn_ack : ℕ → Bytes → Server → Step
on_conn_ack flag contents s =
    after (parse_conn_ack flag contents) s
      (λ p. (record s { channels = send s.sig.ch_conn_ack (conn_ack_signal p) s.channels }, ok tt))

-- What follows a step that may have returned; the rest of the case, or the next round.
abbrev pub and_then {ℓ} : {A : Type ℓ} → (Step → A) → Step → (Server → A) → A
and_then stop (s, ok _) next = next s
and_then stop (s, err e) next = stop (s, err e)
and_then stop (s, panic) next = stop (s, panic)

-- The PUBLISH case, with the message parsed.
unfoldable pub receive_message : Transport → Message → Server → Step
receive_message t m s =
    if m.qos == qos0
    then (serve_message m s, ok tt)
    else if m.qos == qos1
    then reply t (pack_pub_ack (record { id = m.id })) "sending PUBACK" (serve_message m s)
    else if m.qos == qos2
    then and_then (λ r. r) (reply t (pack_pub_rec (record { id = m.id })) "sending PUBREC" s)
        (λ s'. (record s' { sub_buffer = insert m.id m s'.sub_buffer }, ok tt))
    else (s, ok tt)

unfoldable pub on_publish : Transport → ℕ → Bytes → Server → Step
on_publish t flag contents s = after (parse_publish flag contents) s (λ m. receive_message t m s)

unfoldable pub on_pub_ack : ℕ → Bytes → Server → Step
on_pub_ack flag contents s =
    after (parse_pub_ack flag contents) s
      (λ p. signalled (take_pub_ack p.id s.sig) (pub_ack_signal p) s)

unfoldable pub on_pub_rec : ℕ → Bytes → Server → Step
on_pub_rec flag contents s =
    after (parse_pub_rec flag contents) s
      (λ p. signalled (take_pub_rec p.id s.sig) (pub_rec_signal p) s)

-- The PUBREL case behind the lookup in the buffer.
abbrev pub released : Transport → ℕ → Option Message → Server → Step
released t id none s = (s, ok tt)
released t id (some m) s =
    let s' = serve_message m s in
    reply t (pack_pub_comp (record { id = id })) "sending PUBCOMP"
      (record s' { sub_buffer = delete id s'.sub_buffer })

-- The PUBREL case, with the identifier parsed.
unfoldable pub release_message : Transport → ℕ → Server → Step
release_message t id s = released t id (lookup id s.sub_buffer) s

unfoldable pub on_pub_rel : Transport → ℕ → Bytes → Server → Step
on_pub_rel t flag contents s = after (parse_pub_rel flag contents) s (λ p. release_message t p.id s)

unfoldable pub on_pub_comp : ℕ → Bytes → Server → Step
on_pub_comp flag contents s =
    after (parse_pub_comp flag contents) s
      (λ p. signalled (take_pub_comp p.id s.sig) (pub_comp_signal p) s)

unfoldable pub on_sub_ack : ℕ → Bytes → Server → Step
on_sub_ack flag contents s =
    after (parse_sub_ack flag contents) s
      (λ p. signalled (take_sub_ack p.id s.sig) (sub_ack_signal p) s)

unfoldable pub on_unsub_ack : ℕ → Bytes → Server → Step
on_unsub_ack flag contents s =
    after (parse_unsub_ack flag contents) s
      (λ p. signalled (take_unsub_ack p.id s.sig) (unsub_ack_signal p) s)

unfoldable pub on_ping_resp : ℕ → Bytes → Server → Step
on_ping_resp flag contents s =
    after (parse_ping_resp flag contents) s (λ p.
      (record s { channels = send s.sig.ch_ping_resp (ping_resp_signal p) s.channels }, ok tt))

-- The `switch` on the packet's type.
unfoldable pub serve_packet : Transport → RawPacket → Server → Step
serve_packet t p s =
    if p.pkt_type == packet_conn_ack
    then on_conn_ack p.pkt_flag p.contents s
    else if p.pkt_type == packet_publish
    then on_publish t p.pkt_flag p.contents s
    else if p.pkt_type == packet_pub_ack
    then on_pub_ack p.pkt_flag p.contents s
    else if p.pkt_type == packet_pub_rec
    then on_pub_rec p.pkt_flag p.contents s
    else if p.pkt_type == packet_pub_rel
    then on_pub_rel t p.pkt_flag p.contents s
    else if p.pkt_type == packet_pub_comp
    then on_pub_comp p.pkt_flag p.contents s
    else if p.pkt_type == packet_sub_ack
    then on_sub_ack p.pkt_flag p.contents s
    else if p.pkt_type == packet_unsub_ack
    then on_unsub_ack p.pkt_flag p.contents s
    else if p.pkt_type == packet_ping_resp
    then on_ping_resp p.pkt_flag p.contents s
    else (s, err (fail_with invalid_packet "serving incoming packet %x"))

-- The loop, on the bytes that arrive before the connection ends. Each round reads two bytes at
-- least, so that the number of the bytes bounds the rounds; none says that the fuel ran out.
unfoldable pub serve : ℕ → Transport → Bytes → Server → Option Step
serve zero t input s = none
serve (suc fuel) t input s = elim (read_packet input) [
  | panic ↦ some (s, panic)
  | err e ↦ some (s, err e)
  | ok (p, rest) ↦ and_then some (serve_packet t p s) (λ s'. serve fuel t rest s')
]
