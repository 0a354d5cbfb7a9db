-- ===== src/Client.antt =====
-- The requests of BaseClient that wait for an acknowledgement: publishImpl (publish.go),
-- subscribeImpl (subscribe.go), unsubscribeImpl (unsubscribe.go) and Ping (pingreq.go).
-- A `select` on the closed connection, the context and the acknowledgement is answered by an
-- argument of type Wake. The packets are written to the transport of Serve.
pub mod Retrying
pub mod Asking
pub mod Granted
pub mod Reached
pub mod Connecting
pub mod Accepting
use mqtt_go.Base.{
  ℕ, zero, suc, Bool, true, false, not, ltb, List, [], ◌∷◌, length, Option, none, some, Map, insert,
  ◌==◌, if◌then◌else◌, String,
}
use mqtt_go.Base.Bits.{Bytes}
use mqtt_go.Base.Outcome.{Outcome, ok, err, panic}
use mqtt_go.Errors.{
  Err, sentinel, eof, wrapped, Go, wrap_error, fail_with, not_connected, closed_transport,
  invalid_sub_ack,
}
use mqtt_go.Message.{Message, Subscription, qos0, qos1, qos2}
use mqtt_go.Packet.{pack, packet_ping_req}
use mqtt_go.Ack.{PktSubAck, pack_pub_rel}
use mqtt_go.Publish.{pack_publish, validate_message}
use mqtt_go.Subscribe.{pack_subscribe, pack_unsubscribe}
use mqtt_go.Signaller.{Signaller}
use mqtt_go.Ids.{new_id}
use mqtt_go.State.{BaseStats, store_ping_delay, store_ping_error, Connection}
use mqtt_go.Serve.{Transport}

-- What of the client the requests use. `sig` is none before Connect; channels are numbered as they
-- are made; `sent` has the latest packet first.
pub record Client : Type 0 where
  pub sig : Option Signaller
  pub id_last : ℕ
  pub channels_made : ℕ
  pub writes : ℕ
  pub sent : List Bytes
  pub is_closed : Bool
  pub stats : BaseStats
  pub connection : Connection

pub data Wake (A : Type 0) : Type 0 where
  conn_closed : Wake A
  context_done : Err → Wake A
  acknowledged : A → Wake A

-- The functions that an error carries, by what they close over.
pub data Retry : Type 0 where
  retry_publish : Message → Retry
  retry_release : Message → Retry
  retry_subscribe : List Subscription → Retry
  retry_unsubscribe : List Bytes → Retry

-- What a request returns: a value and no error, an error, an error with a retry function, or a panic.
pub data Result (A : Type 0) : Type 0 where
  finished : A → Result A
  failed : Err → Result A
  failed_with : Err → Retry → Result A
  panicked : Result A

abbrev pub is_eof : Err → Bool
is_eof (sentinel eof) = true
is_eof e = false

-- `wrapErrorWithRetry`: io.EOF comes back as it is, without the retry function.
unfoldable pub wrap_error_with_retry : {A : Type 0} → Err → Retry → String → Result A
wrap_error_with_retry e retry failure =
    if is_eof e then failed e else failed_with (wrapped failure e) retry

-- `newID`; two rounds are always enough.
abbrev pub issued : Option (ℕ × ℕ) → Client → ℕ × Client
issued none c = (0, c)
issued (some (id, last)) c = (id, record c { id_last = last })

abbrev pub take_id : Client → ℕ × Client
take_id c = issued (new_id 2 c.id_last) c

-- A Write that was answered.
abbrev pub written : Option Err → Bytes → Client → Client × Option Err
written none b c = (record c { writes = suc c.writes; sent = b ∷ c.sent }, none)
written (some e) b c = (record c { writes = suc c.writes }, some e)

-- `BaseClient.write` of a packet; none is success.
abbrev pub write_packet : Transport → Bytes → Client → Client × Option Err
write_packet t b c = written (t c.writes) b c

-- What follows a write.
abbrev pub on_write :
    {A : Type 0}
    → Client × Option Err
    → (Err → Result A)
    → (Client → Client × Result A)
    → Client × Result A
on_write (c, none) refused next = next c
on_write (c, some e) refused next = (c, refused e)

-- Packing and writing, with what follows a success, and what an error becomes.
abbrev pub sending :
    {A : Type 0}
    → Transport
    → Go Bytes
    → Client
    → (Err → Result A)
    → (Client → Client × Result A)
    → Client × Result A
sending t (ok b) c refused next = on_write (write_packet t b c) refused next
sending t (err e) c refused next = (c, failed e)
sending t panic c refused next = (c, panicked)

-- `sig, err := c.signaller(); if err != nil { return err }`
abbrev pub connected :
    {A : Type 0} → Option Signaller → Client → (Signaller → Client × Result A) → Client × Result A
connected none c next = (c, failed (sentinel not_connected))
connected (some sig) c next = next sig

-- `select`: the error of a closed connection or of the context, or what follows.
abbrev pub waiting :
    {A B : Type 0}
    → Wake B
    → Client
    → (Err → Result A)
    → (B → Client × Result A)
    → Client × Result A
waiting conn_closed c refused next = (c, refused (sentinel closed_transport))
waiting (context_done e) c refused next = (c, refused e)
waiting (acknowledged a) c refused next = next a

-- `retryPublish2`: PUBREL and the wait for PUBCOMP. An error of the write retries the PUBLISH.
unfoldable pub release : Transport → Wake (Unit {0}) → Message → Client → Client × Result (Unit {0})
release t wake m c = connected (c.sig) c (λ sig.
    let sig' = record sig { ch_pub_comp = insert m.id c.channels_made sig.ch_pub_comp } in
    let c' = record c { sig = some sig'; channels_made = suc c.channels_made } in
    sending t (pack_pub_rel (record { id = m.id })) c'
      (λ e. wrap_error_with_retry e (retry_publish m) "sending PUBREL")
      (λ c1.
        waiting wake c1 (λ e. wrap_error_with_retry e (retry_release m) "waiting PUBCOMP")
          (λ _. (c1, finished tt))))

-- The channel that the first `switch` of publishImpl makes.
abbrev pub register : Message → Signaller → Client → Client
register m sig c =
    if m.qos == qos1
    then record c {
      sig = some (record sig { ch_pub_ack = insert m.id c.channels_made sig.ch_pub_ack });
      channels_made = suc c.channels_made;
    }
    else if m.qos == qos2
    then record c {
      sig = some (record sig { ch_pub_rec = insert m.id c.channels_made sig.ch_pub_rec });
      channels_made = suc c.channels_made;
    }
    else c

-- publishImpl behind the signaller; `m` has its identifier and DUP already.
unfoldable pub publish_message :
    Transport
    → Wake (Unit {0})
    → Wake (Unit {0})
    → Message
    → Signaller
    → Client
    → Client × Result (Unit {0})
publish_message t wake wake2 m sig c =
    sending t (pack_publish m) (register m sig c)
      (λ e.
        if ltb qos0 m.qos
        then wrap_error_with_retry e (retry_publish m) "sending PUBLISH"
        else failed (wrap_error e "sending PUBLISH"))
      (λ c1.
        if m.qos == qos1
        then waiting wake c1 (λ e. wrap_error_with_retry e (retry_publish m) "waiting PUBACK")
            (λ _. (c1, finished tt))
        else if m.qos == qos2
        then waiting wake c1 (λ e. wrap_error_with_retry e (retry_publish m) "waiting PUBREC")
            (λ _. release t wake2 m c1)
        else (c1, finished tt))

-- `publishImpl`: the message is the caller's, and keeps the identifier and DUP that it gets here.
unfoldable pub publish_impl :
    Transport
    → Wake (Unit {0})
    → Wake (Unit {0})
    → Message
    → Bool
    → Client
    → Message × (Client × Result (Unit {0}))
publish_impl t wake wake2 m dup c =
    let (id, c') = if m.id == 0 then take_id c else (m.id, c) in
    let m' = record m { id = id; dup = dup } in
    (m', connected (c'.sig) c' (λ sig. publish_message t wake wake2 m' sig c'))

-- `Publish`
unfoldable pub publish :
    ℕ
    → Transport
    → Wake (Unit {0})
    → Wake (Unit {0})
    → Message
    → Client
    → Message × (Client × Result (Unit {0}))
publish max_payload_len t wake wake2 m c = elim (validate_message max_payload_len m) [
  | none ↦ publish_impl t wake wake2 m false c
  | some e ↦ (m, (c, failed e))
]
