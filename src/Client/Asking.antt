-- ===== src/Client/Asking.antt =====
-- subscribeImpl (subscribe.go), unsubscribeImpl (unsubscribe.go) and Ping (pingreq.go).
use mqtt_go.Base.{true, ℕ, suc, not, List, [], ◌∷◌, length, some, insert, ◌==◌, if◌then◌else◌}
use mqtt_go.Base.Bits.{Bytes}
use mqtt_go.Errors.{sentinel, wrap_error, fail_with, closed_transport, invalid_sub_ack}
use mqtt_go.Message.{Subscription}
use mqtt_go.Packet.{pack, packet_ping_req}
use mqtt_go.Ack.{PktSubAck}
use mqtt_go.Subscribe.{pack_subscribe, pack_unsubscribe}
use mqtt_go.State.{store_ping_delay, store_ping_error}
use mqtt_go.Serve.{Transport}
use mqtt_go.Client.{
  Client, Wake, conn_closed, context_done, acknowledged, retry_subscribe, retry_unsubscribe, Result,
  finished, failed, wrap_error_with_retry, take_id, sending, waiting, connected,
}

-- `subs[i].QoS = QoS(subAck.Codes[i])`, for lists of one length.
unfoldable pub granted : List Subscription → Bytes → List Subscription
granted (s ∷ subs) (code ∷ codes) = record s { qos = code } ∷ granted subs codes
granted subs codes = subs

-- subscribeImpl behind SUBACK.
unfoldable pub sub_acked :
    List Subscription → Client → PktSubAck → Client × Result (List Subscription)
sub_acked subs c ack =
    if not (length ack.codes == length subs)
    then (
      record c { is_closed = true },
      failed (fail_with invalid_sub_ack "subscribing %d topics: %d topics in SUBACK"),
    )
    else (c, finished (granted subs ack.codes))

-- `subscribeImpl`
unfoldable pub subscribe_impl :
    Transport → Wake PktSubAck → List Subscription → Client → Client × Result (List Subscription)
subscribe_impl t wake subs c =
    let (id, c') = take_id c in
    connected (c'.sig) c' (λ sig.
      let sig' = record sig { ch_sub_ack = insert id c'.channels_made sig.ch_sub_ack } in
      let waits = record c' { sig = some sig'; channels_made = suc c'.channels_made } in
      sending t (pack_subscribe (record { id = id; subscriptions = subs })) waits
        (λ e. wrap_error_with_retry e (retry_subscribe subs) "sending SUBSCRIBE")
        (λ c1.
          waiting wake c1 (λ e. wrap_error_with_retry e (retry_subscribe subs) "waiting SUBACK")
            (sub_acked subs c1)))

-- `unsubscribeImpl`
unfoldable pub unsubscribe_impl :
    Transport → Wake (Unit {0}) → List Bytes → Client → Client × Result (Unit {0})
unsubscribe_impl t wake subs c =
    let (id, c') = take_id c in
    connected (c'.sig) c' (λ sig.
      let sig' = record sig { ch_unsub_ack = insert id c'.channels_made sig.ch_unsub_ack } in
      let waits = record c' { sig = some sig'; channels_made = suc c'.channels_made } in
      sending t (pack_unsubscribe (record { id = id; topics = subs })) waits
        (λ e. wrap_error_with_retry e (retry_unsubscribe subs) "sending UNSUBSCRIBE")
        (λ c1.
          waiting wake c1 (λ e. wrap_error_with_retry e (retry_unsubscribe subs) "waiting UNSUBACK")
            (λ _. (c1, finished tt))))

-- The `select` of Ping. `took` is the time from the request to the answer.
unfoldable pub pinged : Wake ℕ → Client → Client × Result (Unit {0})
pinged conn_closed c = (c, failed (wrap_error (sentinel closed_transport) "sending PINGREQ"))
pinged (context_done e) c =
    (record c { stats = store_ping_error c.stats }, failed (wrap_error e "waiting PINGRESP"))
pinged (acknowledged took) c = (record c { stats = store_ping_delay took c.stats }, finished tt)

-- `Ping`
unfoldable pub ping : Transport → Wake ℕ → Client → Client × Result (Unit {0})
ping t wake c = connected (c.sig) c (λ sig.
    let sig' = record sig { ch_ping_resp = some c.channels_made } in
    sending t (pack packet_ping_req [])
      (record c { sig = some sig'; channels_made = suc c.channels_made })
      (λ e. failed (wrap_error e "sending PINGREQ")) (λ c1. pinged wake c1))
