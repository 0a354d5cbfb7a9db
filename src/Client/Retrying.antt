-- ===== src/Client/Retrying.antt =====
-- What a failed Publish repeats.
use mqtt_go.Base.{
  ℕ, List, [], ◌⊎◌, ◌≡◌, ◌≢◌, refl, Bool, true, false, ltb, Option, none, some, ◌==◌, ==_iff,
  if◌then◌else◌, arith, Bool-cases, inl, inr, String,
}
use mqtt_go.Base.Bits.{Bytes}
use mqtt_go.Base.Outcome.{ok, err, panic, Errless, >>=-Errless}
use mqtt_go.Errors.{Err, Go, sentinel, eof, not_connected}
use mqtt_go.Message.{Message, qos0, qos1, qos2}
use mqtt_go.Packet.{pack, remaining_length, append_string, append_bytes}
use mqtt_go.Ack.{pack_pub_rel}
use mqtt_go.Publish.{pack_publish, publish_header}
use mqtt_go.Signaller.{Signaller}
use mqtt_go.Serve.{Transport}
use mqtt_go.Client.{
  Client, Wake, conn_closed, context_done, acknowledged, Retry, retry_publish, retry_release,
  retry_subscribe, retry_unsubscribe, Result, finished, failed, failed_with, panicked,
  wrap_error_with_retry, is_eof, on_write, connected, write_packet, sending, waiting, release,
  publish_message, publish_impl,
}

-- The function that an error carries repeats this message, and only what is left of its exchange.
abbrev pub Repeats : Message → Retry → Type 0
Repeats m (retry_publish m') = (m' ≡ m) × (m.qos ≢ 0)
Repeats m (retry_release m') = (m' ≡ m) × (m.qos ≡ 2)
Repeats m (retry_subscribe subs) = ⊥
Repeats m (retry_unsubscribe subs) = ⊥

-- An error without a function: the message has QoS 0, there is no connection yet, or the stream ended.
abbrev pub Plain : Message → Err → Type 0
Plain m e = (m.qos ≡ 0) ⊎ ((e ≡ sentinel not_connected) ⊎ (e ≡ sentinel eof))

abbrev pub RepeatsOnly : {A : Type 0} → Message → Result A → Type 0
RepeatsOnly m (finished a) = Unit {0}
RepeatsOnly m (failed e) = Plain m e
RepeatsOnly m (failed_with e r) = Repeats m r
RepeatsOnly m panicked = Unit {0}

is_eof-inv : (e : Err) → is_eof e ≡ true → e ≡ sentinel eof
is_eof-inv (sentinel eof) h = refl
is_eof-inv e h = absurd (cc)

wrapped-RepeatsOnly :
    (m : Message) (e : Err) (r : Retry) (f : String)
    → Repeats m r
    → RepeatsOnly m (wrap_error_with_retry {A = Unit {0}} e r f)
unfolding wrap_error_with_retry
wrapped-RepeatsOnly m e r f h = elim (Bool-cases (is_eof e)) [
  | inl x ↦ rw x (inr (inr (is_eof-inv e x)))
  | inr x ↦ rw x h
]

either :
    {A : Type 0} (P : A → Type 0) (b : Bool) (x y : A)
    → (b ≡ true → P x)
    → (b ≡ false → P y)
    → P (if b then x else y)
either P true x y f g = f refl
either P false x y f g = g refl

-- Packing returns bytes or panics.
remaining_length-Errless : (n : ℕ) → Errless (remaining_length n)
unfolding remaining_length
remaining_length-Errless n = ground arith

pack-Errless : (h : ℕ) (contents : List Bytes) → Errless (pack h contents)
unfolding pack
pack-Errless h contents = >>=-Errless {B = Bytes} _ _ (remaining_length-Errless _) (λ a. tt)

pack_publish-Errless : (m : Message) → Errless (pack_publish m)
unfolding pack_publish publish_header append_string append_bytes
pack_publish-Errless m =
    >>=-Errless (publish_header m) _ (ground arith)
      (λ h. >>=-Errless (append_string [] m.topic) _ (ground arith) (λ b. pack-Errless h _))

module _ (m : Message) (refused : Err → Result (Unit {0}))
    (h : (e : Err) → RepeatsOnly m (refused e)) where
  on_write-RepeatsOnly :
      (r : Client × Option Err) (next : Client → Client × Result (Unit {0}))
      → ((c : Client) → RepeatsOnly m (next c).1)
      → RepeatsOnly m (on_write r refused next).1
  on_write-RepeatsOnly (c, none) next k = k c
  on_write-RepeatsOnly (c, some e) next k = h e

  sending-RepeatsOnly :
      (t : Transport) (pkt : Go Bytes) (c : Client) (next : Client → Client × Result (Unit {0}))
      → Errless pkt
      → ((c : Client) → RepeatsOnly m (next c).1)
      → RepeatsOnly m (sending t pkt c refused next).1
  sending-RepeatsOnly t (ok b) c next s k = on_write-RepeatsOnly (write_packet t b c) next k
  sending-RepeatsOnly t (err e) c next s k = absurd s
  sending-RepeatsOnly t panic c next s k = tt

  waiting-RepeatsOnly :
      {B : Type 0} (wake : Wake B) (c : Client) (next : B → Client × Result (Unit {0}))
      → ((b : B) → RepeatsOnly m (next b).1)
      → RepeatsOnly m (waiting wake c refused next).1
  waiting-RepeatsOnly conn_closed c next k = h _
  waiting-RepeatsOnly (context_done e) c next k = h e
  waiting-RepeatsOnly (acknowledged b) c next k = k b

connected-RepeatsOnly :
    (m : Message) (sig : Option Signaller) (c : Client)
    (next : Signaller → Client × Result (Unit {0}))
    → ((s : Signaller) → RepeatsOnly m (next s).1)
    → RepeatsOnly m (connected sig c next).1
connected-RepeatsOnly m none c next k = inr (inl refl)
connected-RepeatsOnly m (some s) c next k = k s

release-RepeatsOnly :
    (t : Transport) (wake : Wake (Unit {0})) (m : Message) (c : Client)
    → m.qos ≡ 2
    → RepeatsOnly m (release t wake m c).1
unfolding release pack_pub_rel
release-RepeatsOnly t wake m c two = connected-RepeatsOnly m c.sig c _ (λ sig.
    sending-RepeatsOnly m _ (λ e. wrapped-RepeatsOnly m e (retry_publish m) _ (refl, omega arith)) t
      _ _ _ (pack-Errless _ _)
      (λ c1.
        waiting-RepeatsOnly m _ (λ e. wrapped-RepeatsOnly m e (retry_release m) _ (refl, two)) wake
          c1 _ (λ b. tt)))

qos0_of : (m : Message) → ltb qos0 m.qos ≡ false → m.qos ≡ 0
qos0_of m h = ground arith

publish_message-RepeatsOnly :
    (t : Transport) (wake wake2 : Wake (Unit {0})) (m : Message) (sig : Signaller) (c : Client)
    → RepeatsOnly m (publish_message t wake wake2 m sig c).1
unfolding publish_message
publish_message-RepeatsOnly t wake wake2 m sig c =
    sending-RepeatsOnly m _
      (λ e.
        either (RepeatsOnly m) (ltb qos0 m.qos) _ _
          (λ q. wrapped-RepeatsOnly m e (retry_publish m) _ (refl, ground arith))
          (λ q. inl (qos0_of m q)))
      t _ _ _ (pack_publish-Errless m)
      (λ c1.
        either (λ (r : Client × Result (Unit {0})). RepeatsOnly m r.1) (m.qos == qos1) _ _
          (λ q.
            waiting-RepeatsOnly m _
              (λ e. wrapped-RepeatsOnly m e (retry_publish m) _ (refl, ground arith)) wake c1 _
              (λ b. tt))
          (λ _.
            either (λ (r : Client × Result (Unit {0})). RepeatsOnly m r.1) (m.qos == qos2) _ _
              (λ q.
                waiting-RepeatsOnly m _
                  (λ e. wrapped-RepeatsOnly m e (retry_publish m) _ (refl, ground arith)) wake c1 _
                  (λ b. release-RepeatsOnly t wake2 m c1 ((==_iff _ _).0 q)))
              (λ _. tt)))

-- Publish, for the first time or again: the caller's message gets DUP as asked, and keeps an
-- identifier that it has. If the error that comes back can be retried, the message has a QoS of 1
-- at least, and the retry sends this very message again, identifier included; only at QoS 2
-- may it be the release of the message by PUBREL. Such a message fails without a retry only on
-- ErrNotConnected and io.EOF.
pub publish_impl-RepeatsOnly :
    (t : Transport) (wake wake2 : Wake (Unit {0})) (m : Message) (dup : Bool) (c : Client)
    → ((publish_impl t wake wake2 m dup c).0
        ≡ record m { id = (publish_impl t wake wake2 m dup c).0.id; dup = dup })
      × (m.id ≡ (if m.id == 0 then 0 else (publish_impl t wake wake2 m dup c).0.id))
      × RepeatsOnly (publish_impl t wake wake2 m dup c).0 (publish_impl t wake wake2 m dup c).1.1
unfolding publish_impl
publish_impl-RepeatsOnly t wake wake2 m dup c = elim (Bool-cases (m.id == 0)) [
  | inl z ↦ (
    refl,
    ground arith,
    connected-RepeatsOnly _ _ _ _ (λ sig. publish_message-RepeatsOnly t wake wake2 _ sig _),
  )
  | inr z ↦ (
    refl,
    rw z refl,
    connected-RepeatsOnly _ _ _ _ (λ sig. publish_message-RepeatsOnly t wake wake2 _ sig _),
  )
]
