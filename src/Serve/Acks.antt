-- ===== src/Serve/Acks.antt =====
-- The acknowledgements that the reading loop passes on.
use mqtt_go.Base.{
  ℕ, ◌≡◌, refl, ap, Option, Option-cases, Bool-cases, ==_iff, ◌∙◌, inl, inr, none, some, Map,
  lookup, delete, lookup-delete, lookup-delete_any, ◌<◌, ◌++◌, ◌==◌, if◌then◌else◌,
}
use mqtt_go.Base.Bits.{Bytes}
use mqtt_go.Base.Outcome.{ok}
use mqtt_go.Packet.Strings.{uint16_field}
use mqtt_go.Ack.Answers.{
  pub_ack-field, pub_rec-field, pub_comp-field, sub_ack-field, unsub_ack-field,
}
use mqtt_go.Signaller.{
  Signal, pub_ack_signal, pub_rec_signal, pub_comp_signal, sub_ack_signal, unsub_ack_signal,
  Channels, Signaller, send, take_pub_ack, take_pub_rec, take_pub_comp, take_sub_ack,
  take_unsub_ack,
}
use mqtt_go.Serve.{Server, Step, on_pub_ack, on_pub_rec, on_pub_comp, on_sub_ack, on_unsub_ack}

-- The value a channel holds behind a send that does not block.
abbrev pub at_most_one : Signal → Option Signal → Option Signal
at_most_one v none = some v
at_most_one v (some old) = some old

-- The channel of the request, if one waits, holds a value, the sent one if it held none; the others
-- hold what they held.
abbrev pub Woken : Option ℕ → Signal → Channels → Channels → Type 0
Woken none v before after = (c : ℕ) → after c ≡ before c
Woken (some ch) v before after =
    (c : ℕ) → after c ≡ (if c == ch then at_most_one v (before ch) else before c)

-- What a step on an acknowledgement `v` of the identifier `id` does in the state `s`, where the entry
-- of `waiting` is `put` into the signaller: the request that waits for it is sent `v` and waits no
-- more, and nothing else of the signaller and of the server changes; and a second such packet changes
-- no channel.
module _ (step : Server → Step) (waiting : Signaller → Map ℕ) (put : Map ℕ → Signaller → Signaller)
    (id : ℕ) (v : Signal) (s : Server) where
  abbrev pub WakesOnce : Type 0
  WakesOnce =
      ((step s).1 ≡ ok tt)
      × Woken (lookup id (waiting s.sig)) v s.channels (step s).0.channels
      × ((j : ℕ)
          → lookup j (waiting (step s).0.sig)
            ≡ (if j == id then none else lookup j (waiting s.sig)))
      × ((step s).0
          ≡ record s { sig = put (waiting (step s).0.sig) s.sig; channels = (step s).0.channels })
      × ((step (step s).0).0.channels ≡ (step s).0.channels)

module _ (m : Map ℕ) (id : ℕ) (c : Channels) (v : Signal) where
  second_send : send (lookup id (delete id m)) v (send (lookup id m) v c) ≡ send (lookup id m) v c
  unfolding send
  second_send = ap (λ o. send o v (send (lookup id m) v c)) (lookup-delete id m)

send-Woken : (o : Option ℕ) (v : Signal) (c : Channels) → Woken o v c (send o v c)
unfolding send
send-Woken none v c = λ j. refl
send-Woken (some ch) v c = elim (Option-cases (c ch)) [
  | inl e ↦ rw (e, send) (λ j. refl)
  | inr (old, e) ↦
      rw (e, send)
        (λ j. elim (Bool-cases (j == ch)) [
          | inl same ↦ rw same (ap c ((==_iff _ _).0 same) ∙ e)
          | inr apart ↦ rw apart refl
        ])
]

-- Each of PUBACK, PUBREC, PUBCOMP, SUBACK and UNSUBACK, with flags 0 and contents that begin with an
-- identifier of 16 bits, wakes the request that waits for this identifier and this type, and once:
-- the entry is gone when the packet comes a second time.
pub acks-WakesOnce :
    (id : ℕ) (rest : Bytes) (s : Server)
    → id < 65536
    → WakesOnce
        (on_pub_ack 0 (uint16_field id ++ rest))
        (λ x. x.ch_pub_ack)
        (λ m x. record x { ch_pub_ack = m })
        id
        (pub_ack_signal (record { id = id }))
        s
      × WakesOnce
          (on_pub_rec 0 (uint16_field id ++ rest))
          (λ x. x.ch_pub_rec)
          (λ m x. record x { ch_pub_rec = m })
          id
          (pub_rec_signal (record { id = id }))
          s
      × WakesOnce
          (on_pub_comp 0 (uint16_field id ++ rest))
          (λ x. x.ch_pub_comp)
          (λ m x. record x { ch_pub_comp = m })
          id
          (pub_comp_signal (record { id = id }))
          s
      × WakesOnce
          (on_sub_ack 0 (uint16_field id ++ rest))
          (λ x. x.ch_sub_ack)
          (λ m x. record x { ch_sub_ack = m })
          id
          (sub_ack_signal (record { id = id; codes = rest }))
          s
      × WakesOnce
          (on_unsub_ack 0 (uint16_field id ++ rest))
          (λ x. x.ch_unsub_ack)
          (λ m x. record x { ch_unsub_ack = m })
          id
          (unsub_ack_signal (record { id = id }))
          s
unfolding on_pub_ack on_pub_rec on_pub_comp on_sub_ack on_unsub_ack take_pub_ack take_pub_rec
    take_pub_comp take_sub_ack take_unsub_ack
acks-WakesOnce id rest s h = (
  rw (pub_ack-field id rest h) (
    refl,
    send-Woken _ _ s.channels,
    λ j. lookup-delete_any id j _,
    refl,
    second_send s.sig.ch_pub_ack id s.channels _,
  ),
  rw (pub_rec-field id rest h) (
    refl,
    send-Woken _ _ s.channels,
    λ j. lookup-delete_any id j _,
    refl,
    second_send s.sig.ch_pub_rec id s.channels _,
  ),
  rw (pub_comp-field id rest h) (
    refl,
    send-Woken _ _ s.channels,
    λ j. lookup-delete_any id j _,
    refl,
    second_send s.sig.ch_pub_comp id s.channels _,
  ),
  rw (sub_ack-field id rest h) (
    refl,
    send-Woken _ _ s.channels,
    λ j. lookup-delete_any id j _,
    refl,
    second_send s.sig.ch_sub_ack id s.channels _,
  ),
  rw (unsub_ack-field id rest h) (
    refl,
    send-Woken _ _ s.channels,
    λ j. lookup-delete_any id j _,
    refl,
    second_send s.sig.ch_unsub_ack id s.channels _,
  ),
)
