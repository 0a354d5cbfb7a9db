-- ===== src/Client/Granted.antt =====
-- What Subscribe makes of a SUBACK.
use mqtt_go.Base.{
  ◌≡◌, ◌≢◌, ◌⊎◌, inl, inr, refl, ap, true, List, [], ◌∷◌, length, map, ◌==◌, ==_iff, arith,
  Bool-cases,
}
use mqtt_go.Base.Bits.{Bytes}
use mqtt_go.Errors.{Err, fail_with, invalid_sub_ack}
use mqtt_go.Message.{Subscription}
use mqtt_go.Ack.{PktSubAck}
use mqtt_go.Client.{Client, finished, failed}
use mqtt_go.Client.Asking.{granted, sub_acked}

topics-granted :
    (subs : List Subscription) (codes : Bytes)
    → map (λ x. x.topic) (granted subs codes) ≡ map (λ x. x.topic) subs
unfolding granted
topics-granted [] codes = refl
topics-granted (s ∷ subs) [] = refl
topics-granted (s ∷ subs) (code ∷ codes) = ap (λ l. s.topic ∷ l) (topics-granted subs codes)

codes-granted :
    (subs : List Subscription) (codes : Bytes)
    → length codes ≡ length subs
    → map (λ x. x.qos) (granted subs codes) ≡ codes
unfolding granted
codes-granted [] [] e = refl
codes-granted [] (code ∷ codes) e = absurd (omega arith)
codes-granted (s ∷ subs) [] e = absurd (omega arith)
codes-granted (s ∷ subs) (code ∷ codes) e =
    ap (λ l. code ∷ l) (codes-granted subs codes (omega arith))

-- A SUBACK with as many codes as topics were asked for: Subscribe returns these topics, in their
-- order, with the codes as their QoS. With another number of codes, it returns an error, and the
-- connection is closed.
pub sub_acked-cases :
    (subs : List Subscription) (c : Client) (ack : PktSubAck)
    → ((length ack.codes ≡ length subs)
        × (out : List Subscription) × (sub_acked subs c ack ≡ (c, finished out))
        × (map (λ x. x.topic) out ≡ map (λ x. x.topic) subs)
        × (map (λ x. x.qos) out ≡ ack.codes))
      ⊎ ((length ack.codes ≢ length subs)
          × ((sub_acked subs c ack).0.is_closed ≡ true)
          × (e : Err) × ((sub_acked subs c ack).1 ≡ failed e))
unfolding sub_acked
sub_acked-cases subs c ack = elim (Bool-cases (length ack.codes == length subs)) [
  | inl e ↦
      let same : length ack.codes ≡ length subs = (==_iff _ _).0 e in
      inl (
        same,
        granted subs ack.codes,
        simp e,
        topics-granted subs ack.codes,
        codes-granted subs ack.codes same,
      )
  | inr e ↦ inr (
    λ same. ground arith,
    simp e,
    fail_with invalid_sub_ack "subscribing %d topics: %d topics in SUBACK",
    simp e,
  )
]
