-- ===== src/Serve/Total.antt =====
-- The reading loop ends: the bytes that arrive bound its rounds.
use mqtt_go.Base.{ℕ, zero, suc, ◌≡◌, ◌≢◌, ◌<◌, length, inl, inr, refl, Option, some, arith}
use mqtt_go.Base.Bits.{Bytes}
use mqtt_go.Base.Outcome.{ok, err, panic, Outcome-cases}
use mqtt_go.Errors.{Go}
use mqtt_go.Packet.{read_packet}
use mqtt_go.Packet.Progress.{read_packet-shorter}
use mqtt_go.Serve.{Server, Step, Transport, and_then, serve_packet, serve}

-- The loop came to an end: it returned an error or panicked.
abbrev pub Ended : Option Step → Type 0
Ended o = (s : Server) × (r : Go (Unit {0})) × (o ≡ some (s, r)) × (r ≢ ok tt)

and_then-Ended :
    (r : Step) (next : Server → Option Step)
    → ((s : Server) → Ended (next s))
    → Ended (and_then some r next)
and_then-Ended (s, ok x) next h = h s
and_then-Ended (s, err e) next h = (s, err e, refl, λ p. cc)
and_then-Ended (s, panic) next h = (s, panic, refl, λ p. cc)

-- With more fuel than there are bytes of input, the loop ends, with an error or a panic: the fuel
-- does not run out.
pub serve-Ended :
    (fuel : ℕ) (t : Transport) (input : Bytes) (s : Server)
    → length input < fuel
    → Ended (serve fuel t input s)
unfolding serve
serve-Ended zero t input s h = absurd (omega arith)
serve-Ended (suc fuel) t input s h = elim (Outcome-cases (read_packet input)) [
  | inl e ↦ rw (e, serve) (s, panic, refl, λ p. cc)
  | inr (inl (x, e)) ↦ rw (e, serve) (s, err x, refl, λ p. cc)
  | inr (inr ((p, rest), e)) ↦
      rw (e, serve)
        (and_then-Ended (serve_packet t p s) _
          (λ s'. serve-Ended fuel t rest s' (omega (arith, read_packet-shorter input p rest e))))
]
