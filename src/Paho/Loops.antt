-- ===== src/Paho/Loops.antt =====
-- How connectOnce of the wrapper ends.
use mqtt_go.Base.{
  ◌≡◌, ◌⊎◌, inl, inr, refl, sym, ap, true, false, List, [], ◌∷◌, ◌++◌, Option, some, Bool-cases,
}
use mathlib.Core.Path.{subst}
use mqtt_go.Base.Outcome.{ok}
use mqtt_go.Errors.{Err}
use mqtt_go.Paho.{
  PahoWrapper, Token, new_token, release_token, finish, OnceRound, once_no_dial, once_dialled, Once,
  once_again, once_over, connect_once, slept, took_client,
}

-- Dialing failed in all these rounds.
abbrev pub AllNoDial : List OnceRound → Type 0
AllNoDial [] = Unit {0}
AllNoDial (once_no_dial e ∷ rounds) = AllNoDial rounds
AllNoDial (once_dialled c result ∷ rounds) = ⊥

-- The round ends the loop, with this wrapper and this error of the token.
abbrev pub EndsOnce : PahoWrapper → OnceRound → PahoWrapper → Option Err → Type 0
EndsOnce w (once_no_dial x) w' e =
    (w.retry_connect ≡ false) × (w' ≡ record w { actions = w'.actions }) × (e ≡ some x)
EndsOnce w (once_dialled c result) w' e =
    (w' ≡ record w { cli = some c; cli_closer = some c; actions = w'.actions }) × (e ≡ result)

abbrev pub Settled : List OnceRound → PahoWrapper → Once → Type 0
Settled rounds w out =
    ((w' : PahoWrapper) × (out ≡ once_again w')
      × (w' ≡ record w { actions = w'.actions })
      × AllNoDial rounds
      × ((rounds ≡ []) ⊎ (w.retry_connect ≡ true)))
    ⊎ ((w' : PahoWrapper) × (e : Option Err) × (pre : List OnceRound) × (r : OnceRound)
        × (post : List OnceRound) × (out ≡ once_over w' (ok (record { error = e; is_done = true })))
        × (rounds ≡ pre ++ r ∷ post)
        × AllNoDial pre
        × ((pre ≡ []) ⊎ (w.retry_connect ≡ true))
        × EndsOnce w r w' e)

ends_later :
    (r : OnceRound) (w w' : PahoWrapper) (e : Option Err)
    → EndsOnce (slept w) r w' e
    → EndsOnce w r w' e
ends_later (once_no_dial x) w w' e h = h
ends_later (once_dialled c result) w w' e h = h

later :
    (e : Err) (rounds : List OnceRound) (w : PahoWrapper) (out : Once)
    → w.retry_connect ≡ true
    → Settled rounds (slept w) out
    → Settled (once_no_dial e ∷ rounds) w out
later e rounds w out h (inl (w', same, kept, all, k)) = inl (w', same, kept, all, inr h)
later e rounds w out h (inr (w', x, pre, r, post, same, whole, all, k, ends)) = inr (
  w',
  x,
  once_no_dial e ∷ pre,
  r,
  post,
  same,
  ap (λ l. once_no_dial e ∷ l) whole,
  all,
  inr h,
  ends_later r w w' x ends,
)

module _ (e : Err) (rounds : List OnceRound) (t : Token) (w : PahoWrapper) where
  goes_on_once :
      w.retry_connect ≡ true
      → connect_once (once_no_dial e ∷ rounds) t w ≡ connect_once rounds t (slept w)
  unfolding connect_once
  goes_on_once h = rw h refl

  gives_up :
      w.retry_connect ≡ false
      → connect_once (once_no_dial e ∷ rounds) t w ≡ once_over w (finish (some e) t)
  unfolding connect_once
  gives_up h = rw h refl

-- The loop of connectOnce goes on as long as dialing fails, if ConnectRetry is set; its context and so
-- ConnectTimeout do not end it. Otherwise it ends at the first failure, or at the first client,
-- connected or not, which becomes the client of the wrapper; and it releases the token, once, with
-- the error of that dial or of that Connect.
pub connect_once-Settled :
    (rounds : List OnceRound) (w : PahoWrapper) → Settled rounds w (connect_once rounds new_token w)
unfolding connect_once new_token release_token
connect_once-Settled [] w = inl (w, refl, refl, tt, inl refl)
connect_once-Settled (once_dialled c result ∷ rounds) w = inr (
  took_client c result w,
  result,
  [],
  once_dialled c result,
  rounds,
  refl,
  refl,
  tt,
  inl refl,
  (refl, refl),
)
connect_once-Settled (once_no_dial e ∷ rounds) w = elim (Bool-cases w.retry_connect) [
  | inl h ↦
      subst (Settled (once_no_dial e ∷ rounds) w) (sym (goes_on_once e rounds new_token w h))
        (later e rounds w _ h (connect_once-Settled rounds (slept w)))
  | inr h ↦ inr (
    w,
    some e,
    [],
    once_no_dial e,
    rounds,
    gives_up e rounds new_token w h,
    refl,
    tt,
    inl refl,
    (h, refl, refl),
  )
]
