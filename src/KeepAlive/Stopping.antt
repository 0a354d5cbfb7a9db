-- ===== src/KeepAlive/Stopping.antt =====
-- When the keep alive loop stops.
use mqtt_go.Base.{
  ◌≡◌, ◌↔◌, ◌⊎◌, inl, inr, refl, sym, ap, ◌∙◌, List, [], ◌∷◌, ◌++◌, Bool, true, false, Option, none,
  some,
}
use mathlib.Core.Path.{subst}
use mathlib.Core.Option.{some_inj}
use mqtt_go.Errors.{Err, sentinel, wrap_error, ping_timeout}
use mqtt_go.KeepAlive.{Round, answered_round, failed_round, ping_error, keep_alive}

-- Rounds that were all answered.
abbrev pub AllAnswered : List Round → Type 0
AllAnswered [] = Unit {0}
AllAnswered (r ∷ rounds) = (r ≡ answered_round) × AllAnswered rounds

-- Which of the three errors of a failed round is the one to return.
abbrev pub Reason : Err → Option Err → Bool → Err → Type 0
Reason e done timed_out x =
    ((ctx : Err) × (done ≡ some ctx) × (x ≡ wrap_error ctx "keeping alive"))
    ⊎ (((done ≡ none)
          × (timed_out ≡ true)
          × (x ≡ wrap_error (sentinel ping_timeout) "keeping alive"))
        ⊎ ((done ≡ none) × (timed_out ≡ false) × (x ≡ e)))

ping_error-Reason :
    (e : Err) (done : Option Err) (timed_out : Bool)
    → Reason e done timed_out (ping_error e done timed_out)
unfolding ping_error
ping_error-Reason e (some ctx) t = inl (ctx, refl, refl)
ping_error-Reason e none true = inr (inl (refl, refl, refl))
ping_error-Reason e none false = inr (inr (refl, refl, refl))

Reason-ping_error :
    (e : Err) (done : Option Err) (timed_out : Bool) (x : Err)
    → Reason e done timed_out x
    → ping_error e done timed_out ≡ x
unfolding ping_error
Reason-ping_error e d t x (inl (ctx, c, same)) = rw c (sym same)
Reason-ping_error e d t x (inr (inl (c, b, same))) = rw (c, b) (sym same)
Reason-ping_error e d t x (inr (inr (c, b, same))) = rw (c, b) (sym same)

-- The first failed round of the list, with all before it answered.
abbrev pub FirstFailure : List Round → Err → Type 0
FirstFailure rounds x =
    (before : List Round) × (behind : List Round) × (e : Err) × (done : Option Err)
    × (timed_out : Bool) × (rounds ≡ before ++ failed_round e done timed_out ∷ behind)
    × AllAnswered before
    × Reason e done timed_out x

forth : (rounds : List Round) (x : Err) → keep_alive rounds ≡ some x → FirstFailure rounds x
unfolding keep_alive
forth [] x e = absurd (cc)
forth (answered_round ∷ rounds) x e =
    let (before, behind, p, d, t, whole, good, same) = forth rounds x e in
    (
      answered_round ∷ before,
      behind,
      p,
      d,
      t,
      ap (λ l. answered_round ∷ l) whole,
      (refl, good),
      same,
    )
forth (failed_round p d t ∷ rounds) x e =
    ([], rounds, p, d, t, refl, tt, subst (Reason p d t) (some_inj.0 e) (ping_error-Reason p d t))

back_at :
    (before behind : List Round) (e : Err) (d : Option Err) (t : Bool)
    → AllAnswered before
    → keep_alive (before ++ failed_round e d t ∷ behind) ≡ some (ping_error e d t)
unfolding keep_alive
back_at [] behind e d t good = refl
back_at (answered_round ∷ before) behind e d t (same, good) = back_at before behind e d t good
back_at (failed_round x y z ∷ before) behind e d t (same, good) = absurd (cc)

-- KeepAlive returns an error exactly when a ping failed, at the first one that did: the error of the
-- context if it is done, else ErrPingTimeout if the ping timed out, else the error of Ping.
pub keep_alive_iff :
    (rounds : List Round) (x : Err) → (keep_alive rounds ≡ some x) ↔ FirstFailure rounds x
keep_alive_iff rounds x = (
  forth rounds x,
  λ (before, behind, e, d, t, whole, good, same).
      rw whole (back_at before behind e d t good ∙ ap some (Reason-ping_error e d t x same)),
)
