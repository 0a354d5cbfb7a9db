-- ===== src/Reconnect/Ending.antt =====
-- When the goroutine of the ReconnectClient returns.
use mqtt_go.Base.{
  ℕ, ◌≡◌, ◌↔◌, refl, sym, ap, ◌∙◌, Bool, true, false, List, [], ◌∷◌, ◌++◌, Option, none, some,
  if◌then◌else◌,
}
use mathlib.Core.Path.{subst}
use mqtt_go.Errors.{Err}
use mqtt_go.Client.{Client}
use mqtt_go.Reconnect.{
  ReconnectOptions, Pause, elapsed, user_cancelled, told_to_disconnect, base_done, cancelled_end,
  told_end, Round, no_dial, no_connect, connects, Reconnecting, Next, again, returned, blocked,
  is_sent, send_once, pause, made, at_end, reconnect_round, after_round, run_rounds, start,
  same_error,
}
use mqtt_go.Reconnect.Waiting.{GoesOn, AllGoOn}

-- A wait that ends the loop: Disconnect was called, or the user's context is done and there was no
-- connection yet.
abbrev pub Quits : Bool → Pause → Type 0
Quits connected elapsed = ⊥
Quits connected user_cancelled = connected ≡ false
Quits connected told_to_disconnect = Unit {0}

-- A round that ends the loop.
abbrev pub Ends : Bool → Round → Type 0
Ends connected (no_dial e ctx_err p) = Quits connected p
Ends connected (no_connect c e ctx_err p) = Quits connected p
Ends connected (connects c present (base_done none) p) = Unit {0}
Ends connected (connects c present (base_done (some e)) p) = p ≡ told_to_disconnect
Ends connected (connects c present cancelled_end p) = ⊥
Ends connected (connects c present told_end p) = Unit {0}

-- There was a connection.
abbrev pub has_connected : Bool → List Round → Bool
has_connected b [] = b
has_connected b (no_dial e ctx_err p ∷ rs) = has_connected b rs
has_connected b (no_connect c e ctx_err p ∷ rs) = has_connected b rs
has_connected b (connects c present end p ∷ rs) = has_connected true rs

-- The first round that ends the loop, with waits behind all before it.
abbrev pub EndsAt : List Round → Type 0
EndsAt rs =
    (pre : List Round) × (r : Round) × (post : List Round) × (rs ≡ pre ++ r ∷ post)
    × AllGoOn pre
    × Ends (has_connected false pre) r

abbrev PauseVerdict : Bool → Pause → Next → Type 0
PauseVerdict b p (again st) = (p ≡ elapsed) × (is_sent st.session ≡ b)
PauseVerdict b p (returned st) = Quits b p
PauseVerdict b p (blocked st) = (p ≡ user_cancelled) × (b ≡ true)

abbrev Verdict : Bool → Round → Next → Type 0
Verdict b r (again st) = GoesOn r × (is_sent st.session ≡ has_connected b (r ∷ []))
Verdict b r (returned st) = Ends b r
Verdict b r (blocked st) = (GoesOn r → ⊥) × (Ends b r → ⊥)

pause-PauseVerdict :
    (max : ℕ) (b : Bool) (p : Pause) (st : Reconnecting)
    → is_sent st.session ≡ b
    → PauseVerdict b p (pause max p st)
unfolding pause
pause-PauseVerdict max b elapsed st h = (refl, h)
pause-PauseVerdict max true user_cancelled st h = rw h (refl, refl)
pause-PauseVerdict max false user_cancelled st h = rw h refl
pause-PauseVerdict max b told_to_disconnect st h = tt

elapsed-Quits : (b : Bool) (p : Pause) → p ≡ elapsed → Quits b p → ⊥
elapsed-Quits b elapsed e h = h
elapsed-Quits b user_cancelled e h = cc
elapsed-Quits b told_to_disconnect e h = cc

not_elapsed :
    (b : Bool) (p : Pause) → p ≡ user_cancelled → b ≡ true → (p ≡ elapsed → ⊥) × (Quits b p → ⊥)
not_elapsed b elapsed e f = absurd (cc)
not_elapsed b user_cancelled e f = (λ x. cc, λ x. cc)
not_elapsed b told_to_disconnect e f = absurd (cc)

dial-Verdict :
    (b : Bool) (e : Err) (ctx_err : Option Err) (p : Pause) (next : Next)
    → PauseVerdict b p next
    → Verdict b (no_dial e ctx_err p) next
dial-Verdict b e ctx_err p (again st) h = h
dial-Verdict b e ctx_err p (returned st) h = h
dial-Verdict b e ctx_err p (blocked st) h = not_elapsed b p h.0 h.1

connect-Verdict :
    (b : Bool) (c : Client) (e : Err) (ctx_err : Option Err) (p : Pause) (next : Next)
    → PauseVerdict b p next
    → Verdict b (no_connect c e ctx_err p) next
connect-Verdict b c e ctx_err p (again st) h = h
connect-Verdict b c e ctx_err p (returned st) h = h
connect-Verdict b c e ctx_err p (blocked st) h = not_elapsed b p h.0 h.1

told-Quits : (p : Pause) → Quits true p → p ≡ told_to_disconnect
told-Quits elapsed h = absurd h
told-Quits user_cancelled h = absurd (cc)
told-Quits told_to_disconnect h = refl

connects-Verdict :
    (b : Bool) (c : Client) (present : Bool) (e : Err) (p : Pause) (next : Next)
    → PauseVerdict true p next
    → Verdict b (connects c present (base_done (some e)) p) next
connects-Verdict b c present e p (again st) h = h
connects-Verdict b c present e p (returned st) h = told-Quits p h
connects-Verdict b c present e p (blocked st) h = (λ x. cc, λ x. cc)

same_session :
    (b : Bool) (st st' : Reconnecting)
    → st.session ≡ st'.session
    → (if b then st else st').session ≡ st.session
same_session true st st' e = refl
same_session false st st' e = sym e

sent_once : (b : Bool) (o : Option Bool) → is_sent (send_once b o) ≡ true
sent_once b none = refl
sent_once b (some b') = refl

reconnect_round-Verdict :
    (o : ReconnectOptions) (b : Bool) (r : Round) (st : Reconnecting)
    → is_sent st.session ≡ b
    → Verdict b r (reconnect_round o r st)
unfolding reconnect_round at_end made
reconnect_round-Verdict o b (no_dial e ctx_err p) st h = dial-Verdict b e ctx_err p _ (
    pause-PauseVerdict o.reconnect_wait_max b p _
      (ap is_sent (same_session (same_error e ctx_err) st _ refl) ∙ h))
reconnect_round-Verdict o b (no_connect c e ctx_err p) st h = connect-Verdict b c e ctx_err p _ (
    pause-PauseVerdict o.reconnect_wait_max b p _
      (ap is_sent (same_session (same_error _ ctx_err) _ _ refl) ∙ h))
reconnect_round-Verdict o b (connects c present (base_done none) p) st h = tt
reconnect_round-Verdict o b (connects c present (base_done (some e)) p) st h =
    connects-Verdict b c present e p _
      (pause-PauseVerdict o.reconnect_wait_max true p _ (sent_once present st.session))
reconnect_round-Verdict o b (connects c present cancelled_end p) st h = (λ x. x, λ x. x)
reconnect_round-Verdict o b (connects c present told_end p) st h = tt

-- No round both goes on and ends.
GoesOn-Ends : (b : Bool) (r : Round) → GoesOn r → Ends b r → ⊥
GoesOn-Ends b (no_dial e ctx_err p) g h = elapsed-Quits b p g h
GoesOn-Ends b (no_connect c e ctx_err p) g h = elapsed-Quits b p g h
GoesOn-Ends b (connects c present (base_done none) p) g h = g
GoesOn-Ends b (connects c present (base_done (some e)) p) g h = cc
GoesOn-Ends b (connects c present cancelled_end p) g h = g
GoesOn-Ends b (connects c present told_end p) g h = g

split_connected :
    (r : Round) (b : Bool) (rs : List Round)
    → has_connected (has_connected b (r ∷ [])) rs ≡ has_connected b (r ∷ rs)
split_connected (no_dial e ctx_err p) b rs = refl
split_connected (no_connect c e ctx_err p) b rs = refl
split_connected (connects c present end p) b rs = refl

-- As EndsAt, from a state in which there was a connection or not.
abbrev EndsFrom : Bool → List Round → Type 0
EndsFrom b rs =
    (pre : List Round) × (r : Round) × (post : List Round) × (rs ≡ pre ++ r ∷ post)
    × AllGoOn pre
    × Ends (has_connected b pre) r

Returns : Next → Type 0
Returns next = (st : Reconnecting) × (next ≡ returned st)

module _ (o : ReconnectOptions) where
  returned-EndsFrom :
      (rs : List Round) (b : Bool) (st st' : Reconnecting)
      → is_sent st.session ≡ b
      → run_rounds o rs st ≡ returned st'
      → EndsFrom b rs
  unfolding run_rounds
  returned-EndsFrom [] b st st' h e = absurd (cc)
  returned-EndsFrom (r ∷ rs) b st st' h e =
      by_next (reconnect_round o r st) (reconnect_round-Verdict o b r st h) e
        (λ st1 b1 h1 e1. returned-EndsFrom rs b1 st1 st' h1 e1)
    where
      by_next :
          (next : Next)
          → Verdict b r next
          → after_round next (run_rounds o rs) ≡ returned st'
          → ((st1 : Reconnecting) (b1 : Bool)
              → is_sent st1.session ≡ b1
              → run_rounds o rs st1 ≡ returned st'
              → EndsFrom b1 rs)
          → EndsFrom b (r ∷ rs)
      by_next (again st1) v e k =
          let (pre, r', post, whole, g, h) = k st1 _ v.1 e in
          (
            r ∷ pre,
            r',
            post,
            ap (λ l. r ∷ l) whole,
            (v.0, g),
            subst (λ x. Ends x r') (split_connected r b pre) h,
          )
      by_next (returned st1) v e k = ([], r, rs, refl, tt, v)
      by_next (blocked st1) v e k = absurd (cc)

  EndsFrom-returned :
      (pre post : List Round) (r : Round) (b : Bool) (st : Reconnecting)
      → is_sent st.session ≡ b
      → AllGoOn pre
      → Ends (has_connected b pre) r
      → Returns (run_rounds o (pre ++ r ∷ post) st)
  unfolding run_rounds Returns
  EndsFrom-returned [] post r b st h g ends =
      by_next (reconnect_round o r st) (reconnect_round-Verdict o b r st h)
    where
      by_next : (next : Next) → Verdict b r next → Returns (after_round next (run_rounds o post))
      by_next (again st1) v = absurd (GoesOn-Ends b r v.0 ends)
      by_next (returned st1) v = (st1, refl)
      by_next (blocked st1) v = absurd (v.1 ends)
  EndsFrom-returned (r0 ∷ pre) post r b st h g ends =
      by_next (reconnect_round o r0 st) (reconnect_round-Verdict o b r0 st h) (λ st1 h1.
        EndsFrom-returned pre post r (has_connected b (r0 ∷ [])) st1 h1 g.1
          (subst (λ x. Ends x r) (sym (split_connected r0 b pre)) ends))
    where
      by_next :
          (next : Next)
          → Verdict b r0 next
          → ((st1 : Reconnecting)
              → is_sent st1.session ≡ has_connected b (r0 ∷ [])
              → Returns (run_rounds o (pre ++ r ∷ post) st1))
          → Returns (after_round next (run_rounds o (pre ++ r ∷ post)))
      by_next (again st1) v k = k st1 v.1
      by_next (returned st1) v k = absurd (GoesOn-Ends b r0 g.0 v)
      by_next (blocked st1) v k = absurd (v.0 g.0)

-- The goroutine returns exactly when a round ends the loop, all before it having gone on: when the
-- connection ended without an error, when Disconnect was called, or when the user's context was done
-- before there was a first connection; once there was one, the context has no effect.
pub run_rounds-returned_iff :
    (o : ReconnectOptions) (rs : List Round)
    → ((st : Reconnecting) × (run_rounds o rs (start o) ≡ returned st)) ↔ EndsAt rs
unfolding start Returns
run_rounds-returned_iff o rs = (
  λ (st, e). returned-EndsFrom o rs false (start o) st refl e,
  λ (pre, r, post, whole, g, ends).
      rw whole (EndsFrom-returned o pre post r false (start o) refl g ends),
)
