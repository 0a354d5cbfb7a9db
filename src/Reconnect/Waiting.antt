-- ===== src/Reconnect/Waiting.antt =====
-- How long the loop of the ReconnectClient waits.
use mqtt_go.Base.{
  ℕ, zero, suc, ◌*◌, ◌%◌, ◌^◌, ◌<◌, ◌≡◌, refl, sym, ap, ◌∙◌, Bool, true, false, ltb, List, [], ◌∷◌,
  ◌++◌, append-nil, append_assoc, none, some, arith, Bool-cases, inl, inr, if◌then◌else◌,
}
use mqtt_go.Client.{Client}
use mqtt_go.Reconnect.{
  Action, sets, connected_with, resubscribes, retries, keeps_alive, closes, waits, made_actions,
  ReconnectOptions, Pause, elapsed, user_cancelled, told_to_disconnect, base_done, cancelled_end,
  told_end, Round, no_dial, no_connect, connects, Reconnecting, Next, again, next_wait, pause, made,
  at_end, reconnect_round, run_rounds, start, same_error,
}

-- The wait after `n` rounds since the last connection, or the start: doubled each time, up to the
-- limit, which the first one does not keep.
abbrev pub backoff : ℕ → ℕ → ℕ → ℕ
backoff base max zero = base
backoff base max (suc n) = if ltb max (base * 2 ^ suc n) then max else base * 2 ^ suc n

-- A round behind which the loop waits and goes on.
abbrev pub GoesOn : Round → Type 0
GoesOn (no_dial e ctx_err p) = p ≡ elapsed
GoesOn (no_connect c e ctx_err p) = p ≡ elapsed
GoesOn (connects c present (base_done (some e)) p) = p ≡ elapsed
GoesOn (connects c present (base_done none) p) = ⊥
GoesOn (connects c present cancelled_end p) = ⊥
GoesOn (connects c present told_end p) = ⊥

abbrev pub AllGoOn : List Round → Type 0
AllGoOn [] = Unit {0}
AllGoOn (r ∷ rs) = GoesOn r × AllGoOn rs

-- The rounds since the last connection that are over, from `n` on.
abbrev pub streak : ℕ → List Round → ℕ
streak n [] = n
streak n (no_dial e ctx_err p ∷ rs) = streak (suc n) rs
streak n (no_connect c e ctx_err p ∷ rs) = streak (suc n) rs
streak n (connects c present end p ∷ rs) = streak 1 rs

no_wrap : (wait : ℕ) → wait < 2 ^ 62 → (wait * 2) % 2 ^ 64 ≡ wait * 2
no_wrap wait h = omega arith

-- Without a wrap-around.
next_wait-small :
    (max wait : ℕ)
    → wait < 2 ^ 62
    → next_wait max wait ≡ (if ltb max (wait * 2) then max else wait * 2)
unfolding next_wait
next_wait-small max wait h = rw (no_wrap wait h) (ground arith)

next_wait-capped :
    (max x : ℕ)
    → max < 2 ^ 62
    → next_wait max (if ltb max x then max else x) ≡ (if ltb max (x * 2) then max else x * 2)
next_wait-capped max x h = elim (Bool-cases (ltb max x)) [
  | inl e ↦ rw e (next_wait-small max max h ∙ ground arith)
  | inr e ↦ rw e (next_wait-small max x (ground arith))
]

doubled : (base n : ℕ) → base * 2 ^ suc n ≡ (base * 2 ^ n) * 2
doubled base n = grind arith

once : (base : ℕ) → base * 2 ^ 0 ≡ base
once base = omega arith

module _ (base max : ℕ) (small : base < 2 ^ 62) (small_max : max < 2 ^ 62) where
  next_wait-backoff : (n : ℕ) → next_wait max (backoff base max n) ≡ backoff base max (suc n)
  next_wait-backoff zero =
      next_wait-small max base small
      ∙ ap (λ x. if ltb max x then max else x) (sym (doubled base 0 ∙ ap (λ x. x * 2) (once base)))
  next_wait-backoff (suc n) =
      next_wait-capped max (base * 2 ^ suc n) small_max
      ∙ ap (λ x. if ltb max x then max else x) (sym (doubled base (suc n)))

-- The durations for which the actions wait.
abbrev pub waits_of : List Action → List ℕ
waits_of [] = []
waits_of (waits d ∷ acts) = d ∷ waits_of acts
waits_of (sets c ∷ acts) = waits_of acts
waits_of (connected_with e ∷ acts) = waits_of acts
waits_of (resubscribes ∷ acts) = waits_of acts
waits_of (retries ∷ acts) = waits_of acts
waits_of (keeps_alive ∷ acts) = waits_of acts
waits_of (closes ∷ acts) = waits_of acts

waits_of-append : (l m : List Action) → waits_of (l ++ m) ≡ waits_of l ++ waits_of m
waits_of-append [] m = refl
waits_of-append (waits d ∷ acts) m = ap (λ l. d ∷ l) (waits_of-append acts m)
waits_of-append (sets c ∷ acts) m = waits_of-append acts m
waits_of-append (connected_with e ∷ acts) m = waits_of-append acts m
waits_of-append (resubscribes ∷ acts) m = waits_of-append acts m
waits_of-append (retries ∷ acts) m = waits_of-append acts m
waits_of-append (keeps_alive ∷ acts) m = waits_of-append acts m
waits_of-append (closes ∷ acts) m = waits_of-append acts m

-- The rounds that came before the wait of this one, since the last connection.
abbrev pub rounds_before : ℕ → Round → ℕ
rounds_before n (no_dial e ctx_err p) = n
rounds_before n (no_connect c e ctx_err p) = n
rounds_before n (connects c present end p) = 0

split_streak :
    (r : Round) (n : ℕ) (rs : List Round) → streak (suc (rounds_before n r)) rs ≡ streak n (r ∷ rs)
split_streak (no_dial e ctx_err p) n rs = refl
split_streak (no_connect c e ctx_err p) n rs = refl
split_streak (connects c present end p) n rs = refl

-- The waits of rounds, one for each.
abbrev pub all_waits : ℕ → ℕ → ℕ → List Round → List ℕ
all_waits base max n [] = []
all_waits base max n (r ∷ rs) =
    backoff base max (rounds_before n r) ∷ all_waits base max (suc (rounds_before n r)) rs

-- A call of the loop comes to a next round, with the wait that is next, and with those that took
-- place behind the earlier ones.
abbrev pub GoesOnWith : ReconnectOptions → ℕ → List ℕ → Next → Type 0
GoesOnWith o n ws next =
    (st : Reconnecting) × (next ≡ again st)
    × (st.reconn_wait ≡ backoff o.reconnect_wait_base o.reconnect_wait_max n)
    × (waits_of st.actions ≡ ws)

more_waits :
    (l more : List Action) (ws vs : List ℕ)
    → waits_of l ≡ ws
    → waits_of more ≡ vs
    → waits_of (l ++ more) ≡ ws ++ vs
more_waits l more ws vs e e' = waits_of-append l more ∙ rw (e, e') refl

no_more_waits :
    (l more : List Action) (ws : List ℕ)
    → waits_of l ≡ ws
    → waits_of more ≡ []
    → waits_of (l ++ more) ≡ ws
no_more_waits l more ws e e' = more_waits l more ws [] e e' ∙ append-nil ws

made_actions-waits :
    (o : ReconnectOptions) (c : Client) (present init : Bool)
    → waits_of (made_actions o c present init) ≡ []
unfolding made_actions
made_actions-waits o c present init = ground arith

module _ (o : ReconnectOptions) (small : o.reconnect_wait_base < 2 ^ 62)
    (small_max : o.reconnect_wait_max < 2 ^ 62) where
  abbrev wait_after : ℕ → ℕ
  wait_after n = backoff o.reconnect_wait_base o.reconnect_wait_max n

  pause-GoesOnWith :
      (n : ℕ) (p : Pause) (st : Reconnecting) (ws : List ℕ)
      → p ≡ elapsed
      → st.reconn_wait ≡ wait_after n
      → waits_of st.actions ≡ ws
      → GoesOnWith o (suc n) (ws ++ wait_after n ∷ []) (pause o.reconnect_wait_max p st)
  unfolding pause
  pause-GoesOnWith n elapsed st ws e h g = (
    _,
    refl,
    ap (next_wait o.reconnect_wait_max) h
        ∙ next_wait-backoff o.reconnect_wait_base o.reconnect_wait_max small small_max n,
    more_waits st.actions (waits st.reconn_wait ∷ []) ws (wait_after n ∷ []) g (ap (λ d. d ∷ []) h),
  )
  pause-GoesOnWith n user_cancelled st ws e h g = absurd (cc)
  pause-GoesOnWith n told_to_disconnect st ws e h g = absurd (cc)

  -- Either of two states, the errors of which alone differ.
  same_wait :
      (b : Bool) (st st' : Reconnecting)
      → st.reconn_wait ≡ st'.reconn_wait
      → (if b then st else st').reconn_wait ≡ st.reconn_wait
  same_wait true st st' e = refl
  same_wait false st st' e = sym e

  same_actions :
      (b : Bool) (st st' : Reconnecting)
      → st.actions ≡ st'.actions
      → (if b then st else st').actions ≡ st.actions
  same_actions true st st' e = refl
  same_actions false st st' e = sym e

  reconnect_round-GoesOnWith :
      (n : ℕ) (r : Round) (st : Reconnecting) (ws : List ℕ)
      → GoesOn r
      → st.reconn_wait ≡ wait_after n
      → waits_of st.actions ≡ ws
      → GoesOnWith o
          (suc (rounds_before n r))
          (ws ++ wait_after (rounds_before n r) ∷ [])
          (reconnect_round o r st)
  unfolding reconnect_round at_end made
  reconnect_round-GoesOnWith n (no_dial e ctx_err p) st ws g h k =
      pause-GoesOnWith n p _ ws g (same_wait (same_error e ctx_err) st _ refl ∙ h)
        (ap waits_of (same_actions (same_error e ctx_err) st _ refl) ∙ k)
  reconnect_round-GoesOnWith n (no_connect c e ctx_err p) st ws g h k =
      pause-GoesOnWith n p _ ws g (same_wait (same_error _ ctx_err) _ _ refl ∙ h) (
        ap waits_of (same_actions (same_error _ ctx_err) _ _ refl)
        ∙ no_more_waits st.actions (sets c ∷ connected_with (some e) ∷ closes ∷ []) ws k refl)
  reconnect_round-GoesOnWith n (connects c present (base_done (some e)) p) st ws g h k =
      pause-GoesOnWith 0 p _ ws g refl (
        no_more_waits (st.actions ++ made_actions o c present st.initialized) (closes ∷ []) ws
          (no_more_waits st.actions _ ws k (made_actions-waits o c present st.initialized)) refl)
  reconnect_round-GoesOnWith n (connects c present (base_done none) p) st ws g h k = absurd g
  reconnect_round-GoesOnWith n (connects c present cancelled_end p) st ws g h k = absurd g
  reconnect_round-GoesOnWith n (connects c present told_end p) st ws g h k = absurd g

  run_rounds-GoesOnWith :
      (rs : List Round) (n : ℕ) (st : Reconnecting) (ws : List ℕ)
      → AllGoOn rs
      → st.reconn_wait ≡ wait_after n
      → waits_of st.actions ≡ ws
      → GoesOnWith o
          (streak n rs)
          (ws ++ all_waits o.reconnect_wait_base o.reconnect_wait_max n rs)
          (run_rounds o rs st)
  unfolding run_rounds
  run_rounds-GoesOnWith [] n st ws g h k = (st, refl, h, k ∙ sym (append-nil ws))
  run_rounds-GoesOnWith (r ∷ rs) n st ws g h k =
      let m = rounds_before n r in
      let (st1, e, h1, k1) = reconnect_round-GoesOnWith n r st ws g.0 h k in
      let (st2, e2, h2, k2) =
        run_rounds-GoesOnWith rs (suc m) st1 (ws ++ wait_after m ∷ []) g.1 h1 k1 in
      (
        st2,
        rw e e2,
        h2 ∙ ap wait_after (split_streak r n rs),
        k2 ∙ append_assoc ws (wait_after m ∷ []) _,
      )

-- While every round ends with a wait, the loop goes on. The wait of each round is the base doubled
-- with every round since the last connection, or the start, up to the limit; only the first of these
-- waits is not limited; and the next wait is one step further. The base and the limit are below
-- 2 ^ 62 nanoseconds.
pub run_rounds-backoff :
    (o : ReconnectOptions) (rs : List Round)
    → o.reconnect_wait_base < 2 ^ 62
    → o.reconnect_wait_max < 2 ^ 62
    → AllGoOn rs
    → GoesOnWith o
        (streak 0 rs)
        (all_waits o.reconnect_wait_base o.reconnect_wait_max 0 rs)
        (run_rounds o rs (start o))
unfolding start
run_rounds-backoff o rs small small_max g =
    run_rounds-GoesOnWith o small small_max rs 0 (start o) [] g refl refl
