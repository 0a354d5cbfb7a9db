-- ===== src/RetryClient/Loop/Progress.antt =====
-- The goroutine of the RetryClient comes to the next task, whatever its selects choose.
use mathlib.Core.Path.{subst}
use mqtt_go.Base.{
  ℕ, zero, suc, ◌≤◌, ◌≡◌, ◌⊎◌, inl, inr, refl, sym, ap, ◌∙◌, Bool, true, false, ltb, List, [], ◌∷◌,
  ◌++◌, Option, none, some, arith, Bool-cases, ==_iff, Option-cases, ◌==◌,
}
use mqtt_go.Errors.{Err}
use mqtt_go.RetryClient.{World, Task}
use mqtt_go.RetryClient.Loop.{
  ConnectErr, ChTask, Place, absent, unconnected, selecting, running, idle, doing, ended, crashed,
  System, update, switched, err_received, woken, either_ready, take_task, loop_step,
}
use mqtt_go.RetryClient.Loop.Invariant.{Awake, Invariant}

-- The task has left the queue behind those before it, and the goroutine runs it.
abbrev pub Took : List Task → Task → System → Type 0
Took before task s = (k : ℕ) × (s.place ≡ doing k task) × (s.taken ≡ before ++ task ∷ [])

-- After at most so many steps of the goroutine, none of which waits, whatever is chosen in them.
abbrev pub Within : (ℕ → World) → ℕ → (System → Type 0) → System → Type 0
Within w zero P s = P s
Within w (suc n) P s =
    P s
    ⊎ ((choice : Bool) → (s' : System) × (loop_step w choice s.place s ≡ some s') × Within w n P s')

Within-suc :
    (w : ℕ → World) (n : ℕ) (P : System → Type 0) (s : System)
    → Within w n P s
    → Within w (suc n) P s
Within-suc w zero P s h = inl h
Within-suc w (suc n) P s (inl h) = inl h
Within-suc w (suc n) P s (inr h) =
    inr (λ choice. let (s', e, k) = h choice in (s', e, Within-suc w n P s' k))

pub not_switched : (n : ℕ) → ltb n n ≡ false
not_switched n = ground arith

last_switch : (k n : ℕ) → k ≤ n → ltb k n ≡ false → n ≡ k
last_switch k n le e = ground arith

woken_token :
    (s : System) (c : ChTask) (ch : Option ChTask)
    → ch ≡ some c
    → c.token ≡ true
    → woken ch s
      ≡ some (record s {
        place = running;
        ch_task = some (record { token = false; is_closed = c.is_closed });
      })
woken_token s c ch e t = rw e (rw t refl)

has_token :
    (task : Task) (tasks l : List Task) (c : ChTask)
    → l ≡ task ∷ tasks
    → (l ≡ []) ⊎ (c.token ≡ true)
    → c.token ≡ true
has_token task tasks l c e (inl h) = absurd (cc)
has_token task tasks l c e (inr h) = h

-- The error that is received leaves chConnectErr as closed as it was.
still_closed :
    (errs : ℕ → ConnectErr) (k n : ℕ)
    → (update errs k (record { pending = none; is_closed = (errs k).is_closed }) n).is_closed
      ≡ (errs n).is_closed
still_closed errs k n = elim (Bool-cases (n == k)) [
  | inl e ↦ rw e (ap (λ i. (errs i).is_closed) (sym ((==_iff n k).0 e)))
  | inr e ↦ rw e refl
]

module _ (w : ℕ → World) (task : Task) (tasks before : List Task) where
  abbrev Next : ℕ → System → Type 0
  Next n s = Within w n (Took before task) s

  -- Nothing of the state matters but this.
  record Waiting (s : System) : Type 0 where
    queued : s.task_queue ≡ task ∷ tasks
    past : s.taken ≡ before
    connect_done : (s.connect_errs s.current).is_closed ≡ true

  running-Next : (s : System) → Waiting s → Next 1 (record s { place = running })
  unfolding loop_step
  running-Next s h = inr (λ choice. (
    take_task (task ∷ tasks) (record s { place = running }),
    rw (not_switched s.current, h.queued) refl,
    (s.current, refl, ap (λ l. l ++ task ∷ []) h.past),
  ))

  -- The state behind the error of the client k.
  abbrev forgot : ℕ → System → System
  forgot k s = record s {
    connect_errs =
        update s.connect_errs k
          (record { pending = none; is_closed = (s.connect_errs k).is_closed });
  }

  forgot-Waiting : (k : ℕ) (s : System) → Waiting s → Waiting (forgot k s)
  forgot-Waiting k s h = record {
    queued = h.queued;
    past = h.past;
    connect_done = still_closed s.connect_errs k s.current ∙ h.connect_done;
  }

  module _ (s : System) (h : Waiting s)
      (none_pending : (s.connect_errs s.current).pending ≡ none) where
    selecting_closed-Next : Next 2 (record s { place = selecting s.current })
    unfolding loop_step
    selecting_closed-Next = inr (λ choice. (
      record s { place = running },
      rw (not_switched s.current, none_pending, h.connect_done) refl,
      running-Next s h,
    ))

    unconnected_closed-Next : Next 3 (record s { place = unconnected })
    unfolding loop_step
    unconnected_closed-Next =
        inr (λ choice. (record s { place = selecting s.current }, refl, selecting_closed-Next))

  module _ (s : System) (h : Waiting s) where
    none_left : ((forgot s.current s).connect_errs s.current).pending ≡ none
    none_left = ground arith

    selecting_pending-Next :
        (e : Err)
        → (s.connect_errs s.current).pending ≡ some e
        → Next 4 (record s { place = selecting s.current })
    unfolding loop_step
    selecting_pending-Next e pending = inr (λ choice. (
      record (forgot s.current s) { place = unconnected },
      rw (not_switched s.current, pending) refl,
      unconnected_closed-Next (forgot s.current s) (forgot-Waiting s.current s h) none_left,
    ))

    selecting_current-Next : Next 4 (record s { place = selecting s.current })
    selecting_current-Next = elim (Option-cases (s.connect_errs s.current).pending) [
      | inl e ↦ Within-suc w 3 _ _ (Within-suc w 2 _ _ (selecting_closed-Next s h e))
      | inr (x, e) ↦ selecting_pending-Next x e
    ]

    unconnected-Next : Next 5 (record s { place = unconnected })
    unfolding loop_step
    unconnected-Next =
        inr (λ choice. (record s { place = selecting s.current }, refl, selecting_current-Next))

    running_soon : Next 5 (record s { place = running })
    running_soon =
        Within-suc w 4 _ _
          (Within-suc w 3 _ _ (Within-suc w 2 _ _ (Within-suc w 1 _ _ (running-Next s h))))

  -- The `select` ends where either of its cases leads on.
  abbrev Chosen : Option System → Type 0
  Chosen r = (s' : System) × (r ≡ some s') × Next 5 s'

  abbrev Leads : Option System → Type 0
  Leads none = Unit {0}
  Leads (some s1) = Next 5 s1

  module _ (s : System) (go : Next 5 (record s { place = unconnected })) (choice : Bool) where
    ready-Chosen :
        (s1 : System) (ready : Bool) → Next 5 s1 → Chosen (either_ready choice (some s1) ready s)
    ready-Chosen s1 true k = elim (Bool-cases choice) [
      | inl e ↦ rw e (s1, refl, k)
      | inr e ↦ rw e (record s { place = unconnected }, refl, go)
    ]
    ready-Chosen s1 false k = (s1, refl, k)

    switched-Chosen :
        (first : Option System) → Leads first → Chosen (either_ready choice first true s)
    switched-Chosen none k = (record s { place = unconnected }, refl, go)
    switched-Chosen (some s1) k = ready-Chosen s1 true k

  module _ (s : System) (h : Waiting s) where
    err_received-Leads :
        (k : ℕ) (e : Option Err) (closed : Bool)
        → (s.connect_errs k).is_closed ≡ closed
        → Leads (err_received k e closed s)
    err_received-Leads k (some e) closed same =
        subst (λ b. Leads (err_received k (some e) b s)) same
          (unconnected-Next (forgot k s) (forgot-Waiting k s h))
    err_received-Leads k none true same = running_soon s h
    err_received-Leads k none false same = tt

    elsewhere : (p : Place) → Waiting (record s { place = p })
    elsewhere p = record { queued = h.queued; past = h.past; connect_done = h.connect_done }

  selecting-Next :
      (s : System) (k : ℕ) → Waiting s → k ≤ s.current → Next 6 (record s { place = selecting k })
  unfolding loop_step
  selecting-Next s k h le =
      let s0 = record s { place = selecting k } in
      let h0 = elsewhere s h (selecting k) in
      elim (Bool-cases (switched k s)) [
        | inl e ↦ inr (λ choice. rw e (
            switched-Chosen s0 (unconnected-Next s h) choice _
              (err_received-Leads s0 h0 k _ _ refl)))
        | inr e ↦
            subst (λ i. Next 6 (record s { place = selecting i })) (last_switch k s.current le e)
              (let here = record s { place = selecting s.current } in
                Within-suc w 5 _ here (Within-suc w 4 _ here (selecting_current-Next s h)))
      ]

  idle-Next :
      (s : System) (k : ℕ) (c : ChTask)
      → Waiting s
      → s.ch_task ≡ some c
      → c.token ≡ true
      → Next 6 (record s { place = idle k })
  unfolding loop_step
  idle-Next s k c h e t =
      let s0 = record s { place = idle k } in
      let s1 = record s { ch_task = some (record { token = false; is_closed = c.is_closed }) } in
      let h1 : Waiting s1 = record {
        queued = h.queued;
        past = h.past;
        connect_done = h.connect_done;
      } in
      inr (λ choice.
        subst (λ r. Chosen (either_ready choice r (switched k s) s0))
          (sym (woken_token s0 c s.ch_task e t))
          (ready-Chosen s0 (unconnected-Next s h) choice (record s1 { place = running })
            (switched k s) (running_soon s1 h1)))

-- Where the goroutine may stand when Connect has returned and a task is queued.
abbrev pub Standing : Place → ℕ → Type 0
Standing unconnected n = Unit {0}
Standing running n = Unit {0}
Standing (selecting k) n = k ≤ n
Standing (idle k) n = Unit {0}
Standing absent n = ⊥
Standing ended n = ⊥
Standing crashed n = ⊥
Standing (doing k t) n = ⊥

by_place :
    (w : ℕ → World) (task : Task) (tasks before : List Task) (s : System) (p : Place)
    → Waiting w task tasks before s
    → Invariant s
    → s.place ≡ p
    → Standing p s.current
    → Within w 6 (Took before task) (record s { place = p })
by_place w task tasks before s absent h inv e st = absurd st
by_place w task tasks before s ended h inv e st = absurd st
by_place w task tasks before s crashed h inv e st = absurd st
by_place w task tasks before s (doing k t) h inv e st = absurd st
by_place w task tasks before s unconnected h inv e st =
    Within-suc w 5 _ _ (unconnected-Next w task tasks before s h)
by_place w task tasks before s running h inv e st =
    Within-suc w 5 _ _ (running_soon w task tasks before s h)
by_place w task tasks before s (selecting k) h inv e st =
    selecting-Next w task tasks before s k h st
by_place w task tasks before s (idle k) h inv e st =
    let (c, same, token) = subst (λ p. Awake p s.task_queue s.ch_task s.stopped) e inv.awake in
    idle-Next w task tasks before s k c h same (has_token task tasks s.task_queue c h.queued token)

-- A queued task is taken by the goroutine after at most six of its steps, whatever its selects
-- choose, once the Connect of the current client has returned, with an error or without, while no call
-- comes between: it stands at the top of a loop, or in one of its selects, of this client or one before.
pub taken_soon :
    (w : ℕ → World) (task : Task) (tasks : List Task) (s : System)
    → Invariant s
    → s.task_queue ≡ task ∷ tasks
    → (s.connect_errs s.current).is_closed ≡ true
    → Standing s.place s.current
    → Within w 6 (Took s.taken task) s
taken_soon w task tasks s inv queued done st =
    by_place w task tasks s.taken s s.place
      (record { queued = queued; past = refl; connect_done = done }) inv refl st
