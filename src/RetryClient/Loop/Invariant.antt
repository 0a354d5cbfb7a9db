-- ===== src/RetryClient/Loop/Invariant.antt =====
-- What holds of the RetryClient whatever the order of its calls and the steps of its goroutine.
use mathlib.Core.Path.{subst}
use mqtt_go.Base.{
  ℕ, ◌≡◌, ◌⊎◌, inl, inr, refl, sym, ap, ◌∙◌, Bool, true, false, List, [], ◌∷◌, ◌++◌, append_assoc,
  length, length-append, Option, none, some, arith, Bool-cases,
}
use mqtt_go.Base.Outcome.{ok, err, panic}
use mqtt_go.Errors.{Err, Go}
use mqtt_go.Client.{Client}
use mqtt_go.RetryClient.{World, Queues, Task}
use mqtt_go.RetryClient.Loop.{
  ChTask, Place, absent, unconnected, selecting, running, idle, doing, ended, crashed, System,
  switched, err_received, woken, woken_by, either_ready, take_task, after_task, loop_step,
}
use mqtt_go.RetryClient.Loop.Operations.{new_system}

-- The goroutine that waits for chTask has a token to find, unless no task is queued. Where it
-- returned, none is and none will be.
abbrev pub Awake : Place → List Task → Option ChTask → Bool → Type 0
Awake absent tasks ch stopped = ch ≡ none
Awake (idle k) tasks ch stopped = (c : ChTask) × (ch ≡ some c) × ((tasks ≡ []) ⊎ (c.token ≡ true))
Awake ended tasks ch stopped = (tasks ≡ []) × (stopped ≡ true)
Awake p tasks ch stopped = (c : ChTask) × (ch ≡ some c)

-- A closed chTask was closed by Disconnect.
abbrev pub ClosedByStop : Option ChTask → Bool → Type 0
ClosedByStop none stopped = false ≡ stopped
ClosedByStop (some c) stopped = c.is_closed ≡ stopped

pub record Invariant (s : System) : Type 0 where
  pub kept : s.accepted ≡ s.taken ++ s.task_queue
  pub counted : s.total_tasks ≡ length s.taken
  pub awake : Awake s.place s.task_queue s.ch_task s.stopped
  pub closed_by_stop : ClosedByStop s.ch_task s.stopped

pub new_system-Invariant : (nil : Client) → Invariant (new_system nil)
unfolding new_system
new_system-Invariant nil = record {
  kept = refl;
  counted = refl;
  awake = refl;
  closed_by_stop = refl;
}

-- The invariant with the goroutine at another place.
abbrev pub At : System → Place → Type 0
At s p = Invariant (record s { place = p })

abbrev pub OnSome : (System → Type 0) → Option System → Type 0
OnSome P none = Unit {0}
OnSome P (some s) = P s

either_ready-Invariant :
    (choice : Bool) (first : Option System) (ready : Bool) (s : System)
    → OnSome Invariant first
    → At s unconnected
    → OnSome Invariant (either_ready choice first ready s)
either_ready-Invariant true (some s') true s h k = h
either_ready-Invariant false (some s') true s h k = k
either_ready-Invariant choice (some s') false s h k = h
either_ready-Invariant choice none true s h k = k
either_ready-Invariant choice none false s h k = tt

err_received-Invariant :
    (k : ℕ) (e : Option Err) (closed : Bool) (s : System)
    → At s unconnected
    → OnSome Invariant (err_received k e closed s)
err_received-Invariant k (some e) closed s h = record {
  kept = h.kept;
  counted = h.counted;
  awake = h.awake;
  closed_by_stop = h.closed_by_stop;
}
err_received-Invariant k none true s h = record {
  kept = h.kept;
  counted = h.counted;
  awake = h.awake;
  closed_by_stop = h.closed_by_stop;
}
err_received-Invariant k none false s h = tt

token_of : Bool → Option ChTask → Bool
token_of b none = b
token_of b (some c) = c.token

pub same_token : (c c' : ChTask) → some c ≡ some c' → c.token ≡ c'.token
unfolding token_of
same_token c c' e = ap (token_of true) e

no_task :
    (tasks : List Task) (c c' : ChTask)
    → some c ≡ some c'
    → c'.token ≡ false
    → (tasks ≡ []) ⊎ (c.token ≡ true)
    → tasks ≡ []
no_task tasks c c' e f (inl h) = h
no_task tasks c c' e f (inr h) = let same = same_token c c' e in absurd (cc)

-- In front of the `select` on chTask and chConnSwitch.
module _ (k : ℕ) (s : System) (h : At s (idle k)) where
  idle-unconnected : At s unconnected
  idle-unconnected = record {
    kept = h.kept;
    counted = h.counted;
    awake = (h.awake.0, h.awake.1);
    closed_by_stop = h.closed_by_stop;
  }

  woken_by-Invariant :
      (token closed : Bool)
      → s.ch_task ≡ some (record { token = token; is_closed = closed })
      → OnSome Invariant (woken_by token closed s)
  woken_by-Invariant true closed e = record {
    kept = h.kept;
    counted = h.counted;
    awake = (_, refl);
    closed_by_stop = subst (λ c. ClosedByStop c s.stopped) e h.closed_by_stop;
  }
  woken_by-Invariant false true e = record {
    kept = h.kept;
    counted = h.counted;
    awake = (
      no_task s.task_queue _ _ (sym h.awake.1 ∙ e) refl h.awake.2,
      sym (subst (λ c. ClosedByStop c s.stopped) e h.closed_by_stop),
    );
    closed_by_stop = h.closed_by_stop;
  }
  woken_by-Invariant false false e = tt

take_task-Invariant :
    (tasks : List Task) (s : System)
    → s.task_queue ≡ tasks
    → At s running
    → Invariant (take_task tasks s)
take_task-Invariant [] s e h = record {
  kept = h.kept;
  counted = h.counted;
  awake = (h.awake.0, h.awake.1, inl e);
  closed_by_stop = h.closed_by_stop;
}
take_task-Invariant (task ∷ tasks) s e h = record {
  kept = h.kept ∙ ap (λ l. s.taken ++ l) e ∙ sym (append_assoc s.taken (task ∷ []) tasks);
  counted = omega (arith, h.counted, length-append s.taken (task ∷ []));
  awake = h.awake;
  closed_by_stop = h.closed_by_stop;
}

after_task-Invariant :
    (k : ℕ) (r : Go Queues) (s : System) → At s running → Invariant (after_task k r s)
after_task-Invariant k (ok q) s h = elim (Bool-cases q.new_retry_by_error) [
  | inl e ↦ rw e (record {
    kept = h.kept;
    counted = h.counted;
    awake = h.awake;
    closed_by_stop = h.closed_by_stop;
  })
  | inr e ↦ rw e (record {
    kept = h.kept;
    counted = h.counted;
    awake = h.awake;
    closed_by_stop = h.closed_by_stop;
  })
]
after_task-Invariant k (err e) s h = record {
  kept = h.kept;
  counted = h.counted;
  awake = h.awake;
  closed_by_stop = h.closed_by_stop;
}
after_task-Invariant k panic s h = record {
  kept = h.kept;
  counted = h.counted;
  awake = h.awake;
  closed_by_stop = h.closed_by_stop;
}

moved : (s : System) (p p' : Place) → Awake p' s.task_queue s.ch_task s.stopped → At s p → At s p'
moved s p p' a h = record {
  kept = h.kept;
  counted = h.counted;
  awake = a;
  closed_by_stop = h.closed_by_stop;
}

pub loop_step-Invariant :
    (w : ℕ → World) (choice : Bool) (p : Place) (s : System)
    → At s p
    → OnSome Invariant (loop_step w choice p s)
unfolding loop_step
loop_step-Invariant w choice absent s h = tt
loop_step-Invariant w choice unconnected s h = moved s unconnected (selecting s.current) h.awake h
loop_step-Invariant w choice (selecting k) s h =
    let h' = moved s (selecting k) unconnected h.awake h in
    either_ready-Invariant choice _ (switched k s) s (err_received-Invariant k _ _ s h') h'
loop_step-Invariant w choice running s h = elim (Bool-cases (switched s.current s)) [
  | inl e ↦ rw e (moved s running unconnected h.awake h)
  | inr e ↦ rw e (take_task-Invariant s.task_queue s refl h)
]
loop_step-Invariant w choice (idle k) s h =
    either_ready-Invariant choice (woken s.ch_task s) (switched k s) s (by_channel s.ch_task refl)
      (idle-unconnected k s h)
  where
    by_channel : (c : Option ChTask) → s.ch_task ≡ c → OnSome Invariant (woken c s)
    by_channel none e = tt
    by_channel (some c) e = woken_by-Invariant k s h c.token c.is_closed e
loop_step-Invariant w choice (doing k task) s h =
    after_task-Invariant k _ s (moved s (doing k task) running h.awake h)
loop_step-Invariant w choice ended s h = tt
loop_step-Invariant w choice crashed s h = tt
