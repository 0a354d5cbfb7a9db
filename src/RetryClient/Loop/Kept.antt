-- ===== src/RetryClient/Loop/Kept.antt =====
-- The calls of the RetryClient keep the invariant of its state, and with the steps of its goroutine
-- in any order.
use mathlib.Core.Path.{subst}
use mqtt_go.Base.{
  ℕ, ◌≡◌, inl, inr, refl, sym, ap, ◌∙◌, Bool, true, false, List, [], ◌∷◌, ◌++◌, append_assoc,
  Option, none, some, ◌==◌, Bool-cases,
}
use mqtt_go.Base.Outcome.{ok, err, panic, OnOk}
use mqtt_go.Errors.{Err, Go}
use mqtt_go.Client.{Client}
use mqtt_go.RetryClient.{World, Task}
use mqtt_go.RetryClient.Loop.{
  ChTask, Place, absent, unconnected, selecting, running, idle, doing, ended, crashed, System,
  loop_step,
}
use mqtt_go.RetryClient.Loop.Operations.{
  push_task, task_signalled, enqueued, stop, close_task, stopped_with, set_client, with_client,
  started, handle_call, begin_connect, end_connect, connect_reported, new_system,
}
use mqtt_go.RetryClient.Loop.Invariant.{
  Awake, ClosedByStop, Invariant, OnSome, loop_step-Invariant, new_system-Invariant, same_token,
}

-- A step of the goroutine, a call or a part of it, or what other goroutines do to the clients.
pub data Move (w : ℕ → World) : System → System → Type 0 where
  goes_on : {s s' : System} (choice : Bool) → loop_step w choice s.place s ≡ some s' → Move w s s'
  pushes : {s s' : System} (task : Task) → push_task task s ≡ ok s' → Move w s s'
  stops : {s s' : System} → stop s ≡ ok s' → Move w s s'
  sets : {s : System} (c : Client) → Move w s (set_client c s)
  handles : {s : System} (h : ℕ) → Move w s (handle_call h s)
  begins : {s s' : System} (k : ℕ) → begin_connect s ≡ ok (k, s') → Move w s s'
  ends : {s s' : System} (k : ℕ) (e : Option Err) → end_connect k e s ≡ ok s' → Move w s s'
  outside : {s : System} (f : ℕ → Client) → Move w s (record s { clients = f })

pub data Moves (w : ℕ → World) (s : System) : System → Type 0 where
  stays : Moves w s s
  moves : {s1 s' : System} → Moves w s s1 → Move w s1 s' → Moves w s s'

-- Putting a task in the queue keeps the goroutine from sleeping over it.
Awake-push :
    (p : Place) (tasks : List Task) (c : ChTask) (b : Bool)
    → b ≡ false
    → Awake p tasks (some c) b
    → (tasks' : List Task) → Awake p tasks' (some (record c { token = true })) b
Awake-push absent tasks c b e h tasks' = absurd (cc)
Awake-push (idle k) tasks c b e h tasks' = (_, refl, inr refl)
Awake-push ended tasks c b e h tasks' = absurd (cc (h.1, e))
Awake-push unconnected tasks c b e h tasks' = (_, refl)
Awake-push running tasks c b e h tasks' = (_, refl)
Awake-push crashed tasks c b e h tasks' = (_, refl)
Awake-push (selecting k) tasks c b e h tasks' = (_, refl)
Awake-push (doing k t) tasks c b e h tasks' = (_, refl)

Awake-push_none :
    (p : Place) (tasks tasks' : List Task) (b : Bool)
    → b ≡ false
    → Awake p tasks none b
    → Awake p tasks' none b
Awake-push_none absent tasks tasks' b e h = h
Awake-push_none (idle k) tasks tasks' b e h = absurd (cc (h.1))
Awake-push_none ended tasks tasks' b e h = absurd (cc (h.1, e))
Awake-push_none unconnected tasks tasks' b e h = h
Awake-push_none running tasks tasks' b e h = h
Awake-push_none crashed tasks tasks' b e h = h
Awake-push_none (selecting k) tasks tasks' b e h = h
Awake-push_none (doing k t) tasks tasks' b e h = h

-- Closing chTask, which leaves its token, and making it.
Awake-close :
    (p : Place) (tasks : List Task) (c : ChTask) (b : Bool)
    → b ≡ false
    → Awake p tasks (some c) b
    → Awake p tasks (some (record c { is_closed = true })) true
Awake-close absent tasks c b e h = absurd (cc)
Awake-close (idle k) tasks c b e (c0, same, inl none_left) = (_, refl, inl none_left)
Awake-close (idle k) tasks c b e (c0, same, inr t) = (_, refl, inr (same_token c c0 same ∙ t))
Awake-close ended tasks c b e h = (h.0, refl)
Awake-close unconnected tasks c b e h = (_, refl)
Awake-close running tasks c b e h = (_, refl)
Awake-close crashed tasks c b e h = (_, refl)
Awake-close (selecting k) tasks c b e h = (_, refl)
Awake-close (doing k t) tasks c b e h = (_, refl)

pub task_signalled_open :
    (c : ChTask)
    → c.is_closed ≡ false
    → task_signalled (some c) ≡ ok (some (record c { token = true }))
task_signalled_open c e = rw e refl

module _ (s : System) (h : Invariant s) (go : s.stopped ≡ false) where
  enqueued-Invariant :
      (task : Task) (c : Option ChTask)
      → s.ch_task ≡ c
      → OnOk Invariant (enqueued task (task_signalled c) s)
  enqueued-Invariant task none e = record {
    kept = ap (λ l. l ++ task ∷ []) h.kept ∙ append_assoc s.taken s.task_queue (task ∷ []);
    counted = h.counted;
    awake =
        Awake-push_none s.place s.task_queue _ s.stopped go
          (subst (λ c. Awake s.place s.task_queue c s.stopped) e h.awake);
    closed_by_stop = sym go;
  }
  enqueued-Invariant task (some c) e =
      let closed : c.is_closed ≡ s.stopped =
        subst (λ c. ClosedByStop c s.stopped) e h.closed_by_stop in
      subst (λ r. OnOk Invariant (enqueued task r s)) (sym (task_signalled_open c (closed ∙ go)))
        (record {
          kept = ap (λ l. l ++ task ∷ []) h.kept ∙ append_assoc s.taken s.task_queue (task ∷ []);
          counted = h.counted;
          awake =
              Awake-push s.place s.task_queue c s.stopped go
                (subst (λ c. Awake s.place s.task_queue c s.stopped) e h.awake) _;
          closed_by_stop = closed;
        })

  stopped_with-Invariant :
      (c : Option ChTask) → s.ch_task ≡ c → OnOk Invariant (stopped_with (close_task c) s)
  stopped_with-Invariant none e = tt
  stopped_with-Invariant (some c) e =
      let closed : c.is_closed ≡ s.stopped =
        subst (λ c. ClosedByStop c s.stopped) e h.closed_by_stop in
      rw (closed ∙ go, close_task)
        (record {
          kept = h.kept;
          counted = h.counted;
          awake =
              Awake-close s.place s.task_queue c s.stopped go
                (subst (λ c. Awake s.place s.task_queue c s.stopped) e h.awake);
          closed_by_stop = refl;
        })

push_task-Invariant : (task : Task) (s : System) → Invariant s → OnOk Invariant (push_task task s)
unfolding push_task
push_task-Invariant task s h = elim (Bool-cases s.stopped) [
  | inl e ↦ simp e tt
  | inr e ↦ simp e (enqueued-Invariant s h e task s.ch_task refl)
]

close_stopped :
    (s : System) (c : Option ChTask)
    → s.stopped ≡ true
    → ClosedByStop c s.stopped
    → OnOk Invariant (stopped_with (close_task c) s)
close_stopped s none e h = tt
close_stopped s (some c) e h = rw (h ∙ e, close_task) tt

stop-Invariant : (s : System) → Invariant s → OnOk Invariant (stop s)
unfolding stop
stop-Invariant s h = elim (Bool-cases s.stopped) [
  | inl e ↦ close_stopped s s.ch_task e h.closed_by_stop
  | inr e ↦ stopped_with-Invariant s h e s.ch_task refl
]

set_client-Invariant : (c : Client) (s : System) → Invariant s → Invariant (set_client c s)
unfolding set_client
set_client-Invariant c s h = by_channel s.ch_task refl
  where
    by_channel : (ch : Option ChTask) → s.ch_task ≡ ch → Invariant (started ch (with_client c s))
    by_channel none e = record {
      kept = h.kept;
      counted = h.counted;
      awake = (_, refl);
      closed_by_stop = subst (λ ch. ClosedByStop ch s.stopped) e h.closed_by_stop;
    }
    by_channel (some ch) e = record {
      kept = h.kept;
      counted = h.counted;
      awake = h.awake;
      closed_by_stop = h.closed_by_stop;
    }

connect_reported-Invariant :
    (k : ℕ) (e : Option Err) (closed : Bool) (s : System)
    → Invariant s
    → OnOk Invariant (connect_reported k e closed s)
connect_reported-Invariant k e true s h = tt
connect_reported-Invariant k none false s h = record {
  kept = h.kept;
  counted = h.counted;
  awake = h.awake;
  closed_by_stop = h.closed_by_stop;
}
connect_reported-Invariant k (some e) false s h = record {
  kept = h.kept;
  counted = h.counted;
  awake = h.awake;
  closed_by_stop = h.closed_by_stop;
}

end_connect-Invariant :
    (k : ℕ) (e : Option Err) (s : System) → Invariant s → OnOk Invariant (end_connect k e s)
unfolding end_connect
end_connect-Invariant k e s h = connect_reported-Invariant k e _ s h

handle_call-Invariant : (n : ℕ) (s : System) → Invariant s → Invariant (handle_call n s)
unfolding handle_call
handle_call-Invariant n s h = elim (Bool-cases (s.current == 0)) [
  | inl e ↦ rw e (record {
    kept = h.kept;
    counted = h.counted;
    awake = h.awake;
    closed_by_stop = h.closed_by_stop;
  })
  | inr e ↦ rw e (record {
    kept = h.kept;
    counted = h.counted;
    awake = h.awake;
    closed_by_stop = h.closed_by_stop;
  })
]

OnBegun : Go (ℕ × System) → Type 0
OnBegun panic = Unit {0}
OnBegun (err e) = Unit {0}
OnBegun (ok r) = Invariant r.1

begin_connect-Invariant : (s : System) → Invariant s → OnBegun (begin_connect s)
unfolding begin_connect OnBegun
begin_connect-Invariant s h = elim (Bool-cases (s.current == 0)) [
  | inl e ↦ rw e tt
  | inr e ↦ rw e (record {
    kept = h.kept;
    counted = h.counted;
    awake = h.awake;
    closed_by_stop = h.closed_by_stop;
  })
]

Move-Invariant : (w : ℕ → World) {s s' : System} → Move w s s' → Invariant s → Invariant s'
unfolding OnBegun
Move-Invariant w (Move.goes_on {s} choice e) h =
    subst (OnSome Invariant) e (loop_step-Invariant w choice s.place s h)
Move-Invariant w (Move.pushes {s} task e) h =
    subst (OnOk Invariant) e (push_task-Invariant task s h)
Move-Invariant w (Move.stops {s} e) h = subst (OnOk Invariant) e (stop-Invariant s h)
Move-Invariant w (Move.sets {s} c) h = set_client-Invariant c s h
Move-Invariant w (Move.handles {s} n) h = handle_call-Invariant n s h
Move-Invariant w (Move.begins {s} k e) h = subst OnBegun e (begin_connect-Invariant s h)
Move-Invariant w (Move.ends {s} k x e) h = subst (OnOk Invariant) e (end_connect-Invariant k x s h)
Move-Invariant w (Move.outside {s} f) h = record {
  kept = h.kept;
  counted = h.counted;
  awake = h.awake;
  closed_by_stop = h.closed_by_stop;
}

-- Whatever order the calls and the steps of the goroutine come in, from a new RetryClient: the tasks
-- that were accepted are those that left the queue and behind them those in it, in the order of their
-- acceptance, none twice; the goroutine never waits for chTask without a token while a task is
-- queued, and when it has returned no task is queued; and chTask is closed exactly by Disconnect.
pub moves-Invariant :
    (w : ℕ → World) (nil : Client) {s : System} → Moves w (new_system nil) s → Invariant s
moves-Invariant w nil Moves.stays = new_system-Invariant nil
moves-Invariant w nil (Moves.moves before m) = Move-Invariant w m (moves-Invariant w nil before)
