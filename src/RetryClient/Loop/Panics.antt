-- ===== src/RetryClient/Loop/Panics.antt =====
-- Which calls of the RetryClient panic.
use mqtt_go.Base.{
  ℕ, ◌≡◌, ◌≢◌, ◌↔◌, ◌⊎◌, inl, inr, refl, sym, ◌∙◌, true, false, Option, none, some, Bool-cases,
}
use mqtt_go.Base.Outcome.{panic}
use mqtt_go.Client.{Client}
use mqtt_go.RetryClient.{World, Task}
use mqtt_go.RetryClient.Loop.{ChTask, System}
use mqtt_go.RetryClient.Loop.Operations.{
  push_task, task_signalled, enqueued, stop, close_task, stopped_with, new_system,
}
use mqtt_go.RetryClient.Loop.Invariant.{ClosedByStop}
use mqtt_go.RetryClient.Loop.Kept.{Moves, moves-Invariant, task_signalled_open}

enqueued-ne-panic :
    (task : Task) (s : System) (c : Option ChTask)
    → s.stopped ≡ false
    → ClosedByStop c s.stopped
    → enqueued task (task_signalled c) s ≢ panic
enqueued-ne-panic task s none go h = λ p. cc
enqueued-ne-panic task s (some c) go h = rw (task_signalled_open c (h ∙ go)) (λ p. cc)

push_task-ne-panic :
    (task : Task) (s : System) → ClosedByStop s.ch_task s.stopped → push_task task s ≢ panic
unfolding push_task
push_task-ne-panic task s h = elim (Bool-cases s.stopped) [
  | inl e ↦ simp e (λ p. cc)
  | inr e ↦ simp e (enqueued-ne-panic task s s.ch_task e h)
]

stopped_with-panic_iff :
    (s : System) (c : Option ChTask)
    → ClosedByStop c s.stopped
    → (stopped_with (close_task c) s ≡ panic) ↔ ((c ≡ none) ⊎ (s.stopped ≡ true))
stopped_with-panic_iff s none h = (λ e. inl refl, λ e. refl)
stopped_with-panic_iff s (some c) h = elim (Bool-cases c.is_closed) [
  | inl e ↦ rw (e, close_task) (λ p. inr (sym h ∙ e), λ p. refl)
  | inr e ↦
      rw (e, close_task)
        (λ p. absurd (cc), λ x. elim x [ inl a ↦ absurd (cc) | inr b ↦ absurd (cc (h, e, b)) ])
]

-- In every state that a new RetryClient comes to: a call that puts a task in the queue does not
-- panic, and the end of Disconnect panics exactly where Disconnect has ended before, or SetClient was
-- never called.
pub calls-panic :
    (w : ℕ → World) (nil : Client) {s : System}
    → Moves w (new_system nil) s
    → ((task : Task) → push_task task s ≢ panic)
      × ((stop s ≡ panic) ↔ ((s.ch_task ≡ none) ⊎ (s.stopped ≡ true)))
unfolding stop
calls-panic w nil {s} m =
    let h = (moves-Invariant w nil m).closed_by_stop in
    (λ task. push_task-ne-panic task s h, stopped_with-panic_iff s s.ch_task h)
