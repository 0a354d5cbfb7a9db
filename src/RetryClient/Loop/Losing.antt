-- ===== src/RetryClient/Loop/Losing.antt =====
-- What the goroutine of the RetryClient does with a task when SetClient comes between two tasks.
use mqtt_go.Base.{
  ℕ, suc, ◌≡◌, refl, sym, ap, ◌∙◌, Bool, false, List, [], ◌∷◌, Option, none, some, Bool-cases, ◌==◌,
  ==_refl, inl, inr,
}
use mathlib.Core.Path.{subst}
use mqtt_go.Base.Outcome.{ok}
use mqtt_go.Errors.{sentinel, not_connected}
use mqtt_go.Message.{Message}
use mqtt_go.Publish.{validate_message}
use mqtt_go.Serve.{Transport}
use mqtt_go.Client.{Client, Wake, failed, issued, publish_impl}
use mqtt_go.Ids.{new_id}
use mqtt_go.RetryClient.{
  World, Queues, Task, publishing, run_task, publish_now, used, after_request, is_empty,
}
use mqtt_go.RetryClient.Keeping.{publish_request, publish_queued-empty, publish_valid}
use mqtt_go.RetryClient.Loop.{
  ChTask, Place, running, System, take_task, after_task, loop_step, update,
}
use mqtt_go.RetryClient.Loop.Operations.{set_client, with_client, started}
use mqtt_go.RetryClient.Loop.Progress.{not_switched}

issued_sig : (r : Option (ℕ × ℕ)) (c : Client) → (issued r c).1.sig ≡ c.sig
issued_sig none c = refl
issued_sig (some (id, last)) c = refl

publish_impl-unconnected :
    (t : Transport) (wake wake2 : Wake (Unit {0})) (m : Message) (dup : Bool) (c : Client)
    → c.sig ≡ none
    → (publish_impl t wake wake2 m dup c).1.1 ≡ failed (sentinel not_connected)
unfolding publish_impl
publish_impl-unconnected t wake wake2 m dup c e = elim (Bool-cases (m.id == 0)) [
  | inl z ↦ rw (z, issued_sig (new_id 2 c.id_last) c ∙ e) refl
  | inr z ↦ rw (z, e) refl
]

-- The state behind a publish task that found no connection: its error, and nothing in the retry queue.
abbrev reported_only : Client → Queues → Queues
reported_only c q = record (used c q) { errors = sentinel not_connected ∷ q.errors }

publish_now-unconnected :
    (w : World) (m : Message) (q : Queues)
    → validate_message w.max_payload_len m ≡ none
    → q.cli.sig ≡ none
    → publish_now w false m q ≡ ok (reported_only (publish_request w m q).1.0 q)
unfolding publish_now
publish_now-unconnected w m q v e =
    let a = w.answers q.requests in
    let fails =
      ap (λ x. x.1.1) (publish_valid w m q v)
      ∙ publish_impl-unconnected w.transport a.wake a.wake2 m false q.cli e in
    ap (λ r. after_request false r (used (publish_request w m q).1.0 q)) fails

run_task-unconnected :
    (w : World) (m : Message) (q : Queues)
    → validate_message w.max_payload_len m ≡ none
    → q.retry_queue ≡ []
    → q.cli.sig ≡ none
    → run_task w (publishing m) q ≡ ok (reported_only (publish_request w m q).1.0 q)
unfolding run_task
run_task-unconnected w m q v e f =
    publish_queued-empty w false m q v (ap is_empty e) ∙ publish_now-unconnected w m q v f

after_task-plain :
    (k : ℕ) (q : Queues) (s : System)
    → q.new_retry_by_error ≡ false
    → after_task k (ok q) s
      ≡ record s { place = running; clients = update s.clients k q.cli; queues = q }
after_task-plain k q s e = rw e refl

-- The task is lost: the goroutine is in front of the next one, the message is in no queue, and all
-- there is of it is the error.
abbrev pub Lost : List Task → System → System → Type 0
Lost tasks s s' =
    (s'.place ≡ running)
    × (s'.task_queue ≡ tasks)
    × (s'.queues.retry_queue ≡ [])
    × (s'.queues.errors ≡ sentinel not_connected ∷ s.queues.errors)

two_steps-Lost :
    (w : ℕ → World) (choice : Bool) (s : System) (m : Message) (tasks : List Task)
    → s.task_queue ≡ publishing m ∷ tasks
    → validate_message (w s.current).max_payload_len m ≡ none
    → s.queues.retry_queue ≡ []
    → s.queues.new_retry_by_error ≡ false
    → (s.clients s.current).sig ≡ none
    → (s1 : System) × (s2 : System) × (loop_step w choice running s ≡ some s1)
      × (loop_step w choice s1.place s1 ≡ some s2)
      × Lost tasks s s2
unfolding loop_step
two_steps-Lost w choice s m tasks queued v none_left plain alone =
    let q = record s.queues { cli = s.clients s.current } in
    let c = (publish_request (w s.current) m q).1.0 in
    let s1 = take_task (publishing m ∷ tasks) s in
    (
      s1,
      record s1 {
        place = running;
        clients = update s1.clients s.current c;
        queues = reported_only c q;
      },
      rw (not_switched s.current, queued) refl,
      ap (λ r. some (after_task s.current r s1))
            (run_task-unconnected (w s.current) m q v none_left alone)
          ∙ ap some (after_task-plain s.current (reported_only c q) s1 plain),
      (refl, refl, none_left, refl),
    )

started_before : (ch : ChTask) (o : Option ChTask) (s : System) → o ≡ some ch → started o s ≡ s
started_before ch o s e = rw e refl

set_client-made :
    (c : Client) (ch : ChTask) (s : System) → s.ch_task ≡ some ch → set_client c s ≡ with_client c s
unfolding set_client
set_client-made c ch s e = started_before ch s.ch_task (with_client c s) e

-- SetClient, with a client on which Connect was not called yet, comes when the goroutine is between two
-- tasks, and the next task publishes a valid message: whatever the QoS, the goroutine does not wait for
-- Connect but runs the task, which fails with ErrNotConnected, and the message is lost.
pub switched-Lost :
    (w : ℕ → World) (choice : Bool) (s : System) (c : Client) (ch : ChTask) (m : Message)
    (tasks : List Task)
    → s.place ≡ running
    → s.ch_task ≡ some ch
    → s.task_queue ≡ publishing m ∷ tasks
    → validate_message (w (suc s.current)).max_payload_len m ≡ none
    → s.queues.retry_queue ≡ []
    → s.queues.new_retry_by_error ≡ false
    → c.sig ≡ none
    → (s1 : System) × (s2 : System) × (loop_step w choice (set_client c s).place (set_client c s)
        ≡ some s1)
      × (loop_step w choice s1.place s1 ≡ some s2)
      × Lost tasks s s2
switched-Lost w choice s c ch m tasks place made queued v none_left plain alone =
    let Ends = λ (p : Place) (s' : System).
      (s1 : System) × (s2 : System) × (loop_step w choice p s' ≡ some s1)
      × (loop_step w choice s1.place s1 ≡ some s2)
      × Lost tasks s s2 in
    subst (λ s'. Ends s'.place s') (sym (set_client-made c ch s made))
      (subst (λ p. Ends p (with_client c s)) (sym place)
        (two_steps-Lost w choice (with_client c s) m tasks queued v none_left plain
          (rw (==_refl (suc s.current)) alone)))
