-- ===== src/RetryClient/Accounting.antt =====
-- retryclient.go: what becomes of a message over all the tasks that follow its publish.
use mqtt_go.Base.{
  ◌≡◌, ◌⊎◌, inl, inr, refl, sym, ap, true, false, ltb, List, [], ◌∷◌, ◌++◌, Option, none, some,
}
use mathlib.Core.Path.{subst}
use mqtt_go.Base.Outcome.{ok, err, panic, OnOk, >>=-OnOk}
use mqtt_go.Errors.{Go}
use mqtt_go.Message.{Message, qos0}
use mqtt_go.Publish.{validate_message}
use mqtt_go.Client.{Client, Result, finished, failed, failed_with, panicked}
use mqtt_go.RetryClient.{
  given, base_subscribe, Ran, RetryFn, base, later_publish, later_subscribe, later_unsubscribe,
  World, Queues, used, after_request, is_empty, publish_now, run_retry, retried, run_fn, counted,
  retry, resubscribe, Task, publishing, subscribing, unsubscribing, leaving, resubscribing,
  retrying, run_task, run_tasks,
}
use mqtt_go.RetryClient.Keeping.{
  publish_request, empty-cases, publish_queued-empty, publish_queued-behind,
}
use mqtt_go.RetryClient.Repeating.{Completed, Reached, Reached-later, here, Retried, retry-Retried}
use mqtt_go.RetryClient.Lengthening.{
  Grows, Lengthens, publish_queued-Lengthens, subscribe_queued-Lengthens,
  unsubscribe_queued-Lengthens, leave-Lengthens, subscribe_each-Lengthens, Completed-Grows,
}
use mqtt_go.RetryClient.Carrying.{
  Same, Carries, InQueue, TaskRuns, Runs, Accounted, append-InQueue, InQueue-Grows, Same-trans,
  NoRetry,
}
use mqtt_go.RetryClient.Resending.{OnRetry, publish_request-Keeps, run_fn-Carries}

abbrev IsNone : Option RetryFn → Type 0
IsNone none = Unit {0}
IsNone (some r) = ⊥

-- The call leaves a state that accounts for the message.
abbrev Accounts : World → Message → (RetryFn → Queues → Type 0) → Go Queues → Type 0
Accounts w m Run out = OnOk (Accounted w m Run) out

module _ (w : World) (m : Message) (Run : RetryFn → Queues → Type 0) where
  publish_now-Accounts :
      (m' : Message) (q : Queues)
      → Same m m'
      → Run (later_publish m') q
      → Accounts w m Run (publish_now w false m' q)
  unfolding publish_now
  publish_now-Accounts m' q same runs =
      let k = publish_request-Keeps w m' q in
      by_result _ _ refl k.1 (Same-trans m m' (publish_request w m' q).0 same k.0)
    where
      by_result :
          (x : Result (Unit {0})) (c : Client)
          → (publish_request w m' q).1.1 ≡ x
          → OnRetry (publish_request w m' q).0 x
          → Same m (publish_request w m' q).0
          → Accounts w m Run (after_request false x (used c q))
      by_result (finished a) c e k same' =
          inl (later_publish m', q, same, runs, subst NoRetry (sym e) tt)
      by_result (failed x) c e k same' =
          inl (later_publish m', q, same, runs, subst NoRetry (sym e) tt)
      by_result (failed_with x r) c e k same' =
          inr (append-InQueue m q.retry_queue (base r ∷ []) (inl (_, same', k)))
      by_result panicked c e k same' = tt

  -- A function that carries the message, run to its end.
  run_fn-Accounted :
      (f f' : RetryFn) (q q1 : Queues)
      → Carries m f
      → Run f q
      → run_fn w f q ≡ ok (q1, f', none)
      → Accounted w m Run q1
  unfolding run_fn
  run_fn-Accounted (base r) f' q q1 h runs e = inl (base r, q, h, runs, by_result _ _ refl e)
    where
      by_result :
          (x : Result (Unit {0})) (c : Client)
          → (run_retry w.transport (w.answers q.requests) r q.cli).1 ≡ x
          → retried r x (used c q) ≡ ok (q1, f', none)
          → NoRetry (run_retry w.transport (w.answers q.requests) r q.cli).1
      by_result (finished a) c e run = subst NoRetry (sym e) tt
      by_result (failed x) c e run = subst NoRetry (sym e) tt
      by_result (failed_with x r') c e run =
          absurd (subst (OnOk (λ (y : Ran). IsNone y.2)) (sym run) tt)
      by_result panicked c e run = absurd (cc)
  run_fn-Accounted (base_subscribe a) f' q q1 h runs e = absurd h
  run_fn-Accounted (later_publish m') f' q q1 h runs e =
      subst (OnOk (λ (r : Ran). Accounted w m Run r.0)) e (
        >>=-OnOk _ (publish_now w false m' q) _
          (λ q2 e2. subst (Accounts w m Run) e2 (publish_now-Accounts m' q h runs)))
  run_fn-Accounted (later_subscribe again a) f' q q1 h runs e = absurd h
  run_fn-Accounted (later_unsubscribe topics) f' q q1 h runs e = absurd h

  Accounted-Grows :
      (q q' : Queues)
      → Accounted w m Run q
      → Grows q.retry_queue q'.retry_queue
      → Accounted w m Run q'
  Accounted-Grows q q' (inl h) g = inl h
  Accounted-Grows q q' (inr h) g = inr (InQueue-Grows m q.retry_queue q'.retry_queue h g)

  Completed-Accounted :
      {fs fs' : List RetryFn} {q q' : Queues}
      → Completed w fs fs' q q'
      → ((s : Reached w fs q) → Run s.this (counted s.at))
      → InQueue m fs
      → Accounted w m Run q'
  Completed-Accounted Completed.nothing runs h = absurd h
  Completed-Accounted (Completed.then_run {f} {f'} {fs} {fs'} {q} {q1} {q'} run rest) runs (inl h) =
      Accounted-Grows q1 q' (run_fn-Accounted f f' (counted q) q1 h (runs (here w f fs q)) run)
        (Completed-Grows w rest)
  Completed-Accounted (Completed.then_run {f} {f'} {fs} {fs'} {q} {q1} {q'} run rest) runs (inr h) =
      Completed-Accounted rest (λ s. runs (Reached-later w f f' fs q q1 run s)) h

  -- What the runs have left of the functions still carries the message.
  Completed-InQueue :
      {fs fs' : List RetryFn} {q q' : Queues} (behind behind' : List RetryFn)
      → Completed w fs fs' q q'
      → (InQueue m behind → InQueue m behind')
      → InQueue m (fs ++ behind)
      → InQueue m (fs' ++ behind')
  Completed-InQueue behind behind' Completed.nothing k h = k h
  Completed-InQueue behind behind' (Completed.then_run {f} {f'} {fs} {fs'} {q} {q1} {q'} run rest) k
        (inl h) =
      inl (subst (OnOk (λ (r : Ran). Carries m r.1)) run (run_fn-Carries w m f (counted q) h))
  Completed-InQueue behind behind' (Completed.then_run {f} {f'} {fs} {fs'} {q} {q1} {q'} run rest) k
        (inr h) =
      inr (Completed-InQueue behind behind' rest k h)

  Reached-InQueue :
      {fs : List RetryFn} {q : Queues} (s : Reached w fs q) (f' : RetryFn) (q' : Queues)
      (again : Option RetryFn)
      → run_fn w s.this (counted s.at) ≡ ok (q', f', again)
      → InQueue m fs
      → InQueue m (s.left ++ f' ∷ s.behind)
  Reached-InQueue s f' q' again run h =
      Completed-InQueue (s.this ∷ s.behind) (f' ∷ s.behind) s.completed carried
        (subst (InQueue m) s.whole h)
    where
      carried : InQueue m (s.this ∷ s.behind) → InQueue m (f' ∷ s.behind)
      carried (inl c) = inl (
          subst (OnOk (λ (r : Ran). Carries m r.1)) run
            (run_fn-Carries w m s.this (counted s.at) c))
      carried (inr c) = inr c

  retry-Accounts :
      (q : Queues)
      → ((s : Reached w q.retry_queue (record q { retry_queue = [] })) → Run s.this (counted s.at))
      → InQueue m q.retry_queue
      → Accounts w m Run (retry w q)
  retry-Accounts q runs h = by_end (retry-Retried w q)
    where
      by_end :
          Retried w [] q.retry_queue (record q { retry_queue = [] }) (retry w q)
          → Accounts w m Run (retry w q)
      by_end (inl (q', fs', done, e)) =
          subst (Accounts w m Run) (sym e) (Completed-Accounted done runs h)
      by_end (inr (inl (s, q', f', again, run, e))) = subst (Accounts w m Run) (sym e) (
          inr (
            append-InQueue m (q'.retry_queue ++ again ∷ []) (s.left ++ f' ∷ s.behind)
              (Reached-InQueue s f' q' (some again) run h)))
      by_end (inr (inr (s, stop, e))) = subst (Accounts w m Run) (sym e) tt

  Lengthens-Accounts :
      (q : Queues) (out : Go Queues)
      → InQueue m q.retry_queue
      → Lengthens q.retry_queue out
      → Accounts w m Run out
  Lengthens-Accounts q panic h l = tt
  Lengthens-Accounts q (err e) h l = tt
  Lengthens-Accounts q (ok q') h l = inr (InQueue-Grows m q.retry_queue q'.retry_queue h l)

module _ (w : World) (m : Message) where
  run_task-Accounts :
      (t : Task) (q : Queues)
      → InQueue m q.retry_queue
      → Accounts w m (TaskRuns w t q) (run_task w t q)
  unfolding run_task resubscribe
  run_task-Accounts (publishing m') q h =
      Lengthens-Accounts w m _ q _ h (publish_queued-Lengthens w m' q)
  run_task-Accounts (subscribing subs) q h =
      Lengthens-Accounts w m _ q _ h (subscribe_queued-Lengthens w false subs q)
  run_task-Accounts (unsubscribing topics) q h =
      Lengthens-Accounts w m _ q _ h (unsubscribe_queued-Lengthens w topics q)
  run_task-Accounts leaving q h = Lengthens-Accounts w m _ q _ h (leave-Lengthens w q)
  run_task-Accounts resubscribing q h =
      Lengthens-Accounts w m _ q _ h (subscribe_each-Lengthens w q.sub_established _)
  run_task-Accounts retrying q h =
      retry-Accounts w m (TaskRuns w retrying q) q (λ s. (s, refl, refl)) h

  publishing-Accounts :
      (q : Queues)
      → validate_message w.max_payload_len m ≡ none
      → ltb qos0 m.qos ≡ true
      → Accounts w m (TaskRuns w (publishing m) q) (run_task w (publishing m) q)
  unfolding run_task
  publishing-Accounts q v h = elim (empty-cases q.retry_queue) [
    | inl e ↦
        subst (Accounts w m (TaskRuns w (publishing m) q))
          (sym (publish_queued-empty w false m q v (ap is_empty e)))
          (publish_now-Accounts w m (TaskRuns w (publishing m) q) m q (refl, refl, refl, refl)
            (e, refl, refl))
    | inr e ↦
        subst (Accounts w m (TaskRuns w (publishing m) q))
          (sym (publish_queued-behind w false m q v e h))
          (inr
            (append-InQueue m q.retry_queue (later_publish m ∷ []) (inl (refl, refl, refl, refl))))
  ]

module _ (w : World) (m : Message) (Run Run' : RetryFn → Queues → Type 0)
    (k : (f : RetryFn) (at : Queues) → Run f at → Run' f at) where
  Accounted-map : (q : Queues) → Accounted w m Run q → Accounted w m Run' q
  Accounted-map q (inl (f, at, c, r, h)) = inl (f, at, c, k f at r, h)
  Accounted-map q (inr h) = inr h

  Accounts-map : (out : Go Queues) → Accounts w m Run out → Accounts w m Run' out
  Accounts-map panic h = tt
  Accounts-map (err e) h = tt
  Accounts-map (ok q) h = Accounted-map q h

module _ (w : World) (m : Message) where
  -- From a state that accounts for the message, by what has run before.
  run_tasks-Accounts :
      (ts : List (Client × Task)) (q : Queues) (Run : RetryFn → Queues → Type 0)
      → Accounted w m Run q
      → Accounts w m (λ f at. Run f at ⊎ Runs w ts q f at) (run_tasks w ts q)
  unfolding run_tasks
  run_tasks-Accounts [] q Run h = Accounted-map w m Run _ (λ f at r. inl r) q h
  run_tasks-Accounts ((c, t) ∷ ts) q Run h = >>=-OnOk _ (run_task w t (given c q)) _ (λ q1 e.
      Accounts-map w m _ _ (λ f at r. regroup q1 e f at r) (run_tasks w ts q1)
        (run_tasks-Accounts ts q1 (λ f at. Run f at ⊎ TaskRuns w t (given c q) f at)
          (after h q1 e)))
    where
      after :
          Accounted w m Run q
          → (q1 : Queues) → run_task w t (given c q) ≡ ok q1
          → Accounted w m (λ f at. Run f at ⊎ TaskRuns w t (given c q) f at) q1
      after (inl (f, at, c, r, s)) q1 e = inl (f, at, c, inl r, s)
      after (inr h) q1 e =
          Accounted-map w m (TaskRuns w t (given c q)) _ (λ f at r. inr r) q1
            (subst (Accounts w m (TaskRuns w t (given c q))) e
              (run_task-Accounts w m t (given c q) h))

      regroup :
          (q1 : Queues)
          → run_task w t (given c q) ≡ ok q1
          → (f : RetryFn) (at : Queues)
          → (Run f at ⊎ TaskRuns w t (given c q) f at) ⊎ Runs w ts q1 f at
          → Run f at ⊎ Runs w ((c, t) ∷ ts) q f at
      regroup q1 e f at (inl (inl r)) = inl r
      regroup q1 e f at (inl (inr r)) = inr (inl r)
      regroup q1 e f at (inr r) = inr (inr (q1, e, r))

-- A valid message of QoS 1 or 2 is not lost by the tasks: when its publish task has run, and whatever
-- tasks follow, among them Retry, Resubscribe and the requests of others, with whatever clients and
-- answers of the broker, as long as none of them panics: the retry queue holds a function that sends this message or
-- what is left of its exchange, or one of these tasks has run such a function, and its request finished,
-- or failed with an error that carries no retry.
pub published-Accounted :
    (w : World) (m : Message) (c : Client) (ts : List (Client × Task)) (q q' : Queues)
    → validate_message w.max_payload_len m ≡ none
    → ltb qos0 m.qos ≡ true
    → run_tasks w ((c, publishing m) ∷ ts) q ≡ ok q'
    → Accounted w m (Runs w ((c, publishing m) ∷ ts) q) q'
unfolding run_tasks
published-Accounted w m c ts q q' v h e =
    subst (Accounts w m (Runs w ((c, publishing m) ∷ ts) q)) e (
      >>=-OnOk _ (run_task w (publishing m) (given c q)) _ (λ q1 e1.
        Accounts-map w m _ _ (λ f at r. regroup q1 e1 f at r) (run_tasks w ts q1)
          (run_tasks-Accounts w m ts q1 (TaskRuns w (publishing m) (given c q)) (
            subst (Accounts w m (TaskRuns w (publishing m) (given c q))) e1
              (publishing-Accounts w m (given c q) v h)))))
  where
    regroup :
        (q1 : Queues)
        → run_task w (publishing m) (given c q) ≡ ok q1
        → (f : RetryFn) (at : Queues)
        → TaskRuns w (publishing m) (given c q) f at ⊎ Runs w ts q1 f at
        → Runs w ((c, publishing m) ∷ ts) q f at
    regroup q1 e f at (inl r) = inl r
    regroup q1 e f at (inr r) = inr (q1, e, r)
