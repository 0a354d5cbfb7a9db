-- ===== src/Reconnect/Queueing.antt =====
-- What a connection of the ReconnectClient puts in the task queue of its RetryClient.
use mqtt_go.Base.{
  ℕ, suc, ◌≡◌, refl, sym, ap, ◌∙◌, Bool, true, false, not, ◌&&◌, ◌||◌, List, [], ◌∷◌, ◌++◌,
  append_assoc, Option, none, some, arith, ==_refl, ◌==◌, if◌then◌else◌,
}
use mathlib.Core.Path.{subst}
use mqtt_go.Base.Outcome.{ok}
use mqtt_go.Errors.{Go}
use mqtt_go.Client.{Client}
use mqtt_go.RetryClient.{Task, resubscribing, retrying}
use mqtt_go.RetryClient.Loop.{ConnectErr, ChTask, System, update}
use mqtt_go.RetryClient.Loop.Operations.{
  push_task, task_signalled, enqueued, set_client, with_client, started, begin_connect, end_connect,
  connect_reported, resubscribe_call, retry_call, ignoring_err,
}
use mqtt_go.RetryClient.Loop.Invariant.{ClosedByStop, Invariant}
use mqtt_go.RetryClient.Loop.Kept.{task_signalled_open}
use mqtt_go.Reconnect.{
  ReconnectOptions, Action, sets, connected_with, resubscribes, retries, keeps_alive, made_actions,
  act, act_all,
}

-- A RetryClient that was not stopped: its client, what Connect came to for it, and its task queue.
pub record Stands (n : ℕ) (errs : ConnectErr) (tasks : List Task) (s : System) : Type 0 where
  pub client_is : s.current ≡ n
  pub connect_is : s.connect_errs n ≡ errs
  pub queue_is : s.task_queue ≡ tasks
  pub is_open : s.stopped ≡ false
  pub by_stop : ClosedByStop s.ch_task s.stopped

abbrev pub ComesTo : ℕ → ConnectErr → List Task → Go System → Type 0
ComesTo n errs tasks out = (s : System) × (out ≡ ok s) × Stands n errs tasks s

module _ (n : ℕ) (errs : ConnectErr) (tasks : List Task) (s : System)
    (h : Stands n errs tasks s) where
  enqueued-ComesTo :
      (task : Task) (c : Option ChTask)
      → s.ch_task ≡ c
      → ComesTo n errs (tasks ++ task ∷ []) (enqueued task (task_signalled c) s)
  enqueued-ComesTo task none e = (
    _,
    refl,
    record {
      client_is = h.client_is;
      connect_is = h.connect_is;
      queue_is = ap (λ l. l ++ task ∷ []) h.queue_is;
      is_open = h.is_open;
      by_stop = sym h.is_open;
    },
  )
  enqueued-ComesTo task (some c) e =
      let closed : c.is_closed ≡ s.stopped = subst (λ c. ClosedByStop c s.stopped) e h.by_stop in
      (
        _,
        ap (λ r. enqueued task r s) (task_signalled_open c (closed ∙ h.is_open)),
        record {
          client_is = h.client_is;
          connect_is = h.connect_is;
          queue_is = ap (λ l. l ++ task ∷ []) h.queue_is;
          is_open = h.is_open;
          by_stop = closed;
        },
      )

  push_task-ComesTo : (task : Task) → ComesTo n errs (tasks ++ task ∷ []) (push_task task s)
  unfolding push_task
  push_task-ComesTo task = simp (h.is_open) (enqueued-ComesTo task s.ch_task refl)

-- The state of chConnectErr at first, and when Connect returned without an error.
abbrev pub fresh : ConnectErr
fresh = record { pending = none; is_closed = false }

abbrev pub done_well : ConnectErr
done_well = record { pending = none; is_closed = true }

ignoring-ComesTo :
    (n : ℕ) (errs : ConnectErr) (tasks : List Task) (s : System) (out : Go System)
    → ComesTo n errs tasks out
    → ComesTo n errs tasks (ignoring_err out s)
ignoring-ComesTo n errs tasks s out (s', e, h) = (s', rw e refl, h)

updated : (f : ℕ → ConnectErr) (k : ℕ) (x : ConnectErr) → update f k x k ≡ x
updated f k x = rw (==_refl k) refl

set_client-Stands :
    (c : Client) (s : System)
    → s.stopped ≡ false
    → ClosedByStop s.ch_task s.stopped
    → Stands (suc s.current) fresh s.task_queue (set_client c s)
unfolding set_client
set_client-Stands c s go h = by_channel s.ch_task refl
  where
    by_channel :
        (ch : Option ChTask)
        → s.ch_task ≡ ch
        → Stands (suc s.current) fresh s.task_queue (started ch (with_client c s))
    by_channel none e = record {
      client_is = refl;
      connect_is = updated s.connect_errs (suc s.current) fresh;
      queue_is = refl;
      is_open = go;
      by_stop = sym go;
    }
    by_channel (some ch) e = record {
      client_is = refl;
      connect_is = updated s.connect_errs (suc s.current) fresh;
      queue_is = refl;
      is_open = go;
      by_stop = h;
    }

abbrev closed_as : ConnectErr → ConnectErr
closed_as x = record { pending = x.pending; is_closed = true }

some_client : (n m : ℕ) → n ≡ suc m → (n == 0) ≡ false
some_client n m e = ground arith

module _ (m : ℕ) (tasks : List Task) (s : System) (h : Stands (suc m) fresh tasks s) where
  begun : ℕ × System
  begun = (
    s.current,
    record s {
      handlers = update s.handlers s.current s.handler;
      count_connect = suc s.count_connect;
    },
  )

  begin_connect-ok : begin_connect s ≡ ok begun
  unfolding begin_connect begun
  begin_connect-ok = rw (some_client s.current m h.client_is) refl

  connect_reported-ComesTo :
      (k : ℕ) (closed : Bool)
      → k ≡ suc m
      → closed ≡ false
      → ComesTo (suc m) done_well tasks (connect_reported k none closed begun.1)
  unfolding begun
  connect_reported-ComesTo k true e f = absurd (cc)
  connect_reported-ComesTo k false e f = (
    _,
    refl,
    record {
      client_is = h.client_is;
      connect_is =
          subst (λ i. update s.connect_errs i (closed_as (s.connect_errs i)) (suc m) ≡ done_well)
            (sym e) (updated s.connect_errs (suc m) _ ∙ ap closed_as h.connect_is);
      queue_is = h.queue_is;
      is_open = h.is_open;
      by_stop = h.by_stop;
    },
  )

  connected-ComesTo : ComesTo (suc m) done_well tasks (act (connected_with none) s)
  unfolding act end_connect begun
  connected-ComesTo = rw begin_connect-ok (
      connect_reported-ComesTo s.current (s.connect_errs s.current).is_closed h.client_is
        (ap (λ i. (s.connect_errs i).is_closed) h.client_is ∙ ap (λ x. x.is_closed) h.connect_is))

sets_lem : (c : Client) (s : System) → act (sets c) s ≡ ok (set_client c s)
unfolding act
sets_lem c s = refl

-- The actions one after the other.
act_all-ComesTo :
    (n n' : ℕ) (errs errs' : ConnectErr) (tasks tasks' : List Task) (a : Action)
    (acts : List Action) (s : System)
    → ComesTo n errs tasks (act a s)
    → ((s1 : System) → Stands n errs tasks s1 → ComesTo n' errs' tasks' (act_all acts s1))
    → ComesTo n' errs' tasks' (act_all (a ∷ acts) s)
unfolding act_all
act_all-ComesTo n n' errs errs' tasks tasks' a acts s (s1, e, h) k = rw e (k s1 h)

module _ (n : ℕ) (errs : ConnectErr) (tasks : List Task) where
  retries-ComesTo :
      (s : System) → Stands n errs tasks s → ComesTo n errs (tasks ++ retrying ∷ []) (act retries s)
  unfolding act retry_call
  retries-ComesTo s h = ignoring-ComesTo n errs _ s _ (push_task-ComesTo n errs tasks s h retrying)

  resubscribes-ComesTo :
      (s : System)
      → Stands n errs tasks s
      → ComesTo n errs (tasks ++ resubscribing ∷ []) (act resubscribes s)
  unfolding act resubscribe_call
  resubscribes-ComesTo s h =
      ignoring-ComesTo n errs _ s _ (push_task-ComesTo n errs tasks s h resubscribing)

  then_keep_alive :
      (b : Bool) (s : System)
      → Stands n errs tasks s
      → ComesTo n errs tasks (act_all (if b then keeps_alive ∷ [] else []) s)
  unfolding act_all act
  then_keep_alive true s h = (s, refl, h)
  then_keep_alive false s h = (s, refl, h)

retries_then :
    (n : ℕ) (errs : ConnectErr) (tasks : List Task) (b : Bool) (s : System)
    → Stands n errs tasks s
    → ComesTo n errs
        (tasks ++ retrying ∷ [])
        (act_all (retries ∷ (if b then keeps_alive ∷ [] else [])) s)
retries_then n errs tasks b s h =
    act_all-ComesTo n n errs errs _ _ retries _ s (retries-ComesTo n errs tasks s h)
      (λ s1 h1. then_keep_alive n errs _ b s1 h1)

resubscribes_then :
    (n : ℕ) (errs : ConnectErr) (tasks : List Task) (asks b : Bool) (s : System)
    → Stands n errs tasks s
    → ComesTo n errs (tasks ++ ((if asks then resubscribing ∷ [] else []) ++ retrying ∷ [])) (
        act_all
          ((if asks then resubscribes ∷ [] else [])
            ++ (retries ∷ (if b then keeps_alive ∷ [] else [])))
          s)
resubscribes_then n errs tasks false b s h = retries_then n errs tasks b s h
resubscribes_then n errs tasks true b s h =
    subst
      (λ l.
        ComesTo n errs l
          (act_all (resubscribes ∷ (retries ∷ (if b then keeps_alive ∷ [] else []))) s))
      (append_assoc tasks (resubscribing ∷ []) (retrying ∷ []))
      (act_all-ComesTo n n errs errs (tasks ++ resubscribing ∷ []) _ resubscribes _ s
        (resubscribes-ComesTo n errs tasks s h)
        (λ s1 h1. retries_then n errs (tasks ++ resubscribing ∷ []) b s1 h1))

-- What a connection does to the RetryClient, if Disconnect was not called and no other call comes
-- between: the new client is its client, its Connect is known to have returned without an error, and
-- behind the tasks that were queued stand Resubscribe and then Retry. Resubscribe is left out for the
-- first connection, and for one with a session unless AlwaysResubscribe is set.
pub made_actions-ComesTo :
    (o : ReconnectOptions) (c : Client) (present initialized : Bool) (s : System)
    → Invariant s
    → s.stopped ≡ false
    → ComesTo
        (suc s.current)
        done_well
        (s.task_queue
          ++ ((if initialized && (not present || o.always_resubscribe)
                then resubscribing ∷ []
                else [])
              ++ retrying ∷ []))
        (act_all (made_actions o c present initialized) s)
unfolding made_actions
made_actions-ComesTo o c present initialized s inv go =
    act_all-ComesTo (suc s.current) _ fresh _ s.task_queue _ (sets c) _ s
      (set_client c s, sets_lem c s, set_client-Stands c s go inv.closed_by_stop)
      (λ s1 h1.
        act_all-ComesTo (suc s.current) _ done_well _ s.task_queue _ (connected_with none) _ s1
          (connected-ComesTo s.current s.task_queue s1 h1)
          (λ s2 h2. resubscribes_then (suc s.current) done_well s.task_queue _ _ s2 h2))
