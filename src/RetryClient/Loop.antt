-- ===== src/RetryClient/Loop.antt =====
-- retryclient.go: the goroutine of SetClient that runs the tasks, and the channels between it and
-- the calls of the RetryClient. One step of it is what stands between two points where it can wait.
pub mod Operations
pub mod Invariant
pub mod Kept
pub mod Losing
pub mod Panics
pub mod Progress
use mqtt_go.Base.{
  ℕ, suc, Bool, true, false, not, ◌&&◌, ltb, List, [], ◌∷◌, ◌++◌, Option, none, some, ◌==◌,
  if◌then◌else◌,
}
use mqtt_go.Base.Outcome.{ok, err, panic}
use mqtt_go.Errors.{Err, Go}
use mqtt_go.Client.{Client}
use mqtt_go.RetryClient.{World, Queues, Task, run_task}

-- chConnectErr of one client, a channel of capacity 1.
pub record ConnectErr : Type 0 where
  pub pending : Option Err
  pub is_closed : Bool

-- chTask, a channel of capacity 1.
pub record ChTask : Type 0 where
  pub token : Bool
  pub is_closed : Bool

-- Where the goroutine stands: not started, at the top of the inner loop, in the `select` on the
-- channels of the client k, at the top of L_TASK with `connected`, in the `select` on chTask and the
-- chConnSwitch of k, in front of `task(ctx, cli)` with the client k, returned, or panicked.
pub data Place : Type 0 where
  absent unconnected running ended crashed : Place
  selecting idle : ℕ → Place
  doing : ℕ → Task → Place

-- The clients are numbered from 1 as SetClient sets them, and `current` is the last one, 0 is nil. A
-- chConnSwitch is closed by the next SetClient. `queues` has the fields that the tasks use; `accepted`
-- and `taken` record the tasks that were put in the task queue, and that left it.
pub record System : Type 0 where
  pub current : ℕ
  pub clients : ℕ → Client
  pub handler : Option ℕ
  pub handlers : ℕ → Option ℕ
  pub connect_errs : ℕ → ConnectErr
  pub ch_task : Option ChTask
  pub stopped : Bool
  pub task_queue : List Task
  pub place : Place
  pub queues : Queues
  pub total_tasks : ℕ
  pub count_set_client : ℕ
  pub count_connect : ℕ
  pub count_connect_error : ℕ
  pub accepted : List Task
  pub taken : List Task

abbrev pub update {ℓ} : {A : Type ℓ} → (ℕ → A) → ℕ → A → ℕ → A
update f k a i = if i == k then a else f i

-- The chConnSwitch of the client k is closed.
abbrev pub switched : ℕ → System → Bool
switched k s = ltb k s.current

-- `case _, ok := <-chConnectErr`, where it is ready.
abbrev pub err_received : ℕ → Option Err → Bool → System → Option System
err_received k (some e) closed s = some (record s {
  place = unconnected;
  connect_errs = update s.connect_errs k (record { pending = none; is_closed = closed });
})
err_received k none true s = some (record s { place = running })
err_received k none false s = none

-- `case _, ok := <-c.chTask`, where it is ready.
abbrev pub woken_by : Bool → Bool → System → Option System
woken_by true closed s =
    some
      (record s { place = running; ch_task = some (record { token = false; is_closed = closed }) })
woken_by false true s = some (record s { place = ended })
woken_by false false s = none

abbrev pub woken : Option ChTask → System → Option System
woken none s = none
woken (some ch) s = woken_by ch.token ch.is_closed s

-- A `select` of a first case that may be ready, and the closed chConnSwitch: where both are ready, the
-- choice says whether the first is taken.
abbrev pub either_ready : Bool → Option System → Bool → System → Option System
either_ready choice (some s') true s =
    if choice then some s' else some (record s { place = unconnected })
either_ready choice (some s') false s = some s'
either_ready choice none true s = some (record s { place = unconnected })
either_ready choice none false s = none

-- The head of the task queue is taken with the client of this moment.
abbrev pub take_task : List Task → System → System
take_task [] s = record s { place = idle s.current }
take_task (task ∷ tasks) s = record s {
  place = doing s.current task;
  task_queue = tasks;
  total_tasks = suc s.total_tasks;
  taken = s.taken ++ task ∷ [];
}

-- What follows `task(ctx, cli)`, with the client k.
abbrev pub after_task : ℕ → Go Queues → System → System
after_task k (ok q) s =
    if q.new_retry_by_error
    then record s {
      place = unconnected;
      clients = update s.clients k (record q.cli { is_closed = true });
      queues = record q { new_retry_by_error = false };
    }
    else record s { place = running; clients = update s.clients k q.cli; queues = q }
after_task k (err e) s = record s { place = crashed }
after_task k panic s = record s { place = crashed }

-- One step of the goroutine; none where it waits or is not there. The worlds are those of the
-- clients.
unfoldable pub loop_step : (ℕ → World) → Bool → Place → System → Option System
loop_step w choice absent s = none
loop_step w choice unconnected s = some (record s { place = selecting s.current })
loop_step w choice (selecting k) s =
    let errs = s.connect_errs k in
    either_ready choice (err_received k errs.pending errs.is_closed s) (switched k s) s
loop_step w choice running s =
    if switched s.current s
    then some (record s { place = unconnected })
    else some (take_task s.task_queue s)
loop_step w choice (idle k) s = either_ready choice (woken s.ch_task s) (switched k s) s
loop_step w choice (doing k task) s =
    some (after_task k (run_task (w k) task (record s.queues { cli = s.clients k })) s)
loop_step w choice ended s = none
loop_step w choice crashed s = none
