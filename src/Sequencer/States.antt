-- ===== src/Sequencer/States.antt =====
-- pkg/sequencer/state.go: the states of the sequencer and of its producer, and those that wait for
-- them. A channel is a number; an operation runs under the lock of the manager. Logging and metrics
-- are left out.
pub mod Released
use peerdns.Prelude.{
  ℕ, suc, Bool, true, false, Option, none, some, List, [], ◌∷◌, ◌==◌, ◌||◌, if◌then◌else◌, Bytes,
  codes,
}
use peerdns.Prelude.Map.{Map, lookup, insert, delete}

abbrev pub sequencer_state_type : Bytes
sequencer_state_type = codes "sequencer"

abbrev pub producer_state_type : Bytes
producer_state_type = codes "producer"

-- `State`
pub data Stage : Type 0 where
  uninitialized initializing initialized starting started produced : Stage
  service_failed stopping stopped : Stage

-- The number of the constant.
unfoldable pub number : Stage → ℕ
number uninitialized = 0
number initializing = 1
number initialized = 2
number starting = 3
number started = 4
number produced = 5
number service_failed = 6
number stopping = 7
number stopped = 8

-- `State.String`
unfoldable pub stage_string : Stage → Bytes
stage_string uninitialized = codes "uninitialized"
stage_string initializing = codes "initializing"
stage_string initialized = codes "initialized"
stage_string starting = codes "starting"
stage_string started = codes "started"
stage_string produced = codes "produced"
stage_string service_failed = codes "failed"
stage_string stopping = codes "stopping"
stage_string stopped = codes "stopped"

-- `StateManager`. `closed` are the channels that were closed, `made` counts all that were made.
pub record StateManager : Type 0 where
  pub service_states : Map Stage
  pub wait_chans : Map ℕ
  pub closed : List ℕ
  pub made : ℕ

-- `NewStateManager`
unfoldable pub new_state_manager : StateManager
new_state_manager = record { service_states = []; wait_chans = []; closed = []; made = 0 }

unfoldable pub is_closed : ℕ → List ℕ → Bool
is_closed ch [] = false
is_closed ch (c ∷ cs) = (c == ch) || is_closed ch cs

-- `state == Started || state == Stopped || state == Failed`
unfoldable pub notifies : Stage → Bool
notifies state =
    (number state == number started)
    || ((number state == number stopped) || (number state == number service_failed))

-- Close the channel of a type, if there is one.
unfoldable pub notify : Bytes → StateManager → StateManager
notify t m = elim (lookup t m.wait_chans) [
  | none ↦ m
  | some ch ↦ record m { closed = ch ∷ m.closed; wait_chans = delete t m.wait_chans }
]

-- `SetState`
unfoldable pub set_state : Bytes → Stage → StateManager → StateManager
set_state t state m =
    let next = record m { service_states = insert t state m.service_states } in
    if notifies state then notify t next else next

-- `GetState`
unfoldable pub get_state : Bytes → StateManager → Stage
get_state t m = elim (lookup t m.service_states) [ none ↦ uninitialized | some state ↦ state ]

-- Where a call of `WaitForState` stands: it waits on a channel, or it returned, with nil, with the
-- error that the state is another, or with that of its timeout.
pub data Waiter : Type 0 where
  waiting : ℕ → Waiter
  ready not_reached timed_out : Waiter

-- The channel of a type, made if there is none.
unfoldable pub join_chan : Bytes → StateManager → Waiter × StateManager
join_chan t m = elim (lookup t m.wait_chans) [
  | none ↦
      (waiting m.made, record m { wait_chans = insert t m.made m.wait_chans; made = suc m.made })
  | some ch ↦ (waiting ch, m)
]

-- `WaitForState`, up to where it waits.
unfoldable pub wait_for_state : Bytes → Stage → StateManager → Waiter × StateManager
wait_for_state t desired m = elim (lookup t m.service_states) [
  | none ↦ join_chan t m
  | some state ↦ if number state == number desired then (ready, m) else join_chan t m
]

-- A waiting call goes on where its channel was closed, and looks at the state once more.
unfoldable pub resume : Bytes → Stage → Waiter → StateManager → Waiter
resume t desired (waiting ch) m =
    if is_closed ch m.closed
    then (if number (get_state t m) == number desired then ready else not_reached)
    else waiting ch
resume t desired ready m = ready
resume t desired not_reached m = not_reached
resume t desired timed_out m = timed_out

-- The timeout of a waiting call.
unfoldable pub time_out : Waiter → Waiter
time_out (waiting ch) = timed_out
time_out ready = ready
time_out not_reached = not_reached
time_out timed_out = timed_out
