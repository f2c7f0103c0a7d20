-- ===== src/Validator/Lifecycle.antt =====
-- pkg/validator/state.go: the states of a node's components, and those that wait for them. A channel
-- is a number; an operation on the manager runs under its lock.
pub mod Channels
pub mod Waiting
pub mod Tests
use peerdns.Prelude.{
  ℕ, zero, suc, Bool, true, false, Option, none, some, List, [], ◌∷◌, ◌==◌, if◌then◌else◌, Bytes,
  codes,
}
use peerdns.Prelude.Map.{Map, lookup, insert, delete}

abbrev pub uninitialized : ℕ
uninitialized = 0

abbrev pub initializing : ℕ
initializing = 1

abbrev pub initialized : ℕ
initialized = 2

abbrev pub starting : ℕ
starting = 3

abbrev pub started : ℕ
started = 4

abbrev pub service_failed : ℕ
service_failed = 5

abbrev pub stopping : ℕ
stopping = 6

abbrev pub stopped : ℕ
stopped = 7

-- `State.String`
unfoldable pub state_string : ℕ → Bytes
state_string s =
    if s == uninitialized
    then codes "uninitialized"
    else if s == initializing
    then codes "initializing"
    else if s == initialized
    then codes "initialized"
    else if s == starting
    then codes "starting"
    else if s == started
    then codes "started"
    else if s == service_failed
    then codes "failed"
    else if s == stopped
    then codes "stopped"
    else codes "unknown"

-- `StateManager`. `closed` are the channels that were closed, `made` counts all that were made.
pub record StateManager : Type 0 where
  pub service_states : Map ℕ
  pub wait_chans : Map ℕ
  pub closed : List ℕ
  pub made : ℕ

-- `NewStateManager`
unfoldable pub new_state_manager : StateManager
new_state_manager = record { service_states = []; wait_chans = []; closed = []; made = 0 }

unfoldable pub is_closed : ℕ → List ℕ → Bool
is_closed ch [] = false
is_closed ch (c ∷ cs) = let rest = is_closed ch cs in if c == ch then true else rest

-- Close the channel of a component, if there is one.
unfoldable pub notify : Bytes → StateManager → StateManager
notify t m = elim (lookup t m.wait_chans) [
  | none ↦ m
  | some ch ↦ record m { closed = ch ∷ m.closed; wait_chans = delete t m.wait_chans }
]

-- `SetState`
unfoldable pub set_state : Bytes → ℕ → StateManager → StateManager
set_state t state m =
    let m' = record m { service_states = insert t state m.service_states } in
    if state == started then notify t m' else m'

-- `GetState`
unfoldable pub get_state : Bytes → StateManager → ℕ
get_state t m = elim (lookup t m.service_states) [ none ↦ uninitialized | some state ↦ state ]

-- Where a call of `WaitForState` stands: it waits on a channel for the component to appear or for
-- the state to change, or it returned, with nil or with the error of its timeout.
pub data Waiter : Type 0 where
  appears changes : ℕ → Waiter
  ready timed_out : Waiter

-- A new channel under a component, in place of one that is there.
unfoldable pub make_chan : Bytes → StateManager → StateManager
make_chan t m = record m { wait_chans = insert t m.made m.wait_chans; made = suc m.made }

-- The channel of the component, made if there is none.
unfoldable pub join_chan : Bytes → StateManager → Waiter × StateManager
join_chan t m = elim (lookup t m.wait_chans) [
  | none ↦ (changes m.made, make_chan t m)
  | some ch ↦ (changes ch, m)
]

-- The state that was read is compared with the one wanted.
unfoldable pub compare_state : Bytes → ℕ → ℕ → StateManager → Waiter × StateManager
compare_state t desired state m = if state == desired then (ready, m) else join_chan t m

-- `WaitForState`, up to where it first waits.
unfoldable pub wait_for_state : Bytes → ℕ → StateManager → Waiter × StateManager
wait_for_state t desired m = elim (lookup t m.service_states) [
  | none ↦ (appears m.made, make_chan t m)
  | some state ↦ compare_state t desired state m
]

-- A waiting call goes on where its channel was closed.
unfoldable pub resume : Bytes → ℕ → Waiter → StateManager → Waiter × StateManager
resume t desired (appears ch) m =
    if is_closed ch m.closed then compare_state t desired (get_state t m) m else (appears ch, m)
resume t desired (changes ch) m = if is_closed ch m.closed then (ready, m) else (changes ch, m)
resume t desired ready m = (ready, m)
resume t desired timed_out m = (timed_out, m)

-- The timeout of a waiting call.
unfoldable pub time_out : Waiter → Waiter
time_out (appears ch) = timed_out
time_out (changes ch) = timed_out
time_out ready = ready
time_out timed_out = timed_out
