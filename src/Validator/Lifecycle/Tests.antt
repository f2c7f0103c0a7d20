-- ===== src/Validator/Lifecycle/Tests.antt =====
-- An instance of the theorem on waiting calls, and what a manager does (pkg/validator/state.go).
use peerdns.Prelude.{◌≡◌, refl, some, List, [], ◌∷◌, Bytes, beq, if◌then◌else◌}
use peerdns.Prelude.Map.{lookup, insert}
use peerdns.Validator.Lifecycle.{
  new_state_manager, set_state, notify, wait_for_state, resume, ready, starting, started, stopped,
}
use peerdns.Validator.Lifecycle.Channels.{Event, sets, run, step}
use peerdns.Validator.Lifecycle.Waiting.{starts, wait_for_state-released}

abbrev service : Bytes
service = 7 ∷ []

abbrev before : List Event
before = sets service starting ∷ []

-- It stops, and starts again.
abbrev after : List Event
after = sets service stopped ∷ sets service started ∷ []

is_starting : lookup service (run before new_state_manager).service_states ≡ some starting
unfolding run step set_state notify new_state_manager lookup insert beq
is_starting = refl

wait_for_state-released_example :
    let waiting = wait_for_state service stopped (run before new_state_manager) in
    (resume service stopped waiting.0 (run after waiting.1)).0
    ≡ (if starts service after then ready else waiting.0)
wait_for_state-released_example =
    wait_for_state-released before after service starting stopped is_starting refl
