-- ===== src/Sequencer/States/Released.antt =====
-- When a call of `WaitForState` returns (pkg/sequencer/state.go).
use peerdns.Prelude.{ℕ, ◌≡◌, false, some, arith, ◌==◌, if◌then◌else◌, Bytes, beq_refl}
use peerdns.Prelude.Map.{lookup, lookup-insert}
use peerdns.Sequencer.States.{
  Stage, number, StateManager, is_closed, notifies, notify, set_state, get_state, waiting, ready,
  not_reached, resume,
}

-- A call whose channel is registered and open goes on at the next change of the state exactly if
-- the new state is Started, Stopped or Failed, and returns nil exactly if that is the one it wants.
-- A call that wants another state, as Produced, so never returns nil from its channel at that change.
pub resume-set_state :
    (t : Bytes) (desired state : Stage) (ch : ℕ) (m : StateManager)
    → lookup t m.wait_chans ≡ some ch
    → is_closed ch m.closed ≡ false
    → resume t desired (waiting ch) (set_state t state m) ≡ (
        if notifies state
        then (if number state == number desired then ready else not_reached)
        else waiting ch)
unfolding resume set_state notify is_closed get_state
resume-set_state t desired state ch m registered opened =
    ground (arith, registered, opened, beq_refl t, lookup-insert t t state m.service_states)
