-- ===== src/Validator/Lifecycle/Channels.antt =====
-- The channels of the state manager (pkg/validator/state.go): open while they are registered, and
-- one for each component.
use peerdns.Prelude.{
  ℕ, ◌<◌, ◌≡◌, refl, arith, ◌==◌, Bool, true, false, Option, none, some, List, [], ◌∷◌,
  if◌then◌else◌, Bytes, beq_iff,
}
use peerdns.Prelude.Map.{Map, lookup, insert, delete, lookup-insert, lookup-delete}
use peerdns.Validator.Lifecycle.{
  StateManager, new_state_manager, is_closed, notify, set_state, Waiter, appears, changes, ready,
  make_chan, join_chan, compare_state, wait_for_state, started,
}

pub data Event : Type 0 where
  sets : Bytes → ℕ → Event
  waits : Bytes → ℕ → Event

unfoldable pub step : Event → StateManager → StateManager
step (sets t state) m = set_state t state m
step (waits t desired) m = (wait_for_state t desired m).1

unfoldable pub run : List Event → StateManager → StateManager
run [] m = m
run (e ∷ es) m = run es (step e m)

pub record IsConsistent (m : StateManager) : Type 0 where
  pub registered :
      (t : Bytes) (c : ℕ)
      → lookup t m.wait_chans ≡ some c
      → (c < m.made) × (is_closed c m.closed ≡ false)
  pub one_each :
      (t u : Bytes) (c : ℕ)
      → lookup t m.wait_chans ≡ some c
      → lookup u m.wait_chans ≡ some c
      → t ≡ u
  pub older : (c : ℕ) → is_closed c m.closed ≡ true → c < m.made

notify-IsConsistent : (t : Bytes) (m : StateManager) → IsConsistent m → IsConsistent (notify t m)
unfolding notify is_closed
notify-IsConsistent t m p = found (lookup t m.wait_chans) refl
  where
    found :
        (o : Option ℕ)
        → lookup t m.wait_chans ≡ o
        → IsConsistent (elim o as (λ _. StateManager) [
          | none ↦ m
          | some ch ↦ record m { closed = ch ∷ m.closed; wait_chans = delete t m.wait_chans }
        ])
    found none e = p
    found (some ch) e = record {
      registered = λ u c k. ground (
        arith,
        lookup-delete t u m.wait_chans,
        p.registered u c,
        p.one_each t u c,
        beq_iff t u,
        e,
      );
      one_each = λ u v c k l.
          ground (
            arith,
            lookup-delete t u m.wait_chans,
            lookup-delete t v m.wait_chans,
            p.one_each u v c,
          );
      older = λ c k. ground (arith, p.older c, p.registered t ch e);
    }

pub make_chan-IsConsistent :
    (t : Bytes) (m : StateManager) → IsConsistent m → IsConsistent (make_chan t m)
unfolding make_chan
make_chan-IsConsistent t m p = record {
  registered = λ u c k.
      ground (
        arith,
        lookup-insert t u m.made m.wait_chans,
        p.registered u c,
        p.older m.made,
        beq_iff t u,
      );
  one_each = λ u v c k l. ground (
    arith,
    lookup-insert t u m.made m.wait_chans,
    lookup-insert t v m.made m.wait_chans,
    p.one_each u v c,
    p.registered u c,
    p.registered v c,
    beq_iff t u,
    beq_iff t v,
  );
  older = λ c k. ground (arith, p.older c);
}

-- A change of the states alone.
states-IsConsistent :
    (m : StateManager) (states : Map ℕ)
    → IsConsistent m
    → IsConsistent (record m { service_states = states })
states-IsConsistent m states p = record {
  registered = p.registered;
  one_each = p.one_each;
  older = p.older;
}

pub set_state-IsConsistent :
    (t : Bytes) (state : ℕ) (m : StateManager) → IsConsistent m → IsConsistent (set_state t state m)
unfolding set_state
set_state-IsConsistent t state m p = tested (state == started)
  where
    m' : StateManager
    m' = record m { service_states = insert t state m.service_states }

    p' : IsConsistent m'
    p' = states-IsConsistent m (insert t state m.service_states) p

    tested : (b : Bool) → IsConsistent (if b then notify t m' else m')
    tested true = notify-IsConsistent t m' p'
    tested false = p'

pub join_chan-IsConsistent :
    (t : Bytes) (m : StateManager) → IsConsistent m → IsConsistent (join_chan t m).1
unfolding join_chan
join_chan-IsConsistent t m p = found (lookup t m.wait_chans)
  where
    found :
        (o : Option ℕ)
        → IsConsistent
            (elim o as (λ _. Waiter × StateManager) [
              | none ↦ (changes m.made, make_chan t m)
              | some ch ↦ (changes ch, m)
            ]).1
    found none = make_chan-IsConsistent t m p
    found (some ch) = p

pub wait_for_state-IsConsistent :
    (t : Bytes) (desired : ℕ) (m : StateManager)
    → IsConsistent m
    → IsConsistent (wait_for_state t desired m).1
unfolding wait_for_state compare_state
wait_for_state-IsConsistent t desired m p = found (lookup t m.service_states)
  where
    compared : (b : Bool) → IsConsistent (if b then (ready, m) else join_chan t m).1
    compared true = p
    compared false = join_chan-IsConsistent t m p

    found :
        (o : Option ℕ)
        → IsConsistent
            (elim o as (λ _. Waiter × StateManager) [
              | none ↦ (appears m.made, make_chan t m)
              | some state ↦ if state == desired then (ready, m) else join_chan t m
            ]).1
    found none = make_chan-IsConsistent t m p
    found (some state) = compared (state == desired)

pub run-IsConsistent :
    (es : List Event) (m : StateManager) → IsConsistent m → IsConsistent (run es m)
unfolding run step
run-IsConsistent [] m p = p
run-IsConsistent (sets t state ∷ es) m p =
    run-IsConsistent es _ (set_state-IsConsistent t state m p)
run-IsConsistent (waits t desired ∷ es) m p =
    run-IsConsistent es _ (wait_for_state-IsConsistent t desired m p)

pub new_state_manager-IsConsistent : IsConsistent new_state_manager
unfolding new_state_manager lookup is_closed
new_state_manager-IsConsistent = record {
  registered = λ t c e. cc;
  one_each = λ t u c e f. cc;
  older = λ c e. cc;
}
