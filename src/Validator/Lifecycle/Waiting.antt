-- ===== src/Validator/Lifecycle/Waiting.antt =====
-- When a call of `WaitForState` (pkg/validator/state.go) goes on.
use peerdns.Prelude.{
  ℕ, ◌≡◌, refl, arith, ◌==◌, ◌&&◌, Bool, true, false, Option, none, some, List, [], ◌∷◌,
  if◌then◌else◌, Bytes, beq, beq_iff, beq_refl, Bool-cases, inl, inr,
}
use peerdns.Prelude.Map.{lookup, has, lookup-insert, lookup-delete}
use peerdns.Validator.Lifecycle.{
  StateManager, new_state_manager, is_closed, notify, set_state, Waiter, changes, ready, make_chan,
  join_chan, compare_state, wait_for_state, resume, started,
}
use peerdns.Validator.Lifecycle.Channels.{
  Event, sets, waits, step, run, IsConsistent, run-IsConsistent, set_state-IsConsistent,
  wait_for_state-IsConsistent, make_chan-IsConsistent, new_state_manager-IsConsistent,
}

-- Whether the component is set to Started among the events.
unfoldable pub starts : Bytes → List Event → Bool
starts t [] = false
starts t (sets u state ∷ es) =
    let rest = starts t es in if beq u t && (state == started) then true else rest
starts t (waits u desired ∷ es) = starts t es

-- A channel is registered for a component whose state is known.
record IsPending (t : Bytes) (ch : ℕ) (m : StateManager) : Type 0 where
  known : has t m.service_states ≡ true
  registered : lookup t m.wait_chans ≡ some ch
  consistent : IsConsistent m

-- A closed channel stays closed.
is_closed-step :
    (ch : ℕ) (e : Event) (m : StateManager)
    → is_closed ch m.closed ≡ true
    → is_closed ch (step e m).closed ≡ true
unfolding step set_state notify is_closed wait_for_state compare_state join_chan make_chan
is_closed-step ch (sets u state) m h = ground (arith, h)
is_closed-step ch (waits u desired) m h = ground (arith, h)

is_closed-run :
    (ch : ℕ) (es : List Event) (m : StateManager)
    → is_closed ch m.closed ≡ true
    → is_closed ch (run es m).closed ≡ true
unfolding run
is_closed-run ch [] m h = h
is_closed-run ch (e ∷ es) m h = is_closed-run ch es (step e m) (is_closed-step ch e m h)

-- Until it is started, the component's channel stays registered.
set_state-IsPending :
    (t u : Bytes) (state ch : ℕ) (m : StateManager)
    → (beq u t && (state == started)) ≡ false
    → IsPending t ch m
    → IsPending t ch (set_state u state m)
unfolding set_state notify
set_state-IsPending t u state ch m other p = record {
  known = ground (arith, p.known, lookup-insert u t state m.service_states);
  registered = ground (arith, other, p.registered, lookup-delete u t m.wait_chans, beq_iff u t);
  consistent = set_state-IsConsistent u state m p.consistent;
}

wait_for_state-IsPending :
    (t u : Bytes) (desired ch : ℕ) (m : StateManager)
    → IsPending t ch m
    → IsPending t ch (wait_for_state u desired m).1
unfolding wait_for_state compare_state join_chan make_chan
wait_for_state-IsPending t u desired ch m p = record {
  known = ground (arith, p.known);
  registered =
      ground (arith, p.known, p.registered, lookup-insert u t m.made m.wait_chans, beq_iff u t);
  consistent = wait_for_state-IsConsistent u desired m p.consistent;
}

-- Being started closes it.
set_state-closes :
    (t u : Bytes) (state ch : ℕ) (m : StateManager)
    → (beq u t && (state == started)) ≡ true
    → IsPending t ch m
    → is_closed ch (set_state u state m).closed ≡ true
unfolding set_state notify is_closed
set_state-closes t u state ch m e p = ground (arith, e, p.registered, beq_iff u t)

-- The channel is closed exactly if the component is set to Started.
is_closed-run_pending :
    (t : Bytes) (ch : ℕ) (es : List Event) (m : StateManager)
    → IsPending t ch m
    → is_closed ch (run es m).closed ≡ starts t es
unfolding run step starts
is_closed-run_pending t ch [] m p = (p.consistent.registered t ch p.registered).1
is_closed-run_pending t ch (sets u state ∷ es) m p =
    elim (Bool-cases (beq u t && (state == started))) [
      | inl e ↦
          rw (e) (is_closed-run ch es (set_state u state m) (set_state-closes t u state ch m e p))
      | inr e ↦ rw (e) (is_closed-run_pending t ch es _ (set_state-IsPending t u state ch m e p))
    ]
is_closed-run_pending t ch (waits u desired ∷ es) m p =
    is_closed-run_pending t ch es _ (wait_for_state-IsPending t u desired ch m p)

make_chan-IsPending :
    (t : Bytes) (m : StateManager)
    → has t m.service_states ≡ true
    → IsConsistent m
    → IsPending t m.made (make_chan t m)
unfolding make_chan
make_chan-IsPending t m k c = record {
  known = k;
  registered = ground (arith, lookup-insert t t m.made m.wait_chans, beq_refl t);
  consistent = make_chan-IsConsistent t m c;
}

-- Joining gives a channel that is registered for the component.
join_chan-IsPending :
    (t : Bytes) (m : StateManager)
    → has t m.service_states ≡ true
    → IsConsistent m
    → (ch : ℕ) × ((join_chan t m).0 ≡ changes ch) × IsPending t ch (join_chan t m).1
unfolding join_chan
join_chan-IsPending t m k c = found (lookup t m.wait_chans) refl
  where
    found :
        (o : Option ℕ)
        → lookup t m.wait_chans ≡ o
        → let r = elim o as (λ _. Waiter × StateManager) [
          | none ↦ (changes m.made, make_chan t m)
          | some ch ↦ (changes ch, m)
        ] in
          (ch : ℕ) × (r.0 ≡ changes ch) × IsPending t ch r.1
    found none e = (m.made, refl, make_chan-IsPending t m k c)
    found (some ch) e = (ch, refl, record { known = k; registered = e; consistent = c })

-- Waiting for another state than the present one is joining.
wait_for_state_joins :
    (t : Bytes) (state desired : ℕ) (m : StateManager)
    → lookup t m.service_states ≡ some state
    → (state == desired) ≡ false
    → wait_for_state t desired m ≡ join_chan t m
unfolding wait_for_state compare_state
wait_for_state_joins t state desired m e other = rw (wait_for_state, e, compare_state, other) refl

-- A call that waits for a change goes on exactly if the component is started.
resume_pending :
    (t : Bytes) (desired ch : ℕ) (after : List Event) (w : Waiter × StateManager)
    → w.0 ≡ changes ch
    → IsPending t ch w.1
    → (resume t desired w.0 (run after w.1)).0 ≡ (if starts t after then ready else w.0)
unfolding resume
resume_pending t desired ch after w e p =
    rw (e, resume, is_closed-run_pending t ch after w.1 p) (ground arith)

-- After any calls on a new manager, a component is in another state than the one that a caller
-- waits for, and its time is not up. The channel of the waiting call lets it go on, and return nil,
-- exactly if the component is set to Started after that, whichever state was wanted: setting it to
-- any other state, also to the one that was wanted, does not. How the timeout ends the call is not
-- part of this.
pub wait_for_state-released :
    (before after : List Event) (t : Bytes) (state desired : ℕ)
    → lookup t (run before new_state_manager).service_states ≡ some state
    → (state == desired) ≡ false
    → let waiting = wait_for_state t desired (run before new_state_manager) in
      (resume t desired waiting.0 (run after waiting.1)).0
      ≡ (if starts t after then ready else waiting.0)
wait_for_state-released before after t state desired e other =
    let m = run before new_state_manager in
    let known : has t m.service_states ≡ true = rw (e) refl in
    let (ch, there, p) =
      join_chan-IsPending t m known
        (run-IsConsistent before new_state_manager new_state_manager-IsConsistent) in
    rw (wait_for_state_joins t state desired m e other)
      (resume_pending t desired ch after (join_chan t m) there p)
