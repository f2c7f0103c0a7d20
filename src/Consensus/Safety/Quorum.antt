-- ===== src/Consensus/Safety/Quorum.antt =====
-- What the quorum of pkg/consensus/validator_set.go gives the protocol: approvals are never more
-- than the validators, and two finalized blocks share approvers.
use peerdns.Prelude.{
  ℕ, ◌+◌, ◌-◌, ◌*◌, ◌/◌, ◌≡◌, ◌≤◌, ◌<◌, refl, Bool, true, false, Option, some, List, arith, Bytes,
  length, is_some, none, ap,
}
use peerdns.Prelude.Int.{ltb_ℤ, pos}
use peerdns.Prelude.Map.{lookup, has, length-le_of_keys}
use peerdns.Prelude.Map.Overlap.{common, length-common}
use peerdns.Packets.PeerId.{PeerId}
use peerdns.Consensus.ValidatorSet.{ValidatorSet, quorum_size, get_validator}
use peerdns.Consensus.State.{State, approvals_for, is_finalized}
use peerdns.Consensus.Node.{Env, new_protocol}
use peerdns.Consensus.Safety.{Verifies, IsTrusted, IsBacked}
use peerdns.Consensus.Safety.Runs.{Event, AllVotes, history, run-IsSafe, new_protocol-IsSafe}

pub some_of_has : {V : Type 0} (o : Option V) → is_some o ≡ true → (v : V) × (o ≡ some v)
some_of_has none e = cc
some_of_has (some v) e = (v, refl)

-- Who verifies is in the set.
Verifies-has :
    (vs : ValidatorSet) (id : PeerId) (h sig : Bytes)
    → Verifies vs id h sig
    → has id vs.validators ≡ true
unfolding get_validator
Verifies-has vs id h sig v = ap is_some v.member

module _ (vs : ValidatorSet) {quorum : ℕ} {S : Type 0} (cs : State S)
    (b : IsBacked vs quorum cs) where
  approver_has : (h id : Bytes) → has id (approvals_for h cs) ≡ true → has id vs.validators ≡ true
  approver_has h id e =
      let (sig, found) = some_of_has (lookup id (approvals_for h cs)) e in
      Verifies-has vs id h sig (b.verified h id sig found)

  -- A block's approvals are no more than the validators.
  pub approvals-le-validators : (h : Bytes) → length (approvals_for h cs) ≤ length vs.validators
  approvals-le-validators h =
      length-le_of_keys (approvals_for h cs) vs.validators (b.distinct h) (approver_has h)

  -- The approvers that two blocks share.
  pub shared_approvers :
      (h j : Bytes)
      → length (approvals_for h cs) + length (approvals_for j cs)
        ≤ length vs.validators + length (common (approvals_for h cs) (approvals_for j cs))
  shared_approvers h j =
      length-common (approvals_for h cs) (approvals_for j cs) vs.validators (b.distinct h)
        (b.distinct j) (approver_has h) (approver_has j)

two_quorums : (n : ℕ) → n < 3 * (2 * (2 * n / 3 + 1) - n)
two_quorums n = omega arith

default_quorum :
    (vs : ValidatorSet)
    → ltb_ℤ (pos 0) vs.quorum_threshold ≡ false
    → quorum_size vs ≡ 2 * length vs.validators / 3 + 1
unfolding quorum_size
default_quorum vs d = ground arith

-- With the default quorum, any two blocks that a node finalizes in one history without finalization
-- packets share approvers, and these are more than a third of all validators.
pub finalized_blocks_share :
    (env : Env) (vs : ValidatorSet) (contents : env.db.Contents) (network : Option PeerId)
    (finalizer : Bool) (events : List Event) (h j : Bytes)
    → IsTrusted vs
    → ltb_ℤ (pos 0) vs.quorum_threshold ≡ false
    → AllVotes events
    → is_finalized h (history env vs contents network finalizer events) ≡ true
    → is_finalized j (history env vs contents network finalizer events) ≡ true
    → let cs = history env vs contents network finalizer events in
      length vs.validators < 3 * length (common (approvals_for h cs) (approvals_for j cs))
finalized_blocks_share env vs contents network finalizer events h j t d v fh fj =
    let b =
      (run-IsSafe env vs (quorum_size vs) t events (new_protocol vs contents network finalizer) v
        (new_protocol-IsSafe vs contents network finalizer)).backed in
    omega (
      arith,
      default_quorum vs d,
      two_quorums (length vs.validators),
      b.quorate h fh,
      b.quorate j fj,
      shared_approvers vs _ b h j,
    )
