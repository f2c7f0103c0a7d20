-- ===== src/Consensus/Safety.antt =====
-- The safety invariant of a node (pkg/consensus/protocol.go and state.go): approvals are those of
-- distinct validators whose signatures verify, and a finalized block has a quorum of them.
pub mod Steps
pub mod Calls
pub mod Handlers
pub mod Runs
pub mod Quorum
use peerdns.Prelude.{ℕ, ◌≡◌, ◌≤◌, true, some, Bytes, length}
use peerdns.Prelude.Map.{lookup, Distinct}
use peerdns.Signers.{Signer, IsSound, bls_signer_type}
use peerdns.Packets.PeerId.{PeerId}
use peerdns.Consensus.ValidatorSet.{ValidatorSet, Validator, peer_id, signer, get_validator}
use peerdns.Consensus.State.{State, approvals_for, is_finalized}
use peerdns.Consensus.Node.{Node}

-- A validator of the set whose BLS signer verifies the signature on the block hash.
pub record Verifies (vs : ValidatorSet) (id : PeerId) (block_hash signature : Bytes) : Type 0 where
  pub validator : Validator
  pub bls : Signer
  pub member : get_validator id vs ≡ some validator
  pub signs : signer validator bls_signer_type ≡ some bls
  pub verified : bls.verify block_hash signature ≡ true

-- Each validator stands under its own identifier, and its signer verifies what it signs.
pub record IsTrusted (vs : ValidatorSet) : Type 0 where
  pub keyed : (id : PeerId) (w : Validator) → get_validator id vs ≡ some w → peer_id w ≡ id
  pub sound :
      (id : PeerId) (w : Validator) (s : Signer)
      → get_validator id vs ≡ some w
      → signer w bls_signer_type ≡ some s
      → IsSound s

-- The state's part of the invariant, for a set of validators and a quorum.
pub record IsBacked {S : Type 0} (vs : ValidatorSet) (quorum : ℕ) (cs : State S) : Type 0 where
  pub distinct : (h : Bytes) → Distinct (approvals_for h cs)
  pub verified :
      (h : Bytes) (id : PeerId) (sig : Bytes)
      → lookup id (approvals_for h cs) ≡ some sig
      → Verifies vs id h sig
  pub quorate : (h : Bytes) → is_finalized h cs ≡ true → quorum ≤ length (approvals_for h cs)

pub record IsSafe {S : Type 0} (vs : ValidatorSet) (quorum : ℕ) (n : Node S) : Type 0 where
  pub same_validators : n.validators ≡ vs
  pub same_quorum : n.quorum_threshold ≡ quorum
  pub backed : IsBacked vs quorum n.state
