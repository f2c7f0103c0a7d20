-- ===== src/Consensus/ValidatorSet.antt =====
-- pkg/consensus/validator.go and validator_set.go: the validators, the leader and the quorum.
-- Counts of validators stay far below the range of an int.
pub mod Election
use peerdns.Prelude.{
  ℕ, ◌+◌, ◌*◌, ◌/◌, Bool, true, false, Option, List, [], ◌∷◌, if◌then◌else◌, beq, length,
}
use peerdns.Prelude.Int.{ℤ, pos, ltb_ℤ, pos_part}
use peerdns.Prelude.Map.{Map, lookup, has, insert, delete, keys, values}
use peerdns.Signers.{Signer, SignerType}
use peerdns.Packets.PeerId.{PeerId}

-- What the protocol reads of an accounts.Account.
pub record Account : Type 0 where
  pub peer_id : PeerId
  pub signers : Map Signer

pub record Validator : Type 0 where
  pub account : Account

-- `Validator.PeerID`
abbrev pub peer_id : Validator → PeerId
peer_id v = v.account.peer_id

-- `Validator.Signer`; `none` is the nil interface.
unfoldable pub signer : Validator → SignerType → Option Signer
signer v t = lookup t v.account.signers

pub record ValidatorSet : Type 0 where
  pub validators : Map Validator
  pub leader_id : PeerId
  pub quorum_threshold : ℤ

unfoldable pub new_validator_set : ValidatorSet
new_validator_set = record { validators = []; leader_id = []; quorum_threshold = pos 0 }

unfoldable pub add_validator : Account → ValidatorSet → ValidatorSet
add_validator account vs = record vs {
  validators = insert account.peer_id (record { account = account }) vs.validators;
}

unfoldable pub remove_validator : PeerId → ValidatorSet → ValidatorSet
remove_validator id vs = record vs { validators = delete id vs.validators }

unfoldable pub get_validator : PeerId → ValidatorSet → Option Validator
get_validator id vs = lookup id vs.validators

unfoldable pub get_all_validators : ValidatorSet → List Validator
get_all_validators vs = values vs.validators

unfoldable pub get_validator_ids : ValidatorSet → List PeerId
get_validator_ids vs = keys vs.validators

-- A float64 with its comparison `a > b`, and the positive zero.
pub record Score : Type 1 where
  pub Float : Type 0
  pub zero : Float
  pub above : Float → Float → Bool

-- The loop of `ElectLeader`: the highest score so far and whose it is.
unfoldable pub best_of :
    (f : Score) → (PeerId → f.Float) → List PeerId → f.Float → PeerId → f.Float × PeerId
best_of f score [] highest leader = (highest, leader)
best_of f score (id ∷ ids) highest leader = elim (f.above (score id) highest) [
  | true ↦ best_of f score ids (score id) id
  | false ↦ best_of f score ids highest leader
]

-- `ElectLeader`; the collector's utility score of a peer is a parameter.
unfoldable pub elect_leader : (f : Score) → (PeerId → f.Float) → ValidatorSet → ValidatorSet
elect_leader f score vs =
    let (highest, leader) = best_of f score (keys vs.validators) f.zero [] in
    if beq leader [] then vs else record vs { leader_id = leader }

unfoldable pub current_leader : ValidatorSet → Option Validator
current_leader vs = lookup vs.leader_id vs.validators

unfoldable pub is_leader : PeerId → ValidatorSet → Bool
is_leader id vs = beq vs.leader_id id

unfoldable pub quorum_size : ValidatorSet → ℕ
quorum_size vs =
    if ltb_ℤ (pos 0) vs.quorum_threshold
    then pos_part vs.quorum_threshold
    else (2 * length vs.validators) / 3 + 1

unfoldable pub set_quorum_threshold : ℤ → ValidatorSet → ValidatorSet
set_quorum_threshold threshold vs = record vs { quorum_threshold = threshold }

unfoldable pub is_validator : PeerId → ValidatorSet → Bool
is_validator id vs = has id vs.validators

unfoldable pub set_leader : PeerId → ValidatorSet → ValidatorSet
set_leader id vs = if has id vs.validators then record vs { leader_id = id } else vs
