-- ===== src/Validator/Runs.antt =====
-- Histories of a consensus module (pkg/validator/consensus.go): rounds of its goroutines and calls
-- of its methods, in any order.
use peerdns.Prelude.{◌≡◌, ◌⊎◌, some, List, [], ◌∷◌, Bytes}
use peerdns.Packets.PeerId.{PeerId}
use peerdns.Packets.Consensus.{ConsensusPacket, deserialize}
use peerdns.Consensus.Effects.{ok, err, panic, M}
use peerdns.Consensus.ValidatorSet.{Score}
use peerdns.Validator.Module.{Env, ConsensusModule}
use peerdns.Validator.Handlers.{process_message, listen, elect, propose_next}

pub data Event : Type 1 where
  arrives : Bytes → Event
  processes : Event
  elects : (f : Score) → (PeerId → f.Float) → Event
  proposes : Bytes → Event

-- What an event brings, and what arrived among the events.
abbrev pub Carries : Event → ConsensusPacket → Type 0
Carries (arrives bytes) pkt = deserialize bytes ≡ some pkt
Carries processes pkt = ⊥
Carries (elects f score) pkt = ⊥
Carries (proposes block_data) pkt = ⊥

abbrev pub Arrived : List Event → ConsensusPacket → Type 0
Arrived [] pkt = ⊥
Arrived (e ∷ es) pkt = Carries e pkt ⊎ Arrived es pkt

module _ (env : Env) where
  unfoldable pub step : Event → M (ConsensusModule env.db.Contents) (Unit {0})
  step (arrives bytes) = listen env bytes
  step processes = process_message env
  step (elects f score) = elect env f score
  step (proposes block_data) = propose_next env block_data

  -- A panic ends the process.
  unfoldable pub run :
      List Event → ConsensusModule env.db.Contents → ConsensusModule env.db.Contents
  run [] n = n
  run (e ∷ es) n =
      let (r, n') = step e n in
      let rest = run es n' in elim r [ ok a ↦ rest | err x ↦ rest | panic ↦ n' ]
