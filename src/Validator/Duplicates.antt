-- ===== src/Validator/Duplicates.antt =====
-- pkg/validator/consensus.go: a packet counts as processed under its validator and its block,
-- whatever its type is.
use peerdns.Prelude.{
  some, refl, beq_refl, ◌≡◌, not, ◌&&◌, ◌==◌, arith, Bool, true, false, List, [], ◌∷◌, Bytes, beq,
}
use peerdns.Prelude.Map.{lookup, has, insert, lookup-insert}
use peerdns.Signers.{SignerType}
use peerdns.Packets.PeerId.{packet_type_proposal, packet_type_approval, packet_type_finalization}
use peerdns.Packets.Consensus.{ConsensusPacket, serialize, deserialize}
use peerdns.Consensus.Effects.{Result, ok, err, panic, M, ◌>>◌}
use peerdns.Consensus.Effects.Keeps.{Keeps, kept, chain-Keeps, logged_keeps, if_keeps, option_keeps}
use peerdns.Consensus.ValidatorSet
use peerdns.Consensus.ValidatorSet.{ValidatorSet, Score, elect_leader}
use peerdns.Consensus.State.{State, is_finalized}
use peerdns.Consensus.State
use peerdns.Validator.Module.{Env, ConsensusModule, on_state, msg_id}
use peerdns.Validator.Verifying.{verify_signature}
use peerdns.Validator.Handlers.{
  signed, broadcast_message, send_proposal, propose_block, send_approval, approve_proposal,
  send_finalization, finalize_block, approve_if_validator, handle_proposal, check_quorum,
  handle_approval, handle_finalization, handle_message, process_from, process_message, enqueue,
  admit, listen, elect, propose_next,
}
use peerdns.Validator.Runs.{Event, arrives, processes, elects, proposes, step, run}

module _ (env : Env) (key : Bytes) where
  open env use {db}

  -- The packets under this key were processed.
  abbrev P : ConsensusModule env.db.Contents → Type 0
  P n = has key n.processed_msgs ≡ true

  on_state-Keeps : (m : M (State env.db.Contents) (Unit {0})) → Keeps P (on_state m)
  on_state-Keeps m n p = record { holds = p }

  broadcast_message-Keeps : (pkt : ConsensusPacket) → Keeps P (broadcast_message env pkt)
  unfolding broadcast_message
  broadcast_message-Keeps pkt n p =
      if_keeps P (env.publishes (serialize pkt)) (λ _. record { holds = p }) (λ _. kept P p)

  signed-Keeps :
      (t : SignerType) (d : Bytes) (k : Bytes → M (ConsensusModule env.db.Contents) (Unit {0}))
      → ((sig : Bytes) → Keeps P (k sig))
      → Keeps P (signed env t d k)
  unfolding signed
  signed-Keeps t d k h n p =
      option_keeps P (lookup t n.identity.signers) (kept P p)
        (λ s _. option_keeps P (s.sign d) (kept P p) (λ sig _. h sig n p))

  -- A broadcast and a call on the state.
  send-Keeps :
      (pkt : ConsensusPacket) (m : M (State env.db.Contents) (Unit {0}))
      → Keeps P (broadcast_message env pkt >> on_state m)
  send-Keeps pkt m n p =
      chain-Keeps P (broadcast_message env pkt) (on_state m) n (broadcast_message-Keeps pkt n p)
        (on_state-Keeps m)

  send_proposal-Keeps : (pkt : ConsensusPacket) → Keeps P (send_proposal env pkt)
  unfolding send_proposal
  send_proposal-Keeps pkt = send-Keeps pkt (State.add_proposal db pkt)

  send_approval-Keeps : (pkt : ConsensusPacket) → Keeps P (send_approval env pkt)
  unfolding send_approval
  send_approval-Keeps pkt = send-Keeps pkt (State.add_approval db pkt)

  send_finalization-Keeps : (pkt : ConsensusPacket) → Keeps P (send_finalization env pkt)
  unfolding send_finalization
  send_finalization-Keeps pkt = send-Keeps pkt (State.finalize_block db pkt.block_hash)

  propose_next-Keeps : (block_data : Bytes) → Keeps P (propose_next env block_data)
  unfolding propose_next propose_block
  propose_next-Keeps block_data n p =
      if_keeps P (n.proposers == 0) (λ _. kept P p)
        (λ _.
          logged_keeps P (propose_block env block_data) n
            (signed-Keeps _ _ _ (λ sig. send_proposal-Keeps _) n p))

  approve_if_validator-Keeps : (block_hash : Bytes) → Keeps P (approve_if_validator env block_hash)
  unfolding approve_if_validator approve_proposal
  approve_if_validator-Keeps block_hash n p =
      if_keeps P (ValidatorSet.is_validator n.identity.peer_id n.validator_set)
        (λ _.
          logged_keeps P (approve_proposal env block_hash) n
            (signed-Keeps _ _ _ (λ sig. send_approval-Keeps _) n p))
        (λ _. kept P p)

  handle_proposal-Keeps : (pkt : ConsensusPacket) → Keeps P (handle_proposal env pkt)
  unfolding handle_proposal
  handle_proposal-Keeps pkt n p =
      if_keeps P (beq pkt.proposer_id n.current_leader)
        (λ _.
          logged_keeps P
            (on_state (State.add_proposal db pkt) >> approve_if_validator env pkt.block_hash) n
            (chain-Keeps P (on_state (State.add_proposal db pkt)) _ n
              (on_state-Keeps (State.add_proposal db pkt) n p)
              (approve_if_validator-Keeps pkt.block_hash)))
        (λ _. kept P p)

  check_quorum-Keeps : (block_hash : Bytes) → Keeps P (check_quorum env block_hash)
  unfolding check_quorum finalize_block
  check_quorum-Keeps block_hash n p =
      if_keeps P
        (beq n.identity.peer_id n.current_leader
          && (State.has_reached_quorum block_hash (ValidatorSet.quorum_size n.validator_set) n.state
              && not (is_finalized block_hash n.state)))
        (λ _.
          logged_keeps P (finalize_block env block_hash) n
            (signed-Keeps _ _ _ (λ sig. send_finalization-Keeps _) n p))
        (λ _. kept P p)

  handle_message-Keeps : (pkt : ConsensusPacket) → Keeps P (handle_message env pkt)
  unfolding handle_message handle_approval handle_finalization
  handle_message-Keeps pkt n p =
      if_keeps P (pkt.packet_type == packet_type_proposal) (λ _. handle_proposal-Keeps pkt n p)
        (λ _.
          if_keeps P (pkt.packet_type == packet_type_approval)
            (λ _.
              logged_keeps P
                (on_state (State.add_approval db pkt) >> check_quorum env pkt.block_hash) n
                (chain-Keeps P (on_state (State.add_approval db pkt)) _ n
                  (on_state-Keeps (State.add_approval db pkt) n p)
                  (check_quorum-Keeps pkt.block_hash)))
            (λ _.
              if_keeps P (pkt.packet_type == packet_type_finalization)
                (λ _.
                  logged_keeps P (on_state (State.finalize_block db pkt.block_hash)) n
                    (on_state-Keeps (State.finalize_block db pkt.block_hash) n p))
                (λ _. kept P p)))

  process_from-Keeps : (pkts : List ConsensusPacket) → Keeps P (process_from env pkts)
  unfolding process_from
  process_from-Keeps [] n p = kept P p
  process_from-Keeps (pkt ∷ rest) n p =
      handle_message-Keeps pkt (record n { message_chan = rest }) p

  has-insert :
      (k : Bytes) (n : ConsensusModule env.db.Contents)
      → P n
      → has key (insert k true n.processed_msgs) ≡ true
  has-insert k n p = ground (arith, lookup-insert k key true n.processed_msgs)

  admit-Keeps : (pkt : ConsensusPacket) (r : Result Bool) → Keeps P (admit env pkt r)
  unfolding admit enqueue
  admit-Keeps pkt (ok true) n p =
      if_keeps P (has (msg_id env.peer_string pkt) n.processed_msgs) (λ _. kept P p)
        (λ _. record { holds = has-insert (msg_id env.peer_string pkt) n p })
  admit-Keeps pkt (ok false) n p = kept P p
  admit-Keeps pkt (err x) n p = kept P p
  admit-Keeps pkt panic n p = kept P p

  step-Keeps : (e : Event) → Keeps P (step env e)
  unfolding step process_message listen elect
  step-Keeps (arrives bytes) n p =
      option_keeps P (deserialize bytes) (kept P p)
        (λ pkt _. admit-Keeps pkt (verify_signature pkt n.validator_set) n p)
  step-Keeps processes n p = process_from-Keeps n.message_chan n p
  step-Keeps (elects f score) n p =
      option_keeps P (ValidatorSet.current_leader (elect_leader f score n.validator_set)) (kept P p)
        (λ leader _. kept P p)
  step-Keeps (proposes block_data) n p = propose_next-Keeps block_data n p

  after_step :
      (r : Result (Unit {0})) (es : List Event) (n : ConsensusModule env.db.Contents)
      → P n
      → P (run env es n)
      → P (elim r as (λ _. ConsensusModule env.db.Contents) [
        | ok a ↦ run env es n
        | err x ↦ run env es n
        | panic ↦ n
      ])
  after_step (ok a) es n p q = q
  after_step (err x) es n p q = q
  after_step panic es n p q = p

  pub run-processed :
      (es : List Event) (n : ConsensusModule env.db.Contents) → P n → P (run env es n)
  unfolding run
  run-processed [] n p = p
  run-processed (e ∷ es) n p =
      let p' = (step-Keeps e n p).holds in
      after_step (step env e n).0 es (step env e n).1 p' (run-processed es (step env e n).1 p')

-- How the listener's round ends with a packet that counts as processed: by the verdict on its
-- signature, of which only a panic stops the listener.
abbrev pub dropped : Result Bool → Result (Unit {0})
dropped (ok b) = ok tt
dropped (err x) = ok tt
dropped panic = panic

module _ (env : Env) where
  -- A packet whose signature verifies counts as processed from then on.
  admit_marks :
      (pkt : ConsensusPacket) (n : ConsensusModule env.db.Contents)
      → has (msg_id env.peer_string pkt) (admit env pkt (ok true) n).1.processed_msgs ≡ true
  unfolding admit enqueue
  admit_marks pkt n =
      let k = msg_id env.peer_string pkt in
      ground (arith, lookup-insert k k true n.processed_msgs, beq_refl k)

  -- What counts as processed is dropped, or crashes the listener; the module stays the same.
  admit_processed :
      (pkt : ConsensusPacket) (r : Result Bool) (n : ConsensusModule env.db.Contents)
      → has (msg_id env.peer_string pkt) n.processed_msgs ≡ true
      → admit env pkt r n ≡ (dropped r, n)
  unfolding admit enqueue
  admit_processed pkt (ok true) n e = rw (e) refl
  admit_processed pkt (ok false) n e = refl
  admit_processed pkt (err x) n e = refl
  admit_processed pkt panic n e = refl

  -- What the listener does with data that is a packet.
  listen_packet :
      (n : ConsensusModule env.db.Contents) (bytes : Bytes) (pkt : ConsensusPacket)
      → deserialize bytes ≡ some pkt
      → listen env bytes n ≡ admit env pkt (verify_signature pkt n.validator_set) n
  unfolding listen
  listen_packet n bytes pkt d = rw (listen, d) refl

  -- A packet has arrived whose signature verifies. After any further rounds, another packet of the
  -- same validator for the same block, whatever its type is, leaves the module as it is: an
  -- approval makes the module ignore the finalization of the block by the same validator. The round
  -- of the listener returns nil, except where verifying the other packet panics, as where it names
  -- a scheme that its validator lacks: then the round panics.
  pub listen_again :
      (n : ConsensusModule env.db.Contents) (es : List Event) (bytes1 bytes2 : Bytes)
      (p1 p2 : ConsensusPacket)
      → deserialize bytes1 ≡ some p1
      → deserialize bytes2 ≡ some p2
      → verify_signature p1 n.validator_set ≡ ok true
      → p1.validator_id ≡ p2.validator_id
      → p1.block_hash ≡ p2.block_hash
      → let later = run env es (listen env bytes1 n).1 in
        listen env bytes2 later ≡ (dropped (verify_signature p2 later.validator_set), later)
  unfolding msg_id
  listen_again n es bytes1 bytes2 p1 p2 d1 d2 v i h =
      let marked = admit_marks p1 n in
      let same : msg_id env.peer_string p1 ≡ msg_id env.peer_string p2 = rw (i, h) refl in
      let kept' =
        run-processed env (msg_id env.peer_string p2) es (admit env p1 (ok true) n).1
          (rw same at marked) in
      rw (listen_packet n bytes1 p1 d1, v, listen_packet _ bytes2 p2 d2)
        (admit_processed p2 (verify_signature p2 _) _ kept')
