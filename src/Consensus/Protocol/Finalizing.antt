-- ===== src/Consensus/Protocol/Finalizing.antt =====
-- What `HandleFinalization` of pkg/consensus/protocol.go does with a packet: it asks for neither a
-- quorum nor a signature, and the finalizer reads the database after the mark was written there.
use peerdns.Prelude.{◌≡◌, true, false, some, ◌∷◌, arith, Bytes, codes, beq_refl, ◌∙◌}
use peerdns.Storage
use peerdns.Storage.{IsStore}
use peerdns.Packets.Consensus.{ConsensusPacket}
use peerdns.Consensus.Effects.{◌>>◌}
use peerdns.Consensus.Effects.Keeps.{Keeps, After, chain-Keeps, logged_keeps, if_keeps}
use peerdns.Consensus.State.{State, is_finalized, persist}
use peerdns.Consensus.State
use peerdns.Consensus.State.Approvals.{finalize_block-finalized}
use peerdns.Consensus.Node.{Env, Node, on_state, finalization_packet}
use peerdns.Consensus.Protocol.{broadcast_message, run_finalizer, handle_finalization}

module _ (env : Env) where
  open env use {db, broadcasts, finalizes}

  -- Calls that leave the state alone keep a block finalized.
  abbrev Finalized : Bytes → Node env.db.Contents → Type 0
  Finalized h n = is_finalized h n.state ≡ true

  broadcast_message-Finalized :
      (h : Bytes) (pkt : ConsensusPacket) → Keeps (Finalized h) (broadcast_message env pkt)
  unfolding broadcast_message
  broadcast_message-Finalized h pkt n p = record { holds = ground arith }

  run_finalizer-Finalized : (h j : Bytes) → Keeps (Finalized h) (run_finalizer env j)
  unfolding run_finalizer
  run_finalizer-Finalized h j n p = record { holds = ground arith }

  finalize_state :
      (h : Bytes) (n : Node env.db.Contents)
      → After (Finalized h) (on_state (State.finalize_block db h) n)
  finalize_state h n = record { holds = finalize_block-finalized db h h n.state ∙ rw (beq_refl h) }

-- Whatever the approvals, the sender and the signature, and whether or not the database takes the
-- mark: after the handler has run on a finalization packet, its block is finalized.
pub handle_finalization_unchecked :
    (env : Env) (pkt : ConsensusPacket) (n : Node env.db.Contents)
    → is_finalized pkt.block_hash (handle_finalization env pkt n).1.state ≡ true
unfolding handle_finalization
handle_finalization_unchecked env pkt n =
    (if_keeps (Finalized env h) (is_finalized h n.state) (λ e. record { holds = e })
      (λ _.
        logged_keeps (Finalized env h)
          (on_state (State.finalize_block env.db h)
            >> (run_finalizer env h >> broadcast_message env (finalization_packet h)))
          n
          (chain-Keeps (Finalized env h) (on_state (State.finalize_block env.db h)) _ n
            (finalize_state env h n)
            (λ n' p'.
              chain-Keeps (Finalized env h) (run_finalizer env h) _ n'
                (run_finalizer-Finalized env h h n' p')
                (broadcast_message-Finalized env h (finalization_packet h)))))).holds
  where
    h : Bytes
    h = pkt.block_hash

-- Where the database takes the mark, a node with a finalizer calls it on a finalization packet of a
-- block that is not finalized yet, and what it passes for the block's data is the text "finalized",
-- whatever data was stored for the block.
pub handle_finalization-finalizer_calls :
    (env : Env) (pkt : ConsensusPacket) (n : Node env.db.Contents) (contents : env.db.Contents)
    → IsStore env.db
    → n.has_finalizer ≡ true
    → is_finalized pkt.block_hash n.state ≡ false
    → env.db.put n.state.storage pkt.block_hash (codes "finalized") ≡ some contents
    → (handle_finalization env pkt n).1.finalizer_calls
      ≡ (pkt.block_hash, codes "finalized") ∷ n.finalizer_calls
unfolding handle_finalization run_finalizer broadcast_message State.finalize_block persist
    Storage.set Storage.get
handle_finalization-finalizer_calls env pkt n contents db on new put =
    ground (arith, db.get-put_self n.state.storage contents pkt.block_hash (codes "finalized") put)
