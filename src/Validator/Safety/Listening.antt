-- ===== src/Validator/Safety/Listening.antt =====
-- The listener and the elections of pkg/validator/consensus.go keep the safety invariant.
use peerdns.Prelude.{
  ◌≡◌, refl, ◌∙◌, arith, Bool, true, false, Option, none, some, List, [], ◌∷◌, ◌++◌, Bytes,
}
use peerdns.Prelude.Map.{has}
use peerdns.Signers.{Signer}
use peerdns.Packets.PeerId.{PeerId}
use peerdns.Packets.Consensus.{ConsensusPacket, deserialize}
use peerdns.Consensus.Effects.{
  Result, Error, invalid_packet_type, approver_not_found, ok, err, panic,
}
use peerdns.Consensus.Effects.Keeps.{Keeps, After, kept, if_keeps, option_keeps}
use peerdns.Consensus.ValidatorSet
use peerdns.Consensus.ValidatorSet.{
  ValidatorSet, Validator, Account, Score, quorum_size, get_validator, signer, elect_leader,
  best_of,
}
use peerdns.Validator.Module.{Env, ConsensusModule, msg_id}
use peerdns.Validator.Verifying.{data_to_verify, signer_id, verify_with, verify_signature}
use peerdns.Validator.Handlers.{enqueue, admit, listen, elect}
use peerdns.Validator.Safety.{IsAuthentic, AllAuthentic, IsSafe}

-- Where a chain of lookups ends with a positive verdict, each was found.
found_and {ℓ} :
    {A : Type ℓ} (o : Option A) (x : Error) (f : A → Result Bool)
    → (elim o as (λ _. Result Bool) [ none ↦ err x | some a ↦ f a ]) ≡ ok true
    → (a : A) × (o ≡ some a) × (f a ≡ ok true)
found_and none x f e = cc
found_and (some a) x f e = (a, refl, e)

verify_with-ok :
    (data_bytes signature : Bytes) (o : Option Signer)
    → verify_with data_bytes signature o ≡ ok true
    → (s : Signer) × (o ≡ some s) × (s.verify data_bytes signature ≡ true)
unfolding verify_with
verify_with-ok data_bytes signature none e = cc
verify_with-ok data_bytes signature (some s) e = (s, refl, cc)

AllAuthentic-append :
    (vs : ValidatorSet) (A : ConsensusPacket → Type 0) (pkts : List ConsensusPacket)
    (pkt : ConsensusPacket)
    → AllAuthentic vs A pkts
    → IsAuthentic vs A pkt
    → AllAuthentic vs A (pkts ++ pkt ∷ [])
AllAuthentic-append vs A [] pkt q a = (a, tt)
AllAuthentic-append vs A (p ∷ pkts) pkt q a = (q.0, AllAuthentic-append vs A pkts pkt q.1 a)

module _ (env : Env) (identity : Account) (vs : ValidatorSet) (A : ConsensusPacket → Type 0) where
  -- The invariant of the modules of this section.
  abbrev P : ConsensusModule env.db.Contents → Type 0
  P = IsSafe identity vs A

  enqueue_keeps :
      (pkt : ConsensusPacket) (n : ConsensusModule env.db.Contents)
      → P n
      → IsAuthentic vs A pkt
      → After P (enqueue env pkt n)
  unfolding enqueue
  enqueue_keeps pkt n p a =
      if_keeps P (has (msg_id env.peer_string pkt) n.processed_msgs) (λ _. kept P p)
        (λ _. record {
          holds = record {
            same_identity = p.same_identity;
            same_validators = p.same_validators;
            same_threshold = p.same_threshold;
            queued = AllAuthentic-append vs A n.message_chan pkt p.queued a;
            backed = p.backed;
          };
        })

  -- A packet whose signature verifies is authentic.
  verify_signature-IsAuthentic :
      (pkt : ConsensusPacket) (n : ConsensusModule env.db.Contents)
      → P n
      → A pkt
      → verify_signature pkt n.validator_set ≡ ok true
      → IsAuthentic vs A pkt
  unfolding verify_signature verify_with get_validator
  verify_signature-IsAuthentic pkt n p heard e =
      let (data_bytes, covers, e1) = found_and (data_to_verify pkt) invalid_packet_type _ e in
      let (v, member, e2) =
        found_and (get_validator (signer_id pkt) n.validator_set) approver_not_found _ e1 in
      let (s, signs, verified) = verify_with-ok data_bytes pkt.signature (signer v pkt.signer) e2 in
      record {
        arrived = heard;
        data_bytes = data_bytes;
        covers = covers;
        signed = record {
          validator = v;
          scheme_type = pkt.signer;
          scheme = s;
          member = rw p.same_validators at member;
          signs = signs;
          verified = verified;
        };
      }

  admit_keeps :
      (pkt : ConsensusPacket) (r : Result Bool) (n : ConsensusModule env.db.Contents)
      → P n
      → A pkt
      → verify_signature pkt n.validator_set ≡ r
      → After P (admit env pkt r n)
  unfolding admit
  admit_keeps pkt (ok true) n p heard e =
      enqueue_keeps pkt n p (verify_signature-IsAuthentic pkt n p heard e)
  admit_keeps pkt (ok false) n p heard e = kept P p
  admit_keeps pkt (err x) n p heard e = kept P p
  admit_keeps pkt panic n p heard e = kept P p

  pub listen-Keeps :
      (bytes : Bytes)
      → ((pkt : ConsensusPacket) → deserialize bytes ≡ some pkt → A pkt)
      → Keeps P (listen env bytes)
  unfolding listen
  listen-Keeps bytes heard n p =
      option_keeps P (deserialize bytes) (kept P p)
        (λ pkt e. admit_keeps pkt (verify_signature pkt n.validator_set) n p (heard pkt e) refl)

  elect_leader_same :
      (f : Score) (score : PeerId → f.Float) (w : ValidatorSet)
      → ((elect_leader f score w).validators ≡ w.validators)
        × ((elect_leader f score w).quorum_threshold ≡ w.quorum_threshold)
  unfolding elect_leader
  elect_leader_same f score w = ground arith

  pub elect-Keeps : (f : Score) (score : PeerId → f.Float) → Keeps P (elect env f score)
  unfolding elect
  elect-Keeps f score n p =
      let w = elect_leader f score n.validator_set in
      let same = elect_leader_same f score n.validator_set in
      option_keeps P (ValidatorSet.current_leader w)
        (kept P (record {
          same_identity = p.same_identity;
          same_validators = same.0 ∙ p.same_validators;
          same_threshold = same.1 ∙ p.same_threshold;
          queued = p.queued;
          backed = p.backed;
        }))
        (λ leader e. kept P (record {
          same_identity = p.same_identity;
          same_validators = same.0 ∙ p.same_validators;
          same_threshold = same.1 ∙ p.same_threshold;
          queued = p.queued;
          backed = p.backed;
        }))
