-- ===== src/Consensus/ValidatorSet/Election.antt =====
-- What `ElectLeader` of pkg/consensus/validator_set.go elects.
use peerdns.Prelude.{
  ◌≡◌, ◌≢◌, refl, ◌⊎◌, inl, inr, true, false, List, [], ◌∷◌, arith, beq_iff, beq_refl, ap,
}
use peerdns.Prelude.Map.{keys}
use peerdns.Packets.PeerId.{PeerId}
use peerdns.Consensus.ValidatorSet.{Score, ValidatorSet, best_of, elect_leader}

-- What the comparison of floats, NaN included, satisfies.
pub record IsStrict (f : Score) : Type 0 where
  pub irreflexive : (x : f.Float) → f.above x x ≡ false
  pub transitive : (x y z : f.Float) → f.above x y ≡ true → f.above y z ≡ true → f.above x z ≡ true

-- Nobody of the list scores above the mark.
abbrev pub NoneAbove : (f : Score) → (PeerId → f.Float) → f.Float → List PeerId → Type 0
NoneAbove f score mark [] = Unit
NoneAbove f score mark (id ∷ ids) = (f.above (score id) mark ≡ false) × NoneAbove f score mark ids

-- One of the list.
abbrev pub OneOf : PeerId → List PeerId → Type 0
OneOf a [] = ⊥
OneOf a (id ∷ ids) = (a ≡ id) ⊎ OneOf a ids

module _ (f : Score) (score : PeerId → f.Float) (t : IsStrict f) where
  -- The result of the loop: the old mark and leader if nobody is above it; else someone of the list
  -- whose score is the new mark. Nobody is above the new mark, and nor is what was below the old.
  best_of-cases :
      (ids : List PeerId) (mark : f.Float) (leader : PeerId)
      → ((best_of f score ids mark leader ≡ (mark, leader)) × NoneAbove f score mark ids)
        ⊎ (OneOf (best_of f score ids mark leader).1 ids
            × ((best_of f score ids mark leader).0 ≡ score (best_of f score ids mark leader).1)
            × (f.above (best_of f score ids mark leader).0 mark ≡ true)
            × NoneAbove f score (best_of f score ids mark leader).0 ids)
  unfolding best_of
  best_of-cases [] mark leader = inl (refl, tt)
  best_of-cases (id ∷ ids) mark leader =
      let new = best_of f score ids (score id) id in
      let old = best_of f score ids mark leader in
      ground (
        arith,
        best_of-cases ids (score id) id,
        best_of-cases ids mark leader,
        t.irreflexive (score id),
        t.transitive new.0 (score id) mark,
        t.transitive (score id) new.0 (score id),
        t.transitive (score id) old.0 mark,
      )

  elect_none :
      (vs : ValidatorSet)
      → (best_of f score (keys vs.validators) f.zero []).1 ≡ []
      → elect_leader f score vs ≡ vs
  unfolding elect_leader
  elect_none vs e = rw (e, beq_refl [])

  elect_one :
      (vs : ValidatorSet)
      → (best_of f score (keys vs.validators) f.zero []).1 ≢ []
      → elect_leader f score vs
        ≡ record vs { leader_id = (best_of f score (keys vs.validators) f.zero []).1 }
  unfolding elect_leader
  elect_one vs ne = ground (arith, beq_iff (best_of f score (keys vs.validators) f.zero []).1 [])

-- Where no identifier is empty, an election either finds no score above zero and changes nothing, or
-- the leader becomes a validator with a score above zero, above which nobody scores, and the
-- validators and the threshold stay. The comparison of scores is irreflexive and transitive.
pub elect_leader-best :
    (f : Score) (score : PeerId → f.Float) (vs : ValidatorSet)
    → IsStrict f
    → ¬ OneOf [] (keys vs.validators)
    → ((elect_leader f score vs ≡ vs) × NoneAbove f score f.zero (keys vs.validators))
      ⊎ (OneOf (elect_leader f score vs).leader_id (keys vs.validators)
          × (f.above (score (elect_leader f score vs).leader_id) f.zero ≡ true)
          × NoneAbove f score (score (elect_leader f score vs).leader_id) (keys vs.validators)
          × ((elect_leader f score vs).validators ≡ vs.validators)
          × ((elect_leader f score vs).quorum_threshold ≡ vs.quorum_threshold))
elect_leader-best f score vs t named =
    elim (best_of-cases f score t (keys vs.validators) f.zero []) [
      | inl (e, low) ↦ inl (elect_none f score t vs (ap (λ r. r.1) e), low)
      | inr (one, mark, high, low) ↦
          rw (elect_one f score t vs (λ e. named (rw e at one)))
            (inr (one, rw mark at high, rw mark at low, refl, refl))
    ]
