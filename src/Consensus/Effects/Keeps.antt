-- ===== src/Consensus/Effects/Keeps.antt =====
-- Predicates on the state that a call keeps, however it ends.
use peerdns.Prelude.{◌≡◌, refl, Bool, true, false, Option, none, some, if◌then◌else◌}
use peerdns.Consensus.Effects.{Result, ok, err, panic, M, ◌>>◌, logged}

-- The state after a call. It is a record so that a goal shows the whole call.
pub record After {ℓ κ} {S : Type ℓ} (P : S → Type κ) (r : Result (Unit {0}) × S) : Type κ where
  pub holds : P r.1

module _ {ℓ κ} {S : Type ℓ} (P : S → Type κ) where
  abbrev pub Keeps : M S (Unit {0}) → Type (ℓ ⊔ κ)
  Keeps m = (s : S) → P s → After P (m s)

  pub kept : {r : Result (Unit {0})} {s : S} → P s → After P (r, s)
  kept p = record { holds = p }

  After-ok :
      (r : Result (Unit {0})) (s : S) (k : M S (Unit {0}))
      → P s
      → Keeps k
      → After P (◌>>◌ (λ _. (r, s)) k s)
  After-ok (ok a) s k p h = h s p
  After-ok (err e) s k p h = record { holds = p }
  After-ok panic s k p h = record { holds = p }

  -- A chain from one state, where the first call keeps the predicate there.
  pub chain-Keeps : (m k : M S (Unit {0})) (s : S) → After P (m s) → Keeps k → After P ((m >> k) s)
  chain-Keeps m k s p h = After-ok (m s).0 (m s).1 k p.holds h

  After-logged : (r : Result (Unit {0})) (s : S) → P s → After P (logged (λ _. (r, s)) s)
  After-logged (ok a) s p = record { holds = p }
  After-logged (err e) s p = record { holds = p }
  After-logged panic s p = record { holds = p }

  pub logged_keeps : (m : M S (Unit {0})) (s : S) → After P (m s) → After P (logged m s)
  logged_keeps m s p = After-logged (m s).0 (m s).1 p.holds

  pub if_keeps :
      (b : Bool) {x y : Result (Unit {0}) × S}
      → (b ≡ true → After P x)
      → (b ≡ false → After P y)
      → After P (if b then x else y)
  if_keeps true p q = p refl
  if_keeps false p q = q refl

  pub Keeps-if : (b : Bool) {m k : M S (Unit {0})} → Keeps m → Keeps k → Keeps (if b then m else k)
  Keeps-if true p q = p
  Keeps-if false p q = q

  pub option_keeps {μ} :
      {B : Type μ} (o : Option B) {x : Result (Unit {0}) × S} {f : B → Result (Unit {0}) × S}
      → After P x
      → ((b : B) → o ≡ some b → After P (f b))
      → After P (elim o as (λ _. Result (Unit {0}) × S) [ none ↦ x | some b ↦ f b ])
  option_keeps none p q = p
  option_keeps (some b) p q = q b refl
