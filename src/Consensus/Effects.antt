-- ===== src/Consensus/Effects.antt =====
-- Errors and state of the protocol's methods: a call ends with a value, with an error, or in a
-- panic (a method call on a nil interface), and the changes made before an error stay.
pub mod Keeps
use peerdns.Prelude.{Bool, true, false}

-- pkg/consensus/errors.go, and the errors that protocol.go and state.go make by fmt.Errorf.
pub data Error : Type 0 where
  not_leader quorum_not_reached storage_failure : Error
  invalid_packet_type signer_not_found sign_failed : Error
  approver_not_found broadcast_failed finalizer_failed : Error

pub data Result {ℓ} (A : Type ℓ) : Type ℓ where
  ok : A → Result A
  err : Error → Result A
  panic : Result A

abbrev pub M {ℓ κ} : Type ℓ → Type κ → Type (ℓ ⊔ κ)
M S A = S → Result A × S

infixl 5 ◌>>=◌ ◌>>◌
abbrev pub ◌>>=◌ {ℓ κ μ} : {S : Type ℓ} {A : Type κ} {B : Type μ} → M S A → (A → M S B) → M S B
◌>>=◌ m f s =
    let (r, s') = m s in elim r [ ok a ↦ f a s' | err e ↦ (err e, s') | panic ↦ (panic, s') ]

abbrev pub ◌>>◌ {ℓ κ} : {S : Type ℓ} {B : Type κ} → M S (Unit {0}) → M S B → M S B
m >> k = m >>= λ _. k

abbrev pub pure {ℓ κ} : {S : Type ℓ} {A : Type κ} → A → M S A
pure a s = (ok a, s)

abbrev pub fail {ℓ κ} : {S : Type ℓ} {A : Type κ} → Error → M S A
fail e s = (err e, s)

abbrev pub crash {ℓ κ} : {S : Type ℓ} {A : Type κ} → M S A
crash s = (panic, s)

-- The caller logs the error and goes on.
abbrev pub logged {ℓ} : {S : Type ℓ} → M S (Unit {0}) → M S (Unit {0})
logged m s =
    let (r, s') = m s in elim r [ ok a ↦ (ok tt, s') | err e ↦ (ok tt, s') | panic ↦ (panic, s') ]
