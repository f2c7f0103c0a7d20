-- ===== src/Types/Block/Merkle.antt =====
-- The Merkle root of a block's transactions (pkg/types/block.go).
use peerdns.Prelude.{
  ℕ, zero, suc, ◌≤◌, ◌<◌, ◌≡◌, ◌≢◌, refl, ap, sym, ◌∙◌, ◌⊎◌, inl, inr, true, false, List, [], ◌∷◌,
  ◌++◌, arith, ltb, Bytes, beq, beq_iff, length, map, take, drop, take-append, drop-append,
  Bool-cases,
}
use peerdns.Types.Hash.{Hash, hash_size}
use peerdns.Types.Transaction.{Transaction}
use peerdns.Types.Block.{next_level, levels, root_of, compute_merkle_root}

-- Two inputs with one hash.
pub record Collision (sha256 : Bytes → Hash) : Type 0 where
  pub first : Bytes
  pub second : Bytes
  pub differ : first ≢ second
  pub same_hash : sha256 first ≡ sha256 second

abbrev pub AllHashes : List Bytes → Type 0
AllHashes [] = Unit
AllHashes (h ∷ hashes) = (length h ≡ hash_size) × AllHashes hashes

abbrev pub ids : List Transaction → List Bytes
ids = map (λ tx. tx.id)

module _ (sha256 : Bytes → Hash) (sized : (b : Bytes) → length (sha256 b) ≡ hash_size) where
  next_level-AllHashes : (hs : List Bytes) → AllHashes hs → AllHashes (next_level sha256 hs)
  unfolding next_level
  next_level-AllHashes [] a = tt
  next_level-AllHashes (x ∷ []) a = a
  next_level-AllHashes (x ∷ y ∷ rest) a = (sized (x ++ y), next_level-AllHashes rest a.1.1)

  -- The next level's length tells nothing but the length of this one.
  length-next_level :
      (hs ks : List Bytes)
      → length hs ≡ length ks
      → length (next_level sha256 hs) ≡ length (next_level sha256 ks)
  unfolding next_level
  length-next_level [] [] e = refl
  length-next_level [] (y ∷ ks) e = absurd (omega arith)
  length-next_level (x ∷ hs) [] e = absurd (omega arith)
  length-next_level (x ∷ []) (y ∷ []) e = refl
  length-next_level (x ∷ []) (y ∷ z ∷ ks) e = absurd (omega arith)
  length-next_level (x ∷ w ∷ hs) (y ∷ []) e = absurd (omega arith)
  length-next_level (x ∷ w ∷ hs) (y ∷ z ∷ ks) e =
      omega (arith, length-next_level hs ks (omega arith))

  length-next_level-le : (hs : List Bytes) → length (next_level sha256 hs) ≤ length hs
  unfolding next_level
  length-next_level-le [] = omega arith
  length-next_level-le (x ∷ []) = omega arith
  length-next_level-le (x ∷ y ∷ rest) = omega (arith, length-next_level-le rest)

  -- A round leaves fewer hashes, and some.
  length-next_level-between :
      (hs : List Bytes)
      → 2 ≤ length hs
      → (1 ≤ length (next_level sha256 hs)) × (length (next_level sha256 hs) < length hs)
  unfolding next_level
  length-next_level-between [] h = absurd (omega arith)
  length-next_level-between (x ∷ []) h = absurd (omega arith)
  length-next_level-between (x ∷ y ∷ rest) h =
      (omega arith, omega (arith, length-next_level-le rest))

  pairs_equal : (x y u v : Bytes) → length x ≡ length u → x ++ y ≡ u ++ v → (x ≡ u) × (y ≡ v)
  pairs_equal x y u v e p = (
    sym (take-append x y) ∙ ap (take (length x)) p ∙ rw e (take-append u v),
    sym (drop-append x y) ∙ ap (drop (length x)) p ∙ rw e (drop-append u v),
  )

  next_level-injective :
      (hs ks : List Bytes)
      → AllHashes hs
      → AllHashes ks
      → length hs ≡ length ks
      → next_level sha256 hs ≡ next_level sha256 ks
      → ((hs ≡ ks) ⊎ Collision sha256)
  unfolding next_level root_of
  next_level-injective [] [] a b e p = inl refl
  next_level-injective [] (y ∷ ks) a b e p = absurd (omega arith)
  next_level-injective (x ∷ hs) [] a b e p = absurd (omega arith)
  next_level-injective (x ∷ []) (y ∷ []) a b e p = inl p
  next_level-injective (x ∷ []) (y ∷ z ∷ ks) a b e p = absurd (omega arith)
  next_level-injective (x ∷ w ∷ hs) (y ∷ []) a b e p = absurd (omega arith)
  next_level-injective (x ∷ w ∷ hs) (y ∷ z ∷ ks) a b e p =
      elim (Bool-cases (beq (x ++ w) (y ++ z))) [
        | inr ne ↦ inr (record {
          first = x ++ w;
          second = y ++ z;
          differ = λ q. ground (arith, beq_iff (x ++ w) (y ++ z), q, ne);
          same_hash = ap root_of p;
        })
        | inl eq ↦ elim (next_level-injective hs ks a.1.1 b.1.1 (omega arith) (ap (drop 1) p)) [
          | inr c ↦ inr c
          | inl q ↦
              let (l, r) = pairs_equal x w y z (a.0 ∙ sym b.0) ((beq_iff (x ++ w) (y ++ z)).0 eq) in
              inl (rw (l, r, q) refl)
        ]
      ]

  -- From one hash or more, as many rounds as there are hashes, or one fewer, leave exactly one.
  pub length-levels :
      (fuel : ℕ) (hs : List Bytes)
      → 1 ≤ length hs
      → length hs ≤ suc fuel
      → length (levels sha256 fuel hs) ≡ 1
  unfolding levels
  length-levels zero hs h k = omega arith
  length-levels (suc fuel) hs h k = elim (Bool-cases (ltb 1 (length hs))) [
    | inl e ↦
        let (some_left, fewer) = length-next_level-between hs (ground (arith, e)) in
        rw e (length-levels fuel (next_level sha256 hs) some_left (omega (arith, fewer)))
    | inr e ↦ rw e (ground (arith, e))
  ]

  singletons :
      (hs ks : List Bytes) → length hs ≡ 1 → length ks ≡ 1 → root_of hs ≡ root_of ks → hs ≡ ks
  unfolding root_of
  singletons [] ks h k e = absurd (omega arith)
  singletons (x ∷ hs) [] h k e = absurd (omega arith)
  singletons (x ∷ []) (y ∷ []) h k e = ap (λ z. z ∷ []) e
  singletons (x ∷ []) (y ∷ z ∷ ks) h k e = absurd (omega arith)
  singletons (x ∷ w ∷ hs) (y ∷ ks) h k e = absurd (omega arith)

  levels-injective :
      (fuel : ℕ) (hs ks : List Bytes)
      → AllHashes hs
      → AllHashes ks
      → length hs ≡ length ks
      → 1 ≤ length hs
      → length hs ≤ suc fuel
      → root_of (levels sha256 fuel hs) ≡ root_of (levels sha256 fuel ks)
      → ((hs ≡ ks) ⊎ Collision sha256)
  unfolding levels
  levels-injective zero hs ks a b e h k p = inl (singletons hs ks (omega arith) (omega arith) p)
  levels-injective (suc fuel) hs ks a b e h k p = elim (Bool-cases (ltb 1 (length hs))) [
    | inr one ↦
        let one' : ltb 1 (length ks) ≡ false = rw (← e) one in
        inl (singletons hs ks (ground (arith, one)) (ground (arith, one)) (rw (one, one') at p))
    | inl more ↦
        let more' : ltb 1 (length ks) ≡ true = rw (← e) more in
        let (some_left, fewer) = length-next_level-between hs (ground (arith, more)) in
        elim (levels-injective fuel (next_level sha256 hs) (next_level sha256 ks)
          (next_level-AllHashes hs a) (next_level-AllHashes ks b) (length-next_level hs ks e)
          some_left (omega (arith, fewer)) (rw (more, more') at p)) [
            | inl q ↦ next_level-injective hs ks a b e q
            | inr c ↦ inr c
          ]
  ]

  ids-injective :
      (hs ks : List Bytes)
      → AllHashes hs
      → AllHashes ks
      → length hs ≡ length ks
      → root_of (levels sha256 (length hs) hs) ≡ root_of (levels sha256 (length ks) ks)
      → ((hs ≡ ks) ⊎ Collision sha256)
  ids-injective [] [] a b e p = inl refl
  ids-injective [] (y ∷ ks) a b e p = absurd (omega arith)
  ids-injective (x ∷ hs) ks a b e p =
      levels-injective (length (x ∷ hs)) (x ∷ hs) ks a b e (omega arith) (omega arith)
        (rw (← e) at p)

-- Two lists of as many transactions with one Merkle root have the same identifiers in the same
-- order, or the hash function has a collision. Identifiers and hashes have the fixed size.
pub compute_merkle_root-injective :
    (sha256 : Bytes → Hash) (txs us : List Transaction)
    → ((b : Bytes) → length (sha256 b) ≡ hash_size)
    → AllHashes (ids txs)
    → AllHashes (ids us)
    → length (ids txs) ≡ length (ids us)
    → compute_merkle_root sha256 txs ≡ compute_merkle_root sha256 us
    → (ids txs ≡ ids us) ⊎ Collision sha256
unfolding compute_merkle_root
compute_merkle_root-injective sha256 txs us sized a b e p =
    ids-injective sha256 sized (ids txs) (ids us) a b e p
