-- ===== src/Sequencer/Blocked.antt =====
-- Transactions that keep the producer from forging any block (pkg/sequencer/producer.go and
-- sequencer.go).
use mathlib.Core.Path.{subst}
use mathlib.Core.List.{Memᴰ}
use mathlib.Core.List.Memᴰ
use peerdns.Prelude.{
  ◌≤◌, length, ◌+◌, ◌%◌, ◌^◌, ◌<◌, ◌≡◌, ◌≢◌, inl, inr, refl, sym, ap, ◌∙◌, true, false, Option,
  none, some, List, [], ◌∷◌, arith, Bytes, is_some, Option-cases,
}
use peerdns.Prelude.Int.{ℤ}
use peerdns.Prelude.Map.{Map, lookup}
use peerdns.Types.Hash.{Hash}
use peerdns.Types.Transaction.{Transaction}
use peerdns.Types.Block.{Block}
use peerdns.Ledger.State.{State, get_nonce}
use peerdns.Ledger.Graph.{Graph}
use peerdns.Ledger.Blocks.{get_latest_block}
use peerdns.Ledger.Validation.{validate_transaction, validate_transactions}
use peerdns.Ledger.Validation.Transactions.{validate_transaction_iff}
use peerdns.Chain.{validate_block, add_block, invalid}
use peerdns.Chain.Refusal.{validate_block-Sound}
use peerdns.Sequencer.States.{started}
use peerdns.Sequencer.{
  BlockProducer, ForgeError, assemble, pulled, submit, forge_from, forge_pulled, forge_block,
  Sequencer, tick, set_producer_state, set_sequencer_state,
}
use peerdns.Sequencer.Pulled.{Reordered, pulled-all}
use peerdns.Sequencer.Forging.{assemble-IsMade, made-not_genesis}

-- Each transaction of a list that passes, passes.
validate_transactions-each :
    (txs : List Transaction) (s : State) (tx : Transaction)
    → validate_transactions txs false s ≡ none
    → Memᴰ tx txs
    → validate_transaction tx false s ≡ none
unfolding validate_transactions
validate_transactions-each [] s tx h m = absurd (Memᴰ.not-nil m)
validate_transactions-each (x ∷ xs) s tx h m =
    let first : validate_transaction x false s ≡ none = ground (arith, h) in
    elim (Memᴰ.cases_cons m) [
      | inl e ↦ ap (λ t. validate_transaction t false s) e ∙ first
      | inr later ↦ validate_transactions-each xs s tx (ground (arith, h, first)) later
    ]

-- Two transactions of one sender pass together only with the same nonce.
validate_transactions-nonces :
    (txs : List Transaction) (s : State) (tx ux : Transaction)
    → validate_transactions txs false s ≡ none
    → Memᴰ tx txs
    → Memᴰ ux txs
    → tx.sender ≡ ux.sender
    → tx.nonce ≡ ux.nonce
validate_transactions-nonces txs s tx ux h m n same =
    let first = (validate_transaction_iff tx s).0 (validate_transactions-each txs s tx h m) in
    let second = (validate_transaction_iff ux s).0 (validate_transactions-each txs s ux h n) in
    first.3 ∙ ap (λ a. (get_nonce a s + 1) % 2 ^ 64) same ∙ sym second.3

module _ (g : Graph) where
  -- Nothing but the states changes, and there is an error.
  abbrev pub Blocked : BlockProducer g → BlockProducer g × Option ForgeError → Type 0
  Blocked bp result =
      (result.0.tx_pool ≡ bp.tx_pool)
      × (result.0.blockchain ≡ bp.blockchain)
      × (is_some result.1 ≡ true)

  submit-Blocked :
      (sha256 : Bytes → Hash) (now : ℤ) (txs : List Transaction) (b : Block) (bp : BlockProducer g)
      → validate_block g sha256 now b bp.blockchain ≢ none
      → Blocked bp (submit g sha256 now txs b bp)
  unfolding submit add_block set_producer_state
  submit-Blocked sha256 now txs b bp refused =
      elim (Option-cases (validate_block g sha256 now b bp.blockchain)) [
        | inl e ↦ absurd (refused e)
        | inr (x, e) ↦
            let r : add_block g sha256 now b bp.blockchain ≡ (bp.blockchain, some (invalid x)) =
              rw (add_block, e) refl in
            rw (submit, r) (refl, ap (λ q. q.0) r, refl)
      ]

  -- Where two of the transactions come from one sender and have different nonces, the chain refuses
  -- what is forged.
  forge_from-Blocked :
      (sha256 : Bytes → Hash) (created now : ℤ) (txs : List Transaction) (tx ux : Transaction)
      (bp : BlockProducer g)
      → Memᴰ tx txs
      → Memᴰ ux txs
      → tx.sender ≡ ux.sender
      → tx.nonce ≢ ux.nonce
      → ((latest : Block)
          → get_latest_block g bp.blockchain.ledger ≡ some latest
          → latest.index + 1 < 2 ^ 64)
      → Blocked bp (forge_from g sha256 created now txs bp)
  unfolding forge_from set_producer_state
  forge_from-Blocked sha256 created now txs tx ux bp m n same differ small =
      elim (Option-cases (get_latest_block g bp.blockchain.ledger)) [
        | inl e ↦ rw (forge_from, e) (refl, refl, refl)
        | inr (latest, e) ↦ elim (Option-cases (assemble sha256 created txs latest)) [
          | inl f ↦ rw (forge_from, e, f) (refl, refl, refl)
          | inr (b, f) ↦
              let made = assemble-IsMade sha256 created txs latest b f in
              let fresh = made-not_genesis sha256 created txs latest b (small latest e) made in
              let s = bp.blockchain.ledger.state in
              let refused : validate_block g sha256 now b bp.blockchain ≢ none = λ ok.
                let passed = (validate_block-Sound g sha256 now b bp.blockchain ok).4 in
                let all : validate_transactions txs false s ≡ none =
                  subst (λ ts. validate_transactions ts false s ≡ none) made.same_transactions
                    (subst (λ z. validate_transactions b.transactions z s ≡ none) fresh passed) in
                differ (validate_transactions-nonces txs s tx ux all m n same) in
              rw (forge_from, e, f) (submit-Blocked sha256 now txs b bp refused)
        ]
      ]

  -- Where the transactions that `ForgeBlock` pulls hold two of one sender with different nonces, as
  -- consecutive ones, it fails, and the pool and the blockchain stay as they are: the index of the
  -- latest block, where there is one, is below 2 ^ 64 - 1.
  pub forge_block-Blocked :
      (sha256 : Bytes → Hash) (order : Map Transaction) (created now : ℤ) (tx ux : Transaction)
      (bp : BlockProducer g)
      → Memᴰ tx (pulled order bp.tx_pool)
      → Memᴰ ux (pulled order bp.tx_pool)
      → tx.sender ≡ ux.sender
      → tx.nonce ≢ ux.nonce
      → ((latest : Block)
          → get_latest_block g bp.blockchain.ledger ≡ some latest
          → latest.index + 1 < 2 ^ 64)
      → Blocked bp (forge_block g sha256 order created now bp)
  unfolding forge_block set_producer_state forge_pulled
  forge_block-Blocked sha256 order created now tx ux bp m n same differ small =
      go (pulled order bp.tx_pool) m n
    where
      bp' : BlockProducer g
      bp' = set_producer_state g started bp

      go :
          (txs : List Transaction)
          → Memᴰ tx txs
          → Memᴰ ux txs
          → Blocked bp (forge_pulled g sha256 created now txs bp')
      go [] m n = absurd (Memᴰ.not-nil m)
      go (x ∷ xs) m n =
          forge_from-Blocked sha256 created now (x ∷ xs) tx ux bp' m n same differ small

  -- A tick, with the order in which it visits the pool and its two readings of the clock.
  abbrev pub Tick : Type 0
  Tick = Map Transaction × (ℤ × ℤ)

  -- The ticks of the sequencer, with nothing else between them.
  unfoldable pub ticks : (Bytes → Hash) → List Tick → Sequencer g → Sequencer g
  ticks sha256 [] s = s
  ticks sha256 ((order, (created, now)) ∷ rest) s =
      ticks sha256 rest (tick g sha256 order created now s)

  -- Each tick visits all of these transactions, in an order of its own.
  abbrev pub AllReordered : List Tick → Map Transaction → Type 0
  AllReordered [] m = Unit
  AllReordered ((order, _) ∷ rest) m = Reordered order m × AllReordered rest m

  -- A pool of at most 100 transactions holds two of one sender with different nonces, and the index
  -- of the latest block, where there is one, is below 2 ^ 64 - 1. Then after any number of ticks of
  -- the sequencer with no other call between them, each of which visits the pool's map in an order
  -- of its own, the pool and the blockchain are what they were.
  pub ticks-blocked :
      (sha256 : Bytes → Hash) (times : List Tick) (k j : Hash) (tx ux : Transaction)
      (s : Sequencer g)
      → AllReordered times s.producer.tx_pool.transactions
      → length s.producer.tx_pool.transactions ≤ 100
      → lookup k s.producer.tx_pool.transactions ≡ some tx
      → lookup j s.producer.tx_pool.transactions ≡ some ux
      → tx.sender ≡ ux.sender
      → tx.nonce ≢ ux.nonce
      → ((latest : Block)
          → get_latest_block g s.producer.blockchain.ledger ≡ some latest
          → latest.index + 1 < 2 ^ 64)
      → ((ticks sha256 times s).producer.tx_pool ≡ s.producer.tx_pool)
        × ((ticks sha256 times s).producer.blockchain ≡ s.producer.blockchain)
  unfolding ticks tick set_sequencer_state
  ticks-blocked sha256 [] k j tx ux s orders few m n same differ small = (refl, refl)
  ticks-blocked sha256 ((order, (created, now)) ∷ times) k j tx ux s orders few m n same differ
        small =
      let tp = s.producer.tx_pool in
      let once =
        forge_block-Blocked sha256 order created now tx ux s.producer
          (pulled-all order tp k tx orders.0 few m) (pulled-all order tp j ux orders.0 few n) same
          differ small in
      let next = tick g sha256 order created now s in
      let pool : tp ≡ next.producer.tx_pool = sym once.0 in
      let chain : s.producer.blockchain ≡ next.producer.blockchain = sym once.1 in
      let rest =
        ticks-blocked sha256 times k j tx ux next
          (subst (λ q. AllReordered times q.transactions) pool orders.1)
          (subst (λ q. length q.transactions ≤ 100) pool few)
          (subst (λ q. lookup k q.transactions ≡ some tx) pool m)
          (subst (λ q. lookup j q.transactions ≡ some ux) pool n) same differ
          (subst
            (λ bc.
              (latest : Block)
              → get_latest_block g bc.ledger ≡ some latest
              → latest.index + 1 < 2 ^ 64)
            chain small) in
      (rest.0 ∙ once.0, rest.1 ∙ once.1)
