-- ===== src/Genesis/Tests.antt =====
-- Configurations that pass and that fail (pkg/genesis/genesis.go).
use peerdns.Prelude.{◌≡◌, refl, none, some, [], ◌∷◌, codes}
use peerdns.Prelude.Int.{pos}
use peerdns.Genesis.{
  Genesis, no_account, empty_balance, zero_timestamp, is_zero_timestamp, validate_alloc,
  check_accounts, validate,
}

abbrev valid : Genesis
valid = record {
  chain_id = 1;
  alloc = (codes "0x1100000000000000000000000000000000000000", codes "7") ∷ [];
  difficulty = 1;
  timestamp = pos 1;
  extra_data = [];
}

program : Unit {0}
unfolding validate check_accounts validate_alloc is_zero_timestamp
program = tt

validated : validate valid ≡ none
unfolding program
validated = refl

refused :
    (validate (record valid { alloc = [] }) ≡ some no_account)
    × (validate (record valid { alloc = (codes "a", []) ∷ [] }) ≡ some empty_balance)
    × (validate (record valid { alloc = []; timestamp = pos 0 }) ≡ some zero_timestamp)
unfolding program
refused = (refl, refl, refl)
