-- ===== src/Wallet/Spend/Examples.antt =====
-- A call of `Spend` of bsv-regtest/wallet/raw.go at concrete amounts.
use chaos_test.Common.{
  ℕ, ◌+◌, ◌<◌, ◌≤◌, ◌^◌, ◌≡◌, refl, String, none, some, List, [], ◌∷◌, map, arith,
}
use chaos_test.Common.Text.{itoa}
use chaos_test.Observe.Snapshot.{got}
use chaos_test.Wallet.Spend.{
  Tx, Crypto, Input, Output, nth, spend, add_inputs, add_outputs, balance, with_change,
}
use chaos_test.Wallet.Spend.Amounts.{coin, coins, wanted, total_of, spend-conserves}

abbrev plain : Crypto String
plain = record {
  unlock = λ k. none;
  lock = λ k. got k;
  from_hex = λ s. got s;
  add_input = λ txid vout. none;
  sign = λ tx. none;
}

abbrev inputs : List (Input String)
inputs =
    record {
      source = some ("t1", record { script = "miner"; satoshis = 10000 } ∷ []);
      vout = 0;
      key = some "miner";
    }
    ∷ []

abbrev outputs : List (Output String)
outputs = record { key = some "victim"; script = ""; satoshis = 4000 } ∷ []

abbrev built : Tx
built = record {
  spent = ("t1", 0) ∷ [];
  outputs =
      record { script = "victim"; satoshis = 4000 }
      ∷ record { script = "miner"; satoshis = 5900 }
      ∷ [];
}

is_built : spend plain inputs outputs 100 ≡ got built
unfolding spend add_inputs add_outputs balance with_change nth itoa
is_built = refl

few_in : coins inputs < 2 ^ 64
unfolding coins coin nth
few_in = omega arith

few_out : wanted outputs + 100 < 2 ^ 64
unfolding wanted
few_out = omega arith

spend-conserves_example :
    (built.spent ≡ map (λ (inp : Input String). (coin inp).0) inputs)
    × ((lost : ℕ) × (lost ≤ 546) × (coins inputs ≡ total_of built.outputs + 100 + lost))
spend-conserves_example = spend-conserves plain inputs outputs 100 built few_in few_out is_built
