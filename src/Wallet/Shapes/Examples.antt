-- ===== src/Wallet/Shapes/Examples.antt =====
-- A request of bsv-regtest/walletd/tx.go at concrete values.
use chaos_test.Common.{◌≡◌, refl, pos, none, some, [], ◌∷◌, arith}
use chaos_test.Logs.Text.{codes, trim_space, trim_left}
use chaos_test.Alerts.Hex.{decode_hex}
use chaos_test.Wallet.Shapes.{TxRequest, Scripts, Outs, built, outputs_for, lock_for, fan}
use chaos_test.Wallet.Shapes.Sized.{IsSized, outputs_for-IsSized}

abbrev scripts : Scripts
scripts = record {
  deposit_hex = codes "76a9";
  pay_to = λ to. none;
  utf8 = λ s. s;
  op_return = λ b. some (106 ∷ b);
}

abbrev three_ways : TxRequest
three_ways = record {
  shape = "fanout";
  satoshis = 500;
  to = [];
  outputs = pos 3;
  op_data = [];
  data_hex = [];
  script = [];
}

abbrev fanned_out : Outs
fanned_out = (fan (118 ∷ 169 ∷ []) 500 3 1 3, 1500)

is_fanned : outputs_for scripts three_ways ≡ built fanned_out
unfolding outputs_for lock_for trim_space decode_hex trim_left
is_fanned = refl

outputs_for-IsSized_example : IsSized fanned_out
outputs_for-IsSized_example =
    outputs_for-IsSized scripts three_ways fanned_out (omega arith) is_fanned
