-- ===== src/Scenario/Eval/Examples.antt =====
-- internal/scenario/executor.go: expressions of a run with a map, a role and a node's tip.
use chaos_test.Common.{ℕ, List, All, false, ◌≡◌, refl, some, [], ◌∷◌, arith, pos, negsuc, true}
use chaos_test.Common.Int.{◌+ℤ◌, ◌-ℤ◌}
use chaos_test.Logs.Cursor.{parse_int, parse_uint}
use chaos_test.Logs.Text.{
  Text, codes, text_eq, strip_prefix, trim_space, trim_left, trim_suffix, is_space, split_at,
}
use chaos_test.Scenario.Eval.{
  signed, text, map_of, no_fields, field, field_of, find, int64, to_int, Result, value, trouble,
  unknown_variable, not_integer, Tip, header, Scope, plus, minus, Value, node, last_cut, operands,
  apply_operator, both, descend, variable, dotted, atom, eval, num, boolean,
}
use chaos_test.Scenario.Eval.Chain.{Stands, total, eval-total}
use chaos_test.Scenario.Eval.Terms.{Term}
use chaos_test.Scenario.Eval.Ends.{eval-ends}

abbrev tip_of : Text → Tip
tip_of n = header 120 (codes "00ab")

abbrev scope : Scope
scope = record {
  vars = (codes "parent", map_of (field (codes "vout") (signed (pos 2)) no_fields)) ∷ [];
  params = (codes "n", text (codes "7")) ∷ [];
  roles = (codes "A", codes "teranode1") ∷ [];
  latest = 4;
  tip = tip_of;
  whole = pos;
}

eval-ends_example :
    (r : Result) × (eval 20 scope (codes "tip(A) + 3 - n") ≡ some r)
    × (eval 15 scope (codes "tip(A) + 3 - n") ≡ some r)
eval-ends_example = eval-ends 20 scope (codes "tip(A) + 3 - n") (omega arith)

abbrev sum_tail : List Term
sum_tail = (plus, codes "3", pos 3) ∷ (minus, codes "n", pos 7) ∷ []

tip-Stands : Stands scope (codes "tip(A)") (pos 120)
unfolding eval operands last_cut strip_prefix trim_space trim_left is_space both to_int atom
    parse_int parse_uint text_eq split_at trim_suffix dotted variable find node descend field_of
    apply_operator int64 ◌+ℤ◌ ◌-ℤ◌
tip-Stands = (signed (pos 120), refl, refl)

three-Stands : Stands scope (codes "3") (pos 3)
unfolding eval operands last_cut strip_prefix trim_space trim_left is_space both to_int atom
    parse_int parse_uint text_eq split_at trim_suffix dotted variable find node descend field_of
    apply_operator int64 ◌+ℤ◌ ◌-ℤ◌
three-Stands = (signed (pos 3), refl, refl)

n-Stands : Stands scope (codes "n") (pos 7)
unfolding eval operands last_cut strip_prefix trim_space trim_left is_space both to_int atom
    parse_int parse_uint text_eq split_at trim_suffix dotted variable find node descend field_of
    apply_operator int64 ◌+ℤ◌ ◌-ℤ◌
n-Stands = (text (codes "7"), refl, refl)

six : All (λ (d : ℕ). is_space d ≡ false) (codes "tip(A)")
unfolding is_space
six = (refl, (refl, (refl, (refl, (refl, (refl, tt))))))

one : All (λ (d : ℕ). is_space d ≡ false) (codes "3")
unfolding is_space
one = (refl, tt)

letter : All (λ (d : ℕ). is_space d ≡ false) (codes "n")
unfolding is_space
letter = (refl, tt)

eval-total_example :
    (v : Value) × (eval 20 scope (codes "tip(A) + 3 - n") ≡ some (value v))
    × (to_int pos v ≡ some (total (pos 120) sum_tail))
eval-total_example =
    eval-total 20 scope (codes "tip(A)") (pos 120) sum_tail ((refl, refl, six), tip-Stands)
      (((refl, refl, one), three-Stands), (((refl, refl, letter), n-Stands), tt)) (omega arith)

blocks_ahead : eval 4 scope (codes " tip(A) + 3 - n ") ≡ some (value (signed (pos 116)))
unfolding eval operands last_cut strip_prefix trim_space trim_left is_space both to_int atom
    parse_int parse_uint text_eq split_at trim_suffix dotted variable find node descend field_of
    apply_operator int64 ◌+ℤ◌ ◌-ℤ◌
blocks_ahead = refl

a_field : eval 1 scope (codes "parent.vout") ≡ some (value (signed (pos 2)))
unfolding eval operands last_cut strip_prefix trim_space trim_left is_space both to_int atom
    parse_int parse_uint text_eq split_at trim_suffix dotted variable find node descend field_of
    apply_operator int64 ◌+ℤ◌ ◌-ℤ◌
a_field = refl

a_role : eval 1 scope (codes "A") ≡ some (value (text (codes "teranode1")))
unfolding eval operands last_cut strip_prefix trim_space trim_left is_space both to_int atom
    parse_int parse_uint text_eq split_at trim_suffix dotted variable find node descend field_of
    apply_operator int64 ◌+ℤ◌ ◌-ℤ◌
a_role = refl

no_number : eval 2 scope (codes "A + 1") ≡ some (trouble (not_integer (codes "A + 1")))
unfolding eval operands last_cut strip_prefix trim_space trim_left is_space both to_int atom
    parse_int parse_uint text_eq split_at trim_suffix dotted variable find node descend field_of
    apply_operator int64 ◌+ℤ◌ ◌-ℤ◌
no_number = refl

unknown : eval 2 scope (codes "x - A") ≡ some (trouble (unknown_variable (codes "x")))
unfolding eval operands last_cut strip_prefix trim_space trim_left is_space both to_int atom
    parse_int parse_uint text_eq split_at trim_suffix dotted variable find node descend field_of
    apply_operator int64 ◌+ℤ◌ ◌-ℤ◌
unknown = refl

-- The sum of two int64s wraps.
wrapped : int64 (pos 9223372036854775807 +ℤ pos 1) ≡ negsuc 9223372036854775807
unfolding int64 ◌+ℤ◌
wrapped = refl

read_flag : boolean (field (codes "on") (text (codes "1")) no_fields) (codes "on") ≡ true
unfolding boolean field_of text_eq
read_flag = refl

read_default : num pos no_fields (codes "n") (pos 3) ≡ pos 3
unfolding num field_of
read_default = refl
