-- ===== src/Scenario/Eval.antt =====
-- internal/scenario/executor.go: the expressions of a step's parameters (`eval`), the numbers in
-- them (`toInt`), and the readers of parameters. A text is a list of its code points. `tip` is what
-- the fleet answers for a node, `latest` the highest sequence number of the alert log, and `whole`
-- the whole part of a float.
use chaos_test.Common.{
  ℕ, zero, suc, ◌+◌, ◌-◌, ◌%◌, ◌^◌, ℤ, pos, negsuc, Bool, true, false, Option, none, some, List, [],
  ◌∷◌, ltb, ◌==◌, ◌||◌, if◌then◌else◌,
}
use chaos_test.Common.Int.{◌+ℤ◌, ◌-ℤ◌}
use chaos_test.Logs.Cursor.{parse_int}
use chaos_test.Logs.Text.{Text, codes, text_eq, strip_prefix, trim_space, trim_suffix, split_at}
pub mod Ends
mod Wrapping
mod Terms
mod Trimming
pub mod Chain
mod Examples

mutual
  -- What YAML, a run's variables and JSON hold: null, the integers of either sign, floats, texts,
  -- flags, maps and lists.
  pub data Value : Type 0 where
    null : Value
    signed : ℤ → Value
    unsigned : ℕ → Value
    float : ℕ → Value
    text : Text → Value
    flag : Bool → Value
    map_of : Fields → Value
    list_of : Items → Value

  pub data Fields : Type 0 where
    no_fields : Fields
    field : (name : Text) (held : Value) (rest : Fields) → Fields

  pub data Items : Type 0 where
    no_items : Items
    item : (held : Value) (rest : Items) → Items

unfoldable pub field_of : Text → Fields → Option Value
field_of wanted no_fields = none
field_of wanted (field name held rest) =
    let later = field_of wanted rest in if text_eq name wanted then some held else later

unfoldable pub find {ℓ} : {A : Type ℓ} → Text → List (Text × A) → Option A
find wanted [] = none
find wanted ((name, held) ∷ rest) =
    let later = find wanted rest in if text_eq name wanted then some held else later

-- An integer as 64 bits in two's complement hold it.
from_bits : ℕ → ℤ
from_bits n = if ltb n (2 ^ 63) then pos n else negsuc (2 ^ 64 - 1 - n)

unfoldable pub int64 : ℤ → ℤ
unfolding from_bits
int64 (pos n) = from_bits (n % 2 ^ 64)
int64 (negsuc n) = from_bits (2 ^ 64 - 1 - n % 2 ^ 64)

unfoldable pub to_int : (whole : ℕ → ℤ) → Value → Option ℤ
to_int whole (signed n) = some n
to_int whole (unsigned n) = some (int64 (pos n))
to_int whole (float x) = some (whole x)
to_int whole (text t) = parse_int t
to_int whole _ = none

-- The errors of `eval`, with what their text names.
pub data Trouble : Type 0 where
  not_integer : (expr : Text) → Trouble
  no_tip : (message : Text) → Trouble
  unknown_variable : (name : Text) → Trouble
  not_a_map : (name part : Text) → Trouble
  no_such_field : (name part : Text) → Trouble

pub data Result : Type 0 where
  value : Value → Result
  trouble : Trouble → Result

-- What a node answers: the height and the hash of its best header, or an error.
pub data Tip : Type 0 where
  header : (height : ℕ) (hash : Text) → Tip
  unreachable : (message : Text) → Tip

-- A run as `eval` reads it, and what it asks for.
pub record Scope : Type 0 where
  pub vars : List (Text × Value)
  pub params : List (Text × Value)
  pub roles : List (Text × Text)
  pub latest : ℕ
  pub tip : Text → Tip
  pub whole : ℕ → ℤ

-- A role's node, or the name itself.
unfoldable pub node : Scope → Text → Text
node x ref = elim (find ref x.roles) [ some n ↦ n | none ↦ ref ]

-- What stands before the last occurrence of `sep`, and what stands behind it.
unfoldable pub last_cut : Text → Text → Option (Text × Text)
last_cut sep [] = none
last_cut sep (c ∷ s) = elim (last_cut sep s) [
  | some (before, after) ↦ some (c ∷ before, after)
  | none ↦ elim (strip_prefix sep (c ∷ s)) [ some after ↦ some ([], after) | none ↦ none ]
]

-- `i > 0`: something stands before the operator.
behind_first : Option (Text × Text) → Option (Text × Text)
behind_first (some (c ∷ before, after)) = some (c ∷ before, after)
behind_first _ = none

pub data Operator : Type 0 where
  plus : Operator
  minus : Operator

-- The operator that is taken first, with its sides.
unfoldable pub operands : Text → Option (Operator × Text × Text)
unfolding behind_first
operands expr = elim (behind_first (last_cut (codes " + ") expr)) [
  | some (left, right) ↦ some (plus, left, right)
  | none ↦ elim (behind_first (last_cut (codes " - ") expr)) [
    | some (left, right) ↦ some (minus, left, right)
    | none ↦ none
  ]
]

unfoldable pub apply_operator : Operator → ℤ → ℤ → ℤ
apply_operator plus a b = int64 (a +ℤ b)
apply_operator minus a b = int64 (a -ℤ b)

calculate : Text → Operator → Option ℤ → Option ℤ → Result
calculate expr op (some a) (some b) = value (signed (apply_operator op a b))
calculate expr op _ _ = trouble (not_integer expr)

-- The left side's error goes before the right side's.
unfoldable pub both : Scope → Text → Operator → Option Result → Option Result → Option Result
unfolding calculate
both x expr op none right = none
both x expr op (some (trouble e)) right = some (trouble e)
both x expr op (some (value a)) none = none
both x expr op (some (value a)) (some (trouble e)) = some (trouble e)
both x expr op (some (value a)) (some (value b)) =
    some (calculate expr op (to_int x.whole a) (to_int x.whole b))

ends_with : ℕ → Text → Bool
ends_with c [] = false
ends_with c (d ∷ []) = c == d
ends_with c (d ∷ e ∷ s) = ends_with c (e ∷ s)

-- The argument of a call, `name(argument)`, in an expression.
argument : Text → Text → Option Text
unfolding ends_with
argument call expr = elim (strip_prefix call expr) [
  | some rest ↦ if ends_with 41 rest then some (trim_suffix 41 rest) else none
  | none ↦ none
]

height_of : Tip → Result
height_of (header height hash) = value (signed (pos height))
height_of (unreachable message) = trouble (no_tip message)

hash_of : Tip → Result
hash_of (header height hash) = value (text hash)
hash_of (unreachable message) = trouble (no_tip message)

-- The fields that the dots of an expression name, one in the other.
unfoldable pub descend : Text → Value → List Text → Result
descend name held [] = value held
descend name (map_of m) (p ∷ ps) = elim (field_of p m) [
  | some inner ↦ descend name inner ps
  | none ↦ trouble (no_such_field name p)
]
descend name _ (p ∷ ps) = trouble (not_a_map name p)

role_of : Option Text → Option Value
role_of (some n) = some (text n)
role_of none = none

or_else : Option Value → Option Value → Option Value
or_else (some v) other = some v
or_else none other = other

-- A variable, else a parameter, else a role.
unfoldable pub variable : Scope → Text → Option Value
unfolding role_of or_else
variable x name =
    or_else (find name x.vars) (or_else (find name x.params) (role_of (find name x.roles)))

unfoldable pub dotted : Scope → List Text → Result
dotted x [] = trouble (unknown_variable [])
dotted x (name ∷ ps) = elim (variable x name) [
  | some held ↦ descend name held ps
  | none ↦ trouble (unknown_variable name)
]

named : Scope → Text → Result
named x expr =
    if text_eq expr (codes "latest")
    then value (signed (pos x.latest))
    else dotted x (split_at 46 expr)

-- An expression without an operator.
unfoldable pub atom : Scope → Text → Result
unfolding argument height_of hash_of named
atom x expr = elim (parse_int expr) [
  | some n ↦ value (signed n)
  | none ↦ elim (argument (codes "tip(") expr) [
    | some ref ↦ height_of (x.tip (node x ref))
    | none ↦ elim (argument (codes "tiphash(") expr) [
      | some ref ↦ hash_of (x.tip (node x ref))
      | none ↦ named x expr
    ]
  ]
]

-- `eval`, with fuel for the depth of its calls; none where the fuel runs out.
unfoldable pub eval : ℕ → Scope → Text → Option Result
eval zero x expr = none
eval (suc f) x expr =
    let t = trim_space expr in
    elim (operands t) [
      | some (op, left, right) ↦ both x t op (eval f x left) (eval f x right)
      | none ↦ some (atom x t)
    ]

-- The readers of a step's parameters.
unfoldable pub num : (whole : ℕ → ℤ) → Fields → Text → ℤ → ℤ
num whole m k default = elim (field_of k m) [
  | some v ↦ elim (to_int whole v) [ some n ↦ n | none ↦ default ]
  | none ↦ default
]

unfoldable pub boolean : Fields → Text → Bool
boolean m k = elim (field_of k m) [
  | some (flag b) ↦ b
  | some (text t) ↦ text_eq t (codes "true") || text_eq t (codes "1")
  | _ ↦ false
]
