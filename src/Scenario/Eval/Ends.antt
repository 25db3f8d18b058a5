-- ===== src/Scenario/Eval/Ends.antt =====
-- internal/scenario/executor.go: `eval` comes to an end.
use mathlib.Core.List.{reverse, reverse_aux}
use chaos_test.Common.{
  ℕ, zero, suc, ◌+◌, ◌≤◌, ◌<◌, ◌≡◌, refl, sym, ◌∙◌, inl, inr, Option, none, some, [], ◌∷◌, arith,
  length, Option-cases,
}
use chaos_test.Logs.Text.{Text, codes, strip_prefix, trim_left, trim_space}
use chaos_test.Scenario.Eval.{
  Scope, Result, value, trouble, Operator, last_cut, behind_first, operands, both, atom, eval,
}

length-strip_prefix :
    (sep s rest : Text) → strip_prefix sep s ≡ some rest → length sep + length rest ≡ length s
unfolding strip_prefix
length-strip_prefix [] s rest h = let same : s ≡ rest = cc in rw same (omega arith)
length-strip_prefix (p ∷ sep) [] rest h = cc
length-strip_prefix (p ∷ sep) (c ∷ s) rest h =
    let there : strip_prefix sep s ≡ some rest = ground (arith, h) in
    omega (arith, length-strip_prefix sep s rest there)

length-last_cut :
    (sep s : Text) (p : Text × Text)
    → last_cut sep s ≡ some p
    → length p.0 + length sep + length p.1 ≡ length s
unfolding last_cut
length-last_cut sep [] p h = cc
length-last_cut sep (c ∷ s) p h = elim (Option-cases (last_cut sep s)) [
  | inr ((before, after), e) ↦
      let is_pair : (c ∷ before, after) ≡ p = ground (arith, h, e) in
      rw (sym is_pair) (omega (arith, length-last_cut sep s (before, after) e))
  | inl e ↦ elim (Option-cases (strip_prefix sep (c ∷ s))) [
    | inr (after, e') ↦
        let is_pair : ([], after) ≡ p = ground (arith, h, e, e') in
        rw (sym is_pair) (omega (arith, length-strip_prefix sep (c ∷ s) after e'))
    | inl e' ↦ ground (arith, h, e, e')
  ]
]

length-trim_left-le : (s : Text) → length (trim_left s) ≤ length s
unfolding trim_left
length-trim_left-le [] = omega arith
length-trim_left-le (c ∷ s) = ground (arith, length-trim_left-le s)

length-reverse_aux : (s t : Text) → length (reverse_aux s t) ≡ length s + length t
length-reverse_aux [] t = omega arith
length-reverse_aux (c ∷ s) t = omega (arith, length-reverse_aux s (c ∷ t))

length-reverse : (s : Text) → length (reverse s) ≡ length s
length-reverse s = omega (arith, length-reverse_aux s [])

length-trim_space-le : (s : Text) → length (trim_space s) ≤ length s
unfolding trim_space
length-trim_space-le s = omega (
  arith,
  length-reverse (trim_left (reverse (trim_left s))),
  length-trim_left-le (reverse (trim_left s)),
  length-reverse (trim_left s),
  length-trim_left-le s,
)

length-behind_first :
    (sep s : Text) (p : Text × Text)
    → behind_first (last_cut sep s) ≡ some p
    → length p.0 + length sep + length p.1 ≡ length s
unfolding behind_first
length-behind_first sep s p h = elim (Option-cases (last_cut sep s)) [
  | inl e ↦ ground (arith, h, e)
  | inr (([], after), e) ↦ ground (arith, h, e)
  | inr ((c ∷ before, after), e) ↦
      let is_pair : (c ∷ before, after) ≡ p = ground (arith, h, e) in
      rw (sym is_pair) (length-last_cut sep s (c ∷ before, after) e)
]

-- Both sides of an operator are shorter than the expression.
pub operands-shorter :
    (s : Text) (op : Operator) (l r : Text)
    → operands s ≡ some (op, l, r)
    → (length l < length s) × (length r < length s)
unfolding operands
operands-shorter s op l r h = elim (Option-cases (behind_first (last_cut (codes " + ") s))) [
  | inr ((before, after), e) ↦
      let whole : length before + 3 + length after ≡ length s =
        length-behind_first (codes " + ") s (before, after) e in
      let sides : (before ≡ l) × (after ≡ r) = ground (arith, h, e) in
      rw (sym sides.0, sym sides.1) (omega arith, omega arith)
  | inl e ↦ elim (Option-cases (behind_first (last_cut (codes " - ") s))) [
    | inr ((before, after), e') ↦
        let whole : length before + 3 + length after ≡ length s =
          length-behind_first (codes " - ") s (before, after) e' in
        let sides : (before ≡ l) × (after ≡ r) = ground (arith, h, e, e') in
        rw (sym sides.0, sym sides.1) (omega arith, omega arith)
    | inl e' ↦ ground (arith, h, e, e')
  ]
]

both_result :
    (x : Scope) (t : Text) (op : Operator) (a b : Result)
    → (r : Result) × (both x t op (some a) (some b) ≡ some r)
unfolding both
both_result x t op (trouble e) b = (trouble e, refl)
both_result x t op (value a) (trouble e) = (trouble e, refl)
both_result x t op (value a) (value b) = (_, refl)

pub eval-atom :
    (f : ℕ) (x : Scope) (e : Text)
    → operands (trim_space e) ≡ none
    → eval (suc f) x e ≡ some (atom x (trim_space e))
unfolding eval
eval-atom f x e h = rw (h, eval)

pub eval-both :
    (f : ℕ) (x : Scope) (e : Text) (op : Operator) (l r : Text) (a b : Option Result)
    → operands (trim_space e) ≡ some (op, l, r)
    → eval f x l ≡ a
    → eval f x r ≡ b
    → eval (suc f) x e ≡ both x (trim_space e) op a b
unfolding eval
eval-both f x e op l r a b h left right = rw (h, eval, left, right)

-- Any two amounts of fuel beyond the expression's length give the same result.
eval-agree :
    (f g : ℕ) (x : Scope) (e : Text)
    → length e < f
    → length e < g
    → (r : Result) × (eval f x e ≡ some r) × (eval g x e ≡ some r)
eval-agree zero g x e hf hg = elim hf [ ]
eval-agree (suc f) zero x e hf hg = elim hg [ ]
eval-agree (suc f) (suc g) x e hf hg = elim (Option-cases (operands (trim_space e))) [
  | inl h ↦ (atom x (trim_space e), eval-atom f x e h, eval-atom g x e h)
  | inr ((op, l, r), h) ↦
      let t : Text = trim_space e in
      let le : length t ≤ length e = length-trim_space-le e in
      let less : (length l < length t) × (length r < length t) = operands-shorter t op l r h in
      let (a, left_f, left_g) = eval-agree f g x l (omega arith) (omega arith) in
      let (b, right_f, right_g) = eval-agree f g x r (omega arith) (omega arith) in
      let (c, whole) = both_result x t op a b in
      (
        c,
        eval-both f x e op l r _ _ h left_f right_f ∙ whole,
        eval-both g x e op l r _ _ h left_g right_g ∙ whole,
      )
]

-- With more fuel than the expression has characters, `eval` has a result, which is an error or a
-- value, and no fuel beyond one more than their number changes it.
pub eval-ends :
    (f : ℕ) (x : Scope) (e : Text)
    → length e < f
    → (r : Result) × (eval f x e ≡ some r) × (eval (suc (length e)) x e ≡ some r)
eval-ends f x e h = eval-agree f (suc (length e)) x e h (omega arith)
