-- ===== src/Scenario/Eval/Chain.antt =====
-- internal/scenario/executor.go: an expression that is written as a chain of terms is computed from
-- the left to the right.
use mathlib.Core.Path.{subst}
use chaos_test.Common.{
  ℕ, zero, suc, ◌<◌, ◌≡◌, refl, ap, sym, ◌∙◌, ◌⊎◌, inl, inr, none, some, List, [], ◌∷◌, ◌++◌, arith,
  length, All, All-append_left, All-append_right, All-map, ℤ,
}
use chaos_test.Common.Int.{◌+ℤ◌}
use chaos_test.Logs.Text.{Text, trim_space}
use chaos_test.Scenario.Eval.{
  Operator, plus, minus, Scope, Value, value, signed, last_cut, operands, behind_first, int64,
  to_int, apply_operator, both, calculate, atom, eval,
}
use chaos_test.Scenario.Eval.Ends.{operands-shorter, eval-atom, eval-both}
use chaos_test.Scenario.Eval.Terms.{
  Term, sign, render, IsPlain, ArePlain, Lacks, Starts, render-Starts, last_cut-Lacks,
  last_cut-render,
}
use chaos_test.Scenario.Eval.Wrapping.{regroup}
use chaos_test.Scenario.Eval.Trimming.{trim_space-render}

-- Where `eval` splits the chain: nowhere, at a plus with terms behind it that are all subtracted, or
-- before the last term, all being subtracted.
Split : List Term → Type 0
Split ts =
    (ts ≡ [])
    ⊎ ((before : List Term) × (t : Text) × (n : ℤ) × (after : List Term) × (ts
          ≡ before ++ (plus, t, n) ∷ after)
        × Lacks plus after)
    ⊎ ((before : List Term) × (t : Text) × (n : ℤ) × (ts ≡ before ++ (minus, t, n) ∷ [])
        × Lacks plus ts)

place_cons : (t : Term) (ts : List Term) → Split ts → Split (t ∷ ts)
unfolding Split
place_cons (op, t, n) ts (inr (inl (before, u, k, after, split, lacks))) =
    inr (inl ((op, t, n) ∷ before, u, k, after, ap (◌∷◌ (op, t, n)) split, lacks))
place_cons (plus, t, n) ts (inl empty) = inr (inl ([], t, n, ts, refl, rw empty tt))
place_cons (minus, t, n) ts (inl empty) =
    inr (inr ([], t, n, ap (◌∷◌ (minus, t, n)) empty, rw empty (refl, tt)))
place_cons (plus, t, n) ts (inr (inr (before, u, k, split, lacks))) =
    inr (inl ([], t, n, ts, refl, lacks))
place_cons (minus, t, n) ts (inr (inr (before, u, k, split, lacks))) =
    inr (inr ((minus, t, n) ∷ before, u, k, ap (◌∷◌ (minus, t, n)) split, (refl, lacks)))

place_of : (ts : List Term) → Split ts
unfolding Split
place_of [] = inl refl
place_of (t ∷ ts) = place_cons t ts (place_of ts)

operands-plus :
    (s l r : Text)
    → last_cut (sign plus) s ≡ some (l, r)
    → Starts l
    → operands s ≡ some (plus, l, r)
unfolding operands behind_first
operands-plus s [] r h hl = elim hl [ ]
operands-plus s (c ∷ l) r h hl = rw (h, operands)

operands-minus :
    (s l r : Text)
    → last_cut (sign plus) s ≡ none
    → last_cut (sign minus) s ≡ some (l, r)
    → Starts l
    → operands s ≡ some (minus, l, r)
unfolding operands behind_first
operands-minus s [] r hp h hl = elim hl [ ]
operands-minus s (c ∷ l) r hp h hl = rw (hp, h, operands)

operands-none :
    (s : Text) → last_cut (sign plus) s ≡ none → last_cut (sign minus) s ≡ none → operands s ≡ none
unfolding operands behind_first
operands-none s hp hm = rw (hp, hm, operands)

-- From the left to the right, each step as int64 computes it.
abbrev pub total : ℤ → List Term → ℤ
total n [] = n
total n ((op, t, m) ∷ ts) = total (apply_operator op n m) ts

total-append : (n : ℤ) (xs ys : List Term) → total n (xs ++ ys) ≡ total (total n xs) ys
total-append n [] ys = refl
total-append n ((op, t, m) ∷ xs) ys = total-append (apply_operator op n m) xs ys

total-sum : (z m : ℤ) (ts : List Term) → int64 (z +ℤ total m ts) ≡ total (int64 (z +ℤ m)) ts
total-sum z m [] = refl
total-sum z m ((op, t, k) ∷ ts) =
    total-sum z (apply_operator op m k) ts ∙ ap (λ i. total i ts) (regroup op z m k)

total-plus :
    (z m : ℤ) (ts : List Term)
    → total (apply_operator plus z m) ts ≡ apply_operator plus z (total m ts)
unfolding apply_operator
total-plus z m ts = sym (total-sum z m ts)

module _ (x : Scope) where
  -- What stands there is read as a number.
  abbrev pub Stands : Text → ℤ → Type 0
  Stands t n = (v : Value) × (atom x t ≡ value v) × (to_int x.whole v ≡ some n)

  -- A term of a chain: written without a space or a sign before it, and read as its number.
  abbrev pub IsTerm : Text → ℤ → Type 0
  IsTerm t n = IsPlain t × Stands t n

  abbrev pub AreTerms : List Term → Type 0
  AreTerms ts = All (λ (t : Term). IsTerm t.1 t.2) ts

  abbrev pub Computes : ℕ → Text → ℤ → List Term → Type 0
  Computes f a n ts =
      (v : Value) × (eval f x (render a ts) ≡ some (value v))
      × (to_int x.whole v ≡ some (total n ts))

  terms-ArePlain : (ts : List Term) → AreTerms ts → ArePlain ts
  terms-ArePlain ts h = All-map _ _ (λ t p. p.0) ts h

  both-numbers :
      (t : Text) (op : Operator) (v w : Value) (i j : ℤ)
      → to_int x.whole v ≡ some i
      → to_int x.whole w ≡ some j
      → both x t op (some (value v)) (some (value w))
        ≡ some (value (signed (apply_operator op i j)))
  unfolding both calculate
  both-numbers t op v w i j hv hw = rw (hv, hw, both)

  one_term : (f : ℕ) (a : Text) (n : ℤ) → IsTerm a n → Computes (suc f) a n []
  one_term f a n (plain, (v, is_atom, is_number)) =
      let trimmed : trim_space a ≡ a = trim_space-render a [] plain tt in
      let alone : operands (trim_space a) ≡ none =
        ap operands trimmed
        ∙ operands-none a (last_cut-Lacks plus a [] plain tt tt)
            (last_cut-Lacks minus a [] plain tt tt) in
      (v, eval-atom f x a alone ∙ ap (λ t. some (atom x t)) trimmed ∙ ap some is_atom, is_number)

  -- The two sides of an operator.
  two_sides :
      (f : ℕ) (op : Operator) (a : Text) (n : ℤ) (before : List Term) (t : Text) (m : ℤ)
      (after ts : List Term)
      → operands (trim_space (render a ts)) ≡ some (op, render a before, render t after)
      → total n ts ≡ apply_operator op (total n before) (total m after)
      → Computes f a n before
      → Computes f t m after
      → Computes (suc f) a n ts
  unfolding to_int
  two_sides f op a n before t m after ts split sums (v, left, is_left) (w, right, is_right) = (
    signed (apply_operator op (total n before) (total m after)),
    eval-both f x (render a ts) op (render a before) (render t after) _ _ split left right
        ∙ both-numbers _ op v w (total n before) (total m after) is_left is_right,
    ap some (sym sums),
  )

  Chains : ℕ → Type 0
  Chains f =
      (a : Text) (n : ℤ) (ts : List Term)
      → IsTerm a n
      → AreTerms ts
      → length (render a ts) < f
      → Computes f a n ts

  -- A chain is computed where its sides are.
  at_operator :
      (f : ℕ) (op : Operator) (a : Text) (n : ℤ) (before : List Term) (t : Text) (m : ℤ)
      (after : List Term)
      → Chains f
      → IsTerm a n
      → AreTerms (before ++ (op, t, m) ∷ after)
      → length (render a (before ++ (op, t, m) ∷ after)) < suc f
      → operands (render a (before ++ (op, t, m) ∷ after))
        ≡ some (op, render a before, render t after)
      → total n (before ++ (op, t, m) ∷ after) ≡ apply_operator op (total n before) (total m after)
      → Computes (suc f) a n (before ++ (op, t, m) ∷ after)
  unfolding Chains
  at_operator f op a n before t m after chains ha h fuel split sums =
      let ts : List Term = before ++ (op, t, m) ∷ after in
      let trimmed : trim_space (render a ts) ≡ render a ts =
        trim_space-render a ts ha.0 (terms-ArePlain ts h) in
      let less : (length (render a before) < length (render a ts))
          × (length (render t after) < length (render a ts)) =
        operands-shorter (render a ts) op (render a before) (render t after) split in
      let behind : AreTerms ((op, t, m) ∷ after) =
        All-append_right _ before ((op, t, m) ∷ after) h in
      two_sides f op a n before t m after ts (ap operands trimmed ∙ split) sums
        (chains a n before ha (All-append_left _ before ((op, t, m) ∷ after) h) (omega arith))
        (chains t m after behind.0 behind.1 (omega arith))

  eval-Chains : (f : ℕ) → Chains f
  unfolding Chains Split
  eval-Chains zero a n ts ha h fuel = elim fuel [ ]
  eval-Chains (suc f) a n ts ha h fuel = elim (place_of ts) [
    | inl e ↦ subst (λ us. Computes (suc f) a n us) (sym e) (one_term f a n ha)
    | inr (inl (before, t, m, after, e, lacks)) ↦
        let h' : AreTerms (before ++ (plus, t, m) ∷ after) = subst AreTerms e h in
        let fuel' : length (render a (before ++ (plus, t, m) ∷ after)) < suc f =
          subst (λ us. length (render a us) < suc f) e fuel in
        let behind : AreTerms ((plus, t, m) ∷ after) =
          All-append_right _ before ((plus, t, m) ∷ after) h' in
        let cut : last_cut (sign plus) (render a (before ++ (plus, t, m) ∷ after))
            ≡ some (render a before, render t after) =
          last_cut-render plus a before t m after behind.0.0 (terms-ArePlain after behind.1)
            lacks in
        subst (λ us. Computes (suc f) a n us) (sym e)
          (at_operator f plus a n before t m after (eval-Chains f) ha h' fuel'
            (operands-plus _ _ _ cut (render-Starts a before ha.0))
            (total-append n before ((plus, t, m) ∷ after) ∙ total-plus (total n before) m after))
    | inr (inr (before, t, m, e, lacks)) ↦
        let h' : AreTerms (before ++ (minus, t, m) ∷ []) = subst AreTerms e h in
        let fuel' : length (render a (before ++ (minus, t, m) ∷ [])) < suc f =
          subst (λ us. length (render a us) < suc f) e fuel in
        let behind : AreTerms ((minus, t, m) ∷ []) =
          All-append_right _ before ((minus, t, m) ∷ []) h' in
        let no_plus : last_cut (sign plus) (render a (before ++ (minus, t, m) ∷ [])) ≡ none =
          last_cut-Lacks plus a (before ++ (minus, t, m) ∷ []) ha.0 (terms-ArePlain _ h')
            (subst (Lacks plus) e lacks) in
        let cut : last_cut (sign minus) (render a (before ++ (minus, t, m) ∷ []))
            ≡ some (render a before, t) =
          last_cut-render minus a before t m [] behind.0.0 tt tt in
        subst (λ us. Computes (suc f) a n us) (sym e)
          (at_operator f minus a n before t m [] (eval-Chains f) ha h' fuel'
            (operands-minus _ _ _ no_plus cut (render-Starts a before ha.0))
            (total-append n before ((minus, t, m) ∷ [])))
  ]

-- An expression that is a term, or several with operators between them, which the run reads as
-- numbers: with more fuel than it has characters, `eval` has a value, and as a number that is what
-- the terms give from the left to the right, each sum and each difference wrapped to 64 bits.
pub eval-total :
    (f : ℕ) (x : Scope) (a : Text) (n : ℤ) (ts : List Term)
    → IsTerm x a n
    → AreTerms x ts
    → length (render a ts) < f
    → (v : Value) × (eval f x (render a ts) ≡ some (value v))
      × (to_int x.whole v ≡ some (total n ts))
unfolding Chains
eval-total f x a n ts ha h fuel = eval-Chains x f a n ts ha h fuel
