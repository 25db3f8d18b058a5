-- ===== src/Scenario/Eval/Terms.antt =====
-- internal/scenario/executor.go: where `eval` splits an expression that is written as a chain of
-- terms with operators between them.
use mathlib.Core.List.{append-nil}
use chaos_test.Common.{
  ℕ, ◌≡◌, refl, ap, sym, ◌∙◌, inl, inr, true, false, none, some, List, [], ◌∷◌, ◌++◌, arith, ◌==◌,
  All, Bool-cases, ℤ,
}
use chaos_test.Logs.Text.{Text, codes, is_space, strip_prefix}
use chaos_test.Scenario.Eval.{Operator, plus, minus, last_cut}

-- An operator, the text behind it, and the number that the text stands for.
abbrev pub Term : Type 0
Term = Operator × Text × ℤ

abbrev pub sign : Operator → Text
sign plus = codes " + "
sign minus = codes " - "

abbrev pub render : Text → List Term → Text
render a [] = a
render a ((op, t, n) ∷ ts) = a ++ (sign op ++ render t ts)

-- The text does not begin with a sign.
abbrev pub Starts : Text → Type 0
Starts [] = ⊥
Starts (c ∷ t) = ((43 == c) ≡ false) × ((45 == c) ≡ false)

-- No space in it, and it does not begin with a sign.
abbrev pub IsPlain : Text → Type 0
IsPlain [] = ⊥
IsPlain (c ∷ t) =
    ((43 == c) ≡ false) × ((45 == c) ≡ false) × All (λ (d : ℕ). is_space d ≡ false) (c ∷ t)

abbrev pub ArePlain : List Term → Type 0
ArePlain ts = All (λ (t : Term). IsPlain t.1) ts

module _ (sep : Text) where
  step_none :
      (d : ℕ) (s : Text)
      → last_cut sep s ≡ none
      → strip_prefix sep (d ∷ s) ≡ none
      → last_cut sep (d ∷ s) ≡ none
  unfolding last_cut
  step_none d s h e = rw (h, e, last_cut)

  step_some :
      (d : ℕ) (s before after : Text)
      → last_cut sep s ≡ some (before, after)
      → last_cut sep (d ∷ s) ≡ some (d ∷ before, after)
  unfolding last_cut
  step_some d s before after h = rw (h, last_cut)

  step_here :
      (d : ℕ) (s after : Text)
      → last_cut sep s ≡ none
      → strip_prefix sep (d ∷ s) ≡ some after
      → last_cut sep (d ∷ s) ≡ some ([], after)
  unfolding last_cut
  step_here d s after h e = rw (h, e, last_cut)

  skip_some :
      (u s before after : Text)
      → last_cut sep s ≡ some (before, after)
      → last_cut sep (u ++ s) ≡ some (u ++ before, after)
  skip_some [] s before after h = h
  skip_some (d ∷ u) s before after h =
      step_some d (u ++ s) (u ++ before) after (skip_some u s before after h)

not_space : (d : ℕ) → is_space d ≡ false → (32 == d) ≡ false
unfolding is_space
not_space d h = elim (Bool-cases (32 == d)) [
  | inl e ↦ let same : 32 ≡ d = ground arith in let bad : true ≡ false = ap is_space same ∙ h in cc
  | inr e ↦ e
]

no_sign :
    (op : Operator) (d : ℕ) (s : Text) → (32 == d) ≡ false → strip_prefix (sign op) (d ∷ s) ≡ none
unfolding strip_prefix
no_sign plus d s h = rw h
no_sign minus d s h = rw h

at_end : (op : Operator) → last_cut (sign op) [] ≡ none
unfolding last_cut
at_end op = refl

-- No operator begins in a text without a space.
skip_none :
    (op : Operator) (u s : Text)
    → All (λ (d : ℕ). is_space d ≡ false) u
    → last_cut (sign op) s ≡ none
    → last_cut (sign op) (u ++ s) ≡ none
skip_none op [] s h e = e
skip_none op (d ∷ u) s h e =
    step_none (sign op) d (u ++ s) (skip_none op u s h.1 e)
      (no_sign op d (u ++ s) (not_space d h.0))

-- A space before a term does not begin an operator.
space_none :
    (op : Operator) (s : Text)
    → Starts s
    → last_cut (sign op) s ≡ none
    → (d : ℕ) → (32 == d) ≡ false
    → last_cut (sign op) (d ∷ 32 ∷ s) ≡ none
unfolding strip_prefix
space_none op [] h e d hd = elim h [ ]
space_none plus (c ∷ s) h e d hd =
    let first : strip_prefix (sign plus) (32 ∷ c ∷ s) ≡ none = rw h.0 in
    step_none (sign plus) d (32 ∷ c ∷ s) (step_none (sign plus) 32 (c ∷ s) e first)
      (no_sign plus d (32 ∷ c ∷ s) hd)
space_none minus (c ∷ s) h e d hd =
    let first : strip_prefix (sign minus) (32 ∷ c ∷ s) ≡ none = rw h.1 in
    step_none (sign minus) d (32 ∷ c ∷ s) (step_none (sign minus) 32 (c ∷ s) e first)
      (no_sign minus d (32 ∷ c ∷ s) hd)

sign_here :
    (op : Operator) (s : Text)
    → Starts s
    → last_cut (sign op) s ≡ none
    → last_cut (sign op) (sign op ++ s) ≡ some ([], s)
unfolding strip_prefix
sign_here plus s h e = step_here (sign plus) 32 (43 ∷ 32 ∷ s) s (space_none plus s h e 43 refl) refl
sign_here minus s h e =
    step_here (sign minus) 32 (45 ∷ 32 ∷ s) s (space_none minus s h e 45 refl) refl

abbrev pub other : Operator → Operator
other plus = minus
other minus = plus

sign_none :
    (op : Operator) (s : Text)
    → Starts s
    → last_cut (sign op) s ≡ none
    → last_cut (sign op) (sign (other op) ++ s) ≡ none
unfolding strip_prefix
sign_none plus s h e = step_none (sign plus) 32 (45 ∷ 32 ∷ s) (space_none plus s h e 45 refl) refl
sign_none minus s h e =
    step_none (sign minus) 32 (43 ∷ 32 ∷ s) (space_none minus s h e 43 refl) refl

plain_nonspace : (a : Text) → IsPlain a → All (λ (d : ℕ). is_space d ≡ false) a
plain_nonspace [] h = elim h [ ]
plain_nonspace (c ∷ a) h = h.2

pub render-Starts : (a : Text) (ts : List Term) → IsPlain a → Starts (render a ts)
render-Starts [] ts h = elim h [ ]
render-Starts (c ∷ a) [] h = (h.0, h.1)
render-Starts (c ∷ a) (t ∷ ts) h = (h.0, h.1)

-- None of the terms stands behind `op`.
abbrev pub Lacks : Operator → List Term → Type 0
Lacks op ts = All (λ (t : Term). t.0 ≡ other op) ts

pub last_cut-Lacks :
    (op : Operator) (a : Text) (ts : List Term)
    → IsPlain a
    → ArePlain ts
    → Lacks op ts
    → last_cut (sign op) (render a ts) ≡ none
last_cut-Lacks op a [] h hs l =
    ap (last_cut (sign op)) (sym (append-nil a))
    ∙ skip_none op a [] (plain_nonspace a h) (at_end op)
last_cut-Lacks op a ((o, t, n) ∷ ts) h hs l =
    let later : last_cut (sign op) (render t ts) ≡ none = last_cut-Lacks op t ts hs.0 hs.1 l.1 in
    let signed : last_cut (sign op) (sign o ++ render t ts) ≡ none =
      ap (λ p. last_cut (sign op) (sign p ++ render t ts)) l.0
      ∙ sign_none op (render t ts) (render-Starts t ts hs.0) later in
    skip_none op a (sign o ++ render t ts) (plain_nonspace a h) signed

pub last_cut-render :
    (op : Operator) (a : Text) (before : List Term) (t : Text) (n : ℤ) (after : List Term)
    → IsPlain t
    → ArePlain after
    → Lacks op after
    → last_cut (sign op) (render a (before ++ (op, t, n) ∷ after))
      ≡ some (render a before, render t after)
last_cut-render op a [] t n after h hs l =
    let here : last_cut (sign op) (sign op ++ render t after) ≡ some ([], render t after) =
      sign_here op (render t after) (render-Starts t after h) (last_cut-Lacks op t after h hs l) in
    skip_some (sign op) a (sign op ++ render t after) [] (render t after) here
    ∙ ap (λ u. some (u, render t after)) (append-nil a)
last_cut-render op a ((o, u, k) ∷ before) t n after h hs l =
    let later : last_cut (sign op) (render u (before ++ (op, t, n) ∷ after))
        ≡ some (render u before, render t after) =
      last_cut-render op u before t n after h hs l in
    skip_some (sign op) a _ _ _ (skip_some (sign op) (sign o) _ _ _ later)
