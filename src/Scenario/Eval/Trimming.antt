-- ===== src/Scenario/Eval/Trimming.antt =====
-- internal/scenario/executor.go: the white space around an expression; a chain of terms has none.
use mathlib.Core.List.{append_assoc, reverse, reverse-append, reverse-reverse}
use chaos_test.Common.{ℕ, ◌≡◌, refl, ap, sym, ◌∙◌, false, List, [], ◌∷◌, ◌++◌, All}
use chaos_test.Logs.Text.{Text, is_space, trim_left, trim_space}
use chaos_test.Scenario.Eval.Terms.{Term, sign, render, IsPlain, ArePlain}

-- The text ends with something other than a space.
abbrev Closed : Text → Type 0
Closed s = (u : Text) × (d : ℕ) × (s ≡ u ++ d ∷ []) × (is_space d ≡ false)

plain-Closed :
    (a : Text)
    → All (λ (d : ℕ). is_space d ≡ false) a
    → (c : ℕ) → is_space c ≡ false
    → Closed (c ∷ a)
plain-Closed [] h c hc = ([], c, refl, hc)
plain-Closed (d ∷ a) h c hc =
    let (u, e, split, he) = plain-Closed a h.1 d h.0 in (c ∷ u, e, ap (◌∷◌ c) split, he)

Closed-append : (b s : Text) → Closed s → Closed (b ++ s)
Closed-append b s (u, d, split, h) =
    (b ++ u, d, ap (◌++◌ b) split ∙ sym (append_assoc b u (d ∷ [])), h)

render-Closed : (a : Text) (ts : List Term) → IsPlain a → ArePlain ts → Closed (render a ts)
render-Closed [] ts h hs = elim h [ ]
render-Closed (c ∷ a) [] h hs = plain-Closed a h.2.1 c h.2.0
render-Closed a ((op, t, n) ∷ ts) h hs =
    Closed-append a (sign op ++ render t ts)
      (Closed-append (sign op) (render t ts) (render-Closed t ts hs.0 hs.1))

trim_left-stays : (c : ℕ) (s : Text) → is_space c ≡ false → trim_left (c ∷ s) ≡ c ∷ s
unfolding trim_left
trim_left-stays c s h = rw h

trim_space-stays :
    (c : ℕ) (s : Text) → is_space c ≡ false → Closed (c ∷ s) → trim_space (c ∷ s) ≡ c ∷ s
unfolding trim_space
trim_space-stays c s h (u, d, split, hd) =
    let back : reverse (c ∷ s) ≡ d ∷ reverse u = ap reverse split ∙ reverse-append u (d ∷ []) in
    ap (λ t. reverse (trim_left (reverse t))) (trim_left-stays c s h)
    ∙ ap (λ t. reverse (trim_left t)) back
    ∙ ap reverse (trim_left-stays d (reverse u) hd ∙ sym back)
    ∙ reverse-reverse (c ∷ s)

pub trim_space-render :
    (a : Text) (ts : List Term) → IsPlain a → ArePlain ts → trim_space (render a ts) ≡ render a ts
trim_space-render [] ts h hs = elim h [ ]
trim_space-render (c ∷ a) [] h hs = trim_space-stays c a h.2.0 (render-Closed (c ∷ a) [] h hs)
trim_space-render (c ∷ a) (t ∷ ts) h hs =
    trim_space-stays c _ h.2.0 (render-Closed (c ∷ a) (t ∷ ts) h hs)
