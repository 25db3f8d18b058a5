-- ===== src/Logs/Text.antt =====
-- What internal/logs uses of Go's strings, strconv, utf8 and hash/fnv, over lists of code points.
use Prim.Native.Nat.{bit_xor}
use Prim.Native.Char.{code}
use Prim.Native.String.{String}
use mathlib.Core.List.{reverse}
use chaos_test.Common.{
  ℕ, zero, suc, ◌+◌, ◌*◌, ◌/◌, ◌%◌, ◌^◌, ◌≡◌, ◌↔◌, refl, Bool, true, false, ◌&&◌, ◌||◌, Option,
  none, some, List, [], ◌∷◌, ◌++◌, arith, ltb, leb, ◌==◌, if◌then◌else◌,
}

abbrev pub Text : Type 0
Text = List ℕ

-- The code points of a literal.
abbrev pub codes : String → Text
codes String.[] = []
codes (String.◌∷◌ c s) = code c ∷ codes s

unfoldable pub text_eq : Text → Text → Bool
text_eq [] [] = true
text_eq (a ∷ s) (b ∷ t) = a == b && text_eq s t
text_eq _ _ = false

pub text_eq_iff : (s t : Text) → (text_eq s t ≡ true) ↔ (s ≡ t)
unfolding text_eq
text_eq_iff [] [] = (λ _. refl, λ _. refl)
text_eq_iff [] (b ∷ t) = (λ h. cc, λ h. cc)
text_eq_iff (a ∷ s) [] = (λ h. cc, λ h. cc)
text_eq_iff (a ∷ s) (b ∷ t) =
    (λ h. ground (arith, text_eq_iff s t), λ h. ground (arith, text_eq_iff s t))

-- `strings.HasPrefix(s, p)`, with what follows.
unfoldable pub strip_prefix : Text → Text → Option Text
strip_prefix [] s = some s
strip_prefix (p ∷ ps) [] = none
strip_prefix (p ∷ ps) (c ∷ s) = let rest = strip_prefix ps s in if p == c then rest else none

-- What stands before the first occurrence of `sep`, and what stands behind it.
unfoldable pub cut : Text → Text → Option (Text × Text)
cut sep [] = elim (strip_prefix sep []) [ some rest ↦ some ([], rest) | none ↦ none ]
cut sep (c ∷ s) = elim (strip_prefix sep (c ∷ s)) [
  | some rest ↦ some ([], rest)
  | none ↦ elim (cut sep s) [ some (before, after) ↦ some (c ∷ before, after) | none ↦ none ]
]

-- `strings.Contains(s, sep)`
unfoldable pub has_text : Text → Text → Bool
has_text s sep = elim (cut sep s) [ some p ↦ true | none ↦ false ]

-- `strings.SplitN(s, sep, n + 1)`, for a separator that is not empty.
unfoldable pub split_n : ℕ → Text → Text → List Text
split_n zero sep s = s ∷ []
split_n (suc n) sep s = elim (cut sep s) [
  | some (before, after) ↦ before ∷ split_n n sep after
  | none ↦ s ∷ []
]

extend_first : Bool → ℕ → List Text → List Text
extend_first true c parts = [] ∷ parts
extend_first false c [] = (c ∷ []) ∷ []
extend_first false c (p ∷ parts) = (c ∷ p) ∷ parts

-- `strings.Split(s, c)` for a separator of one code point.
unfoldable pub split_at : ℕ → Text → List Text
unfolding extend_first
split_at sep [] = [] ∷ []
split_at sep (c ∷ s) = extend_first (c == sep) c (split_at sep s)

-- `strings.TrimSuffix(s, c)` for a suffix of one code point.
unfoldable pub trim_suffix : ℕ → Text → Text
trim_suffix sep [] = []
trim_suffix sep (c ∷ []) = if c == sep then [] else c ∷ []
trim_suffix sep (c ∷ d ∷ s) = c ∷ trim_suffix sep (d ∷ s)

-- `unicode.IsSpace`
unfoldable pub is_space : ℕ → Bool
is_space c =
    c == 32
    || (leb 9 c && leb c 13)
    || c == 0x85
    || c == 0xa0
    || c == 0x1680
    || (leb 0x2000 c && leb c 0x200a)
    || c == 0x2028
    || c == 0x2029
    || c == 0x202f
    || c == 0x205f
    || c == 0x3000

unfoldable pub trim_left : Text → Text
trim_left [] = []
trim_left (c ∷ s) = let rest = trim_left s in if is_space c then rest else c ∷ s

unfoldable pub trim_space : Text → Text
trim_space s = reverse (trim_left (reverse (trim_left s)))

-- The UTF-8 bytes of a code point.
utf8 : ℕ → List ℕ
utf8 c =
    if ltb c 0x80
    then c ∷ []
    else if ltb c 0x800
    then (0xc0 + c / 64) ∷ (0x80 + c % 64) ∷ []
    else if ltb c 0x1_0000
    then (0xe0 + c / 4096) ∷ (0x80 + c / 64 % 64) ∷ (0x80 + c % 64) ∷ []
    else (0xf0 + c / 262144) ∷ (0x80 + c / 4096 % 64) ∷ (0x80 + c / 64 % 64) ∷ (0x80 + c % 64) ∷ []

unfoldable pub bytes : Text → List ℕ
unfolding utf8
bytes [] = []
bytes (c ∷ s) = utf8 c ++ bytes s

-- One `Write` to an FNV-1a hash of 64 bits.
unfoldable pub fnv_write : ℕ → List ℕ → ℕ
fnv_write h [] = h
fnv_write h (b ∷ bs) = fnv_write (bit_xor h b * 1099511628211 % 2 ^ 64) bs

abbrev pub fnv_basis : ℕ
fnv_basis = 14695981039346656037
