-- ===== src/Common/Dict.antt =====
-- A Go map keyed by text, as an association list: the first entry of a key counts.
use mathlib.Core.Path.{◌≡◌, refl, ◌∙◌}
use mathlib.Core.Bool.{Bool, true, false}
use mathlib.Core.Option.{Option, none, some}
use mathlib.Core.List.{List, [], ◌∷◌, ◌++◌}
use Prim.Native.String.{String}
use native.Mathlib.Omega.{arith}
use text.Mathlib.Text.{◌==◌ as str_eq}
use text.Mathlib.TextEquality.{eq_iff}
use chaos_test.Common.Tests.{if◌then◌else◌}

abbrev pub Dict {ℓ} : Type ℓ → Type ℓ
Dict V = List (String × V)

module _ {ℓ} {V : Type ℓ} where
  unfoldable pub lookup : String → Dict V → Option V
  lookup wanted [] = none
  lookup wanted ((key, held) ∷ rest) =
      let later = lookup wanted rest in if str_eq key wanted then some held else later

  -- `m[key] = value`, in place where the key is present.
  unfoldable pub insert : String → V → Dict V → Dict V
  insert new value [] = (new, value) ∷ []
  insert new value ((key, held) ∷ rest) =
      let below = insert new value rest in
      if str_eq key new then (new, value) ∷ rest else (key, held) ∷ below

  -- `delete(m, key)`
  unfoldable pub delete : String → Dict V → Dict V
  delete gone [] = []
  delete gone ((key, held) ∷ rest) =
      let below = delete gone rest in if str_eq key gone then below else (key, held) ∷ below

  unfoldable pub has : String → Dict V → Bool
  has k m = elim (lookup k m) [ none ↦ false | some v ↦ true ]

  pub lookup-insert :
      (new wanted : String) (value : V) (m : Dict V)
      → lookup wanted (insert new value m)
        ≡ (if str_eq new wanted then some value else lookup wanted m)
  unfolding lookup insert
  lookup-insert new wanted value [] = refl
  lookup-insert new wanted value ((key, held) ∷ rest) = ground (
    arith,
    lookup-insert new wanted value rest,
    eq_iff key wanted,
    eq_iff new wanted,
    eq_iff key new,
  )

  pub lookup-insert_self : (k : String) (v : V) (m : Dict V) → lookup k (insert k v m) ≡ some v
  lookup-insert_self k v m = lookup-insert k k v m ∙ rw ((eq_iff k k).1 refl)

  pub lookup-delete :
      (gone wanted : String) (m : Dict V)
      → lookup wanted (delete gone m) ≡ (if str_eq gone wanted then none else lookup wanted m)
  unfolding lookup delete
  lookup-delete gone wanted [] = ground arith
  lookup-delete gone wanted ((key, held) ∷ rest) = ground (
    arith,
    lookup-delete gone wanted rest,
    eq_iff key wanted,
    eq_iff gone wanted,
    eq_iff key gone,
  )

  pub lookup-delete_self : (k : String) (m : Dict V) → lookup k (delete k m) ≡ none
  lookup-delete_self k m = lookup-delete k k m ∙ rw ((eq_iff k k).1 refl)

  pub has-insert :
      (k j : String) (v : V) (m : Dict V)
      → has j (insert k v m) ≡ (if str_eq k j then true else has j m)
  unfolding has
  has-insert k j v m = ground (arith, lookup-insert k j v m)

  pub has-delete :
      (k j : String) (m : Dict V) → has j (delete k m) ≡ (if str_eq k j then false else has j m)
  unfolding has
  has-delete k j m = ground (arith, lookup-delete k j m)

-- Membership in a list of texts, and lists without repetition.
unfoldable pub contains : List String → String → Bool
contains [] s = false
contains (x ∷ xs) s = if str_eq x s then true else contains xs s

abbrev pub Distinct : List String → Type 0
Distinct [] = Unit
Distinct (x ∷ xs) = (contains xs x ≡ false) × Distinct xs

pub contains-append_one :
    (xs : List String) (y k : String)
    → contains (xs ++ y ∷ []) k ≡ (if contains xs k then true else str_eq y k)
unfolding contains
contains-append_one [] y k = ground arith
contains-append_one (x ∷ xs) y k = ground (arith, contains-append_one xs y k)

pub Distinct-append_one :
    (xs : List String) (y : String) → Distinct xs → contains xs y ≡ false → Distinct (xs ++ y ∷ [])
unfolding contains
Distinct-append_one [] y d n = (refl, tt)
Distinct-append_one (x ∷ xs) y d n = (
  ground (arith, contains-append_one xs y x, eq_iff x y, eq_iff y x),
  Distinct-append_one xs y d.1 (ground arith),
)
