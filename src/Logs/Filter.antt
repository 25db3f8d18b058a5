-- ===== src/Logs/Filter.antt =====
-- internal/logs/filter.go: which lines a reader sees. Go's `regexp`, `strings.ToUpper` and
-- `strings.ToLower` come in as `Texts`; a compiled expression is its match test.
use chaos_test.Common.{
  Bool, true, false, not, ◌&&◌, ◌||◌, Option, none, some, List, [], ◌∷◌, ◌++◌, if◌then◌else◌,
}
use chaos_test.Common.Int.{ltb_ℤ}
use chaos_test.Logs.Text.{Text, codes, text_eq, has_text, split_at, trim_space}
use chaos_test.Logs.Line.{Line, joined}
use chaos_test.Logs.Parse.{level_rank, rank}

pub record Texts : Type 0 where
  pub to_upper : Text → Text
  pub to_lower : Text → Text
  pub compile : Text → Option (Text → Bool)

pub record Filter : Type 0 where
  pub min_level : Text
  pub included : List Text
  pub excluded : List Text
  pub grep : Text
  pub re : Option (Text → Bool)
  pub case : Bool

pub data Parsed : Type 0 where
  ok : Filter → Parsed
  unknown_level bad_regex : Parsed

unfoldable pub contains : List Text → Text → Bool
contains [] s = false
contains (x ∷ xs) s = if text_eq x s then true else contains xs s

-- One item of the service list.
add_service : Text → Filter → Filter
add_service [] f = f
add_service (c ∷ s) f =
    if text_eq (c ∷ []) (codes "!")
    then record f { excluded = f.excluded ++ s ∷ [] }
    else record f { included = f.included ++ (c ∷ s) ∷ [] }

add_services : List Text → Filter → Filter
add_services [] f = f
add_services (s ∷ ss) f = add_services ss (add_service (trim_space s) f)

module _ (txt : Texts) where
  with_regex : Bool → Filter → Parsed
  with_regex use_regex f =
      if not (text_eq f.grep []) && use_regex
      then elim (txt.compile f.grep) [ none ↦ bad_regex | some re ↦ ok (record f { re = some re }) ]
      else ok f

  unfoldable pub parse_filter : Text → Text → Text → Bool → Bool → Parsed
  unfolding add_services add_service with_regex
  parse_filter level services grep use_regex case_sensitive =
      let wanted = txt.to_upper (trim_space level) in
      let f : Filter = record {
        min_level = [];
        included = [];
        excluded = [];
        grep = grep;
        re = none;
        case = case_sensitive;
      } in
      if text_eq wanted [] || text_eq wanted (codes "ALL")
      then with_regex use_regex (add_services (split_at b',' services) f)
      else elim (level_rank wanted) [
        | none ↦ unknown_level
        | some r ↦
            with_regex use_regex
              (add_services (split_at b',' services) (record f { min_level = wanted }))
      ]

  grep_matches : Filter → Text → Bool
  grep_matches f hay = elim f.re [
    | some re ↦ re hay
    | none ↦
        if f.case then has_text hay f.grep else has_text (txt.to_lower hay) (txt.to_lower f.grep)
  ]

  is_nil : List Text → Bool
  is_nil [] = true
  is_nil (x ∷ xs) = false

  unfoldable pub matches : Filter → Line → Bool
  unfolding grep_matches is_nil
  matches f l =
      if text_eq l.level []
      then true
      else if not (text_eq f.min_level []) && ltb_ℤ (rank l.level) (rank f.min_level)
      then false
      else if not (is_nil f.included) && not (contains f.included l.service)
      then false
      else if contains f.excluded l.service
      then false
      else if text_eq f.grep []
      then true
      else grep_matches f (joined l)
