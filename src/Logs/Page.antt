-- ===== src/Logs/Page.antt =====
-- internal/logs/page.go: from a raw window and a cursor to a page and the next cursor.
pub mod Resume
pub mod Limits
use chaos_test.Common.{
  ℕ, zero, suc, ◌+◌, ◌-◌, ℤ, pos, negsuc, Bool, true, false, not, ◌&&◌, ◌||◌, Option, none, some,
  List, [], ◌∷◌, ◌++◌, map, ltb, ◌==◌, if◌then◌else◌, length, last_n, keep,
}
use chaos_test.Common.Int.{◌+ℤ◌, ◌-ℤ◌, leb_ℤ, ltb_ℤ, pos_part}
use chaos_test.Logs.Text.{Text, codes, text_eq}
use chaos_test.Logs.Line.{Time, is_zero, Line, raw_sum}
use chaos_test.Logs.Parse.{Clock, scan}
use chaos_test.Logs.Cursor.{Cursor, locate, mark_of, encode}
use chaos_test.Logs.Filter.{Texts, Filter, matches}

abbrev pub default_limit : ℕ
default_limit = 2000

abbrev pub max_lines : ℕ
max_lines = 5000

pub record Request : Type 0 where
  pub cursor : Cursor
  pub has_cursor : Bool
  pub limit : ℤ
  pub filter : Filter
  pub keep_raw : Bool

abbrev pub Facets : Type 0
Facets = List (Text × ℕ)

pub record Page : Type 0 where
  pub lines : List Line
  pub next_cursor : Text
  pub reset : Bool
  pub reset_reason : Text
  pub scanned : ℕ
  pub matched : ℕ
  pub dropped : ℕ
  pub levels : Facets
  pub services : Facets

unfoldable pub clamp_limit : ℤ → ℕ
clamp_limit limit =
    let n : ℕ = if leb_ℤ limit (pos 0) then default_limit else pos_part limit in
    if ltb max_lines n then max_lines else n

-- `m[k]++`
tally : Text → Facets → Facets
tally k [] = (k, 1) ∷ []
tally k ((j, n) ∷ m) = if text_eq j k then (j, n + 1) ∷ m else (j, n) ∷ tally k m

count_level : Line → Facets → Facets
count_level l m = if text_eq l.level [] then tally (codes "RAW") m else tally l.level m

count_service : Line → Facets → Facets
count_service l m = if text_eq l.service [] then m else tally l.service m

count_all : (Line → Facets → Facets) → List Line → Facets → Facets
count_all f [] m = m
count_all f (l ∷ ls) m = count_all f ls (f l m)

unfoldable pub last_stamped : List Line → Option Line
last_stamped [] = none
last_stamped (l ∷ ls) = elim (last_stamped ls) [
  | some last ↦ some last
  | none ↦ if is_zero l.at then none else some l
]

-- `b.After(a)`
abbrev pub after : Time → Time → Bool
after b a = ltb_ℤ a.nanos b.nanos

reset_reason : List Line → Cursor → Text
reset_reason [] c = codes "container_restarted"
reset_reason (l ∷ ls) c =
    if not (is_zero l.at) && after l.at c.ts
    then codes "log_rotated"
    else codes "container_restarted"

-- What is left of the window, what is added to its numbers, and why the cursor was not honoured.
pub record Resumed : Type 0 where
  pub fresh : List Line
  pub offset : ℤ
  pub lost : Option Text

unfoldable pub resume : Request → List Line → Resumed
unfolding reset_reason
resume req window =
    if req.has_cursor
    then elim (locate req.cursor window) [
      | some (older, newer) ↦ record {
        fresh = newer;
        offset = req.cursor.scanned -ℤ pos (raw_sum older);
        lost = none;
      }
      | none ↦ record {
        fresh = window;
        offset = pos 0;
        lost = some (reset_reason window req.cursor);
      }
    ]
    else record { fresh = window; offset = pos 0; lost = none }

unfoldable pub renumber : ℤ → List Line → List Line
renumber offset = map (λ (l : Line). record l { seq = l.seq +ℤ offset })

abbrev pub stand_at : Line → ℤ → Cursor
stand_at l n = record { ts = l.at; mark = mark_of l; scanned = n }

-- With no new lines the previous cursor is kept.
unfoldable pub advance : Cursor → List Line → List Line → ℤ → ℕ → Bool → Cursor
advance prev window fresh offset raw_total keep_prev = elim (last_stamped fresh) [
  | some last ↦ stand_at last (offset +ℤ pos raw_total)
  | none ↦ if keep_prev then prev else elim (last_stamped window) [
    | some last ↦ stand_at last (offset +ℤ pos raw_total)
    | none ↦ prev
  ]
]

abbrev pub is_lost : Option Text → Bool
is_lost none = false
is_lost (some why) = true

module _ (clock : Clock) (txt : Texts) where
  -- `Build`, once the window is scanned.
  unfoldable pub page_of : Request → List Line → ℕ → Page
  unfolding count_all count_level count_service tally
  page_of req window raw_total =
      let limit = clamp_limit req.limit in
      let r = resume req window in
      let fresh = renumber r.offset r.fresh in
      let hits = keep (matches txt req.filter) fresh in
      record {
        lines = if ltb limit (length hits) then last_n limit hits else hits;
        next_cursor = encode (
            advance req.cursor window fresh r.offset raw_total
              (req.has_cursor && not (is_lost r.lost)));
        reset = is_lost r.lost;
        reset_reason = elim r.lost [ none ↦ [] | some why ↦ why ];
        scanned = raw_sum fresh;
        matched = length hits;
        dropped = if ltb limit (length hits) then length hits - limit else 0;
        levels = count_all count_level fresh [];
        services = count_all count_service fresh [];
      }

  unfoldable pub build : Text → Request → Page
  build raw req =
      let (window, raw_total) = scan clock (pos 0) req.keep_raw raw in page_of req window raw_total
