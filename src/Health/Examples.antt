-- ===== src/Health/Examples.antt =====
-- bsv-regtest/teranode/health.go: a document in which two services share a store that one of them
-- cannot reach.
use mathlib.Core.List.{Perm}
use chaos_test.Common.{◌≡◌, refl, Bool, true, false, none, some, List, [], ◌∷◌, map, ℤ, pos, negsuc}
use chaos_test.Common.Int.{eqb_ℤ}
use chaos_test.Logs.Cursor.{parse_int, parse_uint}
use chaos_test.Logs.Text.{Text, codes, text_eq}
use chaos_test.Health.{
  Check, Doc, doc, Docs, none_more, and_more, HealthDep, Key, Rows, atoi, row_of, add_service,
  contains_str, note_check, walk, key_eq, text_less, row_less, insert_row, sort_rows,
  flatten_health, get_health,
}
use chaos_test.Health.Reached.{has_row, listed, reaches, reaches_any, reached}
use chaos_test.Health.Rows.{AreRows}
use chaos_test.Health.Contents.{row_at, first_with, IsRow}
use chaos_test.Health.Order.{IsOrdered, flatten_health-rows}

abbrev check : Text → Text → Text → Text → Check
check status service resource err = record {
  status = status;
  service = service;
  resource = resource;
  error = err;
  message = [];
}

abbrev well : Doc
well = doc (check (codes "200") [] (codes "utxo") (codes "<nil>")) none_more none_more

abbrev unwell : Doc
unwell = doc (check (codes "503") [] (codes "utxo") (codes "gone")) none_more none_more

abbrev service : Text → Docs → Doc
service name deps = doc (check (codes "200") name [] []) none_more deps

abbrev node_doc : Doc
node_doc =
    doc (check (codes "503") [] [] [])
      (and_more (service (codes "a") (and_more well (and_more well none_more)))
        (and_more (service (codes "b") (and_more unwell (and_more well none_more))) none_more))
      none_more

flatten_health-rows_example :
    (rows : Rows) × IsOrdered (flatten_health node_doc)
    × Perm (flatten_health node_doc) (map (λ (r : Key × HealthDep). r.1) rows)
    × AreRows rows
    × ((k : Key) → has_row rows k ≡ reaches_any (reached [] node_doc) k)
    × ((k : Key) (s : Text) → listed rows k s ≡ reaches (reached [] node_doc) k s)
    × ((k : Key) (r : HealthDep)
        → row_at rows k ≡ some r
        → (c : Check) × (first_with (reached [] node_doc) k ≡ some c) × IsRow c r)
flatten_health-rows_example = flatten_health-rows node_doc

abbrev row : ℤ → Text → List Text → Bool → HealthDep
row status err seen ok = record {
  resource = codes "utxo";
  status = status;
  error = err;
  message = [];
  seen_in = seen;
  is_ok = ok;
}

-- The failing row is first though it is found second; the other one names both services.
two_rows :
    flatten_health node_doc
    ≡ row (pos 503) (codes "gone") (codes "b" ∷ []) false
      ∷ row (pos 200) [] (codes "a" ∷ codes "b" ∷ []) true
      ∷ []
unfolding flatten_health walk note_check row_of add_service contains_str atoi parse_int parse_uint
    key_eq text_eq sort_rows insert_row row_less text_less eqb_ℤ
two_rows = refl

-- A body that does not parse keeps the status of the answer.
no_document : (get_health (pos 503) (codes "oops") none).overall_status ≡ pos 503
unfolding get_health
no_document = refl

-- A status that is no int64 is clamped.
far_out : atoi (codes "-99999999999999999999") ≡ negsuc 9223372036854775807
unfolding atoi parse_int parse_uint
far_out = refl
