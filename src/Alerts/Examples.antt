-- ===== src/Alerts/Examples.antt =====
-- A run of bsv-regtest/alerts/wire.go at a concrete fund.
use chaos_test.Common.{ℕ, List, none, ◌≡◌, refl, inl, true, some, [], ◌∷◌, arith}
use chaos_test.Alerts.{Bytes, Fund}
use chaos_test.Alerts.Hex.{decode_hex, encode_hex, put_le}
use chaos_test.Alerts.Funds.{ok, model_of, serialize_all, funds_payload, funds, decode_funds}
use chaos_test.Alerts.Log.{Alert, Log, Call, appends, get, entries}
use chaos_test.Alerts.Log.Listing.{IsAscending, found, entries-appends}
use chaos_test.Alerts.RoundTrip.{layout, IsCanonical, decode_funds-funds_payload}

abbrev id : Bytes
id =
    0 ∷ 1 ∷ 2 ∷ 3 ∷ 4 ∷ 5 ∷ 6 ∷ 7 ∷ 8 ∷ 9 ∷ 10 ∷ 11 ∷ 12 ∷ 13 ∷ 14 ∷ 15 ∷ 240 ∷ 241 ∷ 242 ∷ 243
    ∷ 244 ∷ 245 ∷ 246 ∷ 247 ∷ 248 ∷ 249 ∷ 250 ∷ 251 ∷ 252 ∷ 253 ∷ 254 ∷ 255 ∷ []

abbrev frozen : Fund
frozen = record { tx_id = encode_hex id; vout = 1; start = 100; stop = 200; expires = true }

canonical : IsCanonical frozen
canonical = record {
  id = id;
  sized = refl;
  real = ground arith;
  text = refl;
  small_vout = omega arith;
  small_start = omega arith;
  small_stop = omega arith;
}

abbrev payload : Bytes
payload = layout (model_of frozen id)

built : funds_payload layout (frozen ∷ []) ≡ ok payload
unfolding funds_payload serialize_all decode_hex encode_hex put_le model_of
built = refl

decode_funds-funds_payload_example :
    decode_funds (λ wire. some (2, wire)) payload ≡ funds (frozen ∷ [])
decode_funds-funds_payload_example =
    decode_funds-funds_payload layout (λ m. refl) (λ wire. some (2, wire)) payload payload 2 frozen
      [] (canonical, tt) built refl (inl refl)

abbrev first : Alert
first = record { sequence = 1; kind = 2; timestamp = 5; wire = payload; hash = "aa" }

abbrev kept : Log
kept = (1, record { alert = first; note = ""; created_at = 6 }) ∷ []

-- Another alert under the same number, and one under the next, whose save fails.
abbrev two_more : List Call
two_more =
    record { built = record first { hash = "bb" }; remark = ""; now = 7; save = none }
    ∷ record {
      built = record first { sequence = 2 };
      remark = "";
      now = 8;
      save = some "disk full";
    }
    ∷ []

entries-appends_example :
    IsAscending (entries (appends two_more []))
    × ((k : ℕ) → found k (entries (appends two_more [])) ≡ get k (appends two_more []))
entries-appends_example = entries-appends two_more
