-- ===== src/Api/Alerting/Examples.antt =====
-- internal/api/server.go: a freeze is built behind an alert that is recorded, and pushed.
use chaos_test.Common.{ℕ, ◌+◌, ◌<◌, ◌≡◌, refl, ap, sym, String, true, none, some, [], ◌∷◌, arith}
use chaos_test.Logs.Text.{codes, text_eq, bytes}
use chaos_test.Alerts.Log.{entries, insert_entry, Entry, Log, append, get, put, latest}
use chaos_test.Alerts.Payloads.{
  type_name, parse_type, informational_payload, set_keys_payload, build,
}
use chaos_test.Alerts.Sync.{Host, Dialed, Pushed}
use chaos_test.Alerts.Sync.Delivery.{pulling}
use chaos_test.Common.Text.{itoa}
use chaos_test.Topology.{node, answers_to, is_sv}
use chaos_test.Api.Examples.{stack, teranode2}
use chaos_test.Alerts.Funds.{decode_funds, funds_of}
use chaos_test.Api.Alerting.{
  AlertSummary, alert_summaries, summary_of, BuildRequest, Library, payload_of, sequence_of, Built,
  refused, build_alert, pushed, push_alert, unknown_node,
}
use chaos_test.Api.Alerting.Next.{alert_for, IsNext, build_alert-IsNext, IsDelivered, build-push}

abbrev lib : Library
lib = record {
  write_int_bytes = λ bs. bs;
  serialize = λ f. 7 ∷ [];
  sign = λ seq typ now payload keys. some (record { wire = seq ∷ payload; hash = "h" });
  signing = [] ∷ [] ∷ [] ∷ [];
}

abbrev old_entry : Entry
old_entry = record {
  alert = record { sequence = 4; kind = 1; timestamp = 0; wire = []; hash = "g" };
  note = "";
  created_at = 0;
}

abbrev one_alert : Log
one_alert = (4, old_entry) ∷ []

abbrev news : BuildRequest
news = record {
  kind = codes "informational";
  sequence = 0;
  funds = [];
  message = codes "hi";
  block_hash = [];
  reason = [];
  enforce_at = 0;
  tx_hex = [];
  peer = [];
  pub_keys = [];
  note = "n";
  watch = true;
}

abbrev new_entry : Entry
new_entry = record {
  alert = record { sequence = 5; kind = 1; timestamp = 60; wire = 5 ∷ 104 ∷ 105 ∷ []; hash = "h" };
  note = "n";
  created_at = 60;
}

abbrev after_news : Log
after_news = (4, old_entry) ∷ (5, new_entry) ∷ []

news_built :
    build_alert lib news 60 none one_alert
    ≡ record { entry = some new_entry; log = after_news; watched = []; announced = 5 ∷ [] }
unfolding build_alert parse_type type_name text_eq payload_of informational_payload bytes
    sequence_of latest build append get put
news_built = refl

abbrev publisher : Host
publisher = record { log = after_news; watermarks = []; default_wm = 0 }

abbrev dials : String → Dialed
dials name = pulling "peer" 5 1

small : latest one_alert < 4294967295
unfolding latest
small = omega arith

returned : (build_alert lib news 60 none one_alert).entry ≡ some new_entry
returned = ap (λ (b : Built). b.entry) news_built

logged : publisher.log ≡ (build_alert lib news 60 none one_alert).log
logged = ap (λ (b : Built). b.log) (sym news_built)

known : node "teranode2" stack ≡ some teranode2
unfolding node answers_to
known = refl

dialed : dials "teranode2" ≡ pulling "peer" (latest one_alert + 1) 1
unfolding latest
dialed = refl

build_alert-IsNext_example :
    IsNext news none
      (latest one_alert + 1)
      one_alert
      (alert_for lib news 60 (latest one_alert + 1))
      (build_alert lib news 60 none one_alert)
build_alert-IsNext_example = build_alert-IsNext lib news 60 none one_alert refl small

build-push_example :
    (r : Pushed) × ((push_alert stack dials "teranode2" 0 (some publisher)).0
      ≡ pushed (latest one_alert + 1) r)
    × IsDelivered new_entry (latest one_alert + 1) r
build-push_example =
    build-push lib news 60 none one_alert new_entry stack dials "teranode2" "peer" teranode2
      publisher refl small returned logged known dialed

-- An alert that could not be saved is an error, but its number is taken.
unsaved :
    build_alert lib news 60 (some "disk") one_alert
    ≡ record { entry = none; log = after_news; watched = []; announced = [] }
unfolding build_alert refused parse_type type_name text_eq payload_of informational_payload bytes
    sequence_of latest build append get put
unsaved = refl

nobody : (push_alert stack dials "teranode9" 0 (some publisher)).0 ≡ unknown_node
unfolding push_alert node answers_to is_sv itoa
nobody = refl

five_keys_wanted : set_keys_payload ([] ∷ []) ≡ none
unfolding set_keys_payload
five_keys_wanted = refl

abbrev listed : ℕ → String → String → ℕ → AlertSummary
listed seq hash note at = record {
  sequence = seq;
  type_text = codes "informational";
  hash = hash;
  note = note;
  created_at = at;
  funds = [];
}

-- The newest alert comes last, and is no freeze, so it shows no funds.
summaries :
    alert_summaries (λ w. some (1, w)) after_news ≡ listed 4 "g" "" 0 ∷ listed 5 "h" "n" 60 ∷ []
unfolding alert_summaries summary_of entries insert_entry type_name decode_funds funds_of
summaries = refl
