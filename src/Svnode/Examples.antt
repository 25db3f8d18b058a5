-- ===== src/Svnode/Examples.antt =====
-- A blacklist of internal/svnode/client.go at concrete funds.
use chaos_test.Common.{false, List, [], ◌∷◌}
use chaos_test.Logs.Text.{codes}
use chaos_test.Alerts.{Fund}

abbrev two_funds : List Fund
two_funds =
    record { tx_id = codes "ab01"; vout = 0; start = 100; stop = 200; expires = false }
    ∷ record { tx_id = codes "cd02"; vout = 1; start = 0; stop = 0; expires = false }
    ∷ []
