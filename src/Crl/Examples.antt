-- ===== src/Crl/Examples.antt =====
-- The theorems of the revocation list at concrete reports.
use mrmi_gateway.Prelude.{pos, String, true, List, [], ◌∷◌, ◌≡◌, ◌≢◌, ◌↔◌}
use mrmi_gateway.Crl.{Entry, Store, empty, is_revoked, merge}
use mrmi_gateway.Crl.Laws.{Report, receive, held, Has, Reported, is_revoked-receive_iff}
use mrmi_gateway.Crl.Merge.{KnowsAll, merge_idem}

abbrev reports : List Report
reports =
    (record { node_id = "n1"; reason = "stolen key"; sig = "s1"; at = pos 1 })
    ∷ (record { node_id = "n2"; reason = "spam"; sig = "s1"; at = pos 2 })
    ∷ (record { node_id = "n1"; reason = "again"; sig = "s2"; at = pos 3 })
    ∷ []

is_revoked-receive_iff_example :
    (is_revoked "n1" (receive reports empty) ≡ true)
    ↔ ((x : String) × (y : String) × (x ≢ y) × Reported "n1" x reports × Reported "n1" y reports)
is_revoked-receive_iff_example = is_revoked-receive_iff "n1" reports

abbrev from_peer : List Entry
from_peer =
    (record { node_id = "n2"; reason = "spam"; revoked_at = pos 2; signatures = "s3" ∷ "s4" ∷ [] })
    ∷ []

abbrev store : Store
store = receive reports empty

merge_idem_example :
    (merge from_peer (pos 9) (merge from_peer (pos 5) store) ≡ merge from_peer (pos 5) store)
    × ((k sig : String) → Has (held k store) sig → Has (held k (merge from_peer (pos 5) store)) sig)
    × KnowsAll (merge from_peer (pos 5) store) from_peer
merge_idem_example = merge_idem from_peer (pos 5) (pos 9) store
