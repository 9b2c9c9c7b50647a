-- ===== src/Store/Notices.antt =====
-- store.go: the tables `alerts` and `compliance`.
use rmvpn.Base.{
  String, Bool, false, Option, none, some, List, [], ◌∷◌, ◌++◌, map, ◌==◌, leb, any, keep, change,
  sort_by, if◌then◌else◌,
}
use rmvpn.Base.Time.{Time, unix, of_unix}
use rmvpn.Model.{Alert}
use rmvpn.Node.Tables.{Store, AlertRow, ComplianceRow}
use rmvpn.Exec.{M, query, exec}

abbrev pub has_code : String → AlertRow → Bool
has_code code row = row.code == code

abbrev pub alert_row : Alert → AlertRow
alert_row a = record {
  code = a.code;
  severity = a.severity;
  message = a.message;
  created_at = unix a.created_at;
  active = a.active;
}

unfoldable pub put_alert : Alert → List AlertRow → List AlertRow
put_alert a rows =
    if any (has_code a.code) rows
    then change (has_code a.code) (λ _. alert_row a) rows
    else rows ++ alert_row a ∷ []

unfoldable pub set_alert : Alert → M (Unit {0})
unfolding exec put_alert
set_alert a = exec (λ s. record s { alerts = put_alert a s.alerts })

abbrev pub resolved : String → Store → Store
resolved code s = record s {
  alerts = change (has_code code) (λ row. record row { active = false }) s.alerts;
}

unfoldable pub resolve_alert : String → M (Unit {0})
unfolding exec
resolve_alert code = exec (resolved code)

abbrev pub scan_alert : AlertRow → Alert
scan_alert row = record {
  code = row.code;
  severity = row.severity;
  message = row.message;
  created_at = of_unix row.created_at;
  active = row.active;
}

unfoldable pub active_alerts : M (List Alert)
unfolding query sort_by
active_alerts = query (λ s.
    map scan_alert (sort_by (λ a b. leb a.created_at b.created_at) (keep (λ a. a.active) s.alerts)))

pub record ComplianceFeed : Type 0 where
  pub version : String
  pub updated_at : Time
  pub expires_at : Time
  pub rules_json : String
  pub signature : String

abbrev pub feed_row : ComplianceFeed → ComplianceRow
feed_row feed = record {
  version = feed.version;
  updated_at = unix feed.updated_at;
  expires_at = unix feed.expires_at;
  rules_json = feed.rules_json;
  signature = feed.signature;
}

unfoldable pub save_compliance : ComplianceFeed → M (Unit {0})
unfolding exec
save_compliance feed = exec (λ s. record s { compliance = some (feed_row feed) })

abbrev pub scan_feed : Option ComplianceRow → Option ComplianceFeed
scan_feed none = none
scan_feed (some row) = some (record {
  version = row.version;
  updated_at = of_unix row.updated_at;
  expires_at = of_unix row.expires_at;
  rules_json = row.rules_json;
  signature = row.signature;
})

unfoldable pub compliance : M (Option ComplianceFeed)
unfolding query
compliance = query (λ s. scan_feed s.compliance)
