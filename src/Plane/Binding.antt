-- ===== src/Plane/Binding.antt =====
-- internal/controlplane/app.go: a user's devices, their binding to a hardware ID with the start of
-- the trial, and the subscription document that an app fetches.
pub mod Trials
use rmvpn.Base.{
  ℕ, ◌+◌, ◌*◌, String, Bool, true, false, not, ◌&&◌, ◌||◌, Option, none, some, List, [], ◌∷◌, ◌++◌,
  ◌==◌, any, find, keep, change, length, is_empty, sort_by, eqb, leb, ltb, if◌then◌else◌,
}
use rmvpn.Base.Int.{ℤ, pos}
use rmvpn.Base.Text.{Runes, trim_space}
use rmvpn.Base.Time.{Time, hour, after}
use rmvpn.Base.Outcome.{Result, ok, err, constraint_violated, problem}
use rmvpn.Crypto.{Crypto}
use rmvpn.Plane.Tables.{
  Plane, UserRow, SlotRow, SubscriptionRow, SubscriptionStatus, in_force, in_grace, pending_trial,
  expired, suspended, FingerprintRow, AssignmentRow, NodeRow, NodeStatus, healthy, PlanRow,
  device_revoke, pending, degraded, offline, draining,
}
use rmvpn.Plane.Queue.{of_user, is_slot, assigns, same_text}
use rmvpn.Plane.Hub.Connection.{is_unset, is_usable}
use rmvpn.Plane.Provision.{Signer, provision_device}
use rmvpn.Plane.Plans.{has_code}
use rmvpn.Plane.Roles.{is_user, queue_device_command, joined_role}
use rmvpn.Plane.Wallet.{flattened}
use rmvpn.Exec.{
  Method, pure, guard, or_raise, attempt, select, update, update_checked, handled, ◌>>=◌, ◌>>◌,
}

-- const currentTermsVersion
abbrev pub current_terms_version : String
current_terms_version = "2026-08-09"

abbrev pub trial_duration : ℕ
trial_duration = 3 * 24 * hour

-- What the query of subscriptionDocument gives.
pub record Document : Type 0 where
  pub device : SlotRow
  pub user : UserRow
  pub subscription : SubscriptionRow
  pub node_id : Option String

abbrev pub node_of : Option AssignmentRow → Option String
node_of none = none
node_of (some a) = some a.node_id

abbrev pub document_for :
    SlotRow → Option UserRow → Option SubscriptionRow → Option AssignmentRow → Option Document
document_for d none s a = none
document_for d (some u) none a = none
document_for d (some u) (some s) a =
    if u.is_blocked
    then none
    else some (record { device = d; user = u; subscription = s; node_id = node_of a })

abbrev pub document_of : Plane → Option SlotRow → Option Document
document_of p none = none
document_of p (some d) =
    document_for d (find (is_user d.user_id) p.users) (find (of_user d.user_id) p.subscriptions)
      (find (assigns d.device_id) p.node_assignments)

abbrev pub has_token : String → SlotRow → Bool
has_token digest d = d.subscription_token_hash == digest && is_unset d.revoked_at

unfoldable pub document : String → Plane → Option Document
document digest p = document_of p (find (has_token digest) p.devices)

-- telegram_subject=… OR hwid_hmac=…
abbrev pub is_used : String → String → FingerprintRow → Bool
is_used subject fingerprint row = row.telegram_subject == subject || row.hwid_hmac == fingerprint

abbrev pub same_fingerprint : String → String → FingerprintRow → Bool
same_fingerprint subject fingerprint row =
    row.telegram_subject == subject && row.hwid_hmac == fingerprint

abbrev pub fingerprint_row : String → String → FingerprintRow
fingerprint_row subject fingerprint = record { telegram_subject = subject; hwid_hmac = fingerprint }

-- INSERT INTO trial_fingerprints, by its primary key
unfoldable pub insert_fingerprint : String → String → Plane → Result Plane
insert_fingerprint subject fingerprint p =
    if any (same_fingerprint subject fingerprint) p.trial_fingerprints
    then err constraint_violated
    else ok (record p {
      trial_fingerprints = p.trial_fingerprints ++ fingerprint_row subject fingerprint ∷ [];
    })

abbrev pub is_pending : SubscriptionStatus → Bool
is_pending pending_trial = true
is_pending s = false

abbrev pub awaits_trial : String → SubscriptionRow → Bool
awaits_trial user s = of_user user s && is_pending s.status

abbrev pub trial_started : Time → SubscriptionRow → SubscriptionRow
trial_started now s = record s {
  status = in_force;
  period_started_at = some now;
  period_ends_at = some (now + trial_duration);
  quota_bytes = pos 20_000_000_000;
}

abbrev pub start_trial : Time → String → Plane → Plane
start_trial now user p = record p {
  subscriptions = change (awaits_trial user) (trial_started now) p.subscriptions;
}

abbrev pub bound : Time → String → SlotRow → SlotRow
bound now fingerprint d = record d {
  hwid_hmac = some fingerprint;
  last_bound_at = some now;
  last_seen_at = some now;
}

abbrev pub on_slot : String → (SlotRow → SlotRow) → Plane → Plane
on_slot device f p = record p { devices = change (is_slot device) f p.devices }

module _ (now : Time) (fingerprint : String) where
  unfoldable pub take_trial : String → String → Method Plane SubscriptionStatus
  unfolding select update update_checked insert_fingerprint
  take_trial subject user = do
    reused ← select (λ p. any (is_used subject fingerprint) p.trial_fingerprints)
    guard (not reused) (problem 409 "trial-used")
    update (start_trial now user)
    update_checked (insert_fingerprint subject fingerprint)
    pure in_force

  abbrev pub wants_trial : SubscriptionRow → Bool
  wants_trial s = s.plan_code == "TRIAL" && is_pending s.status

  unfoldable pub trial_if : Bool → Document → Method Plane SubscriptionStatus
  unfolding take_trial
  trial_if false doc = pure doc.subscription.status
  trial_if true doc = take_trial doc.user.telegram_subject doc.device.user_id

  unfoldable pub bind_body : Document → Method Plane SubscriptionStatus
  unfolding trial_if update
  bind_body doc = do
    status ← trial_if (wants_trial doc.subscription) doc
    update (on_slot doc.device.device_id (bound now fingerprint))
    pure status

  -- The device's hardware ID is stored, or compared with the stored one.
  unfoldable pub bind_device : Document → Option String → Method Plane SubscriptionStatus
  unfolding handled bind_body
  bind_device doc none = handled (problem 500 "") (problem 500 "bind") (bind_body doc)
  bind_device doc (some stored) = do
    guard (stored == fingerprint) (problem 409 "hwid-mismatch")
    pure doc.subscription.status

abbrev pub is_healthy : NodeStatus → Bool
is_healthy healthy = true
is_healthy s = false

abbrev pub is_fetched : Time → Option Time → Bool
is_fetched now none = false
is_fetched now (some t) = ltb now (t + 6 * hour)

abbrev pub is_route : Time → NodeRow → Bool
is_route now n =
    is_healthy n.status && is_fetched now n.compliance_fetched_at && n.supports_websocket

abbrev pub first_node : List NodeRow → Option String
first_node [] = none
first_node (n ∷ ns) = some n.node_id

abbrev pub assign : Time → String → String → Plane → Plane
assign now device node p = record p {
  node_assignments =
      if any (assigns device) p.node_assignments
      then change (assigns device) (λ a. record a { node_id = node }) p.node_assignments
      else p.node_assignments
        ++ record { device_id = device; node_id = node; provisioned_at = some now } ∷ [];
}

-- What the handler calls: `hwid` is Vault.HWID, `opened` Vault.Decrypt of a device's credential, and
-- `lighter` the order of the routes by load and round-trip time.
pub record Portal : Type 0 where
  pub signer : Signer
  pub hwid : Runes → String
  pub opened : SlotRow → Option String
  pub lighter : NodeRow → NodeRow → Bool

module _ (a : Portal) (now : Time) where
  unfoldable pub choose_node : String → Option String → Method Plane String
  unfolding select update sort_by
  choose_node device (some node) = pure node
  choose_node device none = do
    found ← attempt (select (λ p. first_node (sort_by a.lighter (keep (is_route now) p.nodes))))
    node ← or_raise (problem 503 "no-route") (joined_role found)
    attempt (update (assign now device node))
    pure node

  -- The credential and the node that the document's URI is made of.
  unfoldable pub subscription_document : String → Runes → Method Plane (String × String)
  unfolding select update trim_space document bind_device choose_node provision_device
  subscription_document token header = do
    let hwid = trim_space header
    guard (not (is_empty hwid)) (problem 428 "hwid-required")
    found ← attempt (select (document (a.signer.crypto.sha256 token)))
    doc ← or_raise (problem 404 "subscription-token") (flattened found)
    guard (same_text current_terms_version doc.user.terms_version) (problem 428 "terms-required")
    status ← bind_device now (a.hwid hwid) doc doc.device.hwid_hmac
    attempt (update (on_slot doc.device.device_id (λ d. record d { last_seen_at = some now })))
    guard (is_usable status) (problem 403 "subscription-inactive")
    node ← choose_node doc.device.device_id doc.node_id
    provisioned ← attempt (provision_device a.signer now doc.device.device_id node)
    or_raise (problem 503 "provisioning") provisioned
    credential ← or_raise (problem 500 "credential") (a.opened doc.device)
    pure (credential, node)
