-- ===== src/Tests/Planes.antt =====
-- The control plane's theorems at a plane with one user, one device and one node.
use rmvpn.Plane.Slots.{Draw, create_device}
use rmvpn.Plane.Slots.Limits.{SlotStep, create_device_sound}
use rmvpn.Protocol.{verify_lease}
use rmvpn.Base.Rows.{Forall₂}
use rmvpn.Base.{String, true, false, none, some, List, [], ◌∷◌, ◌++◌, ◌≡◌, refl, arith}
use rmvpn.Base.Int.{pos, sql_add, add64, ◌-ℤ◌}
use rmvpn.Base.Text.{codes}
use rmvpn.Base.Time.{Time}
use rmvpn.Base.Outcome.{ok}
use rmvpn.Plane.Tables.{
  Plane, UserRow, PlanRow, LedgerRow, SubscriptionRow, in_force, pending_trial, SlotRow, NodeRow,
  healthy,
}
use rmvpn.Plane.Hub.Intake.{UsageReport, usage}
use rmvpn.Plane.Hub.Once.{usage_once}
use rmvpn.Plane.Hub.Counted.{uncounted}
use rmvpn.Plane.Hub.Totals.{uncounted-usage}
use rmvpn.Plane.Wallet.{WalletChange}
use rmvpn.Plane.Wallet.Ledger.{IsSound, IsBalanced, booked}
use rmvpn.Plane.History.{Request, credit, adjustment, plan_change, serve_all, serve_all-IsSound}
use rmvpn.Plane.Provision.{new_lease, Signer, provision_device}
use rmvpn.Plane.Provision.Granted.{Grant}
use rmvpn.Plane.Provision.Grants.{provision_device_sound, new_lease_verifies}
use rmvpn.Plane.Lifecycle.{subscription_lifecycle}
use rmvpn.Plane.Lifecycle.Steps.{Passes}
use rmvpn.Plane.Lifecycle.Transitions.{subscription_lifecycle_sound}
use rmvpn.Plane.Roles.{set_admin_role, remove_admin_role}
use rmvpn.Plane.Roles.Owners.{IsOwned, answering, roles-IsOwned}
use rmvpn.Plane.Binding.{Document, bind_device}
use rmvpn.Plane.Binding.Trials.{TrialStep, bind_device_trial}
use rmvpn.Exec.{Run}
use rmvpn.Tests.Samples.{toy_crypto, toy_lease_bytes, digest}

abbrev phone : SlotRow
phone = record {
  device_id = "phone";
  user_id = "u1";
  slot = 1;
  hwid_hmac = none;
  credential_hash = digest;
  subscription_token_hash = "token";
  last_bound_at = none;
  last_seen_at = none;
  revoked_at = none;
}

abbrev user : UserRow
user = record { user_id = "u1"; telegram_subject = "tg"; is_blocked = false; terms_version = none }

abbrev lite_period : SubscriptionRow
lite_period = record {
  user_id = "u1";
  plan_code = "LITE";
  pending_plan_code = none;
  status = in_force;
  period_started_at = some 0;
  period_ends_at = some 1_000;
  grace_ends_at = none;
  quota_bytes = pos 5_000;
  used_bytes = pos 10;
}

abbrev lite_plan : PlanRow
lite_plan = record {
  code = "LITE";
  price_kopecks = pos 14_900;
  period_seconds = pos 2_592_000;
  device_limit = 1;
  quota_bytes = pos 150_000_000_000;
}

abbrev node : NodeRow
node = record {
  node_id = "n1";
  status = healthy;
  certificate_serial = some "7";
  next_certificate_serial = none;
  compliance_version = none;
  compliance_fetched_at = none;
  last_heartbeat_at = none;
  supports_websocket = true;
}

abbrev opening : LedgerRow
opening = record {
  user_id = "u1";
  amount_kopecks = pos 20_000;
  balance_after_kopecks = pos 20_000;
  idempotency_key = "k0";
}

abbrev plane : Plane
plane = record {
  users = user ∷ [];
  user_roles = record { user_id = "u1"; role = "owner" } ∷ [];
  plans = lite_plan ∷ [];
  wallets = record { user_id = "u1"; balance_kopecks = pos 20_000 } ∷ [];
  ledger_entries = opening ∷ [];
  subscriptions = lite_period ∷ [];
  trial_fingerprints = [];
  devices = phone ∷ [];
  nodes = node ∷ [];
  node_assignments = record { device_id = "phone"; node_id = "n1"; provisioned_at = none } ∷ [];
  node_commands = [];
  last_command = 0;
  quota_leases = [];
  usage_events = [];
  audit_events = [];
  infers_types = true;
  notifications = [];
  online = [];
  written = [];
}

abbrev at_plane : Run Plane
at_plane = record { held = plane; faults = [] }

abbrev report : UsageReport
report = record { event_id = "1"; device_id = "phone"; rx_bytes = pos 30; tx_bytes = pos 12 }

usage_counts :
    uncounted "u1" (usage 5 "n1" "m" (some (report ∷ report ∷ [])) at_plane).1.held ≡ some (pos 10)
unfolding usage uncounted sql_add add64 ◌-ℤ◌
usage_counts = refl

uncounted-usage_example :
    uncounted "u1" (usage 5 "n1" "m" (some (report ∷ report ∷ [])) at_plane).1.held
    ≡ uncounted "u1" at_plane.held
uncounted-usage_example = uncounted-usage "u1" 5 "n1" "m" (some (report ∷ report ∷ [])) at_plane

abbrev after_usage : Run Plane
after_usage = (usage 5 "n1" "m" (some (report ∷ [])) at_plane).1

taken : (usage 5 "n1" "m" (some (report ∷ [])) at_plane).0 ≡ ok tt
unfolding usage sql_add add64
taken = refl

kept : after_usage.held.usage_events ≡ after_usage.held.usage_events ++ []
unfolding usage sql_add add64
kept = refl

usage_once_example :
    (usage 9 "n1" "again" (some (report ∷ [])) after_usage).1.held ≡ record after_usage.held {
      written = (usage 9 "n1" "again" (some (report ∷ [])) after_usage).1.held.written;
    }
usage_once_example =
    usage_once 5 9 "n1" "m" "again" (report ∷ []) at_plane after_usage [] taken kept

abbrev signer : Signer
signer = record {
  crypto = toy_crypto;
  lease_bytes = toy_lease_bytes;
  signing_key = some "key";
  new_lease_id = λ device. "lease";
}

abbrev gift : WalletChange
gift = record {
  amount_kopecks = pos 500;
  fits = omega arith;
  reason = codes "gift";
  idempotency_key = "";
}

balanced : (v : String) → IsBalanced v plane
unfolding booked
balanced v = record { exact = ground arith; nonnegative = ground arith; fits = ground arith }

plane-IsSound : IsSound at_plane.held
plane-IsSound = record { of_user = balanced; priced = (omega arith, tt) }

abbrev requests : List Request
requests =
    credit "u1" "u1" "k1" (some gift)
    ∷ adjustment "u1" "u1" "k2" (some gift)
    ∷ plan_change true signer 5 "u1" (some "LITE") "k3"
    ∷ []

serve_all-IsSound_example : IsSound (serve_all requests at_plane).held
serve_all-IsSound_example = serve_all-IsSound requests at_plane plane-IsSound

provision_device_sound_example :
    Grant signer 5 "phone" "n1" at_plane.held
      (provision_device signer 5 "phone" "n1" at_plane).1.held
provision_device_sound_example = provision_device_sound signer 5 "phone" "n1" at_plane

new_lease_verifies_example :
    verify_lease toy_crypto toy_lease_bytes
      (toy_crypto.public_key "key")
      6
      (new_lease signer 5 "key" "phone" "n1" (pos 7))
    ≡ ok tt
new_lease_verifies_example =
    new_lease_verifies signer 5 6 "key" "phone" "n1" (pos 7) (λ e. cc) (λ e. cc) (λ e. cc)
      (omega arith) (omega arith) (omega arith)

abbrev renew_key : String → Time → String
renew_key owner t = "renew"

renewal_runs : (subscription_lifecycle renew_key 2_000 at_plane).0 ≡ ok tt
unfolding subscription_lifecycle
renewal_runs = refl

subscription_lifecycle_sound_example :
    Forall₂
      (Passes 2_000 at_plane.held)
      at_plane.held.subscriptions
      (subscription_lifecycle renew_key 2_000 at_plane).1.held.subscriptions
subscription_lifecycle_sound_example =
    subscription_lifecycle_sound renew_key 2_000 at_plane renewal_runs

one_owner : IsOwned plane.user_roles
one_owner = record { single = λ v. ground arith; owned = omega arith }

roles-IsOwned_example :
    IsOwned
      (set_admin_role "u1" "u1"
        (some ("auditor", codes "test"))
        (answering plane)).1.held.user_roles
    × IsOwned
        (remove_admin_role "u1" "u1" (some (codes "test")) (answering plane)).1.held.user_roles
roles-IsOwned_example =
    roles-IsOwned "u1" "u1" (some ("auditor", codes "test")) (some (codes "test")) plane one_owner

abbrev trial_document : Document
trial_document = record {
  device = phone;
  user = user;
  subscription = record lite_period { plan_code = "TRIAL"; status = pending_trial };
  node_id = none;
}

abbrev awaiting : Run Plane
awaiting = record at_plane {
  held = record at_plane.held {
    subscriptions = trial_document.subscription ∷ [];
    trial_fingerprints = record { telegram_subject = "t9"; hwid_hmac = "old" } ∷ [];
  };
}

bind_device_trial_example :
    TrialStep 5 "hwid" trial_document awaiting.held
      (bind_device 5 "hwid" trial_document none awaiting).1.held
bind_device_trial_example = bind_device_trial 5 "hwid" trial_document none awaiting

-- A phone that was revoked makes room.
abbrev vacant : Run Plane
vacant = record at_plane {
  held = record at_plane.held { devices = record phone { revoked_at = some 1 } ∷ [] };
}

abbrev draw : Draw
draw = record { device_id = "tablet"; credential = "secret"; token = "drawn" }

create_device_sound_example :
    SlotStep toy_crypto "u1" draw vacant.held
      (create_device toy_crypto "u1" (some (codes "tablet")) draw vacant).1.held
create_device_sound_example =
    create_device_sound toy_crypto "u1" draw (some (codes "tablet")) vacant
