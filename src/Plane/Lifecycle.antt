-- ===== src/Plane/Lifecycle.antt =====
-- internal/controlplane/workers.go, subscriptionLifecycle: subscriptions at the end of their period
-- are renewed from the wallet, or pass into grace and out of it.
pub mod Notices
pub mod Frame
pub mod Steps
pub mod Transitions
use rmvpn.Base.{
  ℕ, ◌+◌, ◌-◌, ◌*◌, String, Bool, true, false, not, ◌&&◌, ◌||◌, Option, none, some, List, [], ◌∷◌,
  ◌++◌, ◌==◌, any, find, map, change, keep, leb, ltb, if◌then◌else◌,
}
use rmvpn.Base.Int.{ℤ, pos, ◌-ℤ◌, leb_ℤ}
use rmvpn.Base.Time.{Time, minute, hour, second}
use rmvpn.Base.Outcome.{Result, ok, err, constraint_violated}
use rmvpn.Plane.Tables.{
  Plane, PlanRow, WalletRow, LedgerRow, SubscriptionRow, SubscriptionStatus, in_force, in_grace,
  expired, suspended, pending_trial, AssignmentRow, SlotRow, grace_override, session_kick,
  CommandRow,
}
use rmvpn.Plane.Queue.{of_user, is_slot, is_open_kick, queue}
use rmvpn.Plane.Wallet.{has_wallet, with_balance, balance, has_key, ledger_row, is_nothing}
use rmvpn.Plane.Plans.{has_code, is_in_force, paid_period}
use rmvpn.Plane.Hub.Intake.{owner, subscription_of}
use Notices.{notify_all}
use rmvpn.Exec.{Method, update, update_checked, transaction, ◌>>=◌, ◌>>◌}

abbrev pub is_past : Time → Option Time → Bool
is_past now none = false
is_past now (some t) = leb t now

abbrev pub is_trial : SubscriptionRow → Bool
is_trial s = s.plan_code == "TRIAL"

-- plan_code<>'TRIAL' AND status='active' AND period_ends_at<=now()
abbrev pub is_over : Time → SubscriptionRow → Bool
is_over now s = not (is_trial s) && is_in_force s.status && is_past now s.period_ends_at

-- COALESCE(pending_plan_code,plan_code)
abbrev pub target_of : Option String → String → String
target_of none code = code
target_of (some pending) code = pending

abbrev pub target_plan : Plane → SubscriptionRow → Option PlanRow
target_plan p s = find (has_code (target_of s.pending_plan_code s.plan_code)) p.plans

abbrev pub affords : Option ℤ → Option PlanRow → Option PlanRow
affords none plan = none
affords (some b) none = none
affords (some b) (some plan) = if leb_ℤ plan.price_kopecks b then some plan else none

-- The row of `due`: the plan that a subscription is renewed with.
unfoldable pub due_plan : Time → Plane → SubscriptionRow → Option PlanRow
due_plan now p s = if is_over now s then affords (balance s.user_id p) (target_plan p s) else none

abbrev pub is_some : {A : Type 0} → Option A → Bool
is_some none = false
is_some (some a) = true

-- period_ends_at+interval '30 days'
abbrev pub month_later : Option Time → Option Time
month_later none = none
month_later (some t) = some (t + paid_period)

abbrev pub renewed_by : PlanRow → SubscriptionRow → SubscriptionRow
renewed_by plan s = record s {
  plan_code = plan.code;
  pending_plan_code = none;
  status = in_force;
  period_started_at = s.period_ends_at;
  period_ends_at = month_later s.period_ends_at;
  grace_ends_at = none;
  quota_bytes = plan.quota_bytes;
  used_bytes = pos 0;
}

abbrev pub renewed_if : Option PlanRow → SubscriptionRow → SubscriptionRow
renewed_if none s = s
renewed_if (some plan) s = renewed_by plan s

abbrev pub plan_due : Time → Plane → Option SubscriptionRow → Option PlanRow
plan_due now p none = none
plan_due now p (some s) = due_plan now p s

abbrev pub debited_by : Option PlanRow → WalletRow → WalletRow
debited_by none w = w
debited_by (some plan) w = with_balance (w.balance_kopecks -ℤ plan.price_kopecks) w

abbrev pub or_zero : Option Time → Time
or_zero none = 0
or_zero (some t) = t

abbrev pub or_pos0 : Option ℤ → ℤ
or_pos0 none = pos 0
or_pos0 (some b) = b

-- 'renew:'||user_id||':'||extract(epoch from period_ends_at)::bigint
module _ (renew_key : String → Time → String) (now : Time) where
  abbrev pub renewal_entry : Plane → SubscriptionRow → PlanRow → LedgerRow
  renewal_entry p s plan =
      ledger_row s.user_id (pos 0 -ℤ plan.price_kopecks)
        (or_pos0 (balance s.user_id p) -ℤ plan.price_kopecks)
        (renew_key s.user_id (or_zero s.period_ends_at))

  -- INSERT … ON CONFLICT(idempotency_key) DO NOTHING, after CHECK (amount_kopecks <> 0)
  abbrev pub entered :
      Plane → SubscriptionRow → Option PlanRow → List LedgerRow → Option (List LedgerRow)
  entered p s none es = some es
  entered p s (some plan) es =
      if is_nothing plan.price_kopecks
      then none
      else if any (has_key (renew_key s.user_id (or_zero s.period_ends_at))) es
      then some es
      else some (es ++ renewal_entry p s plan ∷ [])

  abbrev pub entered_after :
      Plane → SubscriptionRow → Option PlanRow → Option (List LedgerRow) → Option (List LedgerRow)
  entered_after p s plan none = none
  entered_after p s plan (some es) = entered p s plan es

  unfoldable pub enter_all : Plane → List SubscriptionRow → List LedgerRow → Option (List LedgerRow)
  unfolding due_plan ◌-ℤ◌
  enter_all p [] es = some es
  enter_all p (s ∷ rest) es = entered_after p s (due_plan now p s) (enter_all p rest es)

  abbrev pub with_entries : Plane → Option (List LedgerRow) → Result Plane
  with_entries p none = err constraint_violated
  with_entries p (some es) = ok (record p {
    ledger_entries = es;
    wallets =
        map
          (λ (w : WalletRow).
            debited_by (plan_due now p (find (of_user w.user_id) p.subscriptions)) w)
          p.wallets;
    subscriptions = map (λ (s : SubscriptionRow). renewed_if (due_plan now p s) s) p.subscriptions;
  })

  -- The first statement, with its parts `due`, `debited`, `renewed` and the INSERT.
  unfoldable pub renew_due : Plane → Result Plane
  unfolding enter_all
  renew_due p = with_entries p (enter_all p p.subscriptions p.ledger_entries)

abbrev pub is_in_grace : SubscriptionStatus → Bool
is_in_grace in_grace = true
is_in_grace s = false

abbrev pub is_blocked : SubscriptionStatus → Bool
is_blocked expired = true
is_blocked suspended = true
is_blocked s = false

module _ (now : Time) where
  -- The three UPDATEs of the second statement, in their order.
  abbrev pub end_trial : SubscriptionRow → SubscriptionRow
  end_trial s =
      if is_trial s && is_in_force s.status && is_past now s.period_ends_at
      then record s { status = expired }
      else s

  abbrev pub enter_grace : SubscriptionRow → SubscriptionRow
  enter_grace s =
      if is_over now s
      then record s { status = in_grace; grace_ends_at = some (now + 24 * hour) }
      else s

  abbrev pub suspend : SubscriptionRow → SubscriptionRow
  suspend s =
      if is_in_grace s.status && is_past now s.grace_ends_at
      then record s { status = suspended }
      else s

  unfoldable pub move_on : Plane → Plane
  move_on p = record p {
    subscriptions = map suspend (map enter_grace (map end_trial p.subscriptions));
  }

  -- s.status='grace' AND s.grace_ends_at>now()+interval '23 hours 58 minutes'
  abbrev pub is_fresh : Option Time → Bool
  is_fresh none = false
  is_fresh (some t) = ltb (now + 23 * hour + 58 * minute) t

  abbrev pub throttle_for : AssignmentRow → Option SubscriptionRow → Plane → Plane
  throttle_for a none p = p
  throttle_for a (some s) p =
      if is_in_grace s.status && is_fresh s.grace_ends_at
      then queue now a.node_id (grace_override a.device_id (or_zero s.grace_ends_at)) p
      else p

  unfoldable pub throttle_all : List AssignmentRow → Plane → Plane
  unfolding queue
  throttle_all [] p = p
  throttle_all (a ∷ rest) p =
      throttle_all rest (throttle_for a (subscription_of (owner a.device_id p) p) p)

  -- COALESCE(s.grace_ends_at,s.period_ends_at)>now()-interval '2 minutes'
  abbrev pub is_recent : Option Time → Option Time → Bool
  is_recent none none = false
  is_recent none (some t) = ltb now (t + 2 * minute)
  is_recent (some t) ends = ltb now (t + 2 * minute)

  abbrev pub kick_blocked : AssignmentRow → Option SubscriptionRow → Plane → Plane
  kick_blocked a none p = p
  kick_blocked a (some s) p =
      if is_blocked s.status
        && is_recent s.grace_ends_at s.period_ends_at
        && not (any (is_open_kick a.node_id a.device_id) p.node_commands)
      then queue now a.node_id (session_kick a.device_id "subscription ended") p
      else p

  unfoldable pub kick_all_blocked : List AssignmentRow → Plane → Plane
  unfolding queue
  kick_all_blocked [] p = p
  kick_all_blocked (a ∷ rest) p =
      kick_all_blocked rest (kick_blocked a (subscription_of (owner a.device_id p) p) p)

module _ (renew_key : String → Time → String) (now : Time) where
  unfoldable pub lifecycle_body : Method Plane (Unit {0})
  unfolding update_checked update renew_due move_on throttle_all kick_all_blocked notify_all
  lifecycle_body = do
    update_checked (renew_due renew_key now)
    update (move_on now)
    update (λ p. throttle_all now p.node_assignments p)
    update (λ p. kick_all_blocked now p.node_assignments p)
    update (λ p. notify_all now p.subscriptions p)

  unfoldable pub subscription_lifecycle : Method Plane (Unit {0})
  unfolding transaction lifecycle_body
  subscription_lifecycle = transaction lifecycle_body
