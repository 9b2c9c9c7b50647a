-- ===== src/Plane/Plans.antt =====
-- internal/controlplane/app.go, changePlan: a subscription is renewed, its plan is changed at once or
-- at the end of the period, and the wallet pays. `takes_several` says whether the database driver
-- runs several statements with arguments in one call: pgx does so only where the connection's URL
-- sets `default_query_exec_mode` to `simple_protocol`, and refuses them else. Both kinds of the 500
-- problem are `billing` here.
pub mod Offers
pub mod Payment
use rmvpn.Base.{
  ◌-◌, ℕ, ◌+◌, ◌*◌, String, Bool, true, false, not, ◌&&◌, ◌||◌, Option, none, some, List, [], ◌∷◌,
  ◌==◌, find, change, ltb, if◌then◌else◌,
}
use rmvpn.Base.Int.{ℤ, pos, pos_part, neg_part, add64, sub64, ltb_ℤ}
use rmvpn.Base.Text.{Runes, codes}
use rmvpn.Base.Time.{Time, after, second, hour}
use rmvpn.Base.Outcome.{Result, ok, err, backend, problem}
use rmvpn.Billing.{PlanTerms, prorate_upgrade, mul64}
use rmvpn.Plane.Tables.{Plane, PlanRow, SubscriptionRow, SubscriptionStatus, in_force}
use rmvpn.Plane.Queue.{of_user}
use rmvpn.Plane.Wallet.{balance, set_balance, record_change, flattened, audit}
use rmvpn.Plane.Provision.{Signer, provision_user_devices}
use rmvpn.Exec.{
  Method, pure, raise, guard, or_raise, attempt, select, update, update_checked, handled, ◌>>=◌,
  ◌>>◌,
}

abbrev pub paid_period : ℕ
paid_period = 30 * 24 * hour

abbrev pub has_code : String → PlanRow → Bool
has_code code row = row.code == code

-- The duration is time.Duration(seconds) * time.Second, which may wrap around.
unfoldable pub terms_of : PlanRow → PlanTerms
unfolding mul64
terms_of row = record {
  price_kopecks = row.price_kopecks;
  quota_bytes = row.quota_bytes;
  duration = mul64 row.period_seconds second;
}

unfoldable pub some_terms : Option PlanRow → Option PlanTerms
unfolding terms_of
some_terms none = none
some_terms (some row) = some (terms_of row)

unfoldable pub terms : String → Plane → Option PlanTerms
unfolding some_terms
terms code p = some_terms (find (has_code code) p.plans)

-- t.Add(d)
abbrev pub later_by : Time → ℤ → Time
later_by t d = t + pos_part d - neg_part d

abbrev pub with_wallet : Option SubscriptionRow → Option ℤ → Option (SubscriptionRow × ℤ)
with_wallet none b = none
with_wallet (some s) none = none
with_wallet (some s) (some b) = some (s, b)

-- FROM subscriptions s JOIN wallets w ON w.user_id=s.user_id WHERE s.user_id=…
abbrev pub account : String → Plane → Option (SubscriptionRow × ℤ)
account user p = with_wallet (find (of_user user) p.subscriptions) (balance user p)

abbrev pub is_in_force : SubscriptionStatus → Bool
is_in_force in_force = true
is_in_force s = false

abbrev pub on_subscription : String → (SubscriptionRow → SubscriptionRow) → Plane → Plane
on_subscription user f p = record p { subscriptions = change (of_user user) f p.subscriptions }

abbrev pub subscribed : String → (SubscriptionRow → SubscriptionRow) → Result Plane → Result Plane
subscribed user f (ok p) = ok (on_subscription user f p)
subscribed user f (err e) = err e

-- UPDATE wallets …; UPDATE subscriptions … in one call with arguments.
unfoldable pub pay_and_change :
    Bool → String → ℤ → (SubscriptionRow → SubscriptionRow) → Plane → Result Plane
unfolding set_balance
pay_and_change takes_several user b f p =
    if takes_several then subscribed user f (set_balance user b p) else err backend

-- The end of the period, or now where it is over.
abbrev pub later_end : Time → Option Time → Time
later_end now none = now
later_end now (some ends) = if after ends now then ends else now

abbrev pub renewed : Time → ℤ → SubscriptionRow → SubscriptionRow
renewed ends quota s = record s {
  pending_plan_code = none;
  status = in_force;
  period_ends_at = some ends;
  grace_ends_at = none;
  quota_bytes = quota;
}

abbrev pub moved : String → Option Time → Option Time → ℤ → Bool → SubscriptionRow → SubscriptionRow
moved plan started ends quota from_trial s = record s {
  plan_code = plan;
  pending_plan_code = none;
  status = in_force;
  period_started_at = started;
  period_ends_at = ends;
  grace_ends_at = none;
  quota_bytes = quota;
  used_bytes = if from_trial then pos 0 else s.used_bytes;
}

abbrev pub pending_plan : String → SubscriptionRow → SubscriptionRow
pending_plan plan s = record s { pending_plan_code = some plan }

abbrev pub or_now : Time → Option Time → Time
or_now now none = now
or_now now (some t) = t

-- What a change of plan costs and gives: the price, the quota, the start and the end.
pub record Offer : Type 0 where
  pub cost : ℤ
  pub quota : ℤ
  pub starts : Time
  pub ends : Time

abbrev pub full_offer : PlanTerms → Time → Offer
full_offer next now = record {
  cost = next.price_kopecks;
  quota = next.quota_bytes;
  starts = now;
  ends = now + paid_period;
}

abbrev pub prorated_offer : SubscriptionRow → Time → Time → Option (ℤ × ℤ) → Option Offer
prorated_offer s now ends none = none
prorated_offer s now ends (some share) = some (record {
  cost = share.0;
  quota = add64 s.quota_bytes share.1;
  starts = or_now now s.period_started_at;
  ends = ends;
})

abbrev pub offer_until : SubscriptionRow → PlanTerms → PlanTerms → Time → Option Time → Option Offer
offer_until s current next now none = some (full_offer next now)
offer_until s current next now (some ends) =
    if is_in_force s.status && not (s.plan_code == "TRIAL")
    then prorated_offer s now ends (prorate_upgrade current next now ends)
    else some (full_offer next now)

-- `none` is the panic of a division by 0.
unfoldable pub offer : SubscriptionRow → PlanTerms → PlanTerms → Time → Option Offer
unfolding prorate_upgrade add64
offer s current next now = offer_until s current next now s.period_ends_at

-- 'Смена тарифа …' and 'Продление тарифа …': of either reason only the length matters here.
abbrev pub plan_reason : Runes
plan_reason = codes "plan"

module _ (takes_several : Bool) (user key : String) where
  unfoldable pub pay :
      String → ℤ → ℤ → (SubscriptionRow → SubscriptionRow) → Method Plane (Unit {0})
  unfolding update_checked pay_and_change sub64 record_change
  pay action old cost f = do
    update_checked (pay_and_change takes_several user (sub64 old cost) f)
    record_change false action user user (sub64 (pos 0) cost) (sub64 old cost) plan_reason key

  -- body.Plan == currentCode && currentCode != "TRIAL" && status == "active"
  unfoldable pub renew : Time → SubscriptionRow → ℤ → PlanTerms → Method Plane (Unit {0})
  unfolding pay add64
  renew now s old next = do
    guard (not (ltb_ℤ old next.price_kopecks)) (problem 409 "balance")
    pay "subscription.renew" old next.price_kopecks (
        renewed (later_by (later_end now s.period_ends_at) next.duration)
          (add64 s.quota_bytes next.quota_bytes))

  -- A cheaper plan is taken at the end of the period.
  unfoldable pub downgrade : String → Method Plane (Unit {0})
  unfolding update update_checked audit
  downgrade plan = do
    update (on_subscription user (pending_plan plan))
    update_checked (audit false user "subscription.downgrade" user)

  unfoldable pub upgrade : String → SubscriptionRow → ℤ → Option Offer → Method Plane (Unit {0})
  unfolding pay
  upgrade plan s old offered = do
    o ← or_raise (problem 500 "") offered
    guard (not (ltb_ℤ old o.cost)) (problem 409 "balance")
    pay "subscription.upgrade" old o.cost
        (moved plan (some o.starts) (some o.ends) o.quota (s.plan_code == "TRIAL"))

  abbrev pub is_renewal : String → SubscriptionRow → Bool
  is_renewal plan s = plan == s.plan_code && not (s.plan_code == "TRIAL") && is_in_force s.status

  abbrev pub is_downgrade : SubscriptionRow → PlanTerms → PlanTerms → Bool
  is_downgrade s current next =
      ltb_ℤ next.price_kopecks current.price_kopecks && is_in_force s.status

  -- The result says whether devices are provisioned afterwards.
  unfoldable pub change_to :
      Time → String → SubscriptionRow → ℤ → PlanTerms → PlanTerms → Method Plane Bool
  unfolding renew downgrade upgrade offer
  change_to now plan s old current next =
      if is_renewal plan s
      then renew now s old next >> pure false
      else if is_downgrade s current next
      then downgrade plan >> pure false
      else upgrade plan s old (offer s current next now) >> pure true

  unfoldable pub change_body : Time → String → Method Plane Bool
  unfolding select change_to
  change_body now plan = do
    found ← attempt (select (account user))
    a ← or_raise (problem 404 "subscription") (flattened found)
    old_terms ← attempt (select (terms a.0.plan_code))
    current ← or_raise (problem 400 "plan") (flattened old_terms)
    new_terms ← attempt (select (terms plan))
    next ← or_raise (problem 400 "plan") (flattened new_terms)
    change_to now plan a.0 a.1 current next

abbrev pub provision_if : Signer → Time → String → Bool → Method Plane (Unit {0})
provision_if a now user false = pure tt
provision_if a now user true = attempt (provision_user_devices a now user) >> pure tt

-- `plan` is the body's, `none` where it does not decode.
unfoldable pub change_plan :
    Bool → Signer → Time → String → Option String → String → Method Plane (Unit {0})
unfolding handled change_body provision_user_devices
change_plan takes_several a now user plan key = do
  wanted ← or_raise (problem 400 "plan") plan
  guard (not (wanted == "" || wanted == "TRIAL")) (problem 400 "plan")
  upgraded ←
      handled (problem 500 "db") (problem 500 "billing")
        (change_body takes_several user key now wanted)
  provision_if a now user upgraded
