-- ===== src/Plane/Plans/Payment.antt =====
-- A change of plan keeps the wallets equal to their ledgers.
use rmvpn.Base.{
  String, Bool, true, false, not, ◌||◌, Option, none, some, ◌==◌, ◌≡◌, refl, sym, subst, ◌∙◌, arith,
  find, if◌then◌else◌,
}
use rmvpn.Base.Int.{ℤ, pos, ◌≤ℤ◌, IsInt64, sub64, ltb_ℤ, sub64-IsInt64}
use rmvpn.Base.Time.{Time}
use rmvpn.Base.Outcome.{ok, problem}
use rmvpn.Billing.{PlanTerms}
use rmvpn.Plane.Tables.{Plane, SubscriptionRow}
use rmvpn.Plane.Wallet.{balance, record_change, flattened, audit}
use rmvpn.Plane.Wallet.Ledger.{IsSound, changed-IsSound, same-IsSound, or_nothing}
use rmvpn.Plane.Wallet.Bookings.{record_change-IsRecorded, booked_change}
use rmvpn.Plane.Plans.{
  pay_and_change, pay, plan_reason, terms, Offer, offer, renew, downgrade, upgrade, change_to,
  change_body, change_plan, provision_if, account, with_wallet, is_renewal, is_downgrade,
  on_subscription, pending_plan,
}
use rmvpn.Plane.Queue.{of_user, queue}
use rmvpn.Plane.Provision.{Signer, insert_lease, provision_user_devices}
use rmvpn.Plane.Provision.Frame.{IsBlind, provision_user_devices_kept}
use rmvpn.Exec.{
  Run, Method, ◌>>◌, update, update_checked, attempt, select, dropped, pure, guard, or_raise, call,
  handled,
}
use rmvpn.Exec.Keeps.{
  Keeps-update_checked, Keeps, Keeps-bind, Keeps-update, Keeps-attempt, Keeps-guard, Keeps-pure,
}
use rmvpn.Exec.Success.{
  >>=-eq-ok, update_checked-eq-ok, guarded, opted, select-held, Keeps-handled, Keeps-or_raise,
}
use rmvpn.Plane.Plans.Offers.{cost_exact, paid, priced_terms, offer_nonnegative}

module _ (takes_several : Bool) (user key : String) where
  pay-IsSound :
      (action : String) (old cost : ℤ) (f : SubscriptionRow → SubscriptionRow) (w : Run Plane)
      {u : Unit {0}}
      → balance user w.held ≡ some old
      → pos 0 ≤ℤ cost
      → ltb_ℤ old cost ≡ false
      → (pay takes_several user key action old cost f w).0 ≡ ok u
      → IsSound w.held
      → IsSound (pay takes_several user key action old cost f w).1.held
  unfolding pay
  pay-IsSound action old cost f w held positive enough h k =
      let b = sub64 old cost in
      let amount = sub64 (pos 0) cost in
      let first = update_checked (pay_and_change takes_several user b f) in
      let change = record_change false action user user amount b plan_reason key in
      let (t, a, e, s) = >>=-eq-ok first (λ _. change) w h in
      let x : Run Plane = (first w).1 in
      let (allowed, wallets, ledger, plans) =
        paid takes_several user b f w.held x.held
          (update_checked-eq-ok (pay_and_change takes_several user b f) w a) in
      let i = record_change-IsRecorded false action user user amount b plan_reason key x e in
      let own = k.of_user user in
      let exact =
        cost_exact old cost (subst (λ o. pos 0 ≤ℤ or_nothing o) held own.nonnegative)
          (subst (λ o. IsInt64 (or_nothing o)) held own.fits) positive enough in
      subst (λ (z : Run Plane). IsSound z.held) (sym s)
        (changed-IsSound user old b amount w.held (change x).1.held
          (booked_change user old b amount w.held x.held (change x).1.held held exact allowed
            (sub64-IsInt64 old cost) wallets ledger plans i)
          k)

  renew-IsSound :
      (now : Time) (s : SubscriptionRow) (old : ℤ) (next : PlanTerms) (w : Run Plane) {u : Unit {0}}
      → balance user w.held ≡ some old
      → pos 0 ≤ℤ next.price_kopecks
      → (renew takes_several user key now s old next w).0 ≡ ok u
      → IsSound w.held
      → IsSound (renew takes_several user key now s old next w).1.held
  unfolding renew
  renew-IsSound now s old next w held positive h k =
      let (g, e, n) = guarded (not (ltb_ℤ old next.price_kopecks)) _ _ w h in
      subst (λ (z : Run Plane). IsSound z.held) (sym n)
        (pay-IsSound "subscription.renew" old next.price_kopecks _ w held positive
          (ground (arith, g)) e k)

  upgrade-IsSound :
      (plan : String) (s : SubscriptionRow) (old : ℤ) (offered : Option Offer) (w : Run Plane)
      {u : Unit {0}}
      → balance user w.held ≡ some old
      → ((o : Offer) → offered ≡ some o → pos 0 ≤ℤ o.cost)
      → (upgrade takes_several user key plan s old offered w).0 ≡ ok u
      → IsSound w.held
      → IsSound (upgrade takes_several user key plan s old offered w).1.held
  unfolding upgrade
  upgrade-IsSound plan s old offered w held positive h k =
      let (o, f, e, n) = opted (problem 500 "") offered _ w h in
      let (g, e2, n2) = guarded (not (ltb_ℤ old o.cost)) _ _ w e in
      subst (λ (z : Run Plane). IsSound z.held) (sym (n ∙ n2))
        (pay-IsSound "subscription.upgrade" old o.cost _ w held (positive o f) (ground (arith, g))
          e2 k)

  downgrade-IsSound : (plan : String) → Keeps IsSound (downgrade takes_several user key plan)
  unfolding downgrade audit
  downgrade-IsSound plan =
      Keeps-bind (update (on_subscription user (pending_plan plan))) _ (Keeps-update _ same)
        (λ u. Keeps-update_checked (audit false user "subscription.downgrade" user) noted)
    where
      same : (p : Plane) → IsSound p → IsSound (on_subscription user (pending_plan plan) p)
      same p k = same-IsSound p _ refl refl refl k

      noted :
          (p q : Plane)
          → audit false user "subscription.downgrade" user p ≡ ok q
          → IsSound p
          → IsSound q
      noted p q e k = same-IsSound p q (ground arith) (ground arith) (ground arith) k

  finished :
      (m : Method Plane (Unit {0})) (c a : Bool) (w : Run Plane)
      → ((u : Unit {0}) → (m w).0 ≡ ok u → IsSound (m w).1.held)
      → ((m >> pure c) w).0 ≡ ok a
      → IsSound ((m >> pure c) w).1.held
  finished m c a w k h =
      let (u, e, f, n) = >>=-eq-ok m (λ _. pure c) w h in
      subst (λ (z : Run Plane). IsSound z.held) (sym n) (k u e)

  branched :
      (b : Bool) (m n : Method Plane Bool) (a : Bool) (w : Run Plane)
      → ((m w).0 ≡ ok a → IsSound (m w).1.held)
      → ((n w).0 ≡ ok a → IsSound (n w).1.held)
      → ((if b then m else n) w).0 ≡ ok a
      → IsSound ((if b then m else n) w).1.held
  branched true m n a w k l h = k h
  branched false m n a w k l h = l h

  change_to-IsSound :
      (now : Time) (plan : String) (s : SubscriptionRow) (old : ℤ) (current next : PlanTerms)
      (w : Run Plane) (a : Bool)
      → balance user w.held ≡ some old
      → pos 0 ≤ℤ next.price_kopecks
      → IsSound w.held
      → (change_to takes_several user key now plan s old current next w).0 ≡ ok a
      → IsSound (change_to takes_several user key now plan s old current next w).1.held
  unfolding change_to
  change_to-IsSound now plan s old current next w a held positive k h =
      branched (is_renewal takes_several user key plan s) _ _ a w
        (finished (renew takes_several user key now s old next) false a w
          (λ u e. renew-IsSound now s old next w held positive e k))
        (branched (is_downgrade takes_several user key s current next) _ _ a w
          (finished (downgrade takes_several user key plan) false a w
            (λ u e. (downgrade-IsSound plan).at w k))
          (finished (upgrade takes_several user key plan s old (offer s current next now)) true a w
            (λ u e.
              upgrade-IsSound plan s old _ w held
                (λ o f. offer_nonnegative s current next now o f positive) e k)))
        h

  wallet_account :
      (s : Option SubscriptionRow) (b : Option ℤ) (x : SubscriptionRow × ℤ)
      → with_wallet s b ≡ some x
      → b ≡ some x.1
  wallet_account none b x h = cc
  wallet_account (some s) none x h = cc
  wallet_account (some s) (some b) x h = ground arith

  found_account :
      (w : Run Plane) (x : SubscriptionRow × ℤ)
      → flattened (dropped (select (account user) w).0) ≡ some x
      → balance user w.held ≡ some x.1
  unfolding select call
  found_account w x h =
      wallet_account (find (of_user user) w.held.subscriptions) (balance user w.held) x
        (ground (arith, h))

  found_terms :
      (plan : String) (w : Run Plane) (t : PlanTerms)
      → flattened (dropped (select (terms plan) w).0) ≡ some t
      → IsSound w.held
      → pos 0 ≤ℤ t.price_kopecks
  unfolding select call terms
  found_terms plan w t h k = priced_terms plan w.held.plans t (ground (arith, h)) k.priced

  change_body-IsSound :
      (now : Time) (plan : String) (w : Run Plane) (a : Bool)
      → (change_body takes_several user key now plan w).0 ≡ ok a
      → IsSound w.held
      → IsSound (change_body takes_several user key now plan w).1.held
  unfolding change_body
  change_body-IsSound now plan w a h k =
      let v1 : Run Plane = (select (account user) w).1 in
      let same1 = select-held (account user) w in
      let (x, f, e, n) =
        opted (problem 404 "subscription") (flattened (dropped (select (account user) w).0)) _ v1
          h in
      let v2 : Run Plane = (select (terms x.0.plan_code) v1).1 in
      let same2 = select-held (terms x.0.plan_code) v1 in
      let (current, f2, e2, n2) =
        opted (problem 400 "plan") (flattened (dropped (select (terms x.0.plan_code) v1).0)) _ v2
          e in
      let v3 : Run Plane = (select (terms plan) v2).1 in
      let same3 = select-held (terms plan) v2 in
      let (next, f3, e3, n3) =
        opted (problem 400 "plan") (flattened (dropped (select (terms plan) v2).0)) _ v3 e2 in
      let same = same3 ∙ same2 ∙ same1 in
      let held = subst (λ p. balance user p ≡ some x.1) (sym same) (found_account w x f) in
      let sound = subst IsSound (sym same) k in
      let positive = found_terms plan v2 next f3 (subst IsSound (sym (same2 ∙ same1)) k) in
      subst (λ (z : Run Plane). IsSound z.held) (sym (n ∙ n2 ∙ n3))
        (change_to-IsSound now plan x.0 x.1 current next v3 a held positive sound e3)

blind-IsSound : IsBlind IsSound
unfolding queue insert_lease
blind-IsSound = record {
  queued = λ now node order p k. same-IsSound p _ refl refl refl k;
  leased = λ l p q e k. same-IsSound p q (ground arith) (ground arith) (ground arith) k;
}

provision_if-IsSound :
    (a : Signer) (now : Time) (user : String) (b : Bool) → Keeps IsSound (provision_if a now user b)
provision_if-IsSound a now user false = Keeps-pure tt
provision_if-IsSound a now user true =
    Keeps-bind (attempt (provision_user_devices a now user)) _
      (Keeps-attempt (provision_user_devices a now user)
        (provision_user_devices_kept blind-IsSound a now user))
      (λ o. Keeps-pure tt)

pub change_plan-IsSound :
    (takes_several : Bool) (a : Signer) (now : Time) (user : String) (plan : Option String)
    (key : String)
    → Keeps IsSound (change_plan takes_several a now user plan key)
unfolding change_plan
change_plan-IsSound takes_several a now user plan key =
    Keeps-bind (or_raise (problem 400 "plan") plan) _ (Keeps-or_raise _ plan) (λ wanted.
      Keeps-bind (guard (not (wanted == "" || wanted == "TRIAL")) (problem 400 "plan")) _
        (Keeps-guard _ _)
        (λ u.
          Keeps-bind
            (handled (problem 500 "db") (problem 500 "billing")
              (change_body takes_several user key now wanted))
            _
            (Keeps-handled _ _ (change_body takes_several user key now wanted)
              (λ w b h k. change_body-IsSound takes_several user key now wanted w b h k))
            (λ b. provision_if-IsSound a now user b)))
