-- ===== src/Plane/Plans/Offers.antt =====
-- What a change of plan costs is never negative, and what it takes off a balance is exact.
use rmvpn.Base.{
  String, Bool, true, false, not, ◌&&◌, Option, none, some, List, [], ◌∷◌, ◌==◌, ◌≡◌, refl, subst,
  arith, find, All, inl, inr, Bool-cases, if◌then◌else◌,
}
use rmvpn.Base.Int.{ℤ, pos, ◌+ℤ◌, ◌≤ℤ◌, IsInt64, sub64, ltb_ℤ}
use rmvpn.Base.Time.{Time}
use rmvpn.Base.Outcome.{ok}
use rmvpn.Billing.{PlanTerms, prorate_upgrade, share, at_least_zero, map_ℤ, both}
use rmvpn.Plane.Tables.{Plane, PlanRow, SubscriptionRow}
use rmvpn.Plane.Wallet.{set_balance}
use rmvpn.Plane.Wallet.Ledger.{IsPriced}
use rmvpn.Plane.Wallet.Bookings.{change_wallets}
use rmvpn.Plane.Plans.{
  pay_and_change, terms_of, some_terms, has_code, Offer, offer, offer_until, prorated_offer,
  full_offer, is_in_force,
}

-- A cost of no less than 0, taken off a balance that stays no less than 0.
pub cost_exact :
    (a cost : ℤ)
    → pos 0 ≤ℤ a
    → IsInt64 a
    → pos 0 ≤ℤ cost
    → ltb_ℤ a cost ≡ false
    → sub64 a cost ≡ a +ℤ sub64 (pos 0) cost
unfolding sub64 ◌+ℤ◌
cost_exact a cost h k l n = ground arith

pub paid :
    (takes_several : Bool) (user : String) (b : ℤ) (f : SubscriptionRow → SubscriptionRow)
    (p q : Plane)
    → pay_and_change takes_several user b f p ≡ ok q
    → (ltb_ℤ b (pos 0) ≡ false)
      × (q.wallets ≡ change_wallets user b p)
      × (q.ledger_entries ≡ p.ledger_entries)
      × (q.plans ≡ p.plans)
unfolding pay_and_change set_balance
paid takes_several user b f p q h = ground arith

pub priced_terms :
    (plan : String) (p : List PlanRow) (t : PlanTerms)
    → some_terms (find (has_code plan) p) ≡ some t
    → All IsPriced p
    → pos 0 ≤ℤ t.price_kopecks
unfolding some_terms terms_of
priced_terms plan [] t h k = cc
priced_terms plan (row ∷ rows) t h k = elim (Bool-cases (row.code == plan)) [
  | inl e ↦ ground (arith, e, k.0)
  | inr n ↦ ground (arith, n, priced_terms plan rows t (ground (arith, n, h)) k.1)
]

-- Neither a whole price nor a share of one is negative.
chosen_nonnegative :
    (whole : Bool) (x o : ℤ × ℤ) (m n : Option ℤ)
    → (if whole then some x else both (map_ℤ at_least_zero m) n) ≡ some o
    → pos 0 ≤ℤ x.0
    → pos 0 ≤ℤ o.0
chosen_nonnegative true x o m n h k = ground arith
chosen_nonnegative false x o none n h k = cc
chosen_nonnegative false x o (some z) none h k = cc
chosen_nonnegative false x o (some z) (some y) h k = ground arith

prorated_nonnegative :
    (current next : PlanTerms) (now ends : Time) (o : ℤ × ℤ)
    → prorate_upgrade current next now ends ≡ some o
    → pos 0 ≤ℤ next.price_kopecks
    → pos 0 ≤ℤ o.0
unfolding prorate_upgrade share
prorated_nonnegative current next now ends o h k =
    chosen_nonnegative _ (next.price_kopecks, next.quota_bytes) o _ _ h k

share_offered :
    (s : SubscriptionRow) (now ends : Time) (x : Option (ℤ × ℤ)) (o : Offer)
    → prorated_offer s now ends x ≡ some o
    → (y : ℤ × ℤ) × (x ≡ some y) × (y.0 ≡ o.cost)
share_offered s now ends none o h = cc
share_offered s now ends (some y) o h = (y, refl, ground arith)

offer_until_nonnegative :
    (s : SubscriptionRow) (current next : PlanTerms) (now : Time) (ends : Option Time) (o : Offer)
    → offer_until s current next now ends ≡ some o
    → pos 0 ≤ℤ next.price_kopecks
    → pos 0 ≤ℤ o.cost
offer_until_nonnegative s current next now none o h k = ground arith
offer_until_nonnegative s current next now (some ends) o h k =
    elim (Bool-cases (is_in_force s.status && not (s.plan_code == "TRIAL"))) [
      | inl e ↦
          let (y, q, c) = share_offered s now ends (prorate_upgrade current next now ends) o (
            subst
              (λ b.
                (if b
                  then prorated_offer s now ends (prorate_upgrade current next now ends)
                  else some (full_offer next now))
                ≡ some o)
              e h) in
          subst (λ z. pos 0 ≤ℤ z) c (prorated_nonnegative current next now ends y q k)
      | inr f ↦ ground (arith, f, h, k)
    ]

pub offer_nonnegative :
    (s : SubscriptionRow) (current next : PlanTerms) (now : Time) (o : Offer)
    → offer s current next now ≡ some o
    → pos 0 ≤ℤ next.price_kopecks
    → pos 0 ≤ℤ o.cost
unfolding offer
offer_nonnegative s current next now o h k =
    offer_until_nonnegative s current next now s.period_ends_at o h k
