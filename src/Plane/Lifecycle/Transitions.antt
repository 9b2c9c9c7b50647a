-- ===== src/Plane/Lifecycle/Transitions.antt =====
-- The life cycle of a subscription as a step relation.
use rmvpn.Base.{
  ◌+◌, ◌*◌, eq_iff, find, String, ◌&&◌, Option, none, some, List, [], ◌∷◌, ◌≡◌, refl, sym, ap,
  subst, ◌∙◌, arith, map, inl, inr, Bool-cases,
}
use rmvpn.Base.Rows.{Memᴰ, Forall₂, find-Memᴰ}
use rmvpn.Base.Int.{ℤ, pos, ◌≤ℤ◌}
use rmvpn.Base.Time.{Time, hour}
use rmvpn.Base.Outcome.{ok}
use rmvpn.Plane.Tables.{Plane, PlanRow, WalletRow, SubscriptionRow, in_force, LedgerRow}
use rmvpn.Plane.Wallet.{balance, has_wallet, wallet_balance}
use rmvpn.Plane.Plans.{is_in_force}
use rmvpn.Plane.Lifecycle.{
  is_past, is_trial, is_over, target_plan, target_of, month_later, due_plan, renewed_by, renewed_if,
  renew_due, enter_all, with_entries, end_trial, enter_grace, suspend, is_in_grace, move_on,
  lifecycle_body, subscription_lifecycle, throttle_all, kick_all_blocked,
}
use rmvpn.Plane.Lifecycle.Notices.{notify_all}
use rmvpn.Plane.Lifecycle.Frame.{
  IsKept, throttle_all-IsKept, kick_all_blocked-IsKept, notify_all-IsKept,
}
use rmvpn.Exec.Success.{>>=-eq-ok, update-eq-ok, update_checked-eq-ok, transaction-eq-ok}
use rmvpn.Exec.{spent, Run, update, update_checked}
use rmvpn.Plane.Lifecycle.Steps.{
  IsDue, Step, renewal, trial_end, into_grace, suspension, Moves, stays, steps, Passes,
  affords_enough, in_force_status, in_grace_status, past_end, is_over-IsDue, target_of-IsTarget,
}

module _ (now : Time) (p : Plane) where
  renewed_row :
      (s : SubscriptionRow) (due : IsDue now s) (plan : PlanRow)
      → renewed_by plan s ≡ record s {
        plan_code = plan.code;
        pending_plan_code = none;
        status = in_force;
        period_started_at = some due.end;
        period_ends_at = some (due.end + 30 * 24 * hour);
        grace_ends_at = none;
        quota_bytes = plan.quota_bytes;
        used_bytes = pos 0;
      }
  renewed_row s due plan =
      ap (λ o. record (renewed_by plan s) { period_started_at = o; period_ends_at = month_later o })
        due.ends

  wallet_with :
      (user : String) (o : Option WalletRow) (b : ℤ)
      → find (has_wallet user) p.wallets ≡ o
      → wallet_balance o ≡ some b
      → (wallet : WalletRow) × Memᴰ wallet p.wallets
        × (wallet.user_id ≡ user)
        × (wallet.balance_kopecks ≡ b)
  wallet_with user none b f e = cc
  wallet_with user (some wallet) b f e =
      let (m, h) = find-Memᴰ (has_wallet user) p.wallets wallet f in
      (wallet, m, (eq_iff wallet.user_id user).0 h, ground (arith, e))

  renewed_moves :
      (s : SubscriptionRow) (o : Option PlanRow)
      → due_plan now p s ≡ o
      → Moves now p s (renewed_if o s)
  unfolding due_plan
  renewed_moves s none h = stays s
  renewed_moves s (some plan) h = elim (Bool-cases (is_over now s)) [
    | inl over ↦
        let (b, held, target, enough) =
          affords_enough (balance s.user_id p) (target_plan p s) plan (ground (arith, over, h)) in
        let due = is_over-IsDue now s over in
        let (wallet, m, own, same) = wallet_with s.user_id _ b refl held in
        let (listed, code) = find-Memᴰ _ p.plans plan target in
        let named =
          target_of-IsTarget s s.pending_plan_code plan.code refl
            ((eq_iff plan.code (target_of s.pending_plan_code s.plan_code)).0 code) in
        steps s (renewed_by plan s) (
          subst (Step now p s) (sym (renewed_row s due plan)) (
            renewal s due plan wallet listed named m own
              (subst (λ z. plan.price_kopecks ≤ℤ z) (sym same) enough)))
    | inr f ↦ absurd (ground (arith, f, h))
  ]

  end_trial_moves : (s : SubscriptionRow) → Moves now p s (end_trial now s)
  end_trial_moves s =
      elim (Bool-cases (is_trial s && is_in_force s.status && is_past now s.period_ends_at)) [
        | inl e ↦
            (let (end, ends, reached) = past_end now s.period_ends_at (ground (arith, e)) in
              rw e (
                steps s _ (
                  trial_end s end ((eq_iff s.plan_code "TRIAL").0 (ground (arith, e)))
                    (in_force_status s.status (ground (arith, e))) ends reached)))
        | inr f ↦ rw f (stays s)
      ]

  enter_grace_moves : (s : SubscriptionRow) → Moves now p s (enter_grace now s)
  enter_grace_moves s = elim (Bool-cases (is_over now s)) [
    | inl e ↦ rw e (steps s _ (into_grace s (is_over-IsDue now s e)))
    | inr f ↦ rw f (stays s)
  ]

  suspend_moves : (s : SubscriptionRow) → Moves now p s (suspend now s)
  suspend_moves s = elim (Bool-cases (is_in_grace s.status && is_past now s.grace_ends_at)) [
    | inl e ↦
        (let (end, ends, reached) = past_end now s.grace_ends_at (ground (arith, e)) in
          rw e (
            steps s _
              (suspension s end (in_grace_status s.status (ground (arith, e))) ends reached)))
    | inr f ↦ rw f (stays s)
  ]

  row-Passes :
      (s : SubscriptionRow)
      → Passes now p s
          (suspend now (enter_grace now (end_trial now (renewed_if (due_plan now p s) s))))
  row-Passes s =
      let paid = renewed_if (due_plan now p s) s in
      let tried = end_trial now paid in
      let graced = enter_grace now tried in
      record {
        paid = paid;
        tried = tried;
        graced = graced;
        first = renewed_moves s (due_plan now p s) refl;
        second = end_trial_moves paid;
        third = enter_grace_moves tried;
        fourth = suspend_moves graced;
      }

  rows_pass :
      (rows : List SubscriptionRow)
      → Forall₂ (Passes now p) rows (
          map (suspend now) (
            map (enter_grace now) (
              map
                (end_trial now)
                (map (λ (s : SubscriptionRow). renewed_if (due_plan now p s) s) rows))))
  rows_pass [] = Forall₂.nil
  rows_pass (s ∷ rest) = Forall₂.cons (row-Passes s) (rows_pass rest)

-- The renewals leave the rows that they are given.
renew_due_rows :
    (renew_key : String → Time → String) (now : Time) (p : Plane) (es : Option (List LedgerRow))
    {q : Plane}
    → with_entries renew_key now p es ≡ ok q
    → q.subscriptions
      ≡ map (λ (s : SubscriptionRow). renewed_if (due_plan now p s) s) p.subscriptions
renew_due_rows renew_key now p none h = cc
renew_due_rows renew_key now p (some es) h = ground arith

renew_rows :
    (renew_key : String → Time → String) (now : Time) (p : Plane) {q : Plane}
    → renew_due renew_key now p ≡ ok q
    → q.subscriptions
      ≡ map (λ (s : SubscriptionRow). renewed_if (due_plan now p s) s) p.subscriptions
unfolding renew_due
renew_rows renew_key now p h =
    renew_due_rows renew_key now p (enter_all renew_key now p p.subscriptions p.ledger_entries) h

moved_rows :
    (now : Time) (p : Plane) (rows : List SubscriptionRow)
    → p.subscriptions ≡ rows
    → (move_on now p).subscriptions
      ≡ map (suspend now) (map (enter_grace now) (map (end_trial now) rows))
unfolding move_on
moved_rows now p rows h = rw h refl

module _ (renew_key : String → Time → String) (now : Time) where
  lifecycle_body-Passes :
      (w : Run Plane) {u : Unit {0}}
      → (lifecycle_body renew_key now w).0 ≡ ok u
      → Forall₂
          (Passes now w.held)
          w.held.subscriptions
          (lifecycle_body renew_key now w).1.held.subscriptions
  unfolding lifecycle_body
  lifecycle_body-Passes w h =
      let m1 = update_checked (renew_due renew_key now) in
      let (t1, a1, b1, s1) = >>=-eq-ok m1 _ w h in
      let v1 : Run Plane = (m1 w).1 in
      let m2 = update (move_on now) in
      let (t2, a2, b2, s2) = >>=-eq-ok m2 _ v1 b1 in
      let v2 : Run Plane = (m2 v1).1 in
      let m3 = update (λ (p : Plane). throttle_all now p.node_assignments p) in
      let (t3, a3, b3, s3) = >>=-eq-ok m3 _ v2 b2 in
      let v3 : Run Plane = (m3 v2).1 in
      let m4 = update (λ (p : Plane). kick_all_blocked now p.node_assignments p) in
      let (t4, a4, b4, s4) = >>=-eq-ok m4 _ v3 b3 in
      let v4 : Run Plane = (m4 v3).1 in
      let rows = v2.held.subscriptions in
      let renewed =
        renew_rows renew_key now w.held (update_checked-eq-ok (renew_due renew_key now) w a1) in
      let moved =
        ap (λ (p : Plane). p.subscriptions) (update-eq-ok (move_on now) v1 a2)
        ∙ moved_rows now v1.held _ renewed in
      let k3 =
        subst (IsKept rows)
          (sym (update-eq-ok (λ (p : Plane). throttle_all now p.node_assignments p) v2 a3))
          (throttle_all-IsKept rows now v2.held.node_assignments v2.held refl) in
      let k4 =
        subst (IsKept rows)
          (sym (update-eq-ok (λ (p : Plane). kick_all_blocked now p.node_assignments p) v3 a4))
          (kick_all_blocked-IsKept rows now v3.held.node_assignments v3.held k3) in
      let k5 =
        subst (IsKept rows)
          (sym (update-eq-ok (λ (p : Plane). notify_all now p.subscriptions p) v4 b4))
          (notify_all-IsKept rows now v4.held.subscriptions v4.held k4) in
      subst (Forall₂ (Passes now w.held) w.held.subscriptions)
        (sym (ap (λ (x : Run Plane). x.held.subscriptions) (s1 ∙ s2 ∙ s3 ∙ s4) ∙ k5 ∙ moved))
        (rows_pass now w.held w.held.subscriptions)

  -- A run of the life cycle that returns takes each subscription through at most a renewal, the end
  -- of a trial, the entry into grace and a suspension, in this order, and each only where it is due:
  -- a renewal where a paid period in force is over and the balance covers the plan, the end of a
  -- trial where its period in force is over, the entry into grace for a day where a paid period in
  -- force is over, a suspension where grace is. A renewal takes the pending plan, or the same plan
  -- where none is pending, for thirty days from the end of the period, with nothing used.
  pub subscription_lifecycle_sound :
      (w : Run Plane)
      → (subscription_lifecycle renew_key now w).0 ≡ ok tt
      → Forall₂
          (Passes now w.held)
          w.held.subscriptions
          (subscription_lifecycle renew_key now w).1.held.subscriptions
  unfolding subscription_lifecycle
  subscription_lifecycle_sound w h =
      let (body, same) = transaction-eq-ok (lifecycle_body renew_key now) w h in
      subst (Forall₂ (Passes now w.held) w.held.subscriptions)
        (sym (ap (λ (p : Plane). p.subscriptions) same)) (lifecycle_body-Passes (spent w) body)
