-- ===== src/Plane/Binding/Trials.antt =====
-- A trial is started once for a Telegram account and once for a hardware ID.
use rmvpn.Base.{
  ◌+◌, ◌*◌, ◌≢◌, ◌⊎◌, if◌then◌else◌, eq_iff, List, String, Bool, true, false, not, Option, none,
  some, [], ◌∷◌, ◌++◌, ◌==◌, ◌≡◌, refl, sym, ap, subst, ◌∙◌, arith, any, inl, inr, Bool-cases,
}
use rmvpn.Base.Rows.{Memᴰ, Forall₂, any-Memᴰ, change-Forall₂}
use rmvpn.Base.Int.{pos}
use rmvpn.Base.Time.{Time, hour}
use rmvpn.Base.Outcome.{ok, problem}
use rmvpn.Plane.Tables.{
  Plane, SubscriptionRow, FingerprintRow, SubscriptionStatus, in_force, in_grace, expired,
  suspended, pending_trial,
}
use rmvpn.Plane.Binding.{
  Document, is_used, fingerprint_row, insert_fingerprint, start_trial, on_slot, bound, take_trial,
  trial_if, bind_body, bind_device, wants_trial, is_pending, awaits_trial, trial_started,
}
use rmvpn.Exec.{Run, update, update_checked, select}
use rmvpn.Exec.Success.{
  >>=-eq-ok, select-eq-ok, update-eq-ok, update_checked-eq-ok, guarded, handled_related,
}

-- What the start of a user's trial does to a subscription: one of the user that awaits its trial is
-- active for three days, with 20 GB, and every other one is as it was.
abbrev pub IsStarted : Time → String → SubscriptionRow → SubscriptionRow → Type 0
IsStarted now user before after =
    ((before.user_id ≡ user)
      × (before.status ≡ pending_trial)
      × (after ≡ record before {
        status = in_force;
        period_started_at = some now;
        period_ends_at = some (now + 3 * 24 * hour);
        quota_bytes = pos 20_000_000_000;
      }))
    ⊎ (((before.user_id ≢ user) ⊎ (before.status ≢ pending_trial)) × (after ≡ before))

-- What a binding of a document's device to a hardware ID does to the trials: nothing, or, where the
-- document's subscription awaits its trial and no fingerprint has the account or the hardware ID, it
-- starts the trial and adds the fingerprint of both.
pub data TrialStep (now : Time) (fingerprint : String) (doc : Document) (p q : Plane) : Type 0 where
  no_trial :
      q.subscriptions ≡ p.subscriptions
      → q.trial_fingerprints ≡ p.trial_fingerprints
      → TrialStep now fingerprint doc p q
  first_trial :
      doc.subscription.plan_code ≡ "TRIAL"
      → doc.subscription.status ≡ pending_trial
      → ((row : FingerprintRow)
          → Memᴰ row p.trial_fingerprints
          → (row.telegram_subject ≢ doc.user.telegram_subject) × (row.hwid_hmac ≢ fingerprint))
      → q.trial_fingerprints
        ≡ p.trial_fingerprints
          ++ record { telegram_subject = doc.user.telegram_subject; hwid_hmac = fingerprint } ∷ []
      → Forall₂ (IsStarted now doc.device.user_id) p.subscriptions q.subscriptions
      → TrialStep now fingerprint doc p q

pending_status : (s : SubscriptionStatus) → is_pending s ≡ true → s ≡ pending_trial
pending_status pending_trial h = refl
pending_status in_force h = cc
pending_status in_grace h = cc
pending_status expired h = cc
pending_status suspended h = cc

not_pending : (s : SubscriptionStatus) → is_pending s ≡ false → s ≢ pending_trial
not_pending s h e = ground (arith, h, ap is_pending e)

trial_started-IsStarted :
    (now : Time) (user : String) (s : SubscriptionRow)
    → IsStarted now user s (if awaits_trial user s then trial_started now s else s)
trial_started-IsStarted now user s = elim (Bool-cases (awaits_trial user s)) [
  | inl t ↦ inl (
    (eq_iff s.user_id user).0 (ground (arith, t)),
    pending_status s.status (ground (arith, t)),
    rw t refl,
  )
  | inr f ↦ inr (
    elim (Bool-cases (s.user_id == user)) [
      | inl own ↦ inr (not_pending s.status (ground (arith, f, own)))
      | inr n ↦ inl (λ e. ground (arith, n, (eq_iff s.user_id user).1 e))
    ],
    rw f refl,
  )
]

unused :
    (subject fingerprint : String) (rows : List FingerprintRow) (row : FingerprintRow)
    → any (is_used subject fingerprint) rows ≡ false
    → Memᴰ row rows
    → (row.telegram_subject ≢ subject) × (row.hwid_hmac ≢ fingerprint)
unused subject fingerprint rows row free m = (
  λ e. refuted (ground (arith, (eq_iff row.telegram_subject subject).1 e)),
  λ e. refuted (ground (arith, (eq_iff row.hwid_hmac fingerprint).1 e)),
)
  where
    refuted : is_used subject fingerprint row ≡ true → ⊥
    refuted t = ground (arith, any-Memᴰ (is_used subject fingerprint) rows row m t, free)

inserted :
    (subject fingerprint : String) (p q : Plane)
    → insert_fingerprint subject fingerprint p ≡ ok q
    → (q.trial_fingerprints ≡ p.trial_fingerprints ++ fingerprint_row subject fingerprint ∷ [])
      × (q.subscriptions ≡ p.subscriptions)
unfolding insert_fingerprint
inserted subject fingerprint p q h = ground arith

module _ (now : Time) (fingerprint : String) where
  take_trial_step :
      (doc : Document) (w : Run Plane) {s : SubscriptionStatus}
      → wants_trial now fingerprint doc.subscription ≡ true
      → (take_trial now fingerprint doc.user.telegram_subject doc.device.user_id w).0 ≡ ok s
      → TrialStep now fingerprint doc w.held
          (take_trial now fingerprint doc.user.telegram_subject doc.device.user_id w).1.held
  unfolding take_trial
  take_trial_step doc w wanted h =
      let subject = doc.user.telegram_subject in
      let user = doc.device.user_id in
      let used = λ (p : Plane). any (is_used subject fingerprint) p.trial_fingerprints in
      let (reused, a, b, s) = >>=-eq-ok (select used) _ w h in
      let v : Run Plane = (select used w).1 in
      let (known, same) = select-eq-ok used w a in
      let (g, e, n) = guarded (not reused) _ _ v b in
      let start = update (start_trial now user) in
      let (t, c, d, s2) = >>=-eq-ok start _ v e in
      let x : Run Plane = (start v).1 in
      let insert = update_checked (insert_fingerprint subject fingerprint) in
      let (t2, c2, d2, s3) = >>=-eq-ok insert _ x d in
      let moved = update-eq-ok (start_trial now user) v c ∙ ap (start_trial now user) same in
      let (rows, subs) =
        inserted subject fingerprint x.held (insert x).1.held
          (update_checked-eq-ok (insert_fingerprint subject fingerprint) x c2) in
      subst (λ (y : Run Plane). TrialStep now fingerprint doc w.held y.held) (sym (s ∙ n ∙ s2 ∙ s3))
        (first_trial ((eq_iff doc.subscription.plan_code "TRIAL").0 (ground (arith, wanted)))
          (pending_status doc.subscription.status (ground (arith, wanted)))
          (λ row.
            unused subject fingerprint w.held.trial_fingerprints row (ground (arith, known, g)))
          (rows
            ∙ ap (λ (p : Plane). p.trial_fingerprints ++ fingerprint_row subject fingerprint ∷ [])
                moved)
          (subst (Forall₂ (IsStarted now user) w.held.subscriptions)
            (sym (subs ∙ ap (λ (p : Plane). p.subscriptions) moved))
            (change-Forall₂ (IsStarted now user) (awaits_trial user) (trial_started now)
              (trial_started-IsStarted now user) w.held.subscriptions)))

  trial_if_step :
      (b : Bool) (doc : Document) (w : Run Plane) {s : SubscriptionStatus}
      → wants_trial now fingerprint doc.subscription ≡ b
      → (trial_if now fingerprint b doc w).0 ≡ ok s
      → TrialStep now fingerprint doc w.held (trial_if now fingerprint b doc w).1.held
  unfolding trial_if
  trial_if_step false doc w b h = no_trial refl refl
  trial_if_step true doc w b h = take_trial_step doc w b h

  bound_step :
      (doc : Document) (p q r : Plane)
      → r.subscriptions ≡ q.subscriptions
      → r.trial_fingerprints ≡ q.trial_fingerprints
      → TrialStep now fingerprint doc p q
      → TrialStep now fingerprint doc p r
  bound_step doc p q r subs rows (no_trial a b) = no_trial (subs ∙ a) (rows ∙ b)
  bound_step doc p q r subs rows (first_trial a b c d e) =
      first_trial a b c (rows ∙ d)
        (subst (Forall₂ (IsStarted now doc.device.user_id) p.subscriptions) (sym subs) e)

  bind_body_step :
      (doc : Document) (w : Run Plane) (s : SubscriptionStatus)
      → (bind_body now fingerprint doc w).0 ≡ ok s
      → TrialStep now fingerprint doc w.held (bind_body now fingerprint doc w).1.held
  unfolding bind_body
  bind_body_step doc w r h =
      let m = trial_if now fingerprint (wants_trial now fingerprint doc.subscription) doc in
      let (status, a, b, s) = >>=-eq-ok m _ w h in
      let f = on_slot doc.device.device_id (bound now fingerprint) in
      let (t, c, d, s2) = >>=-eq-ok (update f) _ (m w).1 b in
      let e = ap (λ (x : Run Plane). x.held) (s ∙ s2) ∙ update-eq-ok f (m w).1 c in
      bound_step doc w.held (m w).1.held _ (ap (λ (p : Plane). p.subscriptions) e)
        (ap (λ (p : Plane). p.trial_fingerprints) e) (trial_if_step _ doc w refl a)

  -- A binding of a document's device to a hardware ID, whatever fails, leaves the subscriptions and
  -- the trial fingerprints as they were, or starts the trial of the device's user, for three days and
  -- 20 GB: only if the document's subscription is a trial that is awaited, and no fingerprint has the
  -- user's Telegram account or the hardware ID; the fingerprint of both is added, and no other
  -- subscription changes.
  pub bind_device_trial :
      (doc : Document) (stored : Option String) (w : Run Plane)
      → TrialStep now fingerprint doc w.held (bind_device now fingerprint doc stored w).1.held
  unfolding bind_device
  bind_device_trial doc none w =
      handled_related (TrialStep now fingerprint doc) (problem 500 "") (problem 500 "bind")
        (bind_body now fingerprint doc) w (λ p. no_trial refl refl) (bind_body_step doc)
  bind_device_trial doc (some h) w = elim (Bool-cases (h == fingerprint)) [
    | inl e ↦ rw e (no_trial refl refl)
    | inr f ↦ rw f (no_trial refl refl)
  ]
