-- ===== src/Plane/Hub/Totals.antt =====
-- The traffic that the hub counts on a user's subscription is that of the recorded events.
use rmvpn.Base.{
  ℕ, zero, suc, String, Option, none, some, List, [], ◌∷◌, ◌++◌, ◌≡◌, refl, ap, ◌∙◌, arith, find,
  inl, inr, ◌⊎◌,
}
use rmvpn.Base.Int.{ℤ, add64}
use rmvpn.Base.Time.{Time}
use rmvpn.Base.Outcome.{ok, invalid_encoding}
use rmvpn.Plane.Tables.{Plane, SubscriptionRow, AssignmentRow, session_kick, Written, usage_acked}
use rmvpn.Plane.Queue.{assigns, same_text, queue}
use rmvpn.Plane.Hub.Intake.{
  UsageReport, event_row, insert_usage, owner, count_used, kick_exhausted, kick_for, count_event,
  take_events, write, usage, subscription_of, event_ids,
}
use rmvpn.Exec.Keeps.{Keeps, Keeps-bind, Keeps-update}
use rmvpn.Exec.{Run, update_checked, update_returning, or_raise, transaction}
use rmvpn.Exec.Success.{
  >>=-eq-ok, update-eq-ok, update_checked-eq-ok, update_returning-eq-ok, Keeps-transaction_ok,
  Keeps-or_raise,
}
use rmvpn.Plane.Hub.Counted.{
  recorded, uncounted, recorded-snoc, recorded_same, count_used-IsCounted, grown,
}

module _ (user : String) where
  uncounted-kick_for :
      (now : Time) (device : String) (s : Option SubscriptionRow) (a : Option AssignmentRow)
      (p : Plane)
      → uncounted user (kick_for now device s a p) ≡ uncounted user p
  unfolding uncounted queue
  uncounted-kick_for now device none a p = refl
  uncounted-kick_for now device (some s) none p = refl
  uncounted-kick_for now device (some s) (some a) p =
      let order = session_kick device "quota exhausted" in
      ground (arith, recorded_same user p (queue now a.node_id order p) p.usage_events refl)

  uncounted-kick_exhausted :
      (now : Time) (device : String) (p : Plane)
      → uncounted user (kick_exhausted now device p) ≡ uncounted user p
  unfolding kick_exhausted
  uncounted-kick_exhausted now device p =
      uncounted-kick_for now device (subscription_of (owner device p) p)
        (find (assigns device) p.node_assignments) p

  written_uncounted :
      (p : Plane) (ms : List (String × Written))
      → uncounted user (record p { written = ms }) ≡ uncounted user p
  unfolding uncounted
  written_uncounted p ms =
      rw (recorded_same user p (record p { written = ms }) p.usage_events refl) refl

  -- What the INSERT of an event does where it is not refused.
  record IsInserted (node : String) (e : UsageReport) (n : ℕ) (p q : Plane) : Type 0 where
    rest : q ≡ record p { usage_events = q.usage_events }
    events :
        ((n ≡ 0) × (q.usage_events ≡ p.usage_events))
        ⊎ ((n ≡ 1) × (q.usage_events ≡ p.usage_events ++ event_row node e ∷ []))

  insert_usage-IsInserted :
      (node : String) (e : UsageReport) (p : Plane) {n : ℕ} {q : Plane}
      → insert_usage node e p ≡ ok (n, q)
      → IsInserted node e n p q
  unfolding insert_usage
  insert_usage-IsInserted node e p h = record { rest = ground arith; events = ground arith }

  -- An event that was inserted, and then counted.
  booked_uncounted :
      (node : String) (e : UsageReport) (p q r : Plane)
      → q ≡ record p { usage_events = p.usage_events ++ event_row node e ∷ [] }
      → count_used e.device_id (add64 e.rx_bytes e.tx_bytes) q ≡ ok r
      → uncounted user r ≡ uncounted user p
  unfolding uncounted
  booked_uncounted node e p q r i c =
      let z = recorded user p p.usage_events in
      let k = count_used-IsCounted user e.device_id z (add64 e.rx_bytes e.tx_bytes) q c in
      let snoc = recorded-snoc user q p.usage_events (event_row node e) in
      let same = recorded_same user p q p.usage_events (rw i refl) in
      let same2 = recorded_same user q r q.usage_events (k.same_devices) in
      let events : q.usage_events ≡ p.usage_events ++ event_row node e ∷ [] = rw i refl in
      let subs : q.subscriptions ≡ p.subscriptions = rw i refl in
      let total : recorded user r r.usage_events
          ≡ grown user z (add64 e.rx_bytes e.tx_bytes) (same_text user (owner e.device_id q)) =
        ground (arith, k.same_events, snoc, same, same2, events) in
      rw total (ground (arith, k.added, subs))

  inserted_none : (node : String) (e : UsageReport) (p q : Plane) → IsInserted node e 0 p q → q ≡ p
  inserted_none node e p q i = elim i.events [
    | inl (_, s) ↦ i.rest ∙ rw s refl
    | inr (f, _) ↦ absurd (omega (arith, f))
  ]

  inserted_some :
      (node : String) (e : UsageReport) (n : ℕ) (p q : Plane)
      → IsInserted node e (suc n) p q
      → q ≡ record p { usage_events = p.usage_events ++ event_row node e ∷ [] }
  inserted_some node e n p q i = elim i.events [
    | inl (f, _) ↦ absurd (omega (arith, f))
    | inr (_, s) ↦ i.rest ∙ rw s refl
  ]

  module _ (now : Time) (node : String) where
    uncounted-count_event :
        (e : UsageReport) (p : Plane) (n : ℕ) (w : Run Plane) {u : Unit {0}}
        → IsInserted node e n p w.held
        → (count_event now node e n w).0 ≡ ok u
        → uncounted user (count_event now node e n w).1.held ≡ uncounted user p
    unfolding count_event
    uncounted-count_event e p zero w i h = ap (uncounted user) (inserted_none node e p w.held i)
    uncounted-count_event e p (suc n) w i h =
        let (t, c, k, s) =
          >>=-eq-ok (update_checked (count_used e.device_id (add64 e.rx_bytes e.tx_bytes))) _ w h in
        let v : Run Plane =
          (update_checked (count_used e.device_id (add64 e.rx_bytes e.tx_bytes)) w).1 in
        let kicked = update-eq-ok (kick_exhausted now e.device_id) v k in
        let booked =
          update_checked-eq-ok (count_used e.device_id (add64 e.rx_bytes e.tx_bytes)) w c in
        ap (λ (x : Run Plane). uncounted user x.held) s
        ∙ ap (uncounted user) kicked
        ∙ uncounted-kick_exhausted now e.device_id v.held
        ∙ booked_uncounted node e p w.held v.held (inserted_some node e n p w.held i) booked

    uncounted-take_events :
        (es : List UsageReport) (w : Run Plane) {u : Unit {0}}
        → (take_events now node es w).0 ≡ ok u
        → uncounted user (take_events now node es w).1.held ≡ uncounted user w.held
    unfolding take_events
    uncounted-take_events [] w h = refl
    uncounted-take_events (e ∷ es) w h =
        let (n, a, b, s) = >>=-eq-ok (update_returning (insert_usage node e)) _ w h in
        let v : Run Plane = (update_returning (insert_usage node e) w).1 in
        let i =
          insert_usage-IsInserted node e w.held
            (update_returning-eq-ok (insert_usage node e) w a) in
        let (t, c, d, s2) = >>=-eq-ok (count_event now node e n) _ v b in
        ap (λ (x : Run Plane). uncounted user x.held) s
        ∙ ap (λ (x : Run Plane). uncounted user x.held) s2
        ∙ uncounted-take_events es (count_event now node e n v).1 d
        ∙ uncounted-count_event e w.held n v i c

write_kept :
    (user : String) (c : Option ℤ) (node : String) (message : Written)
    → Keeps (λ p. uncounted user p ≡ c) (write node message)
unfolding write
write_kept user c node message =
    Keeps-update (λ p. record p { written = p.written ++ (node, message) ∷ [] })
      (λ p e. written_uncounted user p (p.written ++ (node, message) ∷ []) ∙ e)

taken_kept :
    (user : String) (c : Option ℤ) (now : Time) (node : String) (es : List UsageReport)
    → Keeps (λ p. uncounted user p ≡ c) (transaction (take_events now node es))
taken_kept user c now node es =
    Keeps-transaction_ok (take_events now node es)
      (λ w u h e. uncounted-take_events user now node es w h ∙ e)

usage_kept :
    (user : String) (c : Option ℤ) (now : Time) (node message_id : String)
    (body : Option (List UsageReport))
    → Keeps (λ p. uncounted user p ≡ c) (usage now node message_id body)
unfolding usage
usage_kept user c now node message_id body =
    Keeps-bind (or_raise invalid_encoding body) _ (Keeps-or_raise _ body) (λ es.
      Keeps-bind (transaction (take_events now node es)) _ (taken_kept user c now node es)
        (λ u. write_kept user c node (usage_acked message_id (event_ids es))))

-- A batch of events, whether its taking returns or fails, leaves the difference between what each
-- user's subscription counts and the traffic of the recorded events of the user's devices.
pub uncounted-usage :
    (user : String) (now : Time) (node message_id : String) (body : Option (List UsageReport))
    (w : Run Plane)
    → uncounted user (usage now node message_id body w).1.held ≡ uncounted user w.held
uncounted-usage user now node message_id body w =
    (usage_kept user (uncounted user w.held) now node message_id body).at w refl
