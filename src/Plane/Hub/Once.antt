-- ===== src/Plane/Hub/Once.antt =====
-- A batch of events that the hub has taken changes nothing when it comes again.
use rmvpn.Base.{
  ℕ, zero, suc, String, Bool, true, Option, none, some, List, [], ◌∷◌, ◌++◌, ◌≡◌, refl, sym, ap,
  subst, ◌∙◌, arith, any, All, change_checked, find, inl, inr, Bool-cases, if◌then◌else◌, ◌==◌,
  eq_iff,
}
use rmvpn.Base.Int.{ℤ, pos, add64, leb_ℤ}
use rmvpn.Base.Time.{Time}
use rmvpn.Base.Outcome.{Result, ok, err, backend}
use rmvpn.Plane.Tables.{Plane, EventRow, SubscriptionRow, AssignmentRow, usage_acked, Written}
use rmvpn.Plane.Queue.{queue, of_user, assigns}
use rmvpn.Plane.Hub.Intake.{
  UsageReport, is_recorded, event_row, insert_usage, count_used, count_for, owner, subscription_of,
  more_used, with_subscriptions, kick_exhausted, kick_for, count_event, take_events, event_ids,
  write, usage,
}
use rmvpn.Exec.{
  Run, failing, spent, follow, update, update_checked, update_returning, call, transaction,
}
use rmvpn.Exec.Keeps.{
  Keeps, Keeps-pure, Keeps-bind, Keeps-update, Keeps-update_checked, Keeps-update_returning,
}
use rmvpn.Exec.Success.{>>=-eq-ok, update_returning-eq-ok, transaction-eq-ok, transaction_result}

-- The event stands in the table under the node's name.
abbrev IsTaken : String → List EventRow → UsageReport → Type 0
IsTaken node rows e =
    (any (is_recorded node e.event_id) rows ≡ true)
    × (leb_ℤ (pos 0) e.rx_bytes ≡ true)
    × (leb_ℤ (pos 0) e.tx_bytes ≡ true)

any-append-left :
    {A : Type 0} (p : A → Bool) (xs ys : List A) → any p xs ≡ true → any p (xs ++ ys) ≡ true
any-append-left p [] ys h = ground arith
any-append-left p (x ∷ xs) ys h = ground (arith, any-append-left p xs ys)

any-snoc :
    {A : Type 0} (p : A → Bool) (xs : List A) (y : A) → p y ≡ true → any p (xs ++ y ∷ []) ≡ true
any-snoc p [] y h = ground arith
any-snoc p (x ∷ xs) y h = ground (arith, any-snoc p xs y h)

same_text : (s : String) → (s == s) ≡ true
same_text s = (eq_iff s s).1 refl

insert_usage-IsTaken :
    (node : String) (e : UsageReport) (p : Plane) {n : ℕ} {q : Plane}
    → insert_usage node e p ≡ ok (n, q)
    → IsTaken node q.usage_events e
unfolding insert_usage
insert_usage-IsTaken node e p h =
    let own : is_recorded node e.event_id (event_row node e) ≡ true =
      ground (arith, same_text node, same_text e.event_id) in
    ground (arith, any-snoc (is_recorded node e.event_id) p.usage_events (event_row node e) own)

module _ (node : String) (e : UsageReport) where
  abbrev Stays : Plane → Type 0
  Stays p = IsTaken node p.usage_events e

  insert_usage-Stays :
      (x : UsageReport) (p : Plane) (n : ℕ) (q : Plane)
      → insert_usage node x p ≡ ok (n, q)
      → Stays p
      → Stays q
  unfolding insert_usage
  insert_usage-Stays x p n q h t = ground (
    arith,
    any-append-left (is_recorded node e.event_id) p.usage_events (event_row node x ∷ []) t.0,
  )

  count_for-Stays :
      (o : Option String) (b : ℤ) (p q : Plane) → count_for o b p ≡ ok q → Stays p → Stays q
  count_for-Stays none b p q h t = ground arith
  count_for-Stays (some u) b p q h t =
      subscribed (change_checked (of_user u) (more_used b) p.subscriptions) h
    where
      subscribed : (r : Option (List SubscriptionRow)) → with_subscriptions p r ≡ ok q → Stays q
      subscribed none h = cc
      subscribed (some rows) h = ground arith

  kick_for-Stays :
      (now : Time) (device : String) (s : Option SubscriptionRow) (a : Option AssignmentRow)
      (p : Plane)
      → Stays p
      → Stays (kick_for now device s a p)
  unfolding queue
  kick_for-Stays now device none a p t = t
  kick_for-Stays now device (some s) none p t = t
  kick_for-Stays now device (some s) (some a) p t = ground arith

  count_used-Stays :
      (device : String) (b : ℤ) (p q : Plane) → count_used device b p ≡ ok q → Stays p → Stays q
  unfolding count_used
  count_used-Stays device b p q h t = count_for-Stays (owner device p) b p q h t

  kick_exhausted-Stays :
      (now : Time) (device : String) (p : Plane) → Stays p → Stays (kick_exhausted now device p)
  unfolding kick_exhausted
  kick_exhausted-Stays now device p t =
      kick_for-Stays now device (subscription_of (owner device p) p)
        (find (assigns device) p.node_assignments) p t

  count_event-Stays :
      (now : Time) (x : UsageReport) (n : ℕ) → Keeps Stays (count_event now node x n)
  unfolding count_event
  count_event-Stays now x zero = Keeps-pure tt
  count_event-Stays now x (suc n) =
      Keeps-bind (update_checked (count_used x.device_id (add64 x.rx_bytes x.tx_bytes))) _
        (Keeps-update_checked (count_used x.device_id (add64 x.rx_bytes x.tx_bytes)) counted)
        (λ u. Keeps-update (kick_exhausted now x.device_id) kicked)
    where
      counted :
          (p q : Plane)
          → count_used x.device_id (add64 x.rx_bytes x.tx_bytes) p ≡ ok q
          → Stays p
          → Stays q
      counted p q h t = count_used-Stays x.device_id (add64 x.rx_bytes x.tx_bytes) p q h t

      kicked : (p : Plane) → Stays p → Stays (kick_exhausted now x.device_id p)
      kicked p t = kick_exhausted-Stays now x.device_id p t

  take_events-Stays : (now : Time) (es : List UsageReport) → Keeps Stays (take_events now node es)
  unfolding take_events
  take_events-Stays now [] = Keeps-pure tt
  take_events-Stays now (x ∷ es) =
      Keeps-bind (update_returning (insert_usage node x)) _
        (Keeps-update_returning (insert_usage node x) (insert_usage-Stays x))
        (λ n.
          Keeps-bind (count_event now node x n) _ (count_event-Stays now x n)
            (λ u. take_events-Stays now es))

write_only :
    (node : String) (message : Written) (w : Run Plane)
    → (write node message w).1.held
      ≡ record w.held { written = (write node message w).1.held.written }
unfolding write update call
write_only node message w = ground arith

module _ (now : Time) (node : String) where
  -- A batch that was taken stands in the table as a whole.
  take_events-IsTaken :
      (es : List UsageReport) (w : Run Plane) {u : Unit {0}}
      → (take_events now node es w).0 ≡ ok u
      → All (IsTaken node (take_events now node es w).1.held.usage_events) es
  unfolding take_events
  take_events-IsTaken [] w h = tt
  take_events-IsTaken (e ∷ es) w h =
      let (n, a, b, s) = >>=-eq-ok (update_returning (insert_usage node e)) _ w h in
      let v : Run Plane = (update_returning (insert_usage node e) w).1 in
      let i =
        insert_usage-IsTaken node e w.held (update_returning-eq-ok (insert_usage node e) w a) in
      let (t, c, d, s2) = >>=-eq-ok (count_event now node e n) _ v b in
      let x : Run Plane = (count_event now node e n v).1 in
      let k = (take_events-Stays node e now es).at x ((count_event-Stays node e now e n).at v i) in
      let all = take_events-IsTaken es x d in
      subst (λ (y : Run Plane). All (IsTaken node y.held.usage_events) (e ∷ es)) (sym (s ∙ s2))
        (k, all)

  -- Where an event stands in the table its INSERT leaves the state as it is.
  insert_taken :
      (e : UsageReport) (w : Run Plane)
      → IsTaken node w.held.usage_events e
      → update_returning (insert_usage node e) w
        ≡ ((if failing w.faults then err backend else ok 0), spent w)
  unfolding insert_usage update_returning call
  insert_taken e w t = ground arith

  take_events_same :
      (es : List UsageReport) (w : Run Plane)
      → All (IsTaken node w.held.usage_events) es
      → (take_events now node es w).1.held ≡ w.held
  unfolding take_events
  take_events_same [] w t = refl
  take_events_same (e ∷ es) w t = rw (insert_taken e w t.0) (elim (Bool-cases (failing w.faults)) [
    | inl f ↦ rw f refl
    | inr f ↦ rw f (take_events_same es (spent w) t.1)
  ])

  IsTaken-append :
      (rows more : List EventRow) (es : List UsageReport)
      → All (IsTaken node rows) es
      → All (IsTaken node (rows ++ more)) es
  IsTaken-append rows more [] t = tt
  IsTaken-append rows more (e ∷ es) t = (
    (any-append-left (is_recorded node e.event_id) rows more t.0.0, t.0.1, t.0.2),
    IsTaken-append rows more es t.1,
  )

  usage-IsTaken :
      (message_id : String) (es : List UsageReport) (w : Run Plane) {u : Unit {0}}
      → (usage now node message_id (some es) w).0 ≡ ok u
      → All (IsTaken node (usage now node message_id (some es) w).1.held.usage_events) es
  unfolding usage
  usage-IsTaken message_id es w h =
      let (t, a, b, s) = >>=-eq-ok (transaction (take_events now node es)) _ w h in
      let v : Run Plane = (transaction (take_events now node es) w).1 in
      let (body, same) = transaction-eq-ok (take_events now node es) w a in
      let taken = take_events-IsTaken es (spent w) body in
      let only =
        ap (λ (p : Plane). p.usage_events)
          (write_only node (usage_acked message_id (event_ids es)) v) in
      subst (λ rows. All (IsTaken node rows) es)
        (sym (
          ap (λ (x : Run Plane). x.held.usage_events) s
          ∙ only
          ∙ ap (λ (p : Plane). p.usage_events) same))
        taken

  transaction_same :
      (es : List UsageReport) (w : Run Plane)
      → All (IsTaken node w.held.usage_events) es
      → (transaction (take_events now node es) w).1.held ≡ w.held
  transaction_same es w t =
      transaction_result (λ p. p ≡ w.held) (take_events now node es) w _
        (λ a e h. take_events_same es (spent w) t) refl refl

followed_only :
    (node : String) (message : Written) (p : Plane) (r : Result (Unit {0})) (x : Run Plane)
    → x.held ≡ p
    → (follow (λ _. write node message) r x).1.held
      ≡ record p { written = (follow (λ _. write node message) r x).1.held.written }
followed_only node message p (ok u) x e =
    write_only node message x
    ∙ ap (λ (q : Plane). record q { written = (write node message x).1.held.written }) e
followed_only node message p (err z) x e = rw e refl

-- A batch of events whose taking returned, taken again from the same node at any later time, as
-- long as the events that were recorded are still there: whatever is in the tables besides, and
-- whatever fails now, nothing but the answer that is written changes.
pub usage_once :
    (now later : Time) (node message_id again : String) (es : List UsageReport) (w v : Run Plane)
    (more : List EventRow)
    → (usage now node message_id (some es) w).0 ≡ ok tt
    → v.held.usage_events ≡ (usage now node message_id (some es) w).1.held.usage_events ++ more
    → (usage later node again (some es) v).1.held
      ≡ record v.held { written = (usage later node again (some es) v).1.held.written }
unfolding usage
usage_once now later node message_id again es w v more h kept =
    let taken = IsTaken-append now node _ more es (usage-IsTaken now node message_id es w h) in
    let same =
      transaction_same later node es v
        (subst (λ rows. All (IsTaken node rows) es) (sym kept) taken) in
    followed_only node (usage_acked again (event_ids es)) v.held
      (transaction (take_events later node es) v).0 (transaction (take_events later node es) v).1
      same
