-- ===== src/Plane/Lifecycle/Notices.antt =====
-- internal/controlplane/workers.go: the notifications of the life cycle and their delivery.
use rmvpn.Base.{
  ℕ, ◌+◌, ◌-◌, ◌*◌, String, Bool, true, false, ◌&&◌, Option, none, some, List, [], ◌∷◌, ◌++◌, ◌==◌,
  any, keep, take, change, sort_by, eqb, leb, ltb, if◌then◌else◌,
}
use rmvpn.Base.Text.{codes, has_prefix}
use rmvpn.Base.Time.{Time, minute, hour}
use rmvpn.Plane.Tables.{
  Plane, NoticeRow, SubscriptionRow, SubscriptionStatus, in_force, in_grace, expired, suspended,
}
use rmvpn.Exec.{Method, pure, attempt, select, update, ◌>>=◌, ◌>>◌}

abbrev pub same_notice : String → String → Time → NoticeRow → Bool
same_notice user kind at row = row.user_id == user && row.kind == kind && eqb row.scheduled_at at

-- INSERT … ON CONFLICT DO NOTHING, by UNIQUE(user_id,kind,scheduled_at)
unfoldable pub notify : String → String → Time → Plane → Plane
notify user kind at p =
    if any (same_notice user kind at) p.notifications
    then p
    else record p { notifications = p.notifications ++ row ∷ [] }
  where
    row : NoticeRow
    row = record { user_id = user; kind = kind; scheduled_at = at; sent_at = none; attempts = 0 }

-- unnest(ARRAY[…]) hours, with the kinds that the statement makes of them.
abbrev pub trial_hours : List (ℕ × String)
trial_hours =
    (48, "trial.48h")
    ∷ (24, "trial.24h")
    ∷ (12, "trial.12h")
    ∷ (6, "trial.6h")
    ∷ (3, "trial.3h")
    ∷ (1, "trial.1h")
    ∷ []

abbrev pub grace_hours : List (ℕ × String)
grace_hours = (12, "grace.12h") ∷ (1, "grace.1h") ∷ []

unfoldable pub notify_before : String → Time → List (ℕ × String) → Plane → Plane
unfolding notify
notify_before user ends [] p = p
notify_before user ends (h ∷ hs) p =
    notify_before user ends hs (notify user h.1 (ends - h.0 * hour) p)

-- The five INSERTs, by what they ask of a subscription.
unfoldable pub notify_status :
    Time → String → Bool → SubscriptionStatus → Option Time → Option Time → Plane → Plane
unfolding notify notify_before
notify_status now user trial in_force (some ends) grace p =
    if trial && ltb now ends then notify_before user ends trial_hours p else p
notify_status now user trial in_grace ends (some grace) p =
    notify_before user grace grace_hours
      (if ltb now (grace + 2 * minute) then notify user "grace.entered" now p else p)
notify_status now user trial expired (some ends) grace p =
    if trial && ltb now (ends + 2 * minute) then notify user "trial.blocked" ends p else p
notify_status now user trial suspended ends (some grace) p =
    if ltb now (grace + 2 * minute) then notify user "grace.blocked" grace p else p
notify_status now user trial status ends grace p = p

unfoldable pub notify_all : Time → List SubscriptionRow → Plane → Plane
unfolding notify_status
notify_all now [] p = p
notify_all now (s ∷ rest) p = notify_all now rest (
    notify_status now s.user_id (s.plan_code == "TRIAL") s.status s.period_ends_at s.grace_ends_at
      p)

-- The texts of notificationText, by the sense of each.
pub data Text : Type 0 where
  trial_over trial_soon grace_entered grace_over grace_soon state_changed : Text

unfoldable pub notification_text : String → Text
notification_text kind =
    if has_prefix (codes kind) (codes "trial.")
    then (if kind == "trial.blocked" then trial_over else trial_soon)
    else if kind == "grace.entered"
    then grace_entered
    else if has_prefix (codes kind) (codes "grace.")
    then (if kind == "grace.blocked" then grace_over else grace_soon)
    else state_changed

abbrev pub is_unsent : Option Time → Bool
is_unsent none = true
is_unsent (some t) = false

-- n.sent_at IS NULL AND n.scheduled_at<=now() AND n.attempts<10
abbrev pub is_deliverable : Time → NoticeRow → Bool
is_deliverable now n = is_unsent n.sent_at && leb n.scheduled_at now && ltb n.attempts 10

abbrev pub scheduled_le : NoticeRow → NoticeRow → Bool
scheduled_le a b = leb a.scheduled_at b.scheduled_at

abbrev pub is_notice : NoticeRow → NoticeRow → Bool
is_notice n row = same_notice n.user_id n.kind n.scheduled_at row

abbrev pub tried : Time → Bool → NoticeRow → NoticeRow
tried now true row = record row { sent_at = some now; attempts = row.attempts + 1 }
tried now false row = record row { attempts = row.attempts + 1 }

abbrev pub mark_tried : Time → Bool → NoticeRow → Plane → Plane
mark_tried now sent n p = record p {
  notifications = change (is_notice n) (tried now sent) p.notifications;
}

-- `telegram user text` says whether the Bot API answered the message to that user with 2xx.
unfoldable pub deliver_each :
    (String → Text → Bool) → Time → List NoticeRow → Method Plane (Unit {0})
unfolding update notification_text
deliver_each telegram now [] = pure tt
deliver_each telegram now (n ∷ ns) = do
  attempt (update (mark_tried now (telegram n.user_id (notification_text n.kind)) n))
  deliver_each telegram now ns

unfoldable pub deliver_notifications :
    (String → Text → Bool) → Time → (configured : Bool) → Method Plane (Unit {0})
unfolding select deliver_each sort_by
deliver_notifications telegram now false = pure tt
deliver_notifications telegram now true = do
  items ← select (λ p. take 100 (sort_by scheduled_le (keep (is_deliverable now) p.notifications)))
  deliver_each telegram now items
