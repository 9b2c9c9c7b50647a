-- ===== src/Plane/Lifecycle/Frame.antt =====
-- What queueing commands and notifications leaves as it was.
use rmvpn.Base.{
  ℕ, ◌-◌, ◌*◌, String, Bool, true, false, Option, none, some, List, [], ◌∷◌, ◌≡◌, arith,
  if◌then◌else◌,
}
use rmvpn.Base.Time.{Time, hour}
use rmvpn.Plane.Tables.{
  Plane, SubscriptionRow, SubscriptionStatus, in_force, in_grace, expired, suspended, pending_trial,
  AssignmentRow,
}
use rmvpn.Plane.Queue.{queue}
use rmvpn.Plane.Lifecycle.{throttle_all, throttle_for, kick_all_blocked, kick_blocked}
use rmvpn.Plane.Lifecycle.Notices.{
  notify, notify_before, notify_status, notify_all, trial_hours, grace_hours,
}
use rmvpn.Plane.Hub.Intake.{owner, subscription_of}

-- What the queueing and the notifications leave.
abbrev pub IsKept : List SubscriptionRow → Plane → Type 0
IsKept rows p = p.subscriptions ≡ rows

module _ (rows : List SubscriptionRow) where
  pub throttle_all-IsKept :
      (now : Time) (rest : List AssignmentRow) (p : Plane)
      → IsKept rows p
      → IsKept rows (throttle_all now rest p)
  unfolding throttle_all queue
  throttle_all-IsKept now [] p h = h
  throttle_all-IsKept now (a ∷ rest) p h =
      throttle_all-IsKept now rest _ (throttled (subscription_of (owner a.device_id p) p))
    where
      throttled : (o : Option SubscriptionRow) → IsKept rows (throttle_for now a o p)
      throttled none = h
      throttled (some s) = ground arith

  pub kick_all_blocked-IsKept :
      (now : Time) (rest : List AssignmentRow) (p : Plane)
      → IsKept rows p
      → IsKept rows (kick_all_blocked now rest p)
  unfolding kick_all_blocked queue
  kick_all_blocked-IsKept now [] p h = h
  kick_all_blocked-IsKept now (a ∷ rest) p h =
      kick_all_blocked-IsKept now rest _ (kicked (subscription_of (owner a.device_id p) p))
    where
      kicked : (o : Option SubscriptionRow) → IsKept rows (kick_blocked now a o p)
      kicked none = h
      kicked (some s) = ground arith

  notify-IsKept :
      (user kind : String) (at : Time) (p : Plane)
      → IsKept rows p
      → IsKept rows (notify user kind at p)
  unfolding notify
  notify-IsKept user kind at p h = ground arith

  notify_before-IsKept :
      (user : String) (ends : Time) (hs : List (ℕ × String)) (p : Plane)
      → IsKept rows p
      → IsKept rows (notify_before user ends hs p)
  unfolding notify_before
  notify_before-IsKept user ends [] p h = h
  notify_before-IsKept user ends (x ∷ hs) p h =
      notify_before-IsKept user ends hs _ (notify-IsKept user x.1 (ends - x.0 * hour) p h)

  if-IsKept :
      (b : Bool) (p q : Plane) → IsKept rows p → IsKept rows q → IsKept rows (if b then p else q)
  if-IsKept true p q h k = h
  if-IsKept false p q h k = k

  notify_status-IsKept :
      (now : Time) (user : String) (trial : Bool) (status : SubscriptionStatus)
      (ends grace : Option Time) (p : Plane)
      → IsKept rows p
      → IsKept rows (notify_status now user trial status ends grace p)
  unfolding notify_status
  notify_status-IsKept now user trial in_force none grace p h = h
  notify_status-IsKept now user trial in_force (some ends) grace p h =
      if-IsKept _ _ _ (notify_before-IsKept user ends trial_hours p h) h
  notify_status-IsKept now user trial in_grace ends none p h = h
  notify_status-IsKept now user trial in_grace ends (some grace) p h =
      notify_before-IsKept user grace grace_hours _
        (if-IsKept _ _ _ (notify-IsKept user "grace.entered" now p h) h)
  notify_status-IsKept now user trial expired none grace p h = h
  notify_status-IsKept now user trial expired (some ends) grace p h =
      if-IsKept _ _ _ (notify-IsKept user "trial.blocked" ends p h) h
  notify_status-IsKept now user trial suspended ends none p h = h
  notify_status-IsKept now user trial suspended ends (some grace) p h =
      if-IsKept _ _ _ (notify-IsKept user "grace.blocked" grace p h) h
  notify_status-IsKept now user trial pending_trial ends grace p h = h

  pub notify_all-IsKept :
      (now : Time) (ss : List SubscriptionRow) (p : Plane)
      → IsKept rows p
      → IsKept rows (notify_all now ss p)
  unfolding notify_all
  notify_all-IsKept now [] p h = h
  notify_all-IsKept now (s ∷ rest) p h =
      notify_all-IsKept now rest _ (notify_status-IsKept now _ _ _ _ _ p h)
