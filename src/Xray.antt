-- ===== src/Xray.antt =====
-- internal/xray/manager.go: the users of the local Xray inbound follow the devices of the store.
pub mod Api
pub mod Effects
pub mod Sync
pub mod Revocation
use rmvpn.Base.{
  String, Bool, true, false, not, ◌&&◌, ◌||◌, Option, none, some, List, [], ◌∷◌, ◌==◌, contains,
  find, keep, if◌then◌else◌,
}
use rmvpn.Base.Int.{ℤ, pos, leb_ℤ, ltb_ℤ}
use rmvpn.Base.Time.{Time, after}
use rmvpn.Base.Outcome.{Result}
use rmvpn.Model.{Device, PlanPolicy, policy_of, is_trial}
use rmvpn.Exec.{M, pure, lift, attempt, gets, modify, call, ◌>>=◌, ◌>>◌}
use rmvpn.Node.{Node}
use rmvpn.Store.Devices.{devices, device_by_id}
use rmvpn.Store.Usage.{add_usage}
use Api.{Inbound, dial, current, add_user, remove}

unfoldable pub allowed_plan : Time → Device → Option PlanPolicy → Bool
allowed_plan now d none = false
allowed_plan now d (some policy) =
    let quota = if leb_ℤ d.quota_bytes (pos 0) then policy.quota_bytes else d.quota_bytes in
    let exhausted = leb_ℤ quota d.used_bytes in
    if is_trial d.plan && exhausted
    then false
    else exhausted
      || leb_ℤ d.lease_bytes (pos 0)
      || (after d.lease_expires now && ltb_ℤ d.used_bytes d.lease_bytes)

unfoldable pub allowed : Time → Device → Bool
unfolding allowed_plan policy_of
allowed now d =
    if not d.active || not (after d.subscription_ends now)
    then false
    else allowed_plan now d (policy_of d.plan)

abbrev pub names : String → Device → Bool
names id d = d.id == id

abbrev pub without : String → List Device → List Device
without id = keep (λ d. not (names id d))

-- The devices that may connect: allowed, and not blocked by a revocation or a kick.
abbrev pub desired_of : Time → List Device → List String → List Device
desired_of now ds blocked = keep (λ d. allowed now d && not (contains d.id blocked)) ds

abbrev pub or_zero : Option ℤ → ℤ
or_zero none = pos 0
or_zero (some n) = n

-- `user_id` is risevless.IDFromCredentialHash.
module _ (x : Inbound) (user_id : String → Result String) where
  unfoldable pub add : Device → M (Unit {0})
  unfolding add_user
  add d = do id ← lift (user_id d.credential_hash); add_user x d.id id

  -- current[device.ID] == expected, or the old user, if any, is replaced.
  unfoldable pub replace : Device → String → Option String → M (Unit {0})
  unfolding add remove
  replace d expected none = add d
  replace d expected (some id) = if id == expected then pure tt else (do remove x d.id; add d)

  unfoldable pub ensure : Device → M (Unit {0})
  unfolding current replace
  ensure d = do
    users ← current x
    expected ← lift (user_id d.credential_hash)
    replace d expected (Api.lookup d.id users)

  unfoldable pub upsert : Time → Device → M (Unit {0})
  unfolding allowed ensure remove
  upsert now d = do
    modify (λ n. record n { blocked = keep (λ id. not (id == d.id)) n.blocked })
    if allowed now d then ensure d else remove x d.id

  unfoldable pub revoke : String → M (Unit {0})
  unfolding remove
  revoke id = do modify (λ n. record n { blocked = id ∷ n.blocked }); remove x id

  -- One round of the loop over the users that Xray has: what is left of `desired` comes back.
  unfoldable pub sync_user : String → String → Option Device → M (Unit {0})
  unfolding add remove
  sync_user id user none = remove x id
  sync_user id user (some d) = do
    expected ← lift (user_id d.credential_hash)
    if user == expected then pure tt else (do remove x id; add d)

  unfoldable pub sync_users : List (String × String) → List Device → M (List Device)
  unfolding sync_user
  sync_users [] desired = pure desired
  sync_users ((id, user) ∷ rest) desired = do
    sync_user id user (find (names id) desired)
    sync_users rest (without id desired)

  unfoldable pub add_all : List Device → M (Unit {0})
  unfolding add
  add_all [] = pure tt
  add_all (d ∷ ds) = do add d; add_all ds

  unfoldable pub reconcile : Time → M (Unit {0})
  unfolding devices current sync_users add_all
  reconcile now = do
    ds ← devices
    users ← current x
    blocked ← gets (λ n. n.blocked)
    left ← sync_users users (desired_of now ds blocked)
    add_all left

  abbrev pub cut_off : Time → Option Device → M (Unit {0})
  cut_off now none = pure tt
  cut_off now (some d) = if allowed now d then pure tt else (do attempt (revoke d.id); pure tt)

  -- `stats` is what GetStats answers for the up and the down direction; `none` is codes.NotFound.
  unfoldable pub collect_device : (String → Option ℤ × Option ℤ) → Time → Device → M (Unit {0})
  unfolding call add_usage device_by_id revoke allowed
  collect_device stats now d = do
    up ← call (λ n. (Result.ok (or_zero (stats d.id).0), n))
    down ← call (λ n. (Result.ok (or_zero (stats d.id).1), n))
    if ltb_ℤ (pos 0) up || ltb_ℤ (pos 0) down
        then (do add_usage d.id up down now; found ← device_by_id d.id; cut_off now found)
        else pure tt

  unfoldable pub collect_each : (String → Option ℤ × Option ℤ) → Time → List Device → M (Unit {0})
  unfolding collect_device
  collect_each stats now [] = pure tt
  collect_each stats now (d ∷ ds) = do collect_device stats now d; collect_each stats now ds

  unfoldable pub collect_usage : (String → Option ℤ × Option ℤ) → Time → M (Unit {0})
  unfolding devices dial collect_each
  collect_usage stats now = do ds ← devices; dial x; collect_each stats now ds
