-- ===== src/Plane/Roles.antt =====
-- internal/controlplane/admin.go: administrative roles, the status of users and commands to nodes.
pub mod Owners
use rmvpn.Base.{
  ℕ, ◌+◌, String, Bool, true, false, not, ◌&&◌, ◌||◌, Option, none, some, List, [], ◌∷◌, ◌++◌, ◌==◌,
  any, find, keep, change, map, length, is_empty, eqb, ltb, if◌then◌else◌,
}
use rmvpn.Base.Text.{Runes, trim_space}
use rmvpn.Base.Time.{Time}
use rmvpn.Base.Outcome.{Result, ok, err, no_rows, problem}
use rmvpn.Plane.Tables.{
  Plane, UserRow, RoleRow, AssignmentRow, SlotRow, Order, device_revoke, posted,
}
use rmvpn.Plane.Queue.{is_slot, assigns, queue}
use rmvpn.Plane.Wallet.{has_role, role_of, text_or, has_reason, byte_length, audit, role_text}
use rmvpn.Plane.Hub.Connection.{is_active_user, is_known, is_unset}
use rmvpn.Plane.Provision.{is_owned}
use rmvpn.Exec.{
  Method, pure, guard, or_raise, attempt, select, update, update_checked, update_returning, handled,
  ◌>>=◌, ◌>>◌,
}

abbrev pub is_owner : RoleRow → Bool
is_owner row = row.role == "owner"

-- SELECT count(*) FROM user_roles WHERE role='owner'
abbrev pub owners : Plane → ℕ
owners p = length (keep is_owner p.user_roles)

abbrev pub count_or_zero : Option ℕ → ℕ
count_or_zero none = 0
count_or_zero (some n) = n

-- DELETE FROM user_roles WHERE user_id=…
abbrev pub delete_roles : String → Plane → Plane
delete_roles user p = record p {
  user_roles = keep (λ (r : RoleRow). not (has_role user r)) p.user_roles;
}

abbrev pub insert_role : String → String → Plane → Plane
insert_role user role p = record p {
  user_roles = p.user_roles ++ record { user_id = user; role = role } ∷ [];
}

abbrev pub is_allowed_role : String → Bool
is_allowed_role role =
    role == "owner" || role == "operator" || role == "support" || role == "auditor"

unfoldable pub set_role_body : String → String → String → Method Plane (Unit {0})
unfolding update update_checked audit
set_role_body actor user role = do
  update (delete_roles user)
  update (insert_role user role)
  update_checked (audit false actor "admin.role.set" user)

-- The test of the last owner: the count is read only where an owner would lose the role.
unfoldable pub check_last_owner : Bool → Method Plane (Unit {0})
unfolding select
check_last_owner false = pure tt
check_last_owner true = do
  count ← attempt (select owners)
  guard (ltb 1 (count_or_zero count)) (problem 409 "last-owner")

-- The body is a role and a reason, `none` where it does not decode.
unfoldable pub set_admin_role : String → String → Option (String × Runes) → Method Plane (Unit {0})
unfolding select handled set_role_body check_last_owner trim_space byte_length
set_admin_role actor user body = do
  wanted ← or_raise (problem 400 "admin-role") body
  guard (is_allowed_role wanted.0 && has_reason wanted.1) (problem 400 "admin-role")
  exists ← attempt (select (is_active_user user))
  guard (is_known exists) (problem 404 "user")
  current ← attempt (select (role_of user))
  check_last_owner (text_or current == "owner" && not (wanted.0 == "owner"))
  handled (problem 500 "db") (problem 500 "db") (set_role_body actor user wanted.0)

abbrev pub found_role : Option RoleRow → Option String
found_role none = none
found_role (some row) = some row.role

abbrev pub joined_role : Option (Option String) → Option String
joined_role none = none
joined_role (some r) = r

unfoldable pub remove_admin_role : String → String → Option Runes → Method Plane (Unit {0})
unfolding select check_last_owner update update_checked audit trim_space byte_length
remove_admin_role actor user body = do
  reason ← or_raise (problem 400 "admin-role") body
  guard (has_reason reason) (problem 400 "admin-role")
  found ← attempt (select (λ p. found_role (find (has_role user) p.user_roles)))
  current ← or_raise (problem 404 "admin") (joined_role found)
  check_last_owner (current == "owner")
  deleted ← attempt (update (delete_roles user))
  or_raise (problem 500 "db") deleted
  attempt (update_checked (audit false actor "admin.role.remove" user))
  pure tt

-- UPDATE users SET status=… WHERE id=…, and its RowsAffected
abbrev pub is_user : String → UserRow → Bool
is_user user row = row.user_id == user

abbrev pub with_status : Bool → UserRow → UserRow
with_status blocked row = record row { is_blocked = blocked }

unfoldable pub set_status : String → Bool → Plane → Result (ℕ × Plane)
set_status user blocked p = ok (
  length (keep (is_user user) p.users),
  record p { users = change (is_user user) (with_status blocked) p.users },
)

unfoldable pub revoke_all : Time → String → List AssignmentRow → Plane → Plane
unfolding queue
revoke_all now user [] p = p
revoke_all now user (a ∷ rest) p =
    let others = revoke_all now user rest in
    if is_owned user (find (is_slot a.device_id) p.devices)
    then others (queue now a.node_id (device_revoke a.device_id "account blocked") p)
    else others p

abbrev pub is_users_slot : String → Option SlotRow → Bool
is_users_slot user none = false
is_users_slot user (some d) = d.user_id == user

abbrev pub unprovision : AssignmentRow → AssignmentRow
unprovision a = record a { provisioned_at = none }

abbrev pub unprovision_user : String → Plane → Plane
unprovision_user user p = record p {
  node_assignments =
      change (λ (a : AssignmentRow). is_users_slot user (find (is_slot a.device_id) p.devices))
        unprovision p.node_assignments;
}

unfoldable pub block_devices : Time → String → Bool → Method Plane (Unit {0})
unfolding update revoke_all
block_devices now user false = pure tt
block_devices now user true = do
  update (λ p. revoke_all now user p.node_assignments p)
  update (unprovision_user user)

unfoldable pub status_body : Time → String → String → Bool → Method Plane (Unit {0})
unfolding update_returning set_status block_devices update update_checked audit
status_body now actor user blocked = do
  rows ← attempt (update_returning (set_status user blocked))
  guard (not (eqb (count_or_zero rows) 0)) (problem 404 "user")
  block_devices now user blocked
  update_checked (audit false actor "user.status" user)

-- The body is whether the user is blocked, and a reason.
unfoldable pub update_user_status :
    Time → String → String → Option (Bool × Runes) → Method Plane (Unit {0})
unfolding select handled status_body trim_space byte_length
update_user_status now actor user body = do
  wanted ← or_raise (problem 400 "user-status") body
  guard (has_reason wanted.1) (problem 400 "user-status")
  guard (not (user == actor && wanted.0)) (problem 409 "self-block")
  role ← attempt (select (role_of user))
  guard (text_or role == "" || not wanted.0) (problem 409 "admin-block")
  handled (problem 500 "db") (problem 500 "db") (status_body now actor user wanted.0)

abbrev pub is_allowed_command : String → Bool
is_allowed_command kind =
    kind == "device.upsert"
    || kind == "device.revoke"
    || kind == "session.kick"
    || kind == "policy.override"
    || kind == "certificate.rotate"
    || kind == "drain"
    || kind == "update"

-- The payload comes with its `deviceId`.
unfoldable pub enqueue_command :
    Time → String → String → String → Option String → String → Runes → Method Plane (Unit {0})
unfolding update update_checked queue audit trim_space
enqueue_command now actor node kind device payload reason = do
  guard (not (kind == "" || payload == "" || is_empty (trim_space reason))) (problem 400 "command")
  guard (is_allowed_command kind) (problem 400 "command-type")
  queued ← attempt (update (queue now node (posted kind device payload)))
  or_raise (problem 500 "db") queued
  noted ← attempt (update_checked (audit false actor "node.command" node))
  or_raise (problem 500 "db") noted

unfoldable pub queue_all : Time → List AssignmentRow → Order → Plane → Plane
unfolding queue
queue_all now [] order p = p
queue_all now (a ∷ rest) order p = queue_all now rest order (queue now a.node_id order p)

unfoldable pub queue_device_command : Time → String → Order → Method Plane (Unit {0})
unfolding update queue_all
queue_device_command now device order =
    update (λ p. queue_all now (keep (assigns device) p.node_assignments) order p)
