-- ===== src/Control/Memory.antt =====
-- What the node remembers of the messages that it has seen stays bounded.
use rmvpn.Base.{
  ◌≤◌, String, Bool, true, false, Option, none, some, List, [], ◌∷◌, length, arith, not, ◌&&◌,
  contains, ◌==◌,
}
use rmvpn.Base.Time.{Time}
use rmvpn.Base.Outcome.{Error, Result, ok, err}
use rmvpn.Crypto.{Crypto}
use rmvpn.Model.{Device}
use rmvpn.Node.{Node}
use rmvpn.Node.Tables.{Store}
use rmvpn.Protocol.{QuotaLease}
use rmvpn.Exec.{World, M, exec, exec_checked, kept_or, gets, guard, or_raise}
use rmvpn.Exec.Keeps.{
  Keeps, Keeps-pure, Keeps-raise, Keeps-gets, Keeps-modify, Keeps-if, Keeps-bind, Keeps-attempt,
  Keeps-query, Keeps-exec, Keeps-exec_checked, keeps_rules,
}
use rmvpn.Store.State.{state_value, put_states, set_states, put_state}
use rmvpn.Store.Devices.{upsert_device, device_by_id, revoke_device, apply_policy_override}
use rmvpn.Store.Usage.{mark_usage_sent}
use rmvpn.Store.Notices.{save_compliance, resolve_alert}
use rmvpn.Compliance
use rmvpn.Compliance.{check_feed}
use rmvpn.Control.Messages.{
  Envelope, Command, device_upsert, quota_lease, device_revoke, session_kick, policy_override,
  compliance_feed, usage_ack, certificate_rotate, drain, update, unknown, malformed,
}
use rmvpn.Control.Handlers.{
  Client, Provisioner, kick_all, provision_stored, hand_on, handle_upsert, setting_or, or_setting,
  provision, handle_lease, provisioner_revoke, provisioner_kick, handle_revoke, handle_kick,
  handle_override, handle_feed, handle_usage_ack, handle_rotate,
}
use rmvpn.Control.{handle, mark_seen, reply, conclude, receive, receive_all}

-- What the kickers and the provisioner of a client keep.
module _ (P : Node → Type 0) where
  abbrev pub KickersKeep : List (String → M (Unit {0})) → Type 0
  KickersKeep [] = Unit
  KickersKeep (kicker ∷ rest) = ((id : String) → Keeps P (kicker id)) × KickersKeep rest

  abbrev pub ProvisionerKeeps : Option Provisioner → Type 0
  ProvisionerKeeps none = Unit
  ProvisionerKeeps (some x) =
      ((d : Device) → Keeps P (x.upsert d))
      × ((id : String) → Keeps P (x.revoke id))
      × ((id : String) → Keeps P (x.kick id))

module _ (P : Node → Type 0)
    (stable : (n : Node) (s : Store) → P n → P (record n { store = s })) where
  Keeps-exec_any : (f : Store → Store) → Keeps P (exec f)
  Keeps-exec_any f = Keeps-exec f (λ n h. stable n (f n.store) h)

  kept_stable : (n : Node) (r : Result Store) → P n → P (kept_or n r).1
  kept_stable n (ok s) h = stable n s h
  kept_stable n (err e) h = h

  Keeps-exec_checked_any : (f : Store → Result Store) → Keeps P (exec_checked f)
  Keeps-exec_checked_any f = Keeps-exec_checked f (λ n h. kept_stable n (f n.store) h)

  Keeps-put_states : (values : List (String × String)) → Keeps P (put_states values)
  unfolding put_states
  Keeps-put_states [] = Keeps-pure tt
  Keeps-put_states ((k, v) ∷ rest) =
      Keeps-bind (exec (put_state k v)) (λ _. put_states rest) (Keeps-exec_any _)
        (λ _. Keeps-put_states rest)

  Keeps-guard : (b : Bool) (x : Error) → Keeps P (guard b x)
  Keeps-guard true x = Keeps-pure tt
  Keeps-guard false x = Keeps-raise x

  Keeps-or_raise : {A : Type 0} (x : Error) (o : Option A) → Keeps P (or_raise x o)
  Keeps-or_raise x none = Keeps-raise x
  Keeps-or_raise x (some a) = Keeps-pure a

  ruleset method_rules = (
    keeps_rules, Keeps-exec_any, Keeps-exec_checked_any, Keeps-put_states, Keeps-guard,
    Keeps-or_raise,
  )

  handle_override-Keeps : (now : Time) (o : _) → Keeps P (handle_override now o)
  unfolding handle_override apply_policy_override
  handle_override-Keeps now o = search method_rules

  kick_all-Keeps :
      (ks : List (String → M (Unit {0})))
      → KickersKeep P ks
      → (id : String) → Keeps P (kick_all ks id)
  unfolding kick_all
  kick_all-Keeps [] k id = record { at = λ w h. h }
  kick_all-Keeps (kicker ∷ rest) k id = record {
    at = λ w h. (kick_all-Keeps rest k.1 id).at (kicker id w).1 ((k.0 id).at w h);
  }

  hand_on-Keeps :
      (x : Provisioner) → ProvisionerKeeps P (some x) → (o : Option Device) → Keeps P (hand_on x o)
  hand_on-Keeps x k none = Keeps-pure tt
  hand_on-Keeps x k (some d) = k.0 d

  provision_stored-Keeps :
      (o : Option Provisioner)
      → ProvisionerKeeps P o
      → (id : String) → Keeps P (provision_stored o id)
  unfolding provision_stored device_by_id
  provision_stored-Keeps none k id = Keeps-pure tt
  provision_stored-Keeps (some x) k id =
      Keeps-bind (device_by_id id) (hand_on x) (Keeps-query _) (hand_on-Keeps x k)

  provision-Keeps :
      (o : Option Provisioner) → ProvisionerKeeps P o → (d : Device) → Keeps P (provision o d)
  unfolding provision
  provision-Keeps none k d = Keeps-pure tt
  provision-Keeps (some x) k d = k.0 d

  revoke-Keeps :
      (o : Option Provisioner)
      → ProvisionerKeeps P o
      → (id : String) → Keeps P (provisioner_revoke o id)
  unfolding provisioner_revoke
  revoke-Keeps none k id = Keeps-pure tt
  revoke-Keeps (some x) k id = k.1 id

  kick-Keeps :
      (o : Option Provisioner)
      → ProvisionerKeeps P o
      → (id : String) → Keeps P (provisioner_kick o id)
  unfolding provisioner_kick
  kick-Keeps none k id = Keeps-pure tt
  kick-Keeps (some x) k id = k.2 id

  or_setting-Keeps : (key : String) (o : Option (Option String)) → Keeps P (or_setting key o)
  unfolding state_value
  or_setting-Keeps key none = Keeps-query _
  or_setting-Keeps key (some none) = Keeps-query _
  or_setting-Keeps key (some (some v)) = Keeps-pure _

  setting_or-Keeps : (a b : String) → Keeps P (setting_or a b)
  unfolding setting_or state_value
  setting_or-Keeps a b =
      Keeps-bind _ (or_setting b) (Keeps-attempt _ (Keeps-query _)) (or_setting-Keeps b)

  apply-Keeps :
      (k : _) (c : Crypto) (now : Time) (feed : _) (key : String)
      → Keeps P (Compliance.apply k c now feed key)
  unfolding Compliance.apply check_feed save_compliance resolve_alert
  apply-Keeps k c now feed key = search method_rules depth 12

  module _ (c : Client) (kickers : KickersKeep P c.kickers)
      (provisioner : ProvisionerKeeps P c.provisioner) where
    handle_upsert-Keeps : (p : _) → Keeps P (handle_upsert c p)
    unfolding handle_upsert device_by_id upsert_device
    handle_upsert-Keeps p =
        search
          (
            method_rules,
            kick_all-Keeps c.kickers kickers,
            provision_stored-Keeps c.provisioner provisioner,
          )
          depth 16

    handle_lease-Keeps : (now : Time) (l : QuotaLease) → Keeps P (handle_lease c now l)
    unfolding handle_lease device_by_id state_value upsert_device
    handle_lease-Keeps now l =
        search (method_rules, setting_or-Keeps, provision-Keeps c.provisioner provisioner) depth 16

    handle_revoke-Keeps : (id : String) → Keeps P (handle_revoke c id)
    unfolding handle_revoke revoke_device
    handle_revoke-Keeps id =
        search
          (method_rules, revoke-Keeps c.provisioner provisioner, kick_all-Keeps c.kickers kickers)

    handle_kick-Keeps : (id : String) → Keeps P (handle_kick c id)
    unfolding handle_kick
    handle_kick-Keeps id =
        search
          (method_rules, kick-Keeps c.provisioner provisioner, kick_all-Keeps c.kickers kickers)

    handle_feed-Keeps : (now : Time) (f : _) → Keeps P (handle_feed c now f)
    unfolding handle_feed
    handle_feed-Keeps now f = search (method_rules, setting_or-Keeps, apply-Keeps)

    handle_usage_ack-Keeps : (now : Time) (ids : _) → Keeps P (handle_usage_ack now ids)
    unfolding handle_usage_ack mark_usage_sent
    handle_usage_ack-Keeps now ids = search method_rules

    handle_rotate-Keeps : (now : Time) (r : _) → Keeps P (handle_rotate c now r)
    unfolding handle_rotate state_value set_states
    handle_rotate-Keeps now r = search method_rules depth 12

    handle-Keeps : (now : Time) (m : Command) → Keeps P (handle c now m)
    unfolding handle
    handle-Keeps now (device_upsert d) = handle_upsert-Keeps d
    handle-Keeps now (quota_lease l) = handle_lease-Keeps now l
    handle-Keeps now (device_revoke id) = handle_revoke-Keeps id
    handle-Keeps now (session_kick id) = handle_kick-Keeps id
    handle-Keeps now (policy_override o) = handle_override-Keeps now o
    handle-Keeps now (compliance_feed f) = handle_feed-Keeps now f
    handle-Keeps now (usage_ack ids) = handle_usage_ack-Keeps now ids
    handle-Keeps now (certificate_rotate r) = handle_rotate-Keeps now r
    handle-Keeps now drain = Keeps-raise _
    handle-Keeps now update = Keeps-raise _
    handle-Keeps now (unknown type) = Keeps-raise _
    handle-Keeps now (malformed type) = Keeps-raise _

    module _ (marks : (id : String) → Keeps P (mark_seen id))
        (replies : (kind id : String) (b : Bool) (code : String)
          → Keeps P (reply kind id b code)) where
      conclude-Keeps : (id : String) (r : Result (Unit {0})) → Keeps P (conclude id r)
      unfolding conclude
      conclude-Keeps id (ok u) = search (method_rules, marks, replies)
      conclude-Keeps id (err e) = search (method_rules, replies)

      receive-Keeps : (now : Time) (m : Envelope) → Keeps P (receive c now m)
      unfolding receive
      receive-Keeps now m = Keeps-bind (gets (λ n. n.seen)) _ (Keeps-gets _) (λ seen.
          Keeps-if (not (m.message_id == "") && contains m.message_id seen)
            (reply "ack" m.message_id true "duplicate")
            (λ w. conclude m.message_id (handle c now m.command w).0 (handle c now m.command w).1)
            (replies "ack" m.message_id true "duplicate")
            (record {
              at = λ w h.
                  (conclude-Keeps m.message_id (handle c now m.command w).0).at
                    (handle c now m.command w).1 ((handle-Keeps now m.command).at w h);
            }))

      receive_all-Keeps : (ms : List (Time × Envelope)) → Keeps P (receive_all c ms)
      unfolding receive_all
      receive_all-Keeps [] = Keeps-pure tt
      receive_all-Keeps ((now, m) ∷ rest) =
          Keeps-bind (receive c now m) (λ _. receive_all c rest) (receive-Keeps now m)
            (λ _. receive_all-Keeps rest)

-- At most 2049 message IDs are held.
abbrev pub IsBounded : Node → Type 0
IsBounded n = length n.seen ≤ 2049

mark_seen-IsBounded : (id : String) → Keeps IsBounded (mark_seen id)
unfolding mark_seen
mark_seen-IsBounded id = Keeps-modify _ (λ n h. ground arith)

reply-IsBounded :
    (kind id : String) (b : Bool) (code : String) → Keeps IsBounded (reply kind id b code)
unfolding reply
reply-IsBounded kind id b code = Keeps-modify _ (λ n h. h)

-- However many messages the client receives, with whatever commands and failures, it holds at most
-- 2049 message IDs, if its kickers and its provisioner keep that bound.
pub receive_all-IsBounded :
    (c : Client) (ms : List (Time × Envelope)) (w : World)
    → KickersKeep IsBounded c.kickers
    → ProvisionerKeeps IsBounded c.provisioner
    → IsBounded w.held
    → IsBounded (receive_all c ms w).1.held
receive_all-IsBounded c ms w kickers provisioner h =
    (receive_all-Keeps IsBounded (λ n s k. k) c kickers provisioner mark_seen-IsBounded
        reply-IsBounded ms).at
      w h
