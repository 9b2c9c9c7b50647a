-- ===== src/Tests/Inbounds.antt =====
-- A reconciliation of a sample Xray, which still has a device that is gone.
use rmvpn.Base.{
  String, Option, none, some, List, [], ◌∷◌, refl, ◌≡◌, arith, find, ◌==◌, eq_iff, if◌then◌else◌,
  sort_by,
}
use rmvpn.Base.Outcome.{Result, ok}
use rmvpn.Model.{Device, policy_of}
use rmvpn.Exec.{World, call, query}
use rmvpn.Store.Devices.{devices}
use rmvpn.Xray.{
  reconcile, sync_users, sync_user, add_all, add, allowed, allowed_plan, desired_of, names,
}
use rmvpn.Xray.Api.{Users, Inbound, lookup, dial, current, add_user, remove}
use rmvpn.Xray.Effects.{Matches}
use rmvpn.Xray.Sync.{reconcile_sound}
use rmvpn.Xray.{revoke}
use rmvpn.Xray.Revocation.{revoke_lasting}
use rmvpn.Tests.Samples.{sample, sample_node}

abbrev add_if : String → String → Users → Option String → Option Users
add_if id user users none = some ((id, user) ∷ users)
add_if id user users (some old) = none

abbrev dropped : String → Users → Users
dropped id [] = []
dropped id ((i, user) ∷ rest) =
    let others = dropped id rest in if i == id then others else (i, user) ∷ others

lookup-add_if :
    (id user j : String) (users next : Users) (o : Option String)
    → add_if id user users o ≡ some next
    → lookup j next ≡ (if id == j then some user else lookup j users)
lookup-add_if id user j users next none e = ground arith
lookup-add_if id user j users next (some old) e = cc

lookup-dropped :
    (id j : String) (users : Users)
    → lookup j (dropped id users) ≡ (if id == j then none else lookup j users)
lookup-dropped id j [] = ground arith
lookup-dropped id j ((i, user) ∷ rest) =
    ground (arith, lookup-dropped id j rest, eq_iff i id, eq_iff i j, eq_iff id j)

abbrev inbound : Inbound
inbound = record {
  address = "127.0.0.1:10085";
  adds = λ id user users. add_if id user users (lookup id users);
  removes = λ id users. some (dropped id users);
  adds_fresh = λ id user users e. ((id, user) ∷ users, ground (arith, e));
  adds_used = λ id user old users e. ground (arith, e);
  lookup-adds = λ id user j users next e. lookup-add_if id user j users next (lookup id users) e;
  lookup-removes = λ id j users. lookup-dropped id j users;
}

abbrev user_id : String → Result String
user_id hash = ok hash

abbrev stale_sample : World
stale_sample = record sample { held = record sample_node { users = ("tablet", "old") ∷ [] } }

reconciled : (reconcile inbound user_id 7 stale_sample).0 ≡ ok tt
unfolding reconcile devices query call sort_by current dial sync_users sync_user add_all add
    add_user remove allowed allowed_plan policy_of
reconciled = refl

reconcile_sound_example :
    (ds : List Device) × ((devices stale_sample).0 ≡ ok ds)
    × ((j : String)
        → Matches user_id
            (find (names j) (desired_of 7 ds []))
            (lookup j (reconcile inbound user_id 7 stale_sample).1.held.users))
reconcile_sound_example = reconcile_sound inbound user_id 7 stale_sample (refl, tt) reconciled

-- The sample with its phone in Xray, before and after the phone is revoked.
abbrev with_phone : World
with_phone = record sample { held = record sample_node { users = ("phone", "p") ∷ [] } }

phone_revoked : (revoke inbound user_id "phone" with_phone).0 ≡ ok tt
unfolding revoke remove dial call
phone_revoked = refl

abbrev without_phone : World
without_phone = record sample { held = record sample_node { blocked = "phone" ∷ [] } }

still_reconciled : (reconcile inbound user_id 7 without_phone).0 ≡ ok tt
unfolding reconcile devices query call sort_by current dial sync_users sync_user add_all add
    add_user remove allowed allowed_plan policy_of
still_reconciled = refl

revoke_lasting_example :
    (lookup "phone" (revoke inbound user_id "phone" with_phone).1.held.users ≡ none)
    × (lookup "phone" (reconcile inbound user_id 7 without_phone).1.held.users ≡ none)
revoke_lasting_example =
    revoke_lasting inbound user_id "phone" 7 with_phone without_phone phone_revoked tt (λ e. refl)
      still_reconciled
