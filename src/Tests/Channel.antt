-- ===== src/Tests/Channel.antt =====
-- A lease and commands over the control channel.
use rmvpn.Base.{
  ◌*◌, String, true, false, none, some, [], ◌∷◌, ◌++◌, refl, ◌≡◌, ◌↔◌, ◌⊎◌, arith, contains,
}
use rmvpn.Base.Int.{pos}
use rmvpn.Base.Time.{minute}
use rmvpn.Base.Outcome.{ok, is_ok}
use rmvpn.Exec.{World, exec, exec_checked, query, call}
use rmvpn.Store.State.{state_value, lookup}
use rmvpn.Store.Devices.{device_by_id, upsert_device, upsert_rows}
use rmvpn.Store.Devices
use rmvpn.Protocol.{QuotaLease, verify_lease, sign_lease, signing_bytes, check_signature}
use rmvpn.Protocol.Leases.{IsUsable, verify_lease_iff, verify-sign_lease}
use rmvpn.Control.Messages.{Envelope, device_revoke, session_kick}
use rmvpn.Control.Handlers.{
  Client, handle_lease, handle_revoke, setting_or, provision, kick_all, provisioner_revoke,
}
use rmvpn.Control.{handle, receive}
use rmvpn.Control.LeaseUpdates.{IsAccepted, handle_lease_sound}
use rmvpn.Control.Replay.{answer_of, receive_fresh, receive_once}
use rmvpn.Control.{receive_all}
use rmvpn.Control.Memory.{IsBounded, receive_all-IsBounded}
use rmvpn.Exec.Keeps.{Keeps, Keeps-call}
use rmvpn.Collector.{kick}
use rmvpn.Tests.Samples.{named, sample, sample_node, digest, toy_crypto, toy_codec, toy_lease_bytes}

abbrev lease : QuotaLease
lease = record {
  lease_id = "lease-1";
  device_id = "phone";
  node_id = "node-1";
  bytes = pos 500;
  issued_at = 100 * minute;
  expires_at = 200 * minute;
  key_id = "k";
  signature = "lease-1";
}

lease-IsUsable : IsUsable (120 * minute) lease
lease-IsUsable = record {
  named = named "lease-1" refl;
  for_device = named "phone" refl;
  for_node = named "node-1" refl;
  nonnegative = ground arith;
  unexpired = ground arith;
  issued = ground arith;
  within_day = ground arith;
}

verify_lease_iff_example :
    (verify_lease toy_crypto toy_lease_bytes digest (120 * minute) lease ≡ ok tt) ↔ (
      IsUsable (120 * minute) lease
      × (signature : String) × (some "lease-1" ≡ some signature)
      × (toy_crypto.verify digest (signing_bytes toy_crypto toy_lease_bytes lease) signature
          ≡ true))
verify_lease_iff_example = verify_lease_iff toy_crypto toy_lease_bytes digest (120 * minute) lease

verify-sign_lease_example :
    verify_lease toy_crypto toy_lease_bytes digest
      (120 * minute)
      (sign_lease toy_crypto toy_lease_bytes "private" lease)
    ≡ ok tt
verify-sign_lease_example =
    verify-sign_lease toy_crypto toy_lease_bytes "private" (120 * minute) lease lease-IsUsable

abbrev client : Client
client = record {
  crypto = toy_crypto;
  codec = toy_codec;
  lease_bytes = toy_lease_bytes;
  parse_pem = λ pem. none;
  kickers = [];
  provisioner = none;
}

lease_taken : (handle_lease client (120 * minute) lease sample).0 ≡ ok tt
unfolding handle_lease setting_or state_value lookup query call verify_lease signing_bytes
    check_signature device_by_id upsert_device exec_checked upsert_rows provision
lease_taken = refl

handle_lease_sound_example : IsAccepted client (120 * minute) lease sample
handle_lease_sound_example = handle_lease_sound client (120 * minute) lease sample lease_taken

abbrev revocation : Envelope
revocation = record { message_id = "m1"; command = device_revoke "phone" }

revoked : (handle client 5 revocation.command sample).0 ≡ ok tt
unfolding handle handle_revoke Devices.revoke_device exec call provisioner_revoke kick_all
revoked = refl

receive_fresh_example :
    let handled = handle client 5 revocation.command sample in
    let n = (receive client 5 revocation sample).1.held in
    ((handled.0 ≡ ok tt)
      × (contains "m1" n.seen ≡ true)
      × (n.sent ≡ handled.1.held.sent ++ answer_of "ack" "m1" true "" ∷ []))
    ⊎ ((is_ok handled.0 ≡ false)
        × (n.seen ≡ handled.1.held.seen)
        × (n.sent ≡ handled.1.held.sent ++ answer_of "nack" "m1" false "apply-failed" ∷ []))
receive_fresh_example = receive_fresh client 5 revocation sample (named "m1" refl) refl

abbrev seen_sample : World
seen_sample = record sample { held = record sample_node { seen = "m1" ∷ [] } }

abbrev kicking : Envelope
kicking = record { message_id = "m1"; command = session_kick "phone" }

receive_once_example :
    let v = (receive client 5 revocation sample).1 in
    ((receive client 6 kicking v).1.held.store ≡ v.held.store)
    × ((receive client 6 kicking v).1.held.users ≡ v.held.users)
receive_once_example =
    receive_once client 5 6 revocation kicking sample (receive client 5 revocation sample).1
      (named "m1" refl) refl revoked (λ e. e)

abbrev kicking_client : Client
kicking_client = record client { kickers = kick ∷ [] }

kick-IsBounded : (id : String) → Keeps IsBounded (kick id)
unfolding kick
kick-IsBounded id = Keeps-call _ (λ n h. h)

receive_all-IsBounded_example :
    IsBounded (receive_all kicking_client ((5, revocation) ∷ (6, kicking) ∷ []) sample).1.held
receive_all-IsBounded_example =
    receive_all-IsBounded kicking_client ((5, revocation) ∷ (6, kicking) ∷ []) sample
      (kick-IsBounded, tt) tt (ground arith)
