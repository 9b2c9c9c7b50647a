-- ===== src/Tests/Counters.antt =====
-- A Trial device that uses up its quota.
use rmvpn.Base.{some, [], ◌∷◌, refl, ◌≡◌, ◌⊎◌, find}
use rmvpn.Base.Int.{ℤ, pos, add64, sql_add}
use rmvpn.Base.Outcome.{ok}
use rmvpn.Model.{Device, trial, policy_of}
use rmvpn.Exec.{World, transaction, exec, exec_checked, query, call}
use rmvpn.Store.Devices.{has_id, scanned, device_by_id}
use rmvpn.Store.Usage.{add_usage, add_usage_body, add_used}
use rmvpn.Collector.{Counter, collect_device, enforce, must_kick, over_limit, kick}
use rmvpn.Collector.Limits.{IsOver, collect_device_kicks}
use rmvpn.Tests.Samples.{phone_row, sample, sample_node, sample_store}

abbrev trial_sample : World
trial_sample = record sample {
  held = record sample_node {
    store = record sample_store {
      devices = record phone_row { plan = trial; used_bytes = pos 990 } ∷ [];
    };
  };
}

abbrev counter : Counter
counter = record { tx = pos 30; rx = pos 4 }

collected : (collect_device 5 "phone" counter trial_sample).0 ≡ ok tt
unfolding collect_device add_usage transaction add_usage_body exec exec_checked query call add_used
    sql_add add64 device_by_id enforce must_kick over_limit policy_of kick
collected = refl

collect_device_kicks_example :
    let ks = (collect_device 5 "phone" counter trial_sample).1.held.kicked in
    let v = (add_usage "phone" (pos 30) (pos 4) 5 trial_sample).1 in
    (ks ≡ [])
    ⊎ ((ks ≡ "phone" ∷ [])
        × ((used : ℤ) × (d : Device) × ((add_usage "phone" (pos 30) (pos 4) 5 trial_sample).0
              ≡ ok used)
            × (scanned (find (has_id "phone") v.held.store.devices) ≡ some d)
            × IsOver d used))
collect_device_kicks_example = collect_device_kicks "phone" 5 counter trial_sample collected
