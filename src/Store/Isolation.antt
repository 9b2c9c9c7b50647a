-- ===== src/Store/Isolation.antt =====
-- A booking of store.go touches one device.
use rmvpn.Base.{
  ◌+◌, ◌^◌, ltb, Bool-cases, inl, inr, ◌≡◌, ◌≢◌, refl, String, true, Option, none, some, List, [],
  ◌∷◌, find, arith, ◌∙◌, eq_iff, if◌then◌else◌,
}
use rmvpn.Base.Int.{ℤ, sql_add, add64}
use rmvpn.Base.Time.{Time}
use rmvpn.Base.Outcome.{Error, no_rows}
use rmvpn.Node.{Node}
use rmvpn.Node.Tables.{DeviceRow}
use rmvpn.Exec.{World, exec_checked, kept_or, or_raise, query}
use rmvpn.Exec.Keeps.{
  Keeps, Keeps-exec_checked, Keeps-pure, Keeps-raise, Keeps-transaction, Keeps-bind, Keeps-query,
}
use rmvpn.Store.Devices.{has_id}
use rmvpn.Store.Usage.{
  add_usage, add_usage_body, add_used, with_used, with_devices, insert_numbered, used_of,
}
use rmvpn.Store.Accounting.{cons_row-eq-some}

-- What a device's ID finds.
unfoldable Finds : String → Option DeviceRow → Node → Type 0
Finds j o n = find (has_id j) n.store.devices ≡ o

module _ (id j : String) (bytes : ℤ) (apart : j ≢ id) where
  -- The row stays the one that `j` finds, or stays one that `j` does not find.
  same_row :
      (r y : DeviceRow) (o : Option ℤ)
      → (if has_id id r then with_used r o else some r) ≡ some y
      → (has_id j y ≡ has_id j r) × (has_id j r ≡ true → y ≡ r)
  same_row r y none e = (ground (arith, e), λ h. ground (arith, e))
  same_row r y (some used) e = (
    ground (arith, e),
    λ h. ground (arith, e, eq_iff r.device_id id, eq_iff r.device_id j, apart),
  )

  find-add_used_other :
      (rows after : List DeviceRow)
      → add_used id bytes rows ≡ some after
      → find (has_id j) after ≡ find (has_id j) rows
  unfolding add_used
  find-add_used_other [] after e = ground arith
  find-add_used_other (r ∷ rows) after e =
      let (y, ys, p, q, z) = cons_row-eq-some _ (add_used id bytes rows) after e in
      let s = same_row r y (sql_add r.used_bytes bytes) p in
      ground (arith, z, s, find-add_used_other rows ys q)

  kept_at :
      (o : Option DeviceRow) (n : Node) (after : Option (List DeviceRow))
      → add_used id bytes n.store.devices ≡ after
      → find (has_id j) n.store.devices ≡ o
      → find (has_id j) (kept_or n (with_devices n.store after)).1.store.devices ≡ o
  kept_at o n none e h = h
  kept_at o n (some rows) e h = find-add_used_other n.store.devices rows e ∙ h

  booked_apart :
      (o : Option DeviceRow)
      → Keeps (Finds j o) (exec_checked (λ s. with_devices s (add_used id bytes s.devices)))
  unfolding Finds
  booked_apart o = Keeps-exec_checked _ (λ n h. kept_at o n _ refl h)

inserted_apart :
    (id j : String) (tx rx : ℤ) (now : Time) (o : Option DeviceRow)
    → Keeps (Finds j o) (exec_checked (insert_numbered id tx rx now))
unfolding Finds
inserted_apart id j tx rx now o = Keeps-exec_checked _ (λ n h.
    elim (Bool-cases (ltb (n.store.last_event + 1) (2 ^ 63))) [ inl t ↦ rw t h | inr f ↦ rw f h ])

raised_apart :
    (j : String) (o : Option DeviceRow) (x : Error) (a : Option ℤ)
    → Keeps (Finds j o) (or_raise x a)
raised_apart j o x none = Keeps-raise x
raised_apart j o x (some a) = Keeps-pure a

add_usage_apart :
    (id j : String) (tx rx : ℤ) (now : Time) (o : Option DeviceRow)
    → j ≢ id
    → Keeps (Finds j o) (add_usage id tx rx now)
unfolding add_usage add_usage_body
add_usage_apart id j tx rx now o n = Keeps-transaction (add_usage_body id tx rx now) (
    Keeps-bind (exec_checked (insert_numbered id tx rx now)) _ (inserted_apart id j tx rx now o)
      (λ _.
        Keeps-bind (exec_checked (λ s. with_devices s (add_used id (add64 tx rx) s.devices))) _
          (booked_apart id j (add64 tx rx) n o)
          (λ _.
            Keeps-bind (query (λ s. used_of (find (has_id id) s.devices))) (or_raise no_rows)
              (Keeps-query _) (raised_apart j o no_rows))))

-- A booking leaves every other device as it was, whether it returns or fails.
pub add_usage_isolated :
    (id j : String) (tx rx : ℤ) (now : Time) (w : World)
    → j ≢ id
    → find (has_id j) (add_usage id tx rx now w).1.held.store.devices
      ≡ find (has_id j) w.held.store.devices
unfolding Finds
add_usage_isolated id j tx rx now w n = (add_usage_apart id j tx rx now _ n).at w refl
