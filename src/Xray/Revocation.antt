-- ===== src/Xray/Revocation.antt =====
-- A revoked or kicked device stays out of Xray.
use rmvpn.Base.{
  ◌≡◌, refl, String, true, none, List, [], ◌∷◌, eq_iff, arith, ap, subst, ◌∙◌, find, contains,
}
use rmvpn.Base.Time.{Time}
use rmvpn.Base.Outcome.{Result, ok}
use rmvpn.Model.{Device}
use rmvpn.Exec.{World, call}
use rmvpn.Xray.Api.{Inbound, lookup, remove, dial}
use rmvpn.Xray.{names, desired_of, revoke, reconcile}
use rmvpn.Xray.Effects.{IsMap, Matches, remove-eq-ok}
use rmvpn.Xray.Sync.{reconcile_sound}

not_desired :
    (now : Time) (id : String) (ds : List Device) (blocked : List String)
    → contains id blocked ≡ true
    → find (names id) (desired_of now ds blocked) ≡ none
not_desired now id [] blocked c = refl
not_desired now id (d ∷ ds) blocked c =
    let e : names id d ≡ true → contains d.id blocked ≡ true =
      λ h. ap (λ z. contains z blocked) ((eq_iff d.id id).0 h) ∙ c in
    ground (arith, not_desired now id ds blocked c, e)

module _ (x : Inbound) (user_id : String → Result String) (id : String) where
  -- A revocation that returns has taken the device out of Xray, and blocks it.
  revoked :
      (w : World)
      → (revoke x user_id id w).0 ≡ ok tt
      → (lookup id (revoke x user_id id w).1.held.users ≡ none)
        × (contains id (revoke x user_id id w).1.held.blocked ≡ true)
  unfolding revoke remove dial call
  revoked w e =
      let v : World = record w { held = record (w.held) { blocked = id ∷ w.held.blocked } } in
      (ground (arith, remove-eq-ok x id id v e, eq_iff id id), ground (arith, eq_iff id id))

  -- After a revocation that returned, which is also what a kick does, the device is out of Xray, and
  -- it is out of Xray after every reconciliation, over users with distinct IDs, that returns while
  -- the device is still blocked.
  pub revoke_lasting :
      (now : Time) (w v : World)
      → (revoke x user_id id w).0 ≡ ok tt
      → IsMap v.held.users
      → (contains id (revoke x user_id id w).1.held.blocked ≡ true
          → contains id v.held.blocked ≡ true)
      → (reconcile x user_id now v).0 ≡ ok tt
      → (lookup id (revoke x user_id id w).1.held.users ≡ none)
        × (lookup id (reconcile x user_id now v).1.held.users ≡ none)
  revoke_lasting now w v e m still r =
      let (out, blocked) = revoked w e in
      let (ds, listed, right) = reconcile_sound x user_id now v m r in
      (
        out,
        subst (λ o. Matches user_id o (lookup id (reconcile x user_id now v).1.held.users))
            (not_desired now id ds v.held.blocked (still blocked)) (right id),
      )
