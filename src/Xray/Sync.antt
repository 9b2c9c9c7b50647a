-- ===== src/Xray/Sync.antt =====
-- After a reconciliation Xray has just the users that it should have.
use rmvpn.Base.{
  ◌≡◌, ◌≢◌, refl, String, Bool, true, false, Option, none, some, List, [], ◌∷◌, ◌==◌, eq_iff, arith,
  ap, sym, subst, ◌∙◌, find, if◌then◌else◌, inl, inr, Bool-cases,
}
use rmvpn.Base.Time.{Time}
use rmvpn.Base.Outcome.{Result, ok, err}
use rmvpn.Model.{Device}
use rmvpn.Exec.{World, M, call, query, lift, pure, ◌>>=◌, ◌>>◌}
use rmvpn.Exec.Success.{>>=-eq-ok}
use rmvpn.Xray.Api.{Users, Inbound, lookup, current, remove, dial}
use rmvpn.Store.Devices.{devices}
use rmvpn.Xray.{names, without, desired_of, add, sync_user, sync_users, add_all, reconcile}
use rmvpn.Xray.Effects.{
  remove-eq-ok, find-without, found_named, IsMap, contradict, Matches, added, moved, all_added,
}

module _ (x : Inbound) (user_id : String → Result String) where
  lift_ok :
      (r : Result String) (f : String → M (Unit {0})) (w : World)
      → ((lift r >>= f) w).0 ≡ ok tt
      → (a : String) × (r ≡ ok a) × ((f a w).0 ≡ ok tt) × (((lift r >>= f) w).1 ≡ (f a w).1)
  lift_ok (err y) f w e = cc
  lift_ok (ok a) f w e = (a, refl, e, refl)

  abbrev switch_to : String → String → Device → String → M (Unit {0})
  switch_to id user d expected =
      if user == expected then pure tt else (remove x id >> add x user_id d)

  switched :
      (id user expected : String) (d : Device) (w : World) (b : Bool)
      → (b ≡ true → user ≡ expected)
      → d.id ≡ id
      → user_id d.credential_hash ≡ ok expected
      → lookup id w.held.users ≡ some user
      → ((if b then pure tt else (remove x id >> add x user_id d)) w).0 ≡ ok tt
      → let users = ((if b then pure tt else (remove x id >> add x user_id d)) w).1.held.users in
        Matches user_id (some d) (lookup id users)
        × ((j : String) → id ≢ j → lookup j users ≡ lookup j w.held.users)
  switched id user expected d w true k named p l e =
      ((expected, p, l ∙ ap some (k refl)), λ j n. refl)
  switched id user expected d w false k named p l e =
      let (u, first, second, same) = >>=-eq-ok (remove x id) (λ _. add x user_id d) w e in
      let v : World = (remove x id w).1 in
      let (fresh, now_there, others) = added x user_id d v second in
      let at : (j : String) → _ = λ j. ap (λ (z : World). lookup j z.held.users) same in
      (
        moved x user_id d d _ _ refl (at id) (
            subst (λ i. Matches user_id (some d) (lookup i (add x user_id d v).1.held.users)) named
              now_there),
        λ j n.
            at j
            ∙ others j (λ q. n (sym named ∙ q))
            ∙ ground (arith, remove-eq-ok x id j w first, eq_iff id j),
      )

  -- One user of the snapshot, which Xray still has, is made right.
  synced :
      (id user : String) (o : Option Device) (w : World)
      → ((d : Device) → o ≡ some d → d.id ≡ id)
      → lookup id w.held.users ≡ some user
      → (sync_user x user_id id user o w).0 ≡ ok tt
      → let users = (sync_user x user_id id user o w).1.held.users in
        Matches user_id o (lookup id users)
        × ((j : String) → id ≢ j → lookup j users ≡ lookup j w.held.users)
  unfolding sync_user
  synced id user none w named l e = (
    ground (arith, remove-eq-ok x id id w e, eq_iff id id),
    λ j n. ground (arith, remove-eq-ok x id j w e, eq_iff id j),
  )
  synced id user (some d) w named l e =
      let (expected, p, second, same) =
        lift_ok (user_id d.credential_hash) (switch_to id user d) w e in
      let s =
        switched id user expected d w (user == expected) (λ h. (eq_iff user expected).0 h)
          (named d refl) p l second in
      (
        moved x user_id d d _ _ refl (ap (λ (z : World). lookup id z.held.users) same) s.0,
        λ j n. ap (λ (z : World). lookup j z.held.users) same ∙ s.1 j n,
      )

  all_synced :
      (rest : Users) (desired left : List Device) (w : World)
      → IsMap rest
      → ((j u : String) → lookup j rest ≡ some u → lookup j w.held.users ≡ some u)
      → (sync_users x user_id rest desired w).0 ≡ ok left
      → (j : String)
      → let users = (sync_users x user_id rest desired w).1.held.users in
        ((u : String)
          → lookup j rest ≡ some u
          → Matches user_id (find (names j) desired) (lookup j users)
            × (find (names j) left ≡ none))
        × (lookup j rest ≡ none
            → (lookup j users ≡ lookup j w.held.users)
              × (find (names j) left ≡ find (names j) desired))
  unfolding sync_users
  all_synced [] desired left w m k e j = (λ u l. absurd (ground arith), λ l. (refl, ground arith))
  all_synced ((id, user) ∷ rest) desired left w m k e j =
      let (u, first, second, same) =
        >>=-eq-ok (sync_user x user_id id user (find (names id) desired))
          (λ _. sync_users x user_id rest (without id desired)) w e in
      let v : World = (sync_user x user_id id user (find (names id) desired) w).1 in
      let (right, others) =
        synced id user (find (names id) desired) w (λ d f. found_named id desired d f)
          (k id user (ground (arith, eq_iff id id))) first in
      let (known, unknown) =
        all_synced rest (without id desired) left v m.1
          (λ i u' l.
            (let n : id ≢ i = λ p. contradict (ap (λ z. lookup z rest) (sym p) ∙ m.0) l in
              others i n ∙ k i u' (ground (arith, l, n, eq_iff id i))))
          second j in
      let end = ap (λ (z : World). lookup j z.held.users) same in
      let cut = find-without id j desired in
      elim (Bool-cases (id == j)) [
        | inl hit ↦
            (let p : id ≡ j = (eq_iff id j).0 hit in
              let gone = unknown (ap (λ z. lookup z rest) (sym p) ∙ m.0) in
              let at_j =
                subst (λ i. Matches user_id (find (names i) desired) (lookup i v.held.users)) p
                  right in
              (
                λ u' l. (
                  subst (Matches user_id (find (names j) desired)) (sym (end ∙ gone.0)) at_j,
                  gone.1 ∙ ground (arith, hit, cut),
                ),
                λ l. absurd (ground (arith, hit, l)),
              ))
        | inr miss ↦
            (let same_find : find (names j) (without id desired) ≡ find (names j) desired =
                ground (arith, miss, cut) in
              let n : id ≢ j = λ p. ground (arith, miss, (eq_iff id j).1 p) in
              (
                λ u' l.
                    (let r = known u' (ground (arith, miss, l)) in
                      (
                        subst (Matches user_id (find (names j) desired)) (sym end) (
                            subst
                              (λ o. Matches user_id o (
                                lookup j
                                  (sync_users x user_id rest (without id desired) v).1.held.users))
                              same_find r.0),
                        r.1,
                      )),
                λ l.
                    (let r = unknown (ground (arith, miss, l)) in
                      (end ∙ r.0 ∙ others j n, r.1 ∙ same_find)),
              ))
      ]

  devices_node :
      (w : World) (ds : List Device) → (devices w).0 ≡ ok ds → (devices w).1.held ≡ w.held
  unfolding devices query call
  devices_node w ds e = ground arith

  current-eq-ok :
      (w : World) (users : Users)
      → (current x w).0 ≡ ok users
      → (users ≡ w.held.users) × ((current x w).1.held ≡ w.held)
  unfolding current dial call
  current-eq-ok w users e = (ground arith, ground arith)

  joined_at :
      (j : String) (o : Option Device) (seen before middle end : Option String)
      (left : Option Device)
      → seen ≡ before
      → ((u : String) → seen ≡ some u → Matches user_id o middle × (left ≡ none))
      → (seen ≡ none → (middle ≡ before) × (left ≡ o))
      → (left ≡ none → end ≡ middle)
      → ((d : Device) → left ≡ some d → (middle ≡ none) × Matches user_id (some d) end)
      → Matches user_id o end
  joined_at j o (some u) before middle end left s known unknown keep_it put_it =
      let (m, gone) = known u refl in subst (Matches user_id o) (sym (keep_it gone)) m
  joined_at j none none before middle end left s known unknown keep_it put_it =
      let (m, l) = unknown refl in keep_it l ∙ m ∙ sym s
  joined_at j (some d) none before middle end left s known unknown keep_it put_it =
      (put_it d (unknown refl).1).1

  -- A reconciliation that returns, over users with distinct IDs, has read the devices, and leaves
  -- Xray with exactly the devices that may connect and are not blocked, each as the user that its
  -- credential's hash stands for.
  pub reconcile_sound :
      (now : Time) (w : World)
      → IsMap w.held.users
      → (reconcile x user_id now w).0 ≡ ok tt
      → (ds : List Device) × ((devices w).0 ≡ ok ds)
        × ((j : String)
            → Matches user_id
                (find (names j) (desired_of now ds w.held.blocked))
                (lookup j (reconcile x user_id now w).1.held.users))
  unfolding reconcile
  reconcile_sound now w m e =
      let (ds, first, e1, n1) = >>=-eq-ok devices _ w e in
      let v : World = (devices w).1 in
      let (users, second, e2, n2) = >>=-eq-ok (current x) _ v e1 in
      let v2 : World = (current x v).1 in
      let same : v2.held ≡ w.held = (current-eq-ok v users second).1 ∙ devices_node w ds first in
      let listed : users ≡ w.held.users =
        (current-eq-ok v users second).0 ∙ ap (λ n. n.users) (devices_node w ds first) in
      let desired = desired_of now ds v2.held.blocked in
      let (left, third, e3, n3) =
        >>=-eq-ok (sync_users x user_id users desired) (add_all x user_id) v2 e2 in
      let held : v2.held.users ≡ users = ap (λ n. n.users) same ∙ sym listed in
      let middle : World = (sync_users x user_id users desired v2).1 in
      (
        ds,
        first,
        λ j.
            (let (known, unknown) =
                all_synced users desired left v2 (subst IsMap (sym listed) m)
                  (λ i u l. ap (lookup i) held ∙ l) third j in
              let (keep_it, put_it) = all_added x user_id left middle e3 j in
              let right =
                joined_at j (find (names j) desired) (lookup j users) (lookup j v2.held.users)
                  (lookup j middle.held.users)
                  (lookup j (add_all x user_id left middle).1.held.users) (find (names j) left)
                  (ap (lookup j) (sym held)) known unknown keep_it put_it in
              subst
                (λ b.
                  Matches user_id (find (names j) (desired_of now ds b))
                    (lookup j (reconcile x user_id now w).1.held.users))
                (ap (λ n. n.blocked) same)
                (subst (Matches user_id (find (names j) desired))
                  (sym (ap (λ (z : World). lookup j z.held.users) (n1 ∙ n2 ∙ n3))) right)),
      )
