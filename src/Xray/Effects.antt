-- ===== src/Xray/Effects.antt =====
-- What the calls of Xray that add and remove users leave, one by one and in sequence.
use rmvpn.Base.{
  ◌≡◌, ◌≢◌, refl, String, Option, none, some, List, [], ◌∷◌, ◌==◌, eq_iff, arith, ap, sym, subst,
  ◌∙◌, find, if◌then◌else◌, inl, inr, Bool-cases,
}
use rmvpn.Base.Outcome.{Result, ok, err}
use rmvpn.Model.{Device}
use rmvpn.Exec.{World, call, lift, ◌>>=◌}
use rmvpn.Exec.Success.{>>=-eq-ok}
use rmvpn.Xray.Api.{Users, Inbound, lookup, add_user, remove, dial}
use rmvpn.Xray.{names, without, add, add_all}

module _ (x : Inbound) where
  -- A removal and an addition that return.
  pub remove-eq-ok :
      (id j : String) (w : World)
      → (remove x id w).0 ≡ ok tt
      → lookup j (remove x id w).1.held.users ≡ (if id == j then none else lookup j w.held.users)
  unfolding remove dial call
  remove-eq-ok id j w e = ground (arith, x.lookup-removes id j w.held.users)

  fresh :
      (id user : String) (users : Users) (o : Option String) (next : Users)
      → lookup id users ≡ o
      → x.adds id user users ≡ some next
      → lookup id users ≡ none
  fresh id user users none next l a = l
  fresh id user users (some old) next l a = absurd (ground (arith, x.adds_used id user old users l))

  pub add_user-eq-ok :
      (id user j : String) (o : Option Users) (w : World)
      → x.adds id user w.held.users ≡ o
      → (add_user x id user w).0 ≡ ok tt
      → (lookup id w.held.users ≡ none)
        × (lookup j (add_user x id user w).1.held.users
            ≡ (if id == j then some user else lookup j w.held.users))
  unfolding add_user dial call
  add_user-eq-ok id user j none w a e = absurd (ground arith)
  add_user-eq-ok id user j (some next) w a e = (
    fresh id user w.held.users _ next refl a,
    ground (arith, x.lookup-adds id user j w.held.users next a),
  )

pub find-without :
    (id j : String) (ds : List Device)
    → find (names j) (without id ds) ≡ (if id == j then none else find (names j) ds)
find-without id j [] = ground arith
find-without id j (d ∷ ds) =
    ground (arith, find-without id j ds, eq_iff d.id id, eq_iff d.id j, eq_iff id j)

pub found_named :
    (id : String) (ds : List Device) (d : Device) → find (names id) ds ≡ some d → d.id ≡ id
found_named id [] d e = cc
found_named id (x ∷ ds) d e = ground (arith, found_named id ds d, eq_iff x.id id)

-- The keys of a Go map are distinct.
abbrev pub IsMap : Users → Type 0
IsMap [] = Unit
IsMap ((id, user) ∷ rest) = (lookup id rest ≡ none) × IsMap rest

pub contradict : {o : Option String} {u : String} → o ≡ none → o ≡ some u → ⊥
contradict p q = ground (arith, p, q)

-- What Xray has for a device: nothing, or the user that the credential's hash stands for.
abbrev pub Matches : (String → Result String) → Option Device → Option String → Type 0
Matches user_id none user = user ≡ none
Matches user_id (some d) user = (u : String) × (user_id d.credential_hash ≡ ok u) × (user ≡ some u)

module _ (x : Inbound) (user_id : String → Result String) where
  pub added :
      (d : Device) (w : World)
      → (add x user_id d w).0 ≡ ok tt
      → let users = (add x user_id d w).1.held.users in
        (lookup d.id w.held.users ≡ none)
        × Matches user_id (some d) (lookup d.id users)
        × ((j : String) → d.id ≢ j → lookup j users ≡ lookup j w.held.users)
  unfolding add
  added d w e = added_as (user_id d.credential_hash) refl e
    where
      added_as :
          (r : Result String)
          → user_id d.credential_hash ≡ r
          → ((lift r >>= λ id. add_user x d.id id) w).0 ≡ ok tt
          → let users = ((lift r >>= λ id. add_user x d.id id) w).1.held.users in
            (lookup d.id w.held.users ≡ none)
            × Matches user_id (some d) (lookup d.id users)
            × ((j : String) → d.id ≢ j → lookup j users ≡ lookup j w.held.users)
      added_as (err y) p e = cc
      added_as (ok u) p e =
          let a : (j : String) → _ = λ j. add_user-eq-ok x d.id u j _ w refl e in
          (
            (a d.id).0,
            (u, p, ground (arith, a d.id, eq_iff d.id d.id)),
            λ j n. ground (arith, a j, eq_iff d.id j),
          )

  settled_at :
      (d : Device) (o : Option Device) (between end : Option String)
      → Matches user_id (some d) between
      → (o ≡ none → end ≡ between)
      → ((d' : Device) → o ≡ some d' → (between ≡ none) × Matches user_id (some d') end)
      → Matches user_id (some d) end
  settled_at d none between end (u, p, q) r s = (u, p, r refl ∙ q)
  settled_at d (some d') between end (u, p, q) r s = absurd (ground (arith, q, (s d' refl).0))

  pub moved :
      (d d' : Device) (a b : Option String)
      → d ≡ d'
      → a ≡ b
      → Matches user_id (some d) b
      → Matches user_id (some d') a
  moved d d' a b p q (u, h, k) = (u, ap (λ z. user_id z.credential_hash) (sym p) ∙ h, q ∙ k)

  pub all_added :
      (ds : List Device) (w : World)
      → (add_all x user_id ds w).0 ≡ ok tt
      → (j : String)
      → let users = (add_all x user_id ds w).1.held.users in
        (find (names j) ds ≡ none → lookup j users ≡ lookup j w.held.users)
        × ((d : Device)
            → find (names j) ds ≡ some d
            → (lookup j w.held.users ≡ none) × Matches user_id (some d) (lookup j users))
  unfolding add_all
  all_added [] w e j = (λ f. refl, λ d f. absurd (ground arith))
  all_added (d ∷ ds) w e j =
      let (u, first, second, same) = >>=-eq-ok (add x user_id d) (λ _. add_all x user_id ds) w e in
      let v = (add x user_id d w).1 in
      let (fresh, now_there, others) = added d w first in
      let rest = all_added ds v second j in
      let end : (lookup j (add_all x user_id (d ∷ ds) w).1.held.users
          ≡ lookup j (add_all x user_id ds v).1.held.users) =
        ap (λ (z : World). lookup j z.held.users) same in
      elim (Bool-cases (names j d)) [
        | inl hit ↦
            (let p : d.id ≡ j = (eq_iff d.id j).0 hit in
              let at_j =
                subst (λ i. Matches user_id (some d) (lookup i v.held.users)) p now_there in
              let last = settled_at d _ _ _ at_j rest.0 rest.1 in
              (
                λ f. absurd (ground (arith, hit, f)),
                λ d' f. (
                  ap (λ i. lookup i w.held.users) (sym p) ∙ fresh,
                  moved d d' _ _ (ground (arith, hit, f)) end last,
                ),
              ))
        | inr miss ↦
            (let other : lookup j v.held.users ≡ lookup j w.held.users =
                others j (λ p. ground (arith, miss, (eq_iff d.id j).1 p)) in
              (
                λ f. end ∙ rest.0 (ground (arith, miss, f)) ∙ other,
                λ d' f.
                    (let r = rest.1 d' (ground (arith, miss, f)) in
                      (sym other ∙ r.0, moved d' d' _ _ refl end r.1)),
              ))
      ]
