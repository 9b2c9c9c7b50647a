-- ===== src/Plane/Roles/Owners.antt =====
-- The last owner keeps the role.
use rmvpn.Base.{
  ◌+◌, ◌≤◌, String, Bool, true, false, not, ◌&&◌, ◌||◌, Option, none, some, List, [], ◌∷◌, ◌++◌,
  ◌==◌, ◌≡◌, refl, sym, subst, arith, find, keep, length, ltb, inl, inr, Bool-cases, ◌⊎◌, ◌<◌,
  eq_iff, if◌then◌else◌,
}
use rmvpn.Base.Text.{Runes}
use rmvpn.Plane.Tables.{Plane, RoleRow}
use rmvpn.Plane.Wallet.{has_role, role_of, role_text, has_reason}
use rmvpn.Plane.Roles.{is_owner, owners, set_admin_role, remove_admin_role, is_allowed_role}
use rmvpn.Plane.Hub.Connection.{is_active_user}
use rmvpn.Exec.{Run}

-- A user has at most one role, and some user is an owner.
pub record IsOwned (rows : List RoleRow) : Type 0 where
  pub single : (user : String) → length (keep (has_role user) rows) ≤ 1
  pub owned : 1 ≤ length (keep is_owner rows)

abbrev others : String → List RoleRow → List RoleRow
others user rows = keep (λ (r : RoleRow). not (has_role user r)) rows

-- Without a user's rows there are as many owners less than the rows taken.
owners-others :
    (user : String) (rows : List RoleRow)
    → length (keep is_owner rows)
      ≤ length (keep is_owner (others user rows)) + length (keep (has_role user) rows)
owners-others user [] = omega arith
owners-others user (r ∷ rows) = ground (arith, owners-others user rows)

single-others :
    (user v : String) (rows : List RoleRow)
    → length (keep (has_role v) (others user rows)) ≤ length (keep (has_role v) rows)
single-others user v [] = omega arith
single-others user v (r ∷ rows) = ground (arith, single-others user v rows)

none-others :
    (user : String) (rows : List RoleRow) → length (keep (has_role user) (others user rows)) ≡ 0
none-others user [] = refl
none-others user (r ∷ rows) = ground (arith, none-others user rows)

length-keep-snoc :
    (f : RoleRow → Bool) (rows : List RoleRow) (x : RoleRow)
    → length (keep f (rows ++ x ∷ [])) ≡ length (keep f rows) + (if f x then 1 else 0)
length-keep-snoc f [] x = ground arith
length-keep-snoc f (r ∷ rows) x = ground (arith, length-keep-snoc f rows x)

without :
    (user : String) (rows : List RoleRow)
    → length (keep (has_role user) rows) ≡ 0
    → length (keep is_owner (others user rows)) ≡ length (keep is_owner rows)
without user [] h = refl
without user (r ∷ rows) h = elim (Bool-cases (has_role user r)) [
  | inl t ↦ absurd (ground (arith, t, h))
  | inr f ↦ ground (arith, f, without user rows (ground (arith, f, h)))
]

-- A user whose role is not the owner's takes no owner along.
same_owners :
    (user : String) (rows : List RoleRow)
    → length (keep (has_role user) rows) ≤ 1
    → (role_text (find (has_role user) rows) == "owner") ≡ false
    → length (keep is_owner (others user rows)) ≡ length (keep is_owner rows)
same_owners user [] single plain = refl
same_owners user (r ∷ rows) single plain = elim (Bool-cases (has_role user r)) [
  | inl t ↦
      let alone : length (keep (has_role user) rows) ≡ 0 = ground (arith, t, single) in
      ground (arith, t, plain, without user rows alone)
  | inr f ↦
      ground
        (arith, f, same_owners user rows (ground (arith, f, single)) (ground (arith, f, plain)))
]

removed-IsOwned :
    (user : String) (rows : List RoleRow)
    → ((role_text (find (has_role user) rows) == "owner") ≡ false)
      ⊎ (1 < length (keep is_owner rows))
    → IsOwned rows
    → IsOwned (others user rows)
removed-IsOwned user rows why k = record {
  single = λ v. omega (arith, single-others user v rows, k.single v);
  owned = elim why [
    | inl f ↦ omega (arith, same_owners user rows (k.single user) f, k.owned)
    | inr many ↦ omega (arith, owners-others user rows, k.single user, many)
  ];
}

set-IsOwned :
    (user role : String) (rows : List RoleRow)
    → ((role == "owner") ≡ true)
      ⊎ ((role_text (find (has_role user) rows) == "owner") ≡ false)
      ⊎ (1 < length (keep is_owner rows))
    → IsOwned rows
    → IsOwned (others user rows ++ record { user_id = user; role = role } ∷ [])
set-IsOwned user role rows why k =
    let new : RoleRow = record { user_id = user; role = role } in
    record {
      single = λ v. elim (Bool-cases (user == v)) [
        | inl t ↦
            let none_left =
              subst (λ u. length (keep (has_role u) (others user rows)) ≡ 0) ((eq_iff user v).0 t)
                (none-others user rows) in
            ground (arith, t, none_left, length-keep-snoc (has_role v) (others user rows) new)
        | inr f ↦ ground (
          arith,
          f,
          length-keep-snoc (has_role v) (others user rows) new,
          single-others user v rows,
          k.single v,
        )
      ];
      owned = elim why [
        | inl t ↦ ground (arith, t, length-keep-snoc is_owner (others user rows) new)
        | inr w ↦ ground (
          arith,
          (removed-IsOwned user rows w k).owned,
          length-keep-snoc is_owner (others user rows) new,
        )
      ];
    }

-- The state in which every call of the database answers.
abbrev pub answering : Plane → Run Plane
answering p = record { held = p; faults = [] }

abbrev may_lose : String → Plane → Bool
may_lose user p = not (role_of user p == "owner") || ltb 1 (owners p)

set_cases :
    (actor user role : String) (reason : Runes) (p : Plane)
    → let after =
        (set_admin_role actor user (some (role, reason)) (answering p)).1.held.user_roles in
      (after ≡ p.user_roles)
      ⊎ ((after ≡ others user p.user_roles ++ record { user_id = user; role = role } ∷ [])
          × ((role == "owner") || may_lose user p ≡ true))
unfolding set_admin_role
set_cases actor user role reason p = elim (Bool-cases (is_allowed_role role && has_reason reason)) [
  | inr f ↦ rw f (inl refl)
  | inl t ↦ rw t (elim (Bool-cases (is_active_user user p)) [
    | inr f ↦ rw f (inl refl)
    | inl a ↦ rw a (elim (Bool-cases (role_of user p == "owner" && not (role == "owner"))) [
      | inr f ↦ rw f (elim (Bool-cases p.infers_types) [
        | inl c ↦ rw c (inr (refl, ground (arith, f)))
        | inr n ↦ rw n (inl refl)
      ])
      | inl l ↦ rw l (elim (Bool-cases (ltb 1 (owners p))) [
        | inr f ↦ rw f (inl refl)
        | inl m ↦ rw m (elim (Bool-cases p.infers_types) [
          | inl c ↦ rw c (inr (refl, ground (arith, m)))
          | inr n ↦ rw n (inl refl)
        ])
      ])
    ])
  ])
]

remove_cases :
    (actor user : String) (reason : Runes) (p : Plane)
    → let after = (remove_admin_role actor user (some reason) (answering p)).1.held.user_roles in
      (after ≡ p.user_roles) ⊎ ((after ≡ others user p.user_roles) × (may_lose user p ≡ true))
unfolding remove_admin_role
remove_cases actor user reason p = ground arith

may_lose_cases :
    (user : String) (p : Plane)
    → may_lose user p ≡ true
    → ((role_of user p == "owner") ≡ false) ⊎ (1 < owners p)
may_lose_cases user p h = ground arith

set-kept :
    (actor user : String) (wanted : Option (String × Runes)) (p : Plane)
    → IsOwned p.user_roles
    → IsOwned (set_admin_role actor user wanted (answering p)).1.held.user_roles
unfolding set_admin_role
set-kept actor user none p k = k
set-kept actor user (some (role, reason)) p k = elim (set_cases actor user role reason p) [
  | inl same ↦ subst IsOwned (sym same) k
  | inr (new, why) ↦ subst IsOwned (sym new) (
      set-IsOwned user role p.user_roles
        (elim (Bool-cases (role == "owner")) [
          | inl t ↦ inl t
          | inr f ↦ inr (may_lose_cases user p (ground (arith, f, why)))
        ])
        k)
]

remove-kept :
    (actor user : String) (reason : Option Runes) (p : Plane)
    → IsOwned p.user_roles
    → IsOwned (remove_admin_role actor user reason (answering p)).1.held.user_roles
unfolding remove_admin_role
remove-kept actor user none p k = k
remove-kept actor user (some reason) p k = elim (remove_cases actor user reason p) [
  | inl same ↦ subst IsOwned (sym same) k
  | inr (new, why) ↦
      subst IsOwned (sym new) (removed-IsOwned user p.user_roles (may_lose_cases user p why) k)
]

-- With a database that answers, setting and taking away administrative roles, whether it succeeds
-- or is refused, leaves at least one owner and no user with two roles.
pub roles-IsOwned :
    (actor user : String) (wanted : Option (String × Runes)) (reason : Option Runes) (p : Plane)
    → IsOwned p.user_roles
    → IsOwned (set_admin_role actor user wanted (answering p)).1.held.user_roles
      × IsOwned (remove_admin_role actor user reason (answering p)).1.held.user_roles
roles-IsOwned actor user wanted reason p k =
    (set-kept actor user wanted p k, remove-kept actor user reason p k)
